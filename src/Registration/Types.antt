-- ===== src/Registration/Types.antt =====
-- The API types as a scheme knows them, and what the library offers that keeps schemes.
use machine_controller_manag.Base.{String, Option, List}
use machine_controller_manag.Action.{Action}
use machine_controller_manag.Errors.{Err}
use machine_controller_manag.Config.{
  OpenStackNetwork, MachineProviderConfig, MachineProviderConfigSpec,
}
use machine_controller_manag.Driver.Migrate.{NetworkV1alpha1, SpecV1alpha1, ConfigV1alpha1}

-- `schema.GroupVersion`
pub record GroupVersion : Type 0 where
  pub group : String
  pub version : String

-- `runtime.APIVersionInternal`
abbrev pub api_version_internal : String
api_version_internal = "__internal"

-- The packages of the API types: `openstack` and `v1alpha1`.
pub data Version : Type 0 where
  internal v1alpha1 : Version

pub data ApiType : Type 0 where
  config_type spec_type network_type : Version → ApiType

-- The values of a type.
abbrev pub ValueOf : ApiType → Type 0
ValueOf (config_type internal) = MachineProviderConfig
ValueOf (config_type v1alpha1) = ConfigV1alpha1
ValueOf (spec_type internal) = MachineProviderConfigSpec
ValueOf (spec_type v1alpha1) = SpecV1alpha1
ValueOf (network_type internal) = OpenStackNetwork
ValueOf (network_type v1alpha1) = NetworkV1alpha1

-- A conversion reads a value, and overwrites another.
abbrev pub Conversion : ApiType → ApiType → Type 0
Conversion a b = ValueOf a → ValueOf b → ValueOf b

-- `func(scheme *runtime.Scheme) error`
abbrev pub SchemeFunc : Type 0 → Type 0
SchemeFunc S = Action S (Unit {0})

-- What package runtime of the library offers: schemes `S` and their builders `B`. `must` is
-- `utilruntime.Must`. `AddKnownTypes` returns no error.
pub record Schemes (S B : Type 0) : Type 0 where
  pub zero_scheme_builder : B
  pub new_scheme_builder : List (SchemeFunc S) → B
  pub register : B → List (SchemeFunc S) → B
  pub add_to_scheme : B → SchemeFunc S
  pub add_known_types : GroupVersion → List ApiType → S → S
  pub set_version_priority : List GroupVersion → SchemeFunc S
  pub add_generated_conversion_func : (a b : ApiType) → Conversion a b → SchemeFunc S
  pub must : Option Err → SchemeFunc S
