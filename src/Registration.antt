-- ===== src/Registration.antt =====
-- The registration of the API types with a scheme: register.go, defaults.go and
-- zz_generated.defaults.go of pkg/apis/openstack and its v1alpha1, and pkg/apis/openstack/install.
pub mod Types
pub mod Conversions
pub mod Laws
pub mod Success
use machine_controller_manag.Base.{String, Option, none, some, List, [], ◌∷◌}
use machine_controller_manag.Action.{ok, pure, try}
use machine_controller_manag.Errors.{Err}
use machine_controller_manag.Registration.Types.{
  GroupVersion, api_version_internal, internal, v1alpha1, ApiType, config_type, Schemes, SchemeFunc,
}
use machine_controller_manag.Registration.Conversions.{register_conversions}

-- `openstack.GroupName`
abbrev pub group_name : String
group_name = "openstack.machine.gardener.cloud"

-- `openstack.SchemeGroupVersion`
abbrev pub scheme_group_version : GroupVersion
scheme_group_version = record { group = group_name; version = api_version_internal }

-- `v1alpha1.GroupName` and `v1alpha1.Version`
abbrev pub v1alpha1_group_name : String
v1alpha1_group_name = "openstack.machine.gardener.cloud"

abbrev pub v1alpha1_version : String
v1alpha1_version = "v1alpha1"

-- `v1alpha1.SchemeGroupVersion`
abbrev pub v1alpha1_scheme_group_version : GroupVersion
v1alpha1_scheme_group_version = record { group = v1alpha1_group_name; version = v1alpha1_version }

module _ {S B : Type 0} (lib : Schemes S B) where
  -- `openstack.addKnownTypes`
  unfoldable pub add_known_types : SchemeFunc S
  add_known_types s =
      (ok tt, lib.add_known_types scheme_group_version (config_type internal ∷ []) s)

  -- `openstack.SchemeBuilder`
  unfoldable pub scheme_builder : B
  scheme_builder = lib.new_scheme_builder (add_known_types ∷ [])

  -- `v1alpha1.addKnownTypes`
  unfoldable pub v1alpha1_add_known_types : SchemeFunc S
  v1alpha1_add_known_types s =
      (ok tt, lib.add_known_types v1alpha1_scheme_group_version (config_type v1alpha1 ∷ []) s)

  -- `v1alpha1.RegisterDefaults`: no type has defaults.
  unfoldable pub register_defaults : SchemeFunc S
  register_defaults = pure tt

  -- `v1alpha1.addDefaultingFuncs`
  unfoldable pub add_defaulting_funcs : SchemeFunc S
  add_defaulting_funcs = register_defaults

  -- `v1alpha1.SchemeBuilder` after `init` of register.go
  unfoldable pub v1alpha1_registered : B
  v1alpha1_registered =
      lib.register lib.zero_scheme_builder (add_defaulting_funcs ∷ v1alpha1_add_known_types ∷ [])

  -- and after `init` of zz_generated.conversion.go, which runs next
  unfoldable pub v1alpha1_scheme_builder : B
  v1alpha1_scheme_builder = lib.register v1alpha1_registered (register_conversions lib ∷ [])

  -- `setVersionPriority`
  unfoldable pub set_version_priority : SchemeFunc S
  set_version_priority = lib.set_version_priority (v1alpha1_scheme_group_version ∷ [])

  -- `schemeBuilder` of package install
  unfoldable pub install_scheme_builder : B
  install_scheme_builder = lib.new_scheme_builder (
      lib.add_to_scheme v1alpha1_scheme_builder
      ∷ lib.add_to_scheme scheme_builder
      ∷ set_version_priority
      ∷ [])

  -- `install.AddToScheme`
  unfoldable pub add_to_scheme : SchemeFunc S
  add_to_scheme = lib.add_to_scheme install_scheme_builder

  -- `Install`
  unfoldable pub install : SchemeFunc S
  install = try add_to_scheme (λ e. lib.must (some e)) (λ _. lib.must none)
