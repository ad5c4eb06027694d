-- ===== src/Driver/Migrate.antt =====
-- `GenerateMachineClassForMigration` (pkg/driver/driver.go) and `migrateMachineClass`
-- (pkg/driver/utils.go), with the configuration they write (pkg/apis/openstack/v1alpha1/types.go).
pub mod Laws
use machine_controller_manag.Base.{
  String, ◌==◌, Bool, not, Option, none, some, List, [], ◌∷◌, ◌++◌, if◌then◌else◌,
}
use machine_controller_manag.Base.Int.{ℤ}
use machine_controller_manag.Base.Dict.{Dict}
use machine_controller_manag.Errors.{errorf}
use machine_controller_manag.Config.{TypeMeta}
use machine_controller_manag.Driver.Defs.{internal, Reply, response, status, crashed}

-- The networks of a configuration of version v1alpha1.
pub record NetworkV1alpha1 : Type 0 where
  pub id : String
  pub name : String
  pub pod_network : Bool

pub record SpecV1alpha1 : Type 0 where
  pub image_id : String
  pub image_name : String
  pub region : String
  pub availability_zone : String
  pub flavor_name : String
  pub key_name : String
  pub security_groups : List String
  pub tags : Dict String
  pub network_id : String
  pub subnet_id : Option String
  pub pod_network_cidr : String
  pub root_disk_size : ℤ
  pub use_config_drive : Option Bool
  pub server_group_id : Option String
  pub networks : List NetworkV1alpha1

pub record ConfigV1alpha1 : Type 0 where
  pub type_meta : TypeMeta
  pub spec : SpecV1alpha1

-- `SecretReference` of the Kubernetes library.
pub record SecretReference : Type 0 where
  pub name : String
  pub namespace : String

-- The networks of an `OpenStackMachineClass`, of the machine controller manager.
pub record ClassNetwork : Type 0 where
  pub id : String
  pub name : String
  pub pod_network : Bool

-- The spec of an `OpenStackMachineClass`, as far as the program reads it.
pub record ClassSpec : Type 0 where
  pub image_id : String
  pub image_name : String
  pub region : String
  pub availability_zone : String
  pub flavor_name : String
  pub key_name : String
  pub security_groups : List String
  pub tags : Dict String
  pub network_id : String
  pub subnet_id : Option String
  pub pod_network_cidr : String
  pub root_disk_size : ℤ
  pub use_config_drive : Option Bool
  pub server_group_id : Option String
  pub networks : List ClassNetwork
  pub secret_ref : Option SecretReference
  pub credentials_secret_ref : Option SecretReference

pub record OpenStackMachineClass : Type 0 where
  pub name : String
  pub labels : Dict String
  pub annotations : Dict String
  pub finalizers : List String
  pub spec : ClassSpec

-- `MachineClass`, as far as the program writes it: the object in its provider spec is `none`
-- until it is set.
pub record MachineClass : Type 0 where
  pub name : String
  pub labels : Dict String
  pub annotations : Dict String
  pub finalizers : List String
  pub provider_spec : Option ConfigV1alpha1
  pub secret_ref : Option SecretReference
  pub credentials_secret_ref : Option SecretReference
  pub provider : String

abbrev pub machine_class_kind : String
machine_class_kind = "OpenStackMachineClass"

abbrev pub openstack_provider : String
openstack_provider = "openstack"

-- the loop that copies the networks
unfoldable pub migrate_networks : List NetworkV1alpha1 → List ClassNetwork → List NetworkV1alpha1
migrate_networks migrated [] = migrated
migrate_networks migrated (nw ∷ networks) =
    migrate_networks
      (migrated ++ record { id = nw.id; name = nw.name; pod_network = nw.pod_network } ∷ [])
      networks

-- the configuration that is written, where `SchemeGroupVersion` prints as group and version
unfoldable pub migrated_config : ClassSpec → ConfigV1alpha1
migrated_config class = record {
  type_meta = record {
    kind = "MachineProviderConfig";
    api_version = "openstack.machine.gardener.cloud/v1alpha1";
  };
  spec = record {
    image_id = class.image_id;
    image_name = class.image_name;
    region = class.region;
    availability_zone = class.availability_zone;
    flavor_name = class.flavor_name;
    key_name = class.key_name;
    security_groups = class.security_groups;
    tags = class.tags;
    network_id = class.network_id;
    subnet_id = class.subnet_id;
    pod_network_cidr = class.pod_network_cidr;
    root_disk_size = class.root_disk_size;
    use_config_drive = class.use_config_drive;
    server_group_id = class.server_group_id;
    networks = migrate_networks [] class.networks;
  };
}

-- The machine class is changed in place: here it is returned as it is afterwards.
unfoldable pub migrate_machine_class : OpenStackMachineClass → MachineClass → MachineClass
migrate_machine_class os class = record {
  name = os.name;
  labels = os.labels;
  annotations = os.annotations;
  finalizers = os.finalizers;
  provider_spec = some (migrated_config os.spec);
  secret_ref = os.spec.secret_ref;
  credentials_secret_ref = os.spec.credentials_secret_ref;
  provider = openstack_provider;
}

-- The object to migrate is `none` if its type is another one: then the type assertion panics.
unfoldable pub generate_machine_class_for_migration :
    String → Option OpenStackMachineClass → MachineClass → Reply (Unit {0}) × MachineClass
generate_machine_class_for_migration kind object class =
    if not (kind == machine_class_kind)
    then (
      status internal (errorf "migration for this machineClass kind is not supported" []),
      class,
    )
    else elim object [
      | none ↦ (crashed, class)
      | some os ↦ (response tt, migrate_machine_class os class)
    ]
