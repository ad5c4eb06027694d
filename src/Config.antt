-- ===== src/Config.antt =====
-- The provider configuration (pkg/apis/openstack/types.go). Texts are values, optional ones are
-- pointers, and the map of tags is listed in the order of one iteration.
use machine_controller_manag.Base.{String, Bool, Option, List}
use machine_controller_manag.Base.Int.{ℤ}
use machine_controller_manag.Base.Dict.{Dict}

pub record OpenStackNetwork : Type 0 where
  pub id : String
  pub name : String
  pub pod_network : Bool

pub record MachineProviderConfigSpec : Type 0 where
  pub image_id : String
  pub image_name : String
  pub region : String
  pub availability_zone : String
  pub flavor_name : String
  pub key_name : String
  pub security_groups : List String
  pub tags : Dict String
  pub network_id : String
  pub subnet_id : Option String
  pub pod_network_cidr : String
  pub root_disk_size : ℤ
  pub use_config_drive : Option Bool
  pub server_group_id : Option String
  pub networks : List OpenStackNetwork

pub record TypeMeta : Type 0 where
  pub kind : String
  pub api_version : String

pub record MachineProviderConfig : Type 0 where
  pub type_meta : TypeMeta
  pub spec : MachineProviderConfigSpec
