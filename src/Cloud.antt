-- ===== src/Cloud.antt =====
-- The interfaces `Compute` and `Network` (pkg/openstack/types.go) over an unknown world `W`, with
-- the gophercloud data that cross them. An executor sees OpenStack only through these calls.
use machine_controller_manag.Base.{String, Bool, Option, List}
use machine_controller_manag.Base.Int.{ℤ}
use machine_controller_manag.Base.Dict.{Dict}
use machine_controller_manag.Action.{Service}

-- `servers.Server`, as far as the program reads it; `fault` is its printed form.
pub record Server : Type 0 where
  pub id : String
  pub name : String
  pub status : String
  pub metadata : Dict String
  pub fault : String

-- `servers.Network`; an unset port is the empty text.
pub record ServerNetwork : Type 0 where
  pub uuid : String
  pub port : String

-- `servers.CreateOpts`
pub record ServerOpts : Type 0 where
  pub name : String
  pub flavor_ref : String
  pub image_ref : String
  pub networks : List ServerNetwork
  pub security_groups : List String
  pub metadata : Dict String
  pub user_data : String
  pub availability_zone : String
  pub config_drive : Option Bool

-- `bootfromvolume.BlockDevice`
pub record BlockDevice : Type 0 where
  pub uuid : String
  pub volume_size : ℤ
  pub boot_index : ℤ
  pub delete_on_termination : Bool
  pub source_type : String
  pub destination_type : String

-- `servers.CreateOptsBuilder`: the options and the extensions wrapped round them.
pub data CreateOpts : Type 0 where
  server_opts : ServerOpts → CreateOpts
  keypairs_ext : CreateOpts → String → CreateOpts
  scheduler_hints_ext : CreateOpts → String → CreateOpts
  boot_from_volume_ext : CreateOpts → List BlockDevice → CreateOpts

-- `servers.ListOpts`
pub record ServerListOpts : Type 0 where
  pub name : String

pub record Subnet : Type 0 where
  pub id : String

-- `ports.Port`, as far as the program reads it.
pub record Port : Type 0 where
  pub id : String
  pub network_id : String

-- `ports.CreateOpts`; `fixed_ips` are the subnets, `allowed_address_pairs` the addresses.
pub record PortOpts : Type 0 where
  pub name : String
  pub network_id : String
  pub fixed_ips : List String
  pub allowed_address_pairs : List String
  pub security_groups : List String

-- `ports.ListOpts`
pub record PortListOpts : Type 0 where
  pub device_id : String

-- `ports.UpdateOpts`
pub record PortUpdateOpts : Type 0 where
  pub allowed_address_pairs : List String

pub record Compute (W : Type 0) : Type 0 where
  pub create_server : CreateOpts → Service W Server
  pub boot_from_volume : CreateOpts → Service W Server
  pub get_server : String → Service W Server
  pub list_servers : ServerListOpts → Service W (List Server)
  pub delete_server : String → Service W (Unit {0})
  pub flavor_id_from_name : String → Service W String
  pub image_id_from_name : String → Service W String

pub record Network (W : Type 0) : Type 0 where
  pub get_subnet : String → Service W Subnet
  pub create_port : PortOpts → Service W Port
  pub list_ports : PortListOpts → Service W (List Port)
  pub update_port : String → PortUpdateOpts → Service W (Unit {0})
  pub delete_port : String → Service W (Unit {0})
  pub network_id_from_name : String → Service W String
  pub group_id_from_name : String → Service W String
  pub port_id_from_name : String → Service W String

-- The states of a server (`ServerStatusActive` and so on).
abbrev pub status_active : String
status_active = "ACTIVE"

abbrev pub status_build : String
status_build = "BUILD"

abbrev pub status_deleted : String
status_deleted = "DELETED"

abbrev pub status_error : String
status_error = "ERROR"
