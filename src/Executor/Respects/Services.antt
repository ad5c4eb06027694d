-- ===== src/Executor/Respects/Services.antt =====
-- What the calls of the interfaces `Compute` and `Network` respect.
use machine_controller_manag.Base.{String}
use machine_controller_manag.Action.Respects.{Preorder, Moves}
use machine_controller_manag.Cloud.{
  CreateOpts, ServerListOpts, PortOpts, PortListOpts, PortUpdateOpts,
}
use machine_controller_manag.Executor.Defs.{Executor}

-- All calls but those that create or delete servers.
pub record Reads {W : Type 0} (O : Preorder W) (ex : Executor W) : Type 0 where
  pub get_server : (id : String) → Moves O (ex.compute.get_server id)
  pub list_servers : (opts : ServerListOpts) → Moves O (ex.compute.list_servers opts)
  pub image_id_from_name : (name : String) → Moves O (ex.compute.image_id_from_name name)
  pub flavor_id_from_name : (name : String) → Moves O (ex.compute.flavor_id_from_name name)
  pub get_subnet : (id : String) → Moves O (ex.network.get_subnet id)
  pub create_port : (opts : PortOpts) → Moves O (ex.network.create_port opts)
  pub list_ports : (opts : PortListOpts) → Moves O (ex.network.list_ports opts)
  pub update_port : (id : String) (opts : PortUpdateOpts) → Moves O (ex.network.update_port id opts)
  pub delete_port : (id : String) → Moves O (ex.network.delete_port id)
  pub network_id_from_name : (name : String) → Moves O (ex.network.network_id_from_name name)
  pub group_id_from_name : (name : String) → Moves O (ex.network.group_id_from_name name)
  pub port_id_from_name : (name : String) → Moves O (ex.network.port_id_from_name name)

pub record Calls {W : Type 0} (O : Preorder W) (ex : Executor W) : Type 0 where
  pub reads : Reads O ex
  pub create_server : (opts : CreateOpts) → Moves O (ex.compute.create_server opts)
  pub boot_from_volume : (opts : CreateOpts) → Moves O (ex.compute.boot_from_volume opts)
  pub delete_server : (id : String) → Moves O (ex.compute.delete_server id)
