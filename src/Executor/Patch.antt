-- ===== src/Executor/Patch.antt =====
-- `patchServerPortsForPodNetwork`: the pod network's range is allowed on the ports of the server.
pub mod Laws
use machine_controller_manag.Base.{String, ◌==◌, List, [], ◌∷◌, if◌then◌else◌}
use machine_controller_manag.Action.{Action, pure, raise, call, map_error, ◌>>=◌, ◌>>◌}
use machine_controller_manag.Errors.{errorf, errorf_v}
use machine_controller_manag.Cloud.{Port}
use machine_controller_manag.Executor.Defs.{Executor, spec_of}

module _ {W : Type 0} (ex : Executor W) where
  unfoldable pub update_port : Port → Action W (Unit {0})
  update_port port =
      map_error
        (errorf_v "failed to update allowed address pair for port [ID=%q]: %v" (port.id ∷ []))
        (call (
          ex.network.update_port port.id
            (record { allowed_address_pairs = (spec_of ex).pod_network_cidr ∷ [] })))

  -- the inner loop, over the networks that carry pods
  unfoldable pub patch_port : Port → List String → Action W (Unit {0})
  patch_port port [] = pure tt
  patch_port port (id ∷ ids) = do
    if port.network_id == id then update_port port else pure tt
    patch_port port ids

  -- the outer loop, over the ports
  unfoldable pub patch_ports : List Port → List String → Action W (Unit {0})
  patch_ports [] ids = pure tt
  patch_ports (port ∷ ports) ids = do patch_port port ids; patch_ports ports ids

  -- an empty list of ports is an error
  unfoldable pub patch_listed : String → List Port → List String → Action W (Unit {0})
  patch_listed server_id [] ids =
      raise (errorf "got an empty port list for server %q" (server_id ∷ []))
  patch_listed server_id (port ∷ ports) ids = patch_ports (port ∷ ports) ids

  unfoldable pub patch_server_ports_for_pod_network : String → List String → Action W (Unit {0})
  patch_server_ports_for_pod_network server_id ids = do
    all_ports ←
        map_error (errorf_v "failed to get ports: %v" [])
          (call (ex.network.list_ports (record { device_id = server_id })))
    patch_listed server_id all_ports ids
