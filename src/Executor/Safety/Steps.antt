-- ===== src/Executor/Safety/Steps.antt =====
-- The steps of an executor that never panic.
use machine_controller_manag.Base.{
  ℕ, zero, suc, String, Bool, true, false, ap, ◌==◌, some, List, [], ◌∷◌, if◌then◌else◌,
}
use machine_controller_manag.Action.{Action, pure, call, deref, map_error}
use machine_controller_manag.Action.Safety.{
  Safe, Safe-pure, Safe-raise, Safe-call, Safe-try, Safe-bind, Safe-map_error, Safe-if,
  Safe-if_known, Safe-deref,
}
use machine_controller_manag.Errors.{Err}
use machine_controller_manag.Config.{OpenStackNetwork}
use machine_controller_manag.Cloud.{ServerNetwork, Port, CreateOpts}
use machine_controller_manag.Executor.Defs.{Executor, spec_of, rounds}
use machine_controller_manag.Executor.Utils.{is_empty_string}
use machine_controller_manag.Executor.Utils.Laws.{is_empty_string-none}
use machine_controller_manag.Executor.Networks.{
  resolve_groups, preallocate, resolve_existing, resolve_network_id, resolve_listed,
  resolve_server_networks,
}
use machine_controller_manag.Executor.Wait.{poll_status}
use machine_controller_manag.Executor.Deploy.{
  resolve_image, resolve_flavor, submit_server, deploy_server,
}
use machine_controller_manag.Executor.Patch.{
  update_port, patch_port, patch_ports, patch_listed, patch_server_ports_for_pod_network,
}
use machine_controller_manag.Executor.Find.{get_machine_by_provider_id}
use machine_controller_manag.Executor.Delete.{delete_port}

pub rounds-Safe :
    {W : Type 0} (late : Err) (cond : Action W Bool)
    → Safe cond
    → (n : ℕ) → Safe (rounds late n cond)
rounds-Safe late cond s zero = Safe-raise late
rounds-Safe late cond s (suc n) =
    Safe-bind cond _ s λ done. Safe-if done _ _ (Safe-pure tt) (rounds-Safe late cond s n)

module _ {W : Type 0} (ex : Executor W) where
  pub resolve_groups-Safe : (groups : List String) → Safe (resolve_groups ex groups)
  unfolding resolve_groups
  resolve_groups-Safe [] = Safe-pure []
  resolve_groups-Safe (g ∷ gs) =
      Safe-bind (call (ex.network.group_id_from_name g)) _
        (Safe-call (ex.network.group_id_from_name g))
        (λ id.
          Safe-bind (resolve_groups ex gs) _ (resolve_groups-Safe gs) (λ ids. Safe-pure (id ∷ ids)))

  pub resolve_existing-Safe : (machine_name : String) → Safe (resolve_existing ex machine_name)
  unfolding resolve_existing preallocate
  resolve_existing-Safe machine_name =
      Safe-if_known (is_empty_string (spec_of ex).subnet_id) _ _ (λ h. Safe-pure _)
        λ set.
          Safe-bind (deref (spec_of ex).subnet_id) _
            (Safe-deref (spec_of ex).subnet_id
              (λ missing. cc (is_empty_string-none, ap is_empty_string missing)))
            λ subnet.
              Safe-bind (call (ex.network.get_subnet subnet)) _
                (Safe-call (ex.network.get_subnet subnet))
                λ found.
                  Safe-bind (resolve_groups ex (spec_of ex).security_groups) _
                    (resolve_groups-Safe (spec_of ex).security_groups)
                    λ ids.
                      Safe-bind (call (ex.network.create_port _)) _
                        (Safe-call (ex.network.create_port _)) λ port. Safe-pure _

  pub resolve_network_id-Safe : (network : OpenStackNetwork) → Safe (resolve_network_id ex network)
  unfolding resolve_network_id
  resolve_network_id-Safe network =
      Safe-if (is_empty_string (some network.id)) _ _
        (Safe-call (ex.network.network_id_from_name network.name))
        (Safe-pure (spec_of ex).network_id)

  pub resolve_listed-Safe :
      (networks : List OpenStackNetwork) (nws : List ServerNetwork) (ids : List String)
      → Safe (resolve_listed ex networks nws ids)
  unfolding resolve_listed
  resolve_listed-Safe [] nws ids = Safe-pure (nws, ids)
  resolve_listed-Safe (n ∷ networks) nws ids =
      Safe-bind (resolve_network_id ex n) _ (resolve_network_id-Safe n)
        λ id. resolve_listed-Safe networks _ _

  pub resolve_server_networks-Safe :
      (machine_name : String) → Safe (resolve_server_networks ex machine_name)
  unfolding resolve_server_networks
  resolve_server_networks-Safe machine_name =
      Safe-if (is_empty_string (some (spec_of ex).network_id)) _ _
        (resolve_listed-Safe (spec_of ex).networks [] []) (resolve_existing-Safe machine_name)

  pub submit_server-Safe : (opts : CreateOpts) (image : String) → Safe (submit_server ex opts image)
  unfolding submit_server
  submit_server-Safe opts image =
      Safe-if _ _ _ (Safe-call (ex.compute.boot_from_volume _))
        (Safe-call (ex.compute.create_server opts))

  pub deploy_server-Safe :
      (machine_name user_data : String) (nws : List ServerNetwork)
      → Safe (deploy_server ex machine_name user_data nws)
  unfolding deploy_server resolve_image resolve_flavor
  deploy_server-Safe machine_name user_data nws =
      Safe-bind (resolve_image ex) _
        (Safe-if _ _ _
          (Safe-map_error _ _ (Safe-call (ex.compute.image_id_from_name (spec_of ex).image_name)))
          (Safe-pure (spec_of ex).image_id))
        λ image.
          Safe-bind (resolve_flavor ex) _
            (Safe-map_error _ _
              (Safe-call (ex.compute.flavor_id_from_name (spec_of ex).flavor_name)))
            λ flavor. submit_server-Safe _ image

  pub update_port-Safe : (port : Port) → Safe (update_port ex port)
  unfolding update_port
  update_port-Safe port = Safe-map_error _ _ (Safe-call (ex.network.update_port port.id _))

  pub patch_port-Safe : (port : Port) (ids : List String) → Safe (patch_port ex port ids)
  unfolding patch_port
  patch_port-Safe port [] = Safe-pure tt
  patch_port-Safe port (id ∷ ids) =
      Safe-bind (if port.network_id == id then update_port ex port else pure tt) _
        (Safe-if (port.network_id == id) _ _ (update_port-Safe port) (Safe-pure tt))
        λ _. patch_port-Safe port ids

  pub patch_ports-Safe : (ports : List Port) (ids : List String) → Safe (patch_ports ex ports ids)
  unfolding patch_ports
  patch_ports-Safe [] ids = Safe-pure tt
  patch_ports-Safe (port ∷ ports) ids =
      Safe-bind (patch_port ex port ids) _ (patch_port-Safe port ids)
        λ _. patch_ports-Safe ports ids

  pub patch_listed-Safe :
      (id : String) (ports : List Port) (ids : List String) → Safe (patch_listed ex id ports ids)
  unfolding patch_listed
  patch_listed-Safe id [] ids = Safe-raise _
  patch_listed-Safe id (port ∷ ports) ids = patch_ports-Safe (port ∷ ports) ids

  pub patch-Safe :
      (id : String) (ids : List String) → Safe (patch_server_ports_for_pod_network ex id ids)
  unfolding patch_server_ports_for_pod_network
  patch-Safe id ids =
      Safe-bind (map_error _ (call (ex.network.list_ports _))) _
        (Safe-map_error _ _ (Safe-call (ex.network.list_ports _)))
        λ ports. patch_listed-Safe id ports ids

  pub delete_port-Safe : (machine_name : String) → Safe (delete_port ex machine_name)
  unfolding delete_port
  delete_port-Safe machine_name =
      Safe-try _ _ _ (Safe-call (ex.network.port_id_from_name machine_name))
        (λ e. Safe-if _ _ _ (Safe-pure tt) (Safe-raise _))
        (λ id. Safe-call (ex.network.delete_port id))

  pub get_machine_by_provider_id-Safe :
      (name pid : String) → Safe (get_machine_by_provider_id ex name pid)
  unfolding get_machine_by_provider_id
  get_machine_by_provider_id-Safe name pid = Safe-if _ _ _ (Safe-raise _) (
      Safe-try _ _ _ (Safe-call (ex.compute.get_server _))
        (λ e. Safe-if _ _ _ (Safe-raise _) (Safe-raise e))
        (λ server. Safe-if _ _ _ (Safe-pure server) (Safe-raise _)))

  pub poll_status-Safe :
      (id : String) (pending target : List String) → Safe (poll_status ex id pending target)
  unfolding poll_status
  poll_status-Safe id pending target =
      Safe-try _ _ _ (Safe-call (ex.compute.get_server id))
        (λ e. Safe-if _ _ _ (Safe-pure true) (Safe-raise e))
        (λ server. Safe-if _ _ _ (Safe-pure true) (Safe-if _ _ _ (Safe-pure false) (Safe-raise _)))
