-- ===== src/Executor/Respects/Steps.antt =====
-- The steps of an executor that only look at the cloud or touch its ports: what the calls respect that
-- they make, the steps respect.
use machine_controller_manag.Base.{
  ℕ, zero, suc, String, Bool, true, false, sym, ◌==◌, some, List, [], ◌∷◌, if◌then◌else◌,
}
use mathlib.Core.Path.{subst}
use machine_controller_manag.Action.{Action, pure, call, deref, map_error}
use machine_controller_manag.Action.Respects.{
  Preorder, Respects, Respects-pure, Respects-raise, Respects-call, Respects-deref, Respects-try,
  Respects-bind, Respects-map_error, Respects-if,
}
use machine_controller_manag.Errors.{Err}
use machine_controller_manag.Config.{OpenStackNetwork}
use machine_controller_manag.Cloud.{ServerNetwork, Port}
use machine_controller_manag.Executor.Defs.{Executor, Poller, PollsInRounds, spec_of, rounds}
use machine_controller_manag.Executor.Utils.{is_empty_string}
use machine_controller_manag.Executor.Networks.{
  resolve_groups, preallocate, resolve_existing, resolve_network_id, resolve_listed,
  resolve_server_networks,
}
use machine_controller_manag.Executor.Wait.{poll_status, wait_for_status}
use machine_controller_manag.Executor.Patch.{
  update_port, patch_port, patch_ports, patch_listed, patch_server_ports_for_pod_network,
}
use machine_controller_manag.Executor.Respects.Services.{Reads}

rounds-Respects :
    {W : Type 0} {O : Preorder W} (late : Err) (cond : Action W Bool)
    → Respects O cond
    → (n : ℕ) → Respects O (rounds late n cond)
rounds-Respects late cond s zero = Respects-raise late
rounds-Respects late cond s (suc n) =
    Respects-bind cond _ s
      λ done. Respects-if done _ _ (Respects-pure tt) (rounds-Respects late cond s n)

module _ {W : Type 0} (ex : Executor W) (O : Preorder W) (reads : Reads O ex) where
  resolve_groups-Respects : (groups : List String) → Respects O (resolve_groups ex groups)
  unfolding resolve_groups
  resolve_groups-Respects [] = Respects-pure []
  resolve_groups-Respects (g ∷ gs) =
      Respects-bind (call (ex.network.group_id_from_name g)) _
        (Respects-call (ex.network.group_id_from_name g) (reads.group_id_from_name g))
        (λ id.
          Respects-bind (resolve_groups ex gs) _ (resolve_groups-Respects gs)
            (λ ids. Respects-pure (id ∷ ids)))

  preallocate-Respects :
      (machine_name subnet : String) → Respects O (preallocate ex machine_name subnet)
  unfolding preallocate
  preallocate-Respects machine_name subnet =
      Respects-bind (call (ex.network.get_subnet subnet)) _
        (Respects-call (ex.network.get_subnet subnet) (reads.get_subnet subnet))
        λ found.
          Respects-bind (resolve_groups ex (spec_of ex).security_groups) _
            (resolve_groups-Respects (spec_of ex).security_groups)
            λ ids.
              Respects-bind (call (ex.network.create_port _)) _
                (Respects-call (ex.network.create_port _) (reads.create_port _))
                λ port. Respects-pure _

  resolve_existing-Respects :
      (machine_name : String) → Respects O (resolve_existing ex machine_name)
  unfolding resolve_existing
  resolve_existing-Respects machine_name =
      Respects-if (is_empty_string (spec_of ex).subnet_id) _ _ (Respects-pure _) (
        Respects-bind (deref (spec_of ex).subnet_id) _ (Respects-deref (spec_of ex).subnet_id)
          (preallocate-Respects machine_name))

  resolve_network_id-Respects :
      (network : OpenStackNetwork) → Respects O (resolve_network_id ex network)
  unfolding resolve_network_id
  resolve_network_id-Respects network =
      Respects-if (is_empty_string (some network.id)) _ _
        (Respects-call (ex.network.network_id_from_name network.name)
          (reads.network_id_from_name network.name))
        (Respects-pure (spec_of ex).network_id)

  resolve_listed-Respects :
      (networks : List OpenStackNetwork) (nws : List ServerNetwork) (ids : List String)
      → Respects O (resolve_listed ex networks nws ids)
  unfolding resolve_listed
  resolve_listed-Respects [] nws ids = Respects-pure (nws, ids)
  resolve_listed-Respects (n ∷ networks) nws ids =
      Respects-bind (resolve_network_id ex n) _ (resolve_network_id-Respects n)
        λ id. resolve_listed-Respects networks _ _

  pub resolve_server_networks-Respects :
      (machine_name : String) → Respects O (resolve_server_networks ex machine_name)
  unfolding resolve_server_networks
  resolve_server_networks-Respects machine_name =
      Respects-if (is_empty_string (some (spec_of ex).network_id)) _ _
        (resolve_listed-Respects (spec_of ex).networks [] [])
        (resolve_existing-Respects machine_name)

  update_port-Respects : (port : Port) → Respects O (update_port ex port)
  unfolding update_port
  update_port-Respects port =
      Respects-map_error _ _
        (Respects-call (ex.network.update_port port.id _) (reads.update_port port.id _))

  patch_port-Respects : (port : Port) (ids : List String) → Respects O (patch_port ex port ids)
  unfolding patch_port
  patch_port-Respects port [] = Respects-pure tt
  patch_port-Respects port (id ∷ ids) =
      Respects-bind (if port.network_id == id then update_port ex port else pure tt) _
        (Respects-if (port.network_id == id) _ _ (update_port-Respects port) (Respects-pure tt))
        λ _. patch_port-Respects port ids

  patch_ports-Respects :
      (ports : List Port) (ids : List String) → Respects O (patch_ports ex ports ids)
  unfolding patch_ports
  patch_ports-Respects [] ids = Respects-pure tt
  patch_ports-Respects (port ∷ ports) ids =
      Respects-bind (patch_port ex port ids) _ (patch_port-Respects port ids)
        λ _. patch_ports-Respects ports ids

  patch_listed-Respects :
      (id : String) (ports : List Port) (ids : List String)
      → Respects O (patch_listed ex id ports ids)
  unfolding patch_listed
  patch_listed-Respects id [] ids = Respects-raise _
  patch_listed-Respects id (port ∷ ports) ids = patch_ports-Respects (port ∷ ports) ids

  pub patch-Respects :
      (id : String) (ids : List String) → Respects O (patch_server_ports_for_pod_network ex id ids)
  unfolding patch_server_ports_for_pod_network
  patch-Respects id ids =
      Respects-bind (map_error _ (call (ex.network.list_ports _))) _
        (Respects-map_error _ _ (Respects-call (ex.network.list_ports _) (reads.list_ports _)))
        λ ports. patch_listed-Respects id ports ids

  poll_status-Respects :
      (id : String) (pending target : List String) → Respects O (poll_status ex id pending target)
  unfolding poll_status
  poll_status-Respects id pending target =
      Respects-try _ _ _ (Respects-call (ex.compute.get_server id) (reads.get_server id))
        (λ e. Respects-if _ _ _ (Respects-pure true) (Respects-raise e))
        (λ server.
          Respects-if _ _ _ (Respects-pure true)
            (Respects-if _ _ _ (Respects-pure false) (Respects-raise _)))

  pub wait_for_status-Respects :
      (P : Poller W)
      → PollsInRounds P
      → (id : String) (pending target : List String) (secs : ℕ)
      → Respects O (wait_for_status ex P id pending target secs)
  unfolding wait_for_status
  wait_for_status-Respects P polls id pending target secs = record {
    moves = λ w.
        let (n, e) = polls 1 secs (poll_status ex id pending target) w in
        subst (λ r. O.relates w r.1) (sym e)
          ((rounds-Respects P.timed_out _ (poll_status-Respects id pending target) (suc n)).moves
            w);
  }
