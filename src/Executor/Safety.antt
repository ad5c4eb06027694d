-- ===== src/Executor/Safety.antt =====
-- No request of the executor panics while both tags are configured.
pub mod Steps
use machine_controller_manag.Base.{
  ℕ, zero, suc, ◌⊎◌, String, Bool, true, false, ◌≡◌, ◌≢◌, ap, ◌∙◌, inl, inr, ◌==◌, none, some, List,
  [], ◌∷◌, if◌then◌else◌, Bool-cases,
}
use machine_controller_manag.Action.{Action, ok, panicked, pure, call, deref, map_error}
use machine_controller_manag.Action.Safety.{
  Safe, Safe-pure, Safe-raise, Safe-call, Safe-try, Safe-bind, Safe-map_error, Safe-if,
  Safe-if_known, Safe-deref, try-answers, some-answers,
}
use machine_controller_manag.Errors.{Err}
use machine_controller_manag.Config.{OpenStackNetwork}
use machine_controller_manag.Cloud.{
  status_active, status_build, status_deleted, Server, ServerNetwork, Port, CreateOpts,
}
use machine_controller_manag.Executor.Defs.{Executor, Poller, PollsInRounds, spec_of, rounds}
use machine_controller_manag.Executor.Utils.{encode_provider_id, is_empty_string}
use machine_controller_manag.Executor.Utils.Laws.{is_empty_string-none, is_empty_string-encode}
use machine_controller_manag.Executor.Networks.{
  resolve_groups, preallocate, resolve_existing, resolve_network_id, resolve_listed,
  resolve_server_networks,
}
use machine_controller_manag.Executor.Wait.{poll_status, wait_for_status}
use machine_controller_manag.Executor.Deploy.{
  resolve_image, resolve_flavor, submit_server, deploy_server,
}
use machine_controller_manag.Executor.Patch.{
  update_port, patch_port, patch_ports, patch_listed, patch_server_ports_for_pod_network,
}
use machine_controller_manag.Executor.Find.{list_machines, get_machine_by_provider_id}
use machine_controller_manag.Executor.Find.Name.{HasTagNames, get_machine_by_name-answers}
use machine_controller_manag.Executor.Delete.{
  delete_port, find_machine, release_port, wait_for_deletion, on_lost, delete_server,
  delete_machine,
}
use machine_controller_manag.Executor.Create.{
  delete_on_fail, wait_until_active, patch_ports_of, deploy_machine, post_process, finish_machine,
  create_machine,
}
use machine_controller_manag.Executor.Safety.Steps.{
  rounds-Safe, resolve_groups-Safe, resolve_existing-Safe, resolve_network_id-Safe,
  resolve_listed-Safe, resolve_server_networks-Safe, submit_server-Safe, deploy_server-Safe,
  update_port-Safe, patch_port-Safe, patch_ports-Safe, patch_listed-Safe, patch-Safe,
  delete_port-Safe, get_machine_by_provider_id-Safe, poll_status-Safe,
}

module _ {W : Type 0} (ex : Executor W) where
  find_machine-answers :
      (name pid : String) (w : W)
      → HasTagNames ex ⊎ (is_empty_string (some pid) ≡ false)
      → ((find_machine ex name pid w).0 ≢ ok none) × ((find_machine ex name pid w).0 ≢ panicked)
  unfolding find_machine
  find_machine-answers name pid w h = elim (Bool-cases (is_empty_string (some pid))) [
    | inl blank ↦ elim h [
      | inl tagged ↦ rw blank (get_machine_by_name-answers ex name w tagged)
      | inr set ↦ absurd (cc)
    ]
    | inr set ↦ rw set (
        some-answers (get_machine_by_provider_id ex name pid) w
          (get_machine_by_provider_id-Safe ex name pid))
  ]

  module _ (P : Poller W) (polls : PollsInRounds P) where
    wait_for_status-Safe :
        (id : String) (pending target : List String) (secs : ℕ)
        → Safe (wait_for_status ex P id pending target secs)
    unfolding wait_for_status
    wait_for_status-Safe id pending target secs = record {
      answers = λ w.
          let (n, e) = polls 1 secs (poll_status ex id pending target) w in
          rw e
            ((rounds-Safe P.timed_out _ (poll_status-Safe ex id pending target) (suc n)).answers w);
    }

    delete_server-Safe : (name : String) (server : Server) → Safe (delete_server ex P name server)
    unfolding delete_server wait_for_deletion release_port
    delete_server-Safe name server =
        Safe-bind (call (ex.compute.delete_server server.id)) _
          (Safe-call (ex.compute.delete_server server.id))
          λ _.
            Safe-bind (wait_for_deletion ex P server.id) _
              (Safe-map_error _ _ (wait_for_status-Safe server.id [] (status_deleted ∷ []) 300))
              λ _. Safe-if _ _ _ (Safe-pure tt) (delete_port-Safe ex name)

    -- With both tags configured, or with a provider ID that is not blank, the deletion of a
    -- machine does not panic.
    pub delete_machine-Safe :
        (name pid : String)
        → HasTagNames ex ⊎ (is_empty_string (some pid) ≡ false)
        → Safe (delete_machine ex P name pid)
    unfolding delete_machine on_lost
    delete_machine-Safe name pid h = record {
      answers = λ w.
          let (found, answered) = find_machine-answers name pid w h in
          try-answers (find_machine ex name pid) _ _ w answered
            (λ e. Safe-if _ _ _ (Safe-pure tt) (Safe-raise e))
            (λ o e.
              Safe-bind (deref o) _ (Safe-deref o (λ p. found (e ∙ ap ok p)))
                (λ server. delete_server-Safe name server));
    }

    delete_on_fail-Safe :
        (name id : String) (e : Err)
        → Safe (delete_on_fail ex P name (encode_provider_id (spec_of ex).region id) e)
    unfolding delete_on_fail
    delete_on_fail-Safe name id e =
        Safe-try _ _ _
          (delete_machine-Safe name _ (inr (is_empty_string-encode (spec_of ex).region id)))
          (λ inner. Safe-raise _) (λ _. Safe-raise e)

    post_process-Safe : (id : String) (ids : List String) → Safe (post_process ex P id ids)
    unfolding post_process wait_until_active patch_ports_of
    post_process-Safe id ids =
        Safe-bind (wait_until_active ex P id) _
          (Safe-map_error _ _
            (wait_for_status-Safe id (status_build ∷ []) (status_active ∷ []) 600))
          λ _. Safe-map_error _ _ (patch-Safe ex id ids)

    finish_machine-Safe :
        (name : String) (ids : List String) (server : Server)
        → Safe (finish_machine ex P name ids server)
    unfolding finish_machine
    finish_machine-Safe name ids server =
        Safe-try _ _ _ (post_process-Safe server.id ids) (delete_on_fail-Safe name server.id)
          (λ _. Safe-pure _)

    -- The creation of a machine does not panic, whatever is configured.
    pub create_machine-Safe : (name user_data : String) → Safe (create_machine ex P name user_data)
    unfolding create_machine deploy_machine
    create_machine-Safe name user_data =
        Safe-bind (map_error _ (resolve_server_networks ex name)) _
          (Safe-map_error _ _ (resolve_server_networks-Safe ex name))
          λ resolved.
            Safe-bind (map_error _ (deploy_server ex name user_data resolved.0)) _
              (Safe-map_error _ _ (deploy_server-Safe ex name user_data resolved.0))
              λ server. finish_machine-Safe name resolved.1 server

  pub list_machines-Safe : Safe (list_machines ex)
  unfolding list_machines
  list_machines-Safe = Safe-if _ _ _ (Safe-pure []) (
      Safe-bind (call (ex.compute.list_servers _)) _ (Safe-call (ex.compute.list_servers _))
        (λ servers. Safe-pure _))
