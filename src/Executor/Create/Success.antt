-- ===== src/Executor/Create/Success.antt =====
-- When a creation succeeds.
use machine_controller_manag.Base.{ℕ, ◌≤◌, String, ◌≡◌, List, [], ◌∷◌, arith}
use machine_controller_manag.Action.{ok}
use machine_controller_manag.Cloud.{Server, status_active, status_build}
use machine_controller_manag.Executor.Defs.{Executor, Poller, PollsInRounds, spec_of}
use machine_controller_manag.Executor.Utils.{encode_provider_id}
use machine_controller_manag.Executor.Wait.{poll_status}
use machine_controller_manag.Executor.Wait.Looks.{Looks, wait_for_status-Looks}
use machine_controller_manag.Executor.Patch.{patch_server_ports_for_pod_network}
use machine_controller_manag.Executor.Create.{
  wait_until_active, patch_ports_of, post_process, finish_machine, deploy_machine, create_machine,
}
use machine_controller_manag.Executor.Create.Laws.{Deployed, in_steps}

module _ {W : Type 0} (ex : Executor W) (P : Poller W) (polls : PollsInRounds P)
    (name user_data : String) where
  post_process-Looks :
      (server : Server) (ids : List String) (k : ℕ) (v s w : W)
      → Looks ex server.id (status_build ∷ []) (status_active ∷ []) k v s
      → k ≤ (polls 1 600 (poll_status ex server.id (status_build ∷ []) (status_active ∷ [])) v).0
      → patch_server_ports_for_pod_network ex server.id ids s ≡ (ok tt, w)
      → post_process ex P server.id ids v ≡ (ok tt, w)
  unfolding post_process wait_until_active patch_ports_of
  post_process-Looks server ids k v s w looks often patched =
      let waited =
        wait_for_status-Looks ex server.id (status_build ∷ []) (status_active ∷ []) P 600 polls k v
          s looks often in
      ground arith

  -- A creation succeeds, with the provider ID of the new server, if the networks are resolved and
  -- the server is deployed, if the server is then seen to be active after looks that found it
  -- building, fewer than the library makes in 10 minutes, and if its ports can be patched.
  pub create_machine-succeeds :
      (server : Server) (ids : List String) (k : ℕ) (v u s w : W)
      → Deployed ex P name user_data v server ids u
      → Looks ex server.id (status_build ∷ []) (status_active ∷ []) k u s
      → k ≤ (polls 1 600 (poll_status ex server.id (status_build ∷ []) (status_active ∷ [])) u).0
      → patch_server_ports_for_pod_network ex server.id ids s ≡ (ok tt, w)
      → create_machine ex P name user_data v
        ≡ (ok (encode_provider_id (spec_of ex).region server.id), w)
  unfolding create_machine deploy_machine finish_machine
  create_machine-succeeds server ids k v u s w (in_steps nws t resolved deployed) looks often
        patched =
      let finished = post_process-Looks server ids k u s w looks often patched in ground arith
