-- ===== src/Executor/Create/Laws.antt =====
-- What a finished creation has done, and what it leaves behind when it fails.
use machine_controller_manag.Base.{String, ◌≡◌, ◌≢◌, ap, inl, inr, List, [], ◌∷◌, arith, sym, ◌∙◌}
use machine_controller_manag.Action.{ok, err, pure, map_error}
use machine_controller_manag.Action.Laws.{
  bind_ok, bind_err, try_ok, try_err, map_error_ok, map_error_err,
}
use machine_controller_manag.Errors.{Err, errorf_v, errorf_w}
use machine_controller_manag.Cloud.{Server, ServerNetwork, status_active, status_build}
use machine_controller_manag.Executor.Defs.{Executor, Poller, PollsInRounds, spec_of}
use machine_controller_manag.Executor.Utils.{encode_provider_id}
use machine_controller_manag.Executor.Networks.{resolve_server_networks}
use machine_controller_manag.Executor.Wait.{wait_for_status}
use machine_controller_manag.Executor.Wait.Laws.{Reached, wait_for_status-ok}
use machine_controller_manag.Executor.Deploy.{deploy_server}
use machine_controller_manag.Executor.Patch.{patch_server_ports_for_pod_network}
use machine_controller_manag.Executor.Delete.{delete_machine}
use machine_controller_manag.Executor.Create.{
  delete_on_fail, wait_until_active, patch_ports_of, post_process, finish_machine, deploy_machine,
  create_machine,
}

module _ {W : Type 0} (ex : Executor W) (P : Poller W) (name user_data : String) where
  -- Between `v` and `w` the networks were resolved and the server was deployed in them.
  pub data Deployed (v : W) (server : Server) (ids : List String) (w : W) : Type 0 where
    in_steps :
        (nws : List ServerNetwork) (u : W)
        → resolve_server_networks ex name v ≡ (ok (nws, ids), u)
        → deploy_server ex name user_data nws u ≡ (ok server, w)
        → Deployed v server ids w

  -- Between `v` and `w` the wait for the server ended with a look that found it active, and then
  -- its ports were patched.
  pub data Processed (server : Server) (ids : List String) (v w : W) : Type 0 where
    in_steps :
        (look seen : W)
        → wait_for_status ex P server.id (status_build ∷ []) (status_active ∷ []) 600 v
          ≡ (ok tt, seen)
        → Reached ex server.id (status_active ∷ []) look seen
        → patch_server_ports_for_pod_network ex server.id ids seen ≡ (ok tt, w)
        → Processed server ids v w

  -- Between `v` and `w` the creation failed with `e`, and how far it had come.
  pub data Failed (v : W) (e : Err) (w : W) : Type 0 where
    -- before a server was asked for
    unresolved : (x : Err) → resolve_server_networks ex name v ≡ (err x, w) → Failed v e w
    -- in the deployment: nothing is undone
    undeployed :
        (x : Err) (nws : List ServerNetwork) (ids : List String) (u : W)
        → resolve_server_networks ex name v ≡ (ok (nws, ids), u)
        → deploy_server ex name user_data nws u ≡ (err x, w)
        → Failed v e w
    -- after the deployment: the machine was deleted, by its provider ID, before the call returned
    cleaned :
        (x : Err) (server : Server) (ids : List String) (u t : W)
        → Deployed v server ids u
        → post_process ex P server.id ids u ≡ (err x, t)
        → w ≡ (delete_machine ex P name (encode_provider_id (spec_of ex).region server.id) t).1
        → Failed v e w

  delete_on_fail-world :
      (pid : String) (x : Err) (t : W)
      → (delete_on_fail ex P name pid x t).1 ≡ (delete_machine ex P name pid t).1
  unfolding delete_on_fail
  delete_on_fail-world pid x t = ground arith

  delete_on_fail-ne-ok :
      (pid : String) (x : Err) (t : W) (a : String) → (delete_on_fail ex P name pid x t).0 ≢ ok a
  unfolding delete_on_fail
  delete_on_fail-ne-ok pid x t a = ground arith

  module _ (polls : PollsInRounds P) where
    post_process-ok :
        (server : Server) (ids : List String) (v w : W)
        → post_process ex P server.id ids v ≡ (ok tt, w)
        → Processed server ids v w
    unfolding post_process wait_until_active patch_ports_of
    post_process-ok server ids v w h =
        let (_, seen, waited, patched) =
          bind_ok (wait_until_active ex P server.id) (λ _. patch_ports_of ex P server.id ids) v h in
        let done =
          map_error_ok _
            (wait_for_status ex P server.id (status_build ∷ []) (status_active ∷ []) 600) v
            waited in
        let (look, reached) =
          wait_for_status-ok ex server.id (status_build ∷ []) (status_active ∷ []) P 600 polls v
            seen done in
        in_steps look seen done reached
          (map_error_ok _ (patch_server_ports_for_pod_network ex server.id ids) seen patched)

    finish_machine-ok :
        (server : Server) (ids : List String) (v w : W) (pid : String)
        → finish_machine ex P name ids server v ≡ (ok pid, w)
        → (pid ≡ encode_provider_id (spec_of ex).region server.id) × Processed server ids v w
    unfolding finish_machine
    finish_machine-ok server ids v w pid h =
        elim (try_ok (post_process ex P server.id ids)
          (delete_on_fail ex P name (encode_provider_id (spec_of ex).region server.id))
          (λ _. pure (encode_provider_id (spec_of ex).region server.id)) v h) [
            | inl (_, u, e, rest) ↦ (ground arith, post_process-ok server ids v w (ground arith))
            | inr (x, u, e, rest) ↦ absurd (
                delete_on_fail-ne-ok (encode_provider_id (spec_of ex).region server.id) x u pid
                  (ground arith))
          ]

    -- A creation that succeeds returns the provider ID of a server that it deployed in the
    -- resolved networks, that was then seen to be active, and whose ports were then patched.
    pub create_machine-ok :
        (v w : W) (pid : String)
        → create_machine ex P name user_data v ≡ (ok pid, w)
        → (server : Server) × (ids : List String) × (u : W) × Deployed v server ids u
          × Processed server ids u w
          × (pid ≡ encode_provider_id (spec_of ex).region server.id)
    unfolding create_machine deploy_machine
    create_machine-ok v w pid h =
        let ((nws, ids), t, resolved, rest) =
          bind_ok (map_error _ (resolve_server_networks ex name))
            (deploy_machine ex P name user_data) v h in
        let (server, u, deployed, finished) =
          bind_ok (map_error _ (deploy_server ex name user_data nws)) (finish_machine ex P name ids)
            t rest in
        let (e, processed) = finish_machine-ok server ids u w pid finished in
        (
          server,
          ids,
          u,
          in_steps nws t (map_error_ok _ (resolve_server_networks ex name) v resolved)
              (map_error_ok _ (deploy_server ex name user_data nws) t deployed),
          processed,
          e,
        )

  finish_machine-err :
      (server : Server) (ids : List String) (v w : W) (e : Err)
      → finish_machine ex P name ids server v ≡ (err e, w)
      → (x : Err) × (t : W) × (post_process ex P server.id ids v ≡ (err x, t))
        × (w ≡ (delete_machine ex P name (encode_provider_id (spec_of ex).region server.id) t).1)
  unfolding finish_machine
  finish_machine-err server ids v w e h =
      let pid = encode_provider_id (spec_of ex).region server.id in
      elim (try_err (post_process ex P server.id ids) (delete_on_fail ex P name pid) (λ _. pure pid)
        v h) [
          | inl (_, u, p, rest) ↦ absurd (ground arith)
          | inr (x, t, p, rest) ↦ (x, t, p, sym (ap (λ r. r.1) rest) ∙ delete_on_fail-world pid x t)
        ]

  deploy_machine-err :
      (v u w : W) (nws : List ServerNetwork) (ids : List String) (e : Err)
      → resolve_server_networks ex name v ≡ (ok (nws, ids), u)
      → deploy_machine ex P name user_data (nws, ids) u ≡ (err e, w)
      → Failed v e w
  unfolding deploy_machine
  deploy_machine-err v u w nws ids e resolved h =
      elim (bind_err
        (map_error (errorf_w "failed to deploy server for machine %q: %w" (name ∷ []))
          (deploy_server ex name user_data nws))
        (finish_machine ex P name ids) u h) [
          | inl failed ↦
              let (x, p, _) = map_error_err _ (deploy_server ex name user_data nws) u failed in
              undeployed x nws ids u resolved p
          | inr (server, s, deployed, finished) ↦
              let (x, t, p, q) = finish_machine-err server ids s w e finished in
              cleaned x server ids s t
                (in_steps nws u resolved
                  (map_error_ok _ (deploy_server ex name user_data nws) u deployed))
                p q
        ]

  -- A creation that fails has failed to resolve the networks, or to deploy the server, and then
  -- it has undone nothing, or it has failed after the deployment, and then the deletion of the
  -- machine by its provider ID was the last that it did.
  pub create_machine-err :
      (v w : W) (e : Err) → create_machine ex P name user_data v ≡ (err e, w) → Failed v e w
  unfolding create_machine
  create_machine-err v w e h =
      elim (bind_err
        (map_error (errorf_v "failed to resolve server networks: %v" [])
          (resolve_server_networks ex name))
        (deploy_machine ex P name user_data) v h) [
          | inl failed ↦
              let (x, p, _) = map_error_err _ (resolve_server_networks ex name) v failed in
              unresolved x p
          | inr ((nws, ids), u, resolved, rest) ↦
              deploy_machine-err v u w nws ids e
                (map_error_ok _ (resolve_server_networks ex name) v resolved) rest
        ]
