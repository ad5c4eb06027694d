-- ===== src/Executor/Delete/Laws.antt =====
-- What a finished deletion has done.
use machine_controller_manag.Base.{
  String, true, ◌≡◌, refl, ◌⊎◌, inl, inr, Option, none, some, [], ◌∷◌, arith, Bool-cases,
}
use machine_controller_manag.Action.{Answer, answer, failure, ok, err, call, deref, ◌>>=◌, ◌>>◌}
use machine_controller_manag.Action.Laws.{bind_ok, try_ok, call_ok, map_error_ok}
use machine_controller_manag.Errors.{Err, err_not_found, is_error, is_not_found_error}
use machine_controller_manag.Cloud.{Server, status_deleted}
use machine_controller_manag.Executor.Defs.{Executor, Poller, PollsInRounds, spec_of}
use machine_controller_manag.Executor.Utils.{is_empty_string}
use machine_controller_manag.Executor.Wait.{wait_for_status}
use machine_controller_manag.Executor.Wait.Laws.{Reached, wait_for_status-ok}
use machine_controller_manag.Executor.Delete.{
  delete_port, find_machine, release_port, wait_for_deletion, on_lost, delete_server,
  delete_machine,
}

module _ {W : Type 0} (ex : Executor W) (name : String) where
  -- Between `v` and `w` the machine's port was given up: no subnet is configured, no port has the
  -- machine's name, or the port with that name was deleted.
  pub data PortGone (v w : W) : Type 0 where
    no_subnet : is_empty_string (spec_of ex).subnet_id ≡ true → v ≡ w → PortGone v w
    no_port :
        (e : Err)
        → ex.network.port_id_from_name name v ≡ (failure e, w)
        → is_not_found_error e ≡ true
        → PortGone v w
    deleted :
        (id : String) (u : W)
        → ex.network.port_id_from_name name v ≡ (answer id, u)
        → ex.network.delete_port id u ≡ (answer tt, w)
        → PortGone v w

  delete_port-ok : (v w : W) → delete_port ex name v ≡ (ok tt, w) → PortGone v w
  unfolding delete_port
  delete_port-ok v w h = go (ex.network.port_id_from_name name v) refl
    where
      go : (r : Answer String × W) → ex.network.port_id_from_name name v ≡ r → PortGone v w
      go (answer id, u) e = deleted id u e (call_ok (ex.network.delete_port id) u (ground arith))
      go (failure x, u) e = no_port x (ground arith) (ground arith)

  release_port-ok : (v w : W) → release_port ex name v ≡ (ok tt, w) → PortGone v w
  unfolding release_port
  release_port-ok v w h = elim (Bool-cases (is_empty_string (spec_of ex).subnet_id)) [
    | inl unset ↦ no_subnet unset (ground arith)
    | inr set ↦ delete_port-ok v w (rw set at h)
  ]

  -- Between `v` and `w` the server was deleted: the cloud took the request, the wait that
  -- followed ended with a look that found the server gone or in the state `DELETED`, and then its
  -- port was given up.
  pub data Deleted (P : Poller W) (server : Server) (v w : W) : Type 0 where
    in_steps :
        (asked look seen : W)
        → ex.compute.delete_server server.id v ≡ (answer tt, asked)
        → wait_for_status ex P server.id [] (status_deleted ∷ []) 300 asked ≡ (ok tt, seen)
        → Reached ex server.id (status_deleted ∷ []) look seen
        → PortGone seen w
        → Deleted P server v w

  module _ (P : Poller W) (polls : PollsInRounds P) where
    delete_server-ok :
        (server : Server) (v w : W)
        → delete_server ex P name server v ≡ (ok tt, w)
        → Deleted P server v w
    unfolding delete_server wait_for_deletion
    delete_server-ok server v w h =
        let (_, asked, e, rest) =
          bind_ok (call (ex.compute.delete_server server.id))
            (λ _. wait_for_deletion ex P server.id >> release_port ex name) v h in
        let (_, seen, waited, released) =
          bind_ok (wait_for_deletion ex P server.id) (λ _. release_port ex name) asked rest in
        let done =
          map_error_ok _ (wait_for_status ex P server.id [] (status_deleted ∷ []) 300) asked
            waited in
        let (look, reached) =
          wait_for_status-ok ex server.id [] (status_deleted ∷ []) P 300 polls asked seen done in
        in_steps asked look seen (call_ok (ex.compute.delete_server server.id) v e) done reached
          (release_port-ok seen w released)

    from_found :
        (pid : String) (v w : W) (found : Option Server) (u : W)
        → find_machine ex name pid v ≡ (ok found, u)
        → (deref found >>= delete_server ex P name) u ≡ (ok tt, w)
        → (server : Server) × (u : W) × (find_machine ex name pid v ≡ (ok (some server), u))
          × Deleted P server u w
    from_found pid v w none u e rest = absurd (ground arith)
    from_found pid v w (some server) u e rest = (server, u, e, delete_server-ok server u w rest)

    -- A deletion that succeeds has found no machine and changed nothing after the search, or it
    -- has deleted the server that the search found, has waited for it to be gone, and then, where
    -- a subnet is set, has deleted the port with the machine's name or was told that there is none.
    pub delete_machine-ok :
        (pid : String) (v w : W)
        → delete_machine ex P name pid v ≡ (ok tt, w)
        → ((e : Err) × (find_machine ex name pid v ≡ (err e, w))
            × (is_error e err_not_found ≡ true))
          ⊎ ((server : Server) × (u : W) × (find_machine ex name pid v ≡ (ok (some server), u))
              × Deleted P server u w)
    unfolding delete_machine on_lost
    delete_machine-ok pid v w h =
        elim (try_ok (find_machine ex name pid) (on_lost ex P)
          (λ found. deref found >>= delete_server ex P name) v h) [
            | inl (found, u, e, rest) ↦ inr (from_found pid v w found u e rest)
            | inr (x, u, e, rest) ↦ inl (x, ground arith, ground arith)
          ]
