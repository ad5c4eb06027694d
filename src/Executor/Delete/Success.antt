-- ===== src/Executor/Delete/Success.antt =====
-- When a deletion succeeds.
use machine_controller_manag.Base.{
  ℕ, ◌≤◌, String, true, false, ◌≡◌, ◌⊎◌, inl, inr, some, [], ◌∷◌, arith,
}
use machine_controller_manag.Action.{answer, ok}
use machine_controller_manag.Cloud.{Server, status_deleted}
use machine_controller_manag.Executor.Defs.{Executor, Poller, PollsInRounds, spec_of}
use machine_controller_manag.Executor.Utils.{is_empty_string}
use machine_controller_manag.Executor.Wait.{poll_status}
use machine_controller_manag.Executor.Wait.Looks.{Looks, wait_for_status-Looks}
use machine_controller_manag.Executor.Delete.{
  find_machine, delete_port, release_port, wait_for_deletion, delete_server, delete_machine,
}
use machine_controller_manag.Executor.Delete.Laws.{PortGone, no_subnet, no_port, deleted}

module _ {W : Type 0} (ex : Executor W) (P : Poller W) (name pid : String) where
  release_port-PortGone :
      (v w : W)
      → ((is_empty_string (spec_of ex).subnet_id ≡ true) × (v ≡ w))
        ⊎ ((is_empty_string (spec_of ex).subnet_id ≡ false) × PortGone ex name v w)
      → release_port ex name v ≡ (ok tt, w)
  unfolding release_port delete_port
  release_port-PortGone v w (inl (unset, same)) = ground arith
  release_port-PortGone v w (inr (set, no_subnet unset same)) = absurd (ground arith)
  release_port-PortGone v w (inr (set, no_port e failed lost)) = ground arith
  release_port-PortGone v w (inr (set, deleted id u found gone)) = ground arith

  -- A deletion succeeds if the search finds a server and the cloud takes the request to delete
  -- it, if the server is then seen to be gone or `DELETED` after looks that found it in another
  -- state, fewer than the library makes in 5 minutes, and if no subnet is set, or the port
  -- with the machine's name is deleted or not there.
  pub delete_machine-succeeds :
      (polls : PollsInRounds P) (server : Server) (k : ℕ) (v u t s w : W)
      → find_machine ex name pid v ≡ (ok (some server), u)
      → ex.compute.delete_server server.id u ≡ (answer tt, t)
      → Looks ex server.id [] (status_deleted ∷ []) k t s
      → k ≤ (polls 1 300 (poll_status ex server.id [] (status_deleted ∷ [])) t).0
      → ((is_empty_string (spec_of ex).subnet_id ≡ true) × (s ≡ w))
        ⊎ ((is_empty_string (spec_of ex).subnet_id ≡ false) × PortGone ex name s w)
      → delete_machine ex P name pid v ≡ (ok tt, w)
  unfolding delete_machine delete_server wait_for_deletion
  delete_machine-succeeds polls server k v u t s w found taken looks often port =
      let waited =
        wait_for_status-Looks ex server.id [] (status_deleted ∷ []) P 300 polls k t s looks often in
      let released = release_port-PortGone s w port in ground arith
