-- ===== src/Executor/Wait/Looks.antt =====
-- How a wait ends, told by the looks at the server.
use machine_controller_manag.Base.{
  ℕ, zero, suc, ◌≤◌, String, true, false, ◌≡◌, ◌≢◌, refl, sym, ◌∙◌, ◌⊎◌, inl, inr, List, [], arith,
}
use machine_controller_manag.Action.{Answer, ok, err, answer, failure}
use machine_controller_manag.Errors.{Err, is_not_found_error}
use machine_controller_manag.Cloud.{Server, status_deleted}
use machine_controller_manag.Executor.Defs.{Executor, Poller, rounds, PollsInRounds}
use machine_controller_manag.Executor.Utils.{str_slice_contains}
use machine_controller_manag.Executor.Wait.{unexpected_status, poll_status, wait_for_status}
use machine_controller_manag.Executor.Wait.Laws.{Reached, in_state, gone, rounds-err}

module _ {W : Type 0} (ex : Executor W) (id : String) (pending target : List String) where
  -- `v` is followed by `w` through a look that found the server in a state to wait in: any state
  -- that is no target if none is called pending, and else one of those called pending.
  pub data Pending (v w : W) : Type 0 where
    still :
        (server : Server)
        → ex.compute.get_server id v ≡ (answer server, w)
        → str_slice_contains target server.status ≡ false
        → (pending ≡ []) ⊎ (str_slice_contains pending server.status ≡ true)
        → Pending v w

  -- From `v` to `w` there were that many looks at a pending server, and then one that ends the
  -- wait.
  pub data Looks : ℕ → W → W → Type 0 where
    last : {v w : W} → Reached ex id target v w → Looks zero v w
    more : {n : ℕ} {u v w : W} → Pending u v → Looks n v w → Looks (suc n) u w

  -- A look that fails the wait with `e`: the look itself failed, or the state was unexpected.
  pub data Stopped (e : Err) (v w : W) : Type 0 where
    by_failure :
        ex.compute.get_server id v ≡ (failure e, w)
        → (is_not_found_error e ≡ false) ⊎ (str_slice_contains target status_deleted ≡ false)
        → Stopped e v w
    by_state :
        (server : Server)
        → ex.compute.get_server id v ≡ (answer server, w)
        → str_slice_contains target server.status ≡ false
        → pending ≢ []
        → str_slice_contains pending server.status ≡ false
        → e ≡ unexpected_status server target
        → Stopped e v w

  poll_status-Reached :
      (v w : W) → Reached ex id target v w → poll_status ex id pending target v ≡ (ok true, w)
  unfolding poll_status
  poll_status-Reached v w (in_state server e t) = ground arith
  poll_status-Reached v w (gone x e n t) = ground arith

  poll_status-Pending : (v w : W) → Pending v w → poll_status ex id pending target v ≡ (ok false, w)
  unfolding poll_status
  poll_status-Pending v w (still server e t p) = ground arith

  poll_status-err :
      (e : Err) (v w : W) → poll_status ex id pending target v ≡ (err e, w) → Stopped e v w
  unfolding poll_status
  poll_status-err e v w h = go (ex.compute.get_server id v) refl
    where
      go : (r : Answer Server × W) → ex.compute.get_server id v ≡ r → Stopped e v w
      go (answer s, u) q =
          by_state s (ground arith) (ground arith) (ground arith) (ground arith) (ground arith)
      go (failure x, u) q = by_failure (ground arith) (ground arith)

  module _ (P : Poller W) (secs : ℕ) (polls : PollsInRounds P) where
    rounds-Looks :
        (n k : ℕ) (v w : W)
        → Looks k v w
        → k ≤ n
        → rounds P.timed_out (suc n) (poll_status ex id pending target) v ≡ (ok tt, w)
    rounds-Looks n zero v w (last reached) h =
        let seen = poll_status-Reached v w reached in ground arith
    rounds-Looks zero (suc k) v w (more p looks) h = absurd (ground arith)
    rounds-Looks (suc n) (suc k) v w (more {v = u} p looks) h =
        let seen = poll_status-Pending v u p in
        let rest = rounds-Looks n k u w looks (ground arith) in ground arith

    -- A wait succeeds if the server is in a target state, or gone where `DELETED` is one, after
    -- looks that found it pending, and the library runs the condition more often than there are
    -- such looks.
    pub wait_for_status-Looks :
        (k : ℕ) (v w : W)
        → Looks k v w
        → k ≤ (polls 1 secs (poll_status ex id pending target) v).0
        → wait_for_status ex P id pending target secs v ≡ (ok tt, w)
    unfolding wait_for_status
    wait_for_status-Looks k v w looks h =
        let (n, e) = polls 1 secs (poll_status ex id pending target) v in
        e ∙ rounds-Looks n k v w looks h

    -- A wait that fails has run out of time, or ends with a look at the server that failed (not
    -- for a missing server where `DELETED` is a target), or that found an unexpected state.
    pub wait_for_status-err :
        (e : Err) (v w : W)
        → wait_for_status ex P id pending target secs v ≡ (err e, w)
        → (e ≡ P.timed_out) ⊎ ((u : W) × Stopped e u w)
    unfolding wait_for_status
    wait_for_status-err e v w h =
        let (n, p) = polls 1 secs (poll_status ex id pending target) v in
        elim (rounds-err P.timed_out (poll_status ex id pending target) (suc n) v (sym p ∙ h)) [
          | inl late ↦ inl late
          | inr (u, stopped) ↦ inr (u, poll_status-err e u w stopped)
        ]
