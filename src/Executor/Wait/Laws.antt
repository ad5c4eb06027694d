-- ===== src/Executor/Wait/Laws.antt =====
-- What a finished wait has seen.
use machine_controller_manag.Base.{
  ℕ, zero, suc, String, Bool, true, false, ◌≡◌, refl, sym, ◌∙◌, ◌⊎◌, inl, inr, List, if◌then◌else◌,
  arith,
}
use machine_controller_manag.Action.{Answer, Action, ok, err, answer, failure, pure}
use machine_controller_manag.Action.Laws.{bind_ok, bind_err}
use machine_controller_manag.Errors.{Err, is_not_found_error}
use machine_controller_manag.Cloud.{Server, status_deleted}
use machine_controller_manag.Executor.Defs.{Executor, Poller, rounds, PollsInRounds}
use machine_controller_manag.Executor.Utils.{str_slice_contains}
use machine_controller_manag.Executor.Wait.{poll_status, wait_for_status}

module _ {W : Type 0} (late : Err) (cond : Action W Bool) where
  -- Rounds that succeed end with a condition that has returned true.
  pub rounds-ok :
      (n : ℕ) (w w'' : W)
      → rounds late n cond w ≡ (ok tt, w'')
      → (v : W) × (cond v ≡ (ok true, w''))
  rounds-ok zero w w'' h = absurd (ground arith)
  rounds-ok (suc n) w w'' h =
      let (done, w', e, rest) =
        bind_ok cond (λ done. if done then pure tt else rounds late n cond) w h in
      go w' done e (rounds-ok n w' w'') rest
    where
      go :
          (w' : W) (done : Bool)
          → cond w ≡ (ok done, w')
          → (rounds late n cond w' ≡ (ok tt, w'') → (v : W) × (cond v ≡ (ok true, w'')))
          → (if done then pure tt else rounds late n cond) w' ≡ (ok tt, w'')
          → (v : W) × (cond v ≡ (ok true, w''))
      go w' true e ih rest = (w, ground arith)
      go w' false e ih rest = ih rest

  -- Rounds that fail end with the condition's error, or because the time is up.
  pub rounds-err :
      (n : ℕ) (w : W) {e : Err} {w'' : W}
      → rounds late n cond w ≡ (err e, w'')
      → (e ≡ late) ⊎ ((v : W) × (cond v ≡ (err e, w'')))
  rounds-err zero w h = inl (ground arith)
  rounds-err (suc n) w {e} {w''} h =
      elim (bind_err cond (λ done. if done then pure tt else rounds late n cond) w h) [
        | inl failed ↦ inr (w, failed)
        | inr (done, w', p, rest) ↦ go w' done (λ q. rounds-err n w' q) rest
      ]
    where
      go :
          (w' : W) (done : Bool)
          → (rounds late n cond w' ≡ (err e, w'')
              → (e ≡ late) ⊎ ((v : W) × (cond v ≡ (err e, w''))))
          → (if done then pure tt else rounds late n cond) w' ≡ (err e, w'')
          → (e ≡ late) ⊎ ((v : W) × (cond v ≡ (err e, w'')))
      go w' true ih rest = absurd (ground arith)
      go w' false ih rest = ih rest

-- `v` is followed by `v'` through a look at the server that ends the wait for a state of `target`:
-- it is in such a state, or it is gone and `DELETED` is such a state.
pub data Reached {W : Type 0} (ex : Executor W) (id : String) (target : List String) (v v' : W)
    : Type 0 where
  in_state :
      (server : Server)
      → ex.compute.get_server id v ≡ (answer server, v')
      → str_slice_contains target server.status ≡ true
      → Reached ex id target v v'
  gone :
      (e : Err)
      → ex.compute.get_server id v ≡ (failure e, v')
      → is_not_found_error e ≡ true
      → str_slice_contains target status_deleted ≡ true
      → Reached ex id target v v'

module _ {W : Type 0} (ex : Executor W) (id : String) (pending target : List String) where
  poll_status-true :
      (v v' : W) → poll_status ex id pending target v ≡ (ok true, v') → Reached ex id target v v'
  unfolding poll_status
  poll_status-true v v' h = go (ex.compute.get_server id v) refl
    where
      go : (r : Answer Server × W) → ex.compute.get_server id v ≡ r → Reached ex id target v v'
      go (answer s, u) e = in_state s (ground arith) (ground arith)
      go (failure x, u) e = gone x (ground arith) (ground arith) (ground arith)

  module _ (P : Poller W) (secs : ℕ) where
    -- A wait that succeeds ends with a look at the server that found it in a target state, or
    -- found it gone where `DELETED` is a target.
    pub wait_for_status-ok :
        PollsInRounds P
        → (w w' : W) → wait_for_status ex P id pending target secs w ≡ (ok tt, w')
        → (v : W) × Reached ex id target v w'
    unfolding wait_for_status
    wait_for_status-ok polls w w' h =
        let (n, e) = polls 1 secs (poll_status ex id pending target) w in
        let (v, seen) =
          rounds-ok P.timed_out (poll_status ex id pending target) (suc n) w w' (sym e ∙ h) in
        (v, poll_status-true v w' seen)
