-- ===== src/Executor/Wait.antt =====
-- `waitForStatus`: polling a server until it is in one of the target states.
pub mod Laws
pub mod Looks
use machine_controller_manag.Base.{
  ℕ, String, Bool, true, false, ◌==◌, ◌&&◌, ◌||◌, List, [], ◌∷◌, if◌then◌else◌,
}
use machine_controller_manag.Action.{Action, pure, raise, call, try}
use machine_controller_manag.Errors.{Err, errorf, errorf_v, is_not_found_error}
use machine_controller_manag.Text.{join}
use machine_controller_manag.Cloud.{Server, status_deleted, status_error}
use machine_controller_manag.Executor.Defs.{Executor, Poller}
use machine_controller_manag.Executor.Utils.{str_slice_contains}

-- `len(pending) == 0`
abbrev pub is_nil : List String → Bool
is_nil [] = true
is_nil (_ ∷ _) = false

-- the error for a state that is neither a target nor pending
unfoldable pub unexpected_status : Server → List String → Err
unexpected_status current target =
    let wrong =
      errorf "unexpected status %q, wanted target %q" (current.status ∷ join target ", " ∷ []) in
    if current.status == status_error
    then errorf_v "%s, fault: %+v" (current.fault ∷ []) wrong
    else wrong

module _ {W : Type 0} (ex : Executor W) where
  -- the function that `wait.Poll` runs
  unfoldable pub poll_status : String → List String → List String → Action W Bool
  poll_status server_id pending target =
      try (call (ex.compute.get_server server_id))
        (λ e.
          if is_not_found_error e && str_slice_contains target status_deleted
          then pure true
          else raise e)
        (λ current.
          if str_slice_contains target current.status
          then pure true
          else if is_nil pending || str_slice_contains pending current.status
          then pure false
          else raise (unexpected_status current target))

  unfoldable pub wait_for_status :
      Poller W → String → List String → List String → ℕ → Action W (Unit {0})
  wait_for_status P server_id pending target secs =
      P.poll 1 secs (poll_status server_id pending target)
