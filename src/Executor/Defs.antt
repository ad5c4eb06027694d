-- ===== src/Executor/Defs.antt =====
-- `Executor` (pkg/driver/executor/executor.go), and `wait.Poll`, which a library implements.
use machine_controller_manag.Base.{ℕ, zero, suc, Bool, if◌then◌else◌, ◌≡◌}
use machine_controller_manag.Action.{Action, pure, raise, ◌>>=◌}
use machine_controller_manag.Errors.{Err}
use machine_controller_manag.Config.{MachineProviderConfig, MachineProviderConfigSpec}
use machine_controller_manag.Cloud.{Compute, Network}

pub record Executor (W : Type 0) : Type 0 where
  pub compute : Compute W
  pub network : Network W
  pub config : MachineProviderConfig

abbrev pub spec_of : {W : Type 0} → Executor W → MachineProviderConfigSpec
spec_of ex = ex.config.spec

-- `wait.Poll(interval, timeout, condition)`, in seconds, and the error that it times out with.
pub record Poller (W : Type 0) : Type 0 where
  pub poll : ℕ → ℕ → Action W Bool → Action W (Unit {0})
  pub timed_out : Err

-- The condition run up to `n` times: until it returns true or an error.
abbrev pub rounds : {W : Type 0} → Err → ℕ → Action W Bool → Action W (Unit {0})
rounds late zero cond = raise late
rounds late (suc n) cond = cond >>= λ done. if done then pure tt else rounds late n cond

-- What the library documents: the condition runs at least once, until it returns true or an
-- error or until the time is up. How often it runs is up to the library, the clock and the world.
abbrev pub PollsInRounds : {W : Type 0} → Poller W → Type 0
PollsInRounds {W} P =
    (interval timeout : ℕ) (cond : Action W Bool) (w : W)
    → (n : ℕ) × (P.poll interval timeout cond w ≡ rounds P.timed_out (suc n) cond w)
