-- ===== src/Driver/Laws/Crashes.antt =====
-- No request crashes, and what is refused changes nothing.
use machine_controller_manag.Base.{◌≡◌, ◌≢◌, ◌↔◌, refl, inl, inr, arith}
use machine_controller_manag.Action.{answer, Result, ok, err, panicked}
use machine_controller_manag.Errors.{Err}
use machine_controller_manag.Config.{MachineProviderConfig}
use machine_controller_manag.Secret.{Secret}
use machine_controller_manag.Validation.Secrets.{IsValidRequest}
use machine_controller_manag.Executor.Defs.{Executor, PollsInRounds}
use machine_controller_manag.Executor.Find.Name.{get_machine_status-panics}
use machine_controller_manag.Executor.Safety.{
  delete_machine-Safe, create_machine-Safe, list_machines-Safe,
}
use machine_controller_manag.Driver.Defs.{
  OpenstackDriver, Code, invalid_argument, Reply, status, crashed, map_error_to_code,
  always_internal, reply, Machine,
}
use machine_controller_manag.Driver.Requests.{
  decode_provider_spec, run, create_machine_request, delete_machine_request,
  get_machine_status_request, list_machines_request,
}
use machine_controller_manag.Driver.Laws.{
  Aggregates, run_cases, run_accepted_cases, run-accepted, run-answers,
}

reply-answers :
    {W A B : Type 0} (code : Err → Code) (f : A → B) (r : Result A × W)
    → r.0 ≢ panicked
    → (reply code f r).0 ≢ crashed
reply-answers code f (ok a, w) h e = cc
reply-answers code f (err x, w) h e = cc
reply-answers code f (panicked, w) h e = h refl

-- A code that is never that of a refused request.
abbrev NotRefusal : (Err → Code) → Type 0
NotRefusal code = (e : Err) → code e ≢ invalid_argument

map_error_to_code-NotRefusal : NotRefusal map_error_to_code
unfolding map_error_to_code
map_error_to_code-NotRefusal e h = ground arith

reply-accepts :
    {W A B : Type 0} (code : Err → Code) (f : A → B) (r : Result A × W)
    → NotRefusal code
    → (e : Err) → (reply code f r).0 ≢ status invalid_argument e
reply-accepts code f (ok a, w) n e h = cc
reply-accepts code f (err x, w) n e h = n x (ground arith)
reply-accepts code f (panicked, w) n e h = cc

module _ {W Raw : Type 0} (p : OpenstackDriver W Raw) (aggregates : Aggregates p) (raw : Raw)
    (secret : Secret) (machine : Machine) (w : W) where
  -- No request crashes: what validation lets through never makes an executor read a nil pointer.
  pub requests-ne-crashed :
      PollsInRounds p.poller
      → ((create_machine_request p raw secret machine w).0 ≢ crashed)
        × ((delete_machine_request p raw secret machine w).0 ≢ crashed)
        × ((get_machine_status_request p raw secret machine w).0 ≢ crashed)
        × ((list_machines_request p raw secret w).0 ≢ crashed)
  unfolding create_machine_request delete_machine_request get_machine_status_request
      list_machines_request
  requests-ne-crashed polls = (
    run-answers p aggregates raw secret _ w (λ ex v tagged.
        reply-answers _ _ _ ((create_machine-Safe ex p.poller polls machine.name _).answers v)),
    run-answers p aggregates raw secret _ w (λ ex v tagged. reply-answers _ _ _ (
        (delete_machine-Safe ex p.poller polls machine.name machine.provider_id
            (inl tagged)).answers
          v)),
    run-answers p aggregates raw secret _ w (λ ex v tagged.
        reply-answers _ _ _ (λ h. (get_machine_status-panics ex machine.name v).0 h tagged)),
    run-answers p aggregates raw secret _ w
        (λ ex v tagged. reply-answers _ _ _ ((list_machines-Safe ex).answers v)),
  )

  -- The provider spec decodes to a configuration that is valid with the secret.
  abbrev pub IsAccepted : Type 0
  IsAccepted =
      (config : MachineProviderConfig) × (decode_provider_spec p raw ≡ answer config)
      × IsValidRequest config secret

  -- The request ends with `InvalidArgument` and has changed nothing.
  abbrev pub Refused : {A : Type 0} → Reply A × W → Type 0
  Refused r = (e : Err) × (r ≡ (status invalid_argument e, w))

  run-Refused :
      {A : Type 0} (k : Executor W → W → Reply A × W)
      → ((ex : Executor W) (v : W) (e : Err) → (k ex v).0 ≢ status invalid_argument e)
      → Refused (run p raw secret k w) ↔ ¬ IsAccepted
  run-Refused k never = (
    λ (e, refused) (config, d, valid).
        let runs = run-accepted p aggregates raw secret k w config d valid in
        elim (run_accepted_cases p aggregates config secret k w) [
          | inl (e', w', failed) ↦ ground arith
          | inr (ex, w', same, runs') ↦ never ex w' e (ground arith)
        ],
    λ not_accepted. elim (run_cases p aggregates raw secret k w) [
      | inl refused ↦ refused
      | inr (config, d, valid, runs) ↦ absurd (not_accepted (config, d, valid))
    ],
  )

  -- Each request is refused, with the state as it was, exactly if its provider spec does not
  -- decode to a configuration that is valid with the secret.
  pub requests-Refused :
      (Refused (create_machine_request p raw secret machine w) ↔ ¬ IsAccepted)
      × (Refused (delete_machine_request p raw secret machine w) ↔ ¬ IsAccepted)
      × (Refused (get_machine_status_request p raw secret machine w) ↔ ¬ IsAccepted)
      × (Refused (list_machines_request p raw secret w) ↔ ¬ IsAccepted)
  unfolding create_machine_request delete_machine_request get_machine_status_request
      list_machines_request
  requests-Refused =
      let always_internal-NotRefusal : NotRefusal always_internal = λ e h. cc in
      (
        run-Refused _ (λ ex v. reply-accepts _ _ _ always_internal-NotRefusal),
        run-Refused _ (λ ex v. reply-accepts _ _ _ map_error_to_code-NotRefusal),
        run-Refused _ (λ ex v. reply-accepts _ _ _ map_error_to_code-NotRefusal),
        run-Refused _ (λ ex v. reply-accepts _ _ _ always_internal-NotRefusal),
      )
