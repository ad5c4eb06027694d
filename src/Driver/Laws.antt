-- ===== src/Driver/Laws.antt =====
-- How requests end: refusals, codes, and that none of them crashes.
pub mod Crashes
pub mod Codes
pub mod Regions
pub mod RoundTrip
use machine_controller_manag.Base.{
  ℕ, ◌<◌, String, Bool, true, false, ◌≡◌, ◌≢◌, ◌⊎◌, ◌↔◌, refl, sym, ap, ◌∙◌, inl, inr, Option, none,
  some, List, [], ◌∷◌, if◌then◌else◌, arith, length,
}
use machine_controller_manag.Action.{Answer, answer, failure, Result, ok, err, panicked}
use machine_controller_manag.Action.Safety.{Safe}
use machine_controller_manag.Errors.{Err, err_not_found, err_multiple_found, is_error}
use machine_controller_manag.Config.{MachineProviderConfig}
use machine_controller_manag.Secret.{Secret}
use machine_controller_manag.Cloud.{Server}
use machine_controller_manag.Clients.Factory.{Factory, with_region}
use machine_controller_manag.Validation.{FieldError, validation_errors}
use machine_controller_manag.Validation.Spec.{HasTags, tags_found}
use machine_controller_manag.Validation.Secrets.{IsValidRequest, validation_errors-nil}
use machine_controller_manag.Executor.Defs.{Executor, PollsInRounds, spec_of}
use machine_controller_manag.Executor.Find.{get_machine_status, list_machines}
use machine_controller_manag.Executor.Find.Name.{
  HasTagNames, matches, fails_with, get_machine_status-panics,
}
use machine_controller_manag.Driver.Defs.{
  OpenstackDriver, Code, invalid_argument, internal, not_found, out_of_range, Reply, response,
  status, crashed, map_error_to_code, always_internal, reply, Machine,
}
use machine_controller_manag.Driver.Requests.{
  new_executor, decode_provider_spec, validate_request, run_accepted, run, create_machine_request,
  delete_machine_request, get_machine_status_request, list_machines_request,
}

-- `ErrorList.ToAggregate` gives no error exactly for the empty list.
abbrev pub Aggregates : {W Raw : Type 0} → OpenstackDriver W Raw → Type 0
Aggregates p = (errs : List FieldError) → (p.to_aggregate errs ≡ none) ↔ (errs ≡ [])

pub new_executor-config :
    {W : Type 0} (factory : Factory W) (config : MachineProviderConfig) (ex : Executor W)
    → new_executor factory config ≡ answer ex
    → ex.config ≡ config
unfolding new_executor
new_executor-config factory config ex h = ground arith

module _ {W Raw : Type 0} (p : OpenstackDriver W Raw) (aggregates : Aggregates p) where
  pub accepted :
      (config : MachineProviderConfig) (secret : Secret)
      → (validate_request p config secret ≡ none) ↔ IsValidRequest config secret
  unfolding validate_request
  accepted config secret =
      let a = aggregates (validation_errors config secret) in
      let v = validation_errors-nil config secret in (λ h. v.0 (a.0 h), λ h. a.1 (v.1 h))

  pub run_cases :
      {A : Type 0} (raw : Raw) (secret : Secret) (k : Executor W → W → Reply A × W) (w : W)
      → ((e : Err) × (run p raw secret k w ≡ (status invalid_argument e, w)))
        ⊎ ((config : MachineProviderConfig) × (decode_provider_spec p raw ≡ answer config)
            × IsValidRequest config secret
            × (run p raw secret k w ≡ run_accepted p config secret k w))
  unfolding run
  run_cases {A} raw secret k w = decoded (decode_provider_spec p raw) refl
    where
      validated :
          (config : MachineProviderConfig) (o : Option Err)
          → decode_provider_spec p raw ≡ answer config
          → validate_request p config secret ≡ o
          → ((e : Err) × (run p raw secret k w ≡ (status invalid_argument e, w)))
            ⊎ ((config : MachineProviderConfig) × (decode_provider_spec p raw ≡ answer config)
                × IsValidRequest config secret
                × (run p raw secret k w ≡ run_accepted p config secret k w))
      validated config none d v = inr (config, d, (accepted config secret).0 v, ground arith)
      validated config (some e) d v = inl (e, ground arith)

      decoded :
          (r : Answer MachineProviderConfig)
          → decode_provider_spec p raw ≡ r
          → ((e : Err) × (run p raw secret k w ≡ (status invalid_argument e, w)))
            ⊎ ((config : MachineProviderConfig) × (decode_provider_spec p raw ≡ answer config)
                × IsValidRequest config secret
                × (run p raw secret k w ≡ run_accepted p config secret k w))
      decoded (answer config) d = validated config (validate_request p config secret) d refl
      decoded (failure e) d = inl (e, ground arith)

  pub run-accepted :
      {A : Type 0} (raw : Raw) (secret : Secret) (k : Executor W → W → Reply A × W) (w : W)
      (config : MachineProviderConfig)
      → decode_provider_spec p raw ≡ answer config
      → IsValidRequest config secret
      → run p raw secret k w ≡ run_accepted p config secret k w
  unfolding run
  run-accepted raw secret k w config d valid =
      let none_reported = (accepted config secret).1 valid in ground arith

  pub run_accepted_cases :
      {A : Type 0} (config : MachineProviderConfig) (secret : Secret)
      (k : Executor W → W → Reply A × W) (w : W)
      → ((e : Err) × (w' : W) × (run_accepted p config secret k w ≡ (status internal e, w')))
        ⊎ ((ex : Executor W) × (w' : W) × (ex.config ≡ config)
            × (run_accepted p config secret k w ≡ k ex w'))
  unfolding run_accepted
  run_accepted_cases {A} config secret k w = constructed (p.client_constructor secret w) refl
    where
      made :
          (factory : Factory W) (w' : W) (r : Answer (Executor W))
          → p.client_constructor secret w ≡ (answer factory, w')
          → new_executor factory config ≡ r
          → ((e : Err) × (w' : W) × (run_accepted p config secret k w ≡ (status internal e, w')))
            ⊎ ((ex : Executor W) × (w' : W) × (ex.config ≡ config)
                × (run_accepted p config secret k w ≡ k ex w'))
      made factory w' (answer ex) c n =
          inr (ex, w', new_executor-config factory config ex n, ground arith)
      made factory w' (failure e) c n = inl (e, w', ground arith)

      constructed :
          (r : Answer (Factory W) × W)
          → p.client_constructor secret w ≡ r
          → ((e : Err) × (w' : W) × (run_accepted p config secret k w ≡ (status internal e, w')))
            ⊎ ((ex : Executor W) × (w' : W) × (ex.config ≡ config)
                × (run_accepted p config secret k w ≡ k ex w'))
      constructed (answer factory, w') c = made factory w' (new_executor factory config) c refl
      constructed (failure e, w') c = inl (e, w', ground arith)

  pub run_accepted-made :
      {A : Type 0} (config : MachineProviderConfig) (secret : Secret)
      (k : Executor W → W → Reply A × W) (w : W) (factory : Factory W) (v : W) (ex : Executor W)
      → p.client_constructor secret w ≡ (answer factory, v)
      → new_executor factory config ≡ answer ex
      → run_accepted p config secret k w ≡ k ex v
  unfolding run_accepted
  run_accepted-made config secret k w factory v ex made new = ground arith

  -- A request whose configuration is accepted, and whose clients are made, runs its operation.
  pub run-made :
      {A : Type 0} (raw : Raw) (secret : Secret) (k : Executor W → W → Reply A × W) (w : W)
      (config : MachineProviderConfig) (factory : Factory W) (v : W) (ex : Executor W)
      → decode_provider_spec p raw ≡ answer config
      → IsValidRequest config secret
      → new_executor factory config ≡ answer ex
      → p.client_constructor secret w ≡ (answer factory, v)
      → run p raw secret k w ≡ k ex v
  run-made raw secret k w config factory v ex d valid new made =
      run-accepted raw secret k w config d valid
      ∙ run_accepted-made config secret k w factory v ex made new

  -- A run does not crash if no executor with both tags crashes what it is given.
  pub run-answers :
      {A : Type 0} (raw : Raw) (secret : Secret) (k : Executor W → W → Reply A × W) (w : W)
      → ((ex : Executor W) (v : W) → HasTagNames ex → (k ex v).0 ≢ crashed)
      → (run p raw secret k w).0 ≢ crashed
  run-answers raw secret k w safe = elim (run_cases raw secret k w) [
    | inl (e, refused) ↦ rw refused (λ h. cc)
    | inr (config, d, valid, runs) ↦ rw runs (elim (run_accepted_cases config secret k w) [
      | inl (e, w', failed) ↦ rw failed (λ h. cc)
      | inr (ex, w', same, runs') ↦
          rw runs' (safe ex w' (rw same ((tags_found config.spec.tags).0 valid.configured.tagged)))
    ])
  ]
