-- ===== src/Driver/Requests.antt =====
-- The four requests that work with machines (pkg/driver/driver.go): `CreateMachine`,
-- `DeleteMachine`, `GetMachineStatus` and `ListMachines`.
use machine_controller_manag.Base.{String, Option, none, some, [], ◌∷◌}
use machine_controller_manag.Base.Dict.{Dict, lookup}
use machine_controller_manag.Action.{Answer, answer, failure}
use machine_controller_manag.Errors.{Err, errorf_v}
use machine_controller_manag.Config.{MachineProviderConfig}
use machine_controller_manag.Secret.{Secret, entries}
use machine_controller_manag.Secret.Key
use machine_controller_manag.Clients.Factory.{Factory, with_region}
use machine_controller_manag.Validation.{validation_errors, value_of}
use machine_controller_manag.Executor.Defs.{Executor}
use machine_controller_manag.Executor.Find.{get_machine_status, list_machines}
use machine_controller_manag.Executor.Delete.{delete_machine}
use machine_controller_manag.Executor.Create.{create_machine}
use machine_controller_manag.Driver.Defs.{
  OpenstackDriver, invalid_argument, internal, Reply, status, map_error_to_code, always_internal,
  reply, Machine, CreateMachineResponse, GetMachineStatusResponse,
}

-- `executor.NewExecutor`
unfoldable pub new_executor : {W : Type 0} → Factory W → MachineProviderConfig → Answer (Executor W)
new_executor factory config =
    let region = config.spec.region in
    elim (factory.compute (with_region region ∷ [])) [
      | failure e ↦ failure e
      | answer compute ↦ elim (factory.network (with_region region ∷ [])) [
        | failure e ↦ failure e
        | answer network ↦ answer (record { compute = compute; network = network; config = config })
      ]
    ]

module _ {W Raw : Type 0} (p : OpenstackDriver W Raw) where
  unfoldable pub decode_provider_spec : Raw → Answer MachineProviderConfig
  decode_provider_spec raw = elim (p.marshal_json raw) [
    | failure e ↦ failure (errorf_v "failed to decode provider spec: %v" [] e)
    | answer json ↦ elim (p.decode json) [
      | failure e ↦ failure (errorf_v "failed to decode provider spec: %v" [] e)
      | answer config ↦ answer config
    ]
  ]

  -- `validation.ValidateRequest`
  unfoldable pub validate_request : MachineProviderConfig → Secret → Option Err
  validate_request config secret = p.to_aggregate (validation_errors config secret)

  -- The steps that every request begins with, for a configuration that was accepted: the clients
  -- are constructed, and an executor with them.
  unfoldable pub run_accepted :
      {A : Type 0}
      → MachineProviderConfig
      → Secret
      → (Executor W → W → Reply A × W)
      → W
      → Reply A × W
  run_accepted config secret k w =
      let (r, w') = p.client_constructor secret w in
      elim r [
        | failure e ↦ (status internal e, w')
        | answer factory ↦ elim (new_executor factory config) [
          | failure e ↦ (status internal e, w')
          | answer ex ↦ k ex w'
        ]
      ]

  -- The steps before those: the provider spec is decoded, and the request is validated.
  unfoldable pub run :
      {A : Type 0} → Raw → Secret → (Executor W → W → Reply A × W) → W → Reply A × W
  run raw secret k w = elim (decode_provider_spec raw) [
    | failure e ↦ (status invalid_argument e, w)
    | answer config ↦ elim (validate_request config secret) [
      | some e ↦ (status invalid_argument e, w)
      | none ↦ run_accepted config secret k w
    ]
  ]

  unfoldable pub create_machine_request :
      Raw → Secret → Machine → W → Reply CreateMachineResponse × W
  create_machine_request raw secret machine = run raw secret λ ex w.
      reply always_internal
        (λ provider_id. record { provider_id = provider_id; node_name = machine.name })
        (create_machine ex p.poller machine.name (value_of (lookup Key.user_data (entries secret)))
          w)

  unfoldable pub delete_machine_request : Raw → Secret → Machine → W → Reply (Unit {0}) × W
  delete_machine_request raw secret machine = run raw secret λ ex w.
      reply map_error_to_code (λ _. tt)
        (delete_machine ex p.poller machine.name machine.provider_id w)

  unfoldable pub get_machine_status_request :
      Raw → Secret → Machine → W → Reply GetMachineStatusResponse × W
  get_machine_status_request raw secret machine = run raw secret λ ex w.
      reply map_error_to_code
        (λ provider_id. record { provider_id = provider_id; node_name = machine.name })
        (get_machine_status ex machine.name w)

  unfoldable pub list_machines_request : Raw → Secret → W → Reply (Dict String) × W
  list_machines_request raw secret =
      run raw secret λ ex w. reply always_internal (λ machines. machines) (list_machines ex w)
