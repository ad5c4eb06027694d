-- ===== src/Driver/Laws/Codes.antt =====
-- The codes with which requests end, once they are accepted.
use machine_controller_manag.Base.{
  some, true, ◌⊎◌, inl, inr, ◌<◌, String, ◌≡◌, ◌↔◌, refl, List, [], ◌∷◌, arith, length,
}
use machine_controller_manag.Action.{answer, Result, ok, err, panicked}
use machine_controller_manag.Errors.{Err, is_error}
use machine_controller_manag.Config.{MachineProviderConfig}
use machine_controller_manag.Cloud.{Server}
use machine_controller_manag.Secret.{Secret}
use machine_controller_manag.Clients.Factory.{Factory}
use machine_controller_manag.Validation.Spec.{tags_found}
use machine_controller_manag.Validation.Secrets.{IsValidRequest}
use machine_controller_manag.Executor.Defs.{Executor}
use machine_controller_manag.Executor.Utils.{encode_provider_id, is_empty_string}
use machine_controller_manag.Executor.Delete.{delete_machine}
use machine_controller_manag.Executor.Delete.Failure.{ErrorsOutside, delete_machine-err}
use machine_controller_manag.Executor.Find.{unique_server}
use machine_controller_manag.Executor.Find.Name.{
  HasTagNames, matches, status_of, get_machine_by_name-listed, get_machine_status_lem,
}
use machine_controller_manag.Driver.Defs.{
  OpenstackDriver, Code, not_found, out_of_range, Reply, response, status, map_error_to_code, reply,
  Machine, GetMachineStatusResponse,
}
use machine_controller_manag.Driver.Requests.{
  new_executor, decode_provider_spec, delete_machine_request, get_machine_status_request,
}
use machine_controller_manag.Driver.Laws.{
  Aggregates, new_executor-config, run-accepted, run_accepted-made,
}

-- The reply has that code.
abbrev pub EndsWith : {A : Type 0} → Reply A → Code → Type 0
EndsWith r code = (e : Err) × (r ≡ status code e)

status_codes :
    {W : Type 0} (region name : String) (found : List Server) (server : Server) (w : W)
    → let node : String → GetMachineStatusResponse =
        λ id. record { provider_id = id; node_name = name } in
      let r = (reply map_error_to_code node (status_of region (unique_server name found w))).0 in
      (EndsWith r not_found ↔ (found ≡ []))
      × (EndsWith r out_of_range ↔ (1 < length found))
      × (found ≡ server ∷ []
          → r
            ≡ response
                (record { provider_id = encode_provider_id region server.id; node_name = name }))
unfolding unique_server map_error_to_code is_error
status_codes region name [] server w =
    ((λ h. ground arith, λ h. (_, refl)), (λ (e, h). ground arith, λ h. ground arith), ground arith)
status_codes region name (s ∷ []) server w =
    ((λ (e, h). cc, λ h. ground arith), (λ (e, h). cc, λ h. ground arith), λ h. ground arith)
status_codes region name (s ∷ t ∷ more) server w =
    ((λ (e, h). ground arith, λ h. ground arith), (λ h. ground arith, λ h. (_, refl)), ground arith)

module _ {W Raw : Type 0} (p : OpenstackDriver W Raw) (aggregates : Aggregates p) where
  -- A request for a status that is accepted, and whose clients are made and list the servers,
  -- ends with `NotFound` exactly if no server has the name and the tags, with `OutOfRange`
  -- exactly if several do, and if one does, with the provider ID of that server and the name.
  pub get_machine_status_codes :
      (raw : Raw) (secret : Secret) (machine : Machine) (w v v' : W)
      (config : MachineProviderConfig) (factory : Factory W) (ex : Executor W)
      (listed : List Server) (server : Server)
      → decode_provider_spec p raw ≡ answer config
      → IsValidRequest config secret
      → p.client_constructor secret w ≡ (answer factory, v)
      → new_executor factory config ≡ answer ex
      → ex.compute.list_servers (record { name = machine.name }) v ≡ (answer listed, v')
      → let r = (get_machine_status_request p raw secret machine w).0 in
        (EndsWith r not_found ↔ (matches ex machine.name listed ≡ []))
        × (EndsWith r out_of_range ↔ (1 < length (matches ex machine.name listed)))
        × (matches ex machine.name listed ≡ server ∷ []
            → r
              ≡ response (record {
                provider_id = encode_provider_id config.spec.region server.id;
                node_name = machine.name;
              }))
  unfolding get_machine_status_request
  get_machine_status_codes raw secret machine w v v' config factory ex listed server d valid made
        new list =
      let same = new_executor-config factory config ex new in
      let tagged : HasTagNames ex =
        rw same ((tags_found config.spec.tags).0 valid.configured.tagged) in
      let region : ex.config.spec.region ≡ config.spec.region = ground arith in
      rw
        (
          run-accepted p aggregates raw secret _ w config d valid,
          run_accepted-made p aggregates config secret _ w factory v ex made new,
          get_machine_status_lem ex machine.name v,
          get_machine_by_name-listed ex machine.name v listed v' tagged list,
          region,
        )
        (status_codes config.spec.region machine.name (matches ex machine.name listed) server v')

  delete_codes :
      (ex : Executor W) (outside : ErrorsOutside ex) (machine : Machine) (v : W)
      → let r =
          (reply {B = Unit {0}} map_error_to_code
            (λ _. tt)
            (delete_machine ex p.poller machine.name machine.provider_id v)).0 in
        (¬ EndsWith r not_found)
        × ((¬ EndsWith r out_of_range) ⊎ (is_empty_string (some machine.provider_id) ≡ true))
  unfolding map_error_to_code
  delete_codes ex outside machine v =
      go (delete_machine ex p.poller machine.name machine.provider_id v) refl
    where
      go :
          (r : Result (Unit {0}) × W)
          → delete_machine ex p.poller machine.name machine.provider_id v ≡ r
          → let r =
              (reply {B = Unit {0}} map_error_to_code
                (λ _. tt)
                (delete_machine ex p.poller machine.name machine.provider_id v)).0 in
            (¬ EndsWith r not_found)
            × ((¬ EndsWith r out_of_range) ⊎ (is_empty_string (some machine.provider_id) ≡ true))
      go (ok _, w) h = rw h ((λ (e, q). cc), inl (λ (e, q). cc))
      go (err x, w) h =
          let (a, b) =
            delete_machine-err ex outside machine.name p.poller machine.provider_id v w x h in
          rw h (
            (λ (e, q). ground arith),
            elim b [ inl one ↦ inl (λ (e, q). ground arith) | inr blank ↦ inr blank ],
          )
      go (panicked, w) h = rw h ((λ (e, q). cc), inl (λ (e, q). cc))

  -- A request for a deletion that is accepted, and whose clients are made, never ends with
  -- `NotFound`, and with `OutOfRange` only if the machine has no provider ID, as long as no error
  -- of the cloud wraps one of the program's own.
  pub delete_machine_codes :
      (raw : Raw) (secret : Secret) (machine : Machine) (w v : W) (config : MachineProviderConfig)
      (factory : Factory W) (ex : Executor W)
      → decode_provider_spec p raw ≡ answer config
      → IsValidRequest config secret
      → p.client_constructor secret w ≡ (answer factory, v)
      → new_executor factory config ≡ answer ex
      → ErrorsOutside ex
      → let r = (delete_machine_request p raw secret machine w).0 in
        (¬ EndsWith r not_found)
        × ((¬ EndsWith r out_of_range) ⊎ (is_empty_string (some machine.provider_id) ≡ true))
  unfolding delete_machine_request
  delete_machine_codes raw secret machine w v config factory ex d valid made new outside =
      rw
        (
          run-accepted p aggregates raw secret _ w config d valid,
          run_accepted-made p aggregates config secret _ w factory v ex made new,
        )
        (delete_codes ex outside machine v)
