-- ===== src/Driver/Laws/RoundTrip.antt =====
-- Requests that follow each other.
use machine_controller_manag.Base.{
  String, ◌≡◌, refl, sym, ap, ◌∙◌, some, List, [], ◌∷◌, keep, arith,
}
use machine_controller_manag.Action.{answer, Result, ok, err, panicked}
use machine_controller_manag.Errors.{Err}
use machine_controller_manag.Config.{MachineProviderConfig}
use machine_controller_manag.Secret.{Secret}
use machine_controller_manag.Cloud.{Server}
use machine_controller_manag.Clients.Factory.{Factory}
use machine_controller_manag.Validation.Spec.{tags_found}
use machine_controller_manag.Validation.Secrets.{IsValidRequest}
use machine_controller_manag.Executor.Defs.{Executor, PollsInRounds}
use machine_controller_manag.Executor.Find.{search_tags}
use machine_controller_manag.Executor.Find.Name.{HasTagNames}
use machine_controller_manag.Executor.Store.{entry_of, Contents, IsStore}
use machine_controller_manag.Executor.Store.Changes.{Settled}
use machine_controller_manag.Executor.Store.Matching.{is_entry}
use machine_controller_manag.Base.Dict.{Dict, lookup}
use machine_controller_manag.Executor.Store.Listing.{has_provider_id, create_then_list}
use machine_controller_manag.Executor.Store.Deletion.{deleted_unmatched}
use machine_controller_manag.Executor.Delete.{find_machine}
use machine_controller_manag.Driver.Laws.Codes.{EndsWith, get_machine_status_codes}
use machine_controller_manag.Executor.Store.RoundTrip.{create_then_status}
use machine_controller_manag.Driver.Defs.{
  OpenstackDriver, Code, not_found, response, reply, Machine, CreateMachineResponse,
}
use machine_controller_manag.Driver.Requests.{
  new_executor, decode_provider_spec, create_machine_request, delete_machine_request,
  get_machine_status_request, list_machines_request,
}
use machine_controller_manag.Driver.Laws.{Aggregates, new_executor-config, run-made}

reply_response :
    {W A B : Type 0} (code : Err → Code) (f : A → B) (q : Result A × W) (b : B) (w : W)
    → reply code f q ≡ (response b, w)
    → (a : A) × (q ≡ (ok a, w)) × (b ≡ f a)
reply_response code f (ok a, v) b w h = (a, ground arith, ground arith)
reply_response code f (err e, v) b w h = absurd (ground arith)
reply_response code f (panicked, v) b w h = absurd (ground arith)

module _ {W Raw : Type 0} (p : OpenstackDriver W Raw) (aggregates : Aggregates p) where
  -- In a cloud that is a store of servers, and that holds no server with the machine's name and
  -- both tags when the clients are made, a request to create the machine that gets a response is
  -- answered again, with the same provider ID and node name, by a request for its status, as long
  -- as the provider spec is accepted, the same clients are made, the store has only settled since
  -- and the servers are listed.
  pub create_then_status_request :
      (raw : Raw) (secret : Secret) (machine : Machine) (config : MachineProviderConfig)
      (factory : Factory W) (ex : Executor W) (store : Contents W) (v v' w x y : W)
      (listed : List Server) (r : CreateMachineResponse)
      → PollsInRounds p.poller
      → IsStore ex store
      → decode_provider_spec p raw ≡ answer config
      → IsValidRequest config secret
      → new_executor factory config ≡ answer ex
      → p.client_constructor secret v ≡ (answer factory, v')
      → keep (is_entry machine.name (search_tags config.spec.tags)) (store.servers v') ≡ []
      → create_machine_request p raw secret machine v ≡ (response r, w)
      → p.client_constructor secret w ≡ (answer factory, x)
      → Settled store w x
      → ex.compute.list_servers (record { name = machine.name }) x ≡ (answer listed, y)
      → get_machine_status_request p raw secret machine w
        ≡ (response (record { provider_id = r.provider_id; node_name = r.node_name }), y)
  unfolding create_machine_request get_machine_status_request
  create_then_status_request raw secret machine config factory ex store v v' w x y listed r polls
        laws d valid new made alone created again same list =
      let config_of = new_executor-config factory config ex new in
      let tagged : HasTagNames ex =
        rw config_of ((tags_found config.spec.tags).0 valid.configured.tagged) in
      let ran =
        rw (run-made p aggregates raw secret _ v config factory v' ex d valid new made) at
          created in
      let (pid, finished, answered) = reply_response _ _ _ r w ran in
      let found =
        create_then_status ex store laws p.poller polls machine.name _ pid v' w x y listed tagged
          (rw config_of alone) finished same list in
      rw
        (
          run-made p aggregates raw secret _ w config factory x ex d valid new again,
          found,
          answered,
        )
        refl

  -- In a cloud that is a store of servers, a request to delete a machine that gets a response, and
  -- whose server the search found and was the only one with the machine's name and both tags, is
  -- followed by a request for the status that ends with `NotFound`, as long as the provider spec
  -- is accepted, the same clients are made, the store has only settled since and the servers are
  -- listed.
  pub delete_then_status_request :
      (raw : Raw) (secret : Secret) (machine : Machine) (config : MachineProviderConfig)
      (factory : Factory W) (ex : Executor W) (store : Contents W) (v v' u w x y : W)
      (server : Server) (listed : List Server)
      → PollsInRounds p.poller
      → IsStore ex store
      → decode_provider_spec p raw ≡ answer config
      → IsValidRequest config secret
      → new_executor factory config ≡ answer ex
      → p.client_constructor secret v ≡ (answer factory, v')
      → find_machine ex machine.name machine.provider_id v' ≡ (ok (some server), u)
      → keep (is_entry machine.name (search_tags config.spec.tags)) (store.servers v')
        ≡ entry_of server ∷ []
      → delete_machine_request p raw secret machine v ≡ (response tt, w)
      → p.client_constructor secret w ≡ (answer factory, x)
      → Settled store w x
      → ex.compute.list_servers (record { name = machine.name }) x ≡ (answer listed, y)
      → EndsWith (get_machine_status_request p raw secret machine w).0 not_found
  unfolding delete_machine_request
  delete_then_status_request raw secret machine config factory ex store v v' u w x y server listed
        polls laws d valid new made found alone gone again same list =
      let config_of = new_executor-config factory config ex new in
      let ran =
        rw (run-made p aggregates raw secret _ v config factory v' ex d valid new made) at gone in
      let (_, finished, _) = reply_response _ _ _ tt w ran in
      let unmatched =
        deleted_unmatched ex store laws p.poller polls machine.name machine.provider_id v' u w x y
          server listed found (rw config_of alone) finished same.0 list in
      (get_machine_status_codes p aggregates raw secret machine w x y config factory ex listed
          server d valid again new list).0.1
        unmatched

  -- In a cloud that is a store of servers, a request to create a machine that gets a response, and
  -- before which the store held no server with the provider ID of the response, is followed by a
  -- request for the list of machines that has the machine's name under that provider ID, as long
  -- as the provider spec is accepted, the same clients are made, the store has only settled since
  -- and the servers are listed.
  pub create_then_list_request :
      (raw : Raw) (secret : Secret) (machine : Machine) (config : MachineProviderConfig)
      (factory : Factory W) (ex : Executor W) (store : Contents W) (v v' w x y : W)
      (listed : List Server) (r : CreateMachineResponse)
      → PollsInRounds p.poller
      → IsStore ex store
      → decode_provider_spec p raw ≡ answer config
      → IsValidRequest config secret
      → new_executor factory config ≡ answer ex
      → p.client_constructor secret v ≡ (answer factory, v')
      → keep (has_provider_id config.spec.region r.provider_id) (store.servers v') ≡ []
      → create_machine_request p raw secret machine v ≡ (response r, w)
      → p.client_constructor secret w ≡ (answer factory, x)
      → Settled store w x
      → ex.compute.list_servers (record { name = "" }) x ≡ (answer listed, y)
      → (machines : Dict String) × (list_machines_request p raw secret w ≡ (response machines, y))
        × (lookup r.provider_id machines ≡ some machine.name)
  unfolding create_machine_request list_machines_request
  create_then_list_request raw secret machine config factory ex store v v' w x y listed r polls laws
        d valid new made fresh created again same list =
      let config_of = new_executor-config factory config ex new in
      let tagged : HasTagNames ex =
        rw config_of ((tags_found config.spec.tags).0 valid.configured.tagged) in
      let ran =
        rw (run-made p aggregates raw secret _ v config factory v' ex d valid new made) at
          created in
      let (pid, finished, answered) = reply_response _ _ _ r w ran in
      let same_id : pid ≡ r.provider_id = ap (λ a. a.provider_id) (sym answered) in
      let (machines, ran, found) =
        create_then_list ex store laws p.poller polls machine.name _ pid v' w x y listed tagged
          (rw (config_of, same_id) fresh) finished same list in
      (
        machines,
        rw (run-made p aggregates raw secret _ w config factory x ex d valid new again, ran) refl,
        ap (λ k. lookup k machines) (sym same_id) ∙ found,
      )
