-- ===== src/Tests/StoreRequests.antt =====
-- The requests of the driver, in the cloud that is a store of servers.
use machine_controller_manag.Base.{String, string_discrete, ◌≡◌, refl, some, [], ◌∷◌, keep}
use machine_controller_manag.Base.Dict.{Dict, lookup}
use machine_controller_manag.Action.{answer, ok}
use machine_controller_manag.Config.{MachineProviderConfig}
use machine_controller_manag.Clients.Factory.{Factory}
use machine_controller_manag.Driver.Defs.{OpenstackDriver, Machine, not_found, response}
use machine_controller_manag.Driver.Requests.{
  new_executor, decode_provider_spec, create_machine_request, delete_machine_request,
  list_machines_request, get_machine_status_request,
}
use machine_controller_manag.Driver.Laws.{Aggregates, run-accepted, run_accepted-made}
use machine_controller_manag.Text.{trim_space, contains_text, has_prefix}
use machine_controller_manag.Text.Split.{split}
use machine_controller_manag.Executor.Utils.{decode_provider_id, is_empty_string}
use machine_controller_manag.Executor.Find.{
  search_tags, search_tags_from, tag_round, has_tags, get_machine_by_provider_id,
}
use machine_controller_manag.Executor.Delete.{find_machine}
use machine_controller_manag.Executor.Store.{entry_of}
use machine_controller_manag.Executor.Store.Matching.{is_entry}
use machine_controller_manag.Driver.Laws.Codes.{EndsWith}
use machine_controller_manag.Driver.Laws.RoundTrip.{
  create_then_status_request, create_then_list_request, delete_then_status_request,
}
use machine_controller_manag.Tests.Checks.{IsValidRequest_example}
use machine_controller_manag.Tests.StoreRuns.{create_run, delete_run}
use machine_controller_manag.Tests.StoreCloud.{
  Store, compute, network, ex, contents, poller, polls, store, web, idle, empty, holding, emptied,
}
use machine_controller_manag.Tests.World.{spec, configured, secret, machine, aggregate}

abbrev factory : Factory Store
factory = record { compute = λ opts. answer compute; network = λ opts. answer network }

abbrev driver : OpenstackDriver Store MachineProviderConfig
driver = record {
  marshal_json = λ raw. answer "";
  decode = λ json. answer (configured spec);
  client_constructor = λ secret w. (answer factory, w);
  to_aggregate = aggregate;
  poller = poller;
}

aggregates : Aggregates driver
aggregates [] = (λ h. refl, λ h. refl)
aggregates (e ∷ errs) = (λ h. cc, λ h. cc)

decode_run : decode_provider_spec driver (configured spec) ≡ answer (configured spec)
unfolding decode_provider_spec
decode_run = refl

new_executor_run : new_executor factory (configured spec) ≡ answer ex
unfolding new_executor
new_executor_run = refl

create_request_run :
    create_machine_request driver (configured spec) secret machine empty
    ≡ (response (record { provider_id = "openstack:///eu/s-1"; node_name = "web" }), holding)
unfolding create_machine_request string_discrete
create_request_run =
    rw
      (
        run-accepted driver aggregates (configured spec) secret _ empty (configured spec) decode_run
            IsValidRequest_example,
        run_accepted-made driver aggregates (configured spec) secret _ empty factory empty ex refl
            new_executor_run,
        create_run,
      )
      refl

create_then_status_request_example :
    get_machine_status_request driver (configured spec) secret machine holding
    ≡ (response (record { provider_id = "openstack:///eu/s-1"; node_name = "web" }), holding)
create_then_status_request_example =
    create_then_status_request driver aggregates (configured spec) secret machine (configured spec)
      factory ex contents empty empty holding holding holding (web ∷ [])
      (record { provider_id = "openstack:///eu/s-1"; node_name = "web" }) polls store decode_run
      IsValidRequest_example new_executor_run refl refl create_request_run refl (idle holding) refl

abbrev stored : Machine
stored = record { name = "web"; provider_id = "openstack:///eu/s-1" }

find_run : find_machine ex "web" "openstack:///eu/s-1" holding ≡ (ok (some web), holding)
unfolding find_machine get_machine_by_provider_id decode_provider_id split is_empty_string
    trim_space string_discrete search_tags search_tags_from tag_round contains_text has_prefix
    has_tags
find_run = refl

alone_run :
    keep (is_entry "web" (search_tags (configured spec).spec.tags)) (contents.servers holding)
    ≡ entry_of web ∷ []
unfolding search_tags search_tags_from tag_round contains_text has_prefix string_discrete
alone_run = refl

delete_request_run :
    delete_machine_request driver (configured spec) secret stored holding ≡ (response tt, emptied)
unfolding delete_machine_request
delete_request_run =
    rw
      (
        run-accepted driver aggregates (configured spec) secret _ holding (configured spec)
            decode_run IsValidRequest_example,
        run_accepted-made driver aggregates (configured spec) secret _ holding factory holding ex
            refl new_executor_run,
        delete_run,
      )
      refl

delete_then_status_request_example :
    EndsWith (get_machine_status_request driver (configured spec) secret stored emptied).0 not_found
delete_then_status_request_example =
    delete_then_status_request driver aggregates (configured spec) secret stored (configured spec)
      factory ex contents holding holding holding emptied emptied emptied web [] polls store
      decode_run IsValidRequest_example new_executor_run refl find_run alone_run delete_request_run
      refl (idle emptied) refl

create_then_list_request_example :
    (machines : Dict String) × (list_machines_request driver (configured spec) secret holding
      ≡ (response machines, holding))
    × (lookup "openstack:///eu/s-1" machines ≡ some "web")
create_then_list_request_example =
    create_then_list_request driver aggregates (configured spec) secret machine (configured spec)
      factory ex contents empty empty holding holding holding (web ∷ [])
      (record { provider_id = "openstack:///eu/s-1"; node_name = "web" }) polls store decode_run
      IsValidRequest_example new_executor_run refl refl create_request_run refl (idle holding) refl
