-- ===== src/Tests/Endings.antt =====
-- The theorems on how an executor's operations end, at the small cloud.
use machine_controller_manag.Base.{
  String, string_discrete, ◌≡◌, ◌⊎◌, refl, true, false, none, some, [], ◌∷◌, inr, arith,
}
use machine_controller_manag.Action.{ok, err}
use machine_controller_manag.Errors.{is_error, is_not_found_error}
use machine_controller_manag.Text.{contains_text, has_prefix, trim_space}
use machine_controller_manag.Text.Split.{split}
use machine_controller_manag.Cloud.{status_active, status_build, status_deleted}
use machine_controller_manag.Executor.Utils.{
  encode_provider_id, decode_provider_id, is_empty_string, str_slice_contains,
}
use machine_controller_manag.Executor.Wait.{poll_status, wait_for_status}
use machine_controller_manag.Executor.Wait.Laws.{in_state, gone}
use machine_controller_manag.Executor.Wait.Looks.{
  Looks, last, Stopped, wait_for_status-Looks, wait_for_status-err,
}
use machine_controller_manag.Executor.Patch
use machine_controller_manag.Executor.Patch.{patch_server_ports_for_pod_network}
use machine_controller_manag.Executor.Find.{
  search_tags, search_tags_from, tag_round, has_tags, get_machine_by_provider_id,
}
use machine_controller_manag.Executor.Delete
use machine_controller_manag.Executor.Delete.{find_machine, delete_machine}
use machine_controller_manag.Executor.Delete.Laws.{deleted}
use machine_controller_manag.Executor.Delete.Success.{delete_machine-succeeds}
use machine_controller_manag.Executor.Delete.Failure.{FailsOutside, ErrorsOutside}
use machine_controller_manag.Executor.Create.{create_machine}
use machine_controller_manag.Executor.Create.Laws.{in_steps}
use machine_controller_manag.Executor.Create.Success.{create_machine-succeeds}
use machine_controller_manag.Driver.Defs.{not_found, out_of_range}
use machine_controller_manag.Driver.Requests.{delete_machine_request}
use machine_controller_manag.Driver.Laws.Codes.{EndsWith, delete_machine_codes}
use machine_controller_manag.Tests.Checks.{IsValidRequest_example}
use machine_controller_manag.Tests.Machines.{attached, existing_run, deploy_run}
use machine_controller_manag.Tests.Requests.{decode_run, new_executor_run}
use machine_controller_manag.Tests.World.{
  World, web, refused, is_gone, ex, ex_stuck, poller, polls, driver, aggregates, configured, spec,
  secret, machine, factory,
}

active : Looks ex "s-1" (status_build ∷ []) (status_active ∷ []) 0 (some web) (some web)
unfolding str_slice_contains string_discrete
active = last (in_state web refl refl)

missing : Looks ex "s-1" [] (status_deleted ∷ []) 0 none none
unfolding str_slice_contains string_discrete is_not_found_error
missing = last (gone is_gone refl refl refl)

wait_for_status-Looks_example :
    wait_for_status ex poller "s-1" (status_build ∷ []) (status_active ∷ []) 600 (some web)
    ≡ (ok tt, some web)
wait_for_status-Looks_example =
    wait_for_status-Looks ex "s-1" (status_build ∷ []) (status_active ∷ []) poller 600 polls 0
      (some web) (some web) active (omega arith)

late_run :
    wait_for_status ex poller "s-1" [] (status_deleted ∷ []) 300 (some web)
    ≡ (err refused, some web)
unfolding wait_for_status poll_status str_slice_contains string_discrete
late_run = refl

wait_for_status-err_example :
    (refused ≡ poller.timed_out)
    ⊎ ((u : World) × Stopped ex "s-1" [] (status_deleted ∷ []) refused u (some web))
wait_for_status-err_example =
    wait_for_status-err ex "s-1" [] (status_deleted ∷ []) poller 300 polls refused (some web)
      (some web) late_run

patch_run : patch_server_ports_for_pod_network ex "s-1" ("n-1" ∷ []) (some web) ≡ (ok tt, some web)
unfolding patch_server_ports_for_pod_network Patch.patch_listed Patch.patch_ports Patch.patch_port
    Patch.update_port string_discrete
patch_run = refl

create_machine-succeeds_example :
    create_machine ex poller "web" "start" none ≡ (ok (encode_provider_id "eu" "s-1"), some web)
create_machine-succeeds_example =
    create_machine-succeeds ex poller polls "web" "start" web ("n-1" ∷ []) 0 none (some web)
      (some web) (some web) (in_steps attached none existing_run deploy_run) active (omega arith)
      patch_run

found_run : find_machine ex "web" "openstack:///eu/s-1" (some web) ≡ (ok (some web), some web)
unfolding find_machine get_machine_by_provider_id decode_provider_id split is_empty_string
    trim_space string_discrete search_tags search_tags_from tag_round contains_text has_prefix
    has_tags
found_run = refl

has_subnet : is_empty_string (some "sub") ≡ false
unfolding is_empty_string trim_space string_discrete
has_subnet = refl

delete_machine-succeeds_example :
    delete_machine ex poller "web" "openstack:///eu/s-1" (some web) ≡ (ok tt, none)
delete_machine-succeeds_example =
    delete_machine-succeeds ex poller "web" "openstack:///eu/s-1" polls web 0 (some web) (some web)
      none none none found_run refl missing (omega arith)
      (inr (has_subnet, deleted "p-1" none refl refl))

look_up-FailsOutside : (id : String) → FailsOutside (ex.compute.get_server id)
unfolding is_error
look_up-FailsOutside id none w e target h = ground arith
look_up-FailsOutside id (some server) w e target h = absurd (ground arith)

outside : ErrorsOutside ex
outside = record {
  get_server = look_up-FailsOutside;
  delete_server = λ id v w e target h. absurd (ground arith);
  delete_port = λ id v w e target h. absurd (ground arith);
}

refusal-FailsOutside : (id : String) → FailsOutside (ex_stuck.compute.delete_server id)
unfolding is_error
refusal-FailsOutside id v w e target h = ground arith

stuck_outside : ErrorsOutside ex_stuck
stuck_outside = record {
  get_server = look_up-FailsOutside;
  delete_server = refusal-FailsOutside;
  delete_port = λ id v w e target h. absurd (ground arith);
}

stuck_run :
    delete_machine ex_stuck poller "web" "openstack:///eu/s-1" (some web) ≡ (err refused, some web)
unfolding delete_machine find_machine get_machine_by_provider_id decode_provider_id split
    is_empty_string trim_space string_discrete search_tags search_tags_from tag_round contains_text
    has_prefix has_tags Delete.delete_server
stuck_run = refl

delete_machine_codes_example :
    let r = (delete_machine_request driver (configured spec) secret machine (some web)).0 in
    (¬ EndsWith r not_found) × ((¬ EndsWith r out_of_range) ⊎ (is_empty_string (some "") ≡ true))
delete_machine_codes_example =
    delete_machine_codes driver aggregates (configured spec) secret machine (some web) (some web)
      (configured spec) factory ex decode_run IsValidRequest_example refl new_executor_run outside
