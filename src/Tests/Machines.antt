-- ===== src/Tests/Machines.antt =====
-- The theorems on the operations of an executor, at the small cloud.
use machine_controller_manag.Base.{
  contains, Distinct, String, string_discrete, ◌≡◌, ◌⊎◌, refl, true, Option, none, some, List, [],
  ◌∷◌, map,
}
use machine_controller_manag.Action.{answer, ok, err}
use machine_controller_manag.Errors.{Err, is_error, err_not_found, is_not_found_error, errorf_w}
use machine_controller_manag.Text.{contains_text, has_prefix, trim_space}
use machine_controller_manag.Text.Split.{split}
use machine_controller_manag.Cloud.{Server, ServerNetwork, Port, CreateOpts, status_active}
use machine_controller_manag.Executor.Utils.{
  encode_provider_id, decode_provider_id, is_empty_string, str_slice_contains,
}
use machine_controller_manag.Executor.Networks
use machine_controller_manag.Executor.Networks.{resolve_server_networks}
use machine_controller_manag.Executor.Networks.Laws.{
  attach, carries_pods, Resolved, resolve_server_networks-listed,
  resolve_server_networks-ids_ignored,
}
use machine_controller_manag.Executor.Networks.Existing.{
  Preallocated, resolve_server_networks-existing,
}
use machine_controller_manag.Executor.Wait.{poll_status, wait_for_status}
use machine_controller_manag.Executor.Wait.Laws.{Reached, wait_for_status-ok}
use machine_controller_manag.Executor.Deploy
use machine_controller_manag.Executor.Deploy.{deploy_server}
use machine_controller_manag.Executor.Deploy.Laws.{
  Image, Sent, read_request, wanted, deploy_server-ok,
}
use machine_controller_manag.Executor.Patch
use machine_controller_manag.Executor.Patch.{patch_server_ports_for_pod_network}
use machine_controller_manag.Executor.Patch.Laws.{update_all, in_networks, patch_exactly}
use machine_controller_manag.Executor.Find.{
  search_tags, search_tags_from, tag_round, has_tags, get_machine_by_provider_id,
}
use machine_controller_manag.Executor.Delete
use machine_controller_manag.Executor.Delete.{find_machine, delete_machine}
use machine_controller_manag.Executor.Delete.Laws.{Deleted, delete_machine-ok}
use machine_controller_manag.Executor.Create
use machine_controller_manag.Executor.Create.{create_machine}
use machine_controller_manag.Executor.Create.Laws.{
  Deployed, Processed, Failed, create_machine-ok, create_machine-err,
}
use machine_controller_manag.Tests.World.{
  World, web, port, refused, ex, ex_full, ex_listed, by_name, by_id, poller, polls,
}

abbrev pub attached : List ServerNetwork
attached = record { uuid = "n-1"; port = "p-1" } ∷ []

pub existing_run : resolve_server_networks ex "web" none ≡ (ok (attached, "n-1" ∷ []), none)
unfolding Networks.resolve_server_networks Networks.resolve_existing Networks.preallocate
    Networks.resolve_groups Networks.port_opts is_empty_string trim_space string_discrete
existing_run = refl

create_run : create_machine ex poller "web" "start" none ≡ (ok "openstack:///eu/s-1", some web)
unfolding Networks.resolve_server_networks Networks.resolve_existing Networks.preallocate
    Networks.resolve_groups Networks.port_opts is_empty_string trim_space string_discrete
    encode_provider_id str_slice_contains deploy_server Deploy.resolve_image Deploy.resolve_flavor
    Deploy.submit_server Deploy.create_opts wait_for_status poll_status
    patch_server_ports_for_pod_network Patch.patch_listed Patch.patch_ports Patch.patch_port
    Patch.update_port create_machine Create.deploy_machine Create.finish_machine Create.post_process
    Create.wait_until_active Create.patch_ports_of
create_run = refl

create_machine-ok_example :
    (server : Server) × (ids : List String) × (u : World) × Deployed ex poller "web" "start" none
      server ids u
    × Processed ex poller "web" "start" server ids u (some web)
    × (◌≡◌ {A = String} "openstack:///eu/s-1" (encode_provider_id "eu" server.id))
create_machine-ok_example =
    create_machine-ok ex poller "web" "start" polls none (some web) "openstack:///eu/s-1" create_run

abbrev create_error : Err
create_error = errorf_w "failed to deploy server for machine %q: %w" ("web" ∷ []) refused

create_fails : create_machine ex_full poller "web" "start" none ≡ (err create_error, none)
unfolding Networks.resolve_server_networks Networks.resolve_existing Networks.preallocate
    Networks.resolve_groups Networks.port_opts is_empty_string trim_space string_discrete
    deploy_server Deploy.resolve_image Deploy.resolve_flavor Deploy.submit_server Deploy.create_opts
    create_machine Create.deploy_machine
create_fails = refl

create_machine-err_example : Failed ex_full poller "web" "start" none create_error none
create_machine-err_example =
    create_machine-err ex_full poller "web" "start" none none create_error create_fails

delete_run : delete_machine ex poller "web" "openstack:///eu/s-1" (some web) ≡ (ok tt, none)
unfolding delete_machine find_machine get_machine_by_provider_id decode_provider_id split
    is_empty_string trim_space string_discrete is_not_found_error search_tags search_tags_from
    tag_round contains_text has_prefix has_tags Delete.delete_server Delete.wait_for_deletion
    Delete.release_port Delete.delete_port wait_for_status poll_status str_slice_contains
delete_run = refl

delete_machine-ok_example :
    ((e : Err) × (find_machine ex "web" "openstack:///eu/s-1" (some web) ≡ (err e, none))
      × (is_error e err_not_found ≡ true))
    ⊎ ((server : Server) × (u : World) × (find_machine ex "web" "openstack:///eu/s-1" (some web)
          ≡ (ok (some server), u))
        × Deleted ex "web" poller server u none)
delete_machine-ok_example =
    delete_machine-ok ex "web" poller polls "openstack:///eu/s-1" (some web) none delete_run

pub deploy_run : deploy_server ex "web" "start" attached none ≡ (ok web, some web)
unfolding string_discrete deploy_server Deploy.resolve_image Deploy.resolve_flavor
    Deploy.submit_server Deploy.create_opts
deploy_run = refl

deploy_server-ok_example :
    (image flavor : String) × (imaged flavored : World) × (opts : CreateOpts) × Image ex none image
      imaged
    × (ex.compute.flavor_id_from_name "small" imaged ≡ (answer flavor, flavored))
    × (read_request opts ≡ wanted ex "web" "start" attached image flavor)
    × Sent ex opts flavored web (some web)
deploy_server-ok_example = deploy_server-ok ex "web" "start" attached none (some web) web deploy_run

resolve_server_networks-existing_example :
    (◌≡◌ {A = List String} ("n-1" ∷ []) ("n-1" ∷ []))
    × (((is_empty_string (some "sub") ≡ true)
          × (attached ≡ attach "n-1" ∷ [])
          × (◌≡◌ {A = World} none none))
        ⊎ ((subnet : String) × (p : Port) × (◌≡◌ {A = Option String} (some "sub") (some subnet))
            × Preallocated ex "web" subnet none p none
            × (attached ≡ record { uuid = "n-1"; port = p.id } ∷ [])))
unfolding is_empty_string trim_space string_discrete
resolve_server_networks-existing_example =
    resolve_server_networks-existing ex "web" none none attached ("n-1" ∷ []) refl existing_run

listed_run :
    resolve_server_networks (ex_listed by_name) "web" none
    ≡ (ok (attach "n-1" ∷ [], "n-1" ∷ []), none)
unfolding Networks.resolve_server_networks Networks.resolve_listed Networks.resolve_network_id
    Networks.add_id is_empty_string trim_space string_discrete str_slice_contains
listed_run = refl

resolve_server_networks-listed_example :
    (ids : List String) × Resolved (ex_listed by_name) by_name ids none none
    × (attach "n-1" ∷ [] ≡ map attach ids)
    × Distinct ("n-1" ∷ [])
    × ((id : String) → contains ("n-1" ∷ []) id ≡ carries_pods (ex_listed by_name) by_name ids id)
unfolding is_empty_string trim_space string_discrete
resolve_server_networks-listed_example =
    resolve_server_networks-listed (ex_listed by_name) "web" none none (attach "n-1" ∷ [])
      ("n-1" ∷ []) refl listed_run

-- The entry has the ID `n-1`, and the server is attached to no network.
resolve_server_networks-ids_ignored_example :
    (pods : List String) × (resolve_server_networks (ex_listed by_id) "web" none
      ≡ (ok (attach "" ∷ [], pods), none))
unfolding is_empty_string trim_space string_discrete
resolve_server_networks-ids_ignored_example =
    resolve_server_networks-ids_ignored (ex_listed by_id) "web" none refl (refl, tt)

patch_exactly_example :
    patch_server_ports_for_pod_network ex "s-1" ("n-1" ∷ []) none
    ≡ update_all ex (in_networks ("n-1" ∷ []) (port ∷ [])) none
patch_exactly_example = patch_exactly ex "s-1" ("n-1" ∷ []) port [] none none (refl, tt) refl

wait_run :
    wait_for_status ex poller "s-1" [] (status_active ∷ []) 600 (some web) ≡ (ok tt, some web)
unfolding wait_for_status poll_status str_slice_contains string_discrete
wait_run = refl

wait_for_status-ok_example : (v : World) × Reached ex "s-1" (status_active ∷ []) v (some web)
wait_for_status-ok_example =
    wait_for_status-ok ex "s-1" [] (status_active ∷ []) poller 600 polls (some web) (some web)
      wait_run
