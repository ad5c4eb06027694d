-- ===== src/Tests/StoreRuns.antt =====
-- Runs in the cloud that is a store of servers.
use machine_controller_manag.Base.{string_discrete, ◌≡◌, ◌⊎◌, refl, true, some, List, [], keep}
use machine_controller_manag.Action.{ok, err}
use machine_controller_manag.Errors.{Err, is_error, err_not_found, is_not_found_error}
use machine_controller_manag.Text.{trim_space, contains_text, has_prefix}
use machine_controller_manag.Text.Split.{split}
use machine_controller_manag.Cloud.{Server}
use machine_controller_manag.Executor.Utils.{
  encode_provider_id, decode_provider_id, is_empty_string, str_slice_contains,
}
use machine_controller_manag.Executor.Networks
use machine_controller_manag.Executor.Wait.{poll_status, wait_for_status}
use machine_controller_manag.Executor.Deploy
use machine_controller_manag.Executor.Deploy.{deploy_server}
use machine_controller_manag.Executor.Patch
use machine_controller_manag.Executor.Patch.{patch_server_ports_for_pod_network}
use machine_controller_manag.Executor.Find.{
  search_tags, search_tags_from, tag_round, has_tags, get_machine_by_provider_id,
}
use machine_controller_manag.Executor.Delete
use machine_controller_manag.Executor.Delete.{find_machine, delete_machine}
use machine_controller_manag.Executor.Create
use machine_controller_manag.Executor.Create.{create_machine}
use machine_controller_manag.Executor.Store.{Entry, has_id}
use machine_controller_manag.Executor.Store.RoundTrip.{delete_machine_removes}
use machine_controller_manag.Tests.StoreCloud.{
  Store, ex, contents, poller, polls, store, empty, holding, emptied,
}

pub create_run : create_machine ex poller "web" "start" empty ≡ (ok "openstack:///eu/s-1", holding)
unfolding Networks.resolve_server_networks Networks.resolve_existing Networks.preallocate
    Networks.resolve_groups Networks.port_opts is_empty_string trim_space string_discrete
    encode_provider_id str_slice_contains deploy_server Deploy.resolve_image Deploy.resolve_flavor
    Deploy.submit_server Deploy.create_opts wait_for_status poll_status
    patch_server_ports_for_pod_network Patch.patch_listed Patch.patch_ports Patch.patch_port
    Patch.update_port create_machine Create.deploy_machine Create.finish_machine Create.post_process
    Create.wait_until_active Create.patch_ports_of
create_run = refl

pub delete_run : delete_machine ex poller "web" "openstack:///eu/s-1" holding ≡ (ok tt, emptied)
unfolding delete_machine find_machine get_machine_by_provider_id decode_provider_id split
    is_empty_string trim_space string_discrete is_not_found_error search_tags search_tags_from
    tag_round contains_text has_prefix has_tags Delete.delete_server Delete.wait_for_deletion
    Delete.release_port Delete.delete_port wait_for_status poll_status str_slice_contains
delete_run = refl

delete_machine_removes_example :
    ((e : Err) × (find_machine ex "web" "openstack:///eu/s-1" holding ≡ (err e, emptied))
      × (is_error e err_not_found ≡ true))
    ⊎ ((server : Server) × (u : Store) × (find_machine ex "web" "openstack:///eu/s-1" holding
          ≡ (ok (some server), u))
        × (◌≡◌ {A = List Entry} (keep (has_id server.id) []) []))
delete_machine_removes_example =
    delete_machine_removes ex contents store poller polls "web" "openstack:///eu/s-1" holding
      emptied delete_run
