-- ===== src/Executor/Delete.antt =====
-- `DeleteMachine` and `deletePort`.
pub mod Laws
pub mod Success
pub mod Failure
pub mod Search
use machine_controller_manag.Base.{String, Option, some, [], ◌∷◌, if◌then◌else◌}
use machine_controller_manag.Action.{Action, pure, raise, call, deref, try, map_error, ◌>>=◌, ◌>>◌}
use machine_controller_manag.Errors.{err_not_found, Err, errorf_v, is_error, is_not_found_error}
use machine_controller_manag.Cloud.{Server, status_deleted}
use machine_controller_manag.Executor.Defs.{Executor, Poller, spec_of}
use machine_controller_manag.Executor.Utils.{is_empty_string}
use machine_controller_manag.Executor.Wait.{wait_for_status}
use machine_controller_manag.Executor.Find.{get_machine_by_name, get_machine_by_provider_id}

module _ {W : Type 0} (ex : Executor W) where
  unfoldable pub delete_port : String → Action W (Unit {0})
  delete_port machine_name =
      try (call (ex.network.port_id_from_name machine_name))
        (λ e.
          if is_not_found_error e
          then pure tt
          else raise (errorf_v "error deleting port with name %q: %s" (machine_name ∷ []) e))
        (λ port_id. call (ex.network.delete_port port_id))

  -- by the provider ID if there is one, else by the name
  unfoldable pub find_machine : String → String → Action W (Option Server)
  find_machine machine_name provider_id =
      if is_empty_string (some provider_id)
      then get_machine_by_name ex machine_name
      else get_machine_by_provider_id ex machine_name provider_id >>= λ server. pure (some server)

  -- the last step: the port is deleted if a subnet is set
  unfoldable pub release_port : String → Action W (Unit {0})
  release_port machine_name =
      if is_empty_string (spec_of ex).subnet_id then pure tt else delete_port machine_name

  module _ (P : Poller W) where
    unfoldable pub wait_for_deletion : String → Action W (Unit {0})
    wait_for_deletion server_id =
        map_error
          (errorf_v "error while waiting for server [ID=%q] to be deleted: %v" (server_id ∷ []))
          (wait_for_status ex P server_id [] (status_deleted ∷ []) 300)

    -- what is done with the server that was found
    unfoldable pub delete_server : String → Server → Action W (Unit {0})
    delete_server machine_name server = do
      call (ex.compute.delete_server server.id)
      wait_for_deletion server.id
      release_port machine_name

    -- what is done with the error of the search
    unfoldable pub on_lost : Err → Action W (Unit {0})
    on_lost e = if is_error e err_not_found then pure tt else raise e

    unfoldable pub delete_machine : String → String → Action W (Unit {0})
    delete_machine machine_name provider_id =
        try (find_machine machine_name provider_id) on_lost
          (λ found. deref found >>= delete_server machine_name)
