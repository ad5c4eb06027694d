-- ===== src/Executor/Create.antt =====
-- `CreateMachine`, with the deletion of a machine whose creation failed.
pub mod Laws
pub mod Success
use machine_controller_manag.Base.{String, List, [], ◌∷◌}
use machine_controller_manag.Action.{Action, pure, raise, try, map_error, ◌>>=◌, ◌>>◌}
use machine_controller_manag.Errors.{Err, errorf_v, errorf_vv, errorf_w}
use machine_controller_manag.Cloud.{Server, ServerNetwork, status_active, status_build}
use machine_controller_manag.Executor.Defs.{Executor, Poller, spec_of}
use machine_controller_manag.Executor.Utils.{encode_provider_id}
use machine_controller_manag.Executor.Networks.{resolve_server_networks}
use machine_controller_manag.Executor.Wait.{wait_for_status}
use machine_controller_manag.Executor.Deploy.{deploy_server}
use machine_controller_manag.Executor.Patch.{patch_server_ports_for_pod_network}
use machine_controller_manag.Executor.Delete.{delete_machine}

module _ {W : Type 0} (ex : Executor W) (P : Poller W) where
  -- the closure `deleteOnFail`
  unfoldable pub delete_on_fail : String → String → Err → Action W String
  delete_on_fail machine_name provider_id e =
      try (delete_machine ex P machine_name provider_id)
        (λ inner. raise (
          errorf_vv
            "error deleting machine %q after unsuccessful creation attempt: %s. Original error: %s"
            (provider_id ∷ []) inner e))
        (λ _. raise e)

  unfoldable pub wait_until_active : String → Action W (Unit {0})
  wait_until_active server_id =
      map_error
        (errorf_v "error waiting for server [ID=%q] to reach target status: %s" (server_id ∷ []))
        (wait_for_status ex P server_id (status_build ∷ []) (status_active ∷ []) 600)

  unfoldable pub patch_ports_of : String → List String → Action W (Unit {0})
  patch_ports_of server_id pod_ids =
      map_error (errorf_v "failed to patch server [ID=%q] ports: %s" (server_id ∷ []))
        (patch_server_ports_for_pod_network ex server_id pod_ids)

  -- the two steps after the deployment
  unfoldable pub post_process : String → List String → Action W (Unit {0})
  post_process server_id pod_ids = do wait_until_active server_id; patch_ports_of server_id pod_ids

  -- what is done with the server once it is deployed; both steps fail into `delete_on_fail`
  unfoldable pub finish_machine : String → List String → Server → Action W String
  finish_machine machine_name pod_ids server =
      let provider_id = encode_provider_id (spec_of ex).region server.id in
      try (post_process server.id pod_ids) (delete_on_fail machine_name provider_id)
        (λ _. pure provider_id)

  unfoldable pub deploy_machine :
      String → String → List ServerNetwork × List String → Action W String
  deploy_machine machine_name user_data (server_networks, pod_ids) =
      map_error (errorf_w "failed to deploy server for machine %q: %w" (machine_name ∷ []))
        (deploy_server ex machine_name user_data server_networks)
      >>= finish_machine machine_name pod_ids

  unfoldable pub create_machine : String → String → Action W String
  create_machine machine_name user_data =
      map_error (errorf_v "failed to resolve server networks: %v" [])
        (resolve_server_networks ex machine_name)
      >>= deploy_machine machine_name user_data
