-- ===== src/Executor/Respects.antt =====
-- What every call of the cloud respects, every operation of an executor respects.
pub mod Services
pub mod Steps
pub mod Finding
pub mod Deploying
use machine_controller_manag.Base.{
  String, Bool, List, [], ◌∷◌, Option, none, some, if◌then◌else◌, ◌==◌, ◌||◌, keep,
}
use machine_controller_manag.Action.{Action, pure, call, deref, map_error, ◌>>=◌}
use machine_controller_manag.Action.Respects.{
  Preorder, Respects, Respects-pure, Respects-raise, Respects-call, Respects-deref, Respects-try,
  Respects-bind, Respects-map_error, Respects-if,
}
use machine_controller_manag.Errors.{Err}
use machine_controller_manag.Cloud.{
  status_active, status_build, status_deleted, Server, ServerNetwork, CreateOpts,
}
use machine_controller_manag.Executor.Defs.{Executor, Poller, PollsInRounds, spec_of}
use machine_controller_manag.Executor.Utils.{decode_provider_id, is_empty_string}
use machine_controller_manag.Executor.Networks.{resolve_server_networks}
use machine_controller_manag.Executor.Deploy.{
  resolve_image, resolve_flavor, submit_server, deploy_server,
}
use machine_controller_manag.Executor.Find.{
  unique_server, get_machine_by_provider_id, get_machine_by_name, get_machine_status, list_machines,
}
use machine_controller_manag.Executor.Delete.{
  delete_port, find_machine, release_port, wait_for_deletion, on_lost, delete_server,
  delete_machine,
}
use machine_controller_manag.Executor.Create.{
  delete_on_fail, wait_until_active, patch_ports_of, deploy_machine, post_process, finish_machine,
  create_machine,
}
use machine_controller_manag.Executor.Respects.Services.{Reads, Calls}
use machine_controller_manag.Executor.Respects.Finding.{
  get_machine_status-Respects, list_machines-Respects, find_machine-Respects,
}
use machine_controller_manag.Executor.Respects.Deploying.{
  resolve_image-Respects, resolve_flavor-Respects, post_process-Respects,
}
use machine_controller_manag.Executor.Respects.Steps.{
  resolve_server_networks-Respects, wait_for_status-Respects,
}

module _ {W : Type 0} (ex : Executor W) (O : Preorder W) (calls : Calls O ex) where
  submit_server-Respects :
      (opts : CreateOpts) (image : String) → Respects O (submit_server ex opts image)
  unfolding submit_server
  submit_server-Respects opts image =
      Respects-if _ _ _ (Respects-call (ex.compute.boot_from_volume _) (calls.boot_from_volume _))
        (Respects-call (ex.compute.create_server opts) (calls.create_server opts))

  deploy_server-Respects :
      (name user_data : String) (nws : List ServerNetwork)
      → Respects O (deploy_server ex name user_data nws)
  unfolding deploy_server
  deploy_server-Respects name user_data nws =
      Respects-bind (resolve_image ex) _ (resolve_image-Respects ex O calls.reads) λ image.
        Respects-bind (resolve_flavor ex) _ (resolve_flavor-Respects ex O calls.reads)
          λ flavor. submit_server-Respects _ image

  delete_port-Respects : (name : String) → Respects O (delete_port ex name)
  unfolding delete_port
  delete_port-Respects name =
      Respects-try _ _ _
        (Respects-call (ex.network.port_id_from_name name) (calls.reads.port_id_from_name name))
        (λ e. Respects-if _ _ _ (Respects-pure tt) (Respects-raise _))
        (λ id. Respects-call (ex.network.delete_port id) (calls.reads.delete_port id))

  module _ (P : Poller W) (polls : PollsInRounds P) where
    delete_server-Respects :
        (name : String) (server : Server) → Respects O (delete_server ex P name server)
    unfolding delete_server wait_for_deletion release_port
    delete_server-Respects name server =
        Respects-bind (call (ex.compute.delete_server server.id)) _
          (Respects-call (ex.compute.delete_server server.id) (calls.delete_server server.id))
          λ _.
            Respects-bind (wait_for_deletion ex P server.id) _
              (Respects-map_error _ _ (
                wait_for_status-Respects ex O calls.reads P polls server.id [] (status_deleted ∷ [])
                  300))
              λ _. Respects-if _ _ _ (Respects-pure tt) (delete_port-Respects name)

    delete_machine-Respects : (name pid : String) → Respects O (delete_machine ex P name pid)
    unfolding delete_machine on_lost
    delete_machine-Respects name pid =
        Respects-try _ _ _ (find_machine-Respects ex O calls.reads name pid)
          (λ e. Respects-if _ _ _ (Respects-pure tt) (Respects-raise e))
          λ found.
            Respects-bind (deref found) _ (Respects-deref found)
              λ server. delete_server-Respects name server

    delete_on_fail-Respects :
        (name pid : String) (e : Err) → Respects O (delete_on_fail ex P name pid e)
    unfolding delete_on_fail
    delete_on_fail-Respects name pid e =
        Respects-try _ _ _ (delete_machine-Respects name pid) (λ inner. Respects-raise _)
          (λ _. Respects-raise e)

    finish_machine-Respects :
        (name : String) (ids : List String) (server : Server)
        → Respects O (finish_machine ex P name ids server)
    unfolding finish_machine
    finish_machine-Respects name ids server =
        Respects-try _ _ _ (post_process-Respects ex O calls.reads P polls server.id ids)
          (delete_on_fail-Respects name _) (λ _. Respects-pure _)

    create_machine-Respects :
        (name user_data : String) → Respects O (create_machine ex P name user_data)
    unfolding create_machine deploy_machine
    create_machine-Respects name user_data =
        Respects-bind (map_error _ (resolve_server_networks ex name)) _
          (Respects-map_error _ _ (resolve_server_networks-Respects ex O calls.reads name))
          λ resolved.
            Respects-bind (map_error _ (deploy_server ex name user_data resolved.0)) _
              (Respects-map_error _ _ (deploy_server-Respects name user_data resolved.0))
              λ server. finish_machine-Respects name resolved.1 server

    -- A preorder on worlds that every call of the cloud respects is respected by every operation
    -- of an executor, however it ends: by creations, deletions, status requests and listings.
    pub operations-Respects :
        ((name user_data : String) → Respects O (create_machine ex P name user_data))
        × ((name pid : String) → Respects O (delete_machine ex P name pid))
        × ((name : String) → Respects O (get_machine_status ex name))
        × Respects O (list_machines ex)
    operations-Respects = (
      create_machine-Respects,
      delete_machine-Respects,
      get_machine_status-Respects ex O calls.reads,
      list_machines-Respects ex O calls.reads,
    )
