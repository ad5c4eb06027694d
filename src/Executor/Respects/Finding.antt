-- ===== src/Executor/Respects/Finding.antt =====
-- The searches of an executor respect what its calls but those that create or delete servers
-- respect.
use machine_controller_manag.Base.{String, none, List, [], ◌∷◌}
use machine_controller_manag.Action.{call, deref}
use machine_controller_manag.Cloud.{Server}
use machine_controller_manag.Action.Respects.{
  Preorder, Respects, Respects-pure, Respects-raise, Respects-call, Respects-deref, Respects-try,
  Respects-bind, Respects-if,
}
use machine_controller_manag.Executor.Find.{
  get_machine_by_provider_id, get_machine_by_name, get_machine_status, list_machines, unique_server,
}
use machine_controller_manag.Executor.Defs.{Executor}
use machine_controller_manag.Executor.Delete.{find_machine}
use machine_controller_manag.Executor.Respects.Services.{Reads}

unique_server-Respects :
    {W : Type 0} {O : Preorder W} (name : String) (servers : List Server)
    → Respects O (unique_server name servers)
unfolding unique_server
unique_server-Respects name [] = Respects-raise _
unique_server-Respects name (server ∷ []) = Respects-pure _
unique_server-Respects name (server ∷ other ∷ more) = Respects-raise _

module _ {W : Type 0} (ex : Executor W) (O : Preorder W) (reads : Reads O ex) where
  get_machine_by_provider_id-Respects :
      (name pid : String) → Respects O (get_machine_by_provider_id ex name pid)
  unfolding get_machine_by_provider_id
  get_machine_by_provider_id-Respects name pid = Respects-if _ _ _ (Respects-raise _) (
      Respects-try _ _ _ (Respects-call (ex.compute.get_server _) (reads.get_server _))
        (λ e. Respects-if _ _ _ (Respects-raise _) (Respects-raise e))
        (λ server. Respects-if _ _ _ (Respects-pure server) (Respects-raise _)))

  get_machine_by_name-Respects : (name : String) → Respects O (get_machine_by_name ex name)
  unfolding get_machine_by_name
  get_machine_by_name-Respects name = Respects-if _ _ _ (Respects-pure none) (
      Respects-bind (call (ex.compute.list_servers _)) _
        (Respects-call (ex.compute.list_servers _) (reads.list_servers _))
        λ servers. unique_server-Respects name _)

  pub get_machine_status-Respects : (name : String) → Respects O (get_machine_status ex name)
  unfolding get_machine_status
  get_machine_status-Respects name =
      Respects-bind (get_machine_by_name ex name) _ (get_machine_by_name-Respects name)
        λ found. Respects-bind (deref found) _ (Respects-deref found) λ server. Respects-pure _

  pub list_machines-Respects : Respects O (list_machines ex)
  unfolding list_machines
  list_machines-Respects = Respects-if _ _ _ (Respects-pure []) (
      Respects-bind (call (ex.compute.list_servers _)) _
        (Respects-call (ex.compute.list_servers _) (reads.list_servers _))
        λ servers. Respects-pure _)

  pub find_machine-Respects : (name pid : String) → Respects O (find_machine ex name pid)
  unfolding find_machine
  find_machine-Respects name pid = Respects-if _ _ _ (get_machine_by_name-Respects name) (
      Respects-bind (get_machine_by_provider_id ex name pid) _
        (get_machine_by_provider_id-Respects name pid) λ server. Respects-pure _)
