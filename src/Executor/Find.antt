-- ===== src/Executor/Find.antt =====
-- Finding the servers of a machine class: `getMachineByProviderID`, `getMachineByName`,
-- `GetMachineStatus` and `ListMachines`.
pub mod Tags
pub mod Name
pub mod Listing
use machine_controller_manag.Base.{
  String, ◌==◌, Bool, ◌&&◌, ◌||◌, Option, none, some, List, [], ◌∷◌, keep, if◌then◌else◌,
}
use machine_controller_manag.Base.Dict.{Dict, has_key, insert, keys}
use machine_controller_manag.Action.{Action, pure, raise, call, deref, try, ◌>>=◌}
use machine_controller_manag.Errors.{
  Err, sentinel, err_not_found, err_multiple_found, errorf, errorf_w, is_not_found_error,
}
use machine_controller_manag.Text.{contains_text}
use machine_controller_manag.Cloud.{Server}
use machine_controller_manag.Executor.Defs.{Executor, spec_of}
use machine_controller_manag.Executor.Utils.{
  encode_provider_id, decode_provider_id, is_empty_string,
}

abbrev pub server_tag_cluster_prefix : String
server_tag_cluster_prefix = "kubernetes.io-cluster-"

abbrev pub server_tag_role_prefix : String
server_tag_role_prefix = "kubernetes.io-role-"

-- one round of the loop over the tags: the names of the cluster tag and of the role tag so far
unfoldable pub tag_round : String → String × String → String × String
tag_round key (cluster, role) =
    if contains_text key server_tag_cluster_prefix
    then (key, role)
    else if contains_text key server_tag_role_prefix
    then (cluster, key)
    else (cluster, role)

-- the loop over the keys, in the order of one iteration
unfoldable pub search_tags_from : List String → String × String → String × String
search_tags_from [] found = found
search_tags_from (key ∷ rest) found = search_tags_from rest (tag_round key found)

unfoldable pub search_tags : Dict String → String × String
search_tags tags = search_tags_from (keys tags) ("", "")

-- the server carries both tags as metadata
unfoldable pub has_tags : String × String → Server → Bool
has_tags (cluster, role) server = has_key cluster server.metadata && has_key role server.metadata

abbrev lost_server : String → Err
lost_server id = errorf_w "could not find server [ID=%q]: %w" (id ∷ []) (sentinel err_not_found)

-- the filter of `getMachineByName`
unfoldable pub is_machine : String → String × String → Server → Bool
is_machine machine_name tags server = server.name == machine_name && has_tags tags server

-- the choice among the servers that match a name
unfoldable pub unique_server : {W : Type 0} → String → List Server → Action W (Option Server)
unique_server machine_name [] =
    raise
      (errorf_w "failed to find server [Name=%q]: %w" (machine_name ∷ []) (sentinel err_not_found))
unique_server machine_name (server ∷ []) = pure (some server)
unique_server machine_name (server ∷ other ∷ more) = raise (
    errorf_w "failed to find server [Name=%q]: %w" (machine_name ∷ [])
      (sentinel err_multiple_found))

module _ {W : Type 0} (ex : Executor W) where
  unfoldable pub get_machine_by_provider_id : String → String → Action W Server
  get_machine_by_provider_id machine_name provider_id =
      let server_id = decode_provider_id provider_id in
      if is_empty_string (some server_id)
      then raise (errorf "could not parse serverID from providerID %q" (provider_id ∷ []))
      else try (call (ex.compute.get_server server_id))
          (λ e. if is_not_found_error e then raise (lost_server server_id) else raise e)
          (λ server.
            if has_tags (search_tags (spec_of ex).tags) server
            then pure server
            else raise (lost_server server_id))

  -- With no server and no error the source returns a nil pointer, here `none`.
  unfoldable pub get_machine_by_name : String → Action W (Option Server)
  get_machine_by_name machine_name =
      let tags = search_tags (spec_of ex).tags in
      if tags.0 == "" || tags.1 == "" then pure none else do
        listed ← call (ex.compute.list_servers (record { name = machine_name }))
        unique_server machine_name (keep (is_machine machine_name tags) listed)

  unfoldable pub get_machine_status : String → Action W String
  get_machine_status machine_name = do
    found ← get_machine_by_name machine_name
    server ← deref found
    pure (encode_provider_id (spec_of ex).region server.id)

  -- one round of the loop of `ListMachines`
  unfoldable pub list_round : String × String → Server → Dict String → Dict String
  list_round tags server result =
      if has_tags tags server
      then insert (encode_provider_id (spec_of ex).region server.id) server.name result
      else result

  unfoldable pub list_from : String × String → List Server → Dict String → Dict String
  list_from tags [] result = result
  list_from tags (server ∷ servers) result = list_from tags servers (list_round tags server result)

  -- A nil map and an empty one are the same to the caller.
  unfoldable pub list_machines : Action W (Dict String)
  list_machines =
      let tags = search_tags (spec_of ex).tags in
      if tags.0 == "" || tags.1 == "" then pure [] else do
        servers ← call (ex.compute.list_servers (record { name = "" }))
        pure (list_from tags servers [])
