-- ===== src/Executor/Store/RoundTrip.antt =====
-- What is created is found, and what is deleted is gone.
use machine_controller_manag.Base.{
  String, true, ◌≡◌, sym, ap, ◌∙◌, ◌⊎◌, inl, inr, some, List, [], keep,
}
use machine_controller_manag.Action.{answer, ok, err}
use machine_controller_manag.Errors.{Err, err_not_found, is_error}
use machine_controller_manag.Cloud.{Server}
use machine_controller_manag.Executor.Defs.{Executor, Poller, PollsInRounds, spec_of}
use machine_controller_manag.Executor.Utils.{encode_provider_id}
use machine_controller_manag.Executor.Find.{search_tags, get_machine_status}
use machine_controller_manag.Executor.Find.Name.{HasTagNames}
use machine_controller_manag.Executor.Delete.{find_machine, delete_machine}
use machine_controller_manag.Executor.Delete.Laws as DeleteLaws
use machine_controller_manag.Executor.Delete.Laws.{Deleted, delete_machine-ok}
use machine_controller_manag.Executor.Create.{create_machine}
use machine_controller_manag.Executor.Create.Laws.{create_machine-ok}
use machine_controller_manag.Action.Respects.{called}
use machine_controller_manag.Executor.Store.{has_id, Contents, settles, Creates, IsStore}
use machine_controller_manag.Executor.Store.Changes.{
  Settled, settled_then, Creates-settled, machine_entry, PortGone-Settled, Reached-missing,
  Processed-Settled, Deployed-Creates,
}
use machine_controller_manag.Executor.Store.Matching.{
  is_entry, tagged-is_entry, matches-one, Creates-only, status_of_one,
}

module _ {W : Type 0} (ex : Executor W) (store : Contents W) (laws : IsStore ex store) where
  -- In a cloud that is a store of servers, where those that are being deleted may go at any time, a
  -- deletion that succeeds has found no machine, or the
  -- server that it found is not in the store when the deletion ends.
  pub delete_machine_removes :
      (P : Poller W) (polls : PollsInRounds P) (name pid : String) (v w : W)
      → delete_machine ex P name pid v ≡ (ok tt, w)
      → ((e : Err) × (find_machine ex name pid v ≡ (err e, w)) × (is_error e err_not_found ≡ true))
        ⊎ ((server : Server) × (u : W) × (find_machine ex name pid v ≡ (ok (some server), u))
            × (keep (has_id server.id) (store.servers w) ≡ []))
  delete_machine_removes P polls name pid v w h =
      elim (delete_machine-ok ex name P polls pid v w h) [
        | inl lost ↦ inl lost
        | inr (server, u, found, done) ↦ inr (server, u, found, removed server u done)
      ]
    where
      removed :
          (server : Server) (u : W)
          → Deleted ex name P server u w
          → keep (has_id server.id) (store.servers w) ≡ []
      removed server u (DeleteLaws.in_steps asked look seen taken waited reached port) =
          (PortGone-Settled ex store laws name seen w port).0 (has_id server.id)
            (Reached-missing ex store laws server.id look seen reached)

  -- A creation that succeeds has stored one server, with the machine's name and the configured
  -- tags, and answers with its provider ID.
  pub created_entry :
      (P : Poller W) (polls : PollsInRounds P) (name user_data pid : String) (v w : W)
      → create_machine ex P name user_data v ≡ (ok pid, w)
      → (id : String) × Creates store (machine_entry ex id name) v w
        × (pid ≡ encode_provider_id (spec_of ex).region id)
  created_entry P polls name user_data pid v w created =
      let (server, ids, u, deployed, processed, e) =
        create_machine-ok ex P name user_data polls v w pid created in
      (
        server.id,
        Creates-settled store (machine_entry ex server.id name) v u w
            (Deployed-Creates ex store laws P name user_data server ids v u deployed)
            (Processed-Settled ex store laws P polls name user_data server ids u w processed),
        e,
      )

  -- In a cloud that is a store of servers, and that holds no server with the machine's name and
  -- both tags, a creation that succeeds is followed by a status with the same provider ID, as
  -- long as the store has only settled since.
  pub create_then_status :
      (P : Poller W) (polls : PollsInRounds P) (name user_data pid : String) (v w x y : W)
      (listed : List Server)
      → HasTagNames ex
      → keep (is_entry name (search_tags (spec_of ex).tags)) (store.servers v) ≡ []
      → create_machine ex P name user_data v ≡ (ok pid, w)
      → Settled store w x
      → ex.compute.list_servers (record { name = name }) x ≡ (answer listed, y)
      → get_machine_status ex name x ≡ (ok pid, y)
  create_then_status P polls name user_data pid v w x y listed tagged alone created since list =
      let (id, creates, e) = created_entry P polls name user_data pid v w created in
      let entry = machine_entry ex id name in
      let listing =
        called (settles store) (ex.compute.list_servers _) (laws.reads.list_servers _) list in
      let one =
        Creates-only ex store laws entry (is_entry name (search_tags (spec_of ex).tags)) v y
          (Creates-settled store entry v w y creates (settled_then store since listing))
          (tagged-is_entry ex id name tagged) alone in
      let (found, match, equal) = matches-one ex store laws name entry x y listed one list in
      status_of_one ex store laws name found x y listed tagged list match
      ∙ ap (λ entry. (ok (encode_provider_id (spec_of ex).region entry.id), y)) equal
      ∙ ap (λ id. (ok id, y)) (sym e)
