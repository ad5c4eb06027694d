-- ===== src/Executor/Store/Deletion.antt =====
-- What a store has lost when a deletion ends.
use machine_controller_manag.Base.{
  String, ◌≡◌, refl, sym, ap, ◌∙◌, inl, inr, some, List, [], ◌∷◌, map, keep, arith,
}
use machine_controller_manag.Action.{answer, ok}
use machine_controller_manag.Action.Respects.{called, ran}
use machine_controller_manag.Cloud.{Server, status_deleted}
use machine_controller_manag.Executor.Defs.{Executor, Poller, PollsInRounds, spec_of}
use machine_controller_manag.Executor.Find.{search_tags}
use machine_controller_manag.Executor.Find.Name.{matches}
use machine_controller_manag.Executor.Delete.{find_machine, delete_machine}
use machine_controller_manag.Executor.Delete.Laws as DeleteLaws
use machine_controller_manag.Executor.Delete.Laws.{Deleted, delete_machine-ok}
use machine_controller_manag.Executor.Respects.Steps.{wait_for_status-Respects}
use machine_controller_manag.Executor.Respects.Finding.{find_machine-Respects}
use machine_controller_manag.Executor.Store.{entry_of, has_id, Contents, Shrinks, settles, IsStore}
use machine_controller_manag.Executor.Store.Kept.{keep_none, keep-other_one}
use mathlib.Core.Path.{subst}
use machine_controller_manag.Executor.Store.Changes.{PortGone-Settled, Reached-missing}
use machine_controller_manag.Executor.Store.Matching.{is_entry, map-matches, keep-named}

map-nil : (servers : List Server) → map entry_of servers ≡ [] → servers ≡ []
map-nil [] h = refl
map-nil (s ∷ servers) h = absurd (ground arith)

module _ {W : Type 0} (ex : Executor W) (store : Contents W) (laws : IsStore ex store) where
  -- A deletion brings no server, and the one that it was for is gone when it ends.
  Deleted-gone :
      (P : Poller W) (polls : PollsInRounds P) (name : String) (server : Server) (v w : W)
      → Deleted ex name P server v w
      → Shrinks store v w × (keep (has_id server.id) (store.servers w) ≡ [])
  Deleted-gone P polls name server v w
        (DeleteLaws.in_steps asked look seen taken waited reached port) =
      let (released, _) = PortGone-Settled ex store laws name seen w port in
      let (watched, _) =
        ran (settles store)
          (wait_for_status-Respects ex (settles store) laws.reads P polls server.id []
            (status_deleted ∷ []) 300)
          waited in
      let asks = subst (λ r. Shrinks store v r.1) taken (laws.removes server.id v) in
      (
        (λ p h. released p (watched p (asks p h))),
        released (has_id server.id) (Reached-missing ex store laws server.id look seen reached),
      )

  -- A server that alone has the name and the tags is the last that has them: once its deletion
  -- has succeeded, no server of a listing matches.
  pub deleted_unmatched :
      (P : Poller W) (polls : PollsInRounds P) (name pid : String) (v u w x y : W) (server : Server)
      (listed : List Server)
      → find_machine ex name pid v ≡ (ok (some server), u)
      → keep (is_entry name (search_tags (spec_of ex).tags)) (store.servers v)
        ≡ entry_of server ∷ []
      → delete_machine ex P name pid v ≡ (ok tt, w)
      → Shrinks store w x
      → ex.compute.list_servers (record { name = name }) x ≡ (answer listed, y)
      → matches ex name listed ≡ []
  deleted_unmatched P polls name pid v u w x y server listed found alone done since list =
      elim (delete_machine-ok ex name P polls pid v w done) [
        | inl (e, lost, kind) ↦ absurd (cc)
        | inr (server', u', found', steps) ↦
            let tags = search_tags (spec_of ex).tags in
            let same_server : server' ≡ server = cc in
            let (shrunk, gone) = Deleted-gone P polls name server' u' w steps in
            let (looked, _) =
              ran (settles store) (find_machine-Respects ex (settles store) laws.reads name pid)
                found' in
            let (read, _) =
              called (settles store) (ex.compute.list_servers _) (laws.reads.list_servers _) list in
            let others = read _ (
              since _ (
                shrunk _ (
                  looked _ (
                    keep-other_one (is_entry name tags) (entry_of server) (store.servers v)
                      alone)))) in
            let gone' =
              read _ (
                since _
                  (subst (λ s. keep (has_id s.id) (store.servers w) ≡ []) same_server gone)) in
            map-nil (matches ex name listed) (
              map-matches name tags listed
              ∙ sym (keep-named name tags (map entry_of listed))
              ∙ ap (keep (is_entry name tags)) (laws.listed name x y listed list)
              ∙ keep-named name tags (store.servers y)
              ∙ keep_none (is_entry name tags) server.id (store.servers y) gone' others)
      ]
