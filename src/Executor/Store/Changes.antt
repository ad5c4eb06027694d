-- ===== src/Executor/Store/Changes.antt =====
-- What the steps of an executor do to the store.
use machine_controller_manag.Base.{
  String, ◌≡◌, ap, ◌∙◌, inl, inr, List, [], ◌∷◌, keep, arith, Bool-cases,
}
use mathlib.Core.Path.{subst}
use machine_controller_manag.Base.Int.{is_positive}
use machine_controller_manag.Action.{ok}
use machine_controller_manag.Action.Respects.{called, ran}
use machine_controller_manag.Cloud.{
  Server, ServerNetwork, CreateOpts, status_active, status_build, status_deleted,
}
use machine_controller_manag.Executor.Defs.{Executor, Poller, PollsInRounds, spec_of}
use machine_controller_manag.Executor.Utils.{str_slice_contains}
use machine_controller_manag.Executor.Wait.Laws.{Reached, in_state, gone}
use machine_controller_manag.Executor.Deploy.{deploy_server}
use machine_controller_manag.Executor.Deploy.Laws as DeployLaws
use machine_controller_manag.Executor.Deploy.Laws.{Image, Sent, deploy_server-ok}
use machine_controller_manag.Executor.Delete.Laws.{PortGone, no_subnet, no_port, deleted}
use machine_controller_manag.Executor.Create.Laws as CreateLaws
use machine_controller_manag.Executor.Create.Laws.{Deployed, Processed}
use machine_controller_manag.Executor.Store.{
  Entry, entry_for, has_id, Contents, settles, Creates, IsStore,
}
use machine_controller_manag.Executor.Respects.Steps.{
  resolve_server_networks-Respects, patch-Respects, wait_for_status-Respects,
}

module _ {W : Type 0} (store : Contents W) where
  -- Between `v` and `w` the store has settled.
  abbrev pub Settled : W → W → Type 0
  Settled v w = (settles store).relates v w

  abbrev pub settled_then : {u v w : W} → Settled u v → Settled v w → Settled u w
  settled_then {u} {v} {w} p q = (settles store).chains u v w p q

  unmoved : {v w : W} → v ≡ w → Settled v w
  unmoved {v} same = subst (Settled v) same ((settles store).stays v)

  pub settled-Creates :
      (entry : Entry) (u v w : W) → Settled u v → Creates store entry v w → Creates store entry u w
  settled-Creates entry u v w (shrinks, _) (held, kept, others) =
      (held, kept, λ p fails none_has. others p fails (shrinks p none_has))

  pub Creates-settled :
      (entry : Entry) (v w x : W) → Creates store entry v w → Settled w x → Creates store entry v x
  Creates-settled entry v w x (held, kept, others) (shrinks, holds) =
      let (kept', same) = holds entry.id kept in
      (same ∙ held, kept', λ p fails none_has. shrinks p (others p fails none_has))

module _ {W : Type 0} (ex : Executor W) where
  -- The entry of a machine's server: its name and the configured tags.
  abbrev pub machine_entry : String → String → Entry
  machine_entry id name = record { id = id; name = name; metadata = (spec_of ex).tags }

module _ {W : Type 0} (ex : Executor W) (store : Contents W) (laws : IsStore ex store) where
  pub PortGone-Settled : (name : String) (v w : W) → PortGone ex name v w → Settled store v w
  PortGone-Settled name v w (no_subnet unset same) = unmoved store same
  PortGone-Settled name v w (no_port e failed kind) =
      called (settles store) (ex.network.port_id_from_name name) (laws.reads.port_id_from_name name)
        failed
  PortGone-Settled name v w (deleted id u found done) =
      settled_then store
        (called (settles store) (ex.network.port_id_from_name name)
          (laws.reads.port_id_from_name name) found)
        (called (settles store) (ex.network.delete_port id) (laws.reads.delete_port id) done)

  pub Reached-missing :
      (id : String) (v w : W)
      → Reached ex id (status_deleted ∷ []) v w
      → keep (has_id id) (store.servers w) ≡ []
  unfolding str_slice_contains
  Reached-missing id v w (in_state server e t) = laws.deleted id v w server e (ground arith)
  Reached-missing id v w (gone e h kind t) = laws.missing id v w e h kind

  Image-Settled : (v : W) (image : String) (w : W) → Image ex v image w → Settled store v w
  Image-Settled v image w (DeployLaws.by_id set same still) = unmoved store still
  Image-Settled v image w (DeployLaws.by_name unset found) =
      called (settles store) (ex.compute.image_id_from_name _) (laws.reads.image_id_from_name _)
        found

  Sent-Creates :
      (opts : CreateOpts) (v w : W) (server : Server)
      → Sent ex opts v server w
      → Creates store (entry_for server.id opts) v w
  Sent-Creates opts v w server sent = elim (Bool-cases (is_positive (spec_of ex).root_disk_size)) [
    | inl sized ↦ laws.booted opts v w server (rw sized at sent)
    | inr unsized ↦ laws.created opts v w server (rw unsized at sent)
  ]

  deploy_server-Creates :
      (name user_data : String) (nws : List ServerNetwork) (v w : W) (server : Server)
      → deploy_server ex name user_data nws v ≡ (ok server, w)
      → Creates store (machine_entry ex server.id name) v w
  deploy_server-Creates name user_data nws v w server h =
      let (image, flavor, imaged, flavored, opts, found, flavor_found, wants, sent) =
        deploy_server-ok ex name user_data nws v w server h in
      let wanted : entry_for server.id opts ≡ machine_entry ex server.id name =
        ap (λ r. record { id = server.id; name = r.server.name; metadata = r.server.metadata })
          wants in
      settled-Creates store (machine_entry ex server.id name) v _ w
        (settled_then store (Image-Settled v image imaged found) (
          called (settles store) (ex.compute.flavor_id_from_name _)
            (laws.reads.flavor_id_from_name _) flavor_found))
        (subst (λ entry. Creates store entry flavored w) wanted
          (Sent-Creates opts flavored w server sent))

  pub Processed-Settled :
      (P : Poller W) (polls : PollsInRounds P) (name user_data : String) (server : Server)
      (ids : List String) (v w : W)
      → Processed ex P name user_data server ids v w
      → Settled store v w
  Processed-Settled P polls name user_data server ids v w
        (CreateLaws.in_steps look seen waited reached patched) =
      settled_then store
        (ran (settles store)
          (wait_for_status-Respects ex (settles store) laws.reads P polls server.id
            (status_build ∷ []) (status_active ∷ []) 600)
          waited)
        (ran (settles store) (patch-Respects ex (settles store) laws.reads server.id ids) patched)

  pub Deployed-Creates :
      (P : Poller W) (name user_data : String) (server : Server) (ids : List String) (v w : W)
      → Deployed ex P name user_data v server ids w
      → Creates store (machine_entry ex server.id name) v w
  Deployed-Creates P name user_data server ids v w (CreateLaws.in_steps nws t resolved deployed) =
      settled-Creates store (machine_entry ex server.id name) v _ w
        (ran (settles store) (resolve_server_networks-Respects ex (settles store) laws.reads name)
          resolved)
        (deploy_server-Creates name user_data nws t w server deployed)
