-- ===== src/Executor/Store/Listing.antt =====
-- What is created is listed.
use machine_controller_manag.Base.{
  String, Bool, Bool-cases, true, false, ◌≡◌, refl, sym, ap, ◌∙◌, inl, inr, ◌==◌, some, List, [],
  ◌∷◌, map, keep, arith,
}
use machine_controller_manag.Base.Dict.{Dict, lookup}
use machine_controller_manag.Action.{answer, ok}
use machine_controller_manag.Cloud.{Server}
use machine_controller_manag.Executor.Defs.{Executor, Poller, PollsInRounds, spec_of}
use machine_controller_manag.Executor.Utils.{encode_provider_id}
use machine_controller_manag.Executor.Find.{list_machines}
use machine_controller_manag.Executor.Find.Name.{HasTagNames}
use machine_controller_manag.Executor.Find.Tags.{search_tags-has_key}
use machine_controller_manag.Executor.Find.Listing.{Member, list_machines_exact}
use machine_controller_manag.Executor.Create.{create_machine}
use machine_controller_manag.Executor.Store.{Entry, entry_of, Contents, settles, IsStore}
use machine_controller_manag.Action.Respects.{called}
use machine_controller_manag.Executor.Store.Changes.{
  Settled, settled_then, Creates-settled, machine_entry,
}
use machine_controller_manag.Executor.Store.Matching.{Creates-only}
use machine_controller_manag.Executor.Store.RoundTrip.{created_entry}

-- The entry has the provider ID, in a region.
abbrev pub has_provider_id : String → String → Entry → Bool
has_provider_id region pid entry = encode_provider_id region entry.id == pid

none_passes :
    (p : Entry → Bool) (servers : List Server)
    → keep p (map entry_of servers) ≡ []
    → (t : Server) → Member t servers
    → p (entry_of t) ≡ false
none_passes p [] h t m = elim m [ ]
none_passes p (s ∷ servers) h t (inl same) = rw same (ground arith)
none_passes p (s ∷ servers) h t (inr later) = none_passes p servers (ground arith) t later

-- If one entry of a listing passes a test, it is that of a listed server, and of every other that
-- passes.
alone_passes :
    (p : Entry → Bool) (entry : Entry) (servers : List Server)
    → keep p (map entry_of servers) ≡ entry ∷ []
    → ((s : Server) × Member s servers × (entry_of s ≡ entry))
      × ((t : Server) → Member t servers → p (entry_of t) ≡ true → entry_of t ≡ entry)
alone_passes p entry [] h = absurd (ground arith)
alone_passes p entry (s ∷ servers) h = elim (Bool-cases (p (entry_of s))) [
  | inl passes ↦
      let here : entry_of s ≡ entry = ground arith in
      let none_left = none_passes p servers (ground arith) in
      (
        (s, inl refl, here),
        λ t m passes'. elim m [
          | inl same ↦ ap entry_of same ∙ here
          | inr later ↦ let fails = none_left t later in absurd (ground arith)
        ],
      )
  | inr fails ↦
      let ((first, m, equal), agree) = alone_passes p entry servers (ground arith) in
      (
        (first, inr m, equal),
        λ t m' passes'. elim m' [
          | inl same ↦ let same' = ap entry_of same in absurd (ground arith)
          | inr later ↦ agree t later passes'
        ],
      )
]

module _ {W : Type 0} (ex : Executor W) (store : Contents W) (laws : IsStore ex store) where
  -- In a cloud that is a store of servers, and that holds no server with the provider ID that a
  -- creation returns, the machine is listed under that provider ID with its name, as long as both
  -- tags are configured, the store has only settled since and the servers are listed.
  pub create_then_list :
      (P : Poller W) (polls : PollsInRounds P) (name user_data pid : String) (v w x y : W)
      (listed : List Server)
      → HasTagNames ex
      → keep (has_provider_id (spec_of ex).region pid) (store.servers v) ≡ []
      → create_machine ex P name user_data v ≡ (ok pid, w)
      → Settled store w x
      → ex.compute.list_servers (record { name = "" }) x ≡ (answer listed, y)
      → (machines : Dict String) × (list_machines ex x ≡ (ok machines, y))
        × (lookup pid machines ≡ some name)
  create_then_list P polls name user_data pid v w x y listed (c, r) fresh created since list =
      let region = (spec_of ex).region in
      let (id, creates, e) = created_entry ex store laws P polls name user_data pid v w created in
      let entry = machine_entry ex id name in
      let listing =
        called (settles store) (ex.compute.list_servers _) (laws.reads.list_servers _) list in
      let ((server, member, equal), agree) =
        alone_passes (has_provider_id region pid) entry listed (
          ap (keep (has_provider_id region pid)) (laws.listed_all x y listed list)
          ∙ Creates-only ex store laws entry (has_provider_id region pid) v y
              (Creates-settled store entry v w y creates (settled_then store since listing))
              (ground arith) fresh) in
      let (cluster, role) = search_tags-has_key (spec_of ex).tags c r in
      let tagged = ap (λ (a : Entry). a.metadata) equal in
      let (machines, ran, _, complete) = list_machines_exact ex x listed y (c, r, list) in
      let found =
        complete pid server member
          (
            rw tagged cluster,
            rw tagged role,
            ap (λ (a : Entry). encode_provider_id region a.id) equal ∙ sym e,
          )
          (λ t m (_, _, p). ap (λ (a : Entry). a.name) (agree t m (ground arith) ∙ sym equal)) in
      (machines, ran, found ∙ ap some (ap (λ (a : Entry). a.name) equal))
