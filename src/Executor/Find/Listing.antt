-- ===== src/Executor/Find/Listing.antt =====
-- What `ListMachines` answers: the servers with both tags, by provider ID.
use machine_controller_manag.Base.{
  String, ◌≡◌, ◌≢◌, ◌⊎◌, refl, sym, ◌∙◌, true, List, [], ◌∷◌, arith, inl, inr, ◌==◌, ◌&&◌, some,
  none, if◌then◌else◌,
}
use mathlib.Core.Path.{subst}
use machine_controller_manag.Base.Dict.{Dict, has_key, lookup, lookup-insert}
use machine_controller_manag.Action.{ok, answer}
use machine_controller_manag.Cloud.{Server}
use machine_controller_manag.Executor.Defs.{Executor, spec_of}
use machine_controller_manag.Executor.Utils.{encode_provider_id}
use machine_controller_manag.Executor.Find.{
  search_tags, has_tags, list_round, list_from, list_machines,
}

abbrev pub Member : Server → List Server → Type 0
Member s [] = ⊥
Member s (t ∷ servers) = (s ≡ t) ⊎ Member s servers

module _ {W : Type 0} (ex : Executor W) (tags : String × String) where
  -- A server with both tags among the keys of its metadata that has the provider ID.
  abbrev pub IsEntry : String → Server → Type 0
  IsEntry provider_id server =
      (has_key tags.0 server.metadata ≡ true)
      × (has_key tags.1 server.metadata ≡ true)
      × (encode_provider_id (spec_of ex).region server.id ≡ provider_id)

  lookup-list_round :
      (pid : String) (server : Server) (result : Dict String)
      → lookup pid (list_round ex tags server result) ≡ (
          if has_key tags.0 server.metadata && has_key tags.1 server.metadata
          then if pid == encode_provider_id (spec_of ex).region server.id
            then some server.name
            else lookup pid result
          else lookup pid result)
  unfolding list_round has_tags
  lookup-list_round pid server result = ground (
    arith,
    lookup-insert (encode_provider_id (spec_of ex).region server.id) pid server.name result,
  )

  list_round_cases :
      (pid : String) (server : Server) (result : Dict String)
      → (IsEntry pid server × (lookup pid (list_round ex tags server result) ≡ some server.name))
        ⊎ ((¬ IsEntry pid server)
            × (lookup pid (list_round ex tags server result) ≡ lookup pid result))
  list_round_cases pid server result = grind (arith, lookup-list_round pid server result)

  -- Every entry of the result is a listed server with both tags, or was there before.
  pub list_from_sound :
      (pid name : String) (servers : List Server) (result : Dict String)
      → lookup pid (list_from ex tags servers result) ≡ some name
      → ((server : Server) × Member server servers × IsEntry pid server × (server.name ≡ name))
        ⊎ (lookup pid result ≡ some name)
  unfolding list_from
  list_from_sound pid name [] result h = inr h
  list_from_sound pid name (s ∷ servers) result h = elim (list_from_sound pid name servers _ h) [
    | inl (t, m, e, n) ↦ inl (t, inr m, e, n)
    | inr before ↦ elim (list_round_cases pid s result) [
      | inl (e, found) ↦ inl (s, inl refl, e, ground arith)
      | inr (_, same) ↦ inr (sym same ∙ before)
    ]
  ]

  -- A value that every entry with the ID agrees with is kept.
  pub list_from_complete :
      (pid name : String) (servers : List Server) (result : Dict String)
      → ((t : Server) → Member t servers → IsEntry pid t → t.name ≡ name)
      → (lookup pid result ≡ some name) ⊎ ((s : Server) × Member s servers × IsEntry pid s)
      → lookup pid (list_from ex tags servers result) ≡ some name
  unfolding list_from
  list_from_complete pid name [] result agree (inl h) = h
  list_from_complete pid name [] result agree (inr (s, m, e)) = absurd m
  list_from_complete pid name (s ∷ servers) result agree h =
      list_from_complete pid name servers _ (λ t m. agree t (inr m))
        (elim (list_round_cases pid s result) [
          | inl (e, found) ↦ inl (rw (found, agree s (inl refl) e))
          | inr (differs, same) ↦ elim h [
            | inl before ↦ inl (same ∙ before)
            | inr (t, inr m, e) ↦ inr (t, m, e)
            | inr (t, inl p, e) ↦ absurd (differs (subst (IsEntry pid) p e))
          ]
        ])

module _ {W : Type 0} (ex : Executor W) (w : W) where
  -- Both tags are found and the cloud lists `listed`.
  abbrev pub Lists : List Server → W → Type 0
  Lists listed w' =
      let tags = search_tags (spec_of ex).tags in
      (tags.0 ≢ "")
      × (tags.1 ≢ "")
      × (ex.compute.list_servers (record { name = "" }) w ≡ (answer listed, w'))

  list_machines-listed :
      (listed : List Server) (w' : W)
      → Lists listed w'
      → list_machines ex w ≡ (ok (list_from ex (search_tags (spec_of ex).tags) listed []), w')
  unfolding list_machines
  list_machines-listed listed w' (c, r, e) = ground arith

  -- With both tags configured, the machines that are listed are exactly the servers of the
  -- cloud's listing that carry both tags: each listed name belongs to such a server with that
  -- provider ID, and each such server is listed under its provider ID, by its own name if no
  -- other such server has the same ID under another name.
  pub list_machines_exact :
      (listed : List Server) (w' : W)
      → Lists listed w'
      → let tags = search_tags (spec_of ex).tags in
        (machines : Dict String) × (list_machines ex w ≡ (ok machines, w'))
        × ((pid name : String)
            → lookup pid machines ≡ some name
            → (s : Server) × Member s listed × IsEntry ex tags pid s × (s.name ≡ name))
        × ((pid : String) (s : Server)
            → Member s listed
            → IsEntry ex tags pid s
            → ((t : Server) → Member t listed → IsEntry ex tags pid t → t.name ≡ s.name)
            → lookup pid machines ≡ some s.name)
  list_machines_exact listed w' h =
      let tags = search_tags (spec_of ex).tags in
      (
        list_from ex tags listed [],
        list_machines-listed listed w' h,
        (λ pid name found. from_result (list_from_sound ex tags pid name listed [] found)),
        (λ pid s m e agree. list_from_complete ex tags pid s.name listed [] agree (inr (s, m, e))),
      )
    where
      from_result : {A : Type 0} {name : String} → A ⊎ (none ≡ some name) → A
      from_result (inl a) = a
      from_result (inr e) = cc
