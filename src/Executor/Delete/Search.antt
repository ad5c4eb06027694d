-- ===== src/Executor/Delete/Search.antt =====
-- Which server a deletion is for: that of the provider ID, or the one with the machine's name.
use machine_controller_manag.Base.{
  String, true, false, ◌≡◌, ◌⊎◌, ◌↔◌, refl, ap, ◌∙◌, inl, inr, ◌==◌, ◌||◌, some, List, [], ◌∷◌,
  arith, Bool-cases,
}
use machine_controller_manag.Base.Dict.{has_key}
use machine_controller_manag.Action.{Answer, answer, failure, ok}
use machine_controller_manag.Cloud.{Server}
use machine_controller_manag.Executor.Defs.{Executor, spec_of}
use machine_controller_manag.Executor.Utils.{is_empty_string, decode_provider_id}
use machine_controller_manag.Executor.Find.{
  search_tags, has_tags, unique_server, get_machine_by_provider_id, get_machine_by_name,
}
use machine_controller_manag.Executor.Find.Name.{
  HasTagNames, matches, get_machine_by_name-listed, get_machine_by_name-untagged,
  get_machine_by_name-failed,
}
use machine_controller_manag.Executor.Delete.{find_machine}

module _ {W : Type 0} (ex : Executor W) (name : String) (v w : W) (server : Server) where
  -- The cloud answers with the server when it is asked for the ID in the provider ID, which is not
  -- blank, and the keys of the server's metadata have both tags.
  abbrev pub IsFoundById : String → Type 0
  IsFoundById provider_id =
      let id = decode_provider_id provider_id in
      let tags = search_tags (spec_of ex).tags in
      (is_empty_string (some id) ≡ false)
      × (ex.compute.get_server id v ≡ (answer server, w))
      × (has_key tags.0 server.metadata ≡ true)
      × (has_key tags.1 server.metadata ≡ true)

  -- Both tags are configured, and of the servers that the cloud lists for the machine's name the
  -- server alone has that name and both tags.
  abbrev pub IsFoundByName : Type 0
  IsFoundByName =
      HasTagNames ex
      × ((listed : List Server) × (ex.compute.list_servers (record { name = name }) v
            ≡ (answer listed, w))
          × (matches ex name listed ≡ server ∷ []))

  by_id :
      (provider_id : String)
      → (get_machine_by_provider_id ex name provider_id v ≡ (ok server, w))
        ↔ IsFoundById provider_id
  unfolding get_machine_by_provider_id has_tags
  by_id provider_id = go (ex.compute.get_server (decode_provider_id provider_id) v) refl
    where
      go :
          (r : Answer Server × W)
          → ex.compute.get_server (decode_provider_id provider_id) v ≡ r
          → (get_machine_by_provider_id ex name provider_id v ≡ (ok server, w))
            ↔ IsFoundById provider_id
      go (answer s, u) e = (
        λ h. (ground arith, ground arith, ground arith, ground arith),
        λ (set, found, cluster, role). ground arith,
      )
      go (failure x, u) e =
          (λ h. absurd (ground arith), λ (set, found, cluster, role). absurd (ground arith))

  chosen :
      (u : W) (found : List Server)
      → (unique_server name found u ≡ (ok (some server), w)) ↔ ((found ≡ server ∷ []) × (u ≡ w))
  unfolding unique_server
  chosen u [] = (λ h. absurd (ground arith), λ (one, same). absurd (ground arith))
  chosen u (s ∷ []) = (λ h. (ground arith, ground arith), λ (one, same). ground arith)
  chosen u (s ∷ t ∷ more) = (λ h. absurd (ground arith), λ (one, same). absurd (ground arith))

  tagged_by_name :
      HasTagNames ex → (get_machine_by_name ex name v ≡ (ok (some server), w)) ↔ IsFoundByName
  tagged_by_name tagged = go (ex.compute.list_servers (record { name = name }) v) refl
    where
      go :
          (r : Answer (List Server) × W)
          → ex.compute.list_servers (record { name = name }) v ≡ r
          → (get_machine_by_name ex name v ≡ (ok (some server), w)) ↔ IsFoundByName
      go (answer listed, u) e =
          let (there, back) = chosen u (matches ex name listed) in
          let ran = get_machine_by_name-listed ex name v listed u tagged e in
          (
            λ h. let (one, same) = there (rw ran at h) in (tagged, (listed, rw same at e, one)),
            λ (t, (listed', e', one)).
                let same : listed ≡ listed' = ground arith in
                let still : u ≡ w = ground arith in
                rw ran (back (ap (matches ex name) same ∙ one, still)),
          )
      go (failure x, u) e =
          let ran = get_machine_by_name-failed ex name v x u tagged e in
          (λ h. absurd (cc), λ (t, (listed', e', one)). absurd (cc))

  by_name : (get_machine_by_name ex name v ≡ (ok (some server), w)) ↔ IsFoundByName
  by_name =
      let tags = search_tags (spec_of ex).tags in
      elim (Bool-cases (tags.0 == "" || tags.1 == "")) [
        | inl blank ↦
            let untagged : ¬ HasTagNames ex = λ (c, r). ground arith in
            let ran = get_machine_by_name-untagged ex name v untagged in
            (λ h. absurd (ground arith), λ (t, _). absurd (untagged t))
        | inr set ↦ tagged_by_name (ground arith)
      ]

  -- The search of a deletion answers with a server exactly if one of two conditions holds. The
  -- provider ID is not blank, nor is the server ID in it, and the cloud answers a look-up of that
  -- ID with this server, which carries both tags. Or the provider ID is blank, both tags are
  -- configured, and of the servers that the cloud lists for the machine's name this one alone has
  -- that name and carries both tags.
  pub find_machine-found :
      (provider_id : String)
      → (find_machine ex name provider_id v ≡ (ok (some server), w)) ↔ (
          ((is_empty_string (some provider_id) ≡ false) × IsFoundById provider_id)
          ⊎ ((is_empty_string (some provider_id) ≡ true) × IsFoundByName))
  unfolding find_machine
  find_machine-found provider_id = elim (Bool-cases (is_empty_string (some provider_id))) [
    | inl blank ↦
        let (there, back) = by_name in
        (
          λ h. inr (blank, there (rw blank at h)),
          λ q. elim q [
            | inl (set, _) ↦ absurd (ground arith)
            | inr (_, found) ↦ rw blank (back found)
          ],
        )
    | inr set ↦
        let (there, back) = by_id provider_id in
        (
          λ h. inl (set, there (ground arith)),
          λ q. elim q [
            | inl (_, found) ↦ let ran = back found in ground arith
            | inr (blank, _) ↦ absurd (ground arith)
          ],
        )
  ]
