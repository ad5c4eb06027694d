-- ===== src/Executor/Find/Name.antt =====
-- What `getMachineByName` and `GetMachineStatus` answer, on every branch.
use machine_controller_manag.Base.{
  ◌<◌, String, ◌≡◌, ◌≢◌, refl, Bool, true, false, List, [], ◌∷◌, arith, ◌↔◌, Option, some, none,
  length, keep, ◌==◌, ◌&&◌,
}
use machine_controller_manag.Base.Dict.{has_key}
use machine_controller_manag.Action.{Result, ok, err, panicked, Answer, answer, failure}
use machine_controller_manag.Errors.{Err, Sentinel, err_not_found, err_multiple_found, is_error}
use machine_controller_manag.Cloud.{Server}
use machine_controller_manag.Executor.Defs.{Executor, spec_of}
use machine_controller_manag.Executor.Utils.{encode_provider_id}
use machine_controller_manag.Executor.Find.{
  search_tags, has_tags, is_machine, unique_server, get_machine_by_name, get_machine_status,
}

-- The call failed with an error that is the sentinel or wraps it.
abbrev pub fails_with : {A : Type 0} → Result A → Sentinel → Bool
fails_with (ok a) target = false
fails_with (err e) target = is_error e target
fails_with panicked target = false

-- Both tags are configured.
abbrev pub HasTagNames : {W : Type 0} → Executor W → Type 0
HasTagNames ex = let tags = search_tags (spec_of ex).tags in (tags.0 ≢ "") × (tags.1 ≢ "")

-- The servers of a listing that have the name, and both tags among the keys of their metadata.
abbrev pub matches : {W : Type 0} → Executor W → String → List Server → List Server
matches ex name listed =
    let tags = search_tags (spec_of ex).tags in
    keep (λ s. s.name == name && (has_key tags.0 s.metadata && has_key tags.1 s.metadata)) listed

abbrev pub status_of : {W : Type 0} → String → Result (Option Server) × W → Result String × W
status_of region (ok none, w) = (panicked, w)
status_of region (ok (some server), w) = (ok (encode_provider_id region server.id), w)
status_of region (err e, w) = (err e, w)
status_of region (panicked, w) = (panicked, w)

status_of-answers :
    {W : Type 0} (region : String) (r : Result (Option Server) × W)
    → (r.0 ≢ ok none) × (r.0 ≢ panicked)
    → (status_of region r).0 ≢ panicked
status_of-answers region (ok none, w) h e = h.0 refl
status_of-answers region (ok (some server), w) h e = cc
status_of-answers region (err e, w) h e' = cc
status_of-answers region (panicked, w) h e = h.1 refl

unique_server_outcomes :
    {W : Type 0} (name : String) (found : List Server) (server : Server) (w : W)
    → let r = (unique_server name found w).0 in
      ((r ≡ ok (some server)) ↔ (found ≡ server ∷ []))
      × ((fails_with r err_not_found ≡ true) ↔ (found ≡ []))
      × ((fails_with r err_multiple_found ≡ true) ↔ (1 < length found))
      × (r ≢ ok none)
unfolding unique_server is_error
unique_server_outcomes name [] server w = ground arith
unique_server_outcomes name (s ∷ []) server w = ground arith
unique_server_outcomes name (s ∷ t ∷ more) server w = ground arith

unique_server_answers :
    {W : Type 0} (name : String) (found : List Server) (w : W)
    → ((unique_server name found w).0 ≢ ok none) × ((unique_server name found w).0 ≢ panicked)
unfolding unique_server
unique_server_answers name [] w = ground arith
unique_server_answers name (s ∷ []) w = ground arith
unique_server_answers name (s ∷ t ∷ more) w = ground arith

module _ {W : Type 0} (ex : Executor W) (name : String) (w : W) where
  pub get_machine_by_name-listed :
      (listed : List Server) (w' : W)
      → HasTagNames ex
      → ex.compute.list_servers (record { name = name }) w ≡ (answer listed, w')
      → get_machine_by_name ex name w ≡ unique_server name (matches ex name listed) w'
  unfolding get_machine_by_name is_machine has_tags
  get_machine_by_name-listed listed w' (c, r) e = ground arith

  -- Without both tags there is no search: no server is found, and there is no error either.
  pub get_machine_by_name-untagged : ¬ HasTagNames ex → get_machine_by_name ex name w ≡ (ok none, w)
  unfolding get_machine_by_name
  get_machine_by_name-untagged h = ground arith

  pub get_machine_by_name-failed :
      (e : Err) (w' : W)
      → HasTagNames ex
      → ex.compute.list_servers (record { name = name }) w ≡ (failure e, w')
      → get_machine_by_name ex name w ≡ (err e, w')
  unfolding get_machine_by_name
  get_machine_by_name-failed e w' (c, r) h = ground arith

  -- With both tags configured and the servers listed, the search by name succeeds with a server
  -- exactly when that server alone matches, fails with `ErrNotFound` exactly when none matches,
  -- and with `ErrMultipleFound` exactly when more than one does. It never answers with nothing.
  pub get_machine_by_name_outcomes :
      (listed : List Server) (w' : W) (server : Server)
      → HasTagNames ex
      → ex.compute.list_servers (record { name = name }) w ≡ (answer listed, w')
      → let r = (get_machine_by_name ex name w).0 in
        ((r ≡ ok (some server)) ↔ (matches ex name listed ≡ server ∷ []))
        × ((fails_with r err_not_found ≡ true) ↔ (matches ex name listed ≡ []))
        × ((fails_with r err_multiple_found ≡ true) ↔ (1 < length (matches ex name listed)))
        × (r ≢ ok none)
  get_machine_by_name_outcomes listed w' server h e =
      rw (get_machine_by_name-listed listed w' h e)
        (unique_server_outcomes name (matches ex name listed) server w')

  -- The status is the provider ID of the server that the search found; without a server it
  -- fails as the search does, and if the search found nothing and no error, it panics.
  pub get_machine_status_lem :
      get_machine_status ex name w ≡ status_of (spec_of ex).region (get_machine_by_name ex name w)
  unfolding get_machine_status
  get_machine_status_lem = ground arith

  -- With both tags configured the search answers with a server or with an error.
  pub get_machine_by_name-answers :
      HasTagNames ex
      → ((get_machine_by_name ex name w).0 ≢ ok none)
        × ((get_machine_by_name ex name w).0 ≢ panicked)
  get_machine_by_name-answers h = go (ex.compute.list_servers (record { name = name }) w) refl
    where
      go :
          (listing : Answer (List Server) × W)
          → ex.compute.list_servers (record { name = name }) w ≡ listing
          → ((get_machine_by_name ex name w).0 ≢ ok none)
            × ((get_machine_by_name ex name w).0 ≢ panicked)
      go (answer listed, w') e =
          rw (get_machine_by_name-listed listed w' h e)
            (unique_server_answers name (matches ex name listed) w')
      go (failure e, w') h' = rw (get_machine_by_name-failed e w' h h') (ground arith)

  -- The executor's `GetMachineStatus` panics exactly when the name of a tag is missing from the
  -- configuration.
  pub get_machine_status-panics : ((get_machine_status ex name w).0 ≡ panicked) ↔ ¬ HasTagNames ex
  get_machine_status-panics = (
    λ p h. status_of-answers _ _ (get_machine_by_name-answers h) (rw get_machine_status_lem at p),
    λ h. rw (get_machine_status_lem, get_machine_by_name-untagged h) refl,
  )
