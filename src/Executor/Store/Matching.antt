-- ===== src/Executor/Store/Matching.antt =====
-- Which servers of a store match a name and both tags.
use machine_controller_manag.Base.{
  String, Bool, true, ◌≡◌, refl, sym, ap, ◌∙◌, inl, inr, ◌==◌, ◌&&◌, List, [], ◌∷◌, map, keep,
  arith, Bool-cases,
}
use machine_controller_manag.Base.Dict.{has_key}
use machine_controller_manag.Action.{answer, ok}
use machine_controller_manag.Cloud.{Server}
use machine_controller_manag.Executor.Defs.{Executor, spec_of}
use machine_controller_manag.Executor.Utils.{encode_provider_id}
use machine_controller_manag.Executor.Find.{search_tags, unique_server, get_machine_status}
use machine_controller_manag.Executor.Find.Tags.{search_tags-has_key}
use machine_controller_manag.Executor.Find.Name.{
  HasTagNames, matches, get_machine_by_name-listed, get_machine_status_lem,
}
use machine_controller_manag.Executor.Store.Kept.{other, keep_one, keep-other_none}
use machine_controller_manag.Executor.Store.Changes.{machine_entry}
use machine_controller_manag.Executor.Store.{Entry, entry_of, has_name, Contents, Creates, IsStore}

-- The entry has the name and both tags.
abbrev pub is_entry : String → String × String → Entry → Bool
is_entry name tags entry =
    entry.name == name && (has_key tags.0 entry.metadata && has_key tags.1 entry.metadata)

pub map-matches :
    (name : String) (tags : String × String) (servers : List Server)
    → map entry_of (
        keep
          (λ s. s.name == name && (has_key tags.0 s.metadata && has_key tags.1 s.metadata))
          servers)
      ≡ keep (is_entry name tags) (map entry_of servers)
map-matches name tags [] = refl
map-matches name tags (s ∷ servers) =
    let rest = map-matches name tags servers in
    elim (Bool-cases (is_entry name tags (entry_of s))) [
      | inl passes ↦ rw passes (ap (λ l. entry_of s ∷ l) rest)
      | inr fails ↦ rw fails rest
    ]

pub keep-named :
    (name : String) (tags : String × String) (entries : List Entry)
    → keep (is_entry name tags) (keep (has_name name) entries) ≡ keep (is_entry name tags) entries
keep-named name tags [] = refl
keep-named name tags (e ∷ entries) =
    let rest = keep-named name tags entries in
    elim (Bool-cases (e.name == name)) [ inl passes ↦ ground arith | inr fails ↦ ground arith ]

-- A list with one image has one member.
pub one_member :
    (servers : List Server) (entry : Entry)
    → map entry_of servers ≡ entry ∷ []
    → (server : Server) × (servers ≡ server ∷ []) × (entry_of server ≡ entry)
one_member [] entry h = absurd (ground arith)
one_member (s ∷ []) entry h = (s, refl, ground arith)
one_member (s ∷ t ∷ more) entry h = absurd (ground arith)

pub tagged-is_entry :
    {W : Type 0} (ex : Executor W) (id name : String)
    → HasTagNames ex
    → is_entry name (search_tags (spec_of ex).tags) (machine_entry ex id name) ≡ true
tagged-is_entry ex id name (c, r) =
    let (cluster, role) = search_tags-has_key (spec_of ex).tags c r in ground arith

module _ {W : Type 0} (ex : Executor W) (store : Contents W) (laws : IsStore ex store) where
  -- The listing of a store with one entry that matches has one server that matches.
  pub matches-one :
      (name : String) (entry : Entry) (w w' : W) (listed : List Server)
      → keep (is_entry name (search_tags (spec_of ex).tags)) (store.servers w') ≡ entry ∷ []
      → ex.compute.list_servers (record { name = name }) w ≡ (answer listed, w')
      → (server : Server) × (matches ex name listed ≡ server ∷ []) × (entry_of server ≡ entry)
  matches-one name entry w w' listed one list =
      let tags = search_tags (spec_of ex).tags in
      one_member (matches ex name listed) entry (
        map-matches name tags listed
        ∙ sym (keep-named name tags (map entry_of listed))
        ∙ ap (keep (is_entry name tags)) (laws.listed name w w' listed list)
        ∙ keep-named name tags (store.servers w')
        ∙ one)

  -- The entry that a creation has brought passes a test alone, if none passed before.
  pub Creates-only :
      (entry : Entry) (p : Entry → Bool) (v w : W)
      → Creates store entry v w
      → p entry ≡ true
      → keep p (store.servers v) ≡ []
      → keep p (store.servers w) ≡ entry ∷ []
  Creates-only entry p v w (held, _, others) passes alone =
      keep_one p entry.id entry (store.servers w) held
        (others (other p entry.id) (ground arith)
          (keep-other_none p entry.id (store.servers v) alone))
        passes

  pub status_of_one :
      (name : String) (server : Server) (w w' : W) (listed : List Server)
      → HasTagNames ex
      → ex.compute.list_servers (record { name = name }) w ≡ (answer listed, w')
      → matches ex name listed ≡ server ∷ []
      → get_machine_status ex name w ≡ (ok (encode_provider_id (spec_of ex).region server.id), w')
  unfolding unique_server
  status_of_one name server w w' listed tagged list one =
      rw
        (
          get_machine_status_lem ex name w,
          get_machine_by_name-listed ex name w listed w' tagged list,
          one,
        )
        refl
