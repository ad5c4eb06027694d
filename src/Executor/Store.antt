-- ===== src/Executor/Store.antt =====
-- What the cloud promises an executor, where nothing else uses it: it is a store of servers, from
-- which servers go only after a request to delete them, at any later time.
pub mod Kept
pub mod Changes
pub mod Matching
pub mod RoundTrip
pub mod Deletion
pub mod Listing
use machine_controller_manag.Base.{
  String, ◌==◌, Bool, true, false, ◌≡◌, refl, ◌∙◌, List, [], ◌∷◌, map, keep, not,
}
use machine_controller_manag.Base.Dict.{Dict}
use machine_controller_manag.Action.{Service, answer, failure}
use machine_controller_manag.Action.Respects.{Preorder}
use machine_controller_manag.Errors.{Err, is_not_found_error}
use machine_controller_manag.Cloud.{Server, CreateOpts, status_deleted}
use machine_controller_manag.Executor.Defs.{Executor}
use machine_controller_manag.Executor.Respects.Services.{Reads}
use machine_controller_manag.Executor.Deploy.Laws.{read_request}

-- A server in the store: what does not change while it lives.
pub record Entry : Type 0 where
  pub id : String
  pub name : String
  pub metadata : Dict String

abbrev pub entry_of : Server → Entry
entry_of server = record { id = server.id; name = server.name; metadata = server.metadata }

-- The entry for a request to create a server that was answered with an ID.
abbrev pub entry_for : String → CreateOpts → Entry
entry_for id opts = record {
  id = id;
  name = (read_request opts).server.name;
  metadata = (read_request opts).server.metadata;
}

abbrev pub has_name : String → Entry → Bool
has_name name entry = entry.name == name

abbrev pub has_id : String → Entry → Bool
has_id id entry = entry.id == id

abbrev pub lacks_id : String → Entry → Bool
lacks_id id entry = not (has_id id entry)

-- The servers of a world, and the IDs of those that are being deleted.
pub record Contents (W : Type 0) : Type 0 where
  pub servers : W → List Entry
  pub deleting : W → String → Bool

module _ {W : Type 0} (store : Contents W) where
  -- No server has come.
  abbrev pub Shrinks : W → W → Type 0
  Shrinks v w = (p : Entry → Bool) → keep p (store.servers v) ≡ [] → keep p (store.servers w) ≡ []

  -- What goes on in the cloud while the executor does nothing to servers: no server has come, and
  -- none has gone that is not being deleted.
  abbrev pub settles : Preorder W
  settles = record {
    relates = λ v w.
        Shrinks v w
        × ((id : String)
            → store.deleting v id ≡ false
            → (store.deleting w id ≡ false)
              × (keep (has_id id) (store.servers w) ≡ keep (has_id id) (store.servers v)));
    stays = λ w. (λ p h. h, λ id h. (h, refl));
    chains = λ u v w (shrinks, holds) (shrinks', holds'). (
      (λ p h. shrinks' p (shrinks p h)),
      λ id h. let (h', kept) = holds id h in let (h'', kept') = holds' id h' in (h'', kept' ∙ kept),
    );
  }

  -- The entry has come, alone with its ID and not being deleted, and no other has.
  abbrev pub Creates : Entry → W → W → Type 0
  Creates entry v w =
      (keep (has_id entry.id) (store.servers w) ≡ entry ∷ [])
      × (store.deleting w entry.id ≡ false)
      × ((p : Entry → Bool)
          → p entry ≡ false
          → keep p (store.servers v) ≡ []
          → keep p (store.servers w) ≡ [])

  -- A server that is created is stored with the name and the metadata of the request, under the ID
  -- of the answer. Of the answer only the ID counts.
  abbrev pub IsCreation : (CreateOpts → Service W Server) → Type 0
  IsCreation create =
      (opts : CreateOpts) (v w : W) (server : Server)
      → create opts v ≡ (answer server, w)
      → Creates (entry_for server.id opts) v w

-- What each call does to the store of a world. Both ways to create a server are creations. A
-- listing by name has the stored servers of that name, and a listing without a name all stored
-- servers. A server that is reported as missing or `DELETED` is not stored. A request to delete a
-- server brings no server. All other calls only let the store settle.
pub record IsStore {W : Type 0} (ex : Executor W) (store : Contents W) : Type 0 where
  pub created : IsCreation store ex.compute.create_server
  pub booted : IsCreation store ex.compute.boot_from_volume
  pub listed :
      (name : String) (v w : W) (servers : List Server)
      → ex.compute.list_servers (record { name = name }) v ≡ (answer servers, w)
      → keep (has_name name) (map entry_of servers) ≡ keep (has_name name) (store.servers w)
  pub listed_all :
      (v w : W) (servers : List Server)
      → ex.compute.list_servers (record { name = "" }) v ≡ (answer servers, w)
      → map entry_of servers ≡ store.servers w
  pub missing :
      (id : String) (v w : W) (e : Err)
      → ex.compute.get_server id v ≡ (failure e, w)
      → is_not_found_error e ≡ true
      → keep (has_id id) (store.servers w) ≡ []
  pub deleted :
      (id : String) (v w : W) (server : Server)
      → ex.compute.get_server id v ≡ (answer server, w)
      → server.status ≡ status_deleted
      → keep (has_id id) (store.servers w) ≡ []
  pub removes : (id : String) (v : W) → Shrinks store v (ex.compute.delete_server id v).1
  pub reads : Reads (settles store) ex
