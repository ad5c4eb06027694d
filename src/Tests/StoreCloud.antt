-- ===== src/Tests/StoreCloud.antt =====
-- A cloud that is a store of servers. The answer to a creation has only the ID, and a server that is
-- deleted is still seen once.
use machine_controller_manag.Base.{
  inl, inr, false, Bool, Bool-cases, String, string_discrete, ◌==◌, ◌≡◌, ◌≢◌, refl, true, List, [],
  ◌∷◌, map, keep, arith, if◌then◌else◌, not, contains, ◌||◌,
}
use machine_controller_manag.Action.{Answer, answer, failure}
use machine_controller_manag.Errors.{Err}
use machine_controller_manag.Cloud.{
  Server, CreateOpts, Compute, Network, status_active, status_deleted,
}
use machine_controller_manag.Executor.Defs.{Executor, Poller, rounds, PollsInRounds}
use machine_controller_manag.Executor.Deploy.Laws.{read_request}
use machine_controller_manag.Executor.Store.{
  Entry, entry_of, has_id, Contents, settles, IsCreation, IsStore,
}
use machine_controller_manag.Tests.World.{differ, tags, spec, configured, is_gone, refused, port}

-- The servers, and the IDs of those that were deleted.
pub record Store : Type 0 where
  pub servers : List Server
  pub leaving : List String

abbrev pub find : String → List Server → Answer Server
find id [] = failure is_gone
find id (s ∷ servers) =
    if s.id == id then answer (record s { status = status_active }) else find id servers

abbrev staying : List String → List Server → List Server
staying leaving = keep (λ s. not (contains leaving s.id))

-- The servers that were deleted go.
abbrev let_go : Store → Store
let_go w = record w { servers = staying w.leaving w.servers }

abbrev started : CreateOpts → Server
started opts = record {
  id = "s-1";
  name = (read_request opts).server.name;
  status = status_active;
  metadata = (read_request opts).server.metadata;
  fault = "";
}

abbrev accepted : Server
accepted = record { id = "s-1"; name = ""; status = ""; metadata = []; fault = "" }

abbrev uses : String → List Server → Bool
uses id [] = false
uses id (s ∷ servers) = if s.id == id then true else uses id servers

-- One server for all time.
abbrev create : CreateOpts → Store → Answer Server × Store
create opts w =
    if uses "s-1" w.servers || contains w.leaving "s-1"
    then (failure refused, w)
    else (answer accepted, record w { servers = started opts ∷ w.servers })

abbrev pub compute : Compute Store
compute = record {
  create_server = create;
  boot_from_volume = create;
  get_server = λ id w. (find id w.servers, let_go w);
  list_servers = λ opts w. (answer w.servers, w);
  delete_server = λ id w. (answer tt, record w { leaving = id ∷ w.leaving });
  flavor_id_from_name = λ name w. (answer "f-1", w);
  image_id_from_name = λ name w. (answer "i-1", w);
}

abbrev pub network : Network Store
network = record {
  get_subnet = λ id w. (answer (record { id = id }), w);
  create_port = λ opts w. (answer port, w);
  list_ports = λ opts w. (answer (port ∷ []), w);
  update_port = λ id opts w. (answer tt, w);
  delete_port = λ id w. (answer tt, w);
  network_id_from_name = λ name w. (answer "n-1", w);
  group_id_from_name = λ name w. (answer "g-1", w);
  port_id_from_name = λ name w. (answer "p-1", w);
}

abbrev pub ex : Executor Store
ex = record { compute = compute; network = network; config = configured spec }

abbrev pub contents : Contents Store
contents = record {
  servers = λ w. map entry_of w.servers;
  deleting = λ w id. contains w.leaving id;
}

abbrev pub poller : Poller Store
poller = record { poll = λ interval timeout. rounds refused 2; timed_out = refused }

pub polls : PollsInRounds poller
polls interval timeout cond w = (1, refl)

find-missing :
    (id : String) (servers : List Server) (e : Err)
    → find id servers ≡ failure e
    → keep (has_id id) (map entry_of servers) ≡ []
find-missing id [] e h = refl
find-missing id (s ∷ servers) e h = ground (arith, find-missing id servers e)

find-active :
    (id : String) (servers : List Server) (server : Server)
    → find id servers ≡ answer server
    → server.status ≡ status_active
find-active id [] server h = absurd (ground arith)
find-active id (s ∷ servers) server h = ground (arith, find-active id servers server)

active_deleted : status_active ≢ status_deleted
unfolding string_discrete
active_deleted = differ status_active status_deleted refl

staying-Shrinks :
    (leaving : List String) (servers : List Server) (p : Entry → Bool)
    → keep p (map entry_of servers) ≡ []
    → keep p (map entry_of (staying leaving servers)) ≡ []
staying-Shrinks leaving [] p h = refl
staying-Shrinks leaving (s ∷ servers) p h =
    let rest = staying-Shrinks leaving servers p in ground arith

staying-kept :
    (leaving : List String) (servers : List Server) (id : String)
    → contains leaving id ≡ false
    → keep (has_id id) (map entry_of (staying leaving servers))
      ≡ keep (has_id id) (map entry_of servers)
staying-kept leaving [] id h = refl
staying-kept leaving (s ∷ servers) id h =
    let rest = staying-kept leaving servers id h in
    elim (Bool-cases (s.id == id)) [
      | inl here ↦
          let same : s.id ≡ id = ground arith in
          let kept : contains leaving s.id ≡ false = rw same h in ground arith
      | inr there ↦ ground arith
    ]

let_go-settles : (w : Store) → (settles contents).relates w (let_go w)
let_go-settles w =
    (staying-Shrinks w.leaving w.servers, λ id h. (h, staying-kept w.leaving w.servers id h))

uses-fresh :
    (id : String) (servers : List Server)
    → uses id servers ≡ false
    → keep (has_id id) (map entry_of servers) ≡ []
uses-fresh id [] h = refl
uses-fresh id (s ∷ servers) h = ground (arith, uses-fresh id servers)

creation : IsCreation contents create
creation opts v w server h =
    let new = uses-fresh "s-1" v.servers in
    (ground arith, ground arith, λ p fails none_has. ground arith)

pub idle : (w : Store) → (settles contents).relates w w
idle w = (settles contents).stays w

pub store : IsStore ex contents
store = record {
  created = creation;
  booted = creation;
  listed = λ name v w servers h. ground arith;
  listed_all = λ v w servers h. ground arith;
  missing = λ id v w e h kind.
      let gone =
        staying-Shrinks v.leaving v.servers (has_id id)
          (find-missing id v.servers e (ground arith)) in
      ground arith;
  deleted = λ id v w server h s.
      let active = find-active id v.servers server (ground arith) in
      absurd (active_deleted (ground arith));
  removes = λ id v p h. h;
  reads = record {
    get_server = λ id w. let_go-settles w;
    list_servers = λ opts w. idle w;
    image_id_from_name = λ name w. idle w;
    flavor_id_from_name = λ name w. idle w;
    get_subnet = λ id w. idle w;
    create_port = λ opts w. idle w;
    list_ports = λ opts w. idle w;
    update_port = λ id opts w. idle w;
    delete_port = λ id w. idle w;
    network_id_from_name = λ name w. idle w;
    group_id_from_name = λ name w. idle w;
    port_id_from_name = λ name w. idle w;
  };
}

abbrev pub web : Server
web = record { id = "s-1"; name = "web"; status = status_active; metadata = tags; fault = "" }

-- With nothing, with the server, and with its ID after it has gone.
abbrev pub empty : Store
empty = record { servers = []; leaving = [] }

abbrev pub holding : Store
holding = record { servers = web ∷ []; leaving = [] }

abbrev pub emptied : Store
emptied = record { servers = []; leaving = "s-1" ∷ [] }
