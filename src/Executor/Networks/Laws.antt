-- ===== src/Executor/Networks/Laws.antt =====
-- Which networks a server joins, and which of them carry pods.
use machine_controller_manag.Base.{
  String, Bool, true, false, ◌≡◌, ◌⊎◌, refl, sym, ap, ◌∙◌, ◌==◌, ◌&&◌, ◌||◌, contains, Distinct,
  some, List, [], ◌∷◌, ◌++◌, map, append_assoc, append-nil, if◌then◌else◌, arith, Bool-cases, inl,
  inr,
}
use machine_controller_manag.Action.{answer, ok}
use machine_controller_manag.Action.Laws.{bind_ok, call_ok}
use machine_controller_manag.Config.{OpenStackNetwork}
use machine_controller_manag.Cloud.{ServerNetwork, Port}
use machine_controller_manag.Executor.Defs.{Executor, spec_of}
use machine_controller_manag.Executor.Utils.{is_empty_string, str_slice_contains}
use machine_controller_manag.Executor.Networks.{
  add_id, resolve_network_id, resolve_listed, resolve_server_networks,
}

abbrev pub attach : String → ServerNetwork
attach id = record { uuid = id; port = "" }

abbrev pub attach_port : String → Port → ServerNetwork
attach_port id port = record { uuid = id; port = port.id }

or_false : (b : Bool) → (b || false) ≡ b
or_false true = refl
or_false false = refl

same_contains : (ids : List String) (k : String) → str_slice_contains ids k ≡ contains ids k
unfolding str_slice_contains
same_contains [] k = refl
same_contains (id ∷ ids) k = let rest = same_contains ids k in ground arith

contains-append :
    (ids : List String) (id k : String)
    → contains (ids ++ (id ∷ [])) k ≡ (contains ids k || (id == k))
contains-append [] id k = ground arith
contains-append (x ∷ ids) id k = let rest = contains-append ids id k in ground arith

Distinct-append :
    (ids : List String) (id : String)
    → Distinct ids
    → contains ids id ≡ false
    → Distinct (ids ++ (id ∷ []))
Distinct-append [] id d new = (refl, tt)
Distinct-append (x ∷ ids) id (fresh, d) new =
    (contains-append ids id x ∙ ground arith, Distinct-append ids id d (ground arith))

contains-add_id :
    (id : String) (ids : List String) (k : String)
    → contains (add_id id ids) k ≡ ((id == k) || contains ids k)
unfolding add_id
contains-add_id id ids k =
    let held = same_contains ids id in let last = contains-append ids id k in ground arith

add_id-Distinct : (id : String) (ids : List String) → Distinct ids → Distinct (add_id id ids)
unfolding add_id
add_id-Distinct id ids d = elim (Bool-cases (str_slice_contains ids id)) [
  | inl held ↦ rw held d
  | inr new ↦ rw new (Distinct-append ids id d (sym (same_contains ids id) ∙ new))
]

module _ {W : Type 0} (ex : Executor W) where
  -- The listed networks resolve to `ids` between `v` and `w`: an entry without an ID by a look-up
  -- of its name, and any other entry to the network ID of the spec.
  pub data Resolved : List OpenStackNetwork → List String → W → W → Type 0 where
    done : {v w : W} → v ≡ w → Resolved [] [] v w
    by_name :
        {network : OpenStackNetwork} {networks : List OpenStackNetwork} {id : String}
        {ids : List String} {u v w : W}
        → is_empty_string (some network.id) ≡ true
        → ex.network.network_id_from_name network.name u ≡ (answer id, v)
        → Resolved networks ids v w
        → Resolved (network ∷ networks) (id ∷ ids) u w
    by_spec :
        {network : OpenStackNetwork} {networks : List OpenStackNetwork} {ids : List String}
        {u v w : W}
        → is_empty_string (some network.id) ≡ false
        → u ≡ v
        → Resolved networks ids v w
        → Resolved (network ∷ networks) ((spec_of ex).network_id ∷ ids) u w

  -- The IDs of the networks that carry pods.
  abbrev pub pod_ids : List OpenStackNetwork → List String → List String → List String
  pod_ids [] ids found = found
  pod_ids (network ∷ networks) [] found = found
  pod_ids (network ∷ networks) (id ∷ ids) found =
      pod_ids networks ids (if network.pod_network then add_id id found else found)

  resolve_network_id-ok :
      (network : OpenStackNetwork) (v u : W) (id : String)
      → resolve_network_id ex network v ≡ (ok id, u)
      → ((is_empty_string (some network.id) ≡ true)
          × (ex.network.network_id_from_name network.name v ≡ (answer id, u)))
        ⊎ ((is_empty_string (some network.id) ≡ false) × (id ≡ (spec_of ex).network_id) × (v ≡ u))
  unfolding resolve_network_id
  resolve_network_id-ok network v u id e = elim (Bool-cases (is_empty_string (some network.id))) [
    | inl blank ↦
        inl (blank, call_ok (ex.network.network_id_from_name network.name) v (rw blank at e))
    | inr set ↦ inr (set, ground arith, ground arith)
  ]

  pub resolve_listed-ok :
      (networks : List OpenStackNetwork) (nws : List ServerNetwork) (found : List String) (v w : W)
      (nws' : List ServerNetwork) (found' : List String)
      → resolve_listed ex networks nws found v ≡ (ok (nws', found'), w)
      → (ids : List String) × Resolved networks ids v w
        × (nws' ≡ nws ++ map attach ids)
        × (found' ≡ pod_ids networks ids found)
  unfolding resolve_listed
  resolve_listed-ok [] nws found v w nws' found' h =
      ([], done (ground arith), rw append-nil (ground arith), ground arith)
  resolve_listed-ok (network ∷ networks) nws found v w nws' found' h =
      let (id, u, e, rest) =
        bind_ok (resolve_network_id ex network)
          (λ id.
            resolve_listed ex networks (nws ++ (attach id ∷ []))
              (if network.pod_network then add_id id found else found))
          v h in
      let (ids, r, p, q) =
        resolve_listed-ok networks (nws ++ (attach id ∷ []))
          (if network.pod_network then add_id id found else found) u w nws' found' rest in
      let whole : nws' ≡ nws ++ (attach id ∷ map attach ids) =
        p ∙ append_assoc nws (attach id ∷ []) (map attach ids) in
      elim (resolve_network_id-ok network v u id e) [
        | inl (blank, found_id) ↦ (id ∷ ids, by_name blank found_id r, whole, q)
        | inr (set, same, still) ↦
            ((spec_of ex).network_id ∷ ids, by_spec set still r, rw same at whole, rw same at q)
      ]

  -- Some listed network that carries pods resolves to the ID.
  abbrev pub carries_pods : List OpenStackNetwork → List String → String → Bool
  carries_pods [] ids k = false
  carries_pods (network ∷ networks) [] k = false
  carries_pods (network ∷ networks) (id ∷ ids) k =
      (network.pod_network && (id == k)) || carries_pods networks ids k

  contains-pod_ids :
      (networks : List OpenStackNetwork) (ids found : List String) (k : String)
      → contains (pod_ids networks ids found) k ≡ (carries_pods networks ids k || contains found k)
  contains-pod_ids [] ids found k = refl
  contains-pod_ids (network ∷ networks) [] found k = refl
  contains-pod_ids (network ∷ networks) (id ∷ ids) found k =
      let found' = if network.pod_network then add_id id found else found in
      let rest = contains-pod_ids networks ids found' k in
      let added = contains-add_id id found k in rest ∙ ground arith

  pod_ids-Distinct :
      (networks : List OpenStackNetwork) (ids found : List String)
      → Distinct found
      → Distinct (pod_ids networks ids found)
  pod_ids-Distinct [] ids found d = d
  pod_ids-Distinct (network ∷ networks) [] found d = d
  pod_ids-Distinct (network ∷ networks) (id ∷ ids) found d = elim (Bool-cases network.pod_network) [
    | inl carries ↦
        rw carries (pod_ids-Distinct networks ids (add_id id found) (add_id-Distinct id found d))
    | inr plain ↦ rw plain (pod_ids-Distinct networks ids found d)
  ]

  -- Where no network ID is set, resolving succeeds by resolving each listed network in turn, an
  -- entry without an ID by a look-up of its name and an entry with an ID to the network ID of the
  -- spec, which is blank here. The server gets an attachment for each, in the order of the
  -- configuration, and the networks for the pods are those that entries marked as carrying pods
  -- resolve to, each once.
  pub resolve_server_networks-listed :
      (name : String) (v w : W) (nws : List ServerNetwork) (pods : List String)
      → is_empty_string (some (spec_of ex).network_id) ≡ true
      → resolve_server_networks ex name v ≡ (ok (nws, pods), w)
      → (ids : List String) × Resolved (spec_of ex).networks ids v w
        × (nws ≡ map attach ids)
        × Distinct pods
        × ((id : String) → contains pods id ≡ carries_pods (spec_of ex).networks ids id)
  unfolding resolve_server_networks
  resolve_server_networks-listed name v w nws pods blank h =
      let (ids, resolved, attached, e) =
        resolve_listed-ok (spec_of ex).networks [] [] v w nws pods (rw blank at h) in
      let marked = contains-pod_ids (spec_of ex).networks ids [] in
      (
        ids,
        resolved,
        attached,
        rw e (pod_ids-Distinct (spec_of ex).networks ids [] tt),
        λ id. ap (λ l. contains l id) e ∙ marked id ∙ or_false _,
      )

  -- Every listed network has an ID of its own.
  abbrev pub AllById : List OpenStackNetwork → Type 0
  AllById [] = Unit
  AllById (network ∷ networks) = (is_empty_string (some network.id) ≡ false) × AllById networks

  abbrev pub same_id : List OpenStackNetwork → List ServerNetwork
  same_id [] = []
  same_id (_ ∷ networks) = attach (spec_of ex).network_id ∷ same_id networks

  resolve_listed-by_id :
      (networks : List OpenStackNetwork) (nws : List ServerNetwork) (found : List String) (w : W)
      → AllById networks
      → (pods : List String) × (resolve_listed ex networks nws found w
          ≡ (ok (nws ++ same_id networks, pods), w))
  unfolding resolve_listed resolve_network_id
  resolve_listed-by_id [] nws found w h = (found, rw append-nil refl)
  resolve_listed-by_id (network ∷ networks) nws found w (set, h) =
      let found' = if network.pod_network then add_id (spec_of ex).network_id found else found in
      let (pods, e) =
        resolve_listed-by_id networks (nws ++ (attach (spec_of ex).network_id ∷ [])) found' w h in
      (pods, rw set (e ∙ rw append_assoc refl))

  -- Where no network ID is set and every listed network has an ID of its own, those IDs are not
  -- used: the server is attached to the blank network ID of the spec, once for each entry, and
  -- the cloud is not asked.
  pub resolve_server_networks-ids_ignored :
      (name : String) (w : W)
      → is_empty_string (some (spec_of ex).network_id) ≡ true
      → AllById (spec_of ex).networks
      → (pods : List String) × (resolve_server_networks ex name w
          ≡ (ok (same_id (spec_of ex).networks, pods), w))
  unfolding resolve_server_networks
  resolve_server_networks-ids_ignored name w blank h =
      rw blank (resolve_listed-by_id (spec_of ex).networks [] [] w h)
