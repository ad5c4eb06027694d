-- ===== src/Executor/Patch/Laws.antt =====
-- Which ports are patched, and that the order of the set of networks does not matter.
use machine_controller_manag.Base.{
  String, false, ◌≡◌, refl, ◌==◌, List, [], ◌∷◌, if◌then◌else◌, arith, keep, Bool-cases, inl, inr,
  ◌∙◌, contains, Distinct,
}
use machine_controller_manag.Action.{
  answer, Result, ok, err, panicked, Action, pure, call, map_error, ◌>>◌,
}
use machine_controller_manag.Action.Laws.{bind_cong}
use machine_controller_manag.Errors.{errorf_v}
use machine_controller_manag.Cloud.{Port}
use machine_controller_manag.Executor.Defs.{Executor, spec_of}
use machine_controller_manag.Executor.Patch.{
  update_port, patch_port, patch_ports, patch_listed, patch_server_ports_for_pod_network,
}

-- The ports in one of the networks.
abbrev pub in_networks : List String → List Port → List Port
in_networks ids = keep (λ port. contains ids port.network_id)

then_nothing :
    {W : Type 0} (m k : Action W (Unit {0})) (w : W)
    → ((v : W) → k v ≡ (ok tt, v))
    → (m >> k) w ≡ m w
then_nothing {W} m k w h = go (m w) refl
  where
    go : (r : Result (Unit {0}) × W) → m w ≡ r → (m >> k) w ≡ m w
    go (ok tt, v) e = ground (arith, h v)
    go (err x, v) e = ground arith
    go (panicked, v) e = ground arith

module _ {W : Type 0} (ex : Executor W) where
  -- One update for each port, in order, up to the first that fails: the range of the pod network
  -- becomes the one allowed address pair, and an error is reported with the ID of the port.
  abbrev pub update_all : List Port → Action W (Unit {0})
  update_all [] = pure tt
  update_all (port ∷ ports) =
      map_error
        (errorf_v "failed to update allowed address pair for port [ID=%q]: %v" (port.id ∷ []))
        (call (
          ex.network.update_port port.id
            (record { allowed_address_pairs = (spec_of ex).pod_network_cidr ∷ [] })))
      >> update_all ports

  patch_port-of_absent :
      (port : Port) (ids : List String) (w : W)
      → contains ids port.network_id ≡ false
      → patch_port ex port ids w ≡ (ok tt, w)
  unfolding patch_port
  patch_port-of_absent port [] w h = refl
  patch_port-of_absent port (id ∷ ids) w h = ground (arith, patch_port-of_absent port ids w)

  patch_port_once :
      (port : Port) (ids : List String) (w : W)
      → Distinct ids
      → patch_port ex port ids w
        ≡ (if contains ids port.network_id then update_port ex port w else (ok tt, w))
  unfolding patch_port
  patch_port_once port [] w d = refl
  patch_port_once port (id ∷ ids) w (fresh, d) = elim (Bool-cases (port.network_id == id)) [
    | inl here ↦ rw here (
        then_nothing (update_port ex port) (patch_port ex port ids) w
          (λ v. patch_port-of_absent port ids v (ground arith))
        ∙ ground arith)
    | inr there ↦ rw there (patch_port_once port ids w d ∙ ground arith)
  ]

  patch_ports_lem :
      (ports : List Port) (ids : List String) (w : W)
      → Distinct ids
      → patch_ports ex ports ids w ≡ update_all (in_networks ids ports) w
  unfolding patch_ports update_port
  patch_ports_lem [] ids w d = refl
  patch_ports_lem (port ∷ ports) ids w d = elim (Bool-cases (contains ids port.network_id)) [
    | inl marked ↦ rw marked (
        bind_cong (patch_port ex port ids) (update_port ex port) (λ _. patch_ports ex ports ids)
          (λ _. update_all (in_networks ids ports)) w (rw marked at (patch_port_once port ids w d))
          (λ _ v. patch_ports_lem ports ids v d))
    | inr plain ↦
        rw plain (ground (arith, patch_port_once port ids w d, patch_ports_lem ports ids w d))
  ]

  -- Once the server's ports are listed and there are some, exactly the ports in the networks of
  -- the set get the range of the pod network, each once and in the order of the listing, until an update fails. The
  -- order in which the set is iterated does not matter.
  pub patch_exactly :
      (server_id : String) (ids : List String) (port : Port) (ports : List Port) (w v : W)
      → Distinct ids
      → ex.network.list_ports (record { device_id = server_id }) w ≡ (answer (port ∷ ports), v)
      → patch_server_ports_for_pod_network ex server_id ids w
        ≡ update_all (in_networks ids (port ∷ ports)) v
  unfolding patch_server_ports_for_pod_network patch_listed
  patch_exactly server_id ids port ports w v d h =
      ground (arith, patch_ports_lem (port ∷ ports) ids v d)
