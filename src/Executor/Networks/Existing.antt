-- ===== src/Executor/Networks/Existing.antt =====
-- The networks of a server that joins an existing network.
use machine_controller_manag.Base.{
  String, true, false, ◌≡◌, ◌⊎◌, refl, ap, sym, Option, some, none, List, [], ◌∷◌, arith,
  Bool-cases, inl, inr,
}
use machine_controller_manag.Action.{answer, ok, Action, pure, call, deref, ◌>>=◌}
use machine_controller_manag.Action.Laws.{bind_ok, call_ok, pure_ok}
use machine_controller_manag.Cloud.{ServerNetwork, Subnet, Port}
use machine_controller_manag.Executor.Defs.{Executor, spec_of}
use machine_controller_manag.Executor.Utils.{is_empty_string}
use machine_controller_manag.Executor.Networks.{
  resolve_groups, port_opts, preallocate, resolve_existing, resolve_server_networks,
}
use machine_controller_manag.Executor.Networks.Laws.{attach, attach_port}

module _ {W : Type 0} (ex : Executor W) where
  -- The security groups resolve to `ids` between `v` and `w`, each by a look-up of its name.
  pub data Grouped : List String → List String → W → W → Type 0 where
    done : {v w : W} → v ≡ w → Grouped [] [] v w
    by_name :
        {group id : String} {groups ids : List String} {u v w : W}
        → ex.network.group_id_from_name group u ≡ (answer id, v)
        → Grouped groups ids v w
        → Grouped (group ∷ groups) (id ∷ ids) u w

  resolve_groups-ok :
      (groups ids : List String) (v w : W)
      → resolve_groups ex groups v ≡ (ok ids, w)
      → Grouped groups ids v w
  unfolding resolve_groups
  resolve_groups-ok [] ids v w h = let e : ids ≡ [] = ground arith in rw e (done (ground arith))
  resolve_groups-ok (group ∷ groups) ids v w h =
      let (id, u, e, rest) =
        bind_ok (call (ex.network.group_id_from_name group))
          (λ id. resolve_groups ex groups >>= λ ids. pure (id ∷ ids)) v h in
      let (more, t, e', last) =
        bind_ok (resolve_groups ex groups) (λ ids. pure (id ∷ ids)) u rest in
      let all : ids ≡ id ∷ more = ground arith in
      let still : t ≡ w = ground arith in
      rw all (
        by_name (call_ok (ex.network.group_id_from_name group) v e)
          (resolve_groups-ok groups more u w (rw still at e')))

  -- Between `v` and `w` a port was created for the machine in the configured subnet and network,
  -- for the pod network's range and for all security groups, after the subnet and every group had
  -- been found.
  pub data Preallocated (name subnet : String) (v : W) (port : Port) (w : W) : Type 0 where
    in_steps :
        (found : Subnet) (ids : List String) (looked grouped : W)
        → ex.network.get_subnet subnet v ≡ (answer found, looked)
        → Grouped (spec_of ex).security_groups ids looked grouped
        → ex.network.create_port
            (record {
              name = name;
              network_id = (spec_of ex).network_id;
              fixed_ips = subnet ∷ [];
              allowed_address_pairs = (spec_of ex).pod_network_cidr ∷ [];
              security_groups = ids;
            })
            grouped
          ≡ (answer port, w)
        → Preallocated name subnet v port w

  preallocate-ok :
      (name subnet : String) (v w : W) (nws : List ServerNetwork) (pods : List String)
      → preallocate ex name subnet v ≡ (ok (nws, pods), w)
      → (port : Port) × Preallocated name subnet v port w
        × (nws ≡ record { uuid = (spec_of ex).network_id; port = port.id } ∷ [])
        × (pods ≡ (spec_of ex).network_id ∷ [])
  unfolding preallocate port_opts
  preallocate-ok name subnet v w nws pods h =
      let made : Port → Action W (List ServerNetwork × List String) = λ port.
        pure (attach_port (spec_of ex).network_id port ∷ [], (spec_of ex).network_id ∷ []) in
      let create : List String → Action W (List ServerNetwork × List String) =
        λ ids. call (ex.network.create_port (port_opts ex name subnet ids)) >>= made in
      let (found, looked, e, rest) =
        bind_ok (call (ex.network.get_subnet subnet))
          (λ _. resolve_groups ex (spec_of ex).security_groups >>= create) v h in
      let (ids, grouped, e', rest') =
        bind_ok (resolve_groups ex (spec_of ex).security_groups) create looked rest in
      let (port, t, e'', last) =
        bind_ok (call (ex.network.create_port (port_opts ex name subnet ids))) made grouped rest' in
      let (same, still) = pure_ok last in
      (
        port,
        in_steps found ids looked grouped (call_ok (ex.network.get_subnet subnet) v e)
            (resolve_groups-ok (spec_of ex).security_groups ids looked grouped e')
            (call_ok (ex.network.create_port (port_opts ex name subnet ids)) grouped
              (rw still at e'')),
        ap (λ r. r.0) (sym same),
        ap (λ r. r.1) (sym same),
      )

  -- Where a network ID is set, resolving succeeds with that network alone, for the server and for
  -- the pods: with no call if no subnet is set, and else through a port created in the subnet.
  pub resolve_server_networks-existing :
      (name : String) (v w : W) (nws : List ServerNetwork) (pods : List String)
      → is_empty_string (some (spec_of ex).network_id) ≡ false
      → resolve_server_networks ex name v ≡ (ok (nws, pods), w)
      → (pods ≡ (spec_of ex).network_id ∷ [])
        × (((is_empty_string (spec_of ex).subnet_id ≡ true)
              × (nws ≡ attach (spec_of ex).network_id ∷ [])
              × (v ≡ w))
            ⊎ ((subnet : String) × (port : Port) × ((spec_of ex).subnet_id ≡ some subnet)
                × Preallocated name subnet v port w
                × (nws ≡ record { uuid = (spec_of ex).network_id; port = port.id } ∷ [])))
  unfolding resolve_server_networks resolve_existing
  resolve_server_networks-existing name v w nws pods set h =
      elim (Bool-cases (is_empty_string (spec_of ex).subnet_id)) [
        | inl unset ↦ (ground arith, inl (unset, ground arith, ground arith))
        | inr subnet_set ↦ from_subnet (spec_of ex).subnet_id refl (ground arith)
      ]
    where
      from_subnet :
          (o : Option String)
          → (spec_of ex).subnet_id ≡ o
          → (deref o >>= preallocate ex name) v ≡ (ok (nws, pods), w)
          → (pods ≡ (spec_of ex).network_id ∷ [])
            × (((is_empty_string (spec_of ex).subnet_id ≡ true)
                  × (nws ≡ attach (spec_of ex).network_id ∷ [])
                  × (v ≡ w))
                ⊎ ((subnet : String) × (port : Port) × ((spec_of ex).subnet_id ≡ some subnet)
                    × Preallocated name subnet v port w
                    × (nws ≡ record { uuid = (spec_of ex).network_id; port = port.id } ∷ [])))
      from_subnet none e q = absurd (ground arith)
      from_subnet (some subnet) e q =
          let (port, p, a, b) = preallocate-ok name subnet v w nws pods q in
          (b, inr (subnet, port, e, p, a))
