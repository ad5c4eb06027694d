-- ===== src/Clients/Laws.antt =====
-- What the clients promise: what is counted, and which errors are swallowed.
use machine_controller_manag.Base.{
  String, Bool, true, false, ◌≡◌, ◌⊎◌, ◌↔◌, refl, sym, ap, ◌∙◌, inl, inr, if◌then◌else◌, arith,
}
use machine_controller_manag.Action.{Answer, answer, failure, Service}
use machine_controller_manag.Errors.{Err, is_not_found_error}
use machine_controller_manag.Cloud.{
  CreateOpts, ServerListOpts, PortOpts, PortListOpts, PortUpdateOpts,
}
use machine_controller_manag.Clients.Metrics.{
  Counters, Counted, Label, nova, neutron, always, unless_not_found, count_request, count_failure,
  settle, counted, forgive, read_pages,
}
use machine_controller_manag.Clients.Nova
use machine_controller_manag.Clients.Nova.{NovaApi}
use machine_controller_manag.Clients.Neutron
use machine_controller_manag.Clients.Neutron.{NeutronApi}
use machine_controller_manag.Clients.Factory.{compute, network}

abbrev pub failed : {A : Type 0} → (Err → Bool) → Answer A → Bool
failed counts (answer a) = false
failed counts (failure e) = counts e

abbrev pub after : {G A : Type 0} → Label → (Err → Bool) → Answer A × G → Counters → Counted G
after label counts r c = record {
  api = r.1;
  counters =
      if failed counts r.0
      then count_failure label (count_request label c)
      else count_request label c;
}

module _ {G : Type 0} where
  -- In every world the call makes one call `raw` of the API and no other, and counts it once under
  -- the label; it counts a failure too exactly if `raw` fails with an error of the given kind.
  abbrev pub CountsOnce :
      {A B : Type 0} → Label → (Err → Bool) → Service G A → Service (Counted G) B → Type 0
  CountsOnce label counts raw op =
      (w : Counted G) → (op w).1 ≡ after label counts (raw w.api) w.counters

  settle-after :
      {A : Type 0} (label : Label) (counts : Err → Bool) (r : Answer A × G) (c : Counters)
      → (settle label counts r c).1 ≡ after label counts r c
  settle-after label counts (answer a, g) c = refl
  settle-after label counts (failure e, g) c = refl

  pub counted_once :
      {A : Type 0} (label : Label) (counts : Err → Bool) (f : Service G A)
      → CountsOnce label counts f (counted label counts f)
  unfolding counted
  counted_once label counts f w = settle-after label counts (f w.api) w.counters

  pub read_pages-world :
      {P A : Type 0} (extract : P → Answer A) (r : Answer P × Counted G)
      → (read_pages extract r).1 ≡ r.1
  read_pages-world extract (answer pages, w) = refl
  read_pages-world extract (failure e, w) = refl

module _ {G P : Type 0} (api : NovaApi G P) where
  -- Every call of the Nova client makes one call of the API and counts it once as a request of
  -- Nova. A call of the API that fails is counted as a failure, unless it looks up or deletes one object (a
  -- server, an image or a flavor) and the error says that the object is not there.
  pub nova_counts :
      ((opts : CreateOpts)
        → CountsOnce nova always (api.servers_create opts) (Nova.create_server api opts))
      × ((opts : CreateOpts)
          → CountsOnce nova always
              (api.bootfromvolume_create opts)
              (Nova.boot_from_volume api opts))
      × ((id : String)
          → CountsOnce nova unless_not_found (api.servers_get id) (Nova.get_server api id))
      × ((opts : ServerListOpts)
          → CountsOnce nova always (api.servers_list opts) (Nova.list_servers api opts))
      × ((id : String)
          → CountsOnce nova unless_not_found (api.servers_delete id) (Nova.delete_server api id))
      × ((name : String)
          → CountsOnce nova unless_not_found
              (api.images_id_from_name name)
              (Nova.image_id_from_name api name))
      × ((name : String)
          → CountsOnce nova unless_not_found
              (api.flavors_id_from_name name)
              (Nova.flavor_id_from_name api name))
  unfolding Nova.create_server Nova.boot_from_volume Nova.get_server Nova.list_servers
      Nova.delete_server Nova.image_id_from_name Nova.flavor_id_from_name
  nova_counts = (
    (λ opts. counted_once nova always (api.servers_create opts)),
    (λ opts. counted_once nova always (api.bootfromvolume_create opts)),
    (λ id. counted_once nova unless_not_found (api.servers_get id)),
    (λ opts w.
        read_pages-world api.extract_servers (counted nova always (api.servers_list opts) w)
        ∙ counted_once nova always (api.servers_list opts) w),
    (λ id. counted_once nova unless_not_found (api.servers_delete id)),
    (λ name. counted_once nova unless_not_found (api.images_id_from_name name)),
    (λ name. counted_once nova unless_not_found (api.flavors_id_from_name name)),
  )

module _ {G P : Type 0} (api : NeutronApi G P) where
  -- Every call of the Neutron client makes one call of the API and counts it once as a request of
  -- Neutron. A call of the API that fails is counted as a failure, unless it updates or deletes a port and
  -- the error says that the port is not there.
  pub neutron_counts :
      ((id : String) → CountsOnce neutron always (api.subnets_get id) (Neutron.get_subnet api id))
      × ((opts : PortOpts)
          → CountsOnce neutron always (api.ports_create opts) (Neutron.create_port api opts))
      × ((opts : PortListOpts)
          → CountsOnce neutron always (api.ports_list opts) (Neutron.list_ports api opts))
      × ((id : String) (opts : PortUpdateOpts)
          → CountsOnce neutron unless_not_found
              (api.ports_update id opts)
              (Neutron.update_port api id opts))
      × ((id : String)
          → CountsOnce neutron unless_not_found (api.ports_delete id) (Neutron.delete_port api id))
      × ((name : String)
          → CountsOnce neutron always
              (api.networks_id_from_name name)
              (Neutron.network_id_from_name api name))
      × ((name : String)
          → CountsOnce neutron always
              (api.groups_id_from_name name)
              (Neutron.group_id_from_name api name))
      × ((name : String)
          → CountsOnce neutron always
              (api.ports_id_from_name name)
              (Neutron.port_id_from_name api name))
  unfolding Neutron.get_subnet Neutron.create_port Neutron.list_ports Neutron.update_port
      Neutron.delete_port Neutron.network_id_from_name Neutron.group_id_from_name
      Neutron.port_id_from_name
  neutron_counts = (
    (λ id. counted_once neutron always (api.subnets_get id)),
    (λ opts. counted_once neutron always (api.ports_create opts)),
    (λ opts w.
        read_pages-world api.extract_ports (counted neutron always (api.ports_list opts) w)
        ∙ counted_once neutron always (api.ports_list opts) w),
    (λ id opts. counted_once neutron unless_not_found (api.ports_update id opts)),
    (λ id. counted_once neutron unless_not_found (api.ports_delete id)),
    (λ name. counted_once neutron always (api.networks_id_from_name name)),
    (λ name. counted_once neutron always (api.groups_id_from_name name)),
    (λ name. counted_once neutron always (api.ports_id_from_name name)),
  )

-- The object was deleted, or it was not there.
abbrev pub IsGone : Answer (Unit {0}) → Type 0
IsGone r = (r ≡ answer tt) ⊎ ((e : Err) × (r ≡ failure e) × (is_not_found_error e ≡ true))

forgive_iff : (r : Answer (Unit {0})) → (forgive r ≡ answer tt) ↔ IsGone r
forgive_iff (answer tt) = (λ h. inl refl, λ h. refl)
forgive_iff (failure e) = (λ h. inr (e, refl, ground arith), λ h. ground arith)

pub settle_answer :
    {G A : Type 0} (label : Label) (counts : Err → Bool) (r : Answer A × G) (c : Counters)
    → (settle label counts r c).0 ≡ r.0
settle_answer label counts (answer a, g) c = refl
settle_answer label counts (failure e, g) c = refl

-- A deletion through either client succeeds exactly if the API deletes the object or answers that
-- it is not there.
pub delete-IsGone :
    {G P Q : Type 0} (compute : NovaApi G P) (network : NeutronApi G Q) (id : String)
    (w : Counted G)
    → (((Nova.delete_server compute id w).0 ≡ answer tt)
        ↔ IsGone (compute.servers_delete id w.api).0)
      × (((Neutron.delete_port network id w).0 ≡ answer tt)
          ↔ IsGone (network.ports_delete id w.api).0)
unfolding Nova.delete_server Neutron.delete_port counted
delete-IsGone compute network id w =
    let s = settle_answer nova unless_not_found (compute.servers_delete id w.api) w.counters in
    let p = settle_answer neutron unless_not_found (network.ports_delete id w.api) w.counters in
    let s' = forgive_iff (compute.servers_delete id w.api).0 in
    let p' = forgive_iff (network.ports_delete id w.api).0 in
    (
      (λ h. s'.0 (sym (ap forgive s) ∙ h), λ h. ap forgive s ∙ s'.1 h),
      (λ h. p'.0 (sym (ap forgive p) ∙ h), λ h. ap forgive p ∙ p'.1 h),
    )
