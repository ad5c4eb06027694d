-- ===== src/Clients/Respects.antt =====
-- What the calls of the API respect, the calls of both clients respect.
use mathlib.Core.Path.{subst}
use machine_controller_manag.Base.{String, Bool, sym, if◌then◌else◌}
use machine_controller_manag.Action.{Service}
use machine_controller_manag.Action.Respects.{Preorder, Moves}
use machine_controller_manag.Errors.{Err}
use machine_controller_manag.Config.{MachineProviderConfig}
use machine_controller_manag.Cloud.{
  CreateOpts, ServerListOpts, PortOpts, PortListOpts, PortUpdateOpts,
}
use machine_controller_manag.Clients.Metrics.{
  Counters, Counted, Label, nova, neutron, always, unless_not_found, count_request, count_failure,
}
use machine_controller_manag.Clients.Nova
use machine_controller_manag.Clients.Nova.{NovaApi, nova_v2}
use machine_controller_manag.Clients.Neutron
use machine_controller_manag.Clients.Neutron.{NeutronApi, neutron_v2}
use machine_controller_manag.Clients.Laws.{CountsOnce, failed, nova_counts, neutron_counts}
use machine_controller_manag.Executor.Defs.{Executor}
use machine_controller_manag.Executor.Respects.Services.{Reads, Calls}

-- An executor over both clients.
abbrev pub over :
    {G P Q : Type 0} → NovaApi G P → NeutronApi G Q → MachineProviderConfig → Executor (Counted G)
over nova_api neutron_api config = record {
  compute = nova_v2 nova_api;
  network = neutron_v2 neutron_api;
  config = config;
}

-- The counters after one request.
abbrev pub tallied : Label → Bool → Counters → Counters
tallied label is_failure c =
    if is_failure then count_failure label (count_request label c) else count_request label c

-- A step of the API along `O`, with the request counted, is a step along `O'`.
abbrev pub Lifts : {G : Type 0} → Preorder G → Preorder (Counted G) → Type 0
Lifts {G} O O' =
    (label : Label) (is_failure : Bool) (v : Counted G) (g : G)
    → O.relates v.api g
    → O'.relates v (record { api = g; counters = tallied label is_failure v.counters })

module _ {G P Q : Type 0} (O : Preorder G) (nova_api : NovaApi G P)
    (neutron_api : NeutronApi G Q) where
  -- All calls but those that create or delete servers.
  pub record ApiReads : Type 0 where
    pub servers_get : (id : String) → Moves O (nova_api.servers_get id)
    pub servers_list : (opts : ServerListOpts) → Moves O (nova_api.servers_list opts)
    pub images_id_from_name : (name : String) → Moves O (nova_api.images_id_from_name name)
    pub flavors_id_from_name : (name : String) → Moves O (nova_api.flavors_id_from_name name)
    pub subnets_get : (id : String) → Moves O (neutron_api.subnets_get id)
    pub ports_create : (opts : PortOpts) → Moves O (neutron_api.ports_create opts)
    pub ports_list : (opts : PortListOpts) → Moves O (neutron_api.ports_list opts)
    pub ports_update :
        (id : String) (opts : PortUpdateOpts) → Moves O (neutron_api.ports_update id opts)
    pub ports_delete : (id : String) → Moves O (neutron_api.ports_delete id)
    pub networks_id_from_name : (name : String) → Moves O (neutron_api.networks_id_from_name name)
    pub groups_id_from_name : (name : String) → Moves O (neutron_api.groups_id_from_name name)
    pub ports_id_from_name : (name : String) → Moves O (neutron_api.ports_id_from_name name)

  pub record ApiCalls : Type 0 where
    pub reads : ApiReads
    pub servers_create : (opts : CreateOpts) → Moves O (nova_api.servers_create opts)
    pub bootfromvolume_create : (opts : CreateOpts) → Moves O (nova_api.bootfromvolume_create opts)
    pub servers_delete : (id : String) → Moves O (nova_api.servers_delete id)

module _ {G : Type 0} (O : Preorder G) (O' : Preorder (Counted G)) (lifts : Lifts O O') where
  -- A call that makes one call of the API, and counts it, moves along `O'`.
  pub once-Moves :
      {A B : Type 0} (label : Label) (counts : Err → Bool) (raw : Service G A)
      (op : Service (Counted G) B)
      → CountsOnce label counts raw op
      → Moves O raw
      → Moves O' op
  once-Moves label counts raw op once moves w =
      subst (O'.relates w) (sym (once w))
        (lifts label (failed counts (raw w.api).0) w (raw w.api).1 (moves w.api))

  module _ {P Q : Type 0} (nova_api : NovaApi G P) (neutron_api : NeutronApi G Q)
      (config : MachineProviderConfig) where
    pub clients-Reads :
        ApiReads O nova_api neutron_api → Reads O' (over nova_api neutron_api config)
    unfolding nova_v2 neutron_v2
    clients-Reads api =
        let (create, boot, get, list, delete, image, flavor) = nova_counts nova_api in
        let (subnet, port, ports, update, remove, net, group, port_id) =
          neutron_counts neutron_api in
        record {
          get_server = λ id.
              once-Moves nova unless_not_found (nova_api.servers_get id)
                (Nova.get_server nova_api id) (get id) (api.servers_get id);
          list_servers = λ opts.
              once-Moves nova always (nova_api.servers_list opts) (Nova.list_servers nova_api opts)
                (list opts) (api.servers_list opts);
          image_id_from_name = λ name.
              once-Moves nova unless_not_found (nova_api.images_id_from_name name)
                (Nova.image_id_from_name nova_api name) (image name) (api.images_id_from_name name);
          flavor_id_from_name = λ name.
              once-Moves nova unless_not_found (nova_api.flavors_id_from_name name)
                (Nova.flavor_id_from_name nova_api name) (flavor name)
                (api.flavors_id_from_name name);
          get_subnet = λ id.
              once-Moves neutron always (neutron_api.subnets_get id)
                (Neutron.get_subnet neutron_api id) (subnet id) (api.subnets_get id);
          create_port = λ opts.
              once-Moves neutron always (neutron_api.ports_create opts)
                (Neutron.create_port neutron_api opts) (port opts) (api.ports_create opts);
          list_ports = λ opts.
              once-Moves neutron always (neutron_api.ports_list opts)
                (Neutron.list_ports neutron_api opts) (ports opts) (api.ports_list opts);
          update_port = λ id opts.
              once-Moves neutron unless_not_found (neutron_api.ports_update id opts)
                (Neutron.update_port neutron_api id opts) (update id opts)
                (api.ports_update id opts);
          delete_port = λ id.
              once-Moves neutron unless_not_found (neutron_api.ports_delete id)
                (Neutron.delete_port neutron_api id) (remove id) (api.ports_delete id);
          network_id_from_name = λ name.
              once-Moves neutron always (neutron_api.networks_id_from_name name)
                (Neutron.network_id_from_name neutron_api name) (net name)
                (api.networks_id_from_name name);
          group_id_from_name = λ name.
              once-Moves neutron always (neutron_api.groups_id_from_name name)
                (Neutron.group_id_from_name neutron_api name) (group name)
                (api.groups_id_from_name name);
          port_id_from_name = λ name.
              once-Moves neutron always (neutron_api.ports_id_from_name name)
                (Neutron.port_id_from_name neutron_api name) (port_id name)
                (api.ports_id_from_name name);
        }

    pub clients-Calls :
        ApiCalls O nova_api neutron_api → Calls O' (over nova_api neutron_api config)
    unfolding nova_v2 neutron_v2
    clients-Calls api =
        let (create, boot, get, list, delete, image, flavor) = nova_counts nova_api in
        record {
          reads = clients-Reads api.reads;
          create_server = λ opts.
              once-Moves nova always (nova_api.servers_create opts)
                (Nova.create_server nova_api opts) (create opts) (api.servers_create opts);
          boot_from_volume = λ opts.
              once-Moves nova always (nova_api.bootfromvolume_create opts)
                (Nova.boot_from_volume nova_api opts) (boot opts) (api.bootfromvolume_create opts);
          delete_server = λ id.
              once-Moves nova unless_not_found (nova_api.servers_delete id)
                (Nova.delete_server nova_api id) (delete id) (api.servers_delete id);
        }
