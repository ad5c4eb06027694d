-- ===== src/Clients/Neutron.antt =====
-- pkg/openstack/neutron.go: `neutronV2` over the calls of gophercloud.
use machine_controller_manag.Base.{String, List}
use machine_controller_manag.Action.{Answer, answer, failure, Service}
use machine_controller_manag.Cloud.{Network, Subnet, Port, PortOpts, PortListOpts, PortUpdateOpts}
use machine_controller_manag.Clients.Metrics.{
  Counted, neutron, always, unless_not_found, counted, forgive, read_pages,
}

-- The calls of gophercloud that the client makes on its service client.
pub record NeutronApi (G P : Type 0) : Type 0 where
  pub subnets_get : String → Service G Subnet
  pub ports_create : PortOpts → Service G Port
  pub ports_list : PortListOpts → Service G P
  pub extract_ports : P → Answer (List Port)
  pub ports_update : String → PortUpdateOpts → Service G Port
  pub ports_delete : String → Service G (Unit {0})
  pub networks_id_from_name : String → Service G String
  pub groups_id_from_name : String → Service G String
  pub ports_id_from_name : String → Service G String

abbrev pub forget : {A : Type 0} → Answer A → Answer (Unit {0})
forget (answer a) = answer tt
forget (failure e) = failure e

module _ {G P : Type 0} (api : NeutronApi G P) where
  unfoldable pub get_subnet : String → Service (Counted G) Subnet
  get_subnet id = counted neutron always (api.subnets_get id)

  unfoldable pub create_port : PortOpts → Service (Counted G) Port
  create_port opts = counted neutron always (api.ports_create opts)

  unfoldable pub list_ports : PortListOpts → Service (Counted G) (List Port)
  list_ports opts w = read_pages api.extract_ports (counted neutron always (api.ports_list opts) w)

  -- The port that comes back is dropped.
  unfoldable pub update_port : String → PortUpdateOpts → Service (Counted G) (Unit {0})
  update_port id opts w =
      let (r, w') = counted neutron unless_not_found (api.ports_update id opts) w in (forget r, w')

  -- A port that is not there counts as deleted.
  unfoldable pub delete_port : String → Service (Counted G) (Unit {0})
  delete_port id w =
      let (r, w') = counted neutron unless_not_found (api.ports_delete id) w in (forgive r, w')

  unfoldable pub network_id_from_name : String → Service (Counted G) String
  network_id_from_name name = counted neutron always (api.networks_id_from_name name)

  unfoldable pub group_id_from_name : String → Service (Counted G) String
  group_id_from_name name = counted neutron always (api.groups_id_from_name name)

  unfoldable pub port_id_from_name : String → Service (Counted G) String
  port_id_from_name name = counted neutron always (api.ports_id_from_name name)

  -- `neutronV2` as a `Network`.
  unfoldable pub neutron_v2 : Network (Counted G)
  neutron_v2 = record {
    get_subnet = get_subnet;
    create_port = create_port;
    list_ports = list_ports;
    update_port = update_port;
    delete_port = delete_port;
    network_id_from_name = network_id_from_name;
    group_id_from_name = group_id_from_name;
    port_id_from_name = port_id_from_name;
  }
