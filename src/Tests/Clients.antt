-- ===== src/Tests/Clients.antt =====
-- The theorems on the clients, over an API that forgets and that fails.
use machine_controller_manag.Base.{String, ◌≡◌, ◌↔◌, none, some, List, [], ◌∷◌}
use machine_controller_manag.Action.{answer, failure}
use machine_controller_manag.Cloud.{
  Server, Port, CreateOpts, ServerListOpts, PortOpts, PortListOpts, PortUpdateOpts,
}
use machine_controller_manag.Clients.Metrics.{Counted, nova, neutron, always, unless_not_found}
use machine_controller_manag.Clients.Nova
use machine_controller_manag.Clients.Nova.{NovaApi}
use machine_controller_manag.Clients.Neutron
use machine_controller_manag.Clients.Neutron.{NeutronApi}
use machine_controller_manag.Clients.Factory.{client_factory, Libraries}
use machine_controller_manag.Clients.Laws.{CountsOnce, nova_counts, neutron_counts}
use machine_controller_manag.Clients.Respects.{over}
use machine_controller_manag.Executor.Defs.{Executor}
use machine_controller_manag.Driver.Requests.{new_executor}
use machine_controller_manag.Driver.Laws.Regions.{MadeFor, new_executor_regions}
use machine_controller_manag.Tests.World.{configured, spec, World, web, port, is_gone, refused}

abbrev nova_api : NovaApi World (List Server)
nova_api = record {
  servers_create = λ opts w. (answer web, some web);
  bootfromvolume_create = λ opts w. (failure refused, w);
  servers_get = λ id w. (failure is_gone, w);
  servers_list = λ opts w. (answer (web ∷ []), w);
  extract_servers = answer;
  servers_delete = λ id w. (failure is_gone, none);
  images_id_from_name = λ name w. (answer "i-1", w);
  flavors_id_from_name = λ name w. (failure refused, w);
}

abbrev neutron_api : NeutronApi World (List Port)
neutron_api = record {
  subnets_get = λ id w. (answer (record { id = id }), w);
  ports_create = λ opts w. (failure refused, w);
  ports_list = λ opts w. (answer (port ∷ []), w);
  extract_ports = answer;
  ports_update = λ id opts w. (failure is_gone, w);
  ports_delete = λ id w. (failure is_gone, w);
  networks_id_from_name = λ name w. (answer "n-1", w);
  groups_id_from_name = λ name w. (answer "g-1", w);
  ports_id_from_name = λ name w. (failure is_gone, w);
}

abbrev counted_world : Counted World
counted_world = record {
  api = some web;
  counters = record {
    nova_requests = 1;
    nova_failures = 0;
    neutron_requests = 2;
    neutron_failures = 1;
  };
}

abbrev pub library :
    Libraries World (List Server) (List Port) (Unit {0}) (Unit {0}) (Unit {0}) (Unit {0})
library = record {
  pool_of_pem = λ pem. tt;
  x509_key_pair = λ cert key. answer tt;
  auth_options = λ info. answer tt;
  new_client = λ auth. answer tt;
  set_transport = λ config provider. provider;
  authenticate = λ provider auth w. (answer provider, w);
  new_compute_v2 = λ provider opts. answer nova_api;
  new_network_v2 = λ provider opts. answer neutron_api;
}

nova_counts_example :
    ((opts : CreateOpts)
      → CountsOnce nova always (nova_api.servers_create opts) (Nova.create_server nova_api opts))
    × ((opts : CreateOpts)
        → CountsOnce nova always
            (nova_api.bootfromvolume_create opts)
            (Nova.boot_from_volume nova_api opts))
    × ((id : String)
        → CountsOnce nova unless_not_found (nova_api.servers_get id) (Nova.get_server nova_api id))
    × ((opts : ServerListOpts)
        → CountsOnce nova always (nova_api.servers_list opts) (Nova.list_servers nova_api opts))
    × ((id : String)
        → CountsOnce nova unless_not_found
            (nova_api.servers_delete id)
            (Nova.delete_server nova_api id))
    × ((name : String)
        → CountsOnce nova unless_not_found
            (nova_api.images_id_from_name name)
            (Nova.image_id_from_name nova_api name))
    × ((name : String)
        → CountsOnce nova unless_not_found
            (nova_api.flavors_id_from_name name)
            (Nova.flavor_id_from_name nova_api name))
nova_counts_example = nova_counts nova_api

neutron_counts_example :
    ((id : String)
      → CountsOnce neutron always (neutron_api.subnets_get id) (Neutron.get_subnet neutron_api id))
    × ((opts : PortOpts)
        → CountsOnce neutron always
            (neutron_api.ports_create opts)
            (Neutron.create_port neutron_api opts))
    × ((opts : PortListOpts)
        → CountsOnce neutron always
            (neutron_api.ports_list opts)
            (Neutron.list_ports neutron_api opts))
    × ((id : String) (opts : PortUpdateOpts)
        → CountsOnce neutron unless_not_found
            (neutron_api.ports_update id opts)
            (Neutron.update_port neutron_api id opts))
    × ((id : String)
        → CountsOnce neutron unless_not_found
            (neutron_api.ports_delete id)
            (Neutron.delete_port neutron_api id))
    × ((name : String)
        → CountsOnce neutron always
            (neutron_api.networks_id_from_name name)
            (Neutron.network_id_from_name neutron_api name))
    × ((name : String)
        → CountsOnce neutron always
            (neutron_api.groups_id_from_name name)
            (Neutron.group_id_from_name neutron_api name))
    × ((name : String)
        → CountsOnce neutron always
            (neutron_api.ports_id_from_name name)
            (Neutron.port_id_from_name neutron_api name))
neutron_counts_example = neutron_counts neutron_api

abbrev over_both : Executor (Counted World)
over_both = over nova_api neutron_api (configured spec)

new_executor_regions_example :
    (new_executor (client_factory library tt) (configured spec) ≡ answer over_both)
    ↔ MadeFor library tt (configured spec) over_both
new_executor_regions_example = new_executor_regions library tt (configured spec) over_both
