-- ===== src/Tests/StoreApi.antt =====
-- The theorems on whole operations over both clients, with an API that is a store of servers.
use machine_controller_manag.Base.{String, refl, List}
use machine_controller_manag.Action.{answer}
use machine_controller_manag.Cloud.{Server, Port}
use machine_controller_manag.Clients.Metrics.{Counted}
use machine_controller_manag.Clients.Nova.{NovaApi}
use machine_controller_manag.Clients.Neutron.{NeutronApi}
use machine_controller_manag.Clients.Respects.{over}
use machine_controller_manag.Clients.Growth.{Grown, operations-Grown}
use machine_controller_manag.Executor.Defs.{Executor, Poller, PollsInRounds, rounds}
use machine_controller_manag.Executor.Find.{get_machine_status, list_machines}
use machine_controller_manag.Executor.Delete.{delete_machine}
use machine_controller_manag.Executor.Create.{create_machine}
use machine_controller_manag.Tests.StoreCloud.{Store, compute, network, empty}
use machine_controller_manag.Tests.World.{configured, spec, refused, port}

abbrev nova_api : NovaApi Store (List Server)
nova_api = record {
  servers_create = compute.create_server;
  bootfromvolume_create = compute.boot_from_volume;
  servers_get = compute.get_server;
  servers_list = compute.list_servers;
  extract_servers = answer;
  servers_delete = compute.delete_server;
  images_id_from_name = compute.image_id_from_name;
  flavors_id_from_name = compute.flavor_id_from_name;
}

abbrev neutron_api : NeutronApi Store (List Port)
neutron_api = record {
  subnets_get = network.get_subnet;
  ports_create = network.create_port;
  ports_list = network.list_ports;
  extract_ports = answer;
  ports_update = λ id opts w. (answer port, w);
  ports_delete = network.delete_port;
  networks_id_from_name = network.network_id_from_name;
  groups_id_from_name = network.group_id_from_name;
  ports_id_from_name = network.port_id_from_name;
}

abbrev ex : Executor (Counted Store)
ex = over nova_api neutron_api (configured spec)

abbrev poller : Poller (Counted Store)
poller = record { poll = λ interval timeout. rounds refused 2; timed_out = refused }

polls : PollsInRounds poller
polls interval timeout cond w = (1, refl)

abbrev start : Counted Store
start = record {
  api = empty;
  counters = record {
    nova_requests = 1;
    nova_failures = 0;
    neutron_requests = 2;
    neutron_failures = 1;
  };
}

operations-Grown_example :
    ((name user_data : String)
      → Grown start.counters (create_machine ex poller name user_data start).1.counters)
    × ((name pid : String)
        → Grown start.counters (delete_machine ex poller name pid start).1.counters)
    × ((name : String) → Grown start.counters (get_machine_status ex name start).1.counters)
    × Grown start.counters (list_machines ex start).1.counters
operations-Grown_example =
    operations-Grown nova_api neutron_api (configured spec) poller polls start
