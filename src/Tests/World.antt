-- ===== src/Tests/World.antt =====
-- A cloud that holds at most one server, a configuration, a secret and a driver.
use machine_controller_manag.Base.{
  String, ◌==◌, ◌≡◌, ◌≢◌, refl, arith, true, false, Option, none, some, List, [], ◌∷◌,
}
use machine_controller_manag.Base.Int.{pos}
use machine_controller_manag.Base.Dict.{Dict}
use machine_controller_manag.Action.{Answer, answer, failure}
use machine_controller_manag.Errors.{Err, foreign, errorf}
use machine_controller_manag.Config.{
  OpenStackNetwork, MachineProviderConfig, MachineProviderConfigSpec,
}
use machine_controller_manag.Cloud.{Server, Port, Compute, Network, status_active}
use machine_controller_manag.Executor.Defs.{Executor, Poller, rounds, PollsInRounds}
use machine_controller_manag.Secret.{Secret}
use machine_controller_manag.Clients.Factory.{Factory}
use machine_controller_manag.Validation.{FieldError}
use machine_controller_manag.Driver.Defs.{OpenstackDriver, Machine}
use machine_controller_manag.Driver.Laws.{Aggregates}

-- The server of the cloud, if there is one.
abbrev pub World : Type 0
World = Option Server

abbrev pub tags : Dict String
tags = ("kubernetes.io-cluster-c", "1") ∷ ("kubernetes.io-role-node", "1") ∷ []

abbrev pub web : Server
web = record { id = "s-1"; name = "web"; status = status_active; metadata = tags; fault = "" }

abbrev pub port : Port
port = record { id = "p-1"; network_id = "n-1" }

abbrev pub is_gone : Err
is_gone = foreign (record {
  is_default_404 = true;
  is_404er = false;
  is_resource_not_found = false;
  text = "gone";
})

abbrev pub refused : Err
refused = errorf "refused" []

abbrev look_up : Option Server → Answer Server × World
look_up none = (failure is_gone, none)
look_up (some server) = (answer server, some server)

abbrev listing : Option Server → Answer (List Server) × World
listing none = (answer [], none)
listing (some server) = (answer (server ∷ []), some server)

abbrev pub compute : Compute World
compute = record {
  create_server = λ opts w. (answer web, some web);
  boot_from_volume = λ opts w. (answer web, some web);
  get_server = λ id. look_up;
  list_servers = λ opts. listing;
  delete_server = λ id w. (answer tt, none);
  flavor_id_from_name = λ name w. (answer "f-1", w);
  image_id_from_name = λ name w. (answer "i-1", w);
}

abbrev pub network : Network World
network = record {
  get_subnet = λ id w. (answer (record { id = id }), w);
  create_port = λ opts w. (answer port, w);
  list_ports = λ opts w. (answer (port ∷ []), w);
  update_port = λ id opts w. (answer tt, w);
  delete_port = λ id w. (answer tt, w);
  network_id_from_name = λ name w. (answer "n-1", w);
  group_id_from_name = λ name w. (answer "g-1", w);
  port_id_from_name = λ name w. (answer "p-1", w);
}

-- A cloud that takes no request to make a server.
abbrev pub full : Compute World
full = record compute { boot_from_volume = λ opts w. (failure refused, w) }

-- A cloud that takes no request to delete a server.
abbrev pub stuck : Compute World
stuck = record compute { delete_server = λ id w. (failure refused, w) }

abbrev pub spec : MachineProviderConfigSpec
spec = record {
  image_id = "";
  image_name = "linux";
  region = "eu";
  availability_zone = "a";
  flavor_name = "small";
  key_name = "ssh";
  security_groups = "default" ∷ [];
  tags = tags;
  network_id = "n-1";
  subnet_id = some "sub";
  pod_network_cidr = "10.0.0.0/8";
  root_disk_size = pos 20;
  use_config_drive = none;
  server_group_id = none;
  networks = [];
}

abbrev pub configured : MachineProviderConfigSpec → MachineProviderConfig
configured s = record {
  type_meta = record { kind = "MachineProviderConfig"; api_version = "v1" };
  spec = s;
}

abbrev pub ex : Executor World
ex = record { compute = compute; network = network; config = configured spec }

abbrev pub ex_full : Executor World
ex_full = record { compute = full; network = network; config = configured spec }

abbrev pub ex_stuck : Executor World
ex_stuck = record { compute = stuck; network = network; config = configured spec }

-- Networks by name, or by ID.
abbrev pub listed : List OpenStackNetwork → MachineProviderConfigSpec
listed networks = record spec { network_id = ""; networks = networks }

abbrev pub by_name : List OpenStackNetwork
by_name = record { id = ""; name = "net"; pod_network = true } ∷ []

abbrev pub by_id : List OpenStackNetwork
by_id = record { id = "n-1"; name = ""; pod_network = true } ∷ []

abbrev pub ex_listed : List OpenStackNetwork → Executor World
ex_listed networks = record {
  compute = compute;
  network = network;
  config = configured (listed networks);
}

abbrev pub ex_untagged : Executor World
ex_untagged = record {
  compute = compute;
  network = network;
  config = configured (record spec { tags = [] });
}

abbrev pub poller : Poller World
poller = record { poll = λ interval timeout. rounds refused 2; timed_out = refused }

pub polls : PollsInRounds poller
polls interval timeout cond w = (1, refl)

abbrev pub secret : Secret
secret = record {
  data_map = some (
      ("authURL", "https://cloud")
      ∷ ("username", "user")
      ∷ ("password", "word")
      ∷ ("domainName", "domain")
      ∷ ("tenantName", "tenant")
      ∷ ("insecure", "true")
      ∷ ("userData", "start")
      ∷ []);
}

abbrev pub factory : Factory World
factory = record { compute = λ opts. answer compute; network = λ opts. answer network }

abbrev pub aggregate : List FieldError → Option Err
aggregate [] = none
aggregate (_ ∷ _) = some refused

-- The provider spec of a machine class is given by the configuration that it decodes to.
abbrev pub driver : OpenstackDriver World MachineProviderConfig
driver = record {
  marshal_json = λ raw. answer "";
  decode = λ json. answer (configured spec);
  client_constructor = λ secret w. (answer factory, w);
  to_aggregate = aggregate;
  poller = poller;
}

pub aggregates : Aggregates driver
aggregates [] = (λ h. refl, λ h. refl)
aggregates (e ∷ errs) = (λ h. cc, λ h. cc)

abbrev pub machine : Machine
machine = record { name = "web"; provider_id = "" }

-- Texts differ if the test says so.
pub differ : (s t : String) → (s == t) ≡ false → s ≢ t
differ s t h e = ground arith
