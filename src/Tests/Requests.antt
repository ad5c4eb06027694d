-- ===== src/Tests/Requests.antt =====
-- The theorems on the requests of the driver, at the small cloud.
use machine_controller_manag.Base.{
  String, ◌≡◌, ◌≢◌, ◌↔◌, ◌<◌, refl, true, none, some, List, [], ◌∷◌, length,
}
use machine_controller_manag.Action.{answer}
use machine_controller_manag.Errors.{Err}
use machine_controller_manag.Executor.Utils.{encode_provider_id}
use machine_controller_manag.Executor.Find.Name.{matches}
use machine_controller_manag.Driver.Defs.{
  internal, not_found, out_of_range, response, status, crashed,
}
use machine_controller_manag.Driver.Requests.{
  new_executor, decode_provider_spec, create_machine_request, delete_machine_request,
  get_machine_status_request, list_machines_request,
}
use machine_controller_manag.Driver.Laws.Crashes.{
  requests-ne-crashed, IsAccepted, Refused, requests-Refused,
}
use machine_controller_manag.Driver.Laws.Codes.{EndsWith, get_machine_status_codes}
use machine_controller_manag.Driver.Volumes.{VolumeSpec, get_volume_ids}
use machine_controller_manag.Driver.Volumes.Exact.{Yields, get_volume_ids-Yields}
use machine_controller_manag.Driver.Migrate.{
  OpenStackMachineClass, MachineClass, generate_machine_class_for_migration,
}
use machine_controller_manag.Driver.Migrate.Laws.{Migrated, migration_outcomes}
use machine_controller_manag.Tests.Checks.{IsValidRequest_example}
use machine_controller_manag.Validation.{validate_machine_provider_config}
use machine_controller_manag.Driver.Migrate.{migrated_config}
use machine_controller_manag.Driver.Conversion.{config_to_internal}
use machine_controller_manag.Driver.Conversion.Laws.{IsValidClass, migrated_class_accepted}
use machine_controller_manag.Tests.World.{
  web, tags, spec, configured, ex, factory, secret, driver, aggregates, polls, machine,
}

requests-ne-crashed_example :
    ((create_machine_request driver (configured spec) secret machine none).0 ≢ crashed)
    × ((delete_machine_request driver (configured spec) secret machine none).0 ≢ crashed)
    × ((get_machine_status_request driver (configured spec) secret machine none).0 ≢ crashed)
    × ((list_machines_request driver (configured spec) secret none).0 ≢ crashed)
requests-ne-crashed_example =
    requests-ne-crashed driver aggregates (configured spec) secret machine none polls

requests-Refused_example :
    let accepted = IsAccepted driver aggregates (configured spec) secret machine none in
    (Refused driver aggregates
        (configured spec)
        secret
        machine
        none
        (create_machine_request driver (configured spec) secret machine none)
      ↔ ¬ accepted)
    × (Refused driver aggregates
          (configured spec)
          secret
          machine
          none
          (delete_machine_request driver (configured spec) secret machine none)
        ↔ ¬ accepted)
    × (Refused driver aggregates
          (configured spec)
          secret
          machine
          none
          (get_machine_status_request driver (configured spec) secret machine none)
        ↔ ¬ accepted)
    × (Refused driver aggregates
          (configured spec)
          secret
          machine
          none
          (list_machines_request driver (configured spec) secret none)
        ↔ ¬ accepted)
requests-Refused_example = requests-Refused driver aggregates (configured spec) secret machine none

pub decode_run : decode_provider_spec driver (configured spec) ≡ answer (configured spec)
unfolding decode_provider_spec
decode_run = refl

pub new_executor_run : new_executor factory (configured spec) ≡ answer ex
unfolding new_executor
new_executor_run = refl

get_machine_status_codes_example :
    let r = (get_machine_status_request driver (configured spec) secret machine (some web)).0 in
    (EndsWith r not_found ↔ (matches ex "web" (web ∷ []) ≡ []))
    × (EndsWith r out_of_range ↔ (1 < length (matches ex "web" (web ∷ []))))
    × (matches ex "web" (web ∷ []) ≡ web ∷ []
        → r ≡ response (record { provider_id = encode_provider_id "eu" "s-1"; node_name = "web" }))
get_machine_status_codes_example =
    get_machine_status_codes driver aggregates (configured spec) secret machine (some web)
      (some web) (some web) (configured spec) factory ex (web ∷ []) web decode_run
      IsValidRequest_example refl new_executor_run refl

abbrev volumes : List VolumeSpec
volumes =
    record { cinder = some "v-1"; csi = none }
    ∷ record {
      cinder = none;
      csi = some (record { driver = "cinder.csi.openstack.org"; volume_handle = "v-2" });
    }
    ∷ record { cinder = none; csi = some (record { driver = "other"; volume_handle = "v-3" }) }
    ∷ []

get_volume_ids-Yields_example : Yields volumes (get_volume_ids volumes)
get_volume_ids-Yields_example = get_volume_ids-Yields volumes

abbrev old_class : OpenStackMachineClass
old_class = record {
  name = "class";
  labels = [];
  annotations = [];
  finalizers = [];
  spec = record {
    image_id = "";
    image_name = "linux";
    region = "eu";
    availability_zone = "a";
    flavor_name = "small";
    key_name = "ssh";
    security_groups = [];
    tags = tags;
    network_id = "";
    subnet_id = none;
    pod_network_cidr = "10.0.0.0/8";
    root_disk_size = spec.root_disk_size;
    use_config_drive = none;
    server_group_id = none;
    networks = record { id = ""; name = "net"; pod_network = true } ∷ [];
    secret_ref = none;
    credentials_secret_ref = none;
  };
}

abbrev new_class : MachineClass
new_class = record {
  name = "";
  labels = [];
  annotations = [];
  finalizers = [];
  provider_spec = none;
  secret_ref = none;
  credentials_secret_ref = none;
  provider = "";
}

migration_outcomes_example :
    let (r, after) =
      generate_machine_class_for_migration "OpenStackMachineClass" (some old_class) new_class in
    ((r ≡ response tt) ↔ (
      (◌≡◌ {A = String} "OpenStackMachineClass" "OpenStackMachineClass") × (some old_class ≢ none)))
    × ((os : OpenStackMachineClass)
        → r ≡ response tt
        → some old_class ≡ some os
        → Migrated os after)
    × (((e : Err) × (r ≡ status internal e))
        ↔ (◌≢◌ {A = String} "OpenStackMachineClass" "OpenStackMachineClass"))
    × ((r ≡ crashed) ↔ (
        (◌≡◌ {A = String} "OpenStackMachineClass" "OpenStackMachineClass")
        × (some old_class ≡ none)))
    × (r ≢ response tt → after ≡ new_class)
migration_outcomes_example = migration_outcomes "OpenStackMachineClass" (some old_class) new_class

migrated_class_accepted_example :
    (validate_machine_provider_config
        (config_to_internal (migrated_config old_class.spec) (configured spec))
      ≡ [])
    ↔ IsValidClass old_class.spec
migrated_class_accepted_example = migrated_class_accepted old_class.spec (configured spec)
