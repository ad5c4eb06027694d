-- ===== src/Driver/Conversion.antt =====
-- The conversions between the configuration of version v1alpha1 and the internal one
-- (pkg/apis/openstack/v1alpha1/zz_generated.conversion.go). The casts of pointers read a value of
-- one type as a value of the other type, which has the same fields.
pub mod Laws
use machine_controller_manag.Base.{List, [], ◌∷◌}
use machine_controller_manag.Config.{
  OpenStackNetwork, MachineProviderConfig, MachineProviderConfigSpec,
}
use machine_controller_manag.Driver.Migrate.{NetworkV1alpha1, SpecV1alpha1, ConfigV1alpha1}

unfoldable pub network_to_internal : NetworkV1alpha1 → OpenStackNetwork
network_to_internal network = record {
  id = network.id;
  name = network.name;
  pod_network = network.pod_network;
}

unfoldable pub network_to_v1alpha1 : OpenStackNetwork → NetworkV1alpha1
network_to_v1alpha1 network = record {
  id = network.id;
  name = network.name;
  pod_network = network.pod_network;
}

-- the cast of the slice of networks
unfoldable pub networks_to_internal : List NetworkV1alpha1 → List OpenStackNetwork
networks_to_internal [] = []
networks_to_internal (network ∷ networks) =
    network_to_internal network ∷ networks_to_internal networks

unfoldable pub networks_to_v1alpha1 : List OpenStackNetwork → List NetworkV1alpha1
networks_to_v1alpha1 [] = []
networks_to_v1alpha1 (network ∷ networks) =
    network_to_v1alpha1 network ∷ networks_to_v1alpha1 networks

unfoldable pub spec_to_internal : SpecV1alpha1 → MachineProviderConfigSpec
spec_to_internal spec = record {
  image_id = spec.image_id;
  image_name = spec.image_name;
  region = spec.region;
  availability_zone = spec.availability_zone;
  flavor_name = spec.flavor_name;
  key_name = spec.key_name;
  security_groups = spec.security_groups;
  tags = spec.tags;
  network_id = spec.network_id;
  subnet_id = spec.subnet_id;
  pod_network_cidr = spec.pod_network_cidr;
  root_disk_size = spec.root_disk_size;
  use_config_drive = spec.use_config_drive;
  server_group_id = spec.server_group_id;
  networks = networks_to_internal spec.networks;
}

unfoldable pub spec_to_v1alpha1 : MachineProviderConfigSpec → SpecV1alpha1
spec_to_v1alpha1 spec = record {
  image_id = spec.image_id;
  image_name = spec.image_name;
  region = spec.region;
  availability_zone = spec.availability_zone;
  flavor_name = spec.flavor_name;
  key_name = spec.key_name;
  security_groups = spec.security_groups;
  tags = spec.tags;
  network_id = spec.network_id;
  subnet_id = spec.subnet_id;
  pod_network_cidr = spec.pod_network_cidr;
  root_disk_size = spec.root_disk_size;
  use_config_drive = spec.use_config_drive;
  server_group_id = spec.server_group_id;
  networks = networks_to_v1alpha1 spec.networks;
}

-- Only the spec of `out` is written: its kind and version stay.
unfoldable pub config_to_internal : ConfigV1alpha1 → MachineProviderConfig → MachineProviderConfig
config_to_internal config out = record out { spec = spec_to_internal config.spec }

unfoldable pub config_to_v1alpha1 : MachineProviderConfig → ConfigV1alpha1 → ConfigV1alpha1
config_to_v1alpha1 config out = record out { spec = spec_to_v1alpha1 config.spec }
