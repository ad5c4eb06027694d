-- ===== src/Executor/Deploy.antt =====
-- `deployServer` and `resourceInstanceBlockDevicesV2`: creating the server.
pub mod Laws
use machine_controller_manag.Base.{String, ◌==◌, true, none, some, List, [], ◌∷◌, if◌then◌else◌}
use machine_controller_manag.Base.Int.{ℤ, pos, is_positive}
use machine_controller_manag.Action.{Action, pure, call, map_error, ◌>>=◌}
use machine_controller_manag.Errors.{errorf_v}
use machine_controller_manag.Config.{MachineProviderConfigSpec}
use machine_controller_manag.Cloud.{
  Server, ServerNetwork, BlockDevice, CreateOpts, server_opts, keypairs_ext, scheduler_hints_ext,
  boot_from_volume_ext,
}
use machine_controller_manag.Executor.Defs.{Executor, spec_of}

-- It never fails.
unfoldable pub resource_instance_block_devices_v2 : ℤ → String → List BlockDevice
resource_instance_block_devices_v2 root_disk_size image_id =
    record {
      uuid = image_id;
      volume_size = root_disk_size;
      boot_index = pos 0;
      delete_on_termination = true;
      source_type = "image";
      destination_type = "volume";
    }
    ∷ []

-- the options, with a scheduler hint where a server group is set
unfoldable pub create_opts :
    MachineProviderConfigSpec → String → String → List ServerNetwork → String → String → CreateOpts
create_opts spec machine_name user_data nws image_ref flavor_ref =
    let base =
      keypairs_ext
        (server_opts (record {
          name = machine_name;
          flavor_ref = flavor_ref;
          image_ref = image_ref;
          networks = nws;
          security_groups = spec.security_groups;
          metadata = spec.tags;
          user_data = user_data;
          availability_zone = spec.availability_zone;
          config_drive = spec.use_config_drive;
        }))
        spec.key_name in
    elim spec.server_group_id [ none ↦ base | some group ↦ scheduler_hints_ext base group ]

module _ {W : Type 0} (ex : Executor W) where
  -- the image ID if it is set, else the ID that the image's name has
  unfoldable pub resolve_image : Action W String
  resolve_image =
      let spec = spec_of ex in
      if spec.image_id == ""
      then map_error
          (errorf_v "error resolving image ID from image name %q: %v" (spec.image_name ∷ []))
          (call (ex.compute.image_id_from_name spec.image_name))
      else pure spec.image_id

  -- If a root disk size is set, the server boots from a volume.
  unfoldable pub submit_server : CreateOpts → String → Action W Server
  submit_server opts image_ref =
      let size = (spec_of ex).root_disk_size in
      if is_positive size
      then call (
          ex.compute.boot_from_volume
            (boot_from_volume_ext opts (resource_instance_block_devices_v2 size image_ref)))
      else call (ex.compute.create_server opts)

  -- The error about the flavor names the image, as in the source.
  unfoldable pub resolve_flavor : Action W String
  resolve_flavor =
      map_error
        (errorf_v "error resolving flavor ID from flavor name %q: %v"
          ((spec_of ex).image_name ∷ []))
        (call (ex.compute.flavor_id_from_name (spec_of ex).flavor_name))

  unfoldable pub deploy_server : String → String → List ServerNetwork → Action W Server
  deploy_server machine_name user_data nws = do
    image_ref ← resolve_image
    flavor_ref ← resolve_flavor
    submit_server (create_opts (spec_of ex) machine_name user_data nws image_ref flavor_ref)
        image_ref
