-- ===== src/Executor/Deploy/Laws.antt =====
-- Which server is asked for, read off the request whatever the order of its extensions is.
use machine_controller_manag.Base.{
  String, true, ◌≡◌, ◌≢◌, ◌==◌, Option, some, none, List, [], ◌∷◌, if◌then◌else◌, arith, Bool-cases,
  inl, inr,
}
use machine_controller_manag.Base.Int.{pos, is_positive}
use machine_controller_manag.Action.{Action, answer, ok, call, ◌>>=◌}
use machine_controller_manag.Action.Laws.{bind_ok, call_ok, map_error_ok}
use machine_controller_manag.Cloud.{
  Server, ServerOpts, ServerNetwork, BlockDevice, CreateOpts, server_opts, keypairs_ext,
  scheduler_hints_ext, boot_from_volume_ext,
}
use machine_controller_manag.Executor.Defs.{Executor, spec_of}
use machine_controller_manag.Executor.Deploy.{
  resource_instance_block_devices_v2, create_opts, resolve_image, resolve_flavor, submit_server,
  deploy_server,
}

-- What a request says to the cloud.
pub record Request : Type 0 where
  pub server : ServerOpts
  pub key : Option String
  pub group : Option String
  pub devices : List BlockDevice

abbrev pub read_request : CreateOpts → Request
read_request (server_opts o) = record { server = o; key = none; group = none; devices = [] }
read_request (keypairs_ext o key) = record (read_request o) { key = some key }
read_request (scheduler_hints_ext o group) = record (read_request o) { group = some group }
read_request (boot_from_volume_ext o devices) = record (read_request o) { devices = devices }

module _ {W : Type 0} (ex : Executor W) where
  -- Between `v` and `w` the image was found: it is the ID of the spec if that is set, and else
  -- the cloud's ID for the name of the spec.
  pub data Image (v : W) (image : String) (w : W) : Type 0 where
    by_id : (spec_of ex).image_id ≢ "" → image ≡ (spec_of ex).image_id → v ≡ w → Image v image w
    by_name :
        (spec_of ex).image_id ≡ ""
        → ex.compute.image_id_from_name (spec_of ex).image_name v ≡ (answer image, w)
        → Image v image w

  -- The root volume, where a root disk size is set.
  abbrev pub root_volume : String → List BlockDevice
  root_volume image =
      if is_positive (spec_of ex).root_disk_size
      then record {
        uuid = image;
        volume_size = (spec_of ex).root_disk_size;
        boot_index = pos 0;
        delete_on_termination = true;
        source_type = "image";
        destination_type = "volume";
      }
        ∷ []
      else []

  abbrev pub wanted : String → String → List ServerNetwork → String → String → Request
  wanted name user_data nws image flavor = record {
    server = record {
      name = name;
      flavor_ref = flavor;
      image_ref = image;
      networks = nws;
      security_groups = (spec_of ex).security_groups;
      metadata = (spec_of ex).tags;
      user_data = user_data;
      availability_zone = (spec_of ex).availability_zone;
      config_drive = (spec_of ex).use_config_drive;
    };
    key = some (spec_of ex).key_name;
    group = (spec_of ex).server_group_id;
    devices = root_volume image;
  }

  -- The request was sent: to boot from a volume where a root disk size is set, and else to create
  -- a server.
  abbrev pub Sent : CreateOpts → W → Server → W → Type 0
  Sent opts v server w =
      (if is_positive (spec_of ex).root_disk_size
        then ex.compute.boot_from_volume opts v
        else ex.compute.create_server opts v)
      ≡ (answer server, w)

  resolve_image-ok :
      (v w : W) (image : String) → resolve_image ex v ≡ (ok image, w) → Image v image w
  unfolding resolve_image
  resolve_image-ok v w image h = elim (Bool-cases ((spec_of ex).image_id == "")) [
    | inl unset ↦ by_name (ground arith) (
        call_ok (ex.compute.image_id_from_name (spec_of ex).image_name) v (
          map_error_ok _ (call (ex.compute.image_id_from_name (spec_of ex).image_name)) v
            (rw unset at h)))
    | inr set ↦ by_id (ground arith) (ground arith) (ground arith)
  ]

  submit_server-ok :
      (name user_data : String) (nws : List ServerNetwork) (image flavor : String) (v w : W)
      (server : Server)
      → submit_server ex (create_opts (spec_of ex) name user_data nws image flavor) image v
        ≡ (ok server, w)
      → (opts : CreateOpts) × (read_request opts ≡ wanted name user_data nws image flavor)
        × Sent opts v server w
  unfolding submit_server create_opts resource_instance_block_devices_v2
  submit_server-ok name user_data nws image flavor v w server h =
      elim (Bool-cases (is_positive (spec_of ex).root_disk_size)) [
        | inl sized ↦
            let opts =
              boot_from_volume_ext (create_opts (spec_of ex) name user_data nws image flavor)
                (resource_instance_block_devices_v2 (spec_of ex).root_disk_size image) in
            (
              opts,
              ground arith,
              rw sized (call_ok (ex.compute.boot_from_volume opts) v (rw sized at h)),
            )
        | inr unsized ↦
            let opts = create_opts (spec_of ex) name user_data nws image flavor in
            (
              opts,
              ground arith,
              rw unsized (call_ok (ex.compute.create_server opts) v (rw unsized at h)),
            )
      ]

  -- A deployment that succeeds has found the image and the flavor, and has sent one request, which
  -- says all that the configuration says: the options of the server, the key, the server group if
  -- there is one, and a root volume made from the image exactly if a root disk size is set.
  pub deploy_server-ok :
      (name user_data : String) (nws : List ServerNetwork) (v w : W) (server : Server)
      → deploy_server ex name user_data nws v ≡ (ok server, w)
      → (image flavor : String) × (imaged flavored : W) × (opts : CreateOpts) × Image v image imaged
        × (ex.compute.flavor_id_from_name (spec_of ex).flavor_name imaged
            ≡ (answer flavor, flavored))
        × (read_request opts ≡ wanted name user_data nws image flavor)
        × Sent opts flavored server w
  unfolding deploy_server resolve_flavor
  deploy_server-ok name user_data nws v w server h =
      let submit : String → String → Action W Server = λ image flavor.
        submit_server ex (create_opts (spec_of ex) name user_data nws image flavor) image in
      let (image, imaged, e, rest) =
        bind_ok (resolve_image ex) (λ image. resolve_flavor ex >>= submit image) v h in
      let (flavor, flavored, e', rest') = bind_ok (resolve_flavor ex) (submit image) imaged rest in
      let (opts, wants, sent) =
        submit_server-ok name user_data nws image flavor flavored w server rest' in
      (
        image,
        flavor,
        imaged,
        flavored,
        opts,
        resolve_image-ok v imaged image e,
        call_ok (ex.compute.flavor_id_from_name (spec_of ex).flavor_name) imaged (
            map_error_ok _ (call (ex.compute.flavor_id_from_name (spec_of ex).flavor_name)) imaged
              e'),
        wants,
        sent,
      )
