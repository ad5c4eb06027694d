-- ===== src/Clients/Nova.antt =====
-- pkg/openstack/nova.go: `novaV2` over the calls of gophercloud.
use machine_controller_manag.Base.{String, List}
use machine_controller_manag.Action.{Answer, Service}
use machine_controller_manag.Cloud.{Compute, CreateOpts, Server, ServerListOpts}
use machine_controller_manag.Clients.Metrics.{
  Counted, nova, always, unless_not_found, counted, forgive, read_pages,
}

-- The calls of gophercloud that the client makes on its service client; `P` holds the pages of a
-- listing.
pub record NovaApi (G P : Type 0) : Type 0 where
  pub servers_create : CreateOpts → Service G Server
  pub bootfromvolume_create : CreateOpts → Service G Server
  pub servers_get : String → Service G Server
  pub servers_list : ServerListOpts → Service G P
  pub extract_servers : P → Answer (List Server)
  pub servers_delete : String → Service G (Unit {0})
  pub images_id_from_name : String → Service G String
  pub flavors_id_from_name : String → Service G String

module _ {G P : Type 0} (api : NovaApi G P) where
  unfoldable pub create_server : CreateOpts → Service (Counted G) Server
  create_server opts = counted nova always (api.servers_create opts)

  unfoldable pub boot_from_volume : CreateOpts → Service (Counted G) Server
  boot_from_volume opts = counted nova always (api.bootfromvolume_create opts)

  unfoldable pub get_server : String → Service (Counted G) Server
  get_server id = counted nova unless_not_found (api.servers_get id)

  unfoldable pub list_servers : ServerListOpts → Service (Counted G) (List Server)
  list_servers opts w =
      read_pages api.extract_servers (counted nova always (api.servers_list opts) w)

  -- A server that is not there counts as deleted.
  unfoldable pub delete_server : String → Service (Counted G) (Unit {0})
  delete_server id w =
      let (r, w') = counted nova unless_not_found (api.servers_delete id) w in (forgive r, w')

  unfoldable pub image_id_from_name : String → Service (Counted G) String
  image_id_from_name name = counted nova unless_not_found (api.images_id_from_name name)

  unfoldable pub flavor_id_from_name : String → Service (Counted G) String
  flavor_id_from_name name = counted nova unless_not_found (api.flavors_id_from_name name)

  -- `novaV2` as a `Compute`.
  unfoldable pub nova_v2 : Compute (Counted G)
  nova_v2 = record {
    create_server = create_server;
    boot_from_volume = boot_from_volume;
    get_server = get_server;
    list_servers = list_servers;
    delete_server = delete_server;
    flavor_id_from_name = flavor_id_from_name;
    image_id_from_name = image_id_from_name;
  }
