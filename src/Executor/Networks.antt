-- ===== src/Executor/Networks.antt =====
-- `resolveServerNetworks`: the networks that a server joins, and which of them carry pods.
pub mod Laws
pub mod Existing
use machine_controller_manag.Base.{String, some, List, [], ◌∷◌, ◌++◌, if◌then◌else◌}
use machine_controller_manag.Action.{Action, pure, call, deref, ◌>>=◌, ◌>>◌}
use machine_controller_manag.Config.{OpenStackNetwork}
use machine_controller_manag.Cloud.{ServerNetwork, PortOpts}
use machine_controller_manag.Executor.Defs.{Executor, spec_of}
use machine_controller_manag.Executor.Utils.{is_empty_string, str_slice_contains}

-- `m[id] = struct{}{}` on a map that is used as a set.
unfoldable pub add_id : String → List String → List String
add_id id ids = if str_slice_contains ids id then ids else ids ++ (id ∷ [])

module _ {W : Type 0} (ex : Executor W) where
  -- the loop over the security groups
  unfoldable pub resolve_groups : List String → Action W (List String)
  resolve_groups [] = pure []
  resolve_groups (group ∷ groups) = do
    id ← call (ex.network.group_id_from_name group)
    ids ← resolve_groups groups
    pure (id ∷ ids)

  unfoldable pub port_opts : String → String → List String → PortOpts
  port_opts machine_name subnet_id ids = record {
    name = machine_name;
    network_id = (spec_of ex).network_id;
    fixed_ips = subnet_id ∷ [];
    allowed_address_pairs = (spec_of ex).pod_network_cidr ∷ [];
    security_groups = ids;
  }

  -- a port is created first, so that the server gets its address from the subnet
  unfoldable pub preallocate : String → String → Action W (List ServerNetwork × List String)
  preallocate machine_name subnet_id = do
    call (ex.network.get_subnet subnet_id)
    ids ← resolve_groups (spec_of ex).security_groups
    port ← call (ex.network.create_port (port_opts machine_name subnet_id ids))
    pure (
      record { uuid = (spec_of ex).network_id; port = port.id } ∷ [],
      (spec_of ex).network_id ∷ [],
    )

  -- the branch where the network ID is set
  unfoldable pub resolve_existing : String → Action W (List ServerNetwork × List String)
  resolve_existing machine_name =
      if is_empty_string (spec_of ex).subnet_id
      then pure
          (record { uuid = (spec_of ex).network_id; port = "" } ∷ [], (spec_of ex).network_id ∷ [])
      else deref (spec_of ex).subnet_id >>= preallocate machine_name

  -- the ID of one listed network: that of the spec, where the entry has an ID of its own
  unfoldable pub resolve_network_id : OpenStackNetwork → Action W String
  resolve_network_id network =
      if is_empty_string (some network.id)
      then call (ex.network.network_id_from_name network.name)
      else pure (spec_of ex).network_id

  -- the loop over the listed networks
  unfoldable pub resolve_listed :
      List OpenStackNetwork
      → List ServerNetwork
      → List String
      → Action W (List ServerNetwork × List String)
  resolve_listed [] server_networks pod_ids = pure (server_networks, pod_ids)
  resolve_listed (network ∷ networks) server_networks pod_ids = do
    id ← resolve_network_id network
    resolve_listed networks (server_networks ++ (record { uuid = id; port = "" } ∷ []))
        (if network.pod_network then add_id id pod_ids else pod_ids)

  unfoldable pub resolve_server_networks : String → Action W (List ServerNetwork × List String)
  resolve_server_networks machine_name =
      if is_empty_string (some (spec_of ex).network_id)
      then resolve_listed (spec_of ex).networks [] []
      else resolve_existing machine_name
