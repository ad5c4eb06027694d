-- ===== src/Tests/Copies.antt =====
-- The theorems on copies, in a memory with one configuration, one spec and one network.
use mathlib.Core.Path.{subst}
use machine_controller_manag.Base.Dict.{keys}
use machine_controller_manag.Deepcopy.Slices.{Distinct}
use machine_controller_manag.Base.{
  get_or, string_discrete, ℕ, true, ◌≡◌, refl, none, some, [], ◌∷◌, arith,
}
use machine_controller_manag.Base.Int.{pos}
use machine_controller_manag.Config.{OpenStackNetwork}
use machine_controller_manag.Deepcopy.Memory.{
  SpecRefs, Cell, strings, string_map, text, flag, networks, network, spec, config, Heap, map_of,
  network_of, spec_of, config_of,
}
use machine_controller_manag.Deepcopy.{spec_deep_copy, config_deep_copy, network_deep_copy}
use machine_controller_manag.Deepcopy.Specs.{read_spec, IsSound}
use machine_controller_manag.Deepcopy.Laws.{
  read_struct, IsCopy, view_config, view_network, deep_copies-IsCopy,
}

abbrev refs : SpecRefs
refs = record {
  image_id = "";
  image_name = "gardenlinux";
  region = "eu";
  availability_zone = "eu-1";
  flavor_name = "m1";
  key_name = "key";
  security_groups = some 0;
  tags = some 1;
  network_id = "n-1";
  subnet_id = some 2;
  pod_network_cidr = "10.0.0.0/8";
  root_disk_size = pos 20;
  use_config_drive = some 3;
  server_group_id = none;
  networks = some 4;
}

abbrev pods : OpenStackNetwork
pods = record { id = "n-2"; name = "pods"; pod_network = true }

abbrev cells : ℕ → Cell
cells a =
    get_or
      (strings ("default" ∷ [])
        ∷ string_map (("a", "1") ∷ ("b", "1") ∷ [])
        ∷ text "sub-1"
        ∷ flag true
        ∷ networks (pods ∷ [])
        ∷ network pods
        ∷ spec refs
        ∷ [])
      a
      (config (record {
        type_meta = record { kind = "MachineProviderConfig"; api_version = "" };
        spec = refs;
      }))

abbrev heap : Heap
heap = record { next = 8; cells = cells }

keys-Distinct : (p : ℕ) → refs.tags ≡ some p → Distinct (keys (map_of (cells p)))
unfolding string_discrete
keys-Distinct p e =
    subst (λ q. Distinct (keys (map_of (cells q)))) {x = 1} {y = p} (ground arith)
      (refl, (refl, tt))

refs-IsSound : IsSound heap refs
refs-IsSound = record {
  security_groups = omega arith;
  tags = omega arith;
  subnet_id = omega arith;
  use_config_drive = omega arith;
  server_group_id = tt;
  networks = omega arith;
  distinct = keys-Distinct;
}

deep_copies-IsCopy_example :
    IsCopy (read_struct config_of view_config) heap (some 7) (config_deep_copy (some 7) heap)
    × IsCopy (read_struct spec_of read_spec) heap (some 6) (spec_deep_copy (some 6) heap)
    × IsCopy (read_struct network_of view_network) heap (some 5) (network_deep_copy (some 5) heap)
deep_copies-IsCopy_example =
    deep_copies-IsCopy heap (some 7) (some 6) (some 5) (omega arith, refs-IsSound)
      (omega arith, refs-IsSound) (omega arith)
