-- ===== src/Deepcopy.antt =====
-- The generated copies of the API types (pkg/apis/openstack/zz_generated.deepcopy.go) in a memory
-- of cells. `DeepCopyInto` takes the struct that it reads, and returns what it writes to the other.
pub mod Memory
pub mod Slices
pub mod Regions
pub mod Specs
pub mod Laws
use machine_controller_manag.Base.{
  ℕ, String, Bool, false, Option, none, some, List, [], ◌∷◌, length,
}
use machine_controller_manag.Base.Int.{ℤ, pos}
use machine_controller_manag.Base.Dict.{Dict}
use machine_controller_manag.Config.{OpenStackNetwork, TypeMeta}
use machine_controller_manag.Deepcopy.Memory.{
  Ref, SpecRefs, ConfigRefs, Cell, strings, string_map, text, flag, networks, network, spec, config,
  Heap, alloc, write, strings_of, map_of, text_of, flag_of, networks_of, network_of, spec_of,
  config_of, zero_network, zero_spec, zero_config,
}
use machine_controller_manag.Deepcopy.Slices.{make_slice, copy, fill_map}

-- `if *in != nil { *out = new cell with what f makes of *in }`, where `*out` is `*in` before.
unfoldable pub copy_ref : (Cell → Cell) → Ref → Heap → Ref × Heap
copy_ref f none h = (none, h)
copy_ref f (some p) h = alloc (f (h.cells p)) h

-- `*out = make([]string, len(*in)); copy(*out, *in)`
abbrev pub copy_strings : Cell → Cell
copy_strings c = strings (copy (make_slice "" (length (strings_of c))) (strings_of c))

-- `*out = make(map[string]string, len(*in)); for key, val := range *in { (*out)[key] = val }`
abbrev pub copy_map : Cell → Cell
copy_map c = string_map (fill_map (map_of c) [])

-- `*out = new(string); **out = **in`
abbrev pub copy_text : Cell → Cell
copy_text c = text (text_of c)

-- `*out = new(bool); **out = **in`
abbrev pub copy_flag : Cell → Cell
copy_flag c = flag (flag_of c)

-- `*out = make([]OpenStackNetwork, len(*in)); copy(*out, *in)`
abbrev pub copy_networks : Cell → Cell
copy_networks c = networks (copy (make_slice zero_network (length (networks_of c))) (networks_of c))

-- `MachineProviderConfigSpec.DeepCopyInto`
unfoldable pub spec_deep_copy_into : SpecRefs → Heap → SpecRefs × Heap
spec_deep_copy_into s h =
    let (groups, h1) = copy_ref copy_strings s.security_groups h in
    let (tags, h2) = copy_ref copy_map s.tags h1 in
    let (subnet, h3) = copy_ref copy_text s.subnet_id h2 in
    let (drive, h4) = copy_ref copy_flag s.use_config_drive h3 in
    let (group, h5) = copy_ref copy_text s.server_group_id h4 in
    let (nets, h6) = copy_ref copy_networks s.networks h5 in
    (
      record s {
        security_groups = groups;
        tags = tags;
        subnet_id = subnet;
        use_config_drive = drive;
        server_group_id = group;
        networks = nets;
      },
      h6,
    )

-- `MachineProviderConfig.DeepCopyInto`
unfoldable pub config_deep_copy_into : ConfigRefs → Heap → ConfigRefs × Heap
config_deep_copy_into c h =
    let (copied, h') = spec_deep_copy_into c.spec h in
    (record c { type_meta = c.type_meta; spec = copied }, h')

-- `OpenStackNetwork.DeepCopyInto`
unfoldable pub network_deep_copy_into : OpenStackNetwork → Heap → OpenStackNetwork × Heap
network_deep_copy_into n h = (n, h)

-- `MachineProviderConfigSpec.DeepCopy`
unfoldable pub spec_deep_copy : Ref → Heap → Ref × Heap
spec_deep_copy none h = (none, h)
spec_deep_copy (some p) h =
    let (out, h1) = alloc (spec zero_spec) h in
    let (copied, h2) = spec_deep_copy_into (spec_of (h1.cells p)) h1 in
    (out, write out (spec copied) h2)

-- `MachineProviderConfig.DeepCopy`
unfoldable pub config_deep_copy : Ref → Heap → Ref × Heap
config_deep_copy none h = (none, h)
config_deep_copy (some p) h =
    let (out, h1) = alloc (config zero_config) h in
    let (copied, h2) = config_deep_copy_into (config_of (h1.cells p)) h1 in
    (out, write out (config copied) h2)

-- `OpenStackNetwork.DeepCopy`
unfoldable pub network_deep_copy : Ref → Heap → Ref × Heap
network_deep_copy none h = (none, h)
network_deep_copy (some p) h =
    let (out, h1) = alloc (network zero_network) h in
    let (copied, h2) = network_deep_copy_into (network_of (h1.cells p)) h1 in
    (out, write out (network copied) h2)

-- A value of the interface `runtime.Object`: nil, or a pointer, which may be nil itself.
pub data Object : Type 0 where
  nil_object : Object
  object : Ref → Object

-- `MachineProviderConfig.DeepCopyObject`
unfoldable pub deep_copy_object : Ref → Heap → Object × Heap
deep_copy_object r h =
    let (c, h') = config_deep_copy r h in
    (elim c [ none ↦ nil_object | some p ↦ object (some p) ], h')
