-- ===== src/Deepcopy/Memory.antt =====
-- The memory: cells with addresses that a program allocates in turn. A pointer, a slice and a map
-- are addresses; a slice starts at its cell and fills it.
use machine_controller_manag.Base.{
  ℕ, ◌+◌, String, Bool, false, Option, none, some, List, [], if◌then◌else◌, eqb,
}
use machine_controller_manag.Base.Int.{ℤ, pos}
use machine_controller_manag.Base.Dict.{Dict}
use machine_controller_manag.Config.{OpenStackNetwork, TypeMeta}

-- nil, or the address of a cell.
abbrev pub Ref : Type 0
Ref = Option ℕ

-- `MachineProviderConfigSpec`, with what slices, the map and pointers are taken to be.
pub record SpecWith (Strings Map Text Flag Networks : Type 0) : Type 0 where
  pub image_id : String
  pub image_name : String
  pub region : String
  pub availability_zone : String
  pub flavor_name : String
  pub key_name : String
  pub security_groups : Strings
  pub tags : Map
  pub network_id : String
  pub subnet_id : Text
  pub pod_network_cidr : String
  pub root_disk_size : ℤ
  pub use_config_drive : Flag
  pub server_group_id : Text
  pub networks : Networks

-- The struct itself, which holds references.
abbrev pub SpecRefs : Type 0
SpecRefs = SpecWith Ref Ref Ref Ref Ref

-- `MachineProviderConfig`; the spec is part of the struct.
pub record ConfigWith (Spec : Type 0) : Type 0 where
  pub type_meta : TypeMeta
  pub spec : Spec

abbrev pub ConfigRefs : Type 0
ConfigRefs = ConfigWith SpecRefs

pub data Cell : Type 0 where
  strings : List String → Cell
  string_map : Dict String → Cell
  text : String → Cell
  flag : Bool → Cell
  networks : List OpenStackNetwork → Cell
  network : OpenStackNetwork → Cell
  spec : SpecRefs → Cell
  config : ConfigRefs → Cell

-- The cells below `next` are in use.
pub record Heap : Type 0 where
  pub next : ℕ
  pub cells : ℕ → Cell

-- What a cell holds. Go's types rule out a cell of another kind, which is read as a zero value.
abbrev pub strings_of : Cell → List String
strings_of (strings l) = l
strings_of _ = []

abbrev pub map_of : Cell → Dict String
map_of (string_map m) = m
map_of _ = []

abbrev pub text_of : Cell → String
text_of (text s) = s
text_of _ = ""

abbrev pub flag_of : Cell → Bool
flag_of (flag b) = b
flag_of _ = false

abbrev pub networks_of : Cell → List OpenStackNetwork
networks_of (networks l) = l
networks_of _ = []

abbrev pub zero_network : OpenStackNetwork
zero_network = record { id = ""; name = ""; pod_network = false }

abbrev pub network_of : Cell → OpenStackNetwork
network_of (network n) = n
network_of _ = zero_network

abbrev pub zero_spec : SpecRefs
zero_spec = record {
  image_id = "";
  image_name = "";
  region = "";
  availability_zone = "";
  flavor_name = "";
  key_name = "";
  security_groups = none;
  tags = none;
  network_id = "";
  subnet_id = none;
  pod_network_cidr = "";
  root_disk_size = pos 0;
  use_config_drive = none;
  server_group_id = none;
  networks = none;
}

abbrev pub spec_of : Cell → SpecRefs
spec_of (spec s) = s
spec_of _ = zero_spec

abbrev pub zero_config : ConfigRefs
zero_config = record { type_meta = record { kind = ""; api_version = "" }; spec = zero_spec }

abbrev pub config_of : Cell → ConfigRefs
config_of (config c) = c
config_of _ = zero_config

-- The memory with another cell at one address.
abbrev put : ℕ → Cell → (ℕ → Cell) → ℕ → Cell
put p c cells a = if eqb a p then c else cells a

abbrev pub alloc : Cell → Heap → Ref × Heap
alloc c h = (some h.next, record { next = h.next + 1; cells = put h.next c h.cells })

-- `*p = c`
abbrev pub write : Ref → Cell → Heap → Heap
write none c h = h
write (some p) c h = record h { cells = put p c h.cells }
