-- ===== src/Deepcopy/Specs.antt =====
-- The copy of a spec, reference by reference, is equal to what was copied.
use mathlib.Core.Path.{subst}
use machine_controller_manag.Base.{ℕ, String, Bool, ◌≡◌, refl, sym, Option, some, List}
use machine_controller_manag.Base.Dict.{Dict, keys}
use machine_controller_manag.Config.{OpenStackNetwork}
use machine_controller_manag.Deepcopy.Memory.{
  SpecWith, SpecRefs, Heap, strings_of, map_of, text_of, flag_of, networks_of, zero_network,
}
use machine_controller_manag.Deepcopy.Slices.{copy-make_slice, Distinct, fill_map-nil}
use machine_controller_manag.Deepcopy.{
  copy_ref, copy_strings, copy_map, copy_text, copy_flag, copy_networks, spec_deep_copy_into,
}
use machine_controller_manag.Deepcopy.Regions.{
  read, InUse, SameBelow, SameFrom, Extends, Extends-refl, Extends-trans, InUse-Extends,
  copy_ref-Extends, read-old, copy_ref-read,
}

-- A spec with all that its references lead to; a nil slice differs from an empty one.
abbrev pub Spec : Type 0
Spec =
    SpecWith (Option (List String)) (Option (Dict String)) (Option String) (Option Bool)
      (Option (List OpenStackNetwork))

abbrev pub read_spec : Heap → SpecRefs → Spec
read_spec h s = record {
  image_id = s.image_id;
  image_name = s.image_name;
  region = s.region;
  availability_zone = s.availability_zone;
  flavor_name = s.flavor_name;
  key_name = s.key_name;
  security_groups = read strings_of h s.security_groups;
  tags = read map_of h s.tags;
  network_id = s.network_id;
  subnet_id = read text_of h s.subnet_id;
  pod_network_cidr = s.pod_network_cidr;
  root_disk_size = s.root_disk_size;
  use_config_drive = read flag_of h s.use_config_drive;
  server_group_id = read text_of h s.server_group_id;
  networks = read networks_of h s.networks;
}

-- The references of the spec are nil or lead to cells in use, and no key of its map is there twice.
pub record IsSound (h : Heap) (s : SpecRefs) : Type 0 where
  pub security_groups : InUse h s.security_groups
  pub tags : InUse h s.tags
  pub subnet_id : InUse h s.subnet_id
  pub use_config_drive : InUse h s.use_config_drive
  pub server_group_id : InUse h s.server_group_id
  pub networks : InUse h s.networks
  pub distinct : (p : ℕ) → s.tags ≡ some p → Distinct (keys (map_of (h.cells p)))

-- What is sound stays sound while cells are added.
pub IsSound-Extends : (s : SpecRefs) (h h' : Heap) → Extends h h' → IsSound h s → IsSound h' s
IsSound-Extends s h h' e sound = record {
  security_groups = InUse-Extends s.security_groups h h' e sound.security_groups;
  tags = InUse-Extends s.tags h h' e sound.tags;
  subnet_id = InUse-Extends s.subnet_id h h' e sound.subnet_id;
  use_config_drive = InUse-Extends s.use_config_drive h h' e sound.use_config_drive;
  server_group_id = InUse-Extends s.server_group_id h h' e sound.server_group_id;
  networks = InUse-Extends s.networks h h' e sound.networks;
  distinct = λ p set.
      subst (λ c. Distinct (keys (map_of c))) (sym (e.old p (subst (InUse h) set sound.tags)))
        (sound.distinct p set);
}

pub read_spec-old :
    (s : SpecRefs) (g h : Heap) → IsSound h s → SameBelow h.next g h → read_spec g s ≡ read_spec h s
read_spec-old s g h sound same =
    let groups = read-old strings_of s.security_groups g h sound.security_groups same in
    let tags = read-old map_of s.tags g h sound.tags same in
    let subnet = read-old text_of s.subnet_id g h sound.subnet_id same in
    let drive = read-old flag_of s.use_config_drive g h sound.use_config_drive same in
    let group = read-old text_of s.server_group_id g h sound.server_group_id same in
    let nets = read-old networks_of s.networks g h sound.networks same in cc

-- The stages of a copy: each adds cells to the one before, and the copy reads like the original in
-- every memory that has the new cells.
pub spec_deep_copy_into-read :
    (s : SpecRefs) (h : Heap)
    → IsSound h s
    → let (s', h') = spec_deep_copy_into s h in
      Extends h h' × ((g : Heap) → SameFrom h.next g h' → read_spec g s' ≡ read_spec h s)
unfolding spec_deep_copy_into
spec_deep_copy_into-read s h sound =
    let h1 = (copy_ref copy_strings s.security_groups h).1 in
    let h2 = (copy_ref copy_map s.tags h1).1 in
    let h3 = (copy_ref copy_text s.subnet_id h2).1 in
    let h4 = (copy_ref copy_flag s.use_config_drive h3).1 in
    let h5 = (copy_ref copy_text s.server_group_id h4).1 in
    let h6 = (copy_ref copy_networks s.networks h5).1 in
    let e1 = copy_ref-Extends copy_strings s.security_groups h in
    let e2 = copy_ref-Extends copy_map s.tags h1 in
    let e3 = copy_ref-Extends copy_text s.subnet_id h2 in
    let e4 = copy_ref-Extends copy_flag s.use_config_drive h3 in
    let e5 = copy_ref-Extends copy_text s.server_group_id h4 in
    let e6 = copy_ref-Extends copy_networks s.networks h5 in
    let up2 = Extends-trans h h1 h2 e1 e2 in
    let up3 = Extends-trans h h2 h3 up2 e3 in
    let up4 = Extends-trans h h3 h4 up3 e4 in
    let up5 = Extends-trans h h4 h5 up4 e5 in
    let left5 = e6 in
    let left4 = Extends-trans h4 h5 h6 e5 left5 in
    let left3 = Extends-trans h3 h4 h6 e4 left4 in
    let left2 = Extends-trans h2 h3 h6 e3 left3 in
    let left1 = Extends-trans h1 h2 h6 e2 left2 in
    (
      Extends-trans h h1 h6 e1 left1,
      λ g same.
          let groups =
            copy_ref-read strings_of copy_strings s.security_groups h h h6 g (Extends-refl h) left1
              same sound.security_groups (λ p e. copy-make_slice "" (strings_of (h.cells p))) in
          let tags =
            copy_ref-read map_of copy_map s.tags h h1 h6 g e1 left2 same sound.tags
              (λ p e. fill_map-nil (map_of (h.cells p)) (sound.distinct p e)) in
          let subnet =
            copy_ref-read text_of copy_text s.subnet_id h h2 h6 g up2 left3 same sound.subnet_id
              (λ p e. refl) in
          let drive =
            copy_ref-read flag_of copy_flag s.use_config_drive h h3 h6 g up3 left4 same
              sound.use_config_drive (λ p e. refl) in
          let group =
            copy_ref-read text_of copy_text s.server_group_id h h4 h6 g up4 left5 same
              sound.server_group_id (λ p e. refl) in
          let nets =
            copy_ref-read networks_of copy_networks s.networks h h5 h6 g up5 (Extends-refl h6) same
              sound.networks (λ p e. copy-make_slice zero_network (networks_of (h.cells p))) in
          cc,
    )
