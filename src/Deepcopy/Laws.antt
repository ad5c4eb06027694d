-- ===== src/Deepcopy/Laws.antt =====
-- A copy is equal to what was copied and shares nothing with it.
use mathlib.Core.Path.{subst}
use machine_controller_manag.Base.{
  ℕ, ◌<◌, ◌≡◌, ◌≢◌, ◌↔◌, refl, sym, ap, ◌∙◌, Option, none, some, arith,
}
use machine_controller_manag.Config.{OpenStackNetwork}
use machine_controller_manag.Deepcopy.Memory.{
  Ref, ConfigWith, ConfigRefs, Cell, spec, config, network, Heap, alloc, write, network_of, spec_of,
  config_of, zero_network, zero_spec, zero_config,
}
use machine_controller_manag.Deepcopy.{
  spec_deep_copy_into, config_deep_copy_into, network_deep_copy_into, spec_deep_copy,
  config_deep_copy, network_deep_copy, nil_object, object, deep_copy_object,
}
use machine_controller_manag.Deepcopy.Specs.{
  Spec, read_spec, IsSound, IsSound-Extends, read_spec-old, spec_deep_copy_into-read,
}
use machine_controller_manag.Deepcopy.Regions.{
  InUse, SameBelow, SameFrom, Extends, Extends-refl, Extends-trans, alloc-Extends, write-Extends,
  write-new, write-other, SameBelow-Extends,
}

-- What a pointer to a struct leads to, where `of` reads the cell and `view` the struct.
abbrev pub read_struct : {X V : Type 0} → (Cell → X) → (Heap → X → V) → Heap → Ref → Option V
read_struct of view h none = none
read_struct of view h (some p) = some (view h (of (h.cells p)))

-- The outcome is a copy of what `r` leads to in `h`, and shares nothing with it: the cells in use
-- before hold what they held; whatever the new cells hold later, the original reads as before; and
-- whatever the old cells hold later, the copy reads as the original did.
pub record IsCopy {V : Type 0} (reads : Heap → Ref → V) (h : Heap) (r : Ref) (out : Ref × Heap)
    : Type 0 where
  pub kept : Extends h out.1
  pub original : (g : Heap) → SameBelow h.next g out.1 → reads g r ≡ reads h r
  pub copied : (g : Heap) → SameFrom h.next g out.1 → reads g out.0 ≡ reads h r

module _ {X V : Type 0} (of : Cell → X) (view : Heap → X → V) where
  IsCopy-nil : (h : Heap) → IsCopy (read_struct of view) h none (none, h)
  IsCopy-nil h = record {
    kept = Extends-refl h;
    original = λ g same. refl;
    copied = λ g same. refl;
  }

  -- A new cell, a copy of the struct that was made after it, and a write of the copy to it.
  IsCopy-struct :
      (cell_of : X → Cell) (blank : Cell) (into : X → Heap → X × Heap) (p : ℕ) (h : Heap)
      → ((x : X) → of (cell_of x) ≡ x)
      → p < h.next
      → ((g : Heap) → SameBelow h.next g h → view g (of (h.cells p)) ≡ view h (of (h.cells p)))
      → let h1 = (alloc blank h).1 in
        let x = of (h1.cells p) in
        Extends h1 (into x h1).1
        → ((g : Heap) → SameFrom h1.next g (into x h1).1 → view g (into x h1).0 ≡ view h1 x)
        → IsCopy
            (read_struct of view)
            h
            (some p)
            (some h.next, write (some h.next) (cell_of (into x h1).0) (into x h1).1)
  IsCopy-struct cell_of blank into p h puts used steady more equal =
      let n = h.next in
      let h1 = (alloc blank h).1 in
      let v = (into (of (h1.cells p)) h1).0 in
      let h2 = (into (of (h1.cells p)) h1).1 in
      let added = alloc-Extends blank h in
      let kept =
        write-Extends n (cell_of v) h h2 (Extends-trans h h1 h2 added more) (omega arith) in
      record {
        kept = kept;
        original = λ g same.
            let below = SameBelow-Extends h (write (some n) (cell_of v) h2) g kept same in
            ap (λ c. some (view g (of c))) (below p used) ∙ ap some (steady g below);
        copied = λ g same.
            ap (λ c. some (view g (of c))) (same n (omega arith) ∙ write-new n (cell_of v) h2)
            ∙ ap (λ x. some (view g x)) (puts v)
            ∙ ap some (
                equal g
                  (λ a l. same a (omega arith) ∙ write-other n (cell_of v) h2 a (omega arith)))
            ∙ ap (λ c. some (view h1 (of c))) (added.old p used)
            ∙ ap some (steady h1 added.old);
      }

-- `MachineProviderConfig` with all that its references lead to.
abbrev pub view_config : Heap → ConfigRefs → ConfigWith Spec
view_config h c = record { type_meta = c.type_meta; spec = read_spec h c.spec }

abbrev pub view_network : Heap → OpenStackNetwork → OpenStackNetwork
view_network h n = n

-- nil, or the address of a struct in use whose references are sound.
abbrev pub SoundSpec : Heap → Ref → Type 0
SoundSpec h none = Unit
SoundSpec h (some p) = (p < h.next) × IsSound h (spec_of (h.cells p))

abbrev pub SoundConfig : Heap → Ref → Type 0
SoundConfig h none = Unit
SoundConfig h (some p) = (p < h.next) × IsSound h (config_of (h.cells p)).spec

network_deep_copy-IsCopy :
    (h : Heap) (r : Ref)
    → InUse h r
    → IsCopy (read_struct network_of view_network) h r (network_deep_copy r h)
unfolding network_deep_copy network_deep_copy_into
network_deep_copy-IsCopy h none used = IsCopy-nil network_of view_network h
network_deep_copy-IsCopy h (some p) used =
    IsCopy-struct network_of view_network network (network zero_network) network_deep_copy_into p h
      (λ x. refl) used (λ g same. refl) (Extends-refl (alloc (network zero_network) h).1)
      (λ g same. refl)

spec_deep_copy-IsCopy :
    (h : Heap) (r : Ref)
    → SoundSpec h r
    → IsCopy (read_struct spec_of read_spec) h r (spec_deep_copy r h)
unfolding spec_deep_copy
spec_deep_copy-IsCopy h none sound = IsCopy-nil spec_of read_spec h
spec_deep_copy-IsCopy h (some p) (used, sound) =
    let added = alloc-Extends (spec zero_spec) h in
    let h1 = (alloc (spec zero_spec) h).1 in
    let sound' =
      subst (λ c. IsSound h1 (spec_of c)) (sym (added.old p used))
        (IsSound-Extends (spec_of (h.cells p)) h h1 added sound) in
    let (more, equal) = spec_deep_copy_into-read (spec_of (h1.cells p)) h1 sound' in
    IsCopy-struct spec_of read_spec spec (spec zero_spec) spec_deep_copy_into p h (λ x. refl) used
      (λ g same. read_spec-old (spec_of (h.cells p)) g h sound same) more equal

config_deep_copy-IsCopy :
    (h : Heap) (r : Ref)
    → SoundConfig h r
    → IsCopy (read_struct config_of view_config) h r (config_deep_copy r h)
unfolding config_deep_copy config_deep_copy_into
config_deep_copy-IsCopy h none sound = IsCopy-nil config_of view_config h
config_deep_copy-IsCopy h (some p) (used, sound) =
    let added = alloc-Extends (config zero_config) h in
    let h1 = (alloc (config zero_config) h).1 in
    let c = config_of (h.cells p) in
    let c1 = config_of (h1.cells p) in
    let sound' =
      subst (λ x. IsSound h1 (config_of x).spec) (sym (added.old p used))
        (IsSound-Extends c.spec h h1 added sound) in
    let (more, equal) = spec_deep_copy_into-read c1.spec h1 sound' in
    IsCopy-struct config_of view_config config (config zero_config) config_deep_copy_into p h
      (λ x. refl) used
      (λ g same.
        ap (λ s. record { type_meta = c.type_meta; spec = s })
          (read_spec-old c.spec g h sound same))
      more (λ g same. ap (λ s. record { type_meta = c1.type_meta; spec = s }) (equal g same))

-- `DeepCopy` of a configuration, of a spec and of a network answers, for a pointer whose
-- references are in use and whose maps hold no key twice, with a pointer to a new struct that
-- reads as the original did, nil references included. It changes no cell that was in use, and the
-- two share nothing: later changes of the new cells leave the original as it was, and later
-- changes of the old cells leave the copy as it was.
pub deep_copies-IsCopy :
    (h : Heap) (c s n : Ref)
    → SoundConfig h c
    → SoundSpec h s
    → InUse h n
    → IsCopy (read_struct config_of view_config) h c (config_deep_copy c h)
      × IsCopy (read_struct spec_of read_spec) h s (spec_deep_copy s h)
      × IsCopy (read_struct network_of view_network) h n (network_deep_copy n h)
deep_copies-IsCopy h c s n sound sound' used = (
  config_deep_copy-IsCopy h c sound,
  spec_deep_copy-IsCopy h s sound',
  network_deep_copy-IsCopy h n used,
)

-- `DeepCopyObject` answers with nil for a nil pointer, and else with a pointer that is not nil to
-- the struct that `DeepCopy` makes: never with an object that holds a nil pointer.
pub deep_copy_object_outcomes :
    (h : Heap) (r : Ref)
    → let (o, h') = deep_copy_object r h in
      (h' ≡ (config_deep_copy r h).1)
      × ((o ≡ nil_object) ↔ (r ≡ none))
      × ((p : ℕ) → (o ≡ object (some p)) ↔ ((config_deep_copy r h).0 ≡ some p))
      × (o ≢ object none)
unfolding deep_copy_object config_deep_copy
deep_copy_object_outcomes h none =
    (refl, (λ e. refl, λ e. refl), (λ p. (λ e. absurd (cc), λ e. absurd (cc))), λ e. cc)
deep_copy_object_outcomes h (some p) =
    (refl, (λ e. absurd (cc), λ e. absurd (cc)), (λ q. (λ e. cc, λ e. cc)), λ e. cc)
