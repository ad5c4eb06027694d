-- ===== src/Driver/Volumes/Exact.antt =====
-- Which volumes are named, and in which order.
use mathlib.Core.Path.{subst}
use machine_controller_manag.Base.{
  String, ◌==◌, ◌≡◌, ◌≢◌, refl, ap, not, ◌&&◌, sym, ◌∙◌, Option, none, some, List, [], ◌∷◌, ◌++◌,
  append_assoc, append-nil, arith, Bool-cases, inl, inr,
}
use machine_controller_manag.Driver.Volumes.{
  cinder_driver_name, CsiSource, VolumeSpec, csi_names, volume_names, get_volume_ids_from,
  get_volume_ids,
}

-- The CSI source names a volume of the Cinder driver.
abbrev pub NamesVolume : CsiSource → Type 0
NamesVolume csi = (csi.driver ≡ cinder_driver_name) × (csi.volume_handle ≢ "")

-- The specs yield the volume IDs, in order: the ID of a Cinder source, else the handle of a CSI
-- source that names a volume, else nothing.
pub data Yields : List VolumeSpec → List String → Type 0 where
  empty : Yields [] []
  by_cinder :
      {spec : VolumeSpec} {specs : List VolumeSpec} {id : String} {ids : List String}
      → spec.cinder ≡ some id
      → Yields specs ids
      → Yields (spec ∷ specs) (id ∷ ids)
  by_csi :
      {spec : VolumeSpec} {specs : List VolumeSpec} {csi : CsiSource} {ids : List String}
      → spec.cinder ≡ none
      → spec.csi ≡ some csi
      → NamesVolume csi
      → Yields specs ids
      → Yields (spec ∷ specs) (csi.volume_handle ∷ ids)
  skipped :
      {spec : VolumeSpec} {specs : List VolumeSpec} {ids : List String}
      → spec.cinder ≡ none
      → ((csi : CsiSource) → spec.csi ≡ some csi → ¬ NamesVolume csi)
      → Yields specs ids
      → Yields (spec ∷ specs) ids

get_volume_ids_from-append :
    (names : List String) (specs : List VolumeSpec)
    → get_volume_ids_from names specs ≡ names ++ get_volume_ids_from [] specs
unfolding get_volume_ids_from
get_volume_ids_from-append names [] = sym (append-nil names)
get_volume_ids_from-append names (spec ∷ specs) =
    get_volume_ids_from-append (names ++ volume_names spec) specs
    ∙ append_assoc names (volume_names spec) (get_volume_ids_from [] specs)
    ∙ ap (λ l. names ++ l) (sym (get_volume_ids_from-append (volume_names spec) specs))

Yields-csi :
    (spec : VolumeSpec) (specs : List VolumeSpec) (ids : List String) (o : Option CsiSource)
    → spec.cinder ≡ none
    → spec.csi ≡ o
    → Yields specs ids
    → Yields (spec ∷ specs) (csi_names o ++ ids)
unfolding csi_names
Yields-csi spec specs ids none e p y = skipped e (λ csi q. absurd (ground arith)) y
Yields-csi spec specs ids (some csi) e p y =
    elim (Bool-cases (csi.driver == cinder_driver_name && not (csi.volume_handle == ""))) [
      | inl named ↦ rw named (by_csi e p (ground arith, ground arith) y)
      | inr other ↦ rw other (skipped e (λ csi' q n. ground arith) y)
    ]

Yields-volume_names :
    (spec : VolumeSpec) (specs : List VolumeSpec) (ids : List String) (o : Option String)
    → spec.cinder ≡ o
    → Yields specs ids
    → Yields (spec ∷ specs) (volume_names spec ++ ids)
unfolding volume_names
Yields-volume_names spec specs ids none e y =
    let named : csi_names spec.csi ≡ volume_names spec = ground arith in
    subst (λ names. Yields (spec ∷ specs) (names ++ ids)) named
      (Yields-csi spec specs ids spec.csi e refl y)
Yields-volume_names spec specs ids (some id) e y =
    let named : id ∷ [] ≡ volume_names spec = ground arith in
    subst (λ names. Yields (spec ∷ specs) (names ++ ids)) named (by_cinder e y)

-- The volume IDs that are returned are exactly those that the specs yield, in their order.
pub get_volume_ids-Yields : (specs : List VolumeSpec) → Yields specs (get_volume_ids specs)
unfolding get_volume_ids get_volume_ids_from
get_volume_ids-Yields [] = empty
get_volume_ids-Yields (spec ∷ specs) = rw (get_volume_ids_from-append (volume_names spec) specs) (
    Yields-volume_names spec specs (get_volume_ids specs) spec.cinder refl
      (get_volume_ids-Yields specs))
