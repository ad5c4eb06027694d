-- ===== src/Driver/Volumes.antt =====
-- `GetVolumeIDs`: the volumes of OpenStack among the persistent volumes of a request.
pub mod Exact
use machine_controller_manag.Base.{
  String, ◌==◌, Bool, true, false, not, ◌&&◌, Option, none, some, List, [], ◌∷◌, ◌++◌, ◌≡◌, refl,
  ◌∙◌, append_assoc, if◌then◌else◌, arith, append-nil,
}

abbrev pub cinder_driver_name : String
cinder_driver_name = "cinder.csi.openstack.org"

-- `CSIPersistentVolumeSource`, as far as the program reads it.
pub record CsiSource : Type 0 where
  pub driver : String
  pub volume_handle : String

-- `PersistentVolumeSpec`: the volume ID of its Cinder source, and its CSI source.
pub record VolumeSpec : Type 0 where
  pub cinder : Option String
  pub csi : Option CsiSource

-- the branch where there is no Cinder source
unfoldable pub csi_names : Option CsiSource → List String
csi_names none = []
csi_names (some csi) =
    if csi.driver == cinder_driver_name && not (csi.volume_handle == "")
    then csi.volume_handle ∷ []
    else []

-- the names that one round of the loop appends
unfoldable pub volume_names : VolumeSpec → List String
volume_names spec = elim spec.cinder [ some id ↦ id ∷ [] | none ↦ csi_names spec.csi ]

unfoldable pub get_volume_ids_from : List String → List VolumeSpec → List String
get_volume_ids_from names [] = names
get_volume_ids_from names (spec ∷ specs) = get_volume_ids_from (names ++ volume_names spec) specs

unfoldable pub get_volume_ids : List VolumeSpec → List String
get_volume_ids specs = get_volume_ids_from [] specs
