-- ===== src/Secret.antt =====
-- Kubernetes secrets and the keys that are looked up in them (pkg/apis/cloudprovider). A value is
-- taken as text, and a map that is nil as `none`.
pub mod Key
use machine_controller_manag.Base.{String, Option, none, some, List, []}
use machine_controller_manag.Base.Dict.{Dict}

pub record Secret : Type 0 where
  pub data_map : Option (Dict String)

-- Reading a nil map finds nothing.
abbrev pub entries : Secret → Dict String
entries secret = elim secret.data_map [ none ↦ [] | some m ↦ m ]
