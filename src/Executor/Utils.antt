-- ===== src/Executor/Utils.antt =====
-- pkg/driver/executor/utils.go
pub mod Laws
use machine_controller_manag.Base.{
  String, ◌<>◌, ◌==◌, ◌-◌, Bool, true, false, Option, none, some, List, [], ◌∷◌, get_or, length,
  if◌then◌else◌,
}
use machine_controller_manag.Text.{trim_space}
use machine_controller_manag.Text.Split.{split}

-- `EncodeProviderID`
unfoldable pub encode_provider_id : String → String → String
encode_provider_id region machine_id = "openstack:///" <> region <> "/" <> machine_id

-- `DecodeProviderID`: the last part. `split` is never empty, so the index is in range.
unfoldable pub decode_provider_id : String → String
decode_provider_id id = let parts = split b'/' id in get_or parts (length parts - 1) ""

unfoldable pub str_slice_contains : List String → String → Bool
str_slice_contains [] needle = false
str_slice_contains (s ∷ haystack) needle =
    if s == needle then true else str_slice_contains haystack needle

-- `isEmptyString`: nil, or nothing but white space.
unfoldable pub is_empty_string : Option String → Bool
is_empty_string none = true
is_empty_string (some s) = if trim_space s == "" then true else false
