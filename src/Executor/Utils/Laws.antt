-- ===== src/Executor/Utils/Laws.antt =====
-- Provider IDs: what is encoded can be decoded, and no two servers share an ID.
use text.Mathlib.TextLemmas.{cons-append, append_assoc, append_cancel_left, append_cancel_right}
use machine_controller_manag.Base.{
  String, ◌<>◌, ◌≡◌, refl, sym, ap, ◌∙◌, true, false, List, ◌∷◌, arith, ◌==◌, some, none,
  if◌then◌else◌,
}
use machine_controller_manag.Text.Laws.{trim_space-ne-nil}
use machine_controller_manag.Text.Split.{
  split, split-append, split-cons, split-has_slash, has_slash, last, last-append, get_or-last,
}
use machine_controller_manag.Executor.Utils.{
  is_empty_string, encode_provider_id, decode_provider_id, str_slice_contains,
}

decode-last : (id : String) → decode_provider_id id ≡ last (split b'/' id)
unfolding decode_provider_id
decode-last id = get_or-last (split b'/' id)

-- Decoding an encoded ID decodes the machine's ID, whatever the region is.
pub decode-encode_any :
    (region id : String) → decode_provider_id (encode_provider_id region id) ≡ decode_provider_id id
unfolding encode_provider_id
decode-encode_any region id =
    let (x, xs, e) = split-cons b'/' id in
    rw
      (decode-last, decode-last, ← append_assoc "openstack:///" region ("/" <> id), split-append, e)
      (last-append (split b'/' ("openstack:///" <> region)) x xs)

-- A machine ID that holds no slash comes back from its provider ID, in every region.
pub decode-encode :
    (region id : String)
    → has_slash id ≡ false
    → decode_provider_id (encode_provider_id region id) ≡ id
unfolding last
decode-encode region id h = rw (decode-encode_any, decode-last, split-has_slash id h)

-- Two machines with the same provider ID have the same region and the same ID, if neither ID
-- holds a slash.
pub encode_provider_id-inj :
    (region region' id id' : String)
    → has_slash id ≡ false
    → has_slash id' ≡ false
    → encode_provider_id region id ≡ encode_provider_id region' id'
    → (region ≡ region') × (id ≡ id')
unfolding encode_provider_id
encode_provider_id-inj region region' id id' h h' e =
    let same : id ≡ id' =
      sym (decode-encode region id h) ∙ ap decode_provider_id e ∙ decode-encode region' id' h' in
    let tails : region <> ("/" <> id') ≡ region' <> ("/" <> id') =
      append_cancel_left "openstack:///" _ _ (rw same at e) in
    (append_cancel_right region region' ("/" <> id') tails, same)

pub str_slice_contains-cons :
    (s : String) (haystack : List String) (needle : String)
    → str_slice_contains (s ∷ haystack) needle
      ≡ (if s == needle then true else str_slice_contains haystack needle)
unfolding str_slice_contains
str_slice_contains-cons s haystack needle = refl

pub is_empty_string-none : is_empty_string none ≡ true
unfolding is_empty_string
is_empty_string-none = refl

-- A provider ID is never blank.
pub is_empty_string-encode :
    (region id : String) → is_empty_string (some (encode_provider_id region id)) ≡ false
unfolding is_empty_string encode_provider_id
is_empty_string-encode region id =
    rw (cons-append)
      (ground (arith, trim_space-ne-nil "o" ("penstack:///" <> region <> "/" <> id) refl))
