-- ===== src/Executor/Find/Tags.antt =====
-- Which tags the loop over the tags finds, and that the order of iteration seldom matters.
use machine_controller_manag.Base.{
  String, ◌≡◌, ◌≢◌, ◌⊎◌, refl, Bool, true, false, List, [], ◌∷◌, arith, inl, inr, Bool-cases, ◌↔◌,
  if◌then◌else◌, not, ◌&&◌, contains,
}
use machine_controller_manag.Base.Dict.{Dict, keys, has_key}
use machine_controller_manag.Text.{contains_text}
use machine_controller_manag.Executor.Find.{
  server_tag_cluster_prefix, server_tag_role_prefix, tag_round, search_tags_from, search_tags,
}

-- A key with both prefixes counts as a cluster tag only.
unfoldable pub is_cluster_tag : String → Bool
is_cluster_tag key = contains_text key server_tag_cluster_prefix

unfoldable pub is_role_tag : String → Bool
is_role_tag key = not (is_cluster_tag key) && contains_text key server_tag_role_prefix

==_self_or : (key : String) (keys : List String) → contains (key ∷ keys) key ≡ true
==_self_or key keys = ground arith

tag_round_lem :
    (key c r : String)
    → tag_round key (c, r)
      ≡ ((if is_cluster_tag key then key else c), (if is_role_tag key then key else r))
unfolding tag_round is_cluster_tag is_role_tag
tag_round_lem key c r = ground arith

-- The last key that passes a test, in the order of iteration, or else a given text.
pub last_key : (String → Bool) → List String → String → String
last_key p [] found = found
last_key p (key ∷ keys) found = last_key p keys (if p key then key else found)

pub search_tags_from-last_key :
    (keys : List String) (c r : String)
    → search_tags_from keys (c, r) ≡ (last_key is_cluster_tag keys c, last_key is_role_tag keys r)
unfolding search_tags_from last_key
search_tags_from-last_key [] c r = refl
search_tags_from-last_key (key ∷ keys) c r =
    rw (tag_round_lem key c r) (search_tags_from-last_key keys _ _)

-- Only `name` passes the test among `keys`, or nothing does.
abbrev pub Only : (String → Bool) → String → List String → Type 0
Only p name keys = (key : String) → contains keys key ≡ true → p key ≡ true → key ≡ name

-- No key passes the test.
abbrev pub NoneOf : (String → Bool) → List String → Type 0
NoneOf p keys = (key : String) → contains keys key ≡ true → p key ≡ false

module _ (p : String → Bool) where
  last_key-of_Only :
      (name : String) (keys : List String) (found : String)
      → Only p name keys
      → p name ≡ true
      → (contains keys name ≡ true) ⊎ (found ≡ name)
      → last_key p keys found ≡ name
  unfolding last_key
  last_key-of_Only name [] found only tag h = ground arith
  last_key-of_Only name (key ∷ keys) found only tag h =
      last_key-of_Only name keys _ (λ k m. only k (ground arith)) tag
        (ground (arith, only key (==_self_or key keys)))

  last_key-of_none :
      (keys : List String) (found : String) → NoneOf p keys → last_key p keys found ≡ found
  unfolding last_key
  last_key-of_none [] found h = refl
  last_key-of_none (key ∷ keys) found h =
      rw (h key (==_self_or key keys)) (last_key-of_none keys found (λ k m. h k (ground arith)))

  -- A key that passes is found in the end, if the empty text does not pass.
  last_key-passes :
      (keys : List String) (found : String) → p found ≡ true → p (last_key p keys found) ≡ true
  unfolding last_key
  last_key-passes [] found h = h
  last_key-passes (key ∷ keys) found h = last_key-passes keys _ (ground arith)

  last_key-eq_nil : (keys : List String) → p "" ≡ false → last_key p keys "" ≡ "" → NoneOf p keys
  unfolding last_key
  last_key-eq_nil [] h e k m = cc
  last_key-eq_nil (key ∷ keys) h e k m = elim (Bool-cases (p key)) [
    | inl passes ↦ cc (last_key-passes keys key passes)
    | inr fails ↦ ground (arith, last_key-eq_nil keys h (rw fails at e) k)
  ]

  last_key-found :
      (keys : List String) (found : String)
      → (last_key p keys found ≡ found) ⊎ (contains keys (last_key p keys found) ≡ true)
  unfolding last_key
  last_key-found [] found = inl refl
  last_key-found (key ∷ keys) found = elim (last_key-found keys (if p key then key else found)) [
    | inl same ↦ elim (Bool-cases (p key)) [ inl passes ↦ ground arith | inr fails ↦ ground arith ]
    | inr there ↦ ground arith
  ]

has_key-of_keys :
    (tags : Dict String) (key : String) → contains (keys tags) key ≡ true → has_key key tags ≡ true
has_key-of_keys [] key h = absurd (ground arith)
has_key-of_keys ((k, v) ∷ tags) key h = ground (arith, has_key-of_keys tags key)

-- The tags that were found are among those of the map.
pub search_tags-has_key :
    (tags : Dict String)
    → (search_tags tags).0 ≢ ""
    → (search_tags tags).1 ≢ ""
    → (has_key (search_tags tags).0 tags ≡ true) × (has_key (search_tags tags).1 tags ≡ true)
unfolding search_tags
search_tags-has_key tags c r =
    let found = search_tags_from-last_key (keys tags) "" "" in
    let cluster = last_key-found is_cluster_tag (keys tags) "" in
    let role = last_key-found is_role_tag (keys tags) "" in
    (has_key-of_keys tags _ (ground arith), has_key-of_keys tags _ (ground arith))

-- The empty text has neither prefix.
is_cluster_tag-nil : is_cluster_tag "" ≡ false
unfolding is_cluster_tag contains_text
is_cluster_tag-nil = refl

is_role_tag-nil : is_role_tag "" ≡ false
unfolding is_role_tag is_cluster_tag contains_text
is_role_tag-nil = refl

-- If the keys hold one cluster tag and one role tag, the loop finds the two in every order of
-- iteration.
pub search_tags-of_Only :
    (tags : Dict String) (cluster role : String)
    → contains (keys tags) cluster ≡ true
    → is_cluster_tag cluster ≡ true
    → Only is_cluster_tag cluster (keys tags)
    → contains (keys tags) role ≡ true
    → is_role_tag role ≡ true
    → Only is_role_tag role (keys tags)
    → search_tags tags ≡ (cluster, role)
unfolding search_tags
search_tags-of_Only tags cluster role c p o c' p' o' = rw (
  search_tags_from-last_key (keys tags),
  last_key-of_Only is_cluster_tag cluster (keys tags) "" o p (inl c),
  last_key-of_Only is_role_tag role (keys tags) "" o' p' (inl c'),
)

-- The loop leaves the name of the cluster tag empty exactly when no key is a cluster tag, and
-- the name of the role tag exactly when no key is a role tag.
pub search_tags_missing :
    (tags : Dict String)
    → (((search_tags tags).0 ≡ "") ↔ NoneOf is_cluster_tag (keys tags))
      × (((search_tags tags).1 ≡ "") ↔ NoneOf is_role_tag (keys tags))
unfolding search_tags
search_tags_missing tags = rw (search_tags_from-last_key (keys tags)) (
  (
    last_key-eq_nil is_cluster_tag (keys tags) is_cluster_tag-nil,
    last_key-of_none is_cluster_tag (keys tags) "",
  ),
  (
    last_key-eq_nil is_role_tag (keys tags) is_role_tag-nil,
    last_key-of_none is_role_tag (keys tags) "",
  ),
)
