-- ===== src/Text/Split.antt =====
-- `strings.Split` at a separator of one character, and where its last part begins.
use Prim.Native.Char.{Char, code}
use Prim.Native.String.{String}
use text.Mathlib.TextLemmas.{cons-append, nil-append}
use machine_controller_manag.Base.{
  ℕ, suc, ◌-◌, ◌≡◌, refl, Bool, true, false, ◌<>◌, List, [], ◌∷◌, ◌++◌, eqb, if◌then◌else◌, length,
  get_or, arith, inl, inr, Bool-cases,
}

-- The character has the given code.
abbrev pub is_code : ℕ → Char → Bool
is_code sep c = eqb (code c) sep

-- A character in front of the first part; `split` never returns the empty list.
abbrev cons_first : Char → List String → List String
cons_first c [] = String.◌∷◌ c "" ∷ []
cons_first c (x ∷ xs) = String.◌∷◌ c x ∷ xs

unfoldable pub split : ℕ → String → List String
split sep String.[] = "" ∷ []
split sep (String.◌∷◌ c s) =
    let rest = split sep s in if is_code sep c then "" ∷ rest else cons_first c rest

-- Some character of the text is a slash.
unfoldable pub has_slash : String → Bool
has_slash String.[] = false
has_slash (String.◌∷◌ c s) = if is_code b'/' c then true else has_slash s

unfoldable pub last : List String → String
last [] = ""
last (x ∷ []) = x
last (x ∷ y ∷ xs) = last (y ∷ xs)

pub get_or-last : (xs : List String) → get_or xs (length xs - 1) "" ≡ last xs
unfolding last
get_or-last [] = refl
get_or-last (x ∷ []) = ground arith
get_or-last (x ∷ y ∷ xs) =
    let e : suc (suc (length xs)) - 1 ≡ suc (length xs) = omega arith in
    let e' : suc (length xs) - 1 ≡ length xs = omega arith in rw e (rw e' at (get_or-last (y ∷ xs)))

pub split-cons : (sep : ℕ) (s : String) → (x : String) × (xs : List String) × (split sep s ≡ x ∷ xs)
unfolding split
split-cons sep String.[] = ("", [], refl)
split-cons sep (String.◌∷◌ c s) = elim (Bool-cases (is_code sep c)) [
  | inl h ↦ ("", split sep s, rw h)
  | inr h ↦ let (x, xs, e) = split-cons sep s in (String.◌∷◌ c x, xs, rw (h, e))
]

-- Splitting at a slash that is written between two texts.
pub split-append : (s t : String) → split b'/' (s <> "/" <> t) ≡ split b'/' s ++ split b'/' t
unfolding split
split-append String.[] t = rw (nil-append, cons-append, nil-append)
split-append (String.◌∷◌ c s) t = elim (Bool-cases (is_code b'/' c)) [
  | inl h ↦ rw (cons-append, h, split-append s t)
  | inr h ↦ let (x, xs, e) = split-cons b'/' s in rw (cons-append, h, split-append s t, e)
]

pub split-has_slash : (s : String) → has_slash s ≡ false → split b'/' s ≡ s ∷ []
unfolding split has_slash
split-has_slash String.[] h = refl
split-has_slash (String.◌∷◌ c s) h = ground (arith, split-has_slash s)

pub last-append :
    (xs : List String) (y : String) (ys : List String) → last (xs ++ y ∷ ys) ≡ last (y ∷ ys)
unfolding last
last-append [] y ys = refl
last-append (x ∷ []) y ys = refl
last-append (x ∷ z ∷ xs) y ys = last-append (z ∷ xs) y ys
