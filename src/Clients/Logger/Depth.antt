-- ===== src/Clients/Logger/Depth.antt =====
-- Which depth the logger finds: that of the first caller outside gophercloud.
use mathlib.Core.Path.{subst}
use machine_controller_manag.Base.{
  ℕ, zero, suc, ◌+◌, ◌≤◌, ◌<◌, String, true, false, ◌≡◌, ◌≢◌, refl, sym, ◌⊎◌, inl, inr, none, some,
  arith, Bool-cases, Option-cases, leb,
}
use machine_controller_manag.Clients.Logger.{LogLibrary, is_gophercloud, skip_from, skip}

le_or_lt : (a b : ℕ) → (a ≤ b) ⊎ (b < a)
le_or_lt a b = elim (Bool-cases (leb a b)) [
  | inl h ↦ inl (ground arith)
  | inr h ↦ inr (ground arith)
]

module _ {X A : Type 0} (lib : LogLibrary X A) where
  -- The caller at a depth is in a file of gophercloud, or in another file.
  abbrev pub IsInside : ℕ → Type 0
  IsInside k = (file : String) × (lib.caller k ≡ some file) × (is_gophercloud file ≡ true)

  abbrev pub IsOutside : ℕ → Type 0
  IsOutside k = (file : String) × (lib.caller k ≡ some file) × (is_gophercloud file ≡ false)

  -- The caller at `d`, one of 11 to 20, is outside gophercloud, and calls it: those below it are
  -- inside down to some depth `first`, and below that they are outside, from 10 on.
  pub record IsDepth (d : ℕ) : Type 0 where
    pub first : ℕ
    pub start : 10 ≤ first
    pub before : first < d
    pub last : d ≤ 20
    pub below : (k : ℕ) → 10 ≤ k → k < first → IsOutside k
    pub within : (k : ℕ) → first ≤ k → k < d → IsInside k
    pub here : IsOutside d

  -- What the loop has seen before round `i`.
  record Seen (first i : ℕ) : Type 0 where
    start : 10 ≤ first
    before : first ≤ i
    below : (k : ℕ) → 10 ≤ k → k < first → IsOutside k
    within : (k : ℕ) → first ≤ k → k < i → IsInside k

  apart : (k : ℕ) → IsInside k → IsOutside k → ⊥
  apart k (f, e, h) (g, e', h') = ground arith

  -- No depth lies in what was seen.
  Seen-below : (first i d : ℕ) → Seen first i → IsDepth d → i ≤ d
  Seen-below first i d seen depth = elim (le_or_lt i d) [
    | inl h ↦ h
    | inr h ↦
        let up = depth.before in
        elim (le_or_lt first depth.first) [
          | inl l ↦ absurd (apart d (seen.within d (omega arith) h) depth.here)
          | inr l ↦ absurd (
              apart depth.first (depth.within depth.first (omega arith) depth.before)
                (seen.below depth.first depth.start l))
        ]
  ]

  -- There is a caller at each depth down to the one that is found.
  IsDepth-caller : (d k : ℕ) → IsDepth d → 10 ≤ k → k ≤ d → lib.caller k ≢ none
  IsDepth-caller d k depth low high e = elim (le_or_lt d k) [
    | inl h ↦
        let same : k ≡ d = omega arith in
        let (f, e', _) = depth.here in absurd (ground (arith, same))
    | inr h ↦ elim (le_or_lt depth.first k) [
      | inl l ↦ let (f, e', _) = depth.within k l h in absurd (cc)
      | inr l ↦ let (f, e', _) = depth.below k low l in absurd (cc)
    ]
  ]

  -- The caller at round `i` is outside, and nothing of gophercloud was seen before.
  Seen-outside : (i : ℕ) → Seen i i → IsOutside i → Seen (i + 1) (i + 1)
  Seen-outside i seen out = record {
    start = let l = seen.start in omega arith;
    before = omega arith;
    below = λ k low high. elim (le_or_lt i k) [
      | inl h ↦ let same : i ≡ k = omega arith in subst IsOutside same out
      | inr h ↦ seen.below k low h
    ];
    within = λ k low high. absurd (omega arith);
  }

  Seen-inside : (first i : ℕ) → Seen first i → IsInside i → Seen first (i + 1)
  Seen-inside first i seen inside = record {
    start = seen.start;
    before = let l = seen.before in omega arith;
    below = seen.below;
    within = λ k low high. elim (le_or_lt i k) [
      | inl h ↦ let same : i ≡ k = omega arith in subst IsInside same inside
      | inr h ↦ seen.within k low h
    ];
  }

  -- The depth is that of a caller, or 0 if no caller is at such a depth.
  abbrev pub Found : ℕ → Type 0
  Found d = IsDepth d ⊎ ((d ≡ 0) × ((e : ℕ) → IsDepth e → ⊥))

  Found-none : (first i : ℕ) → Seen first i → lib.caller i ≡ none → Found 0
  Found-none first i seen missing = inr (
    refl,
    λ e depth.
        IsDepth-caller e i depth (let l = seen.start in let u = seen.before in omega arith)
          (Seen-below first i e seen depth) missing,
  )

  Found-end : (first : ℕ) → Seen first 21 → Found 0
  Found-end first seen = inr (
    refl,
    λ e depth.
        let l = Seen-below first 21 e seen depth in let u = depth.last in absurd (omega arith),
  )

  skip_from-inside :
      (n i first : ℕ) → i + n ≡ 21 → Seen first i → first < i → Found (skip_from lib n i true)
  unfolding skip_from
  skip_from-inside zero i first e seen l = Found-end first (subst (Seen first) (omega arith) seen)
  skip_from-inside (suc n) i first e seen l = elim (Option-cases (lib.caller i)) [
    | inl missing ↦
        let stop : skip_from lib (suc n) i true ≡ 0 = ground arith in
        subst Found (sym stop) (Found-none first i seen missing)
    | inr (file, called) ↦ elim (Bool-cases (is_gophercloud file)) [
      | inl inside ↦
          let step : skip_from lib (suc n) i true ≡ skip_from lib n (i + 1) true = ground arith in
          subst Found (sym step) (
            skip_from-inside n (i + 1) first (omega arith)
              (Seen-inside first i seen (file, called, inside)) (omega arith))
      | inr out ↦
          let step : skip_from lib (suc n) i true ≡ i = ground arith in
          subst Found (sym step) (
            inl (record {
              first = first;
              start = seen.start;
              before = l;
              last = omega arith;
              below = seen.below;
              within = seen.within;
              here = (file, called, out);
            }))
    ]
  ]

  skip_from-outside : (n i : ℕ) → i + n ≡ 21 → Seen i i → Found (skip_from lib n i false)
  unfolding skip_from
  skip_from-outside zero i e seen =
      Found-end 21 (subst (λ k. Seen k k) {x = i} {y = 21} (omega arith) seen)
  skip_from-outside (suc n) i e seen = elim (Option-cases (lib.caller i)) [
    | inl missing ↦
        let stop : skip_from lib (suc n) i false ≡ 0 = ground arith in
        subst Found (sym stop) (Found-none i i seen missing)
    | inr (file, called) ↦ elim (Bool-cases (is_gophercloud file)) [
      | inl inside ↦
          let step : skip_from lib (suc n) i false ≡ skip_from lib n (i + 1) true = ground arith in
          subst Found (sym step) (
            skip_from-inside n (i + 1) i (omega arith) (Seen-inside i i seen (file, called, inside))
              (omega arith))
      | inr out ↦
          let step : skip_from lib (suc n) i false ≡ skip_from lib n (i + 1) false = ground arith in
          subst Found (sym step)
            (skip_from-outside n (i + 1) (omega arith) (Seen-outside i seen (file, called, out)))
    ]
  ]

  -- The depth at which a message is logged is that of the first caller of gophercloud that is not
  -- in gophercloud, among the callers at depths 10 to 20, so it lies between 11 and 20; it is 0 if
  -- there is none.
  pub skip-Found : Found (skip lib)
  unfolding skip
  skip-Found = skip_from-outside 11 10 refl (record {
    start = omega arith;
    before = omega arith;
    below = λ k low high. absurd (omega arith);
    within = λ k low high. absurd (omega arith);
  })
