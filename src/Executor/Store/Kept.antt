-- ===== src/Executor/Store/Kept.antt =====
-- Entries that are kept by their ID, and those that are kept by a test.
use machine_controller_manag.Base.{
  Bool, String, true, ◌≡◌, refl, ◌==◌, ◌&&◌, List, [], ◌∷◌, keep, arith, Bool-cases, inl, inr,
}
use machine_controller_manag.Executor.Store.{Entry, has_id, lacks_id}

-- The test, on entries with another ID.
abbrev pub other : (Entry → Bool) → String → Entry → Bool
other p id entry = p entry && lacks_id id entry

module _ (p : Entry → Bool) (id : String) where
  -- If no entry with the ID and no other passes, none does.
  pub keep_none :
      (entries : List Entry)
      → keep (has_id id) entries ≡ []
      → keep (other p id) entries ≡ []
      → keep p entries ≡ []
  keep_none [] h h' = refl
  keep_none (e ∷ entries) h h' = let rest = keep_none entries in ground arith

  -- If one entry has the ID and passes, and no other passes, it is the one that does.
  pub keep_one :
      (entry : Entry) (entries : List Entry)
      → keep (has_id id) entries ≡ entry ∷ []
      → keep (other p id) entries ≡ []
      → p entry ≡ true
      → keep p entries ≡ entry ∷ []
  keep_one entry [] h h' t = absurd (ground arith)
  keep_one entry (e ∷ entries) h h' t = elim (Bool-cases (e.id == id)) [
    | inl here ↦
        let same : e ≡ entry = ground arith in let none_left = keep_none entries in ground arith
    | inr there ↦ let rest = keep_one entry entries in ground arith
  ]

  -- What no entry passes, no other entry passes.
  pub keep-other_none :
      (entries : List Entry) → keep p entries ≡ [] → keep (other p id) entries ≡ []
  keep-other_none [] h = refl
  keep-other_none (e ∷ entries) h = let rest = keep-other_none entries in ground arith

-- If one entry passes, no entry with another ID does.
pub keep-other_one :
    (p : Entry → Bool) (entry : Entry) (entries : List Entry)
    → keep p entries ≡ entry ∷ []
    → keep (other p entry.id) entries ≡ []
keep-other_one p entry [] h = refl
keep-other_one p entry (e ∷ entries) h = elim (Bool-cases (p e)) [
  | inl passes ↦
      let same : e ≡ entry = ground arith in
      let rest = keep-other_none p entry.id entries in ground arith
  | inr fails ↦ let rest = keep-other_one p entry entries in ground arith
]
