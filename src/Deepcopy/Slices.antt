-- ===== src/Deepcopy/Slices.antt =====
-- `make`, `copy` and the loop that fills a map.
use mathlib.Core.Path.{subst}
use machine_controller_manag.Base.{
  ℕ, zero, suc, String, false, ◌≡◌, ◌≢◌, refl, sym, ap, ◌∙◌, List, [], ◌∷◌, ◌++◌, length, contains,
  append_assoc, append-nil, arith,
}
use machine_controller_manag.Base.Dict.{Dict, insert, keys}

module _ {A : Type 0} where
  -- `make([]A, n)`
  unfoldable pub make_slice : A → ℕ → List A
  make_slice z zero = []
  make_slice z (suc n) = z ∷ make_slice z n

  -- `copy(dst, src)`: the shorter length counts.
  unfoldable pub copy : List A → List A → List A
  copy [] src = []
  copy (d ∷ dst) [] = d ∷ dst
  copy (d ∷ dst) (s ∷ src) = s ∷ copy dst src

  -- A slice that is made as long as another and filled from it is equal to it.
  pub copy-make_slice : (z : A) (xs : List A) → copy (make_slice z (length xs)) xs ≡ xs
  unfolding copy make_slice
  copy-make_slice z [] = refl
  copy-make_slice z (x ∷ xs) = ap (λ l. x ∷ l) (copy-make_slice z xs)

-- `for key, val := range m { out[key] = val }`
unfoldable pub fill_map : Dict String → Dict String → Dict String
fill_map [] out = out
fill_map ((k, v) ∷ m) out = fill_map m (insert k v out)

-- No member is there twice.
abbrev pub Distinct : List String → Type 0
Distinct [] = Unit
Distinct (k ∷ ks) = (contains ks k ≡ false) × Distinct ks

later_key :
    (out : Dict String) (j k v : String) (m : Dict String)
    → contains (keys (out ++ ((k, v) ∷ m))) j ≡ false
    → j ≢ k
later_key [] j k v m h same = ground arith
later_key ((i, w) ∷ out) j k v m h same = later_key out j k v m (ground arith) same

-- A key that comes later is not among the keys before it.
Distinct-before :
    (out : Dict String) (k v : String) (m : Dict String)
    → Distinct (keys (out ++ ((k, v) ∷ m)))
    → contains (keys out) k ≡ false
Distinct-before [] k v m d = refl
Distinct-before ((j, w) ∷ out) k v m (fresh, d) =
    let differ = later_key out j k v m fresh in
    let rest = Distinct-before out k v m d in ground arith

insert-new :
    (k v : String) (out : Dict String)
    → contains (keys out) k ≡ false
    → insert k v out ≡ out ++ ((k, v) ∷ [])
insert-new k v [] h = refl
insert-new k v ((j, w) ∷ out) h = ground (arith, insert-new k v out)

fill_map-append : (m out : Dict String) → Distinct (keys (out ++ m)) → fill_map m out ≡ out ++ m
unfolding fill_map
fill_map-append [] out d = sym (append-nil out)
fill_map-append ((k, v) ∷ m) out d =
    let split = append_assoc out ((k, v) ∷ []) m in
    ap (fill_map m) (insert-new k v out (Distinct-before out k v m d))
    ∙ fill_map-append m (out ++ ((k, v) ∷ [])) (subst (λ l. Distinct (keys l)) (sym split) d)
    ∙ split

-- A map is filled with the entries of another: it is equal to it.
pub fill_map-nil : (m : Dict String) → Distinct (keys m) → fill_map m [] ≡ m
fill_map-nil m d = fill_map-append m [] d
