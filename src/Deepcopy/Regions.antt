-- ===== src/Deepcopy/Regions.antt =====
-- Old cells and new ones: what an allocation leaves alone, and what a copied reference reads.
use machine_controller_manag.Base.{ℕ, ◌≤◌, ◌<◌, ◌≡◌, refl, ap, ◌∙◌, Option, none, some, arith}
use machine_controller_manag.Deepcopy.Memory.{Ref, Cell, Heap, alloc, write}
use machine_controller_manag.Deepcopy.{copy_ref}

-- What a reference leads to.
abbrev pub read : {V : Type 0} → (Cell → V) → Heap → Ref → Option V
read view h none = none
read view h (some p) = some (view (h.cells p))

-- The reference is nil, or leads to a cell in use.
abbrev pub InUse : Heap → Ref → Type 0
InUse h none = Unit
InUse h (some p) = p < h.next

abbrev pub SameBelow : ℕ → Heap → Heap → Type 0
SameBelow n g h = (a : ℕ) → a < n → g.cells a ≡ h.cells a

abbrev pub SameFrom : ℕ → Heap → Heap → Type 0
SameFrom n g h = (a : ℕ) → n ≤ a → g.cells a ≡ h.cells a

-- The second memory has more cells in use, and those in use before hold what they held.
pub record Extends (h h' : Heap) : Type 0 where
  pub grown : h.next ≤ h'.next
  pub old : SameBelow h.next h' h

pub Extends-refl : (h : Heap) → Extends h h
Extends-refl h = record { grown = omega arith; old = λ a l. refl }

pub Extends-trans : (f g h : Heap) → Extends f g → Extends g h → Extends f h
Extends-trans f g h p q =
    let up = p.grown in
    let more = q.grown in
    record { grown = omega arith; old = λ a l. q.old a (omega arith) ∙ p.old a l }

pub alloc-Extends : (c : Cell) (h : Heap) → Extends h (alloc c h).1
alloc-Extends c h = record { grown = omega arith; old = λ a l. ground arith }

pub alloc-new : (c : Cell) (h : Heap) → (alloc c h).1.cells h.next ≡ c
alloc-new c h = ground arith

pub copy_ref-Extends : (f : Cell → Cell) (r : Ref) (h : Heap) → Extends h (copy_ref f r h).1
unfolding copy_ref
copy_ref-Extends f none h = Extends-refl h
copy_ref-Extends f (some p) h = alloc-Extends (f (h.cells p)) h

-- A write to a cell that was not in use leaves the others alone.
pub write-Extends :
    (p : ℕ) (c : Cell) (h h' : Heap) → Extends h h' → h.next ≤ p → Extends h (write (some p) c h')
write-Extends p c h h' e new = record {
  grown = e.grown;
  old = λ a l. let o = e.old a l in ground arith;
}

pub write-new : (p : ℕ) (c : Cell) (h : Heap) → (write (some p) c h).cells p ≡ c
write-new p c h = ground arith

pub write-other :
    (p : ℕ) (c : Cell) (h : Heap) (a : ℕ) → p < a → (write (some p) c h).cells a ≡ h.cells a
write-other p c h a l = ground arith

-- A memory that agrees with an extension agrees with what was extended.
pub SameBelow-Extends :
    (h h' g : Heap) → Extends h h' → SameBelow h.next g h' → SameBelow h.next g h
SameBelow-Extends h h' g e same a l = same a l ∙ e.old a l

pub InUse-Extends : (r : Ref) (h h' : Heap) → Extends h h' → InUse h r → InUse h' r
InUse-Extends none h h' e used = tt
InUse-Extends (some p) h h' e used = let up = e.grown in omega arith

module _ {V : Type 0} (view : Cell → V) where
  pub read-old :
      (r : Ref) (g h : Heap) → InUse h r → SameBelow h.next g h → read view g r ≡ read view h r
  read-old none g h used same = refl
  read-old (some p) g h used same = ap (λ c. some (view c)) (same p used)

  -- A reference that was copied at some stage `h` reads, in every memory that has the new cells of
  -- the last stage, as the original did at the start.
  pub copy_ref-read :
      (f : Cell → Cell) (r : Ref) (start h end g : Heap)
      → Extends start h
      → Extends (copy_ref f r h).1 end
      → SameFrom start.next g end
      → InUse start r
      → ((p : ℕ) → r ≡ some p → view (f (start.cells p)) ≡ view (start.cells p))
      → read view g (copy_ref f r h).0 ≡ read view start r
  unfolding copy_ref
  copy_ref-read f none start h end g before after same used equal = refl
  copy_ref-read f (some p) start h end g before after same used equal =
      let kept = before.old p used in
      let seen =
        same h.next before.grown ∙ after.old h.next (omega arith) ∙ alloc-new (f (h.cells p)) h in
      ap (λ c. some (view c)) seen ∙ ap (λ c. some (view (f c))) kept ∙ ap some (equal p refl)
