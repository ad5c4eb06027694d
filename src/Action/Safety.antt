-- ===== src/Action/Safety.antt =====
-- Calls that do not panic, and how they are put together.
use machine_controller_manag.Base.{
  ◌≡◌, ◌≢◌, refl, ap, Bool, true, false, Option, none, some, if◌then◌else◌, arith,
}
use machine_controller_manag.Errors.{Err}
use machine_controller_manag.Action.{
  Answer, of_answer, answer, failure, Service, Result, ok, err, panicked, Action, pure, raise, call,
  deref, try, map_error, ◌>>=◌,
}

-- The call does not panic, in any world.
pub record Safe {W A : Type 0} (m : Action W A) : Type 0 where
  pub answers : (w : W) → (m w).0 ≢ panicked

module _ {W : Type 0} where
  pub Safe-pure : {A : Type 0} (a : A) → Safe {W = W} (pure a)
  Safe-pure a = record { answers = λ w h. cc }

  pub Safe-raise : {A : Type 0} (e : Err) → Safe {W = W} {A = A} (raise e)
  Safe-raise e = record { answers = λ w h. cc }

  pub Safe-call : {A : Type 0} (f : Service W A) → Safe (call f)
  Safe-call {A} f = record { answers = λ w. go (f w) }
    where
      go : (r : Answer A × W) → of_answer r.0 ≢ panicked
      go (answer a, w) h = cc
      go (failure e, w) h = cc

  pub Safe-try :
      {A B : Type 0} (m : Action W A) (h : Err → Action W B) (k : A → Action W B)
      → Safe m
      → ((e : Err) → Safe (h e))
      → ((a : A) → Safe (k a))
      → Safe (try m h k)
  Safe-try {A} m h k s t u = record { answers = λ w. go w (m w) refl }
    where
      go : (w : W) (r : Result A × W) → m w ≡ r → (try m h k w).0 ≢ panicked
      go w (ok a, w') e = rw (e, try) (rw e ((u a).answers w'))
      go w (err x, w') e = rw (e, try) (rw e ((t x).answers w'))
      go w (panicked, w') e = absurd (s.answers w (ap (λ p. p.0) e))

  pub Safe-bind :
      {A B : Type 0} (m : Action W A) (k : A → Action W B)
      → Safe m
      → ((a : A) → Safe (k a))
      → Safe (m >>= k)
  Safe-bind m k s u = Safe-try m raise k s Safe-raise u

  pub Safe-map_error : {A : Type 0} (f : Err → Err) (m : Action W A) → Safe m → Safe (map_error f m)
  Safe-map_error f m s = Safe-try m (λ e. raise (f e)) pure s (λ e. Safe-raise (f e)) Safe-pure

  pub Safe-if :
      {A : Type 0} (b : Bool) (m n : Action W A) → Safe m → Safe n → Safe (if b then m else n)
  Safe-if true m n s t = s
  Safe-if false m n s t = t

  -- A branch may use the test that leads to it.
  pub Safe-if_known :
      {A : Type 0} (b : Bool) (m n : Action W A)
      → (b ≡ true → Safe m)
      → (b ≡ false → Safe n)
      → Safe (if b then m else n)
  Safe-if_known true m n s t = s refl
  Safe-if_known false m n s t = t refl

  pub Safe-deref : {A : Type 0} (o : Option A) → o ≢ none → Safe {W = W} (deref o)
  Safe-deref none h = absurd (h refl)
  Safe-deref (some a) h = Safe-pure a

  -- A call under a handler does not panic in `w`, if no answer that it gives there leads to one.
  pub try-answers :
      {A B : Type 0} (m : Action W A) (h : Err → Action W B) (k : A → Action W B) (w : W)
      → (m w).0 ≢ panicked
      → ((e : Err) → Safe (h e))
      → ((a : A) → (m w).0 ≡ ok a → Safe (k a))
      → (try m h k w).0 ≢ panicked
  try-answers {A} m h k w s t u = go (m w) refl
    where
      go : (r : Result A × W) → m w ≡ r → (try m h k w).0 ≢ panicked
      go (ok a, w') e = rw (e, try) (rw e ((u a (ap (λ p. p.0) e)).answers w'))
      go (err x, w') e = rw (e, try) (rw e ((t x).answers w'))
      go (panicked, w') e = absurd (s (ap (λ p. p.0) e))

  pub some-answers :
      {A : Type 0} (m : Action W A) (w : W)
      → Safe m
      → let r = ((m >>= λ a. pure (some a)) w).0 in (r ≢ ok none) × (r ≢ panicked)
  some-answers m w s = let h = s.answers w in ground arith
