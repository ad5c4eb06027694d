-- ===== src/Action/Laws.antt =====
-- Taking a finished call apart: which steps were made, and how each of them ended.
use machine_controller_manag.Base.{◌≡◌, refl, ◌⊎◌, inl, inr, arith}
use machine_controller_manag.Errors.{Err}
use machine_controller_manag.Action.{
  Answer, answer, failure, Service, Result, ok, err, panicked, Action, pure, call, try, map_error,
  ◌>>=◌,
}

module _ {W A B : Type 0} where
  -- A bind that succeeds has run both of its parts.
  pub bind_ok :
      (m : Action W A) (k : A → Action W B) (w : W) {b : B} {w'' : W}
      → (m >>= k) w ≡ (ok b, w'')
      → (a : A) × (w' : W) × (m w ≡ (ok a, w')) × (k a w' ≡ (ok b, w''))
  bind_ok m k w {b} {w''} = go (m w) refl
    where
      go :
          (r : Result A × W)
          → m w ≡ r
          → (m >>= k) w ≡ (ok b, w'')
          → (a : A) × (w' : W) × (m w ≡ (ok a, w')) × (k a w' ≡ (ok b, w''))
      go (ok a, w') e h = (a, w', e, ground arith)
      go (err x, w') e h = absurd (ground arith)
      go (panicked, w') e h = absurd (ground arith)

  -- A bind that fails has failed in its first part or in its second.
  pub bind_err :
      (m : Action W A) (k : A → Action W B) (w : W) {e : Err} {w'' : W}
      → (m >>= k) w ≡ (err e, w'')
      → (m w ≡ (err e, w'')) ⊎ ((a : A) × (w' : W) × (m w ≡ (ok a, w')) × (k a w' ≡ (err e, w'')))
  bind_err m k w {e} {w''} = go (m w) refl
    where
      go :
          (r : Result A × W)
          → m w ≡ r
          → (m >>= k) w ≡ (err e, w'')
          → (m w ≡ (err e, w''))
            ⊎ ((a : A) × (w' : W) × (m w ≡ (ok a, w')) × (k a w' ≡ (err e, w'')))
      go (ok a, w') p h = inr (a, w', p, ground arith)
      go (err x, w') p h = inl (ground arith)
      go (panicked, w') p h = absurd (ground arith)

  -- A call under a handler that succeeds: either the call or its handler has succeeded.
  pub try_ok :
      (m : Action W A) (h : Err → Action W B) (k : A → Action W B) (w : W) {b : B} {w'' : W}
      → try m h k w ≡ (ok b, w'')
      → ((a : A) × (w' : W) × (m w ≡ (ok a, w')) × (k a w' ≡ (ok b, w'')))
        ⊎ ((e : Err) × (w' : W) × (m w ≡ (err e, w')) × (h e w' ≡ (ok b, w'')))
  try_ok m h k w {b} {w''} = go (m w) refl
    where
      go :
          (r : Result A × W)
          → m w ≡ r
          → try m h k w ≡ (ok b, w'')
          → ((a : A) × (w' : W) × (m w ≡ (ok a, w')) × (k a w' ≡ (ok b, w'')))
            ⊎ ((e : Err) × (w' : W) × (m w ≡ (err e, w')) × (h e w' ≡ (ok b, w'')))
      go (ok a, w') p q = inl (a, w', p, ground arith)
      go (err e, w') p q = inr (e, w', p, ground arith)
      go (panicked, w') p q = absurd (ground arith)

module _ {W A : Type 0} where
  pub call_ok :
      (f : Service W A) (w : W) {a : A} {w' : W} → call f w ≡ (ok a, w') → f w ≡ (answer a, w')
  call_ok f w h = ground arith

  pub call_err :
      (f : Service W A) (w : W) {e : Err} {w' : W} → call f w ≡ (err e, w') → f w ≡ (failure e, w')
  call_err f w {e} {w'} = go (f w) refl
    where
      go : (r : Answer A × W) → f w ≡ r → call f w ≡ (err e, w') → f w ≡ (failure e, w')
      go (answer a, v) p h = absurd (ground arith)
      go (failure x, v) p h = ground arith

  pub pure_ok : {a b : A} {w w' : W} → pure a w ≡ (ok b, w') → (a ≡ b) × (w ≡ w')
  pure_ok h = (ground arith, ground arith)

  pub map_error_ok :
      (f : Err → Err) (m : Action W A) (w : W) {a : A} {w' : W}
      → map_error f m w ≡ (ok a, w')
      → m w ≡ (ok a, w')
  map_error_ok f m w h = ground arith

  pub map_error_err :
      (f : Err → Err) (m : Action W A) (w : W) {e : Err} {w' : W}
      → map_error f m w ≡ (err e, w')
      → (x : Err) × (m w ≡ (err x, w')) × (e ≡ f x)
  map_error_err f m w {e} {w'} = go (m w) refl
    where
      go :
          (r : Result A × W)
          → m w ≡ r
          → map_error f m w ≡ (err e, w')
          → (x : Err) × (m w ≡ (err x, w')) × (e ≡ f x)
      go (ok a, v) p h = absurd (ground arith)
      go (err x, v) p h = (x, ground arith, ground arith)
      go (panicked, v) p h = absurd (ground arith)

module _ {W A B : Type 0} where
  -- A call under a handler that fails: the handler has failed, or what follows the call.
  pub try_err :
      (m : Action W A) (h : Err → Action W B) (k : A → Action W B) (w : W) {e : Err} {w'' : W}
      → try m h k w ≡ (err e, w'')
      → ((a : A) × (w' : W) × (m w ≡ (ok a, w')) × (k a w' ≡ (err e, w'')))
        ⊎ ((x : Err) × (w' : W) × (m w ≡ (err x, w')) × (h x w' ≡ (err e, w'')))
  try_err m h k w {e} {w''} = go (m w) refl
    where
      go :
          (r : Result A × W)
          → m w ≡ r
          → try m h k w ≡ (err e, w'')
          → ((a : A) × (w' : W) × (m w ≡ (ok a, w')) × (k a w' ≡ (err e, w'')))
            ⊎ ((x : Err) × (w' : W) × (m w ≡ (err x, w')) × (h x w' ≡ (err e, w'')))
      go (ok a, w') p q = inl (a, w', p, ground arith)
      go (err x, w') p q = inr (x, w', p, ground arith)
      go (panicked, w') p q = absurd (ground arith)

module _ {W A B : Type 0} where
  -- Two binds agree in a world, if their first parts do there and their second parts everywhere.
  pub bind_cong :
      (m m' : Action W A) (k k' : A → Action W B) (w : W)
      → m w ≡ m' w
      → ((a : A) (v : W) → k a v ≡ k' a v)
      → (m >>= k) w ≡ (m' >>= k') w
  bind_cong m m' k k' w p q = go (m w) refl
    where
      go : (r : Result A × W) → m w ≡ r → (m >>= k) w ≡ (m' >>= k') w
      go (ok a, v) e = ground (arith, q a v)
      go (err x, v) e = ground arith
      go (panicked, v) e = ground arith
