-- ===== src/Action/Respects.antt =====
-- Calls that only move the world along a preorder, and how they are put together.
use machine_controller_manag.Base.{◌≡◌, Bool, true, false, Option, none, some, if◌then◌else◌}
use mathlib.Core.Path.{subst}
use machine_controller_manag.Errors.{Err}
use machine_controller_manag.Action.{
  Service, Answer, Result, ok, err, panicked, Action, pure, raise, call, deref, try, map_error,
  ◌>>=◌,
}

-- How a world may change: not at all, and in several steps.
pub record Preorder (W : Type 0) : Type 1 where
  pub relates : W → W → Type 0
  pub stays : (w : W) → relates w w
  pub chains : (u v w : W) → relates u v → relates v w → relates u w

module _ {W : Type 0} (O : Preorder W) where
  -- The service moves the world along the preorder.
  abbrev pub Moves : {A : Type 0} → Service W A → Type 0
  Moves f = (w : W) → O.relates w (f w).1

  pub record Respects {A : Type 0} (m : Action W A) : Type 0 where
    pub moves : (w : W) → O.relates w (m w).1

module _ {W : Type 0} {O : Preorder W} where
  pub Respects-pure : {A : Type 0} (a : A) → Respects O (pure a)
  Respects-pure a = record { moves = λ w. O.stays w }

  pub Respects-raise : {A : Type 0} (e : Err) → Respects O {A = A} (raise e)
  Respects-raise e = record { moves = λ w. O.stays w }

  pub Respects-call : {A : Type 0} (f : Service W A) → Moves O f → Respects O (call f)
  Respects-call f h = record { moves = h }

  pub Respects-deref : {A : Type 0} (o : Option A) → Respects O (deref o)
  Respects-deref none = record { moves = λ w. O.stays w }
  Respects-deref (some a) = Respects-pure a

  pub Respects-try :
      {A B : Type 0} (m : Action W A) (h : Err → Action W B) (k : A → Action W B)
      → Respects O m
      → ((e : Err) → Respects O (h e))
      → ((a : A) → Respects O (k a))
      → Respects O (try m h k)
  Respects-try {A} m h k s t u = record { moves = λ w. go w (m w) (s.moves w) }
    where
      go : (w : W) (r : Result A × W) → O.relates w r.1 → O.relates w (try (λ _. r) h k w).1
      go w (ok a, v) p = O.chains w v (k a v).1 p ((u a).moves v)
      go w (err x, v) p = O.chains w v (h x v).1 p ((t x).moves v)
      go w (panicked, v) p = p

  pub Respects-bind :
      {A B : Type 0} (m : Action W A) (k : A → Action W B)
      → Respects O m
      → ((a : A) → Respects O (k a))
      → Respects O (m >>= k)
  Respects-bind m k s u = Respects-try m raise k s Respects-raise u

  pub Respects-map_error :
      {A : Type 0} (f : Err → Err) (m : Action W A) → Respects O m → Respects O (map_error f m)
  Respects-map_error f m s =
      Respects-try m (λ e. raise (f e)) pure s (λ e. Respects-raise (f e)) Respects-pure

  pub Respects-if :
      {A : Type 0} (b : Bool) (m n : Action W A)
      → Respects O m
      → Respects O n
      → Respects O (if b then m else n)
  Respects-if true m n s t = s
  Respects-if false m n s t = t

module _ {W : Type 0} (O : Preorder W) where
  -- A call that has answered has moved the world along the preorder.
  pub called :
      {A : Type 0} (f : Service W A) {v w : W} {a : Answer A}
      → Moves O f
      → f v ≡ (a, w)
      → O.relates v w
  called f {v} h e = subst (λ r. O.relates v r.1) e (h v)

  -- So has a run that has ended.
  pub ran :
      {A : Type 0} {m : Action W A} {v w : W} {r : Result A}
      → Respects O m
      → m v ≡ (r, w)
      → O.relates v w
  ran {v = v} h e = subst (λ r. O.relates v r.1) e (h.moves v)
