-- ===== src/Action.antt =====
-- A call of the program: it reads and changes the world outside, and returns a value, returns an
-- error, or panics (a nil pointer is read). Libraries and services answer without a panic.
pub mod Laws
pub mod Safety
pub mod Respects
use machine_controller_manag.Base.{Option, none, some}
use machine_controller_manag.Errors.{Err}

pub data Answer (A : Type 0) : Type 0 where
  answer : A → Answer A
  failure : Err → Answer A

pub data Result (A : Type 0) : Type 0 where
  ok : A → Result A
  err : Err → Result A
  panicked : Result A

abbrev pub Service : Type 0 → Type 0 → Type 0
Service W A = W → Answer A × W

abbrev pub Action : Type 0 → Type 0 → Type 0
Action W A = W → Result A × W

abbrev pub of_answer : {A : Type 0} → Answer A → Result A
of_answer (answer a) = ok a
of_answer (failure e) = err e

module _ {W A : Type 0} where
  abbrev pub pure : A → Action W A
  pure a w = (ok a, w)

  abbrev pub raise : Err → Action W A
  raise e w = (err e, w)

  abbrev pub panic : Action W A
  panic w = (panicked, w)

  -- A call of a service.
  abbrev pub call : Service W A → Action W A
  call f w = let (r, w') = f w in (of_answer r, w')

  -- Reading through a pointer.
  abbrev pub deref : Option A → Action W A
  deref none = panic
  deref (some a) = pure a

-- `a, err := m; if err != nil { h err }; k a`
abbrev pub try : {W A B : Type 0} → Action W A → (Err → Action W B) → (A → Action W B) → Action W B
try m h k w = let (r, w') = m w in elim r [ ok a ↦ k a w' | err e ↦ h e w' | panicked ↦ panic w' ]

infixl 5 ◌>>=◌ ◌>>◌
abbrev pub ◌>>=◌ : {W A B : Type 0} → Action W A → (A → Action W B) → Action W B
m >>= k = try m raise k

abbrev pub ◌>>◌ : {W A B : Type 0} → Action W A → Action W B → Action W B
m >> k = m >>= λ _. k

-- `if err != nil { return f err }`
abbrev pub map_error : {W A : Type 0} → (Err → Err) → Action W A → Action W A
map_error f m = try m (λ e. raise (f e)) pure
