-- ===== src/Validation/Reports.antt =====
-- No error is reported exactly when every test fails.
use machine_controller_manag.Base.{Bool, true, false, ◌≡◌, ◌↔◌, refl, List, [], ◌∷◌, ◌++◌, All}
use machine_controller_manag.Validation.{FieldError, reports}

-- None of the tests finds a fault.
abbrev pub AllClear : List (Bool × FieldError) → Type 0
AllClear = All (λ check. check.0 ≡ false)

pub reports-nil : (checks : List (Bool × FieldError)) → (reports checks ≡ []) ↔ AllClear checks
unfolding reports
reports-nil [] = (λ h. tt, λ h. refl)
reports-nil ((true, e) ∷ checks) = (λ h. cc, λ h. cc (h.0))
reports-nil ((false, e) ∷ checks) =
    let (there, back) = reports-nil checks in (λ h. (refl, there h), λ h. back h.1)

pub append-eq-nil {ℓ} : {A : Type ℓ} (xs ys : List A) → (xs ++ ys ≡ []) ↔ ((xs ≡ []) × (ys ≡ []))
append-eq-nil [] ys = (λ h. (refl, h), λ h. h.1)
append-eq-nil (x ∷ xs) ys = (λ h. cc, λ h. cc (h.0))
