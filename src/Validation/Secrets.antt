-- ===== src/Validation/Secrets.antt =====
-- Which secrets are accepted.
use machine_controller_manag.Base.{
  either, String, true, false, ◌≡◌, ◌≢◌, ◌⊎◌, ◌↔◌, refl, Option, none, some, [], ◌++◌, arith,
}
use machine_controller_manag.Base.Dict.{Dict, lookup}
use machine_controller_manag.Text.{trim_space}
use machine_controller_manag.Config.{MachineProviderConfig}
use machine_controller_manag.Secret.{Secret, entries}
use machine_controller_manag.Secret.Key
use machine_controller_manag.Validation.{
  FieldPath, new_path, reports, is_empty_string_byte_slice, is_missing, is_set, secret_checks,
  validate_secret, validate_user_data, validate_machine_provider_config, validation_errors,
}
use machine_controller_manag.Validation.Reports.{AllClear, reports-nil, append-eq-nil}
use machine_controller_manag.Validation.Spec.{IsValidConfig, validate_machine_provider_config-nil}

-- The key has a value that is not blank.
abbrev pub Has : String → Dict String → Type 0
Has key m = (b : String) × (lookup key m ≡ some b) × (trim_space b ≢ "")

-- A secret with which the program can sign in: an address, a user and a password, one name for
-- the domain and one for the tenant, a key for each certificate, and a flag that can be read.
pub record IsValidSecret (m : Dict String) : Type 0 where
  pub address : Has Key.auth_url m
  pub user : Has Key.username m
  pub password : Has Key.password m
  pub domain : Has Key.domain_name m ⊎ Has Key.domain_id m
  pub tenant : Has Key.tenant_name m ⊎ Has Key.tenant_id m
  pub keyed : (is_set Key.client_cert m ≡ false) ⊎ (is_set Key.client_key m ≡ true)
  pub flag :
      (lookup Key.insecure m ≡ none)
      ⊎ ((lookup Key.insecure m ≡ some "true") ⊎ (lookup Key.insecure m ≡ some "false"))

trim_space-nil : trim_space "" ≡ ""
unfolding trim_space
trim_space-nil = refl

is_missing-false : (key : String) (m : Dict String) → (is_missing key m ≡ false) ↔ Has key m
unfolding is_missing is_empty_string_byte_slice
is_missing-false key m = go (lookup key m) refl
  where
    go : (o : Option String) → lookup key m ≡ o → (is_missing key m ≡ false) ↔ Has key m
    go none e = (λ h. absurd (ground arith), λ (b, e', n). absurd (ground arith))
    go (some b) e = (λ h. (b, e, ground arith), λ (b', e', n). ground (arith, trim_space-nil))

-- The tests of a secret, as they are written, one by one.
abbrev Clear : Dict String → Type 0
Clear m =
    (is_missing Key.auth_url m ≡ false)
    × (is_missing Key.username m ≡ false)
    × (is_missing Key.password m ≡ false)
    × ((is_missing Key.domain_name m ≡ false) ⊎ (is_missing Key.domain_id m ≡ false))
    × ((is_missing Key.tenant_name m ≡ false) ⊎ (is_missing Key.tenant_id m ≡ false))
    × ((is_set Key.client_cert m ≡ false) ⊎ (is_set Key.client_key m ≡ true))
    × ((lookup Key.insecure m ≡ none)
        ⊎ ((lookup Key.insecure m ≡ some "true") ⊎ (lookup Key.insecure m ≡ some "false")))

secret_checks-Clear :
    (m : Dict String) (path : FieldPath) → AllClear (secret_checks m path) ↔ Clear m
unfolding secret_checks
secret_checks-Clear m path = (λ h. ground arith, λ h. ground arith)

Clear-IsValidSecret : (m : Dict String) → Clear m ↔ IsValidSecret m
Clear-IsValidSecret m =
    let has = λ (key : String). is_missing-false key m in
    (
      λ (a, u, p, d, t, k, f). record {
        address = (has Key.auth_url).0 a;
        user = (has Key.username).0 u;
        password = (has Key.password).0 p;
        domain = either (has Key.domain_name).0 (has Key.domain_id).0 d;
        tenant = either (has Key.tenant_name).0 (has Key.tenant_id).0 t;
        keyed = k;
        flag = f;
      },
      λ v. (
        (has Key.auth_url).1 v.address,
        (has Key.username).1 v.user,
        (has Key.password).1 v.password,
        either (has Key.domain_name).1 (has Key.domain_id).1 v.domain,
        either (has Key.tenant_name).1 (has Key.tenant_id).1 v.tenant,
        v.keyed,
        v.flag,
      ),
    )

-- No error is reported for a secret exactly if the program can sign in with it.
pub validate_secret-nil :
    (secret : Secret) → (validate_secret secret ≡ []) ↔ IsValidSecret (entries secret)
unfolding validate_secret
validate_secret-nil secret =
    let clear = reports-nil (secret_checks (entries secret) (new_path "data")) in
    let checked = secret_checks-Clear (entries secret) (new_path "data") in
    let good = Clear-IsValidSecret (entries secret) in
    (λ h. good.0 (checked.0 (clear.0 h)), λ v. clear.1 (checked.1 (good.1 v)))

validate_user_data-nil :
    (secret : Secret) → (validate_user_data secret ≡ []) ↔ Has Key.user_data (entries secret)
unfolding validate_user_data reports
validate_user_data-nil secret =
    let has = is_missing-false Key.user_data (entries secret) in
    (λ h. has.0 (ground arith), λ h. let found = has.1 h in ground arith)

-- The configuration is well formed, and the secret holds what is needed and user data.
pub record IsValidRequest (config : MachineProviderConfig) (secret : Secret) : Type 0 where
  pub configured : IsValidConfig config
  pub signed : IsValidSecret (entries secret)
  pub started : Has Key.user_data (entries secret)

-- A request is accepted exactly if it is valid in all its parts.
pub validation_errors-nil :
    (config : MachineProviderConfig) (secret : Secret)
    → (validation_errors config secret ≡ []) ↔ IsValidRequest config secret
unfolding validation_errors
validation_errors-nil config secret =
    let outer =
      append-eq-nil (validate_machine_provider_config config)
        (validate_secret secret ++ validate_user_data secret) in
    let inner = append-eq-nil (validate_secret secret) (validate_user_data secret) in
    let c = validate_machine_provider_config-nil config in
    let s = validate_secret-nil secret in
    let u = validate_user_data-nil secret in
    (
      λ h.
          let (a, bc) = outer.0 h in
          let (b, d) = inner.0 bc in record { configured = c.0 a; signed = s.0 b; started = u.0 d },
      λ v. outer.1 (c.1 v.configured, inner.1 (s.1 v.signed, u.1 v.started)),
    )
