-- ===== src/Credentials/Laws.antt =====
-- A secret that validation accepts gives credentials that are complete.
use text.Mathlib.TextEquality.{eq_iff}
use machine_controller_manag.Base.{
  either, string_discrete, String, ◌==◌, true, ◌≡◌, ◌≢◌, ◌⊎◌, ◌↔◌, refl, inl, inr, Option, none,
  some, arith, List, [],
}
use machine_controller_manag.Base.Dict.{Dict, lookup}
use machine_controller_manag.Text.{trim_space}
use machine_controller_manag.Secret.{Secret, entries}
use machine_controller_manag.Secret.Key
use machine_controller_manag.Validation.{is_set, validate_secret}
use machine_controller_manag.Validation.Secrets.{Has, IsValidSecret, validate_secret-nil}
use machine_controller_manag.Action.{Answer, answer, failure}
use machine_controller_manag.Clients.Factory.{Libraries, TlsConfig, client_certificates, tls_config}
use machine_controller_manag.Credentials.{
  Credentials, read_trimmed, extract_credentials, extract_credentials_from_secret,
}

-- What signing in needs: an address, a user, a password, a domain, a tenant, and a key beside a
-- certificate that is not empty.
pub record IsComplete (c : Credentials) : Type 0 where
  pub address : c.auth_url ≢ ""
  pub user : c.username ≢ ""
  pub password : c.password ≢ ""
  pub domain : (c.domain_name ≢ "") ⊎ (c.domain_id ≢ "")
  pub tenant : (c.tenant_name ≢ "") ⊎ (c.tenant_id ≢ "")
  pub keyed :
      (cert : String)
      → c.client_cert ≡ some cert
      → cert ≢ ""
      → (key : String) × (c.client_key ≡ some key) × (key ≢ "")

read_trimmed-Has : (key : String) (m : Dict String) → Has key m → read_trimmed key m ≢ ""
unfolding read_trimmed
read_trimmed-Has key m (b, e, n) = ground arith

set_value :
    (key : String) (m : Dict String)
    → is_set key m ≡ true
    → (b : String) × (lookup key m ≡ some b) × (b ≢ "")
set_value key m h = go (lookup key m) refl
  where
    go : (o : Option String) → lookup key m ≡ o → (b : String) × (lookup key m ≡ some b) × (b ≢ "")
    go none e = absurd (ground arith)
    go (some b) e = (b, e, ground arith)

keyed :
    (m : Dict String)
    → IsValidSecret m
    → (cert : String) → lookup Key.client_cert m ≡ some cert
    → cert ≢ ""
    → (key : String) × (lookup Key.client_key m ≡ some key) × (key ≢ "")
keyed m v cert e n = elim v.keyed [
  | inl unset ↦ absurd (ground arith)
  | inr set ↦ set_value Key.client_key m set
]

-- `true`, `false` and the empty text, trimmed.
trimmed_flags : (trim_space "" ≡ "") × (trim_space "true" ≡ "true") × (trim_space "false" ≡ "false")
unfolding trim_space string_discrete
trimmed_flags = (refl, refl, refl)

other_flags : (◌≢◌ {A = String} "" "true") × (◌≢◌ {A = String} "false" "true")
other_flags = (
  (λ e. absurd (ground (arith, eq_iff "" "true"))),
  (λ e. absurd (ground (arith, eq_iff "false" "true"))),
)

read_flag :
    (m : Dict String)
    → (lookup Key.insecure m ≡ none)
      ⊎ ((lookup Key.insecure m ≡ some "true") ⊎ (lookup Key.insecure m ≡ some "false"))
    → ((read_trimmed Key.insecure m == "true") ≡ true) ↔ (lookup Key.insecure m ≡ some "true")
unfolding read_trimmed
read_flag m f = let (t, t', t'') = trimmed_flags in let (n, n') = other_flags in ground arith

tls_config-flag :
    {G P Q Pool Cert Auth Provider : Type 0} (lib : Libraries G P Q Pool Cert Auth Provider)
    (c : Credentials) (config : TlsConfig Pool Cert)
    → tls_config lib c ≡ answer config
    → config.insecure_skip_verify ≡ c.insecure
unfolding tls_config
tls_config-flag {Cert = Cert} lib c config made = go (client_certificates lib c) refl
  where
    go :
        (r : Answer (List Cert))
        → client_certificates lib c ≡ r
        → config.insecure_skip_verify ≡ c.insecure
    go (answer certificates) e = ground arith
    go (failure e') e = absurd (ground arith)

-- The credentials read from a secret that validation accepts are complete, and wherever the
-- settings of the connection are made from them, these skip the check of certificates exactly if
-- the flag `insecure` of the secret says "true".
pub extract_credentials-IsComplete :
    {G P Q Pool Cert Auth Provider : Type 0} (lib : Libraries G P Q Pool Cert Auth Provider)
    (secret : Secret)
    → validate_secret secret ≡ []
    → let c = extract_credentials_from_secret secret in
      IsComplete c
      × ((config : TlsConfig Pool Cert)
          → tls_config lib c ≡ answer config
          → (config.insecure_skip_verify ≡ true)
            ↔ (lookup Key.insecure (entries secret) ≡ some "true"))
unfolding extract_credentials_from_secret extract_credentials
extract_credentials-IsComplete lib secret h =
    let m = entries secret in
    let v = (validate_secret-nil secret).0 h in
    let has = λ (key : String). read_trimmed-Has key m in
    (
      record {
        address = has Key.auth_url v.address;
        user = has Key.username v.user;
        password = has Key.password v.password;
        domain = either (has Key.domain_name) (has Key.domain_id) v.domain;
        tenant = either (has Key.tenant_name) (has Key.tenant_id) v.tenant;
        keyed = keyed m v;
      },
      (λ config made.
          let carried = tls_config-flag lib (extract_credentials_from_secret secret) config made in
          rw carried (read_flag m v.flag)),
    )
