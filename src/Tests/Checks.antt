-- ===== src/Tests/Checks.antt =====
-- The theorems on validation and credentials, at the configuration and the secret.
use machine_controller_manag.Base.{string_discrete, ◌≡◌, ◌↔◌, refl, true, some, [], inl, inr}
use machine_controller_manag.Base.Dict.{lookup}
use machine_controller_manag.Text.{trim_space}
use machine_controller_manag.Secret.{entries}
use machine_controller_manag.Secret.Key
use machine_controller_manag.Validation.{validation_errors}
use machine_controller_manag.Validation.Spec.{tags_found}
use machine_controller_manag.Validation.Secrets.{
  validate_secret-nil, IsValidRequest, validation_errors-nil,
}
use machine_controller_manag.Action.{answer}
use machine_controller_manag.Clients.Factory.{TlsConfig, tls_config}
use machine_controller_manag.Tests.Clients.{library}
use machine_controller_manag.Credentials.{extract_credentials_from_secret}
use machine_controller_manag.Action.{answer}
use machine_controller_manag.Clients.Factory.{TlsConfig, tls_config}
use machine_controller_manag.Tests.Clients.{library}
use machine_controller_manag.Credentials.Laws.{IsComplete, extract_credentials-IsComplete}
use machine_controller_manag.Tests.Finding.{has_tag_names}
use machine_controller_manag.Tests.World.{differ, tags, spec, configured, secret}

validation_errors-nil_example :
    (validation_errors (configured spec) secret ≡ []) ↔ IsValidRequest (configured spec) secret
validation_errors-nil_example = validation_errors-nil (configured spec) secret

pub IsValidRequest_example : IsValidRequest (configured spec) secret
unfolding string_discrete trim_space
IsValidRequest_example = record {
  configured = record {
    fields = record {
      image = inr (differ "linux" "" refl);
      region = differ "eu" "" refl;
      flavor = differ "small" "" refl;
      zone = differ "a" "" refl;
      key = differ "ssh" "" refl;
      networks = inl (differ "n-1" "" refl, refl);
      cidr = differ "10.0.0.0/8" "" refl;
      disk = refl;
    };
    listed = tt;
    tagged = (tags_found tags).1 has_tag_names;
  };
  signed = record {
    address = ("https://cloud", refl, differ "https://cloud" "" refl);
    user = ("user", refl, differ "user" "" refl);
    password = ("word", refl, differ "word" "" refl);
    domain = inl ("domain", refl, differ "domain" "" refl);
    tenant = inl ("tenant", refl, differ "tenant" "" refl);
    keyed = inl refl;
    flag = inr (inl refl);
  };
  started = ("start", refl, differ "start" "" refl);
}

extract_credentials-IsComplete_example :
    let c = extract_credentials_from_secret secret in
    IsComplete c
    × ((config : TlsConfig (Unit {0}) (Unit {0}))
        → tls_config library c ≡ answer config
        → (config.insecure_skip_verify ≡ true)
          ↔ (lookup Key.insecure (entries secret) ≡ some "true"))
extract_credentials-IsComplete_example =
    extract_credentials-IsComplete library secret
      ((validate_secret-nil secret).1 IsValidRequest_example.signed)
