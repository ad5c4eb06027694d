-- ===== src/Credentials.antt =====
-- pkg/openstack/credentials.go: what is read from a secret to sign in.
pub mod Laws
use machine_controller_manag.Base.{String, ◌==◌, Bool, true, false, Option, none, some}
use machine_controller_manag.Base.Dict.{Dict, lookup}
use machine_controller_manag.Text.{trim_space}
use machine_controller_manag.Secret.{Secret, entries}
use machine_controller_manag.Secret.Key

-- A certificate or key that is nil is `none`.
pub record Credentials : Type 0 where
  pub domain_name : String
  pub domain_id : String
  pub user_domain_name : String
  pub user_domain_id : String
  pub tenant_id : String
  pub tenant_name : String
  pub username : String
  pub ca_cert : Option String
  pub client_key : Option String
  pub client_cert : Option String
  pub insecure : Bool
  pub password : String
  pub auth_url : String

-- `strings.TrimSpace(string(data[key]))`, where a missing key gives the empty text
unfoldable pub read_trimmed : String → Dict String → String
read_trimmed key m = elim (lookup key m) [ none ↦ trim_space "" | some b ↦ trim_space b ]

unfoldable pub extract_credentials : Dict String → Credentials
extract_credentials m = record {
  domain_name = read_trimmed Key.domain_name m;
  domain_id = read_trimmed Key.domain_id m;
  user_domain_name = read_trimmed Key.user_domain_name m;
  user_domain_id = read_trimmed Key.user_domain_id m;
  tenant_id = read_trimmed Key.tenant_id m;
  tenant_name = read_trimmed Key.tenant_name m;
  username = read_trimmed Key.username m;
  ca_cert = lookup Key.ca_cert m;
  client_key = lookup Key.client_key m;
  client_cert = lookup Key.client_cert m;
  insecure = read_trimmed Key.insecure m == "true";
  password = read_trimmed Key.password m;
  auth_url = read_trimmed Key.auth_url m;
}

unfoldable pub extract_credentials_from_secret : Secret → Credentials
extract_credentials_from_secret secret = extract_credentials (entries secret)
