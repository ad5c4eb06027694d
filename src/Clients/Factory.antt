-- ===== src/Clients/Factory.antt =====
-- pkg/openstack/factory.go: signing in with a secret, and making the clients for a region.
use machine_controller_manag.Base.{String, Bool, Option, none, some, List, [], ◌∷◌}
use machine_controller_manag.Action.{Answer, answer, failure, Service}
use machine_controller_manag.Errors.{Err, errorf, errorf_v}
use machine_controller_manag.Cloud.{Compute, Network}
use machine_controller_manag.Clients.Metrics.{Counted}
use machine_controller_manag.Clients.Nova.{NovaApi, nova_v2}
use machine_controller_manag.Clients.Neutron.{NeutronApi, neutron_v2}
use machine_controller_manag.Secret.{Secret}
use machine_controller_manag.Credentials.{Credentials, extract_credentials_from_secret}

-- `gophercloud.EndpointOpts`, as far as the program sets it.
pub record EndpointOpts : Type 0 where
  pub region : String

abbrev pub no_opts : EndpointOpts
no_opts = record { region = "" }

-- `Option`
abbrev pub ClientOption : Type 0
ClientOption = EndpointOpts → EndpointOpts

unfoldable pub with_region : String → ClientOption
with_region region opts = record opts { region = region }

-- `for _, opt := range opts { eo = opt(eo) }`
unfoldable pub apply_options : List ClientOption → EndpointOpts → EndpointOpts
apply_options [] eo = eo
apply_options (opt ∷ opts) eo = apply_options opts (opt eo)

-- `Factory`: the interface.
pub record Factory (W : Type 0) : Type 0 where
  pub compute : List ClientOption → Answer (Compute W)
  pub network : List ClientOption → Answer (Network W)

-- `clientconfig.AuthInfo`
pub record AuthInfo : Type 0 where
  pub auth_url : String
  pub username : String
  pub password : String
  pub domain_name : String
  pub domain_id : String
  pub project_name : String
  pub project_id : String
  pub user_domain_name : String
  pub user_domain_id : String

-- `tls.Config`, as far as the program sets it.
pub record TlsConfig (Pool Cert : Type 0) : Type 0 where
  pub root_cas : Option Pool
  pub insecure_skip_verify : Bool
  pub certificates : List Cert

-- What the libraries offer: certificates, the options and the sign-in of gophercloud, and its
-- service clients, each with the calls that are made on it.
pub record Libraries (G P Q Pool Cert Auth Provider : Type 0) : Type 0 where
  pub pool_of_pem : String → Pool
  pub x509_key_pair : String → String → Answer Cert
  pub auth_options : AuthInfo → Answer Auth
  pub new_client : Auth → Answer Provider
  pub set_transport : TlsConfig Pool Cert → Provider → Provider
  pub authenticate : Provider → Auth → Service G Provider
  pub new_compute_v2 : Provider → EndpointOpts → Answer (NovaApi G P)
  pub new_network_v2 : Provider → EndpointOpts → Answer (NeutronApi G Q)

abbrev pub then_answer : {A B : Type 0} → (Err → Err) → Answer A → (A → Answer B) → Answer B
then_answer f (answer a) k = k a
then_answer f (failure e) k = failure (f e)

module _ {G P Q Pool Cert Auth Provider : Type 0}
    (lib : Libraries G P Q Pool Cert Auth Provider) where
  -- the client's certificate and key
  unfoldable pub client_certificates : Credentials → Answer (List Cert)
  client_certificates c = elim c.client_cert [
    | none ↦ answer []
    | some cert ↦
        then_answer (errorf_v "failed to create X509 key pair: %v" [])
          (lib.x509_key_pair cert (elim c.client_key [ none ↦ "" | some key ↦ key ]))
          (λ pair. answer (pair ∷ []))
  ]

  unfoldable pub tls_config : Credentials → Answer (TlsConfig Pool Cert)
  tls_config c =
      then_answer (λ e. e) (client_certificates c)
        λ certificates. answer (record {
          root_cas = elim c.ca_cert [ none ↦ none | some pem ↦ some (lib.pool_of_pem pem) ];
          insecure_skip_verify = c.insecure;
          certificates = certificates;
        })

  unfoldable pub auth_info : Credentials → AuthInfo
  auth_info c = record {
    auth_url = c.auth_url;
    username = c.username;
    password = c.password;
    domain_name = c.domain_name;
    domain_id = c.domain_id;
    project_name = c.tenant_name;
    project_id = c.tenant_id;
    user_domain_name = c.user_domain_name;
    user_domain_id = c.user_domain_id;
  }

  -- up to the sign-in, which alone talks to the cloud
  unfoldable pub prepare_client : Credentials → Answer (Provider × Auth)
  prepare_client c =
      then_answer (λ e. e) (tls_config c)
        λ config.
          then_answer (errorf_v "failed to create client auth options: %v" [])
            (lib.auth_options (auth_info c))
            λ auth.
              then_answer (errorf_v "failed to create authenticated client: %v" [])
                (lib.new_client auth) λ provider. answer (lib.set_transport config provider, auth)

  unfoldable pub new_authenticated_provider_client_from_credentials :
      Credentials → Service (Counted G) Provider
  new_authenticated_provider_client_from_credentials c w = elim (prepare_client c) [
    | answer (provider, auth) ↦
        let (r, g) = lib.authenticate provider auth w.api in (r, record w { api = g })
    | failure e ↦ (failure e, w)
  ]

  unfoldable pub new_nova_v2 : Provider → EndpointOpts → Answer (Compute (Counted G))
  new_nova_v2 provider eo =
      then_answer (errorf_v "could not initialize compute client: %v" [])
        (lib.new_compute_v2 provider eo) (λ compute. answer (nova_v2 compute))

  unfoldable pub new_neutron_v2 : Provider → EndpointOpts → Answer (Network (Counted G))
  new_neutron_v2 provider eo =
      then_answer (errorf_v "could not initialize network client: %v" [])
        (lib.new_network_v2 provider eo) (λ nw. answer (neutron_v2 nw))

  -- `ClientFactory.Compute`
  unfoldable pub compute : Provider → List ClientOption → Answer (Compute (Counted G))
  compute provider opts = new_nova_v2 provider (apply_options opts no_opts)

  -- `ClientFactory.Network`: the options are applied and then dropped.
  unfoldable pub network : Provider → List ClientOption → Answer (Network (Counted G))
  network provider opts =
      let dropped = apply_options opts no_opts in new_neutron_v2 provider no_opts

  -- `ClientFactory` as a `Factory`.
  unfoldable pub client_factory : Provider → Factory (Counted G)
  client_factory provider = record { compute = compute provider; network = network provider }

  unfoldable pub new_client_factory_from_secret : Secret → Service (Counted G) (Factory (Counted G))
  new_client_factory_from_secret secret w = elim secret.data_map [
    | none ↦ (failure (errorf "secret does not contain any data" []), w)
    | some m ↦
        let (r, w') =
          new_authenticated_provider_client_from_credentials
            (extract_credentials_from_secret secret) w in
        (
          then_answer (errorf_v "error creating OpenStack client from credentials: %v" []) r
              (λ provider. answer (client_factory provider)),
          w',
        )
  ]
