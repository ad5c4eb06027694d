-- ===== src/Validation.antt =====
-- pkg/apis/validation/validation.go: which requests are refused, with one error for each fault.
pub mod Reports
pub mod Spec
pub mod Secrets
use machine_controller_manag.Base.{
  ℕ, ◌+◌, String, ◌<>◌, ◌==◌, Bool, true, false, not, ◌&&◌, ◌||◌, Option, none, some, List, [], ◌∷◌,
  ◌++◌, if◌then◌else◌,
}
use machine_controller_manag.Base.Int.{is_negative}
use machine_controller_manag.Base.Dict.{Dict, lookup, has_key, keys}
use machine_controller_manag.Text.{trim_space, contains_text}
use machine_controller_manag.Config.{
  MachineProviderConfig, MachineProviderConfigSpec, OpenStackNetwork,
}
use machine_controller_manag.Secret.{Secret, entries}
use machine_controller_manag.Secret.Key
use machine_controller_manag.Executor.Find.{
  server_tag_cluster_prefix, server_tag_role_prefix, search_tags,
}

-- `field.Path`: how it was built.
pub data FieldPath : Type 0 where
  new_path : String → FieldPath
  child : FieldPath → String → FieldPath
  at_index : FieldPath → ℕ → FieldPath
  at_key : FieldPath → String → FieldPath

-- `field.Error`: how it was built, the value that was refused, and the reason.
pub data FieldError : Type 0 where
  required forbidden : FieldPath → String → FieldError
  invalid : FieldPath → String → String → FieldError

-- `if c1 { errs = append(errs, e1) }; if c2 { errs = append(errs, e2) }` and so on
unfoldable pub reports : List (Bool × FieldError) → List FieldError
reports [] = []
reports ((found, e) ∷ checks) = if found then e ∷ reports checks else reports checks

abbrev pub is_no_network : List OpenStackNetwork → Bool
is_no_network [] = true
is_no_network (_ ∷ _) = false

-- the three tests of one listed network
unfoldable pub network_checks : String → FieldPath → OpenStackNetwork → List (Bool × FieldError)
network_checks pod_network_cidr path network =
    (
      network.id == "" && network.name == "",
      required path "at least one of network \"id\" or \"name\" is required",
    )
    ∷ (
      not (network.id == "") && not (network.name == ""),
      forbidden path "simultaneous use of network \"id\" and \"name\" is forbidden",
    )
    ∷ (
      pod_network_cidr == "" && network.pod_network,
      required (child path "podNetwork")
          "\"podNetwork\" switch should not be used in absence of \"spec.podNetworkCidr\"",
    )
    ∷ []

unfoldable pub validate_networks_from :
    ℕ → List OpenStackNetwork → String → FieldPath → List FieldError
validate_networks_from index [] pod_network_cidr path = []
validate_networks_from index (network ∷ networks) pod_network_cidr path =
    reports (network_checks pod_network_cidr (at_index path index) network)
    ++ validate_networks_from (index + 1) networks pod_network_cidr path

unfoldable pub validate_networks : List OpenStackNetwork → String → FieldPath → List FieldError
validate_networks networks pod_network_cidr path =
    validate_networks_from 0 networks pod_network_cidr path

-- The loop over the tags is that of the executor, word for word.
unfoldable pub validate_class_spec_tags : Dict String → FieldPath → List FieldError
validate_class_spec_tags tags path =
    let found = search_tags tags in
    reports (
      (
        found.0 == "",
        required path ("Tag required of the form " <> server_tag_cluster_prefix <> "****"),
      )
      ∷ (
        found.1 == "",
        required path ("Tag required of the form " <> server_tag_role_prefix <> "****"),
      )
      ∷ [])

-- the tests of the fields of the spec
unfoldable pub spec_checks : MachineProviderConfigSpec → FieldPath → List (Bool × FieldError)
spec_checks spec path =
    (
      spec.image_id == "" && spec.image_name == "",
      required (child path "imageName") "ImageName is required if no ImageID is given",
    )
    ∷ (spec.region == "", required (child path "region") "Region is required")
    ∷ (spec.flavor_name == "", required (child path "flavorName") "Flavor is required")
    ∷ (
      spec.availability_zone == "",
      required (child path "availabilityZone") "AvailabilityZone name is required",
    )
    ∷ (spec.key_name == "", required (child path "keyName") "KeyName is required")
    ∷ (
      not (spec.network_id == "") && not (is_no_network spec.networks),
      forbidden (child path "networks")
          "\"networks\" list should not be specified along with \"providerConfig.Spec.NetworkID\"",
    )
    ∷ (
      spec.network_id == "" && is_no_network spec.networks,
      forbidden (child path "networkID") "both \"networks\" and \"networkID\" should not be empty",
    )
    ∷ (
      spec.pod_network_cidr == "",
      required (child path "podNetworkCidr") "PodNetworkCidr is required",
    )
    ∷ (
      is_negative spec.root_disk_size,
      required (child path "rootDiskSize") "RootDiskSize can not be negative",
    )
    ∷ []

unfoldable pub validate_machine_provider_config : MachineProviderConfig → List FieldError
validate_machine_provider_config config =
    reports (spec_checks config.spec (new_path "spec"))
    ++ (validate_networks config.spec.networks config.spec.pod_network_cidr
          (new_path "spec.networks")
        ++ validate_class_spec_tags config.spec.tags (new_path "spec.tags"))

-- `isEmptyStringByteSlice`
unfoldable pub is_empty_string_byte_slice : String → Bool
is_empty_string_byte_slice b = b == "" || trim_space b == ""

-- `b, ok := data[key]; !ok || isEmptyStringByteSlice(b)`
unfoldable pub is_missing : String → Dict String → Bool
is_missing key secret_data = elim (lookup key secret_data) [
  | none ↦ true
  | some b ↦ is_empty_string_byte_slice b
]

-- The value has a length other than 0; a missing one has not.
abbrev pub is_set : String → Dict String → Bool
is_set key secret_data = elim (lookup key secret_data) [ none ↦ false | some b ↦ not (b == "") ]

-- `insecure` is there, and neither "true" nor "false"
abbrev pub is_bad_flag : Option String → Bool
is_bad_flag none = false
is_bad_flag (some flag) = not (flag == "true") && not (flag == "false")

abbrev pub value_of : Option String → String
value_of none = ""
value_of (some b) = b

unfoldable pub secret_checks : Dict String → FieldPath → List (Bool × FieldError)
secret_checks secret_data root =
    (
      is_missing Key.auth_url secret_data,
      required (at_key root Key.auth_url) (Key.auth_url <> " is required"),
    )
    ∷ (
      is_missing Key.username secret_data,
      required (at_key root Key.username) (Key.username <> " is required"),
    )
    ∷ (
      is_missing Key.password secret_data,
      required (at_key root Key.password) (Key.password <> " is required"),
    )
    ∷ (
      is_missing Key.domain_name secret_data && is_missing Key.domain_id secret_data,
      required (at_key root Key.domain_name)
          "one of the following keys is required [domainName|domainID]",
    )
    ∷ (
      is_missing Key.tenant_name secret_data && is_missing Key.tenant_id secret_data,
      required (at_key root Key.tenant_name)
          "one of the following keys is required [tenantName|tenantID]",
    )
    ∷ (
      is_set Key.client_cert secret_data && not (is_set Key.client_key secret_data),
      required (at_key root Key.client_key) "clientKey is required, if clientCert is present",
    )
    ∷ (
      is_bad_flag (lookup Key.insecure secret_data),
      invalid (at_key root Key.insecure) (value_of (lookup Key.insecure secret_data))
          "value does not match expected boolean value [\"true\"|\"false\"]",
    )
    ∷ []

unfoldable pub validate_secret : Secret → List FieldError
validate_secret secret = reports (secret_checks (entries secret) (new_path "data"))

unfoldable pub validate_user_data : Secret → List FieldError
validate_user_data secret = reports (
    (
      is_missing Key.user_data (entries secret),
      required (at_key (new_path "data") Key.user_data) (Key.user_data <> " is required"),
    )
    ∷ [])

-- The list that `ValidateRequest` turns into an error by `ToAggregate`.
unfoldable pub validation_errors : MachineProviderConfig → Secret → List FieldError
validation_errors config secret =
    validate_machine_provider_config config ++ (validate_secret secret ++ validate_user_data secret)
