-- ===== src/Validation/Spec.antt =====
-- A configuration is accepted exactly if it is well formed.
use machine_controller_manag.Base.{
  ℕ, ◌+◌, String, false, ◌≡◌, ◌≢◌, ◌⊎◌, ◌↔◌, refl, List, [], ◌∷◌, ◌++◌, arith, All,
}
use machine_controller_manag.Base.Int.{is_negative}
use machine_controller_manag.Base.Dict.{Dict, keys}
use machine_controller_manag.Config.{
  MachineProviderConfig, MachineProviderConfigSpec, OpenStackNetwork,
}
use machine_controller_manag.Executor.Find.{search_tags}
use machine_controller_manag.Executor.Find.Tags.{
  NoneOf, is_cluster_tag, is_role_tag, search_tags_missing,
}
use machine_controller_manag.Validation.{
  FieldPath, new_path, at_index, reports, network_checks, validate_networks_from, validate_networks,
  validate_class_spec_tags, spec_checks, validate_machine_provider_config,
}
use machine_controller_manag.Validation.Reports.{AllClear, reports-nil, append-eq-nil}

-- A listed network has an ID or a name, not both; it may carry pods only if there is a range.
pub record IsValidNetwork (cidr : String) (network : OpenStackNetwork) : Type 0 where
  pub named : ((network.id ≢ "") × (network.name ≡ "")) ⊎ ((network.id ≡ "") × (network.name ≢ ""))
  pub ranged : (cidr ≢ "") ⊎ (network.pod_network ≡ false)

-- The texts that are needed are there, networks are given in one of the two ways, and the disk
-- size is not negative.
pub record IsValidSpec (spec : MachineProviderConfigSpec) : Type 0 where
  pub image : (spec.image_id ≢ "") ⊎ (spec.image_name ≢ "")
  pub region : spec.region ≢ ""
  pub flavor : spec.flavor_name ≢ ""
  pub zone : spec.availability_zone ≢ ""
  pub key : spec.key_name ≢ ""
  pub networks :
      ((spec.network_id ≢ "") × (spec.networks ≡ []))
      ⊎ ((spec.network_id ≡ "") × (spec.networks ≢ []))
  pub cidr : spec.pod_network_cidr ≢ ""
  pub disk : is_negative spec.root_disk_size ≡ false

network_checks-clear :
    (cidr : String) (path : FieldPath) (network : OpenStackNetwork)
    → AllClear (network_checks cidr path network) ↔ IsValidNetwork cidr network
unfolding network_checks
network_checks-clear cidr path network = (λ h. ground arith, λ h. ground arith)

spec_checks-clear :
    (spec : MachineProviderConfigSpec) (path : FieldPath)
    → AllClear (spec_checks spec path) ↔ IsValidSpec spec
unfolding spec_checks
spec_checks-clear spec path = (λ h. ground arith, λ h. ground arith)

-- Every listed network is well formed.
abbrev pub AreValidNetworks : String → List OpenStackNetwork → Type 0
AreValidNetworks cidr = All (IsValidNetwork cidr)

validate_networks_from-nil :
    (index : ℕ) (networks : List OpenStackNetwork) (cidr : String) (path : FieldPath)
    → (validate_networks_from index networks cidr path ≡ []) ↔ AreValidNetworks cidr networks
unfolding validate_networks_from
validate_networks_from-nil index [] cidr path = (λ h. tt, λ h. refl)
validate_networks_from-nil index (network ∷ networks) cidr path =
    let checks = network_checks cidr (at_index path index) network in
    let split =
      append-eq-nil (reports checks) (validate_networks_from (index + 1) networks cidr path) in
    let (clear, unclear) = reports-nil checks in
    let (good, bad) = network_checks-clear cidr (at_index path index) network in
    let (rest, unrest) = validate_networks_from-nil (index + 1) networks cidr path in
    (
      λ h. (good (clear (split.0 h).0), rest (split.0 h).1),
      λ h. split.1 (unclear (bad h.0), unrest h.1),
    )

-- Both tags are configured: some key is a cluster tag, and some key is a role tag.
abbrev pub HasTags : Dict String → Type 0
HasTags tags = (¬ NoneOf is_cluster_tag (keys tags)) × (¬ NoneOf is_role_tag (keys tags))

pub tags_found :
    (tags : Dict String)
    → HasTags tags ↔ (((search_tags tags).0 ≢ "") × ((search_tags tags).1 ≢ ""))
tags_found tags =
    let (cluster, role) = search_tags_missing tags in
    (
      λ h. ((λ e. h.0 (cluster.0 e)), (λ e. h.1 (role.0 e))),
      λ h. ((λ n. h.0 (cluster.1 n)), (λ n. h.1 (role.1 n))),
    )

validate_class_spec_tags-nil :
    (tags : Dict String) (path : FieldPath)
    → (validate_class_spec_tags tags path ≡ []) ↔ HasTags tags
unfolding validate_class_spec_tags reports
validate_class_spec_tags-nil tags path =
    let (there, back) = tags_found tags in
    (λ h. back (ground arith), λ h. let (c, r) = there h in ground arith)

-- The whole configuration is well formed.
pub record IsValidConfig (config : MachineProviderConfig) : Type 0 where
  pub fields : IsValidSpec config.spec
  pub listed : AreValidNetworks config.spec.pod_network_cidr config.spec.networks
  pub tagged : HasTags config.spec.tags

-- No error is reported exactly for the configurations that are well formed: the needed texts are
-- there, networks are given by one ID or by a list and never both, each listed network has one of
-- ID and name, the disk size is not negative, and both tags are configured.
pub validate_machine_provider_config-nil :
    (config : MachineProviderConfig)
    → (validate_machine_provider_config config ≡ []) ↔ IsValidConfig config
unfolding validate_machine_provider_config validate_networks
validate_machine_provider_config-nil config =
    let spec = config.spec in
    let path = new_path "spec.networks" in
    let own = spec_checks spec (new_path "spec") in
    let networks = validate_networks_from 0 spec.networks spec.pod_network_cidr path in
    let tags = validate_class_spec_tags spec.tags (new_path "spec.tags") in
    let outer = append-eq-nil (reports own) (networks ++ tags) in
    let inner = append-eq-nil networks tags in
    let clear = reports-nil own in
    let good = spec_checks-clear spec (new_path "spec") in
    let nets = validate_networks_from-nil 0 spec.networks spec.pod_network_cidr path in
    let tagged = validate_class_spec_tags-nil spec.tags (new_path "spec.tags") in
    (
      λ h.
          let (a, bc) = outer.0 h in
          let (b, c) = inner.0 bc in
          record { fields = good.0 (clear.0 a); listed = nets.0 b; tagged = tagged.0 c },
      λ v. outer.1 (clear.1 (good.1 v.fields), inner.1 (nets.1 v.listed, tagged.1 v.tagged)),
    )
