-- ===== src/Driver/Conversion/Laws.antt =====
-- What conversions keep, and what becomes of a migrated machine class.
use machine_controller_manag.Base.{
  String, ◌≡◌, ◌≢◌, ◌⊎◌, ◌↔◌, refl, ap, inl, inr, false, List, [], ◌∷◌, All, arith,
}
use machine_controller_manag.Base.Int.{is_negative}
use machine_controller_manag.Config.{OpenStackNetwork, MachineProviderConfig}
use machine_controller_manag.Validation.{validate_machine_provider_config}
use machine_controller_manag.Validation.Spec.{
  HasTags, IsValidNetwork, validate_machine_provider_config-nil,
}
use machine_controller_manag.Driver.Migrate.{
  NetworkV1alpha1, ConfigV1alpha1, ClassNetwork, ClassSpec, migrated_config, migrate_networks,
}
use machine_controller_manag.Driver.Migrate.Laws.{Copied, nothing, one, Copied-migrate_networks}
use machine_controller_manag.Driver.Conversion.{
  network_to_internal, network_to_v1alpha1, networks_to_internal, networks_to_v1alpha1,
  spec_to_internal, spec_to_v1alpha1, config_to_internal, config_to_v1alpha1,
}

networks-internal :
    (networks : List OpenStackNetwork)
    → networks_to_internal (networks_to_v1alpha1 networks) ≡ networks
unfolding networks_to_internal networks_to_v1alpha1 network_to_internal network_to_v1alpha1
networks-internal [] = refl
networks-internal (network ∷ networks) = ap (λ rest. network ∷ rest) (networks-internal networks)

networks-v1alpha1 :
    (networks : List NetworkV1alpha1)
    → networks_to_v1alpha1 (networks_to_internal networks) ≡ networks
unfolding networks_to_internal networks_to_v1alpha1 network_to_internal network_to_v1alpha1
networks-v1alpha1 [] = refl
networks-v1alpha1 (network ∷ networks) = ap (λ rest. network ∷ rest) (networks-v1alpha1 networks)

-- Converting a configuration to the other version and back, in either direction, gives the same
-- configuration with the kind and the version of the target.
pub conversions_round_trip :
    (internal : MachineProviderConfig) (versioned : ConfigV1alpha1) (out : MachineProviderConfig)
    (out' : ConfigV1alpha1)
    → (config_to_internal (config_to_v1alpha1 internal out') out
        ≡ record internal { type_meta = out.type_meta })
      × (config_to_v1alpha1 (config_to_internal versioned out) out'
          ≡ record versioned { type_meta = out'.type_meta })
unfolding config_to_internal config_to_v1alpha1 spec_to_internal spec_to_v1alpha1
conversions_round_trip internal versioned out out' = (
  ap
      (λ networks. record {
        type_meta = out.type_meta;
        spec = record internal.spec { networks = networks };
      })
      (networks-internal internal.spec.networks),
  ap
      (λ networks. record {
        type_meta = out'.type_meta;
        spec = record versioned.spec { networks = networks };
      })
      (networks-v1alpha1 versioned.spec.networks),
)

-- A listed network has an ID or a name, not both.
abbrev pub IsNamed : ClassNetwork → Type 0
IsNamed network =
    ((network.id ≢ "") × (network.name ≡ "")) ⊎ ((network.id ≡ "") × (network.name ≢ ""))

-- The settings of an old machine class are well formed.
pub record IsValidClass (class : ClassSpec) : Type 0 where
  pub image : (class.image_id ≢ "") ⊎ (class.image_name ≢ "")
  pub region : class.region ≢ ""
  pub flavor : class.flavor_name ≢ ""
  pub zone : class.availability_zone ≢ ""
  pub key : class.key_name ≢ ""
  pub attached :
      ((class.network_id ≢ "") × (class.networks ≡ []))
      ⊎ ((class.network_id ≡ "") × (class.networks ≢ []))
  pub cidr : class.pod_network_cidr ≢ ""
  pub disk : is_negative class.root_disk_size ≡ false
  pub listed : All IsNamed class.networks
  pub tagged : HasTags class.tags

networks-nil :
    (olds : List ClassNetwork) (news : List NetworkV1alpha1)
    → Copied olds news
    → (networks_to_internal news ≡ []) ↔ (olds ≡ [])
unfolding networks_to_internal
networks-nil [] [] nothing = (λ h. refl, λ h. refl)
networks-nil [] (new ∷ news) c = elim c [ ]
networks-nil (old ∷ olds) [] c = elim c [ ]
networks-nil (old ∷ olds) (new ∷ news) (one p q r rest) =
    (λ h. absurd (ground arith), λ h. absurd (ground arith))

networks-named :
    (cidr : String) (olds : List ClassNetwork) (news : List NetworkV1alpha1)
    → cidr ≢ ""
    → Copied olds news
    → All (IsValidNetwork cidr) (networks_to_internal news) ↔ All IsNamed olds
unfolding networks_to_internal network_to_internal
networks-named cidr [] [] ranged nothing = (λ h. tt, λ h. tt)
networks-named cidr [] (new ∷ news) ranged c = elim c [ ]
networks-named cidr (old ∷ olds) [] ranged c = elim c [ ]
networks-named cidr (old ∷ olds) (new ∷ news) ranged (one p q r rest) =
    let (there, back) = networks-named cidr olds news ranged rest in
    (
      λ (v, vs). (let named = v.named in ground arith, there vs),
      λ (n, ns). (record { named = ground arith; ranged = inl ranged }, back ns),
    )

-- The configuration that a migration writes, converted to the internal version, is accepted
-- exactly if the settings of the old machine class are well formed.
pub migrated_class_accepted :
    (class : ClassSpec) (out : MachineProviderConfig)
    → (validate_machine_provider_config (config_to_internal (migrated_config class) out) ≡ [])
      ↔ IsValidClass class
unfolding config_to_internal migrated_config spec_to_internal
migrated_class_accepted class out =
    let (there, back) =
      validate_machine_provider_config-nil (config_to_internal (migrated_config class) out) in
    let copied = Copied-migrate_networks class.networks in
    let (empty, empty') = networks-nil class.networks (migrate_networks [] class.networks) copied in
    (
      λ h.
          let v = there h in
          let f = v.fields in
          record {
            image = f.image;
            region = f.region;
            flavor = f.flavor;
            zone = f.zone;
            key = f.key;
            attached = elim f.networks [
              | inl (a, b) ↦ inl (a, empty b)
              | inr (a, b) ↦ inr (a, λ e. b (empty' e))
            ];
            cidr = f.cidr;
            disk = f.disk;
            listed =
                (networks-named class.pod_network_cidr class.networks
                    (migrate_networks [] class.networks) f.cidr copied).0
                  v.listed;
            tagged = v.tagged;
          },
      λ v. back (record {
        fields = record {
          image = v.image;
          region = v.region;
          flavor = v.flavor;
          zone = v.zone;
          key = v.key;
          networks = elim v.attached [
            | inl (a, b) ↦ inl (a, empty' b)
            | inr (a, b) ↦ inr (a, λ e. b (empty e))
          ];
          cidr = v.cidr;
          disk = v.disk;
        };
        listed =
            (networks-named class.pod_network_cidr class.networks
                (migrate_networks [] class.networks) v.cidr copied).1
              v.listed;
        tagged = v.tagged;
      }),
    )
