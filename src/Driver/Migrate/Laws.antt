-- ===== src/Driver/Migrate/Laws.antt =====
-- What a migration writes, and when it is refused.
use mathlib.Core.Path.{subst}
use machine_controller_manag.Base.{
  String, ◌≡◌, ◌≢◌, ◌↔◌, refl, sym, ap, ◌∙◌, Option, none, some, List, [], ◌∷◌, ◌++◌, append_assoc,
  append-nil, arith,
}
use machine_controller_manag.Errors.{Err, errorf}
use machine_controller_manag.Driver.Defs.{internal, response, status, crashed}
use machine_controller_manag.Driver.Migrate.{
  NetworkV1alpha1, SpecV1alpha1, ConfigV1alpha1, ClassNetwork, ClassSpec, OpenStackMachineClass,
  MachineClass, migrate_networks, migrated_config, migrate_machine_class,
  generate_machine_class_for_migration,
}

-- The networks of the class, each with the same id, name and role, in the same order.
pub data Copied : List ClassNetwork → List NetworkV1alpha1 → Type 0 where
  nothing : Copied [] []
  one :
      {old : ClassNetwork} {new : NetworkV1alpha1} {olds : List ClassNetwork}
      {news : List NetworkV1alpha1}
      → new.id ≡ old.id
      → new.name ≡ old.name
      → new.pod_network ≡ old.pod_network
      → Copied olds news
      → Copied (old ∷ olds) (new ∷ news)

-- The configuration has every setting of the class.
pub record Carries (class : ClassSpec) (spec : SpecV1alpha1) : Type 0 where
  pub image : (spec.image_id ≡ class.image_id) × (spec.image_name ≡ class.image_name)
  pub place : (spec.region ≡ class.region) × (spec.availability_zone ≡ class.availability_zone)
  pub flavor : spec.flavor_name ≡ class.flavor_name
  pub key : spec.key_name ≡ class.key_name
  pub groups : spec.security_groups ≡ class.security_groups
  pub tagged : spec.tags ≡ class.tags
  pub network : (spec.network_id ≡ class.network_id) × (spec.subnet_id ≡ class.subnet_id)
  pub cidr : spec.pod_network_cidr ≡ class.pod_network_cidr
  pub disk : spec.root_disk_size ≡ class.root_disk_size
  pub drive : spec.use_config_drive ≡ class.use_config_drive
  pub server_group : spec.server_group_id ≡ class.server_group_id
  pub networks : Copied class.networks spec.networks

-- The machine class after a migration: the metadata, the references and the settings of the old
-- one, for this provider.
pub record Migrated (os : OpenStackMachineClass) (class : MachineClass) : Type 0 where
  pub metadata :
      (class.name ≡ os.name)
      × (class.labels ≡ os.labels)
      × (class.annotations ≡ os.annotations)
      × (class.finalizers ≡ os.finalizers)
  pub references :
      (class.secret_ref ≡ os.spec.secret_ref)
      × (class.credentials_secret_ref ≡ os.spec.credentials_secret_ref)
  pub for_openstack : class.provider ≡ "openstack"
  pub settings :
      (config : ConfigV1alpha1) × (class.provider_spec ≡ some config) × Carries os.spec config.spec

migrate_networks-append :
    (migrated : List NetworkV1alpha1) (networks : List ClassNetwork)
    → migrate_networks migrated networks ≡ migrated ++ migrate_networks [] networks
unfolding migrate_networks
migrate_networks-append migrated [] = sym (append-nil migrated)
migrate_networks-append migrated (nw ∷ networks) =
    let first : NetworkV1alpha1 = record {
      id = nw.id;
      name = nw.name;
      pod_network = nw.pod_network;
    } in
    migrate_networks-append (migrated ++ first ∷ []) networks
    ∙ append_assoc migrated (first ∷ []) (migrate_networks [] networks)
    ∙ ap (λ l. migrated ++ l) (sym (migrate_networks-append (first ∷ []) networks))

pub Copied-migrate_networks :
    (networks : List ClassNetwork) → Copied networks (migrate_networks [] networks)
unfolding migrate_networks
Copied-migrate_networks [] = nothing
Copied-migrate_networks (nw ∷ networks) =
    rw
      (migrate_networks-append
        (record { id = nw.id; name = nw.name; pod_network = nw.pod_network } ∷ []) networks)
      (one refl refl refl (Copied-migrate_networks networks))

migrate_machine_class-Migrated :
    (os : OpenStackMachineClass) (class : MachineClass)
    → Migrated os (migrate_machine_class os class)
unfolding migrate_machine_class migrated_config
migrate_machine_class-Migrated os class = record {
  metadata = (refl, refl, refl, refl);
  references = (refl, refl);
  for_openstack = refl;
  settings = (
    migrated_config os.spec,
    refl,
    record {
      image = (refl, refl);
      place = (refl, refl);
      flavor = refl;
      key = refl;
      groups = refl;
      tagged = refl;
      network = (refl, refl);
      cidr = refl;
      disk = refl;
      drive = refl;
      server_group = refl;
      networks = Copied-migrate_networks os.spec.networks;
    },
  );
}

-- A migration ends with a response exactly for the kind `OpenStackMachineClass` and an object of
-- that type, and then the machine class has all that the object held. It ends with a status
-- exactly for another kind, and panics exactly for an object of another type; both leave the
-- machine class as it was.
pub migration_outcomes :
    (kind : String) (object : Option OpenStackMachineClass) (class : MachineClass)
    → let (r, after) = generate_machine_class_for_migration kind object class in
      ((r ≡ response tt) ↔ ((kind ≡ "OpenStackMachineClass") × (object ≢ none)))
      × ((os : OpenStackMachineClass) → r ≡ response tt → object ≡ some os → Migrated os after)
      × (((e : Err) × (r ≡ status internal e)) ↔ (kind ≢ "OpenStackMachineClass"))
      × ((r ≡ crashed) ↔ ((kind ≡ "OpenStackMachineClass") × (object ≡ none)))
      × (r ≢ response tt → after ≡ class)
unfolding generate_machine_class_for_migration
migration_outcomes kind none class = (
  ground arith,
  λ os. ground arith,
  (
    λ h. ground arith,
    λ h. (errorf "migration for this machineClass kind is not supported" [], ground arith),
  ),
  ground arith,
  λ h. ground arith,
)
migration_outcomes kind (some os) class = (
  ground arith,
  λ os' r same.
      let changed : migrate_machine_class os' class
          ≡ (generate_machine_class_for_migration kind (some os) class).1 =
        ground arith in
      subst (λ after. Migrated os' after) changed (migrate_machine_class-Migrated os' class),
  (
    λ h. ground arith,
    λ h. (errorf "migration for this machineClass kind is not supported" [], ground arith),
  ),
  ground arith,
  λ h. ground arith,
)
