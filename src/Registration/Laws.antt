-- ===== src/Registration/Laws.antt =====
-- What an installation does to a scheme.
use machine_controller_manag.Base.{◌≡◌, sym, ap, ◌∙◌, List, [], ◌∷◌, ◌++◌, arith}
use machine_controller_manag.Action.{ok, pure, ◌>>◌}
use machine_controller_manag.Action.Laws.{bind_ok}
use machine_controller_manag.Registration.Types.{
  GroupVersion, internal, v1alpha1, ApiType, config_type, spec_type, network_type, Conversion,
  Schemes, SchemeFunc,
}
use machine_controller_manag.Registration.Conversions.{
  convert_spec_to_internal, convert_spec_to_v1alpha1, convert_network_to_internal,
  convert_network_to_v1alpha1, register_conversions,
}
use machine_controller_manag.Driver.Conversion.{config_to_internal, config_to_v1alpha1}
use machine_controller_manag.Registration.{
  scheme_group_version, v1alpha1_scheme_group_version, add_known_types, scheme_builder,
  v1alpha1_add_known_types, register_defaults, add_defaulting_funcs, v1alpha1_registered,
  v1alpha1_scheme_builder, set_version_priority, install_scheme_builder, add_to_scheme,
}

abbrev pub Registered : Type 0
Registered = (a : ApiType) × (b : ApiType) × Conversion a b

-- What is registered in a scheme, the newest first.
pub record Registry : Type 0 where
  pub conversions : List Registered
  pub known : List (GroupVersion × List ApiType)
  pub priority : List GroupVersion

abbrev add_conversion : Registered → Registry → Registry
add_conversion c r = record r { conversions = c ∷ r.conversions }

abbrev add_known : GroupVersion → List ApiType → Registry → Registry
add_known version types r = record r { known = (version, types) ∷ r.known }

-- All conversions of the API types, the last that is registered first.
abbrev pub all_conversions : List Registered
all_conversions =
    (network_type internal, network_type v1alpha1, convert_network_to_v1alpha1)
    ∷ (network_type v1alpha1, network_type internal, convert_network_to_internal)
    ∷ (spec_type internal, spec_type v1alpha1, convert_spec_to_v1alpha1)
    ∷ (spec_type v1alpha1, spec_type internal, convert_spec_to_internal)
    ∷ (config_type internal, config_type v1alpha1, config_to_v1alpha1)
    ∷ (config_type v1alpha1, config_type internal, config_to_internal)
    ∷ []

abbrev pub in_turn : {S : Type 0} → List (SchemeFunc S) → SchemeFunc S
in_turn [] = pure tt
in_turn (f ∷ fs) = f >> in_turn fs

-- What the library documents: a builder keeps its functions in order and applies them to a scheme
-- until one fails; a scheme keeps what is registered with it, and the last order of versions.
pub record IsLibrary {S B : Type 0} (lib : Schemes S B) (functions : B → List (SchemeFunc S))
    (view : S → Registry) : Type 0 where
  pub zero_scheme_builder : functions lib.zero_scheme_builder ≡ []
  pub new_scheme_builder : (fs : List (SchemeFunc S)) → functions (lib.new_scheme_builder fs) ≡ fs
  pub register :
      (b : B) (fs : List (SchemeFunc S)) → functions (lib.register b fs) ≡ functions b ++ fs
  pub add_to_scheme : (b : B) (s : S) → lib.add_to_scheme b s ≡ in_turn (functions b) s
  pub add_known_types :
      (version : GroupVersion) (types : List ApiType) (s : S)
      → view (lib.add_known_types version types s) ≡ add_known version types (view s)
  pub set_version_priority :
      (versions : List GroupVersion) (s s' : S)
      → lib.set_version_priority versions s ≡ (ok tt, s')
      → view s' ≡ record (view s) { priority = versions }
  pub add_generated_conversion_func :
      (a b : ApiType) (f : Conversion a b) (s s' : S)
      → lib.add_generated_conversion_func a b f s ≡ (ok tt, s')
      → view s' ≡ add_conversion (a, b, f) (view s)

module _ {S : Type 0} (view : S → Registry) where
  -- A function that succeeds has changed what is registered as `u` says.
  record Updates (u : Registry → Registry) (m : SchemeFunc S) : Type 0 where
    updates : (s s' : S) → m s ≡ (ok tt, s') → view s' ≡ u (view s)

module _ {S : Type 0} {view : S → Registry} where
  Updates-pure : Updates view (λ r. r) (pure tt)
  Updates-pure = record { updates = λ s s' h. ground arith }

  Updates-then :
      (u v : Registry → Registry) (m n : SchemeFunc S)
      → Updates view u m
      → Updates view v n
      → Updates view (λ r. v (u r)) (m >> n)
  Updates-then u v m n p q = record {
    updates = λ s s' h.
        let (a, t, first, second) = bind_ok m (λ _. n) s h in
        q.updates t s' second ∙ ap v (p.updates s t first);
  }

module _ {S B : Type 0} (lib : Schemes S B) (functions : B → List (SchemeFunc S))
    (view : S → Registry) (laws : IsLibrary lib functions view) where
  -- A builder does what its functions do.
  builder-Updates :
      (b : B) (fs : List (SchemeFunc S)) (u : Registry → Registry)
      → functions b ≡ fs
      → Updates view u (in_turn fs)
      → Updates view u (lib.add_to_scheme b)
  builder-Updates b fs u e p = record {
    updates =
        λ s s' h. p.updates s s' (ap (λ l. in_turn l s) (sym e) ∙ sym (laws.add_to_scheme b s) ∙ h);
  }

  conversion-Updates :
      (a b : ApiType) (f : Conversion a b)
      → Updates view (add_conversion (a, b, f)) (lib.add_generated_conversion_func a b f)
  conversion-Updates a b f = record { updates = laws.add_generated_conversion_func a b f }

  known-Updates :
      (version : GroupVersion) (types : List ApiType)
      → Updates view (add_known version types) (λ s. (ok tt, lib.add_known_types version types s))
  known-Updates version types = record {
    updates = λ s s' h. ap view (sym (ap (λ r. r.1) h)) ∙ laws.add_known_types version types s;
  }

  priority-Updates :
      (versions : List GroupVersion)
      → Updates view (λ r. record r { priority = versions }) (lib.set_version_priority versions)
  priority-Updates versions = record { updates = laws.set_version_priority versions }

  register_conversions-Updates :
      Updates view
        (λ r. record r { conversions = all_conversions ++ r.conversions })
        (register_conversions lib)
  unfolding register_conversions
  register_conversions-Updates = Updates-then _ _ _ _ (conversion-Updates _ _ _) (
      Updates-then _ _ _ _ (conversion-Updates _ _ _) (
        Updates-then _ _ _ _ (conversion-Updates _ _ _) (
          Updates-then _ _ _ _ (conversion-Updates _ _ _) (
            Updates-then _ _ _ _ (conversion-Updates _ _ _)
              (Updates-then _ _ _ _ (conversion-Updates _ _ _) Updates-pure)))))

  pub v1alpha1_functions :
      functions (v1alpha1_scheme_builder lib)
      ≡ add_defaulting_funcs lib ∷ v1alpha1_add_known_types lib ∷ register_conversions lib ∷ []
  unfolding v1alpha1_scheme_builder v1alpha1_registered
  v1alpha1_functions =
      let own = add_defaulting_funcs lib ∷ v1alpha1_add_known_types lib ∷ [] in
      laws.register (v1alpha1_registered lib) (register_conversions lib ∷ [])
      ∙ ap (λ l. l ++ (register_conversions lib ∷ []))
          (laws.register lib.zero_scheme_builder own ∙ ap (λ l. l ++ own) laws.zero_scheme_builder)

  v1alpha1-Updates :
      Updates view
        (λ r. record r {
          conversions = all_conversions ++ r.conversions;
          known = (v1alpha1_scheme_group_version, config_type v1alpha1 ∷ []) ∷ r.known;
        })
        (lib.add_to_scheme (v1alpha1_scheme_builder lib))
  unfolding add_defaulting_funcs register_defaults v1alpha1_add_known_types
  v1alpha1-Updates = builder-Updates (v1alpha1_scheme_builder lib) _ _ v1alpha1_functions (
      Updates-then _ _ _ _ Updates-pure (
        Updates-then _ _ _ _
          (known-Updates v1alpha1_scheme_group_version (config_type v1alpha1 ∷ []))
          (Updates-then _ _ _ _ register_conversions-Updates Updates-pure)))

  internal-Updates :
      Updates view
        (add_known scheme_group_version (config_type internal ∷ []))
        (lib.add_to_scheme (scheme_builder lib))
  unfolding scheme_builder add_known_types
  internal-Updates = builder-Updates (scheme_builder lib) _ _ (laws.new_scheme_builder _) (
      Updates-then _ _ _ _ (known-Updates scheme_group_version (config_type internal ∷ []))
        Updates-pure)

  -- An installation that succeeds has registered both versions of the configuration and all
  -- conversions of the API types in both directions, each with its function, and has made v1alpha1
  -- the preferred version; what was registered before stays behind that.
  pub add_to_scheme-registers :
      (s s' : S)
      → add_to_scheme lib s ≡ (ok tt, s')
      → view s' ≡ record {
        conversions = all_conversions ++ (view s).conversions;
        known =
            (scheme_group_version, config_type internal ∷ [])
            ∷ (v1alpha1_scheme_group_version, config_type v1alpha1 ∷ [])
            ∷ (view s).known;
        priority = v1alpha1_scheme_group_version ∷ [];
      }
  unfolding add_to_scheme install_scheme_builder set_version_priority
  add_to_scheme-registers s s' h =
      (builder-Updates (install_scheme_builder lib) _ _ (laws.new_scheme_builder _) (
          Updates-then _ _ _ _ v1alpha1-Updates (
            Updates-then _ _ _ _ internal-Updates (
              Updates-then _ _ _ _ (priority-Updates (v1alpha1_scheme_group_version ∷ []))
                Updates-pure)))).updates
        s s' h
