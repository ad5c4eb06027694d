-- ===== src/Registration/Success.antt =====
-- An installation succeeds when each of its registrations does.
use machine_controller_manag.Base.{◌≡◌, refl, ap, ◌∙◌, List, [], ◌∷◌, ◌++◌, arith}
use machine_controller_manag.Action.{ok, pure, ◌>>◌}
use machine_controller_manag.Registration.Types.{
  internal, v1alpha1, ApiType, config_type, Conversion, Schemes, SchemeFunc,
}
use machine_controller_manag.Registration.Conversions.{register_conversions}
use machine_controller_manag.Registration.{
  scheme_group_version, v1alpha1_scheme_group_version, add_known_types, scheme_builder,
  v1alpha1_add_known_types, register_defaults, add_defaulting_funcs, v1alpha1_scheme_builder,
  set_version_priority, install_scheme_builder, add_to_scheme,
}
use machine_controller_manag.Registration.Laws.{
  Registry, IsLibrary, in_turn, all_conversions, v1alpha1_functions, add_to_scheme-registers,
}

module _ {S : Type 0} where
  pub record Succeeds (m : SchemeFunc S) : Type 0 where
    pub succeeds : (s : S) → (s' : S) × (m s ≡ (ok tt, s'))

  Succeeds-pure : Succeeds (pure tt)
  Succeeds-pure = record { succeeds = λ s. (s, refl) }

  Succeeds-then : (m n : SchemeFunc S) → Succeeds m → Succeeds n → Succeeds (m >> n)
  Succeeds-then m n p q = record {
    succeeds =
        λ s. let (t, first) = p.succeeds s in let (u, second) = q.succeeds t in (u, ground arith);
  }

module _ {S B : Type 0} (lib : Schemes S B) (functions : B → List (SchemeFunc S))
    (view : S → Registry) (laws : IsLibrary lib functions view) where
  builder-Succeeds :
      (b : B) (fs : List (SchemeFunc S))
      → functions b ≡ fs
      → Succeeds (in_turn fs)
      → Succeeds (lib.add_to_scheme b)
  builder-Succeeds b fs e p = record {
    succeeds = λ s.
        let (t, done) = p.succeeds s in
        (t, laws.add_to_scheme b s ∙ ap (λ l. in_turn l s) e ∙ done);
  }

  module _
      (converted : (a b : ApiType) (f : Conversion a b)
        → Succeeds (lib.add_generated_conversion_func a b f))
      (ordered : Succeeds (lib.set_version_priority (v1alpha1_scheme_group_version ∷ []))) where
    register_conversions-Succeeds : Succeeds (register_conversions lib)
    unfolding register_conversions
    register_conversions-Succeeds = Succeeds-then _ _ (converted _ _ _) (
        Succeeds-then _ _ (converted _ _ _) (
          Succeeds-then _ _ (converted _ _ _) (
            Succeeds-then _ _ (converted _ _ _) (
              Succeeds-then _ _ (converted _ _ _)
                (Succeeds-then _ _ (converted _ _ _) Succeeds-pure)))))

    v1alpha1-Succeeds : Succeeds (lib.add_to_scheme (v1alpha1_scheme_builder lib))
    unfolding add_defaulting_funcs register_defaults v1alpha1_add_known_types
    v1alpha1-Succeeds =
        builder-Succeeds (v1alpha1_scheme_builder lib) _
          (v1alpha1_functions lib functions view laws)
          (Succeeds-then _ _ Succeeds-pure (
            Succeeds-then _ _ (record { succeeds = λ s. (_, refl) })
              (Succeeds-then _ _ register_conversions-Succeeds Succeeds-pure)))

    internal-Succeeds : Succeeds (lib.add_to_scheme (scheme_builder lib))
    unfolding scheme_builder add_known_types
    internal-Succeeds =
        builder-Succeeds (scheme_builder lib) _ (laws.new_scheme_builder _)
          (Succeeds-then _ _ (record { succeeds = λ s. (_, refl) }) Succeeds-pure)

    add_to_scheme-Succeeds : Succeeds (add_to_scheme lib)
    unfolding add_to_scheme install_scheme_builder set_version_priority
    add_to_scheme-Succeeds =
        builder-Succeeds (install_scheme_builder lib) _ (laws.new_scheme_builder _) (
          Succeeds-then _ _ v1alpha1-Succeeds
            (Succeeds-then _ _ internal-Succeeds (Succeeds-then _ _ ordered Succeeds-pure)))

    -- If the library takes every conversion and the version v1alpha1 as preferred, an installation succeeds. It
    -- registers both versions of the configuration and all conversions of the API types in both
    -- directions, each with its function, and makes v1alpha1 the preferred version; what was
    -- registered before stays behind that.
    pub add_to_scheme-installs :
        (s : S)
        → (s' : S) × (add_to_scheme lib s ≡ (ok tt, s'))
          × (view s' ≡ record {
            conversions = all_conversions ++ (view s).conversions;
            known =
                (scheme_group_version, config_type internal ∷ [])
                ∷ (v1alpha1_scheme_group_version, config_type v1alpha1 ∷ [])
                ∷ (view s).known;
            priority = v1alpha1_scheme_group_version ∷ [];
          })
    add_to_scheme-installs s =
        let (s', done) = add_to_scheme-Succeeds.succeeds s in
        (s', done, add_to_scheme-registers lib functions view laws s s' done)
