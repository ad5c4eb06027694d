-- ===== src/Registration/Conversions.antt =====
-- `RegisterConversions` (pkg/apis/openstack/v1alpha1/zz_generated.conversion.go).
use machine_controller_manag.Action.{pure, ◌>>◌}
use machine_controller_manag.Registration.Types.{
  internal, v1alpha1, config_type, spec_type, network_type, Conversion, Schemes, SchemeFunc,
}
use machine_controller_manag.Driver.Conversion.{
  network_to_internal, network_to_v1alpha1, spec_to_internal, spec_to_v1alpha1, config_to_internal,
  config_to_v1alpha1,
}

-- the functions that are registered
abbrev pub convert_spec_to_internal : Conversion (spec_type v1alpha1) (spec_type internal)
convert_spec_to_internal spec out = spec_to_internal spec

abbrev pub convert_spec_to_v1alpha1 : Conversion (spec_type internal) (spec_type v1alpha1)
convert_spec_to_v1alpha1 spec out = spec_to_v1alpha1 spec

abbrev pub convert_network_to_internal : Conversion (network_type v1alpha1) (network_type internal)
convert_network_to_internal network out = network_to_internal network

abbrev pub convert_network_to_v1alpha1 : Conversion (network_type internal) (network_type v1alpha1)
convert_network_to_v1alpha1 network out = network_to_v1alpha1 network

-- Each registration that fails ends the function.
unfoldable pub register_conversions : {S B : Type 0} → Schemes S B → SchemeFunc S
register_conversions s = do
  s.add_generated_conversion_func (config_type v1alpha1) (config_type internal) config_to_internal
  s.add_generated_conversion_func (config_type internal) (config_type v1alpha1) config_to_v1alpha1
  s.add_generated_conversion_func (spec_type v1alpha1) (spec_type internal) convert_spec_to_internal
  s.add_generated_conversion_func (spec_type internal) (spec_type v1alpha1) convert_spec_to_v1alpha1
  s.add_generated_conversion_func (network_type v1alpha1) (network_type internal)
      convert_network_to_internal
  s.add_generated_conversion_func (network_type internal) (network_type v1alpha1)
      convert_network_to_v1alpha1
  pure tt
