-- ===== src/Driver/Laws/Regions.antt =====
-- The regions of the clients with which an executor works.
use machine_controller_manag.Base.{◌≡◌, ◌↔◌, refl, arith}
use machine_controller_manag.Action.{Answer, answer, failure}
use machine_controller_manag.Config.{MachineProviderConfig}
use machine_controller_manag.Executor.Defs.{Executor}
use machine_controller_manag.Clients.Factory.{
  with_region, apply_options, Libraries, new_nova_v2, new_neutron_v2, compute, network,
  client_factory,
}
use machine_controller_manag.Clients.Metrics.{Counted}
use machine_controller_manag.Clients.Nova.{NovaApi}
use machine_controller_manag.Clients.Neutron.{NeutronApi}
use machine_controller_manag.Clients.Respects.{over}
use machine_controller_manag.Driver.Requests.{new_executor}

module _ {G P Q Pool Cert Auth Provider : Type 0} (lib : Libraries G P Q Pool Cert Auth Provider)
    (provider : Provider) where
  -- The library makes both service clients, the one for Nova for the region and the one for
  -- Neutron for no region, and the executor works with the clients over them.
  abbrev pub MadeFor : MachineProviderConfig → Executor (Counted G) → Type 0
  MadeFor config ex =
      (nova_api : NovaApi G P) × (neutron_api : NeutronApi G Q) × (lib.new_compute_v2 provider
          (record { region = config.spec.region })
        ≡ answer nova_api)
      × (lib.new_network_v2 provider (record { region = "" }) ≡ answer neutron_api)
      × (ex ≡ over nova_api neutron_api config)

  -- The executor that is made works with the configuration, with the Nova client over the service
  -- client that the library makes for the region of the configuration, and with the Neutron client
  -- over the one that it makes for no region, and one is made exactly if the library makes both.
  pub new_executor_regions :
      (config : MachineProviderConfig) (ex : Executor (Counted G))
      → (new_executor (client_factory lib provider) config ≡ answer ex) ↔ MadeFor config ex
  unfolding new_executor client_factory compute network new_nova_v2 new_neutron_v2 with_region
      apply_options
  new_executor_regions config ex =
      go (lib.new_compute_v2 provider (record { region = config.spec.region }))
        (lib.new_network_v2 provider (record { region = "" })) refl refl
    where
      go :
          (c : Answer (NovaApi G P)) (n : Answer (NeutronApi G Q))
          → lib.new_compute_v2 provider (record { region = config.spec.region }) ≡ c
          → lib.new_network_v2 provider (record { region = "" }) ≡ n
          → (new_executor (client_factory lib provider) config ≡ answer ex) ↔ MadeFor config ex
      go (answer c) (answer n) p q =
          (λ h. (c, n, p, q, ground arith), λ (c', n', p', q', e). ground arith)
      go (answer c) (failure x) p q =
          (λ h. absurd (ground arith), λ (c', n', p', q', e). absurd (ground arith))
      go (failure x) n p q =
          (λ h. absurd (ground arith), λ (c', n', p', q', e). absurd (ground arith))
