-- ===== src/Start.antt =====
-- cmd/machine-controller/main.go: the scheme is set up, and the controller runs with the driver.
pub mod Laws
use machine_controller_manag.Base.{String, Option, List}
use machine_controller_manag.Action.{Answer, answer, failure, Service, Result, ok, err, panicked}
use machine_controller_manag.Errors.{Err, errorf_v}
use machine_controller_manag.Base.{[]}
use machine_controller_manag.Config.{MachineProviderConfig}
use machine_controller_manag.Secret.{Secret}
use machine_controller_manag.Clients.Metrics.{Counted}
use machine_controller_manag.Clients.Factory.{Factory, Libraries, new_client_factory_from_secret}
use machine_controller_manag.Validation.{FieldError}
use machine_controller_manag.Executor.Defs.{Poller}
use machine_controller_manag.Driver.Defs.{OpenstackDriver}
use machine_controller_manag.Registration.Types.{Schemes}
use machine_controller_manag.Registration.{add_to_scheme}

-- What the driver calls of libraries.
pub record DriverLibrary (W Raw : Type 0) : Type 0 where
  pub marshal_json : Raw → Answer String
  pub to_aggregate : List FieldError → Option Err
  pub poller : Poller W

-- `NewOpenstackDriver`
unfoldable pub new_openstack_driver :
    {W Raw : Type 0}
    → DriverLibrary W Raw
    → (String → Answer MachineProviderConfig)
    → (Secret → Service W (Factory W))
    → OpenstackDriver W Raw
new_openstack_driver lib decoder constructor = record {
  marshal_json = lib.marshal_json;
  decode = decoder;
  client_constructor = constructor;
  to_aggregate = lib.to_aggregate;
  poller = lib.poller;
}

-- What `main` calls of the libraries that start a controller, over the process `X`: flags, logs, a
-- new scheme of `S`, its decoder, and `app.Run`, which ends when the controller does.
pub record Application (X S Server W Raw : Type 0) : Type 0 where
  pub new_mc_server : Server
  pub add_flags : Server → X → X
  pub init_flags : X → X
  pub init_logs : X → X
  pub flush_logs : X → X
  pub new_scheme : S
  pub universal_decoder : S → String → Answer MachineProviderConfig
  pub run : Server → OpenstackDriver W Raw → Service X (Unit {0})

-- How the process ends: `main` returns, or `klog.Fatalf` prints an error and exits, or a panic.
pub data Ending : Type 0 where
  returned : Ending
  fatal : Err → Ending
  crashed : Ending

module _ {X S B Server G P Q Raw Pool Cert Auth Provider : Type 0} (schemes : Schemes S B)
    (clients : Libraries G P Q Pool Cert Auth Provider) (driver : DriverLibrary (Counted G) Raw)
    (app : Application X S Server (Counted G) Raw) where
  -- the provider for a scheme that is set up
  unfoldable pub provider_of : S → OpenstackDriver (Counted G) Raw
  provider_of scheme =
      new_openstack_driver driver (app.universal_decoder scheme)
        (new_client_factory_from_secret clients)

  -- the last step; the deferred flush runs when `main` returns, and not at an exit
  unfoldable pub run_app : S → X → Ending × X
  run_app scheme x =
      let (r, x') = app.run app.new_mc_server (provider_of scheme) x in
      elim r [
        | answer _ ↦ (returned, app.flush_logs x')
        | failure e ↦ (fatal (errorf_v "failed to run application: %v" [] e), x')
      ]

  -- the steps before the scheme is set up
  unfoldable pub prepare : X → X
  prepare x = app.init_logs (app.init_flags (app.add_flags app.new_mc_server x))

  unfoldable pub main : X → Ending × X
  main x =
      let (r, scheme) = add_to_scheme schemes app.new_scheme in
      elim r [
        | ok _ ↦ run_app scheme (prepare x)
        | err e ↦ (fatal (errorf_v "failed to install scheme: %v" [] e), prepare x)
        | panicked ↦ (crashed, app.flush_logs (prepare x))
      ]
