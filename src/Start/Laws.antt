-- ===== src/Start/Laws.antt =====
-- How the program starts and ends.
use machine_controller_manag.Base.{◌≡◌}
use machine_controller_manag.Action.{answer}
use machine_controller_manag.Registration.Types.{Schemes}
use machine_controller_manag.Clients.Metrics.{Counted}
use machine_controller_manag.Clients.Factory.{Libraries}
use machine_controller_manag.Start.{DriverLibrary, Application, provider_of}

module _ {X S B Server G P Q Raw Pool Cert Auth Provider : Type 0} (schemes : Schemes S B)
    (clients : Libraries G P Q Pool Cert Auth Provider) (driver : DriverLibrary (Counted G) Raw)
    (app : Application X S Server (Counted G) Raw) where
  -- The controller has run with the provider for a scheme, and has ended without an error.
  abbrev pub HasRun : S → X → X → Type 0
  HasRun scheme x y =
      (x' : X) × (app.run app.new_mc_server (provider_of schemes clients driver app scheme) x
        ≡ (answer tt, x'))
      × (y ≡ app.flush_logs x')
