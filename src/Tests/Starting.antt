-- ===== src/Tests/Starting.antt =====
-- The theorems on the registration of types and the start of the program, with a library that
-- keeps what is registered.
use machine_controller_manag.Base.{String, List, [], ◌∷◌, ◌++◌}
use machine_controller_manag.Action.{answer, ok}
use machine_controller_manag.Registration.Types.{Schemes, SchemeFunc}
use machine_controller_manag.Registration.Laws.{Registry, in_turn}
use machine_controller_manag.Tests.World.{aggregate}
use machine_controller_manag.Start.{DriverLibrary, Application}
use machine_controller_manag.Tests.World.{World, configured, spec, refused}
use machine_controller_manag.Clients.Metrics.{Counted}
use machine_controller_manag.Executor.Defs.{rounds}

abbrev Builder : Type 0
Builder = List (SchemeFunc Registry)

abbrev schemes : Schemes Registry Builder
schemes = record {
  zero_scheme_builder = [];
  new_scheme_builder = λ fs. fs;
  register = λ b fs. b ++ fs;
  add_to_scheme = in_turn;
  add_known_types = λ version types r. record r { known = (version, types) ∷ r.known };
  set_version_priority = λ versions r. (ok tt, record r { priority = versions });
  add_generated_conversion_func =
      λ a b f r. (ok tt, record r { conversions = (a, b, f) ∷ r.conversions });
  must = λ e r. (ok tt, r);
}

abbrev empty : Registry
empty = record { conversions = []; known = []; priority = [] }

-- A process that counts what is done to its flags and logs.
abbrev app : Application (List String) Registry (Unit {0}) (Counted World) String
app = record {
  new_mc_server = tt;
  add_flags = λ server x. "add" ∷ x;
  init_flags = λ x. "flags" ∷ x;
  init_logs = λ x. "logs" ∷ x;
  flush_logs = λ x. "flush" ∷ x;
  new_scheme = empty;
  universal_decoder = λ scheme json. answer (configured spec);
  run = λ server provider x. (answer tt, "run" ∷ x);
}

abbrev driver : DriverLibrary (Counted World) String
driver = record {
  marshal_json = answer;
  to_aggregate = aggregate;
  poller = record { poll = λ interval timeout. rounds refused 2; timed_out = refused };
}
