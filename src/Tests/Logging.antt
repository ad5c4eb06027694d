-- ===== src/Tests/Logging.antt =====
-- The depth of a message: callers 11 and 12 are in gophercloud, the driver is at 13.
use machine_controller_manag.Base.{ℕ, String, true, ◌≡◌, refl, some, List, [], ◌∷◌, get_or}
use machine_controller_manag.Text.{contains_text, has_prefix}
use machine_controller_manag.Text.Split.{split}
use machine_controller_manag.Clients.Logger.{LogLibrary, skip, skip_from, printf, log_lines}
use machine_controller_manag.Clients.Logger.Depth.{Found, skip-Found}

abbrev own : String
own = "/src/pkg/openstack/nova.go"

abbrev other : String
other = "/vendor/github.com/gophercloud/gophercloud/provider_client.go"

abbrev callers : List String
callers = own ∷ own ∷ own ∷ own ∷ own ∷ own ∷ own ∷ own ∷ own ∷ own ∷ own ∷ other ∷ other ∷ own ∷ []

abbrev lib : LogLibrary (List (ℕ × String)) String
lib = record {
  verbose = λ log. true;
  caller = λ i. some (get_or callers i own);
  sprintf = λ format args. format;
  info_depth = λ depth line log. (depth, line) ∷ log;
}

skip_run : skip lib ≡ 13
unfolding skip skip_from contains_text has_prefix
skip_run = refl

printf_run : printf lib "GET /servers\n200" [] [] ≡ (13, "200") ∷ (13, "GET /servers") ∷ []
unfolding printf log_lines skip skip_from contains_text has_prefix split
printf_run = refl

skip-Found_example : Found lib (skip lib)
skip-Found_example = skip-Found lib
