-- ===== src/Clients/Metrics.antt =====
-- The counters that every call of a client updates, and the shape that those calls share.
use machine_controller_manag.Base.{ℕ, ◌+◌, Bool, true, false, if◌then◌else◌}
use machine_controller_manag.Action.{Answer, answer, failure, Service}
use machine_controller_manag.Errors.{Err, is_not_found_error}

-- `metrics.APIRequestCount` and `metrics.APIFailedRequestCount`, under the two labels in use.
pub record Counters : Type 0 where
  pub nova_requests : ℕ
  pub nova_failures : ℕ
  pub neutron_requests : ℕ
  pub neutron_failures : ℕ

pub data Label : Type 0 where
  nova neutron : Label

-- `APIRequestCount.With(…).Inc()`
abbrev pub count_request : Label → Counters → Counters
count_request nova c = record c { nova_requests = c.nova_requests + 1 }
count_request neutron c = record c { neutron_requests = c.neutron_requests + 1 }

-- `APIFailedRequestCount.With(…).Inc()`
abbrev pub count_failure : Label → Counters → Counters
count_failure nova c = record c { nova_failures = c.nova_failures + 1 }
count_failure neutron c = record c { neutron_failures = c.neutron_failures + 1 }

-- The world of the API, of which nothing is known, and the counters.
pub record Counted (G : Type 0) : Type 0 where
  pub api : G
  pub counters : Counters

-- Which errors are counted as failures.
abbrev pub always : Err → Bool
always e = true

abbrev pub unless_not_found : Err → Bool
unless_not_found e = if is_not_found_error e then false else true

module _ {G A : Type 0} where
  abbrev pub settle : Label → (Err → Bool) → Answer A × G → Counters → Answer A × Counted G
  settle label counts (answer a, g) c =
      (answer a, record { api = g; counters = count_request label c })
  settle label counts (failure e, g) c = (
    failure e,
    record {
      api = g;
      counters =
          if counts e then count_failure label (count_request label c) else count_request label c;
    },
  )

  -- The call is made, then counted; an error is returned as it is.
  unfoldable pub counted : Label → (Err → Bool) → Service G A → Service (Counted G) A
  counted label counts f w = settle label counts (f w.api) w.counters

-- An error that says that the object is not there is none.
abbrev pub forgive : Answer (Unit {0}) → Answer (Unit {0})
forgive (answer a) = answer a
forgive (failure e) = if is_not_found_error e then answer tt else failure e

-- Two steps of a listing: the pages are fetched and counted, and then read.
abbrev pub read_pages :
    {G P A : Type 0} → (P → Answer A) → Answer P × Counted G → Answer A × Counted G
read_pages extract (answer pages, w) = (extract pages, w)
read_pages extract (failure e, w) = (failure e, w)
