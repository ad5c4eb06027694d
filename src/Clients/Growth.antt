-- ===== src/Clients/Growth.antt =====
-- What the counters say after a whole operation of an executor that runs over both clients.
use machine_controller_manag.Base.{ℕ, ◌+◌, ◌≤◌, String, Bool, true, false, ◌≡◌, arith}
use machine_controller_manag.Action.Respects.{Preorder}
use machine_controller_manag.Config.{MachineProviderConfig}
use machine_controller_manag.Clients.Metrics.{Counters, Counted, Label, nova, neutron}
use machine_controller_manag.Clients.Nova.{NovaApi}
use machine_controller_manag.Clients.Neutron.{NeutronApi}
use machine_controller_manag.Clients.Respects.{ApiCalls, Lifts, over, tallied, clients-Calls}
use machine_controller_manag.Executor.Defs.{Poller, PollsInRounds}
use machine_controller_manag.Executor.Find.{get_machine_status, list_machines}
use machine_controller_manag.Executor.Delete.{delete_machine}
use machine_controller_manag.Executor.Create.{create_machine}
use machine_controller_manag.Executor.Respects.{operations-Respects}

-- No counter falls from `c` to `d`, and for each label the failures that are new in `d` are no more
-- than the requests that are.
pub record Grown (c d : Counters) : Type 0 where
  pub nova_requests : c.nova_requests ≤ d.nova_requests
  pub nova_failures : c.nova_failures ≤ d.nova_failures
  pub nova_bound : d.nova_failures + c.nova_requests ≤ c.nova_failures + d.nova_requests
  pub neutron_requests : c.neutron_requests ≤ d.neutron_requests
  pub neutron_failures : c.neutron_failures ≤ d.neutron_failures
  pub neutron_bound :
      d.neutron_failures + c.neutron_requests ≤ c.neutron_failures + d.neutron_requests

module _ (c d : Counters) where
  -- Counters that have gone up by some requests, and by no more failures, have grown.
  abbrev Raised : ℕ → ℕ → ℕ → ℕ → Type 0
  Raised nr nf mr mf =
      (d.nova_requests ≡ c.nova_requests + nr)
      × (d.nova_failures ≡ c.nova_failures + nf)
      × (d.neutron_requests ≡ c.neutron_requests + mr)
      × (d.neutron_failures ≡ c.neutron_failures + mf)

  Raised-Grown : (nr nf mr mf : ℕ) → Raised nr nf mr mf → nf ≤ nr → mf ≤ mr → Grown c d
  Raised-Grown nr nf mr mf (e, f, g, h) p q = record {
    nova_requests = omega arith;
    nova_failures = omega arith;
    nova_bound = omega arith;
    neutron_requests = omega arith;
    neutron_failures = omega arith;
    neutron_bound = omega arith;
  }

Grown-chains : (b c d : Counters) → Grown b c → Grown c d → Grown b d
Grown-chains b c d p q = record {
  nova_requests = let x = p.nova_requests in let y = q.nova_requests in omega arith;
  nova_failures = let x = p.nova_failures in let y = q.nova_failures in omega arith;
  nova_bound = let x = p.nova_bound in let y = q.nova_bound in omega arith;
  neutron_requests = let x = p.neutron_requests in let y = q.neutron_requests in omega arith;
  neutron_failures = let x = p.neutron_failures in let y = q.neutron_failures in omega arith;
  neutron_bound = let x = p.neutron_bound in let y = q.neutron_bound in omega arith;
}

unchanged : (c : Counters) → Raised c c 0 0 0 0
unchanged c = (omega arith, omega arith, omega arith, omega arith)

abbrev grows : {G : Type 0} → Preorder (Counted G)
grows = record {
  relates = λ v w. Grown v.counters w.counters;
  stays = λ w.
      Raised-Grown w.counters w.counters 0 0 0 0 (unchanged w.counters) (omega arith) (omega arith);
  chains = λ u v w. Grown-chains u.counters v.counters w.counters;
}

tallied-Grown :
    (label : Label) (is_failure : Bool) (c : Counters) → Grown c (tallied label is_failure c)
tallied-Grown nova true c =
    Raised-Grown c (tallied nova true c) 1 1 0 0
      (omega arith, omega arith, omega arith, omega arith) (omega arith) (omega arith)
tallied-Grown nova false c =
    Raised-Grown c (tallied nova false c) 1 0 0 0
      (omega arith, omega arith, omega arith, omega arith) (omega arith) (omega arith)
tallied-Grown neutron true c =
    Raised-Grown c (tallied neutron true c) 0 0 1 1
      (omega arith, omega arith, omega arith, omega arith) (omega arith) (omega arith)
tallied-Grown neutron false c =
    Raised-Grown c (tallied neutron false c) 0 0 1 0
      (omega arith, omega arith, omega arith, omega arith) (omega arith) (omega arith)

-- Nothing is known of how the API moves.
abbrev anyhow : {G : Type 0} → Preorder G
anyhow = record { relates = λ v w. Unit {0}; stays = λ w. tt; chains = λ u v w p q. tt }

grows-Lifts : {G : Type 0} → Lifts (anyhow {G = G}) grows
grows-Lifts label is_failure v g moved = tallied-Grown label is_failure v.counters

anyhow-ApiCalls :
    {G P Q : Type 0} (nova_api : NovaApi G P) (neutron_api : NeutronApi G Q)
    → ApiCalls anyhow nova_api neutron_api
anyhow-ApiCalls nova_api neutron_api = record {
  reads = record {
    servers_get = λ id w. tt;
    servers_list = λ opts w. tt;
    images_id_from_name = λ name w. tt;
    flavors_id_from_name = λ name w. tt;
    subnets_get = λ id w. tt;
    ports_create = λ opts w. tt;
    ports_list = λ opts w. tt;
    ports_update = λ id opts w. tt;
    ports_delete = λ id w. tt;
    networks_id_from_name = λ name w. tt;
    groups_id_from_name = λ name w. tt;
    ports_id_from_name = λ name w. tt;
  };
  servers_create = λ opts w. tt;
  bootfromvolume_create = λ opts w. tt;
  servers_delete = λ id w. tt;
}

module _ {G P Q : Type 0} (nova_api : NovaApi G P) (neutron_api : NeutronApi G Q)
    (config : MachineProviderConfig) where
  -- While an operation of an executor runs over both clients, however it ends and whatever the API
  -- answers, no counter falls, and for each client the failures that it adds are no more than the
  -- requests that it adds.
  pub operations-Grown :
      (P' : Poller (Counted G)) (polls : PollsInRounds P') (w : Counted G)
      → let ex = over nova_api neutron_api config in
        ((name user_data : String)
          → Grown w.counters (create_machine ex P' name user_data w).1.counters)
        × ((name pid : String) → Grown w.counters (delete_machine ex P' name pid w).1.counters)
        × ((name : String) → Grown w.counters (get_machine_status ex name w).1.counters)
        × Grown w.counters (list_machines ex w).1.counters
  operations-Grown P' polls w =
      let ex = over nova_api neutron_api config in
      let calls =
        clients-Calls anyhow grows grows-Lifts nova_api neutron_api config
          (anyhow-ApiCalls nova_api neutron_api) in
      let (created, deleted, found, listed) = operations-Respects ex grows calls P' polls in
      (
        (λ name user_data. (created name user_data).moves w),
        (λ name pid. (deleted name pid).moves w),
        (λ name. (found name).moves w),
        listed.moves w,
      )
