-- ===== src/Runtime/Tests.antt =====
-- A process at a concrete descriptor: a launch that serves once and stops, and one whose fabric fails.
use opdl.Base.{
  ◌≡◌, refl, String, Bool, true, false, List, [], ◌∷◌, some, string_eq, nat_eq, is_blank, lookup,
  insert,
}
use opdl.Redundancy.Disk.{missing as no_lease_file}
use opdl.Redundancy.Turns.{
  ActiveRun, renewal_tick, publish, with_lease, activate, deactivate, active_loop, active_step,
  first_watch, renewal_step, after_renewal,
}
use opdl.Redundancy.Lifecycle.{Turn, manage_ownership, turns, turn, after_attempt, serve_turn}
use opdl.Runtime.Active.{resolve_role, instance_of, advanced_fact}
use opdl.Deployment.Types.{has_standby, Descriptor}
use opdl.Runtime.Io.{
  ◌>>◌, call, afterwards, if_fails, reading, quietly, pure, or_else, settled, Call, Done, opens,
  states, fabric_client, World, ok,
}
use opdl.InstanceState.Store.{open_store, missing, holds, zero_state}
use opdl.App.Setup.{health_targets, health_inventory, lease_config_of}
use opdl.HealthView.View.{new_view}
use opdl.HealthView.Inventory.{validate_deployment, validate_unit, validate_roles}
use opdl.Redundancy.Lease.{open_lease, try_acquire, renew, release}
use opdl.Deployment.Sample.{parsers, descriptor}
use opdl.App.Facts.{fact_type}
use opdl.Runtime.Launch.{run, launched}
use opdl.Runtime.Releases.{IsReleased, run-IsReleased}
use opdl.Runtime.TellingRun.{IsTold, run-IsTold}
use opdl.Runtime.ServingRun.{ServesInOrder, run-ServesInOrder}

abbrev short_run : ActiveRun
short_run = record {
  started = 10;
  ticks = renewal_tick 20 21 ∷ [];
  fails = false;
  ended = 40;
  measured = 41;
}

abbrev one_life : List Turn
one_life =
    record { stopping = false; attempt_at = 5; passive = []; active = short_run }
    ∷ record { stopping = true; attempt_at = 0; passive = []; active = short_run }
    ∷ []

abbrev world : (List Done → Call → Bool) → World
world fails = record {
  fails = fails;
  clock = λ h. 7;
  text = λ es. "failed";
  parsers = parsers;
  pid = 7;
  disk = record { file = no_lease_file; faults = [] };
  publish_faults = [];
  turns = one_life;
  alone = short_run;
}

abbrev no_fabric : List Done → Call → Bool
no_fabric h (opens fabric_client) = true
no_fabric h c = false

-- The types of the facts, the oldest first.
abbrev told_types : List Done → List String → List String
told_types [] later = later
told_types ((states f, b) ∷ earlier) later = told_types earlier (fact_type f ∷ later)
told_types (c ∷ earlier) later = told_types earlier later

run-IsReleased_example :
    IsReleased
      (run (world no_fabric) (some "primary") (some (descriptor "alpha")) (launched missing))
run-IsReleased_example =
    run-IsReleased (world no_fabric) (some "primary") (some (descriptor "alpha")) missing

run-IsTold_example :
    IsTold (run (world no_fabric) (some "primary") (some (descriptor "alpha")) (launched missing))
run-IsTold_example =
    run-IsTold (world no_fabric) (some "primary") (some (descriptor "alpha")) missing

run-ServesInOrder_example : ServesInOrder (
    run
      (world (λ h c. false))
      (some "primary")
      (some (descriptor "alpha"))
      (launched (holds zero_state)))
run-ServesInOrder_example =
    run-ServesInOrder (world (λ h c. false)) (some "primary") (some (descriptor "alpha"))
      (holds zero_state)

abbrev bare : Descriptor
bare = record (descriptor "alpha") { services = [] }

-- A launch that takes the free lease, serves, and is asked to stop.
life_told :
    let r = run (world (λ h c. false)) (some "primary") (some bare) (launched missing) in
    (r.0 ≡ ok tt)
    × (told_types r.1.trace []
        ≡ "platform.app.process_started" ∷ "platform.app.epoch_advanced"
          ∷ "platform.app.event_fabric_started" ∷ "platform.app.api_listening"
          ∷ "platform.app.epoch_advanced" ∷ "platform.app.api_active" ∷ "platform.app.api_stopped"
          ∷ "platform.app.process_stopped" ∷ [])
unfolding run resolve_role has_standby ◌>>◌ call afterwards if_fails reading open_store is_blank
    instance_of quietly health_targets pure health_inventory lookup new_view validate_deployment
    validate_unit validate_roles insert lease_config_of open_lease manage_ownership publish turns
    turn after_attempt with_lease try_acquire serve_turn activate deactivate active_loop active_step
    first_watch renewal_step after_renewal renew release or_else settled advanced_fact fact_type
life_told = (refl, refl)
