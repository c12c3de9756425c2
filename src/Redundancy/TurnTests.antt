-- ===== src/Redundancy/TurnTests.antt =====
-- Promotion and the ownership lifecycle at concrete leases, files and lives.
use opdl.Base.{ℕ, inr, ◌≡◌, refl, inl, true, false, List, [], ◌∷◌, none, some, arith}
use opdl.Redundancy.Disk.{holds, run}
use opdl.Redundancy.Lease.{new_grant, set_owned, release, not_acquired, Acquisition}
use opdl.Redundancy.Acquisition.{quiet}
use opdl.Redundancy.Statements.{handover}
use opdl.Redundancy.Promotion.{promotion, evaluate_promotion}
use opdl.Redundancy.PromotionRules.{
  promotes, MayTake, evaluate_promotion-MayTake, release-no_take_back,
}
use opdl.Redundancy.Turns.{
  Process, ActiveRun, ActiveEvent, renewal_tick, failback_tick, promotion_tick, wait_while_passive,
  waited,
}
use opdl.Redundancy.Lifecycle.{Turn, manage_ownership}
use opdl.Redundancy.Failover.{Tick, promotion_ticks, wait_while_passive-takes}
use opdl.Redundancy.TurnOrder.{InOrder, first_phase, manage_ownership-InOrder}
use opdl.Redundancy.Tests.{standby, roles_differ, lapsed, owner}

standby_promotes :
    promotes
      (run
        (evaluate_promotion standby 100 (some false))
        (record { file = holds lapsed; faults = [] })).0.1
    ≡ true
unfolding evaluate_promotion
standby_promotes = refl

evaluate_promotion-MayTake_example : MayTake standby 100 (some false) (holds lapsed)
evaluate_promotion-MayTake_example =
    evaluate_promotion-MayTake standby 100 (some false) (holds lapsed) [] standby_promotes

release-no_take_back_example :
    let d = run (release owner 110) (quiet (holds owner.owned)) in
    run (evaluate_promotion d.0.0 125 (some false)) d.1
    ≡ ((d.0.0, promotion not_acquired (some handover)), d.1)
release-no_take_back_example =
    release-no_take_back owner 110 125 (some false) refl refl (omega arith)

abbrev brief_run : ActiveRun
brief_run = record {
  started = 145;
  ticks = renewal_tick 150 151 ∷ failback_tick true 152 153 ∷ failback_tick true 175 176 ∷ [];
  fails = false;
  ended = 180;
  measured = 190;
}

-- A standby that finds the primary serving, then takes its lapsed grant, serves, and fails back.
abbrev life : List Turn
life =
    record {
      stopping = false;
      attempt_at = 20;
      passive =
          promotion_tick 40 (some true) false
          ∷ promotion_tick 145 (some true) false
          ∷ promotion_tick 146 (some false) false
          ∷ [];
      active = brief_run;
    }
    ∷ record { stopping = true; attempt_at = 0; passive = []; active = brief_run }
    ∷ []

abbrev newborn : Process
newborn = record {
  lease = some standby;
  disk = quiet (holds lapsed);
  publish_faults = [];
  trace = [];
}

manage_ownership-InOrder_example :
    InOrder (first_phase newborn.lease) (manage_ownership true true brief_run life newborn).1
manage_ownership-InOrder_example = manage_ownership-InOrder true true brief_run life newborn refl

abbrev serving : Process
serving = record newborn {
  lease = some owner;
  disk = record { file = holds owner.owned; faults = false ∷ false ∷ true ∷ [] };
}

-- The second renewal cannot read the file.
abbrev ticks : List ActiveEvent
ticks =
    renewal_tick 110 110
    ∷ renewal_tick 120 120
    ∷ failback_tick true 125 126
    ∷ renewal_tick 130 131
    ∷ []

abbrev waiting : Process
waiting = record {
  lease = some standby;
  disk = quiet (holds lapsed);
  publish_faults = [];
  trace = [];
}

-- The primary's grant still stands at the first tick, and its peer still answers at the second.
abbrev outage : List Tick
outage = (40, none) ∷ (100, some true) ∷ (110, some false) ∷ []

wait_while_passive-takes_example :
    let r = wait_while_passive (promotion_ticks outage) waiting in
    (a : Acquisition) × (now : ℕ) × (r.0 ≡ waited [] a)
    × (a.held ≡ true)
    × (a.abandoned ≡ true)
    × (r.1.lease ≡ some (set_owned standby (new_grant standby now)))
    × (r.1.disk ≡ quiet (holds (new_grant standby now)))
wait_while_passive-takes_example =
    wait_while_passive-takes standby lapsed outage waiting refl refl refl (λ e. roles_differ e)
      (inr (inr (inl (omega arith, λ e. absurd (ground arith)))))
