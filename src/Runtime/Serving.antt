-- ===== src/Runtime/Serving.antt =====
-- What an instance's listener answers with, against the states of its ownership
-- (platform/internal/app/runtime.go and machine/redundancy/ownership.go): a monitor of both.
use opdl.Base.{Bool, true, false, Option, none, some, ◌==◌, string_eq, if◌then◌else◌}
use opdl.Redundancy.Turns.{Action, enters_active, leaves_active}
use opdl.Redundancy.Phases.{Phase, idle, owning, active, next_phase}
use opdl.InstanceState.Store.{activated}
use opdl.App.Facts.{Fact, api_active, api_stopped}
use opdl.Runtime.Io.{
  passive_surface, active_surface, Done, advances, has_lease, states, owns, serves, selects, drains,
}

-- at_rest: the Passive surface answers; renewed: it does, and this activation's epoch is recorded;
-- exposed: the Active surface answers; undrained: it did until now, and its requests may still run;
-- overdue: the drain has timed out, so that they may run on, and this is not stated yet.
pub data Serving : Type 0 where
  at_rest renewed exposed undrained overdue : Serving

pub record Station : Type 0 where
  pub phase : Phase
  pub serving : Serving

abbrev pub in_active : Phase → Option Serving → Option Station
in_active active (some v) = some (record { phase = active; serving = v })
in_active _ _ = none

abbrev pub in_phase : Option Phase → Option Serving → Option Station
in_phase (some p) (some v) = some (record { phase = p; serving = v })
in_phase _ _ = none

abbrev pub renew : Bool → Serving → Option Serving
renew true at_rest = some renewed
renew false at_rest = some at_rest
renew b _ = none

abbrev pub expose : Serving → Option Serving
expose renewed = some exposed
expose _ = none

abbrev pub cover : Serving → Option Serving
cover exposed = some undrained
cover _ = none

abbrev pub run_dry : (drained : Bool) → Serving → Option Serving
run_dry true undrained = some at_rest
run_dry false undrained = some overdue
run_dry b _ = none

abbrev pub stay_exposed : Serving → Option Serving
stay_exposed exposed = some exposed
stay_exposed _ = none

abbrev pub rest : Serving → Option Serving
rest at_rest = some at_rest
rest renewed = some at_rest
rest _ = none

-- The end of serving is stated, after a drain that timed out too.
abbrev pub ends : Serving → Option Serving
ends overdue = some at_rest
ends v = rest v

-- The facts of the Active surface: that it answers, and that it has stopped.
abbrev pub fact_fits : Fact → Station → Option Station
fact_fits (api_active a i) s = in_active s.phase (stay_exposed s.serving)
fact_fits (api_stopped e) s = in_active s.phase (ends s.serving)
fact_fits f s = some s

abbrev pub owned : Action → Station → Option Station
owned (enters_active k) s = in_phase (next_phase (enters_active k) s.phase) (rest s.serving)
owned leaves_active s = in_phase (next_phase leaves_active s.phase) (rest s.serving)
owned a s = in_phase (next_phase a s.phase) (some s.serving)

abbrev pub first_station : Station
first_station = record { phase = idle; serving = at_rest }

-- A machine without a lease owns itself from the start.
abbrev pub leased : Bool → Station
leased true = first_station
leased false = record { phase = owning; serving = at_rest }

abbrev pub lease_from : Bool → Station → Option Station
lease_from b s = elim s.phase [ idle ↦ some (leased b) | _ ↦ none ]

abbrev pub next_station : Done → Station → Option Station
next_station (advances r, b) s =
    if r == activated then in_active s.phase (renew b s.serving) else some s
next_station (serves active_surface, b) s = in_active s.phase (expose s.serving)
next_station (serves passive_surface, b) s = in_active s.phase (cover s.serving)
next_station (selects, b) s = in_active s.phase (stay_exposed s.serving)
next_station (drains, b) s = in_active s.phase (run_dry b s.serving)
next_station (states f, b) s = fact_fits f s
next_station (owns a, b) s = owned a s
next_station (has_lease h, b) s = lease_from h s
next_station (c, b) s = some s
