-- ===== src/App/Monitoring.antt =====
-- platform/internal/app/servicehealth.go: what the process does with its own observations, and what
-- GET /health/services says of the fabric.
use opdl.Base.{
  ℕ, ◌+◌, ◌-◌, String, List, [], ◌∷◌, Option, none, some, ltb, ◌==◌, nat_eq, string_eq, length,
  if◌then◌else◌,
}
use opdl.ServiceHealth.Tracker.{unknown, healthy, unhealthy}
use opdl.ServiceHealth.Monitor.{Observation as Finding}
use opdl.HealthView.Inventory.{
  Status, status_unknown, status_healthy, status_unhealthy, status_degraded, Observation,
  DropReason,
}
use opdl.ServiceHealth.Tracker
use opdl.HealthView.View.{View, apply}
use opdl.HealthView.Snapshot.{UnitSnapshot}
use opdl.HealthFabric.Message.{Identity}
use opdl.HealthFabric.Publisher.{Publisher, publish}
use opdl.Deployment.Types.{Descriptor}
use opdl.App.Setup.{deployment_of}

-- `localSink`, less its logger.
pub record LocalSink : Type 0 where
  pub machine : String
  pub role : String
  pub view : View
  pub publisher : Publisher

-- The conversion `healthview.Status(observation.Status)`: the two types have the same texts.
abbrev pub status_text : Tracker.Status → Status
status_text unknown = status_unknown
status_text healthy = status_healthy
status_text unhealthy = status_unhealthy

abbrev pub failure_text : Option String → String
failure_text none = ""
failure_text (some e) = e

-- The epoch and the sequence are the zero values until the publisher stamps them.
abbrev pub report_for : LocalSink → Finding → Observation
report_for s o = record {
  subject = record { machine = s.machine; service = o.service };
  observer_role = s.role;
  epoch = 0;
  sequence = 0;
  status = status_text o.status;
  checked_at_utc = o.checked_at;
  latency = o.latency;
  consecutive_failures = o.pending_failures;
  failure = failure_text o.failure;
}

-- `Observed`, and what `Apply` returned, which it logs unless that is `DropNone`. `now` is the
-- reading of the view's clock.
unfoldable pub observed : (now : ℕ) → Finding → LocalSink → LocalSink × DropReason
unfolding publish apply
observed now o s =
    let published = publish (report_for s o) s.publisher in
    let applied = apply now published.1 s.view in
    (record s { publisher = published.0; view = applied.0 }, applied.1)

-- A run of observations, each with the reading of the clock, and what each call returned.
unfoldable pub observe_all : List (ℕ × Finding) → LocalSink → LocalSink × List DropReason
unfolding observed
observe_all [] s = (s, [])
observe_all ((now, o) ∷ os) s =
    let here = observed now o s in let rest = observe_all os here.0 in (rest.0, here.1 ∷ rest.1)

-- The identity with which `startServiceHealth` makes its publisher.
abbrev pub identity_of : Descriptor → (role : String) → (epoch : ℕ) → Identity
identity_of d role epoch = record {
  deployment = deployment_of d;
  machine = d.machine;
  observer_role = role;
  epoch = epoch;
}

-- `serviceStatus`, with the constants of platform/api.
unfoldable pub service_status : Status → String
service_status status =
    if status == status_healthy
    then "Healthy"
    else if status == status_unhealthy
    then "Unhealthy"
    else if status == status_degraded
    then "Degraded"
    else "Unknown"

pub data Distribution : Type 0 where
  local isolated partial connected : Distribution

-- What one unit of another machine adds to `current` and `expected`. `current` is an int, which
-- stays at or above 0: the missing and the stale observers are among the expected ones.
abbrev pub heard : UnitSnapshot → ℕ
heard u = length u.expected_observers - length u.missing_observers - length u.stale_observers

-- The loop of `distributionState`: `current` and `expected`.
unfoldable pub count_observers : (machine : String) → List UnitSnapshot → ℕ × ℕ → ℕ × ℕ
count_observers machine [] n = n
count_observers machine (u ∷ us) (current, expected) =
    if u.key.machine == machine
    then count_observers machine us (current, expected)
    else count_observers machine us (current + heard u, expected + length u.expected_observers)

abbrev pub distribution : ℕ × ℕ → Distribution
distribution (current, expected) =
    if expected == 0
    then local
    else if current == 0
    then isolated
    else if ltb current expected
    then partial
    else connected

-- `distributionState`, over the units of a snapshot.
unfoldable pub distribution_state : (machine : String) → List UnitSnapshot → Distribution
unfolding count_observers
distribution_state machine units = distribution (count_observers machine units (0, 0))
