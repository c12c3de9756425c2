-- ===== src/App/Response.antt =====
-- platform/internal/app/servicehealth.go: the answer to GET /health/services, from one snapshot of the
-- view and the counters beside it. time.Format is an argument; api.ServiceHealthSummary has the
-- fields of the view's Summary, which stands for it.
use opdl.Base.{ℕ, ◌-◌, ◌/◌, ◌^◌, String, Bool, List, [], ◌∷◌, map, ltb, if◌then◌else◌, string_eq}
use opdl.HealthView.View.{Drops, View}
use opdl.HealthView.Snapshot.{ObserverSnapshot, UnitSnapshot, Summary, snapshot}
use opdl.HealthFabric.Publisher.{Publisher}
use opdl.HealthFabric.Subscriber.{Subscriber, Rejects}
use opdl.App.Monitoring.{Distribution, distribution_state, service_status}

-- int64 of a uint64: a value from 2 ^ 63 on is negative, `below 1` being -1.
pub data Int64 : Type 0 where
  at : ℕ → Int64
  below : ℕ → Int64

abbrev pub as_int64 : ℕ → Int64
as_int64 n = if ltb n (2 ^ 63) then at n else below (2 ^ 64 - n)

pub record ServiceHealthObservation : Type 0 where
  pub observer_role : String
  pub status : String
  pub is_stale : Bool
  pub checked_at_utc : String
  pub received_at_utc : String
  pub age_ms : ℕ
  pub latency_ms : ℕ
  pub consecutive_failures : ℕ
  pub failure : String

pub record ServiceHealthUnit : Type 0 where
  pub machine : String
  pub machine_profile : String
  pub service : String
  pub service_role : String
  pub status : String
  pub expected_observers : List String
  pub missing_observers : List String
  pub stale_observers : List String
  pub observations : List ServiceHealthObservation

pub record ServiceHealthCount : Type 0 where
  pub reason : String
  pub count : Int64

pub record ServiceHealthDistribution : Type 0 where
  pub state : Distribution
  pub published : Int64
  pub superseded : Int64
  pub publish_failed : Int64
  pub delivered : Int64
  pub rejected : List ServiceHealthCount
  pub dropped : List ServiceHealthCount

pub record ServiceHealthResponse : Type 0 where
  pub project : String
  pub environment : String
  pub site : String
  pub machine : String
  pub role : String
  pub generated_at_utc : String
  pub summary : Summary
  pub services : List ServiceHealthUnit
  pub distribution : ServiceHealthDistribution

abbrev row : String → ℕ → ServiceHealthCount
row reason n = record { reason = reason; count = as_int64 n }

-- `rejectCounts`, in the order of `RejectReasons`.
unfoldable pub reject_counts : Rejects → List ServiceHealthCount
reject_counts r =
    row "oversize" r.oversizes
    ∷ row "malformed" r.malformeds
    ∷ row "version" r.versions
    ∷ row "foreign_deployment" r.foreigns
    ∷ row "incomplete" r.incompletes
    ∷ row "impossible" r.impossibles
    ∷ []

-- `dropCounts`, in the order of the reasons' texts.
unfoldable pub drop_counts : Drops → List ServiceHealthCount
drop_counts d =
    row "duplicate" d.duplicates
    ∷ row "stale" d.stales
    ∷ row "unknown_observer" d.unknown_observers
    ∷ row "unknown_target" d.unknown_targets
    ∷ row "unusable_status" d.unusable_statuses
    ∷ []

-- The loop of `serviceUnit`.
unfoldable pub service_observation :
    (format : ℕ → String) → ObserverSnapshot → ServiceHealthObservation
unfolding service_status
service_observation format o = record {
  observer_role = o.observer_role;
  status = service_status o.status;
  is_stale = o.is_stale;
  checked_at_utc = format o.checked_at_utc;
  received_at_utc = format o.received_at_utc;
  age_ms = o.age / 1000000;
  latency_ms = o.latency / 1000000;
  consecutive_failures = o.consecutive_failures;
  failure = o.failure;
}

-- `serviceUnit`.
unfoldable pub service_unit : (format : ℕ → String) → UnitSnapshot → ServiceHealthUnit
unfolding service_status service_observation
service_unit format u = record {
  machine = u.key.machine;
  machine_profile = u.machine_profile;
  service = u.key.service;
  service_role = u.service_role;
  status = service_status u.status;
  expected_observers = u.expected_observers;
  missing_observers = u.missing_observers;
  stale_observers = u.stale_observers;
  observations = map (service_observation format) u.observations;
}

-- `Response`, the clock read at `now`; the publisher and the subscriber are read beside the view.
unfoldable pub response :
    (format : ℕ → String)
    → (machine role : String) → (now : ℕ) → View
    → Publisher
    → Subscriber
    → ServiceHealthResponse
unfolding snapshot distribution_state reject_counts drop_counts service_unit
response format machine role now v p s =
    let snap = snapshot now v in
    record {
      project = snap.deployment.project;
      environment = snap.deployment.environment;
      site = snap.deployment.site;
      machine = machine;
      role = role;
      generated_at_utc = format snap.generated_at_utc;
      summary = snap.summary;
      services = map (service_unit format) snap.units;
      distribution = record {
        state = distribution_state machine snap.units;
        published = as_int64 p.sent;
        superseded = as_int64 p.superseded;
        publish_failed = as_int64 p.failed;
        delivered = as_int64 s.seen;
        rejected = reject_counts s.rejects;
        dropped = drop_counts snap.drops;
      };
    }
