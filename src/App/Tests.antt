-- ===== src/App/Tests.antt =====
-- The composition of a process at a concrete descriptor.
use opdl.Base.{
  map, arith, ◌++◌, inr, ◌+◌, ◌*◌, ◌≡◌, refl, ℕ, true, false, List, [], ◌∷◌, Option, none, some,
  trim_space, ◌==◌, string_eq,
}
use opdl.ServiceHealth.Tracker.{healthy, unhealthy}
use opdl.ServiceHealth.Monitor.{Observation as Finding}
use opdl.HealthView.Inventory.{ServiceUnit, unknown_target}
use opdl.HealthView.View.{UnitState, Report, View, new_view, built}
use opdl.Redundancy.Role.{role_valid}
use opdl.Redundancy.Lease.{LeaseConfig, Lease, open_lease, opened}
use opdl.Deployment.Types.{is_set, has_standby}
use opdl.Deployment.Sample.{parsers, reads, descriptor, alpha_accepted, padded_accepted}
use opdl.App.Setup.{ok, lease_config_of, health_inventory, deployment_of}
use opdl.App.LeaseSetup.{validate-open_lease}
use opdl.Redundancy.Statements.{ownership_acquired, activation_completed, initial}
use opdl.Events.Logs.{Stores, line, landed, publish_to_stores}
use opdl.App.Facts.{statement_scope, statement_event}
use opdl.App.StoppedFacts.{stopped, publish_to_stores-ended}
use opdl.Events.Kind.{Origin, validate_origin}
use opdl.Events.Envelope.{Envelope, Json}
use opdl.Events.Event.{ok as made}
use opdl.Events.Factory.{no_cause, wrap}
use opdl.Events.Wrapping.{IsStamped}
use opdl.App.FactsWrapped.{event_of, wrap-stated}
use opdl.HealthView.Snapshot.{render_unit}
use opdl.App.Hearing.{Means, remote, distribution_state-Means}
use opdl.App.Drain.{drain, IsAnswer, drain-IsAnswer}
use opdl.App.Monitoring.{observed, observe_all, distribution_state}
use opdl.App.OwnReports.{AreApplied}
use opdl.App.OwnServices.{sink_of, observe_all-new_view, observed_padded_machine}

primary_valid : role_valid "primary" ≡ true
unfolding role_valid
primary_valid = refl

validate-open_lease_example :
    (cfg : LeaseConfig) × (l : Option Lease) × (lease_config_of parsers (descriptor "alpha")
      ≡ ok cfg)
    × (open_lease cfg "primary" true 7 ≡ opened l)
    × (is_set l ≡ has_standby (descriptor "alpha"))
validate-open_lease_example =
    validate-open_lease parsers (descriptor "alpha") "primary" 7 alpha_accepted primary_valid

abbrev finding : Finding
finding = record {
  service = "store";
  role = "master";
  status = healthy;
  checked_at = 100;
  latency = 3;
  pending_failures = 0;
  failure = none;
}

abbrev failing : Finding
failing = record finding {
  status = unhealthy;
  checked_at = 200;
  pending_failures = 3;
  failure = some "connection refused";
}

abbrev findings : List (ℕ × Finding)
findings = (101, finding) ∷ (201, failing) ∷ []

alpha_trimmed : trim_space "alpha" ≡ "alpha"
unfolding trim_space
alpha_trimmed = refl

observe_all-new_view_example :
    let d = descriptor "alpha" in
    (units : List ServiceUnit) × (v : View) × (health_inventory parsers d ≡ ok units)
    × (new_view (deployment_of d) units true ≡ built v)
    × AreApplied (observe_all findings (sink_of d "standby" 4 v)).1
observe_all-new_view_example =
    observe_all-new_view parsers reads (descriptor "alpha") "standby" 4 alpha_accepted alpha_trimmed
      refl findings refl (refl, (refl, tt))

padded_apart : (trim_space " alpha" == " alpha") ≡ false
unfolding trim_space
padded_apart = refl

observed_padded_machine_example :
    let d = descriptor " alpha" in
    (units : List ServiceUnit) × (v : View) × (health_inventory parsers d ≡ ok units)
    × (new_view (deployment_of d) units true ≡ built v)
    × ((observed 101 finding (sink_of d "primary" 4 v)).1 ≡ unknown_target)
observed_padded_machine_example =
    observed_padded_machine parsers reads (descriptor " alpha") "primary" 4 padded_accepted
      padded_apart 101 finding

abbrev json : Json
json = record { is_json = λ t. t == "{}"; marshal = λ e. some e.id; unmarshal = λ t. none }

abbrev origin : Origin
origin = record { machine = "alpha"; machine_profile = "node"; process_role = "primary"; pid = 7 }

origin_valid : validate_origin origin ≡ none
unfolding validate_origin
origin_valid = refl

wrap-stated_example :
    let stated = inr (ownership_acquired "lease" true) in
    (e : Envelope) × (wrap json origin 500 (some "001") no_cause (event_of stated (some "{}"))
      ≡ made e)
    × (e.source ≡ "redundancy")
    × IsStamped json origin 500 "001" no_cause (event_of stated (some "{}")) "{}" e
wrap-stated_example =
    wrap-stated json origin 500 "001" no_cause (inr (ownership_acquired "lease" true)) "{}"
      origin_valid refl refl refl refl

-- One request is in flight, and never ends; each pause lasts six milliseconds.
abbrev stuck : ℕ → ℕ
stuck n = 1

abbrev reading : ℕ → ℕ
reading n = 100 + n * 6000000

drain-IsAnswer_example :
    IsAnswer stuck reading (100 + 20000000) (drain stuck reading 100 20000000 6)
drain-IsAnswer_example = drain-IsAnswer stuck reading 100 20000000 (λ n. omega arith) (omega arith)

abbrev received : ℕ → Report
received at = record {
  epoch = 4;
  sequence = 1;
  status = "healthy";
  received_at = at;
  checked_at_utc = at;
  latency = 3;
  consecutive_failures = 0;
  failure = "";
}

abbrev own_unit : UnitState
own_unit = record {
  unit = record {
    key = record { machine = "alpha"; service = "store" };
    machine_profile = "node";
    service_role = "master";
    observer_roles = "primary" ∷ "standby" ∷ [];
    fresh_for = 50;
  };
  observed = [];
}

-- The primary's report is current, and the standby's has expired.
abbrev remote_unit : UnitState
remote_unit = record {
  unit = record {
    key = record { machine = "beta"; service = "cache" };
    machine_profile = "node";
    service_role = "slave";
    observer_roles = "primary" ∷ "standby" ∷ [];
    fresh_for = 50;
  };
  observed = ("primary", received 180) ∷ ("standby", received 100) ∷ [];
}

distribution_state-Means_example :
    let units = own_unit ∷ remote_unit ∷ [] in
    Means 200 (remote "alpha" units) (distribution_state "alpha" (map (render_unit 200) units))
distribution_state-Means_example =
    distribution_state-Means "alpha" 200 (own_unit ∷ remote_unit ∷ [])

abbrev files : Stores
files = record {
  log = record { path = "events"; content = []; closed = false };
  store = record { path = "machine"; content = []; closed = false };
}

completed_scope : statement_scope (activation_completed initial 5) ≡ some "machine"
unfolding statement_scope
completed_scope = refl

publish_to_stores-ended_example :
    let s = activation_completed initial 5 in
    (e : Envelope) × (wrap json origin 500 (some "001") no_cause (statement_event s (some "{}"))
      ≡ made e)
    × (publish_to_stores json (stopped e landed) files ≡ (
      "context canceled" ∷ [],
      record files { log = record files.log { content = [] ++ (line e.id ∷ []) } },
    ))
publish_to_stores-ended_example =
    publish_to_stores-ended json origin 500 "001" no_cause (activation_completed initial 5) "{}"
      (λ e. e.id) landed files completed_scope origin_valid refl refl refl refl (λ e. refl) refl
