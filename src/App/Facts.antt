-- ===== src/App/Facts.antt =====
-- platform/internal/app/events.go: the facts that the process states, and how those and the
-- statements of the ownership machine are events. `json.Marshal`'s result is an argument.
use opdl.Base.{ℕ, String, Bool, List, Option, none, some, ◌==◌, string_eq, if◌then◌else◌}
use opdl.Redundancy.Statements.{
  Statement, lease_opened, ownership_waiting, ownership_acquired, promotion_declined,
  lease_renewal_failed, stepped_down, failback_initiated, activation_started, activation_failed,
  activation_completed, event_type,
}
use opdl.Events.Event.{Event}

pub data Fact : Type 0 where
  process_started :
      (events_file machine_events_file state_file : String)
      → (epoch : ℕ) → (standby_enabled : Bool) → Fact
  process_stopped : (failure : String) → Fact
  epoch_advanced :
      (state_file : String)
      → (epoch : ℕ) → (reason : String) → (process_epoch activation_epoch : ℕ) → Fact
  epoch_advance_failed : (state_file reason failure : String) → Fact
  lease_open_failed : (file failure : String) → Fact
  api_listen_failed : (address failure : String) → Fact
  api_listening : (address instance_state : String) → Fact
  api_active : (address instance_state : String) → Fact
  api_stopped : (failure : String) → Fact
  event_fabric_started :
      (server_name cluster_name cluster_address : String) → (routes : List String) → Fact
  event_fabric_start_failed : (server_name cluster_name cluster_address failure : String) → Fact
  standby_waiting : Fact
  service_health_start_failed : (failure : String) → Fact

-- `EventType`.
unfoldable pub fact_type : Fact → String
fact_type (process_started e m s n b) = "platform.app.process_started"
fact_type (process_stopped e) = "platform.app.process_stopped"
fact_type (epoch_advanced s n r p a) = "platform.app.epoch_advanced"
fact_type (epoch_advance_failed s r e) = "platform.app.epoch_advance_failed"
fact_type (lease_open_failed f e) = "platform.app.lease_open_failed"
fact_type (api_listen_failed a e) = "platform.app.api_listen_failed"
fact_type (api_listening a s) = "platform.app.api_listening"
fact_type (api_active a s) = "platform.app.api_active"
fact_type (api_stopped e) = "platform.app.api_stopped"
fact_type (event_fabric_started s c a r) = "platform.app.event_fabric_started"
fact_type (event_fabric_start_failed s c a e) = "platform.app.event_fabric_start_failed"
fact_type standby_waiting = "platform.app.standby_waiting"
fact_type (service_health_start_failed e) = "platform.app.service_health_start_failed"

-- `failureSeverity`.
abbrev pub failure_severity : String → String
failure_severity failure = if failure == "" then "info" else "error"

-- `Severity`, for the facts that declare one.
unfoldable pub fact_severity : Fact → Option String
fact_severity (process_started e m s n b) = none
fact_severity (process_stopped e) = some (failure_severity e)
fact_severity (epoch_advanced s n r p a) = none
fact_severity (epoch_advance_failed s r e) = some "error"
fact_severity (lease_open_failed f e) = some "error"
fact_severity (api_listen_failed a e) = some "error"
fact_severity (api_listening a s) = none
fact_severity (api_active a s) = none
fact_severity (api_stopped e) = some (failure_severity e)
fact_severity (event_fabric_started s c a r) = none
fact_severity (event_fabric_start_failed s c a e) = some "error"
fact_severity standby_waiting = none
fact_severity (service_health_start_failed e) = some "error"

abbrev pub fact_event : Fact → Option String → Event
fact_event f payload = record {
  kind = fact_type f;
  versioned = none;
  severe = fact_severity f;
  scoped = none;
  tagged = none;
  identified = none;
  payload = payload;
}

-- `Severity` of redundancy/events.go, for the statements that declare one.
unfoldable pub statement_severity : Statement → Option String
statement_severity (ownership_acquired f abandoned) = some (if abandoned then "warn" else "info")
statement_severity lease_renewal_failed = some "warn"
statement_severity (stepped_down r) = some "warn"
statement_severity (activation_failed k d) = some "error"
statement_severity (lease_opened f) = none
statement_severity (ownership_waiting f) = none
statement_severity (promotion_declined r) = none
statement_severity failback_initiated = none
statement_severity (activation_started k) = none
statement_severity (activation_completed k d) = none

-- `Scope`, for the statements that declare one.
unfoldable pub statement_scope : Statement → Option String
statement_scope (ownership_acquired f a) = some "machine"
statement_scope (stepped_down r) = some "machine"
statement_scope failback_initiated = some "machine"
statement_scope (activation_started k) = some "machine"
statement_scope (activation_failed k d) = some "machine"
statement_scope (activation_completed k d) = some "machine"
statement_scope (lease_opened f) = none
statement_scope (ownership_waiting f) = none
statement_scope (promotion_declined r) = none
statement_scope lease_renewal_failed = none

abbrev pub statement_event : Statement → Option String → Event
statement_event s payload = record {
  kind = event_type s;
  versioned = none;
  severe = statement_severity s;
  scoped = statement_scope s;
  tagged = none;
  identified = none;
  payload = payload;
}
