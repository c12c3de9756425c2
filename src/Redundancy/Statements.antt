-- ===== src/Redundancy/Statements.antt =====
-- platform/internal/machine/redundancy/events.go: the facts that the ownership machine states, with
-- their types, severities and scopes.
use opdl.Base.{ℕ, String, Bool, if◌then◌else◌}

pub data ActivationKind : Type 0 where
  initial failover failback : ActivationKind

-- The bounded reasons of ownership.go for a declined promotion.
pub data DeclineReason : Type 0 where
  peer_healthy handover : DeclineReason

pub data StepDownReason : Type 0 where
  taken_over could_not_renew : StepDownReason

pub data Statement : Type 0 where
  lease_opened : (file : String) → Statement
  ownership_waiting : (file : String) → Statement
  ownership_acquired : (file : String) → (abandoned : Bool) → Statement
  promotion_declined : DeclineReason → Statement
  lease_renewal_failed : Statement
  stepped_down : StepDownReason → Statement
  failback_initiated : Statement
  activation_started : ActivationKind → Statement
  activation_failed : ActivationKind → (duration_ms : ℕ) → Statement
  activation_completed : ActivationKind → (duration_ms : ℕ) → Statement

pub data Severity : Type 0 where
  info warn error : Severity

pub data Scope : Type 0 where
  instance_scope machine_scope : Scope

-- The stable dotted kinds, `Type…`.
unfoldable pub event_type : Statement → String
event_type (lease_opened f) = "platform.redundancy.lease_opened"
event_type (ownership_waiting f) = "platform.redundancy.ownership_waiting"
event_type (ownership_acquired f a) = "platform.redundancy.ownership_acquired"
event_type (promotion_declined r) = "platform.redundancy.promotion_declined"
event_type lease_renewal_failed = "platform.redundancy.lease_renewal_failed"
event_type (stepped_down r) = "platform.redundancy.stepped_down"
event_type failback_initiated = "platform.redundancy.failback_initiated"
event_type (activation_started k) = "platform.redundancy.activation_started"
event_type (activation_failed k d) = "platform.redundancy.activation_failed"
event_type (activation_completed k d) = "platform.redundancy.activation_completed"

-- An event that declares no severity is informational.
unfoldable pub severity : Statement → Severity
severity (ownership_acquired f abandoned) = if abandoned then warn else info
severity lease_renewal_failed = warn
severity (stepped_down r) = warn
severity (activation_failed k d) = error
severity (lease_opened f) = info
severity (ownership_waiting f) = info
severity (promotion_declined r) = info
severity failback_initiated = info
severity (activation_started k) = info
severity (activation_completed k d) = info

-- An event that declares no scope is the instance's.
unfoldable pub scope : Statement → Scope
scope (ownership_acquired f a) = machine_scope
scope (stepped_down r) = machine_scope
scope failback_initiated = machine_scope
scope (activation_started k) = machine_scope
scope (activation_failed k d) = machine_scope
scope (activation_completed k d) = machine_scope
scope (lease_opened f) = instance_scope
scope (ownership_waiting f) = instance_scope
scope (promotion_declined r) = instance_scope
scope lease_renewal_failed = instance_scope
