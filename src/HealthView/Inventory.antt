-- ===== src/HealthView/Inventory.antt =====
-- platform/internal/site/healthview/healthview.go: statuses, deployments, the inventory's units and
-- the reports about them. A non-positive time.Duration is 0: the code tests only whether one is
-- positive.
use opdl.Base.{
  ℕ, ◌≡◌, ◌↔◌, String, Bool, true, false, not, ◌&&◌, ◌||◌, List, [], ◌∷◌, Option, none, some, arith,
  Equality, ◌==◌, nat_eq, string_eq, contains, is_blank, trim_space, eq_iff, if◌then◌else◌,
}

-- A Go string type: any text may come off the wire.
abbrev pub Status : Type 0
Status = String

abbrev pub status_unknown : Status
status_unknown = "unknown"

abbrev pub status_healthy : Status
status_healthy = "healthy"

abbrev pub status_unhealthy : Status
status_unhealthy = "unhealthy"

abbrev pub status_degraded : Status
status_degraded = "degraded"

abbrev pub observed_statuses : List Status
observed_statuses = status_unknown ∷ status_healthy ∷ status_unhealthy ∷ []

abbrev pub is_verdict : Status → Bool
is_verdict s = (s == status_healthy) || (s == status_unhealthy)

pub record Deployment : Type 0 where
  pub project : String
  pub environment : String
  pub site : String

pub data DeploymentError : Type 0 where
  project_required environment_required site_required : DeploymentError

-- `Deployment.Validate`; `none` is a nil error.
unfoldable pub validate_deployment : Deployment → Option DeploymentError
validate_deployment d =
    if is_blank d.project
    then some project_required
    else if is_blank d.environment
    then some environment_required
    else if is_blank d.site
    then some site_required
    else none

pub record UnitKey : Type 0 where
  pub machine : String
  pub service : String

abbrev pub key_beq : UnitKey → UnitKey → Bool
key_beq a b = (a.machine == b.machine) && (a.service == b.service)

pub key_beq_iff : (a b : UnitKey) → (key_beq a b ≡ true) ↔ (a ≡ b)
key_beq_iff a b = ground (arith, eq_iff a.machine b.machine, eq_iff a.service b.service)

instance abbrev pub key_eq : Equality UnitKey
key_eq = record { equal = key_beq; equal_iff = key_beq_iff }

pub record ServiceUnit : Type 0 where
  pub key : UnitKey
  pub machine_profile : String
  pub service_role : String
  pub observer_roles : List String
  pub fresh_for : ℕ

pub data UnitError : Type 0 where
  no_machine no_service profile_required role_required no_observers fresh_for_not_positive :
      UnitError
  blank_role padded_role role_listed_twice : UnitError

-- The loop of `Unit.validate` over the observer roles.
unfoldable pub validate_roles : List String → List String → Option UnitError
validate_roles seen [] = none
validate_roles seen (r ∷ rs) =
    let rest = validate_roles (r ∷ seen) rs in
    if is_blank r
    then some blank_role
    else if not (r == trim_space r)
    then some padded_role
    else if contains seen r
    then some role_listed_twice
    else rest

abbrev is_empty : List String → Bool
is_empty [] = true
is_empty (x ∷ xs) = false

unfoldable pub validate_unit : ServiceUnit → Option UnitError
validate_unit u =
    if is_blank u.key.machine
    then some no_machine
    else if is_blank u.key.service
    then some no_service
    else if is_blank u.machine_profile
    then some profile_required
    else if is_blank u.service_role
    then some role_required
    else if is_empty u.observer_roles
    then some no_observers
    else if u.fresh_for == 0
    then some fresh_for_not_positive
    else validate_roles [] u.observer_roles

pub record Observation : Type 0 where
  pub subject : UnitKey
  pub observer_role : String
  pub epoch : ℕ
  pub sequence : ℕ
  pub status : Status
  pub checked_at_utc : ℕ
  pub latency : ℕ
  pub consecutive_failures : ℕ
  pub failure : String

pub data DropReason : Type 0 where
  drop_none unknown_target unknown_observer unusable_status duplicate stale : DropReason
