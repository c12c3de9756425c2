-- ===== src/HealthView/View.antt =====
-- platform/internal/site/healthview/view.go: the picture of a site, and how reports are folded in.
-- The view's mutex makes each call one step; `now` is the reading of the view's own clock.
use opdl.Base.{
  ℕ, ◌+◌, ◌%◌, ◌^◌, String, Bool, true, false, not, ◌&&◌, ◌||◌, List, [], ◌∷◌, ◌++◌, Option, none,
  some, ltb, ◌==◌, nat_eq, string_eq, contains, lookup, insert, if◌then◌else◌,
}
use opdl.HealthView.Inventory.{
  Status, observed_statuses, Deployment, DeploymentError, validate_deployment, UnitKey, key_eq,
  ServiceUnit, UnitError, validate_unit, Observation, DropReason, drop_none, unknown_target,
  unknown_observer, unusable_status, duplicate, stale,
}

pub record Report : Type 0 where
  pub epoch : ℕ
  pub sequence : ℕ
  pub status : Status
  pub received_at : ℕ
  pub checked_at_utc : ℕ
  pub latency : ℕ
  pub consecutive_failures : ℕ
  pub failure : String

pub record UnitState : Type 0 where
  pub unit : ServiceUnit
  -- Keyed by observer role.
  pub observed : List (String × Report)

-- uint64 counters, one for each reason that is counted.
pub record Drops : Type 0 where
  pub unknown_targets : ℕ
  pub unknown_observers : ℕ
  pub unusable_statuses : ℕ
  pub duplicates : ℕ
  pub stales : ℕ

abbrev pub no_drops : Drops
no_drops = record {
  unknown_targets = 0;
  unknown_observers = 0;
  unusable_statuses = 0;
  duplicates = 0;
  stales = 0;
}

pub record View : Type 0 where
  pub deployment : Deployment
  pub order : List UnitKey
  pub units : List (UnitKey × UnitState)
  pub drops : Drops

abbrev pub count_up : ℕ → ℕ
count_up n = (n + 1) % 2 ^ 64

abbrev pub bump : DropReason → Drops → Drops
bump drop_none d = d
bump unknown_target d = record d { unknown_targets = count_up d.unknown_targets }
bump unknown_observer d = record d { unknown_observers = count_up d.unknown_observers }
bump unusable_status d = record d { unusable_statuses = count_up d.unusable_statuses }
bump duplicate d = record d { duplicates = count_up d.duplicates }
bump stale d = record d { stales = count_up d.stales }

-- `dropped`.
unfoldable pub dropped : DropReason → View → View × DropReason
dropped reason v = (record v { drops = bump reason v.drops }, reason)

abbrev pub report_of : ℕ → Observation → Report
report_of now o = record {
  epoch = o.epoch;
  sequence = o.sequence;
  status = o.status;
  received_at = now;
  checked_at_utc = o.checked_at_utc;
  latency = o.latency;
  consecutive_failures = o.consecutive_failures;
  failure = o.failure;
}

-- The comparison with what the slot holds.
unfoldable pub fence : Observation → Option Report → DropReason
fence o none = drop_none
fence o (some current) =
    if (o.epoch == current.epoch) && (o.sequence == current.sequence)
    then duplicate
    else if ltb o.epoch current.epoch
        || ((o.epoch == current.epoch) && ltb o.sequence current.sequence)
    then stale
    else drop_none

-- Why a report about a known unit is refused, `drop_none` if it is not.
unfoldable pub judge : Observation → UnitState → DropReason
unfolding fence
judge o s =
    if not (contains s.unit.observer_roles o.observer_role)
    then unknown_observer
    else if not (contains observed_statuses o.status)
    then unusable_status
    else fence o (lookup o.observer_role s.observed)

abbrev pub keep : ℕ → Observation → UnitState → UnitState
keep now o s = record s { observed = insert o.observer_role (report_of now o) s.observed }

unfoldable pub settle : ℕ → Observation → UnitState → DropReason → View → View × DropReason
unfolding dropped
settle now o s drop_none v =
    (record v { units = insert o.subject (keep now o s) v.units }, drop_none)
settle now o s reason v = dropped reason v

-- `Apply`.
unfoldable pub apply : ℕ → Observation → View → View × DropReason
unfolding dropped judge settle
apply now o v = elim (lookup o.subject v.units) [
  | none ↦ dropped unknown_target v
  | some s ↦ settle now o s (judge o s) v
]

-- Reports in the order of their arrival, each with its arrival time.
unfoldable pub apply_all : List (ℕ × Observation) → View → View
apply_all [] v = v
apply_all ((now, o) ∷ os) v = apply_all os (apply now o v).0

pub data NewError : Type 0 where
  bad_deployment : DeploymentError → NewError
  clock_required : NewError
  bad_unit : UnitError → NewError
  listed_twice : UnitKey → NewError

pub data NewResult : Type 0 where
  built : View → NewResult
  not_built : NewError → NewResult

abbrev is_listed : Option UnitState → Bool
is_listed none = false
is_listed (some s) = true

-- The loop of `New` over the inventory.
unfoldable pub add_units : List ServiceUnit → View → NewResult
add_units [] v = built v
add_units (u ∷ us) v =
    let rest = add_units us (record v {
      order = v.order ++ (u.key ∷ []);
      units = insert u.key (record { unit = u; observed = [] }) v.units;
    }) in
    elim (validate_unit u) [
      | some e ↦ not_built (bad_unit e)
      | none ↦ if is_listed (lookup u.key v.units) then not_built (listed_twice u.key) else rest
    ]

unfoldable pub new_view : Deployment → List ServiceUnit → (has_clock : Bool) → NewResult
unfolding add_units
new_view d inventory has_clock = elim (validate_deployment d) [
  | some e ↦ not_built (bad_deployment e)
  | none ↦
      if has_clock
      then add_units inventory (record { deployment = d; order = []; units = []; drops = no_drops })
      else not_built clock_required
]
