-- ===== src/HealthView/Fencing.antt =====
-- What healthview/view.go keeps of the reports that reach it.
use opdl.Base.{
  ℕ, ◌≡◌, refl, inl, inr, String, Bool, true, false, ◌&&◌, Option, Option-cases, none, some, arith,
  ◌==◌, nat_eq, string_eq, lookup, lookup-insert, if◌then◌else◌,
}
use opdl.HealthView.Inventory.{
  UnitKey, key_eq, key_beq_iff, Observation, DropReason, drop_none, unknown_target,
  unknown_observer, unusable_status, duplicate, stale,
}
use opdl.HealthView.View.{Report, UnitState, View, report_of, judge, settle, keep, dropped, apply}

-- What one observer's slot of a unit holds.
abbrev pub slot_of : String → Option UnitState → Option Report
slot_of role none = none
slot_of role (some s) = lookup role s.observed

abbrev pub slot : UnitKey → String → View → Option Report
slot k role v = slot_of role (lookup k v.units)

abbrev pub is_none : DropReason → Bool
is_none drop_none = true
is_none _ = false

abbrev pub about : UnitKey → String → Observation → Bool
about k role o = (o.subject == k) && (o.observer_role == role)

settle-slot :
    (now : ℕ) (o : Observation) (s : UnitState) (reason : DropReason) (v : View) (k : UnitKey)
    (role : String)
    → lookup o.subject v.units ≡ some s
    → slot k role (settle now o s reason v).0
      ≡ (if is_none reason && about k role o then some (report_of now o) else slot k role v)
unfolding settle
settle-slot now o s drop_none v k role e = ground (
  arith,
  lookup-insert o.subject k (keep now o s) v.units,
  lookup-insert o.observer_role role (report_of now o) s.observed,
  key_beq_iff o.subject k,
)
settle-slot now o s unknown_target v k role e = refl
settle-slot now o s unknown_observer v k role e = refl
settle-slot now o s unusable_status v k role e = refl
settle-slot now o s duplicate v k role e = refl
settle-slot now o s stale v k role e = refl

pub settle-reason :
    (now : ℕ) (o : Observation) (s : UnitState) (reason : DropReason) (v : View)
    → (settle now o s reason v).1 ≡ reason
unfolding settle dropped
settle-reason now o s drop_none v = refl
settle-reason now o s _ v = refl

-- An applied report fills the slot of its observer and its unit; every other slot is as it was, and
-- a report that is dropped changes none.
pub apply-slot :
    (now : ℕ) (o : Observation) (v : View) (k : UnitKey) (role : String)
    → let r = apply now o v in
      slot k role r.0
      ≡ (if is_none r.1 && about k role o then some (report_of now o) else slot k role v)
unfolding apply dropped
apply-slot now o v k role = elim (Option-cases (lookup o.subject v.units)) [
  | inl e ↦ rw (e, apply) refl
  | inr (s, e) ↦
      rw (e, apply, settle-reason now o s (judge o s) v)
        (settle-slot now o s (judge o s) v k role e)
]
