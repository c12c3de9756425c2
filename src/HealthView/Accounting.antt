-- ===== src/HealthView/Accounting.antt =====
-- What healthview/view.go counts: every report once.
use opdl.Base.{
  ℕ, suc, ◌+◌, ◌<◌, ◌^◌, ◌≡◌, List, [], ◌∷◌, Option-cases, inl, inr, arith, string_eq, lookup,
  length, if◌then◌else◌,
}
use opdl.HealthView.Inventory.{
  key_eq, Observation, DropReason, drop_none, unknown_target, unknown_observer, unusable_status,
  duplicate, stale,
}
use opdl.HealthView.View.{UnitState, Drops, View, dropped, settle, judge, apply, apply_all}
use opdl.HealthView.Fencing.{is_none}

abbrev pub total : Drops → ℕ
total d = d.unknown_targets + d.unknown_observers + d.unusable_statuses + d.duplicates + d.stales

-- The reports that a run of reports applies.
abbrev pub applied : List (ℕ × Observation) → View → ℕ
applied [] v = 0
applied ((now, o) ∷ os) v =
    let rest = applied os (apply now o v).0 in if is_none (apply now o v).1 then suc rest else rest

settle-total :
    (now : ℕ) (o : Observation) (s : UnitState) (reason : DropReason) (v : View)
    → total v.drops + 1 < 2 ^ 64
    → total (settle now o s reason v).0.drops
        + (if is_none (settle now o s reason v).1 then 1 else 0)
      ≡ total v.drops + 1
unfolding settle dropped
settle-total now o s drop_none v h = ground arith
settle-total now o s unknown_target v h = ground arith
settle-total now o s unknown_observer v h = ground arith
settle-total now o s unusable_status v h = ground arith
settle-total now o s duplicate v h = ground arith
settle-total now o s stale v h = ground arith

apply-total :
    (now : ℕ) (o : Observation) (v : View)
    → total v.drops + 1 < 2 ^ 64
    → total (apply now o v).0.drops + (if is_none (apply now o v).1 then 1 else 0)
      ≡ total v.drops + 1
unfolding apply dropped
apply-total now o v h = elim (Option-cases (lookup o.subject v.units)) [
  | inl e ↦ rw (e, apply) (ground arith)
  | inr (s, e) ↦ rw (e, apply) (settle-total now o s (judge o s) v h)
]

-- The reports that are applied and the drops that are counted over all reasons add up to the
-- reports that arrived, as long as no counter can wrap.
pub apply_all-total :
    (os : List (ℕ × Observation)) (v : View)
    → total v.drops + length os < 2 ^ 64
    → total (apply_all os v).drops + applied os v ≡ total v.drops + length os
unfolding apply_all
apply_all-total [] v h = omega arith
apply_all-total ((now, o) ∷ os) v h =
    ground (arith, apply-total now o v, apply_all-total os (apply now o v).0)
