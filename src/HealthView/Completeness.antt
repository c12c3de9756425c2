-- ===== src/HealthView/Completeness.antt =====
-- What a snapshot of healthview/snapshot.go shows: the inventory's units.
use mathlib.Core.List.{append_assoc, append-nil}
use opdl.Base.{
  map, sym, ℕ, ◌≡◌, refl, ap, ◌∙◌, Bool, true, false, List, [], ◌∷◌, ◌++◌, Option, Option-cases,
  inl, inr, none, some, arith, string_eq, lookup, insert, lookup-insert, Bool-cases, subst, ◌==◌,
}
use opdl.HealthView.Inventory.{
  UnitKey, key_eq, key_beq_iff, Observation, ServiceUnit, DropReason, drop_none, Deployment,
}
use opdl.HealthView.View.{
  UnitState, no_drops, View, dropped, settle, judge, apply, apply_all, keep, add_units, new_view,
  built,
}
use opdl.HealthView.Snapshot.{
  render_unit, Summary, no_summary, summarise, UnitSnapshot, render_all, snapshot,
}
use opdl.HealthView.Counting.{SumsUp, SumsUp-snoc, render_unit-Adds}

-- Every key of the order has the unit of that key.
abbrev pub is_there : UnitKey → Option UnitState → Bool
is_there k none = false
is_there k (some s) = s.unit.key == k

abbrev pub AllThere : List UnitKey → List (UnitKey × UnitState) → Type 0
AllThere [] units = Unit {0}
AllThere (k ∷ ks) units = (is_there k (lookup k units) ≡ true) × AllThere ks units

-- A unit is replaced by one of its key.
insert-AllThere :
    (ks : List UnitKey) (units : List (UnitKey × UnitState)) (k : UnitKey) (old s : UnitState)
    → lookup k units ≡ some old
    → s.unit ≡ old.unit
    → AllThere ks units
    → AllThere ks (insert k s units)
insert-AllThere [] units k old s e same h = tt
insert-AllThere (j ∷ ks) units k old s e same (h, hs) = (
  elim (Bool-cases (k == j)) [
    | inl b ↦
        let i : k ≡ j = (key_beq_iff k j).0 b in
        let was : lookup j units ≡ some old = subst (λ x. lookup x units ≡ some old) i e in
        rw (lookup-insert k j s units, b) (rw same (rw was at h))
    | inr b ↦ rw (lookup-insert k j s units, b) h
  ],
  insert-AllThere ks units k old s e same hs,
)

settle-AllThere :
    (now : ℕ) (o : Observation) (s : UnitState) (reason : DropReason) (v : View)
    → lookup o.subject v.units ≡ some s
    → AllThere v.order v.units
    → let w = (settle now o s reason v).0 in AllThere w.order w.units
unfolding settle dropped
settle-AllThere now o s drop_none v e h =
    insert-AllThere v.order v.units o.subject s (keep now o s) e refl h
settle-AllThere now o s _ v e h = h

apply-AllThere :
    (now : ℕ) (o : Observation) (v : View)
    → AllThere v.order v.units
    → let w = (apply now o v).0 in AllThere w.order w.units
unfolding apply dropped
apply-AllThere now o v h = elim (Option-cases (lookup o.subject v.units)) [
  | inl e ↦ rw (e, apply) h
  | inr (s, e) ↦ rw (e, apply) (settle-AllThere now o s (judge o s) v e h)
]

apply_all-AllThere :
    (os : List (ℕ × Observation)) (v : View)
    → AllThere v.order v.units
    → AllThere (apply_all os v).order (apply_all os v).units
unfolding apply_all
apply_all-AllThere [] v h = h
apply_all-AllThere ((now, o) ∷ os) v h =
    apply_all-AllThere os (apply now o v).0 (apply-AllThere now o v h)

AllThere-snoc :
    (ks : List UnitKey) (k : UnitKey) (s : UnitState) (units : List (UnitKey × UnitState))
    → s.unit.key ≡ k
    → AllThere ks units
    → AllThere (ks ++ (k ∷ [])) (insert k s units)
AllThere-snoc [] k s units fits h = (
  rw (lookup-insert k k s units, (key_beq_iff k k).1 refl) ((key_beq_iff s.unit.key k).1 fits),
  tt,
)
AllThere-snoc (j ∷ ks) k s units fits (h, hs) = (
  elim (Bool-cases (k == j)) [
    | inl b ↦
        rw (lookup-insert k j s units, b)
          ((key_beq_iff s.unit.key j).1 (fits ∙ (key_beq_iff k j).0 b))
    | inr b ↦ rw (lookup-insert k j s units, b) h
  ],
  AllThere-snoc ks k s units fits hs,
)

add_units-AllThere :
    (us : List ServiceUnit) (v w : View)
    → AllThere v.order v.units
    → add_units us v ≡ built w
    → AllThere w.order w.units
unfolding add_units
add_units-AllThere [] v w h e = ground arith
add_units-AllThere (u ∷ us) v w h e =
    let s : UnitState = record { unit = u; observed = [] } in
    let next : View = record v {
      order = v.order ++ (u.key ∷ []);
      units = insert u.key s v.units;
    } in
    ground (
      arith,
      AllThere-snoc v.order u.key s v.units refl h,
      add_units-AllThere us next w (AllThere-snoc v.order u.key s v.units refl h),
    )

add_units-order :
    (us : List ServiceUnit) (v w : View)
    → add_units us v ≡ built w
    → w.order ≡ v.order ++ map (λ u. u.key) us
unfolding add_units
add_units-order [] v w e =
    let same : v ≡ w = ground arith in ap (λ x. x.order) (sym same) ∙ sym (append-nil v.order)
add_units-order (u ∷ us) v w e =
    let s : UnitState = record { unit = u; observed = [] } in
    let next : View = record v {
      order = v.order ++ (u.key ∷ []);
      units = insert u.key s v.units;
    } in
    let later : add_units us next ≡ built w = ground arith in
    add_units-order us next w later ∙ append_assoc v.order (u.key ∷ []) (map (λ x. x.key) us)

settle-order :
    (now : ℕ) (o : Observation) (s : UnitState) (reason : DropReason) (v : View)
    → (settle now o s reason v).0.order ≡ v.order
unfolding settle dropped
settle-order now o s drop_none v = refl
settle-order now o s _ v = refl

apply_all-order : (os : List (ℕ × Observation)) (v : View) → (apply_all os v).order ≡ v.order
unfolding apply_all apply dropped
apply_all-order [] v = refl
apply_all-order ((now, o) ∷ os) v = apply_all-order os (apply now o v).0 ∙ first
  where
    first : (apply now o v).0.order ≡ v.order
    first = elim (Option-cases (lookup o.subject v.units)) [
      | inl e ↦ rw (e, apply) refl
      | inr (s, e) ↦ rw (e, apply) (settle-order now o s (judge o s) v)
    ]

render_unit-key : (now : ℕ) (s : UnitState) → (render_unit now s).key ≡ s.unit.key
unfolding render_unit
render_unit-key now s = refl

keys_of-snoc :
    (us : List UnitSnapshot) (u : UnitSnapshot) (ks : List UnitKey)
    → map (λ x. x.key) (us ++ (u ∷ [])) ++ ks ≡ map (λ x. x.key) us ++ (u.key ∷ ks)
keys_of-snoc [] u ks = refl
keys_of-snoc (x ∷ us) u ks = ap (λ l. x.key ∷ l) (keys_of-snoc us u ks)

render_all_complete :
    (now : ℕ) (units : List (UnitKey × UnitState)) (ks : List UnitKey)
    (acc : List UnitSnapshot × Summary)
    → AllThere ks units
    → SumsUp acc.1 acc.0
    → let r = render_all now units ks acc in
      (map (λ x. x.key) r.0 ≡ map (λ x. x.key) acc.0 ++ ks) × SumsUp r.1 r.0
unfolding render_all
render_all_complete now units [] acc there sums = (sym (append-nil (map (λ x. x.key) acc.0)), sums)
render_all_complete now units (k ∷ ks) acc (h, hs) sums = elim (Option-cases (lookup k units)) [
  | inl e ↦ absurd (ground arith)
  | inr (s, e) ↦
      let u = render_unit now s in
      let (keys, total) =
        render_all_complete now units ks (acc.0 ++ (u ∷ []), summarise u.status acc.1) hs
          (SumsUp-snoc acc.0 u acc.1 sums (render_unit-Adds now s acc.1)) in
      let own : s.unit.key ≡ k = (key_beq_iff s.unit.key k).0 (rw e at h) in
      rw (e, render_all)
        (
          keys
              ∙ keys_of-snoc acc.0 u ks
              ∙ ap (λ x. map (λ y. y.key) acc.0 ++ (x ∷ ks)) (render_unit-key now s ∙ own),
          total,
        )
]

-- A snapshot of a view that `New` built and that any reports have reached shows the units of the
-- inventory, each under its own key and in the inventory's order, and no other. Each count of its
-- summary is the number of the units that it shows with that status, and the four together count
-- every unit.
pub snapshot_complete :
    (d : Deployment) (inventory : List ServiceUnit) (has_clock : Bool) (v : View)
    (os : List (ℕ × Observation)) (now : ℕ)
    → new_view d inventory has_clock ≡ built v
    → let s = snapshot now (apply_all os v) in
      (map (λ u. u.key) s.units ≡ map (λ u. u.key) inventory) × SumsUp s.summary s.units
unfolding snapshot new_view
snapshot_complete d inventory has_clock v os now e =
    let there = apply_all-AllThere os v (add_units-AllThere inventory first_view v tt (begun e)) in
    let (keys, sums) =
      render_all_complete now (apply_all os v).units (apply_all os v).order ([], no_summary) there
        (refl, refl, refl, refl, refl) in
    (keys ∙ apply_all-order os v ∙ add_units-order inventory first_view v (begun e), sums)
  where
    first_view : View
    first_view = record { deployment = d; order = []; units = []; drops = no_drops }

    begun : new_view d inventory has_clock ≡ built v → add_units inventory first_view ≡ built v
    begun h = ground arith
