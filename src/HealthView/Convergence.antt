-- ===== src/HealthView/Convergence.antt =====
-- Two processes that receive the same reports in different orders (healthview/view.go).
use mathlib.Core.List.{Perm, Permᴰ}
use mathlib.Core.Logic.{∥∥₁_elim}
use native.Mathlib.Nat.{ℕ_set}
use opdl.Base.{
  ℕ, ◌≡◌, refl, sym, ap, ◌∙◌, String, Bool, true, false, ◌&&◌, ◌||◌, List, [], ◌∷◌, Option,
  Option-cases, Bool-cases, inl, inr, ◌⊎◌, none, some, arith, ltb, ◌==◌, nat_eq, string_eq,
  contains, eq_iff, lookup, lookup-insert, if◌then◌else◌,
}
use opdl.HealthView.Inventory.{
  UnitKey, key_eq, key_beq_iff, ServiceUnit, observed_statuses, Observation, DropReason, drop_none,
  unknown_target,
}
use opdl.HealthView.View.{
  Report, UnitState, View, report_of, fence, judge, settle, keep, dropped, apply, apply_all,
}
use opdl.HealthView.Fencing.{settle-reason, slot, slot_of, is_none, about, apply-slot}

-- An epoch and a sequence within it.
abbrev pub Version : Type 0
Version = ℕ × ℕ

abbrev pub newer : Version → Version → Bool
newer (e, s) (e', s') = ltb e e' || ((e == e') && ltb s s')

-- The later of what a slot holds and a report.
abbrev pub join : Option Version → Version → Option Version
join none b = some b
join (some a) b = if newer a b then some b else some a

abbrev pub version_of : Option Report → Option Version
version_of none = none
version_of (some r) = some (r.epoch, r.sequence)

-- The inventory expects this observer to report on this unit, and the status is one it may state.
abbrev pub admits_to : Option UnitState → Observation → Bool
admits_to none o = false
admits_to (some s) o =
    contains s.unit.observer_roles o.observer_role && contains observed_statuses o.status

abbrev pub admits : View → Observation → Bool
admits v o = admits_to (lookup o.subject v.units) o

-- What a slot's version becomes when a report arrives.
abbrev pub absorb : View → UnitKey → String → Observation → Option Version → Option Version
absorb v k role o b = if admits v o && about k role o then join b (o.epoch, o.sequence) else b

-- The newest version among the admissible reports about a slot, and what it held before.
abbrev pub newest :
    View → UnitKey → String → List (ℕ × Observation) → Option Version → Option Version
newest v k role [] b = b
newest v k role ((now, o) ∷ os) b = newest v k role os (absorb v k role o b)

judge-join :
    (now : ℕ) (o : Observation) (s : UnitState)
    → version_of
        (if is_none (judge o s) then some (report_of now o) else lookup o.observer_role s.observed)
      ≡ (if admits_to (some s) o
          then join (version_of (lookup o.observer_role s.observed)) (o.epoch, o.sequence)
          else version_of (lookup o.observer_role s.observed))
unfolding judge fence
judge-join now o s = ground arith

apply-reason :
    (now : ℕ) (o : Observation) (v : View) (s : UnitState)
    → lookup o.subject v.units ≡ some s
    → (apply now o v).1 ≡ judge o s
unfolding apply
apply-reason now o v s e = rw (e, apply) (settle-reason now o s (judge o s) v)

apply-unknown :
    (now : ℕ) (o : Observation) (v : View)
    → lookup o.subject v.units ≡ none
    → (apply now o v).1 ≡ unknown_target
unfolding apply dropped
apply-unknown now o v e = rw (e, apply) refl

about-slot :
    (k : UnitKey) (role : String) (o : Observation) (v : View)
    → about k role o ≡ true
    → slot k role v ≡ slot_of o.observer_role (lookup o.subject v.units)
about-slot k role o v h =
    let e : k ≡ o.subject = ground (arith, key_beq_iff o.subject k) in
    let f : role ≡ o.observer_role = ground (arith, eq_iff o.observer_role role) in rw (e, f) refl

apply-version :
    (now : ℕ) (o : Observation) (v : View) (k : UnitKey) (role : String)
    → version_of (slot k role (apply now o v).0) ≡ (
        if admits v o && about k role o
        then join (version_of (slot k role v)) (o.epoch, o.sequence)
        else version_of (slot k role v))
apply-version now o v k role =
    rw (apply-slot now o v k role)
      (split (Option-cases (lookup o.subject v.units)) (Bool-cases (about k role o)))
  where
    Goal : Type 0
    Goal =
        version_of (
          if is_none (apply now o v).1 && about k role o
          then some (report_of now o)
          else slot k role v)
        ≡ (if admits v o && about k role o
            then join (version_of (slot k role v)) (o.epoch, o.sequence)
            else version_of (slot k role v))

    split :
        (lookup o.subject v.units ≡ none) ⊎ ((s : UnitState) × (lookup o.subject v.units ≡ some s))
        → (about k role o ≡ true) ⊎ (about k role o ≡ false)
        → Goal
    split (inl e) h = ground (arith, apply-unknown now o v e)
    split (inr (s, e)) (inr f) = ground arith
    split (inr (s, e)) (inl t) =
        ground (arith, apply-reason now o v s e, about-slot k role o v t, judge-join now o s)

unit_of : Option UnitState → Option ServiceUnit
unit_of none = none
unit_of (some s) = some s.unit

settle-unit :
    (now : ℕ) (o : Observation) (s : UnitState) (reason : DropReason) (v : View) (k : UnitKey)
    → lookup o.subject v.units ≡ some s
    → unit_of (lookup k (settle now o s reason v).0.units) ≡ unit_of (lookup k v.units)
unfolding settle unit_of dropped
settle-unit now o s drop_none v k e =
    ground (arith, lookup-insert o.subject k (keep now o s) v.units, key_beq_iff o.subject k)
settle-unit now o s _ v k e = refl

-- The inventory of a view is fixed.
apply-unit :
    (now : ℕ) (o : Observation) (v : View) (k : UnitKey)
    → unit_of (lookup k (apply now o v).0.units) ≡ unit_of (lookup k v.units)
unfolding apply dropped
apply-unit now o v k = elim (Option-cases (lookup o.subject v.units)) [
  | inl e ↦ rw (e, apply) refl
  | inr (s, e) ↦ rw (e, apply) (settle-unit now o s (judge o s) v k e)
]

admits_to-unit :
    (x y : Option UnitState) (o : Observation)
    → unit_of x ≡ unit_of y
    → admits_to x o ≡ admits_to y o
unfolding unit_of
admits_to-unit none none o e = refl
admits_to-unit none (some t) o e = cc
admits_to-unit (some s) none o e = cc
admits_to-unit (some s) (some t) o e = ground arith

admits-apply : (now : ℕ) (o p : Observation) (v : View) → admits (apply now o v).0 p ≡ admits v p
admits-apply now o p v =
    admits_to-unit (lookup p.subject (apply now o v).0.units) (lookup p.subject v.units) p
      (apply-unit now o v p.subject)

newest-admits :
    (v w : View) (k : UnitKey) (role : String) (os : List (ℕ × Observation)) (b : Option Version)
    → ((p : Observation) → admits v p ≡ admits w p)
    → newest v k role os b ≡ newest w k role os b
newest-admits v w k role [] b e = refl
newest-admits v w k role ((now, o) ∷ os) b e = rw (e o) (newest-admits v w k role os _ e)

-- After any reports each slot holds the newest version among what it held before and the reports
-- about it that the inventory admits.
pub apply_all-newest :
    (v : View) (k : UnitKey) (role : String) (os : List (ℕ × Observation))
    → version_of (slot k role (apply_all os v)) ≡ newest v k role os (version_of (slot k role v))
unfolding apply_all
apply_all-newest v k role [] = refl
apply_all-newest v k role ((now, o) ∷ os) =
    apply_all-newest (apply now o v).0 k role os
    ∙ newest-admits (apply now o v).0 v k role os _ (λ p. admits-apply now o p v)
    ∙ ap (newest v k role os) (apply-version now o v k role)

join_comm : (b : Option Version) (x y : Version) → join (join b x) y ≡ join (join b y) x
join_comm none x y = ground arith
join_comm (some a) x y = ground arith

join_if_comm :
    (c d : Bool) (b : Option Version) (x y : Version)
    → (if d then join (if c then join b x else b) y else (if c then join b x else b))
      ≡ (if c then join (if d then join b y else b) x else (if d then join b y else b))
join_if_comm true true b x y = join_comm b x y
join_if_comm true false b x y = refl
join_if_comm false true b x y = refl
join_if_comm false false b x y = refl

absorb_comm :
    (v : View) (k : UnitKey) (role : String) (o p : Observation) (b : Option Version)
    → absorb v k role p (absorb v k role o b) ≡ absorb v k role o (absorb v k role p b)
absorb_comm v k role o p b =
    join_if_comm (admits v o && about k role o) (admits v p && about k role p) b _ _

newest-permᴰ :
    (v : View) (k : UnitKey) (role : String) {xs ys : List (ℕ × Observation)} (b : Option Version)
    → Permᴰ xs ys
    → newest v k role xs b ≡ newest v k role ys b
newest-permᴰ v k role b Permᴰ.nil = refl
newest-permᴰ v k role b (Permᴰ.cons {a = x} {l₂ = l} e p) =
    newest-permᴰ v k role (absorb v k role x.1 b) p
    ∙ (λ i. newest v k role l (absorb v k role (e i).1 b))
newest-permᴰ v k role b (Permᴰ.swap {a = x} {b = y} {l = l} e f) =
    ap (newest v k role l) (absorb_comm v k role x.1 y.1 b)
    ∙ (λ i. newest v k role l (absorb v k role (e i).1 (absorb v k role (f i).1 b)))
newest-permᴰ v k role b (Permᴰ.trans p q) = newest-permᴰ v k role b p ∙ newest-permᴰ v k role b q

-- A view that receives the same reports in two different orders, at whatever times they are listed
-- with, ends with the same version in every slot.
pub apply_all-perm :
    (v : View) (k : UnitKey) (role : String) (xs ys : List (ℕ × Observation))
    → Perm xs ys
    → version_of (slot k role (apply_all xs v)) ≡ version_of (slot k role (apply_all ys v))
apply_all-perm v k role xs ys p =
    apply_all-newest v k role xs
    ∙ ∥∥₁_elim p (Version-set _ _) (newest-permᴰ v k role _)
    ∙ sym (apply_all-newest v k role ys)
  where
    Version-set : IsSet (Option Version)
    Version-set = hlevel ℕ_set
