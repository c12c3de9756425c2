-- ===== src/HealthView/Reduction.antt =====
-- What a snapshot says of each unit (healthview/snapshot.go).
use opdl.Base.{
  ℕ, ◌≡◌, refl, ◌∙◌, String, Bool, true, false, not, ◌&&◌, ◌||◌, List, [], ◌∷◌, ◌++◌, Option, none,
  some, arith, ◌==◌, nat_eq, string_eq, contains, eq_iff, lookup,
}
use opdl.HealthView.Inventory.{
  Status, status_unknown, status_healthy, status_unhealthy, status_degraded, is_verdict,
}
use opdl.HealthView.View.{Report, UnitState}
use opdl.HealthView.Snapshot.{
  sorted, agree, reduce, Tally, no_tally, tally_role, tally, render_unit, is_stale_at,
}

-- What the findings of a unit's observers amount to.
abbrev pub verdict_of : (found_healthy found_unhealthy : Bool) → Status
verdict_of true true = status_degraded
verdict_of true false = status_healthy
verdict_of false true = status_unhealthy
verdict_of false false = status_unknown

-- The finding of one report, if it is current and is one.
abbrev pub finds : ℕ → ℕ → Status → Option Report → Bool
finds now fresh_for s none = false
finds now fresh_for s (some r) = not (is_stale_at now fresh_for r) && (r.status == s)

-- Some expected observer's current report finds the unit in a status.
abbrev pub some_finds : ℕ → UnitState → Status → List String → Bool
some_finds now st s [] = false
some_finds now st s (role ∷ roles) =
    finds now st.unit.fresh_for s (lookup role st.observed) || some_finds now st s roles

abbrev AllVerdicts : List Status → Type 0
AllVerdicts [] = Unit {0}
AllVerdicts (v ∷ vs) = (is_verdict v ≡ true) × AllVerdicts vs

agree-verdict_of :
    (first : Status) (vs : List Status)
    → is_verdict first ≡ true
    → AllVerdicts vs
    → agree first vs
      ≡ verdict_of (contains (first ∷ vs) status_healthy) (contains (first ∷ vs) status_unhealthy)
unfolding agree
agree-verdict_of first [] h u = ground (
  arith,
  eq_iff first status_healthy,
  eq_iff first status_unhealthy,
  eq_iff status_healthy status_unhealthy,
)
agree-verdict_of first (v ∷ vs) h (x, u) = ground (
  arith,
  agree-verdict_of first vs h u,
  eq_iff v first,
  eq_iff first status_healthy,
  eq_iff first status_unhealthy,
  eq_iff v status_healthy,
  eq_iff v status_unhealthy,
  eq_iff status_healthy status_unhealthy,
)

reduce-verdict_of :
    (vs : List Status)
    → AllVerdicts vs
    → reduce vs ≡ verdict_of (contains vs status_healthy) (contains vs status_unhealthy)
unfolding reduce
reduce-verdict_of [] u = refl
reduce-verdict_of (v ∷ vs) (x, u) = agree-verdict_of v vs x u

contains-snoc :
    (vs : List Status) (v s : Status) → contains (vs ++ (v ∷ [])) s ≡ (contains vs s || (v == s))
contains-snoc [] v s = ground arith
contains-snoc (x ∷ vs) v s = ground (arith, contains-snoc vs v s)

AllVerdicts-snoc :
    (vs : List Status) (v : Status)
    → AllVerdicts vs
    → is_verdict v ≡ true
    → AllVerdicts (vs ++ (v ∷ []))
AllVerdicts-snoc [] v u h = (h, tt)
AllVerdicts-snoc (x ∷ vs) v (y, u) h = (y, AllVerdicts-snoc vs v u h)

tally_role-AllVerdicts :
    (now fresh_for : ℕ) (role : String) (o : Option Report) (t : Tally)
    → AllVerdicts t.verdicts
    → AllVerdicts (tally_role now fresh_for role o t).verdicts
unfolding tally_role
tally_role-AllVerdicts now fresh_for role none t u = u
tally_role-AllVerdicts now fresh_for role (some r) t u =
    ground (arith, AllVerdicts-snoc t.verdicts r.status u)

-- A finding is one of the two verdicts.
tally_role-contains :
    (now fresh_for : ℕ) (role : String) (o : Option Report) (t : Tally) (s : Status)
    → is_verdict s ≡ true
    → contains (tally_role now fresh_for role o t).verdicts s
      ≡ (contains t.verdicts s || finds now fresh_for s o)
unfolding tally_role
tally_role-contains now fresh_for role none t s h = ground arith
tally_role-contains now fresh_for role (some r) t s h =
    ground (arith, contains-snoc t.verdicts r.status s, eq_iff r.status s)

tally-verdicts :
    (now : ℕ) (st : UnitState) (roles : List String) (t : Tally) (s : Status)
    → is_verdict s ≡ true
    → AllVerdicts t.verdicts
    → (AllVerdicts (tally now st roles t).verdicts)
      × (contains (tally now st roles t).verdicts s
          ≡ (contains t.verdicts s || some_finds now st s roles))
unfolding tally
tally-verdicts now st [] t s h u = (u, ground arith)
tally-verdicts now st (role ∷ roles) t s h u =
    let t' = tally_role now st.unit.fresh_for role (lookup role st.observed) t in
    let u' = tally_role-AllVerdicts now st.unit.fresh_for role (lookup role st.observed) t u in
    let (a, b) = tally-verdicts now st roles t' s h u' in
    (
      a,
      ground (
        arith,
        b,
        tally_role-contains now st.unit.fresh_for role (lookup role st.observed) t s h,
      ),
    )

-- A unit's status is what the current findings of its expected observers amount to: degraded if
-- some find it healthy and some unhealthy, healthy or unhealthy if only such findings are current,
-- unknown if none is.
pub render_unit-verdict_of :
    (now : ℕ) (st : UnitState)
    → let expected = sorted st.unit.observer_roles in
      (render_unit now st).status
      ≡ verdict_of
          (some_finds now st status_healthy expected)
          (some_finds now st status_unhealthy expected)
unfolding render_unit
render_unit-verdict_of now st =
    let roles = sorted st.unit.observer_roles in
    let h = tally-verdicts now st roles no_tally status_healthy refl tt in
    let k = tally-verdicts now st roles no_tally status_unhealthy refl tt in
    reduce-verdict_of _ h.0 ∙ (λ i. verdict_of (h.1 i) (k.1 i))
