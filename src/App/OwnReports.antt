-- ===== src/App/OwnReports.antt =====
-- What becomes of a process's observations of its own machine's services (app/servicehealth.go).
use opdl.Base.{
  ℕ, ◌≡◌, ◌+◌, ◌^◌, refl, sym, subst, ◌∙◌, ap, inl, inr, String, true, Bool-cases, List, [], ◌∷◌,
  Option, none, some, arith, ltb, leb, ◌==◌, nat_eq, string_eq, contains, lookup, insert,
  lookup-insert, All, eq_iff, length,
}
use opdl.ServiceHealth.Tracker.{unknown, healthy, unhealthy}
use opdl.ServiceHealth.Monitor.{Observation as Finding}
use opdl.HealthView.Inventory.{
  UnitKey, key_eq, observed_statuses, Observation, DropReason, drop_none,
}
use opdl.HealthView.View.{Report, UnitState, View, fence, judge, settle, apply, keep, report_of}
use opdl.HealthFabric.Publisher.{Publisher, publish, stamp}
use opdl.App.Monitoring.{LocalSink, status_text, report_for, observed, observe_all}

-- The unit that a publisher's reports about a service are about.
abbrev pub own_key : Publisher → (service : String) → UnitKey
own_key p service = record { machine = p.identity.machine; service = service }

-- What a slot holds is not newer than what the publisher stamped last.
abbrev pub IsBehind : Publisher → Option Report → Type 0
IsBehind p none = Unit {0}
IsBehind p (some r) = (r.epoch ≡ p.identity.epoch) × (leb r.sequence p.sequence ≡ true)

-- The view has the service as a unit that this instance observes.
abbrev pub IsWatched : Publisher → View → (service : String) → Type 0
IsWatched p v service =
    (st : UnitState) × (lookup (own_key p service) v.units ≡ some st)
    × (contains st.unit.observer_roles p.identity.observer_role ≡ true)
    × IsBehind p (lookup p.identity.observer_role st.observed)

status_text_observed : (s : _) → contains observed_statuses (status_text s) ≡ true
status_text_observed unknown = refl
status_text_observed healthy = refl
status_text_observed unhealthy = refl

fence_behind :
    (p : Publisher) (o : Observation) (slot : Option Report)
    → IsBehind p slot
    → ltb (p.sequence + 1) (2 ^ 64) ≡ true
    → fence (stamp p o) slot ≡ drop_none
unfolding fence
fence_behind p o none h bounded = refl
fence_behind p o (some r) h bounded = ground arith

judge_watched :
    (p : Publisher) (o : Observation) (st : UnitState)
    → contains st.unit.observer_roles p.identity.observer_role ≡ true
    → contains observed_statuses o.status ≡ true
    → IsBehind p (lookup p.identity.observer_role st.observed)
    → ltb (p.sequence + 1) (2 ^ 64) ≡ true
    → judge (stamp p o) st ≡ drop_none
unfolding judge
judge_watched p o st listed known behind bounded =
    let fenced = fence_behind p o (lookup p.identity.observer_role st.observed) behind bounded in
    rw (judge, listed, known) fenced

-- The sink after an observation that was applied to the unit's state.
abbrev after : ℕ → Finding → UnitState → LocalSink → LocalSink
after now o st s =
    let report = stamp s.publisher (report_for s o) in
    record s {
      publisher = (publish (report_for s o) s.publisher).0;
      view = record s.view { units = insert report.subject (keep now report st) s.view.units };
    }

observed_lem :
    (now : ℕ) (o : Finding) (s : LocalSink)
    → ltb (s.publisher.sequence + 1) (2 ^ 64) ≡ true
    → (w : IsWatched s.publisher s.view o.service)
    → observed now o s ≡ (after now o w.0 s, drop_none)
unfolding observed publish apply settle
observed_lem now o s bounded (st, held, listed, behind) =
    rw
      (
        observed,
        apply,
        held,
        judge_watched s.publisher (report_for s o) st listed (status_text_observed o.status) behind
            bounded,
      )
      refl

IsBehind-publish :
    (p : Publisher) (o : Observation) (slot : Option Report)
    → IsBehind p slot
    → ltb (p.sequence + 1) (2 ^ 64) ≡ true
    → IsBehind (publish o p).0 slot
unfolding publish
IsBehind-publish p o none h bounded = tt
IsBehind-publish p o (some r) (e, h) bounded = (e, ground arith)

IsWatched-after :
    (now : ℕ) (o : Finding) (s : LocalSink) (service : String)
    → ltb (s.publisher.sequence + 1) (2 ^ 64) ≡ true
    → (w : IsWatched s.publisher s.view o.service) → IsWatched s.publisher s.view service
    → let s' = after now o w.0 s in IsWatched s'.publisher s'.view service
unfolding publish
IsWatched-after now o s service bounded (st, held, listed, behind) (other, has, lists, earlier) =
    let report = stamp s.publisher (report_for s o) in
    let found =
      lookup-insert report.subject (own_key s.publisher service) (keep now report st)
        s.view.units in
    let role = s.publisher.identity.observer_role in
    let same : (role == role) ≡ true = (eq_iff role role).1 refl in
    let slot =
      lookup-insert report.observer_role report.observer_role (report_of now report) st.observed in
    let written : lookup role (insert role (report_of now report) st.observed)
        ≡ some (report_of now report) =
      slot ∙ rw same refl in
    elim (Bool-cases (report.subject == own_key s.publisher service)) [
      | inl e ↦ (keep now report st, found ∙ rw e refl, listed, rw written (refl, ground arith))
      | inr e ↦ (
        other,
        found ∙ rw e has,
        lists,
        IsBehind-publish s.publisher (report_for s o) _ earlier bounded,
      )
    ]

abbrev pub AreApplied : List DropReason → Type 0
AreApplied reasons = All (λ r. r ≡ drop_none) reasons

-- Each observation of a run is applied, if it is about a watched service.
pub observe_all_applied :
    (os : List (ℕ × Finding)) (s : LocalSink)
    → ltb (s.publisher.sequence + length os) (2 ^ 64) ≡ true
    → (services : List String) → All (λ x. contains services x.1.service ≡ true) os
    → ((service : String) → contains services service ≡ true → IsWatched s.publisher s.view service)
    → AreApplied (observe_all os s).1
unfolding observe_all
observe_all_applied [] s bounded services about watched = tt
observe_all_applied ((now, o) ∷ os) s bounded services (here, about) watched =
    let w = watched o.service here in
    let small : ltb (s.publisher.sequence + 1) (2 ^ 64) ≡ true = ground arith in
    let done = observed_lem now o s small w in
    let rest =
      observe_all_applied os (after now o w.0 s) (ground arith) services about
        (λ service m. IsWatched-after now o s service small w (watched service m)) in
    subst AreApplied (sym (ap (λ h. h.1 ∷ (observe_all os h.0).1) done)) (refl, rest)
