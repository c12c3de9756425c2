-- ===== src/HealthView/Snapshot.antt =====
-- platform/internal/site/healthview/snapshot.go: the reduction of a site's reports into one answer
-- for each unit.
use Prim.Native.Nat.{Ordering}
use Prim.Native.String.{compare}
use opdl.Base.{
  ℕ, ◌+◌, ◌-◌, String, Bool, true, false, List, [], ◌∷◌, ◌++◌, Option, none, some, ltb, ◌==◌,
  string_eq, lookup, if◌then◌else◌,
}
use opdl.HealthView.Inventory.{
  Status, status_unknown, status_healthy, status_unhealthy, status_degraded, is_verdict, Deployment,
  UnitKey, key_eq,
}
use opdl.HealthView.View.{Report, UnitState, Drops, View}

-- `slices.Sorted` on strings, byte-wise, which is the order of the code points.
abbrev at_most : String → String → Bool
at_most s t = elim (compare s t) [ Ordering.gt ↦ false | _ ↦ true ]

abbrev pub insert_sorted : String → List String → List String
insert_sorted r [] = r ∷ []
insert_sorted r (s ∷ ss) = if at_most r s then r ∷ s ∷ ss else s ∷ insert_sorted r ss

unfoldable pub sorted : List String → List String
sorted [] = []
sorted (r ∷ rs) = insert_sorted r (sorted rs)

unfoldable pub agree : Status → List Status → Status
agree first [] = first
agree first (v ∷ vs) = let rest = agree first vs in if v == first then rest else status_degraded

-- `reduce`.
unfoldable pub reduce : List Status → Status
unfolding agree
reduce [] = status_unknown
reduce (first ∷ rest) = agree first rest

pub record ObserverSnapshot : Type 0 where
  pub observer_role : String
  pub status : Status
  pub is_stale : Bool
  pub checked_at_utc : ℕ
  pub received_at_utc : ℕ
  pub age : ℕ
  pub latency : ℕ
  pub consecutive_failures : ℕ
  pub failure : String

pub record UnitSnapshot : Type 0 where
  pub key : UnitKey
  pub machine_profile : String
  pub service_role : String
  pub status : Status
  pub expected_observers : List String
  pub missing_observers : List String
  pub stale_observers : List String
  pub observations : List ObserverSnapshot

-- What the loop of `renderUnit` collects.
pub record Tally : Type 0 where
  pub missing : List String
  pub stales : List String
  pub verdicts : List Status
  pub shown : List ObserverSnapshot

abbrev pub no_tally : Tally
no_tally = record { missing = []; stales = []; verdicts = []; shown = [] }

-- The receiver's clock is monotonic, so a report's age is never negative.
abbrev pub is_stale_at : (now fresh_for : ℕ) → Report → Bool
is_stale_at now fresh_for r = ltb fresh_for (now - r.received_at)

abbrev pub show : ℕ → ℕ → String → Report → ObserverSnapshot
show now fresh_for role r = record {
  observer_role = role;
  status = r.status;
  is_stale = is_stale_at now fresh_for r;
  checked_at_utc = r.checked_at_utc;
  received_at_utc = r.received_at;
  age = now - r.received_at;
  latency = r.latency;
  consecutive_failures = r.consecutive_failures;
  failure = r.failure;
}

-- One round of the loop.
unfoldable pub tally_role : ℕ → ℕ → String → Option Report → Tally → Tally
tally_role now fresh_for role none t = record t { missing = t.missing ++ (role ∷ []) }
tally_role now fresh_for role (some r) t = record t {
  stales = if is_stale_at now fresh_for r then t.stales ++ (role ∷ []) else t.stales;
  verdicts =
      if is_stale_at now fresh_for r
      then t.verdicts
      else if is_verdict r.status
      then t.verdicts ++ (r.status ∷ [])
      else t.verdicts;
  shown = t.shown ++ (show now fresh_for role r ∷ []);
}

unfoldable pub tally : ℕ → UnitState → List String → Tally → Tally
tally now s [] t = t
tally now s (role ∷ roles) t =
    tally now s roles (tally_role now s.unit.fresh_for role (lookup role s.observed) t)

unfoldable pub render_unit : ℕ → UnitState → UnitSnapshot
unfolding tally tally_role reduce
render_unit now s =
    let expected = sorted s.unit.observer_roles in
    let t = tally now s expected no_tally in
    record {
      key = s.unit.key;
      machine_profile = s.unit.machine_profile;
      service_role = s.unit.service_role;
      status = reduce t.verdicts;
      expected_observers = expected;
      missing_observers = t.missing;
      stale_observers = t.stales;
      observations = t.shown;
    }

pub record Summary : Type 0 where
  pub healthy : ℕ
  pub unhealthy : ℕ
  pub degraded : ℕ
  pub unknown : ℕ

abbrev pub no_summary : Summary
no_summary = record { healthy = 0; unhealthy = 0; degraded = 0; unknown = 0 }

unfoldable pub summarise : Status → Summary → Summary
summarise s m =
    if s == status_healthy
    then record m { healthy = m.healthy + 1 }
    else if s == status_unhealthy
    then record m { unhealthy = m.unhealthy + 1 }
    else if s == status_degraded
    then record m { degraded = m.degraded + 1 }
    else if s == status_unknown
    then record m { unknown = m.unknown + 1 }
    else m

pub record Snapshot : Type 0 where
  pub deployment : Deployment
  pub generated_at_utc : ℕ
  pub units : List UnitSnapshot
  pub summary : Summary
  pub drops : Drops

-- The loop of `Snapshot` over the inventory's order. Every key of the order has its unit: `New`
-- adds them together, and nothing removes one.
unfoldable pub render_all :
    ℕ
    → List (UnitKey × UnitState)
    → List UnitKey
    → List UnitSnapshot × Summary
    → List UnitSnapshot × Summary
render_all now units [] acc = acc
render_all now units (k ∷ ks) acc = render_all now units ks (elim (lookup k units) [
  | none ↦ acc
  | some s ↦ let u = render_unit now s in (acc.0 ++ (u ∷ []), summarise u.status acc.1)
])

unfoldable pub snapshot : ℕ → View → Snapshot
unfolding render_all
snapshot now v =
    let r = render_all now v.units v.order ([], no_summary) in
    record {
      deployment = v.deployment;
      generated_at_utc = now;
      units = r.0;
      summary = r.1;
      drops = v.drops;
    }
