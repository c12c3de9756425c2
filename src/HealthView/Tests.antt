-- ===== src/HealthView/Tests.antt =====
-- The site's health picture at a concrete inventory and concrete reports.
use mathlib.Core.List.{Perm, Permᴰ}
use opdl.Base.{ℕ, ◌≡◌, refl, String, true, List, [], ◌∷◌, is_blank, lookup, insert, map}
use opdl.HealthView.Inventory.{
  Deployment, validate_deployment, ServiceUnit, validate_unit, validate_roles, Observation,
  status_healthy, status_unhealthy,
}
use opdl.HealthView.View.{UnitState, View, report_of, apply_all, new_view, built, no_drops}
use opdl.HealthView.Fencing.{slot}
use opdl.HealthView.Convergence.{version_of, newest, apply_all-newest, apply_all-perm}
use opdl.HealthView.Snapshot.{sorted, render_unit, snapshot}
use opdl.HealthView.Reduction.{verdict_of, some_finds, render_unit-verdict_of}
use opdl.HealthView.Completeness.{snapshot_complete}
use opdl.HealthView.Counting.{SumsUp}

abbrev site : Deployment
site = record { project = "p"; environment = "e"; site = "s" }

abbrev billing : ServiceUnit
billing = record {
  key = record { machine = "m"; service = "billing" };
  machine_profile = "linux";
  service_role = "api";
  observer_roles = "standby" ∷ "primary" ∷ [];
  fresh_for = 50;
}

abbrev units : List ServiceUnit
units = billing ∷ record billing { key = record { machine = "m"; service = "orders" } } ∷ []

abbrev empty_view : View
empty_view = record {
  deployment = site;
  order = billing.key ∷ record { machine = "m"; service = "orders" } ∷ [];
  units =
      (billing.key, record { unit = billing; observed = [] })
      ∷ (
        record { machine = "m"; service = "orders" },
        record {
          unit = record billing { key = record { machine = "m"; service = "orders" } };
          observed = [];
        },
      )
      ∷ [];
  drops = no_drops;
}

builds : new_view site units true ≡ built empty_view
unfolding new_view validate_deployment is_blank validate_unit validate_roles lookup insert
builds = refl

abbrev report : String → ℕ → ℕ → String → Observation
report role epoch sequence status = record {
  subject = billing.key;
  observer_role = role;
  epoch = epoch;
  sequence = sequence;
  status = status;
  checked_at_utc = 7;
  latency = 2000000;
  consecutive_failures = 0;
  failure = "";
}

abbrev r1 : ℕ × Observation
r1 = (100, report "primary" 1 1 "healthy")

abbrev r2 : ℕ × Observation
r2 = (101, report "primary" 2 1 "unhealthy")

abbrev r3 : ℕ × Observation
r3 = (120, report "standby" 1 9 "healthy")

abbrev reports : List (ℕ × Observation)
reports = r1 ∷ r2 ∷ r3 ∷ r1 ∷ []

apply_all-newest_example :
    version_of (slot billing.key "primary" (apply_all reports empty_view))
    ≡ newest empty_view billing.key "primary" reports
        (version_of (slot billing.key "primary" empty_view))
apply_all-newest_example = apply_all-newest empty_view billing.key "primary" reports

swapped : Perm (r1 ∷ r2 ∷ []) (r2 ∷ r1 ∷ [])
swapped = ∣ Permᴰ.swap refl refl ∣₁

apply_all-perm_example :
    version_of (slot billing.key "primary" (apply_all (r1 ∷ r2 ∷ []) empty_view))
    ≡ version_of (slot billing.key "primary" (apply_all (r2 ∷ r1 ∷ []) empty_view))
apply_all-perm_example =
    apply_all-perm empty_view billing.key "primary" (r1 ∷ r2 ∷ []) (r2 ∷ r1 ∷ []) swapped

abbrev reported_unit : UnitState
reported_unit = record {
  unit = billing;
  observed =
      ("primary", report_of 100 (report "primary" 1 1 "healthy"))
      ∷ ("standby", report_of 120 (report "standby" 1 9 "unhealthy"))
      ∷ [];
}

render_unit-verdict_of_example :
    (render_unit 160 reported_unit).status
    ≡ verdict_of
        (some_finds 160 reported_unit status_healthy (sorted billing.observer_roles))
        (some_finds 160 reported_unit status_unhealthy (sorted billing.observer_roles))
render_unit-verdict_of_example = render_unit-verdict_of 160 reported_unit

snapshot_complete_example :
    let s = snapshot 200 (apply_all reports empty_view) in
    (map (λ u. u.key) s.units ≡ map (λ u. u.key) units) × SumsUp s.summary s.units
snapshot_complete_example = snapshot_complete site units true empty_view reports 200 builds
