-- ===== src/App/ResponseCounts.antt =====
-- The summary of the answer to GET /health/services beside its rows (app/servicehealth.go).
use opdl.Base.{
  ℕ, ◌≡◌, refl, ◌∙◌, ◌+◌, String, Bool, true, false, List, [], ◌∷◌, ◌++◌, map, if◌then◌else◌, ◌==◌,
  string_eq, lookup, Option-cases, inl, inr, arith, ap, sym,
}
use opdl.HealthView.Inventory.{Status, UnitKey, key_eq}
use opdl.HealthView.View.{View, UnitState}
use opdl.HealthView.Snapshot.{
  UnitSnapshot, Summary, no_summary, summarise, render_unit, render_all, snapshot,
}
use opdl.HealthView.Reduction.{verdict_of, render_unit-verdict_of}
use opdl.HealthFabric.Publisher.{Publisher}
use opdl.HealthFabric.Subscriber.{Subscriber}
use opdl.App.Monitoring.{service_status}
use opdl.App.Response.{ServiceHealthUnit, service_unit, response}

-- How many rows show a status.
abbrev pub shown_as : String → List ServiceHealthUnit → ℕ
shown_as text [] = 0
shown_as text (u ∷ us) = (if u.status == text then 1 else 0) + shown_as text us

-- A summary counts the rows by what they show.
abbrev pub CountsOf : Summary → List ServiceHealthUnit → Type 0
CountsOf m us =
    (m.healthy ≡ shown_as "Healthy" us)
    × ((m.unhealthy ≡ shown_as "Unhealthy" us)
        × ((m.degraded ≡ shown_as "Degraded" us) × (m.unknown ≡ shown_as "Unknown" us)))

shown_as-snoc :
    (format : ℕ → String) (text : String) (us : List UnitSnapshot) (u : UnitSnapshot)
    → shown_as text (map (service_unit format) (us ++ (u ∷ [])))
      ≡ shown_as text (map (service_unit format) us)
        + (if service_status u.status == text then 1 else 0)
unfolding service_unit
shown_as-snoc format text [] u = omega arith
shown_as-snoc format text (v ∷ us) u = let h = shown_as-snoc format text us u in omega arith

abbrev added : Status → String → ℕ
added s text = if service_status s == text then 1 else 0

-- What one row adds.
abbrev Adds : Status → Summary → Type 0
Adds s m =
    ((summarise s m).healthy ≡ m.healthy + added s "Healthy")
    × (((summarise s m).unhealthy ≡ m.unhealthy + added s "Unhealthy")
        × (((summarise s m).degraded ≡ m.degraded + added s "Degraded")
            × ((summarise s m).unknown ≡ m.unknown + added s "Unknown")))

verdict_of-Adds : (a b : Bool) (m : Summary) → Adds (verdict_of a b) m
unfolding summarise service_status
verdict_of-Adds true true m = (omega arith, (omega arith, (omega arith, omega arith)))
verdict_of-Adds true false m = (omega arith, (omega arith, (omega arith, omega arith)))
verdict_of-Adds false true m = (omega arith, (omega arith, (omega arith, omega arith)))
verdict_of-Adds false false m = (omega arith, (omega arith, (omega arith, omega arith)))

render_unit-Adds : (now : ℕ) (s : UnitState) (m : Summary) → Adds (render_unit now s).status m
render_unit-Adds now s m = rw (render_unit-verdict_of now s) (verdict_of-Adds _ _ m)

CountsOf-snoc :
    (format : ℕ → String) (us : List UnitSnapshot) (u : UnitSnapshot) (m : Summary)
    → CountsOf m (map (service_unit format) us)
    → Adds u.status m
    → CountsOf (summarise u.status m) (map (service_unit format) (us ++ (u ∷ [])))
CountsOf-snoc format us u m (h0, (h1, (h2, h3))) (a0, (a1, (a2, a3))) = (
  a0 ∙ ap (λ n. n + added u.status "Healthy") h0 ∙ sym (shown_as-snoc format "Healthy" us u),
  (
    a1 ∙ ap (λ n. n + added u.status "Unhealthy") h1 ∙ sym (shown_as-snoc format "Unhealthy" us u),
    (
      a2 ∙ ap (λ n. n + added u.status "Degraded") h2 ∙ sym (shown_as-snoc format "Degraded" us u),
      a3 ∙ ap (λ n. n + added u.status "Unknown") h3 ∙ sym (shown_as-snoc format "Unknown" us u),
    ),
  ),
)

render_all-CountsOf :
    (format : ℕ → String) (now : ℕ) (units : List (UnitKey × UnitState)) (ks : List UnitKey)
    (acc : List UnitSnapshot × Summary)
    → CountsOf acc.1 (map (service_unit format) acc.0)
    → let r = render_all now units ks acc in CountsOf r.1 (map (service_unit format) r.0)
unfolding render_all
render_all-CountsOf format now units [] acc h = h
render_all-CountsOf format now units (k ∷ ks) acc h = elim (Option-cases (lookup k units)) [
  | inl e ↦ rw (e, render_all) (render_all-CountsOf format now units ks acc h)
  | inr (s, e) ↦
      rw (e, render_all)
        (render_all-CountsOf format now units ks _
          (CountsOf-snoc format acc.0 (render_unit now s) acc.1 h (render_unit-Adds now s acc.1)))
]

-- Each count of the answer's summary is the number of the answer's services that show that status.
pub response-CountsOf :
    (format : ℕ → String) (machine role : String) (now : ℕ) (v : View) (p : Publisher)
    (s : Subscriber)
    → let r = response format machine role now v p s in CountsOf r.summary r.services
unfolding response snapshot
response-CountsOf format machine role now v p s =
    render_all-CountsOf format now v.units v.order ([], no_summary) (refl, (refl, (refl, refl)))
