-- ===== src/HealthView/Counting.antt =====
-- What the summary of a snapshot counts (healthview/snapshot.go).
use opdl.Base.{
  if◌then◌else◌, ℕ, suc, ◌+◌, ◌≡◌, Bool, true, false, List, [], ◌∷◌, ◌++◌, arith, string_eq, length,
  length-append, ◌==◌,
}
use opdl.HealthView.Inventory.{
  Status, status_healthy, status_unhealthy, status_degraded, status_unknown, key_eq,
}
use opdl.HealthView.View.{UnitState}
use opdl.HealthView.Reduction.{verdict_of, render_unit-verdict_of}
use opdl.HealthView.Snapshot.{render_unit, Summary, summarise, UnitSnapshot}

-- How many units a snapshot shows with a status.
abbrev pub with_status : Status → List UnitSnapshot → ℕ
with_status s [] = 0
with_status s (u ∷ us) = (if u.status == s then 1 else 0) + with_status s us

-- Each count of a summary is the number of the units with that status, and together they count all.
abbrev pub SumsUp : Summary → List UnitSnapshot → Type 0
SumsUp m us =
    (m.healthy ≡ with_status status_healthy us)
    × (m.unhealthy ≡ with_status status_unhealthy us)
    × (m.degraded ≡ with_status status_degraded us)
    × (m.unknown ≡ with_status status_unknown us)
    × (m.healthy + m.unhealthy + m.degraded + m.unknown ≡ length us)

with_status-snoc :
    (s : Status) (us : List UnitSnapshot) (u : UnitSnapshot)
    → with_status s (us ++ (u ∷ [])) ≡ with_status s us + (if u.status == s then 1 else 0)
with_status-snoc s [] u = omega arith
with_status-snoc s (x ∷ us) u = let h = with_status-snoc s us u in omega arith

-- What one unit of a status adds.
abbrev pub Adds : Status → Summary → Type 0
Adds s m =
    let n = summarise s m in
    (n.healthy ≡ m.healthy + (if s == status_healthy then 1 else 0))
    × (n.unhealthy ≡ m.unhealthy + (if s == status_unhealthy then 1 else 0))
    × (n.degraded ≡ m.degraded + (if s == status_degraded then 1 else 0))
    × (n.unknown ≡ m.unknown + (if s == status_unknown then 1 else 0))
    × (n.healthy + n.unhealthy + n.degraded + n.unknown
        ≡ suc (m.healthy + m.unhealthy + m.degraded + m.unknown))

verdict_of-Adds : (a b : Bool) (m : Summary) → Adds (verdict_of a b) m
unfolding summarise
verdict_of-Adds true true m = (omega arith, omega arith, omega arith, omega arith, omega arith)
verdict_of-Adds true false m = (omega arith, omega arith, omega arith, omega arith, omega arith)
verdict_of-Adds false true m = (omega arith, omega arith, omega arith, omega arith, omega arith)
verdict_of-Adds false false m = (omega arith, omega arith, omega arith, omega arith, omega arith)

pub SumsUp-snoc :
    (us : List UnitSnapshot) (u : UnitSnapshot) (m : Summary)
    → SumsUp m us
    → Adds u.status m
    → SumsUp (summarise u.status m) (us ++ (u ∷ []))
SumsUp-snoc us u m (h0, h1, h2, h3, all) (a0, a1, a2, a3, one) =
    let c0 = with_status-snoc status_healthy us u in
    let c1 = with_status-snoc status_unhealthy us u in
    let c2 = with_status-snoc status_degraded us u in
    let c3 = with_status-snoc status_unknown us u in
    let n = length-append us (u ∷ []) in
    (omega arith, omega arith, omega arith, omega arith, omega arith)

pub render_unit-Adds : (now : ℕ) (s : UnitState) (m : Summary) → Adds (render_unit now s).status m
render_unit-Adds now s m = rw (render_unit-verdict_of now s) (verdict_of-Adds _ _ m)
