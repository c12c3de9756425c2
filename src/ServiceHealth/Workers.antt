-- ===== src/ServiceHealth/Workers.antt =====
-- What servicehealth/monitor.go starts and what its workers report.
use Prim.Native.Nat.{min}
use native.Mathlib.Nat.{mod-lt}
use opdl.Base.{
  ℕ, suc, ◌≤◌, ◌<◌, ◌≡◌, refl, ◌⊎◌, inl, inr, String, Bool, false, ◌||◌, List, [], ◌∷◌, map, ap,
  ◌∙◌, Option, Option-cases, none, some, arith, contains, string_eq, All, is_blank, if◌then◌else◌,
}
use opdl.ServiceHealth.Tracker.{Status, fold_in}
use opdl.ServiceHealth.Policy.{meaning, status_of, fold_in-meaning, new_tracker-meaning}
use opdl.ServiceHealth.Target.{
  Url, Target, Deps, Worker, jitter_for, validate_target, validate_deps, check_targets, new_worker,
  start, started, StartError,
}
use opdl.ServiceHealth.Monitor.{
  Observation, Round, is_nil, Effect, waits, probes, reports, attempt, rounds, run, observation,
}

-- A worker with a positive interval waits less than one interval before its first attempt.
jitter_for-lt :
    (observer service : String) (interval : ℕ)
    → 0 < interval
    → jitter_for observer service interval < interval
unfolding jitter_for
jitter_for-lt observer service interval h = grind (arith, mod-lt)

-- The terms on which a target is probed without spinning or overlapping itself.
abbrev pub Runnable : Target → Type 0
Runnable t =
    (is_blank t.service ≡ false) × (t.timeout < t.interval) × (0 < t.timeout) × (1 ≤ t.retries)

validate_target-Runnable :
    (parse : String → Option Url) (t : Target) → validate_target parse t ≡ none → Runnable t
unfolding validate_target
validate_target-Runnable parse t h = ground arith

abbrev pub Distinct : List String → List Target → Type 0
Distinct named [] = Unit {0}
Distinct named (t ∷ ts) = (contains named t.service ≡ false) × Distinct (t.service ∷ named) ts

check_targets_sound :
    (parse : String → Option Url) (named : List String) (ts : List Target)
    → check_targets parse named ts ≡ none
    → All Runnable ts × Distinct named ts
unfolding check_targets
check_targets_sound parse named [] h = (tt, tt)
check_targets_sound parse named (t ∷ ts) h =
    ground
      (arith, validate_target-Runnable parse t, check_targets_sound parse (t.service ∷ named) ts)

-- A monitor starts only if every target is runnable and no service is targeted twice, and then it
-- starts one worker for each target, in order, each of them having reported nothing yet.
start_sound :
    (parse : String → Option Url) (d : Deps) (ts : List Target) (ws : List Worker)
    → start parse d ts ≡ started ws
    → All Runnable ts × Distinct [] ts × (ws ≡ map (new_worker d.observer) ts)
unfolding start
start_sound parse d ts ws h = elim (Option-cases (validate_deps d)) [
  | inl e ↦ checked e (Option-cases (check_targets parse [] ts))
  | inr (x, e) ↦ absurd (ground arith)
]
  where
    checked :
        validate_deps d ≡ none
        → (check_targets parse [] ts ≡ none)
          ⊎ ((x : StartError) × (check_targets parse [] ts ≡ some x))
        → All Runnable ts × Distinct [] ts × (ws ≡ map (new_worker d.observer) ts)
    checked e (inl f) = let (a, b) = check_targets_sound parse [] ts f in (a, b, ground arith)
    checked e (inr (x, f)) = absurd (ground arith)

abbrev pub reported : List Effect → List Observation
reported [] = []
reported (waits n ∷ es) = reported es
reported (probes t ∷ es) = reported es
reported (reports o ∷ es) = o ∷ reported es

-- No ctx ends around a round.
abbrev pub Undisturbed : Round → Type 0
Undisturbed r = (r.stopped_before ≡ false) × (r.stopped_after ≡ false) × (r.stopped_waiting ≡ false)

-- The status and the pending failures after each outcome, by the retry policy.
abbrev pub expected : ℕ → Bool → ℕ → List Round → List (Status × ℕ)
expected retries success trailing [] = []
expected retries success trailing (r ∷ rs) =
    let success' = success || is_nil r.outcome in
    let trailing' : ℕ = (if is_nil r.outcome then 0 else suc trailing) in
    (status_of retries success' trailing', min trailing' retries)
    ∷ expected retries success' trailing' rs

abbrev pub finding : Observation → Status × ℕ
finding o = (o.status, o.pending_failures)

attempt-Undisturbed :
    (w : Worker) (r : Round)
    → Undisturbed r
    → let t = fold_in (is_nil r.outcome) w.track in
      attempt w r
      ≡ (record w { track = t }, probes w.target ∷ reports (observation w.target t r) ∷ [])
unfolding attempt
attempt-Undisturbed w r u = ground arith

rounds-expected :
    (w : Worker) (success : Bool) (trailing : ℕ) (rs : List Round)
    → 1 ≤ w.target.retries
    → w.track ≡ meaning w.target.retries success trailing
    → All Undisturbed rs
    → map finding (reported (rounds w rs)) ≡ expected w.target.retries success trailing rs
unfolding rounds
rounds-expected w success trailing [] h e u = refl
rounds-expected w success trailing (r ∷ rs) h e (u, us) =
    let t = fold_in (is_nil r.outcome) w.track in
    let f = ap (fold_in (is_nil r.outcome)) e ∙ fold_in-meaning _ success _ trailing h in
    ground
      (arith, attempt-Undisturbed w r u, f, rounds-expected (record w { track = t }) _ _ rs h f us)

-- A worker whose target has at least one retry and whose process is not stopped reports every
-- attempt, in order, each with the status and the pending failures that the retry policy gives to
-- the attempts so far.
pub run-expected :
    (observer : String) (t : Target) (rs : List Round)
    → 1 ≤ t.retries
    → All Undisturbed rs
    → map finding (reported (run (new_worker observer t) false rs)) ≡ expected t.retries false 0 rs
unfolding run new_worker
run-expected observer t rs h u =
    let e =
      rounds-expected (new_worker observer t) false 0 rs h (new_tracker-meaning t.retries h) u in
    ground (arith, e)
