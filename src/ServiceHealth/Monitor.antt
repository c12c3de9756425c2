-- ===== src/ServiceHealth/Monitor.antt =====
-- platform/internal/machine/servicehealth/monitor.go: one worker, `run` and `attempt`.
-- The clock readings, the prober's answer and the state of ctx are what the environment supplies at
-- each round; where its list ends the worker is still waiting.
use opdl.Base.{
  ℕ, ◌-◌, String, Bool, true, false, List, [], ◌∷◌, ◌++◌, Option, none, some, ltb, if◌then◌else◌,
}
use opdl.ServiceHealth.Tracker.{Status, Tracker, fold_in}
use opdl.ServiceHealth.Target.{Target, Worker}

pub record Observation : Type 0 where
  pub service : String
  pub role : String
  pub status : Status
  pub checked_at : ℕ
  pub latency : ℕ
  pub pending_failures : ℕ
  -- `none` is the empty text of an attempt that succeeded.
  pub failure : Option String

-- One round: whether ctx has ended before and after the probe, the clock around it, the error text
-- of the probe, and whether ctx ends while the worker waits out the interval.
pub record Round : Type 0 where
  pub stopped_before : Bool
  pub stopped_after : Bool
  pub stopped_waiting : Bool
  pub started_at : ℕ
  pub finished_at : ℕ
  pub outcome : Option String

abbrev pub is_nil : Option String → Bool
is_nil none = true
is_nil (some e) = false

-- What a worker does, in order.
pub data Effect : Type 0 where
  waits : ℕ → Effect
  probes : Target → Effect
  reports : Observation → Effect

abbrev pub observation : Target → Tracker → Round → Observation
observation t track r = record {
  service = t.service;
  role = t.role;
  status = track.status;
  checked_at = r.started_at;
  latency = r.finished_at - r.started_at;
  pending_failures = track.failures;
  failure = r.outcome;
}

unfoldable pub attempt : Worker → Round → Worker × List Effect
attempt w r =
    if r.stopped_before
    then (w, [])
    else if r.stopped_after
    then (w, probes w.target ∷ [])
    else (let track = fold_in (is_nil r.outcome) w.track in
        (record w { track = track }, probes w.target ∷ reports (observation w.target track r) ∷ []))

-- The `for` loop of `run`.
unfoldable pub rounds : Worker → List Round → List Effect
rounds w [] = []
rounds w (r ∷ rs) =
    let a = attempt w r in
    let rest = rounds a.0 rs in
    a.1 ++ (waits w.target.interval ∷ (if r.stopped_waiting then [] else rest))

-- `run`; `stopped_early` is ctx ending while the startup jitter is waited out.
unfoldable pub run : Worker → (stopped_early : Bool) → List Round → List Effect
run w stopped_early rs =
    let rest = rounds w rs in
    if ltb 0 w.jitter then waits w.jitter ∷ (if stopped_early then [] else rest) else rest
