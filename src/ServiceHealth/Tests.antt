-- ===== src/ServiceHealth/Tests.antt =====
-- The service monitor at concrete targets and histories.
use opdl.Base.{
  ℕ, ◌+◌, ◌≡◌, refl, String, Bool, true, false, List, [], ◌∷◌, map, Option, none, some, arith,
  is_blank,
}
use Prim.Native.Nat.{min}
use opdl.ServiceHealth.Tracker.{new_tracker, fold_all}
use opdl.ServiceHealth.Policy.{status_of, any_success, trailing_failures, fold_all-status_of}
use opdl.ServiceHealth.Target.{
  Url, Target, Deps, new_worker, start, started, validate_deps, validate_target, check_targets,
}
use opdl.ServiceHealth.Monitor.{Round, run}
use opdl.ServiceHealth.Workers.{reported, expected, finding, run-expected}

abbrev history : List Bool
history = true ∷ false ∷ false ∷ true ∷ false ∷ false ∷ false ∷ false ∷ []

fold_all-status_of_example :
    let t = fold_all history (new_tracker 3) in
    (t.status ≡ status_of 3 (any_success false history) (trailing_failures 0 history))
    × (t.failures ≡ min (trailing_failures 0 history) 3)
fold_all-status_of_example = fold_all-status_of 3 history (omega arith)

abbrev parsed : String → Option Url
parsed text = some (record { scheme = "http"; host = text })

abbrev deps : Deps
deps = record { has_prober = true; has_sink = true; has_clock = true; observer = "primary" }

abbrev billing : Target
billing = record {
  service = "billing";
  role = "api";
  url = "localhost:8080";
  interval = 5000;
  timeout = 1000;
  retries = 3;
}

abbrev orders : Target
orders = record billing { service = "orders" }

abbrev targets : List Target
targets = billing ∷ orders ∷ []

starts : start parsed deps targets ≡ started (map (new_worker "primary") targets)
unfolding start validate_deps is_blank check_targets validate_target
starts = refl

abbrev round : ℕ → Option String → Round
round at outcome = record {
  stopped_before = false;
  stopped_after = false;
  stopped_waiting = false;
  started_at = at;
  finished_at = at + 3;
  outcome = outcome;
}

abbrev rounds : List Round
rounds =
    round 10 none
    ∷ round 20 (some "refused")
    ∷ round 30 (some "refused")
    ∷ round 40 (some "refused")
    ∷ []

run-expected_example :
    map finding (reported (run (new_worker "primary" billing) false rounds))
    ≡ expected 3 false 0 rounds
run-expected_example =
    run-expected "primary" billing rounds (omega arith)
      ((refl, refl, refl), ((refl, refl, refl), ((refl, refl, refl), ((refl, refl, refl), tt))))
