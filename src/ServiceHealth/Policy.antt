-- ===== src/ServiceHealth/Policy.antt =====
-- The retry policy that servicehealth/tracker.go implements, stated on whole histories.
use opdl.Base.{
  ℕ, suc, ◌≤◌, ◌≡◌, refl, Bool, true, false, ◌||◌, List, [], ◌∷◌, leb, arith, if◌then◌else◌,
}
use Prim.Native.Nat.{min}
use opdl.ServiceHealth.Tracker.{
  Status, unknown, healthy, unhealthy, Tracker, new_tracker, fold_in, fold_all,
}

-- The failures at the end of a history that follows `before` of them.
abbrev pub trailing_failures : ℕ → List Bool → ℕ
trailing_failures before [] = before
trailing_failures before (true ∷ os) = trailing_failures 0 os
trailing_failures before (false ∷ os) = trailing_failures (suc before) os

abbrev pub any_success : Bool → List Bool → Bool
any_success before [] = before
any_success before (o ∷ os) = any_success (before || o) os

-- What a history means: enough failures since the last success make the target unhealthy, else it
-- is healthy if an attempt ever succeeded.
abbrev pub status_of : ℕ → Bool → ℕ → Status
status_of retries success trailing =
    if leb retries trailing then unhealthy else if success then healthy else unknown

abbrev pub meaning : ℕ → Bool → ℕ → Tracker
meaning retries success trailing = record {
  retries = retries;
  status = status_of retries success trailing;
  failures = min trailing retries;
}

pub fold_in-meaning :
    (retries : ℕ) (success o : Bool) (trailing : ℕ)
    → 1 ≤ retries
    → fold_in o (meaning retries success trailing)
      ≡ meaning retries (success || o) (if o then 0 else suc trailing)
unfolding fold_in
fold_in-meaning retries success true trailing h = ground arith
fold_in-meaning retries success false trailing h = ground arith

fold_all-meaning :
    (retries : ℕ) (success : Bool) (trailing : ℕ) (os : List Bool)
    → 1 ≤ retries
    → fold_all os (meaning retries success trailing)
      ≡ meaning retries (any_success success os) (trailing_failures trailing os)
unfolding fold_all
fold_all-meaning retries success trailing [] h = refl
fold_all-meaning retries success trailing (true ∷ os) h =
    rw (fold_in-meaning retries success true trailing h)
      (fold_all-meaning retries (success || true) 0 os h)
fold_all-meaning retries success trailing (false ∷ os) h =
    rw (fold_in-meaning retries success false trailing h)
      (fold_all-meaning retries (success || false) (suc trailing) os h)

pub new_tracker-meaning :
    (retries : ℕ) → 1 ≤ retries → new_tracker retries ≡ meaning retries false 0
unfolding new_tracker
new_tracker-meaning retries h = ground arith

-- After any history of attempts the tracker of a target with at least one retry reports what the
-- history means: unhealthy from `retries` failures since the last success on, else healthy if an
-- attempt ever succeeded, else unknown; and the pending failures are those, up to `retries`.
pub fold_all-status_of :
    (retries : ℕ) (os : List Bool)
    → 1 ≤ retries
    → let t = fold_all os (new_tracker retries) in
      (t.status ≡ status_of retries (any_success false os) (trailing_failures 0 os))
      × (t.failures ≡ min (trailing_failures 0 os) retries)
fold_all-status_of retries os h =
    rw (new_tracker-meaning retries h, fold_all-meaning retries false 0 os h) (refl, refl)
