-- ===== src/ServiceHealth/Tracker.antt =====
-- platform/internal/machine/servicehealth/tracker.go: the fold of attempt outcomes into a status.
use opdl.Base.{ℕ, ◌+◌, Bool, true, false, List, [], ◌∷◌, ltb, leb, if◌then◌else◌}

-- `Status` of servicehealth.go.
pub data Status : Type 0 where
  unknown healthy unhealthy : Status

pub record Tracker : Type 0 where
  pub retries : ℕ
  pub status : Status
  pub failures : ℕ

unfoldable pub new_tracker : ℕ → Tracker
new_tracker retries = record { retries = retries; status = unknown; failures = 0 }

unfoldable pub succeeded : Tracker → Tracker
succeeded t = record t { status = healthy; failures = 0 }

unfoldable pub failed : Tracker → Tracker
failed t =
    let counted =
      (if ltb t.failures t.retries then record t { failures = t.failures + 1 } else t) in
    if leb counted.retries counted.failures then record counted { status = unhealthy } else counted

-- `record`; `true` is a nil error. The status and the pending failures are the new tracker's.
unfoldable pub fold_in : Bool → Tracker → Tracker
unfolding succeeded failed
fold_in true t = succeeded t
fold_in false t = failed t

-- A history of attempts, oldest first.
unfoldable pub fold_all : List Bool → Tracker → Tracker
fold_all [] t = t
fold_all (o ∷ os) t = fold_all os (fold_in o t)
