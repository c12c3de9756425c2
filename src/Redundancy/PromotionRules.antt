-- ===== src/Redundancy/PromotionRules.antt =====
-- When a Passive instance may take ownership: `evaluatePromotion` of redundancy/ownership.go.
use opdl.Base.{
  ℕ, ◌+◌, ◌≤◌, ◌<◌, ◌≡◌, ◌≢◌, ◌⊎◌, Bool, true, false, List, Option, none, some, arith, eq_iff,
  string_eq,
}
use opdl.Redundancy.Disk.{File, missing, garbled, holds, run}
use opdl.Redundancy.Lease.{Lease, not_acquired, new_grant, set_owned, release}
use opdl.Redundancy.Statements.{handover}
use opdl.Redundancy.Promotion.{Promotion, promotion, promotion_failed, evaluate_promotion}
use opdl.Redundancy.Acquisition.{quiet, left_behind}

abbrev pub promotes : Promotion → Bool
promotes (promotion a d) = a.held
promotes promotion_failed = false

abbrev pub WindowOver : Option ℕ → ℕ → ℕ → Type 0
WindowOver none duration now = Unit {0}
WindowOver (some t) duration now = t + duration ≤ now

-- The grants that an instance may take: none yet; the other's released one; its own lapsed one;
-- and, only from a peer that cannot serve, the other's lapsed one, and its own released one once the
-- handover window is over.
abbrev pub MayTake : Lease → ℕ → Option Bool → File → Type 0
MayTake l now peer missing = Unit {0}
MayTake l now peer garbled = ⊥
MayTake l now peer (holds c) =
    ((c.released ≡ true) × (c.owner_role ≢ l.role))
    ⊎ ((c.released ≡ false) × (c.expires_unix_nano ≤ now) × (c.owner_role ≡ l.role))
    ⊎ ((c.released ≡ false) × (c.expires_unix_nano ≤ now) × (peer ≢ some true))
    ⊎ ((c.released ≡ true) × WindowOver l.released_at l.cfg.duration now × (peer ≢ some true))

-- An instance is promoted only on a grant that it may take, whatever fails on the disk.
pub evaluate_promotion-MayTake :
    (l : Lease) (now : ℕ) (peer : Option Bool) (f : File) (faults : List Bool)
    → promotes (run (evaluate_promotion l now peer) (record { file = f; faults = faults })).0.1
      ≡ true
    → MayTake l now peer f
unfolding evaluate_promotion
evaluate_promotion-MayTake l now peer missing faults h = tt
evaluate_promotion-MayTake l now peer garbled faults h = ground arith
evaluate_promotion-MayTake l now peer (holds c) faults h =
    ground (arith, eq_iff c.owner_role l.role)

-- Every grant that an instance may take it does take, where nothing fails, and the acquisition is
-- abandoned exactly if the grant was there and not released.
pub evaluate_promotion-takes :
    (l : Lease) (now : ℕ) (peer : Option Bool) (f : File)
    → MayTake l now peer f
    → run (evaluate_promotion l now peer) (quiet f) ≡ (
      (
        set_owned l (new_grant l now),
        promotion (record { held = true; abandoned = left_behind f }) none,
      ),
      quiet (holds (new_grant l now)),
    )
unfolding evaluate_promotion
evaluate_promotion-takes l now peer missing h = ground (arith, eq_iff l.role l.role)
evaluate_promotion-takes l now peer garbled h = absurd h
evaluate_promotion-takes l now peer (holds c) h =
    ground (arith, eq_iff l.role l.role, eq_iff c.owner_role l.role)

-- An instance that has handed ownership over does not take it back within one lease duration,
-- whatever its peer's health, as long as the peer has not claimed the grant; the file stays as it is.
pub release-no_take_back :
    (l : Lease) (now later : ℕ) (peer : Option Bool)
    → l.held ≡ true
    → l.owned.owner_role ≡ l.role
    → later < now + l.cfg.duration
    → let d = run (release l now) (quiet (holds l.owned)) in
      run (evaluate_promotion d.0.0 later peer) d.1
      ≡ ((d.0.0, promotion not_acquired (some handover)), d.1)
unfolding evaluate_promotion release
release-no_take_back l now later peer held named window =
    ground (arith, eq_iff l.owned.owner_role l.owned.owner_role, eq_iff l.owned.owner_role l.role)
