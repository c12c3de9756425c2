-- ===== src/Redundancy/Promotion.antt =====
-- `evaluatePromotion` and `activationKind` of platform/internal/machine/redundancy/ownership.go.
-- The clock reading is an argument, and so is the answer of the peer's health probe, `none` where
-- the machine has no peer to ask.
use opdl.Base.{ℕ, ◌+◌, Bool, true, false, Option, none, some, ltb, ◌==◌, string_eq, if◌then◌else◌}
use opdl.Redundancy.Role.{InstanceRole, role_primary}
use opdl.Redundancy.Disk.{DiskIo, done, read_record, write_record}
use opdl.Redundancy.Lease.{
  Lease, Acquisition, not_acquired, Result, ok, err, try_acquire, Observed, observed, unobserved,
  observe, lease_held, lease_absent, lease_released, lease_lapsed, handed_over_at,
}
use opdl.Redundancy.Statements.{
  ActivationKind, failover, failback, DeclineReason, peer_healthy, handover,
}

unfoldable pub activation_kind : InstanceRole → ActivationKind
activation_kind role = if role == role_primary then failback else failover

-- Sequencing of disk programs.
abbrev pub then_do : {A B : Type 0} → DiskIo A → (A → DiskIo B) → DiskIo B
then_do (done a) f = f a
then_do (read_record k) f = read_record λ r. then_do (k r) f
then_do (write_record r k) f = write_record r λ b. then_do (k b) f

-- The outcome of an evaluation: the acquisition and the reason for which one was withheld.
pub data Promotion : Type 0 where
  promotion : Acquisition → Option DeclineReason → Promotion
  promotion_failed : Promotion

abbrev as_promotion : Lease × Result Acquisition → Lease × Promotion
as_promotion (l, ok a) = (l, promotion a none)
as_promotion (l, err e) = (l, promotion_failed)

pub attempt : Lease → ℕ → DiskIo (Lease × Promotion)
unfolding try_acquire
attempt l now = then_do (try_acquire l now) λ r. done (as_promotion r)

-- The end of `evaluatePromotion`, past its switch: promote unless the peer can serve.
pub unless_healthy : Lease → ℕ → Option Bool → DiskIo (Lease × Promotion)
unfolding attempt
unless_healthy l now none = attempt l now
unless_healthy l now (some true) = done (l, promotion not_acquired (some peer_healthy))
unless_healthy l now (some false) = attempt l now

-- `now.Sub(lease.handedOverAt()) < lease.cfg.Duration`: never for the zero time, which lies centuries
-- back.
unfoldable pub in_handover : Lease → ℕ → Bool
unfolding handed_over_at
in_handover l now = elim (handed_over_at l) [ none ↦ false | some t ↦ ltb now (t + l.cfg.duration) ]

pub decide_promotion : Lease → ℕ → Option Bool → Observed → DiskIo (Lease × Promotion)
unfolding attempt unless_healthy in_handover
decide_promotion l now peer (unobserved e) = done (l, promotion_failed)
decide_promotion l now peer (observed lease_held owner) = done (l, promotion not_acquired none)
decide_promotion l now peer (observed lease_absent owner) = attempt l now
decide_promotion l now peer (observed lease_released owner) =
    if owner == l.role
    then (if in_handover l now
        then done (l, promotion not_acquired (some handover))
        else unless_healthy l now peer)
    else attempt l now
decide_promotion l now peer (observed lease_lapsed owner) =
    if owner == l.role then attempt l now else unless_healthy l now peer

unfoldable pub evaluate_promotion : Lease → ℕ → Option Bool → DiskIo (Lease × Promotion)
unfolding observe decide_promotion
evaluate_promotion l now peer = then_do (observe now) (decide_promotion l now peer)
