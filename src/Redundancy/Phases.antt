-- ===== src/Redundancy/Phases.antt =====
-- The order in which the two states are entered and left (redundancy/ownership.go), as a monitor
-- that reads what a process does and accepts only the allowed orders.
use opdl.Base.{
  ℕ, ◌≡◌, refl, ◌⊎◌, inl, inr, Bool, true, false, List, [], ◌∷◌, Option, Option-cases, Bool-cases,
  none, some, arith,
}
use opdl.Redundancy.Disk.{DiskIo}
use opdl.Redundancy.Lease.{Lease, LeaseError, ownership_lost, renew, release, owned_expiry}
use opdl.Redundancy.Statements.{
  Statement, lease_opened, ownership_waiting, ownership_acquired, promotion_declined,
  lease_renewal_failed, stepped_down, taken_over, could_not_renew, failback_initiated,
  activation_started, activation_failed, activation_completed, ActivationKind, DeclineReason,
}
use opdl.Redundancy.Promotion.{Promotion, promotion, promotion_failed, evaluate_promotion}
use opdl.Redundancy.Turns.{
  Action, stated, acquires, releases, enters_passive, leaves_passive, enters_active, leaves_active,
  publish_failed, renewal_tick, failback_tick, Process, acts, publish, best_effort, with_lease,
  PassiveEvent, stop_requested, passive_returned, promotion_tick, PassiveNext, waits_on, waited,
  note_decline, after_evaluation, passive_step, passive_loop, ActiveEvent, Watch, active_step,
  active_loop, ActiveRun, deactivate, activate, renewal_step, failback_step, after_renewal,
}

-- idle: no composition runs and no ownership is held; passive_owning: ownership is won and Passive
-- has not returned; drained: Active has returned and ownership is still held.
pub data Phase : Type 0 where
  idle passive passive_owning owning active drained : Phase

-- The phases in which a statement may be made.
abbrev pub statement_fits : Statement → Phase → Bool
statement_fits (lease_opened f) idle = true
statement_fits (ownership_waiting f) idle = true
statement_fits (ownership_acquired f a) owning = true
statement_fits (promotion_declined r) passive = true
statement_fits lease_renewal_failed active = true
statement_fits (stepped_down r) active = true
statement_fits failback_initiated active = true
statement_fits (activation_started k) owning = true
statement_fits (activation_failed k d) idle = true
statement_fits (activation_completed k d) idle = true
statement_fits _ _ = false

abbrev pub stay_if : Bool → Phase → Option Phase
stay_if true p = some p
stay_if false p = none

abbrev pub next_phase : Action → Phase → Option Phase
next_phase (stated s) p = stay_if (statement_fits s p) p
next_phase enters_passive idle = some passive
next_phase acquires passive = some passive_owning
next_phase acquires idle = some owning
next_phase leaves_passive passive = some idle
next_phase leaves_passive passive_owning = some owning
next_phase (enters_active k) owning = some active
next_phase leaves_active active = some drained
next_phase releases drained = some idle
next_phase _ _ = none

abbrev pub bind_phase : Option Phase → Action → Option Phase
bind_phase none a = none
bind_phase (some p) a = next_phase a p

-- The phase after a trace, newest action first, or `none` if some action was out of order.
abbrev pub phase_of : Phase → List Action → Option Phase
phase_of start [] = some start
phase_of start (a ∷ rest) = bind_phase (phase_of start rest) a

abbrev pub At : Phase → Phase → Process → Type 0
At start phase p = phase_of start p.trace ≡ some phase

pub with_lease-trace :
    {R : Type 0} (default : R) (method : Lease → DiskIo (Lease × R)) (p : Process)
    → (with_lease default method p).1.trace ≡ p.trace
unfolding with_lease
with_lease-trace default method p = elim (Option-cases p.lease) [
  | inl e ↦ rw (e, with_lease) refl
  | inr (l, e) ↦ rw (e, with_lease) refl
]

module _ (start : Phase) where
  pub publish-At :
      (s : Statement) (phase : Phase) (p : Process)
      → statement_fits s phase ≡ true
      → At start phase p
      → At start phase (publish s p).1
  unfolding publish
  publish-At s phase p fits h = ground arith

  best_effort-At :
      (s : Statement) (phase : Phase) (p : Process)
      → statement_fits s phase ≡ true
      → At start phase p
      → At start phase (best_effort s p)
  unfolding best_effort
  best_effort-At s phase p fits h = publish-At s phase p fits h

  note_decline-At :
      (last decline : Option DeclineReason) (p : Process)
      → At start passive p
      → At start passive (note_decline last decline p)
  unfolding note_decline
  note_decline-At last none p h = h
  note_decline-At last (some reason) p h =
      ground (arith, best_effort-At (promotion_declined reason) passive p)

  after_renewal-At :
      (interval expiry later : ℕ) (w : Watch) (e : Option LeaseError) (p : Process)
      → At start active p
      → At start active (after_renewal interval expiry later w (e, p)).1
  unfolding after_renewal
  after_renewal-At interval expiry later w none p h = h
  after_renewal-At interval expiry later w (some ownership_lost) p h =
      best_effort-At (stepped_down taken_over) active p refl h
  after_renewal-At interval expiry later w (some _) p h = ground (
    arith,
    best_effort-At (stepped_down could_not_renew) active p,
    best_effort-At lease_renewal_failed active p,
  )

  -- Passive goes on, or has returned with ownership exactly if it was won without an error.
  abbrev pub PassiveDone : PassiveNext × Process → Type 0
  PassiveDone (waits_on d, p) = At start passive p
  PassiveDone (waited [] a, p) =
      ((a.held ≡ true) × At start owning p) ⊎ ((a.held ≡ false) × At start idle p)
  PassiveDone (waited (e ∷ es) a, p) = At start owning p ⊎ At start idle p

  after_evaluation-At :
      (last : Option DeclineReason) (fails : Bool) (r : Promotion) (p : Process)
      → At start passive p
      → PassiveDone (after_evaluation last fails (r, p))
  unfolding after_evaluation
  after_evaluation-At last fails promotion_failed p h = h
  after_evaluation-At last fails (promotion a decline) p h =
      ground (arith, note_decline-At last decline p h)

  passive_step-At :
      (last : Option DeclineReason) (e : PassiveEvent) (p : Process)
      → At start passive p
      → PassiveDone (passive_step last e p)
  unfolding passive_step
  passive_step-At last stop_requested p h = ground arith
  passive_step-At last (passive_returned fails) p h = ground arith
  passive_step-At last (promotion_tick now peer fails) p h =
      let r = with_lease promotion_failed (λ l. evaluate_promotion l now peer) p in
      after_evaluation-At last fails r.0 r.1
        (rw (with_lease-trace promotion_failed (λ l. evaluate_promotion l now peer) p) h)

  passive_continue-At :
      (es : List PassiveEvent) (n : PassiveNext) (q : Process)
      → ((d : Option DeclineReason) → At start passive q → PassiveDone (passive_loop d es q))
      → PassiveDone (n, q)
      → PassiveDone
          (elim n [ waits_on d ↦ passive_loop d es q | waited errors a ↦ (waited errors a, q) ])
  passive_continue-At es (waits_on d) q ih h = ih d h
  passive_continue-At es (waited errors a) q ih h = h

  pub passive_loop-At :
      (last : Option DeclineReason) (es : List PassiveEvent) (p : Process)
      → At start passive p
      → PassiveDone (passive_loop last es p)
  unfolding passive_loop
  passive_loop-At last [] p h = h
  passive_loop-At last (e ∷ es) p h =
      passive_continue-At es (passive_step last e p).0 (passive_step last e p).1
        (λ d. passive_loop-At d es (passive_step last e p).1) (passive_step-At last e p h)

  renewal_step-At :
      (l : Lease) (now later : ℕ) (w : Watch) (p : Process)
      → At start active p
      → At start active (renewal_step l now later w p).1
  unfolding renewal_step
  renewal_step-At l now later w p h =
      let r = with_lease none (λ m. renew m now) p in
      after_renewal-At l.cfg.renewal_interval (owned_expiry l) later w r.0 r.1
        (rw (with_lease-trace none (λ m. renew m now) p) h)

  failback_step-At :
      (l : Lease) (healthy : Bool) (now later : ℕ) (w : Watch) (p : Process)
      → At start active p
      → At start active (failback_step l healthy now later w p).1
  unfolding failback_step
  failback_step-At l false now later w p h = h
  failback_step-At l true now later w p h =
      ground (arith, best_effort-At failback_initiated active p)

  active_step-At :
      (e : ActiveEvent) (w : Watch) (p : Process)
      → At start active p
      → At start active (active_step e w p).1
  unfolding active_step
  active_step-At (renewal_tick now later) w p h = elim (Option-cases p.lease) [
    | inl e ↦ rw (e, active_step) h
    | inr (l, e) ↦ rw (e, active_step) (ground (arith, renewal_step-At l now later w p))
  ]
  active_step-At (failback_tick healthy now later) w p h = elim (Option-cases p.lease) [
    | inl e ↦ rw (e, active_step) h
    | inr (l, e) ↦ rw (e, active_step) (ground (arith, failback_step-At l healthy now later w p))
  ]

  active_loop-At :
      (es : List ActiveEvent) (w : Watch) (p : Process)
      → At start active p
      → At start active (active_loop es w p).1
  unfolding active_loop
  active_loop-At [] w p h = h
  active_loop-At (e ∷ es) w p h =
      active_loop-At es (active_step e w p).0 (active_step e w p).1 (active_step-At e w p h)

  deactivate-At :
      (kind : ActivationKind) (a : ActiveRun) (p : Process)
      → At start active p
      → At start idle (deactivate kind a p).1
  unfolding deactivate
  deactivate-At kind a p h = elim (Bool-cases a.fails) [
    | inl e ↦ rw (e, deactivate) (publish-At _ idle _ refl released)
    | inr e ↦ rw (e, deactivate) (publish-At _ idle _ refl released)
  ]
    where
      method : Lease → DiskIo (Lease × Option LeaseError)
      method l = release l a.ended

      released : At start idle (acts releases (with_lease none method (acts leaves_active p)).1)
      released = rw (with_lease-trace none method (acts leaves_active p)) (rw h refl)

  -- Ownership is still held only if the statement that Active starts could not be published.
  pub activate-At :
      (kind : ActivationKind) (has_peer : Bool) (a : ActiveRun) (p : Process)
      → At start owning p
      → At start idle (activate kind has_peer a p).1
        ⊎ (((activate kind has_peer a p).0 ≡ publish_failed ∷ [])
            × At start owning (activate kind has_peer a p).1)
  unfolding activate
  activate-At kind has_peer a p h = elim (Bool-cases (publish (activation_started kind) p).0) [
    | inl e ↦ rw (e, activate) (inl (deactivate-At kind a _ (active_loop-At a.ticks _ _ entered)))
    | inr e ↦ rw (e, activate) (inr (refl, publish-At (activation_started kind) owning p refl h))
  ]
    where
      s : Bool × Process
      s = publish (activation_started kind) p

      entered : At start active (acts (enters_active kind) s.1)
      entered = rw (publish-At (activation_started kind) owning p refl h) refl
