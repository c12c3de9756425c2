-- ===== src/Redundancy/TurnOrder.antt =====
-- The order of the states over a whole life of `ManageOwnership` (redundancy/ownership.go).
use opdl.Base.{
  String, ◌≡◌, refl, ◌≢◌, ◌⊎◌, inl, inr, Bool, true, false, List, [], ◌∷◌, Option, Option-cases,
  Bool-cases, none, some, arith, if◌then◌else◌,
}
use opdl.Redundancy.Disk.{DiskIo}
use opdl.Redundancy.Lease.{
  Lease, Acquisition, Result, ok, err, try_acquire, role_of, file_of, read_error,
}
use opdl.Redundancy.Statements.{
  ActivationKind, initial, lease_opened, ownership_waiting, ownership_acquired,
}
use opdl.Redundancy.Promotion.{activation_kind}
use opdl.Redundancy.Turns.{
  publish_failed, TurnError, acquires, Process, acts, publish, with_lease, PassiveNext, waits_on,
  waited, wait_while_passive, ActiveRun, activate,
}
use opdl.Redundancy.Lifecycle.{
  Turn, TurnEnd, goes_on, returns, waiting, end_of, serve_turn, after_waiting, passive_turn,
  after_attempt, turn, turns, manage_ownership,
}
use opdl.Redundancy.Phases.{
  Phase, idle, owning, phase_of, At, PassiveDone, with_lease-trace, publish-At, passive_loop-At,
  activate-At,
}

-- No action of the trace was out of order.
abbrev pub InOrder : Phase → Process → Type 0
InOrder start p = phase_of start p.trace ≢ none

module _ (start : Phase) where
  abbrev TurnDone : TurnEnd × Process → Type 0
  TurnDone (goes_on, p) = At start idle p
  TurnDone (returns errors, p) = InOrder start p
  TurnDone (waiting, p) = InOrder start p

  At-InOrder : (phase : Phase) (p : Process) → At start phase p → InOrder start p
  At-InOrder phase p h e = ground arith

  end_of-TurnDone :
      (errors : List TurnError) (p : Process)
      → At start idle p ⊎ ((errors ≡ publish_failed ∷ []) × At start owning p)
      → TurnDone (end_of errors, p)
  end_of-TurnDone [] p h = ground arith
  end_of-TurnDone (e ∷ es) p h = ground arith

  serve_turn-TurnDone :
      (kind : ActivationKind) (has_peer : Bool) (t : Turn) (a : Acquisition) (p : Process)
      → At start owning p
      → TurnDone (serve_turn kind has_peer t a p)
  unfolding serve_turn
  serve_turn-TurnDone kind has_peer t a p h =
      elim (Bool-cases (publish (ownership_acquired (file_of p.lease) a.abandoned) p).0) [
        | inl e ↦
            rw (e, serve_turn)
              (end_of-TurnDone _ _ (
                activate-At start kind has_peer t.active _ (
                  publish-At start (ownership_acquired (file_of p.lease) a.abandoned) owning p refl
                    h)))
        | inr e ↦
            rw (e, serve_turn)
              (At-InOrder owning (publish (ownership_acquired (file_of p.lease) a.abandoned) p).1 (
                publish-At start (ownership_acquired (file_of p.lease) a.abandoned) owning p refl
                  h))
      ]

  after_waiting-TurnDone :
      (has_peer : Bool) (t : Turn) (n : PassiveNext) (p : Process)
      → PassiveDone start (n, p)
      → TurnDone (after_waiting has_peer t (n, p))
  unfolding after_waiting
  after_waiting-TurnDone has_peer t (waits_on d) p h = ground arith
  after_waiting-TurnDone has_peer t (waited [] a) p h =
      ground (arith, serve_turn-TurnDone (activation_kind (role_of p.lease)) has_peer t a p)
  after_waiting-TurnDone has_peer t (waited (e ∷ es) a) p h = ground arith

  passive_turn-TurnDone :
      (has_peer : Bool) (t : Turn) (p : Process)
      → At start idle p
      → TurnDone (passive_turn has_peer t p)
  unfolding passive_turn wait_while_passive
  passive_turn-TurnDone has_peer t p h =
      elim (Bool-cases (publish (ownership_waiting (file_of p.lease)) p).0) [
        | inl e ↦
            rw (e, passive_turn)
              (after_waiting-TurnDone has_peer t _ _ (
                passive_loop-At start none t.passive _
                  (rw (publish-At start (ownership_waiting (file_of p.lease)) idle p refl h) refl)))
        | inr e ↦
            rw (e, passive_turn)
              (At-InOrder idle (publish (ownership_waiting (file_of p.lease)) p).1
                (publish-At start (ownership_waiting (file_of p.lease)) idle p refl h))
      ]

  after_attempt-TurnDone :
      (has_peer : Bool) (t : Turn) (r : Result Acquisition) (p : Process)
      → At start idle p
      → TurnDone (after_attempt has_peer t (r, p))
  unfolding after_attempt
  after_attempt-TurnDone has_peer t (err e) p h = ground arith
  after_attempt-TurnDone has_peer t (ok a) p h = elim (Bool-cases a.held) [
    | inl e ↦
        simp (e, after_attempt)
          (serve_turn-TurnDone initial has_peer t a (acts acquires p) (rw h refl))
    | inr e ↦ simp (e, after_attempt) (passive_turn-TurnDone has_peer t p h)
  ]

  turn-TurnDone :
      (first has_peer : Bool) (t : Turn) (p : Process)
      → At start idle p
      → TurnDone (turn first has_peer t p)
  unfolding turn
  turn-TurnDone first has_peer t p h = elim (Bool-cases t.stopping) [
    | inl e ↦ rw (e, turn) (At-InOrder idle p h)
    | inr e ↦ simp (e, turn) (started first)
  ]
    where
      method : Lease → DiskIo (Lease × Result Acquisition)
      method l = try_acquire l t.attempt_at

      started :
          (b : Bool)
          → TurnDone (
              if b
              then after_attempt has_peer t (with_lease (err read_error) method p)
              else passive_turn has_peer t p)
      started true =
          after_attempt-TurnDone has_peer t _ _ (rw (with_lease-trace (err read_error) method p) h)
      started false = passive_turn-TurnDone has_peer t p h

  turns-continue :
      (has_peer : Bool) (ts : List Turn) (e : TurnEnd) (p : Process)
      → (At start idle p → InOrder start (turns false has_peer ts p).1)
      → TurnDone (e, p)
      → let r : TurnEnd × Process = elim e [
        | goes_on ↦ turns false has_peer ts p
        | returns errors ↦ (returns errors, p)
        | waiting ↦ (waiting, p)
      ] in
        InOrder start r.1
  turns-continue has_peer ts goes_on p ih h = ih h
  turns-continue has_peer ts (returns errors) p ih h = h
  turns-continue has_peer ts waiting p ih h = h

  turns-InOrder :
      (first has_peer : Bool) (ts : List Turn) (p : Process)
      → At start idle p
      → InOrder start (turns first has_peer ts p).1
  unfolding turns
  turns-InOrder first has_peer [] p h = At-InOrder idle p h
  turns-InOrder first has_peer (t ∷ ts) p h =
      turns-continue has_peer ts (turn first has_peer t p).0 (turn first has_peer t p).1
        (turns-InOrder false has_peer ts (turn first has_peer t p).1)
        (turn-TurnDone first has_peer t p h)

  activated-InOrder :
      {errors : List TurnError} (p : Process)
      → At start idle p ⊎ ((errors ≡ publish_failed ∷ []) × At start owning p)
      → InOrder start p
  activated-InOrder p (inl h) = At-InOrder idle p h
  activated-InOrder p (inr h) = At-InOrder owning p h.1

-- A machine with no lease is an owner by construction.
abbrev pub first_phase : Option Lease → Phase
first_phase none = owning
first_phase (some l) = idle

-- In a whole life of `ManageOwnership`, whatever the disk, the publisher, the clock, the peer and
-- the two compositions do, the states are entered and left in order: Passive has returned before
-- Active is entered, Active is entered only with ownership won, ownership is released only after
-- Active has returned, and each fact is stated in the state that it is about.
pub manage_ownership-InOrder :
    (has_publisher has_peer : Bool) (alone : ActiveRun) (ts : List Turn) (p : Process)
    → p.trace ≡ []
    → InOrder (first_phase p.lease) (manage_ownership has_publisher has_peer alone ts p).1
unfolding manage_ownership
manage_ownership-InOrder false has_peer alone ts p h = rw h (ground arith)
manage_ownership-InOrder true has_peer alone ts p h = elim (Option-cases p.lease) [
  | inl e ↦
      rw (e, manage_ownership)
        (activated-InOrder owning (activate initial has_peer alone p).1
          (activate-At owning initial has_peer alone p (rw h refl)))
  | inr (l, e) ↦
      rw (e, manage_ownership) (opens l (Bool-cases (publish (lease_opened l.cfg.file) p).0))
]
  where
    s : String → Bool × Process
    s file = publish (lease_opened file) p

    opened : (file : String) → At idle idle (s file).1
    opened file = publish-At idle (lease_opened file) idle p refl (rw h refl)

    opens :
        (l : Lease)
        → (((s l.cfg.file).0 ≡ true) ⊎ ((s l.cfg.file).0 ≡ false))
        → InOrder idle
            (if (s l.cfg.file).0
              then turns true has_peer ts (s l.cfg.file).1
              else (returns (publish_failed ∷ []), (s l.cfg.file).1)).1
    opens l (inl e) = rw e (turns-InOrder idle true has_peer ts _ (opened l.cfg.file))
    opens l (inr e) = rw e (At-InOrder idle idle (s l.cfg.file).1 (opened l.cfg.file))
