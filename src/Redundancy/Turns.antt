-- ===== src/Redundancy/Turns.antt =====
-- The ownership lifecycle of platform/internal/machine/redundancy/ownership.go: `ManageOwnership`,
-- `waitWhilePassive`, `activate`, `startRenewal` and `startFailback`.
-- What the goroutines of a turn select on is a list of events, in the order in which they are
-- selected; an event carries the clock readings, the health answers and the results that the code
-- obtains there. Where a list ends the process is still running. Statements go to a publisher whose
-- failures are a list, as the disk's are. An error list is errors.Join, empty for nil.
use opdl.Base.{
  ℕ, ◌+◌, ◌-◌, ◌/◌, Bool, true, false, not, ◌&&◌, List, [], ◌∷◌, ◌++◌, Option, none, some, ltb, leb,
  ◌==◌, string_eq, if◌then◌else◌,
}
use opdl.Redundancy.Role.{role_standby}
use opdl.Redundancy.Disk.{Disk, DiskIo, next_fault, later_faults, run}
use opdl.Redundancy.Lease.{
  Lease, LeaseError, ownership_lost, Acquisition, not_acquired, renew, release, owned_expiry,
}
use opdl.Redundancy.Statements.{
  ActivationKind, DeclineReason, peer_healthy, handover, taken_over, could_not_renew, Statement,
  promotion_declined, lease_renewal_failed, stepped_down, failback_initiated, activation_started,
  activation_failed, activation_completed,
}
use opdl.Redundancy.Promotion.{Promotion, promotion, promotion_failed, evaluate_promotion}

-- What a process does to the world beside the lease file, and the moves of its ownership.
pub data Action : Type 0 where
  stated : Statement → Action
  acquires releases : Action
  enters_passive leaves_passive : Action
  enters_active : ActivationKind → Action
  leaves_active : Action

pub record Process : Type 0 where
  pub lease : Option Lease
  pub disk : Disk
  pub publish_faults : List Bool
  -- Newest first.
  pub trace : List Action

pub data TurnError : Type 0 where
  no_publisher publish_failed passive_failed active_failed : TurnError
  lease_failed : LeaseError → TurnError

abbrev pub acts : Action → Process → Process
acts a p = record p { trace = a ∷ p.trace }

-- `Publish`, and whether it succeeded.
unfoldable pub publish : Statement → Process → Bool × Process
publish s p = (
  not (next_fault p.publish_faults),
  record p {
    publish_faults = later_faults p.publish_faults;
    trace = if next_fault p.publish_faults then p.trace else stated s ∷ p.trace;
  },
)

-- `events.BestEffort(publisher).State`.
unfoldable pub best_effort : Statement → Process → Process
best_effort s p = (publish s p).1

-- A method of the lease; a nil lease answers `default`.
unfoldable pub with_lease : {R : Type 0} → R → (Lease → DiskIo (Lease × R)) → Process → R × Process
with_lease default method p = elim p.lease [
  | none ↦ (default, p)
  | some l ↦ (
    (run (method l) p.disk).0.1,
    record p { lease = some (run (method l) p.disk).0.0; disk = (run (method l) p.disk).1 },
  )
]

-- What `waitWhilePassive` selects: ctx.Done, the return of Passive, or the promotion ticker. At a tick
-- that wins ownership Passive is canceled, and `passive_fails` says how it then returns.
pub data PassiveEvent : Type 0 where
  stop_requested : PassiveEvent
  passive_returned : (fails : Bool) → PassiveEvent
  promotion_tick : (now : ℕ) → (peer : Option Bool) → (passive_fails : Bool) → PassiveEvent

pub data PassiveNext : Type 0 where
  waits_on : (last_decline : Option DeclineReason) → PassiveNext
  waited : List TurnError → Acquisition → PassiveNext

abbrev error_if : Bool → TurnError → List TurnError
error_if true e = e ∷ []
error_if false e = []

abbrev same_reason : DeclineReason → Option DeclineReason → Bool
same_reason peer_healthy (some peer_healthy) = true
same_reason handover (some handover) = true
same_reason _ _ = false

-- A declined promotion is stated once per stretch of the same reason.
unfoldable pub note_decline : Option DeclineReason → Option DeclineReason → Process → Process
note_decline last none p = p
note_decline last (some reason) p =
    if same_reason reason last then p else best_effort (promotion_declined reason) p

unfoldable pub after_evaluation :
    (last : Option DeclineReason)
    → (passive_fails : Bool) → Promotion × Process
    → PassiveNext × Process
after_evaluation last fails (promotion_failed, p) = (waits_on last, p)
after_evaluation last fails (promotion a decline, p) =
    if a.held
    then (
      waited (error_if fails passive_failed) (if fails then not_acquired else a),
      acts leaves_passive (acts acquires (note_decline last decline p)),
    )
    else (waits_on decline, note_decline last decline p)

unfoldable pub passive_step : Option DeclineReason → PassiveEvent → Process → PassiveNext × Process
passive_step last stop_requested p = (waited [] not_acquired, acts leaves_passive p)
passive_step last (passive_returned fails) p =
    (waited (error_if fails passive_failed) not_acquired, acts leaves_passive p)
passive_step last (promotion_tick now peer fails) p =
    after_evaluation last fails (with_lease promotion_failed (λ l. evaluate_promotion l now peer) p)

unfoldable pub passive_loop :
    Option DeclineReason → List PassiveEvent → Process → PassiveNext × Process
passive_loop last [] p = (waits_on last, p)
passive_loop last (e ∷ es) p =
    let r = passive_step last e p in
    elim r.0 [
      | waits_on decline ↦ passive_loop decline es r.1
      | waited errors a ↦ (waited errors a, r.1)
    ]

unfoldable pub wait_while_passive : List PassiveEvent → Process → PassiveNext × Process
wait_while_passive es p = passive_loop none es (acts enters_passive p)

-- What the renewal and failback goroutines select while Active runs. `later` is the second clock
-- reading of the same tick.
pub data ActiveEvent : Type 0 where
  renewal_tick : (now : ℕ) → (later : ℕ) → ActiveEvent
  failback_tick : (healthy : Bool) → (now : ℕ) → (later : ℕ) → ActiveEvent

-- The two goroutines: whether each still runs, whether Active's context is still live, and since
-- when the peer has been healthy.
pub record Watch : Type 0 where
  pub renewing : Bool
  pub watching : Bool
  pub serving : Bool
  pub healthy_since : Option ℕ

abbrev stops_renewing : Watch → Watch
stops_renewing w = record w { renewing = false; serving = false }

-- The renewal's answer, and the handle's expiry when it came.
unfoldable pub after_renewal : ℕ → ℕ → ℕ → Watch → Option LeaseError × Process → Watch × Process
after_renewal interval expiry later w (none, p) = (w, p)
after_renewal interval expiry later w (some ownership_lost, p) =
    (stops_renewing w, best_effort (stepped_down taken_over) p)
after_renewal interval expiry later w (some _, p) =
    if ltb expiry (later + interval)
    then (stops_renewing w, best_effort (stepped_down could_not_renew) p)
    else (w, best_effort lease_renewal_failed p)

unfoldable pub renewal_step : Lease → ℕ → ℕ → Watch → Process → Watch × Process
renewal_step l now later w p =
    let r = with_lease none (λ m. renew m now) p in
    after_renewal l.cfg.renewal_interval (owned_expiry l) later w r

unfoldable pub failback_step : Lease → Bool → ℕ → ℕ → Watch → Process → Watch × Process
failback_step l false now later w p = (record w { healthy_since = none }, p)
failback_step l true now later w p =
    let since : ℕ = elim w.healthy_since [ none ↦ now | some t ↦ t ] in
    if leb (since + l.cfg.failback_stabilization) later
    then (
      record w { healthy_since = some since; watching = false; serving = false },
      best_effort failback_initiated p,
    )
    else (record w { healthy_since = some since }, p)

-- A goroutine that has returned selects nothing more.
unfoldable pub active_step : ActiveEvent → Watch → Process → Watch × Process
active_step (renewal_tick now later) w p = elim p.lease [
  | none ↦ (w, p)
  | some l ↦ if w.renewing then renewal_step l now later w p else (w, p)
]
active_step (failback_tick healthy now later) w p = elim p.lease [
  | none ↦ (w, p)
  | some l ↦ if w.watching then failback_step l healthy now later w p else (w, p)
]

unfoldable pub active_loop : List ActiveEvent → Watch → Process → Watch × Process
active_loop [] w p = (w, p)
active_loop (e ∷ es) w p = let r = active_step e w p in active_loop es r.0 r.1

-- One run of the Active composition: the ticks while it runs, how it returns, and the clock when it
-- starts, when the lease is released and when the elapsed time is taken.
pub record ActiveRun : Type 0 where
  pub started : ℕ
  pub ticks : List ActiveEvent
  pub fails : Bool
  pub ended : ℕ
  pub measured : ℕ

-- Whether the goroutines are started at all; `has_peer` is `deps.PeerHealthy != nil`.
unfoldable pub first_watch : Option Lease → (has_peer : Bool) → Watch
first_watch none has_peer = record {
  renewing = false;
  watching = false;
  serving = true;
  healthy_since = none;
}
first_watch (some l) has_peer = record {
  renewing = true;
  watching = (l.role == role_standby) && (has_peer && ltb 0 l.cfg.failback_stabilization);
  serving = true;
  healthy_since = none;
}

abbrev release_errors : Option LeaseError → List TurnError
release_errors none = []
release_errors (some e) = lease_failed e ∷ []

-- `activate` once Active has returned: the release, then the closing statement.
unfoldable pub deactivate : ActivationKind → ActiveRun → Process → List TurnError × Process
deactivate kind a p =
    let r = with_lease none (λ l. release l a.ended) (acts leaves_active p) in
    let elapsed = (a.measured - a.started) / 1000000 in
    let q = acts releases r.1 in
    if a.fails
    then (let s = publish (activation_failed kind elapsed) q in
        (active_failed ∷ release_errors r.0 ++ error_if (not s.0) publish_failed, s.1))
    else (let s = publish (activation_completed kind elapsed) q in
        (error_if (not s.0) publish_failed ++ release_errors r.0, s.1))

unfoldable pub activate :
    ActivationKind → (has_peer : Bool) → ActiveRun → Process → List TurnError × Process
activate kind has_peer a p =
    let s = publish (activation_started kind) p in
    if s.0
    then deactivate kind a
        (active_loop a.ticks (first_watch p.lease has_peer) (acts (enters_active kind) s.1)).1
    else (publish_failed ∷ [], s.1)
