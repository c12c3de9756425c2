-- ===== src/Runtime/ServingRun.antt =====
-- What a process's listener answers with, over the whole of `Run` (platform/internal/app/app.go).
use opdl.Base.{◌≡◌, refl, ◌≢◌, String, Bool, true, false, List, [], ◌∷◌, Option, none, some, arith}
use opdl.Redundancy.Role.{InstanceRole}
use opdl.Redundancy.Lease.{Lease, LeaseConfig, OpenResult, opened, open_failed}
use opdl.Redundancy.Lifecycle.{TurnEnd, goes_on, returns, waiting, manage_ownership}
use opdl.Redundancy.TurnOrder.{first_phase, manage_ownership-InOrder}
use opdl.Deployment.Types.{Descriptor, has_standby, is_set}
use opdl.App.Setup.{Composed, ok, fails, lease_config_of}
use opdl.App.Facts.{Fact}
use opdl.InstanceState.Store.{File}
use opdl.Runtime.Io.{
  broker, fabric_client, listener, application_log, opens, closes, makes_factory, states, World, Io,
  pure, raise, call, RunError, Result, ok as done, err, running, Running,
}
use opdl.Runtime.Rules.{
  Ends, Triple, Always, stage_of, pure-Triple, raise-Triple, quietly-Triple, bind-Triple,
  then-Triple, afterwards-Triple, if_fails-Triple, weaken-Triple, reading-Triple,
  still_running-Triple,
}
use opdl.Runtime.Stages.{At, call-Moves, quietly-Moves, then-Moves}
use opdl.Runtime.Active.{resolve_role}
use opdl.Runtime.Owned.{
  inactive, oldest_first, ended, newborn, own_machine, lease_opened_as, lease_setup,
  open_process_lease, serve_process, run_process,
}
use opdl.Runtime.Launch.{
  run_and_state, run_monitored, run_connected, run_brokered, run_stated, run_logged, run_instance,
  run_configured, run, launched,
}
use opdl.Runtime.Serving.{Station, first_station, leased, next_station}
use opdl.Runtime.ServingActive.{Any, Fits}
use opdl.Runtime.ServingTurns.{follow_all-Fits, phase_through-oldest_first}
use opdl.Runtime.ServingQuiet.{
  Goes, Quiet, starts, rests, then-Goes, Goes-afterwards, stop_service_health-Quiet,
  start_service_health-Quiet, close_backends-Quiet, open_publisher-Quiet, open_state-Quiet,
  advance_or_state-Quiet, state_start-Quiet, stated-Quiet, opening,
}

module _ (w : World) where
  -- The stage that an opened lease starts.
  abbrev Leased : Option Lease → Station → Type 0
  Leased lease s = s ≡ leased (is_set lease)

  lease_opened_as-Leased :
      (o : OpenResult)
      → Triple next_station first_station
          (At next_station first_station first_station)
          (lease_opened_as o)
          Leased
          Any
  unfolding pure
  lease_opened_as-Leased (opened none) =
      then-Triple next_station first_station {Q = Leased none}
        (quietly-Triple next_station first_station Any _ (λ s e. (leased false, rw e refl, refl)))
        (record { runs = λ r h. h })
  lease_opened_as-Leased (opened (some l)) =
      then-Triple next_station first_station {Q = Leased (some l)}
        (quietly-Triple next_station first_station Any _ (λ s e. (leased true, rw e refl, refl)))
        (record { runs = λ r h. h })
  lease_opened_as-Leased (open_failed e) =
      weaken-Triple next_station first_station {Q = Leased} (λ s h. h) (λ a s h. h) (λ s h. tt)
        (raise-Triple next_station first_station _ _ _)

  lease_setup-Leased :
      (d : Descriptor) (role : InstanceRole) (c : Composed LeaseConfig)
      → Triple next_station first_station
          (At next_station first_station first_station)
          (lease_setup w d role c)
          Leased
          Any
  lease_setup-Leased d role (fails e) =
      weaken-Triple next_station first_station {Q = Leased} (λ s h. h) (λ a s h. h) (λ s h. tt)
        (raise-Triple next_station first_station _ _ _)
  lease_setup-Leased d role (ok cfg) =
      reading-Triple next_station first_station (λ r. lease_opened_as-Leased _)

  stating :
      (f : Fact)
      → ((s : Station) (b : Bool) → next_station (states f, b) s ≡ some s)
      → Quiet (call w (states f))
  stating f calm s = call-Moves w (states f) (calm s true) (calm s false)

  open_process_lease-Leased :
      (d : Descriptor) (role : InstanceRole)
      → Triple next_station first_station
          (At next_station first_station first_station)
          (open_process_lease w d role)
          Leased
          Any
  unfolding open_process_lease
  open_process_lease-Leased d role =
      if_fails-Triple next_station first_station
        (lease_setup-Leased d role (lease_config_of w.parsers d))
        (λ es. rests (stating _ (λ s b. refl)))

  Leased-Fits :
      (lease : Option Lease) (s : Station) → Leased lease s → Fits (first_phase lease) inactive s
  Leased-Fits none s e = rw e (refl, refl)
  Leased-Fits (some l) s e = rw e (refl, refl)

  ended-Goes : (e : TurnEnd) → Triple next_station first_station Any (ended e) (Always Any) Any
  ended-Goes (returns []) = pure-Triple next_station first_station Any Any tt
  ended-Goes (returns (e ∷ es)) = raise-Triple next_station first_station Any _ _
  ended-Goes goes_on = still_running-Triple next_station first_station
  ended-Goes waiting = still_running-Triple next_station first_station

  own_machine-Goes :
      (address : String) (has_peer : Bool) (lease : Option Lease)
      → Triple next_station first_station
          (Leased lease)
          (own_machine w address has_peer lease)
          (Always Any)
          Any
  unfolding own_machine
  own_machine-Goes address has_peer lease =
      let run = manage_ownership true has_peer w.alone w.turns (newborn w address lease) in
      let ordered =
        manage_ownership-InOrder true has_peer w.alone w.turns (newborn w address lease) refl in
      then-Triple next_station first_station {Q = Any}
        (weaken-Triple next_station first_station (Leased-Fits lease) (λ a s h. h) (λ s h. h)
          (follow_all-Fits w address (oldest_first run.1.trace []) inactive (first_phase lease)
            (rw (phase_through-oldest_first w (first_phase lease) run.1.trace []) ordered)))
        (ended-Goes run.0)

  serve_process-Goes :
      (d : Descriptor) (role : InstanceRole) (lease : Option Lease)
      → Triple next_station first_station
          (Leased lease)
          (serve_process w d role lease)
          (Always Any)
          Any
  unfolding serve_process
  serve_process-Goes d role lease =
      then-Triple next_station first_station {Q = Leased lease}
        (weaken-Triple next_station first_station (λ s h. h) (λ a s h. h) (λ s h. tt)
          (stating _ (λ s b. refl) (leased (is_set lease))).triple)
        (own_machine-Goes _ _ lease)

  module _ (d : Descriptor) (role : InstanceRole) where
    run_process-Goes : Goes (run_process w d role)
    unfolding run_process
    run_process-Goes =
        bind-Triple next_station first_station (open_process_lease-Leased d role) λ lease.
          then-Triple next_station first_station {Q = Leased lease}
            (weaken-Triple next_station first_station (λ s h. h) (λ a s h. h) (λ s h. tt)
              (stated-Quiet w _ (opening w listener) (λ s b es. refl)
                (leased (is_set lease))).triple)
            (afterwards-Triple next_station first_station (serve_process-Goes d role lease)
              (λ a. rests closing) (λ es. rests closing))
      where
        closing : Quiet (call w (closes listener))
        closing s = call-Moves w (closes listener) refl refl

    run_brokered-Goes : Goes (run_brokered w d role)
    unfolding run_brokered run_connected run_monitored run_and_state
    run_brokered-Goes = then-Goes (stated-Quiet w _ (opening w broker) (λ s b es. refl)) (
        Goes-afterwards
          (then-Goes (stated-Quiet w _ (opening w fabric_client) (λ s b es. refl)) (
            Goes-afterwards
              (then-Goes (stating _ (λ s b. refl)) (
                then-Goes (stated-Quiet w _ (start_service_health-Quiet w d) (λ s b es. refl)) (
                  Goes-afterwards (Goes-afterwards run_process-Goes (λ es. stating _ (λ s b. refl)))
                    (λ es. stop_service_health-Quiet))))
              (λ es s. quietly-Moves (closes fabric_client) refl)))
          (λ es s. quietly-Moves (closes broker) refl))

    run_instance-Goes : Goes (run_instance w d role)
    unfolding run_instance run_logged run_stated
    run_instance-Goes =
        then-Goes (λ s. call-Moves w (opens application_log) refl refl)
          (Goes-afterwards
            (Goes-afterwards
              (then-Goes
                (λ s. then-Moves (call-Moves w makes_factory refl refl) (open_publisher-Quiet w s))
                (Goes-afterwards
                  (bind-Triple next_station first_station
                    (starts (λ s. then-Moves (open_state-Quiet w _ s) (advance_or_state-Quiet w s)))
                    (λ t. then-Goes (state_start-Quiet w d role t) run_brokered-Goes))
                  (λ es. close_backends-Quiet w)))
              (λ es s. quietly-Moves _ refl))
            (λ es s. call-Moves w (closes application_log) refl refl))

-- Every stage so far was orderly.
abbrev pub ServesInOrder : Result (Unit {0}) × Running → Type 0
ServesInOrder (x, r) = stage_of next_station first_station r.trace ≢ none

Goes-ServesInOrder : {m : Io (Unit {0})} → Goes m → (f : File) → ServesInOrder (m (launched f))
Goes-ServesInOrder {m} goes f =
    ends (m (launched f)) (goes.runs (launched f) (first_station, refl, refl))
  where
    ends :
        (x : Result (Unit {0}) × Running)
        → Ends next_station first_station (Always Any) Any x
        → ServesInOrder x
    ends (done u, r) (s, e, h) = ground arith
    ends (err es, r) (s, e, h) = ground arith
    ends (running, r) h = h

raise-ServesInOrder : (es : List RunError) (f : File) → ServesInOrder (raise es (launched f))
unfolding raise
raise-ServesInOrder es f = ground arith

configured-ServesInOrder :
    (w : World) (name : String) (d : Descriptor) (f : File) (c : Composed InstanceRole)
    → ServesInOrder (run_configured w name d c (launched f))
configured-ServesInOrder w name d f (fails e) = raise-ServesInOrder _ f
configured-ServesInOrder w name d f (ok role) = Goes-ServesInOrder (run_instance-Goes w d role) f

-- In every run of a process, whatever fails, the listener is switched to the Active surface only
-- while the ownership machine has the instance Active, and only once this activation's epoch is
-- recorded, and it is back on the Passive surface before the machine leaves Active, and so before
-- it releases the ownership. By then the requests have been waited for: they are drained, or the
-- drain has failed, as it does at its timeout, and the process has published, or has failed to,
-- that its serving ended. After a failed drain the requests may run on. That it serves is stated
-- while the Active surface answers, and the end of it after the drain.
pub run-ServesInOrder :
    (w : World) (flag : Option String) (config : Option Descriptor) (file : File)
    → ServesInOrder (run w flag config (launched file))
unfolding run
run-ServesInOrder w none config file = raise-ServesInOrder _ file
run-ServesInOrder w (some name) none file = raise-ServesInOrder _ file
run-ServesInOrder w (some name) (some d) file =
    configured-ServesInOrder w name d file (resolve_role name (has_standby d))
