-- ===== src/Runtime/TellingRun.antt =====
-- The facts of a process go through its whole run in order (platform/internal/app/app.go).
use opdl.Base.{◌≡◌, ◌≢◌, refl, ap, ◌∙◌, String, Bool, true, Option, none, some, arith}
use opdl.Redundancy.Role.{InstanceRole}
use opdl.HealthView.View.{NewResult, built, not_built}
use opdl.Deployment.Types.{Descriptor, has_standby}
use opdl.App.Setup.{Composed, ok, fails, health_targets, health_inventory}
use opdl.InstanceState.Store.{
  State, File, process_started as start_reason, Store, Result as StateResult, ok as recorded,
  err as not_recorded,
}
use opdl.Runtime.Io.{
  Resource, application_log, event_record, machine_store, broker, fabric_client, health_conn,
  subscription, health_publisher, monitor, listener, Call, opens, closes, makes_factory,
  makes_publisher, advances, has_lease, states, World, Io, call, Result, ok as done, err, running,
  Running,
}
use opdl.Runtime.Stages.{
  At, call-Moves, quietly-Moves, failing-Moves, pure-Moves, raise-Moves, bind-Moves, then-Moves,
  afterwards-Moves, if_fails-Moves, keeping-Moves, reading-Moves, advance_state-Moves,
}
use opdl.Runtime.Inner.{is_setup, open_process_lease-Leaves, serve_process-Keeps}
use opdl.Runtime.Rules.{Ends, Always, stage_of}
use opdl.Runtime.Active.{advanced_fact, resolve_role, advance_or_state}
use opdl.Runtime.Health.{
  start_parts, start_service_health, stop_service_health, of_composed, of_view,
}
use opdl.Runtime.Owned.{run_process}
use opdl.Runtime.Launch.{
  store_opened, keep_store, open_state, close_backends, open_publisher, run_and_state,
  run_monitored, run_connected, run_brokered, state_start, run_stated, run_logged, run_instance,
  run_configured, run, launched,
}
use opdl.Runtime.Telling.{Telling, silent, told, over, next_told, Tells, told_calm}

of_view-Moves : {t : Telling} (v : NewResult) → Tells t (of_view v) t t
of_view-Moves (built v) = pure-Moves v
of_view-Moves (not_built e) = raise-Moves _

of_composed-Moves : {A : Type 0} {t : Telling} (c : Composed A) → Tells t (of_composed c) t t
of_composed-Moves (ok a) = pure-Moves a
of_composed-Moves (fails e) = raise-Moves _

module _ (w : World) where
  start_parts-Moves : Tells told (start_parts w) told told
  unfolding start_parts
  start_parts-Moves =
      keeping-Moves w health_conn refl refl
        (keeping-Moves w subscription refl refl
          (keeping-Moves w health_publisher refl refl (call-Moves w (opens monitor) refl refl) refl)
          refl)
        refl

  start_service_health-Moves : (d : Descriptor) → Tells told (start_service_health w d) told told
  unfolding start_service_health
  start_service_health-Moves d =
      bind-Moves
        (then-Moves (of_composed-Moves (health_targets w.parsers d))
          (of_composed-Moves (health_inventory w.parsers d)))
        (λ units. then-Moves (of_view-Moves _) start_parts-Moves)

  stop_service_health-Moves : {t u : Telling} → Tells t stop_service_health t u
  unfolding stop_service_health
  stop_service_health-Moves = then-Moves (quietly-Moves (closes monitor) refl) (
      then-Moves (quietly-Moves (closes health_publisher) refl) (
        then-Moves (quietly-Moves (closes subscription) refl)
          (then-Moves (quietly-Moves (closes health_conn) refl) (pure-Moves tt))))

  closing : {t : Telling} (x : Resource) → Tells t (call w (closes x)) t t
  closing x = call-Moves w (closes x) refl refl

  close_backends-Moves : {t : Telling} → Tells t (close_backends w) t t
  unfolding close_backends
  close_backends-Moves =
      afterwards-Moves (closing machine_store) (closing event_record) (λ es. closing event_record)

  open_publisher-Moves : Tells silent (open_publisher w) silent over
  unfolding open_publisher
  open_publisher-Moves =
      then-Moves
        (then-Moves (call-Moves w (opens event_record) refl refl) (
          if_fails-Moves (call-Moves w (opens machine_store) refl refl)
            (λ es. closing event_record)))
        (if_fails-Moves (call-Moves w makes_publisher refl refl) (λ es. close_backends-Moves))

  setup_calm : (c : Call) (b : Bool) → is_setup c ≡ true → next_told (c, b) told ≡ some told
  setup_calm (advances r) b h = refl
  setup_calm (has_lease a) b h = refl
  setup_calm (states f) b h = told_calm (states f) b h
  setup_calm c b h = absurd (ground arith)

  keep_store-Moves : {t u : Telling} (s : Store) → Tells t (keep_store s) t u
  keep_store-Moves s = record { triple = record { runs = λ r h. h } }

  store_opened-Moves : (o : StateResult Store) → Tells silent (store_opened o) silent over
  store_opened-Moves (recorded s) = then-Moves (quietly-Moves _ refl) (keep_store-Moves s)
  store_opened-Moves (not_recorded e) =
      then-Moves {after = over} (failing-Moves _ refl) (raise-Moves _)

  advance_or_state-Moves : Tells silent (advance_or_state w start_reason) silent over
  unfolding advance_or_state
  advance_or_state-Moves = reading-Moves λ r.
      if_fails-Moves (advance_state-Moves w start_reason refl refl) (λ es. call-Moves w _ refl refl)

  module _ (d : Descriptor) (role : InstanceRole) where
    run_process-Moves : Tells told (run_process w d role) told told
    unfolding run_process
    run_process-Moves =
        bind-Moves (open_process_lease-Leaves next_told silent w told setup_calm d role) λ lease.
          then-Moves
            (if_fails-Moves (call-Moves w (opens listener) refl refl)
              (λ es. call-Moves w _ refl refl))
            (afterwards-Moves (serve_process-Keeps next_told silent w told told_calm d role lease)
              (closing listener) (λ es. closing listener))

    run_and_state-Moves : Tells told (run_and_state w d role) over over
    unfolding run_and_state
    run_and_state-Moves =
        afterwards-Moves run_process-Moves (call-Moves w _ refl refl)
          (λ es. call-Moves w _ refl refl)

    run_monitored-Moves : Tells told (run_monitored w d role) over over
    unfolding run_monitored
    run_monitored-Moves =
        then-Moves (if_fails-Moves (start_service_health-Moves d) (λ es. call-Moves w _ refl refl))
          (afterwards-Moves run_and_state-Moves stop_service_health-Moves
            (λ es. stop_service_health-Moves))

    run_connected-Moves : Tells told (run_connected w d role) over over
    unfolding run_connected
    run_connected-Moves =
        then-Moves
          (if_fails-Moves (call-Moves w (opens fabric_client) refl refl)
            (λ es. call-Moves w _ refl refl))
          (afterwards-Moves (then-Moves (call-Moves w _ refl refl) run_monitored-Moves)
            (quietly-Moves (closes fabric_client) refl)
            (λ es. quietly-Moves (closes fabric_client) refl))

    run_brokered-Moves : Tells told (run_brokered w d role) over over
    unfolding run_brokered
    run_brokered-Moves =
        then-Moves
          (if_fails-Moves (call-Moves w (opens broker) refl refl) (λ es. call-Moves w _ refl refl))
          (afterwards-Moves run_connected-Moves (quietly-Moves (closes broker) refl)
            (λ es. quietly-Moves (closes broker) refl))

    state_start-Moves : (s : State) → Tells silent (state_start w d role s) told over
    unfolding state_start advanced_fact
    state_start-Moves s =
        reading-Moves λ r. then-Moves (call-Moves w _ refl refl) (call-Moves w _ refl refl)

    open_state-Moves : (path : String) → Tells silent (open_state w path) silent over
    unfolding open_state
    open_state-Moves path = reading-Moves λ r. store_opened-Moves _

    run_stated-Moves : Tells silent (run_stated w d role) over over
    unfolding run_stated
    run_stated-Moves =
        bind-Moves (then-Moves (open_state-Moves _) advance_or_state-Moves)
          (λ s. then-Moves (state_start-Moves s) run_brokered-Moves)

    run_logged-Moves : Tells silent (run_logged w d role) over over
    unfolding run_logged
    run_logged-Moves =
        then-Moves (then-Moves (call-Moves w makes_factory refl refl) open_publisher-Moves)
          (afterwards-Moves run_stated-Moves close_backends-Moves (λ es. close_backends-Moves))

    run_instance-Moves : Tells silent (run_instance w d role) over over
    unfolding run_instance
    run_instance-Moves = then-Moves (call-Moves w (opens application_log) refl refl) (
        afterwards-Moves
          (afterwards-Moves run_logged-Moves (quietly-Moves _ refl) (λ es. quietly-Moves _ refl))
          (closing application_log) (λ es. closing application_log))

-- The order of the facts at the end of `Run`.
abbrev pub IsTold : Result (Unit {0}) × Running → Type 0
IsTold (done u, r) = stage_of next_told silent r.trace ≡ some over
IsTold (err es, r) = stage_of next_told silent r.trace ≢ none
IsTold (running, r) = stage_of next_told silent r.trace ≢ none

Moves-IsTold :
    {m : Io (Unit {0})} {failed : Telling}
    → Tells silent m over failed
    → (f : File) → IsTold (m (launched f))
Moves-IsTold {m} {failed} moves f =
    ends (m (launched f)) (moves.triple.runs (launched f) (silent, refl, refl))
  where
    ends :
        (x : Result (Unit {0}) × Running)
        → Ends next_told silent (Always (At next_told silent over)) (At next_told silent failed) x
        → IsTold x
    ends (done u, r) (s, e, h) = e ∙ ap some h
    ends (err es, r) (s, e, h) = ground arith
    ends (running, r) h = h

configured-IsTold :
    (w : World) (name : String) (d : Descriptor) (f : File) (c : Composed InstanceRole)
    → IsTold (run_configured w name d c (launched f))
configured-IsTold w name d f (fails e) = Moves-IsTold (raise-Moves _) f
configured-IsTold w name d f (ok role) = Moves-IsTold (run_instance-Moves w d role) f

-- Whatever fails, the first fact that a process states is its start, before it opens anything but its
-- log and its two event stores, and the second is the epoch of that start; where the epoch cannot be
-- recorded, that is the only fact. After the statement of its end, of an event fabric or a monitoring
-- that failed to start, or after one of those two facts or the event fabric's start could not be
-- stated, it states nothing.
-- A run that returns no error ends so, and what ownership does happens only in between.
pub run-IsTold :
    (w : World) (flag : Option String) (config : Option Descriptor) (file : File)
    → IsTold (run w flag config (launched file))
unfolding run
run-IsTold w none config file = Moves-IsTold (raise-Moves _) file
run-IsTold w (some name) none file = Moves-IsTold (raise-Moves _) file
run-IsTold w (some name) (some d) file =
    configured-IsTold w name d file (resolve_role name (has_standby d))
