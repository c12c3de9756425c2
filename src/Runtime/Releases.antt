-- ===== src/Runtime/Releases.antt =====
-- What a process holds goes through its whole run in order.
use opdl.Base.{
  ◌≡◌, ◌≢◌, refl, ap, ◌∙◌, String, Bool, true, List, [], ◌∷◌, Option, none, some, arith,
}
use opdl.HealthView.View.{NewResult, built, not_built}
use opdl.Redundancy.Role.{InstanceRole}
use opdl.Deployment.Types.{Descriptor, has_standby}
use opdl.App.Setup.{Composed, ok, fails, health_targets, health_inventory}
use opdl.InstanceState.Store.{
  State, File, process_started as start_reason, Store, Result as StateResult, ok as recorded,
  err as not_recorded,
}
use opdl.Runtime.Io.{
  Resource, application_log, event_record, machine_store, broker, fabric_client, health_conn,
  subscription, health_publisher, monitor, listener, Call, opens, closes, makes_factory,
  makes_publisher, advances, has_lease, states, owns, serves, selects, drains, World, Io, Result,
  ok as done, err, running, Running,
}
use opdl.Runtime.Stages.{
  At, Moves, call-Moves, quietly-Moves, failing-Moves, pure-Moves, raise-Moves, bind-Moves,
  then-Moves, afterwards-Moves, if_fails-Moves, keeping-Moves, reading-Moves,
}
use opdl.Runtime.Inner.{
  is_inner, is_setup, advance_or_state-Leaves, open_process_lease-Leaves, serve_process-Keeps,
}
use opdl.Runtime.Rules.{Ends, Always}
use opdl.Runtime.Active.{advanced_fact, resolve_role}
use opdl.Runtime.Resources.{next_held, held_after, is_held}
use opdl.Runtime.Health.{
  start_parts, start_service_health, stop_service_health, of_composed, of_view,
}
use opdl.Runtime.Owned.{run_process}
use opdl.Runtime.Launch.{
  store_opened, keep_store, open_state, close_backends, open_publisher, run_and_state,
  run_monitored, run_connected, run_brokered, state_start, run_stated, run_logged, run_instance,
  run_configured, run, launched,
}

abbrev pub HeldMoves : {A : Type 0} → List Resource → Io A → List Resource → List Resource → Type 0
HeldMoves = Moves next_held []

abbrev pub logged : List Resource
logged = application_log ∷ []

abbrev pub stored : List Resource
stored = machine_store ∷ event_record ∷ logged

abbrev pub brokered : List Resource
brokered = broker ∷ stored

abbrev pub base_held : List Resource
base_held = fabric_client ∷ brokered

abbrev pub monitored : List Resource
monitored = monitor ∷ health_publisher ∷ subscription ∷ health_conn ∷ base_held

start_parts-Moves : (w : World) → HeldMoves base_held (start_parts w) monitored base_held
unfolding start_parts
start_parts-Moves w =
    keeping-Moves w health_conn refl refl
      (keeping-Moves w subscription refl refl
        (keeping-Moves w health_publisher refl refl (call-Moves w (opens monitor) refl refl) refl)
        refl)
      refl

stop_service_health-Moves :
    {failed : List Resource} → HeldMoves monitored stop_service_health base_held failed
unfolding stop_service_health
stop_service_health-Moves = then-Moves (quietly-Moves (closes monitor) refl) (
    then-Moves (quietly-Moves (closes health_publisher) refl) (
      then-Moves (quietly-Moves (closes subscription) refl)
        (then-Moves (quietly-Moves (closes health_conn) refl) (pure-Moves tt))))

of_view-Moves : (v : NewResult) → HeldMoves base_held (of_view v) base_held base_held
of_view-Moves (built v) = pure-Moves v
of_view-Moves (not_built e) = raise-Moves _

of_composed-Moves :
    {A : Type 0} {held : List Resource} (c : Composed A) → HeldMoves held (of_composed c) held held
of_composed-Moves (ok a) = pure-Moves a
of_composed-Moves (fails e) = raise-Moves _

module _ (w : World) where
  start_service_health-Moves :
      (d : Descriptor) → HeldMoves base_held (start_service_health w d) monitored base_held
  unfolding start_service_health
  start_service_health-Moves d =
      bind-Moves
        (then-Moves (of_composed-Moves (health_targets w.parsers d))
          (of_composed-Moves (health_inventory w.parsers d)))
        (λ units. then-Moves (of_view-Moves _) (start_parts-Moves w))

  setup_calm :
      {held : List Resource}
      → is_held event_record held ≡ true
      → is_held machine_store held ≡ true
      → (c : Call) (b : Bool) → is_setup c ≡ true
      → next_held (c, b) held ≡ some held
  setup_calm e m (advances r) b h = refl
  setup_calm e m (has_lease a) b h = refl
  setup_calm e m (states f) b h = ground arith
  setup_calm e m c b h = absurd (ground arith)

  serving_calm :
      (c : Call) (b : Bool)
      → is_inner c ≡ true
      → next_held (c, b) (listener ∷ monitored) ≡ some (listener ∷ monitored)
  serving_calm (advances r) b h = refl
  serving_calm (has_lease a) b h = refl
  serving_calm (states f) b h = refl
  serving_calm (owns a) b h = refl
  serving_calm (serves s) b h = refl
  serving_calm selects b h = refl
  serving_calm drains b h = refl
  serving_calm c b h = absurd (ground arith)

  close_backends-Moves : HeldMoves stored (close_backends w) logged logged
  unfolding close_backends
  close_backends-Moves =
      afterwards-Moves {after = event_record ∷ logged} {failed = event_record ∷ logged}
        (call-Moves w (closes machine_store) refl refl)
        (call-Moves w (closes event_record) refl refl)
        (λ es. call-Moves w (closes event_record) refl refl)

  open_publisher-Moves : HeldMoves logged (open_publisher w) stored logged
  unfolding open_publisher
  open_publisher-Moves =
      then-Moves
        (then-Moves (call-Moves w (opens event_record) refl refl) (
          if_fails-Moves (call-Moves w (opens machine_store) refl refl)
            (λ es. call-Moves w (closes event_record) refl refl)))
        (if_fails-Moves (call-Moves w makes_publisher refl refl) (λ es. close_backends-Moves))

  keep_store-Moves : (s : Store) → HeldMoves stored (keep_store s) stored stored
  keep_store-Moves s = record { triple = record { runs = λ r h. h } }

  store_opened-Moves : (o : StateResult Store) → HeldMoves stored (store_opened o) stored stored
  store_opened-Moves (recorded s) = then-Moves (quietly-Moves _ refl) (keep_store-Moves s)
  store_opened-Moves (not_recorded e) =
      then-Moves {after = stored} (failing-Moves _ refl) (raise-Moves _)

  module _ (d : Descriptor) (role : InstanceRole) where
    run_process-Moves : HeldMoves monitored (run_process w d role) monitored monitored
    unfolding run_process
    run_process-Moves =
        bind-Moves
          (open_process_lease-Leaves next_held [] w monitored (setup_calm refl refl) d role)
          λ lease.
            then-Moves
              (if_fails-Moves (call-Moves w (opens listener) refl refl)
                (λ es. call-Moves w _ refl refl))
              (afterwards-Moves
                (serve_process-Keeps next_held [] w (listener ∷ monitored) serving_calm d role
                  lease)
                (call-Moves w (closes listener) refl refl)
                (λ es. call-Moves w (closes listener) refl refl))

    run_and_state-Moves : HeldMoves monitored (run_and_state w d role) monitored monitored
    unfolding run_and_state
    run_and_state-Moves =
        afterwards-Moves run_process-Moves (call-Moves w _ refl refl)
          (λ es. call-Moves w _ refl refl)

    run_monitored-Moves : HeldMoves base_held (run_monitored w d role) base_held base_held
    unfolding run_monitored
    run_monitored-Moves =
        then-Moves (if_fails-Moves (start_service_health-Moves d) (λ es. call-Moves w _ refl refl))
          (afterwards-Moves run_and_state-Moves stop_service_health-Moves
            (λ es. stop_service_health-Moves))

    run_connected-Moves : HeldMoves brokered (run_connected w d role) brokered brokered
    unfolding run_connected
    run_connected-Moves =
        then-Moves
          (if_fails-Moves (call-Moves w (opens fabric_client) refl refl)
            (λ es. call-Moves w _ refl refl))
          (afterwards-Moves (then-Moves (call-Moves w _ refl refl) run_monitored-Moves)
            (quietly-Moves (closes fabric_client) refl)
            (λ es. quietly-Moves (closes fabric_client) refl))

    run_brokered-Moves : HeldMoves stored (run_brokered w d role) stored stored
    unfolding run_brokered
    run_brokered-Moves =
        then-Moves
          (if_fails-Moves (call-Moves w (opens broker) refl refl) (λ es. call-Moves w _ refl refl))
          (afterwards-Moves run_connected-Moves (quietly-Moves (closes broker) refl)
            (λ es. quietly-Moves (closes broker) refl))

    state_start-Moves : (s : State) → HeldMoves stored (state_start w d role s) stored stored
    unfolding state_start advanced_fact
    state_start-Moves s =
        reading-Moves λ r. then-Moves (call-Moves w _ refl refl) (call-Moves w (_) refl refl)

    open_state-Moves : (path : String) → HeldMoves stored (open_state w path) stored stored
    unfolding open_state
    open_state-Moves path = reading-Moves λ r. store_opened-Moves _

    run_stated-Moves : HeldMoves stored (run_stated w d role) stored stored
    unfolding run_stated
    run_stated-Moves =
        bind-Moves
          (then-Moves (open_state-Moves _)
            (advance_or_state-Leaves next_held [] w stored (setup_calm refl refl) start_reason))
          (λ s. then-Moves (state_start-Moves s) run_brokered-Moves)

    run_logged-Moves : HeldMoves logged (run_logged w d role) logged logged
    unfolding run_logged
    run_logged-Moves =
        then-Moves (then-Moves (call-Moves w makes_factory refl refl) open_publisher-Moves)
          (afterwards-Moves run_stated-Moves close_backends-Moves (λ es. close_backends-Moves))

    run_instance-Moves : HeldMoves [] (run_instance w d role) [] []
    unfolding run_instance
    run_instance-Moves = then-Moves (call-Moves w (opens application_log) refl refl) (
        afterwards-Moves
          (afterwards-Moves run_logged-Moves (quietly-Moves _ refl) (λ es. quietly-Moves _ refl))
          (call-Moves w (closes application_log) refl refl)
          (λ es. call-Moves w (closes application_log) refl refl))

  run_configured-Moves :
      (name : String) (d : Descriptor) (c : Composed InstanceRole)
      → HeldMoves [] (run_configured w name d c) [] []
  run_configured-Moves name d (fails e) = raise-Moves _
  run_configured-Moves name d (ok role) = run_instance-Moves d role

  run-Moves :
      (flag : Option String) (config : Option Descriptor) → HeldMoves [] (run w flag config) [] []
  unfolding run
  run-Moves none config = raise-Moves _
  run-Moves (some name) none = raise-Moves _
  run-Moves (some name) (some d) = run_configured-Moves name d (resolve_role name (has_standby d))

-- What is open when `Run` has returned, or while it still runs.
abbrev pub IsReleased : Result (Unit {0}) × Running → Type 0
IsReleased (running, r) = held_after r.trace ≢ none
IsReleased (done u, r) = held_after r.trace ≡ some []
IsReleased (err es, r) = held_after r.trace ≡ some []

Ends-IsReleased :
    (x : Result (Unit {0}) × Running)
    → Ends next_held [] (Always (At next_held [] [])) (At next_held [] []) x
    → IsReleased x
Ends-IsReleased (done u, r) (s, e, h) = e ∙ ap some h
Ends-IsReleased (err es, r) (s, e, h) = e ∙ ap some h
Ends-IsReleased (running, r) h = h

-- Whatever fails, a process closes everything that it opened, once and in the reverse of the order of
-- opening: the health parts before the event fabric's client, that before the broker, the two event
-- stores after every fact and the application log last. It states no fact and serves nothing where the
-- stores or the listener are not open. At its return nothing is open; a process that still runs has
-- done nothing out of this order.
pub run-IsReleased :
    (w : World) (flag : Option String) (config : Option Descriptor) (file : File)
    → IsReleased (run w flag config (launched file))
run-IsReleased w flag config file =
    Ends-IsReleased _ ((run-Moves w flag config).triple.runs (launched file) ([], refl, refl))
