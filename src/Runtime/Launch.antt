-- ===== src/Runtime/Launch.antt =====
-- `Run` of platform/internal/app/app.go: a process from its launch to its end, the deferred calls run in
-- the reverse of their order.
use opdl.Base.{String, Bool, true, false, not, List, [], ◌∷◌, Option, none, some}
use opdl.Redundancy.Role.{InstanceRole}
use opdl.Deployment.Types.{Descriptor, has_standby}
use opdl.App.Setup.{Composed, ok, fails}
use opdl.App.Facts.{
  Fact, process_started, process_stopped, event_fabric_started, event_fabric_start_failed,
  service_health_start_failed,
}
use opdl.InstanceState.Store.{
  process_started as start_reason, State, File, zero_state, open_store, Store,
  Result as StateResult, ok as recorded, err as not_recorded,
}
use opdl.Runtime.Io.{
  RunError, bad_setup, bad_state, makes_factory, makes_publisher, makes_state_dir, reads_state,
  opens, closes, logs_end, application_log, event_record, machine_store, broker, fabric_client,
  ok as done, Running, World, Io, raise, ◌>>=◌, ◌>>◌, afterwards, if_fails, quietly, failing,
  reading, call, publish, holding,
}
use opdl.Runtime.Active.{instance_of, resolve_role, text_of, advance_or_state, advanced_fact}
use opdl.Runtime.Health.{start_service_health, stop_service_health}
use opdl.Runtime.Owned.{run_process}

abbrev is_any : List RunError → Bool
is_any [] = false
is_any (e ∷ es) = true

abbrev pub keep_store : Store → Io (Unit {0})
keep_store s r = (done tt, record r { store = s })

abbrev pub store_opened : StateResult Store → Io (Unit {0})
store_opened (recorded s) = quietly reads_state >> keep_store s
store_opened (not_recorded e) = failing reads_state >> raise (bad_state e ∷ [])

module _ (w : World) where
  -- `state.Open`.
  unfoldable pub open_state : (path : String) → Io (Unit {0})
  open_state path = reading λ r. store_opened (
      open_store path (not (w.fails r.trace makes_state_dir)) (not (w.fails r.trace reads_state))
        r.file)

  -- `Close` of the process's publisher, which closes its backends in the reverse of their order.
  unfoldable pub close_backends : Io (Unit {0})
  close_backends = afterwards (call w (closes machine_store)) (λ _. call w (closes event_record))

  -- The event record, the machine's store and their publisher; where one fails, those before it are
  -- closed.
  unfoldable pub open_publisher : Io (Unit {0})
  unfolding close_backends
  open_publisher =
      call w (opens event_record)
      >> if_fails (call w (opens machine_store)) (λ _. call w (closes event_record))
      >> if_fails (call w makes_publisher) (λ _. close_backends)

  module _ (d : Descriptor) (role : InstanceRole) where
    -- The run of a process all of whose parts are up, and the closing fact.
    unfoldable pub run_and_state : Io (Unit {0})
    unfolding run_process
    run_and_state =
        afterwards (run_process w d role) (λ es. publish w (process_stopped (text_of w es)))

    -- Monitoring, from its start to its stop.
    unfoldable pub run_monitored : Io (Unit {0})
    unfolding start_service_health stop_service_health run_and_state
    run_monitored =
        if_fails (start_service_health w d)
          (λ es. publish w (service_health_start_failed (text_of w es)))
        >> afterwards run_and_state (λ _. stop_service_health)

    abbrev fabric_failed : List RunError → Fact
    fabric_failed es =
        let nats = (instance_of d role).nats in
        event_fabric_start_failed nats.server_name nats.cluster_name nats.cluster_address
          (text_of w es)

    abbrev fabric_fact : Fact
    fabric_fact =
        let nats = (instance_of d role).nats in
        event_fabric_started nats.server_name nats.cluster_name nats.cluster_address nats.routes

    -- The client of the broker, and what runs while it is open.
    unfoldable pub run_connected : Io (Unit {0})
    unfolding run_monitored
    run_connected =
        if_fails (call w (opens fabric_client)) (λ es. publish w (fabric_failed es))
        >> afterwards (publish w fabric_fact >> run_monitored) (λ _. quietly (closes fabric_client))

    -- The broker, and what runs while it is up.
    unfoldable pub run_brokered : Io (Unit {0})
    unfolding run_connected
    run_brokered =
        if_fails (call w (opens broker)) (λ es. publish w (fabric_failed es))
        >> afterwards run_connected (λ _. quietly (closes broker))

    abbrev started_fact : Store → State → Fact
    started_fact s incarnation =
        process_started (instance_of d role).events_file d.machine_events_file s.path
          incarnation.epoch (has_standby d)

    -- The two opening facts.
    unfoldable pub state_start : State → Io (Unit {0})
    state_start incarnation = reading λ r.
        publish w (started_fact r.store incarnation)
        >> publish w (advanced_fact r.store.path start_reason incarnation)

    -- What `Run` does while its publisher is open.
    unfoldable pub run_stated : Io (Unit {0})
    unfolding open_state advance_or_state state_start run_brokered
    run_stated =
        open_state (instance_of d role).state_file
        >> advance_or_state w start_reason
        >>= λ incarnation. state_start incarnation >> run_brokered

    -- What `Run` does while its application log is open.
    unfoldable pub run_logged : Io (Unit {0})
    unfolding open_publisher close_backends run_stated
    run_logged =
        call w makes_factory >> open_publisher >> afterwards run_stated (λ _. close_backends)

    unfoldable pub run_instance : Io (Unit {0})
    unfolding run_logged
    run_instance =
        holding w application_log (afterwards run_logged (λ es. quietly (logs_end (is_any es))))

  abbrev pub run_configured :
      (instance_name : String) → Descriptor → Composed InstanceRole → Io (Unit {0})
  run_configured name d (fails e) = raise (bad_setup e ∷ [])
  run_configured name d (ok role) = run_instance d role

  -- `Run`: the parsed flag and the loaded configuration, each `none` if that failed.
  unfoldable pub run : (flag : Option String) → (config : Option Descriptor) → Io (Unit {0})
  unfolding run_instance
  run none config = raise (bad_setup "flags" ∷ [])
  run (some name) none = raise (bad_setup "configuration" ∷ [])
  run (some name) (some d) = run_configured name d (resolve_role name (has_standby d))

-- A process that has done nothing, on the state file it finds.
abbrev pub launched : File → Running
launched f = record { trace = []; store = record { path = ""; state = zero_state }; file = f }
