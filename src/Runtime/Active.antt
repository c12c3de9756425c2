-- ===== src/Runtime/Active.antt =====
-- platform/internal/app/runtime.go: an instance's record and role, its epoch, and what it does while
-- Passive and while Active.
use opdl.Base.{
  String, Bool, true, false, not, ◌&&◌, List, [], ◌∷◌, ◌++◌, Option, none, some, ◌==◌, string_eq,
  if◌then◌else◌,
}
use opdl.Redundancy.Role.{InstanceRole, role_standby, parse_role}
use opdl.Deployment.Types.{Descriptor, Instance}
use opdl.App.Setup.{Composed, ok, fails}
use opdl.App.Facts.{
  Fact, epoch_advanced, epoch_advance_failed, api_active, api_stopped, standby_waiting,
}
use opdl.InstanceState.Store.{
  Reason, activated, State, advance, Result as StateResult, ok as recorded, err as not_recorded,
}
use opdl.Runtime.Io.{
  RunError, bad_state, advances, serves, selects, drains, passive_surface, active_surface, Result,
  ok as done, err, noted, World, Io, pure, raise, ◌>>=◌, ◌>>◌, afterwards, if_fails, settled,
  quietly, reading, call, publish,
}

-- `Instance{}`.
abbrev pub no_instance : Instance
no_instance = record {
  service = none;
  events_file = "";
  state_file = "";
  log_file = "";
  api_address = "";
  api_read_header_timeout = "";
  api_shutdown_timeout = "";
  nats = record { server_name = ""; cluster_name = ""; cluster_address = ""; routes = [] };
}

abbrev pub or_no_instance : Option Instance → Instance
or_no_instance none = no_instance
or_no_instance (some i) = i

-- `Descriptor.Instance`, of the role of a standby flag.
unfoldable pub instance_for : Descriptor → (standby : Bool) → Instance
instance_for d standby = if standby then or_no_instance d.standby else d.primary

-- `instanceOf` and `peerOf`.
unfoldable pub instance_of : Descriptor → InstanceRole → Instance
unfolding instance_for
instance_of d role = instance_for d (role == role_standby)

unfoldable pub peer_of : Descriptor → InstanceRole → Instance
unfolding instance_for
peer_of d role = instance_for d (not (role == role_standby))

abbrev accepted_role : (has_standby : Bool) → Option InstanceRole → Composed InstanceRole
accepted_role has_standby none = fails "invalid instance role"
accepted_role has_standby (some role) =
    if not has_standby && (role == role_standby)
    then fails "this machine does not run a warm standby"
    else ok role

-- `resolveRole`.
unfoldable pub resolve_role :
    (instance_name : String) → (has_standby : Bool) → Composed InstanceRole
unfolding parse_role
resolve_role instance_name has_standby =
    if instance_name == ""
    then fails "-instance primary|standby is required"
    else accepted_role has_standby (parse_role instance_name)

abbrev pub state_result : StateResult State → Result State
state_result (recorded s) = done s
state_result (not_recorded e) = err (bad_state e ∷ [])

abbrev pub is_recorded : StateResult State → Bool
is_recorded (recorded s) = true
is_recorded (not_recorded e) = false

-- `epochAdvanced`.
unfoldable pub advanced_fact : (state_file : String) → Reason → State → Fact
advanced_fact file reason s =
    epoch_advanced file s.epoch reason s.process_epoch.count s.activation_epoch.count

-- The text of an error, empty for nil.
abbrev pub text_of : World → List RunError → String
text_of w [] = ""
text_of w (e ∷ es) = w.text (e ∷ es)

abbrev pub raise_any : List RunError → Io (Unit {0})
raise_any [] = pure tt
raise_any (e ∷ es) = raise (e ∷ es)

module _ (w : World) where
  -- `Store.Advance`.
  unfoldable pub advance_state : Reason → Io State
  unfolding advance
  advance_state reason r =
      let (s, f, result) =
        advance reason (w.clock r.trace) (not (w.fails r.trace (advances reason))) r.store r.file in
      (
        state_result result,
        noted (advances reason) (is_recorded result) (record r { store = s; file = f }),
      )

  -- An advance, and the statement of it if it fails.
  unfoldable pub advance_or_state : Reason → Io State
  unfolding advance_state
  advance_or_state reason = reading λ r.
      if_fails (advance_state reason)
        (λ es. publish w (epoch_advance_failed r.store.path reason (text_of w es)))

  -- `advanceEpoch`.
  unfoldable pub advance_epoch : Reason → Io (Unit {0})
  unfolding advance_or_state
  advance_epoch reason =
      reading λ r. advance_or_state reason >>= λ s. publish w (advanced_fact r.store.path reason s)

  -- `runPassive` up to its wait for the context.
  unfoldable pub run_passive : Io (Unit {0})
  run_passive = publish w standby_waiting

  -- `runActive` up to its wait: what it has of an error by then. An error here is one that it returns at
  -- once.
  unfoldable pub activate_surface : (address : String) → Io (List RunError)
  unfolding advance_epoch
  activate_surface address =
      advance_epoch activated
      >> quietly (serves active_surface)
      >> settled (publish w (api_active address "active"))

  abbrev pub wait_unless : List RunError → Io (List RunError)
  wait_unless [] = settled (call w selects)
  wait_unless (e ∷ es) = pure (e ∷ es)

  -- `runActive` from its wait on.
  unfoldable pub leave_surface : List RunError → Io (Unit {0})
  leave_surface es = wait_unless es >>= λ serve_errs.
      quietly (serves passive_surface) >> settled (call w drains) >>= λ drain_errs.
      afterwards (raise_any (serve_errs ++ drain_errs))
        (λ fs. publish w (api_stopped (text_of w fs)))
