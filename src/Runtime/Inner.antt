-- ===== src/Runtime/Inner.antt =====
-- The ownership machine of a running process, for a monitor whose stage it leaves alone: what
-- `runProcess` does while it holds its listener (platform/internal/app/runtime.go).
use opdl.Base.{◌≡◌, refl, String, Bool, true, false, List, [], ◌∷◌, ◌++◌, map, Option, some, arith}
use opdl.Redundancy.Role.{InstanceRole}
use opdl.Redundancy.Lease.{Lease, OpenResult, opened, open_failed}
use opdl.Redundancy.Turns.{
  Action, stated, acquires, releases, enters_passive, leaves_passive, enters_active, leaves_active,
}
use opdl.Redundancy.Lifecycle.{TurnEnd, goes_on, returns, waiting, manage_ownership}
use opdl.Deployment.Types.{Descriptor}
use opdl.InstanceState.Store.{Reason, activated}
use opdl.App.Setup.{Composed, ok, fails, lease_config_of}
use opdl.App.Facts.{
  Fact, process_started, process_stopped, event_fabric_started, event_fabric_start_failed,
  service_health_start_failed,
}
use opdl.Runtime.Io.{
  Call, advances, has_lease, states, owns, serves, selects, drains, Done, RunError,
  ownership_failed, World, Io, pure, ◌>>◌, quietly, call,
}
use opdl.Runtime.Active.{
  advance_or_state, advance_epoch, advanced_fact, run_passive, activate_surface, leave_surface,
  wait_unless, raise_any,
}
use opdl.Runtime.Owned.{
  Activation, inactive, serving_with, oldest_first, ended, follow, follow_all, newborn, own_machine,
  lease_opened_as, lease_setup, open_process_lease, serve_process,
}
use opdl.Runtime.Stages.{
  Moves, call-Moves, quietly-Moves, pure-Moves, raise-Moves, bind-Moves, then-Moves,
  afterwards-Moves, if_fails-Moves, settled-Moves, or_else-Moves, reading-Moves,
  still_running-Moves, advance_state-Moves,
}

-- The facts that a process states once its parts are up and before it ends.
abbrev pub is_inner_fact : Fact → Bool
is_inner_fact (process_started e m s n b) = false
is_inner_fact (process_stopped e) = false
is_inner_fact (event_fabric_started s c a r) = false
is_inner_fact (event_fabric_start_failed s c a e) = false
is_inner_fact (service_health_start_failed e) = false
is_inner_fact _ = true

abbrev pub is_inner : Call → Bool
is_inner (advances r) = true
is_inner (has_lease b) = true
is_inner (states f) = is_inner_fact f
is_inner (owns a) = true
is_inner (serves s) = true
is_inner selects = true
is_inner drains = true
is_inner _ = false

-- Those of them that need no listener.
abbrev pub is_setup : Call → Bool
is_setup (advances r) = true
is_setup (has_lease b) = true
is_setup (states f) = is_inner_fact f
is_setup _ = false

setup_is_inner : (c : Call) → is_setup c ≡ true → is_inner c ≡ true
setup_is_inner (advances r) h = refl
setup_is_inner (has_lease b) h = refl
setup_is_inner (states f) h = h
setup_is_inner c h = ground arith

module _ {S : Type 0} (next : Done → S → Option S) (start : S) (w : World) (stage : S)
    (calm : (c : Call) (b : Bool) → is_setup c ≡ true → next (c, b) stage ≡ some stage) where
  abbrev Leaves : {A : Type 0} → Io A → Type 0
  Leaves m = Moves next start stage m stage stage

  stating : (f : Fact) → is_inner_fact f ≡ true → Leaves (call w (states f))
  stating f h = call-Moves w (states f) (calm (states f) true h) (calm (states f) false h)

  pub advance_or_state-Leaves : (reason : Reason) → Leaves (advance_or_state w reason)
  unfolding advance_or_state
  advance_or_state-Leaves reason = reading-Moves λ r.
      if_fails-Moves
        (advance_state-Moves w reason (calm (advances reason) true refl)
          (calm (advances reason) false refl))
        (λ es. stating _ refl)

  lease_opened_as-Leaves : (o : OpenResult) → Leaves (lease_opened_as o)
  lease_opened_as-Leaves (opened lease) =
      then-Moves (quietly-Moves _ (calm (has_lease _) true refl)) (pure-Moves lease)
  lease_opened_as-Leaves (open_failed e) = raise-Moves _

  lease_setup-Leaves :
      (d : Descriptor) (role : InstanceRole) (c : Composed _) → Leaves (lease_setup w d role c)
  lease_setup-Leaves d role (fails e) = raise-Moves _
  lease_setup-Leaves d role (ok cfg) = reading-Moves λ r. lease_opened_as-Leaves _

  pub open_process_lease-Leaves :
      (d : Descriptor) (role : InstanceRole) → Leaves (open_process_lease w d role)
  unfolding open_process_lease
  open_process_lease-Leaves d role =
      if_fails-Moves (lease_setup-Leaves d role (lease_config_of w.parsers d))
        (λ es. stating _ refl)

module _ {S : Type 0} (next : Done → S → Option S) (start : S) (w : World) (stage : S)
    (calm : (c : Call) (b : Bool) → is_inner c ≡ true → next (c, b) stage ≡ some stage) where
  abbrev Keeps : {A : Type 0} → Io A → Type 0
  Keeps m = Moves next start stage m stage stage

  abbrev quiet : (c : Call) → is_inner c ≡ true → Keeps (quietly c)
  quiet c h = quietly-Moves c (calm c true h)

  calls : (c : Call) → is_inner c ≡ true → Keeps (call w c)
  calls c h = call-Moves w c (calm c true h) (calm c false h)

  activate_surface-Keeps : (address : String) → Keeps (activate_surface w address)
  unfolding activate_surface advance_epoch advanced_fact
  activate_surface-Keeps address =
      then-Moves
        (then-Moves
          (reading-Moves λ r.
            bind-Moves
              (advance_or_state-Leaves next start w stage (λ c b h. calm c b (setup_is_inner c h))
                activated)
              (λ s. calls _ refl))
          (quiet _ refl))
        (settled-Moves (calls _ refl))

  raise_any-Keeps : (es : List RunError) → Keeps (raise_any es)
  raise_any-Keeps [] = pure-Moves tt
  raise_any-Keeps (e ∷ es) = raise-Moves (e ∷ es)

  wait_unless-Keeps : (es : List RunError) → Keeps (wait_unless w es)
  wait_unless-Keeps [] = settled-Moves (calls _ refl)
  wait_unless-Keeps (e ∷ es) = pure-Moves (e ∷ es)

  leave_surface-Keeps : (es : List RunError) → Keeps (leave_surface w es)
  unfolding leave_surface
  leave_surface-Keeps es = bind-Moves (wait_unless-Keeps es) λ serve_errs.
      bind-Moves (then-Moves (quiet _ refl) (settled-Moves (calls _ refl))) λ drain_errs.
        afterwards-Moves (raise_any-Keeps (serve_errs ++ drain_errs)) (calls _ refl)
          (λ fs. calls _ refl)

  run_passive-Keeps : Keeps (run_passive w)
  unfolding run_passive
  run_passive-Keeps = calls _ refl

  note-Keeps : (c : Action) (a : Activation) → Keeps (quietly (owns c) >> pure a)
  note-Keeps c a = then-Moves (quiet _ refl) (pure-Moves a)

  follow-Keeps : (address : String) (x : Action) (a : Activation) → Keeps (follow w address x a)
  unfolding follow
  follow-Keeps address enters_passive a =
      then-Moves (then-Moves (quiet _ refl) (settled-Moves run_passive-Keeps)) (pure-Moves a)
  follow-Keeps address (enters_active k) a = then-Moves (quiet _ refl) (
      or_else-Moves inactive
        (bind-Moves (activate_surface-Keeps address) (λ es. pure-Moves (serving_with es))))
  follow-Keeps address leaves_active inactive = note-Keeps _ inactive
  follow-Keeps address leaves_active (serving_with es) =
      then-Moves (then-Moves (settled-Moves (leave_surface-Keeps es)) (quiet _ refl))
        (pure-Moves inactive)
  follow-Keeps address (stated s) a = note-Keeps _ a
  follow-Keeps address acquires a = note-Keeps _ a
  follow-Keeps address releases a = note-Keeps _ a
  follow-Keeps address leaves_passive a = note-Keeps _ a

  follow_all-Keeps :
      (address : String) (xs : List Action) (a : Activation) → Keeps (follow_all w address xs a)
  unfolding follow_all
  follow_all-Keeps address [] a = pure-Moves tt
  follow_all-Keeps address (x ∷ xs) a =
      bind-Moves (follow-Keeps address x a) (follow_all-Keeps address xs)

  ended-Keeps : (e : TurnEnd) → Keeps (ended e)
  ended-Keeps (returns []) = pure-Moves tt
  ended-Keeps (returns (e ∷ es)) = raise-Moves (ownership_failed e ∷ map ownership_failed es)
  ended-Keeps goes_on = still_running-Moves
  ended-Keeps waiting = still_running-Moves

  own_machine-Keeps :
      (address : String) (has_peer : Bool) (lease : Option Lease)
      → Keeps (own_machine w address has_peer lease)
  unfolding own_machine
  own_machine-Keeps address has_peer lease =
      let run = manage_ownership true has_peer w.alone w.turns (newborn w address lease) in
      then-Moves (follow_all-Keeps address (oldest_first run.1.trace []) inactive)
        (ended-Keeps run.0)

  pub serve_process-Keeps :
      (d : Descriptor) (role : InstanceRole) (lease : Option Lease)
      → Keeps (serve_process w d role lease)
  unfolding serve_process
  serve_process-Keeps d role lease = then-Moves (calls _ refl) (own_machine-Keeps _ _ lease)
