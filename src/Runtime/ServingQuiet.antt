-- ===== src/Runtime/ServingQuiet.antt =====
-- What leaves a process's listener and its ownership as they are (platform/internal/app/app.go).
use opdl.Base.{◌≡◌, refl, String, Bool, true, false, List, [], some}
use opdl.Redundancy.Role.{InstanceRole}
use opdl.HealthView.View.{NewResult, built, not_built}
use opdl.Deployment.Types.{Descriptor}
use opdl.App.Setup.{Composed, ok, fails, health_targets, health_inventory}
use opdl.App.Facts.{Fact}
use opdl.InstanceState.Store.{
  State, process_started as start_reason, Store, Result as StateResult, ok as recorded,
  err as not_recorded,
}
use opdl.Runtime.Io.{
  Resource, health_conn, subscription, health_publisher, monitor, opens, states, World, Io, ◌>>◌,
  afterwards, if_fails, call, RunError, Running,
}
use opdl.Runtime.Rules.{
  Ends, Triple, Always, stage_of, then-Triple, afterwards-Triple, weaken-Triple,
}
use opdl.Runtime.Stages.{
  At, Moves, call-Moves, quietly-Moves, failing-Moves, pure-Moves, raise-Moves, bind-Moves,
  then-Moves, afterwards-Moves, if_fails-Moves, keeping-Moves, reading-Moves, advance_state-Moves,
}
use opdl.Runtime.Active.{advanced_fact, advance_or_state}
use opdl.Runtime.Health.{
  start_parts, start_service_health, stop_service_health, of_composed, of_view,
}
use opdl.Runtime.Launch.{store_opened, open_state, close_backends, open_publisher, state_start}
use opdl.Runtime.Serving.{Station, first_station, next_station}
use opdl.Runtime.ServingActive.{Any}

-- From a process that has not served to any orderly stage.
abbrev pub Goes : {A : Type 0} → Io A → Type 0
Goes m =
    Triple next_station first_station (At next_station first_station first_station) m (Always Any)
      Any

-- What leaves the listener and the ownership as they are.
abbrev pub Quiet : {A : Type 0} → Io A → Type 0
Quiet m = (s : Station) → Moves next_station first_station s m s s

module _ {A : Type 0} {m : Io A} where
  pub starts :
      Quiet m
      → Triple next_station first_station
          (At next_station first_station first_station)
          m
          (Always (At next_station first_station first_station))
          Any
  starts quiet =
      weaken-Triple next_station first_station (λ s h. h) (λ a s h. h) (λ s h. tt)
        (quiet first_station).triple

  pub rests : Quiet m → Triple next_station first_station Any m (Always Any) Any
  rests quiet = record { runs = λ r (s, e, u). runs_at r s e }
    where
      runs_at :
          (r : Running) (s : Station)
          → stage_of next_station first_station r.trace ≡ some s
          → Ends next_station first_station (Always Any) Any (m r)
      runs_at r s e =
          (weaken-Triple next_station first_station {P' = At next_station first_station s}
              (λ t h. h) (λ a t h. tt) (λ t h. tt) (quiet s).triple).runs
            r (s, e, refl)

-- A quiet call and then the rest.
pub then-Goes : {A : Type 0} {m : Io (Unit {0})} {k : Io A} → Quiet m → Goes k → Goes (m >> k)
then-Goes quiet goes = then-Triple next_station first_station (starts quiet) goes

-- Quiet deferred calls.
pub Goes-afterwards :
    {A : Type 0} {m : Io A} {k : List RunError → Io (Unit {0})}
    → Goes m
    → ((es : List RunError) → Quiet (k es))
    → Goes (afterwards m k)
Goes-afterwards goes quiet =
    afterwards-Triple next_station first_station goes (λ a. rests (quiet []))
      (λ es. rests (quiet es))

of_view-Quiet : (v : NewResult) → Quiet (of_view v)
of_view-Quiet (built v) s = pure-Moves v
of_view-Quiet (not_built e) s = raise-Moves _

of_composed-Quiet : {A : Type 0} (c : Composed A) → Quiet (of_composed c)
of_composed-Quiet (ok a) s = pure-Moves a
of_composed-Quiet (fails e) s = raise-Moves _

pub stop_service_health-Quiet : Quiet stop_service_health
unfolding stop_service_health
stop_service_health-Quiet s = then-Moves (quietly-Moves _ refl) (
    then-Moves (quietly-Moves _ refl)
      (then-Moves (quietly-Moves _ refl) (then-Moves (quietly-Moves _ refl) (pure-Moves tt))))

module _ (w : World) where
  pub start_service_health-Quiet : (d : Descriptor) → Quiet (start_service_health w d)
  unfolding start_service_health start_parts
  start_service_health-Quiet d s =
      bind-Moves
        (then-Moves (of_composed-Quiet (health_targets w.parsers d) s)
          (of_composed-Quiet (health_inventory w.parsers d) s))
        (λ units. then-Moves (of_view-Quiet _ s) (
          keeping-Moves w health_conn refl refl
            (keeping-Moves w subscription refl refl
              (keeping-Moves w health_publisher refl refl (call-Moves w (opens monitor) refl refl)
                refl)
              refl)
            refl))

  pub close_backends-Quiet : Quiet (close_backends w)
  unfolding close_backends
  close_backends-Quiet s =
      afterwards-Moves (call-Moves w _ refl refl) (call-Moves w _ refl refl)
        (λ es. call-Moves w _ refl refl)

  pub open_publisher-Quiet : Quiet (open_publisher w)
  unfolding open_publisher
  open_publisher-Quiet s =
      then-Moves
        (then-Moves (call-Moves w _ refl refl)
          (if_fails-Moves (call-Moves w _ refl refl) (λ es. call-Moves w _ refl refl)))
        (if_fails-Moves (call-Moves w _ refl refl) (λ es. close_backends-Quiet s))

  store_opened-Quiet : (o : StateResult Store) → Quiet (store_opened o)
  store_opened-Quiet (recorded t) s =
      then-Moves (quietly-Moves _ refl) (record { triple = record { runs = λ r h. h } })
  store_opened-Quiet (not_recorded e) s =
      then-Moves {after = s} (failing-Moves _ refl) (raise-Moves _)

  pub open_state-Quiet : (path : String) → Quiet (open_state w path)
  unfolding open_state
  open_state-Quiet path s = reading-Moves λ r. store_opened-Quiet _ s

  pub advance_or_state-Quiet : Quiet (advance_or_state w start_reason)
  unfolding advance_or_state
  advance_or_state-Quiet s = reading-Moves λ r.
      if_fails-Moves (advance_state-Moves w start_reason refl refl) (λ es. call-Moves w _ refl refl)

  pub state_start-Quiet :
      (d : Descriptor) (role : InstanceRole) (t : State) → Quiet (state_start w d role t)
  unfolding state_start advanced_fact
  state_start-Quiet d role t s =
      reading-Moves λ r. then-Moves (call-Moves w _ refl refl) (call-Moves w _ refl refl)

  -- A call whose failure is stated.
  pub stated-Quiet :
      {m : Io (Unit {0})} (f : List RunError → Fact)
      → Quiet m
      → ((s : Station) (b : Bool) (es : List RunError) → next_station (states (f es), b) s ≡ some s)
      → Quiet (if_fails m (λ es. call w (states (f es))))
  stated-Quiet f quiet told s =
      if_fails-Moves (quiet s)
        (λ es. call-Moves w (states (f es)) (told s true es) (told s false es))

  pub opening : (x : Resource) → Quiet (call w (opens x))
  opening x s = call-Moves w (opens x) refl refl
