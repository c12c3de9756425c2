-- ===== src/Runtime/ServingActive.antt =====
-- The stages of the listener while an instance becomes Active and stops being it
-- (platform/internal/app/runtime.go).
use opdl.Base.{◌⊎◌, inl, inr, ◌≡◌, refl, Bool, true, false, List, [], ◌∷◌, ◌++◌, string_eq, String}
use opdl.Redundancy.Turns.{Action}
use opdl.Redundancy.Phases.{Phase, active}
use opdl.InstanceState.Store.{activated, State}
use opdl.Runtime.Io.{
  passive_surface, active_surface, states, owns, serves, selects, drains, RunError, World, Io, pure,
  ◌>>=◌, ◌>>◌, quietly, or_else, call, settled,
}
use opdl.App.Facts.{api_stopped}
use opdl.Runtime.Active.{
  advance_or_state, advance_epoch, advanced_fact, activate_surface, leave_surface, wait_unless,
  raise_any,
}
use opdl.Runtime.Owned.{Activation, inactive, serving_with, activated_as}
use opdl.Runtime.Rules.{
  Triple, Steps, Always, quietly-Triple, bind-Triple, then-Triple, or_else-Triple, reading-Triple,
  pure-Triple, raise-Triple, call-Triple, afterwards-Triple, settled-Triple, weaken-Triple,
}
use opdl.Runtime.Stages.{
  Moves, call-Moves, quietly-Moves, pure-Moves, if_fails-Moves, settled-Moves, reading-Moves,
  advance_state-Moves,
}
use opdl.Runtime.Serving.{
  Serving, at_rest, renewed, exposed, undrained, overdue, Station, first_station, next_station,
}

abbrev pub Serves : {A : Type 0} → Serving → Io A → Serving → Serving → Type 0
Serves a m b c =
    Moves next_station first_station (record { phase = active; serving = a }) m
      (record { phase = active; serving = b }) (record { phase = active; serving = c })

abbrev pub Any : Station → Type 0
Any s = Unit {0}

abbrev pub is_resting : Serving → Bool
is_resting at_rest = true
is_resting renewed = true
is_resting _ = false

-- What the listener answers with while an activation stands so.
abbrev pub Fits : Phase → Activation → Station → Type 0
Fits p inactive s = (s.phase ≡ p) × (is_resting s.serving ≡ true)
Fits p (serving_with es) s = (s.phase ≡ p) × (p ≡ active) × (s.serving ≡ exposed)

module _ (w : World) where
  wait_unless-Serves : (es : List RunError) → Serves exposed (wait_unless w es) exposed at_rest
  wait_unless-Serves [] = settled-Moves (call-Moves w selects refl refl)
  wait_unless-Serves (e ∷ es) = pure-Moves (e ∷ es)

  abbrev pub station : Serving → Station
  station v = record { phase = active; serving = v }

  abbrev pub AtStation : Serving → Station → Type 0
  AtStation v s = s ≡ station v

  -- After a drain, which may have timed out.
  abbrev Waited : Station → Type 0
  Waited s = AtStation at_rest s ⊎ AtStation overdue s

  raise_any-Waited :
      (es : List RunError)
      → Triple next_station first_station Waited (raise_any es) (Always Waited) Waited
  raise_any-Waited [] = pure-Triple next_station first_station Waited Waited tt
  raise_any-Waited (e ∷ es) =
      raise-Triple next_station first_station Waited (Always Waited) (e ∷ es)

  stated_end :
      (failure : String) (b : Bool)
      → Steps next_station first_station Waited
          (states (api_stopped failure), b)
          (AtStation at_rest)
  stated_end failure b s (inl e) = (station at_rest, rw e refl, refl)
  stated_end failure b s (inr e) = (station at_rest, rw e refl, refl)

  states-Waited :
      (failure : String)
      → Triple next_station first_station Waited
          (call w (states (api_stopped failure)))
          (Always (AtStation at_rest))
          (AtStation at_rest)
  states-Waited failure =
      call-Triple next_station first_station w (states (api_stopped failure))
        (stated_end failure true) (stated_end failure false)

  drains-Waited :
      Triple next_station first_station
        (AtStation exposed)
        (quietly (serves passive_surface) >> settled (call w drains))
        (Always Waited)
        (AtStation at_rest)
  drains-Waited =
      then-Triple next_station first_station {Q = AtStation undrained}
        (quietly-Triple next_station first_station (AtStation at_rest) (serves passive_surface)
          (λ s e. (station undrained, rw e refl, refl)))
        (settled-Triple next_station first_station {Q = Waited} (
          call-Triple next_station first_station w drains
            (λ s e. (station at_rest, rw e refl, inl refl))
            (λ s e. (station overdue, rw e refl, inr refl))))

  pub leave_surface-Serves :
      (es : List RunError)
      → Triple next_station first_station
          (AtStation exposed)
          (leave_surface w es)
          (Always (AtStation at_rest))
          (AtStation at_rest)
  unfolding leave_surface
  leave_surface-Serves es =
      bind-Triple next_station first_station (wait_unless-Serves es).triple λ serve_errs.
        bind-Triple next_station first_station drains-Waited λ drain_errs.
          afterwards-Triple next_station first_station (raise_any-Waited (serve_errs ++ drain_errs))
            (λ a. states-Waited _) (λ fs. states-Waited _)

  advance_or_state-Serves : Serves at_rest (advance_or_state w activated) renewed at_rest
  unfolding advance_or_state
  advance_or_state-Serves = reading-Moves λ r.
      if_fails-Moves (advance_state-Moves w activated refl refl) (λ es. call-Moves w _ refl refl)

  advanced-Serves :
      (file : String) (s : State)
      → Serves renewed (call w (states (advanced_fact file activated s))) renewed renewed
  unfolding advanced_fact
  advanced-Serves file s = call-Moves w _ refl refl

  resting-Fits :
      (v : Serving) → is_resting v ≡ true → (s : Station) → AtStation v s → Fits active inactive s
  resting-Fits v rests s e = rw e (refl, rests)

  advance_epoch-Serves :
      Triple next_station first_station
        (AtStation at_rest)
        (advance_epoch w activated)
        (Always (AtStation renewed))
        (Fits active inactive)
  unfolding advance_epoch
  advance_epoch-Serves = reading-Triple next_station first_station λ r.
      bind-Triple next_station first_station {Q = Always (AtStation renewed)}
        (weaken-Triple next_station first_station (λ s h. h) (λ a s h. h)
          (resting-Fits at_rest refl) advance_or_state-Serves.triple)
        λ st.
          weaken-Triple next_station first_station (λ s h. h) (λ a s h. h)
            (resting-Fits renewed refl) (advanced-Serves _ st).triple

  activate_surface-Serves :
      (address : String)
      → Triple next_station first_station
          (AtStation at_rest)
          (activate_surface w address)
          (Always (AtStation exposed))
          (Fits active inactive)
  unfolding activate_surface
  activate_surface-Serves address =
      then-Triple next_station first_station {Q = AtStation exposed}
        (then-Triple next_station first_station advance_epoch-Serves (answers _ exposed_at))
        (answers _ (settled-Moves (call-Moves w _ refl refl)))
    where
      answers :
          {A : Type 0} {v : Serving} (m : Io A)
          → Serves v m exposed renewed
          → Triple next_station first_station
              (AtStation v)
              m
              (Always (AtStation exposed))
              (Fits active inactive)
      answers m moves =
          weaken-Triple next_station first_station (λ s h. h) (λ a s h. h)
            (resting-Fits renewed refl) moves.triple

      exposed_at : Serves renewed (quietly (serves active_surface)) exposed renewed
      exposed_at = quietly-Moves (serves active_surface) refl

  -- The activation after a run of `runActive` up to its wait.
  pub begun-Fits :
      (address : String)
      → Triple next_station first_station
          (AtStation at_rest)
          (or_else (activate_surface w address >>= activated_as w address) inactive)
          (Fits active)
          Any
  unfolding pure
  begun-Fits address =
      or_else-Triple next_station first_station inactive (λ s h. h)
        (bind-Triple next_station first_station (activate_surface-Serves address) settle)
    where
      settle :
          (es : List RunError)
          → Triple next_station first_station
              (AtStation exposed)
              (activated_as w address es)
              (Fits active)
              (Fits active inactive)
      settle es = record { runs = λ r (s, e, h). (s, e, rw h (refl, refl, refl)) }

  -- An action that does not touch the listener.
  pub noted-Fits :
      (x : Action) (p p' : Phase) (a : Activation)
      → Steps next_station first_station (Fits p a) (owns x, true) (Fits p' a)
      → Triple next_station first_station (Fits p a) (quietly (owns x) >> pure a) (Fits p') Any
  unfolding pure
  noted-Fits x p p' a step =
      then-Triple next_station first_station {Q = Fits p' a}
        (quietly-Triple next_station first_station Any (owns x) step) (record { runs = λ r h. h })
