-- ===== src/Runtime/ServingTurns.antt =====
-- The stages of the listener and of the ownership while `runProcess` follows the ownership machine.
use opdl.Base.{
  ap, ◌∙◌, ◌≡◌, refl, ◌≢◌, ◌⊎◌, inl, inr, true, List, [], ◌∷◌, Option, Option-cases, none, some,
  arith, string_eq, String,
}
use opdl.Redundancy.Turns.{
  Action, stated, acquires, releases, enters_passive, leaves_passive, enters_active, leaves_active,
}
use opdl.Redundancy.Statements.{ActivationKind}
use opdl.Redundancy.Phases.{Phase, owning, active, next_phase, bind_phase, phase_of}
use opdl.App.Facts.{standby_waiting}
use opdl.Runtime.Io.{states, owns, RunError, World, pure, ◌>>◌, quietly, settled}
use opdl.Runtime.Active.{run_passive, leave_surface}
use opdl.Runtime.Owned.{Activation, inactive, serving_with, oldest_first, follow, follow_all}
use opdl.Runtime.Rules.{
  Triple, Steps, Always, quietly-Triple, call-Triple, bind-Triple, then-Triple, settled-Triple,
  weaken-Triple,
}
use opdl.Runtime.Serving.{
  Serving, at_rest, renewed, exposed, undrained, overdue, Station, first_station, next_station,
  in_phase, rest,
}
use opdl.Runtime.ServingActive.{
  Any, is_resting, Fits, station, AtStation, leave_surface-Serves, begun-Fits, noted-Fits,
}

module _ (w : World) where
  -- An action that moves the phase and leaves the listener alone.
  keep_station :
      (next : Phase → Option Phase) (a : Activation) (p p' : Phase)
      → next p ≡ some p'
      → (p ≡ active → p' ≡ active)
      → (st : Station) → Fits p a st
      → (st' : Station) × (in_phase (next st.phase) (some st.serving) ≡ some st') × Fits p' a st'
  keep_station next inactive p p' h on st (e, r) =
      (record { phase = p'; serving = st.serving }, rw (e, h) refl, (refl, r))
  keep_station next (serving_with es) p p' h on st (e, q, r) =
      (record { phase = p'; serving = st.serving }, rw (e, h) refl, (refl, on q, r))

  -- One that only happens while the Passive surface answers.
  rest_station :
      (next : Phase → Option Phase) (p p' : Phase)
      → next p ≡ some p'
      → (st : Station) → Fits p inactive st
      → in_phase (next st.phase) (rest st.serving) ≡ some (record { phase = p'; serving = at_rest })
  rest_station next p p' h st (e, r) = rw (e, h) (rested st.serving r)
    where
      rested :
          (v : Serving)
          → is_resting v ≡ true
          → in_phase (some p') (rest v) ≡ some (record { phase = p'; serving = at_rest })
      rested at_rest r = refl
      rested renewed r = refl
      rested exposed r = absurd (ground arith)
      rested undrained r = absurd (ground arith)
      rested overdue r = absurd (ground arith)

  stays_on :
      (x : Action) (p p' : Phase)
      → next_phase x p ≡ some p'
      → p ≡ active
      → (p' ≡ active) ⊎ (x ≡ leaves_active)
  stays_on x p p' h e = split x (rw e at h)
    where
      split : (x : Action) → next_phase x active ≡ some p' → (p' ≡ active) ⊎ (x ≡ leaves_active)
      split (stated s) h = inl (ground arith)
      split acquires h = absurd (ground arith)
      split releases h = absurd (ground arith)
      split enters_passive h = absurd (ground arith)
      split leaves_passive h = absurd (ground arith)
      split (enters_active k) h = absurd (ground arith)
      split leaves_active h = inr refl

  -- Before Active is entered no activation serves, and the epoch of an earlier one does not count.
  enter-Steps :
      (k : ActivationKind) (a : Activation) (p p' : Phase)
      → next_phase (enters_active k) p ≡ some p'
      → Steps next_station first_station
          (Fits p a)
          (owns (enters_active k), true)
          (AtStation w at_rest)
  enter-Steps k a owning p' h st f = split a f
    where
      split :
          (a : Activation)
          → Fits owning a st
          → (s' : Station) × (next_station (owns (enters_active k), true) st ≡ some s')
            × (s' ≡ station w at_rest)
      split inactive f = (
        station w at_rest,
        rest_station (next_phase (enters_active k)) owning active refl st f,
        refl,
      )
      split (serving_with es) f = absurd (ground arith)
  enter-Steps k a p p' h st f = absurd (ground arith)

  enters_is_active :
      (k : ActivationKind) (p p' : Phase) → next_phase (enters_active k) p ≡ some p' → p' ≡ active
  enters_is_active k owning p' h = ground arith
  enters_is_active k p p' h = absurd (ground arith)

  leaves_from_active : (p p' : Phase) → next_phase leaves_active p ≡ some p' → p ≡ active
  leaves_from_active active p' h = refl
  leaves_from_active p p' h = absurd (ground arith)

  -- `runPassive` states that it waits.
  waiting-Fits :
      (p : Phase) (a : Activation)
      → Triple next_station first_station
          (Fits p a)
          (settled (run_passive w))
          (Always (Fits p a))
          Any
  unfolding run_passive
  waiting-Fits p a = settled-Triple next_station first_station (
      call-Triple next_station first_station w (states standby_waiting) (λ s f. (s, refl, f))
        (λ s f. (s, refl, f)))

  serving_station : (s : Station) → s.phase ≡ active → s.serving ≡ exposed → s ≡ station w exposed
  serving_station s e q = λ i. record { phase = e i; serving = q i }

  -- The listener at the end of an activation.
  left-Fits :
      (p p' : Phase) (es : List RunError)
      → next_phase leaves_active p ≡ some p'
      → Triple next_station first_station
          (Fits p (serving_with es))
          (settled (leave_surface w es) >> quietly (owns leaves_active))
          (Always (Fits p' inactive))
          Any
  left-Fits p p' es h =
      then-Triple next_station first_station {Q = AtStation w at_rest}
        (weaken-Triple next_station first_station (λ s f. serving_station s (f.0 ∙ f.1) f.2)
          (λ a s f. f) (λ s f. tt)
          (settled-Triple next_station first_station {E = Any} (leave_surface-Serves w es)))
        (quietly-Triple next_station first_station Any (owns leaves_active) (λ s f. (
          record { phase = p'; serving = at_rest },
          rw f (ap (λ o. in_phase o (some at_rest)) (rw (leaves_from_active p p' h) at h)),
          (refl, refl),
        )))

  follow-Fits :
      (address : String) (x : Action) (a : Activation) (p p' : Phase)
      → next_phase x p ≡ some p'
      → Triple next_station first_station (Fits p a) (follow w address x a) (Fits p') Any
  unfolding follow pure
  follow-Fits address enters_passive a p p' h =
      then-Triple next_station first_station {Q = Fits p' a}
        (then-Triple next_station first_station {Q = Fits p' a}
          (quietly-Triple next_station first_station Any (owns enters_passive) (
            keep_station (next_phase enters_passive) a p p' h
              (λ e. ground (arith, stays_on enters_passive p p' h e))))
          (waiting-Fits p' a))
        (record { runs = λ r f. f })
  follow-Fits address (enters_active k) a p p' h =
      then-Triple next_station first_station {Q = AtStation w at_rest}
        (quietly-Triple next_station first_station Any (owns (enters_active k))
          (enter-Steps k a p p' h))
        (rw (enters_is_active k p p' h) (begun-Fits w address))
  follow-Fits address leaves_active inactive p p' h =
      noted-Fits w leaves_active p p' inactive
        (λ st f. (_, rest_station (next_phase leaves_active) p p' h st f, (refl, refl)))
  follow-Fits address leaves_active (serving_with es) p p' h =
      then-Triple next_station first_station {Q = Fits p' inactive} (left-Fits p p' es h)
        (record { runs = λ r f. f })
  follow-Fits address (stated s) a p p' h = noted-Fits w (stated s) p p' a (
      keep_station (next_phase (stated s)) a p p' h
        (λ e. ground (arith, stays_on (stated s) p p' h e)))
  follow-Fits address acquires a p p' h = noted-Fits w acquires p p' a (
      keep_station (next_phase acquires) a p p' h (λ e. ground (arith, stays_on acquires p p' h e)))
  follow-Fits address releases a p p' h = noted-Fits w releases p p' a (
      keep_station (next_phase releases) a p p' h (λ e. ground (arith, stays_on releases p p' h e)))
  follow-Fits address leaves_passive a p p' h = noted-Fits w leaves_passive p p' a (
      keep_station (next_phase leaves_passive) a p p' h
        (λ e. ground (arith, stays_on leaves_passive p p' h e)))

  -- The phase after actions, the oldest first.
  abbrev pub phase_through : Option Phase → List Action → Option Phase
  phase_through p [] = p
  phase_through p (x ∷ xs) = phase_through (bind_phase p x) xs

  phase_through-none : (xs : List Action) → phase_through none xs ≡ none
  phase_through-none [] = refl
  phase_through-none (x ∷ xs) = phase_through-none xs

  pub phase_through-oldest_first :
      (first : Phase) (xs later : List Action)
      → phase_through (some first) (oldest_first xs later) ≡ phase_through (phase_of first xs) later
  phase_through-oldest_first first [] later = refl
  phase_through-oldest_first first (x ∷ xs) later = phase_through-oldest_first first xs (x ∷ later)

  -- What the process does follows an orderly run of the ownership machine in order.
  pub follow_all-Fits :
      (address : String) (xs : List Action) (a : Activation) (p : Phase)
      → phase_through (some p) xs ≢ none
      → Triple next_station first_station (Fits p a) (follow_all w address xs a) (Always Any) Any
  unfolding follow_all pure
  follow_all-Fits address [] a p h = record { runs = λ r (s, e, f). (s, e, tt) }
  follow_all-Fits address (x ∷ xs) a p h = elim (Option-cases (next_phase x p)) [
    | inl e ↦ absurd (h (rw e (phase_through-none xs)))
    | inr (p', e) ↦
        bind-Triple next_station first_station (follow-Fits address x a p p' e)
          (λ b. follow_all-Fits address xs b p' (rw e at h))
  ]
