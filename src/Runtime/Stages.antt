-- ===== src/Runtime/Stages.antt =====
-- The rules of a monitor where the stage is known at each point of the program.
use opdl.Base.{◌≡◌, refl, true, false, List, [], Option, some}
use opdl.Runtime.Io.{
  Resource, opens, closes, keeping, Call, Done, RunError, World, Io, pure, raise, ◌>>=◌, ◌>>◌,
  afterwards, if_fails, settled, or_else, quietly, failing, reading, still_running, call, advances,
  Running,
}
use opdl.Runtime.Rules.{
  Triple, Steps, Always, pure-Triple, raise-Triple, quietly-Triple, failing-Triple, call-Triple,
  bind-Triple, then-Triple, afterwards-Triple, if_fails-Triple, or_else-Triple, settled-Triple,
  reading-Triple, still_running-Triple, advance_state-Triple,
}
use opdl.InstanceState.Store.{Reason}
use opdl.Runtime.Active.{advance_state}

module _ {S : Type 0} (next : Done → S → Option S) (start : S) where
  abbrev pub At : S → S → Type 0
  At stage s = s ≡ stage

  -- From one stage to another, and the stage at an error.
  pub record Moves {A : Type 0} (before : S) (m : Io A) (after failed : S) : Type 0 where
    pub triple : Triple next start (At before) m (Always (At after)) (At failed)

  At-step :
      {before after : S} (c : Done)
      → next c before ≡ some after
      → Steps next start (At before) c (At after)
  At-step {after = after} c e s at = (after, (rw at e), refl)

module _ {S : Type 0} {next : Done → S → Option S} {start : S} where
  module _ {before after failed : S} where
    pub call-Moves :
        (w : World) (c : Call)
        → next (c, true) before ≡ some after
        → next (c, false) before ≡ some failed
        → Moves next start before (call w c) after failed
    call-Moves w c e f = record {
      triple = call-Triple next start w c (At-step next start _ e) (At-step next start _ f);
    }

    pub quietly-Moves :
        (c : Call)
        → next (c, true) before ≡ some after
        → Moves next start before (quietly c) after failed
    quietly-Moves c e = record { triple = quietly-Triple next start _ c (At-step next start _ e) }

    pub failing-Moves :
        (c : Call)
        → next (c, false) before ≡ some after
        → Moves next start before (failing c) after failed
    failing-Moves c e = record { triple = failing-Triple next start _ c (At-step next start _ e) }

  module _ {A : Type 0} {before failed : S} where
    pub pure-Moves : (a : A) → Moves next start before (pure a) before failed
    pure-Moves a = record { triple = pure-Triple next start _ _ a }

    pub raise-Moves :
        (es : List RunError) → Moves next start {A = A} before (raise es) failed before
    raise-Moves es = record { triple = raise-Triple next start _ _ es }

  module _ {A B : Type 0} {before after last failed : S} where
    pub bind-Moves :
        {m : Io A} {f : A → Io B}
        → Moves next start before m after failed
        → ((a : A) → Moves next start after (f a) last failed)
        → Moves next start before (m >>= f) last failed
    bind-Moves first rest = record {
      triple = bind-Triple next start first.triple (λ a. (rest a).triple);
    }

    pub then-Moves :
        {m : Io A} {k : Io B}
        → Moves next start before m after failed
        → Moves next start after k last failed
        → Moves next start before (m >> k) last failed
    then-Moves first rest = record { triple = then-Triple next start first.triple rest.triple }

  module _ {A : Type 0} {before after last failed cleaned : S} {m : Io A}
      {k : List RunError → Io (Unit {0})} where
    pub afterwards-Moves :
        Moves next start before m after failed
        → Moves next start after (k []) last cleaned
        → ((es : List RunError) → Moves next start failed (k es) cleaned cleaned)
        → Moves next start before (afterwards m k) last cleaned
    afterwards-Moves first good bad = record {
      triple = afterwards-Triple next start first.triple (λ a. good.triple) (λ es. (bad es).triple);
    }

  module _ {A : Type 0} {before after failed cleaned : S} {m : Io A}
      {k : List RunError → Io (Unit {0})} where
    pub if_fails-Moves :
        Moves next start before m after failed
        → ((es : List RunError) → Moves next start failed (k es) cleaned cleaned)
        → Moves next start before (if_fails m k) after cleaned
    if_fails-Moves first bad = record {
      triple = if_fails-Triple next start first.triple (λ es. (bad es).triple);
    }

  module _ {before after failed : S} where
    pub settled-Moves :
        {m : Io (Unit {0})}
        → Moves next start before m after after
        → Moves next start before (settled m) after failed
    settled-Moves first = record { triple = settled-Triple next start first.triple }

    pub or_else-Moves :
        {A : Type 0} {m : Io A} (default : A)
        → Moves next start before m after after
        → Moves next start before (or_else m default) after failed
    or_else-Moves default first = record {
      triple = or_else-Triple next start default (λ s h. h) first.triple;
    }

  module _ {before after failed opened : S} where
    -- A resource that is closed where what follows its opening fails.
    pub keeping-Moves :
        {m : Io (Unit {0})} (w : World) (x : Resource)
        → next (opens x, true) before ≡ some opened
        → next (opens x, false) before ≡ some failed
        → Moves next start opened m after opened
        → next (closes x, true) opened ≡ some failed
        → Moves next start before (keeping w x m) after failed
    keeping-Moves w x e f body g =
        then-Moves (call-Moves w (opens x) e f)
          (if_fails-Moves body (λ es. quietly-Moves (closes x) g))

  pub reading-Moves :
      {A : Type 0} {before after failed : S} {m : Running → Io A}
      → ((r : Running) → Moves next start before (m r) after failed)
      → Moves next start before (reading m) after failed
  reading-Moves each = record { triple = reading-Triple next start (λ r. (each r).triple) }

  pub advance_state-Moves :
      {before after failed : S} (w : World) (reason : Reason)
      → next (advances reason, true) before ≡ some after
      → next (advances reason, false) before ≡ some failed
      → Moves next start before (advance_state w reason) after failed
  advance_state-Moves w reason e f = record {
    triple =
        advance_state-Triple next start w reason (At-step next start _ e) (At-step next start _ f);
  }

  pub still_running-Moves :
      {A : Type 0} {before after failed : S}
      → Moves next start before (still_running {A = A}) after failed
  unfolding still_running
  still_running-Moves = record { triple = still_running-Triple next start }
