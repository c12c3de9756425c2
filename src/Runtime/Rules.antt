-- ===== src/Runtime/Rules.antt =====
-- A monitor reads the calls of a process, the oldest first, and refuses one that comes out of order.
-- The rules say how the stages of a monitor go through what the process does.
use opdl.Base.{
  ◌≡◌, ◌≢◌, inl, inr, Bool, true, false, not, List, [], ◌∷◌, Option, none, some, arith, Bool-cases,
}
use opdl.InstanceState.Store.{
  Reason, State, Store, File, advance, Result as StateResult, ok as recorded, err as not_recorded,
}
use opdl.Runtime.Active.{advance_state, state_result, is_recorded}
use opdl.Runtime.Io.{
  advances, Call, Done, RunError, Result, ok, err, running, Running, World, Io, pure, raise, ◌>>=◌,
  ◌>>◌, afterwards, if_fails, settled, or_else, quietly, failing, reading, still_running, noted,
  call, and_then, join_end, after_end, after_failure, settle, settle_or,
}

-- A stage that does not depend on the value.
abbrev pub Always : {A S : Type 0} → (S → Type 0) → A → S → Type 0
Always Q a = Q

module _ {S : Type 0} (next : Done → S → Option S) (start : S) where
  abbrev pub bind_stage : Option S → Done → Option S
  bind_stage none c = none
  bind_stage (some s) c = next c s

  -- The stage after a trace, newest call first, or `none` if some call was out of order.
  abbrev pub stage_of : List Done → Option S
  stage_of [] = some start
  stage_of (c ∷ earlier) = bind_stage (stage_of earlier) c

  abbrev pub Reaches : (S → Type 0) → Running → Type 0
  Reaches P r = (s : S) × (stage_of r.trace ≡ some s) × P s

  -- The stage when a call has returned, with a value or with an error.
  abbrev pub Ends : {A : Type 0} → (A → S → Type 0) → (S → Type 0) → Result A × Running → Type 0
  Ends Q E (ok a, r) = Reaches (Q a) r
  Ends Q E (err es, r) = Reaches E r
  Ends Q E (running, r) = stage_of r.trace ≢ none

  -- From a stage of `P`, the call ends at a stage of `Q` with a value and of `E` with an error.
  pub record Triple {A : Type 0} (P : S → Type 0) (m : Io A) (Q : A → S → Type 0) (E : S → Type 0)
      : Type 0 where
    pub runs : (r : Running) → Reaches P r → Ends Q E (m r)

  abbrev pub Steps : (S → Type 0) → Done → (S → Type 0) → Type 0
  Steps P c Q = (s : S) → P s → (s' : S) × (next c s ≡ some s') × Q s'

  module _ {A : Type 0} where
    pub pure-Triple : (P E : S → Type 0) (a : A) → Triple P (pure a) (Always P) E
    unfolding pure
    pure-Triple P E a = record { runs = λ r h. h }

    pub raise-Triple :
        (P : S → Type 0) (Q : A → S → Type 0) (es : List RunError) → Triple P (raise es) Q P
    unfolding raise
    raise-Triple P Q es = record { runs = λ r h. h }

  module _ {P : S → Type 0} where
    pub noted-Reaches :
        {Q : S → Type 0} (c : Call) (b : Bool) (r : Running)
        → Steps P (c, b) Q
        → Reaches P r
        → Reaches Q (noted c b r)
    noted-Reaches c b r step (s, e, p) = let (s', e', q) = step s p in (s', rw e e', q)

    pub quietly-Triple :
        {Q : S → Type 0} (E : S → Type 0) (c : Call)
        → Steps P (c, true) Q
        → Triple P (quietly c) (Always Q) E
    unfolding quietly
    quietly-Triple E c step = record { runs = λ r h. noted-Reaches c true r step h }

    pub failing-Triple :
        {Q : S → Type 0} (E : S → Type 0) (c : Call)
        → Steps P (c, false) Q
        → Triple P (failing c) (Always Q) E
    unfolding failing
    failing-Triple E c step = record { runs = λ r h. noted-Reaches c false r step h }

    pub call-Triple :
        {Q E : S → Type 0} (w : World) (c : Call)
        → Steps P (c, true) Q
        → Steps P (c, false) E
        → Triple P (call w c) (Always Q) E
    unfolding call
    call-Triple w c step fail = record {
      runs = λ r h. elim (Bool-cases (w.fails r.trace c)) [
        | inl e ↦ rw (e, call) (noted-Reaches c false r fail h)
        | inr e ↦ rw (e, call) (noted-Reaches c true r step h)
      ];
    }

  Ends-and_then :
      {A B : Type 0} {E : S → Type 0} {Q : A → S → Type 0} {Q' : B → S → Type 0} (f : A → Io B)
      → ((a : A) → Triple (Q a) (f a) Q' E)
      → (x : Result A × Running) → Ends Q E x
      → Ends Q' E (and_then f x)
  Ends-and_then f rest (ok a, r) h = (rest a).runs r h
  Ends-and_then f rest (err es, r) h = h
  Ends-and_then f rest (running, r) h = h

  join_end_ok :
      {A : Type 0} (Q : A → S → Type 0) (E : S → Type 0) (a : A) (x : Result (Unit {0}) × Running)
      → Ends (Always (Q a)) E x
      → Ends Q E (join_end (ok a) x)
  join_end_ok Q E a (ok u, r) h = h
  join_end_ok Q E a (err es, r) h = h
  join_end_ok Q E a (running, r) h = h

  join_end_err :
      {A : Type 0} (Q : A → S → Type 0) (E : S → Type 0) (es : List RunError)
      → (x : Result (Unit {0}) × Running) → Ends (Always E) E x
      → Ends Q E (join_end (err es) x)
  join_end_err Q E es (ok u, r) h = h
  join_end_err Q E es (err fs, r) h = h
  join_end_err Q E es (running, r) h = h

  Ends-after_end :
      {A : Type 0} {E E' : S → Type 0} {Q Q' : A → S → Type 0} (k : List RunError → Io (Unit {0}))
      → ((a : A) → Triple (Q a) (k []) (Always (Q' a)) E')
      → ((es : List RunError) → Triple E (k es) (Always E') E')
      → (x : Result A × Running) → Ends Q E x
      → Ends Q' E' (after_end k x)
  Ends-after_end {E' = E'} {Q' = Q'} k good bad (ok a, r) h =
      join_end_ok Q' E' a (k [] r) ((good a).runs r h)
  Ends-after_end {E' = E'} {Q' = Q'} k good bad (err es, r) h =
      join_end_err Q' E' es (k es r) ((bad es).runs r h)
  Ends-after_end k good bad (running, r) h = h

  Ends-after_failure :
      {A : Type 0} {E E' : S → Type 0} (Q : A → S → Type 0) (k : List RunError → Io (Unit {0}))
      → ((es : List RunError) → Triple E (k es) (Always E') E')
      → (x : Result A × Running) → Ends Q E x
      → Ends Q E' (after_failure k x)
  Ends-after_failure Q k bad (ok a, r) h = h
  Ends-after_failure {E' = E'} Q k bad (err es, r) h =
      join_end_err Q E' es (k es r) ((bad es).runs r h)
  Ends-after_failure Q k bad (running, r) h = h

  Ends-settle :
      (Q E : S → Type 0) (x : Result (Unit {0}) × Running)
      → Ends (Always Q) Q x
      → Ends (Always Q) E (settle x)
  Ends-settle Q E (ok a, r) h = h
  Ends-settle Q E (err es, r) h = h
  Ends-settle Q E (running, r) h = h

  Ends-settle_or :
      {A : Type 0} {E : S → Type 0} (Q : A → S → Type 0) (E' : S → Type 0) (default : A)
      → ((s : S) → E s → Q default s)
      → (x : Result A × Running) → Ends Q E x
      → Ends Q E' (settle_or default x)
  Ends-settle_or Q E' default keep (ok a, r) h = h
  Ends-settle_or Q E' default keep (err es, r) (s, at, h) = (s, at, keep s h)
  Ends-settle_or Q E' default keep (running, r) h = h

  module _ {A B : Type 0} {P E : S → Type 0} {Q' : B → S → Type 0} where
    pub bind-Triple :
        {Q : A → S → Type 0} {m : Io A} {f : A → Io B}
        → Triple P m Q E
        → ((a : A) → Triple (Q a) (f a) Q' E)
        → Triple P (m >>= f) Q' E
    unfolding ◌>>=◌
    bind-Triple {m} {f} first rest = record {
      runs = λ r h. Ends-and_then f rest (m r) (first.runs r h);
    }

    pub then-Triple :
        {Q : S → Type 0} {m : Io A} {k : Io B}
        → Triple P m (Always Q) E
        → Triple Q k Q' E
        → Triple P (m >> k) Q' E
    unfolding ◌>>◌
    then-Triple {m} {k} first rest = record {
      runs = λ r h. Ends-and_then (λ (a : A). k) (λ a. rest) (m r) (first.runs r h);
    }

  module _ {A : Type 0} {P E E' : S → Type 0} {Q : A → S → Type 0} {m : Io A} where
    pub afterwards-Triple :
        {Q' : A → S → Type 0} {k : List RunError → Io (Unit {0})}
        → Triple P m Q E
        → ((a : A) → Triple (Q a) (k []) (Always (Q' a)) E')
        → ((es : List RunError) → Triple E (k es) (Always E') E')
        → Triple P (afterwards m k) Q' E'
    unfolding afterwards
    afterwards-Triple {k = k} first good bad = record {
      runs = λ r h. Ends-after_end k good bad (m r) (first.runs r h);
    }

    pub if_fails-Triple :
        {k : List RunError → Io (Unit {0})}
        → Triple P m Q E
        → ((es : List RunError) → Triple E (k es) (Always E') E')
        → Triple P (if_fails m k) Q E'
    unfolding if_fails
    if_fails-Triple {k = k} first bad = record {
      runs = λ r h. Ends-after_failure Q k bad (m r) (first.runs r h);
    }

    pub or_else-Triple :
        (default : A)
        → ((s : S) → E s → Q default s)
        → Triple P m Q E
        → Triple P (or_else m default) Q E'
    unfolding or_else
    or_else-Triple default keep first = record {
      runs = λ r h. Ends-settle_or Q E' default keep (m r) (first.runs r h);
    }

  pub settled-Triple :
      {P Q E : S → Type 0} {m : Io (Unit {0})}
      → Triple P m (Always Q) Q
      → Triple P (settled m) (Always Q) E
  unfolding settled
  settled-Triple {Q = Q} {E = E} {m = m} first = record {
    runs = λ r h. Ends-settle Q E (m r) (first.runs r h);
  }

  pub reading-Triple :
      {A : Type 0} {P E : S → Type 0} {Q : A → S → Type 0} {m : Running → Io A}
      → ((r : Running) → Triple P (m r) Q E)
      → Triple P (reading m) Q E
  unfolding reading
  reading-Triple each = record { runs = λ r h. (each r).runs r h }

  Ends-recorded :
      {P Q E : S → Type 0} (reason : Reason)
      → Steps P (advances reason, true) Q
      → Steps P (advances reason, false) E
      → (x : Store × File × StateResult State) (r : Running) → Reaches P r
      → Ends (Always Q) E (
        state_result x.2,
        noted (advances reason) (is_recorded x.2) (record r { store = x.0; file = x.1 }),
      )
  Ends-recorded reason step fail (s, f, recorded st) r h =
      noted-Reaches (advances reason) true (record r { store = s; file = f }) step h
  Ends-recorded reason step fail (s, f, not_recorded e) r h =
      noted-Reaches (advances reason) false (record r { store = s; file = f }) fail h

  pub advance_state-Triple :
      {P Q E : S → Type 0} (w : World) (reason : Reason)
      → Steps P (advances reason, true) Q
      → Steps P (advances reason, false) E
      → Triple P (advance_state w reason) (Always Q) E
  unfolding advance_state
  advance_state-Triple w reason step fail = record {
    runs = λ r h.
        Ends-recorded reason step fail
          (advance reason (w.clock r.trace) (not (w.fails r.trace (advances reason))) r.store
            r.file)
          r h;
  }

  pub still_running-Triple :
      {A : Type 0} {P E : S → Type 0} {Q : A → S → Type 0} → Triple P still_running Q E
  unfolding still_running
  still_running-Triple = record { runs = λ r (s, e, p). ground arith }

  Ends-weaken :
      {A : Type 0} {E E' : S → Type 0} {Q Q' : A → S → Type 0}
      → ((a : A) (s : S) → Q a s → Q' a s)
      → ((s : S) → E s → E' s)
      → (x : Result A × Running) → Ends Q E x
      → Ends Q' E' x
  Ends-weaken keep lose (ok a, r) (s, e, h) = (s, e, keep a s h)
  Ends-weaken keep lose (err es, r) (s, e, h) = (s, e, lose s h)
  Ends-weaken keep lose (running, r) h = h

  pub weaken-Triple :
      {A : Type 0} {P P' E E' : S → Type 0} {Q Q' : A → S → Type 0} {m : Io A}
      → ((s : S) → P' s → P s)
      → ((a : A) (s : S) → Q a s → Q' a s)
      → ((s : S) → E s → E' s)
      → Triple P m Q E
      → Triple P' m Q' E'
  weaken-Triple {m = m} need keep lose triple = record {
    runs = λ r (s, e, h). Ends-weaken keep lose (m r) (triple.runs r (s, e, need s h));
  }
