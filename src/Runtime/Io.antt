-- ===== src/Runtime/Io.antt =====
-- What a platform process does to the world, for platform/internal/app/app.go and runtime.go: the calls
-- in their order, each with whether it succeeded, and Go's way of joining errors. Whether a call fails
-- is the environment's answer to what has been done so far and to the call.
use opdl.Base.{ℕ, Bool, true, false, not, String, List, [], ◌∷◌, ◌++◌, Error}
use opdl.Redundancy.Turns.{Action, TurnError, ActiveRun}
use opdl.Redundancy.Lifecycle.{Turn}
use opdl.Redundancy.Lease.{OpenError}
use opdl.Redundancy.Disk.{Disk}
use opdl.Deployment.Types.{Parsers}
use opdl.InstanceState.Store.{Reason, Store, File, StateError}
use opdl.App.Facts.{Fact}

-- What a process opens and has to close.
pub data Resource : Type 0 where
  application_log event_record machine_store broker fabric_client : Resource
  health_conn subscription health_publisher monitor listener : Resource

-- The two handlers that an instance's listener answers with.
pub data Surface : Type 0 where
  passive_surface active_surface : Surface

pub data Call : Type 0 where
  opens closes : Resource → Call
  -- `events.NewFactory` and `storage.NewPublisher`.
  makes_factory makes_publisher : Call
  -- The directory of the state file, and `state.Open`.
  makes_state_dir reads_state : Call
  -- The write of `Advance`.
  advances : Reason → Call
  -- The directory of the lease file, by `OpenLease`.
  makes_lease_dir : Call
  -- The lease is opened: whether the machine has one.
  has_lease : Bool → Call
  -- A publication of the process itself.
  states : Fact → Call
  -- What `ManageOwnership` does.
  owns : Action → Call
  serves : Surface → Call
  -- The wait of the Active composition, which fails if the listener died.
  selects : Call
  drains : Call
  -- The last record of the application log.
  logs_end : (is_error : Bool) → Call

-- A call and whether it succeeded.
abbrev pub Done : Type 0
Done = Call × Bool

pub data RunError : Type 0 where
  failed : Call → RunError
  bad_setup : Error → RunError
  bad_state : StateError → RunError
  bad_lease : OpenError → RunError
  ownership_failed : TurnError → RunError

-- `running` is a call that has not returned: the ownership machine still waits.
pub data Result (A : Type 0) : Type 0 where
  ok : A → Result A
  err : List RunError → Result A
  running : Result A

-- The trace has the newest call first. Before `state.Open` the store is blank.
pub record Running : Type 0 where
  pub trace : List Done
  pub store : Store
  pub file : File

-- What the code does not decide. `turns` and `alone` are what the ownership machine meets, with the
-- lease file's disk and the outcomes of its publications; `text` renders joined errors.
pub record World : Type 0 where
  pub fails : List Done → Call → Bool
  pub clock : List Done → ℕ
  pub text : List RunError → String
  pub parsers : Parsers
  pub pid : ℕ
  pub disk : Disk
  pub publish_faults : List Bool
  pub turns : List Turn
  pub alone : ActiveRun

abbrev pub Io : Type 0 → Type 0
Io A = Running → Result A × Running

module _ {A : Type 0} where
  unfoldable pub pure : A → Io A
  pure a r = (ok a, r)

  unfoldable pub raise : List RunError → Io A
  raise es r = (err es, r)

-- What follows the end of a call.
abbrev pub and_then : {A B : Type 0} → (A → Io B) → Result A × Running → Result B × Running
and_then f (ok a, r) = f a r
and_then f (err es, r) = (err es, r)
and_then f (running, r) = (running, r)

infixl 5 ◌>>=◌ ◌>>◌
unfoldable pub ◌>>=◌ : {A B : Type 0} → Io A → (A → Io B) → Io B
◌>>=◌ m f r = and_then f (m r)

unfoldable pub ◌>>◌ : {A B : Type 0} → Io A → Io B → Io B
unfolding ◌>>=◌
m >> k = m >>= λ _. k

-- `errors.Join(first, second)`, `second` being what a call returned.
abbrev pub joined : {A : Type 0} → Result A → Result (Unit {0}) → Result A
joined (ok a) (ok u) = ok a
joined (ok a) (err es) = err es
joined (err es) (ok u) = err es
joined (err es) (err fs) = err (es ++ fs)
joined running s = running
joined (ok a) running = running
joined (err es) running = running

abbrev pub join_end : {A : Type 0} → Result A → Result (Unit {0}) × Running → Result A × Running
join_end x (y, r) = (joined x y, r)

abbrev pub after_end :
    {A : Type 0} → (List RunError → Io (Unit {0})) → Result A × Running → Result A × Running
after_end k (ok a, r) = join_end (ok a) (k [] r)
after_end k (err es, r) = join_end (err es) (k es r)
after_end k (running, r) = (running, r)

-- What runs when a call has returned, with the errors it returned: a deferred call of Go. What it
-- returns is joined.
unfoldable pub afterwards : {A : Type 0} → Io A → (List RunError → Io (Unit {0})) → Io A
afterwards m k r = after_end k (m r)

abbrev pub after_failure :
    {A : Type 0} → (List RunError → Io (Unit {0})) → Result A × Running → Result A × Running
after_failure k (ok a, r) = (ok a, r)
after_failure k (err es, r) = join_end (err es) (k es r)
after_failure k (running, r) = (running, r)

-- The same, where the call has failed.
unfoldable pub if_fails : {A : Type 0} → Io A → (List RunError → Io (Unit {0})) → Io A
if_fails m k r = after_failure k (m r)

abbrev pub settle : Result (Unit {0}) × Running → Result (List RunError) × Running
settle (ok a, r) = (ok [], r)
settle (err es, r) = (ok es, r)
settle (running, r) = (running, r)

-- The errors of a call as a value.
unfoldable pub settled : Io (Unit {0}) → Io (List RunError)
settled m r = settle (m r)

abbrev pub settle_or : {A : Type 0} → A → Result A × Running → Result A × Running
settle_or default (ok a, r) = (ok a, r)
settle_or default (err es, r) = (ok default, r)
settle_or default (running, r) = (running, r)

-- The value of a call, or another if it fails.
unfoldable pub or_else : {A : Type 0} → Io A → A → Io A
or_else m default r = settle_or default (m r)

-- A call that does not return.
unfoldable pub still_running : {A : Type 0} → Io A
still_running r = (running, r)

-- A call that depends on the state in which it begins.
unfoldable pub reading : {A : Type 0} → (Running → Io A) → Io A
reading m r = m r r

abbrev pub noted : Call → Bool → Running → Running
noted c done r = record r { trace = (c, done) ∷ r.trace }

-- A call that returns no error.
unfoldable pub quietly : Call → Io (Unit {0})
quietly c r = (ok tt, noted c true r)

-- A call that fails, whose error is returned by what follows.
unfoldable pub failing : Call → Io (Unit {0})
failing c r = (ok tt, noted c false r)

abbrev pub all_quietly : List Call → Io (Unit {0})
all_quietly [] = pure tt
all_quietly (c ∷ cs) = quietly c >> all_quietly cs

abbrev pub returned : Call → Bool → Result (Unit {0})
returned c true = ok tt
returned c false = err (failed c ∷ [])

module _ (w : World) where
  -- A call of the environment.
  unfoldable pub call : Call → Io (Unit {0})
  call c r = let done = not (w.fails r.trace c) in (returned c done, noted c done r)

  -- `Publish` of the process's publisher.
  abbrev pub publish : Fact → Io (Unit {0})
  publish f = call (states f)

  -- A resource that is open while the rest runs, and whose `Close` may fail.
  abbrev pub holding : {A : Type 0} → Resource → Io A → Io A
  holding x body = call (opens x) >> afterwards body (λ _. call (closes x))

  -- One whose `Close` returns nothing.
  abbrev pub holding_quietly : {A : Type 0} → Resource → Io A → Io A
  holding_quietly x body = call (opens x) >> afterwards body (λ _. quietly (closes x))

  -- A resource that stays open if the rest succeeds.
  abbrev pub keeping : {A : Type 0} → Resource → Io A → Io A
  keeping x body = call (opens x) >> if_fails body (λ _. quietly (closes x))
