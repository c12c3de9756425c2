-- ===== src/Redundancy/Grace.antt =====
-- The step-down grace of redundancy/ownership.go: what the renewal ticks of `startRenewal` ensure
-- about the lease of an instance that still serves.
use opdl.Base.{ℕ, ◌+◌, ◌≤◌, ◌<◌, ◌≡◌, refl, true, List, [], ◌∷◌, Option, none, some}
use opdl.Redundancy.Lease.{Lease}
use opdl.Redundancy.Statements.{Statement}
use opdl.Redundancy.Turns.{
  Process, ActiveEvent, renewal_tick, failback_tick, Watch, active_step, best_effort, publish,
}

-- The last clock reading of an event, after which alone it can end Active's context.
abbrev done_at : ActiveEvent → ℕ
done_at (renewal_tick now later) = later
done_at (failback_tick healthy now later) = later

-- Renewal ticks come at most one interval apart, the one before the list at `last`, and what the
-- code does at a tick takes at most `delay`. No other event, and not `until`, comes later than the
-- end of the tick that is due.
abbrev pub Timely : (interval delay last : ℕ) → List ActiveEvent → (until : ℕ) → Type 0
Timely interval delay last [] until = until ≤ last + interval + delay
Timely interval delay last (renewal_tick now later ∷ es) until =
    (now ≤ last + interval)
    × (now ≤ later)
    × (later ≤ now + delay)
    × Timely interval delay now es until
Timely interval delay last (failback_tick healthy now later ∷ es) until =
    (later ≤ last + interval + delay) × Timely interval delay last es until

abbrev expiry_of : Option Lease → ℕ
expiry_of none = 0
expiry_of (some l) = l.owned.expires_unix_nano

-- The context is live at an instant by which the lease has been expired for more than `delay`.
abbrev LateAt : (delay instant : ℕ) → Watch → Process → Type 0
LateAt delay instant w p = (w.serving ≡ true) × (expiry_of p.lease + delay < instant)

-- Active's context is live from one event to the last clock reading of the next, under the lease of
-- before that event, and from the last event to `until`. At none of these ends it is late.
abbrev pub NeverLate : (delay : ℕ) → List ActiveEvent → (until : ℕ) → Watch → Process → Type 0
NeverLate delay [] until w p = ¬ LateAt delay until w p
NeverLate delay (e ∷ es) until w p =
    (¬ LateAt delay (done_at e) w p)
    × (let r = active_step e w p in NeverLate delay es until r.0 r.1)

record Ready (l : Lease) (last : ℕ) (w : Watch) (p : Process) : Type 0 where
  has_lease : p.lease ≡ some l
  renews : w.serving ≡ true → w.renewing ≡ true
  lasts : w.serving ≡ true → last + l.cfg.renewal_interval ≤ l.owned.expires_unix_nano

best_effort-lease : (s : Statement) (p : Process) → (best_effort s p).lease ≡ p.lease
unfolding best_effort publish
best_effort-lease s p = refl
