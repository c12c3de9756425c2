-- ===== src/Events/Storage.antt =====
-- platform/internal/events/storage/publisher.go: the fan-out of an envelope over the backends, while
-- other publications and Close run beside it. A backend is its place among the configured ones. A move
-- is what one goroutine does between two points at which another may run, and the environment says
-- which goroutine moves and what a backend returns. A move that the code cannot make at that point
-- changes nothing.
use opdl.Base.{
  ℕ, ◌+◌, zero, suc, Bool, true, false, List, [], ◌∷◌, ◌++◌, Option, none, some, nat_eq, Error,
  if◌then◌else◌,
}
use opdl.Events.Envelope.{Envelope}

-- A call of `Publish` that got past the check and has its envelope: the backends it has not called
-- yet, and the errors so far.
pub record Publication : Type 0 where
  pub envelope : Envelope
  pub left : List ℕ
  pub errs : List Error

pub data Call : Type 0 where
  stores : (backend : ℕ) → Envelope → Call
  closes : (backend : ℕ) → Call

pub record Publisher : Type 0 where
  pub backends : List ℕ
  pub closed : Bool
  -- The calls that `inFlight` counts.
  pub in_flight : List Publication
  -- What the `Close` that set `closed` has not closed yet.
  pub open_backends : List ℕ
  -- What the calls of `Close` and `Publish` have gathered of errors.
  pub close_errs : List Error
  -- The calls of the backends, the last one first.
  pub calls : List Call

pub data Created : Type 0 where
  created : Publisher → Created
  no_backends : Created

-- The backends in their order, from a place on.
unfoldable pub places : (n first : ℕ) → List ℕ
places zero first = []
places (suc n) first = first ∷ places n (first + 1)

-- `NewPublisher` of that many backends, none of them nil.
unfoldable pub new_publisher : ℕ → Created
unfolding places
new_publisher zero = no_backends
new_publisher (suc n) = created (record {
  backends = places (suc n) 0;
  closed = false;
  in_flight = [];
  open_backends = [];
  close_errs = [];
  calls = [];
})

pub data Move : Type 0 where
  -- `Publish` up to the envelope: under the lock, and then `Wrap`, which gives none if it fails.
  begins : Option Envelope → Move
  -- The publication at that place calls its next backend.
  stores_next : (place : ℕ) → Option Error → Move
  -- It returns, its loop done.
  returns : (place : ℕ) → Move
  -- `Close` under the lock.
  begins_close : Move
  -- After `inFlight.Wait`, the next backend.
  closes_next : Option Error → Move

abbrev pub and_error : List Error → Option Error → List Error
and_error errs none = errs
and_error errs (some e) = errs ++ (e ∷ [])

abbrev next_call : Publication → Option Error → Publication × List Call
next_call p outcome = elim p.left [
  | [] ↦ (p, [])
  | b ∷ bs ↦ (record p { left = bs; errs = and_error p.errs outcome }, stores b p.envelope ∷ [])
]

-- The publications after the one at a place has made its next call, and the call, if any.
unfoldable pub store_at :
    (place : ℕ) → Option Error → List Publication → List Publication × List Call
store_at place outcome [] = ([], [])
store_at zero outcome (p ∷ ps) = let (p', made) = next_call p outcome in (p' ∷ ps, made)
store_at (suc place) outcome (p ∷ ps) =
    let (ps', made) = store_at place outcome ps in (p ∷ ps', made)

abbrev unless_done : Publication → List Publication → List Publication
unless_done p ps = elim p.left [ [] ↦ ps | b ∷ bs ↦ p ∷ ps ]

-- The publications after the one at a place has returned, if it is done.
unfoldable pub return_at : (place : ℕ) → List Publication → List Publication
return_at place [] = []
return_at zero (p ∷ ps) = unless_done p ps
return_at (suc place) (p ∷ ps) = p ∷ return_at place ps

unfoldable pub in_reverse : List ℕ → List ℕ
in_reverse [] = []
in_reverse (b ∷ bs) = in_reverse bs ++ (b ∷ [])

abbrev close_next : Option Error → Publisher → Publisher
close_next outcome p = elim p.in_flight [
  | q ∷ qs ↦ p
  | [] ↦ elim p.open_backends [
    | [] ↦ p
    | b ∷ bs ↦ record p {
      open_backends = bs;
      close_errs = and_error p.close_errs outcome;
      calls = closes b ∷ p.calls;
    }
  ]
]

unfoldable pub move : Move → Publisher → Publisher
unfolding store_at return_at in_reverse
move (begins none) p = p
move (begins (some e)) p = if p.closed then p else record p {
  in_flight = p.in_flight ++ (record { envelope = e; left = p.backends; errs = [] } ∷ []);
}
move (stores_next place outcome) p =
    let (ps, made) = store_at place outcome p.in_flight in
    record p { in_flight = ps; calls = made ++ p.calls }
move (returns place) p = record p { in_flight = return_at place p.in_flight }
move begins_close p =
    if p.closed then p else record p { closed = true; open_backends = in_reverse p.backends }
move (closes_next outcome) p = close_next outcome p

unfoldable pub moves : List Move → Publisher → Publisher
unfolding move
moves [] p = p
moves (m ∷ ms) p = moves ms (move m p)
