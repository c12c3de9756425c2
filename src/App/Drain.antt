-- ===== src/App/Drain.antt =====
-- platform/internal/app/server.go: the wait for the requests in flight, and the shutdown.
-- `load n` is what the n-th reading of the count of requests finds, and `clock n` what the clock says
-- after it, in nanoseconds.
use opdl.Base.{
  ℕ, zero, suc, ◌+◌, ◌*◌, ◌/◌, ◌≤◌, ◌<◌, ◌≡◌, ◌≢◌, inl, inr, Bool-cases, ltb, arith, ◌==◌, nat_eq,
  if◌then◌else◌,
}

pub data Drained : Type 0 where
  drained : Drained
  -- An error, which prints the count of a later reading.
  still_in_flight : Drained
  -- The fuel is spent: the loop is still running.
  running : Drained

-- The pause between two readings, 5 ms.
abbrev pub poll_interval : ℕ
poll_interval = 5000000

-- The loop of `drain` from a reading on.
unfoldable pub drain_from :
    (load clock : ℕ → ℕ) → (deadline : ℕ) → (fuel : ℕ) → (reading : ℕ) → Drained
drain_from load clock deadline zero n = running
drain_from load clock deadline (suc fuel) n =
    let rest = drain_from load clock deadline fuel (suc n) in
    if load n == 0 then drained else if ltb deadline (clock n) then still_in_flight else rest

-- `drain`, called at `start`.
unfoldable pub drain : (load clock : ℕ → ℕ) → (start timeout : ℕ) → (fuel : ℕ) → Drained
unfolding drain_from
drain load clock start timeout fuel = drain_from load clock (start + timeout) fuel 0

-- What the loop may answer: that a reading found no request, or that a count above zero stood when
-- the deadline had passed.
abbrev pub IsAnswer : (load clock : ℕ → ℕ) → (deadline : ℕ) → Drained → Type 0
IsAnswer load clock deadline drained = (n : ℕ) × (load n ≡ 0)
IsAnswer load clock deadline still_in_flight = (n : ℕ) × (load n ≢ 0) × (deadline < clock n)
IsAnswer load clock deadline running = ⊥

module _ (load clock : ℕ → ℕ) (start timeout : ℕ)
    (sleeps : (n : ℕ) → clock n + poll_interval ≤ clock (suc n)) (begun : start ≤ clock 0) where
  clock_advances : (n : ℕ) → start + n * poll_interval ≤ clock n
  clock_advances zero = omega (arith, begun)
  clock_advances (suc n) = omega (arith, clock_advances n, sleeps n)

  drain_from_answers :
      (fuel n : ℕ)
      → timeout / poll_interval + 2 ≤ n + fuel
      → n ≤ timeout / poll_interval + 1
      → IsAnswer load clock (start + timeout) (drain_from load clock (start + timeout) fuel n)
  unfolding drain_from
  drain_from_answers zero n enough early = absurd (omega arith)
  drain_from_answers (suc fuel) n enough early = elim (Bool-cases (load n == 0)) [
    | inl e ↦ rw e (n, ground arith)
    | inr e ↦ elim (Bool-cases (ltb (start + timeout) (clock n))) [
      | inl late ↦ rw (e, late) (n, ground arith, ground arith)
      | inr soon ↦
          let in_time : clock n ≤ start + timeout = ground arith in
          rw (e, soon)
            (drain_from_answers fuel (suc n) (omega arith)
              (omega (arith, clock_advances n, in_time)))
    ]
  ]

  -- Where each pause lasts its five milliseconds at least, draining ends after at most two readings
  -- more than the pauses that fit in the timeout, whatever requests come, and its answer is true: a
  -- reading found no request in flight, or requests were in flight after the deadline.
  pub drain-IsAnswer :
      IsAnswer load clock
        (start + timeout)
        (drain load clock start timeout (timeout / poll_interval + 2))
  unfolding drain
  drain-IsAnswer = drain_from_answers (timeout / poll_interval + 2) 0 (omega arith) (omega arith)
