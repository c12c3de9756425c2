-- ===== src/Redundancy/Failover.antt =====
-- That a waiting instance takes over from one that has stopped renewing (ownership.go).
use opdl.Base.{
  ℕ, ◌≤◌, ◌≡◌, ◌≢◌, refl, sym, subst, ap, ◌⊎◌, inl, inr, Bool, Bool-cases, true, false, List, [],
  ◌∷◌, map, Option, none, some, arith, eq_iff, leb, string_eq,
}
use opdl.Redundancy.Disk.{Record, File, holds, run, expired}
use opdl.Redundancy.Lease.{Lease, Acquisition, not_acquired, new_grant, set_owned}
use opdl.Redundancy.Statements.{DeclineReason, peer_healthy}
use opdl.Redundancy.Promotion.{Promotion, promotion, promotion_failed, evaluate_promotion}
use opdl.Redundancy.Acquisition.{quiet, left_behind}
use opdl.Redundancy.PromotionRules.{evaluate_promotion-takes}
use opdl.Redundancy.Turns.{
  Process, PassiveEvent, promotion_tick, PassiveNext, waits_on, waited, passive_step, passive_loop,
  wait_while_passive, note_decline, best_effort, publish, with_lease, after_evaluation, acts,
  enters_passive,
}

-- A tick of the promotion ticker: the clock's reading, and what the peer's health check answers.
abbrev pub Tick : Type 0
Tick = ℕ × Option Bool

abbrev pub promotion_ticks : List Tick → List PassiveEvent
promotion_ticks ts = map (λ t. promotion_tick t.0 t.1 false) ts

-- At some tick the grant has expired and the peer does not answer that it is healthy.
abbrev pub IsSilent : Record → List Tick → Type 0
IsSilent c [] = ⊥
IsSilent c ((now, peer) ∷ ts) = ((c.expires_unix_nano ≤ now) × (peer ≢ some true)) ⊎ IsSilent c ts

-- The process waits with lease `l` while the file has grant `c`.
record Waits (l : Lease) (c : Record) (p : Process) : Type 0 where
  handle : p.lease ≡ some l
  grant : p.disk ≡ quiet (holds c)

note_decline-Waits :
    (l : Lease) (c : Record) (last decline : Option DeclineReason) (p : Process)
    → Waits l c p
    → Waits l c (note_decline last decline p)
unfolding note_decline best_effort publish
note_decline-Waits l c last none p w = w
note_decline-Waits l c last (some reason) p w = record {
  handle = ground (arith, w.handle);
  grant = ground (arith, w.grant);
}

-- Another's grant is taken once it has expired and the peer does not answer, and is left alone before.
evaluate_either :
    (l : Lease) (c : Record) (now : ℕ) (peer : Option Bool)
    → c.released ≡ false
    → c.owner_role ≢ l.role
    → ((c.expires_unix_nano ≤ now) × (peer ≢ some true))
      ⊎ ((d : Option DeclineReason) × (run (evaluate_promotion l now peer) (quiet (holds c))
            ≡ ((l, promotion not_acquired d), quiet (holds c)))
          × ((c.expires_unix_nano ≤ now) × (peer ≢ some true) → ⊥))
unfolding evaluate_promotion expired
evaluate_either l c now none standing other = elim (Bool-cases (leb c.expires_unix_nano now)) [
  | inl e ↦ inl (ground arith, ground arith)
  | inr e ↦ inr (none, ground arith, λ (t, _). ground arith)
]
evaluate_either l c now (some false) standing other =
    elim (Bool-cases (leb c.expires_unix_nano now)) [
      | inl e ↦ inl (ground arith, ground arith)
      | inr e ↦ inr (none, ground arith, λ (t, _). ground arith)
    ]
evaluate_either l c now (some true) standing other =
    elim (Bool-cases (leb c.expires_unix_nano now)) [
      | inl e ↦
          inr (some peer_healthy, ground (arith, eq_iff c.owner_role l.role), λ (_, t). t refl)
      | inr e ↦ inr (none, ground arith, λ (_, t). t refl)
    ]

abbrev Took : Lease → PassiveNext × Process → Type 0
Took l r =
    (a : Acquisition) × (now : ℕ) × (r.0 ≡ waited [] a)
    × (a.held ≡ true)
    × (a.abandoned ≡ true)
    × (r.1.lease ≡ some (set_owned l (new_grant l now)))
    × (r.1.disk ≡ quiet (holds (new_grant l now)))

with_lease_evaluates :
    (l l' : Lease) (f f' : File) (r : Promotion) (now : ℕ) (peer : Option Bool) (p : Process)
    → p.lease ≡ some l
    → p.disk ≡ quiet f
    → run (evaluate_promotion l now peer) (quiet f) ≡ ((l', r), quiet f')
    → with_lease promotion_failed (λ h. evaluate_promotion h now peer) p
      ≡ (r, record p { lease = some l'; disk = quiet f' })
unfolding with_lease
with_lease_evaluates l l' f f' r now peer p handle grant e = ground arith

tick_takes :
    (l : Lease) (c : Record) (last : Option DeclineReason) (now : ℕ) (peer : Option Bool)
    (p : Process)
    → Waits l c p
    → c.released ≡ false
    → (c.expires_unix_nano ≤ now) × (peer ≢ some true)
    → Took l (passive_step last (promotion_tick now peer false) p)
unfolding passive_step with_lease after_evaluation note_decline
tick_takes l c last now peer p w standing (late, silent) =
    let taken =
      evaluate_promotion-takes l now peer (holds c) (inr (inr (inl (standing, late, silent)))) in
    let evaluated = with_lease_evaluates l _ (holds c) _ _ now peer p w.handle w.grant taken in
    let stepped = ap (after_evaluation last false) evaluated in
    (
      record { held = true; abandoned = left_behind (holds c) },
      now,
      ap (λ r. r.0) stepped,
      refl,
      rw standing refl,
      ap (λ r. r.1.lease) stepped,
      ap (λ r. r.1.disk) stepped,
    )

tick-Waits :
    (l : Lease) (c : Record) (last d : Option DeclineReason) (now : ℕ) (peer : Option Bool)
    (p : Process)
    → Waits l c p
    → run (evaluate_promotion l now peer) (quiet (holds c))
      ≡ ((l, promotion not_acquired d), quiet (holds c))
    → let r = passive_step last (promotion_tick now peer false) p in
      (r.0 ≡ waits_on d) × Waits l c r.1
unfolding passive_step with_lease after_evaluation
tick-Waits l c last d now peer p w same =
    let evaluated = with_lease_evaluates l _ (holds c) _ _ now peer p w.handle w.grant same in
    let stepped = ap (after_evaluation last false) evaluated in
    (
      ap (λ r. r.0) stepped,
      subst (λ r. Waits l c r.1) (sym stepped)
          (note_decline-Waits l c last d (record p { lease = some l; disk = quiet (holds c) })
            (record { handle = refl; grant = refl })),
    )

passive_loop_takes :
    (l : Lease) (c : Record) (ts : List Tick) (last : Option DeclineReason) (p : Process)
    → c.released ≡ false
    → c.owner_role ≢ l.role
    → Waits l c p
    → IsSilent c ts
    → Took l (passive_loop last (promotion_ticks ts) p)
unfolding passive_loop
passive_loop_takes l c [] last p standing other w silent = absurd silent
passive_loop_takes l c ((now, peer) ∷ ts) last p standing other w silent =
    elim (evaluate_either l c now peer standing other) [
      | inl lapsed ↦
          let (a, at, ends, held, left, lease, disk) =
            tick_takes l c last now peer p w standing lapsed in
          (
            a,
            at,
            rw (passive_loop, ends) refl,
            held,
            left,
            rw (passive_loop, ends) lease,
            rw (passive_loop, ends) disk,
          )
      | inr (d, same, never) ↦
          let (goes_on, w') = tick-Waits l c last d now peer p w same in
          let later : IsSilent c ts = elim silent [
            | inl lapsed ↦ absurd (never lapsed)
            | inr later ↦ later
          ] in
          rw (passive_loop, goes_on) (passive_loop_takes l c ts d _ standing other w' later)
    ]

-- A waiting instance takes over from a peer that holds the grant and has stopped renewing it, however
-- many promotion_ticks it declines before: where the disk serves, Passive returns without an error, and at some
-- tick the grant has expired and the peer does not answer that it is healthy, waiting ends with the
-- ownership, which counts as abandoned, and the file names this instance.
pub wait_while_passive-takes :
    (l : Lease) (c : Record) (ts : List Tick) (p : Process)
    → p.lease ≡ some l
    → p.disk ≡ quiet (holds c)
    → c.released ≡ false
    → c.owner_role ≢ l.role
    → IsSilent c ts
    → let r = wait_while_passive (promotion_ticks ts) p in
      (a : Acquisition) × (now : ℕ) × (r.0 ≡ waited [] a)
      × (a.held ≡ true)
      × (a.abandoned ≡ true)
      × (r.1.lease ≡ some (set_owned l (new_grant l now)))
      × (r.1.disk ≡ quiet (holds (new_grant l now)))
unfolding wait_while_passive
wait_while_passive-takes l c ts p handle grant standing other silent =
    passive_loop_takes l c ts none (acts enters_passive p) standing other
      (record { handle = handle; grant = grant }) silent
