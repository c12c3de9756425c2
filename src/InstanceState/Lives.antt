-- ===== src/InstanceState/Lives.antt =====
-- The epochs that one instance hands out over many processes (instance/state/state.go).
use opdl.Base.{
  ℕ, ◌+◌, ◌<◌, ◌^◌, ◌≡◌, refl, ◌⊎◌, inl, inr, Bool, true, false, List, [], ◌∷◌, Option, none, some,
  arith, ap, subst, String, length, string_eq,
}
use opdl.InstanceState.Store.{
  Reason, State, Store, File, missing, garbled, holds, Result, ok, err, zero_state, load, advance,
}

-- A new process opens the file, which may fail, or the running process advances its epoch.
pub data Move : Type 0 where
  reopens : (path : String) → (read_ok : Bool) → Move
  advances : Reason → (at : ℕ) → (write_ok : Bool) → Move

-- The epoch that an advance hands out.
abbrev handed : Result State → List ℕ → List ℕ
handed (ok s) rest = s.epoch ∷ rest
handed (err e) rest = rest

abbrev opened : Result Store → Option Store
opened (ok s) = some s
opened (err e) = none

-- The epochs handed out over a history of moves, oldest first; `none` is an instance with no running
-- process.
pub life : List Move → Option Store → File → List ℕ
life [] st f = []
life (reopens path read_ok ∷ ms) st f = life ms (opened (load path read_ok f)) f
life (advances reason at write_ok ∷ ms) none f = life ms none f
life (advances reason at write_ok ∷ ms) (some s) f =
    let r = advance reason at write_ok s f in handed r.2 (life ms (some r.0) r.1)

-- Each number is above the one before it.
abbrev pub Rising : ℕ → List ℕ → Type 0
Rising n [] = Unit {0}
Rising n (e ∷ es) = (n < e) × Rising e es

abbrev pub epoch_of : File → ℕ
epoch_of missing = 0
epoch_of garbled = 0
epoch_of (holds s) = s.epoch

-- A running process has the file's record.
abbrev Synced : Option Store → File → Type 0
Synced none f = Unit {0}
Synced (some s) f = ((f ≡ missing) × (s.state ≡ zero_state)) ⊎ (f ≡ holds s.state)

load-Synced : (path : String) (read_ok : Bool) (f : File) → Synced (opened (load path read_ok f)) f
unfolding load
load-Synced path false f = tt
load-Synced path true missing = inl (refl, refl)
load-Synced path true garbled = tt
load-Synced path true (holds s) = inr refl

-- An advance hands out a new epoch, which is the file's, or none, and then changes nothing.
advance-epoch :
    (reason : Reason) (at : ℕ) (write_ok : Bool) (s : Store) (f : File) (rest : List ℕ)
    → epoch_of f + 1 < 2 ^ 64
    → Synced (some s) f
    → let r = advance reason at write_ok s f in
      ((Synced (some r.0) r.1) × (r.1 ≡ f) × (handed r.2 rest ≡ rest))
      ⊎ ((Synced (some r.0) r.1)
          × (epoch_of r.1 ≡ epoch_of f + 1)
          × (handed r.2 rest ≡ epoch_of r.1 ∷ rest))
unfolding advance
advance-epoch reason at false s f rest h y = ground arith
advance-epoch reason at true s f rest h y = ground arith

life-Rising :
    (ms : List Move) (st : Option Store) (f : File)
    → epoch_of f + length ms < 2 ^ 64
    → Synced st f
    → Rising (epoch_of f) (life ms st f)
unfolding life
life-Rising [] st f h y = tt
life-Rising (reopens path read_ok ∷ ms) st f h y =
    life-Rising ms _ f (omega arith) (load-Synced path read_ok f)
life-Rising (advances reason at write_ok ∷ ms) none f h y = life-Rising ms none f (omega arith) tt
life-Rising (advances reason at write_ok ∷ ms) (some s) f h y =
    let r = advance reason at write_ok s f in
    elim (advance-epoch reason at write_ok s f (life ms (some r.0) r.1) (omega arith) y) [
      | inl (y', same, nothing) ↦ rw nothing (
          subst (λ n. Rising n (life ms (some r.0) r.1)) (ap epoch_of same)
            (life-Rising ms (some r.0) r.1 (omega (arith, ap epoch_of same)) y'))
      | inr (y', more, given) ↦
          rw given (omega (arith, more), life-Rising ms (some r.0) r.1 (omega (arith, more)) y')
    ]

-- Over any history of an instance that starts with no state file, with crashes, failing reads and
-- writes and unknown reasons at any point, each epoch that is handed out is above all that were
-- handed out before, as long as the uint64 cannot wrap.
pub life-never_reissues : (ms : List Move) → length ms < 2 ^ 64 → Rising 0 (life ms none missing)
life-never_reissues ms h = life-Rising ms none missing (omega arith) tt
