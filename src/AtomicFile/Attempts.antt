-- ===== src/AtomicFile/Attempts.antt =====
-- The two loops of utils/atomicfile: the choice of a name and the retries of the rename.
use opdl.Base.{
  ℕ, ◌≡◌, refl, sym, ◌+◌, ◌*◌, ◌≤◌, ◌⊎◌, inl, inr, subst, Bool-cases, Option-cases, String, Bool,
  none, arith, string_eq, ltb, zero, suc, ◌^◌, ◌%◌,
}
use opdl.AtomicFile.Write.{
  Files, Renaming, done, shared, refused, Calls, created, create_temp_file, replace_retry_interval,
  replace_timeout, Replaced, undecided, replace_file, rounds,
}

abbrev pub IsDecided : Replaced → Type 0
IsDecided r = ¬ (r ≡ undecided)

-- time.Sleep waits at least as long as it is told.
abbrev pub Waits : Calls → Type 0
Waits c = (r : ℕ) → c.started + r * replace_retry_interval ≤ c.clock r

Renaming-cases : (r : Renaming) → (r ≡ done) ⊎ ((r ≡ refused) ⊎ (r ≡ shared))
Renaming-cases done = inl refl
Renaming-cases refused = inr (inl refl)
Renaming-cases shared = inr (inr refl)

-- By round 101 the second is over.
pub replace_file-IsDecided :
    (c : Calls) (fuel round : ℕ)
    → Waits c
    → fuel + round ≡ rounds
    → round ≤ 101
    → IsDecided (replace_file c fuel round)
unfolding replace_file
replace_file-IsDecided c zero round w e h = absurd (omega arith)
replace_file-IsDecided c (suc fuel) round w e h = elim (Renaming-cases (c.renames round)) [
  | inl r ↦ rw (r, replace_file) (λ u. absurd (ground arith))
  | inr (inl r) ↦ rw (r, replace_file) (λ u. absurd (ground arith))
  | inr (inr r) ↦ elim (Bool-cases (ltb (c.started + replace_timeout) (c.clock round))) [
    | inl b ↦ rw (r, replace_file, b) (λ u. absurd (ground arith))
    | inr b ↦
        let k = w round in
        let early : suc round ≤ 101 = ground arith in
        rw (r, replace_file, b) (replace_file-IsDecided c fuel (suc round) w (omega arith) early)
  ]
]

-- The temporary file is a new one.
pub create_temp_file-created :
    (temp : ℕ → String) (refuses : ℕ → Bool) (attempts seq : ℕ) (files : Files) (tmp : String)
    → create_temp_file temp refuses attempts seq files ≡ created tmp
    → (n : ℕ) × ((tmp ≡ temp n) × (files tmp ≡ none))
unfolding create_temp_file
create_temp_file-created temp refuses zero seq files tmp e = absurd (ground arith)
create_temp_file-created temp refuses (suc attempts) seq files tmp e =
    let next = (seq + 1) % 2 ^ 64 in
    elim (Bool-cases (refuses next)) [
      | inl b ↦ absurd (ground arith)
      | inr b ↦ elim (Option-cases (files (temp next))) [
        | inl f ↦
            let i : temp next ≡ tmp = ground arith in
            (next, (sym i, subst (λ x. files x ≡ none) i f))
        | inr (content, f) ↦
            create_temp_file-created temp refuses attempts next files tmp (ground arith)
      ]
    ]
