-- ===== src/AtomicFile/Atomicity.antt =====
-- What a reader of the target sees of a WriteFile (utils/atomicfile).
use opdl.Base.{
  ℕ, ◌≡◌, refl, sym, ◌∙◌, ◌⊎◌, inl, inr, subst, Bool-cases, Option-cases, String, true, List, [],
  ◌∷◌, Option, none, some, arith, eq_iff, ◌==◌, string_eq,
}
use opdl.AtomicFile.Write.{
  Files, set, Calls, Created, created, open_failed, exhausted, create_temp_file, Replaced, replaced,
  not_replaced, undecided, replace_file, Failure, write, close, replace, no_decision, Outcome,
  remove_temp, rounds, fill, write_file,
}
use opdl.AtomicFile.Attempts.{Waits, replace_file-IsDecided, create_temp_file-created}

set-other :
    (p q : String) (content : Option (List ℕ)) (files : Files)
    → ¬ (p ≡ q)
    → set p content files q ≡ files q
set-other p q content files d = ground (arith, eq_iff p q)

set-same :
    (p : String) (content : Option (List ℕ)) (files : Files) → set p content files p ≡ content
set-same p content files = ground (arith, eq_iff p p)

-- The target is as it was.
abbrev AllKeep : String → Files → List Files → Type 0
AllKeep path before [] = Unit {0}
AllKeep path before (now ∷ seen) = (now path ≡ before path) × AllKeep path before seen

-- Up to the last call the target is as it was; after it, it is the whole content if the call
-- succeeds, and else as it was.
abbrev IsAtomic : String → List ℕ → Files → Outcome → Type 0
IsAtomic path content before o =
    (AllKeep path before o.earlier)
    × (o.last path ≡ elim o.failure [ none ↦ some content | some _ ↦ before path ])

-- No other file is changed, the temporary one included, unless its removal fails.
abbrev IsClean : Calls → String → Files → Outcome → Type 0
IsClean c path before o =
    (q : String) → (o.last q ≡ before q) ⊎ ((q ≡ path) ⊎ (c.remove_fails ≡ true))

-- An atomic and clean write, whose replacement came to an end.
abbrev pub IsSafe : Calls → String → List ℕ → Files → Outcome → Type 0
IsSafe c path content before o =
    IsAtomic path content before o × (IsClean c path before o × ¬ (o.failure ≡ some no_decision))

remove_temp-IsSafe :
    (c : Calls) (e : Failure) (path tmp : String) (content : List ℕ) (before now : Files)
    (seen : List Files)
    → ¬ (e ≡ no_decision)
    → ¬ (tmp ≡ path)
    → before tmp ≡ none
    → ((q : String) → ¬ (tmp ≡ q) → now q ≡ before q)
    → AllKeep path before seen
    → IsSafe c path content before (remove_temp c e seen tmp now)
remove_temp-IsSafe c e path tmp content before now seen k d h same s = (
  (
    (same path d, s),
    elim (Bool-cases c.remove_fails) [
      | inl b ↦ rw b (same path d)
      | inr b ↦ rw b (set-other tmp path none now d ∙ same path d)
    ],
  ),
  (clean, (λ u. k (ground arith))),
)
  where
    removed : (q : String) → set tmp none now q ≡ before q
    removed q = elim (Bool-cases (tmp == q)) [
      | inl b ↦
          let i : tmp ≡ q = ground (arith, eq_iff tmp q) in
          subst (λ x. set tmp none now x ≡ before x) i (set-same tmp none now ∙ sym h)
      | inr b ↦
          let n : ¬ (tmp ≡ q) = ground (arith, eq_iff tmp q) in
          set-other tmp q none now n ∙ same q n
    ]

    clean : IsClean c path before (remove_temp c e seen tmp now)
    clean q = elim (Bool-cases c.remove_fails) [
      | inl b ↦ inr (inr b)
      | inr b ↦ inl (rw b (removed q))
    ]

Replaced-cases : (r : Replaced) → (r ≡ replaced) ⊎ ((r ≡ not_replaced) ⊎ (r ≡ undecided))
Replaced-cases replaced = inl refl
Replaced-cases not_replaced = inr (inl refl)
Replaced-cases undecided = inr (inr refl)

-- The files after the rename.
abbrev renamed : (path tmp : String) → (content : List ℕ) → Files → Files
renamed path tmp content before =
    let full = set tmp (some content) before in set tmp none (set path (full tmp) full)

renamed-path :
    (path tmp : String) (content : List ℕ) (before : Files)
    → ¬ (tmp ≡ path)
    → renamed path tmp content before path ≡ some content
renamed-path path tmp content before d =
    let full = set tmp (some content) before in
    set-other tmp path none (set path (full tmp) full) d
    ∙ set-same path (full tmp) full
    ∙ set-same tmp (some content) before

renamed-others :
    (path tmp q : String) (content : List ℕ) (before : Files)
    → before tmp ≡ none
    → ¬ (q ≡ path)
    → renamed path tmp content before q ≡ before q
renamed-others path tmp q content before h n =
    let full = set tmp (some content) before in
    let moved = set path (full tmp) full in
    elim (Bool-cases (tmp == q)) [
      | inl b ↦
          let i : tmp ≡ q = ground (arith, eq_iff tmp q) in
          subst (λ x. set tmp none moved x ≡ before x) i (set-same tmp none moved ∙ sym h)
      | inr b ↦
          let k : ¬ (tmp ≡ q) = ground (arith, eq_iff tmp q) in
          set-other tmp q none moved k
          ∙ set-other path q (full tmp) full (λ u. n (sym u))
          ∙ set-other tmp q (some content) before k
    ]

fill-IsSafe :
    (c : Calls) (path tmp : String) (content : List ℕ) (before : Files)
    → Waits c
    → ¬ (tmp ≡ path)
    → before tmp ≡ none
    → IsSafe c path content before (fill c path content tmp before)
unfolding fill
fill-IsSafe c path tmp content before w d h = elim (Option-cases c.short) [
  | inr (n, s) ↦ rw (s, fill) (fails write _ (λ u. absurd (ground arith)))
  | inl s ↦ elim (Bool-cases c.close_fails) [
    | inl b ↦ rw (s, fill, b) (fails close _ (λ u. absurd (ground arith)))
    | inr b ↦ elim (Replaced-cases (replace_file c rounds 0)) [
      | inl r ↦
          rw (s, fill, b, r)
            (
              (
                (
                  set-other tmp path (some content) before d,
                  (set-other tmp path (some []) before d, tt),
                ),
                renamed-path path tmp content before d,
              ),
              (
                (λ q. elim (Bool-cases (q == path)) [
                  | inl b ↦ inr (inl (ground (arith, eq_iff q path)))
                  | inr b ↦
                      let n : ¬ (q ≡ path) = ground (arith, eq_iff q path) in
                      inl (renamed-others path tmp q content before h n)
                ]),
                (λ u. absurd (ground arith)),
              ),
            )
      | inr (inl r) ↦ rw (s, fill, b, r) (fails replace _ (λ u. absurd (ground arith)))
      | inr (inr r) ↦ absurd (replace_file-IsDecided c rounds 0 w refl (omega arith) r)
    ]
  ]
]
  where
    fails :
        (e : Failure) (written : List ℕ)
        → ¬ (e ≡ no_decision)
        → IsSafe c path content before
            (remove_temp c e (set tmp (some []) before ∷ []) tmp (set tmp (some written) before))
    fails e written k =
        remove_temp-IsSafe c e path tmp content before (set tmp (some written) before)
          (set tmp (some []) before ∷ []) k d h (λ q n. set-other tmp q (some written) before n)
          (set-other tmp path (some []) before d, tt)

-- However the calls of package os fail and wherever a write stops short, a reader of the target
-- finds it as it was until WriteFile's last call, and after that finds the whole content if
-- WriteFile succeeds, and what was there if it fails. No other file is changed, and the temporary
-- file is gone, unless its removal fails. The retries of the replacement come to an end. This
-- holds if time.Sleep waits at least as long as it is told and if no temporary file's name is the
-- target's.
pub write_file-IsSafe :
    (temp : ℕ → String) (c : Calls) (path : String) (content : List ℕ) (seq : ℕ) (before : Files)
    → Waits c
    → ((n : ℕ) → ¬ (temp n ≡ path))
    → IsSafe c path content before (write_file temp c path content seq before)
unfolding write_file
write_file-IsSafe temp c path content seq before w d =
    go (create_temp_file temp c.refuses 10000 seq before) refl
  where
    go :
        (r : Created)
        → create_temp_file temp c.refuses 10000 seq before ≡ r
        → IsSafe c path content before (write_file temp c path content seq before)
    go open_failed e =
        rw (e, write_file) ((tt, refl), ((λ q. inl refl), (λ u. absurd (ground arith))))
    go exhausted e =
        rw (e, write_file) ((tt, refl), ((λ q. inl refl), (λ u. absurd (ground arith))))
    go (created tmp) e =
        let (n, (i, h)) = create_temp_file-created temp c.refuses 10000 seq before tmp e in
        rw (e, write_file) (fill-IsSafe c path tmp content before w (λ u. d n (sym i ∙ u)) h)
