-- ===== src/AtomicFile/Write.antt =====
-- utils/atomicfile/write.go and replace.go: a file is written beside its target and renamed over it.
-- The files are those that the calls of package os leave; a call that fails leaves them as they
-- are, but for a write that stops short. What each call does is an argument, and so are the names
-- that filepath.Join and fmt.Sprintf make of a sequence number.
use opdl.Base.{
  ℕ, ◌+◌, ◌^◌, ◌%◌, String, Bool, true, false, List, [], ◌∷◌, Option, none, some, ltb, zero, suc,
  if◌then◌else◌, ◌==◌, string_eq,
}

abbrev pub Files : Type 0
Files = String → Option (List ℕ)

abbrev pub set : String → Option (List ℕ) → Files → Files
set path content files q = if path == q then content else files q

abbrev pub take : ℕ → List ℕ → List ℕ
take zero bs = []
take (suc n) [] = []
take (suc n) (b ∷ bs) = b ∷ take n bs

-- os.Rename: access denied and a sharing violation are `shared`, other errors `refused`.
pub data Renaming : Type 0 where
  done shared refused : Renaming

-- What the calls of one WriteFile do.
pub record Calls : Type 0 where
  -- os.OpenFile with O_EXCL fails for a reason other than an existing file.
  pub refuses : ℕ → Bool
  -- f.Write stops after so many bytes.
  pub short : Option ℕ
  pub close_fails : Bool
  -- By the round of `replaceFile`.
  pub renames : ℕ → Renaming
  -- The clock where `replaceFile` starts and where it reads it in each round, in nanoseconds.
  pub started : ℕ
  pub clock : ℕ → ℕ
  pub remove_fails : Bool

pub data Created : Type 0 where
  created : String → Created
  open_failed exhausted : Created

-- `createTempFile`, `attempts` of its rounds left and `tempSeq` at `seq`.
unfoldable pub create_temp_file :
    (temp : ℕ → String) → (refuses : ℕ → Bool) → (attempts seq : ℕ) → Files → Created
create_temp_file temp refuses zero seq files = exhausted
create_temp_file temp refuses (suc attempts) seq files =
    let next = (seq + 1) % 2 ^ 64 in
    elim (refuses next) [
      | true ↦ open_failed
      | false ↦ elim (files (temp next)) [
        | some _ ↦ create_temp_file temp refuses attempts next files
        | none ↦ created (temp next)
      ]
    ]

abbrev pub replace_retry_interval : ℕ
replace_retry_interval = 10000000

abbrev pub replace_timeout : ℕ
replace_timeout = 1000000000

pub data Replaced : Type 0 where
  replaced not_replaced undecided : Replaced

-- `replaceFile` from a round on, on fuel.
unfoldable pub replace_file : Calls → (fuel round : ℕ) → Replaced
replace_file c zero round = undecided
replace_file c (suc fuel) round = elim (c.renames round) [
  | done ↦ replaced
  | refused ↦ not_replaced
  | shared ↦ elim (ltb (c.started + replace_timeout) (c.clock round)) [
    | true ↦ not_replaced
    | false ↦ replace_file c fuel (suc round)
  ]
]

pub data Failure : Type 0 where
  create write close replace no_decision : Failure

-- What a call returns, the files after each call of package os but the last, the latest first, and
-- after the last.
pub record Outcome : Type 0 where
  pub failure : Option Failure
  pub earlier : List Files
  pub last : Files

-- The deferred removal.
abbrev pub remove_temp : Calls → Failure → List Files → String → Files → Outcome
remove_temp c e seen tmp files = record {
  failure = some e;
  earlier = files ∷ seen;
  last = if c.remove_fails then files else set tmp none files;
}

-- The rounds that `replaceFile` has at most.
abbrev pub rounds : ℕ
rounds = 102

-- `WriteFile` from the opened temporary file on.
unfoldable pub fill :
    Calls → (path : String) → (content : List ℕ) → (tmp : String) → Files → Outcome
fill c path content tmp files =
    let opened = set tmp (some []) files in
    elim c.short [
      | some n ↦ remove_temp c write (opened ∷ []) tmp (set tmp (some (take n content)) files)
      | none ↦
          let full = set tmp (some content) files in
          elim c.close_fails [
            | true ↦ remove_temp c close (opened ∷ []) tmp full
            | false ↦ elim (replace_file c rounds 0) [
              | replaced ↦ record {
                failure = none;
                earlier = full ∷ opened ∷ [];
                last = set tmp none (set path (full tmp) full);
              }
              | not_replaced ↦ remove_temp c replace (opened ∷ []) tmp full
              | undecided ↦ remove_temp c no_decision (opened ∷ []) tmp full
            ]
          ]
    ]

-- `WriteFile`, `tempSeq` at `seq`.
unfoldable pub write_file :
    (temp : ℕ → String) → Calls → (path : String) → (content : List ℕ) → (seq : ℕ) → Files → Outcome
unfolding create_temp_file fill
write_file temp c path content seq files = elim (create_temp_file temp c.refuses 10000 seq files) [
  | created tmp ↦ fill c path content tmp files
  | open_failed ↦ record { failure = some create; earlier = []; last = files }
  | exhausted ↦ record { failure = some create; earlier = []; last = files }
]
