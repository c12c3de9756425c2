-- ===== src/AtomicFile/Tests.antt =====
-- WriteFile over a file, with a reader in the way of the first rename.
use opdl.Base.{
  ℕ, ◌+◌, ◌*◌, ◌≡◌, refl, String, false, [], ◌∷◌, none, some, zero, suc, arith, if◌then◌else◌, ◌==◌,
  string_eq, eq_iff,
}
use opdl.AtomicFile.Write.{
  Files, Renaming, done, shared, Calls, create_temp_file, replace_file, fill, write_file,
}
use opdl.AtomicFile.Attempts.{Waits}
use opdl.AtomicFile.Atomicity.{IsSafe, write_file-IsSafe}

abbrev before : Files
before q = if q == "lease.json" then some (1 ∷ 2 ∷ []) else none

abbrev shared_once : ℕ → Renaming
shared_once zero = shared
shared_once (suc round) = done

abbrev calls : Calls
calls = record {
  refuses = λ n. false;
  short = none;
  close_fails = false;
  renames = shared_once;
  started = 5;
  clock = λ r. 7 + r * 10000000;
  remove_fails = false;
}

abbrev temp : ℕ → String
temp n = ".lease.json.12.1.0a.tmp"

calls-Waits : Waits calls
calls-Waits r = omega arith

temp-differs : (n : ℕ) → ¬ (temp n ≡ "lease.json")
temp-differs n u = ground (arith, eq_iff (temp n) "lease.json")

write_file-IsSafe_example :
    IsSafe calls "lease.json" (3 ∷ []) before (write_file temp calls "lease.json" (3 ∷ []) 0 before)
write_file-IsSafe_example =
    write_file-IsSafe temp calls "lease.json" (3 ∷ []) 0 before calls-Waits temp-differs

-- Its run succeeds.
written :
    let o = write_file temp calls "lease.json" (3 ∷ []) 0 before in
    (o.failure ≡ none) × ((o.last "lease.json" ≡ some (3 ∷ [])) × (o.last (temp 1) ≡ none))
unfolding write_file create_temp_file fill replace_file
written = (refl, (refl, refl))
