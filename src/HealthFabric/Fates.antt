-- ===== src/HealthFabric/Fates.antt =====
-- A publisher's observations and what comes of each (healthfabric/publisher.go).
use opdl.Base.{
  ℕ, suc, ◌+◌, ◌≤◌, ◌≡◌, refl, ap, ◌∙◌, String, Bool, true, false, ◌&&◌, List, [], ◌∷◌, ◌++◌,
  Option, none, some, arith, string_eq, lookup, insert, length, if◌then◌else◌,
}
use opdl.HealthView.Inventory.{Observation}
use opdl.HealthFabric.Publisher.{
  Publisher, stamp, insert_entry, in_order, Step, publishes, wakes, sends, step,
}

-- What a publisher has been given, as it stamped it, and what came of it; newest first.
pub record Fates : Type 0 where
  pub published : List Observation
  pub sent : List Observation
  pub failed : List Observation
  pub superseded : List Observation

abbrev pub no_fates : Fates
no_fates = record { published = []; sent = []; failed = []; superseded = [] }

abbrev pub replaced : Option Observation → List Observation
replaced none = []
replaced (some o) = o ∷ []

abbrev pub goes_out : Bool → List (String × Observation) → Fates → Fates
goes_out arrives [] fs = fs
goes_out true (e ∷ es) fs = record fs { sent = e.1 ∷ fs.sent }
goes_out false (e ∷ es) fs = record fs { failed = e.1 ∷ fs.failed }

-- The fate that a step gives, by the state before it: a publication supersedes what is pending for its
-- service, and the first of a batch is sent if it is encoded and accepted, and fails otherwise.
abbrev pub next_fates : Step → Publisher → Fates → Fates
next_fates (publishes o) p fs = record fs {
  published = stamp p o ∷ fs.published;
  superseded = replaced (lookup o.subject.service p.pending) ++ fs.superseded;
}
next_fates wakes p fs = fs
next_fates (sends encodes accepts) p fs = goes_out (encodes && accepts) p.batch fs

abbrev pub fates : List Step → Publisher → Fates → Fates
fates [] p fs = fs
fates (s ∷ ss) p fs = fates ss (step s p) (next_fates s p fs)

-- How many observations of a list pass a test, and of a map's.
abbrev pub passing : (Observation → Bool) → List Observation → ℕ
passing test [] = 0
passing test (o ∷ os) = (if test o then 1 else 0) + passing test os

abbrev pub passing_in : (Observation → Bool) → List (String × Observation) → ℕ
passing_in test [] = 0
passing_in test (e ∷ es) = (if test e.1 then 1 else 0) + passing_in test es

-- The observations are numbered from 1 on.
abbrev pub AreNumbered : List Observation → Type 0
AreNumbered [] = Unit {0}
AreNumbered (o ∷ os) = (o.sequence ≡ suc (length os)) × AreNumbered os

-- Whatever is asked of an observation, as many of the published ones pass as of those that are sent,
-- failed, superseded, in flight and pending together; no two published ones have one sequence, and
-- the publisher's counters count what they name.
pub record IsAccounted (p : Publisher) (fs : Fates) : Type 0 where
  pub each :
      (test : Observation → Bool)
      → passing test fs.published
        ≡ passing test fs.sent
          + passing test fs.failed
          + passing test fs.superseded
          + passing_in test p.batch
          + passing_in test p.pending
  pub numbered : AreNumbered fs.published
  pub sequenced : p.sequence ≡ length fs.published
  pub counts_sent : p.sent ≡ length fs.sent
  pub counts_failed : p.failed ≡ length fs.failed
  pub counts_superseded : p.superseded ≡ length fs.superseded

pub passing-insert :
    (test : Observation → Bool) (k : String) (o : Observation) (m : List (String × Observation))
    → passing_in test (insert k o m) + passing test (replaced (lookup k m))
      ≡ passing_in test m + (if test o then 1 else 0)
unfolding insert lookup
passing-insert test k o [] = ground arith
passing-insert test k o ((j, p) ∷ m) = ground (arith, passing-insert test k o m)

pub passing-append :
    (test : Observation → Bool) (os more : List Observation)
    → passing test (os ++ more) ≡ passing test os + passing test more
passing-append test [] more = omega arith
passing-append test (o ∷ os) more = let h = passing-append test os more in omega arith

passing-insert_entry :
    (test : Observation → Bool) (e : String × Observation) (es : List (String × Observation))
    → passing_in test (insert_entry e es) ≡ (if test e.1 then 1 else 0) + passing_in test es
unfolding insert_entry
passing-insert_entry test e [] = refl
passing-insert_entry test e (x ∷ xs) = ground (arith, passing-insert_entry test e xs)

pub passing-in_order :
    (test : Observation → Bool) (es : List (String × Observation))
    → passing_in test (in_order es) ≡ passing_in test es
unfolding in_order
passing-in_order test [] = refl
passing-in_order test (e ∷ es) =
    passing-insert_entry test e (in_order es)
    ∙ ap (λ n. (if test e.1 then 1 else 0) + n) (passing-in_order test es)

-- Every count is at most the sequence.
pub record Small (p : Publisher) : Type 0 where
  pub low_sent : p.sent ≤ p.sequence
  pub low_failed : p.failed ≤ p.sequence
  pub low_superseded : p.superseded ≤ p.sequence

passing_all : (os : List Observation) → passing (λ o. true) os ≡ length os
passing_all [] = refl
passing_all (o ∷ os) = let h = passing_all os in omega arith

pub IsAccounted-Small : (p : Publisher) (fs : Fates) → IsAccounted p fs → Small p
IsAccounted-Small p fs h =
    let e = h.each (λ o. true) in
    let a = passing_all fs.published in
    let b = passing_all fs.sent in
    let c = passing_all fs.failed in
    let d = passing_all fs.superseded in
    let s = h.sequenced in
    let x = h.counts_sent in
    let y = h.counts_failed in
    let z = h.counts_superseded in
    record { low_sent = omega arith; low_failed = omega arith; low_superseded = omega arith }
