-- ===== src/HealthFabric/Accounting.antt =====
-- The publisher's steps account for every observation that is published (healthfabric/publisher.go).
use opdl.Base.{
  suc, ◌+◌, ◌≤◌, ◌<◌, ◌^◌, ◌≡◌, refl, ap, String, Bool, true, false, ◌&&◌, List, [], ◌∷◌, ◌++◌,
  Option, none, some, arith, string_eq, lookup, length, if◌then◌else◌,
}
use opdl.HealthView.Inventory.{Observation}
use opdl.HealthFabric.Message.{Identity}
use opdl.HealthFabric.Publisher.{
  Publisher, new_publisher, count, begin_drain, send_next, take_batch, is_pending, stamp, Step,
  publishes, wakes, sends, step, steps,
}
use opdl.HealthFabric.Fates.{
  Fates, no_fates, replaced, goes_out, next_fates, fates, passing_in, IsAccounted, passing-insert,
  passing-append, passing-in_order, IsAccounted-Small,
}

replaced-length :
    (o : Option Observation) (os : List Observation)
    → length (replaced o ++ os) ≡ (if is_pending o then suc (length os) else length os)
replaced-length none os = refl
replaced-length (some o) os = refl

publishes-IsAccounted :
    (o : Observation) (p : Publisher) (fs : Fates)
    → IsAccounted p fs
    → p.sequence + 1 < 2 ^ 64
    → IsAccounted (step (publishes o) p) (next_fates (publishes o) p fs)
unfolding step
publishes-IsAccounted o p fs h k =
    let small = IsAccounted-Small p fs h in
    let high = small.low_superseded in
    let s = h.sequenced in
    let more = replaced-length (lookup o.subject.service p.pending) fs.superseded in
    record {
      each = λ test.
          let e = h.each test in
          let i = passing-insert test o.subject.service (stamp p o) p.pending in
          let a =
            passing-append test (replaced (lookup o.subject.service p.pending)) fs.superseded in
          omega arith;
      numbered = (ground arith, h.numbered);
      sequenced = ground arith;
      counts_sent = h.counts_sent;
      counts_failed = h.counts_failed;
      counts_superseded = let c = h.counts_superseded in ground arith;
    }

begin_drain-IsAccounted :
    (p : Publisher) (fs : Fates) (batch : List (String × Observation))
    → p.batch ≡ batch
    → IsAccounted p fs
    → IsAccounted (begin_drain p batch) fs
unfolding take_batch
begin_drain-IsAccounted p fs (e ∷ es) same h = h
begin_drain-IsAccounted p fs [] same h = record {
  each = λ test.
      let e = h.each test in
      let gone = ap (passing_in test) same in
      let moved = passing-in_order test p.pending in omega arith;
  numbered = h.numbered;
  sequenced = h.sequenced;
  counts_sent = h.counts_sent;
  counts_failed = h.counts_failed;
  counts_superseded = h.counts_superseded;
}

fails_next :
    (p : Publisher) (fs : Fates) (x : String × Observation) (es : List (String × Observation))
    → p.batch ≡ x ∷ es
    → IsAccounted p fs
    → p.sequence + 1 < 2 ^ 64
    → IsAccounted
        (record p { batch = es; failed = count p.failed })
        (record fs { failed = x.1 ∷ fs.failed })
fails_next p fs x es same h k =
    let small = (IsAccounted-Small p fs h).low_failed in
    let c = h.counts_failed in
    record {
      each = λ test. let e = h.each test in let gone = ap (passing_in test) same in omega arith;
      numbered = h.numbered;
      sequenced = h.sequenced;
      counts_sent = h.counts_sent;
      counts_failed = omega arith;
      counts_superseded = h.counts_superseded;
    }

send_next-IsAccounted :
    (encodes accepts : Bool) (p : Publisher) (fs : Fates) (batch : List (String × Observation))
    → p.batch ≡ batch
    → IsAccounted p fs
    → p.sequence + 1 < 2 ^ 64
    → IsAccounted (send_next encodes accepts p batch) (goes_out (encodes && accepts) batch fs)
unfolding send_next
send_next-IsAccounted encodes accepts p fs [] same h k = h
send_next-IsAccounted true true p fs (x ∷ es) same h k =
    let small = (IsAccounted-Small p fs h).low_sent in
    let c = h.counts_sent in
    record {
      each = λ test. let e = h.each test in let gone = ap (passing_in test) same in omega arith;
      numbered = h.numbered;
      sequenced = h.sequenced;
      counts_sent = omega arith;
      counts_failed = h.counts_failed;
      counts_superseded = h.counts_superseded;
    }
send_next-IsAccounted true false p fs (x ∷ es) same h k = fails_next p fs x es same h k
send_next-IsAccounted false accepts p fs (x ∷ es) same h k = fails_next p fs x es same h k

step-IsAccounted :
    (s : Step) (p : Publisher) (fs : Fates)
    → IsAccounted p fs
    → p.sequence + 1 < 2 ^ 64
    → IsAccounted (step s p) (next_fates s p fs)
unfolding step
step-IsAccounted (publishes o) p fs h k = publishes-IsAccounted o p fs h k
step-IsAccounted wakes p fs h k = begin_drain-IsAccounted p fs p.batch refl h
step-IsAccounted (sends encodes accepts) p fs h k =
    send_next-IsAccounted encodes accepts p fs p.batch refl h k

step-sequence : (s : Step) (p : Publisher) → (step s p).sequence ≤ p.sequence + 1
unfolding step
step-sequence (publishes o) p = ground arith
step-sequence wakes p = ground arith
step-sequence (sends encodes accepts) p = ground arith

fates-IsAccounted :
    (ss : List Step) (p : Publisher) (fs : Fates)
    → IsAccounted p fs
    → p.sequence + length ss < 2 ^ 64
    → IsAccounted (steps ss p) (fates ss p fs)
unfolding steps
fates-IsAccounted [] p fs h k = h
fates-IsAccounted (s ∷ ss) p fs h k =
    fates-IsAccounted ss (step s p) (next_fates s p fs) (step-IsAccounted s p fs h (omega arith))
      (omega (arith, step-sequence s p))

-- However publishing, draining and sending interleave, and whatever fails to be encoded or sent, each
-- published observation, which its sequence tells from all others, is in exactly one place: sent,
-- failed, superseded by a later one for its service, in flight or pending. The publisher's counters
-- are the numbers of those that are sent, failed and superseded, and its sequence that of those ever
-- published. The sequence cannot wrap within the steps.
pub steps-IsAccounted :
    (i : Identity) (ss : List Step)
    → length ss < 2 ^ 64
    → IsAccounted (steps ss (new_publisher i)) (fates ss (new_publisher i) no_fates)
unfolding new_publisher
steps-IsAccounted i ss h = fates-IsAccounted ss (new_publisher i) no_fates begun (omega (arith, h))
  where
    begun : IsAccounted (new_publisher i) no_fates
    begun = record {
      each = λ test. refl;
      numbered = tt;
      sequenced = refl;
      counts_sent = refl;
      counts_failed = refl;
      counts_superseded = refl;
    }
