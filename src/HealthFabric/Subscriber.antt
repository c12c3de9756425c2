-- ===== src/HealthFabric/Subscriber.antt =====
-- platform/internal/site/healthfabric/subscriber.go: what becomes of the messages that arrive.
-- Deliveries are one at a time, each with the reading of the view's clock.
use opdl.Base.{
  ℕ, ◌+◌, ◌≤◌, ◌<◌, ◌^◌, ◌≡◌, refl, ap, ◌∙◌, List, [], ◌∷◌, Option-cases, inl, inr, arith, length,
  lookup,
}
use opdl.HealthView.Inventory.{key_eq, Deployment, Observation, DropReason, drop_none}
use opdl.HealthView.View.{View, UnitState, apply, apply_all, settle, judge, dropped}
use opdl.HealthView.Accounting.{total, applied, apply_all-total}
use opdl.HealthFabric.Message.{
  Codec, RejectReason, oversize, malformed, wrong_version, foreign_deployment, incomplete,
  impossible, Decoded, accepted, rejected, decode,
}
use opdl.HealthFabric.Publisher.{count}

-- uint64 counters, one for each reason.
pub record Rejects : Type 0 where
  pub oversizes : ℕ
  pub malformeds : ℕ
  pub versions : ℕ
  pub foreigns : ℕ
  pub incompletes : ℕ
  pub impossibles : ℕ

abbrev pub no_rejects : Rejects
no_rejects = record {
  oversizes = 0;
  malformeds = 0;
  versions = 0;
  foreigns = 0;
  incompletes = 0;
  impossibles = 0;
}

pub record Subscriber : Type 0 where
  pub view : View
  pub rejects : Rejects
  pub seen : ℕ

-- The subscriber that `Subscribe` returns, once the subscription stands.
abbrev pub new_subscriber : View → Subscriber
new_subscriber v = record { view = v; rejects = no_rejects; seen = 0 }

unfoldable pub count_reject : RejectReason → Rejects → Rejects
count_reject oversize r = record r { oversizes = count r.oversizes }
count_reject malformed r = record r { malformeds = count r.malformeds }
count_reject wrong_version r = record r { versions = count r.versions }
count_reject foreign_deployment r = record r { foreigns = count r.foreigns }
count_reject incomplete r = record r { incompletes = count r.incompletes }
count_reject impossible r = record r { impossibles = count r.impossibles }

-- The rest of `deliver`, after the message was counted and decoded.
unfoldable pub receive : (now : ℕ) → Decoded → Subscriber → Subscriber
unfolding count_reject
receive now (rejected reason) s = record s { rejects = count_reject reason s.rejects }
receive now (accepted o) s = record s { view = (apply now o s.view).0 }

unfoldable pub deliver : Codec → (now : ℕ) → List ℕ → Subscriber → Subscriber
unfolding receive
deliver codec now data_bytes s =
    receive now (decode codec s.view.deployment data_bytes) (record s { seen = count s.seen })

unfoldable pub deliver_all : Codec → List (ℕ × List ℕ) → Subscriber → Subscriber
unfolding deliver
deliver_all codec [] s = s
deliver_all codec ((now, data_bytes) ∷ ms) s = deliver_all codec ms (deliver codec now data_bytes s)

abbrev pub rejects_total : Rejects → ℕ
rejects_total r =
    r.oversizes + r.malformeds + r.versions + r.foreigns + r.incompletes + r.impossibles

-- What decoding lets through, in order.
abbrev kept : (now : ℕ) → Decoded → List (ℕ × Observation) → List (ℕ × Observation)
kept now (rejected reason) rest = rest
kept now (accepted o) rest = (now, o) ∷ rest

abbrev pub reports_of : Codec → Deployment → List (ℕ × List ℕ) → List (ℕ × Observation)
reports_of codec d [] = []
reports_of codec d ((now, data_bytes) ∷ ms) =
    kept now (decode codec d data_bytes) (reports_of codec d ms)

settle-deployment :
    (now : ℕ) (o : Observation) (s : UnitState) (reason : DropReason) (v : View)
    → (settle now o s reason v).0.deployment ≡ v.deployment
unfolding settle dropped
settle-deployment now o s drop_none v = refl
settle-deployment now o s _ v = refl

apply-deployment :
    (now : ℕ) (o : Observation) (v : View) → (apply now o v).0.deployment ≡ v.deployment
unfolding apply dropped
apply-deployment now o v = elim (Option-cases (lookup o.subject v.units)) [
  | inl e ↦ rw (e, apply) refl
  | inr (s, e) ↦ rw (e, apply) (settle-deployment now o s (judge o s) v)
]

receive-view :
    (now : ℕ) (r : Decoded) (s : Subscriber) (rest : List (ℕ × Observation))
    → ((receive now r s).view.deployment ≡ s.view.deployment)
      × (apply_all rest (receive now r s).view ≡ apply_all (kept now r rest) s.view)
unfolding receive apply_all
receive-view now (rejected reason) s rest = (refl, refl)
receive-view now (accepted o) s rest = (apply-deployment now o s.view, refl)

-- The view that a subscriber feeds is the fold of the reports that the messages carry, in the order
-- of their delivery; a message that carries none leaves it as it was.
deliver_all-apply_all :
    (codec : Codec) (ms : List (ℕ × List ℕ)) (s : Subscriber)
    → (deliver_all codec ms s).view ≡ apply_all (reports_of codec s.view.deployment ms) s.view
unfolding deliver_all apply_all
deliver_all-apply_all codec [] s = refl
deliver_all-apply_all codec ((now, data_bytes) ∷ ms) s =
    let d = decode codec s.view.deployment data_bytes in
    let s' = record s { seen = count s.seen } in
    let (same, view) = receive-view now d s' (reports_of codec s.view.deployment ms) in
    deliver_all-apply_all codec ms (deliver codec now data_bytes s)
    ∙ ap (λ e. apply_all (reports_of codec e ms) (deliver codec now data_bytes s).view) same
    ∙ view

receive-counts :
    (now : ℕ) (r : Decoded) (s : Subscriber) (rest : List (ℕ × Observation))
    → rejects_total s.rejects + 1 < 2 ^ 64
    → rejects_total (receive now r s).rejects + length (kept now r rest)
      ≡ rejects_total s.rejects + length rest + 1
unfolding receive
receive-counts now (rejected oversize) s rest h = ground arith
receive-counts now (rejected malformed) s rest h = ground arith
receive-counts now (rejected wrong_version) s rest h = ground arith
receive-counts now (rejected foreign_deployment) s rest h = ground arith
receive-counts now (rejected incomplete) s rest h = ground arith
receive-counts now (rejected impossible) s rest h = ground arith
receive-counts now (accepted o) s rest h = ground arith

receive-room :
    (now : ℕ) (r : Decoded) (s : Subscriber)
    → rejects_total s.rejects + 1 < 2 ^ 64
    → rejects_total (receive now r s).rejects ≤ rejects_total s.rejects + 1
receive-room now r s h = omega (arith, receive-counts now r s [] h)

deliver_all-rejects :
    (codec : Codec) (ms : List (ℕ × List ℕ)) (s : Subscriber)
    → rejects_total s.rejects + length ms < 2 ^ 64
    → rejects_total (deliver_all codec ms s).rejects
        + length (reports_of codec s.view.deployment ms)
      ≡ rejects_total s.rejects + length ms
unfolding deliver_all
deliver_all-rejects codec [] s h = omega arith
deliver_all-rejects codec ((now, data_bytes) ∷ ms) s h =
    let d = decode codec s.view.deployment data_bytes in
    let s' = record s { seen = count s.seen } in
    let same = (receive-view now d s' []).0 in
    let few = receive-room now d s' (omega arith) in
    let here = receive-counts now d s' (reports_of codec s.view.deployment ms) (omega arith) in
    let there = deliver_all-rejects codec ms (receive now d s') (omega (arith, few)) in
    omega (arith, here, there, ap (λ e. length (reports_of codec e ms)) same)

receive-seen : (now : ℕ) (r : Decoded) (s : Subscriber) → (receive now r s).seen ≡ s.seen
unfolding receive
receive-seen now (rejected reason) s = refl
receive-seen now (accepted o) s = refl

deliver_all-seen :
    (codec : Codec) (ms : List (ℕ × List ℕ)) (s : Subscriber)
    → s.seen + length ms < 2 ^ 64
    → (deliver_all codec ms s).seen ≡ s.seen + length ms
unfolding deliver_all
deliver_all-seen codec [] s h = omega arith
deliver_all-seen codec ((now, data_bytes) ∷ ms) s h =
    let s' = record s { seen = count s.seen } in
    let d = decode codec s.view.deployment data_bytes in
    let seen = receive-seen now d s' in
    omega (arith, seen, deliver_all-seen codec ms (receive now d s') (omega (arith, seen)))

-- The messages that a new subscriber rejected, the reports that its view applied and those that it
-- dropped since add up to the messages delivered, as long as no counter can wrap.
deliver_all-accounted :
    (codec : Codec) (ms : List (ℕ × List ℕ)) (v : View)
    → total v.drops + length ms < 2 ^ 64
    → let s = deliver_all codec ms (new_subscriber v) in
      total v.drops + s.seen
      ≡ rejects_total s.rejects + total s.view.drops + applied (reports_of codec v.deployment ms) v
deliver_all-accounted codec ms v h =
    let s = new_subscriber v in
    let all = deliver_all-rejects codec ms s (omega arith) in
    let folded = deliver_all-apply_all codec ms s in
    let reports = apply_all-total (reports_of codec v.deployment ms) v (omega (arith, all)) in
    omega (
      arith,
      all,
      reports,
      deliver_all-seen codec ms s (omega arith),
      ap (λ w. total w.drops) folded,
    )
