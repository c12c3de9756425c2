-- ===== src/HealthFabric/Publisher.antt =====
-- platform/internal/site/healthfabric/publisher.go: the buffer between the probes and the broker.
-- `Publish` is one critical section. `drain` takes the pending map in another, and then sends what it
-- took one by one, while more may be published; a `Step` is one of these. Whether the codec and the
-- connection accept a message is what the environment supplies.
use Prim.Native.Nat.{Ordering}
use Prim.Native.String.{compare}
use opdl.Base.{
  ℕ, ◌+◌, ◌%◌, ◌^◌, String, Bool, true, false, ◌&&◌, List, [], ◌∷◌, Option, none, some, string_eq,
  lookup, insert, if◌then◌else◌,
}
use opdl.HealthView.Inventory.{Observation}
use opdl.HealthFabric.Message.{Identity}

pub record Publisher : Type 0 where
  pub identity : Identity
  -- Keyed by service.
  pub pending : List (String × Observation)
  -- What the running `drain` has taken and not sent yet.
  pub batch : List (String × Observation)
  pub sequence : ℕ
  pub sent : ℕ
  pub superseded : ℕ
  pub failed : ℕ

unfoldable pub new_publisher : Identity → Publisher
new_publisher i = record {
  identity = i;
  pending = [];
  batch = [];
  sequence = 0;
  sent = 0;
  superseded = 0;
  failed = 0;
}

-- uint64 counters wrap.
abbrev pub count : ℕ → ℕ
count n = (n + 1) % 2 ^ 64

abbrev pub is_pending : Option Observation → Bool
is_pending none = false
is_pending (some o) = true

-- The observation as this publisher stamps it.
abbrev pub stamp : Publisher → Observation → Observation
stamp p o = record o {
  subject = record { machine = p.identity.machine; service = o.subject.service };
  observer_role = p.identity.observer_role;
  epoch = p.identity.epoch;
  sequence = count p.sequence;
}

-- `Publish`, and the observation that it returns.
unfoldable pub publish : Observation → Publisher → Publisher × Observation
publish o p = (
  record p {
    sequence = count p.sequence;
    superseded =
        if is_pending (lookup o.subject.service p.pending)
        then count p.superseded
        else p.superseded;
    pending = insert o.subject.service (stamp p o) p.pending;
  },
  stamp p o,
)

-- `slices.Sorted(maps.Keys(batch))`, with the entries.
abbrev at_most : String → String → Bool
at_most s t = elim (compare s t) [ Ordering.gt ↦ false | _ ↦ true ]

unfoldable pub insert_entry :
    String × Observation → List (String × Observation) → List (String × Observation)
insert_entry e [] = e ∷ []
insert_entry e (x ∷ xs) = if at_most e.0 x.0 then e ∷ x ∷ xs else x ∷ insert_entry e xs

unfoldable pub in_order : List (String × Observation) → List (String × Observation)
unfolding insert_entry
in_order [] = []
in_order (e ∷ es) = insert_entry e (in_order es)

-- The head of `drain`.
unfoldable pub take_batch : Publisher → Publisher
take_batch p = record p { batch = in_order p.pending; pending = [] }

-- One round of its loop: the message is encoded and sent, or counted as failed.
unfoldable pub send_next :
    (encodes accepts : Bool) → Publisher → List (String × Observation) → Publisher
send_next encodes accepts p [] = p
send_next encodes accepts p (e ∷ es) =
    if encodes && accepts
    then record p { batch = es; sent = count p.sent }
    else record p { batch = es; failed = count p.failed }

pub data Step : Type 0 where
  publishes : Observation → Step
  wakes : Step
  sends : (encodes accepts : Bool) → Step

abbrev pub begin_drain : Publisher → List (String × Observation) → Publisher
begin_drain p [] = take_batch p
begin_drain p (e ∷ es) = p

-- A `drain` begins only when the one before it has ended.
unfoldable pub step : Step → Publisher → Publisher
unfolding publish take_batch send_next
step (publishes o) p = (publish o p).0
step wakes p = begin_drain p p.batch
step (sends encodes accepts) p = send_next encodes accepts p p.batch

unfoldable pub steps : List Step → Publisher → Publisher
steps [] p = p
steps (s ∷ ss) p = steps ss (step s p)
