-- ===== src/HealthFabric/RoundTrip.antt =====
-- What survives the wire, and what a receiver lets through (healthfabric/message.go).
use opdl.Base.{
  ℕ, ◌*◌, ◌/◌, ◌≤◌, ◌≡◌, refl, ◌∙◌, ap, String, false, List, Option, none, some, arith, eq_iff,
  bytes, is_blank, length, string_eq, Option-cases, ◌⊎◌, inl, inr,
}
use opdl.HealthView.Inventory.{Deployment, Observation}
use opdl.HealthFabric.Message.{
  ℤ, pos, negsuc, Codec, Message, with_text, Identity, clip, to_message, encode, accepted,
  check_message, read_numbers, decode, max_message_bytes, max_error_bytes, possible_latency,
  possible_count,
}

-- What a publisher of this site may say: a named unit, observer and status, a fence, and numbers
-- that an attempt can have.
pub record IsReport (o : Observation) : Type 0 where
  pub machine_named : is_blank o.subject.machine ≡ false
  pub service_named : is_blank o.subject.service ≡ false
  pub observer_named : is_blank o.observer_role ≡ false
  pub status_stated : is_blank o.status ≡ false
  pub epoch_positive : 1 ≤ o.epoch
  pub sequence_positive : 1 ≤ o.sequence
  pub latency_bounded : o.latency / 1000000 ≤ 3600000

-- The latency on the other side, in whole milliseconds.
abbrev pub rounded : Observation → Observation
rounded o = record o { latency = o.latency / 1000000 * 1000000 }

read_numbers-IsReport :
    (m : Message String) (t l c : Option ℕ) (o : Observation)
    → is_blank m.machine ≡ false
    → is_blank m.service ≡ false
    → is_blank m.observer_role ≡ false
    → is_blank m.status ≡ false
    → ((n : ℕ) → l ≡ some n → n ≤ 3600000)
    → read_numbers m t l c ≡ accepted o
    → IsReport o × (o.latency ≡ o.latency / 1000000 * 1000000)
unfolding read_numbers
read_numbers-IsReport m none l c o a b x y z h = absurd (ground arith)
read_numbers-IsReport m (some t) none c o a b x y z h = absurd (ground arith)
read_numbers-IsReport m (some t) (some l) none o a b x y z h = absurd (ground arith)
read_numbers-IsReport m (some t) (some l) (some c) o a b x y z h = ground (arith, z l refl)

possible_latency-le : (l : ℤ) (n : ℕ) → possible_latency l ≡ some n → n ≤ 3600000
possible_latency-le (pos k) n h = ground arith
possible_latency-le (negsuc k) n h = absurd (ground arith)

check_message-IsReport :
    (d : Deployment) (m : Message String) (o : Observation)
    → check_message d m ≡ accepted o
    → IsReport o × (o.latency ≡ o.latency / 1000000 * 1000000)
unfolding check_message
check_message-IsReport d m o h =
    read_numbers-IsReport m m.checked_at_utc (possible_latency m.latency_ms)
      (possible_count m.consecutive_failures) o (ground arith) (ground arith) (ground arith)
      (ground arith) (possible_latency-le m.latency_ms) (ground arith)

clip-short : (bs : List ℕ) → length bs ≤ max_error_bytes → clip bs ≡ bs
unfolding clip
clip-short bs h = ground arith

-- The message of an observation whose error needs no clipping.
abbrev pub plain_message : Identity → Observation → Message (List ℕ)
plain_message i o = record (to_message i o) { failure = bytes o.failure }

module _ (codec : Codec) where
  check_message-report :
      (i : Identity) (o : Observation)
      → IsReport o
      → check_message i.deployment (with_text (to_message i o) o.failure) ≡ accepted (rounded o)
  unfolding check_message read_numbers to_message
  check_message-report i o h = ground (
    arith,
    eq_iff i.deployment.project i.deployment.project,
    eq_iff i.deployment.environment i.deployment.environment,
    eq_iff i.deployment.site i.deployment.site,
  )

  decode-unmarshalled :
      (d : Deployment) (data_bytes : List ℕ) (m : Message String)
      → length data_bytes ≤ max_message_bytes
      → codec.unmarshal data_bytes ≡ some m
      → decode codec d data_bytes ≡ check_message d m
  unfolding decode
  decode-unmarshalled d data_bytes m fits e = rw (e, decode) (ground arith)

  -- A report of this site whose error fits the wire's bound and whose message fits the receiver's is
  -- read back as it was, its latency in whole milliseconds, if the codec reads its message back.
  pub decode-encode :
      (i : Identity) (o : Observation)
      → codec.unmarshal (codec.marshal (plain_message i o))
        ≡ some (with_text (plain_message i o) o.failure)
      → IsReport o
      → length (bytes o.failure) ≤ max_error_bytes
      → length (encode codec i o) ≤ max_message_bytes
      → decode codec i.deployment (encode codec i o) ≡ accepted (rounded o)
  unfolding encode to_message
  decode-encode i o json h short fits =
      decode-unmarshalled i.deployment (encode codec i o) _ fits
        (ap (λ m. codec.unmarshal (codec.marshal m)) plain ∙ json)
      ∙ check_message-report i o h
    where
      plain : to_message i o ≡ plain_message i o
      plain = λ j. record (to_message i o) { failure = clip-short (bytes o.failure) short j }

  -- What a receiver accepts comes from at most the bounded number of bytes and names its unit, its
  -- observer and its status, with a positive epoch and sequence and a latency of at most one hour in
  -- whole milliseconds.
  decode-IsReport :
      (d : Deployment) (data_bytes : List ℕ) (o : Observation)
      → decode codec d data_bytes ≡ accepted o
      → IsReport o
        × (length data_bytes ≤ max_message_bytes)
        × (o.latency ≡ o.latency / 1000000 * 1000000)
  unfolding decode
  decode-IsReport d data_bytes o h = accepted-IsReport (Option-cases (codec.unmarshal data_bytes))
    where
      accepted-IsReport :
          (codec.unmarshal data_bytes ≡ none)
            ⊎ ((m : Message String) × (codec.unmarshal data_bytes ≡ some m))
          → IsReport o
            × (length data_bytes ≤ max_message_bytes)
            × (o.latency ≡ o.latency / 1000000 * 1000000)
      accepted-IsReport (inl e) = absurd (ground arith)
      accepted-IsReport (inr (m, e)) =
          let (r, l) = check_message-IsReport d m o (ground arith) in (r, ground arith, l)
