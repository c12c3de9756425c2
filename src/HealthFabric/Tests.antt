-- ===== src/HealthFabric/Tests.antt =====
-- The wire and the publisher at concrete observations.
use opdl.Base.{ℕ, ◌≤◌, ◌≡◌, refl, String, true, false, List, [], ◌∷◌, some, arith, is_blank, length}
use opdl.HealthView.Inventory.{Observation}
use opdl.HealthFabric.Message.{
  pos, Message, Codec, Identity, to_message, with_text, check_message, read_numbers, encode, decode,
  accepted, max_message_bytes,
}
use opdl.HealthFabric.RoundTrip.{IsReport, rounded, plain_message, decode-encode}
use opdl.HealthFabric.Publisher.{Step, publishes, wakes, sends, new_publisher, steps}
use opdl.HealthFabric.Fates.{IsAccounted, no_fates, fates}
use opdl.HealthFabric.Accounting.{steps-IsAccounted}

abbrev identity : Identity
identity = record {
  deployment = record { project = "p"; environment = "e"; site = "s" };
  machine = "m";
  observer_role = "primary";
  epoch = 3;
}

abbrev refused : Observation
refused = record {
  subject = record { machine = "m"; service = "billing" };
  observer_role = "primary";
  epoch = 3;
  sequence = 5;
  status = "unhealthy";
  checked_at_utc = 7;
  latency = 2500000;
  consecutive_failures = 2;
  failure = "refused";
}

abbrev refused_message : Message String
refused_message = record {
  v = pos 1;
  project = "p";
  environment = "e";
  site = "s";
  machine = "m";
  service = "billing";
  observer_role = "primary";
  epoch = 3;
  sequence = 5;
  status = "unhealthy";
  checked_at_utc = some 7;
  latency_ms = pos 2;
  consecutive_failures = pos 2;
  failure = "refused";
}

abbrev two_bytes : List ℕ
two_bytes = 123 ∷ 125 ∷ []

-- A codec that knows one message.
abbrev one_message : Codec
one_message = record { marshal = λ m. two_bytes; unmarshal = λ data_bytes. some refused_message }

reads_back :
    one_message.unmarshal (one_message.marshal (plain_message identity refused))
    ≡ some (with_text (plain_message identity refused) refused.failure)
unfolding to_message
reads_back = refl

refused-IsReport : IsReport refused
unfolding is_blank
refused-IsReport = record {
  machine_named = refl;
  service_named = refl;
  observer_named = refl;
  status_stated = refl;
  epoch_positive = omega arith;
  sequence_positive = omega arith;
  latency_bounded = omega arith;
}

encoded_fits : length (encode one_message identity refused) ≤ max_message_bytes
unfolding encode
encoded_fits = omega arith

decode-encode_example :
    decode one_message identity.deployment (encode one_message identity refused)
    ≡ accepted (rounded refused)
decode-encode_example =
    decode-encode one_message identity refused reads_back refused-IsReport (omega arith)
      encoded_fits

decodes :
    decode one_message identity.deployment two_bytes
    ≡ accepted (record refused { latency = 2000000 })
unfolding decode check_message read_numbers is_blank
decodes = refl

abbrev run : List Step
run =
    publishes refused
    ∷ publishes refused
    ∷ wakes
    ∷ publishes refused
    ∷ sends true false
    ∷ wakes
    ∷ sends true true
    ∷ []

steps-IsAccounted_example :
    IsAccounted (steps run (new_publisher identity)) (fates run (new_publisher identity) no_fates)
steps-IsAccounted_example = steps-IsAccounted identity run (omega arith)
