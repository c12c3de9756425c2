-- ===== src/HealthFabric/Message.antt =====
-- platform/internal/site/healthfabric/message.go: one observation as it travels, and how it is read.
-- encoding/json is a parameter. A text on the wire may be cut inside a character, so what is
-- marshalled holds the bytes of the failure, and what is unmarshalled its text. The instant `none`
-- is the zero time. uint64 and instants are plain numbers.
use opdl.Base.{
  ℕ, zero, suc, ◌*◌, ◌/◌, String, Bool, false, ◌||◌, not, List, [], ◌∷◌, Option, none, some, ltb,
  ◌==◌, nat_eq, string_eq, bytes, is_blank, length, if◌then◌else◌,
}
use opdl.HealthView.Inventory.{Deployment, DeploymentError, validate_deployment, Observation}

-- A signed number off the wire: `negsuc n` is -(n + 1).
pub data ℤ : Type 0 where
  pos negsuc : ℕ → ℤ

abbrev pub version : ℤ
version = pos 1

abbrev pub max_message_bytes : ℕ
max_message_bytes = 8192

abbrev pub max_error_bytes : ℕ
max_error_bytes = 512

-- `maxLatency`, one hour, in milliseconds.
abbrev pub max_latency_ms : ℕ
max_latency_ms = 3600000

-- `message`, with its error as bytes or as text.
pub record Message (A : Type 0) : Type 0 where
  pub v : ℤ
  pub project : String
  pub environment : String
  pub site : String
  pub machine : String
  pub service : String
  pub observer_role : String
  pub epoch : ℕ
  pub sequence : ℕ
  pub status : String
  pub checked_at_utc : Option ℕ
  pub latency_ms : ℤ
  pub consecutive_failures : ℤ
  pub failure : A

abbrev pub with_text : Message (List ℕ) → String → Message String
with_text m text = record {
  v = m.v;
  project = m.project;
  environment = m.environment;
  site = m.site;
  machine = m.machine;
  service = m.service;
  observer_role = m.observer_role;
  epoch = m.epoch;
  sequence = m.sequence;
  status = m.status;
  checked_at_utc = m.checked_at_utc;
  latency_ms = m.latency_ms;
  consecutive_failures = m.consecutive_failures;
  failure = text;
}

-- encoding/json on a message.
pub record Codec : Type 0 where
  pub marshal : Message (List ℕ) → List ℕ
  pub unmarshal : List ℕ → Option (Message String)

pub record Identity : Type 0 where
  pub deployment : Deployment
  pub machine : String
  pub observer_role : String
  pub epoch : ℕ

pub data IdentityError : Type 0 where
  bad_deployment : DeploymentError → IdentityError
  machine_required observer_role_required epoch_required : IdentityError

unfoldable pub validate_identity : Identity → Option IdentityError
validate_identity i = elim (validate_deployment i.deployment) [
  | some e ↦ some (bad_deployment e)
  | none ↦
      if is_blank i.machine
      then some machine_required
      else if is_blank i.observer_role
      then some observer_role_required
      else if i.epoch == 0
      then some epoch_required
      else none
]

unfoldable pub take : ℕ → List ℕ → List ℕ
take zero xs = []
take (suc n) [] = []
take (suc n) (x ∷ xs) = x ∷ take n xs

-- `failure[:maxErrorBytes]` where it is longer.
unfoldable pub clip : List ℕ → List ℕ
clip bs = if ltb max_error_bytes (length bs) then take max_error_bytes bs else bs

-- The message that `encode` marshals. A latency is in nanoseconds.
unfoldable pub to_message : Identity → Observation → Message (List ℕ)
unfolding clip
to_message i o = record {
  v = version;
  project = i.deployment.project;
  environment = i.deployment.environment;
  site = i.deployment.site;
  machine = o.subject.machine;
  service = o.subject.service;
  observer_role = o.observer_role;
  epoch = o.epoch;
  sequence = o.sequence;
  status = o.status;
  checked_at_utc = some o.checked_at_utc;
  latency_ms = pos (o.latency / 1000000);
  consecutive_failures = pos o.consecutive_failures;
  failure = clip (bytes o.failure);
}

unfoldable pub encode : Codec → Identity → Observation → List ℕ
encode codec i o = codec.marshal (to_message i o)

pub data RejectReason : Type 0 where
  oversize malformed wrong_version foreign_deployment incomplete impossible : RejectReason

pub data Decoded : Type 0 where
  accepted : Observation → Decoded
  rejected : RejectReason → Decoded

abbrev pub is_version : ℤ → Bool
is_version (pos n) = n == 1
is_version (negsuc n) = false

-- A latency or a count that an attempt could have had, and its value.
abbrev pub possible_latency : ℤ → Option ℕ
possible_latency (pos n) = if ltb max_latency_ms n then none else some n
possible_latency (negsuc n) = none

abbrev pub possible_count : ℤ → Option ℕ
possible_count (pos n) = some n
possible_count (negsuc n) = none

-- The observation, from numbers that have been bounded.
abbrev pub observation_of : Message String → (checked_at latency_ms failures : ℕ) → Observation
observation_of m checked_at latency_ms failures = record {
  subject = record { machine = m.machine; service = m.service };
  observer_role = m.observer_role;
  epoch = m.epoch;
  sequence = m.sequence;
  status = m.status;
  checked_at_utc = checked_at;
  latency = latency_ms * 1000000;
  consecutive_failures = failures;
  failure = m.failure;
}

-- The second `switch`, on the numbers.
unfoldable pub read_numbers : Message String → Option ℕ → Option ℕ → Option ℕ → Decoded
read_numbers m none l c = rejected impossible
read_numbers m (some t) none c = rejected impossible
read_numbers m (some t) (some l) none = rejected impossible
read_numbers m (some t) (some l) (some c) =
    if (m.epoch == 0) || (m.sequence == 0)
    then rejected impossible
    else accepted (observation_of m t l c)

-- The checks on a message that was unmarshalled.
unfoldable pub check_message : Deployment → Message String → Decoded
check_message d m =
    if not (is_version m.v)
    then rejected wrong_version
    else if not (m.project == d.project)
        || (not (m.environment == d.environment) || not (m.site == d.site))
    then rejected foreign_deployment
    else if is_blank m.machine
        || (is_blank m.service || (is_blank m.observer_role || is_blank m.status))
    then rejected incomplete
    else read_numbers m m.checked_at_utc (possible_latency m.latency_ms)
        (possible_count m.consecutive_failures)

unfoldable pub decode : Codec → Deployment → List ℕ → Decoded
decode codec d data_bytes =
    if ltb max_message_bytes (length data_bytes)
    then rejected oversize
    else elim (codec.unmarshal data_bytes) [
      | none ↦ rejected malformed
      | some m ↦ check_message d m
    ]
