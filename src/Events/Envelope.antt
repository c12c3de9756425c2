-- ===== src/Events/Envelope.antt =====
-- platform/internal/events/envelope.go: the envelope, its checks, and its way over the wire.
use opdl.Base.{
  ℕ, String, Bool, not, List, Option, none, some, ◌==◌, nat_eq, string_eq, Error, fail_if, ◌<|>◌,
  if◌then◌else◌,
}
use opdl.Events.Kind.{
  Origin, validate_type, source_of, severity_valid, scope_instance, scope_valid, validate_origin,
}
use opdl.Events.Event.{Outcome, ok, err, ◌>>=◌}

-- A `time.Time`, by its instant, where 0 is the zero time, and whether its location is UTC.
pub record Time : Type 0 where
  pub instant : ℕ
  pub is_utc : Bool

pub record Envelope : Type 0 where
  pub id : String
  pub kind : String
  -- A version below 1 is 0.
  pub schema_version : ℕ
  pub occurred_at : Time
  pub source : String
  pub severity : String
  pub scope : String
  pub origin : Origin
  pub causation_id : String
  pub correlation_id : String
  pub tags : List String
  pub stable_id : String
  pub payload : String

-- What the envelope asks of encoding/json.
pub record Json : Type 0 where
  pub is_json : String → Bool
  pub marshal : Envelope → Option String
  pub unmarshal : String → Option Envelope

-- `Envelope.Validate`.
unfoldable pub validate : Json → Envelope → Option Error
unfolding validate_type source_of validate_origin
validate j e =
    fail_if (e.id == "") "id is required"
    <|> validate_type e.kind
    <|> fail_if (not (e.source == source_of e.kind)) "source does not match type"
    <|> fail_if (e.schema_version == 0) "schema version must be positive"
    <|> fail_if (e.occurred_at.instant == 0) "occurred_at is required"
    <|> fail_if (not e.occurred_at.is_utc) "occurred_at must be UTC"
    <|> fail_if (not (severity_valid e.severity)) "unknown severity"
    <|> fail_if (not (scope_valid e.scope)) "unknown scope"
    <|> validate_origin e.origin
    <|> fail_if (e.payload == "") "payload is required"
    <|> fail_if (not (j.is_json e.payload)) "payload is not valid JSON"

abbrev pub passed : {A : Type 0} → Option Error → A → Outcome A
passed none a = ok a
passed (some e) a = err e

abbrev pub or_error : {A : Type 0} → Option A → Error → Outcome A
or_error none e = err e
or_error (some a) e = ok a

-- `Encode`.
unfoldable pub encode : Json → Envelope → Outcome String
encode j e = do valid ← passed (validate j e) e; or_error (j.marshal valid) "encode envelope"

-- A document without a scope is of the default scope.
abbrev pub with_scope : Envelope → Envelope
with_scope e = if e.scope == "" then record e { scope = scope_instance } else e

-- `Decode`.
unfoldable pub decode : Json → String → Outcome Envelope
decode j text = do
  e ← or_error (j.unmarshal text) "decode envelope"
  passed (validate j (with_scope e)) (with_scope e)
