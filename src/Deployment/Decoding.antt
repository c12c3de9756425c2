-- ===== src/Deployment/Decoding.antt =====
-- `UnmarshalJSON` of platform/config/deployment.go: what the platform requires of the descriptor that
-- was embedded in it. encoding/json is a parameter: what it makes of a raw value as an object, a text
-- and a whole descriptor. A field is looked up by the last part of its qualified name, the rest of
-- which only stands in the errors.
use opdl.Base.{
  String, Bool, true, false, not, List, [], ◌∷◌, Option, none, some, string_eq, lookup, Error,
  fail_if, ◌<|>◌, check_each, if◌then◌else◌,
}
use opdl.Deployment.Types.{Descriptor, Parsers, is_set}
use opdl.Deployment.Platform.{validate_health}

-- `json.RawMessage` and the ways in which it is read. An object is the map that it decodes into.
pub record Codec (Raw : Type 0) : Type 0 where
  pub is_null : Raw → Bool
  pub object_of : Raw → Option (List (String × Raw))
  pub text_of : Raw → Option String
  pub descriptor_of : Raw → Option Descriptor

pub data Decoded : Type 0 where
  decoded : Descriptor → Decoded
  not_decoded : Error → Decoded

module _ {Raw : Type 0} (c : Codec Raw) where
  abbrev not_null : Raw → Option Raw
  not_null raw = if c.is_null raw then none else some raw

  abbrev or_absent : Option Raw → Option Raw
  or_absent none = none
  or_absent (some raw) = not_null raw

  -- `presentField`: a field written as null is absent.
  unfoldable pub present_field : List (String × Raw) → (key : String) → Option Raw
  present_field fields key = or_absent (lookup key fields)

  -- The check of a field that `requiredField` finds.
  abbrev on_field : Option Raw → (Raw → Option Error) → Option Error
  on_field none check = some "is required"
  on_field (some raw) check = check raw

  unfoldable pub with_field :
      List (String × Raw) → (key : String) → (Raw → Option Error) → Option Error
  unfolding present_field
  with_field fields key check = on_field (present_field fields key) check

  abbrev nothing_more : Raw → Option Error
  nothing_more raw = none

  -- `requiredField`, of a field that is not read.
  unfoldable pub require_field : List (String × Raw) → (key : String) → Option Error
  unfolding with_field
  require_field fields key = with_field fields key nothing_more

  abbrev on_object :
      Option (List (String × Raw)) → (List (String × Raw) → Option Error) → Option Error
  on_object none check = some "invalid object"
  on_object (some fields) check = check fields

  -- A raw value that is an object.
  unfoldable pub with_object : Raw → (List (String × Raw) → Option Error) → Option Error
  with_object raw check = on_object (c.object_of raw) check

  module _ (f : Parsers) where
    abbrev valid_duration : Option String → Option Error
    valid_duration none = some "invalid text"
    valid_duration (some text) =
        fail_if (not (is_set (f.parse_duration text))) "is not a valid duration"

    -- `checkDurationField`.
    unfoldable pub check_duration_field : Raw → Option Error
    check_duration_field raw = valid_duration (c.text_of raw)

    unfoldable pub require_durations : List (String × Raw) → List String → Option Error
    unfolding with_field check_duration_field
    require_durations fields keys =
        check_each (λ key. with_field fields key check_duration_field) keys

    -- `validateNATSFields`.
    unfoldable pub validate_nats_fields : List (String × Raw) → Option Error
    unfolding with_field with_object require_field
    validate_nats_fields instance_fields = with_field instance_fields "nats" λ raw.
        with_object raw λ nats.
          check_each (require_field nats) ("server_name" ∷ "cluster_name" ∷ "cluster_address" ∷ [])

    -- `validateInstanceFields`.
    unfoldable pub validate_instance_fields : Raw → Option Error
    unfolding with_object require_field require_durations validate_nats_fields
    validate_instance_fields raw = with_object raw λ fields.
        check_each (require_field fields) ("events_file" ∷ "state_file" ∷ "log_file" ∷ [])
        <|> require_field fields "api_address"
        <|> require_durations fields ("api_read_header_timeout" ∷ "api_shutdown_timeout" ∷ [])
        <|> validate_nats_fields fields

    abbrev pub lease_durations : List String
    lease_durations =
        "duration" ∷ "renewal_interval" ∷ "health_check_interval" ∷ "failback_stabilization" ∷ []

    abbrev pub check_lease_fields : List (String × Raw) → Option Error
    check_lease_fields fields =
        require_field fields "file" <|> require_durations fields lease_durations

    abbrev pub check_lease : Raw → Option Error
    check_lease raw = with_object raw check_lease_fields

    -- `validateLeaseField`.
    unfoldable pub validate_lease_field : List (String × Raw) → (has_standby : Bool) → Option Error
    unfolding present_field with_field with_object require_field require_durations
    validate_lease_field fields false =
        fail_if (is_set (present_field fields "lease")) "lease is set but no standby is deployed"
    validate_lease_field fields true = with_field fields "lease" check_lease

    abbrev pub on_standby : Option Raw → Option Error
    on_standby none = none
    on_standby (some raw) = validate_instance_fields raw

    -- The checks of `UnmarshalJSON` on the raw fields.
    unfoldable pub check_fields : List (String × Raw) → Option Error
    unfolding present_field with_field require_field validate_instance_fields validate_lease_field
    check_fields fields =
        require_field fields "machine_events_file"
        <|> with_field fields "primary" validate_instance_fields
        <|> on_standby (present_field fields "standby")
        <|> validate_lease_field fields (is_set (present_field fields "standby"))

    abbrev or_decoded : Descriptor → Option Error → Decoded
    or_decoded d none = decoded d
    or_decoded d (some e) = not_decoded e

    abbrev decode_plain : Option Descriptor → Decoded
    decode_plain none = not_decoded "invalid descriptor"
    decode_plain (some d) = or_decoded d (validate_health f d)

    abbrev after_checks : Raw → Option Error → Decoded
    after_checks raw (some e) = not_decoded e
    after_checks raw none = decode_plain (c.descriptor_of raw)

    abbrev decode_object : Raw → Option (List (String × Raw)) → Decoded
    decode_object raw none = not_decoded "invalid object"
    decode_object raw (some fields) = after_checks raw (check_fields fields)

    -- `UnmarshalJSON`.
    unfoldable pub unmarshal : Raw → Decoded
    unfolding check_fields
    unmarshal raw = decode_object raw (c.object_of raw)
