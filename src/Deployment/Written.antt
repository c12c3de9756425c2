-- ===== src/Deployment/Written.antt =====
-- The platform decodes the documents of the descriptors that the builder accepts: `UnmarshalJSON` of
-- platform/config/deployment.go against `Descriptor.Validate` of builder/deployment/deployment.go.
use opdl.Base.{
  String, true, false, List, ◌∷◌, ◌++◌, Option, none, some, ◌≡◌, refl, lookup, string_eq, arith,
  Option-cases, inl, inr, pass_both, both_pass, Error, fail_if, ◌<|>◌, subst, sym, if◌then◌else◌,
}
use opdl.Deployment.Types.{Descriptor, Instance, Lease, Parsers, is_set, has_standby}
use opdl.Deployment.Decoding.{
  Codec, decoded, present_field, with_field, require_field, with_object, check_duration_field,
  require_durations, validate_nats_fields, validate_instance_fields, validate_lease_field,
  check_fields, check_lease, on_standby, unmarshal,
}
use opdl.Deployment.Document.{
  Encoder, if_set, descriptor_fields, instance_fields, nats_fields, lease_fields, ReadsBack,
}
use opdl.Deployment.Health.{error_of, positive_duration, validate_lease}
use opdl.Deployment.Endpoints.{validate_instance_endpoints, when_standby, validate_endpoints}
use opdl.Deployment.Builder.{validate, validate_lease_block, validate-IsAccepted}
use opdl.Deployment.Reading.{ReadsTrimmed}
use opdl.Deployment.Agreement.{validate-validate_health}

-- The durations that an instance carries.
instance_durations :
    (f : Parsers) (ip : String) (i : Instance)
    → validate_instance_endpoints f ip i ≡ none
    → (error_of (positive_duration f i.api_read_header_timeout) ≡ none)
      × (error_of (positive_duration f i.api_shutdown_timeout) ≡ none)
unfolding validate_instance_endpoints
instance_durations f ip i h = (ground arith, ground arith)

parses_set :
    (f : Parsers) (text : String)
    → error_of (positive_duration f text) ≡ none
    → is_set (f.parse_duration text) ≡ true
unfolding positive_duration
parses_set f text h = elim (Option-cases (f.parse_duration text)) [
  | inl e ↦ absurd (ground arith)
  | inr (n, e) ↦ rw e refl
]

module _ {Raw : Type 0} (c : Codec Raw) (e : Encoder Raw) (laws : ReadsBack e c) where
  with_field_passes :
      (fields : List (String × Raw)) (key : String) (check : Raw → Option Error) (raw : Raw)
      → lookup key fields ≡ some raw
      → c.is_null raw ≡ false
      → check raw ≡ none
      → with_field c fields key check ≡ none
  unfolding with_field present_field
  with_field_passes fields key check raw found live passes = rw (found, with_field, live) passes

  has_text :
      (fields : List (String × Raw)) (key t : String)
      → lookup key fields ≡ some (e.text_raw t)
      → require_field c fields key ≡ none
  unfolding require_field
  has_text fields key t found =
      with_field_passes fields key (λ raw. none) (e.text_raw t) found (laws.text_set t) refl

  module _ (f : Parsers) where
    has_duration :
        (fields : List (String × Raw)) (key t : String)
        → lookup key fields ≡ some (e.text_raw t)
        → error_of (positive_duration f t) ≡ none
        → with_field c fields key (check_duration_field c f) ≡ none
    unfolding check_duration_field
    has_duration fields key t found usable =
        with_field_passes fields key (check_duration_field c f) (e.text_raw t) found
          (laws.text_set t) (rw (laws.text_read t, parses_set f t usable) refl)

    nats_passes : (i : Instance) → validate_nats_fields c f (instance_fields e i) ≡ none
    unfolding validate_nats_fields instance_fields nats_fields with_object lookup
    nats_passes i =
        with_field_passes (instance_fields e i) "nats" _ (e.nats_raw i.nats) refl
          (laws.nats_set i.nats)
          (rw (laws.nats_object i.nats) (
            pass_both _ _ (has_text (nats_fields e i.nats) "server_name" i.nats.server_name refl) (
              pass_both _ _
                (has_text (nats_fields e i.nats) "cluster_name" i.nats.cluster_name refl)
                (pass_both _ _
                  (has_text (nats_fields e i.nats) "cluster_address" i.nats.cluster_address refl)
                  refl))))

    instance_passes :
        (ip : String) (i : Instance)
        → validate_instance_endpoints f ip i ≡ none
        → validate_instance_fields c f (e.instance_raw i) ≡ none
    unfolding validate_instance_fields instance_fields with_object require_durations lookup
    instance_passes ip i accepted =
        let (header, shutdown) = instance_durations f ip i accepted in
        let fields = instance_fields e i in
        rw (laws.instance_object i) (
          pass_both _ _
            (pass_both _ _ (has_text fields "events_file" i.events_file refl) (
              pass_both _ _ (has_text fields "state_file" i.state_file refl)
                (pass_both _ _ (has_text fields "log_file" i.log_file refl) refl)))
            (pass_both _ _ (has_text fields "api_address" i.api_address refl) (
              pass_both _ _
                (pass_both _ _
                  (has_duration fields "api_read_header_timeout" i.api_read_header_timeout refl
                    header)
                  (pass_both _ _
                    (has_duration fields "api_shutdown_timeout" i.api_shutdown_timeout refl
                      shutdown)
                    refl))
                (nats_passes i))))

    lease_passes :
        (l : Lease) → validate_lease f (some l) ≡ none → check_lease c f (e.lease_raw l) ≡ none
    unfolding validate_lease lease_fields with_object require_durations lookup
    lease_passes l accepted =
        let fields = lease_fields e l in
        let a : error_of (positive_duration f l.duration) ≡ none = ground arith in
        let b : error_of (positive_duration f l.renewal_interval) ≡ none = ground arith in
        let g : error_of (positive_duration f l.health_check_interval) ≡ none = ground arith in
        let h : error_of (positive_duration f l.failback_stabilization) ≡ none = ground arith in
        rw (laws.lease_object l) (
          pass_both _ _ (has_text fields "file" l.file refl) (
            pass_both _ _ (has_duration fields "duration" l.duration refl a) (
              pass_both _ _ (has_duration fields "renewal_interval" l.renewal_interval refl b) (
                pass_both _ _
                  (has_duration fields "health_check_interval" l.health_check_interval refl g)
                  (pass_both _ _
                    (has_duration fields "failback_stabilization" l.failback_stabilization refl h)
                    refl)))))

    -- The two required fields, before what is said of the optional ones.
    head_passes :
        (ip m : String) (i : Instance) (more : List (String × Raw))
        → validate_instance_endpoints f ip i ≡ none
        → let fields : List (String × Raw) =
            ("machine_events_file", e.text_raw m) ∷ ("primary", e.instance_raw i) ∷ more in
          (on_standby c f (present_field c fields "standby")
              <|> validate_lease_field c f fields (is_set (present_field c fields "standby")))
            ≡ none
          → check_fields c f fields ≡ none
    unfolding check_fields lookup
    head_passes ip m i more first optional =
        let fields : List (String × Raw) =
          ("machine_events_file", e.text_raw m) ∷ ("primary", e.instance_raw i) ∷ more in
        pass_both _ _ (has_text fields "machine_events_file" m refl) (
          pass_both _ _
            (with_field_passes fields "primary" (validate_instance_fields c f) (e.instance_raw i)
              refl (laws.instance_set i) (instance_passes ip i first))
            optional)

    -- The fields of a descriptor, by what they hold.
    parts_pass :
        (ip m : String) (i : Instance) (s : Option Instance) (l : Option Lease)
        (rest : List (String × Raw))
        → lookup "standby" rest ≡ none
        → lookup "lease" rest ≡ none
        → validate_instance_endpoints f ip i ≡ none
        → when_standby (validate_instance_endpoints f ip) s ≡ none
        → (if is_set s
            then validate_lease f l
            else fail_if (is_set l) "lease is set but no standby is deployed")
          ≡ none
        → check_fields c f (
            ("machine_events_file", e.text_raw m)
            ∷ ("primary", e.instance_raw i)
            ∷ (if_set "standby" e.instance_raw s ++ (if_set "lease" e.lease_raw l ++ rest)))
          ≡ none
    unfolding check_fields validate_lease_field present_field lookup validate_lease
    parts_pass ip m i none none rest a b first second third =
        let fields : List (String × Raw) =
          ("machine_events_file", e.text_raw m) ∷ ("primary", e.instance_raw i) ∷ rest in
        let optional : (on_standby c f (present_field c fields "standby")
              <|> validate_lease_field c f fields (is_set (present_field c fields "standby")))
            ≡ none =
          rw (a, validate_lease_field, b) refl in
        head_passes ip m i rest first optional
    parts_pass ip m i none (some l) rest a b first second third = absurd (ground arith)
    parts_pass ip m i (some k) none rest a b first second third = absurd (ground arith)
    parts_pass ip m i (some k) (some l) rest a b first second third =
        let more : List (String × Raw) =
          ("standby", e.instance_raw k) ∷ ("lease", e.lease_raw l) ∷ rest in
        let fields : List (String × Raw) =
          ("machine_events_file", e.text_raw m) ∷ ("primary", e.instance_raw i) ∷ more in
        let lease_ok : validate_lease_field c f fields true ≡ none =
          with_field_passes fields "lease" (check_lease c f) (e.lease_raw l) refl (laws.lease_set l)
            (lease_passes l third) in
        let found : present_field c fields "standby" ≡ some (e.instance_raw k) =
          rw (laws.instance_set k) refl in
        let standby_ok : (on_standby c f (some (e.instance_raw k))
              <|> validate_lease_field c f fields true)
            ≡ none =
          pass_both _ _ (instance_passes ip k second) lease_ok in
        let optional : (on_standby c f (present_field c fields "standby")
              <|> validate_lease_field c f fields (is_set (present_field c fields "standby")))
            ≡ none =
          subst (λ o. (on_standby c f o <|> validate_lease_field c f fields (is_set o)) ≡ none)
            (sym found) standby_ok in
        head_passes ip m i more first optional

    -- The document that the builder writes of a descriptor which it accepts passes all the checks of
    -- the platform's decoding, on its fields and on its health contract, and is decoded as that
    -- descriptor, if encoding/json reads back what it writes, and what time.ParseDuration and
    -- net.SplitHostPort read has no outer white space.
    pub validate-unmarshal :
        (trimmed : ReadsTrimmed f)
        → (d : Descriptor) → validate f d ≡ none
        → unmarshal c f (e.descriptor_raw d) ≡ decoded d
    unfolding unmarshal validate_endpoints validate_lease_block has_standby descriptor_fields
    validate-unmarshal trimmed d accepted =
        let parts = validate-IsAccepted f d accepted in
        let (first, later) = both_pass _ _ parts.endpoints_pass in
        let (second, _) = both_pass _ _ later in
        let fields_ok : check_fields c f (descriptor_fields e d) ≡ none =
          parts_pass d.ip d.machine_events_file d.primary d.standby d.lease (e.descriptor_rest d)
            (laws.no_standby d) (laws.no_lease d) first second parts.lease_passes in
        rw (laws.descriptor_object d) (
          rw fields_ok
            (rw (laws.descriptor_read d) (rw (validate-validate_health f trimmed d accepted) refl)))
