-- ===== src/App/DecodedSetup.antt =====
-- What a descriptor that the platform decodes can be run on (platform/config/deployment.go and
-- platform/internal/app/lease.go).
use opdl.Base.{
  ◌≡◌, refl, sym, ◌∙◌, inl, inr, ℕ, String, true, false, List, Option, Option-cases, Bool-cases,
  none, some, arith, string_eq, check_each-All, fail_if-false, both_pass, Error,
}
use opdl.Redundancy.Lease.{LeaseConfig}
use opdl.Deployment.Types.{Lease, Descriptor, Parsers, is_set, has_standby}
use opdl.Deployment.Platform.{validate_health}
use opdl.Deployment.Decoding.{
  Codec, decoded, present_field, with_field, require_field, with_object, check_duration_field,
  require_durations, lease_durations, check_lease_fields, check_lease, validate_lease_field,
  check_fields, unmarshal, validate_instance_fields, on_standby,
}
use opdl.App.Setup.{ok, no_lease, lease_config_of, parse_lease}

pub data LeaseField : Type 0 where
  duration renewal_interval health_check_interval failback_stabilization : LeaseField

abbrev pub key_of : LeaseField → String
key_of duration = "duration"
key_of renewal_interval = "renewal_interval"
key_of health_check_interval = "health_check_interval"
key_of failback_stabilization = "failback_stabilization"

abbrev pub value_of : LeaseField → Lease → String
value_of duration l = l.duration
value_of renewal_interval l = l.renewal_interval
value_of health_check_interval l = l.health_check_interval
value_of failback_stabilization l = l.failback_stabilization

-- How encoding/json decodes a record, for objects whose keys are spelled as the fields' names: an
-- optional record is set exactly where its key is present and not null, and a text field holds the text
-- of its key.
pub record ReadsRecords {Raw : Type 0} (c : Codec Raw) : Type 0 where
  pub standby_read :
      (raw : Raw) (fields : List (String × Raw)) (d : Descriptor)
      → c.object_of raw ≡ some fields
      → c.descriptor_of raw ≡ some d
      → has_standby d ≡ is_set (present_field c fields "standby")
  pub lease_read :
      (raw : Raw) (fields : List (String × Raw)) (d : Descriptor)
      → c.object_of raw ≡ some fields
      → c.descriptor_of raw ≡ some d
      → is_set d.lease ≡ is_set (present_field c fields "lease")
  pub text_read :
      (raw : Raw) (fields : List (String × Raw)) (d : Descriptor) (l : Lease) (lease_raw : Raw)
      (lease_fields : List (String × Raw)) (field : LeaseField) (value : Raw)
      → c.object_of raw ≡ some fields
      → c.descriptor_of raw ≡ some d
      → d.lease ≡ some l
      → present_field c fields "lease" ≡ some lease_raw
      → c.object_of lease_raw ≡ some lease_fields
      → present_field c lease_fields (key_of field) ≡ some value
      → c.text_of value ≡ some (value_of field l)

module _ {Raw : Type 0} (c : Codec Raw) where
  with_field_found :
      (fields : List (String × Raw)) (key : String) (check : Raw → Option Error)
      → with_field c fields key check ≡ none
      → (raw : Raw) × (present_field c fields key ≡ some raw) × (check raw ≡ none)
  unfolding with_field
  with_field_found fields key check h = elim (Option-cases (present_field c fields key)) [
    | inl e ↦ absurd (ground arith)
    | inr (raw, e) ↦ (raw, e, rw (e, with_field) at h)
  ]

  with_object_read :
      (raw : Raw) (check : List (String × Raw) → Option Error)
      → with_object c raw check ≡ none
      → (fields : List (String × Raw)) × (c.object_of raw ≡ some fields) × (check fields ≡ none)
  unfolding with_object
  with_object_read raw check h = elim (Option-cases (c.object_of raw)) [
    | inl e ↦ absurd (ground arith)
    | inr (fields, e) ↦ (fields, e, rw (e, with_object) at h)
  ]

  module _ (f : Parsers) where
    check_duration_parses :
        (raw : Raw)
        → check_duration_field c f raw ≡ none
        → (t : String) × (c.text_of raw ≡ some t) × (n : ℕ) × (f.parse_duration t ≡ some n)
    unfolding check_duration_field
    check_duration_parses raw h = elim (Option-cases (c.text_of raw)) [
      | inl e ↦ absurd (ground arith)
      | inr (t, e) ↦ elim (Option-cases (f.parse_duration t)) [
        | inl q ↦ absurd (ground arith)
        | inr (n, q) ↦ (t, e, n, q)
      ]
    ]

    -- What the checks find of the lease's durations.
    LeaseTimed : List (String × Raw) → LeaseField → Type 0
    LeaseTimed lease_fields field =
        (value : Raw) × (present_field c lease_fields (key_of field) ≡ some value)
        × (t : String) × (c.text_of value ≡ some t)
        × (n : ℕ) × (f.parse_duration t ≡ some n)

    timed :
        (lease_fields : List (String × Raw)) (field : LeaseField)
        → with_field c lease_fields (key_of field) (check_duration_field c f) ≡ none
        → LeaseTimed lease_fields field
    unfolding LeaseTimed
    timed lease_fields field h =
        let (value, e, checks) =
          with_field_found lease_fields (key_of field) (check_duration_field c f) h in
        let (t, text, n, parses) = check_duration_parses value checks in
        (value, e, t, text, n, parses)

    -- The four durations of the lease.
    each_timed :
        (lease_fields : List (String × Raw))
        → with_field c lease_fields "duration" (check_duration_field c f) ≡ none
        → with_field c lease_fields "renewal_interval" (check_duration_field c f) ≡ none
        → with_field c lease_fields "health_check_interval" (check_duration_field c f) ≡ none
        → with_field c lease_fields "failback_stabilization" (check_duration_field c f) ≡ none
        → (field : LeaseField) → LeaseTimed lease_fields field
    each_timed lease_fields a b d g duration = timed lease_fields duration a
    each_timed lease_fields a b d g renewal_interval = timed lease_fields renewal_interval b
    each_timed lease_fields a b d g health_check_interval =
        timed lease_fields health_check_interval d
    each_timed lease_fields a b d g failback_stabilization =
        timed lease_fields failback_stabilization g

    lease_found :
        (fields : List (String × Raw))
        → validate_lease_field c f fields true ≡ none
        → (raw : Raw) × (lease_fields : List (String × Raw)) × (present_field c fields "lease"
            ≡ some raw)
          × (c.object_of raw ≡ some lease_fields)
          × ((field : LeaseField) → LeaseTimed lease_fields field)
    unfolding validate_lease_field require_durations
    lease_found fields h =
        let (raw, e, checks) = with_field_found fields "lease" (check_lease c f) h in
        let (lease_fields, o, passes) = with_object_read raw (check_lease_fields c f) checks in
        let (_, durations) =
          both_pass (require_field c lease_fields "file")
            (require_durations c f lease_fields (lease_durations c f)) passes in
        let (a, (b, (d, (g, _)))) =
          check_each-All (λ key. with_field c lease_fields key (check_duration_field c f))
            (lease_durations c f) durations in
        (raw, lease_fields, e, o, each_timed lease_fields a b d g)

    -- The checks that a decoded descriptor passed.
    unmarshal_passes :
        (raw : Raw) (d : Descriptor)
        → unmarshal c f raw ≡ decoded d
        → (fields : List (String × Raw)) × (c.object_of raw ≡ some fields)
          × (c.descriptor_of raw ≡ some d)
          × (check_fields c f fields ≡ none)
          × (validate_health f d ≡ none)
    unfolding unmarshal
    unmarshal_passes raw d h = elim (Option-cases (c.object_of raw)) [
      | inl e ↦ absurd (ground arith)
      | inr (fields, e) ↦ elim (Option-cases (check_fields c f fields)) [
        | inr (bad, q) ↦ absurd (ground arith)
        | inl q ↦ elim (Option-cases (c.descriptor_of raw)) [
          | inl p ↦ absurd (ground arith)
          | inr (d', p) ↦ elim (Option-cases (validate_health f d')) [
            | inr (bad, v) ↦ absurd (ground arith)
            | inl v ↦ let same : d' ≡ d = ground arith in (fields, e, rw same at p, q, rw same at v)
          ]
        ]
      ]
    ]

    module _ (laws : ReadsRecords c) where
      field_parses :
          (raw : Raw) (fields : List (String × Raw)) (d : Descriptor) (l : Lease)
          → (lease_raw : Raw) (lease_fields : List (String × Raw)) → c.object_of raw ≡ some fields
          → c.descriptor_of raw ≡ some d
          → d.lease ≡ some l
          → present_field c fields "lease" ≡ some lease_raw
          → c.object_of lease_raw ≡ some lease_fields
          → (field : LeaseField) → LeaseTimed lease_fields field
          → (n : ℕ) × (f.parse_duration (value_of field l) ≡ some n)
      unfolding LeaseTimed
      field_parses raw fields d l lease_raw lease_fields o r e p q field
            (value, v, t, text, n, parses) =
          let held = laws.text_read raw fields d l lease_raw lease_fields field value o r e p q v in
          let same : t ≡ value_of field l = ground (arith, sym text ∙ held) in
          (n, rw same at parses)

      lease_configured :
          (d : Descriptor) (l : Lease)
          → d.lease ≡ some l
          → ((field : LeaseField) → (n : ℕ) × (f.parse_duration (value_of field l) ≡ some n))
          → (cfg : LeaseConfig) × (lease_config_of f d ≡ ok cfg)
      unfolding lease_config_of parse_lease
      lease_configured d l e parses =
          let (a, pa) = parses duration in
          let (b, pb) = parses renewal_interval in
          let (g, pg) = parses health_check_interval in
          let (h, ph) = parses failback_stabilization in
          (
            record {
              file = l.file;
              duration = a;
              renewal_interval = b;
              health_check_interval = g;
              failback_stabilization = h;
            },
            rw (e, pa, pb, pg, ph) refl,
          )

      standby_checks :
          (raw : Raw) (fields : List (String × Raw)) (d : Descriptor)
          → c.object_of raw ≡ some fields
          → c.descriptor_of raw ≡ some d
          → check_fields c f fields ≡ none
          → validate_lease_field c f fields (has_standby d) ≡ none
      unfolding check_fields
      standby_checks raw fields d o r h =
          let (_, a) = both_pass (require_field c fields "machine_events_file") _ h in
          let (_, b) =
            both_pass (with_field c fields "primary" (validate_instance_fields c f)) _ a in
          let (_, checks) = both_pass (on_standby c f (present_field c fields "standby")) _ b in
          rw (laws.standby_read raw fields d o r) checks

      unleased : (d : Descriptor) → is_set d.lease ≡ false → lease_config_of f d ≡ ok no_lease
      unfolding lease_config_of
      unleased d h = elim (Option-cases d.lease) [
        | inl e ↦ rw e refl
        | inr (l, e) ↦ absurd (ground arith)
      ]

      -- A descriptor that the platform decodes passes the checks of its health contract, carries a
      -- lease exactly if it deploys a standby, and its lease settings are read without an error, if
      -- the decoder sets what the keys of the document hold and the keys are spelled as the fields.
      pub unmarshal-lease_config_of :
          (raw : Raw) (d : Descriptor)
          → unmarshal c f raw ≡ decoded d
          → (validate_health f d ≡ none)
            × (is_set d.lease ≡ has_standby d)
            × (cfg : LeaseConfig) × (lease_config_of f d ≡ ok cfg)
      unfolding validate_lease_field
      unmarshal-lease_config_of raw d h =
          let (fields, o, r, checks, health) = unmarshal_passes raw d h in
          let lease_checks = standby_checks raw fields d o r checks in
          let same_lease = laws.lease_read raw fields d o r in
          elim (Bool-cases (has_standby d)) [
            | inl standby ↦
                let (lease_raw, lease_fields, e, q, every) =
                  lease_found fields (rw standby at lease_checks) in
                let set : is_set d.lease ≡ true = same_lease ∙ rw e refl in
                elim (Option-cases d.lease) [
                  | inl none_set ↦ absurd (ground arith)
                  | inr (l, leased) ↦
                      let parses = λ (field : LeaseField).
                        field_parses raw fields d l lease_raw lease_fields o r leased e q field
                          (every field) in
                      let made = lease_configured d l leased parses in
                      (health, rw standby set, made.0, made.1)
                ]
            | inr alone ↦
                let unset : is_set d.lease ≡ false =
                  same_lease
                  ∙ fail_if-false (is_set (present_field c fields "lease")) _
                      (rw alone at lease_checks) in
                (health, rw alone unset, no_lease, unleased d unset)
          ]
