-- ===== src/App/DecodeTests.antt =====
-- The decoding of a concrete descriptor, from a document that spells its keys as the fields.
use opdl.Base.{
  ◌≡◌, refl, sym, ◌∙◌, ap, String, List, [], ◌∷◌, ◌++◌, Option, none, some, arith, string_eq,
  lookup,
}
use opdl.Redundancy.Lease.{LeaseConfig}
use opdl.Deployment.Types.{Lease, Instance, Descriptor, is_set, has_standby}
use opdl.Deployment.Platform.{validate_health}
use opdl.Deployment.Decoding.{decoded, present_field, check_fields, unmarshal}
use opdl.Deployment.Document.{if_set}
use opdl.Deployment.SampleDocument.{
  Doc, whole, instance_doc, nats_doc, lease_doc, text, fields_of, text_of, descriptor_of, documents,
  encoder, documents-ReadsBack,
}
use opdl.Deployment.Written.{validate-unmarshal}
use opdl.Deployment.Sample.{parsers, reads, descriptor, alpha_accepted}
use opdl.Deployment.Agreement.{validate-validate_health}
use opdl.App.Setup.{ok, lease_config_of}
use opdl.App.DecodedSetup.{
  LeaseField, duration, renewal_interval, health_check_interval, failback_stabilization, key_of,
  value_of, ReadsRecords, unmarshal-lease_config_of,
}

abbrev document_fields : Descriptor → List (String × Doc)
document_fields d =
    ("machine_events_file", text d.machine_events_file)
    ∷ ("primary", instance_doc d.primary)
    ∷ (if_set "standby" instance_doc d.standby ++ (if_set "lease" lease_doc d.lease ++ []))

abbrev lease_found : Option Lease → Option Doc
lease_found none = none
lease_found (some l) = some (lease_doc l)

optional_found :
    (m : Doc) (p : Doc) (s : Option Instance) (l : Option Lease)
    → let fields : List (String × Doc) =
        ("machine_events_file", m)
        ∷ ("primary", p)
        ∷ (if_set "standby" instance_doc s ++ (if_set "lease" lease_doc l ++ [])) in
      (is_set s ≡ is_set (present_field documents fields "standby"))
      × (present_field documents fields "lease" ≡ lease_found l)
unfolding present_field lookup
optional_found m p none none = (refl, refl)
optional_found m p none (some l) = (refl, refl)
optional_found m p (some i) none = (refl, refl)
optional_found m p (some i) (some l) = (refl, refl)

-- What a document's object and descriptor are.
whole_read :
    (raw : Doc) (fields : List (String × Doc)) (d : Descriptor)
    → fields_of raw ≡ some fields
    → descriptor_of raw ≡ some d
    → document_fields d ≡ fields
whole_read (whole d') fields d o r =
    let same : d' ≡ d = ground arith in
    let read : some (document_fields d') ≡ some fields = o in
    sym (ap document_fields same) ∙ ground arith
whole_read (instance_doc i) fields d o r = absurd (ground arith)
whole_read (nats_doc n) fields d o r = absurd (ground arith)
whole_read (lease_doc l) fields d o r = absurd (ground arith)
whole_read (text t) fields d o r = absurd (ground arith)

lease_set : (l : Option Lease) → is_set l ≡ is_set (lease_found l)
lease_set none = refl
lease_set (some l) = refl

abbrev lease_fields_of : Lease → List (String × Doc)
lease_fields_of l =
    ("file", text l.file)
    ∷ ("duration", text l.duration)
    ∷ ("renewal_interval", text l.renewal_interval)
    ∷ ("health_check_interval", text l.health_check_interval)
    ∷ ("failback_stabilization", text l.failback_stabilization)
    ∷ []

field_present :
    (l : Lease) (field : LeaseField)
    → present_field documents (lease_fields_of l) (key_of field) ≡ some (text (value_of field l))
unfolding present_field lookup
field_present l duration = refl
field_present l renewal_interval = refl
field_present l health_check_interval = refl
field_present l failback_stabilization = refl

document_reads : ReadsRecords documents
unfolding has_standby
document_reads = record {
  standby_read = λ raw fields d o r.
      (optional_found (text d.machine_events_file) (instance_doc d.primary) d.standby d.lease).0
      ∙ ap (λ fs. is_set (present_field documents fs "standby")) (whole_read raw fields d o r);
  lease_read = λ raw fields d o r.
      lease_set d.lease
      ∙ ap is_set (
          sym
            (optional_found (text d.machine_events_file) (instance_doc d.primary) d.standby
              d.lease).1)
      ∙ ap (λ fs. is_set (present_field documents fs "lease")) (whole_read raw fields d o r);
  text_read = λ raw fields d l lease_raw lease_fields field value o r e p q v.
      let found =
        (optional_found (text d.machine_events_file) (instance_doc d.primary) d.standby
          d.lease).1 in
      let present : present_field documents (document_fields d) "lease" ≡ some lease_raw =
        ap (λ fs. present_field documents fs "lease") (whole_read raw fields d o r) ∙ p in
      let doc : some (lease_doc l) ≡ some lease_raw =
        ap lease_found (sym e) ∙ sym found ∙ present in
      let same : lease_doc l ≡ lease_raw = ground arith in
      let read : some (lease_fields_of l) ≡ some lease_fields = ap fields_of same ∙ q in
      let fields_same : lease_fields_of l ≡ lease_fields = ground arith in
      let held : some (text (value_of field l)) ≡ some value =
        sym (field_present l field)
        ∙ ap (λ fs. present_field documents fs (key_of field)) fields_same
        ∙ v in
      let value_same : text (value_of field l) ≡ value = ground arith in
      sym (ap text_of value_same);
}

alpha_passes : check_fields documents parsers (document_fields (descriptor "alpha")) ≡ none
unfolding check_fields lookup
alpha_passes = refl

alpha_decodes :
    unmarshal documents parsers (whole (descriptor "alpha")) ≡ decoded (descriptor "alpha")
unfolding unmarshal
alpha_decodes =
    rw (alpha_passes, validate-validate_health parsers reads (descriptor "alpha") alpha_accepted)
      refl

unmarshal-lease_config_of_example :
    let d = descriptor "alpha" in
    (validate_health parsers d ≡ none)
    × (is_set d.lease ≡ has_standby d)
    × (cfg : LeaseConfig) × (lease_config_of parsers d ≡ ok cfg)
unmarshal-lease_config_of_example =
    unmarshal-lease_config_of documents parsers document_reads (whole (descriptor "alpha"))
      (descriptor "alpha") alpha_decodes

validate-unmarshal_example :
    unmarshal documents parsers (encoder.descriptor_raw (descriptor "alpha"))
    ≡ decoded (descriptor "alpha")
validate-unmarshal_example =
    validate-unmarshal documents encoder documents-ReadsBack parsers reads (descriptor "alpha")
      alpha_accepted
