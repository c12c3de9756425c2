-- ===== src/Deployment/SampleDocument.antt =====
-- Documents of descriptors, with their keys spelled as the builder's tags, and a reader of them.
use opdl.Base.{refl, String, false, List, [], ◌∷◌, ◌++◌, Option, none, some, lookup, string_eq}
use opdl.Deployment.Types.{Lease, Nats, Instance, Descriptor}
use opdl.Deployment.Decoding.{Codec}
use opdl.Deployment.Document.{
  Encoder, if_set, descriptor_fields, instance_fields, nats_fields, lease_fields, ReadsBack,
}

-- The document of a descriptor, and those of its parts.
pub data Doc : Type 0 where
  whole : Descriptor → Doc
  instance_doc : Instance → Doc
  nats_doc : Nats → Doc
  lease_doc : Lease → Doc
  text : String → Doc

abbrev pub fields_of : Doc → Option (List (String × Doc))
fields_of (whole d) = some (
    ("machine_events_file", text d.machine_events_file)
    ∷ ("primary", instance_doc d.primary)
    ∷ (if_set "standby" instance_doc d.standby ++ (if_set "lease" lease_doc d.lease ++ [])))
fields_of (instance_doc i) = some (
    ("events_file", text i.events_file)
    ∷ ("state_file", text i.state_file)
    ∷ ("log_file", text i.log_file)
    ∷ ("api_address", text i.api_address)
    ∷ ("api_read_header_timeout", text i.api_read_header_timeout)
    ∷ ("api_shutdown_timeout", text i.api_shutdown_timeout)
    ∷ ("nats", nats_doc i.nats)
    ∷ [])
fields_of (nats_doc n) = some (
    ("server_name", text n.server_name)
    ∷ ("cluster_name", text n.cluster_name)
    ∷ ("cluster_address", text n.cluster_address)
    ∷ [])
fields_of (lease_doc l) = some (
    ("file", text l.file)
    ∷ ("duration", text l.duration)
    ∷ ("renewal_interval", text l.renewal_interval)
    ∷ ("health_check_interval", text l.health_check_interval)
    ∷ ("failback_stabilization", text l.failback_stabilization)
    ∷ [])
fields_of (text t) = none

abbrev pub text_of : Doc → Option String
text_of (text t) = some t
text_of _ = none

abbrev pub descriptor_of : Doc → Option Descriptor
descriptor_of (whole d) = some d
descriptor_of _ = none

abbrev pub documents : Codec Doc
documents = record {
  is_null = λ raw. false;
  object_of = fields_of;
  text_of = text_of;
  descriptor_of = descriptor_of;
}

abbrev pub encoder : Encoder Doc
encoder = record {
  text_raw = λ t. text t;
  descriptor_raw = λ d. whole d;
  instance_raw = λ i. instance_doc i;
  nats_raw = λ n. nats_doc n;
  lease_raw = λ l. lease_doc l;
  descriptor_rest = λ d. [];
  instance_rest = λ i. [];
  nats_rest = λ n. [];
}

pub documents-ReadsBack : ReadsBack encoder documents
unfolding descriptor_fields instance_fields nats_fields lease_fields lookup
documents-ReadsBack = record {
  text_read = λ t. refl;
  text_set = λ t. refl;
  instance_set = λ i. refl;
  nats_set = λ n. refl;
  lease_set = λ l. refl;
  descriptor_object = λ d. refl;
  instance_object = λ i. refl;
  nats_object = λ n. refl;
  lease_object = λ l. refl;
  descriptor_read = λ d. refl;
  no_standby = λ d. refl;
  no_lease = λ d. refl;
}
