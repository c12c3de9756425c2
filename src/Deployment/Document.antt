-- ===== src/Deployment/Document.antt =====
-- The JSON document of a descriptor that builder/deployment/deployment.go declares by its tags, as far
-- as the platform's decoding looks into it. encoding/json is a parameter: what it writes for each
-- struct, and the keys beside those named here.
use opdl.Base.{String, false, List, [], ◌∷◌, ◌++◌, Option, none, some, ◌≡◌, lookup, string_eq}
use opdl.Deployment.Types.{Descriptor, Instance, Nats, Lease}
use opdl.Deployment.Decoding.{Codec}

-- `json.Marshal` of the builder's structs, and the fields that the decoding does not look at.
pub record Encoder (Raw : Type 0) : Type 0 where
  pub text_raw : String → Raw
  pub descriptor_raw : Descriptor → Raw
  pub instance_raw : Instance → Raw
  pub nats_raw : Nats → Raw
  pub lease_raw : Lease → Raw
  pub descriptor_rest : Descriptor → List (String × Raw)
  pub instance_rest : Instance → List (String × Raw)
  pub nats_rest : Nats → List (String × Raw)

-- A field with `omitempty`.
abbrev pub if_set : {A Raw : Type 0} → String → (A → Raw) → Option A → List (String × Raw)
if_set key raw none = []
if_set key raw (some a) = (key, raw a) ∷ []

module _ {Raw : Type 0} (e : Encoder Raw) where
  unfoldable pub descriptor_fields : Descriptor → List (String × Raw)
  descriptor_fields d =
      ("machine_events_file", e.text_raw d.machine_events_file)
      ∷ ("primary", e.instance_raw d.primary)
      ∷ (if_set "standby" e.instance_raw d.standby
          ++ (if_set "lease" e.lease_raw d.lease ++ e.descriptor_rest d))

  unfoldable pub instance_fields : Instance → List (String × Raw)
  instance_fields i =
      ("events_file", e.text_raw i.events_file)
      ∷ ("state_file", e.text_raw i.state_file)
      ∷ ("log_file", e.text_raw i.log_file)
      ∷ ("api_address", e.text_raw i.api_address)
      ∷ ("api_read_header_timeout", e.text_raw i.api_read_header_timeout)
      ∷ ("api_shutdown_timeout", e.text_raw i.api_shutdown_timeout)
      ∷ ("nats", e.nats_raw i.nats)
      ∷ e.instance_rest i

  unfoldable pub nats_fields : Nats → List (String × Raw)
  nats_fields n =
      ("server_name", e.text_raw n.server_name)
      ∷ ("cluster_name", e.text_raw n.cluster_name)
      ∷ ("cluster_address", e.text_raw n.cluster_address)
      ∷ e.nats_rest n

  unfoldable pub lease_fields : Lease → List (String × Raw)
  lease_fields l =
      ("file", e.text_raw l.file)
      ∷ ("duration", e.text_raw l.duration)
      ∷ ("renewal_interval", e.text_raw l.renewal_interval)
      ∷ ("health_check_interval", e.text_raw l.health_check_interval)
      ∷ ("failback_stabilization", e.text_raw l.failback_stabilization)
      ∷ []

  -- encoding/json reads back what it writes: an object by its keys, a text, and a whole descriptor; no
  -- text and no object is null; and no other field is named as the two optional ones.
  pub record ReadsBack (c : Codec Raw) : Type 0 where
    pub text_read : (t : String) → c.text_of (e.text_raw t) ≡ some t
    pub text_set : (t : String) → c.is_null (e.text_raw t) ≡ false
    pub instance_set : (i : Instance) → c.is_null (e.instance_raw i) ≡ false
    pub nats_set : (n : Nats) → c.is_null (e.nats_raw n) ≡ false
    pub lease_set : (l : Lease) → c.is_null (e.lease_raw l) ≡ false
    pub descriptor_object :
        (d : Descriptor) → c.object_of (e.descriptor_raw d) ≡ some (descriptor_fields d)
    pub instance_object : (i : Instance) → c.object_of (e.instance_raw i) ≡ some (instance_fields i)
    pub nats_object : (n : Nats) → c.object_of (e.nats_raw n) ≡ some (nats_fields n)
    pub lease_object : (l : Lease) → c.object_of (e.lease_raw l) ≡ some (lease_fields l)
    pub descriptor_read : (d : Descriptor) → c.descriptor_of (e.descriptor_raw d) ≡ some d
    pub no_standby : (d : Descriptor) → lookup "standby" (e.descriptor_rest d) ≡ none
    pub no_lease : (d : Descriptor) → lookup "lease" (e.descriptor_rest d) ≡ none
