-- ===== src/Events/Tests.antt =====
-- The stamping of an event, the wire and the backends at concrete values.
use opdl.Base.{
  if◌then◌else◌, ◌≡◌, ◌++◌, refl, ◌⊎◌, true, false, List, [], ◌∷◌, none, some, trim_space, ◌==◌,
  string_eq,
}
use opdl.Events.Kind.{Origin, split_dots, in_words, validate_type, source_of, validate_origin}
use opdl.Events.Event.{Event, ok, normalize_tags, collect_tags}
use opdl.HealthView.Snapshot.{sorted}
use opdl.Events.Envelope.{Envelope, Json, validate, encode, decode}
use opdl.Events.Factory.{no_cause, with_cause, wrap}
use opdl.Events.Wrapping.{is_usable, is_ok, IsStamped, wrap-is_usable}
use opdl.Events.Wire.{starts, wrap-with_cause}
use opdl.Events.Storage.{
  Publisher, created, new_publisher, places, Move, begins, stores_next, returns, begins_close,
  closes_next, moves,
}
use opdl.Events.Logs.{Stores, Publication, landed, line, torn, publish_each}
use opdl.Events.LogsKept.{read, no_errors, publish_each-read}
use opdl.Events.StorageOrder.{IsOrdered, moves-IsOrdered}

abbrev origin : Origin
origin = record { machine = "alpha"; machine_profile = "node"; process_role = "primary"; pid = 7 }

abbrev event : Event
event = record {
  kind = "platform.audit.door_opened";
  versioned = some 2;
  severe = some "warn";
  scoped = none;
  tagged = some (" warning " ∷ "audit" ∷ "" ∷ "warning" ∷ []);
  identified = some " door-7 ";
  payload = some "{}";
}

abbrev envelope : Envelope
envelope = record {
  id = "001";
  kind = "platform.audit.door_opened";
  schema_version = 2;
  occurred_at = record { instant = 500; is_utc = true };
  source = "audit";
  severity = "warn";
  scope = "instance";
  origin = origin;
  causation_id = "";
  correlation_id = "";
  tags = "audit" ∷ "warning" ∷ [];
  stable_id = "door-7";
  payload = "{}";
}

abbrev json : Json
json = record {
  is_json = λ t. t == "{}";
  marshal = λ e. some e.id;
  unmarshal = λ t. if t == "001" then some envelope else none;
}

origin_valid : validate_origin origin ≡ none
unfolding validate_origin
origin_valid = refl

wrap-is_usable_example :
    ((is_usable event ≡ true)
      × (e : Envelope) × (wrap json origin 500 (some "001") no_cause event ≡ ok e)
      × IsStamped json origin 500 "001" no_cause event "{}" e)
    ⊎ ((is_usable event ≡ false)
        × (is_ok (wrap json origin 500 (some "001") no_cause event) ≡ false))
wrap-is_usable_example =
    wrap-is_usable json origin 500 "001" no_cause event "{}" refl origin_valid refl refl refl refl

wrapped : wrap json origin 500 (some "001") no_cause event ≡ ok envelope
unfolding wrap validate validate_type validate_origin source_of split_dots in_words normalize_tags
    collect_tags sorted trim_space
wrapped = refl

abbrev reaction : Envelope
reaction = record envelope { id = "002"; causation_id = "001"; correlation_id = "001" }

reacted : wrap json origin 500 (some "002") (with_cause envelope) event ≡ ok reaction
unfolding wrap with_cause validate validate_type validate_origin source_of split_dots in_words
    normalize_tags collect_tags sorted trim_space
reacted = refl

wrap-with_cause_example : (reaction.causation_id ≡ "001") × (reaction.correlation_id ≡ "001")
wrap-with_cause_example =
    wrap-with_cause json envelope origin 500 (some "002") event envelope reaction
      (starts origin 500 (some "001") event wrapped) reacted

abbrev publisher : Publisher
publisher = record {
  backends = 0 ∷ 1 ∷ [];
  closed = false;
  in_flight = [];
  open_backends = [];
  close_errs = [];
  calls = [];
}

made : new_publisher 2 ≡ created publisher
unfolding new_publisher places
made = refl

-- Two publications, one of whose backends fails, and a Close that begins between their stores.
abbrev rush : List Move
rush =
    begins (some envelope)
    ∷ stores_next 0 (some "disk full")
    ∷ begins (some reaction)
    ∷ begins_close
    ∷ closes_next none
    ∷ begins (some envelope)
    ∷ stores_next 1 none
    ∷ stores_next 0 none
    ∷ returns 0
    ∷ stores_next 0 none
    ∷ closes_next none
    ∷ returns 0
    ∷ closes_next none
    ∷ closes_next none
    ∷ []

moves-IsOrdered_example : IsOrdered (moves rush publisher).calls
moves-IsOrdered_example = moves-IsOrdered 2 publisher rush made

abbrev machine_envelope : Envelope
machine_envelope = record envelope { id = "003"; scope = "machine" }

abbrev codec : Json
codec = record json {
  unmarshal =
      λ t. if t == "001" then some envelope else if t == "003" then some machine_envelope else none;
}

coded :
    (encode codec envelope ≡ ok "001")
    × (decode codec "001" ≡ ok envelope)
    × (encode codec machine_envelope ≡ ok "003")
    × (decode codec "003" ≡ ok machine_envelope)
unfolding encode decode validate validate_type validate_origin source_of split_dots in_words
coded = (refl, refl, refl, refl)

abbrev succeeding : Envelope → Publication
succeeding e = record { envelope = e; ctx_ended = false; log_write = landed; store_write = landed }

abbrev two_facts : List Publication
two_facts = succeeding envelope ∷ succeeding machine_envelope ∷ []

abbrev fresh_files : Stores
fresh_files = record {
  log = record { path = "events"; content = torn "{" ∷ line "001" ∷ []; closed = false };
  store = record { path = "machine"; content = []; closed = false };
}

publish_each-read_example :
    let r = publish_each codec two_facts fresh_files in
    (r.0 ≡ no_errors two_facts)
    × (read codec r.1.log.content ≡ [] ++ (envelope ∷ machine_envelope ∷ []))
    × (read codec r.1.store.content ≡ [] ++ (machine_envelope ∷ []))
unfolding decode
publish_each-read_example =
    let (a, b, c, d) = coded in
    publish_each-read codec two_facts fresh_files ((refl, refl), (refl, refl))
      ((("001", a, b), refl, refl, refl), ((("003", c, d), refl, refl, refl), tt))
