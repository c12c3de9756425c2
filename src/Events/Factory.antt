-- ===== src/Events/Factory.antt =====
-- platform/internal/events: factory.go and causation.go. The clock, the generator of ids and the
-- process id are what the environment supplies.
use opdl.Base.{ℕ, String, true, Option, ◌==◌, string_eq, if◌then◌else◌}
use opdl.Deployment.Types.{Descriptor}
use opdl.Events.Kind.{Origin, validate_type, source_of, validate_origin}
use opdl.Events.Event.{
  Event, Outcome, ◌>>=◌, schema_version_of, severity_of, scope_of, stable_id_of, tags_of,
}
use opdl.Events.Envelope.{Envelope, Json, validate, passed, or_error}

-- The value that a context carries; no value is the pair of empty ids.
pub record Cause : Type 0 where
  pub causation_id : String
  pub correlation_id : String

abbrev pub no_cause : Cause
no_cause = record { causation_id = ""; correlation_id = "" }

-- `WithCause`.
unfoldable pub with_cause : Envelope → Cause
with_cause e = record {
  causation_id = e.id;
  correlation_id = if e.correlation_id == "" then e.id else e.correlation_id;
}

-- `NewFactory`: the factory is its origin.
unfoldable pub new_factory : Descriptor → (process_role : String) → (pid : ℕ) → Outcome Origin
unfolding validate_origin
new_factory d role pid =
    let origin : Origin = record {
      machine = d.machine;
      machine_profile = d.machine_profile;
      process_role = role;
      pid = pid;
    } in
    passed (validate_origin origin) origin

-- `Wrap` of a composed factory: `now` is the clock's reading, `new_id` what the generator gives.
unfoldable pub wrap :
    Json → Origin → (now : ℕ) → (new_id : Option String) → Cause → Event → Outcome Envelope
wrap j origin now new_id cause event = do
  _ ← passed (validate_type event.kind) tt
  version ← schema_version_of event.versioned
  severity ← severity_of event.severe
  scope ← scope_of event.scoped
  stable_id ← stable_id_of event.identified
  payload ← or_error event.payload "encode payload"
  id ← or_error new_id "generate occurrence ID"
  let envelope : Envelope = record {
    id = id;
    kind = event.kind;
    schema_version = version;
    occurred_at = record { instant = now; is_utc = true };
    source = source_of event.kind;
    severity = severity;
    scope = scope;
    origin = origin;
    causation_id = cause.causation_id;
    correlation_id = cause.correlation_id;
    tags = tags_of event.tagged;
    stable_id = stable_id;
    payload = payload;
  }
  passed (validate j envelope) envelope
