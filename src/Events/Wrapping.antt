-- ===== src/Events/Wrapping.antt =====
-- Which events the factory stamps, and what it makes of them (factory.go, event.go).
use opdl.Base.{
  ℕ, ◌≡◌, refl, ◌⊎◌, inl, inr, String, Bool, true, false, not, ◌&&◌, Option, none, some, arith,
  ◌==◌, nat_eq, string_eq, trim_space, Bool-cases, Option-cases, Error, eq_iff,
}
use opdl.Events.Kind.{
  Origin, validate_type, source_of, severity_valid, scope_valid, validate_origin,
}
use opdl.Events.Event.{
  Event, Outcome, ok, err, schema_version_of, severity_of, scope_of, stable_id_of, tags_of,
}
use opdl.Events.Envelope.{Envelope, Json, validate}
use opdl.Events.Factory.{Cause, wrap}

abbrev passes : Option Error → Bool
passes none = true
passes (some e) = false

abbrev pub is_ok : {A : Type 0} → Outcome A → Bool
is_ok (ok a) = true
is_ok (err e) = false

abbrev if_declared : {A : Type 0} → (A → Bool) → Option A → Bool
if_declared test none = true
if_declared test (some a) = test a

-- Everything that the event declares is allowed.
abbrev pub is_usable : Event → Bool
is_usable e =
    passes (validate_type e.kind)
    && if_declared (λ n. not (n == 0)) e.versioned
    && if_declared severity_valid e.severe
    && if_declared scope_valid e.scoped
    && if_declared (λ id. not (trim_space id == "")) e.identified

-- `o` holds a value that passes `good` if `b`, and an error if not.
abbrev Gives : {A : Type 0} → (A → Bool) → Outcome A → Bool → Type 0
Gives {A} good o b =
    ((b ≡ true) × (a : A) × (o ≡ ok a) × (good a ≡ true))
    ⊎ ((b ≡ false) × (e : Error) × (o ≡ err e))

abbrev positive : ℕ → Bool
positive n = not (n == 0)

version_given : (v : Option ℕ) → Gives positive (schema_version_of v) (if_declared positive v)
version_given none = inl (refl, 1, refl, refl)
version_given (some n) = elim (Bool-cases (n == 0)) [
  | inl e ↦ inr (ground arith, "declares no positive schema version", ground arith)
  | inr e ↦ inl (ground arith, n, ground arith, ground arith)
]

severity_given :
    (s : Option String) → Gives severity_valid (severity_of s) (if_declared severity_valid s)
severity_given none = inl (refl, "info", refl, refl)
severity_given (some s) = elim (Bool-cases (severity_valid s)) [
  | inl e ↦ inl (e, s, rw e refl, e)
  | inr e ↦ inr (e, "declares an unknown severity", rw e refl)
]

scope_given : (s : Option String) → Gives scope_valid (scope_of s) (if_declared scope_valid s)
scope_given none = inl (refl, "instance", refl, refl)
scope_given (some s) = elim (Bool-cases (scope_valid s)) [
  | inl e ↦ inl (e, s, rw e refl, e)
  | inr e ↦ inr (e, "declares an unknown scope", rw e refl)
]

abbrev states_id : String → Bool
states_id id = not (trim_space id == "")

id_given : (s : Option String) → Gives (λ id. true) (stable_id_of s) (if_declared states_id s)
id_given none = inl (refl, "", refl, refl)
id_given (some s) = elim (Bool-cases (trim_space s == "")) [
  | inl e ↦ inr (ground arith, "declares an empty stable identity", ground arith)
  | inr e ↦ inl (ground arith, trim_space s, ground arith, refl)
]

-- What `Wrap` makes of values that it has read.
abbrev envelope_of :
    Origin → ℕ → String → Cause → Event → ℕ → String → String → String → String → Envelope
envelope_of origin now id cause event version severity scope stable_id payload = record {
  id = id;
  kind = event.kind;
  schema_version = version;
  occurred_at = record { instant = now; is_utc = true };
  source = source_of event.kind;
  severity = severity;
  scope = scope;
  origin = origin;
  causation_id = cause.causation_id;
  correlation_id = cause.correlation_id;
  tags = tags_of event.tagged;
  stable_id = stable_id;
  payload = payload;
}

module _ (j : Json) (origin : Origin) (now : ℕ) (id : String) (cause : Cause) (event : Event)
    (payload : String) where
  envelope_of_validates :
      (version : ℕ) (severity scope stable_id : String)
      → validate_origin origin ≡ none
      → (now == 0) ≡ false
      → (id == "") ≡ false
      → (payload == "") ≡ false
      → j.is_json payload ≡ true
      → validate_type event.kind ≡ none
      → positive version ≡ true
      → severity_valid severity ≡ true
      → scope_valid scope ≡ true
      → validate j (envelope_of origin now id cause event version severity scope stable_id payload)
        ≡ none
  unfolding validate
  envelope_of_validates version severity scope stable_id a b c d e f g h i =
      let same : (source_of event.kind == source_of event.kind) ≡ true =
        (eq_iff (source_of event.kind) (source_of event.kind)).1 refl in
      ground arith

  wrap_given :
      (version : ℕ) (severity scope stable_id : String)
      → event.payload ≡ some payload
      → validate_type event.kind ≡ none
      → schema_version_of event.versioned ≡ ok version
      → severity_of event.severe ≡ ok severity
      → scope_of event.scoped ≡ ok scope
      → stable_id_of event.identified ≡ ok stable_id
      → let e = envelope_of origin now id cause event version severity scope stable_id payload in
        validate j e ≡ none → wrap j origin now (some id) cause event ≡ ok e
  unfolding wrap
  wrap_given version severity scope stable_id p a b c d f v = rw (wrap, a, b, c, d, f, p, v) refl

  -- What the envelope of a usable event says.
  pub record IsStamped (e : Envelope) : Type 0 where
    pub valid : validate j e ≡ none
    pub named : (e.id ≡ id) × (e.kind ≡ event.kind) × (e.source ≡ source_of event.kind)
    pub from : (e.origin ≡ origin) × (e.occurred_at.instant ≡ now) × (e.occurred_at.is_utc ≡ true)
    pub caused : (e.causation_id ≡ cause.causation_id) × (e.correlation_id ≡ cause.correlation_id)
    pub carries : (e.payload ≡ payload) × (e.tags ≡ tags_of event.tagged)
    pub versioned : schema_version_of event.versioned ≡ ok e.schema_version
    pub graded : (severity_of event.severe ≡ ok e.severity) × (scope_of event.scoped ≡ ok e.scope)
    pub identified : stable_id_of event.identified ≡ ok e.stable_id

  envelope_of-IsStamped :
      (version : ℕ) (severity scope stable_id : String)
      → validate j (envelope_of origin now id cause event version severity scope stable_id payload)
        ≡ none
      → schema_version_of event.versioned ≡ ok version
      → severity_of event.severe ≡ ok severity
      → scope_of event.scoped ≡ ok scope
      → stable_id_of event.identified ≡ ok stable_id
      → IsStamped (envelope_of origin now id cause event version severity scope stable_id payload)
  envelope_of-IsStamped version severity scope stable_id valid v s c d = record {
    valid = valid;
    named = (refl, refl, refl);
    from = (refl, refl, refl);
    caused = (refl, refl);
    carries = (refl, refl);
    versioned = v;
    graded = (s, c);
    identified = d;
  }

  -- A factory whose origin is valid, at a time that is not the zero time, with an id that is not empty
  -- and a payload of valid JSON that is not empty, wraps an event exactly if all that the event
  -- declares is allowed, and the envelope then is valid and says what the event declares.
  pub wrap-is_usable :
      event.payload ≡ some payload
      → validate_origin origin ≡ none
      → (now == 0) ≡ false
      → (id == "") ≡ false
      → (payload == "") ≡ false
      → j.is_json payload ≡ true
      → ((is_usable event ≡ true)
          × (e : Envelope) × (wrap j origin now (some id) cause event ≡ ok e)
          × IsStamped e)
        ⊎ ((is_usable event ≡ false) × (is_ok (wrap j origin now (some id) cause event) ≡ false))
  unfolding wrap
  wrap-is_usable p o n i q json = elim (Option-cases (validate_type event.kind)) [
    | inr (refused, t) ↦ inr (ground arith, rw (wrap, t) refl)
    | inl t ↦ elim (version_given event.versioned) [
      | inr (v, _, bad) ↦ inr (ground arith, rw (wrap, t, bad) refl)
      | inl (v, version, read_v, good_v) ↦ elim (severity_given event.severe) [
        | inr (s, _, bad) ↦ inr (ground arith, rw (wrap, t, read_v, bad) refl)
        | inl (s, severity, read_s, good_s) ↦ elim (scope_given event.scoped) [
          | inr (c, _, bad) ↦ inr (ground arith, rw (wrap, t, read_v, read_s, bad) refl)
          | inl (c, scope, read_c, good_c) ↦ elim (id_given event.identified) [
            | inr (d, _, bad) ↦ inr (ground arith, rw (wrap, t, read_v, read_s, read_c, bad) refl)
            | inl (d, stable_id, read_d, _) ↦
                let valid =
                  envelope_of_validates version severity scope stable_id o n i q json t good_v
                    good_s good_c in
                inl (
                  ground arith,
                  _,
                  wrap_given version severity scope stable_id p t read_v read_s read_c read_d valid,
                  envelope_of-IsStamped version severity scope stable_id valid read_v read_s read_c
                      read_d,
                )
          ]
        ]
      ]
    ]
  ]
