-- ===== src/Events/Wire.antt =====
-- The way of an envelope over the wire, and what a chain of causes shares (envelope.go, causation.go).
use opdl.Base.{
  ℕ, ◌≡◌, refl, sym, ◌∙◌, ap, ◌⊎◌, inl, inr, String, true, false, Option, none, some, arith, ◌==◌,
  string_eq, Bool-cases, eq_iff,
}
use opdl.Events.Kind.{Origin, scope_valid}
use opdl.Events.Event.{Event, ok}
use opdl.Events.Envelope.{Envelope, Json, validate, with_scope, encode, decode}
use opdl.Events.Factory.{Cause, no_cause, with_cause, wrap}

module _ (j : Json) where
  validates-scope_valid : (e : Envelope) → validate j e ≡ none → scope_valid e.scope ≡ true
  unfolding validate
  validates-scope_valid e v = ground arith

  valid_with_scope : (e : Envelope) → validate j e ≡ none → with_scope e ≡ e
  valid_with_scope e v = elim (Bool-cases (e.scope == "")) [
    | inl blank ↦
        let bad : scope_valid "" ≡ true =
          ap scope_valid (sym ((eq_iff e.scope "").0 blank)) ∙ validates-scope_valid e v in
        absurd (ground arith)
    | inr stated ↦ rw stated refl
  ]

  wrap-stamps :
      (origin : Origin) (now : ℕ) (id : Option String) (cause : Cause) (event : Event)
      (e : Envelope)
      → wrap j origin now id cause event ≡ ok e
      → (validate j e ≡ none)
        × (e.causation_id ≡ cause.causation_id)
        × (e.correlation_id ≡ cause.correlation_id)
  unfolding wrap
  wrap-stamps origin now id cause event e w = ground arith

  -- An envelope that the factory wraps is encoded, and what a receiver decodes is that envelope, if
  -- the codec renders it and reads it back.
  decode-wrap :
      (origin : Origin) (now : ℕ) (id : Option String) (cause : Cause) (event : Event)
      (e : Envelope) (text : String)
      → wrap j origin now id cause event ≡ ok e
      → j.marshal e ≡ some text
      → j.unmarshal text ≡ some e
      → (encode j e ≡ ok text) × (decode j text ≡ ok e)
  unfolding encode decode
  decode-wrap origin now id cause event e text w m r =
      let (v, _, _) = wrap-stamps origin now id cause event e w in
      let same = valid_with_scope e v in (rw (v, m) refl, rw (r, same, v) refl)

-- A chain of events, each wrapped under the cause of the one before it, and the first under none. The
-- envelopes may come from several factories.
pub data Chain (j : Json) (root : Envelope) : Envelope → Type 0 where
  starts :
      (origin : Origin) (now : ℕ) (id : Option String) (event : Event)
      → wrap j origin now id no_cause event ≡ ok root
      → Chain j root root
  follows :
      (origin : Origin) (now : ℕ) (id : Option String) (event : Event) (e e' : Envelope)
      → Chain j root e
      → wrap j origin now id (with_cause e) event ≡ ok e'
      → Chain j root e'

module _ (j : Json) (root : Envelope) where
  with_cause-root :
      (e : Envelope)
      → validate j e ≡ none
      → (e.correlation_id ≡ "") × (e.id ≡ root.id)
        ⊎ (e.correlation_id ≡ root.id) × (root.id == "") ≡ false
      → (with_cause e).correlation_id ≡ root.id
  unfolding with_cause
  with_cause-root e v (inl (none_yet, is_root)) = rw none_yet is_root
  with_cause-root e v (inr (same, named)) = rw (same, named) refl

  validates_named : (e : Envelope) → validate j e ≡ none → (e.id == "") ≡ false
  unfolding validate
  validates_named e v = ground arith

  Chain-with_cause :
      (e : Envelope)
      → Chain j root e
      → ((with_cause e).correlation_id ≡ root.id) × ((root.id == "") ≡ false)
  Chain-with_cause e (starts origin now id event w) =
      let (v, _, uncaused) = wrap-stamps j origin now id no_cause event root w in
      (with_cause-root root v (inl (uncaused, refl)), validates_named root v)
  Chain-with_cause e (follows origin now id event before _ c w) =
      let (same, named) = Chain-with_cause before c in
      let (v, _, caused) = wrap-stamps j origin now id (with_cause before) event e w in
      (with_cause-root e v (inr (caused ∙ same, named)), named)

  -- An envelope that is wrapped under the cause of one in a chain names that one as its cause, and
  -- carries the id of the chain's first as its correlation.
  pub wrap-with_cause :
      (origin : Origin) (now : ℕ) (id : Option String) (event : Event) (e e' : Envelope)
      → Chain j root e
      → wrap j origin now id (with_cause e) event ≡ ok e'
      → (e'.causation_id ≡ e.id) × (e'.correlation_id ≡ root.id)
  unfolding with_cause
  wrap-with_cause origin now id event e e' c w =
      let (_, cause, caused) = wrap-stamps j origin now id (with_cause e) event e' w in
      (cause, caused ∙ (Chain-with_cause e c).0)
