-- ===== src/App/StoppedFacts.antt =====
-- What is kept of an ownership statement that is published once the process was asked to stop:
-- redundancy/ownership.go publishes with the context of the whole run, and machine/eventstore/file.go
-- refuses an ended context.
use opdl.Base.{
  ◌≡◌, refl, ap, ◌∙◌, ℕ, inr, String, true, false, [], ◌∷◌, ◌++◌, none, some, arith, ◌==◌, nat_eq,
  string_eq, sym,
}
use opdl.Redundancy.Statements.{Statement}
use opdl.Events.Kind.{Origin, validate_origin}
use opdl.Events.Event.{ok, scope_of}
use opdl.Events.Envelope.{Envelope, Json, validate, encode}
use opdl.Events.Factory.{Cause, wrap}
use opdl.Events.Logs.{
  Wrote, landed, line, Stores, Publication, log_store, backend_store, append, publish_to_stores,
}
use opdl.App.Facts.{statement_scope, statement_event}
use opdl.App.FactsWrapped.{wrap-stated}

-- A publication whose context has ended.
abbrev pub stopped : Envelope → Wrote → Publication
stopped e w = record { envelope = e; ctx_ended = true; log_write = landed; store_write = w }

declared_scope : (x : String) → scope_of (some "machine") ≡ ok x → "machine" ≡ x
declared_scope x h = ground arith

module _ (j : Json) where
  encode_valid :
      (e : Envelope) (text : String)
      → validate j e ≡ none
      → j.marshal e ≡ some text
      → encode j e ≡ ok text
  unfolding encode
  encode_valid e text v m = rw (v, m) refl

  publish_stopped :
      (e : Envelope) (text : String) (w : Wrote) (s : Stores)
      → e.scope ≡ "machine"
      → encode j e ≡ ok text
      → s.log.closed ≡ false
      → publish_to_stores j (stopped e w) s ≡ (
        "context canceled" ∷ [],
        record s { log = record s.log { content = s.log.content ++ (line text ∷ []) } },
      )
  unfolding publish_to_stores log_store backend_store append
  publish_stopped e text w s m c unclosed = simp (m, c, unclosed)

  -- A machine-scoped statement of the ownership machine, such as the completion of an activation, that
  -- is published after the run's context has ended, wraps to a valid envelope and lands in the
  -- instance's event log, but the publication returns an error and the machine's store is left without
  -- it, whatever its writes would have done.
  pub publish_to_stores-ended :
      (origin : Origin) (now : ℕ) (id : String) (cause : Cause) (s : Statement) (payload : String)
      → (text : Envelope → String) (w : Wrote) (stores : Stores)
      → statement_scope s ≡ some "machine"
      → validate_origin origin ≡ none
      → (now == 0) ≡ false
      → (id == "") ≡ false
      → (payload == "") ≡ false
      → j.is_json payload ≡ true
      → ((e : Envelope) → j.marshal e ≡ some (text e))
      → stores.log.closed ≡ false
      → (e : Envelope) × (wrap j origin now (some id) cause (statement_event s (some payload))
          ≡ ok e)
        × (publish_to_stores j (stopped e w) stores ≡ (
          "context canceled" ∷ [],
          record stores {
            log = record stores.log { content = stores.log.content ++ (line (text e) ∷ []) };
          },
        ))
  publish_to_stores-ended origin now id cause s payload text w stores scope o n i q json renders
        unclosed =
      let (e, wraps, source, stamped) =
        wrap-stated j origin now id cause (inr s) payload o n i q json in
      let machine : e.scope ≡ "machine" =
        sym (declared_scope e.scope (ap scope_of (sym scope) ∙ stamped.graded.1)) in
      (
        e,
        wraps,
        publish_stopped e (text e) w stores machine
            (encode_valid e (text e) stamped.valid (renders e)) unclosed,
      )
