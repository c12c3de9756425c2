-- ===== src/App/FactsWrapped.antt =====
-- What the process states is an event that its factory wraps (app/events.go, redundancy/events.go and
-- events/factory.go).
use opdl.Base.{
  ℕ, ◌≡◌, refl, ◌∙◌, ◌⊎◌, inl, inr, Bool-cases, String, true, false, Option, none, some, arith,
  ◌==◌, nat_eq, string_eq,
}
use opdl.Redundancy.Statements.{
  Statement, lease_opened, ownership_waiting, ownership_acquired, promotion_declined,
  lease_renewal_failed, stepped_down, failback_initiated, activation_started, activation_failed,
  activation_completed, event_type,
}
use opdl.Events.Kind.{Origin, split_dots, in_words, validate_type, source_of, validate_origin}
use opdl.Events.Event.{Event, ok}
use opdl.Events.Envelope.{Envelope, Json}
use opdl.Events.Factory.{Cause, wrap}
use opdl.Events.Wrapping.{is_usable, IsStamped, wrap-is_usable}
use opdl.App.Facts.{
  Fact, process_started, process_stopped, epoch_advanced, epoch_advance_failed, lease_open_failed,
  api_listen_failed, api_listening, api_active, api_stopped, event_fabric_started,
  event_fabric_start_failed, standby_waiting, service_health_start_failed, fact_type, fact_severity,
  fact_event, statement_severity, statement_scope, statement_event,
}

abbrev IsStated : Event → String → Type 0
IsStated e source = (is_usable e ≡ true) × (source_of e.kind ≡ source)

fact-IsStated : (f : Fact) (p : Option String) → IsStated (fact_event f p) "app"
unfolding fact_type fact_severity validate_type split_dots in_words source_of
fact-IsStated (process_started e m s n b) p = (refl, refl)
fact-IsStated (process_stopped e) p = elim (Bool-cases (e == "")) [
  | inl c ↦ (rw c refl, refl)
  | inr c ↦ (rw c refl, refl)
]
fact-IsStated (epoch_advanced s n r q a) p = (refl, refl)
fact-IsStated (epoch_advance_failed s r e) p = (refl, refl)
fact-IsStated (lease_open_failed f e) p = (refl, refl)
fact-IsStated (api_listen_failed a e) p = (refl, refl)
fact-IsStated (api_listening a s) p = (refl, refl)
fact-IsStated (api_active a s) p = (refl, refl)
fact-IsStated (api_stopped e) p = elim (Bool-cases (e == "")) [
  | inl c ↦ (rw c refl, refl)
  | inr c ↦ (rw c refl, refl)
]
fact-IsStated (event_fabric_started s c a r) p = (refl, refl)
fact-IsStated (event_fabric_start_failed s c a e) p = (refl, refl)
fact-IsStated standby_waiting p = (refl, refl)
fact-IsStated (service_health_start_failed e) p = (refl, refl)

statement-IsStated :
    (s : Statement) (p : Option String) → IsStated (statement_event s p) "redundancy"
unfolding event_type statement_severity statement_scope validate_type split_dots in_words source_of
statement-IsStated (lease_opened f) p = (refl, refl)
statement-IsStated (ownership_waiting f) p = (refl, refl)
statement-IsStated (ownership_acquired f true) p = (refl, refl)
statement-IsStated (ownership_acquired f false) p = (refl, refl)
statement-IsStated (promotion_declined r) p = (refl, refl)
statement-IsStated lease_renewal_failed p = (refl, refl)
statement-IsStated (stepped_down r) p = (refl, refl)
statement-IsStated failback_initiated p = (refl, refl)
statement-IsStated (activation_started k) p = (refl, refl)
statement-IsStated (activation_failed k d) p = (refl, refl)
statement-IsStated (activation_completed k d) p = (refl, refl)

-- What a process publishes: a fact of its own, or a statement of its ownership machine.
abbrev pub event_of : Fact ⊎ Statement → Option String → Event
event_of (inl f) payload = fact_event f payload
event_of (inr s) payload = statement_event s payload

abbrev pub source_named : Fact ⊎ Statement → String
source_named (inl f) = "app"
source_named (inr s) = "redundancy"

event_of-IsStated :
    (x : Fact ⊎ Statement) (p : Option String) → IsStated (event_of x p) (source_named x)
event_of-IsStated (inl f) p = fact-IsStated f p
event_of-IsStated (inr s) p = statement-IsStated s p

event_of_payload : (x : Fact ⊎ Statement) (p : Option String) → (event_of x p).payload ≡ p
event_of_payload (inl f) p = refl
event_of_payload (inr s) p = refl

-- Whatever the process states of itself or the ownership machine states, a factory whose origin is
-- valid wraps, at a time that is not the zero time, with an id that is not empty and a payload of
-- valid JSON that is not empty. The envelope is valid, names the part that stated it as its source,
-- and has the severity and the scope that were declared or else the defaults.
pub wrap-stated :
    (j : Json) (origin : Origin) (now : ℕ) (id : String) (cause : Cause) (stated : Fact ⊎ Statement)
    (payload : String)
    → validate_origin origin ≡ none
    → (now == 0) ≡ false
    → (id == "") ≡ false
    → (payload == "") ≡ false
    → j.is_json payload ≡ true
    → (e : Envelope) × (wrap j origin now (some id) cause (event_of stated (some payload)) ≡ ok e)
      × (e.source ≡ source_named stated)
      × IsStamped j origin now id cause (event_of stated (some payload)) payload e
wrap-stated j origin now id cause stated payload o n i q json =
    let (usable, named) = event_of-IsStated stated (some payload) in
    elim (wrap-is_usable j origin now id cause (event_of stated (some payload)) payload
      (event_of_payload stated (some payload)) o n i q json) [
        | inl (_, e, wraps, stamped) ↦
            let (_, _, source) = stamped.named in (e, wraps, source ∙ named, stamped)
        | inr (unusable, _) ↦ absurd (ground arith)
      ]
