-- ===== src/Events/Event.antt =====
-- platform/internal/events/event.go: what a typed event declares about itself. An optional interface
-- that the event does not implement is `none`.
use opdl.Base.{
  ℕ, String, ◌||◌, List, [], ◌∷◌, ◌++◌, Option, none, some, ◌==◌, nat_eq, string_eq, contains,
  trim_space, Error, if◌then◌else◌,
}
use opdl.HealthView.Snapshot.{sorted}
use opdl.Events.Kind.{severity_info, severity_valid, scope_instance, scope_valid}

pub record Event : Type 0 where
  pub kind : String
  -- `SchemaVersion`; a version below 1 is 0.
  pub versioned : Option ℕ
  pub severe : Option String
  pub scoped : Option String
  pub tagged : Option (List String)
  pub identified : Option String
  -- What `json.Marshal` makes of the event.
  pub payload : Option String

pub data Outcome (A : Type 0) : Type 0 where
  ok : A → Outcome A
  err : Error → Outcome A

infixl 5 ◌>>=◌
abbrev pub ◌>>=◌ : {A B : Type 0} → Outcome A → (A → Outcome B) → Outcome B
ok a >>= f = f a
err e >>= f = err e

-- `schemaVersionOf`, with `DefaultSchemaVersion`.
abbrev pub schema_version_of : Option ℕ → Outcome ℕ
schema_version_of none = ok 1
schema_version_of (some v) = if v == 0 then err "declares no positive schema version" else ok v

-- `severityOf`.
abbrev pub severity_of : Option String → Outcome String
severity_of none = ok severity_info
severity_of (some s) = if severity_valid s then ok s else err "declares an unknown severity"

-- `scopeOf`.
abbrev pub scope_of : Option String → Outcome String
scope_of none = ok scope_instance
scope_of (some s) = if scope_valid s then ok s else err "declares an unknown scope"

abbrev named_id : String → Outcome String
named_id id = if id == "" then err "declares an empty stable identity" else ok id

-- `stableIDOf`.
abbrev pub stable_id_of : Option String → Outcome String
stable_id_of none = ok ""
stable_id_of (some id) = named_id (trim_space id)

-- The loop of `normalizeTags`; `normalized` is what it has so far.
unfoldable pub collect_tags : (normalized : List String) → List String → List String
collect_tags normalized [] = normalized
collect_tags normalized (t ∷ ts) =
    let tag = trim_space t in
    if (tag == "") || contains normalized tag
    then collect_tags normalized ts
    else collect_tags (normalized ++ (tag ∷ [])) ts

-- `normalizeTags`; nil is the empty list.
unfoldable pub normalize_tags : List String → List String
unfolding collect_tags sorted
normalize_tags tags = sorted (collect_tags [] tags)

-- `tagsOf`.
abbrev pub tags_of : Option (List String) → List String
tags_of none = []
tags_of (some tags) = normalize_tags tags
