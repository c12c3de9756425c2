-- ===== src/Events/Kind.antt =====
-- platform/internal/events: type.go, severity.go, scope.go and origin.go.
use Prim.Native.Char.{Char, code}
use opdl.Base.{
  ℕ, String, Bool, true, false, not, ◌||◌, ◌&&◌, List, [], ◌∷◌, Option, some, leb, ◌==◌, nat_eq,
  string_eq, contains, Error, fail_if, ◌<|>◌, if◌then◌else◌,
}

abbrev onto_first : Char → List String → List String
onto_first c [] = String.◌∷◌ c "" ∷ []
onto_first c (t ∷ ts) = String.◌∷◌ c t ∷ ts

-- `strings.Split(s, ".")`.
unfoldable pub split_dots : String → List String
split_dots String.[] = "" ∷ []
split_dots (String.◌∷◌ c s) =
    let rest = split_dots s in if code c == 0x2e then "" ∷ rest else onto_first c rest

abbrev is_lower : ℕ → Bool
is_lower c = leb 0x61 c && leb c 0x7a

-- What is left of a token matches `typeToken`, where `in_word` says whether a letter came last.
unfoldable pub in_words : (in_word : Bool) → String → Bool
in_words in_word String.[] = in_word
in_words in_word (String.◌∷◌ c s) =
    (is_lower (code c) && in_words true s) || ((code c == 0x5f) && in_word && in_words false s)

abbrev pub type_prefix : String
type_prefix = "platform"

abbrev pub check_tokens : List String → Option Error
check_tokens (prefix ∷ source ∷ fact ∷ []) =
    fail_if (not (prefix == type_prefix)) "must start with platform"
    <|> fail_if (not (in_words false source)) "has an unusable source token"
    <|> fail_if (not (in_words false fact)) "has an unusable fact token"
check_tokens tokens = some "must have exactly three tokens"

-- `Type.Validate`.
unfoldable pub validate_type : String → Option Error
unfolding split_dots in_words
validate_type t = check_tokens (split_dots t)

abbrev pub second_token : List String → String
second_token (prefix ∷ source ∷ fact ∷ []) = source
second_token tokens = ""

-- `Type.Source`.
unfoldable pub source_of : String → String
unfolding split_dots
source_of t = second_token (split_dots t)

abbrev pub severity_info : String
severity_info = "info"

-- `Severity.Valid`.
abbrev pub severity_valid : String → Bool
severity_valid s = contains (severity_info ∷ "warn" ∷ "error" ∷ []) s

abbrev pub scope_instance : String
scope_instance = "instance"

-- `Scope.Valid`.
abbrev pub scope_valid : String → Bool
scope_valid s = contains ("site" ∷ "machine" ∷ scope_instance ∷ []) s

pub record Origin : Type 0 where
  pub machine : String
  pub machine_profile : String
  pub process_role : String
  -- A pid below 1 is 0.
  pub pid : ℕ

-- `Origin.Validate`.
unfoldable pub validate_origin : Origin → Option Error
validate_origin o =
    fail_if (o.machine == "") "origin machine is required"
    <|> fail_if (o.machine_profile == "") "origin machine_profile is required"
    <|> fail_if (o.process_role == "") "origin process_role is required"
    <|> fail_if (o.pid == 0) "origin pid must be positive"
