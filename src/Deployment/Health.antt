-- ===== src/Deployment/Health.antt =====
-- The probe policies and durations of builder/deployment/deployment.go.
use opdl.Base.{
  ℕ, String, Bool, not, ◌||◌, List, [], ◌∷◌, Option, none, some, ltb, leb, ◌==◌, nat_eq, string_eq,
  is_blank, trim_space, any_code, starts_with_slash, Error, fail_if, ◌<|>◌, if◌then◌else◌,
}
use opdl.Resolve.Descriptor.{Fresh, derive_fresh}
use opdl.ServiceHealth.Target.{Url}
use opdl.Deployment.Types.{Parsers, HealthCheck, Lease}

pub data Duration : Type 0 where
  lasts : ℕ → Duration
  unusable : Error → Duration

abbrev pub error_of : Duration → Option Error
error_of (lasts d) = none
error_of (unusable e) = some e

-- The duration, which is used only where there was no error.
abbrev pub length_of : Duration → ℕ
length_of (lasts d) = d
length_of (unusable e) = 0

abbrev pub positive : Option ℕ → Duration
positive none = unusable "is not a valid duration"
positive (some d) = if d == 0 then unusable "must be positive" else lasts d

-- `validatePositiveDuration`.
unfoldable pub positive_duration : Parsers → String → Duration
positive_duration f value =
    if is_blank value then unusable "is required" else positive (f.parse_duration value)

abbrev pub check_lease : Parsers → Lease → Option Error
check_lease f l =
    let duration = positive_duration f l.duration in
    let renewal = positive_duration f l.renewal_interval in
    fail_if (is_blank l.file) "lease.file is required"
    <|> error_of duration
    <|> error_of renewal
    <|> error_of (positive_duration f l.health_check_interval)
    <|> error_of (positive_duration f l.failback_stabilization)
    <|> fail_if (leb (length_of duration) (length_of renewal)) "renewal_interval must be shorter"

-- `Lease.validate`.
unfoldable pub validate_lease : Parsers → Option Lease → Option Error
unfolding positive_duration
validate_lease f none = some "lease is required when a standby is deployed"
validate_lease f (some l) = check_lease f l

abbrev pub probe_type_http : String
probe_type_http = "http"

abbrev pub service_roles : List String
service_roles = "master" ∷ "slave" ∷ []

-- `isControl`.
abbrev pub is_control : ℕ → Bool
is_control r = ltb r 0x20 || (r == 0x7f)

abbrev pub is_hash : ℕ → Bool
is_hash r = r == 0x23

abbrev check_url : String → Option Url → Option Error
check_url target none = some "is not a valid request path"
check_url target (some parsed) =
    fail_if (not (parsed.scheme == "")) "must not be an absolute URL"
    <|> fail_if (not (parsed.host == "")) "must not name a host"
    <|> fail_if (not (starts_with_slash target)) "must start with /"

-- `validateHealthRequestTarget`.
unfoldable pub validate_target : Parsers → String → Option Error
validate_target f target =
    fail_if (is_blank target) "path is required"
    <|> fail_if (not (target == trim_space target)) "must not have outer white space"
    <|> fail_if (any_code is_control target) "must not contain control characters"
    <|> fail_if (any_code is_hash target) "must not contain a fragment"
    <|> check_url target (f.parse_url target)

-- `HealthCheck.validate`, with the durations read by `read`.
unfoldable pub validate_check : (read : String → Duration) → Parsers → HealthCheck → Option Error
unfolding validate_target
validate_check read f h =
    fail_if (not (h.kind == probe_type_http)) "type is not a known probe"
    <|> fail_if (ltb h.port 1 || ltb 65535 h.port) "port is out of range"
    <|> validate_target f h.path
    <|> error_of (read h.interval)
    <|> error_of (read h.timeout)
    <|> fail_if (leb (length_of (read h.interval)) (length_of (read h.timeout)))
        "timeout must be shorter than interval"
    <|> fail_if (ltb h.retries 1) "retries must be at least 1"

-- `HealthCheck.freshFor`.
unfoldable pub fresh_for_of : Parsers → HealthCheck → Fresh
unfolding derive_fresh
fresh_for_of f h =
    derive_fresh (f.parse_duration (trim_space h.interval))
      (f.parse_duration (trim_space h.timeout))
