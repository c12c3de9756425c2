-- ===== src/Deployment/Types.antt =====
-- builder/deployment/deployment.go: the deployment descriptor. platform/config/deployment.go declares
-- the same fields under the same JSON names, so one type stands for both.
-- A port or a number of retries below 1 is 0: the code asks only whether it is at least 1.
use opdl.Base.{
  ℕ, ◌≡◌, ◌↔◌, String, Bool, true, false, ◌&&◌, List, [], ◌∷◌, Option, none, some, arith, Equality,
  ◌==◌, string_eq, eq_iff,
}
use opdl.ServiceHealth.Target.{Url}

abbrev pub role_primary : String
role_primary = "primary"

abbrev pub role_standby : String
role_standby = "standby"

pub record HealthCheck : Type 0 where
  pub kind : String
  pub port : ℕ
  pub path : String
  pub interval : String
  pub timeout : String
  pub retries : ℕ

pub record Service : Type 0 where
  pub name : String
  pub role : String
  pub health_check : HealthCheck

pub record SiteService : Type 0 where
  pub machine : String
  pub machine_profile : String
  pub service : String
  pub service_role : String
  pub observer_roles : List String
  pub fresh_for : String

pub record Lease : Type 0 where
  pub file : String
  pub duration : String
  pub renewal_interval : String
  pub health_check_interval : String
  pub failback_stabilization : String

pub record WinService : Type 0 where
  pub name : String
  pub display_name : String
  pub description : String

pub record Nats : Type 0 where
  pub server_name : String
  pub cluster_name : String
  pub cluster_address : String
  pub routes : List String

pub record Instance : Type 0 where
  pub service : Option WinService
  pub events_file : String
  pub state_file : String
  pub log_file : String
  pub api_address : String
  pub api_read_header_timeout : String
  pub api_shutdown_timeout : String
  pub nats : Nats

pub record Descriptor : Type 0 where
  pub platform : String
  pub project : String
  pub environment : String
  pub site : String
  pub machine : String
  pub machine_profile : String
  pub ip : String
  pub services : List Service
  pub site_services : List SiteService
  pub machine_events_file : String
  pub primary : Instance
  pub standby : Option Instance
  pub lease : Option Lease

abbrev pub is_set {ℓ} : {A : Type ℓ} → Option A → Bool
is_set none = false
is_set (some x) = true

-- `HasStandby`.
unfoldable pub has_standby : Descriptor → Bool
has_standby d = is_set d.standby

-- What the checks use of time, net, net/url, strconv and path/filepath. A parsed address is in its
-- canonical form, in which equal addresses are equal. A duration is in nanoseconds, one that is not
-- positive is 0, and so is a negative number.
pub record Parsers : Type 0 where
  pub parse_duration : String → Option ℕ
  pub parse_ip : String → Option String
  pub is_loopback : String → Bool
  pub split_host_port : String → Option (String × String)
  pub atoi : String → Option ℕ
  pub parse_url : String → Option Url
  -- `strings.ToLower(filepath.Clean(path))`.
  pub clean_lower : String → String
  pub join_host_port : String → ℕ → String

-- `slices.Equal` on texts.
abbrev pub texts_beq : List String → List String → Bool
texts_beq [] [] = true
texts_beq [] (y ∷ ys) = false
texts_beq (x ∷ xs) [] = false
texts_beq (x ∷ xs) (y ∷ ys) = (x == y) && texts_beq xs ys

pub texts_beq_iff : (xs ys : List String) → (texts_beq xs ys ≡ true) ↔ (xs ≡ ys)
texts_beq_iff [] [] = ground arith
texts_beq_iff [] (y ∷ ys) = ground arith
texts_beq_iff (x ∷ xs) [] = ground arith
texts_beq_iff (x ∷ xs) (y ∷ ys) = ground (arith, eq_iff x y, texts_beq_iff xs ys)

instance abbrev pub texts_eq : Equality (List String)
texts_eq = record { equal = texts_beq; equal_iff = texts_beq_iff }
