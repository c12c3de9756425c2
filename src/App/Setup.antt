-- ===== src/App/Setup.antt =====
-- platform/internal/app/lease.go and servicehealth.go: what the process takes from its descriptor.
use Prim.Native.String.{◌++◌}
use opdl.Base.{
  String, Bool, true, false, not, ◌||◌, List, [], ◌∷◌, Option, none, some, ◌==◌, string_eq,
  trim_space, Error,
}
use opdl.ServiceHealth.Target.{Target}
use opdl.HealthView.Inventory.{Deployment, ServiceUnit}
use opdl.Redundancy.Lease.{LeaseConfig}
use opdl.Deployment.Types.{Parsers, HealthCheck, Service, SiteService, Lease, Descriptor, is_set}
use opdl.Deployment.Health.{probe_type_http}

pub data Composed (A : Type 0) : Type 0 where
  ok : A → Composed A
  fails : Error → Composed A

infixl 5 ◌>>=◌
abbrev pub ◌>>=◌ : {A B : Type 0} → Composed A → (A → Composed B) → Composed B
ok a >>= f = f a
fails e >>= f = fails e

abbrev pub or_fail : {A : Type 0} → Option A → Error → Composed A
or_fail none e = fails e
or_fail (some a) e = ok a

abbrev pub require : Bool → Error → Composed (Unit {0})
require true e = ok tt
require false e = fails e

-- `LeaseConfig{}`.
abbrev pub no_lease : LeaseConfig
no_lease = record {
  file = "";
  duration = 0;
  renewal_interval = 0;
  health_check_interval = 0;
  failback_stabilization = 0;
}

unfoldable pub parse_lease : Parsers → Lease → Composed LeaseConfig
parse_lease f l = do
  duration ← or_fail (f.parse_duration l.duration) "lease duration"
  renewal ← or_fail (f.parse_duration l.renewal_interval) "lease renewal_interval"
  health_check ← or_fail (f.parse_duration l.health_check_interval) "lease health_check_interval"
  failback ← or_fail (f.parse_duration l.failback_stabilization) "lease failback_stabilization"
  ok (record {
    file = l.file;
    duration = duration;
    renewal_interval = renewal;
    health_check_interval = health_check;
    failback_stabilization = failback;
  })

abbrev pub parse_lease_of : Parsers → Option Lease → Composed LeaseConfig
parse_lease_of f none = ok no_lease
parse_lease_of f (some l) = parse_lease f l

-- `leaseConfigOf`.
unfoldable pub lease_config_of : Parsers → Descriptor → Composed LeaseConfig
unfolding parse_lease
lease_config_of f d = parse_lease_of f d.lease

abbrev pub probe_host : Parsers → (ip : String) → HealthCheck → String
probe_host f ip check = f.join_host_port (trim_space ip) check.port

abbrev pub probe_text : (host path : String) → String
probe_text host path = probe_type_http ++ ("://" ++ (host ++ path))

-- `healthURL`.
unfoldable pub health_url : Parsers → (ip : String) → HealthCheck → Composed String
health_url f ip check = do
  _ ← require (check.kind == probe_type_http) "type has no probe"
  _ ← require (is_set (f.parse_ip (trim_space ip))) "ip is not an address a probe can reach"
  let host = probe_host f ip check
  parsed ← or_fail (f.parse_url (probe_text host check.path)) "path does not compose a probe URL"
  _ ←
      require (not (not (parsed.scheme == probe_type_http) || not (parsed.host == host)))
        "path resolves the probe elsewhere"
  ok (probe_text host check.path)

unfoldable pub health_target : Parsers → (ip : String) → Service → Composed Target
unfolding health_url
health_target f ip s = do
  interval ← or_fail (f.parse_duration (trim_space s.health_check.interval)) "health_check.interval"
  timeout ← or_fail (f.parse_duration (trim_space s.health_check.timeout)) "health_check.timeout"
  url ← health_url f ip s.health_check
  ok (record {
    service = s.name;
    role = s.role;
    url = url;
    interval = interval;
    timeout = timeout;
    retries = s.health_check.retries;
  })

-- A loop that appends what each element gives, until one fails.
abbrev pub compose_each : {A B : Type 0} → (A → Composed B) → List A → Composed (List B)
compose_each g [] = ok []
compose_each g (x ∷ xs) = g x >>= λ y. compose_each g xs >>= λ ys. ok (y ∷ ys)

-- `healthTargets`.
unfoldable pub health_targets : Parsers → Descriptor → Composed (List Target)
unfolding health_target
health_targets f d = compose_each (health_target f d.ip) d.services

unfoldable pub health_unit : Parsers → SiteService → Composed ServiceUnit
health_unit f u = do
  fresh_for ← or_fail (f.parse_duration (trim_space u.fresh_for)) "fresh_for"
  ok (record {
    key = record { machine = u.machine; service = u.service };
    machine_profile = u.machine_profile;
    service_role = u.service_role;
    observer_roles = u.observer_roles;
    fresh_for = fresh_for;
  })

-- `healthInventory`.
unfoldable pub health_inventory : Parsers → Descriptor → Composed (List ServiceUnit)
unfolding health_unit
health_inventory f d = compose_each (health_unit f) d.site_services

-- The deployment that `startServiceHealth` names.
abbrev pub deployment_of : Descriptor → Deployment
deployment_of d = record { project = d.project; environment = d.environment; site = d.site }
