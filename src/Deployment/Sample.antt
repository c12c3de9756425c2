-- ===== src/Deployment/Sample.antt =====
-- A descriptor of one machine with a standby, in a site of two machines, and readers of its texts.
use Prim.Native.String.{◌++◌}
use opdl.Base.{
  if◌then◌else◌, ℕ, ◌≡◌, inl, inr, refl, String, Bool-cases, List, [], ◌∷◌, none, some, arith, ◌==◌,
  string_eq, eq_iff, trim_space, lookup, All, is_blank, contains, any_code, starts_with_slash,
}
use opdl.Deployment.Types.{Parsers, HealthCheck, SiteService, Instance, Descriptor, has_standby}
use opdl.ServiceHealth.Target.{Url}
use opdl.Deployment.Reading.{ReadsTrimmed}
use opdl.Resolve.Descriptor.{derive_fresh}
use opdl.Deployment.Health.{
  positive_duration, validate_lease, validate_target, validate_check, fresh_for_of,
}
use opdl.Deployment.Services.{
  check_service, check_services, validate_hosted_services, validate_observer_roles, check_unit,
  check_listed, check_hosted, validate_hosted_are_listed, check_site, validate_site_services,
}
use opdl.Deployment.Endpoints.{
  validate_address, require_address, require_loopback, require_machine_host, route_address,
  check_routes, path_key, validate_instance_endpoints, port_of, check_listeners, check_probes,
  validate_endpoints, check_files, validate_local_files, validate_services,
}
use opdl.Deployment.Builder.{validate_fields, validate_lease_block, validate}

abbrev pub durations : List (String × ℕ)
durations =
    ("10s", 10000000000)
    ∷ ("2s", 2000000000)
    ∷ ("22s", 22000000000)
    ∷ ("1m", 60000000000)
    ∷ ("5s", 5000000000)
    ∷ []

abbrev addresses : List (String × (String × String))
addresses =
    ("127.0.0.1:8001", ("127.0.0.1", "8001"))
    ∷ ("127.0.0.1:8002", ("127.0.0.1", "8002"))
    ∷ ("10.0.0.5:6001", ("10.0.0.5", "6001"))
    ∷ ("10.0.0.5:6002", ("10.0.0.5", "6002"))
    ∷ ("10.0.0.6:6001", ("10.0.0.6", "6001"))
    ∷ []

abbrev numbers : List (String × ℕ)
numbers = ("8001", 8001) ∷ ("8002", 8002) ∷ ("6001", 6001) ∷ ("6002", 6002) ∷ []

abbrev pub urls : List (String × Url)
urls =
    ("/health", record { scheme = ""; host = "" })
    ∷ ("nats://10.0.0.5:6001", record { scheme = "nats"; host = "10.0.0.5:6001" })
    ∷ ("nats://10.0.0.5:6002", record { scheme = "nats"; host = "10.0.0.5:6002" })
    ∷ ("nats://10.0.0.6:6001", record { scheme = "nats"; host = "10.0.0.6:6001" })
    ∷ ("http://127.0.0.1/health", record { scheme = "http"; host = "127.0.0.1" })
    ∷ ("http://10.0.0.5/health", record { scheme = "http"; host = "10.0.0.5" })
    ∷ ("http://10.0.0.6/health", record { scheme = "http"; host = "10.0.0.6" })
    ∷ []

abbrev pub parsers : Parsers
parsers = record {
  parse_duration = λ t. lookup t durations;
  parse_ip = λ t. if contains ("127.0.0.1" ∷ "10.0.0.5" ∷ "10.0.0.6" ∷ []) t then some t else none;
  is_loopback = λ t. t == "127.0.0.1";
  split_host_port = λ t. lookup t addresses;
  atoi = λ t. lookup t numbers;
  parse_url = λ t. lookup t urls;
  clean_lower = λ t. t;
  join_host_port = λ host port. host;
}

lookup-trimmed :
    {V : Type 0} (entries : List (String × V)) (t : String) (v : V)
    → All (λ e. trim_space e.0 ≡ e.0) entries
    → lookup t entries ≡ some v
    → trim_space t ≡ t
unfolding lookup
lookup-trimmed [] t v h e = absurd (ground arith)
lookup-trimmed ((held, value) ∷ rest) t v (here, later) e = elim (Bool-cases (held == t)) [
  | inl same ↦ let at : held ≡ t = (eq_iff held t).0 same in rw at at here
  | inr other ↦ lookup-trimmed rest t v later (ground arith)
]

pub reads : ReadsTrimmed parsers
unfolding trim_space
reads = record {
  durations = λ t n e. lookup-trimmed durations t n (refl, (refl, (refl, (refl, (refl, tt))))) e;
  addresses = λ t host port ip n e i a.
      lookup-trimmed addresses t (host, port) (refl, (refl, (refl, (refl, (refl, tt))))) e;
}

abbrev pub check : HealthCheck
check = record {
  kind = "http";
  port = 9000;
  path = "/health";
  interval = "10s";
  timeout = "2s";
  retries = 3;
}

abbrev unit : (machine : String) → (service : String) → SiteService
unit machine service = record {
  machine = machine;
  machine_profile = "node";
  service = service;
  service_role = "master";
  observer_roles = "primary" ∷ "standby" ∷ [];
  fresh_for = "22s";
}

abbrev instance_of : (name api cluster : String) → List String → Instance
instance_of name api cluster routes = record {
  service = some (record { name = name; display_name = name; description = "" });
  events_file = "events-" ++ name;
  state_file = "state-" ++ name;
  log_file = "log-" ++ name;
  api_address = api;
  api_read_header_timeout = "5s";
  api_shutdown_timeout = "5s";
  nats = record {
    server_name = name;
    cluster_name = "plant";
    cluster_address = cluster;
    routes = routes;
  };
}

-- The machine, by the name that it is given.
abbrev pub descriptor : (machine : String) → Descriptor
descriptor machine = record {
  platform = "opdl";
  project = "plant";
  environment = "production";
  site = "north";
  machine = machine;
  machine_profile = "node";
  ip = "10.0.0.5";
  services = record { name = "store"; role = "master"; health_check = check } ∷ [];
  site_services = unit "alpha" "store" ∷ unit "beta" "cache" ∷ [];
  machine_events_file = "machine-events";
  primary =
      instance_of "first" "127.0.0.1:8001" "10.0.0.5:6001"
        ("nats://10.0.0.5:6002" ∷ "nats://10.0.0.6:6001" ∷ []);
  standby =
      some (instance_of "second" "127.0.0.1:8002" "10.0.0.5:6002" ("nats://10.0.0.5:6001" ∷ []));
  lease = some (record {
    file = "lease";
    duration = "10s";
    renewal_interval = "2s";
    health_check_interval = "5s";
    failback_stabilization = "1m";
  });
}

pub alpha_accepted : validate parsers (descriptor "alpha") ≡ none
unfolding validate validate_fields validate_lease_block has_standby validate_lease positive_duration
    validate_hosted_services check_services check_service validate_check validate_target
    validate_site_services check_site check_unit validate_observer_roles validate_hosted_are_listed
    check_listed check_hosted fresh_for_of derive_fresh validate_services validate_endpoints
    validate_instance_endpoints require_address validate_address require_loopback
    require_machine_host check_routes route_address path_key check_listeners port_of check_probes
    validate_local_files check_files lookup is_blank trim_space any_code starts_with_slash
alpha_accepted = refl

-- The same, with outer white space in the machine's name.
pub padded_accepted : validate parsers (descriptor " alpha") ≡ none
unfolding validate validate_fields validate_lease_block has_standby validate_lease positive_duration
    validate_hosted_services check_services check_service validate_check validate_target
    validate_site_services check_site check_unit validate_observer_roles validate_hosted_are_listed
    check_listed check_hosted fresh_for_of derive_fresh validate_services validate_endpoints
    validate_instance_endpoints require_address validate_address require_loopback
    require_machine_host check_routes route_address path_key check_listeners port_of check_probes
    validate_local_files check_files lookup is_blank trim_space any_code starts_with_slash
padded_accepted = refl
