-- ===== src/Resolve/PlanTests.antt =====
-- The plan of a project of one site with two machines, one of which has a standby.
use Prim.Native.String.{◌++◌ as append}
use opdl.Base.{
  IsDistinct, true, ℕ, ◌≡◌, refl, false, String, List, [], ◌∷◌, map, none, some, All, ◌==◌, nat_eq,
  string_eq, lookup, is_blank, trim_space, any_code, starts_with_slash, if◌then◌else◌,
}
use opdl.Deployment.Types.{Descriptor, has_standby}
use opdl.Deployment.Health.{
  positive_duration, validate_lease, validate_target, validate_check, fresh_for_of,
}
use opdl.Deployment.Services.{
  check_service, check_services, validate_hosted_services, validate_observer_roles, check_unit,
  check_listed, check_hosted, validate_hosted_are_listed, check_site, validate_site_services,
}
use opdl.Deployment.Endpoints.{
  validate_address, require_address, require_loopback, require_machine_host, route_address,
  check_routes, path_key, validate_instance_endpoints, port_of, check_listeners, check_probes,
  validate_endpoints, check_files, validate_local_files, validate_services,
}
use opdl.Deployment.Builder.{validate_fields, validate_lease_block, validate}
use opdl.Deployment.SampleDocument.{documents, encoder, documents-ReadsBack}
use opdl.App.SampleProbes.{probes}
use opdl.Deployment.Sample.{durations, parsers, reads}
use opdl.Resolve.Blueprint.{
  HealthCheck, Machine, Site, Project, Block, endpoints, files, win_service_identity, lease_of,
  cluster_name,
}
use opdl.Resolve.Descriptor.{
  Formats, SiteService, derive_fresh, fresh_for, observer_roles, machine_services, site_machines,
  site_services, nats_route_url, peer_routes, nats_routes, nats_server_name, loopback_address,
  machine_address,
}
use opdl.Resolve.MachineChecks.{
  check_machine, check_machine_services, check_assigned, check_health, check_endpoints,
  check_standby_endpoints, check_instance_files, authored_files, check_own_paths,
  check_machine_files, check_machine_ports, check_ports, check_probe_ports, check_win_services,
  check_win_service, check_lease_policy,
}
use opdl.Resolve.ProjectChecks.{validate_project, check_sites, check_machines, check_site_nats}
use opdl.Resolve.Build.{
  resolve_services, resolve_lease, win_service, resolve_instance, primary_instance, descriptor_with,
  descriptor, plan_machine, places_of, build,
}
use opdl.Resolve.Plan.{place_of, place_named, IsBootable, build-IsBootable}
use opdl.App.Setup.{ok}

abbrev host_port : String → ℕ → String
host_port host port =
    if host == "127.0.0.1"
    then (if port == 8001 then "127.0.0.1:8001" else "127.0.0.1:8002")
    else if host == "10.0.0.5"
    then (if port == 6001 then "10.0.0.5:6001" else "10.0.0.5:6002")
    else "10.0.0.6:6001"

abbrev formats : Formats
formats = record {
  parse_duration = λ t. lookup t durations;
  print_duration = λ n. "22s";
  join_host_port = host_port;
}

abbrev check : HealthCheck
check = record {
  kind = "http";
  port = 9000;
  path = "/health";
  interval = "10s";
  timeout = "2s";
  retries = 3;
}

abbrev block : (name : String) → (api_port cluster_port : ℕ) → Block
block name api_port cluster_port = record {
  disabled = false;
  api =
      some (record { local_port = api_port; read_header_timeout = "5s"; shutdown_timeout = "5s" });
  nats = some (record { cluster_port = cluster_port });
  files = record {
    eventlog_file = append "events-" name;
    state_file = append "state-" name;
    log_file = append "log-" name;
  };
  win_service = some (record { name = name; display_name = ""; description = "" });
  lease = none;
}

abbrev off : Block
off = record {
  disabled = true;
  api = none;
  nats = none;
  files = record { eventlog_file = ""; state_file = ""; log_file = "" };
  win_service = none;
  lease = none;
}

abbrev lone : Machine
lone = record {
  name = "beta";
  machine_profile = "node";
  ip = "10.0.0.6";
  services = record { name = "cache"; role = "slave"; health_check = check } ∷ [];
  eventstore_file = "machine-events";
  primary = some (block "only" 8001 6001);
  standby = some off;
}

abbrev paired : Machine
paired = record {
  name = "alpha";
  machine_profile = "node";
  ip = "10.0.0.5";
  services = record { name = "store"; role = "master"; health_check = check } ∷ [];
  eventstore_file = "machine-events";
  primary = some (block "first" 8001 6001);
  standby = some (record (block "second" 8002 6002) {
    lease = some (record {
      file = "lease";
      duration = "10s";
      renewal_interval = "2s";
      health_check_interval = "5s";
      failback_stabilization = "1m";
    });
  });
}

abbrev site : Site
site = record { name = "north"; cluster = some "plant-north"; machines = paired ∷ lone ∷ [] }

abbrev project : Project
project = record { name = "plant"; environment = "production"; sites = site ∷ [] }

abbrev entry : (machine service role : String) → List String → SiteService
entry machine service role observers = record {
  machine = machine;
  machine_profile = "node";
  service = service;
  service_role = role;
  observer_roles = observers;
  fresh_for = "22s";
}

abbrev units : List SiteService
units =
    entry "alpha" "store" "master" ("primary" ∷ "standby" ∷ [])
    ∷ entry "beta" "cache" "slave" ("primary" ∷ [])
    ∷ []

abbrev plan : List Descriptor
plan =
    descriptor_with formats project site paired "opdl" units
    ∷ descriptor_with formats project site lone "opdl" units
    ∷ []

planned : build formats parsers project "opdl" ≡ ok plan
unfolding build validate_project check_sites check_machines check_site_nats check_machine
    check_machine_services check_assigned check_health check_endpoints check_standby_endpoints
    check_instance_files authored_files check_own_paths check_machine_files check_machine_ports
    check_ports check_probe_ports check_win_services check_win_service check_lease_policy
    plan_machine places_of descriptor primary_instance resolve_instance win_service resolve_lease
    resolve_services nats_server_name loopback_address machine_address nats_routes peer_routes
    nats_route_url site_services site_machines machine_services observer_roles fresh_for endpoints
    files win_service_identity lease_of cluster_name validate validate_fields validate_lease_block
    has_standby validate_lease positive_duration validate_hosted_services check_services
    check_service validate_check validate_target validate_site_services check_site check_unit
    validate_observer_roles validate_hosted_are_listed check_listed check_hosted fresh_for_of
    derive_fresh validate_services validate_endpoints validate_instance_endpoints require_address
    validate_address require_loopback require_machine_host check_routes route_address path_key
    check_listeners port_of check_probes validate_local_files check_files lookup is_blank trim_space
    any_code starts_with_slash
planned = refl

build-IsBootable_example :
    (map place_of plan ≡ map place_named (places_of (site ∷ [])))
    × IsDistinct (map (λ d. d.machine) plan)
    × All (IsBootable documents encoder parsers) plan
build-IsBootable_example =
    build-IsBootable documents encoder documents-ReadsBack formats parsers reads probes project
      "opdl" plan planned
