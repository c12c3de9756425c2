-- ===== src/Resolve/Build.antt =====
-- builder/internal/resolve/resolve.go: the descriptor of each machine, and the plan of a project.
use opdl.Base.{String, Bool, List, [], ◌∷◌, ◌++◌, map, Option, none, some, trim_space, Error}
use opdl.Deployment.Types
use opdl.Deployment.Types.{Parsers, Descriptor, Instance}
use opdl.Deployment.Builder.{validate}
use opdl.Resolve.Blueprint.{
  HealthCheck, Service, Machine, Site, Project, Lease, WinService, Endpoints, endpoints, files,
  win_service_identity, lease_of, cluster_name,
}
use opdl.Resolve.Descriptor.{
  Formats, role_primary, role_standby, is_standby, SiteService, Inventory, inventory, no_inventory,
  site_services, nats_routes, nats_server_name, loopback_address, machine_address,
}
use opdl.Resolve.ProjectChecks.{validate_project}
use opdl.App.Setup.{Composed, ok, fails, ◌>>=◌, compose_each}

-- `healthCheck`.
abbrev pub resolve_check : HealthCheck → Types.HealthCheck
resolve_check h = record {
  kind = h.kind;
  port = h.port;
  path = h.path;
  interval = trim_space h.interval;
  timeout = trim_space h.timeout;
  retries = h.retries;
}

abbrev pub resolve_service : Service → Types.Service
resolve_service s = record {
  name = trim_space s.name;
  role = s.role;
  health_check = resolve_check s.health_check;
}

-- `services`.
unfoldable pub resolve_services : Machine → List Types.Service
resolve_services m = map resolve_service m.services

abbrev pub entry_of : SiteService → Types.SiteService
entry_of u = record {
  machine = u.machine;
  machine_profile = u.machine_profile;
  service = u.service;
  service_role = u.service_role;
  observer_roles = u.observer_roles;
  fresh_for = u.fresh_for;
}

abbrev pub authored_lease : Option Lease → Option Types.Lease
authored_lease none = none
authored_lease (some l) = some (record {
  file = l.file;
  duration = l.duration;
  renewal_interval = l.renewal_interval;
  health_check_interval = l.health_check_interval;
  failback_stabilization = l.failback_stabilization;
})

-- `lease`.
unfoldable pub resolve_lease : Machine → Option Types.Lease
unfolding lease_of
resolve_lease m = authored_lease (lease_of m)

abbrev pub authored_service : Option WinService → Option Types.WinService
authored_service none = none
authored_service (some w) =
    some (record { name = w.name; display_name = w.display_name; description = w.description })

-- `winService`.
unfoldable pub win_service : Machine → (standby : Bool) → Option Types.WinService
unfolding win_service_identity
win_service m standby = authored_service (win_service_identity m standby)

abbrev pub instance_at :
    Formats → Site → Machine → (role : String) → Option Endpoints → Option Instance
instance_at f s m role none = none
instance_at f s m role (some e) =
    let owned = files m (is_standby role) in
    some (record {
      service = win_service m (is_standby role);
      events_file = owned.eventlog_file;
      state_file = owned.state_file;
      log_file = owned.log_file;
      api_address = loopback_address f e.api_local_port;
      api_read_header_timeout = e.api_read_header_timeout;
      api_shutdown_timeout = e.api_shutdown_timeout;
      nats = record {
        server_name = nats_server_name m role;
        cluster_name = cluster_name s;
        cluster_address = machine_address f m.ip e.nats_cluster_port;
        routes = nats_routes f s.machines m.name role;
      };
    })

-- `instance`.
unfoldable pub resolve_instance : Formats → Site → Machine → (role : String) → Option Instance
unfolding endpoints files win_service loopback_address nats_server_name cluster_name machine_address
    nats_routes
resolve_instance f s m role = instance_at f s m role (endpoints m (is_standby role))

-- `deployment.Instance{}`.
abbrev pub no_instance : Instance
no_instance = record {
  service = none;
  events_file = "";
  state_file = "";
  log_file = "";
  api_address = "";
  api_read_header_timeout = "";
  api_shutdown_timeout = "";
  nats = record { server_name = ""; cluster_name = ""; cluster_address = ""; routes = [] };
}

abbrev or_empty : Option Instance → Instance
or_empty none = no_instance
or_empty (some i) = i

-- `primaryInstance`.
unfoldable pub primary_instance : Formats → Site → Machine → Instance
unfolding resolve_instance
primary_instance f s m = or_empty (resolve_instance f s m role_primary)

abbrev pub descriptor_with :
    Formats → Project → Site → Machine → (platform_name : String) → List SiteService → Descriptor
descriptor_with f p s m platform_name units = record {
  platform = platform_name;
  project = p.name;
  environment = p.environment;
  site = s.name;
  machine = m.name;
  machine_profile = m.machine_profile;
  ip = m.ip;
  services = resolve_services m;
  site_services = map entry_of units;
  machine_events_file = trim_space m.eventstore_file;
  primary = primary_instance f s m;
  standby = resolve_instance f s m role_standby;
  lease = resolve_lease m;
}

abbrev from_inventory : (List SiteService → Descriptor) → Inventory → Composed Descriptor
from_inventory d (no_inventory e) = fails "a service derives no freshness"
from_inventory d (inventory units) = ok (d units)

-- `descriptor`.
unfoldable pub descriptor :
    Formats → Project → (platform_name : String) → Site × Machine → Composed Descriptor
unfolding site_services resolve_services primary_instance resolve_instance resolve_lease
descriptor f p platform_name (s, m) =
    from_inventory (descriptor_with f p s m platform_name) (site_services f s)

abbrev pub if_valid : Option Error → Descriptor → Composed Descriptor
if_valid none d = ok d
if_valid (some e) d = fails e

-- One round of the loops of `Build`.
unfoldable pub plan_machine :
    Formats → Parsers → Project → (platform_name : String) → Site × Machine → Composed Descriptor
unfolding descriptor
plan_machine f parsers p platform_name place = do
  d ← descriptor f p platform_name place
  if_valid (validate parsers d) d

-- The machines of every site, in the order of the loops.
unfoldable pub places_of : List Site → List (Site × Machine)
places_of [] = []
places_of (s ∷ ss) = map (λ m. (s, m)) s.machines ++ places_of ss

-- `if err != nil { return nil, err }`.
abbrev unless : {A : Type 0} → Option Error → Composed A → Composed A
unless none r = r
unless (some e) r = fails e

-- `Build`, whose plan is the list of its descriptors.
unfoldable pub build :
    Formats → Parsers → Project → (platform_name : String) → Composed (List Descriptor)
unfolding plan_machine places_of
build f parsers p platform_name =
    unless (validate_project parsers p)
      (compose_each (plan_machine f parsers p platform_name) (places_of p.sites))
