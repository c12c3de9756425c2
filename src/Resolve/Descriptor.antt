-- ===== src/Resolve/Descriptor.antt =====
-- builder/internal/resolve/resolve.go: what one machine's descriptor takes from its site.
-- `time.ParseDuration`, `Duration.String` and the joining of a host with a port are parameters. A
-- parsed duration is in nanoseconds, and a negative one does not pass the blueprint.
use opdl.Base.{
  ℕ, ◌+◌, ◌-◌, ◌*◌, ◌/◌, ◌^◌, String, Bool, true, false, ◌&&◌, List, [], ◌∷◌, ◌++◌, Option, none,
  some, ltb, ◌==◌, string_eq, trim_space, if◌then◌else◌,
}
use Prim.Native.String.{◌++◌ as append}
use opdl.Resolve.Blueprint.{HealthCheck, Service, Machine, Site, Endpoints, endpoints}

abbrev pub role_primary : String
role_primary = "primary"

abbrev pub role_standby : String
role_standby = "standby"

-- What the resolver uses of `time` and `net`.
pub record Formats : Type 0 where
  pub parse_duration : String → Option ℕ
  pub print_duration : ℕ → String
  pub join_host_port : String → ℕ → String

pub data FreshError : Type 0 where
  bad_interval bad_timeout overflows : FreshError

pub data Fresh : Type 0 where
  fresh : ℕ → Fresh
  not_fresh : FreshError → Fresh

abbrev max_duration : ℕ
max_duration = 2 ^ 63 - 1

-- int64 arithmetic, after the guard.
unfoldable pub derive_fresh : Option ℕ → Option ℕ → Fresh
derive_fresh none t = not_fresh bad_interval
derive_fresh (some i) none = not_fresh bad_timeout
derive_fresh (some i) (some t) =
    if ltb ((max_duration - t) / 2) i then not_fresh overflows else fresh (2 * i + t)

-- `freshFor`, before it is printed.
unfoldable pub fresh_for : Formats → HealthCheck → Fresh
unfolding derive_fresh
fresh_for f c =
    derive_fresh (f.parse_duration (trim_space c.interval))
      (f.parse_duration (trim_space c.timeout))

abbrev is_deployed : Option Endpoints → Bool
is_deployed none = false
is_deployed (some e) = true

unfoldable pub observer_roles : Machine → List String
observer_roles m =
    if is_deployed (endpoints m true) then role_primary ∷ role_standby ∷ [] else role_primary ∷ []

pub record SiteService : Type 0 where
  pub machine : String
  pub machine_profile : String
  pub service : String
  pub service_role : String
  pub observer_roles : List String
  pub fresh_for : String

pub data Inventory : Type 0 where
  inventory : List SiteService → Inventory
  no_inventory : FreshError → Inventory

abbrev site_service : Formats → Machine → Service → ℕ → SiteService
site_service f m s n = record {
  machine = trim_space m.name;
  machine_profile = trim_space m.machine_profile;
  service = trim_space s.name;
  service_role = s.role;
  observer_roles = observer_roles m;
  fresh_for = f.print_duration n;
}

-- The inner loop of `siteServices`, over one machine's services, onto the inventory so far.
unfoldable pub machine_services : Formats → Machine → List Service → List SiteService → Inventory
machine_services f m [] acc = inventory acc
machine_services f m (s ∷ ss) acc = elim (fresh_for f s.health_check) [
  | not_fresh e ↦ no_inventory e
  | fresh n ↦ machine_services f m ss (acc ++ (site_service f m s n ∷ []))
]

unfoldable pub site_machines : Formats → List Machine → List SiteService → Inventory
site_machines f [] acc = inventory acc
site_machines f (m ∷ ms) acc = elim (machine_services f m m.services acc) [
  | no_inventory e ↦ no_inventory e
  | inventory acc' ↦ site_machines f ms acc'
]

-- `siteServices`.
unfoldable pub site_services : Formats → Site → Inventory
unfolding site_machines machine_services
site_services f s = site_machines f s.machines []

unfoldable pub nats_route_url : Formats → String → ℕ → String
nats_route_url f ip port = append "nats://" (f.join_host_port ip port)

abbrev pub is_standby : String → Bool
is_standby role = role == role_standby

abbrev route_to : Formats → Machine → Option Endpoints → List String
route_to f peer none = []
route_to f peer (some e) = nats_route_url f peer.ip e.nats_cluster_port ∷ []

-- One round of the inner loop of `natsRoutes`: the routes to one instance of a peer.
unfoldable pub peer_routes :
    Formats → (self role : String) → Machine → (peer_role : String) → List String
peer_routes f self role peer peer_role =
    if (peer.name == self) && (peer_role == role)
    then []
    else route_to f peer (endpoints peer (is_standby peer_role))

-- `natsRoutes`, of the instance `role` of the machine called `self`.
unfoldable pub nats_routes : Formats → List Machine → (self role : String) → List String
unfolding peer_routes
nats_routes f [] self role = []
nats_routes f (m ∷ ms) self role =
    peer_routes f self role m role_primary
    ++ (peer_routes f self role m role_standby ++ nats_routes f ms self role)

unfoldable pub nats_server_name : Machine → (role : String) → String
nats_server_name m role = append m.name (append "-" role)

-- `loopbackAddress` and `machineAddress`.
unfoldable pub loopback_address : Formats → ℕ → String
loopback_address f port = f.join_host_port "127.0.0.1" port

unfoldable pub machine_address : Formats → (ip : String) → ℕ → String
machine_address f ip port = f.join_host_port (trim_space ip) port
