-- ===== src/Deployment/Endpoints.antt =====
-- The listeners, the routes, the service identities and the files in builder/deployment/deployment.go.
use opdl.Base.{
  ℕ, String, Bool, true, false, not, ◌||◌, ◌&&◌, List, [], ◌∷◌, ◌++◌, Option, none, some, ltb, ◌==◌,
  nat_eq, string_eq, contains, is_blank, trim_space, Error, Equality, fail_if, ◌<|>◌, ◌≡◌, ◌↔◌,
  arith, eq_iff,
}
use opdl.ServiceHealth.Target.{Url}
use opdl.Deployment.Types.{Service, WinService, Instance, Descriptor, Lease, Parsers}
use opdl.Deployment.Health.{error_of, positive_duration}

abbrev pub in_range : Option ℕ → Option Error
in_range none = some "port is not a number"
in_range (some port) = fail_if (ltb port 1 || ltb 65535 port) "port out of range 1-65535"

abbrev pub check_address : Parsers → Option (String × String) → Option Error
check_address f none = some "must be host:port"
check_address f (some (host, port)) =
    fail_if (is_blank host) "has no host" <|> in_range (f.atoi port)

-- `validateAddress`.
unfoldable pub validate_address : Parsers → String → Option Error
validate_address f addr = check_address f (f.split_host_port addr)

-- `requireAddress`.
unfoldable pub require_address : Parsers → String → Option Error
unfolding validate_address
require_address f addr = fail_if (is_blank addr) "address is required" <|> validate_address f addr

abbrev pub loopback_ip : Parsers → Option String → Option Error
loopback_ip f none = some "is not on the loopback interface"
loopback_ip f (some ip) = fail_if (not (f.is_loopback ip)) "is not on the loopback interface"

abbrev pub on_host :
    (Option String → Option Error) → Parsers → Option (String × String) → Option Error
on_host check f none = some "must be host:port"
on_host check f (some (host, port)) = check (f.parse_ip host)

-- `requireLoopback`.
unfoldable pub require_loopback : Parsers → String → Option Error
require_loopback f addr = on_host (loopback_ip f) f (f.split_host_port addr)

-- `ip.Equal`; nil equals no address.
abbrev pub same_ip : Option String → Option String → Bool
same_ip none machine_ip = false
same_ip (some ip) none = false
same_ip (some ip) (some machine_ip) = ip == machine_ip

-- `requireMachineHost`.
unfoldable pub require_machine_host : Parsers → (machine_ip : String) → String → Option Error
require_machine_host f machine_ip addr =
    on_host (λ ip. fail_if (not (same_ip ip (f.parse_ip machine_ip))) "is not on the machine's ip")
      f (f.split_host_port addr)

abbrev pub route_scheme : String
route_scheme = "nats"

pub data Route : Type 0 where
  to_host : String → Route
  no_route : Error → Route

abbrev pub host_if : Option Error → String → Route
host_if none host = to_host host
host_if (some e) host = no_route e

abbrev pub route_of_url : Parsers → Option Url → Route
route_of_url f none = no_route "route is not a URL"
route_of_url f (some parsed) =
    host_if
      (fail_if (not (parsed.scheme == route_scheme)) "must use the nats scheme"
        <|> validate_address f parsed.host)
      parsed.host

-- `routeAddress`.
unfoldable pub route_address : Parsers → String → Route
unfolding validate_address
route_address f route = route_of_url f (f.parse_url (trim_space route))

abbrev pub check_route : (own : String) → (seen : List String) → Route → Option Error
check_route own seen (no_route e) = some e
check_route own seen (to_host address) =
    fail_if (address == own) "is this instance's own cluster address"
    <|> fail_if (contains seen address) "each peer is routed to once"

abbrev pub and_seen : Route → List String → List String
and_seen (no_route e) seen = seen
and_seen (to_host address) seen = address ∷ seen

-- The loop of `validateRoutes`.
unfoldable pub check_routes :
    Parsers → (own : String) → (seen : List String) → List String → Option Error
unfolding route_address
check_routes f own seen [] = none
check_routes f own seen (r ∷ rs) =
    check_route own seen (route_address f r)
    <|> check_routes f own (and_seen (route_address f r) seen) rs

unfoldable pub path_key : Parsers → String → String
path_key f path = f.clean_lower (trim_space path)

-- `validateInstanceEndpoints`.
unfoldable pub validate_instance_endpoints :
    Parsers → (machine_ip : String) → Instance → Option Error
unfolding require_address require_loopback require_machine_host check_routes path_key
    positive_duration
validate_instance_endpoints f machine_ip i =
    require_address f i.api_address
    <|> require_loopback f i.api_address
    <|> fail_if (is_blank i.events_file) "events_file is required"
    <|> fail_if (is_blank i.state_file) "state_file is required"
    <|> fail_if (is_blank i.log_file) "log_file is required"
    <|> fail_if (path_key f i.events_file == path_key f i.state_file)
        "every file an instance owns needs its own path"
    <|> error_of (positive_duration f i.api_read_header_timeout)
    <|> error_of (positive_duration f i.api_shutdown_timeout)
    <|> fail_if (is_blank i.nats.server_name) "nats.server_name is required"
    <|> fail_if (is_blank i.nats.cluster_name) "nats.cluster_name is required"
    <|> require_address f i.nats.cluster_address
    <|> require_machine_host f machine_ip i.nats.cluster_address
    <|> check_routes f i.nats.cluster_address [] i.nats.routes

abbrev pub of_standby {ℓ} : {A : Type ℓ} → (Instance → List A) → Option Instance → List A
of_standby f none = []
of_standby f (some i) = f i

-- The addresses that the machine's processes bind.
abbrev pub listeners_of : Instance → List String
listeners_of i = i.api_address ∷ i.nats.cluster_address ∷ []

abbrev pub listeners : Descriptor → List String
listeners d = listeners_of d.primary ++ of_standby listeners_of d.standby

pub data Port : Type 0 where
  port : ℕ → Port
  no_port : Error → Port

abbrev pub port_number : Option ℕ → Port
port_number none = no_port "has no usable port"
port_number (some n) = port n

abbrev pub port_part : Parsers → Option (String × String) → Port
port_part f none = no_port "must be host:port"
port_part f (some (host, text)) = port_number (f.atoi text)

unfoldable pub port_of : Parsers → String → Port
port_of f addr = port_part f (f.split_host_port addr)

abbrev pub take_port : Port → (List ℕ → Option Error) → (taken : List ℕ) → Option Error
take_port (no_port e) rest taken = some e
take_port (port n) rest taken =
    fail_if (contains taken n) "the machine's listeners cannot share a port" <|> rest (n ∷ taken)

-- The loop over the listeners, and what follows it with the ports that they take.
unfoldable pub check_listeners :
    (read : String → Port) → (List ℕ → Option Error) → (taken : List ℕ) → List String → Option Error
check_listeners read next taken [] = next taken
check_listeners read next taken (a ∷ rest) =
    take_port (read a) (λ taken'. check_listeners read next taken' rest) taken

pub record Endpoint : Type 0 where
  pub port : ℕ
  pub path : String

abbrev pub endpoint_beq : Endpoint → Endpoint → Bool
endpoint_beq a b = (a.port == b.port) && (a.path == b.path)

pub endpoint_beq_iff : (a b : Endpoint) → (endpoint_beq a b ≡ true) ↔ (a ≡ b)
endpoint_beq_iff a b = ground (arith, eq_iff a.path b.path)

instance abbrev pub endpoint_eq : Equality Endpoint
endpoint_eq = record { equal = endpoint_beq; equal_iff = endpoint_beq_iff }

abbrev pub endpoint_of : Service → Endpoint
endpoint_of s = record { port = s.health_check.port; path = s.health_check.path }

-- `validateServiceProbeEndpoints`; `probed` are the endpoints so far.
unfoldable pub check_probes :
    (platform_ports : List ℕ) → (probed : List Endpoint) → List Service → Option Error
check_probes ports probed [] = none
check_probes ports probed (s ∷ ss) =
    fail_if (contains ports s.health_check.port)
      "a service cannot be probed on a port the platform binds"
    <|> fail_if (contains probed (endpoint_of s)) "two services may not share an endpoint"
    <|> check_probes ports (endpoint_of s ∷ probed) ss

abbrev pub when_standby : (Instance → Option Error) → Option Instance → Option Error
when_standby check none = none
when_standby check (some i) = check i

-- `validateEndpoints`.
unfoldable pub validate_endpoints : Parsers → Descriptor → Option Error
unfolding validate_instance_endpoints check_listeners port_of check_probes
validate_endpoints f d =
    validate_instance_endpoints f d.ip d.primary
    <|> when_standby (validate_instance_endpoints f d.ip) d.standby
    <|> check_listeners (port_of f) (λ ports. check_probes ports [] d.services) [] (listeners d)

abbrev pub files_of : Instance → List String
files_of i = i.events_file ∷ i.state_file ∷ i.log_file ∷ []

abbrev pub lease_files : Option Lease → List String
lease_files none = []
lease_files (some l) = l.file ∷ []

-- The lease's file is listed with the standby's.
abbrev pub local_files : Descriptor → List String
local_files d =
    d.machine_events_file
    ∷ (files_of d.primary ++ of_standby (λ i. files_of i ++ lease_files d.lease) d.standby)

unfoldable pub check_files : Parsers → (taken : List String) → List String → Option Error
unfolding path_key
check_files f taken [] = none
check_files f taken (p ∷ ps) =
    fail_if (contains taken (path_key f p)) "every file an instance owns needs its own path"
    <|> check_files f (path_key f p ∷ taken) ps

-- `validateLocalFiles`.
unfoldable pub validate_local_files : Parsers → Descriptor → Option Error
unfolding check_files
validate_local_files f d = check_files f [] (local_files d)

abbrev pub service_name : Option WinService → String
service_name none = ""
service_name (some s) = s.name

abbrev pub check_identity : Option WinService → Option Error
check_identity none = some "service is required"
check_identity (some s) = fail_if (is_blank s.name) "service.name is required"

-- `validateServices`. Both identities are there once the first two checks have passed.
unfoldable pub validate_services : Descriptor → Option Error
validate_services d =
    check_identity d.primary.service
    <|> when_standby
        (λ standby.
          check_identity standby.service
          <|> fail_if (service_name d.primary.service == service_name standby.service)
              "the instances share a service name")
        d.standby
