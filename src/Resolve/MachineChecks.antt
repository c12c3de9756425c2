-- ===== src/Resolve/MachineChecks.antt =====
-- builder/internal/blueprint: what validateMachine of machine.go asks of one machine (with instance.go
-- and service.go). A port or a count below 1 is 0. The errors name no machine here.
use opdl.Base.{
  ℕ, String, Bool, true, false, not, ◌||◌, List, [], ◌∷◌, ◌++◌, Option, none, some, ltb, leb, ◌==◌,
  nat_eq, string_eq, contains, is_blank, trim_space, bytes, length, any_code, Error, fail_if, ◌<|>◌,
  check_each, if◌then◌else◌,
}
use opdl.Deployment.Types.{Parsers, is_set}
use opdl.Deployment.Health.{
  error_of, length_of, positive_duration, service_roles, probe_type_http, validate_target,
}
use opdl.Deployment.Endpoints.{Endpoint, endpoint_eq, path_key}
use opdl.Resolve.Blueprint.{
  Api, Nats, InstanceFiles, WinService, Lease, Block, HealthCheck, Service, Machine, files,
  deployed_block,
}

-- `validatePort`.
abbrev pub check_port : ℕ → Option Error
check_port port = fail_if (ltb port 1 || ltb 65535 port) "must be in range 1-65535"

abbrev check_nats : Option Nats → Option Error
check_nats none = some "nats block is required"
check_nats (some n) = check_port n.cluster_port

-- `validateInstanceEndpoints`. `validateDuration` reads as the builder's validatePositiveDuration does.
unfoldable pub check_endpoints : Parsers → Option Api → Option Nats → Option Error
unfolding positive_duration
check_endpoints f none nats = some "api block is required"
check_endpoints f (some api) nats =
    check_port api.local_port
    <|> error_of (positive_duration f api.read_header_timeout)
    <|> error_of (positive_duration f api.shutdown_timeout)
    <|> check_nats nats

-- `validateStandbyEndpoints`.
unfoldable pub check_standby_endpoints : Parsers → Block → Option Error
unfolding check_endpoints
check_standby_endpoints f b =
    if not b.disabled
    then check_endpoints f b.api b.nats
    else fail_if (not (is_blank b.files.eventlog_file)) "standby.eventlog_file is set"
      <|> fail_if (not (is_blank b.files.state_file)) "standby.state_file is set"
      <|> fail_if (not (is_blank b.files.log_file)) "standby.log_file is set"
      <|> fail_if (is_set b.lease) "standby.lease is set"
      <|> fail_if (is_set b.api) "standby.api is set"
      <|> fail_if (is_set b.nats) "standby.nats is set"

abbrev paths_of : InstanceFiles → List String
paths_of i = i.eventlog_file ∷ i.state_file ∷ i.log_file ∷ []

-- `authoredFiles`.
unfoldable pub authored_files : Machine → List String
unfolding files
authored_files m =
    paths_of (files m false)
    ++ (if is_set (deployed_block m true) then paths_of (files m true) else [])

unfoldable pub check_own_paths : Parsers → (taken : List String) → List String → Option Error
unfolding path_key
check_own_paths f taken [] = none
check_own_paths f taken (p ∷ ps) =
    fail_if (contains taken (path_key f p)) "every file an instance owns needs its own path"
    <|> check_own_paths f (path_key f p ∷ taken) ps

-- `validateInstanceFiles`.
unfoldable pub check_instance_files : Parsers → Machine → Option Error
unfolding authored_files check_own_paths
check_instance_files f m =
    check_each (λ p. fail_if (p == "") "a file is required") (authored_files m)
    <|> check_own_paths f [] (authored_files m)

abbrev lease_file : Option Lease → List String
lease_file none = []
lease_file (some l) = l.file ∷ []

abbrev lease_files_of : Option Block → List String
lease_files_of none = []
lease_files_of (some b) = lease_file b.lease

-- `validateMachineFiles`.
unfoldable pub check_machine_files : Parsers → Machine → Option Error
unfolding authored_files path_key
check_machine_files f m =
    fail_if (is_blank m.eventstore_file) "eventstore_file is required"
    <|> fail_if (not (m.eventstore_file == trim_space m.eventstore_file))
        "eventstore_file must not have outer white space"
    <|> check_each
        (λ p.
          fail_if (path_key f p == path_key f (trim_space m.eventstore_file))
            "the machine's shared store is not one of its instances' files")
        (authored_files m ++ lease_files_of (deployed_block m true))

abbrev api_port : Option Api → List ℕ
api_port none = []
api_port (some a) = a.local_port ∷ []

abbrev nats_port : Option Nats → List ℕ
nats_port none = []
nats_port (some n) = n.cluster_port ∷ []

-- The ports of a block; both are there once the endpoints have been checked.
abbrev ports_of : Option Block → List ℕ
ports_of none = []
ports_of (some b) = api_port b.api ++ nats_port b.nats

-- `validateServiceProbePorts`.
unfoldable pub check_probe_ports :
    (platform_ports : List ℕ) → (probed : List Endpoint) → List Service → Option Error
check_probe_ports ports probed [] = none
check_probe_ports ports probed (s ∷ ss) =
    let key : Endpoint = record { port = s.health_check.port; path = s.health_check.path } in
    fail_if (contains ports s.health_check.port)
      "a service cannot be probed on a port the platform binds"
    <|> fail_if (contains probed key) "two services may not share an endpoint"
    <|> check_probe_ports ports (key ∷ probed) ss

unfoldable pub check_ports : (taken : List ℕ) → List ℕ → List Service → Option Error
unfolding check_probe_ports
check_ports taken [] ss = check_probe_ports taken [] ss
check_ports taken (p ∷ ps) ss =
    fail_if (contains taken p) "every listener on a machine needs its own port"
    <|> check_ports (p ∷ taken) ps ss

-- `validateMachinePorts`.
unfoldable pub check_machine_ports : Machine → Option Error
unfolding check_ports
check_machine_ports m =
    check_ports [] (ports_of (deployed_block m false) ++ ports_of (deployed_block m true))
      m.services

-- `validateWinService`; `len` counts bytes.
unfoldable pub check_win_service : WinService → Option Error
check_win_service w =
    fail_if (is_blank w.name) "name is required"
    <|> fail_if (not (w.name == trim_space w.name)) "name must not have outer white space"
    <|> fail_if (ltb 256 (length (bytes w.name))) "name is too long"
    <|> fail_if (any_code (λ c. (c == 0x2f) || (c == 0x5c)) w.name)
        "name must not contain a slash or backslash"
    <|> fail_if (ltb 256 (length (bytes w.display_name))) "display_name is too long"

abbrev check_standby_service : (primary_name : String) → Option WinService → Option Error
check_standby_service primary_name none = some "standby.winservice block is required"
check_standby_service primary_name (some w) =
    check_win_service w <|> fail_if (primary_name == w.name) "the two instances must differ"

abbrev check_services_of : Option WinService → Block → Option Error
check_services_of none standby = some "primary.winservice block is required"
check_services_of (some w) standby =
    check_win_service w
    <|> (if standby.disabled
        then fail_if (is_set standby.win_service) "standby.winservice is set"
        else check_standby_service w.name standby.win_service)

-- `validateWinServices`.
unfoldable pub check_win_services : (primary standby : Block) → Option Error
unfolding check_win_service
check_win_services primary standby = check_services_of primary.win_service standby

abbrev check_policy : Parsers → Option Lease → Option Error
check_policy f none = some "standby.lease block is required"
check_policy f (some l) =
    let duration = positive_duration f l.duration in
    let renewal = positive_duration f l.renewal_interval in
    fail_if (is_blank l.file) "standby.lease.file is required"
    <|> fail_if (not (l.file == trim_space l.file))
        "standby.lease.file must not have outer white space"
    <|> error_of duration
    <|> error_of renewal
    <|> error_of (positive_duration f l.health_check_interval)
    <|> error_of (positive_duration f l.failback_stabilization)
    <|> fail_if (leb (length_of duration) (length_of renewal)) "renewal_interval must be shorter"

-- `validateLease`.
unfoldable pub check_lease_policy : Parsers → Block → Option Error
unfolding positive_duration
check_lease_policy f b = if b.disabled then none else check_policy f b.lease

-- `validateHealthCheck`; `validateHTTPHealthCheck` asks of the path what the builder's
-- validateHealthRequestTarget does.
unfoldable pub check_health : Parsers → HealthCheck → Option Error
unfolding positive_duration validate_target
check_health f h =
    let interval = positive_duration f h.interval in
    let timeout = positive_duration f h.timeout in
    fail_if (is_blank h.kind) "type is required"
    <|> fail_if (not (h.kind == probe_type_http)) "type is not a known probe"
    <|> validate_target f h.path
    <|> check_port h.port
    <|> error_of interval
    <|> error_of timeout
    <|> fail_if (leb (length_of interval) (length_of timeout))
        "timeout must be shorter than interval"
    <|> fail_if (ltb h.retries 1) "retries must be at least 1"

-- The loop of `validateMachineServices`, with `validateServiceRole`.
unfoldable pub check_assigned : Parsers → (assigned : List String) → List Service → Option Error
unfolding check_health
check_assigned f assigned [] = none
check_assigned f assigned (s ∷ ss) =
    fail_if (is_blank s.name) "service with empty name"
    <|> fail_if (not (s.name == trim_space s.name)) "service must not have outer white space"
    <|> fail_if (contains assigned s.name) "service assigned more than once"
    <|> fail_if (is_blank s.role) "role is required"
    <|> fail_if (not (contains service_roles s.role)) "role is not a known role"
    <|> check_health f s.health_check
    <|> check_assigned f (s.name ∷ assigned) ss

abbrev no_services : List Service → Bool
no_services [] = true
no_services (s ∷ ss) = false

-- `validateMachineServices`.
unfoldable pub check_machine_services : Parsers → Machine → Option Error
unfolding check_assigned
check_machine_services f m =
    fail_if (no_services m.services) "at least one service is required"
    <|> check_assigned f [] m.services

abbrev check_blocks : Parsers → Machine → Option Block → Option Block → Option Error
check_blocks f m none standby = some "primary block is required"
check_blocks f m (some primary) none = some "standby block is required"
check_blocks f m (some primary) (some standby) =
    check_endpoints f primary.api primary.nats
    <|> check_standby_endpoints f standby
    <|> check_instance_files f m
    <|> check_machine_files f m
    <|> check_machine_ports m
    <|> check_win_services primary standby
    <|> check_lease_policy f standby

-- `validateMachine`; `named` are the machines so far.
unfoldable pub check_machine : Parsers → (named : List String) → Machine → Option Error
unfolding check_machine_services check_endpoints check_standby_endpoints check_instance_files
    check_machine_files check_machine_ports check_win_services check_lease_policy
check_machine f named m =
    fail_if (is_blank m.name) "machine with empty name"
    <|> fail_if (contains named m.name) "duplicate machine"
    <|> fail_if (is_blank m.machine_profile) "profile is required"
    <|> fail_if (is_blank m.ip) "ip is required"
    <|> fail_if (not (is_set (f.parse_ip m.ip))) "ip is not a valid IP address"
    <|> check_machine_services f m
    <|> check_blocks f m m.primary m.standby
