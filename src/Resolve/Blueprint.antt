-- ===== src/Resolve/Blueprint.antt =====
-- builder/internal/blueprint (project.go, site.go, machine.go, instance.go, service.go): the blueprint, and
-- what the resolver reads of it.
use opdl.Base.{
  ℕ, String, Bool, true, false, List, Option, none, some, is_blank, trim_space, if◌then◌else◌,
}

pub record Api : Type 0 where
  pub local_port : ℕ
  pub read_header_timeout : String
  pub shutdown_timeout : String

pub record Nats : Type 0 where
  pub cluster_port : ℕ

pub record InstanceFiles : Type 0 where
  pub eventlog_file : String
  pub state_file : String
  pub log_file : String

pub record WinService : Type 0 where
  pub name : String
  pub display_name : String
  pub description : String

pub record Lease : Type 0 where
  pub file : String
  pub duration : String
  pub renewal_interval : String
  pub health_check_interval : String
  pub failback_stabilization : String

-- The `primary` and the `standby` block; only a standby has a lease, and `disabled` is false for
-- the primary.
pub record Block : Type 0 where
  pub disabled : Bool
  pub api : Option Api
  pub nats : Option Nats
  pub files : InstanceFiles
  pub win_service : Option WinService
  pub lease : Option Lease

pub record HealthCheck : Type 0 where
  pub kind : String
  pub port : ℕ
  pub path : String
  pub interval : String
  pub timeout : String
  pub retries : ℕ

pub record Service : Type 0 where
  pub name : String
  pub role : String
  pub health_check : HealthCheck

pub record Machine : Type 0 where
  pub name : String
  pub machine_profile : String
  pub ip : String
  pub services : List Service
  pub eventstore_file : String
  pub primary : Option Block
  pub standby : Option Block

pub record Site : Type 0 where
  pub name : String
  -- The `nats` block's name.
  pub cluster : Option String
  pub machines : List Machine

pub record Project : Type 0 where
  pub name : String
  pub environment : String
  pub sites : List Site

pub record Endpoints : Type 0 where
  pub api_local_port : ℕ
  pub api_read_header_timeout : String
  pub api_shutdown_timeout : String
  pub nats_cluster_port : ℕ

-- The block of an instance that is deployed.
abbrev enabled : Option Block → Option Block
enabled none = none
enabled (some b) = if b.disabled then none else some b

abbrev pub deployed_block : Machine → (standby : Bool) → Option Block
deployed_block m false = m.primary
deployed_block m true = enabled m.standby

abbrev cluster_port : Option Nats → ℕ
cluster_port none = 0
cluster_port (some n) = n.cluster_port

abbrev endpoints_of_api : Option Nats → Option Api → Option Endpoints
endpoints_of_api nats none = none
endpoints_of_api nats (some a) = some (record {
  api_local_port = a.local_port;
  api_read_header_timeout = trim_space a.read_header_timeout;
  api_shutdown_timeout = trim_space a.shutdown_timeout;
  nats_cluster_port = cluster_port nats;
})

abbrev endpoints_of : Option Block → Option Endpoints
endpoints_of none = none
endpoints_of (some b) = endpoints_of_api b.nats b.api

-- `Machine.Endpoints`.
unfoldable pub endpoints : Machine → (standby : Bool) → Option Endpoints
endpoints m standby = endpoints_of (deployed_block m standby)

abbrev no_files : InstanceFiles
no_files = record { eventlog_file = ""; state_file = ""; log_file = "" }

abbrev files_of : Option Block → InstanceFiles
files_of none = no_files
files_of (some b) = record {
  eventlog_file = trim_space b.files.eventlog_file;
  state_file = trim_space b.files.state_file;
  log_file = trim_space b.files.log_file;
}

-- `Machine.Files`.
unfoldable pub files : Machine → (standby : Bool) → InstanceFiles
files m standby = files_of (deployed_block m standby)

abbrev with_display_name : Option WinService → Option WinService
with_display_name none = none
with_display_name (some w) =
    some (record w { display_name = if is_blank w.display_name then w.name else w.display_name })

abbrev win_service_of : Option Block → Option WinService
win_service_of none = none
win_service_of (some b) = with_display_name b.win_service

-- `Machine.WinServiceIdentity`.
unfoldable pub win_service_identity : Machine → (standby : Bool) → Option WinService
win_service_identity m standby = win_service_of (deployed_block m standby)

abbrev lease_of_block : Option Block → Option Lease
lease_of_block none = none
lease_of_block (some b) = b.lease

-- `Machine.Lease`.
unfoldable pub lease_of : Machine → Option Lease
lease_of m = lease_of_block (deployed_block m true)

abbrev trimmed : Option String → String
trimmed none = ""
trimmed (some name) = trim_space name

-- `Site.ClusterName`.
unfoldable pub cluster_name : Site → String
cluster_name s = trimmed s.cluster
