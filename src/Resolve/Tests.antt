-- ===== src/Resolve/Tests.antt =====
-- The resolver at a concrete site.
use mathlib.Core.List.{Memᴰ}
use opdl.Base.{◌≡◌, refl, true, false, List, [], ◌∷◌, none, some, contains, string_eq}
use Prim.Native.String.{◌++◌ as append}
use opdl.Resolve.Blueprint.{Machine, Block, endpoints}
use opdl.Resolve.Descriptor.{Formats, nats_routes, nats_route_url}
use opdl.Resolve.Mesh.{Member, members, nats_routes-mutual}

abbrev formats : Formats
formats = record {
  parse_duration = λ text. none;
  print_duration = λ n. "";
  join_host_port = λ host port. append host ":6222";
}

abbrev block : Block
block = record {
  disabled = false;
  api = some (record { local_port = 8080; read_header_timeout = "5s"; shutdown_timeout = "5s" });
  nats = some (record { cluster_port = 6222 });
  files = record { eventlog_file = ""; state_file = ""; log_file = "" };
  win_service = none;
  lease = none;
}

abbrev alpha : Machine
alpha = record {
  name = "alpha";
  machine_profile = "linux";
  ip = "10.0.0.1";
  services = [];
  eventstore_file = "";
  primary = some block;
  standby = some (record block { disabled = true });
}

abbrev beta : Machine
beta = record alpha { name = "beta"; ip = "10.0.0.2"; standby = none }

abbrev machines : List Machine
machines = alpha ∷ beta ∷ []

abbrev first : Member
first = record { machine = "alpha"; role = "primary"; url = "nats://10.0.0.1:6222" }

abbrev second : Member
second = record { machine = "beta"; role = "primary"; url = "nats://10.0.0.2:6222" }

first_deployed : Memᴰ first (members formats machines)
unfolding endpoints nats_route_url
first_deployed = Memᴰ.head refl

second_deployed : Memᴰ second (members formats machines)
unfolding endpoints nats_route_url
second_deployed = Memᴰ.tail (Memᴰ.head refl)

nats_routes-mutual_example :
    (contains (nats_routes formats machines "alpha" "primary") "nats://10.0.0.2:6222" ≡ true)
    × (contains (nats_routes formats machines "beta" "primary") "nats://10.0.0.1:6222" ≡ true)
nats_routes-mutual_example =
    nats_routes-mutual formats machines first second first_deployed second_deployed refl
