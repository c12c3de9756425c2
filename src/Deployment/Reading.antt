-- ===== src/Deployment/Reading.antt =====
-- Where the two sides of the descriptor read a text differently, platform/config trims it first. What
-- the builder accepts they read alike.
use opdl.Base.{
  ℕ, ◌≡◌, ◌≢◌, refl, inl, inr, String, not, List, [], ◌∷◌, Option, Option-cases, none, some, arith,
  trim_space, All, Error, fail_if,
}
use opdl.Deployment.Types.{Parsers, HealthCheck, Service, Instance}
use opdl.Deployment.Health.{error_of, positive_duration, validate_check}
use opdl.Deployment.Services.{check_service, check_services}
use opdl.Deployment.Endpoints.{
  Port, port, no_port, port_of, take_port, check_listeners, validate_instance_endpoints,
  require_address, require_loopback, require_machine_host, listeners_of, on_host, same_ip,
  loopback_ip,
}
use opdl.Deployment.Platform.{positive_descriptor_duration, usable_port}

-- A text that time.ParseDuration reads has no outer white space, nor has one that net.SplitHostPort
-- splits into an address and a number.
pub record ReadsTrimmed (f : Parsers) : Type 0 where
  pub durations : (text : String) (n : ℕ) → f.parse_duration text ≡ some n → trim_space text ≡ text
  pub addresses :
      (text host port_text ip : String) (n : ℕ)
      → f.split_host_port text ≡ some (host, port_text)
      → f.parse_ip host ≡ some ip
      → f.atoi port_text ≡ some n
      → trim_space text ≡ text

module _ (f : Parsers) (laws : ReadsTrimmed f) where
  pub read_duration :
      (text : String)
      → error_of (positive_duration f text) ≡ none
      → positive_descriptor_duration f text ≡ positive_duration f text
  unfolding positive_duration positive_descriptor_duration
  read_duration text h = elim (Option-cases (f.parse_duration text)) [
    | inl e ↦ absurd (ground arith)
    | inr (n, e) ↦ rw (laws.durations text n e) refl
  ]

  pub validate_check_platform :
      (h : HealthCheck)
      → validate_check (positive_duration f) f h ≡ none
      → validate_check (positive_descriptor_duration f) f h ≡ none
  unfolding validate_check
  validate_check_platform h ok = ground (arith, read_duration h.interval, read_duration h.timeout)

  pub check_services_platform :
      (named : List String) (ss : List Service)
      → check_services (validate_check (positive_duration f) f) named ss ≡ none
      → check_services (validate_check (positive_descriptor_duration f) f) named ss ≡ none
  unfolding check_services check_service
  check_services_platform named [] ok = refl
  check_services_platform named (s ∷ ss) ok = ground (
    arith,
    validate_check_platform s.health_check,
    check_services_platform (trim_space s.name ∷ named) ss,
  )

  -- An address on a parsed host, with its port in range.
  read_address :
      (check : Option String → Option Error) (addr : String)
      → check none ≢ none
      → require_address f addr ≡ none
      → on_host check f (f.split_host_port addr) ≡ none
      → usable_port f addr ≡ port_of f addr
  unfolding require_address usable_port port_of
  read_address check addr strict ok hosted = elim (Option-cases (f.split_host_port addr)) [
    | inl e ↦ absurd (ground arith)
    | inr ((host, text), e) ↦ elim (Option-cases (f.parse_ip host)) [
      | inl i ↦ absurd (ground arith)
      | inr (ip, i) ↦ elim (Option-cases (f.atoi text)) [
        | inl n ↦ absurd (ground arith)
        | inr (n, t) ↦ rw (laws.addresses addr host text ip n e i t, e) (ground arith)
      ]
    ]
  ]

  pub instance_reads :
      (ip : String) (i : Instance)
      → validate_instance_endpoints f ip i ≡ none
      → All (λ a. usable_port f a ≡ port_of f a) (listeners_of i)
  unfolding validate_instance_endpoints require_loopback require_machine_host
  instance_reads ip i ok = (
    read_address (loopback_ip f) i.api_address (ground arith) (ground arith) (ground arith),
    (
      read_address
          (λ host. fail_if (not (same_ip host (f.parse_ip ip))) "is not on the machine's ip")
          i.nats.cluster_address (ground arith) (ground arith) (ground arith),
      tt,
    ),
  )

take_port_cong :
    (p : Port) (next next' : List ℕ → Option Error) (taken : List ℕ)
    → ((ports : List ℕ) → next ports ≡ next' ports)
    → take_port p next taken ≡ take_port p next' taken
take_port_cong (no_port e) next next' taken h = refl
take_port_cong (port n) next next' taken h = rw (h (n ∷ taken)) refl

pub check_listeners_cong :
    (read read' : String → Port) (next : List ℕ → Option Error) (taken : List ℕ)
    (addrs : List String)
    → All (λ a. read a ≡ read' a) addrs
    → check_listeners read next taken addrs ≡ check_listeners read' next taken addrs
unfolding check_listeners
check_listeners_cong read read' next taken [] h = refl
check_listeners_cong read read' next taken (a ∷ addrs) (here, rest) = rw here (
    take_port_cong (read' a) _ _ taken
      λ ports. check_listeners_cong read read' next ports addrs rest)
