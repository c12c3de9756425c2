-- ===== src/Deployment/Separation.antt =====
-- The builder keeps apart what the machine's processes bind, probe and write
-- (builder/deployment/deployment.go).
use opdl.Base.{
  ℕ, ◌≡◌, refl, String, false, ◌||◌, List, [], ◌∷◌, map, Option, none, arith, nat_eq, string_eq,
  contains, All, IsDistinct, FreshAfter, FreshAfter-IsDistinct, Error, fail_if, ◌<|>◌, both_pass,
  fail_if-false,
}
use opdl.Deployment.Types.{Parsers, Service, Descriptor}
use opdl.Deployment.Endpoints.{
  Port, port, no_port, port_of, take_port, check_listeners, listeners, Endpoint, endpoint_eq,
  endpoint_of, check_probes, validate_endpoints, validate_instance_endpoints, when_standby,
  path_key, check_files, local_files, validate_local_files,
}
use opdl.Deployment.Builder.{validate, validate-IsAccepted}

module _ (ports : List ℕ) where
  check_probes_fresh :
      (probed : List Endpoint) (ss : List Service)
      → check_probes ports probed ss ≡ none
      → (All (λ s. contains ports s.health_check.port ≡ false) ss)
        × FreshAfter probed (map endpoint_of ss)
  unfolding check_probes
  check_probes_fresh probed [] ok = (tt, tt)
  check_probes_fresh probed (s ∷ ss) ok =
      let (a, b) =
        both_pass
          (fail_if (contains ports s.health_check.port)
            "a service cannot be probed on a port the platform binds")
          (fail_if (contains probed (endpoint_of s)) "two services may not share an endpoint"
            <|> check_probes ports (endpoint_of s ∷ probed) ss)
          ok in
      let (c, e) =
        both_pass
          (fail_if (contains probed (endpoint_of s)) "two services may not share an endpoint")
          (check_probes ports (endpoint_of s ∷ probed) ss) b in
      let (p, q) = check_probes_fresh (endpoint_of s ∷ probed) ss e in
      ((fail_if-false _ _ a, p), (fail_if-false _ _ c, q))

check_files_fresh :
    (f : Parsers) (taken ps : List String)
    → check_files f taken ps ≡ none
    → FreshAfter taken (map (path_key f) ps)
unfolding check_files
check_files_fresh f taken [] ok = tt
check_files_fresh f taken (p ∷ ps) ok =
    let (a, b) =
      both_pass
        (fail_if (contains taken (path_key f p)) "every file an instance owns needs its own path")
        (check_files f (path_key f p ∷ taken) ps) ok in
    (fail_if-false _ _ a, check_files_fresh f (path_key f p ∷ taken) ps b)

abbrev ports_after : List ℕ → List ℕ → List ℕ
ports_after taken [] = taken
ports_after taken (n ∷ ns) = ports_after (n ∷ taken) ns

-- The listeners' ports, each new, and what was asked of all of them.
check_listeners_fresh :
    (read : String → Port) (next : List ℕ → Option Error) (taken : List ℕ) (addrs : List String)
    → check_listeners read next taken addrs ≡ none
    → (ns : List ℕ) × (map read addrs ≡ map port ns)
      × FreshAfter taken ns
      × (next (ports_after taken ns) ≡ none)
unfolding check_listeners
check_listeners_fresh read next taken [] ok = ([], refl, tt, ok)
check_listeners_fresh read next taken (a ∷ addrs) ok =
    split (read a) ok λ n. check_listeners_fresh read next (n ∷ taken) addrs
  where
    Ends : Port → Type 0
    Ends p =
        (ns : List ℕ) × (p ∷ map read addrs ≡ map port ns)
        × FreshAfter taken ns
        × (next (ports_after taken ns) ≡ none)

    split :
        (p : Port)
        → take_port p (λ taken'. check_listeners read next taken' addrs) taken ≡ none
        → ((n : ℕ)
            → check_listeners read next (n ∷ taken) addrs ≡ none
            → (ns : List ℕ) × (map read addrs ≡ map port ns)
              × FreshAfter (n ∷ taken) ns
              × (next (ports_after (n ∷ taken) ns) ≡ none))
        → Ends p
    split (no_port e) ok ih = absurd (ground arith)
    split (port n) ok ih =
        let (a, b) =
          both_pass (fail_if (contains taken n) "the machine's listeners cannot share a port")
            (check_listeners read next (n ∷ taken) addrs) ok in
        let (ns, same, fresh, last) = ih n b in
        (n ∷ ns, (λ i. port n ∷ same i), (fail_if-false _ _ a, fresh), last)

contains-ports_after :
    (taken ns : List ℕ) (n : ℕ)
    → contains (ports_after taken ns) n ≡ (contains taken n || contains ns n)
contains-ports_after taken [] n = ground arith
contains-ports_after taken (m ∷ ns) n = ground (arith, contains-ports_after (m ∷ taken) ns n)

All-not_bound :
    (ns : List ℕ) (ss : List Service)
    → All (λ s. contains (ports_after [] ns) s.health_check.port ≡ false) ss
    → All (λ s. contains ns s.health_check.port ≡ false) ss
All-not_bound ns [] h = tt
All-not_bound ns (s ∷ ss) (here, rest) =
    (ground (arith, contains-ports_after [] ns s.health_check.port), All-not_bound ns ss rest)

-- What the builder accepts gives every listener of the machine its own port, probes no service on
-- one of these, probes no two services at one endpoint, and gives every file its own path.
pub validate_separates :
    (f : Parsers) (d : Descriptor)
    → validate f d ≡ none
    → ((ns : List ℕ) × (map (port_of f) (listeners d) ≡ map port ns)
        × IsDistinct ns
        × All (λ s. contains ns s.health_check.port ≡ false) d.services)
      × IsDistinct (map endpoint_of d.services)
      × IsDistinct (map (path_key f) (local_files d))
unfolding validate_endpoints validate_local_files
validate_separates f d ok =
    let a = validate-IsAccepted f d ok in
    let (_, later) =
      both_pass (validate_instance_endpoints f d.ip d.primary)
        (when_standby (validate_instance_endpoints f d.ip) d.standby
          <|> check_listeners (port_of f) (λ ports. check_probes ports [] d.services) []
              (listeners d))
        a.endpoints_pass in
    let (_, last) =
      both_pass (when_standby (validate_instance_endpoints f d.ip) d.standby)
        (check_listeners (port_of f) (λ ports. check_probes ports [] d.services) [] (listeners d))
        later in
    let (ns, same, fresh, probes) =
      check_listeners_fresh (port_of f) (λ ports. check_probes ports [] d.services) [] (listeners d)
        last in
    let (unbound, endpoints) = check_probes_fresh (ports_after [] ns) [] d.services probes in
    (
      (ns, same, FreshAfter-IsDistinct [] ns fresh, All-not_bound ns d.services unbound),
      FreshAfter-IsDistinct {A = Endpoint} [] (map endpoint_of d.services) endpoints,
      FreshAfter-IsDistinct {A = String} [] (map (path_key f) (local_files d))
          (check_files_fresh f [] (local_files d) a.files_pass),
    )
