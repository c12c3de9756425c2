-- ===== src/App/Targets.antt =====
-- The probe targets of a descriptor that the builder accepted (`healthTargets` of app/servicehealth.go
-- against `HealthCheck.validate` of builder/deployment/deployment.go).
use opdl.Base.{
  ℕ, ◌≡◌, refl, String, true, List, [], ◌∷◌, Option-cases, inl, inr, none, some, arith, ◌==◌,
  string_eq, eq_iff, trim_space, starts_with_slash, both_pass, fail_if,
}
use opdl.ServiceHealth.Target.{Url, Target}
use opdl.Deployment.Types.{Parsers, HealthCheck, Service, Descriptor}
use opdl.Deployment.Health.{
  error_of, positive_duration, probe_type_http, validate_target, validate_check,
}
use opdl.Deployment.Services.{
  check_service, check_services, validate_hosted_services, is_none_listed,
}
use opdl.Deployment.Builder.{validate, validate_fields, validate-IsAccepted}
use opdl.Deployment.Reading.{ReadsTrimmed}
use opdl.App.Setup.{
  ok, compose_each, probe_host, probe_text, health_url, health_target, health_targets,
}
use opdl.App.LeaseSetup.{parses_positive}

-- What net.ParseIP reads has no outer white space, and where url.Parse reads a path from / on, without
-- scheme and host, it also reads that path behind http:// and the address and port that
-- net.JoinHostPort joins, and finds them there.
pub record ReadsProbes (f : Parsers) : Type 0 where
  pub ips : (text ip : String) → f.parse_ip text ≡ some ip → trim_space text ≡ text
  pub urls :
      (text ip path : String) (port : ℕ) (target : Url)
      → f.parse_ip text ≡ some ip
      → f.parse_url path ≡ some target
      → target.scheme ≡ ""
      → target.host ≡ ""
      → starts_with_slash path ≡ true
      → let host = f.join_host_port text port in
        (u : Url) × (f.parse_url (probe_text host path) ≡ some u)
        × (u.scheme ≡ probe_type_http)
        × (u.host ≡ host)

module _ (f : Parsers) (trimmed : ReadsTrimmed f) (probes : ReadsProbes f) where
  target_read :
      (target : String)
      → validate_target f target ≡ none
      → (u : Url) × (f.parse_url target ≡ some u)
        × (u.scheme ≡ "")
        × (u.host ≡ "")
        × (starts_with_slash target ≡ true)
  unfolding validate_target
  target_read target h = elim (Option-cases (f.parse_url target)) [
    | inl e ↦ absurd (ground arith)
    | inr (u, e) ↦
        (u, e, ground (arith, eq_iff u.scheme ""), ground (arith, eq_iff u.host ""), ground arith)
  ]

  health_url-ok :
      (ip addr : String) (check : HealthCheck)
      → f.parse_ip ip ≡ some addr
      → (check.kind == probe_type_http) ≡ true
      → validate_target f check.path ≡ none
      → (url : String) × (health_url f ip check ≡ ok url)
  unfolding health_url
  health_url-ok ip addr check reads kind target =
      let same = probes.ips ip addr reads in
      let (t, parsed, scheme, host, slash) = target_read check.path target in
      let (u, found, http, at) =
        probes.urls ip addr check.path check.port t reads parsed scheme host slash in
      (
        probe_text (probe_host f ip check) check.path,
        rw same (
            ground (
              arith,
              eq_iff u.scheme probe_type_http,
              eq_iff u.host (f.join_host_port ip check.port),
            )),
      )

  check_parts :
      (check : HealthCheck)
      → validate_check (positive_duration f) f check ≡ none
      → ((check.kind == probe_type_http) ≡ true)
        × (validate_target f check.path ≡ none)
        × (error_of (positive_duration f check.interval) ≡ none)
        × (error_of (positive_duration f check.timeout) ≡ none)
  unfolding validate_check
  check_parts check h = ground arith

  health_target-ok :
      (ip addr : String) (s : Service)
      → f.parse_ip ip ≡ some addr
      → validate_check (positive_duration f) f s.health_check ≡ none
      → (t : Target) × (health_target f ip s ≡ ok t)
  unfolding health_target
  health_target-ok ip addr s reads accepted =
      let (kind, target, interval, timeout) = check_parts s.health_check accepted in
      let (a, pa, za, la) = parses_positive f s.health_check.interval interval in
      let (b, pb, zb, lb) = parses_positive f s.health_check.timeout timeout in
      let (url, made) = health_url-ok ip addr s.health_check reads kind target in
      let ta = trimmed.durations s.health_check.interval a pa in
      let tb = trimmed.durations s.health_check.timeout b pb in
      (
        record {
          service = s.name;
          role = s.role;
          url = url;
          interval = a;
          timeout = b;
          retries = s.health_check.retries;
        },
        rw (ta, tb, pa, pb, made) refl,
      )

  health_targets-each :
      (ip addr : String) (named : List String) (ss : List Service)
      → f.parse_ip ip ≡ some addr
      → check_services (validate_check (positive_duration f) f) named ss ≡ none
      → (ts : List Target) × (compose_each (health_target f ip) ss ≡ ok ts)
  unfolding check_services check_service
  health_targets-each ip addr named [] reads h = ([], refl)
  health_targets-each ip addr named (s ∷ ss) reads h =
      let check = validate_check (positive_duration f) f in
      let (here, rest) =
        both_pass (check_service check named s)
          (check_services check (trim_space s.name ∷ named) ss) h in
      let passes : check s.health_check ≡ none = ground arith in
      let (t, made) = health_target-ok ip addr s reads passes in
      let (ts, more) = health_targets-each ip addr (trim_space s.name ∷ named) ss reads rest in
      (t ∷ ts, rw (made, more) refl)

  -- The process composes a probe target for each service of a descriptor that the builder accepts.
  pub validate-health_targets :
      (d : Descriptor) → validate f d ≡ none → (ts : List Target) × (health_targets f d ≡ ok ts)
  unfolding health_targets validate_fields validate_hosted_services
  validate-health_targets d accepted =
      let parts = validate-IsAccepted f d accepted in
      let fields = parts.fields_pass in
      let (_, services) =
        both_pass (fail_if (is_none_listed d.services) "at least one service is required")
          (check_services (validate_check (positive_duration f) f) [] d.services)
          parts.hosted_pass in
      elim (Option-cases (f.parse_ip d.ip)) [
        | inl e ↦ absurd (ground arith)
        | inr (addr, e) ↦ health_targets-each d.ip addr [] d.services e services
      ]
