-- ===== src/Deployment/Agreement.antt =====
-- The platform's health checks accept what the builder accepts: `validateHealth` of
-- platform/config/deployment.go against `Descriptor.Validate` of builder/deployment/deployment.go.
use opdl.Base.{
  ◌≡◌, refl, ap, ◌∙◌, inl, inr, String, Bool, not, ◌&&◌, List, [], ◌∷◌, Option, Option-cases, none,
  arith, eq_iff, string_eq, contains, lookup, trim_space, All, Error, fail_if, check_each,
  both_pass, pass_both, check_each-All, if◌then◌else◌,
}
use opdl.HealthView.Inventory.{UnitKey, key_eq}
use opdl.Deployment.Types.{Parsers, Service, SiteService, Descriptor, is_set}
use opdl.Deployment.Health.{positive_duration, validate_check}
use opdl.Deployment.Services.{
  check_services, is_none_listed, SiteMachine, check_unit, unit_key, Seen, Machines, note_machine,
  check_listed, check_hosted, matches_unit, validate_hosted_are_listed, check_site,
  validate_hosted_services, validate_site_services,
}
use opdl.Deployment.Endpoints.{
  listeners, validate_instance_endpoints, validate_endpoints, when_standby, port_of,
}
use opdl.Deployment.Builder.{validate, validate-IsAccepted}
use opdl.Deployment.Platform.{
  positive_descriptor_duration, usable_port, check_probe_endpoints, is_local, is_hosted,
  check_platform_site, validate_health,
}
use opdl.Deployment.Reading.{
  ReadsTrimmed, read_duration, check_services_platform, instance_reads, check_listeners_cong,
}

-- The keys that the builder has seen, and the entries among them that are this machine's.
abbrev keys_of : Seen → List UnitKey
keys_of [] = []
keys_of ((k, u) ∷ rest) = k ∷ keys_of rest

abbrev local_of : Descriptor → Seen → Seen
local_of d [] = []
local_of d ((k, u) ∷ rest) =
    let tail = local_of d rest in if is_local d k then (k, u) ∷ tail else tail

contains-keys_of : (seen : Seen) (k : UnitKey) → contains (keys_of seen) k ≡ is_set (lookup k seen)
unfolding lookup
contains-keys_of [] k = refl
contains-keys_of ((j, u) ∷ rest) k = ground (arith, contains-keys_of rest k)

lookup-local_of :
    (d : Descriptor) (seen : Seen) (service : String)
    → let k : UnitKey = record { machine = trim_space d.machine; service = service } in
      lookup k (local_of d seen) ≡ lookup k seen
unfolding lookup
lookup-local_of d [] service = refl
lookup-local_of d ((j, u) ∷ rest) service =
    ground (arith, eq_iff j.machine (trim_space d.machine), lookup-local_of d rest service)

same_test : (b : Bool) (e e' : Error) → fail_if b e ≡ none → fail_if b e' ≡ none
same_test b e e' h = ground arith

module _ (f : Parsers) (laws : ReadsTrimmed f) where
  check_unit_platform :
      (is_seen : Bool) (previous : Option SiteMachine) (u : SiteService)
      → check_unit (positive_duration f) is_seen previous u ≡ none
      → check_unit (positive_descriptor_duration f) is_seen previous u ≡ none
  unfolding check_unit
  check_unit_platform is_seen previous u ok = ground (arith, read_duration f laws u.fresh_for)

  module _ (d : Descriptor) where
    check_hosted_local :
        (seen : Seen) (ss : List Service)
        → check_each (check_hosted f d seen) ss ≡ none
        → check_each (check_hosted f d (local_of d seen)) ss ≡ none
    unfolding check_hosted
    check_hosted_local seen [] ok = refl
    check_hosted_local seen (s ∷ ss) ok =
        let (here, rest) = both_pass _ _ ok in
        pass_both _ _ (ap (matches_unit f d s) (lookup-local_of d seen (trim_space s.name)) ∙ here)
          (check_hosted_local seen ss rest)

    -- What the builder has accepted to the end, it has checked the entries seen on the way of.
    check_site_listed :
        (seen : Seen) (machines : Machines) (us : List SiteService)
        → check_site f d seen machines us ≡ none
        → All (λ e. check_listed d e ≡ none) seen
    unfolding check_site validate_hosted_are_listed
    check_site_listed seen machines [] ok =
        check_each-All (check_listed d) seen (both_pass _ _ ok).0
    check_site_listed seen machines (u ∷ us) ok =
        (check_site_listed ((unit_key u, u) ∷ seen) (note_machine u machines) us
          (both_pass _ _ ok).1).1

    check_site_listed_first :
        (seen : Seen) (machines : Machines) (u : SiteService) (us : List SiteService)
        → check_site f d ((unit_key u, u) ∷ seen) machines us ≡ none
        → fail_if
            (is_local d (unit_key u) && not (is_hosted d (unit_key u)))
            "names a service this machine does not host"
          ≡ none
    unfolding check_listed
    check_site_listed_first seen machines u us ok =
        let here = (check_site_listed ((unit_key u, u) ∷ seen) machines us ok).0 in ground arith

    check_site_platform :
        (seen : Seen) (machines : Machines) (us : List SiteService)
        → check_site f d seen machines us ≡ none
        → check_platform_site f d (keys_of seen) machines (local_of d seen) us ≡ none
    unfolding check_site check_platform_site validate_hosted_are_listed
    check_site_platform seen machines [] ok =
        check_hosted_local seen d.services (both_pass _ _ ok).1
    check_site_platform seen machines (u ∷ us) ok =
        let (here, rest) = both_pass _ _ ok in
        pass_both _ _
          (rw (contains-keys_of seen (unit_key u)) (
            check_unit_platform (is_set (lookup (unit_key u) seen))
              (lookup (trim_space u.machine) machines) u here))
          (pass_both _ _ (check_site_listed_first seen (note_machine u machines) u us rest)
            (check_site_platform ((unit_key u, u) ∷ seen) (note_machine u machines) us rest))

    listeners_read :
        validate_instance_endpoints f d.ip d.primary ≡ none
        → when_standby (validate_instance_endpoints f d.ip) d.standby ≡ none
        → All (λ a. usable_port f a ≡ port_of f a) (listeners d)
    listeners_read first second = elim (Option-cases d.standby) [
      | inl e ↦ rw e (instance_reads f laws d.ip d.primary first)
      | inr (i, e) ↦
          let (a, (b, _)) = instance_reads f laws d.ip d.primary first in
          rw e (a, (b, instance_reads f laws d.ip i (rw e at second)))
    ]

    check_probe_endpoints_platform :
        validate_endpoints f d ≡ none → check_probe_endpoints f d ≡ none
    unfolding validate_endpoints check_probe_endpoints
    check_probe_endpoints_platform ok =
        let (first, later) = both_pass _ _ ok in
        let (second, last) = both_pass _ _ later in
        check_listeners_cong (usable_port f) (port_of f) _ [] (listeners d)
          (listeners_read first second)
        ∙ last

    -- The platform's checks of a decoded descriptor's health contract pass for what the builder
    -- accepts, if what time.ParseDuration and net.SplitHostPort read has no outer white space.
    pub validate-validate_health : validate f d ≡ none → validate_health f d ≡ none
    unfolding validate_health validate_hosted_services validate_site_services
    validate-validate_health ok =
        let a = validate-IsAccepted f d ok in
        let (some_service, services) =
          both_pass (fail_if (is_none_listed d.services) "at least one service is required")
            (check_services (validate_check (positive_duration f) f) [] d.services) a.hosted_pass in
        let (some_unit, units) =
          both_pass (fail_if (is_none_listed d.site_services) "site_services is required")
            (check_site f d [] [] d.site_services) a.site_passes in
        pass_both _ _ (same_test _ _ _ some_service) (
          pass_both _ _ some_unit (
            pass_both _ _ (check_services_platform f laws [] d.services services) (
              pass_both _ _ (check_probe_endpoints_platform a.endpoints_pass)
                (check_site_platform [] [] d.site_services units))))
