-- ===== src/Deployment/Platform.antt =====
-- `validateHealth` of platform/config/deployment.go: what the platform checks of the descriptor that
-- was embedded in it, before it runs on it.
use opdl.Base.{
  String, Bool, not, ◌||◌, ◌&&◌, List, [], ◌∷◌, Option, ltb, ◌==◌, nat_eq, string_eq, contains,
  is_blank, trim_space, lookup, Error, fail_if, ◌<|>◌, check_each, if◌then◌else◌,
}
use opdl.HealthView.Inventory.{UnitKey, key_eq}
use opdl.Deployment.Types.{SiteService, Descriptor, Parsers}
use opdl.Deployment.Health.{Duration, positive, unusable, validate_check}
use opdl.Deployment.Services.{
  is_none_listed, check_services, check_unit, unit_key, Seen, Machines, note_machine, hosted_names,
  check_hosted,
}
use opdl.Deployment.Endpoints.{
  Port, port, no_port, port_part, listeners, check_listeners, check_probes,
}

-- `validatePositiveDescriptorDuration`.
unfoldable pub positive_descriptor_duration : Parsers → String → Duration
positive_descriptor_duration f value =
    if is_blank value
    then unusable "is required"
    else positive (f.parse_duration (trim_space value))

abbrev usable : Port → Port
usable (no_port e) = no_port e
usable (port n) = if ltb n 1 || ltb 65535 n then no_port "has no usable port" else port n

unfoldable pub usable_port : Parsers → String → Port
usable_port f addr = usable (port_part f (f.split_host_port (trim_space addr)))

-- `validateServiceProbeEndpoints`, of the platform.
unfoldable pub check_probe_endpoints : Parsers → Descriptor → Option Error
unfolding check_listeners usable_port check_probes
check_probe_endpoints f d =
    check_listeners (usable_port f) (λ ports. check_probes ports [] d.services) [] (listeners d)

-- The key of an entry of this machine must be a hosted service's.
abbrev pub is_local : Descriptor → UnitKey → Bool
is_local d key = key.machine == trim_space d.machine

abbrev pub is_hosted : Descriptor → UnitKey → Bool
is_hosted d key = (key.machine == trim_space d.machine) && contains (hosted_names d) key.service

abbrev pub add_local : Descriptor → SiteService → Seen → Seen
add_local d u local = if is_local d (unit_key u) then (unit_key u, u) ∷ local else local

-- The loop of `validateSiteServices`, of the platform, and the `validateHostedServicesAreListed`
-- that ends it. It keeps the entries of this machine.
unfoldable pub check_platform_site :
    Parsers
    → Descriptor
    → (seen : List UnitKey) → Machines
    → (local : Seen) → List SiteService
    → Option Error
unfolding check_unit check_hosted positive_descriptor_duration
check_platform_site f d seen machines local [] = check_each (check_hosted f d local) d.services
check_platform_site f d seen machines local (u ∷ us) =
    check_unit (positive_descriptor_duration f) (contains seen (unit_key u))
      (lookup (trim_space u.machine) machines) u
    <|> fail_if (is_local d (unit_key u) && not (is_hosted d (unit_key u)))
        "names a service this machine does not host"
    <|> check_platform_site f d (unit_key u ∷ seen) (note_machine u machines) (add_local d u local)
        us

-- `validateHealth`.
unfoldable pub validate_health : Parsers → Descriptor → Option Error
unfolding check_services validate_check check_probe_endpoints check_platform_site
validate_health f d =
    fail_if (is_none_listed d.services) "services is required"
    <|> fail_if (is_none_listed d.site_services) "site_services is required"
    <|> check_services (validate_check (positive_descriptor_duration f) f) [] d.services
    <|> check_probe_endpoints f d
    <|> check_platform_site f d [] [] [] d.site_services
