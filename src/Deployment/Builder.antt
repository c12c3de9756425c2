-- ===== src/Deployment/Builder.antt =====
-- `Descriptor.Validate` of builder/deployment/deployment.go.
use opdl.Base.{◌≡◌, arith, Option, none, not, Error, fail_if, ◌<|>◌, is_blank, if◌then◌else◌}
use opdl.Deployment.Types.{Descriptor, Parsers, is_set, has_standby}
use opdl.Deployment.Health.{validate_lease}
use opdl.Deployment.Services.{validate_hosted_services, validate_site_services}
use opdl.Deployment.Endpoints.{validate_services, validate_endpoints, validate_local_files}

-- The first checks, on the fields by themselves.
unfoldable pub validate_fields : Parsers → Descriptor → Option Error
validate_fields f d =
    fail_if (is_blank d.platform) "platform is required"
    <|> fail_if (is_blank d.project) "project is required"
    <|> fail_if (is_blank d.environment) "environment is required"
    <|> fail_if (is_blank d.site) "site is required"
    <|> fail_if (is_blank d.machine) "machine is required"
    <|> fail_if (is_blank d.machine_profile) "machine profile is required"
    <|> fail_if (not (is_set (f.parse_ip d.ip))) "ip is not a valid IP address"
    <|> fail_if (is_blank d.machine_events_file) "machine_events_file is required"

unfoldable pub validate_lease_block : Parsers → Descriptor → Option Error
unfolding has_standby
validate_lease_block f d =
    if has_standby d
    then validate_lease f d.lease
    else fail_if (is_set d.lease) "lease is set but no standby is deployed"

unfoldable pub validate : Parsers → Descriptor → Option Error
validate f d =
    validate_fields f d
    <|> validate_lease_block f d
    <|> validate_hosted_services f d
    <|> validate_site_services f d
    <|> validate_services d
    <|> validate_endpoints f d
    <|> validate_local_files f d

-- What passed, check by check.
pub record IsAccepted (f : Parsers) (d : Descriptor) : Type 0 where
  pub fields_pass : validate_fields f d ≡ none
  pub lease_passes : validate_lease_block f d ≡ none
  pub hosted_pass : validate_hosted_services f d ≡ none
  pub site_passes : validate_site_services f d ≡ none
  pub services_pass : validate_services d ≡ none
  pub endpoints_pass : validate_endpoints f d ≡ none
  pub files_pass : validate_local_files f d ≡ none

pub validate-IsAccepted : (f : Parsers) (d : Descriptor) → validate f d ≡ none → IsAccepted f d
unfolding validate
validate-IsAccepted f d ok = ground arith
