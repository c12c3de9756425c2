-- ===== src/Deployment/Services.antt =====
-- The hosted services and the site's inventory in builder/deployment/deployment.go. A Go map that is
-- only asked whether it holds a key is the list of its keys.
use opdl.Base.{
  ℕ, String, Bool, true, false, not, ◌||◌, ◌&&◌, List, [], ◌∷◌, map, Option, none, some, ltb, ◌==◌,
  nat_eq, string_eq, contains, is_blank, trim_space, lookup, Error, fail_if, ◌<|>◌, check_each,
  length, if◌then◌else◌,
}
use opdl.HealthView.Inventory.{UnitKey, key_eq}
use opdl.Resolve.Descriptor.{Fresh, fresh, not_fresh}
use opdl.Deployment.Types.{
  role_primary, role_standby, HealthCheck, Service, SiteService, Descriptor, is_set, Parsers,
  texts_eq,
}
use opdl.Deployment.Health.{
  Duration, error_of, positive_duration, service_roles, validate_check, fresh_for_of,
}

abbrev pub primary_only : List String
primary_only = role_primary ∷ []

abbrev pub observer_roles : List String
observer_roles = role_primary ∷ role_standby ∷ []

abbrev pub is_none_listed {ℓ} : {A : Type ℓ} → List A → Bool
is_none_listed [] = true
is_none_listed (x ∷ xs) = false

-- One round of the loop of `validateHostedServices`; `named` are the services so far.
unfoldable pub check_service :
    (check : HealthCheck → Option Error) → (named : List String) → Service → Option Error
check_service check named s =
    fail_if (is_blank s.name) "a service has no name"
    <|> fail_if (not (s.name == trim_space s.name)) "name must not have outer white space"
    <|> fail_if (contains named (trim_space s.name)) "service is hosted more than once"
    <|> fail_if (not (contains service_roles s.role)) "role is not a known role"
    <|> check s.health_check

unfoldable pub check_services :
    (check : HealthCheck → Option Error) → (named : List String) → List Service → Option Error
unfolding check_service
check_services check named [] = none
check_services check named (s ∷ ss) =
    check_service check named s <|> check_services check (trim_space s.name ∷ named) ss

-- `validateHostedServices`.
unfoldable pub validate_hosted_services : Parsers → Descriptor → Option Error
unfolding check_services validate_check positive_duration
validate_hosted_services f d =
    fail_if (is_none_listed d.services) "at least one service is required"
    <|> check_services (validate_check (positive_duration f) f) [] d.services

-- `validateObserverRoles`.
unfoldable pub validate_observer_roles : List String → Option Error
validate_observer_roles roles =
    fail_if (is_none_listed roles) "observer_roles is required"
    <|> fail_if (ltb 2 (length roles)) "a machine deploys at most two instances"
    <|> fail_if (not ((roles == primary_only) || (roles == observer_roles))) "the order is fixed"

-- `siteMachine`.
pub record SiteMachine : Type 0 where
  pub profile : String
  pub observer_roles : List String

abbrev pub policy_of : SiteService → SiteMachine
policy_of u = record { profile = trim_space u.machine_profile; observer_roles = u.observer_roles }

abbrev pub agrees : Option SiteMachine → SiteMachine → Option Error
agrees none policy = none
agrees (some previous) policy =
    fail_if
      (not (previous.profile == policy.profile)
        || not (previous.observer_roles == policy.observer_roles))
      "disagrees with another service on its machine"

abbrev pub unit_key : SiteService → UnitKey
unit_key u = record { machine = trim_space u.machine; service = trim_space u.service }

-- One round of the loops over the inventory in `validateSiteServices`: the checks of one entry.
unfoldable pub check_unit :
    (read : String → Duration) → (is_seen : Bool) → Option SiteMachine → SiteService → Option Error
unfolding validate_observer_roles
check_unit read is_seen previous u =
    fail_if (is_blank u.machine || is_blank u.service) "an entry has no machine or no service"
    <|> fail_if (not (u.machine == trim_space u.machine)) "machine must not have outer white space"
    <|> fail_if (not (u.service == trim_space u.service)) "service must not have outer white space"
    <|> fail_if (not (contains service_roles u.service_role)) "service_role is not a known role"
    <|> fail_if is_seen "unit is listed more than once"
    <|> fail_if (is_blank u.machine_profile) "machine_profile is required"
    <|> fail_if (not (u.machine_profile == trim_space u.machine_profile))
        "machine_profile must not have outer white space"
    <|> validate_observer_roles u.observer_roles
    <|> error_of (read u.fresh_for)
    <|> agrees previous (policy_of u)

-- What the loop keeps: the entries by their keys, and each machine's policy. Either map is written
-- at a new key only, at its head here.
abbrev pub Seen : Type 0
Seen = List (UnitKey × SiteService)

abbrev pub Machines : Type 0
Machines = List (String × SiteMachine)

abbrev pub note_machine : SiteService → Machines → Machines
note_machine u machines =
    if is_set (lookup (trim_space u.machine) machines)
    then machines
    else (trim_space u.machine, policy_of u) ∷ machines

-- A hosted service's name, by which an entry of this machine must be hosted.
abbrev pub hosted_names : Descriptor → List String
hosted_names d = map (λ s. trim_space s.name) d.services

unfoldable pub check_listed : Descriptor → UnitKey × SiteService → Option Error
check_listed d (key, u) =
    fail_if ((key.machine == trim_space d.machine) && not (contains (hosted_names d) key.service))
      "names a service this machine does not host"

abbrev pub wanted_roles : Descriptor → List String
wanted_roles d = if is_set d.standby then observer_roles else primary_only

abbrev pub check_fresh : Fresh → Option ℕ → Option Error
check_fresh (not_fresh e) stated = some "health_check derives no freshness"
check_fresh (fresh n) none = some "fresh_for is not a valid duration"
check_fresh (fresh n) (some m) =
    fail_if (not (m == n)) "fresh_for is not what its probe policy derives"

abbrev pub matches_unit : Parsers → Descriptor → Service → Option SiteService → Option Error
matches_unit f d s none = some "service has no site_services entry"
matches_unit f d s (some u) =
    fail_if (not (u.service_role == s.role)) "one service plays one part"
    <|> fail_if (not (u.machine_profile == trim_space d.machine_profile))
        "machine_profile is not this machine's profile"
    <|> fail_if (not (u.observer_roles == wanted_roles d))
        "both of a machine's instances probe every service on it"
    <|> check_fresh (fresh_for_of f s.health_check) (f.parse_duration (trim_space u.fresh_for))

-- The second loop of `validateHostedServicesAreListed`.
unfoldable pub check_hosted : Parsers → Descriptor → Seen → Service → Option Error
unfolding fresh_for_of
check_hosted f d listed s =
    matches_unit f d s
      (lookup (record { machine = trim_space d.machine; service = trim_space s.name }) listed)

-- `validateHostedServicesAreListed`. The order in which Go ranges over the map decides only which
-- error is returned.
unfoldable pub validate_hosted_are_listed : Parsers → Descriptor → Seen → Option Error
unfolding check_listed check_hosted
validate_hosted_are_listed f d listed =
    check_each (check_listed d) listed <|> check_each (check_hosted f d listed) d.services

unfoldable pub check_site : Parsers → Descriptor → Seen → Machines → List SiteService → Option Error
unfolding check_unit validate_hosted_are_listed positive_duration
check_site f d seen machines [] = validate_hosted_are_listed f d seen
check_site f d seen machines (u ∷ us) =
    check_unit (positive_duration f) (is_set (lookup (unit_key u) seen))
      (lookup (trim_space u.machine) machines) u
    <|> check_site f d ((unit_key u, u) ∷ seen) (note_machine u machines) us

-- `validateSiteServices`.
unfoldable pub validate_site_services : Parsers → Descriptor → Option Error
unfolding check_site
validate_site_services f d =
    fail_if (is_none_listed d.site_services) "site_services is required"
    <|> check_site f d [] [] d.site_services
