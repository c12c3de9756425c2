-- ===== src/Resolve/ProjectChecks.antt =====
-- builder/internal/blueprint/project.go and site.go: what Validate asks of a project.
use opdl.Base.{
  String, Bool, true, false, not, List, [], ◌∷◌, Option, none, some, ◌==◌, string_eq, contains,
  is_blank, trim_space, Error, fail_if, ◌<|>◌,
}
use opdl.Deployment.Types.{Parsers}
use opdl.Resolve.Blueprint.{Machine, Site, Project, cluster_name}
use opdl.Resolve.MachineChecks.{check_machine}

abbrev check_cluster : Option String → Option Error
check_cluster none = some "nats block is required"
check_cluster (some name) =
    fail_if (is_blank name) "nats.cluster_name is required"
    <|> fail_if (not (name == trim_space name)) "nats.cluster_name must not have outer white space"

-- `validateSiteNATS`.
unfoldable pub check_site_nats : Site → Option Error
check_site_nats s = check_cluster s.cluster

-- The maps of `Validate`: the names of the sites, the clusters and the machines, and the machines'
-- addresses, each as the list of its keys.
pub record Taken : Type 0 where
  pub sites : List String
  pub clusters : List String
  pub machines : List String
  pub ips : List String

-- The loop over a site's machines, and what follows it.
unfoldable pub check_machines :
    Parsers → (Taken → Option Error) → Taken → List Machine → Option Error
unfolding check_machine
check_machines f next t [] = next t
check_machines f next t (m ∷ ms) =
    check_machine f t.machines m
    <|> fail_if (contains t.ips m.ip) "two machines share an ip"
    <|> check_machines f next (record t { machines = m.name ∷ t.machines; ips = m.ip ∷ t.ips }) ms

abbrev pub with_site : Site → Taken → Taken
with_site s t = record t { sites = s.name ∷ t.sites; clusters = cluster_name s ∷ t.clusters }

-- The loop over the sites.
unfoldable pub check_sites : Parsers → Taken → List Site → Option Error
unfolding check_machines check_site_nats cluster_name
check_sites f t [] = none
check_sites f t (s ∷ ss) =
    fail_if (is_blank s.name) "site with empty name"
    <|> fail_if (contains t.sites s.name) "duplicate site"
    <|> check_site_nats s
    <|> fail_if (contains t.clusters (cluster_name s)) "each site forms its own cluster"
    <|> check_machines f (λ t'. check_sites f t' ss) (with_site s t) s.machines

abbrev pub none_taken : Taken
none_taken = record { sites = []; clusters = []; machines = []; ips = [] }

abbrev no_sites : List Site → Bool
no_sites [] = true
no_sites (s ∷ ss) = false

-- `Project.Validate`.
unfoldable pub validate_project : Parsers → Project → Option Error
unfolding check_sites
validate_project f p =
    fail_if (is_blank p.name) "name is required"
    <|> fail_if (is_blank p.environment) "environment is required"
    <|> fail_if (no_sites p.sites) "at least one site is required"
    <|> check_sites f none_taken p.sites
