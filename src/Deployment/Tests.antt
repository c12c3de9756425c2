-- ===== src/Deployment/Tests.antt =====
-- The checks of a descriptor at a concrete one.
use opdl.Base.{◌≡◌, ℕ, false, map, List, All, IsDistinct, contains, string_eq, nat_eq}
use opdl.Deployment.Endpoints.{
  port, port_of, listeners, endpoint_of, endpoint_eq, path_key, local_files,
}
use opdl.Deployment.Separation.{validate_separates}
use opdl.Deployment.Sample.{parsers, descriptor, alpha_accepted}

validate_separates_example :
    let d = descriptor "alpha" in
    ((ns : List ℕ) × (map (port_of parsers) (listeners d) ≡ map port ns)
      × IsDistinct ns
      × All (λ s. contains ns s.health_check.port ≡ false) d.services)
    × IsDistinct (map endpoint_of d.services)
    × IsDistinct (map (path_key parsers) (local_files d))
validate_separates_example = validate_separates parsers (descriptor "alpha") alpha_accepted
