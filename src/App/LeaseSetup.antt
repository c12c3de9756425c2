-- ===== src/App/LeaseSetup.antt =====
-- The lease that a process opens from a descriptor that the builder accepted (app/lease.go and
-- redundancy/lease.go).
use opdl.Base.{
  ℕ, ◌≡◌, refl, sym, ap, ◌⊎◌, inl, inr, Bool-cases, nat_eq, String, true, false, Option,
  Option-cases, none, some, arith, ◌==◌, string_eq, is_blank, eq_iff, leb,
}
use opdl.Redundancy.Role.{role_valid}
use opdl.Redundancy.Lease.{LeaseConfig, Lease, open_lease, opened}
use opdl.Redundancy.Exclusion.{fresh_lease}
use opdl.Deployment.Types.{Lease as LeaseBlock, Parsers, Descriptor, is_set, has_standby}
use opdl.Deployment.Health.{error_of, length_of, positive_duration, check_lease, validate_lease}
use opdl.Deployment.Builder.{validate, validate_lease_block, validate-IsAccepted}
use opdl.App.Setup.{ok, no_lease, parse_lease, lease_config_of}

blank_empty : is_blank "" ≡ true
unfolding is_blank
blank_empty = refl

pub ne_empty_of_nonblank : (s : String) → is_blank s ≡ false → (s == "") ≡ false
ne_empty_of_nonblank s h = elim (Bool-cases (s == "")) [
  | inl e ↦ absurd (ground (arith, ap is_blank ((eq_iff s "").0 e), blank_empty))
  | inr e ↦ e
]

-- What was read as a positive duration parses to it.
pub parses_positive :
    (f : Parsers) (text : String)
    → error_of (positive_duration f text) ≡ none
    → (n : ℕ) × (f.parse_duration text ≡ some n)
      × ((n == 0) ≡ false)
      × (length_of (positive_duration f text) ≡ n)
unfolding positive_duration
parses_positive f text h = elim (Option-cases (f.parse_duration text)) [
  | inl e ↦ absurd (ground arith)
  | inr (n, e) ↦ (n, e, ground arith, ground arith)
]

abbrev config_of : LeaseBlock → ℕ → ℕ → ℕ → ℕ → LeaseConfig
config_of l duration renewal health_check failback = record {
  file = l.file;
  duration = duration;
  renewal_interval = renewal;
  health_check_interval = health_check;
  failback_stabilization = failback;
}

parse_lease_lem :
    (f : Parsers) (l : LeaseBlock) (a b c g : ℕ)
    → f.parse_duration l.duration ≡ some a
    → f.parse_duration l.renewal_interval ≡ some b
    → f.parse_duration l.health_check_interval ≡ some c
    → f.parse_duration l.failback_stabilization ≡ some g
    → parse_lease f l ≡ ok (config_of l a b c g)
unfolding parse_lease
parse_lease_lem f l a b c g pa pb pc pg = ground arith

open_lease_opens :
    (cfg : LeaseConfig) (role : String) (pid : ℕ)
    → role_valid role ≡ true
    → (cfg.file == "") ≡ false
    → (cfg.duration == 0) ≡ false
    → (cfg.renewal_interval == 0) ≡ false
    → (cfg.health_check_interval == 0) ≡ false
    → leb cfg.duration cfg.renewal_interval ≡ false
    → open_lease cfg role true pid ≡ opened (some (fresh_lease cfg role pid))
unfolding open_lease
open_lease_opens cfg role pid valid named a b c shorter = ground arith

-- The checks of a lease, one by one.
check_lease_parts :
    (f : Parsers) (l : LeaseBlock)
    → check_lease f l ≡ none
    → (is_blank l.file ≡ false)
      × (error_of (positive_duration f l.duration) ≡ none)
      × (error_of (positive_duration f l.renewal_interval) ≡ none)
      × (error_of (positive_duration f l.health_check_interval) ≡ none)
      × (error_of (positive_duration f l.failback_stabilization) ≡ none)
      × (leb
            (length_of (positive_duration f l.duration))
            (length_of (positive_duration f l.renewal_interval))
          ≡ false)
check_lease_parts f l h = ground arith

-- Each instance of a machine that runs on a descriptor which the builder accepts can open its lease,
-- where the directory can be made: the handle of a lease if a standby is deployed, and none if not.
pub validate-open_lease :
    (f : Parsers) (d : Descriptor) (role : String) (pid : ℕ)
    → validate f d ≡ none
    → role_valid role ≡ true
    → (cfg : LeaseConfig) × (l : Option Lease) × (lease_config_of f d ≡ ok cfg)
      × (open_lease cfg role true pid ≡ opened l)
      × (is_set l ≡ has_standby d)
unfolding lease_config_of open_lease validate_lease_block has_standby validate_lease
validate-open_lease f d role pid accepted valid =
    opens (Option-cases d.lease) (validate-IsAccepted f d accepted).lease_passes
  where
    Opens : Type 0
    Opens =
        (cfg : LeaseConfig) × (l : Option Lease) × (lease_config_of f d ≡ ok cfg)
        × (open_lease cfg role true pid ≡ opened l)
        × (is_set l ≡ has_standby d)

    opens :
        (d.lease ≡ none) ⊎ ((l : LeaseBlock) × (d.lease ≡ some l))
        → validate_lease_block f d ≡ none
        → Opens
    opens (inl e) passes = (no_lease, none, ground arith, ground arith, ground arith)
    opens (inr (l, e)) passes =
        let standing : is_set d.standby ≡ true = ground arith in
        let checked : check_lease f l ≡ none = ground arith in
        let (named, ra, rb, rc, rg, shorter) = check_lease_parts f l checked in
        let (a, pa, za, la) = parses_positive f l.duration ra in
        let (b, pb, zb, lb) = parses_positive f l.renewal_interval rb in
        let (c, pc, zc, lc) = parses_positive f l.health_check_interval rc in
        let (g, pg, zg, lg) = parses_positive f l.failback_stabilization rg in
        (
          config_of l a b c g,
          some (fresh_lease (config_of l a b c g) role pid),
          rw e (parse_lease_lem f l a b c g pa pb pc pg),
          open_lease_opens (config_of l a b c g) role pid valid (ne_empty_of_nonblank l.file named)
              za zb zc (rw (la, lb) at shorter),
          sym standing,
        )
