-- ===== src/Resolve/Plan.antt =====
-- What the machines of a plan can rely on (resolve.go, with the checks and the set-up of the platform).
use opdl.Base.{
  contains, string_eq, FreshAfter, IsDistinct, FreshAfter-IsDistinct, both_pass, ◌++◌, false,
  Option-cases, inl, inr, ℕ, ◌≡◌, refl, sym, subst, ap, String, true, List, [], ◌∷◌, map, Option,
  none, some, arith, All, Error,
}
use opdl.HealthView.Inventory.{ServiceUnit}
use opdl.HealthView.View.{View, new_view, built}
use opdl.Redundancy.Role.{role_valid}
use opdl.Redundancy.Lease.{LeaseConfig, Lease, open_lease, opened}
use opdl.Deployment.Types.{Parsers, Descriptor, is_set, has_standby}
use opdl.Deployment.Builder.{validate}
use opdl.Deployment.Reading.{ReadsTrimmed}
use opdl.ServiceHealth.Target.{Target}
use opdl.Deployment.Decoding.{Codec, decoded, unmarshal}
use opdl.Deployment.Document.{Encoder, ReadsBack}
use opdl.Deployment.Written.{validate-unmarshal}
use opdl.App.Targets.{ReadsProbes, validate-health_targets}
use opdl.Resolve.Blueprint.{Machine, Site, Project}
use opdl.Resolve.Descriptor.{Formats, Inventory, inventory, no_inventory, site_services}
use opdl.Resolve.MachineChecks.{check_machine}
use opdl.Resolve.ProjectChecks.{
  Taken, with_site, none_taken, check_machines, check_sites, validate_project,
}
use opdl.Resolve.Build.{descriptor_with, descriptor, if_valid, plan_machine, places_of, build}
use opdl.App.Setup.{
  Composed, ok, fails, compose_each, lease_config_of, health_inventory, health_targets,
  deployment_of,
}
use opdl.App.LeaseSetup.{validate-open_lease}
use opdl.App.ViewSetup.{accepted_builds, Builds-new_view}

module _ {A B : Type 0} (g : A → Composed B) where
  compose_each-cons :
      (x : A) (xs : List A) (zs : List B)
      → compose_each g (x ∷ xs) ≡ ok zs
      → (y : B) × (ys : List B) × (g x ≡ ok y) × (compose_each g xs ≡ ok ys) × ((y ∷ ys) ≡ zs)
  compose_each-cons x xs zs h = split (g x) (compose_each g xs) refl refl
    where
      split :
          (here : Composed B) (rest : Composed (List B))
          → g x ≡ here
          → compose_each g xs ≡ rest
          → (y : B) × (ys : List B) × (g x ≡ ok y) × (compose_each g xs ≡ ok ys) × ((y ∷ ys) ≡ zs)
      split (fails e) rest a b = absurd (ground arith)
      split (ok y) (fails e) a b = absurd (ground arith)
      split (ok y) (ok ys) a b = (y, ys, a, b, ground arith)

  -- What each element's result satisfies, all do.
  All-compose_each :
      (Q : B → Type 0)
      → ((x : A) (y : B) → g x ≡ ok y → Q y)
      → (xs : List A) (ys : List B) → compose_each g xs ≡ ok ys
      → All Q ys
  All-compose_each Q each [] [] h = tt
  All-compose_each Q each [] (y ∷ ys) h = absurd (ground arith)
  All-compose_each Q each (x ∷ xs) zs h =
      let (y, ys, here, rest, same) = compose_each-cons x xs zs h in
      subst (All Q) same (each x y here, All-compose_each Q each xs ys rest)

  map-compose_each :
      {C : Type 0} (k : B → C) (k' : A → C)
      → ((x : A) (y : B) → g x ≡ ok y → k y ≡ k' x)
      → (xs : List A) (ys : List B) → compose_each g xs ≡ ok ys
      → map k ys ≡ map k' xs
  map-compose_each k k' each [] [] h = refl
  map-compose_each k k' each [] (y ∷ ys) h = absurd (ground arith)
  map-compose_each k k' each (x ∷ xs) zs h =
      let (y, ys, here, rest, same) = compose_each-cons x xs zs h in
      subst (λ l. map k l ≡ map k' (x ∷ xs)) same
        (rw (each x y here, map-compose_each k k' each xs ys rest) refl)

abbrev pub place_of : Descriptor → String × String
place_of d = (d.site, d.machine)

abbrev pub place_named : Site × Machine → String × String
place_named (s, m) = (s.name, m.name)

abbrev descriptor_in : Descriptor → Composed Descriptor → Descriptor
descriptor_in d (ok e) = e
descriptor_in d (fails e) = d

-- What a process needs of its descriptor: the platform decodes the document that the builder writes of
-- it, each instance can open its lease, the process composes a probe target for each service, and it
-- builds the view of the site's inventory.
abbrev pub IsBootable : {Raw : Type 0} → Codec Raw → Encoder Raw → Parsers → Descriptor → Type 0
IsBootable c e f d =
    (unmarshal c f (e.descriptor_raw d) ≡ decoded d)
    × ((role : String) (pid : ℕ)
        → role_valid role ≡ true
        → (cfg : LeaseConfig) × (l : Option Lease) × (lease_config_of f d ≡ ok cfg)
          × (open_lease cfg role true pid ≡ opened l)
          × (is_set l ≡ has_standby d))
    × ((ts : List Target) × (health_targets f d ≡ ok ts))
    × ((units : List ServiceUnit) × (v : View) × (health_inventory f d ≡ ok units)
        × (new_view (deployment_of d) units true ≡ built v))

if_valid_lem : (e : Option Error) (d d' : Descriptor) → if_valid e d ≡ ok d' → (e ≡ none) × (d ≡ d')
if_valid_lem none d d' h = (refl, ap (descriptor_in d) h)
if_valid_lem (some e) d d' h = absurd (ground arith)

abbrev pub machine_named : Site × Machine → String
machine_named (s, m) = m.name

check_machine_new :
    (f : Parsers) (named : List String) (m : Machine)
    → check_machine f named m ≡ none
    → contains named m.name ≡ false
unfolding check_machine
check_machine_new f named m h = ground arith

check_machines_fresh :
    (f : Parsers) (next : Taken → Option Error) (s : Site) (ms : List Machine) (t : Taken)
    (rest : List (Site × Machine))
    → check_machines f next t ms ≡ none
    → ((t' : Taken) → next t' ≡ none → FreshAfter t'.machines (map machine_named rest))
    → FreshAfter t.machines (map machine_named (map (λ m. (s, m)) ms ++ rest))
unfolding check_machines
check_machines_fresh f next s [] t rest h later = later t h
check_machines_fresh f next s (m ∷ ms) t rest h later =
    let (here, others) = both_pass _ _ h in
    let (_, goes_on) = both_pass _ _ others in
    (check_machine_new f t.machines m here, check_machines_fresh f next s ms _ rest goes_on later)

check_sites_fresh :
    (f : Parsers) (ss : List Site) (t : Taken)
    → check_sites f t ss ≡ none
    → FreshAfter t.machines (map machine_named (places_of ss))
unfolding check_sites places_of
check_sites_fresh f [] t h = tt
check_sites_fresh f (s ∷ ss) t h =
    let d : check_machines f (λ t'. check_sites f t' ss) (with_site s t) s.machines ≡ none =
      ground arith in
    check_machines_fresh f (λ t'. check_sites f t' ss) s s.machines (with_site s t) (places_of ss) d
      (λ t' h'. check_sites_fresh f ss t' h')

validate_project-IsDistinct :
    (f : Parsers) (p : Project)
    → validate_project f p ≡ none
    → IsDistinct (map machine_named (places_of p.sites))
unfolding validate_project
validate_project-IsDistinct f p h =
    let c : check_sites f none_taken p.sites ≡ none = ground arith in
    FreshAfter-IsDistinct [] (map machine_named (places_of p.sites))
      (check_sites_fresh f p.sites none_taken c)

module _ {Raw : Type 0} (c : Codec Raw) (e : Encoder Raw) (written : ReadsBack e c) (f : Formats)
    (parsers : Parsers) (laws : ReadsTrimmed parsers) (probes : ReadsProbes parsers) (p : Project)
    (platform_name : String) where
  validate-IsBootable : (d : Descriptor) → validate parsers d ≡ none → IsBootable c e parsers d
  validate-IsBootable d accepted =
      let b = accepted_builds parsers laws d accepted in
      (
        validate-unmarshal c e written parsers laws d accepted,
        (λ role pid valid. validate-open_lease parsers d role pid accepted valid),
        validate-health_targets parsers laws probes d accepted,
        (
          b.units,
          b.view,
          (Builds-new_view parsers d accepted b).0,
          (Builds-new_view parsers d accepted b).1,
        ),
      )

  -- The descriptor of a machine in a plan, and that it was accepted.
  plan_machine_lem :
      (place : Site × Machine) (d : Descriptor)
      → plan_machine f parsers p platform_name place ≡ ok d
      → (validate parsers d ≡ none) × (place_of d ≡ place_named place)
  unfolding plan_machine descriptor
  plan_machine_lem (s, m) d h = split (site_services f s) refl
    where
      split :
          (i : Inventory)
          → site_services f s ≡ i
          → (validate parsers d ≡ none) × (place_of d ≡ (s.name, m.name))
      split (no_inventory e) same = absurd (ground arith)
      split (inventory units) same =
          let made : Descriptor = descriptor_with f p s m platform_name units in
          let checked : if_valid (validate parsers made) made ≡ ok d = ground arith in
          let (accepted, is_made) = if_valid_lem (validate parsers made) made d checked in
          subst (λ e. (validate parsers e ≡ none) × (place_of e ≡ (s.name, m.name))) is_made
            (accepted, refl)

  build_parts :
      (ds : List Descriptor)
      → build f parsers p platform_name ≡ ok ds
      → (validate_project parsers p ≡ none)
        × (compose_each (plan_machine f parsers p platform_name) (places_of p.sites) ≡ ok ds)
  unfolding build
  build_parts ds h = elim (Option-cases (validate_project parsers p)) [
    | inl e ↦ (e, rw (build, e) at h)
    | inr (err, e) ↦ absurd (ground arith)
  ]

  -- A plan has one descriptor for each machine of each site, in the project's order and under names
  -- that differ. Of every one of them the platform decodes the document that the builder writes, each
  -- instance can open its lease where the directory can be made, and the process composes its probe
  -- targets and builds the site's view. What the libraries read is as `ReadsTrimmed`, `ReadsProbes`
  -- and `ReadsBack` say.
  pub build-IsBootable :
      (ds : List Descriptor)
      → build f parsers p platform_name ≡ ok ds
      → (map place_of ds ≡ map place_named (places_of p.sites))
        × IsDistinct (map (λ d. d.machine) ds)
        × All (IsBootable c e parsers) ds
  build-IsBootable ds h =
      let planned = plan_machine f parsers p platform_name in
      let (valid, composed) = build_parts ds h in
      let named : map (λ d. d.machine) ds ≡ map machine_named (places_of p.sites) =
        map-compose_each planned (λ d. d.machine) machine_named
          (λ x d e. ap (λ n. n.1) (plan_machine_lem x d e).1) (places_of p.sites) ds composed in
      (
        map-compose_each planned place_of place_named (λ x d e. (plan_machine_lem x d e).1)
            (places_of p.sites) ds composed,
        subst IsDistinct (sym named) (validate_project-IsDistinct parsers p valid),
        All-compose_each planned (IsBootable c e parsers)
            (λ x d e. validate-IsBootable d (plan_machine_lem x d e).0) (places_of p.sites) ds
            composed,
      )
