-- ===== src/App/ViewSetup.antt =====
-- The view that a process builds from a descriptor that the builder accepted (app/servicehealth.go and
-- healthview/view.go).
use opdl.Base.{
  ℕ, ◌≡◌, refl, ap, ◌⊎◌, inl, inr, String, Bool, true, false, List, [], ◌∷◌, ◌++◌, Option,
  Bool-cases, none, some, arith, ◌==◌, nat_eq, string_eq, is_blank, trim_space, eq_iff, lookup,
  insert, lookup-insert, both_pass,
}
use opdl.HealthView.Inventory.{
  UnitKey, key_eq, key_beq_iff, ServiceUnit, validate_roles, validate_unit, validate_deployment,
}
use opdl.HealthView.View.{UnitState, View, built, add_units, new_view, no_drops}
use opdl.Deployment.Types.{Parsers, SiteService, Descriptor, is_set, texts_eq, texts_beq_iff}
use opdl.Deployment.Health.{error_of, positive_duration}
use opdl.Deployment.Services.{
  SiteMachine, Seen, Machines, unit_key, note_machine, check_unit, check_site,
  validate_hosted_are_listed, validate_site_services, primary_only, observer_roles, is_none_listed,
}
use opdl.Deployment.Builder.{validate, validate_fields, validate-IsAccepted}
use opdl.Deployment.Reading.{ReadsTrimmed}
use opdl.App.Setup.{ok, health_unit, compose_each, health_inventory, deployment_of}
use opdl.App.LeaseSetup.{parses_positive}

-- The unit that an entry becomes.
abbrev pub unit_of : SiteService → ℕ → ServiceUnit
unit_of u n = record {
  key = record { machine = u.machine; service = u.service };
  machine_profile = u.machine_profile;
  service_role = u.service_role;
  observer_roles = u.observer_roles;
  fresh_for = n;
}

roles_validate :
    (roles : List String)
    → ((roles ≡ primary_only) ⊎ (roles ≡ observer_roles))
    → (validate_roles [] roles ≡ none) × (is_none_listed roles ≡ false)
unfolding validate_roles is_blank
roles_validate roles (inl e) = rw e (refl, refl)
roles_validate roles (inr e) = rw e (refl, refl)

-- The checks of one entry that its unit relies on.
check_unit_parts :
    (f : Parsers) (is_seen : Bool) (previous : Option SiteMachine) (u : SiteService)
    → check_unit (positive_duration f) is_seen previous u ≡ none
    → (is_seen ≡ false)
      × (is_blank u.machine ≡ false)
      × (is_blank u.service ≡ false)
      × (trim_space u.machine ≡ u.machine)
      × (trim_space u.service ≡ u.service)
      × (is_blank u.machine_profile ≡ false)
      × ((u.service_role ≡ "master") ⊎ (u.service_role ≡ "slave"))
      × (error_of (positive_duration f u.fresh_for) ≡ none)
      × ((u.observer_roles ≡ primary_only) ⊎ (u.observer_roles ≡ observer_roles))
unfolding check_unit
check_unit_parts f is_seen previous u h = ground (
  arith,
  eq_iff u.machine (trim_space u.machine),
  eq_iff u.service (trim_space u.service),
  eq_iff "master" u.service_role,
  eq_iff "slave" u.service_role,
  texts_beq_iff u.observer_roles primary_only,
  texts_beq_iff u.observer_roles observer_roles,
)

nonblank_role : (role : String) → ((role ≡ "master") ⊎ (role ≡ "slave")) → is_blank role ≡ false
unfolding is_blank
nonblank_role role (inl e) = rw e refl
nonblank_role role (inr e) = rw e refl

unit_of_validates :
    (u : SiteService) (n : ℕ)
    → is_blank u.machine ≡ false
    → is_blank u.service ≡ false
    → is_blank u.machine_profile ≡ false
    → is_blank u.service_role ≡ false
    → (n == 0) ≡ false
    → (validate_roles [] u.observer_roles ≡ none) × (is_none_listed u.observer_roles ≡ false)
    → validate_unit (unit_of u n) ≡ none
unfolding validate_unit
unit_of_validates u n a b c g z (r, s) = split u.observer_roles refl
  where
    split : (roles : List String) → u.observer_roles ≡ roles → validate_unit (unit_of u n) ≡ none
    split [] e = absurd (ground arith)
    split (x ∷ xs) e = ground arith

-- What a seen entry has become in the view.
abbrev pub Tracks : UnitKey → Option SiteService → Option UnitState → Type 0
Tracks k none none = Unit {0}
Tracks k none (some s) = ⊥
Tracks k (some u) none = ⊥
Tracks k (some u) (some s) =
    (s.unit.observer_roles ≡ u.observer_roles)
    × (s.observed ≡ [])
    × (trim_space k.machine ≡ k.machine)

abbrev pub AllTrack : Seen → List (UnitKey × UnitState) → Type 0
AllTrack seen units = (k : UnitKey) → Tracks k (lookup k seen) (lookup k units)

Tracks-none :
    (k : UnitKey) (o : Option SiteService) (p : Option UnitState)
    → Tracks k o p
    → is_set o ≡ false
    → p ≡ none
Tracks-none k none none t h = refl
Tracks-none k none (some s) t h = absurd t
Tracks-none k (some u) p t h = absurd (ground arith)

AllTrack-insert :
    (seen : Seen) (units : List (UnitKey × UnitState)) (u : SiteService) (n : ℕ) (key : UnitKey)
    → trim_space key.machine ≡ key.machine
    → AllTrack seen units
    → AllTrack ((key, u) ∷ seen) (insert key (record { unit = unit_of u n; observed = [] }) units)
unfolding lookup
AllTrack-insert seen units u n key trimmed h k = elim (Bool-cases (key == k)) [
  | inl e ↦ rw (lookup-insert key k (record { unit = unit_of u n; observed = [] }) units) (
      rw e (
        refl,
        refl,
        ground (
          arith,
          ap (λ j. trim_space j.machine) ((key_beq_iff key k).0 e),
          ap (λ j. j.machine) ((key_beq_iff key k).0 e),
        ),
      ))
  | inr e ↦
      rw (lookup-insert key k (record { unit = unit_of u n; observed = [] }) units) (rw e (h k))
]

-- `New` takes the inventory that the builder accepts, and the view has each entry with no report.
pub record Builds (f : Parsers) (d : Descriptor) (us : List SiteService) (v : View) : Type 0 where
  pub units : List ServiceUnit
  pub view : View
  pub seen : Seen
  pub composes : compose_each (health_unit f) us ≡ ok units
  pub builds : add_units units v ≡ built view
  pub tracks : AllTrack seen view.units
  pub listed : validate_hosted_are_listed f d seen ≡ none

module _ (f : Parsers) (laws : ReadsTrimmed f) (d : Descriptor) where
  unit_builds :
      (u : SiteService) (us : List SiteService) (v : View) (n : ℕ)
      → f.parse_duration (trim_space u.fresh_for) ≡ some n
      → validate_unit (unit_of u n) ≡ none
      → lookup (unit_of u n).key v.units ≡ none
      → Builds f d us (record v {
        order = v.order ++ ((unit_of u n).key ∷ []);
        units = insert (unit_of u n).key (record { unit = unit_of u n; observed = [] }) v.units;
      })
      → Builds f d (u ∷ us) v
  unfolding add_units health_unit
  unit_builds u us v n parses valid fresh rest = record {
    units = unit_of u n ∷ rest.units;
    view = rest.view;
    seen = rest.seen;
    composes = rw (parses, rest.composes) refl;
    builds = ground (arith, valid, fresh, rest.builds);
    tracks = rest.tracks;
    listed = rest.listed;
  }

  pub site_builds :
      (us : List SiteService) (seen : Seen) (machines : Machines) (v : View)
      → check_site f d seen machines us ≡ none
      → AllTrack seen v.units
      → Builds f d us v
  unfolding check_site add_units
  site_builds [] seen machines v h t = record {
    units = [];
    view = v;
    seen = seen;
    composes = refl;
    builds = refl;
    tracks = t;
    listed = h;
  }
  site_builds (u ∷ us) seen machines v h t =
      let (here, later) = both_pass _ _ h in
      let (unseen, m, s, tm, ts, p, role, reads, roles) = check_unit_parts f _ _ u here in
      let (n, parses, positive, _) = parses_positive f u.fresh_for reads in
      let trimmed : f.parse_duration (trim_space u.fresh_for) ≡ some n =
        rw (laws.durations u.fresh_for n parses) parses in
      let key : UnitKey = (unit_of u n).key in
      let same : unit_key u ≡ key = rw (tm, ts) refl in
      let seen_key : Tracks key (lookup key seen) (lookup key v.units) = t key in
      let grown = AllTrack-insert seen v.units u n key tm t in
      unit_builds u us v n trimmed
        (unit_of_validates u n m s p (nonblank_role u.service_role role) positive
          (roles_validate u.observer_roles roles))
        (Tracks-none key _ _ seen_key (rw same at unseen))
        (site_builds us ((key, u) ∷ seen) (note_machine u machines) _ (rw same at later) grown)

abbrev pub empty_view : Descriptor → View
empty_view d = record { deployment = deployment_of d; order = []; units = []; drops = no_drops }

-- Where the builder accepts a descriptor, its inventory becomes a view.
pub accepted_builds :
    (f : Parsers) (laws : ReadsTrimmed f) (d : Descriptor)
    → validate f d ≡ none
    → Builds f d d.site_services (empty_view d)
unfolding validate_site_services lookup
accepted_builds f laws d accepted =
    site_builds f laws d d.site_services [] [] (empty_view d)
      (both_pass _ _ (validate-IsAccepted f d accepted).site_passes).1 (λ k. tt)

deployment_of_validates :
    (f : Parsers) (d : Descriptor)
    → validate f d ≡ none
    → validate_deployment (deployment_of d) ≡ none
unfolding validate_fields validate_deployment
deployment_of_validates f d accepted =
    let passed = (validate-IsAccepted f d accepted).fields_pass in ground arith

pub Builds-new_view :
    (f : Parsers) (d : Descriptor)
    → validate f d ≡ none
    → (b : Builds f d d.site_services (empty_view d))
    → (health_inventory f d ≡ ok b.units) × (new_view (deployment_of d) b.units true ≡ built b.view)
unfolding health_inventory new_view
Builds-new_view f d accepted b =
    let valid = deployment_of_validates f d accepted in
    let made : add_units b.units (empty_view d) ≡ built b.view = b.builds in
    (b.composes, ground arith)
