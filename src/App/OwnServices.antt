-- ===== src/App/OwnServices.antt =====
-- Whether a process's view takes the reports about the services that its machine hosts
-- (app/servicehealth.go).
use opdl.Base.{
  ℕ, ◌≡◌, ◌^◌, refl, sym, subst, ◌∙◌, inl, inr, String, true, false, Bool-cases, List, [], ◌∷◌, map,
  Option, none, some, arith, ltb, ◌==◌, string_eq, contains, trim_space, lookup, All, eq_iff,
  both_pass, check_each-All, length,
}
use opdl.ServiceHealth.Monitor.{Observation as Finding}
use opdl.HealthView.Inventory.{ServiceUnit, UnitKey, key_eq, unknown_target}
use opdl.HealthView.View.{UnitState, View, new_view, built, dropped, apply}
use opdl.HealthFabric.Publisher.{new_publisher, publish}
use opdl.Deployment.Types.{Parsers, Service, SiteService, Descriptor, texts_eq, texts_beq_iff}
use opdl.Deployment.Health.{positive_duration, validate_check}
use opdl.Deployment.Services.{
  Seen, wanted_roles, matches_unit, check_service, check_services, check_hosted,
  validate_hosted_services, validate_hosted_are_listed,
}
use opdl.Deployment.Builder.{validate, validate-IsAccepted}
use opdl.Deployment.Reading.{ReadsTrimmed}
use opdl.App.Setup.{ok, health_inventory, deployment_of}
use opdl.App.ViewSetup.{Tracks, AllTrack, accepted_builds, Builds-new_view}
use opdl.App.Monitoring.{LocalSink, observed, observe_all, identity_of}
use opdl.App.OwnReports.{own_key, IsWatched, AreApplied, observe_all_applied}

-- The sink of a process that has just built its view.
abbrev pub sink_of : Descriptor → (role : String) → (epoch : ℕ) → View → LocalSink
sink_of d role epoch v = record {
  machine = d.machine;
  role = role;
  view = v;
  publisher = new_publisher (identity_of d role epoch);
}

abbrev names : List Service → List String
names ss = map (λ s. s.name) ss

check_service_name :
    (check : _) (named : List String) (s : Service)
    → check_service check named s ≡ none
    → (s.name == trim_space s.name) ≡ true
unfolding check_service
check_service_name check named s h = ground arith

check_services_trimmed :
    (f : Parsers) (named : List String) (ss : List Service)
    → check_services (validate_check (positive_duration f) f) named ss ≡ none
    → All (λ s. trim_space s.name ≡ s.name) ss
unfolding check_services check_service
check_services_trimmed f named [] h = tt
check_services_trimmed f named (s ∷ ss) h =
    let (here, rest) = both_pass _ _ h in
    (
      sym (
          (eq_iff s.name (trim_space s.name)).0
            (check_service_name (validate_check (positive_duration f) f) named s here)),
      check_services_trimmed f (trim_space s.name ∷ named) ss rest,
    )

All-names :
    (P : String → Type 0) (ss : List Service)
    → All (λ s. P s.name) ss
    → (x : String) → contains (names ss) x ≡ true
    → P x
All-names P [] h x m = absurd (ground arith)
All-names P (s ∷ ss) (here, rest) x m = elim (Bool-cases (s.name == x)) [
  | inl e ↦ subst P ((eq_iff s.name x).0 e) here
  | inr e ↦ All-names P ss rest x (ground arith)
]

All-map2 :
    {P Q R : Service → Type 0}
    → ((s : Service) → P s → Q s → R s)
    → (ss : List Service) → All P ss
    → All Q ss
    → All R ss
All-map2 g [] p q = tt
All-map2 g (s ∷ ss) (p, ps) (q, qs) = (g s p q, All-map2 g ss ps qs)

padded_absent :
    (k : UnitKey) (o : Option SiteService) (u : Option UnitState)
    → Tracks k o u
    → (trim_space k.machine == k.machine) ≡ false
    → u ≡ none
padded_absent k none none t p = refl
padded_absent k none (some st) t p = absurd t
padded_absent k (some x) none t p = absurd t
padded_absent k (some x) (some st) (_, _, trimmed) p =
    absurd (ground (arith, eq_iff (trim_space k.machine) k.machine))

check_hosted_found :
    (f : Parsers) (d : Descriptor) (seen : Seen) (s : Service) (o : Option SiteService)
    → trim_space d.machine ≡ d.machine
    → trim_space s.name ≡ s.name
    → lookup (record { machine = d.machine; service = s.name }) seen ≡ o
    → check_hosted f d seen s ≡ none
    → matches_unit f d s o ≡ none
unfolding check_hosted
check_hosted_found f d seen s o m n e h = rw (m, n, e) at h

matches_unit_roles :
    (f : Parsers) (d : Descriptor) (s : Service) (u : SiteService)
    → matches_unit f d s (some u) ≡ none
    → u.observer_roles ≡ wanted_roles d
matches_unit_roles f d s u h = (texts_beq_iff u.observer_roles (wanted_roles d)).0 (ground arith)

module _ (f : Parsers) (d : Descriptor) (role : String) (epoch : ℕ) where
  hosted-IsWatched :
      (seen : Seen) (v : View) (s : Service)
      → AllTrack seen v.units
      → trim_space d.machine ≡ d.machine
      → contains (wanted_roles d) role ≡ true
      → check_hosted f d seen s ≡ none
      → trim_space s.name ≡ s.name
      → IsWatched (new_publisher (identity_of d role epoch)) v s.name
  unfolding lookup new_publisher
  hosted-IsWatched seen v s tracks trimmed plays h name =
      split (lookup key seen) (lookup key v.units) refl refl (tracks key)
    where
      key : UnitKey
      key = record { machine = d.machine; service = s.name }

      split :
          (o : Option SiteService) (u : Option UnitState)
          → lookup key seen ≡ o
          → lookup key v.units ≡ u
          → Tracks key o u
          → IsWatched (new_publisher (identity_of d role epoch)) v s.name
      split none none e e' t =
          absurd (ground (arith, check_hosted_found f d seen s none trimmed name e h))
      split none (some st) e e' t = absurd t
      split (some u) none e e' t = absurd t
      split (some u) (some st) e e' (roles, unseen, _) =
          let matched = check_hosted_found f d seen s (some u) trimmed name e h in
          let wanted = roles ∙ matches_unit_roles f d s u matched in
          (st, e', rw wanted plays, rw unseen tt)

  IsWatched-services :
      (laws : ReadsTrimmed f)
      → (accepted : validate f d ≡ none) → trim_space d.machine ≡ d.machine
      → contains (wanted_roles d) role ≡ true
      → (service : String) → contains (names d.services) service ≡ true
      → IsWatched
          (new_publisher (identity_of d role epoch))
          (accepted_builds f laws d accepted).view
          service
  unfolding validate_hosted_services validate_hosted_are_listed
  IsWatched-services laws accepted trimmed plays service hosted =
      let b = accepted_builds f laws d accepted in
      let parts = validate-IsAccepted f d accepted in
      let (_, checks) = both_pass _ _ b.listed in
      let (_, passes) = both_pass _ _ parts.hosted_pass in
      let each = check_each-All (check_hosted f d b.seen) d.services checks in
      let plain = check_services_trimmed f [] d.services passes in
      All-names (IsWatched (new_publisher (identity_of d role epoch)) b.view) d.services
        (All-map2 (λ s h n. hosted-IsWatched b.seen b.view s b.tracks trimmed plays h n) d.services
          each plain)
        service hosted

-- From a descriptor that the builder accepts, the process builds the site's view, and where the
-- machine's name has no outer white space, every observation that it makes of a hosted service is
-- applied to that view, in any run of fewer than 2^64 of them.
pub observe_all-new_view :
    (f : Parsers)
    → ReadsTrimmed f
    → (d : Descriptor) (role : String) (epoch : ℕ) → validate f d ≡ none
    → trim_space d.machine ≡ d.machine
    → contains (wanted_roles d) role ≡ true
    → (os : List (ℕ × Finding)) → ltb (length os) (2 ^ 64) ≡ true
    → All (λ o. contains (names d.services) o.1.service ≡ true) os
    → (units : List ServiceUnit) × (v : View) × (health_inventory f d ≡ ok units)
      × (new_view (deployment_of d) units true ≡ built v)
      × AreApplied (observe_all os (sink_of d role epoch v)).1
unfolding new_publisher
observe_all-new_view f laws d role epoch accepted trimmed plays os bounded about =
    let b = accepted_builds f laws d accepted in
    let (composed, makes) = Builds-new_view f d accepted b in
    (
      b.units,
      b.view,
      composed,
      makes,
      observe_all_applied os (sink_of d role epoch b.view) (ground arith) (names d.services) about
          (IsWatched-services f d role epoch laws accepted trimmed plays),
    )

observed_absent :
    (now : ℕ) (o : Finding) (s : LocalSink)
    → lookup (own_key s.publisher o.service) s.view.units ≡ none
    → (observed now o s).1 ≡ unknown_target
unfolding observed publish apply dropped
observed_absent now o s h = rw (observed, apply, h) refl

-- Where the machine's name has outer white space, which the builder accepts too, each observation
-- that the process makes is dropped as one about an unknown unit.
pub observed_padded_machine :
    (f : Parsers)
    → ReadsTrimmed f
    → (d : Descriptor) (role : String) (epoch : ℕ) → validate f d ≡ none
    → ((trim_space d.machine == d.machine) ≡ false)
    → (now : ℕ) (o : Finding)
    → (units : List ServiceUnit) × (v : View) × (health_inventory f d ≡ ok units)
      × (new_view (deployment_of d) units true ≡ built v)
      × ((observed now o (sink_of d role epoch v)).1 ≡ unknown_target)
unfolding new_publisher
observed_padded_machine f laws d role epoch accepted padded now o =
    let b = accepted_builds f laws d accepted in
    let (composed, makes) = Builds-new_view f d accepted b in
    let key : UnitKey = record { machine = d.machine; service = o.service } in
    let absent =
      padded_absent key (lookup key b.seen) (lookup key b.view.units) (b.tracks key) padded in
    (b.units, b.view, composed, makes, observed_absent now o (sink_of d role epoch b.view) absent)
