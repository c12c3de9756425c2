-- ===== src/HealthView/Observers.antt =====
-- Which observers a snapshot lists where (healthview/snapshot.go), and what it counts.
use mathlib.Core.List.{append_assoc, append-nil}
use opdl.Base.{
  ℕ, ◌≡◌, refl, ap, sym, ◌∙◌, String, Bool, true, false, not, List, [], ◌∷◌, ◌++◌, map,
  Option-cases, inl, inr, none, some, arith, string_eq, lookup, if◌then◌else◌,
}
use opdl.HealthView.Inventory.{key_eq}
use opdl.HealthView.View.{UnitState}
use opdl.HealthView.Snapshot.{
  sorted, Tally, no_tally, tally_role, tally, render_unit, is_stale_at, show, ObserverSnapshot,
}

-- The elements that pass a test, in order.
abbrev pub pick : (String → Bool) → List String → List String
pick p [] = []
pick p (r ∷ rs) = let rest = pick p rs in if p r then r ∷ rest else rest

abbrev pub has_reported : UnitState → String → Bool
has_reported st role = elim (lookup role st.observed) [ none ↦ false | some r ↦ true ]

abbrev pub has_expired : ℕ → UnitState → String → Bool
has_expired now st role = elim (lookup role st.observed) [
  | none ↦ false
  | some r ↦ is_stale_at now st.unit.fresh_for r
]

abbrev pub roles_of : List ObserverSnapshot → List String
roles_of = map (λ o. o.observer_role)

record Lists (now : ℕ) (st : UnitState) (roles : List String) (t r : Tally) : Type 0 where
  missing : r.missing ≡ t.missing ++ pick (λ x. not (has_reported st x)) roles
  stales : r.stales ≡ t.stales ++ pick (has_expired now st) roles
  shown : roles_of r.shown ≡ roles_of t.shown ++ pick (has_reported st) roles

map-snoc :
    (os : List ObserverSnapshot) (o : ObserverSnapshot)
    → roles_of (os ++ (o ∷ [])) ≡ roles_of os ++ (o.observer_role ∷ [])
map-snoc [] o = refl
map-snoc (x ∷ os) o = ap (◌∷◌ x.observer_role) (map-snoc os o)

tally_role-Lists :
    (now : ℕ) (st : UnitState) (role : String) (t : Tally)
    → Lists now st (role ∷ []) t (tally_role now st.unit.fresh_for role (lookup role st.observed) t)
unfolding tally_role
tally_role-Lists now st role t = record {
  missing = ground (arith, append-nil t.missing);
  stales = ground (arith, append-nil t.stales);
  shown = elim (Option-cases (lookup role st.observed)) [
    | inl e ↦ rw (e, tally_role) (ground (arith, append-nil (roles_of t.shown)))
    | inr (r, e) ↦
        rw (e, tally_role) (map-snoc t.shown (show now st.unit.fresh_for role r) ∙ ground arith)
  ];
}

pick-cons :
    (p : String → Bool) (r : String) (rs : List String)
    → pick p (r ∷ []) ++ pick p rs ≡ pick p (r ∷ rs)
pick-cons p r rs = ground arith

chain :
    (p : String → Bool) (role : String) (roles xs ys zs : List String)
    → ys ≡ xs ++ pick p (role ∷ [])
    → zs ≡ ys ++ pick p roles
    → zs ≡ xs ++ pick p (role ∷ roles)
chain p role roles xs ys zs e f =
    f
    ∙ ap (λ l. l ++ pick p roles) e
    ∙ append_assoc xs (pick p (role ∷ [])) (pick p roles)
    ∙ ap (◌++◌ xs) (pick-cons p role roles)

tally-Lists :
    (now : ℕ) (st : UnitState) (roles : List String) (t : Tally)
    → Lists now st roles t (tally now st roles t)
unfolding tally
tally-Lists now st [] t = record {
  missing = sym (append-nil _);
  stales = sym (append-nil _);
  shown = sym (append-nil _);
}
tally-Lists now st (role ∷ roles) t =
    let t' = tally_role now st.unit.fresh_for role (lookup role st.observed) t in
    let h = tally-Lists now st roles t' in
    let g = tally_role-Lists now st role t in
    record {
      missing = chain _ role roles _ _ _ g.missing h.missing;
      stales = chain _ role roles _ _ _ g.stales h.stales;
      shown = chain _ role roles _ _ _ g.shown h.shown;
    }

-- A rendered unit lists its expected observers in order: those with no report as missing, those
-- whose report has expired as stale, and an observation for each that has reported.
pub render_unit-observers :
    (now : ℕ) (st : UnitState)
    → let u = render_unit now st in
      let expected = sorted st.unit.observer_roles in
      (u.missing_observers ≡ pick (λ x. not (has_reported st x)) expected)
      × (u.stale_observers ≡ pick (has_expired now st) expected)
      × (roles_of u.observations ≡ pick (has_reported st) expected)
unfolding render_unit
render_unit-observers now st =
    let h = tally-Lists now st (sorted st.unit.observer_roles) no_tally in
    (h.missing, h.stales, h.shown)
