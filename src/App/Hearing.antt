-- ===== src/App/Hearing.antt =====
-- What the distribution state says of a snapshot's reports (distributionState of app/servicehealth.go
-- on units that healthview/snapshot.go renders).
use opdl.Base.{
  ℕ, ◌≡◌, ◌≤◌, ◌+◌, refl, sym, subst, ap, ◌∙◌, inl, inr, String, Bool, true, false, not, ◌&&◌,
  Bool-cases, List, [], ◌∷◌, map, Option-cases, arith, All, length, lookup, ltb, ◌==◌, nat_eq,
  string_eq, if◌then◌else◌,
}
use opdl.HealthView.View.{UnitState}
use opdl.HealthView.Snapshot.{UnitSnapshot, sorted, render_unit}
use opdl.HealthView.Observers.{pick, has_reported, has_expired, render_unit-observers}
use opdl.App.Monitoring.{
  Distribution, local, isolated, partial, connected, heard, count_observers, distribution,
  distribution_state,
}

-- The observer has a report that has not expired.
abbrev pub is_current : ℕ → UnitState → String → Bool
is_current now st role = has_reported st role && not (has_expired now st role)

pick-parts :
    (now : ℕ) (st : UnitState) (xs : List String)
    → length xs
      ≡ length (pick (λ x. not (has_reported st x)) xs)
        + (length (pick (has_expired now st) xs) + length (pick (is_current now st) xs))
pick-parts now st [] = refl
pick-parts now st (x ∷ xs) =
    let rest = pick-parts now st xs in
    elim (Option-cases (lookup x st.observed)) [ inl e ↦ ground arith | inr (r, e) ↦ ground arith ]

abbrev expected_of : UnitState → List String
expected_of st = sorted st.unit.observer_roles

heard-render_unit :
    (now : ℕ) (st : UnitState)
    → heard (render_unit now st) ≡ length (pick (is_current now st) (expected_of st))
unfolding render_unit
heard-render_unit now st =
    let (missing, stale, _) = render_unit-observers now st in
    let parts = pick-parts now st (expected_of st) in
    omega (arith, parts, ap length missing, ap length stale)

length-pick : (p : String → Bool) (xs : List String) → length (pick p xs) ≤ length xs
length-pick p [] = omega arith
length-pick p (x ∷ xs) =
    let rest = length-pick p xs in
    elim (Bool-cases (p x)) [
      | inl e ↦ rw e (omega (arith, rest))
      | inr e ↦ rw e (omega (arith, rest))
    ]

pick-All :
    (p : String → Bool) (xs : List String)
    → length (pick p xs) ≡ length xs
    → All (λ x. p x ≡ true) xs
pick-All p [] h = tt
pick-All p (x ∷ xs) h = elim (Bool-cases (p x)) [
  | inl e ↦ let h' = rw e at h in (e, pick-All p xs (omega (arith, h')))
  | inr e ↦ let h' = rw e at h in absurd (omega (arith, h', length-pick p xs))
]

pick-All_none :
    (p : String → Bool) (xs : List String) → length (pick p xs) ≡ 0 → All (λ x. p x ≡ false) xs
pick-All_none p [] h = tt
pick-All_none p (x ∷ xs) h = elim (Bool-cases (p x)) [
  | inl e ↦ let h' = rw e at h in absurd (omega (arith, h'))
  | inr e ↦ let h' = rw e at h in (e, pick-All_none p xs h')
]

-- The units of the other machines.
abbrev pub remote : (machine : String) → List UnitState → List UnitState
remote machine [] = []
remote machine (st ∷ sts) =
    let rest = remote machine sts in if st.unit.key.machine == machine then rest else st ∷ rest

-- How many reports are expected of these units, and how many are current.
abbrev pub expected_total : List UnitState → ℕ
expected_total [] = 0
expected_total (st ∷ sts) = length (expected_of st) + expected_total sts

abbrev pub current_total : ℕ → List UnitState → ℕ
current_total now [] = 0
current_total now (st ∷ sts) =
    length (pick (is_current now st) (expected_of st)) + current_total now sts

pair_eq : {a b c d : ℕ} → a ≡ b → c ≡ d → ◌≡◌ {A = ℕ × ℕ} (a, c) (b, d)
pair_eq p q = rw (p, q) refl

count_one :
    (machine : String) (now : ℕ) (st : UnitState) (us : List UnitSnapshot) (c e : ℕ)
    → count_observers machine (render_unit now st ∷ us) (c, e) ≡ (
        if st.unit.key.machine == machine
        then count_observers machine us (c, e)
        else count_observers machine us
            (c + heard (render_unit now st), e + length (expected_of st)))
unfolding count_observers render_unit
count_one machine now st us c e = refl

count_observers-totals :
    (machine : String) (now : ℕ) (sts : List UnitState) (c e : ℕ)
    → count_observers machine (map (render_unit now) sts) (c, e)
      ≡ (c + current_total now (remote machine sts), e + expected_total (remote machine sts))
unfolding count_observers
count_observers-totals machine now [] c e = pair_eq (omega arith) (omega arith)
count_observers-totals machine now (st ∷ sts) c e =
    elim (Bool-cases (st.unit.key.machine == machine)) [
      | inl same ↦
          count_one machine now st (map (render_unit now) sts) c e
          ∙ rw same (count_observers-totals machine now sts c e)
      | inr other ↦
          let one = heard-render_unit now st in
          count_one machine now st (map (render_unit now) sts) c e
          ∙ rw other (
              count_observers-totals machine now sts (c + heard (render_unit now st))
                (e + length (expected_of st))
              ∙ pair_eq (omega (arith, one)) (omega arith))
    ]

current-le_expected : (now : ℕ) (sts : List UnitState) → current_total now sts ≤ expected_total sts
current-le_expected now [] = omega arith
current-le_expected now (st ∷ sts) =
    omega (arith, current-le_expected now sts, length-pick (is_current now st) (expected_of st))

abbrev AllObservers : (UnitState → String → Type 0) → List UnitState → Type 0
AllObservers P sts = All (λ st. All (P st) (expected_of st)) sts

all_current :
    (now : ℕ) (sts : List UnitState)
    → current_total now sts ≡ expected_total sts
    → AllObservers (λ st x. is_current now st x ≡ true) sts
all_current now [] h = tt
all_current now (st ∷ sts) h =
    let here = length-pick (is_current now st) (expected_of st) in
    let rest = current-le_expected now sts in
    (pick-All (is_current now st) (expected_of st) (omega arith), all_current now sts (omega arith))

none_current :
    (now : ℕ) (sts : List UnitState)
    → current_total now sts ≡ 0
    → AllObservers (λ st x. is_current now st x ≡ false) sts
none_current now [] h = tt
none_current now (st ∷ sts) h = (
  pick-All_none (is_current now st) (expected_of st) (omega arith),
  none_current now sts (omega arith),
)

-- What each state says of the units of the other machines.
abbrev pub Means : ℕ → List UnitState → Distribution → Type 0
Means now sts local = expected_total sts ≡ 0
Means now sts isolated =
    (1 ≤ expected_total sts) × AllObservers (λ st x. is_current now st x ≡ false) sts
Means now sts partial =
    (1 ≤ current_total now sts) × (current_total now sts + 1 ≤ expected_total sts)
Means now sts connected =
    (1 ≤ expected_total sts) × AllObservers (λ st x. is_current now st x ≡ true) sts

distribution-Means :
    (now : ℕ) (sts : List UnitState)
    → Means now sts (distribution (current_total now sts, expected_total sts))
distribution-Means now sts =
    let cur = current_total now sts in
    let exp = expected_total sts in
    let within = current-le_expected now sts in
    elim (Bool-cases (exp == 0)) [
      | inl zero ↦ rw zero (ground arith)
      | inr any ↦ elim (Bool-cases (cur == 0)) [
        | inl silent ↦ rw (any, silent) (ground arith, none_current now sts (ground arith))
        | inr live ↦ elim (Bool-cases (ltb cur exp)) [
          | inl part ↦ rw (any, live, part) (ground arith, ground arith)
          | inr all ↦ rw (any, live, all) (ground arith, all_current now sts (ground arith))
        ]
      ]
    ]

-- The distribution state of a snapshot is true of the other machines' units: nothing is expected of
-- them; or no expected observer has a report that has not expired; or some have, but not all; or all.
pub distribution_state-Means :
    (machine : String) (now : ℕ) (sts : List UnitState)
    → Means now (remote machine sts) (distribution_state machine (map (render_unit now) sts))
unfolding distribution_state
distribution_state-Means machine now sts =
    subst (λ n. Means now (remote machine sts) (distribution n))
      (sym (
        count_observers-totals machine now sts 0 0
        ∙ pair_eq {b = current_total now (remote machine sts)}
            {d = expected_total (remote machine sts)} (omega arith) (omega arith)))
      (distribution-Means now (remote machine sts))
