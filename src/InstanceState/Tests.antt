-- ===== src/InstanceState/Tests.antt =====
-- The epoch store at concrete records and histories.
use opdl.Base.{◌+◌, ◌≡◌, refl, ◌≢◌, ◌⊎◌, true, false, List, [], ◌∷◌, none, some, arith}
use opdl.InstanceState.Store.{
  process_started, activated, State, Store, missing, holds, ok, err, advance, unknown_reason,
  write_failed,
}
use opdl.InstanceState.Epochs.{Balanced, advance-outcome}
use opdl.InstanceState.Lives.{Move, reopens, advances, life, Rising, life-never_reissues}

abbrev moves : List Move
moves =
    reopens "state.json" true
    ∷ advances process_started 10 true
    ∷ advances activated 20 true
    ∷ advances activated 30 false
    ∷ reopens "state.json" false
    ∷ reopens "state.json" true
    ∷ advances "other" 40 true
    ∷ advances process_started 50 true
    ∷ []

life-never_reissues_example : Rising 0 (life moves none missing)
life-never_reissues_example = life-never_reissues moves (omega arith)

abbrev third : State
third = record {
  epoch = 3;
  updated_at = some 30;
  process_epoch = record { count = 2; updated_at = some 20 };
  activation_epoch = record { count = 1; updated_at = some 30 };
}

abbrev store : Store
store = record { path = "state.json"; state = third }

advance-outcome_example :
    let (s', f', r) = advance activated 40 true store (holds third) in
    ((s' ≡ store)
      × (f' ≡ holds third)
      × (((r ≡ err write_failed) × (true ≡ false))
          ⊎ ((r ≡ err unknown_reason) × (activated ≢ process_started) × (activated ≢ activated))))
    ⊎ ((f' ≡ holds s'.state)
        × (r ≡ ok s'.state)
        × Balanced s'.state
        × (s'.state.epoch ≡ 3 + 1)
        × (s'.state.updated_at ≡ some 40)
        × (((activated ≡ process_started)
              × (s'.state.process_epoch ≡ record { count = 2 + 1; updated_at = some 40 })
              × (s'.state.activation_epoch ≡ third.activation_epoch))
            ⊎ ((activated ≡ activated)
                × (s'.state.activation_epoch ≡ record { count = 1 + 1; updated_at = some 40 })
                × (s'.state.process_epoch ≡ third.process_epoch))))
advance-outcome_example = advance-outcome activated 40 true store (holds third) (omega arith) refl
