-- ===== src/InstanceState/Epochs.antt =====
-- What instance/state/state.go promises about epochs across failures and restarts.
use opdl.Base.{ℕ, ◌+◌, ◌<◌, ◌^◌, ◌≡◌, ◌≢◌, ◌⊎◌, Bool, false, some, arith, eq_iff, string_eq}
use opdl.InstanceState.Store.{
  Reason, process_started, activated, State, Store, File, holds, ok, err, advance, unknown_reason,
  write_failed,
}

-- The epoch counts the incarnations of both kinds.
abbrev pub Balanced : State → Type 0
Balanced s = s.epoch ≡ s.process_epoch.count + s.activation_epoch.count

-- On a record whose epoch counts the incarnations of both kinds and cannot wrap, an advance that
-- succeeds raises the epoch and exactly the counter of its reason by one, stamps both, has written
-- the record that it returns, and the epoch still counts both kinds; one that fails, by an unknown
-- reason or by a write, changes neither the store nor the file.
pub advance-outcome :
    (reason : Reason) (at : ℕ) (write_ok : Bool) (s : Store) (f : File)
    → s.state.epoch + 1 < 2 ^ 64
    → Balanced s.state
    → let (s', f', r) = advance reason at write_ok s f in
      ((s' ≡ s)
        × (f' ≡ f)
        × (((r ≡ err write_failed) × (write_ok ≡ false))
            ⊎ ((r ≡ err unknown_reason) × (reason ≢ process_started) × (reason ≢ activated))))
      ⊎ ((f' ≡ holds s'.state)
          × (r ≡ ok s'.state)
          × Balanced s'.state
          × (s'.state.epoch ≡ s.state.epoch + 1)
          × (s'.state.updated_at ≡ some at)
          × (((reason ≡ process_started)
                × (s'.state.process_epoch
                    ≡ record { count = s.state.process_epoch.count + 1; updated_at = some at })
                × (s'.state.activation_epoch ≡ s.state.activation_epoch))
              ⊎ ((reason ≡ activated)
                  × (s'.state.activation_epoch
                      ≡ record { count = s.state.activation_epoch.count + 1; updated_at = some at })
                  × (s'.state.process_epoch ≡ s.state.process_epoch))))
unfolding advance
advance-outcome reason at write_ok s f h b =
    ground (arith, eq_iff reason process_started, eq_iff reason activated)
