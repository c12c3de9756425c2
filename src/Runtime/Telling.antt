-- ===== src/Runtime/Telling.antt =====
-- The order of the facts that a process states (platform/internal/app/app.go): the record begins with
-- its start and the epoch of that start, and ends with its end or with the failure to come up.
use opdl.Base.{◌≡◌, refl, Bool, true, false, Option, none, some, arith}
use opdl.App.Facts.{
  Fact, process_started, process_stopped, epoch_advanced, epoch_advance_failed, lease_open_failed,
  api_listen_failed, api_listening, api_active, api_stopped, event_fabric_started,
  event_fabric_start_failed, standby_waiting, service_health_start_failed,
}
use opdl.Runtime.Io.{
  Resource, application_log, event_record, machine_store, Call, Done, opens, closes, makes_factory,
  makes_publisher, makes_state_dir, reads_state, advances, makes_lease_dir, has_lease, states, owns,
  serves, selects, drains, logs_end, Io,
}
use opdl.Runtime.Stages.{Moves}
use opdl.Runtime.Inner.{is_inner}

-- silent: nothing is stated; begun: the start is; told: its epoch too; over: nothing more is stated.
pub data Telling : Type 0 where
  silent begun told over : Telling

abbrev told_or_over : Bool → Telling
told_or_over true = told
told_or_over false = over

abbrev silent_or_over : Bool → Telling
silent_or_over true = silent
silent_or_over false = over

abbrev begin_with : Bool → Telling
begin_with true = begun
begin_with false = over

abbrev in_told : Telling → Telling → Option Telling
in_told told next = some next
in_told _ next = none

abbrev in_silent : Telling → Telling → Option Telling
in_silent silent next = some next
in_silent _ next = none

abbrev epoch_told : Bool → Telling → Option Telling
epoch_told b begun = some (told_or_over b)
epoch_told b told = some told
epoch_told b _ = none

abbrev epoch_untold : Telling → Option Telling
epoch_untold silent = some over
epoch_untold told = some told
epoch_untold _ = none

-- The facts of an instance that failed to come up are its last, as is the statement of its end, and
-- so is a fact of its start that could not be stated.
abbrev next_fact : Fact → Bool → Telling → Option Telling
next_fact (process_started e m s n p) b t = in_silent t (begin_with b)
next_fact (epoch_advanced s n r p a) b t = epoch_told b t
next_fact (epoch_advance_failed s r e) b t = epoch_untold t
next_fact (event_fabric_started s c a r) b t = in_told t (told_or_over b)
next_fact (event_fabric_start_failed s c a e) b t = in_told t over
next_fact (service_health_start_failed e) b t = in_told t over
next_fact (process_stopped e) b t = in_told t over
next_fact (lease_open_failed f e) b t = in_told t told
next_fact (api_listen_failed a e) b t = in_told t told
next_fact (api_listening a s) b t = in_told t told
next_fact (api_active a s) b t = in_told t told
next_fact (api_stopped e) b t = in_told t told
next_fact standby_waiting b t = in_told t told

-- The log and the two stores are opened before anything is stated, all else after the two first facts.
abbrev next_open : Resource → Bool → Telling → Option Telling
next_open application_log b t = in_silent t (silent_or_over b)
next_open event_record b t = in_silent t (silent_or_over b)
next_open machine_store b t = in_silent t (silent_or_over b)
next_open x b t = in_told t told

abbrev advance_in : Telling → Option Telling
advance_in silent = some silent
advance_in told = some told
advance_in _ = none

abbrev pub next_told : Done → Telling → Option Telling
next_told (states f, b) t = next_fact f b t
next_told (opens x, b) t = next_open x b t
next_told (makes_factory, b) t = in_silent t (silent_or_over b)
next_told (makes_publisher, b) t = in_silent t (silent_or_over b)
next_told (reads_state, b) t = in_silent t (silent_or_over b)
next_told (advances r, b) t = advance_in t
next_told (owns a, b) t = in_told t told
next_told (serves s, b) t = in_told t told
next_told (selects, b) t = in_told t told
next_told (drains, b) t = in_told t told
next_told (has_lease h, b) t = in_told t told
next_told (closes x, b) t = some t
next_told (makes_state_dir, b) t = some t
next_told (makes_lease_dir, b) t = some t
next_told (logs_end e, b) t = some t

abbrev pub Tells : {A : Type 0} → Telling → Io A → Telling → Telling → Type 0
Tells = Moves next_told silent

pub told_calm : (c : Call) (b : Bool) → is_inner c ≡ true → next_told (c, b) told ≡ some told
told_calm (advances r) b h = refl
told_calm (has_lease a) b h = refl
told_calm (owns a) b h = refl
told_calm (serves s) b h = refl
told_calm selects b h = refl
told_calm drains b h = refl
told_calm (states (epoch_advanced s n r p a)) true h = refl
told_calm (states (epoch_advanced s n r p a)) false h = refl
told_calm (states f) b h = ground arith
told_calm c b h = absurd (ground arith)
