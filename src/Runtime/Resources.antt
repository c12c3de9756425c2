-- ===== src/Runtime/Resources.antt =====
-- What a process of platform/internal/app holds open: resources are closed in the reverse of the order
-- in which they were opened, and used while they are open.
use opdl.Base.{
  ℕ, Bool, true, false, not, ◌&&◌, ◌||◌, List, [], ◌∷◌, Option, none, some, ◌==◌, nat_eq,
}
use opdl.Runtime.Io.{
  Resource, application_log, event_record, machine_store, broker, fabric_client, health_conn,
  subscription, health_publisher, monitor, listener, opens, closes, makes_factory, makes_publisher,
  makes_state_dir, reads_state, advances, makes_lease_dir, has_lease, states, owns, serves, selects,
  drains, logs_end, Done,
}
use opdl.Runtime.Rules.{stage_of}

abbrev place : Resource → ℕ
place application_log = 0
place event_record = 1
place machine_store = 2
place broker = 3
place fabric_client = 4
place health_conn = 5
place subscription = 6
place health_publisher = 7
place monitor = 8
place listener = 9

abbrev pub is_held : Resource → List Resource → Bool
is_held x [] = false
is_held x (y ∷ held) = (place x == place y) || is_held x held

abbrev some_if : Bool → List Resource → Option (List Resource)
some_if true held = some held
some_if false held = none

abbrev close_last : Resource → List Resource → Option (List Resource)
close_last x [] = none
close_last x (y ∷ held) = some_if (place x == place y) held

abbrev open_if : Resource → Bool → List Resource → Option (List Resource)
open_if x true held = some_if (not (is_held x held)) (x ∷ held)
open_if x false held = some_if (not (is_held x held)) held

-- Publishing needs the two stores, serving the listener, the client the broker, and the logs' end the
-- application log.
abbrev pub next_held : Done → List Resource → Option (List Resource)
next_held (opens x, b) held = open_if x b held
next_held (closes x, b) held = close_last x held
next_held (states f, b) held =
    some_if (is_held event_record held && is_held machine_store held) held
next_held (owns a, b) held = some_if (is_held machine_store held && is_held listener held) held
next_held (serves s, b) held = some_if (is_held listener held) held
next_held (selects, b) held = some_if (is_held listener held) held
next_held (drains, b) held = some_if (is_held listener held) held
next_held (logs_end e, b) held = some_if (is_held application_log held) held
next_held (makes_factory, b) held = some held
next_held (makes_publisher, b) held =
    some_if (is_held event_record held && is_held machine_store held) held
next_held (makes_state_dir, b) held = some held
next_held (reads_state, b) held = some held
next_held (advances r, b) held = some held
next_held (makes_lease_dir, b) held = some held
next_held (has_lease b', b) held = some held

-- What is held open after a trace, or `none` if some call was out of order.
abbrev pub held_after : List Done → Option (List Resource)
held_after = stage_of next_held []
