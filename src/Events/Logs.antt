-- ===== src/Events/Logs.antt =====
-- platform/internal/instance/eventlog/eventlog.go and platform/internal/machine/eventstore (file.go,
-- backend.go): the instance's event log and the machine's store, two files that are appended to, and the
-- publication of an envelope to both. What a file operation does is the environment's answer. A file
-- holds what its writes have left, in their order.
use opdl.Base.{
  String, Bool, true, false, not, List, [], ◌∷◌, ◌++◌, Option, none, some, ◌==◌, string_eq,
  is_blank, trim_space, Error, if◌then◌else◌,
}
use opdl.Events.Event.{Outcome, ok, err}
use opdl.Events.Envelope.{Envelope, Json, encode}

-- What one write leaves: a line, or a part of one.
pub data Piece : Type 0 where
  line : (text : String) → Piece
  torn : (text : String) → Piece

-- The file behind a backend and whether the backend is closed.
pub record Log : Type 0 where
  pub path : String
  pub content : List Piece
  pub closed : Bool

-- What becomes of a write and the sync after it.
pub data Wrote : Type 0 where
  landed unsynced torn_off unwritten : Wrote

abbrev open_file : (path : String) → (mkdir_ok open_ok : Bool) → List Piece → Outcome Log
open_file path mkdir_ok open_ok content =
    if is_blank path
    then err "invalid file"
    else if not mkdir_ok
    then err "create directory"
    else if not open_ok
    then err "open file"
    else ok (record { path = trim_space path; content = content; closed = false })

-- `eventlog.New` and `eventstore.Open`.
unfoldable pub new_log : (path : String) → (mkdir_ok open_ok : Bool) → List Piece → Outcome Log
new_log path mkdir_ok open_ok content = open_file path mkdir_ok open_ok content

unfoldable pub open_store : (path : String) → (mkdir_ok open_ok : Bool) → List Piece → Outcome Log
open_store path mkdir_ok open_ok content = open_file path mkdir_ok open_ok content

abbrev pub pieces : Wrote → String → List Piece
pieces landed text = line text ∷ []
pieces unsynced text = line text ∷ []
pieces torn_off text = torn text ∷ []
pieces unwritten text = []

abbrev pub write_error : Wrote → Option Error
write_error landed = none
write_error unsynced = some "sync"
write_error torn_off = some "write"
write_error unwritten = some "write"

abbrev pub write_line : Wrote → String → Log → Option Error × Log
write_line w text l = (write_error w, record l { content = l.content ++ pieces w text })

-- `Store` of the event log.
unfoldable pub log_store : Json → Wrote → Envelope → Log → Option Error × Log
log_store j w e l =
    if l.closed
    then (some "backend is closed", l)
    else elim (encode j e) [ ok text ↦ write_line w text l | err failure ↦ (some failure, l) ]

-- `File.Append` of the machine's store.
unfoldable pub append : Json → (ctx_ended : Bool) → Wrote → Envelope → Log → Option Error × Log
append j ctx_ended w e l =
    if ctx_ended
    then (some "context canceled", l)
    else if not (e.scope == "machine")
    then (some "envelope is not machine-scoped", l)
    else elim (encode j e) [
      | ok text ↦ (if l.closed then (some "store is closed", l) else write_line w text l)
      | err failure ↦ (some failure, l)
    ]

-- `Backend.Store` of the machine's store.
unfoldable pub backend_store :
    Json → (ctx_ended : Bool) → Wrote → Envelope → Log → Option Error × Log
unfolding append
backend_store j ctx_ended w e l =
    if not (e.scope == "machine") then (none, l) else append j ctx_ended w e l

abbrev error_list : Option Error → List Error
error_list none = []
error_list (some e) = e ∷ []

-- `Close` of either, with the outcomes of the last sync and of the file's close.
unfoldable pub close : (sync_error close_error : Option Error) → Log → List Error × Log
close sync_error close_error l =
    if l.closed
    then ([], l)
    else (error_list sync_error ++ error_list close_error, record l { closed = true })

-- The two backends of a process's publisher.
pub record Stores : Type 0 where
  pub log : Log
  pub store : Log

-- One publication: its envelope, whether its context has ended, and the two writes.
pub record Publication : Type 0 where
  pub envelope : Envelope
  pub ctx_ended : Bool
  pub log_write : Wrote
  pub store_write : Wrote

-- The loop of `Publish` over the two backends, and the errors that it joins.
unfoldable pub publish_to_stores : Json → Publication → Stores → List Error × Stores
unfolding log_store backend_store
publish_to_stores j p s =
    let a = log_store j p.log_write p.envelope s.log in
    let b = backend_store j p.ctx_ended p.store_write p.envelope s.store in
    (error_list a.0 ++ error_list b.0, record { log = a.1; store = b.1 })

unfoldable pub publish_each : Json → List Publication → Stores → List (List Error) × Stores
unfolding publish_to_stores
publish_each j [] s = ([], s)
publish_each j (p ∷ ps) s =
    let now = publish_to_stores j p s in
    let later = publish_each j ps now.1 in (now.0 ∷ later.0, later.1)
