-- ===== src/InstanceState/Store.antt =====
-- platform/internal/instance/state/state.go: the durable epoch record of one instance.
-- The store's mutex makes each call one step. encoding/json is seen only through what a reader gets,
-- and a write is atomic (utils/atomicfile): one that fails leaves the file as it was.
use opdl.Base.{
  ℕ, ◌+◌, ◌%◌, ◌^◌, String, Bool, true, false, not, Option, none, some, ◌==◌, string_eq, is_blank,
  trim_space, if◌then◌else◌,
}

abbrev pub Reason : Type 0
Reason = String

abbrev pub process_started : Reason
process_started = "process_started"

abbrev pub activated : Reason
activated = "activated"

-- `none` is the zero time.
pub record Counter : Type 0 where
  pub count : ℕ
  pub updated_at : Option ℕ

pub record State : Type 0 where
  pub epoch : ℕ
  pub updated_at : Option ℕ
  pub process_epoch : Counter
  pub activation_epoch : Counter

abbrev pub zero_counter : Counter
zero_counter = record { count = 0; updated_at = none }

abbrev pub zero_state : State
zero_state = record {
  epoch = 0;
  updated_at = none;
  process_epoch = zero_counter;
  activation_epoch = zero_counter;
}

pub record Store : Type 0 where
  pub path : String
  pub state : State

pub data File : Type 0 where
  missing garbled : File
  holds : State → File

pub data StateError : Type 0 where
  invalid_path mkdir_failed read_failed decode_failed unknown_reason write_failed : StateError

pub data Result (A : Type 0) : Type 0 where
  ok : A → Result A
  err : StateError → Result A

-- The reading of the file in `Open`.
unfoldable pub load : String → (read_ok : Bool) → File → Result Store
load path false f = err read_failed
load path true missing = ok (record { path = path; state = zero_state })
load path true garbled = err decode_failed
load path true (holds s) = ok (record { path = path; state = s })

unfoldable pub open_store : (path : String) → (mkdir_ok read_ok : Bool) → File → Result Store
unfolding load
open_store path mkdir_ok read_ok f =
    if is_blank path
    then err invalid_path
    else if not mkdir_ok
    then err mkdir_failed
    else load (trim_space path) read_ok f

-- uint64 counters wrap.
abbrev pub increment : ℕ → ℕ
increment n = (n + 1) % 2 ^ 64

abbrev pub advance_counter : ℕ → Counter → Counter
advance_counter at c = record { count = increment c.count; updated_at = some at }

-- The record that `Advance` writes, by `counterFor`; `none` is an unknown reason.
unfoldable pub next_state : Reason → ℕ → State → Option State
next_state reason at s =
    let stamped : State = record s { epoch = increment s.epoch; updated_at = some at } in
    if reason == process_started
    then some (record stamped { process_epoch = advance_counter at s.process_epoch })
    else if reason == activated
    then some (record stamped { activation_epoch = advance_counter at s.activation_epoch })
    else none

-- The write, and its outcome for the store and the file.
unfoldable pub persist :
    Store → File → (write_ok : Bool) → Option State → Store × File × Result State
persist s f write_ok none = (s, f, err unknown_reason)
persist s f true (some n) = (record s { state = n }, holds n, ok n)
persist s f false (some n) = (s, f, err write_failed)

-- `Advance`, at the clock reading `at`.
unfoldable pub advance :
    Reason → (at : ℕ) → (write_ok : Bool) → Store → File → Store × File × Result State
unfolding next_state persist
advance reason at write_ok s f = persist s f write_ok (next_state reason at s.state)
