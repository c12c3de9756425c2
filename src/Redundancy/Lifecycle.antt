-- ===== src/Redundancy/Lifecycle.antt =====
-- `ManageOwnership` of platform/internal/machine/redundancy/ownership.go: the loop of turns.
use opdl.Base.{ℕ, Bool, true, false, List, [], ◌∷◌, none, some, string_eq, if◌then◌else◌}
use opdl.Redundancy.Lease.{Acquisition, Result, ok, err, try_acquire, role_of, file_of, read_error}
use opdl.Redundancy.Statements.{
  ActivationKind, initial, lease_opened, ownership_waiting, ownership_acquired,
}
use opdl.Redundancy.Promotion.{activation_kind}
use opdl.Redundancy.Turns.{
  acquires, Process, TurnError, no_publisher, publish_failed, lease_failed, acts, publish,
  with_lease, PassiveEvent, PassiveNext, waits_on, waited, wait_while_passive, ActiveRun, activate,
}

-- What the environment contributes to one turn: whether ctx has ended at its top, the clock at the
-- startup attempt, the events while Passive, and the run of Active.
pub record Turn : Type 0 where
  pub stopping : Bool
  pub attempt_at : ℕ
  pub passive : List PassiveEvent
  pub active : ActiveRun

-- How a turn ends: the loop goes on, the function returns, or the process still waits.
pub data TurnEnd : Type 0 where
  goes_on : TurnEnd
  returns : List TurnError → TurnEnd
  waiting : TurnEnd

abbrev pub end_of : List TurnError → TurnEnd
end_of [] = goes_on
end_of (e ∷ es) = returns (e ∷ es)

-- The tail of a turn, with ownership won.
unfoldable pub serve_turn :
    ActivationKind → (has_peer : Bool) → Turn → Acquisition → Process → TurnEnd × Process
serve_turn kind has_peer t a p =
    let s = publish (ownership_acquired (file_of p.lease) a.abandoned) p in
    if s.0
    then (let r = activate kind has_peer t.active s.1 in (end_of r.0, r.1))
    else (returns (publish_failed ∷ []), s.1)

unfoldable pub after_waiting : (has_peer : Bool) → Turn → PassiveNext × Process → TurnEnd × Process
after_waiting has_peer t (waits_on d, p) = (waiting, p)
after_waiting has_peer t (waited (e ∷ es) a, p) = (returns (e ∷ es), p)
after_waiting has_peer t (waited [] a, p) =
    if a.held
    then serve_turn (activation_kind (role_of p.lease)) has_peer t a p
    else (returns [], p)

unfoldable pub passive_turn : (has_peer : Bool) → Turn → Process → TurnEnd × Process
passive_turn has_peer t p =
    let s = publish (ownership_waiting (file_of p.lease)) p in
    if s.0
    then after_waiting has_peer t (wait_while_passive t.passive s.1)
    else (returns (publish_failed ∷ []), s.1)

-- The startup attempt's answer.
unfoldable pub after_attempt :
    (has_peer : Bool) → Turn → Result Acquisition × Process → TurnEnd × Process
after_attempt has_peer t (err e, p) = (returns (lease_failed e ∷ []), p)
after_attempt has_peer t (ok a, p) =
    if a.held then serve_turn initial has_peer t a (acts acquires p) else passive_turn has_peer t p

unfoldable pub turn : (first has_peer : Bool) → Turn → Process → TurnEnd × Process
turn first has_peer t p =
    if t.stopping
    then (returns [], p)
    else if first
    then after_attempt has_peer t (with_lease (err read_error) (λ l. try_acquire l t.attempt_at) p)
    else passive_turn has_peer t p

unfoldable pub turns : (first has_peer : Bool) → List Turn → Process → TurnEnd × Process
turns first has_peer [] p = (goes_on, p)
turns first has_peer (t ∷ ts) p =
    let r = turn first has_peer t p in
    elim r.0 [
      | goes_on ↦ turns false has_peer ts r.1
      | returns errors ↦ (returns errors, r.1)
      | waiting ↦ (waiting, r.1)
    ]

-- `alone` is the run of Active on a machine with no lease.
unfoldable pub manage_ownership :
    (has_publisher has_peer : Bool) → (alone : ActiveRun) → List Turn → Process → TurnEnd × Process
manage_ownership false has_peer alone ts p = (returns (no_publisher ∷ []), p)
manage_ownership true has_peer alone ts p = elim p.lease [
  | none ↦ (let r = activate initial has_peer alone p in (returns r.0, r.1))
  | some l ↦
      (let s = publish (lease_opened l.cfg.file) p in
        if s.0 then turns true has_peer ts s.1 else (returns (publish_failed ∷ []), s.1))
]
