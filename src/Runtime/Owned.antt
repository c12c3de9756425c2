-- ===== src/Runtime/Owned.antt =====
-- `runProcess` of platform/internal/app/runtime.go around the ownership machine: what
-- `redundancy.ManageOwnership` does, with the Passive and Active compositions run where it calls them.
-- While Active waits the machine goes on: what it does before `leaves_active` stands between the two
-- halves of `runActive`.
use opdl.Base.{String, Bool, true, not, List, [], ◌∷◌, map, Option, none, some, ◌==◌, string_eq}
use opdl.Redundancy.Role.{InstanceRole}
use opdl.Redundancy.Lease.{LeaseConfig, Lease, open_lease, OpenResult, opened, open_failed}
use opdl.Redundancy.Turns.{
  Action, stated, acquires, releases, enters_passive, leaves_passive, enters_active, leaves_active,
  Process,
}
use opdl.Redundancy.Lifecycle.{TurnEnd, goes_on, returns, waiting, manage_ownership}
use opdl.Deployment.Types.{Descriptor, Lease as LeaseBlock, is_set}
use opdl.App.Setup.{Composed, ok, fails, lease_config_of}
use opdl.App.Facts.{lease_open_failed, api_listen_failed, api_listening}
use opdl.Runtime.Io.{
  RunError, bad_setup, bad_lease, ownership_failed, owns, opens, closes, listener, has_lease,
  makes_lease_dir, World, Io, pure, raise, ◌>>=◌, ◌>>◌, afterwards, if_fails, settled, or_else,
  quietly, reading, still_running, call, publish,
}
use opdl.Runtime.Active.{
  instance_of, peer_of, text_of, run_passive, activate_surface, leave_surface,
}

-- Whether Active serves, and with which error of its opening statement.
pub data Activation : Type 0 where
  inactive : Activation
  serving_with : List RunError → Activation

-- The actions of the machine's trace, the newest of which is its first.
abbrev pub oldest_first : List Action → List Action → List Action
oldest_first [] done_before = done_before
oldest_first (a ∷ earlier) done_before = oldest_first earlier (a ∷ done_before)

abbrev pub ended : TurnEnd → Io (Unit {0})
ended (returns []) = pure tt
ended (returns (e ∷ es)) = raise (ownership_failed e ∷ map ownership_failed es)
ended goes_on = still_running
ended waiting = still_running

module _ (w : World) (address : String) where
  abbrev pub activated_as : List RunError → Io Activation
  activated_as es = pure (serving_with es)

  -- One action of the machine.
  unfoldable pub follow : Action → Activation → Io Activation
  unfolding run_passive activate_surface leave_surface
  follow enters_passive a = quietly (owns enters_passive) >> settled (run_passive w) >> pure a
  follow (enters_active k) a =
      quietly (owns (enters_active k))
      >> or_else (activate_surface w address >>= activated_as) inactive
  follow leaves_active inactive = quietly (owns leaves_active) >> pure inactive
  follow leaves_active (serving_with es) =
      settled (leave_surface w es) >> quietly (owns leaves_active) >> pure inactive
  follow (stated s) a = quietly (owns (stated s)) >> pure a
  follow acquires a = quietly (owns acquires) >> pure a
  follow releases a = quietly (owns releases) >> pure a
  follow leaves_passive a = quietly (owns leaves_passive) >> pure a

  unfoldable pub follow_all : List Action → Activation → Io (Unit {0})
  unfolding follow
  follow_all [] a = pure tt
  follow_all (x ∷ xs) a = follow x a >>= follow_all xs

  abbrev pub newborn : Option Lease → Process
  newborn lease = record {
    lease = lease;
    disk = w.disk;
    publish_faults = w.publish_faults;
    trace = [];
  }

  -- `ManageOwnership` with the process's publisher, `has_peer` being whether there is a health check.
  unfoldable pub own_machine : (has_peer : Bool) → Option Lease → Io (Unit {0})
  unfolding follow_all
  own_machine has_peer lease =
      let run = manage_ownership true has_peer w.alone w.turns (newborn lease) in
      follow_all (oldest_first run.1.trace []) inactive >> ended run.0

abbrev pub lease_opened_as : OpenResult → Io (Option Lease)
lease_opened_as (opened lease) = quietly (has_lease (is_set lease)) >> pure lease
lease_opened_as (open_failed e) = raise (bad_lease e ∷ [])

abbrev file_of_block : Option LeaseBlock → String
file_of_block none = ""
file_of_block (some l) = l.file

module _ (w : World) (d : Descriptor) (role : InstanceRole) where
  abbrev pub open_configured : LeaseConfig → Io (Option Lease)
  open_configured cfg =
      reading
        λ r. lease_opened_as (open_lease cfg role (not (w.fails r.trace makes_lease_dir)) w.pid)

  abbrev pub lease_setup : Composed LeaseConfig → Io (Option Lease)
  lease_setup (fails e) = raise (bad_setup e ∷ [])
  lease_setup (ok cfg) = open_configured cfg

  -- `leaseConfigOf` and `OpenLease`, a failure stated with the file of the lease block.
  unfoldable pub open_process_lease : Io (Option Lease)
  open_process_lease =
      if_fails (lease_setup (lease_config_of w.parsers d))
        (λ es. publish w (lease_open_failed (file_of_block d.lease) (text_of w es)))

  abbrev pub address_of : String
  address_of = (instance_of d role).api_address

  -- `peerHealthCheck` is nil where the peer has no address.
  abbrev pub has_peer_check : Bool
  has_peer_check = not ((peer_of d role).api_address == "")

  -- What `runProcess` does while it holds its listener.
  unfoldable pub serve_process : Option Lease → Io (Unit {0})
  unfolding own_machine
  serve_process lease =
      publish w (api_listening address_of "passive")
      >> own_machine w address_of has_peer_check lease

  -- `runProcess`.
  unfoldable pub run_process : Io (Unit {0})
  unfolding open_process_lease serve_process
  run_process = open_process_lease >>= λ lease.
      if_fails (call w (opens listener))
        (λ es. publish w (api_listen_failed address_of (text_of w es)))
      >> afterwards (serve_process lease) (λ _. call w (closes listener))
