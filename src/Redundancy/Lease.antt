-- ===== src/Redundancy/Lease.antt =====
-- platform/internal/machine/redundancy/lease.go: the ownership lease handle and its operations.
-- A `*Lease` is `Option Lease`, `none` being the nil lease of a machine with no standby. A method
-- that writes the handle returns the new one. The handle's mutex guards its fields only, and each
-- method is one critical section per access, so the model passes the handle explicitly.
-- A non-positive time.Duration is 0: the code tests only whether one is positive.
use opdl.Base.{
  ℕ, ◌+◌, String, Bool, true, false, not, ◌||◌, Option, none, some, leb, ◌==◌, nat_eq, string_eq,
  if◌then◌else◌,
}
use opdl.Redundancy.Role.{InstanceRole, role_primary, role_valid}
use opdl.Redundancy.Disk.{
  Record, expired, free, absent, read_failed, found, DiskIo, done, read_record, write_record,
}

pub record LeaseConfig : Type 0 where
  pub file : String
  pub duration : ℕ
  pub renewal_interval : ℕ
  pub health_check_interval : ℕ
  pub failback_stabilization : ℕ

pub record Lease : Type 0 where
  pub cfg : LeaseConfig
  pub role : InstanceRole
  pub pid : ℕ
  pub held : Bool
  pub owned : Record
  -- `none` is the zero time.
  pub released_at : Option ℕ

pub data LeaseError : Type 0 where
  ownership_lost read_error write_error : LeaseError

pub data Result (A : Type 0) : Type 0 where
  ok : A → Result A
  err : LeaseError → Result A

-- `Acquisition` of ownership.go.
pub record Acquisition : Type 0 where
  pub held : Bool
  pub abandoned : Bool

abbrev pub not_acquired : Acquisition
not_acquired = record { held = false; abandoned = false }

abbrev pub zero_record : Record
zero_record = record { owner_role = ""; owner_pid = 0; expires_unix_nano = 0; released = false }

pub data OpenError : Type 0 where
  invalid_role durations_not_positive renewal_not_shorter mkdir_failed : OpenError

pub data OpenResult : Type 0 where
  opened : Option Lease → OpenResult
  open_failed : OpenError → OpenResult

-- `mkdir_ok` is the outcome of os.MkdirAll, and `pid` that of os.Getpid.
unfoldable pub open_lease : LeaseConfig → InstanceRole → (mkdir_ok : Bool) → (pid : ℕ) → OpenResult
unfolding role_valid
open_lease cfg role mkdir_ok pid =
    if not (role_valid role)
    then open_failed invalid_role
    else if cfg.file == ""
    then opened none
    else if (cfg.duration == 0) || (cfg.renewal_interval == 0) || (cfg.health_check_interval == 0)
    then open_failed durations_not_positive
    else if leb cfg.duration cfg.renewal_interval
    then open_failed renewal_not_shorter
    else if not mkdir_ok
    then open_failed mkdir_failed
    else opened (
        some (record {
          cfg = cfg;
          role = role;
          pid = pid;
          held = false;
          owned = zero_record;
          released_at = none;
        }))

unfoldable pub set_owned : Lease → Record → Lease
set_owned l r = record l { owned = r; held = true }

unfoldable pub mark_lost : Lease → Lease
mark_lost l = record l { held = false }

-- The grant that an acquisition writes.
abbrev pub new_grant : Lease → ℕ → Record
new_grant l now = record {
  owner_role = l.role;
  owner_pid = l.pid;
  expires_unix_nano = now + l.cfg.duration;
  released = false;
}

-- The rest of `tryAcquire`, once the grant is known to be available: write, then confirm.
unfoldable pub claim : Lease → ℕ → (abandoned : Bool) → DiskIo (Lease × Result Acquisition)
unfolding set_owned
claim l now abandoned = write_record (new_grant l now) λ written. elim written [
  | false ↦ done (l, err write_error)
  | true ↦ read_record λ confirmed. elim confirmed [
    | read_failed ↦ done (l, err read_error)
    -- An absent file reads as the zero record, whose owner is no role.
    | absent ↦
        if "" == l.role
        then done
            (set_owned l (new_grant l now), ok (record { held = true; abandoned = abandoned }))
        else done (l, ok not_acquired)
    | found c ↦
        if c.owner_role == l.role
        then done
            (set_owned l (new_grant l now), ok (record { held = true; abandoned = abandoned }))
        else done (l, ok not_acquired)
  ]
]

unfoldable pub try_acquire : Lease → ℕ → DiskIo (Lease × Result Acquisition)
unfolding free claim
try_acquire l now = read_record λ cur. elim cur [
  | read_failed ↦ done (l, err read_error)
  | absent ↦ claim l now false
  | found c ↦ if free c now then claim l now (not c.released) else done (l, ok not_acquired)
]

-- `none` is a nil error.
unfoldable pub renew : Lease → ℕ → DiskIo (Lease × Option LeaseError)
unfolding set_owned mark_lost
renew l now =
    if not l.held
    then done (l, some ownership_lost)
    else read_record λ cur. elim cur [
      | read_failed ↦ done (l, some read_error)
      | absent ↦ done (mark_lost l, some ownership_lost)
      | found c ↦
          if c.owner_role == l.owned.owner_role
          then (write_record
              (record c { expires_unix_nano = now + l.cfg.duration; released = false })
              λ written. elim written [
                | false ↦ done (l, some write_error)
                | true ↦ done (
                  set_owned l
                      (record c { expires_unix_nano = now + l.cfg.duration; released = false }),
                  none,
                )
              ])
          else done (mark_lost l, some ownership_lost)
    ]

unfoldable pub release : Lease → ℕ → DiskIo (Lease × Option LeaseError)
unfolding mark_lost
release l now =
    if not l.held
    then done (mark_lost l, none)
    else read_record λ cur. elim cur [
      | read_failed ↦ done (mark_lost l, some read_error)
      | absent ↦ done (mark_lost l, none)
      | found c ↦
          if c.owner_role == l.owned.owner_role
          then (write_record (record c { released = true })
              λ written. elim written [
                | false ↦ done (mark_lost l, some write_error)
                | true ↦ done (record (mark_lost l) { released_at = some now }, none)
              ])
          else done (mark_lost l, none)
    ]

pub data Availability : Type 0 where
  lease_held lease_absent lease_released lease_lapsed : Availability

-- The availability and the role of the grant's owner, the empty role where there is none.
pub data Observed : Type 0 where
  observed : Availability → InstanceRole → Observed
  unobserved : LeaseError → Observed

unfoldable pub observe : ℕ → DiskIo Observed
unfolding expired
observe now = read_record λ cur. elim cur [
  | read_failed ↦ done (unobserved read_error)
  | absent ↦ done (observed lease_absent "")
  | found c ↦
      if c.released
      then done (observed lease_released c.owner_role)
      else if expired c now
      then done (observed lease_lapsed c.owner_role)
      else done (observed lease_held c.owner_role)
]

unfoldable pub handed_over_at : Lease → Option ℕ
handed_over_at l = l.released_at

unfoldable pub owned_expiry : Lease → ℕ
owned_expiry l = l.owned.expires_unix_nano

-- The nil-safe accessors.
unfoldable pub is_held : Option Lease → Bool
is_held none = true
is_held (some l) = l.held

unfoldable pub role_of : Option Lease → InstanceRole
role_of none = role_primary
role_of (some l) = l.role

unfoldable pub file_of : Option Lease → String
file_of none = ""
file_of (some l) = l.cfg.file

-- `LeaseView`; the expiry `none` is the zero time.
pub record LeaseView : Type 0 where
  pub held : Bool
  pub expiry : Option ℕ

unfoldable pub view : Option Lease → LeaseView
view none = record { held = true; expiry = none }
view (some l) =
    if l.held
    then record { held = true; expiry = some l.owned.expires_unix_nano }
    else record { held = false; expiry = none }
