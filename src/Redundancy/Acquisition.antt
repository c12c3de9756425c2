-- ===== src/Redundancy/Acquisition.antt =====
-- What each operation of redundancy/lease.go guarantees, and how the operations of the two
-- instances meet in the file.
use opdl.Base.{
  ℕ, String, ◌≡◌, ◌≢◌, ◌⊎◌, Bool, true, false, List, [], arith, eq_iff, string_eq, not, none, some,
}
use opdl.Redundancy.Disk.{Disk, File, Record, missing, garbled, holds, free, run}
use opdl.Redundancy.Lease.{
  Lease, Result, Acquisition, ok, err, new_grant, set_owned, try_acquire, renew, release,
  ownership_lost,
}

abbrev pub quiet : File → Disk
quiet f = record { file = f; faults = [] }

-- A grant is there to be taken.
abbrev pub Available : File → ℕ → Type 0
Available missing now = Unit {0}
Available garbled now = ⊥
Available (holds r) now = free r now ≡ true

-- A grant that its owner did not release.
abbrev pub left_behind : File → Bool
left_behind missing = false
left_behind garbled = false
left_behind (holds r) = not r.released

abbrev pub reports_held : Result Acquisition → Bool
reports_held (ok a) = a.held
reports_held (err e) = false

-- Whatever fails on the disk, `tryAcquire` either reports ownership, and then the grant was
-- available, the report says whether it was abandoned, the file holds this instance's unreleased
-- grant for one full duration and the handle has it; or it does not, and the handle is unchanged.
pub try_acquire_sound :
    (l : Lease) (now : ℕ) (f : File) (faults : List Bool)
    → let r = run (try_acquire l now) (record { file = f; faults = faults }) in
      ((Available f now)
        × (r.0.1 ≡ ok (record { held = true; abandoned = left_behind f }))
        × (r.1.file ≡ holds (new_grant l now))
        × (r.0.0 ≡ set_owned l (new_grant l now)))
      ⊎ ((reports_held r.0.1 ≡ false) × (r.0.0 ≡ l))
unfolding try_acquire
try_acquire_sound l now missing faults = ground (arith, eq_iff l.role l.role)
try_acquire_sound l now garbled faults = ground arith
try_acquire_sound l now (holds c) faults = ground arith

-- Where nothing fails, an available grant is taken at once.
try_acquire_complete :
    (l : Lease) (now : ℕ) (f : File)
    → Available f now
    → run (try_acquire l now) (quiet f) ≡ (
      (set_owned l (new_grant l now), ok (record { held = true; abandoned = left_behind f })),
      quiet (holds (new_grant l now)),
    )
unfolding try_acquire
try_acquire_complete l now missing h = ground (arith, eq_iff l.role l.role)
try_acquire_complete l now garbled h = absurd h
try_acquire_complete l now (holds c) h = ground (arith, eq_iff l.role l.role)

abbrev pub Names : File → String → Type 0
Names missing role = ⊥
Names garbled role = ⊥
Names (holds c) role = c.owner_role ≡ role

abbrev pub mark_released : File → File
mark_released missing = missing
mark_released garbled = garbled
mark_released (holds c) = holds (record c { released = true })

-- Whatever fails, an instance no longer holds ownership after `release`, and the file either is as
-- it was or, if this instance held ownership and the grant still named it, is that grant marked as
-- released, and the handle remembers when.
pub release-keeps :
    (l : Lease) (now : ℕ) (f : File) (faults : List Bool)
    → let r = run (release l now) (record { file = f; faults = faults }) in
      (r.0.0.held ≡ false)
      × ((r.1.file ≡ f)
          ⊎ ((l.held ≡ true)
              × (Names f l.owned.owner_role)
              × (r.1.file ≡ mark_released f)
              × (r.0.0.released_at ≡ some now)))
unfolding release
release-keeps l now missing faults = ground arith
release-keeps l now garbled faults = ground arith
release-keeps l now (holds c) faults = ground (arith, eq_iff c.owner_role l.owned.owner_role)

-- A clean handover: once the holder of a grant in its own role has released it, where nothing
-- fails, the other instance takes the grant at any later time, however long it had left, and does
-- not call it abandoned.
release-handover :
    (l o : Lease) (now later : ℕ)
    → l.held ≡ true
    → l.owned.owner_role ≡ l.role
    → run (try_acquire o later) (run (release l now) (quiet (holds l.owned))).1 ≡ (
      (set_owned o (new_grant o later), ok (record { held = true; abandoned = false })),
      quiet (holds (new_grant o later)),
    )
unfolding try_acquire release
release-handover l o now later held named =
    ground (arith, eq_iff o.role o.role, eq_iff l.owned.owner_role l.owned.owner_role)

-- Two instances that hold grants of different roles cannot both renew: once one of them has
-- renewed, the other's next renewal, if nothing fails in it, reports that ownership is lost, gives
-- up the handle and leaves the file as it is.
renew-exclusive :
    (l o : Lease) (now later : ℕ) (c : Record) (faults : List Bool)
    → o.owned.owner_role ≢ l.owned.owner_role
    → (run (renew l now) (record { file = holds c; faults = faults })).0.1 ≡ none
    → let d = run (renew l now) (record { file = holds c; faults = faults }) in
      let e = run (renew o later) (quiet d.1.file) in
      (e.0.1 ≡ some ownership_lost) × (e.0.0.held ≡ false) × (e.1.file ≡ d.1.file)
unfolding renew
renew-exclusive l o now later c faults differ renewed =
    ground (arith, eq_iff c.owner_role l.owned.owner_role, eq_iff c.owner_role o.owned.owner_role)
