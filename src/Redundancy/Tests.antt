-- ===== src/Redundancy/Tests.antt =====
-- The lease at concrete files.
use opdl.Base.{◌≡◌, refl, ◌≢◌, ◌⊎◌, true, false, [], ◌∷◌, Option, none, some, arith, eq_iff}
use opdl.Redundancy.Role.{role_primary, role_standby}
use opdl.Redundancy.Disk.{Disk, Record, free, missing, holds, run}
use opdl.Redundancy.Lease.{
  LeaseConfig, LeaseError, Lease, ok, new_grant, set_owned, try_acquire, renew, release,
}
use opdl.Redundancy.Exclusion.{
  Machine, acquires, waits, first_does, second_does, Reach, here, next, start, Owns, fresh_lease,
  perform, Reach-exclusive,
}
use opdl.Redundancy.Acquisition.{
  quiet, Available, left_behind, reports_held, Names, mark_released, try_acquire_sound,
  release-keeps,
}
use opdl.Redundancy.Interleaving.{interleave, finished_held, contest-both_held}

abbrev config : LeaseConfig
config = record {
  file = "lease.json";
  duration = 30;
  renewal_interval = 10;
  health_check_interval = 5;
  failback_stabilization = 20;
}

abbrev pub primary : Lease
primary = fresh_lease config role_primary 1

abbrev pub standby : Lease
standby = fresh_lease config role_standby 2

pub roles_differ : role_primary ≢ role_standby
roles_differ e = ground (arith, eq_iff role_primary role_standby)

abbrev opening : Machine
opening = start config config role_primary role_standby missing 100

-- The primary acquires, its renewal fails on the disk, time passes, and the standby takes over.
abbrev m1 : Machine
m1 = record opening {
  first = (perform acquires opening.first 100 (quiet missing)).0;
  file = (perform acquires opening.first 100 (quiet missing)).1;
}

abbrev m2 : Machine
m2 = record m1 { now = 140 }

abbrev m3 : Machine
m3 = record m2 {
  second = (perform acquires m2.second 140 (quiet m2.file)).0;
  file = (perform acquires m2.second 140 (quiet m2.file)).1;
}

takeover : Reach opening m3
takeover =
    next (next (next here (first_does acquires [])) (waits 140 (omega arith)))
      (second_does acquires [])

Reach-exclusive_example : ¬ (Owns m3.first m3.now × Owns m3.second m3.now)
Reach-exclusive_example =
    Reach-exclusive config config role_primary role_standby missing 100 {m = m3} roles_differ
      takeover

abbrev pub lapsed : Record
lapsed = record { owner_role = "primary"; owner_pid = 7; expires_unix_nano = 50; released = false }

abbrev pub handed : Record
handed = record lapsed { released = true; expires_unix_nano = 900 }

try_acquire_sound_example :
    let r =
      run (try_acquire standby 100) (record { file = holds lapsed; faults = false ∷ true ∷ [] }) in
    ((Available (holds lapsed) 100)
      × (r.0.1 ≡ ok (record { held = true; abandoned = left_behind (holds lapsed) }))
      × (r.1.file ≡ holds (new_grant standby 100))
      × (r.0.0 ≡ set_owned standby (new_grant standby 100)))
    ⊎ ((reports_held r.0.1 ≡ false) × (r.0.0 ≡ standby))
try_acquire_sound_example = try_acquire_sound standby 100 (holds lapsed) (false ∷ true ∷ [])

handed_free : Available (holds handed) 100
unfolding free
handed_free = refl

abbrev pub owner : Lease
owner = record primary { held = true; owned = new_grant primary 100 }

release-keeps_example :
    let r =
      run (release owner 110) (record { file = holds owner.owned; faults = false ∷ true ∷ [] }) in
    (r.0.0.held ≡ false)
    × ((r.1.file ≡ holds owner.owned)
        ⊎ ((owner.held ≡ true)
            × (Names (holds owner.owned) owner.owned.owner_role)
            × (r.1.file ≡ mark_released (holds owner.owned))
            × (r.0.0.released_at ≡ some 110)))
release-keeps_example = release-keeps owner 110 (holds owner.owned) (false ∷ true ∷ [])

abbrev usurper : Lease
usurper = record standby { held = true; owned = new_grant standby 100 }

abbrev renewed : (Lease × Option LeaseError) × Disk
renewed = run (renew owner 110) (quiet (holds owner.owned))

owner_renews : renewed.0.1 ≡ none
unfolding renew
owner_renews = refl

lapsed_free : Available (holds lapsed) 100
unfolding free
lapsed_free = refl

contest-both_held_example :
    let (p, q, g) =
      interleave
        (true ∷ false ∷ true ∷ true ∷ false ∷ false ∷ [])
        (try_acquire primary 100)
        (try_acquire standby 100)
        (holds lapsed) in
    (finished_held p ≡ true) × (finished_held q ≡ true) × (g ≡ holds (new_grant standby 100))
contest-both_held_example = contest-both_held primary standby 100 (holds lapsed) lapsed_free
