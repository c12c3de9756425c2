-- ===== src/Redundancy/Exclusion.antt =====
-- Mutual exclusion of a machine's two instances on the lease file (redundancy/lease.go): their
-- operations one at a time, with any disk faults, restarts and waits between them.
use opdl.Base.{ℕ, ◌≤◌, ◌<◌, ◌≡◌, refl, sym, ◌≢◌, Bool, true, false, List, arith, eq_iff, none}
use opdl.Redundancy.Role.{InstanceRole}
use opdl.Redundancy.Disk.{Disk, File, missing, garbled, holds, run}
use opdl.Redundancy.Lease.{LeaseConfig, Lease, zero_record, try_acquire, renew, release}

-- A held, unexpired lease is the grant that the file holds, under the instance's own role.
pub record Backed (l : Lease) (f : File) (now : ℕ) : Type 0 where
  pub named : l.held ≡ true → l.owned.owner_role ≡ l.role
  pub kept : l.held ≡ true → l.owned.released ≡ false
  pub written : l.held ≡ true → now < l.owned.expires_unix_nano → f ≡ holds l.owned

module _ (l : Lease) (now : ℕ) (d : Disk) (h : Backed l d.file now) where
  acquire-Backed : let r = run (try_acquire l now) d in Backed r.0.0 r.1.file now
  unfolding try_acquire
  acquire-Backed = ground arith

  release-Backed : let r = run (release l now) d in Backed r.0.0 r.1.file now
  unfolding release
  release-Backed = ground arith

renew-Backed :
    (l : Lease) (now : ℕ) (f : File) (faults : List Bool)
    → Backed l f now
    → let r = run (renew l now) (record { file = f; faults = faults }) in Backed r.0.0 r.1.file now
unfolding renew
renew-Backed l now missing faults h = ground arith
renew-Backed l now garbled faults h = ground arith
renew-Backed l now (holds c) faults h = ground (arith, eq_iff c.owner_role l.owned.owner_role)

-- What one instance does to the file leaves a held, unexpired lease of the other in place.
module _ (l o : Lease) (now : ℕ) (d : Disk) (h : Backed l d.file now) (k : Backed o d.file now)
    (other : o.role ≢ l.role) where
  acquire-Backed_other : Backed o (run (try_acquire l now) d).1.file now
  unfolding try_acquire
  acquire-Backed_other = ground arith

  renew-Backed_other : Backed o (run (renew l now) d).1.file now
  unfolding renew
  renew-Backed_other = ground (arith, eq_iff o.owned.owner_role l.owned.owner_role)

  release-Backed_other : Backed o (run (release l now) d).1.file now
  unfolding release
  release-Backed_other = ground (arith, eq_iff o.owned.owner_role l.owned.owner_role)

pub data Op : Type 0 where
  acquires renews releases : Op
  -- A new process of the same instance, under a new process id.
  restarts : ℕ → Op

-- The handle that `OpenLease` returns.
abbrev pub fresh_lease : LeaseConfig → InstanceRole → ℕ → Lease
fresh_lease cfg role pid = record {
  cfg = cfg;
  role = role;
  pid = pid;
  held = false;
  owned = zero_record;
  released_at = none;
}

-- One operation of an instance: its handle and the file afterwards.
pub perform : Op → Lease → ℕ → Disk → Lease × File
perform acquires l now d = let r = run (try_acquire l now) d in (r.0.0, r.1.file)
perform renews l now d = let r = run (renew l now) d in (r.0.0, r.1.file)
perform releases l now d = let r = run (release l now) d in (r.0.0, r.1.file)
perform (restarts pid) l now d = (fresh_lease l.cfg l.role pid, d.file)

pub record Machine : Type 0 where
  pub file : File
  pub now : ℕ
  pub first : Lease
  pub second : Lease

abbrev disk_of : Machine → List Bool → Disk
disk_of m faults = record { file = m.file; faults = faults }

pub data Step (m : Machine) : Machine → Type 0 where
  waits : (later : ℕ) → m.now ≤ later → Step m (record m { now = later })
  first_does :
      (op : Op) (faults : List Bool)
      → Step m (record m {
        first = (perform op m.first m.now (disk_of m faults)).0;
        file = (perform op m.first m.now (disk_of m faults)).1;
      })
  second_does :
      (op : Op) (faults : List Bool)
      → Step m (record m {
        second = (perform op m.second m.now (disk_of m faults)).0;
        file = (perform op m.second m.now (disk_of m faults)).1;
      })

pub data Reach (s : Machine) : Machine → Type 0 where
  here : Reach s s
  next : {m n : Machine} → Reach s m → Step m n → Reach s n

pub record Inv (m : Machine) : Type 0 where
  pub distinct : m.first.role ≢ m.second.role
  pub first_backed : Backed m.first m.file m.now
  pub second_backed : Backed m.second m.file m.now

perform-role : (op : Op) (l : Lease) (now : ℕ) (d : Disk) → (perform op l now d).0.role ≡ l.role
unfolding perform try_acquire renew release
perform-role acquires l now d = ground arith
perform-role renews l now d = ground arith
perform-role releases l now d = ground arith
perform-role (restarts pid) l now d = refl

perform-Backed :
    (op : Op) (l : Lease) (now : ℕ) (d : Disk)
    → Backed l d.file now
    → let r = perform op l now d in Backed r.0 r.1 now
unfolding perform
perform-Backed acquires l now d h = acquire-Backed l now d h
perform-Backed renews l now d h = renew-Backed l now d.file d.faults h
perform-Backed releases l now d h = release-Backed l now d h
perform-Backed (restarts pid) l now d h = ground arith

perform-Backed_other :
    (op : Op) (l o : Lease) (now : ℕ) (d : Disk)
    → Backed l d.file now
    → Backed o d.file now
    → o.role ≢ l.role
    → Backed o (perform op l now d).1 now
unfolding perform
perform-Backed_other acquires l o now d h k other = acquire-Backed_other l o now d h k other
perform-Backed_other renews l o now d h k other = renew-Backed_other l o now d h k other
perform-Backed_other releases l o now d h k other = release-Backed_other l o now d h k other
perform-Backed_other (restarts pid) l o now d h k other = k

Step-Inv : {m n : Machine} → Step m n → Inv m → Inv n
Step-Inv {m = m} (waits later le) h = record {
  distinct = h.distinct;
  first_backed = ground arith;
  second_backed = ground arith;
}
Step-Inv {m = m} (first_does op faults) h = record {
  distinct = ground (arith, perform-role op m.first m.now (disk_of m faults));
  first_backed = perform-Backed op m.first m.now (disk_of m faults) h.first_backed;
  second_backed =
      perform-Backed_other op m.first m.second m.now (disk_of m faults) h.first_backed
        h.second_backed λ e. h.distinct (sym e);
}
Step-Inv {m = m} (second_does op faults) h = record {
  distinct = ground (arith, perform-role op m.second m.now (disk_of m faults));
  first_backed =
      perform-Backed_other op m.second m.first m.now (disk_of m faults) h.second_backed
        h.first_backed h.distinct;
  second_backed = perform-Backed op m.second m.now (disk_of m faults) h.second_backed;
}

pub Reach-Inv : {s m : Machine} → Inv s → Reach s m → Inv m
Reach-Inv h here = h
Reach-Inv h (next r st) = Step-Inv st (Reach-Inv h r)

-- Both handles just opened, and any lease file.
abbrev pub start : LeaseConfig → LeaseConfig → InstanceRole → InstanceRole → File → ℕ → Machine
start cfg cfg' role role' file now = record {
  file = file;
  now = now;
  first = fresh_lease cfg role 1;
  second = fresh_lease cfg' role' 2;
}

-- An instance that holds an unexpired lease.
abbrev pub Owns : Lease → ℕ → Type 0
Owns l now = (l.held ≡ true) × (now < l.owned.expires_unix_nano)

Inv-exclusive : {m : Machine} → Inv m → ¬ (Owns m.first m.now × Owns m.second m.now)
Inv-exclusive h both = ground arith

-- Whatever the two instances of a machine do from any lease file on, one operation at a time, with
-- any failing reads and writes, restarts and waits, at no time do both hold a lease that has not
-- expired, provided that their roles differ.
pub Reach-exclusive :
    (cfg cfg' : LeaseConfig) (role role' : InstanceRole) (file : File) (now : ℕ) {m : Machine}
    → role ≢ role'
    → Reach (start cfg cfg' role role' file now) m
    → ¬ (Owns m.first m.now × Owns m.second m.now)
Reach-exclusive cfg cfg' role role' file now differ r = Inv-exclusive (Reach-Inv start-Inv r)
  where
    start-Inv : Inv (start cfg cfg' role role' file now)
    start-Inv = record {
      distinct = differ;
      first_backed = ground arith;
      second_backed = ground arith;
    }
