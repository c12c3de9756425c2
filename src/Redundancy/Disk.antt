-- ===== src/Redundancy/Disk.antt =====
-- The lease file of platform/internal/machine/redundancy/lease.go (`record`, `readRecord`,
-- `writeRecord`) and the programs that read and write it. A program is a tree of reads and writes,
-- so that it can run alone on a disk or be interleaved with the other instance's.
-- encoding/json is seen only through what a reader gets: a file holds a grant or is not decodable.
-- A write is atomic (utils/atomicfile): one that fails leaves the file as it was.
use opdl.Base.{ℕ, Bool, true, false, List, [], ◌∷◌, String, leb, ◌||◌, if◌then◌else◌}

-- Instants are nanoseconds since the Unix epoch, of the one clock that both instances share.
pub record Record : Type 0 where
  pub owner_role : String
  pub owner_pid : ℕ
  pub expires_unix_nano : ℕ
  pub released : Bool

unfoldable pub expired : Record → ℕ → Bool
expired r now = leb r.expires_unix_nano now

unfoldable pub free : Record → ℕ → Bool
unfolding expired
free r now = r.released || expired r now

pub data File : Type 0 where
  missing : File
  garbled : File
  holds : Record → File

-- What `readRecord` returns: exists = false, an error, or the record.
pub data ReadResult : Type 0 where
  absent : ReadResult
  read_failed : ReadResult
  found : Record → ReadResult

pub data DiskIo (A : Type 0) : Type 0 where
  done : A → DiskIo A
  read_record : (ReadResult → DiskIo A) → DiskIo A
  -- The continuation gets `true` if the write landed.
  write_record : Record → (Bool → DiskIo A) → DiskIo A

-- The file and, for each operation to come, whether it fails; past the list's end none does.
pub record Disk : Type 0 where
  pub file : File
  pub faults : List Bool

abbrev pub next_fault : List Bool → Bool
next_fault [] = false
next_fault (f ∷ fs) = f

abbrev pub later_faults : List Bool → List Bool
later_faults [] = []
later_faults (f ∷ fs) = fs

abbrev pub read_file : File → ReadResult
read_file missing = absent
read_file garbled = read_failed
read_file (holds r) = found r

-- One program running alone.
abbrev pub run : {A : Type 0} → DiskIo A → Disk → A × Disk
run (done a) d = (a, d)
run (read_record k) d =
    run (k (if next_fault d.faults then read_failed else read_file d.file))
      (record d { faults = later_faults d.faults })
run (write_record r k) d = run (k (if next_fault d.faults then false else true)) (record {
  file = if next_fault d.faults then d.file else holds r;
  faults = later_faults d.faults;
})
