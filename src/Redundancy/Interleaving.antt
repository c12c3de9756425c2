-- ===== src/Redundancy/Interleaving.antt =====
-- Two instances of redundancy/lease.go whose disk operations interleave: each read or write of one
-- may fall between any two of the other's.
use opdl.Base.{
  ℕ, ◌≡◌, ◌≢◌, Bool, true, false, List, [], ◌∷◌, ◌++◌, arith, eq_iff, string_eq, if◌then◌else◌, not,
}
use opdl.Redundancy.Disk.{DiskIo, done, read_record, write_record, File, holds, read_file}
use opdl.Redundancy.Lease.{Lease, Acquisition, Result, new_grant, try_acquire}
use opdl.Redundancy.Acquisition.{Available, reports_held, Names}

-- One disk operation of a program; nothing fails.
pub micro_step : {A : Type 0} → DiskIo A → File → DiskIo A × File
micro_step (done a) f = (done a, f)
micro_step (read_record k) f = (k (read_file f), f)
micro_step (write_record r k) f = (k true, holds r)

-- `true` lets the first program make its next disk operation, `false` the second.
pub interleave :
    {A B : Type 0} → List Bool → DiskIo A → DiskIo B → File → DiskIo A × DiskIo B × File
unfolding micro_step
interleave [] p q f = (p, q, f)
interleave (true ∷ s) p q f = let (p', f') = micro_step p f in interleave s p' q f'
interleave (false ∷ s) p q f = let (q', f') = micro_step q f in interleave s p q' f'

abbrev pub finished_held : DiskIo (Lease × Result Acquisition) → Bool
finished_held (done r) = reports_held r.1
finished_held (read_record k) = false
finished_held (write_record r k) = false

abbrev pub pair_order : Bool → List Bool
pair_order b = b ∷ not b ∷ []

-- Two instances of different roles both find a grant that is available, and both write before
-- either confirms: in whatever order they write and confirm, the one that wrote last, and it
-- alone, acquires, and the file names it.
contest-one_winner :
    (l o : Lease) (now : ℕ) (f : File) (first_writes first_confirms : Bool)
    → Available f now
    → l.role ≢ o.role
    → let (p, q, g) =
        interleave
          (true ∷ false ∷ pair_order first_writes ++ pair_order first_confirms)
          (try_acquire l now)
          (try_acquire o now)
          f in
      (finished_held p ≡ not first_writes)
      × (finished_held q ≡ first_writes)
      × (Names g (if first_writes then o.role else l.role))
unfolding interleave try_acquire
contest-one_winner l o now f w c h differ =
    ground (
      arith,
      eq_iff l.role o.role,
      eq_iff o.role l.role,
      eq_iff l.role l.role,
      eq_iff o.role o.role,
    )

-- If two instances both find a grant that is available and one of them confirms before the other
-- writes, both report that they acquired it. The file then holds the grant of the second.
pub contest-both_held :
    (l o : Lease) (now : ℕ) (f : File)
    → Available f now
    → let (p, q, g) =
        interleave
          (true ∷ false ∷ true ∷ true ∷ false ∷ false ∷ [])
          (try_acquire l now)
          (try_acquire o now)
          f in
      (finished_held p ≡ true) × (finished_held q ≡ true) × (g ≡ holds (new_grant o now))
unfolding interleave try_acquire
contest-both_held l o now f h = ground (arith, eq_iff l.role l.role, eq_iff o.role o.role)
