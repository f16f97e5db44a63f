-- ===== src/Append4kAlloc/Runs.antt =====
-- src/engines/zns-engine-append4k-alloc.c: what `zns_engine_map` does over a run of requests.
use dm_zns_base.Prelude.{ℕ, ◌≡◌, ◌≢◌, refl, List, All, arith}
use dm_zns_base.Kernel.{Ret, ok}
use dm_zns_base.Engine.{BioOp, Bio, BioDevice, MapIo}
use dm_zns_base.Engine.Store.{Laws, Spares, run, read_back, op-IsValid}
use dm_zns_base.Append4kAlloc.{Append4kAlloc, read, write, map_bio}
use dm_zns_base.Append4kAlloc.Mapping.{IsBacked, Allocated, write-Allocated}

Allocated-IsBacked :
    (m : Append4kAlloc) (s n cell : ℕ) {w : Ret × ℕ × Append4kAlloc}
    → IsBacked m
    → Allocated m s n cell w
    → IsBacked w.2
Allocated-IsBacked m s n cell v (Allocated.refused e h) = v
Allocated-IsBacked m s n cell v (Allocated.stored m' v' _ _ _) = v'

Allocated-reads :
    (m : Append4kAlloc) (s n cell : ℕ) {w : Ret × ℕ × Append4kAlloc}
    → Allocated m s n cell w
    → w.0 ≡ ok
    → (c : ℕ) → read w.2 s n c ≡ (ok, w.1)
Allocated-reads m s n cell (Allocated.refused e _) h c = absurd (ground arith)
Allocated-reads m s n cell (Allocated.stored m' _ _ _ reads) h c = ground (arith, reads s n c)

Allocated-keeps :
    (m : Append4kAlloc) (s n cell t k c : ℕ) {w : Ret × ℕ × Append4kAlloc}
    → Allocated m s n cell w
    → s ≢ t
    → read w.2 t k c ≡ read m t k c
Allocated-keeps m s n cell t k c (Allocated.refused e _) ne = refl
Allocated-keeps m s n cell t k c (Allocated.stored m' _ _ _ reads) ne = ground (arith, reads t k c)

laws : Laws IsBacked read write
laws = record {
  valid = λ m s n cell v. Allocated-IsBacked m s n cell v (write-Allocated m s n cell v);
  reads = λ m s n cell v h c. Allocated-reads m s n cell (write-Allocated m s n cell v) h c;
  keeps =
      λ m s n cell t k c v ne. Allocated-keeps m s n cell t k c (write-Allocated m s n cell v) ne;
}

-- Every request keeps a valid map valid.
pub map_bio-IsBacked :
    (m : Append4kAlloc) (bio : Bio) (cell : ℕ) → IsBacked m → IsBacked (map_bio m bio cell).2
unfolding map_bio
map_bio-IsBacked m bio cell v = op-IsValid IsBacked read write laws m bio.op bio cell v

-- On a valid map, once a write is sent below to some sector, a read of the same sectors is sent
-- below to that sector too, whatever requests come in between that write elsewhere.
pub map_bio-read_after_write :
    (m : Append4kAlloc) (w r : Bio) (bios : List Bio) (cell : ℕ)
    → IsBacked m
    → w.op ≡ BioOp.write
    → r.op ≡ BioOp.read
    → r.sector ≡ w.sector
    → r.sectors ≡ w.sectors
    → (map_bio m w cell).0 ≡ MapIo.remapped
    → All (Spares w.sector) bios
    → map_bio (run map_bio (map_bio m w cell).2 bios cell) r cell ≡ (
      MapIo.remapped,
      record r { sector = (map_bio m w cell).1.sector; device = BioDevice.lower },
      run map_bio (map_bio m w cell).2 bios cell,
    )
unfolding map_bio
map_bio-read_after_write = read_back IsBacked read write laws
