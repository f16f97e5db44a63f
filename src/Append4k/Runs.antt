-- ===== src/Append4k/Runs.antt =====
-- src/engines/zns-engine-append4k.c: what `zns_engine_map` does over a run of requests.
use dm_zns_base.Prelude.{ℕ, ◌≡◌, ◌≢◌, refl, Bool, none, some, if◌then◌else◌, List, All, arith}
use dm_zns_base.Kernel.{Ret, ok, Ptr, is_ok, is_live}
use dm_zns_base.Engine.{BioOp, Bio, BioDevice, MapIo}
use dm_zns_base.Engine.Store.{Laws, Spares, run, read_back, op-IsValid}
use dm_zns_base.Append4k.{init, exit, Append4k, read, write, map_bio}
use dm_zns_base.Append4k.Mapping.{IsValid, Written, write-Written}

Written-IsValid :
    (m : Append4k) (s n cell : ℕ) {w : Ret × ℕ × Append4k}
    → IsValid m
    → Written m s n cell w
    → IsValid w.2
Written-IsValid m s n cell v (Written.refused e h) = v
Written-IsValid m s n cell v (Written.stored m' v' _ _ _) = v'

Written-reads :
    (m : Append4k) (s n cell : ℕ) {w : Ret × ℕ × Append4k}
    → Written m s n cell w
    → w.0 ≡ ok
    → (c : ℕ) → read w.2 s n c ≡ (ok, w.1)
Written-reads m s n cell (Written.refused e _) h c = absurd (ground arith)
Written-reads m s n cell (Written.stored m' _ _ _ reads) h c = ground (arith, reads s n c)

Written-keeps :
    (m : Append4k) (s n cell t k c : ℕ) {w : Ret × ℕ × Append4k}
    → Written m s n cell w
    → s ≢ t
    → read w.2 t k c ≡ read m t k c
Written-keeps m s n cell t k c (Written.refused e _) ne = refl
Written-keeps m s n cell t k c (Written.stored m' _ _ _ reads) ne = ground (arith, reads t k c)

laws : Laws IsValid read write
laws = record {
  valid = λ m s n cell v. Written-IsValid m s n cell v (write-Written m s n cell v);
  reads = λ m s n cell v h c. Written-reads m s n cell (write-Written m s n cell v) h c;
  keeps = λ m s n cell t k c v ne. Written-keeps m s n cell t k c (write-Written m s n cell v) ne;
}

-- Every request keeps a valid map valid.
pub map_bio-IsValid :
    (m : Append4k) (bio : Bio) (cell : ℕ) → IsValid m → IsValid (map_bio m bio cell).2
unfolding map_bio
map_bio-IsValid m bio cell v = op-IsValid IsValid read write laws m bio.op bio cell v

-- On a valid map, once a write is sent below to some sector, a read of the same sectors is sent
-- below to that sector too, whatever requests come in between that write elsewhere.
pub map_bio-read_back :
    (m : Append4k) (w r : Bio) (bios : List Bio) (cell : ℕ)
    → IsValid m
    → w.op ≡ BioOp.write
    → r.op ≡ BioOp.read
    → r.sector ≡ w.sector
    → r.sectors ≡ w.sectors
    → (map_bio m w cell).0 ≡ MapIo.remapped
    → All (Spares w.sector) bios
    → map_bio (run map_bio (map_bio m w cell).2 bios cell) r cell ≡ (
      MapIo.remapped,
      record r { sector = (map_bio m w cell).1.sector; device = BioDevice.lower },
      run map_bio (map_bio m w cell).2 bios cell,
    )
unfolding map_bio
map_bio-read_back = read_back IsValid read write laws

-- Initialisation leaves an engine exactly if it succeeds, and the exit leaves none.
pub init_one :
    (granted granted_map : Bool) (len physical block : ℕ)
    → is_live (init granted granted_map none len physical block).1
      ≡ (if is_ok (init granted granted_map none len physical block).0 then 1 else 0)
unfolding init
init_one granted granted_map len physical block = ground arith

pub exit_none : (e : Ptr Append4k) → exit e ≡ none
unfolding exit
exit_none none = refl
exit_none (some m) = refl
