-- ===== src/Append4kAlloc/Tests.antt =====
-- Runs of src/engines/zns-engine-append4k-alloc.c on a small device, and the theorems at those runs.
use dm_zns_base.Prelude.{ℕ, ◌≡◌, refl, true, false, some, none, List, [], ◌∷◌, arith}
use dm_zns_base.Kernel.{ok}
use dm_zns_base.Engine.{BioOp, Bio, BioDevice, MapIo, is_aligned_io}
use dm_zns_base.Engine.Store.{run}
use dm_zns_base.Append4kAlloc.{Append4kAlloc, write, made, init, map_bio}
use dm_zns_base.Append4kAlloc.Mapping.{IsBacked, Allocated, write-Allocated, init-IsBacked}
use dm_zns_base.Append4kAlloc.Runs.{map_bio-read_after_write}
use dm_zns_base.Allocator
use dm_zns_base.Allocator.{alloc, alloc_linear, reset}

abbrev bio_at : BioOp → ℕ → Bio
bio_at op sector = record {
  op = op;
  sector = sector;
  sectors = 8;
  device = BioDevice.upper;
  zeroed = false;
  ended = false;
}

-- Three logical blocks over four physical ones.
abbrev empty_map : Append4kAlloc
empty_map = made 3 8 (record reset { physical_sectors = 32; sectors_per_block = 8 })

init_runs : init true true none 24 32 8 ≡ (ok, some empty_map)
unfolding init Allocator.init
init_runs = refl

empty_map-IsBacked : IsBacked empty_map
empty_map-IsBacked = (init-IsBacked true true none 24 32 8 (omega arith) init_runs).0

write-Allocated_example : Allocated empty_map 16 8 0 (write empty_map 16 8 0)
write-Allocated_example = write-Allocated empty_map 16 8 0 empty_map-IsBacked

-- A write of another block and a read come in between.
abbrev between : List Bio
between = bio_at BioOp.write 8 ∷ bio_at BioOp.read 16 ∷ []

sent : (map_bio empty_map (bio_at BioOp.write 16) 0).0 ≡ MapIo.remapped
unfolding map_bio write is_aligned_io alloc alloc_linear
sent = refl

map_bio-read_after_write_example :
    map_bio
      (run map_bio (map_bio empty_map (bio_at BioOp.write 16) 0).2 between 0)
      (bio_at BioOp.read 16)
      0
    ≡ (
      MapIo.remapped,
      record (bio_at BioOp.read 16) {
        sector = (map_bio empty_map (bio_at BioOp.write 16) 0).1.sector;
        device = BioDevice.lower;
      },
      run map_bio (map_bio empty_map (bio_at BioOp.write 16) 0).2 between 0,
    )
map_bio-read_after_write_example =
    map_bio-read_after_write empty_map (bio_at BioOp.write 16) (bio_at BioOp.read 16) between 0
      empty_map-IsBacked refl refl refl refl sent
      (λ e f. absurd (omega (arith, f)), (λ e f. absurd (ground arith), tt))
