-- ===== src/Super/Tests.antt =====
-- src/lsm-super.c over a device in memory and a small checksum.
use dm_zns_base.Prelude.{◌≡◌, refl, true, some, arith}
use dm_zns_base.Kernel.{ok}
use dm_zns_base.Block.{zeroed}
use dm_zns_base.Block.Io.{block_read, block_write, submit_block}
use dm_zns_base.Block.Tests.{sum, sum-IsU32, Memory, stored, in_memory, in_memory-Keeps}
use dm_zns_base.Super.{Super, encode, matches, write, read}
use dm_zns_base.Super.Format.{InRange, read-write}

abbrev geometry : Super
geometry = record {
  uuid = 77;
  logical_sectors = 4096;
  zone_size_sectors = 1024;
  nr_zones = 8;
  meta_zone_id = 7;
  sectors_per_block = 8;
}

geometry-InRange : InRange geometry
geometry-InRange = record {
  uuid = omega arith;
  logical_sectors = omega arith;
  zone_size_sectors = omega arith;
  nr_zones = omega arith;
  meta_zone_id = omega arith;
  sectors_per_block = omega arith;
}

abbrev reformatted : Super
reformatted = record geometry { uuid = 78 }

abbrev blank : Memory
blank sector = zeroed

abbrev formatted : Memory
formatted = stored blank 512 (encode sum geometry)

wrote : block_write in_memory blank 512 (encode sum geometry) ≡ (ok, encode sum geometry, formatted)
unfolding block_write submit_block
wrote = refl

got : block_read in_memory formatted 512 zeroed ≡ (ok, encode sum geometry, formatted)
unfolding block_read submit_block
got = refl

read-write_example :
    (write sum in_memory true (some blank) 512 (some geometry) ≡ (ok, some formatted))
    × (read sum in_memory true zeroed (some formatted) 512 (some reformatted)
        ≡ (ok, some geometry, some formatted))
    × (matches (some geometry) (some reformatted) ≡ ok)
read-write_example =
    read-write sum sum-IsU32 in_memory in_memory-Keeps geometry reformatted reformatted blank
      formatted formatted 512 (encode sum geometry) zeroed (encode sum geometry) geometry-InRange
      (refl, refl, refl, refl, refl) wrote got
