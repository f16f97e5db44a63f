-- ===== src/Lsm/Tests/Runs.antt =====
-- Runs of src/engines/zns-engine-lsm.c on the device of two zones.
use dm_zns_base.Prelude.{ℕ, ◌≡◌, refl, some, [], ◌∷◌, arith, suc, zero, get_elem?}
use dm_zns_base.Block.Tests.{Memory, in_memory-IsDevice, content}
use dm_zns_base.Memtable.Tests.{plain-IsRbtree}
use dm_zns_base.Generations.Active.{tables, tables-IsValidTables}
use dm_zns_base.Memtable.{Entry, empty_memtable, in_order, find, put_at}
use mathlib.Core.Option.{some-injective}
use mathlib.Core.Path.{subst}
use dm_zns_base.Sstable.Payload.{InRange}
use dm_zns_base.Memtable.Laws.{put_table-IsValid, empty-IsValid}
use dm_zns_base.Lsm.Index.{update_gc_block_location, gc_restore_entry}
use dm_zns_base.Lsm.Index.Moves.{
  Recorded, Restored, update_gc_block_location-Recorded, gc_restore_entry-Restored,
}
use dm_zns_base.Lsm.State.{ZnsLsm}
use dm_zns_base.Lsm.Reading.{read}
use dm_zns_base.Lsm.Reading.Log.{log_answer}
use dm_zns_base.Lsm.Reading.Newest.{IsReadable, Answered, read-Answered}
use dm_zns_base.Lsm.Flush.{flush_worker}
use dm_zns_base.Lsm.Flush.Steps.{IsStore}
use dm_zns_base.Lsm.Flush.Worker.{Flushed, flush_worker-Flushed}
use dm_zns_base.Lsm.Publish.{publish_write}
use dm_zns_base.Lsm.Publish.Agreement.{Published, publish_write-Published}
use dm_zns_base.Lsm.Collect.{gc_relocate_block, run_gc_if_needed}
use dm_zns_base.Lsm.Collect.Relocate.{Relocated, gc_relocate_block-Relocated}
use dm_zns_base.Lsm.Collect.Cleaned.{Safe}
use dm_zns_base.Lsm.Collect.Lossless.{run_gc_if_needed-Safe}
use dm_zns_base.Lsm.Append.Written.{Written}
use dm_zns_base.Lsm.Request.{copy_from_bio}
use dm_zns_base.Lsm.Request.Fragments.{Copied, total_bytes, copy_from_bio-Copied}
use dm_zns_base.Block.{zeroed}
use dm_zns_base.Prelude.{true}
use dm_zns_base.Engine.{BioOp}
use dm_zns_base.Lsm.Request.{LsmBio}
use dm_zns_base.Lsm.Worker.{engine_map}
use dm_zns_base.Lsm.Worker.Range.{Mapped, engine_map-Mapped}
use dm_zns_base.Lsm.Tests.World.{
  Entries, env, entries, entries-IsXArray, two_zones, two_zones-IsValid, indexes, running,
  running-Agrees, running-IsReady, running-IsWhole, nothing, memory, memory-IsValid, ground_env,
  world_env, reset-IsResetConfined,
}

update_gc_block_location-Recorded_example :
    Recorded entries two_zones 8 indexes 5 64
      (update_gc_block_location entries two_zones 8 5 64 indexes)
update_gc_block_location-Recorded_example =
    update_gc_block_location-Recorded entries two_zones 8 entries-IsXArray indexes 5 64
      two_zones-IsValid (omega arith) running-Agrees (omega arith)

gc_restore_entry-Restored_example :
    Restored entries two_zones 8 entries-IsXArray indexes 4 64 two_zones-IsValid
      (omega arith)
      40
      (gc_restore_entry entries two_zones 8 40 4 64 indexes)
gc_restore_entry-Restored_example =
    gc_restore_entry-Restored entries two_zones 8 entries-IsXArray indexes 4 64 two_zones-IsValid
      (omega arith) 40 running-Agrees (omega arith)

publish_write-Published_example : Published env running 4 64 (publish_write env running 32 64)
publish_write-Published_example =
    publish_write-Published env entries-IsXArray plain-IsRbtree running 32 64 running-IsReady
      (omega arith)

gc_relocate_block-Relocated_example :
    Relocated env content nothing ground_env running 3
      (gc_relocate_block env running 3 72 env.uninit)
unfolding find put_at
gc_relocate_block-Relocated_example =
    gc_relocate_block-Relocated env content nothing ground_env running 3 72 env.uninit
      running-IsWhole refl (omega arith)

run_gc_if_needed-Safe_example :
    Safe env content nothing ground_env running (run_gc_if_needed env running).1
run_gc_if_needed-Safe_example =
    run_gc_if_needed-Safe env content nothing ground_env reset-IsResetConfined running
      running-IsWhole

running-IsReadable : IsReadable env content in_memory-IsDevice running
running-IsReadable = record { memory = memory-IsValid; runs = []; listed = refl; on_disk = tt }

read-Answered_example :
    Answered env content in_memory-IsDevice running 0
      (log_answer 0 (some 72))
      (read env running 24 8 0)
unfolding find put_at
read-Answered_example =
    read-Answered env content in_memory-IsDevice running 24 8 0 running-IsReadable

-- The same state with the table frozen.
abbrev frozen : ZnsLsm Memory Entries
frozen = record running { tables = tables empty_memtable (some memory) }

frozen-InRange : (j : ℕ) (e : Entry) → get_elem? (in_order memory.root) j ≡ some e → InRange e
unfolding put_at
frozen-InRange zero e h =
    subst InRange (some-injective _ _ h)
      (record { logical_block = omega arith; physical_sector = omega arith })
frozen-InRange (suc j) e h = absurd (ground (arith, h))

frozen-IsStore : IsStore env content world_env frozen
unfolding put_at
frozen-IsStore = record {
  readable = record {
    memory =
        tables-IsValidTables empty_memtable (some memory) empty-IsValid
          (put_table-IsValid env.rb plain-IsRbtree empty_memtable 3 72 empty-IsValid);
    runs = [];
    listed = refl;
    on_disk = tt;
  };
  flushing_valid = tt;
  immutable_fits = (omega arith, frozen-InRange);
  flushing_fits = tt;
  end_small = omega arith;
}

flush_worker-Flushed_example :
    Flushed env content world_env frozen frozen-IsStore
      (flush_worker env frozen).0
      (flush_worker env frozen).1
flush_worker-Flushed_example = flush_worker-Flushed env content world_env frozen frozen-IsStore

-- Three bytes from the middle of the first segment to the middle of the second.
copy_from_bio-Copied_example :
    Copied
      ((1 ∷ 2 ∷ []) ∷ (3 ∷ 4 ∷ []) ∷ [])
      1
      zeroed
      100
      3
      0
      (copy_from_bio ((1 ∷ 2 ∷ []) ∷ (3 ∷ 4 ∷ []) ∷ []) 1 zeroed 100 3 0)
unfolding total_bytes
copy_from_bio-Copied_example =
    copy_from_bio-Copied ((1 ∷ 2 ∷ []) ∷ (3 ∷ 4 ∷ []) ∷ []) 1 zeroed 100 3 0 (omega arith)
      (omega arith)

-- A log whose first block is no header.
abbrev unread : ZnsLsm Memory Entries
unread = record running { meta_wp = 64 }

-- Two sectors, one in each of two blocks.
abbrev straddling : LsmBio
straddling = record { op = BioOp.write; sector = 7; size = 1024; segments = [] }

engine_map-Mapped_example :
    Mapped true 40 8 [] straddling (engine_map true (some running) [] straddling)
engine_map-Mapped_example = engine_map-Mapped true running [] straddling (omega arith) refl
