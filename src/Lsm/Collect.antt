-- ===== src/Lsm/Collect.antt =====
-- src/engines/zns-engine-lsm.c: the collection of one zone: its live blocks move to the reserve, the
-- zone is reset, and becomes the reserve.
pub mod Whole
pub mod Kept
pub mod Taken
pub mod Relocate
pub mod Reset
pub mod Cleaned
pub mod Lossless
use dm_zns_base.Prelude.{
  ℕ, zero, suc, ◌+◌, ◌*◌, ◌%◌, Bool, true, false, not, ◌&&◌, List, Option, none, some, ◌==◌, leb,
  if◌then◌else◌, get_elem?, add64, u64_mod,
}
use dm_zns_base.Kernel.{Errno, Ret, ok, err, fault, Ptr}
use dm_zns_base.Zone.{ZnsZone}
use dm_zns_base.Allocator.{Allocator, alloc_gc, has_space, set_reserve_after_reset}
use dm_zns_base.Block.{Block}
use dm_zns_base.Block.Io.{block_read, block_write}
use dm_zns_base.Gc.{GcContext, Victim}
use dm_zns_base.Lsm.Index.{GcZone, slot_at, decode_logical_block}
use dm_zns_base.Lsm.State.{Env, ZnsLsm, then_do}
use dm_zns_base.Lsm.Publish.{
  zone_free_blocks, gc_zone_of, valid_of, zone_or_zero, gc_get_zone_info, gc_validate_victim,
  publish_write,
}

-- Attempt number `n` is the one that a module parameter makes fail (0: none).
abbrev pub injected : ℕ → ℕ → Bool
injected fail_at n = not (fail_at == 0) && (n == fail_at)

module _ {D X : Type 0} (env : Env D X) where
  -- What a write of a buffer left of the device.
  abbrev pub wrote : ZnsLsm D X → Ret × Block × D → Ret × ZnsLsm D X
  wrote s (ret, _, disk) = (ret, record s { disk = disk })

  abbrev pub move_counted : ZnsLsm D X → ZnsLsm D X
  move_counted s = record s { gc_moved = add64 s.gc_moved 1 }

  abbrev pub moved : Ret × ZnsLsm D X → Ret × ZnsLsm D X
  moved (ok, s) = (ok, move_counted s)
  moved (err e, s) = (err e, s)
  moved (fault, s) = (fault, s)

  -- The write of the copy, or the injected failure; then its publication.
  abbrev pub move_to : ZnsLsm D X → ℕ → ℕ → Block → Ret × ZnsLsm D X
  move_to s logical_block destination_sector buffer =
      let s' = record s { gc_move_write_attempts = add64 s.gc_move_write_attempts 1 } in
      then_do
        (if injected env.fail_gc_move_write_at s'.gc_move_write_attempts
          then (err Errno.eio, s')
          else wrote s' (block_write env.layer s'.disk destination_sector buffer))
        (λ t.
          moved (
            publish_write env t (logical_block * t.sectors_per_block % u64_mod) destination_sector))

  abbrev pub destination : ZnsLsm D X → ℕ → Block → Ret × Ptr ℕ × Ptr Allocator → Ret × ZnsLsm D X
  destination s logical_block buffer (ok, some sector, some a) =
      move_to (record s { allocator = a }) logical_block sector buffer
  destination s logical_block buffer (ok, _, _) = (fault, s)
  destination s logical_block buffer (err e, _, some a) = (err e, record s { allocator = a })
  destination s logical_block buffer (err e, _, none) = (err e, s)
  destination s logical_block buffer (fault, _, _) = (fault, s)

  abbrev pub source_read : ℕ → ZnsLsm D X → Ret × Block × D → Ret × ZnsLsm D X
  source_read logical_block s (ok, buffer, disk) =
      destination (record s { disk = disk }) logical_block buffer
        (alloc_gc (some s.allocator) (some 0))
  source_read logical_block s (err e, buffer, disk) = (err e, record s { disk = disk })
  source_read logical_block s (fault, buffer, disk) = (fault, record s { disk = disk })

  -- The buffer comes in with any contents: the read fills it.
  pub gc_relocate_block : ZnsLsm D X → ℕ → ℕ → Block → Ret × ZnsLsm D X
  gc_relocate_block s logical_block source_sector buffer =
      source_read logical_block s (block_read env.layer s.disk source_sector buffer)

  -- One round of the loop, with what the slot holds: a used slot has its block moved.
  abbrev pub slot_round :
      (ZnsLsm D X → Ret × ZnsLsm D X) → ℕ → ZnsLsm D X → Option ℕ → Ret × ZnsLsm D X
  slot_round rest source_sector s none = (fault, s)
  slot_round rest source_sector s (some zero) = rest s
  slot_round rest source_sector s (some (suc entry)) =
      then_do (gc_relocate_block s (decode_logical_block (suc entry)) source_sector env.uninit) rest

  -- The loop over `n` slots of the victim, from `slot` on. Each round reads the slot in the state that
  -- the rounds before it left.
  pub relocate_slots : ℕ → ℕ → ℕ → ℕ → ZnsLsm D X → Ret × ZnsLsm D X
  relocate_slots zero id start slot s = (ok, s)
  relocate_slots (suc n) id start slot s =
      slot_round (relocate_slots n id start (slot + 1))
        (add64 start (slot * s.sectors_per_block % u64_mod)) s (slot_at s.indexes.gc_zones id slot)

  abbrev pub stop_writes : Ret × ZnsLsm D X → Ret × ZnsLsm D X
  stop_writes (ok, s) = (ok, s)
  stop_writes (err e, s) = (err e, record s { writes_stopped = true })
  stop_writes (fault, s) = (fault, s)

  abbrev pub zone_was_reset : ZnsLsm D X → Ret × D → Ret × ZnsLsm D X
  zone_was_reset s (ret, disk) = (ret, record s { disk = disk })

  abbrev pub new_reserve : ZnsLsm D X → Ret × Ptr Allocator → Ret × ZnsLsm D X
  new_reserve s (ok, some a) = (ok, record s { allocator = a; gc_runs = add64 s.gc_runs 1 })
  new_reserve s (ok, none) = (fault, s)
  new_reserve s (err e, _) = (err e, s)
  new_reserve s (fault, _) = (fault, s)

  -- The end of the collection, once the loop is through.
  abbrev pub reset_victim : ℕ → ZnsZone → ZnsLsm D X → Ret × ZnsLsm D X
  reset_victim id device_zone s =
      if valid_of (gc_zone_of s.indexes.gc_zones id) == 0
      then (let s' = record s { gc_zone_reset_attempts = add64 s.gc_zone_reset_attempts 1 } in
          then_do
            (if injected env.fail_gc_zone_reset_at s'.gc_zone_reset_attempts
              then (err Errno.eio, s')
              else zone_was_reset s'
                  (env.zone_reset s'.disk device_zone.start_sector device_zone.length))
            (λ t.
              new_reserve (record t { gc_resets = add64 t.gc_resets 1 })
                (set_reserve_after_reset (some t.allocator) id)))
      else (err Errno.einval, s)

  -- After the validation; the memory request is for the buffer. The start, the length and the number
  -- of blocks of the zone do not change while its blocks move.
  abbrev pub clean_zone : ZnsLsm D X → ℕ → Option ZnsZone → Ptr GcZone → Ret × ZnsLsm D X
  clean_zone s id (some z) (some g) =
      let s' = record s { requests = s.requests + 1 } in
      if env.grants s.requests
      then stop_writes
          (then_do (relocate_slots g.nr_blocks id z.start_sector 0 s') (reset_victim id z))
      else (err Errno.enomem, s')
  clean_zone s id _ _ = (fault, s)

  abbrev pub clean_valid : ZnsLsm D X → ℕ → Ret → Ret × ZnsLsm D X
  clean_valid s id ok =
      clean_zone s id (get_elem? s.allocator.zones id) (gc_zone_of s.indexes.gc_zones id)
  clean_valid s id (err e) = (err e, s)
  clean_valid s id fault = (fault, s)

  pub gc_clean : ZnsLsm D X → ℕ → Ret × ZnsLsm D X
  unfolding relocate_slots
  gc_clean s id = clean_valid s id (gc_validate_victim s id)

  abbrev pub context : ZnsLsm D X → GcContext
  context s = record {
    nr_zones = s.allocator.nr_zones;
    has_write_space = has_space s.allocator;
    reserve_free_blocks =
        zone_free_blocks s (zone_or_zero (get_elem? s.allocator.zones s.allocator.reserve_zone));
    get_zone_info = gc_get_zone_info s;
  }

  abbrev pub clean_victim : ZnsLsm D X → Victim → Ret × ZnsLsm D X
  clean_victim s (Victim.zone id) = gc_clean s id
  clean_victim s (Victim.none_found e) = (err e, s)
  clean_victim s (Victim.negative n) = (err (Errno.other n), s)

  pub run_gc_if_needed : ZnsLsm D X → Ret × ZnsLsm D X
  unfolding gc_clean
  run_gc_if_needed s =
      if leb s.allocator.nr_zones s.allocator.reserve_zone
      then (err Errno.einval, s)
      else if env.should_gc (context s)
      then clean_victim s (env.select_victim (context s))
      else (ok, s)
