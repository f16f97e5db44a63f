-- ===== src/Lsm/Append.antt =====
-- src/engines/zns-engine-lsm.c: one full block is appended: collection, allocation, the write below, and
-- its publication or the recovery from its failure.
pub mod Written
use dm_zns_base.Prelude.{ℕ, ◌+◌, Bool, true, false, Option, none, some, if◌then◌else◌, add64}
use dm_zns_base.Kernel.{Errno, Ret, ok, err, fault, Ptr}
use dm_zns_base.Zone.{ZnsZone, report_one}
use dm_zns_base.Allocator.{Allocator, alloc, resync}
use dm_zns_base.Block.{Block}
use dm_zns_base.Block.Io.{Request, block_write}
use dm_zns_base.Lsm.State.{Env, ZnsLsm, then_do}
use dm_zns_base.Lsm.Publish.{publish_write}
use dm_zns_base.Lsm.Collect.{injected, wrote, run_gc_if_needed}

-- "Exactly one of clone and buffer is supplied." A clone carries one block.
pub data Source : Type 0 where
  clone : Block → Source
  buffer : Block → Source

module _ {D X : Type 0} (env : Env D X) where
  abbrev pub submit : ZnsLsm D X → ℕ → Source → Ret × ZnsLsm D X
  submit s sector (Source.clone b) =
      wrote env s (env.layer.submit_bio_wait s.disk Request.write sector b)
  submit s sector (Source.buffer b) = wrote env s (block_write env.layer s.disk sector b)

  abbrev pub resynced : ZnsLsm D X → Ret × Allocator → ZnsLsm D X
  resynced s (ok, a) = record s { allocator = a; writes_stopped = false }
  resynced s (_, a) = record s { allocator = a }

  abbrev pub recover_reported : ZnsLsm D X → ℕ → Ret × ZnsZone → ZnsLsm D X
  recover_reported s sector (ok, reported) = resynced s (resync s.allocator sector reported)
  recover_reported s sector (_, reported) = s

  -- After a data write that failed: writes stop until the zone is reported and accepted.
  pub recover_write : ZnsLsm D X → ℕ → ZnsLsm D X
  recover_write s sector =
      recover_reported (record s { writes_stopped = true }) sector
        (report_one (env.bdev s.disk) sector)

  abbrev pub write_ended : ℕ → ℕ → Ret × ZnsLsm D X → Ret × ZnsLsm D X
  write_ended logical_sector sector (ok, s) = publish_write env s logical_sector sector
  write_ended logical_sector sector (err e, s) = (err e, recover_write s sector)
  write_ended logical_sector sector (fault, s) = (fault, s)

  abbrev pub write_at : ZnsLsm D X → ℕ → ℕ → Source → Ret × ZnsLsm D X
  write_at s logical_sector sector source =
      let s' = record s { data_write_attempts = add64 s.data_write_attempts 1 } in
      write_ended logical_sector sector (
        if injected env.fail_data_write_at s'.data_write_attempts
        then (err Errno.eio, s')
        else submit s' sector source)

  abbrev pub allocated : ZnsLsm D X → ℕ → Source → Ret × Ptr ℕ × Ptr Allocator → Ret × ZnsLsm D X
  allocated s logical_sector source (ok, some sector, some a) =
      write_at (record s { allocator = a }) logical_sector sector source
  allocated s logical_sector source (ok, _, _) = (fault, s)
  allocated s logical_sector source (err e, _, some a) = (err e, record s { allocator = a })
  allocated s logical_sector source (err e, _, none) = (err e, s)
  allocated s logical_sector source (fault, _, _) = (fault, s)

  pub append_write : ZnsLsm D X → ℕ → Source → Ret × ZnsLsm D X
  unfolding recover_write
  append_write s logical_sector source =
      if s.writes_stopped
      then (err Errno.eio, s)
      else then_do (run_gc_if_needed env s)
          (λ t. allocated t logical_sector source (alloc (some t.allocator) (some 0)))
