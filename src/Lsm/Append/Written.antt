-- ===== src/Lsm/Append/Written.antt =====
-- src/engines/zns-engine-lsm.c: what the append of one block leaves, on every path.
use dm_zns_base.Prelude.{
  ℕ, suc, ◌*◌, ◌/◌, ◌<◌, ◌≡◌, ◌≢◌, true, false, Option, some, ◌==◌, if◌then◌else◌, u64_mod, add64,
}
use dm_zns_base.Kernel.{Errno, Ret, ok, err, fault}
use dm_zns_base.Zone.{ZnsZone, report_one}
use dm_zns_base.Block.{Block}
use dm_zns_base.Block.Io.{Layer, Request, block_write}
use dm_zns_base.Allocator.{has_space, Allocator, resync}
use dm_zns_base.Lsm.State.{Env, ZnsLsm}
use dm_zns_base.Lsm.Publish.Fresh.{Advance}
use dm_zns_base.Lsm.Collect.{run_gc_if_needed}
use dm_zns_base.Lsm.Collect.Whole.{IsGround, IsWhole, data_of}
use dm_zns_base.Lsm.Append.{Source, clone, buffer}

-- A bio that is handed down as it is: a write of its block to the sector, that changes no other one, and ends with an
-- error or without.
pub record IsSubmit {D : Type 0} (layer : Layer D) (content : D → ℕ → Block) : Type 0 where
  pub writes :
      (disk after : D) (sector : ℕ) (b out : Block)
      → layer.submit_bio_wait disk Request.write sector b ≡ (ok, out, after)
      → content after sector ≡ b
  pub confined :
      (disk : D) (sector : ℕ) (b : Block) (s : ℕ)
      → s ≢ sector
      → content (layer.submit_bio_wait disk Request.write sector b).2 s ≡ content disk s
  pub defined :
      (disk : D) (sector : ℕ) (b : Block)
      → (layer.submit_bio_wait disk Request.write sector b).0 ≢ fault

abbrev pub block_of : Source → Block
block_of (clone b) = b
block_of (buffer b) = b

module _ {D X : Type 0} (env : Env D X) (content : D → ℕ → Block) (base : ℕ → Option ℕ)
    (world : IsGround env content) (submits : IsSubmit env.layer content) where
  -- The answer of the device to the write.
  abbrev answer : D → ℕ → Source → Ret × Block × D
  answer disk p (clone b) = env.layer.submit_bio_wait disk Request.write p b
  answer disk p (buffer b) = block_write env.layer disk p b

  -- After a data write to `p` that failed in the state `t0`: if the zone is reported and the report
  -- accepted, writes go on; if not, they are stopped.
  pub data Resumed (t0 : ZnsLsm D X) (p : ℕ) (t : ZnsLsm D X) : Type 0 where
    unreported :
        (report_one (env.bdev t0.disk) p).0 ≢ ok
        → t.writes_stopped ≡ true
        → t.allocator ≡ t0.allocator
        → Resumed t0 p t
    declined :
        (reported : ZnsZone)
        → report_one (env.bdev t0.disk) p ≡ (ok, reported)
        → (resync t0.allocator p reported).0 ≢ ok
        → t.writes_stopped ≡ true
        → Resumed t0 p t
    accepted :
        (reported : ZnsZone)
        → report_one (env.bdev t0.disk) p ≡ (ok, reported)
        → resync t0.allocator p reported ≡ (ok, t.allocator)
        → t.writes_stopped ≡ false
        → Resumed t0 p t

  -- How the append ends in a state `s` that a collection left: there is no space; or block `k` has the
  -- data that was written and every other block what it had; or the data is on the device and could
  -- not be published, and no block has changed; or the write failed, no block has changed, and the
  -- zone was recovered or writes are stopped.
  pub data Ended (s : ZnsLsm D X) (k : ℕ) (b : Block) : Ret × ZnsLsm D X → Type 0 where
    full :
        (a : Allocator)
        → has_space s.allocator ≡ false
        → IsWhole env content base (record s { allocator = a })
        → Ended s k b (err Errno.enospc, record s { allocator = a })
    appended :
        (t : ZnsLsm D X)
        → IsWhole env content base t
        → t.writes_stopped ≡ s.writes_stopped
        → ((j : ℕ)
            → data_of env content base t j
              ≡ (if j == k then some b else data_of env content base s j))
        → Ended s k b (ok, t)
    unpublished :
        (e : Errno) (t : ZnsLsm D X) (p : ℕ)
        → content t.disk p ≡ b
        → IsWhole env content base t
        → t.writes_stopped ≡ s.writes_stopped
        → ((j : ℕ) → data_of env content base t j ≡ data_of env content base s j)
        → Ended s k b (err e, t)
    unwritten :
        (e : Errno) (t0 t : ZnsLsm D X) (p : ℕ)
        → IsWhole env content base t0
        → Resumed t0 p t
        → ((j : ℕ) → data_of env content base t j ≡ data_of env content base s j)
        → Ended s k b (err e, t)

  -- The append of block `k`: writes are stopped; or the collection fails and no block has changed; or
  -- it succeeds without a change of a block, and the append ends as above.
  pub data Written (s : ZnsLsm D X) (k : ℕ) (b : Block) : Ret × ZnsLsm D X → Type 0 where
    stopped : s.writes_stopped ≡ true → Written s k b (err Errno.eio, s)
    uncollected :
        (r : Ret) (t : ZnsLsm D X)
        → s.writes_stopped ≡ false
        → r ≢ ok
        → run_gc_if_needed env s ≡ (r, t)
        → IsWhole env content base t
        → ((j : ℕ) → data_of env content base t j ≡ data_of env content base s j)
        → Written s k b (r, t)
    collected :
        (t : ZnsLsm D X) (r : Ret × ZnsLsm D X)
        → s.writes_stopped ≡ false
        → run_gc_if_needed env s ≡ (ok, t)
        → IsWhole env content base t
        → ((j : ℕ) → data_of env content base t j ≡ data_of env content base s j)
        → Ended t k b r
        → Written s k b r

  -- With a block of the allocator.
  module _ (s : ZnsLsm D X) (w : IsWhole env content base s) (a : Allocator) (p : ℕ)
      (step : Advance s.allocator p a) (l k : ℕ) (here : l / s.sectors_per_block ≡ k)
      (fits : suc k * s.sectors_per_block < u64_mod) (source : Source) where
    abbrev counted : ZnsLsm D X
    counted = record s { data_write_attempts = add64 s.data_write_attempts 1 }
