-- ===== src/Lsm/Flush.antt =====
-- src/engines/zns-engine-lsm.c: the flush worker. It takes a frozen table out of the hands of the
-- writers, writes it as a table on the device, and lets go of it.
pub mod Steps
pub mod Worker
use dm_zns_base.Prelude.{
  ℕ, zero, suc, ◌+◌, Bool, true, false, not, ◌&&◌, ◌||◌, List, [], ◌∷◌, none, some, ◌==◌, ltb,
  if◌then◌else◌, add64, add32,
}
use dm_zns_base.Kernel.{Errno, Ret, ok, err, fault, Ptr}
use dm_zns_base.Memtable.{Memtable}
use dm_zns_base.Generations.{Tables, freeze}
use dm_zns_base.Sstable.{Sstable}
use dm_zns_base.Sstable.Writer.{write_table}
use dm_zns_base.Lsm.State.{Env, ZnsLsm, then_do}

abbrev pub present {ℓ} : {A : Type ℓ} → Ptr A → Bool
present none = false
present (some _) = true

module _ {D X : Type 0} where
  -- The victim is `flushing` of the state that it returns.
  pub claim_flush_victim : ZnsLsm D X → ZnsLsm D X
  claim_flush_victim s = elim s.flushing [
    | some _ ↦ s
    | none ↦ record s {
      flushing = s.tables.immutable;
      tables = record s.tables { immutable = none };
    }
  ]

  pub release_flush_victim : ZnsLsm D X → ZnsLsm D X
  release_flush_victim s = record s { flushing = none }

  pub advance_meta_wp : ZnsLsm D X → ℕ → ℕ → ZnsLsm D X
  advance_meta_wp s start consumed = record s {
    meta_wp = if ltb s.meta_wp (add64 start consumed) then add64 start consumed else s.meta_wp;
  }

  pub publish_sstable : ZnsLsm D X → Sstable → ZnsLsm D X
  publish_sstable s sst = record s {
    sstables = sst ∷ s.sstables;
    nr_sstables = add32 s.nr_sstables 1;
    nr_sst_entries = add64 s.nr_sst_entries sst.nr_entries;
    next_sst_seq = add64 s.next_sst_seq 1;
  }

  pub maybe_queue_flush : ZnsLsm D X → ZnsLsm D X
  maybe_queue_flush s =
      if not s.flush_in_flight && (present s.tables.immutable || present s.flushing)
      then record s { flush_in_flight = true; flush_queued = true }
      else s

  -- `if (consumed) zns_lsm_advance_meta_wp(lsm, start, consumed);`
  pub give_up : ZnsLsm D X → ℕ → ZnsLsm D X
  unfolding advance_meta_wp
  give_up s consumed = if consumed == 0 then s else advance_meta_wp s s.meta_wp consumed

  -- What the attempt to write the victim leaves, and whether the loop goes on: on -ENODATA there was
  -- nothing to persist, on any other error the table stays in the flushing slot.
  pub attempted : ZnsLsm D X → Ret × Ptr Sstable × ℕ × D → Ret × ZnsLsm D X
  unfolding give_up publish_sstable release_flush_victim
  attempted s (ok, some sst, consumed, disk) =
      (ok, release_flush_victim (publish_sstable (give_up (record s { disk = disk }) consumed) sst))
  attempted s (ok, none, consumed, disk) = (fault, give_up (record s { disk = disk }) consumed)
  attempted s (err Errno.enodata, sst, consumed, disk) =
      (ok, release_flush_victim (give_up (record s { disk = disk }) consumed))
  attempted s (err e, sst, consumed, disk) = (err e, give_up (record s { disk = disk }) consumed)
  attempted s (fault, sst, consumed, disk) = (fault, give_up (record s { disk = disk }) consumed)

  -- `flush_in_flight` is cleared, and a freeze that landed meanwhile is caught unless the loop failed.
  pub finish_flush : Ret × ZnsLsm D X → Ret × ZnsLsm D X
  unfolding maybe_queue_flush
  finish_flush (ok, s) = (ok, maybe_queue_flush (record s { flush_in_flight = false }))
  finish_flush (err e, s) = (err e, record s { flush_in_flight = false })
  finish_flush (fault, s) = (fault, s)

module _ {D X : Type 0} (env : Env D X) where
  -- One attempt, on the victim that was claimed. A write makes at most two memory requests.
  pub write_victim : ZnsLsm D X → Memtable → Ret × ZnsLsm D X
  unfolding attempted
  write_victim s victim =
      attempted (record s { requests = s.requests + 2 })
        (write_table env.layer env.crc32_le env.rb (env.grants s.requests)
          (env.grants (s.requests + 1)) s.disk victim s.meta_wp s.meta_end s.next_sst_seq)

  -- After a claim: no victim ends the loop.
  abbrev pub flush_round :
      (ZnsLsm D X → Ret × ZnsLsm D X) → ZnsLsm D X → Ptr Memtable → Ret × ZnsLsm D X
  flush_round rest s none = (ok, s)
  flush_round rest s (some victim) = then_do (write_victim s victim) rest

  -- The loop of the worker, by fuel. The first result is the error that broke the loop.
  pub flush_loop : ℕ → ZnsLsm D X → Ret × ZnsLsm D X
  flush_loop zero s = (fault, s)
  flush_loop (suc n) s =
      flush_round (flush_loop n) (claim_flush_victim s) (claim_flush_victim s).flushing

  -- A run of the worker that no other thread interrupts: a table in each of the two slots, and the
  -- round that finds none.
  pub flush_worker : ZnsLsm D X → Ret × ZnsLsm D X
  unfolding flush_loop finish_flush
  flush_worker s = finish_flush (flush_loop 3 (record s { flush_queued = false }))

  abbrev pub frozen : ZnsLsm D X → Ret × Ptr Tables × ℕ → Ret × ZnsLsm D X
  frozen s (ret, some t, n) = (ret, record s { tables = t; requests = n })
  frozen s (ret, none, n) = (ret, record s { requests = n })

  -- `zns_lsm_freeze_memtable`.
  pub freeze_memtable : Ptr (ZnsLsm D X) → Ret × Ptr (ZnsLsm D X)
  freeze_memtable none = (err Errno.einval, none)
  freeze_memtable (some s) =
      let (ret, s') = frozen s (freeze env.grants s.requests (some s.tables)) in (ret, some s')
