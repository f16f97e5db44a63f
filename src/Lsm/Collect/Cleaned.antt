-- ===== src/Lsm/Collect/Cleaned.antt =====
-- src/engines/zns-engine-lsm.c: the loop over the slots of a victim, and the end of a collection after the reset.
use mathlib.Core.Option
use mathlib.Core.Option.{some-injective}
use dm_zns_base.Prelude.{
  ℕ, zero, suc, ◌+◌, ◌*◌, ◌%◌, ◌≤◌, ◌<◌, ◌≡◌, ◌≢◌, refl, sym, ◌∙◌, ap, true, Option, none, some,
  get_elem?, u64_mod, arith, ◌⊎◌, add64, All-get_elem?,
}
use dm_zns_base.Kernel.{Ret, ok, err, fault}
use dm_zns_base.Zone.{ZnsZone}
use dm_zns_base.Block.{Block}
use dm_zns_base.Allocator.{set_reserve_after_reset}
use dm_zns_base.Allocator.Valid.{IsSound}
use dm_zns_base.Lsm.Slots.{physical_to_gc_slot-IsSlot}
use dm_zns_base.Lsm.Index.{slot_of, slot_at, decode_logical_block}
use dm_zns_base.Lsm.State.{Env, ZnsLsm, then_do}
use dm_zns_base.Lsm.Publish.Fresh.{Frame}
use dm_zns_base.Lsm.Collect.{
  gc_relocate_block, slot_round, relocate_slots, stop_writes, new_reserve, zone_was_reset,
}
use dm_zns_base.Lsm.Collect.Reset.{
  IsResetConfined, reset_allocator, reset_answer, reset-IsWhole, reset-data,
}
use dm_zns_base.Lsm.Collect.Whole.{IsGround, IsWhole, IsWhole-of, located, data_of}
use dm_zns_base.Lsm.Collect.Kept.{Kept, Kept-refl, Kept-trans}
use dm_zns_base.Lsm.Collect.Taken.{bound-lt}
use dm_zns_base.Lsm.Collect.Relocate.{gc_relocate_block-Relocated}

module _ {D X : Type 0} (env : Env D X) (content : D → ℕ → Block) (base : ℕ → Option ℕ)
    (world : IsGround env content) where
  -- Every zone with the number starts there.
  abbrev pub StartsAt : ZnsLsm D X → ℕ → ℕ → Type 0
  StartsAt s id start =
      (z : ZnsZone) → get_elem? s.allocator.zones id ≡ some z → z.start_sector ≡ start

  -- A used slot of a zone holds a block that a read finds at the sector of the slot.
  slot-located :
      (s : ZnsLsm D X) (id start slot entry : ℕ)
      → (w : IsWhole env content base s) → StartsAt s id start
      → slot_at s.indexes.gc_zones id slot ≡ some (suc entry)
      → located env content base s entry ≡ some (add64 start (slot * s.sectors_per_block % u64_mod))
  slot-located s id start slot entry w starts h =
      let used = ap (λ gs. slot_at gs id slot) (sym w.ready.agree.present) ∙ h in
      let (q, load, at) = w.ready.agree.matches.backward entry id slot used in
      let (z, there, inside) =
        physical_to_gc_slot-IsSlot s.allocator s.sectors_per_block q 0 0 w.ready.zones at in
      let fits = (All-get_elem? IsSound s.allocator.zones id w.ready.zones.sound there).fits in
      let sector : add64 start (slot * s.sectors_per_block % u64_mod) ≡ q =
        omega (arith, inside.starts, starts z there, inside.inside, fits) in
      rw sector (unmap (located env content base s entry) q (sym (w.known entry) ∙ load))
    where
      unmap : (o : Option ℕ) (q : ℕ) → Option.map suc o ≡ some (suc q) → o ≡ some q
      unmap none q e = absurd (ground (arith, e))
      unmap (some x) q e = ap some (omega (arith, some-injective _ _ e))

  starts-kept :
      (s t : ZnsLsm D X) (id start : ℕ)
      → Frame s.allocator t.allocator
      → StartsAt s id start
      → StartsAt t id start
  starts-kept s t id start f starts z h =
      let (y, at, grown) = f.zones id z h in grown.start ∙ starts y at

  entry-small :
      (s : ZnsLsm D X) (entry q : ℕ)
      → IsWhole env content base s
      → located env content base s entry ≡ some q
      → decode_logical_block (suc entry) ≡ entry
  entry-small s entry q w h =
      let small =
        bound-lt (suc entry) s.sectors_per_block u64_mod
          (omega (arith, w.ready.zones.block_pos, w.ready.same_block)) (w.range entry q h) in
      omega (arith, small)

  round-Kept :
      (rest : ZnsLsm D X → Ret × ZnsLsm D X) (id start slot : ℕ) (s : ZnsLsm D X) (o : Option ℕ)
      → IsWhole env content base s
      → s.allocator.reserve_zone < s.allocator.nr_zones
      → StartsAt s id start
      → slot_at s.indexes.gc_zones id slot ≡ o
      → ((t : ZnsLsm D X)
          → IsWhole env content base t
          → t.allocator.reserve_zone < t.allocator.nr_zones
          → StartsAt t id start
          → Kept env content base world t (rest t).1)
      → Kept env content base world s
          (slot_round env rest (add64 start (slot * s.sectors_per_block % u64_mod)) s o).1
  round-Kept rest id start slot s none w lt starts h go = Kept-refl env content base world s w
  round-Kept rest id start slot s (some zero) w lt starts h go = go s w lt starts
  round-Kept rest id start slot s (some (suc entry)) w lt starts h go =
      let at = slot-located s id start slot entry w starts h in
      rw (entry-small s entry _ w at) (
        next
          (gc_relocate_block env s entry (add64 start (slot * s.sectors_per_block % u64_mod))
            env.uninit)
          (gc_relocate_block-Relocated env content base world s entry _ env.uninit w at lt).kept)
    where
      next :
          (r : Ret × ZnsLsm D X)
          → Kept env content base world s r.1
          → Kept env content base world s (then_do r rest).1
      next (ok, t) k = Kept-trans env content base world s t _ k (
          go t k.whole (omega (arith, lt, k.frame.count, k.frame.reserve))
            (starts-kept s t id start k.frame starts))
      next (err e, t) k = k
      next (fault, t) k = k

  pub relocate_slots-Kept :
      (n id start slot : ℕ) (s : ZnsLsm D X)
      → IsWhole env content base s
      → s.allocator.reserve_zone < s.allocator.nr_zones
      → StartsAt s id start
      → Kept env content base world s (relocate_slots env n id start slot s).1
  unfolding relocate_slots
  relocate_slots-Kept zero id start slot s w lt starts = Kept-refl env content base world s w
  relocate_slots-Kept (suc n) id start slot s w lt starts =
      round-Kept (relocate_slots env n id start (slot + 1)) id start slot s _ w lt starts refl
        (λ t w' lt' starts'. relocate_slots-Kept n id start (slot + 1) t w' lt' starts')

  -- The state is still whole, and every block has the data that it had.
  pub record Safe (s t : ZnsLsm D X) : Type 0 where
    pub whole : IsWhole env content base t
    pub data_same : (k : ℕ) → data_of env content base t k ≡ data_of env content base s k
    pub block_same : t.sectors_per_block ≡ s.sectors_per_block

  pub Kept-Safe : (s t : ZnsLsm D X) → Kept env content base world s t → Safe s t
  Kept-Safe s t k = record { whole = k.whole; data_same = k.data_same; block_same = k.block_same }

  pub Safe-trans : (s t u : ZnsLsm D X) → Safe s t → Safe t u → Safe s u
  Safe-trans s t u a b = record {
    whole = b.whole;
    data_same = λ k. b.data_same k ∙ a.data_same k;
    block_same = b.block_same ∙ a.block_same;
  }

  -- Counters and flags are no data.
  pub Safe-of :
      (s t : ZnsLsm D X)
      → IsWhole env content base s
      → t.allocator ≡ s.allocator
      → t.indexes ≡ s.indexes
      → t.sectors_per_block ≡ s.sectors_per_block
      → t.memtable_threshold ≡ s.memtable_threshold
      → t.tables ≡ s.tables
      → t.flushing ≡ s.flushing
      → t.disk ≡ s.disk
      → Safe s t
  Safe-of s t w alloc ix block threshold tables flushing disk = record {
    whole = IsWhole-of env content base s t alloc ix block threshold tables flushing w;
    data_same = λ k. rw (tables, flushing, disk) refl;
    block_same = block;
  }

  pub stop-Safe :
      (s : ZnsLsm D X) (r : Ret × ZnsLsm D X) → Safe s r.1 → Safe s (stop_writes env r).1
  stop-Safe s (ok, t) h = h
  stop-Safe s (err e, t) h =
      Safe-trans s t _ h
        (Safe-of t (record t { writes_stopped = true }) h.whole refl refl refl refl refl refl refl)
  stop-Safe s (fault, t) h = h

  module _ (reset : IsResetConfined env content) (s : ZnsLsm D X) (w : IsWhole env content base s)
      (id : ℕ) (z z0 : ZnsZone) (at : get_elem? s.allocator.zones id ≡ some z)
      (same_start : z0.start_sector ≡ z.start_sector) (same_length : z0.length ≡ z.length)
      (ne : id ≢ s.allocator.reserve_zone)
      (unused_zone : (slot k : ℕ) → slot_of w.ready.agree.zones id slot ≡ some (suc k) → ⊥) where
    abbrev pub attempts : ℕ
    attempts = add64 s.gc_zone_reset_attempts 1

    abbrev pub finish : ZnsLsm D X → Ret × ZnsLsm D X
    finish t =
        new_reserve env (record t { gc_resets = add64 t.gc_resets 1 })
          (set_reserve_after_reset (some t.allocator) id)

    pub zone_reset-Safe :
        (r : Ret × D)
        → ((x : ℕ)
            → (x < z.start_sector) ⊎ (z.start_sector + z.length ≤ x)
            → content r.1 x ≡ content s.disk x)
        → Safe s
            (then_do
              (zone_was_reset env (record s { gc_zone_reset_attempts = attempts }) r)
              finish).1
    zone_reset-Safe (err e, disk) same = record {
      whole =
          IsWhole-of env content base s
            (record s { gc_zone_reset_attempts = attempts; disk = disk }) refl refl refl refl refl
            refl w;
      data_same = reset-data env content base s w id z at unused_zone disk same;
      block_same = refl;
    }
    zone_reset-Safe (fault, disk) same = record {
      whole =
          IsWhole-of env content base s
            (record s { gc_zone_reset_attempts = attempts; disk = disk }) refl refl refl refl refl
            refl w;
      data_same = reset-data env content base s w id z at unused_zone disk same;
      block_same = refl;
    }
    zone_reset-Safe (ok, disk) same =
        let a = reset_allocator env content base s w id z at unused_zone in
        rw (reset_answer env content base s w id z at unused_zone ne) (record {
          whole =
              IsWhole-of env content base (record s { allocator = a })
                (record s {
                  gc_zone_reset_attempts = attempts;
                  disk = disk;
                  gc_resets = add64 s.gc_resets 1;
                  allocator = a;
                  gc_runs = add64 s.gc_runs 1;
                })
                refl refl refl refl refl refl
                (reset-IsWhole env content base s w id z at unused_zone ne);
          data_same = reset-data env content base s w id z at unused_zone disk same;
          block_same = refl;
        })
