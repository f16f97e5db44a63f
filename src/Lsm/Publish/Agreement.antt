-- ===== src/Lsm/Publish/Agreement.antt =====
-- src/engines/zns-engine-lsm.c: a published write is what the next read finds, and what both indexes of
-- the collection have.
use mathlib.Core.Path.{subst⁻¹}
use dm_zns_base.Prelude.{
  ℕ, suc, ◌/◌, ◌<◌, ◌≡◌, ◌≢◌, refl, sym, ◌∙◌, ap, Bool, true, false, Option, some, ◌==◌,
  if◌then◌else◌, u64_mod, arith,
}
use dm_zns_base.Kernel.{Errno, Ret, ok, err, fault, Ptr}
use dm_zns_base.Memtable.{IsRbtree}
use dm_zns_base.Allocator.Valid.{IsValid}
use dm_zns_base.Generations.{Tables}
use dm_zns_base.Generations.Compact.{over}
use dm_zns_base.Generations.Active
use dm_zns_base.Generations.Active.{IsValidTables, reads, reading_at, put_active-Written}
use dm_zns_base.Lsm.Index.{GcIndexes, slot_at}
use dm_zns_base.Lsm.Index.Agree.{IsXArray, At, Agrees, Matches-load}
use dm_zns_base.Lsm.Index.Moves.{Cause, Recorded, update_gc_block_location-Recorded}
use dm_zns_base.Lsm.State.{Env, ZnsLsm}
use dm_zns_base.Lsm.Flush.Steps.{maybe_queue_eq}
use dm_zns_base.Lsm.Reading.Newest.{memory_reading}
use dm_zns_base.Lsm.Publish.{index_updated, table_put, reserved, publish_write}

module _ {D X : Type 0} (env : Env D X) where
  -- A state in which a block can be published.
  pub record IsReady (s : ZnsLsm D X) : Type 0 where
    pub zones : IsValid s.allocator
    pub same_block : s.allocator.sectors_per_block ≡ s.sectors_per_block
    pub agree : Agrees env.xa s.allocator s.sectors_per_block s.indexes
    pub memory : IsValidTables s.tables
    pub threshold : s.memtable_threshold ≢ 0

  -- What neither a publication nor its failure touches.
  pub record Aside (s t : ZnsLsm D X) : Type 0 where
    pub disk : t.disk ≡ s.disk
    pub allocator : t.allocator ≡ s.allocator
    pub block : t.sectors_per_block ≡ s.sectors_per_block
    pub flushing : t.flushing ≡ s.flushing
    pub sstables : t.sstables ≡ s.sstables
    pub threshold : t.memtable_threshold ≡ s.memtable_threshold

  abbrev pub memory_of : ZnsLsm D X → ℕ → Option ℕ
  memory_of s k = memory_reading s.tables s.flushing k

  -- The block `k` is at `p`, for the reads and for the collection, and every other block is where it
  -- was; or nothing is changed; or only the reads have it, and writes stop.
  pub data Published (s : ZnsLsm D X) (k p : ℕ) : Ret × ZnsLsm D X → Type 0 where
    published :
        (t : ZnsLsm D X)
        → IsReady t
        → Aside s t
        → ((j : ℕ) → memory_of t j ≡ (if j == k then some p else memory_of s j))
        → ((j : ℕ)
            → env.xa.load t.indexes.latest j
              ≡ (if j == k then some (suc p) else env.xa.load s.indexes.latest j))
        → t.writes_stopped ≡ s.writes_stopped
        → Published s k p (ok, t)
    unpublished :
        (e : Errno) (t : ZnsLsm D X)
        → IsReady t
        → Aside s t
        → ((j : ℕ) → memory_of t j ≡ memory_of s j)
        → ((j : ℕ) → env.xa.load t.indexes.latest j ≡ env.xa.load s.indexes.latest j)
        → t.writes_stopped ≡ s.writes_stopped
        → Published s k p (err e, t)
    stopped :
        (e : Errno) (t : ZnsLsm D X)
        → Cause env.xa s.allocator s.sectors_per_block
            (record s.indexes { latest = (env.xa.reserve s.indexes.latest k).1 })
            k
            p
            e
        → (env.xa.reserve s.indexes.latest k).0 ≡ ok
        → IsReady t
        → Aside s t
        → ((j : ℕ) → memory_of t j ≡ (if j == k then some p else memory_of s j))
        → t.writes_stopped ≡ true
        → Published s k p (err e, t)

  choose :
      (b : Bool) (p : ℕ) (x y : Option ℕ)
      → over (if b then some p else x) y ≡ (if b then some p else over x y)
  choose true p x y = refl
  choose false p x y = refl

  -- The state after the memory tables and the indexes are changed, whatever the two flags are.
  abbrev changed : ZnsLsm D X → Tables → ℕ → GcIndexes X → Bool → Bool → Bool → ZnsLsm D X
  changed s t n ix in_flight queued no_writes = record s {
    tables = t;
    requests = n;
    indexes = ix;
    flush_in_flight = in_flight;
    flush_queued = queued;
    writes_stopped = no_writes;
  }

  module _ (law : IsXArray env.xa) (laws : IsRbtree env.rb) (s : ZnsLsm D X) (k p : ℕ)
      (r : IsReady s) (small : suc k < u64_mod) where
    aside :
        (t : Tables) (n : ℕ) (ix : GcIndexes X) (a b c : Bool) → Aside s (changed s t n ix a b c)
    aside t n ix a b c = record {
      disk = refl;
      allocator = refl;
      block = refl;
      flushing = refl;
      sstables = refl;
      threshold = refl;
    }

    ready :
        (t : Tables) (n : ℕ) (ix : GcIndexes X) (a b c : Bool)
        → IsValidTables t
        → Agrees env.xa s.allocator s.sectors_per_block ix
        → IsReady (changed s t n ix a b c)
    ready t n ix a b c v g = record {
      zones = r.zones;
      same_block = r.same_block;
      agree = g;
      memory = v;
      threshold = r.threshold;
    }

    -- The indexes after the reservation record what they recorded.
    abbrev reserved_indexes : GcIndexes X
    reserved_indexes = record s.indexes { latest = (env.xa.reserve s.indexes.latest k).1 }

    reserved-Agrees : Agrees env.xa s.allocator s.sectors_per_block reserved_indexes
    reserved-Agrees = record {
      zones = r.agree.zones;
      present = r.agree.present;
      total = r.agree.total;
      matches =
          Matches-load (env.xa.load s.indexes.latest)
            (env.xa.load (env.xa.reserve s.indexes.latest k).1) s.allocator s.sectors_per_block
            r.agree.zones (law.reserve_load s.indexes.latest k) r.agree.matches;
    }

    mapped :
        (t : Tables)
        → ((j : ℕ) → reads t j ≡ (if j == k then some p else reads s.tables j))
        → (j : ℕ)
        → memory_reading t s.flushing j
          ≡ (if j == k then some p else memory_reading s.tables s.flushing j)
    mapped t now j =
        ap (λ x. over x (reading_at s.flushing j)) (now j)
        ∙ choose (j == k) p (reads s.tables j) (reading_at s.flushing j)

    after_index :
        (t : Tables) (n : ℕ) (q : Ret × GcIndexes X)
        → IsValidTables t
        → ((j : ℕ) → reads t j ≡ (if j == k then some p else reads s.tables j))
        → (env.xa.reserve s.indexes.latest k).0 ≡ ok
        → Recorded env.xa s.allocator s.sectors_per_block reserved_indexes k p q
        → Published s k p
            (index_updated (record s { tables = t; requests = n; indexes = reserved_indexes }) q)
    after_index t n _ v now room (Recorded.moved ix g loads) =
        let (a, b, queued) = maybe_queue_eq (record s { tables = t; requests = n; indexes = ix }) in
        subst⁻¹ (λ u. Published s k p (ok, u)) queued
          (Published.published (changed s t n ix a b s.writes_stopped)
            (ready t n ix a b s.writes_stopped v g) (aside t n ix a b s.writes_stopped)
            (mapped t now)
            (λ j.
              loads j
              ∙ ap (λ x. if j == k then some (suc p) else x)
                  (law.reserve_load s.indexes.latest k j))
            refl)
    after_index t n _ v now room (Recorded.refused e ix c g same total loads) =
        Published.stopped e (changed s t n ix s.flush_in_flight s.flush_queued true) c room
          (ready t n ix s.flush_in_flight s.flush_queued true v g)
          (aside t n ix s.flush_in_flight s.flush_queued true) (mapped t now) refl

    after_put :
        (q : Ret × Ptr Tables × ℕ)
        → (env.xa.reserve s.indexes.latest k).0 ≡ ok
        → Active.Written env.rb laws env.grants s.tables k p q
        → Published s k p (table_put env (record s { indexes = reserved_indexes }) k p q)
    after_put _ room (Active.written t n v now) = after_index t n _ v now room (
        update_gc_block_location-Recorded env.xa s.allocator s.sectors_per_block law
          reserved_indexes k p r.zones (omega (arith, r.zones.block_pos, r.same_block))
          reserved-Agrees small)
    after_put _ room (Active.unwritten n i refused) =
        Published.unpublished Errno.enomem
          (changed s s.tables n reserved_indexes s.flush_in_flight s.flush_queued s.writes_stopped)
          (ready s.tables n reserved_indexes s.flush_in_flight s.flush_queued s.writes_stopped
            r.memory reserved-Agrees)
          (aside s.tables n reserved_indexes s.flush_in_flight s.flush_queued s.writes_stopped)
          (λ j. refl) (law.reserve_load s.indexes.latest k) refl

    after_reserve :
        (ret : Ret)
        → (env.xa.reserve s.indexes.latest k).0 ≡ ret
        → Published s k p (reserved env s k p (ret, (env.xa.reserve s.indexes.latest k).1))
    after_reserve ok e = after_put _ e (
        put_active-Written env.rb laws env.grants s.requests s.memtable_threshold k p s.tables
          r.memory r.threshold)
    after_reserve (err x) e =
        Published.unpublished x
          (changed s s.tables s.requests reserved_indexes s.flush_in_flight s.flush_queued
            s.writes_stopped)
          (ready s.tables s.requests reserved_indexes s.flush_in_flight s.flush_queued
            s.writes_stopped r.memory reserved-Agrees)
          (aside s.tables s.requests reserved_indexes s.flush_in_flight s.flush_queued
            s.writes_stopped)
          (λ j. refl) (law.reserve_load s.indexes.latest k) refl
    after_reserve fault e = absurd (law.reserve_defined s.indexes.latest k e)

  -- On a state whose indexes agree, a publication makes the block read the new sector and both indexes
  -- record it there, with every other block as it was; or it fails and neither a read nor the indexes
  -- have changed; or the indexes refuse the sector, the reads have it, the indexes still agree, and
  -- writes stop. The device, the allocator and the tables on the device are left alone. (Conditions: a
  -- valid allocator of the same block size, valid memory tables, a threshold, and a block
  -- number whose successor is a 64-bit number.)
  pub publish_write-Published :
      (law : IsXArray env.xa) (laws : IsRbtree env.rb) (s : ZnsLsm D X) (logical_sector p : ℕ)
      → IsReady s
      → suc (logical_sector / s.sectors_per_block) < u64_mod
      → Published s (logical_sector / s.sectors_per_block) p (publish_write env s logical_sector p)
  unfolding publish_write
  publish_write-Published law laws s logical_sector p r small =
      after_reserve law laws s (logical_sector / s.sectors_per_block) p r small
        (env.xa.reserve s.indexes.latest (logical_sector / s.sectors_per_block)).0 refl

  -- A publication that the reads and the indexes both have, or neither: writes go on.
  pub data Settled (s : ZnsLsm D X) (k p : ℕ) : Ret × ZnsLsm D X → Type 0 where
    settled :
        (t : ZnsLsm D X)
        → IsReady t
        → Aside s t
        → ((j : ℕ) → memory_of t j ≡ (if j == k then some p else memory_of s j))
        → ((j : ℕ)
            → env.xa.load t.indexes.latest j
              ≡ (if j == k then some (suc p) else env.xa.load s.indexes.latest j))
        → t.writes_stopped ≡ s.writes_stopped
        → Settled s k p (ok, t)
    unsettled :
        (e : Errno) (t : ZnsLsm D X)
        → IsReady t
        → Aside s t
        → ((j : ℕ) → memory_of t j ≡ memory_of s j)
        → ((j : ℕ) → env.xa.load t.indexes.latest j ≡ env.xa.load s.indexes.latest j)
        → t.writes_stopped ≡ s.writes_stopped
        → Settled s k p (err e, t)

  -- A sector with a free slot of its own is never refused by the indexes, for the reservation has made
  -- room for the entry.
  pub Published-Settled :
      (law : IsXArray env.xa) (s : ZnsLsm D X) (k p : ℕ) (r : Ret × ZnsLsm D X) {zone slot : ℕ}
      → At s.allocator s.sectors_per_block p zone slot
      → slot_at s.indexes.gc_zones zone slot ≡ some 0
      → Published s k p r
      → Settled s k p r
  Published-Settled law s k p _ at free (Published.published t r a now loads same) =
      Settled.settled t r a now loads same
  Published-Settled law s k p _ at free (Published.unpublished e t r a now loads same) =
      Settled.unsettled e t r a now loads same
  Published-Settled law s k p _ {zone} {slot} at free
        (Published.stopped e t c room r a now halted) =
      absurd (never e c)
    where
      never :
          (e : Errno)
          → Cause env.xa s.allocator s.sectors_per_block
              (record s.indexes { latest = (env.xa.reserve s.indexes.latest k).1 })
              k
              p
              e
          → ⊥
      never _ (Cause.unwritten bad) =
          absurd (ground (arith, sym (ap (λ (q : Ret × ℕ × ℕ). q.0) at) ∙ bad))
      never _ (Cause.taken zone' slot' w at' owned) =
          let same : (ok, zone, slot) ≡ (ok, zone', slot') = sym at ∙ at' in
          let owner = ap (λ (q : Ret × ℕ × ℕ). slot_at s.indexes.gc_zones q.1 q.2) same ∙ owned in
          let both : some 0 ≡ some (suc w) = sym free ∙ owner in absurd (ground (arith, both))
      never _ (Cause.no_store x refused) =
          absurd (ground (arith, sym (law.reserve_store s.indexes.latest k (suc p) room) ∙ refused))
