-- ===== src/Lsm/Collect/Whole.antt =====
-- src/engines/zns-engine-lsm.c: what the collection must not lose: the data of every logical block.
use mathlib.Core.Option
use mathlib.Core.Path.{subst}
use mathlib.Core.Option.{some-injective}
use dm_zns_base.Prelude.{ℕ, suc, ◌*◌, ◌<◌, ◌≡◌, sym, ◌∙◌, ap, Option, some, u64_mod}
use dm_zns_base.Memtable.{IsRbtree}
use dm_zns_base.Block.{Block}
use dm_zns_base.Block.Io.{IsStorage}
use dm_zns_base.Allocator.{Allocator}
use dm_zns_base.Allocator.Valid.{IsValid}
use dm_zns_base.Generations.Compact.{over}
use dm_zns_base.Sstable.Confined.{IsConfined}
use dm_zns_base.Lsm.Index.Agree.{IsXArray, Agrees, Matches}
use dm_zns_base.Lsm.State.{Env, ZnsLsm}
use dm_zns_base.Lsm.Publish.Agreement.{IsReady, memory_of}
use dm_zns_base.Lsm.Publish.Fresh.{
  Advance, IsTidy, Advance-IsValid, Advance-Matches, Advance-IsTidy,
}

-- The device, the tree and the XArray that a collection relies on.
pub record IsGround {D X : Type 0} (env : Env D X) (content : D → ℕ → Block) : Type 0 where
  pub dev : IsStorage env.layer content
  pub confined : IsConfined env.layer content
  pub tree : IsRbtree env.rb
  pub array : IsXArray env.xa

-- `base` is the sector that the tables on the device have for a logical block: a collection leaves
-- them alone.
module _ {D X : Type 0} (env : Env D X) (content : D → ℕ → Block) (base : ℕ → Option ℕ) where
  -- The sector of a logical block: the newest one.
  abbrev pub located : ZnsLsm D X → ℕ → Option ℕ
  located s k = over (memory_of env s k) (base k)

  -- The data of a logical block.
  abbrev pub data_of : ZnsLsm D X → ℕ → Option Block
  data_of s k = Option.map (content s.disk) (located s k)

  -- Both indexes agree, and `latest` has the sector that a read finds. Every block that has one is a
  -- block of the device.
  pub record IsWhole (s : ZnsLsm D X) : Type 0 where
    pub ready : IsReady env s
    pub tidy : IsTidy s.allocator
    pub known : (k : ℕ) → env.xa.load s.indexes.latest k ≡ Option.map suc (located s k)
    pub range : (k p : ℕ) → located s k ≡ some p → suc k * s.sectors_per_block < u64_mod

  -- Only these parts of a state matter.
  pub IsWhole-of :
      (s t : ZnsLsm D X)
      → t.allocator ≡ s.allocator
      → t.indexes ≡ s.indexes
      → t.sectors_per_block ≡ s.sectors_per_block
      → t.memtable_threshold ≡ s.memtable_threshold
      → t.tables ≡ s.tables
      → t.flushing ≡ s.flushing
      → IsWhole s
      → IsWhole t
  IsWhole-of s t alloc ix block threshold tables flushing w = record {
    ready = record {
      zones = subst IsValid (sym alloc) w.ready.zones;
      same_block =
          ap (λ (a : Allocator). a.sectors_per_block) alloc ∙ (w.ready.same_block ∙ sym block);
      agree =
          subst (λ a. Agrees env.xa a t.sectors_per_block t.indexes) (sym alloc)
            (subst (λ b. Agrees env.xa s.allocator b t.indexes) (sym block)
              (subst (Agrees env.xa s.allocator s.sectors_per_block) (sym ix) w.ready.agree));
      memory = rw tables w.ready.memory;
      threshold = λ e. w.ready.threshold (sym threshold ∙ e);
    };
    tidy = subst IsTidy (sym alloc) w.tidy;
    known = λ k. rw (ix, tables, flushing) (w.known k);
    range = λ k p h. rw block (w.range k p (rw (← tables, ← flushing) h));
  }

  -- The allocator hands out a block.
  pub IsWhole-Advance :
      (s : ZnsLsm D X) (a : Allocator) (p : ℕ)
      → IsWhole s
      → Advance s.allocator p a
      → IsWhole (record s { allocator = a })
  IsWhole-Advance s a p w step =
      let v = w.ready.zones in
      let same = w.ready.same_block in
      record {
        ready = record {
          zones = Advance-IsValid s.allocator a p v step;
          same_block = step.same_block ∙ same;
          agree = record {
            zones = w.ready.agree.zones;
            present = w.ready.agree.present;
            total = w.ready.agree.total;
            matches =
                subst (λ b. Matches (env.xa.load s.indexes.latest) a b w.ready.agree.zones) same
                  (Advance-Matches s.allocator a p v step (env.xa.load s.indexes.latest)
                    w.ready.agree.zones
                    (subst
                      (λ b.
                        Matches (env.xa.load s.indexes.latest) s.allocator b w.ready.agree.zones)
                      (sym same) w.ready.agree.matches));
          };
          memory = w.ready.memory;
          threshold = w.ready.threshold;
        };
        tidy = Advance-IsTidy s.allocator a p v step w.tidy;
        known = w.known;
        range = w.range;
      }
