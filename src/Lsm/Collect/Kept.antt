-- ===== src/Lsm/Collect/Kept.antt =====
-- src/engines/zns-engine-lsm.c: a step after which every block has the data that it had.
use dm_zns_base.Lsm.Collect.Whole.{IsGround, IsWhole, IsWhole-of, located, data_of}
use mathlib.Core.Option
use mathlib.Core.Path.{subst}
use mathlib.Core.Option.{some-injective}
use dm_zns_base.Prelude.{ℕ, ◌≡◌, refl, sym, ◌∙◌, ap, Option, some, Option-cases, inl, inr}
use dm_zns_base.Block.{Block}
use dm_zns_base.Lsm.State.{Env, ZnsLsm}
use dm_zns_base.Lsm.Publish.Fresh.{Frame, Frame-refl, Frame-trans}

module _ {D X : Type 0} (env : Env D X) (content : D → ℕ → Block) (base : ℕ → Option ℕ)
    (world : IsGround env content) where
  -- The data of every block is what it was, and the state is still whole.
  pub record Kept (s t : ZnsLsm D X) : Type 0 where
    pub whole : IsWhole env content base t
    pub data_same : (k : ℕ) → data_of env content base t k ≡ data_of env content base s k
    pub frame : Frame s.allocator t.allocator
    pub block_same : t.sectors_per_block ≡ s.sectors_per_block
    pub sstables_same : t.sstables ≡ s.sstables
    pub flushing_same : t.flushing ≡ s.flushing

  pub Kept-trans : (s t u : ZnsLsm D X) → Kept s t → Kept t u → Kept s u
  Kept-trans s t u a b = record {
    whole = b.whole;
    data_same = λ k. b.data_same k ∙ a.data_same k;
    frame = Frame-trans s.allocator t.allocator u.allocator a.frame b.frame;
    block_same = b.block_same ∙ a.block_same;
    sstables_same = b.sstables_same ∙ a.sstables_same;
    flushing_same = b.flushing_same ∙ a.flushing_same;
  }

  -- The contents of the sectors that blocks are at are the same.
  pub data-same :
      (s t : ZnsLsm D X)
      → ((k : ℕ) → located env content base t k ≡ located env content base s k)
      → ((k p : ℕ) → located env content base s k ≡ some p → content t.disk p ≡ content s.disk p)
      → (k : ℕ) → data_of env content base t k ≡ data_of env content base s k
  data-same s t at same k =
      ap (Option.map (content t.disk)) (at k)
      ∙ (elim (Option-cases (located env content base s k)) [
        | inl e ↦ rw e refl
        | inr (p, e) ↦ rw e (ap some (same k p e))
      ])

  -- A change of what holds no block.
  pub Kept-of :
      (s t : ZnsLsm D X)
      → IsWhole env content base s
      → t.allocator ≡ s.allocator
      → t.indexes ≡ s.indexes
      → t.sectors_per_block ≡ s.sectors_per_block
      → t.memtable_threshold ≡ s.memtable_threshold
      → t.tables ≡ s.tables
      → t.flushing ≡ s.flushing
      → t.sstables ≡ s.sstables
      → ((x : ℕ) → content t.disk x ≡ content s.disk x)
      → Kept s t
  Kept-of s t w alloc ix block threshold tables flushing sstables disk = record {
    whole = IsWhole-of env content base s t alloc ix block threshold tables flushing w;
    data_same = data-same s t (λ k. rw (tables, flushing) refl) (λ k p h. disk p);
    frame = subst (Frame s.allocator) (sym alloc) (Frame-refl s.allocator);
    block_same = block;
    sstables_same = sstables;
    flushing_same = flushing;
  }

  -- A block that is taken is nobody's: a write to it leaves the data of every block alone.

  pub Kept-refl : (s : ZnsLsm D X) → IsWhole env content base s → Kept s s
  Kept-refl s w = Kept-of s s w refl refl refl refl refl refl refl (λ x. refl)
