-- ===== src/Sstable/Agree.antt =====
-- src/lsm-sstable.c and src/lsm-memtable.c: a lookup in a table on the device answers as a lookup in the
-- memory table that was written there.
use mathlib.Core.Path.{subst}
use mathlib.Core.Option
use mathlib.Core.Option.{some-injective}
use dm_zns_base.Prelude.{
  ℕ, zero, suc, ◌<◌, ◌≡◌, ◌≢◌, refl, sym, ◌∙◌, ap, Bool, true, Option, none, some, List, [], ◌∷◌,
  All-get_elem?, length, get_elem?, u32_mod, u64_mod, arith, eq→==, ne→==, Option-cases, inl, inr,
}
use dm_zns_base.Kernel.{Errno, Ret, ok, err, Ptr}
use dm_zns_base.Memtable
use dm_zns_base.Memtable.{Entry, Memtable, Rbtree, IsRbtree, in_order, find}
use dm_zns_base.Memtable.Sorted.{IsSorted, find_in}
use dm_zns_base.Memtable.InOrder.{find-in_order}
use dm_zns_base.Memtable.Laws.{IsValid, reading, lookup_lem}
use dm_zns_base.Block.{Block}
use dm_zns_base.Block.Io.{Layer, IsDevice}
use dm_zns_base.Sstable.{Sstable}
use dm_zns_base.Sstable.Writer.{write_table}
use dm_zns_base.Sstable.Reader.{lookup}
use dm_zns_base.Sstable.Scan.{Growing}
use dm_zns_base.Sstable.Found.{FoundEntry, AllInRange, lookup-written}

pub IsSorted-Growing : (es : List Entry) → IsSorted es → Growing es
IsSorted-Growing [] s i j e f l ei fj = absurd (ground arith)
IsSorted-Growing (x ∷ es) s zero zero e f l ei fj = absurd (omega (arith, l))
IsSorted-Growing (x ∷ es) s zero (suc j) e f l ei fj =
    subst (λ y. y.logical_block < f.logical_block) (some-injective _ _ ei)
      (All-get_elem? (λ y. x.logical_block < y.logical_block) es j s.0 fj)
IsSorted-Growing (x ∷ es) s (suc i) zero e f l ei fj = absurd (omega (arith, l))
IsSorted-Growing (x ∷ es) s (suc i) (suc j) e f l ei fj =
    IsSorted-Growing es s.1 i j e f (omega (arith, l)) ei fj

find_in-hit :
    (es : List Entry) (k j : ℕ) (e : Entry)
    → Growing es
    → get_elem? es j ≡ some e
    → e.logical_block ≡ k
    → find_in k es ≡ some e
find_in-hit [] k j e g at same = absurd (ground arith)
find_in-hit (x ∷ es) k zero e g at same =
    let x_e = some-injective _ _ at in
    rw (eq→== k x.logical_block (sym same ∙ ap (λ y. y.logical_block) (sym x_e))) at
find_in-hit (x ∷ es) k (suc j) e g at same =
    let before = g 0 (suc j) x e (omega arith) refl at in
    rw (ne→== k x.logical_block (λ h. absurd (omega (arith, before, same, h))))
      (find_in-hit es k j e (λ i i' y z l. g (suc i) (suc i') y z (omega (arith, l))) at same)

find_in-miss :
    (es : List Entry) (k : ℕ)
    → ((j : ℕ) (e : Entry) → get_elem? es j ≡ some e → e.logical_block ≢ k)
    → find_in k es ≡ none
find_in-miss [] k absent = refl
find_in-miss (x ∷ es) k absent =
    rw (ne→== k x.logical_block (λ h. absent 0 x refl (sym h)))
      (find_in-miss es k (λ j. absent (suc j)))

-- The first two results of a lookup whose key reads as `o`.
abbrev pub answer : Option ℕ → ℕ → Ret × Ptr ℕ
answer none cell = (err Errno.enodata, some cell)
answer (some p) cell = (ok, some p)

pub FoundEntry-answer :
    (es : List Entry) (k cell : ℕ) (r : Ret × Ptr ℕ)
    → Growing es
    → FoundEntry es k cell r
    → r ≡ answer (Option.map (λ e. e.physical_sector) (find_in k es)) cell
FoundEntry-answer es k cell _ g (FoundEntry.hit j e at same) =
    rw (find_in-hit es k j e g at same) refl
FoundEntry-answer es k cell _ g (FoundEntry.miss absent) = rw (find_in-miss es k absent) refl

lookup-answer :
    (m : Memtable) (k cell : ℕ)
    → (
      (Memtable.lookup (some m) k (some cell) none).0,
      (Memtable.lookup (some m) k (some cell) none).1,
    )
      ≡ answer (reading m k) cell
lookup-answer m k cell = elim (Option-cases (reading m k)) [
  | inl e ↦ rw (lookup_lem m k cell, e) refl
  | inr (p, e) ↦ rw (lookup_lem m k cell, e) refl
]

module _ (rb : Rbtree) (laws : IsRbtree rb) where
  pub walk-Growing : (m : Memtable) → IsValid m → Growing (rb.walk m.root)
  walk-Growing m v =
      subst Growing (sym (laws.walk-in_order m.root)) (IsSorted-Growing (in_order m.root) v.ordered)

  pub reading-walk :
      (m : Memtable) (k : ℕ)
      → IsValid m
      → Option.map (λ e. e.physical_sector) (find_in k (rb.walk m.root)) ≡ reading m k
  reading-walk m k v =
      ap (Option.map (λ e. e.physical_sector))
        (ap (find_in k) (laws.walk-in_order m.root) ∙ sym (find-in_order m.root k v.ordered))

  module _ {D : Type 0} (layer : Layer D) (crc32_le : ℕ → List ℕ → ℕ) (content : D → ℕ → Block)
      (dev : IsDevice layer content) where
    -- On a device that keeps its blocks and answers every read, once the write of a valid memory table
    -- with at least one entry reports success, a lookup through the index that it hands back answers
    -- every key just as a lookup in the memory table does, with the same error or sector. (Conditions:
    -- a 32-bit number of entries, which hold 64-bit numbers, a 64-bit end, and memory for a block.)
    pub lookup-write_table :
        (granted granted_block : Bool) (disk : D) (m : Memtable)
        (start_sector end_sector seq k cell : ℕ) (uninit : Block)
        → IsValid m
        → 0 < length (rb.walk m.root)
        → length (rb.walk m.root) < u32_mod
        → AllInRange (rb.walk m.root)
        → end_sector < u64_mod
        → (write_table layer crc32_le rb granted granted_block disk m start_sector end_sector seq).0
          ≡ ok
        → (sst : Sstable) × (disk' : D) × ((write_table layer crc32_le rb granted granted_block disk
              m start_sector end_sector seq).1
            ≡ some sst)
          × (lookup layer true uninit
                (some
                  (write_table layer crc32_le rb granted granted_block disk m start_sector
                    end_sector seq).3)
                (some sst)
                k
                (some cell)
              ≡ (
                (Memtable.lookup (some m) k (some cell) none).0,
                (Memtable.lookup (some m) k (some cell) none).1,
                some disk',
              ))
    lookup-write_table granted granted_block disk m start_sector end_sector seq k cell uninit v pos
          small ranges last success =
        let es = rb.walk m.root in
        let (sst, ret, p, disk', handed, e, found) =
          lookup-written layer crc32_le content dev rb granted granted_block disk m start_sector
            end_sector seq k cell uninit (walk-Growing m v) pos small ranges last success in
        let agree =
          FoundEntry-answer es k cell (ret, p) (walk-Growing m v) found
          ∙ (ap (λ o. answer o cell) (reading-walk m k v) ∙ sym (lookup-answer m k cell)) in
        (sst, disk', handed, e ∙ ap (λ r. (r.0, r.1, some disk')) agree)
