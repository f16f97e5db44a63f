-- ===== src/Generations/Compact.antt =====
-- Compaction: the merged table reads as the newer table over the older one, and a failure leaves no
-- table behind.
use mathlib.Core.Option
use mathlib.Core.Option.{some-injective}
use dm_zns_base.Prelude.{
  ℕ, ◌+◌, ◌≡◌, refl, sym, ap, ◌∙◌, true, false, ◌==◌, if◌then◌else◌, Option, none, some, List, [],
  ◌∷◌, arith, Bool-cases, inl, inr,
}
use dm_zns_base.Kernel.{Errno, Ret, ok, err, Ptr, Grants}
use dm_zns_base.Memtable.{Entry, Memtable, Rbtree, IsRbtree, find, put, create, empty_memtable}
use dm_zns_base.Memtable.Sorted.{IsSorted, find_in, find_in-Above}
use dm_zns_base.Memtable.InOrder.{find-in_order}
use dm_zns_base.Memtable.Laws.{
  IsValid, reading, put_table, put_table-IsValid, reading-put_table, empty-IsValid,
}
use dm_zns_base.Generations.{
  put_fn, create_fn, compact_copy, copy_newer, copy_next, copy_done, copy_both, compact,
}

-- The newer answer, and the older one where there is none.
abbrev pub over : Option ℕ → Option ℕ → Option ℕ
over (some p) old = some p
over none old = old

-- What a sequence of writes leaves under key `k`, over the reading `old`.
abbrev overlay : ℕ → List Entry → Option ℕ → Option ℕ
overlay k [] old = old
overlay k (e ∷ es) old = overlay k es (if k == e.logical_block then some e.physical_sector else old)

abbrev sector_in : ℕ → List Entry → Option ℕ
sector_in k es = Option.map (λ e. e.physical_sector) (find_in k es)

overlay-eq-over :
    (k : ℕ) (es : List Entry) (old : Option ℕ)
    → IsSorted es
    → overlay k es old ≡ over (sector_in k es) old
overlay-eq-over k [] old s = refl
overlay-eq-over k (e ∷ es) old s = ground (
  arith,
  overlay-eq-over k es (if k == e.logical_block then some e.physical_sector else old) s.1,
  find_in-Above k es,
)

-- Every memory request from number `n` on that a run of `count` requests makes is met.
abbrev pub AllGranted : Grants → Type 0
AllGranted grants = (i : ℕ) → grants i ≡ true

module _ (rb : Rbtree) (laws : IsRbtree rb) (grants : Grants) where
  -- How a copy onto a valid table ends: with every write made, or for want of memory.
  data Copied (es : List Entry) (m : Memtable) : Ret × Ptr Memtable × ℕ → Type 0 where
    copied :
        (m' : Memtable) (n' : ℕ)
        → IsValid m'
        → ((k : ℕ) → reading m' k ≡ overlay k es (reading m k))
        → Copied es m (ok, some m', n')
    starved :
        (m' : Ptr Memtable) (n' : ℕ) (i : ℕ)
        → grants i ≡ false
        → Copied es m (err Errno.enomem, m', n')

  Copied-cons :
      (e : Entry) (es : List Entry) (m : Memtable) {r : Ret × Ptr Memtable × ℕ}
      → IsValid m
      → Copied es (put_table rb m e.logical_block e.physical_sector) r
      → Copied (e ∷ es) m r
  Copied-cons e es m v (copied m' n' w read) = copied m' n' w (λ k.
      read k
      ∙ ap (overlay k es) (reading-put_table rb laws m e.logical_block e.physical_sector k v))
  Copied-cons e es m v (starved m' n' i no_memory) = starved m' n' i no_memory

  pub put_fn_granted :
      (n : ℕ) (m : Memtable) (k p : ℕ)
      → grants n ≡ true
      → put_fn rb grants n (some m) k p ≡ (ok, some (put_table rb m k p), n + 1)
  unfolding put_fn put
  put_fn_granted n m k p g = rw (g, put)

  pub put_fn_refused :
      (n : ℕ) (m : Memtable) (k p : ℕ)
      → grants n ≡ false
      → put_fn rb grants n (some m) k p ≡ (err Errno.enomem, some m, n + 1)
  unfolding put_fn put
  put_fn_refused n m k p g = rw (g, put)

  copy_step :
      (e : Entry) (es : List Entry) (n : ℕ) (m : Memtable)
      → grants n ≡ true
      → compact_copy (put_fn rb grants) (e ∷ es) n (some m)
        ≡ compact_copy
            (put_fn rb grants)
            es
            (n + 1)
            (some (put_table rb m e.logical_block e.physical_sector))
  unfolding compact_copy
  copy_step e es n m g =
      ap (copy_next (compact_copy (put_fn rb grants) es))
        (put_fn_granted n m e.logical_block e.physical_sector g)

  copy_stop :
      (e : Entry) (es : List Entry) (n : ℕ) (m : Memtable)
      → grants n ≡ false
      → compact_copy (put_fn rb grants) (e ∷ es) n (some m) ≡ (err Errno.enomem, some m, n + 1)
  unfolding compact_copy
  copy_stop e es n m g =
      ap (copy_next (compact_copy (put_fn rb grants) es))
        (put_fn_refused n m e.logical_block e.physical_sector g)

  copy_none : (n : ℕ) (m : Ptr Memtable) → compact_copy (put_fn rb grants) [] n m ≡ (ok, m, n)
  unfolding compact_copy
  copy_none n m = refl

  compact_copy-Copied :
      (es : List Entry) (n : ℕ) (m : Memtable)
      → IsValid m
      → Copied es m (compact_copy (put_fn rb grants) es n (some m))
  compact_copy-Copied [] n m v = rw (copy_none n (some m)) (copied m n v (λ k. refl))
  compact_copy-Copied (e ∷ es) n m v = elim (Bool-cases (grants n)) [
    | inl g ↦ rw (copy_step e es n m g) (
        Copied-cons e es m v (
          compact_copy-Copied es (n + 1) (put_table rb m e.logical_block e.physical_sector)
            (put_table-IsValid rb laws m e.logical_block e.physical_sector v)))
    | inr g ↦ rw (copy_stop e es n m g) (starved (some m) (n + 1) n g)
  ]

  over_empty : (k : ℕ) (o : Option ℕ) → over o (reading empty_memtable k) ≡ o
  unfolding find
  over_empty k none = refl
  over_empty k (some p) = refl

  -- How a compaction ends.
  pub data Compacted (older newer : Memtable) : Ret × Ptr (Ptr Memtable) × ℕ → Type 0 where
    merged :
        (m : Memtable) (n' : ℕ)
        → IsValid m
        → ((k : ℕ) → reading m k ≡ over (reading newer k) (reading older k))
        → Compacted older newer (ok, some (some m), n')
    starved_merge :
        (n' : ℕ) (i : ℕ)
        → grants i ≡ false
        → Compacted older newer (err Errno.enomem, some none, n')

  sector_in-reading :
      (m : Memtable) (k : ℕ) → IsValid m → sector_in k (rb.walk m.root) ≡ reading m k
  sector_in-reading m k v =
      rw (laws.walk-in_order m.root) (
        ap (Option.map (λ (e : Entry). e.physical_sector)) (sym (find-in_order m.root k v.ordered)))

  overlay-walk :
      (m : Memtable) (k : ℕ) (old : Option ℕ)
      → IsValid m
      → overlay k (rb.walk m.root) old ≡ over (reading m k) old
  overlay-walk m k old v =
      overlay-eq-over k (rb.walk m.root) old (rw (laws.walk-in_order m.root) v.ordered)
      ∙ ap (λ o. over o old) (sector_in-reading m k v)

  newer-Compacted :
      (older newer m1 : Memtable) {r : Ret × Ptr Memtable × ℕ}
      → IsValid newer
      → ((k : ℕ) → reading m1 k ≡ reading older k)
      → Copied (rb.walk newer.root) m1 r
      → Compacted older newer (copy_done r)
  newer-Compacted older newer m1 w same (copied m' n' v read) =
      merged m' n' v
        (λ k. read k ∙ overlay-walk newer k (reading m1 k) w ∙ ap (over (reading newer k)) (same k))
  newer-Compacted older newer m1 w same (starved m' n' i no_memory) = starved_merge n' i no_memory

  older-Compacted :
      (older newer : Memtable) {r : Ret × Ptr Memtable × ℕ}
      → IsValid older
      → IsValid newer
      → Copied (rb.walk older.root) empty_memtable r
      → Compacted older newer (copy_newer (put_fn rb grants) (rb.walk newer.root) r)
  older-Compacted older newer v w (copied m1 n1 v1 read) =
      newer-Compacted older newer m1 w (λ k. read k ∙ from_empty k)
        (compact_copy-Copied (rb.walk newer.root) n1 m1 v1)
    where
      from_empty :
          (k : ℕ) → overlay k (rb.walk older.root) (reading empty_memtable k) ≡ reading older k
      from_empty k =
          overlay-walk older k (reading empty_memtable k) v ∙ over_empty k (reading older k)
  older-Compacted older newer v w (starved m' n' i no_memory) = starved_merge n' i no_memory

  pub create_fn_granted :
      (n : ℕ) → grants n ≡ true → create_fn grants n ≡ (some empty_memtable, n + 1)
  unfolding create_fn create
  create_fn_granted n g = rw (g, create)

  pub create_fn_refused : (n : ℕ) → grants n ≡ false → create_fn grants n ≡ (none, n + 1)
  unfolding create_fn create
  create_fn_refused n g = rw (g, create)

  compact_eq :
      (n : ℕ) (older newer : Memtable) (result : Ptr Memtable)
      → compact rb grants n (some older) (some newer) (some result)
        ≡ copy_both
            (put_fn rb grants)
            (rb.walk older.root)
            (rb.walk newer.root)
            (create_fn grants n)
  unfolding compact
  compact_eq n older newer result = refl

  -- Compaction of two valid tables ends in one of two ways. It hands back one valid table, which
  -- reads every key as the newer table does, or else as the older one does, whatever sequence numbers
  -- the entries carry; or a memory request was refused, the result is -ENOMEM and no table.
  pub compact-Compacted :
      (n : ℕ) (older newer : Memtable) (result : Ptr Memtable)
      → IsValid older
      → IsValid newer
      → Compacted older newer (compact rb grants n (some older) (some newer) (some result))
  compact-Compacted n older newer result v w = elim (Bool-cases (grants n)) [
    | inl g ↦
        rw (compact_eq n older newer result, create_fn_granted n g)
          (older-Compacted older newer v w
            (compact_copy-Copied (rb.walk older.root) (n + 1) empty_memtable empty-IsValid))
    | inr g ↦
        rw (compact_eq n older newer result, create_fn_refused n g) (starved_merge (n + 1) n g)
  ]
