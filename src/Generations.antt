-- ===== src/Generations.antt =====
-- The two generations of src/lsm-memtable.c: compaction of two tables into one, freezing the active
-- table, and the write path that does both.
--
-- The three pointers `active`, `immutable` and `table_lock` are one argument: NULL if one of them
-- is, and else the pair of tables. The mutex leaves no trace, and neither does freeing a table. The
-- memory requests of a run are counted, and `grants` says which of them are met.
pub mod Compact
pub mod Active
pub mod Freeze
mod Tests
use dm_zns_base.Prelude.{
  ℕ, ◌+◌, Bool, true, false, Option, none, some, List, [], ◌∷◌, ltb, ◌==◌, if◌then◌else◌,
}
use dm_zns_base.Kernel.{Errno, Ret, ok, err, fault, Ptr, Grants}
use dm_zns_base.Memtable.{Entry, Memtable, Rbtree, put, create, size, lookup}

pub record Tables : Type 0 where
  pub active : Ptr Memtable
  pub immutable : Ptr Memtable

-- The functions that the code passes on by pointer. The first argument and the last result count
-- the memory requests.
abbrev pub PutFn : Type 0
PutFn = ℕ → Ptr Memtable → ℕ → ℕ → Ret × Ptr Memtable × ℕ

abbrev pub CompactFn : Type 0
CompactFn = ℕ → Ptr Memtable → Ptr Memtable → Ptr (Ptr Memtable) → Ret × Ptr (Ptr Memtable) × ℕ

abbrev pub CreateFn : Type 0
CreateFn = ℕ → Ptr Memtable × ℕ

-- `memtable_create`, which makes one request.
unfoldable pub create_fn : Grants → CreateFn
create_fn grants n = (create (grants n), n + 1)

-- `memtable_put`, which makes one request on a table.
unfoldable pub put_fn : Rbtree → Grants → PutFn
put_fn rb grants n none k p = (err Errno.einval, none, n)
put_fn rb grants n (some m) k p = let (r, m') = put rb (grants n) (some m) k p in (r, m', n + 1)

abbrev pub copy_next :
    (ℕ → Ptr Memtable → Ret × Ptr Memtable × ℕ) → Ret × Ptr Memtable × ℕ → Ret × Ptr Memtable × ℕ
copy_next rest (ok, destination, n) = rest n destination
copy_next rest (err e, destination, n) = (err e, destination, n)
copy_next rest (fault, destination, n) = (fault, destination, n)

-- The loop over the nodes of the source, in the order of the kernel's walk.
unfoldable pub compact_copy : PutFn → List Entry → ℕ → Ptr Memtable → Ret × Ptr Memtable × ℕ
compact_copy put_op [] n destination = (ok, destination, n)
compact_copy put_op (e ∷ es) n destination =
    copy_next (compact_copy put_op es) (put_op n destination e.logical_block e.physical_sector)

abbrev pub copy_done : Ret × Ptr Memtable × ℕ → Ret × Ptr (Ptr Memtable) × ℕ
copy_done (ok, merged, n) = (ok, some merged, n)
copy_done (err e, merged, n) = (err e, some none, n)
copy_done (fault, merged, n) = (fault, some none, n)

-- The second copy follows the first if that succeeded.
abbrev pub copy_newer : PutFn → List Entry → Ret × Ptr Memtable × ℕ → Ret × Ptr (Ptr Memtable) × ℕ
copy_newer put_op es (ok, merged, n) = copy_done (compact_copy put_op es n merged)
copy_newer put_op es (err e, merged, n) = (err e, some none, n)
copy_newer put_op es (fault, merged, n) = (fault, some none, n)

-- Both copies, onto the table that `memtable_create` returned.
abbrev pub copy_both :
    PutFn → List Entry → List Entry → Ptr Memtable × ℕ → Ret × Ptr (Ptr Memtable) × ℕ
copy_both put_op older newer (none, n) = (err Errno.enomem, some none, n)
copy_both put_op older newer (some merged, n) =
    copy_newer put_op newer (compact_copy put_op older n (some merged))

module _ (rb : Rbtree) (grants : Grants) where
  -- `*result` is NULL until the merged table is complete.
  unfoldable pub compact_with_put : Ptr PutFn → CompactFn
  compact_with_put put_op n older newer none = (err Errno.einval, none, n)
  compact_with_put none n older newer (some _) = (err Errno.einval, some none, n)
  compact_with_put (some put_op) n none newer (some _) = (err Errno.einval, some none, n)
  compact_with_put (some put_op) n (some older) none (some _) = (err Errno.einval, some none, n)
  compact_with_put (some put_op) n (some older) (some newer) (some _) =
      copy_both put_op (rb.walk older.root) (rb.walk newer.root) (create_fn grants n)

  unfoldable pub compact : CompactFn
  unfolding compact_with_put
  compact = compact_with_put (some (put_fn rb grants))

unfoldable pub freeze_prepared_locked : Tables → Ptr Memtable → Ret × Tables
freeze_prepared_locked t none = (err Errno.enomem, t)
freeze_prepared_locked t (some new_active) = elim t.active [
  | none ↦ (err Errno.einval, t)
  | some old ↦ elim t.immutable [
    | some _ ↦ (err Errno.ebusy, t)
    | none ↦ (ok, record { active = some new_active; immutable = some old })
  ]
]

abbrev pub unlocked : Ret × Tables → Ret × Ptr Tables
unlocked (r, t) = (r, some t)

unfoldable pub freeze_prepared : Ptr Tables → Ptr Memtable → Ret × Ptr Tables
freeze_prepared none new_active = (err Errno.einval, none)
freeze_prepared (some t) new_active = unlocked (freeze_prepared_locked t new_active)

abbrev pub counted : ℕ → Ret × Ptr Tables → Ret × Ptr Tables × ℕ
counted n (r, t) = (r, t, n)

abbrev pub freeze_with : Ptr Tables → Ptr Memtable × ℕ → Ret × Ptr Tables × ℕ
freeze_with t (none, n) = (err Errno.enomem, t, n)
freeze_with t (some new_active, n) = counted n (freeze_prepared t (some new_active))

unfoldable pub freeze : Grants → ℕ → Ptr Tables → Ret × Ptr Tables × ℕ
freeze grants n none = (err Errno.einval, none, n)
freeze grants n (some t) = freeze_with (some t) (create_fn grants n)

-- A miss in the active table is looked up in the immutable one.
abbrev pub lookup_immutable : Ptr Memtable → ℕ → Ret × Ptr ℕ → Ret × Ptr ℕ
lookup_immutable (some m) k (err Errno.enodata, cell) =
    let (r, cell', _) = lookup (some m) k cell none in (r, cell')
lookup_immutable _ k answer = answer

unfoldable pub lookup_active_immutable : Ptr Tables → ℕ → Ptr ℕ → Ret × Ptr ℕ
lookup_active_immutable none k cell = (err Errno.einval, cell)
lookup_active_immutable (some t) k none = (err Errno.einval, none)
lookup_active_immutable (some t) k (some cell) = elim t.active [
  | none ↦ (err Errno.einval, some cell)
  | some m ↦
      let (r, cell', _) = lookup (some m) k (some cell) none in
      lookup_immutable t.immutable k (r, cell')
]

abbrev pub deref : Ptr (Ptr Memtable) → Ptr Memtable
deref none = none
deref (some m) = m

-- The result of a freeze inside the write path: every failure keeps the write.
abbrev pub freeze_kept : ℕ → Ret × Tables → Ret × Tables × ℕ
freeze_kept n (ok, t) = (ok, t, n)
freeze_kept n (err _, t) = (ok, t, n)
freeze_kept n (fault, t) = (fault, t, n)

abbrev pub freeze_created : Tables → Ptr Memtable × ℕ → Ret × Tables × ℕ
freeze_created t (none, n) = (ok, t, n)
freeze_created t (some m, n) = freeze_kept n (freeze_prepared_locked t (some m))

abbrev pub merge_created : Tables → Ptr (Ptr Memtable) → Ptr Memtable × ℕ → Ret × Tables × ℕ
merge_created t merged (none, n) = (ok, t, n)
merge_created t merged (some m, n) = (ok, record { active = some m; immutable = deref merged }, n)

-- What follows the compaction: both tables are replaced together, or neither is.
abbrev pub merge_compacted : CreateFn → Tables → Ret × Ptr (Ptr Memtable) × ℕ → Ret × Tables × ℕ
merge_compacted create_op t (ok, merged, n) = merge_created t merged (create_op n)
merge_compacted create_op t (err _, merged, n) = (ok, t, n)
merge_compacted create_op t (fault, merged, n) = (fault, t, n)

-- What follows the write of the mapping.
abbrev pub maintain : CompactFn → CreateFn → ℕ → Tables → ℕ → Ret × Tables × ℕ
maintain compact_op create_op threshold t n =
    if ltb (size t.active) threshold then (ok, t, n) else elim t.immutable [
      | none ↦ freeze_created t (create_op n)
      | some _ ↦ merge_compacted create_op t (compact_op n t.immutable t.active (some none))
    ]

abbrev pub after_put : CompactFn → CreateFn → ℕ → Tables → Ret × Ptr Memtable × ℕ → Ret × Tables × ℕ
after_put compact_op create_op threshold t (ok, m, n) =
    maintain compact_op create_op threshold (record t { active = m }) n
after_put compact_op create_op threshold t (err e, m, n) = (err e, record t { active = m }, n)
after_put compact_op create_op threshold t (fault, m, n) = (fault, record t { active = m }, n)

abbrev pub to_ptr : Ret × Tables × ℕ → Ret × Ptr Tables × ℕ
to_ptr (r, t, n) = (r, some t, n)

module _ (rb : Rbtree) (grants : Grants) where
  unfoldable pub put_active_with_ops :
      Ptr CompactFn → Ptr CreateFn → ℕ → Ptr Tables → ℕ → ℕ → ℕ → Ret × Ptr Tables × ℕ
  put_active_with_ops compact_op create_op n none threshold k p = (err Errno.einval, none, n)
  put_active_with_ops none create_op n (some t) threshold k p = (err Errno.einval, some t, n)
  put_active_with_ops (some compact_op) none n (some t) threshold k p =
      (err Errno.einval, some t, n)
  put_active_with_ops (some compact_op) (some create_op) n (some t) threshold k p =
      if threshold == 0 then (err Errno.einval, some t, n) else elim t.active [
        | none ↦ (err Errno.einval, some t, n)
        | some m ↦
            to_ptr (after_put compact_op create_op threshold t (put_fn rb grants n (some m) k p))
      ]

  unfoldable pub put_active : ℕ → Ptr Tables → ℕ → ℕ → ℕ → Ret × Ptr Tables × ℕ
  unfolding put_active_with_ops compact
  put_active = put_active_with_ops (some (compact rb grants)) (some (create_fn grants))
