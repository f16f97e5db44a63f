-- ===== src/Memtable/Laws.antt =====
-- One table as a finite map: what each operation does to the reading of every key, on every branch.
use mathlib.Core.Option
use mathlib.Core.Option.{some-injective}
use dm_zns_base.Prelude.{
  ℕ, zero, suc, ◌%◌, ◌<◌, ◌≡◌, refl, sym, ap, ◌∙◌, Bool, true, false, ◌&&◌, ◌==◌, if◌then◌else◌,
  Option, none, some, List, [], ◌∷◌, length, arith, Bool-cases, inl, inr, u32_mod,
}
use dm_zns_base.Kernel.{Errno, Ret, ok, err}
use dm_zns_base.Memtable.{
  Entry, Tree, Memtable, Rbtree, IsRbtree, find, in_order, put_at, put, put_entry, insert, update,
  lookup, new_entry, empty_memtable, destroy, destroy_loop,
}
use dm_zns_base.Memtable.Sorted.{
  IsSorted, find_in, put_in, is_none, find_in-put_in, put_in-IsSorted, length-put_in,
}
use dm_zns_base.Memtable.InOrder.{
  find-in_order, put_at-in_order, insert_at-put_at, update_at-put_at,
}

pub record IsValid (m : Memtable) : Type 0 where
  pub ordered : IsSorted (in_order m.root)
  pub counted : m.nr_entries ≡ length (in_order m.root) % u32_mod

-- The sector that a table holds for a logical block.
abbrev pub reading : Memtable → ℕ → Option ℕ
reading m k = Option.map (λ e. e.physical_sector) (find m.root k)

abbrev pub is_some : Option ℕ → Bool
is_some none = false
is_some (some _) = true

-- `memtable_lookup` as the reading of the key: a hit writes the cells, a miss leaves them alone.
pub lookup_lem :
    (m : Memtable) (k cell : ℕ)
    → lookup (some m) k (some cell) none ≡ elim (reading m k) [
      | none ↦ (err Errno.enodata, some cell, none)
      | some p ↦ (ok, some p, none)
    ]
unfolding lookup
lookup_lem m k cell = ground arith

pub empty-IsValid : IsValid empty_memtable
empty-IsValid = record { ordered = tt; counted = refl }

module _ (rb : Rbtree) where
  -- The table after a granted `memtable_put`.
  abbrev pub put_table : Memtable → ℕ → ℕ → Memtable
  put_table m k p = put_entry rb m (new_entry m k p) (put_at m.root (new_entry m k p))

  pub put_granted :
      (m : Memtable) (k p : ℕ) → put rb true (some m) k p ≡ (ok, some (put_table m k p))
  unfolding put
  put_granted m k p = refl

module _ (rb : Rbtree) (laws : IsRbtree rb) where
  in_order-put :
      (m : Memtable) (k p : ℕ)
      → IsValid m
      → in_order (put_table rb m k p).root ≡ put_in (new_entry m k p) (in_order m.root)
  in_order-put m k p v =
      let (same, _) = put_at-in_order m.root (new_entry m k p) v.ordered in
      elim (Bool-cases (put_at m.root (new_entry m k p)).1) [
        | inl new ↦ rw new (
            laws.insert_color-in_order (new_entry m k p) (put_at m.root (new_entry m k p)).0 ∙ same)
        | inr old ↦ rw old same
      ]

  pub put_table-IsValid : (m : Memtable) (k p : ℕ) → IsValid m → IsValid (put_table rb m k p)
  put_table-IsValid m k p v = record {
    ordered =
        rw (in_order-put m k p v) (put_in-IsSorted (new_entry m k p) (in_order m.root) v.ordered);
    counted = rw (in_order-put m k p v) (
        ground (
          arith,
          v.counted,
          length-put_in (new_entry m k p) (in_order m.root) v.ordered,
          (put_at-in_order m.root (new_entry m k p) v.ordered).1,
        ));
  }

  find-put_table :
      (m : Memtable) (k p j : ℕ)
      → IsValid m
      → find (put_table rb m k p).root j
        ≡ (if j == k then some (new_entry m k p) else find m.root j)
  find-put_table m k p j v =
      find-in_order (put_table rb m k p).root j (put_table-IsValid m k p v).ordered
      ∙ ap (find_in j) (in_order-put m k p v)
      ∙ find_in-put_in j (new_entry m k p) (in_order m.root) v.ordered
      ∙ ap (λ r. if j == k then some (new_entry m k p) else r)
          (sym (find-in_order m.root j v.ordered))

  pub reading-put_table :
      (m : Memtable) (k p j : ℕ)
      → IsValid m
      → reading (put_table rb m k p) j ≡ (if j == k then some p else reading m j)
  reading-put_table m k p j v = ground (arith, find-put_table m k p j v)

  -- `memtable_put` fails only for want of memory, and then changes nothing; otherwise the key reads
  -- the new sector, every other key reads what it read, and the table stays sorted and counted.
  pub put_lem :
      (granted : Bool) (m : Memtable) (k p : ℕ) {r : Ret} {m' : Memtable}
      → IsValid m
      → put rb granted (some m) k p ≡ (r, some m')
      → IsValid m'
        × (r ≡ (if granted then ok else err Errno.enomem))
        × ((j : ℕ) → reading m' j ≡ (if granted && j == k then some p else reading m j))
  unfolding put
  put_lem false m k p {r} {m'} v h =
      let same : m' ≡ m = some-injective m' m (ap (λ t. t.1) (sym h)) in
      rw same (v, ap (λ t. t.0) (sym h), (λ j. refl))
  put_lem true m k p {r} {m'} v h =
      let same : m' ≡ put_table rb m k p = some-injective m' _ (ap (λ t. t.1) (sym h)) in
      rw same (put_table-IsValid m k p v, ap (λ t. t.0) (sym h), (λ j. reading-put_table m k p j v))

  put_at-new :
      (m : Memtable) (k p : ℕ)
      → IsValid m
      → (put_at m.root (new_entry m k p)).1 ≡ is_none (find m.root k)
  put_at-new m k p v =
      (put_at-in_order m.root (new_entry m k p) v.ordered).1
      ∙ ap is_none (sym (find-in_order m.root k v.ordered))

  -- `memtable_put` is `memtable_update` on a key that is there, and `memtable_insert` on one that
  -- is not; `memtable_insert` refuses the first kind with -EEXIST, `memtable_update` the second with
  -- -ENODATA, and neither then changes the table.
  pub put_splits :
      (m : Memtable) (k p : ℕ)
      → IsValid m
      → (put rb true (some m) k p
          ≡ (if is_some (reading m k) then update (some m) k p else insert rb true (some m) k p))
        × (insert rb true (some m) k p ≡ (
            if is_some (reading m k) then (err Errno.eexist, some m) else put rb true (some m) k p))
        × (update (some m) k p ≡ (
            if is_some (reading m k)
            then put rb true (some m) k p
            else (err Errno.enodata, some m)))
  unfolding put insert update
  put_splits m k p v = ground (
    arith,
    put_at-new m k p v,
    insert_at-put_at m.root (new_entry m k p),
    update_at-put_at m.root (new_entry m k p),
  )

  -- The loop of `memtable_destroy` ends, with an empty tree, once its fuel passes the number of
  -- entries.
  destroy_loop_lem :
      (es : List Entry) (fuel : ℕ) (t : Tree)
      → in_order t ≡ es
      → length es < fuel
      → (t' : Tree) × (destroy_loop rb fuel t ≡ some (t', es)) × (in_order t' ≡ [])
  unfolding destroy_loop
  destroy_loop_lem [] zero t e h = absurd (omega arith)
  destroy_loop_lem [] (suc fuel) t e h = (t, rw (laws.first_empty t e, destroy_loop) refl, e)
  destroy_loop_lem (x ∷ es) zero t e h = absurd (omega arith)
  destroy_loop_lem (x ∷ es) (suc fuel) t e h =
      let (t', r, gone) =
        destroy_loop_lem es fuel (rb.erase x t) (laws.erase_first t x es e) (omega arith) in
      (t', rw (laws.first_some t x es e, destroy_loop) (rw r refl), gone)

  -- `memtable_destroy` ends: in one round more than there are entries it frees each entry exactly
  -- once, in the order of the keys, and leaves an empty tree and a count of 0.
  pub destroy_lem :
      (m : Memtable) (fuel : ℕ)
      → length (in_order m.root) < fuel
      → (m' : Memtable) × (destroy rb fuel (some m) ≡ some (some m', in_order m.root))
        × (in_order m'.root ≡ [])
        × (m'.nr_entries ≡ 0)
  unfolding destroy
  destroy_lem m fuel h =
      let (t, r, gone) = destroy_loop_lem (in_order m.root) fuel m.root refl h in
      (record m { root = t; nr_entries = 0 }, rw (r, destroy) refl, gone, refl)
