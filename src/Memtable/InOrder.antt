-- ===== src/Memtable/InOrder.antt =====
-- The walks down the tree, as operations on its entries in order.
use dm_zns_base.Prelude.{ℕ, ◌≡◌, refl, false, ltb, if◌then◌else◌, none, some, ◌∷◌, ◌++◌, arith}
use dm_zns_base.Memtable.{Entry, Tree, leaf, node, find, in_order, put_at, insert_at, update_at}
use dm_zns_base.Memtable.Sorted.{
  Above, Below, Above-mono, IsSorted, find_in, put_in, is_none, IsSorted-split, find_in-right,
  find_in-left, put_in-left, put_in-right,
}

module _ (left : Tree) (entry : Entry) (right : Tree)
    (sorted : IsSorted (in_order (node left entry right))) where
  parts :
      Below entry.logical_block (in_order left)
      × Above entry.logical_block (in_order right)
      × IsSorted (in_order left)
      × IsSorted (in_order right)
  parts = IsSorted-split (in_order left) entry (in_order right) sorted

  -- Where a key at a node is looked for.
  find_in-node :
      (k : ℕ)
      → find_in k (in_order (node left entry right)) ≡ (
          if ltb k entry.logical_block
          then find_in k (in_order left)
          else if ltb entry.logical_block k
          then find_in k (in_order right)
          else some entry)
  find_in-node k = ground (
    arith,
    find_in-left k (in_order left) (entry ∷ in_order right),
    find_in-right k entry.logical_block (in_order left) (entry ∷ in_order right),
    Above-mono k entry.logical_block (in_order right),
    parts.0,
    parts.1,
  )

  put_in-node :
      (new : Entry)
      → put_in new (in_order (node left entry right)) ≡ (
          if ltb new.logical_block entry.logical_block
          then put_in new (in_order left) ++ (entry ∷ in_order right)
          else if ltb entry.logical_block new.logical_block
          then in_order left ++ (entry ∷ put_in new (in_order right))
          else in_order left
            ++ (record entry { physical_sector = new.physical_sector; sequence = new.sequence }
                ∷ in_order right))
  put_in-node new = ground (
    arith,
    put_in-left new (in_order left) entry (in_order right),
    put_in-right new entry.logical_block (in_order left) (entry ∷ in_order right),
    parts.0,
  )

-- `memtable_find` finds what stands in the sorted list.
pub find-in_order : (t : Tree) (k : ℕ) → IsSorted (in_order t) → find t k ≡ find_in k (in_order t)
unfolding find
find-in_order leaf k s = refl
find-in_order (node left entry right) k s =
    let (_, _, sl, sr) = parts left entry right s in
    rw (find_in-node left entry right s k) (rw (find-in_order left k sl, find-in_order right k sr))

-- The walk of `memtable_put` puts its entry in, and says whether the key was new.
pub put_at-in_order :
    (t : Tree) (new : Entry)
    → IsSorted (in_order t)
    → (in_order (put_at t new).0 ≡ put_in new (in_order t))
      × ((put_at t new).1 ≡ is_none (find_in new.logical_block (in_order t)))
unfolding put_at
put_at-in_order leaf new s = (refl, refl)
put_at-in_order (node left entry right) new s =
    let (_, _, sl, sr) = parts left entry right s in
    ground (
      arith,
      put_in-node left entry right s new,
      find_in-node left entry right s new.logical_block,
      put_at-in_order left new sl,
      put_at-in_order right new sr,
    )

-- The walk of `memtable_insert` does the same, but stops at a key that is there.
pub insert_at-put_at :
    (t : Tree) (new : Entry)
    → insert_at t new ≡ (if (put_at t new).1 then some (put_at t new).0 else none)
unfolding insert_at put_at
insert_at-put_at leaf new = refl
insert_at-put_at (node left entry right) new =
    ground (arith, insert_at-put_at left new, insert_at-put_at right new)

-- The write of `memtable_update` is that of `memtable_put` on a key that is there.
pub update_at-put_at :
    (t : Tree) (new : Entry)
    → (put_at t new).1 ≡ false
    → update_at t new.logical_block new.physical_sector new.sequence ≡ (put_at t new).0
unfolding update_at put_at
update_at-put_at leaf new h = absurd (ground arith)
update_at-put_at (node left entry right) new h =
    ground (arith, update_at-put_at left new, update_at-put_at right new)
