-- ===== src/Memtable.antt =====
-- src/lsm-memtable.h and the single-table part of src/lsm-memtable.c: the in-memory mapping from
-- logical blocks to physical sectors, on the kernel's red-black tree.
--
-- The code walks and links the tree itself; it takes the rebalancing, the first node, the removal of
-- a node and the in-order walk from the kernel, which are the fields of an `Rbtree`. The colours are
-- the kernel's alone and have no place in the model. The spin lock leaves no trace: an operation is
-- one step on the table. A table is a value: freeing one leaves no trace, and an allocation is a
-- memory request, which may be refused.
pub mod Sorted
pub mod InOrder
pub mod Laws
pub mod Tests
use dm_zns_base.Prelude.{
  ℕ, zero, suc, ◌+◌, Bool, true, false, Option, none, some, List, [], ◌∷◌, ◌++◌, ◌≡◌, ltb, ◌==◌,
  if◌then◌else◌, length, add64, add32,
}
use dm_zns_base.Kernel.{Errno, Ret, ok, err, Ptr}

-- `struct lsm_entry`, less its tree node.
pub record Entry : Type 0 where
  pub logical_block : ℕ
  pub physical_sector : ℕ
  pub sequence : ℕ

-- The tree below an `rb_node` pointer.
pub data Tree : Type 0 where
  leaf : Tree
  node : Tree → Entry → Tree → Tree

pub record Memtable : Type 0 where
  pub root : Tree
  pub next_sequence : ℕ
  pub nr_entries : ℕ

-- The kernel's operations: `rb_insert_color`, `rb_first`, `rb_erase`, and the nodes that `rb_first`
-- and `rb_next` visit.
pub record Rbtree : Type 0 where
  pub insert_color : Entry → Tree → Tree
  pub first : Tree → Option Entry
  pub erase : Entry → Tree → Tree
  pub walk : Tree → List Entry

unfoldable pub find : Tree → ℕ → Option Entry
find leaf logical_block = none
find (node left entry right) logical_block =
    if ltb logical_block entry.logical_block
    then find left logical_block
    else if ltb entry.logical_block logical_block
    then find right logical_block
    else some entry

-- The state that `memtable_init` writes.
abbrev pub empty_memtable : Memtable
empty_memtable = record { root = leaf; next_sequence = 1; nr_entries = 0 }

unfoldable pub init : Ptr Memtable → Ret × Ptr Memtable
init none = (err Errno.einval, none)
init (some m) = (ok, some empty_memtable)

-- `kzalloc`, then `memtable_init`, which accepts every table.
unfoldable pub create : Bool → Ptr Memtable
create false = none
create true = some empty_memtable

unfoldable pub size : Ptr Memtable → ℕ
size none = 0
size (some m) = m.nr_entries

-- `*sequence` is written only if the caller passed the pointer.
abbrev pub store : Ptr ℕ → ℕ → Ptr ℕ
store none v = none
store (some _) v = some v

-- The pointers `physical_sector` and `sequence` come back with what they point to.
unfoldable pub lookup : Ptr Memtable → ℕ → Ptr ℕ → Ptr ℕ → Ret × Ptr ℕ × Ptr ℕ
lookup none logical_block physical_sector sequence = (err Errno.einval, physical_sector, sequence)
lookup (some m) logical_block none sequence = (err Errno.einval, none, sequence)
lookup (some m) logical_block (some cell) sequence = elim (find m.root logical_block) [
  | none ↦ (err Errno.enodata, some cell, sequence)
  | some entry ↦ (ok, some entry.physical_sector, store sequence entry.sequence)
]

-- The walk of `memtable_insert` and its `rb_link_node`; `none` is the jump to `unlock` on a key that
-- is there.
unfoldable pub insert_at : Tree → Entry → Option Tree
insert_at leaf new_entry = some (node leaf new_entry leaf)
insert_at (node left entry right) new_entry =
    if ltb new_entry.logical_block entry.logical_block
    then elim (insert_at left new_entry) [ none ↦ none | some t ↦ some (node t entry right) ]
    else if ltb entry.logical_block new_entry.logical_block
    then elim (insert_at right new_entry) [ none ↦ none | some t ↦ some (node left entry t) ]
    else none

-- The walk of `memtable_put`: it links the new entry (`true`), or overwrites the one that is there.
unfoldable pub put_at : Tree → Entry → Tree × Bool
put_at leaf new_entry = (node leaf new_entry leaf, true)
put_at (node left entry right) new_entry =
    let (left', left_inserted) = put_at left new_entry in
    let (right', right_inserted) = put_at right new_entry in
    if ltb new_entry.logical_block entry.logical_block
    then (node left' entry right, left_inserted)
    else if ltb entry.logical_block new_entry.logical_block
    then (node left entry right', right_inserted)
    else (
      node left
          (record entry {
            physical_sector = new_entry.physical_sector;
            sequence = new_entry.sequence;
          })
          right,
      false,
    )

-- The write of `memtable_update` through the pointer that `memtable_find` returned.
unfoldable pub update_at : Tree → ℕ → ℕ → ℕ → Tree
update_at leaf logical_block physical_sector sequence = leaf
update_at (node left entry right) logical_block physical_sector sequence =
    if ltb logical_block entry.logical_block
    then node (update_at left logical_block physical_sector sequence) entry right
    else if ltb entry.logical_block logical_block
    then node left entry (update_at right logical_block physical_sector sequence)
    else node left (record entry { physical_sector = physical_sector; sequence = sequence }) right

unfoldable pub update : Ptr Memtable → ℕ → ℕ → Ret × Ptr Memtable
update none logical_block physical_sector = (err Errno.einval, none)
update (some m) logical_block physical_sector = elim (find m.root logical_block) [
  | none ↦ (err Errno.enodata, some m)
  | some _ ↦ (
    ok,
    some (record m {
      root = update_at m.root logical_block physical_sector m.next_sequence;
      next_sequence = add64 m.next_sequence 1;
    }),
  )
]

-- The new entry of `memtable_insert` and `memtable_put`.
abbrev pub new_entry : Memtable → ℕ → ℕ → Entry
new_entry m logical_block physical_sector = record {
  logical_block = logical_block;
  physical_sector = physical_sector;
  sequence = m.next_sequence;
}

module _ (rb : Rbtree) where
  unfoldable pub insert : Bool → Ptr Memtable → ℕ → ℕ → Ret × Ptr Memtable
  insert granted none logical_block physical_sector = (err Errno.einval, none)
  insert false (some m) logical_block physical_sector = (err Errno.enomem, some m)
  insert true (some m) logical_block physical_sector =
      let entry = new_entry m logical_block physical_sector in
      elim (insert_at m.root entry) [
        | none ↦ (err Errno.eexist, some m)
        | some t ↦ (
          ok,
          some (record {
            root = rb.insert_color entry t;
            next_sequence = add64 m.next_sequence 1;
            nr_entries = add32 m.nr_entries 1;
          }),
        )
      ]

  abbrev pub put_entry : Memtable → Entry → Tree × Bool → Memtable
  put_entry m entry (t, inserted) = record {
    root = if inserted then rb.insert_color entry t else t;
    next_sequence = add64 m.next_sequence 1;
    nr_entries = if inserted then add32 m.nr_entries 1 else m.nr_entries;
  }

  unfoldable pub put : Bool → Ptr Memtable → ℕ → ℕ → Ret × Ptr Memtable
  put granted none logical_block physical_sector = (err Errno.einval, none)
  put false (some m) logical_block physical_sector = (err Errno.enomem, some m)
  put true (some m) logical_block physical_sector =
      let entry = new_entry m logical_block physical_sector in
      (ok, some (put_entry m entry (put_at m.root entry)))

  -- The loop of `memtable_destroy`, with the entries that it frees; `none` means that the fuel ran
  -- out.
  unfoldable pub destroy_loop : ℕ → Tree → Option (Tree × List Entry)
  destroy_loop zero t = none
  destroy_loop (suc fuel) t = elim (rb.first t) [
    | none ↦ some (t, [])
    | some entry ↦ elim (destroy_loop fuel (rb.erase entry t)) [
      | none ↦ none
      | some (t', freed) ↦ some (t', entry ∷ freed)
    ]
  ]

  unfoldable pub destroy : ℕ → Ptr Memtable → Option (Ptr Memtable × List Entry)
  destroy fuel none = some (none, [])
  destroy fuel (some m) = elim (destroy_loop fuel m.root) [
    | none ↦ none
    | some (t, freed) ↦ some (some (record m { root = t; nr_entries = 0 }), freed)
  ]

abbrev pub in_order : Tree → List Entry
in_order leaf = []
in_order (node left entry right) = in_order left ++ (entry ∷ in_order right)

-- What the kernel documents of its operations: rebalancing keeps the order of the nodes, the walk
-- visits them in order, the first node is the first of that order, and erasing it removes it.
pub record IsRbtree (rb : Rbtree) : Type 0 where
  pub insert_color-in_order : (e : Entry) (t : Tree) → in_order (rb.insert_color e t) ≡ in_order t
  pub walk-in_order : (t : Tree) → rb.walk t ≡ in_order t
  pub first_empty : (t : Tree) → in_order t ≡ [] → rb.first t ≡ none
  pub first_some :
      (t : Tree) (e : Entry) (es : List Entry) → in_order t ≡ e ∷ es → rb.first t ≡ some e
  pub erase_first :
      (t : Tree) (e : Entry) (es : List Entry) → in_order t ≡ e ∷ es → in_order (rb.erase e t) ≡ es
