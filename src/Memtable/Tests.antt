-- ===== src/Memtable/Tests.antt =====
-- The table at small inputs, over a tree that is never rebalanced.
use dm_zns_base.Prelude.{
  ℕ, ◌≡◌, refl, ap, ◌∙◌, arith, true, Option, none, some, List, [], ◌∷◌, ◌++◌, if◌then◌else◌, ◌==◌,
  ◌&&◌,
}
use dm_zns_base.Kernel.{Errno, ok, err}
use dm_zns_base.Memtable.{
  Entry, Tree, leaf, node, Memtable, Rbtree, IsRbtree, in_order, put_at, destroy, empty_memtable,
  find,
}
use dm_zns_base.Memtable.Laws.{
  IsValid, reading, empty-IsValid, put_table, put_table-IsValid, put_granted, put_lem, destroy_lem,
}

abbrev first : Tree → Option Entry
first leaf = none
first (node leaf e r) = some e
first (node (node ll le lr) e r) = first (node ll le lr)

-- Removes the first node, whatever node is named.
abbrev drop_first : Tree → Tree
drop_first leaf = leaf
drop_first (node leaf e r) = r
drop_first (node (node ll le lr) e r) = node (drop_first (node ll le lr)) e r

abbrev pub plain : Rbtree
plain = record {
  insert_color = λ e t. t;
  first = first;
  erase = λ e t. drop_first t;
  walk = in_order;
}

abbrev head : List Entry → Option Entry
head [] = none
head (e ∷ es) = some e

abbrev tail : List Entry → List Entry
tail [] = []
tail (e ∷ es) = es

head-append :
    (xs : List Entry) (y : Entry) (ys zs : List Entry)
    → head (xs ++ (y ∷ ys)) ≡ head ((xs ++ (y ∷ ys)) ++ zs)
head-append [] y ys zs = refl
head-append (x ∷ xs) y ys zs = refl

tail-append :
    (xs : List Entry) (y : Entry) (ys zs : List Entry)
    → tail (xs ++ (y ∷ ys)) ++ zs ≡ tail ((xs ++ (y ∷ ys)) ++ zs)
tail-append [] y ys zs = refl
tail-append (x ∷ xs) y ys zs = refl

first-in_order : (t : Tree) → first t ≡ head (in_order t)
first-in_order leaf = refl
first-in_order (node leaf e r) = refl
first-in_order (node (node ll le lr) e r) =
    first-in_order (node ll le lr) ∙ head-append (in_order ll) le (in_order lr) (e ∷ in_order r)

drop_first-in_order : (t : Tree) → in_order (drop_first t) ≡ tail (in_order t)
drop_first-in_order leaf = refl
drop_first-in_order (node leaf e r) = refl
drop_first-in_order (node (node ll le lr) e r) =
    ap (λ l. l ++ (e ∷ in_order r)) (drop_first-in_order (node ll le lr))
    ∙ tail-append (in_order ll) le (in_order lr) (e ∷ in_order r)

pub plain-IsRbtree : IsRbtree plain
plain-IsRbtree = record {
  insert_color-in_order = λ e t. refl;
  walk-in_order = λ t. refl;
  first_empty = λ t h. first-in_order t ∙ ap head h;
  first_some = λ t e es h. first-in_order t ∙ ap head h;
  erase_first = λ t e es h. drop_first-in_order t ∙ ap tail h;
}

-- Blocks 5, 2 and 9, written in that order, then 5 again.
abbrev pub sample : Memtable
sample =
    put_table plain
      (put_table plain (put_table plain (put_table plain empty_memtable 5 100) 2 108) 9 116) 5 124

pub sample-IsValid : IsValid sample
sample-IsValid = v4
  where
    v1 : IsValid (put_table plain empty_memtable 5 100)
    v1 = put_table-IsValid plain plain-IsRbtree empty_memtable 5 100 empty-IsValid

    v2 : IsValid (put_table plain (put_table plain empty_memtable 5 100) 2 108)
    v2 = put_table-IsValid plain plain-IsRbtree _ 2 108 v1

    v4 : IsValid sample
    v4 =
        put_table-IsValid plain plain-IsRbtree _ 5 124
          (put_table-IsValid plain plain-IsRbtree _ 9 116 v2)

sample_reads :
    (find sample.root 5 ≡ some (record { logical_block = 5; physical_sector = 124; sequence = 4 }))
    × (sample.nr_entries ≡ 3)
unfolding find put_at
sample_reads = (refl, refl)

put_lem_example :
    IsValid (put_table plain sample 7 132)
    × (ok ≡ (if true then ok else err Errno.enomem))
    × ((j : ℕ)
        → reading (put_table plain sample 7 132) j
          ≡ (if true && j == 7 then some 132 else reading sample j))
put_lem_example =
    put_lem plain plain-IsRbtree true sample 7 132 sample-IsValid (put_granted plain sample 7 132)

destroy_lem_example :
    (m' : Memtable) × (destroy plain 4 (some sample) ≡ some (some m', in_order sample.root))
    × (in_order m'.root ≡ [])
    × (m'.nr_entries ≡ 0)
unfolding put_at
destroy_lem_example = destroy_lem plain plain-IsRbtree sample 4 (omega arith)
