-- ===== src/Lsm/Reading/Log.antt =====
-- src/engines/zns-engine-lsm.c: the tables on the device, newest first, as lists of entries.
use mathlib.Core.Option
use dm_zns_base.Prelude.{
  ℕ, ◌+◌, ◌*◌, ◌≤◌, ◌<◌, ◌≡◌, refl, ◌∙◌, ap, true, Option, none, some, List, [], ◌∷◌, map, All,
  length, lt-length_of_get_elem?, u32_mod, arith, Bool, false, Bool-cases, inl, inr, ◌⊎◌, ltb, ◌||◌,
}
use dm_zns_base.Kernel.{Errno, Ret, ok, err, Ptr}
use dm_zns_base.Memtable.{Entry}
use dm_zns_base.Memtable.Sorted.{find_in}
use dm_zns_base.Block.{Block}
use dm_zns_base.Block.Io.{Layer, IsDevice}
use dm_zns_base.Generations.Compact.{over}
use dm_zns_base.Sstable.{Sstable}
use dm_zns_base.Sstable.Reader
use dm_zns_base.Sstable.Scan.{Growing}
use dm_zns_base.Sstable.Written.{Stored, table_of}
use dm_zns_base.Sstable.Found.{AllInRange, lookup-FoundEntry}
use dm_zns_base.Sstable.Agree.{answer, FoundEntry-answer}
use dm_zns_base.Lsm.State.{Env}
use dm_zns_base.Lsm.Reading.{lookup_tables, next_table}

-- A run of `zns_sst_write`: where it started, its sequence number, the sectors that it used, and what
-- it wrote.
pub record Run : Type 0 where
  pub start : ℕ
  pub seq : ℕ
  pub consumed : ℕ
  pub entries : List Entry

-- The sector that the table of the run has for a logical block.
abbrev pub run_reading : Run → ℕ → Option ℕ
run_reading r k = Option.map (λ e. e.physical_sector) (find_in k r.entries)

-- The first answer wins.
abbrev pub log_reading : List Run → ℕ → Option ℕ
log_reading [] k = none
log_reading (r ∷ rs) k = over (run_reading r k) (log_reading rs k)

module _ {D : Type 0} (layer : Layer D) (crc32_le : ℕ → List ℕ → ℕ) (content : D → ℕ → Block)
    (dev : IsDevice layer content) where
  abbrev pub table : Run → Sstable
  table r = table_of layer crc32_le r.start r.seq r.entries

  -- The run is on the device, below sector `bound`.
  pub record OnDisk (bound : ℕ) (disk : D) (r : Run) : Type 0 where
    pub growing : Growing r.entries
    pub small : length r.entries < u32_mod
    pub ranges : AllInRange r.entries
    pub some_entry : 0 < length r.entries
    pub below : r.start + r.consumed ≤ bound
    pub on_disk : Stored layer crc32_le content dev r.entries (table r) r.consumed disk
    pub starts : (table r).start_sector ≡ r.start

  -- A run stays on a device that has not changed below the bound.
  pub OnDisk-kept :
      (bound bound' : ℕ) (disk disk' : D) (r : Run)
      → bound ≤ bound'
      → ((s : ℕ) → s < bound → content disk' s ≡ content disk s)
      → OnDisk bound disk r
      → OnDisk bound' disk' r
  OnDisk-kept bound bound' disk disk' r l same o = record {
    growing = o.growing;
    small = o.small;
    ranges = o.ranges;
    some_entry = o.some_entry;
    below = omega (arith, o.below, l);
    on_disk = record {
      header =
          same (table r).start_sector (omega (arith, o.starts, o.below, o.on_disk.used))
          ∙ o.on_disk.header;
      payload = λ i b h.
          same ((table r).start_sector + (i + 1) * 8)
            (omega (arith, o.starts, o.below, o.on_disk.used, lt-length_of_get_elem? _ i h))
          ∙ o.on_disk.payload i b h;
      used = o.on_disk.used;
      fits = o.on_disk.fits;
    };
    starts = o.starts;
  }

  pub AllOnDisk-kept :
      (bound bound' : ℕ) (disk disk' : D) (rs : List Run)
      → bound ≤ bound'
      → ((s : ℕ) → s < bound → content disk' s ≡ content disk s)
      → All (OnDisk bound disk) rs
      → All (OnDisk bound' disk') rs
  AllOnDisk-kept bound bound' disk disk' [] l same o = tt
  AllOnDisk-kept bound bound' disk disk' (r ∷ rs) l same o = (
    OnDisk-kept bound bound' disk disk' r l same o.0,
    AllOnDisk-kept bound bound' disk disk' rs l same o.1,
  )

  -- A lookup in one table on the device answers as its entries do.
  lookup-run :
      (bound : ℕ) (disk : D) (r : Run) (k cell : ℕ) (uninit : Block)
      → OnDisk bound disk r
      → (disk' : D) × ((s : ℕ) → content disk' s ≡ content disk s)
        × (Reader.lookup layer true uninit (some disk) (some (table r)) k (some cell)
            ≡ ((answer (run_reading r k) cell).0, (answer (run_reading r k) cell).1, some disk'))
  lookup-run bound disk r k cell uninit o =
      let (ret, p, disk', e, same, found) =
        lookup-FoundEntry layer crc32_le content dev r.entries r.start r.seq r.consumed disk
          o.growing o.small o.ranges o.on_disk k cell uninit o.some_entry in
      (
        disk',
        same,
        e
            ∙ ap (λ (q : Ret × Ptr ℕ). (q.0, q.1, some disk'))
                (FoundEntry-answer r.entries k cell (ret, p) o.growing found),
      )

abbrev pub log_answer : ℕ → Option ℕ → Ret × Ptr ℕ
log_answer cell none = (err Errno.enodata, some cell)
log_answer cell (some p) = (ok, some p)

-- Without memory a lookup answers as it does with it, or fails for want of it and leaves the cell alone.
lookup_without :
    {D : Type 0} (layer : Layer D) (granted : Bool) (uninit : Block) (disk : D) (sst : Sstable)
    (k cell : ℕ)
    → (Reader.lookup layer granted uninit (some disk) (some sst) k (some cell)
        ≡ Reader.lookup layer true uninit (some disk) (some sst) k (some cell))
      ⊎ ((granted ≡ false)
          × (Reader.lookup layer granted uninit (some disk) (some sst) k (some cell)
              ≡ (err Errno.enomem, some cell, some disk)))
unfolding Reader.lookup
lookup_without layer true uninit disk sst k cell = inl refl
lookup_without layer false uninit disk sst k cell = elim (Bool-cases (ltb sst.nr_blocks 2)) [
  | inl short ↦ inl (rw short refl)
  | inr long ↦ elim (Bool-cases (ltb k sst.min_key || ltb sst.max_key k)) [
    | inl outside ↦ inl (rw (long, outside) refl)
    | inr inside ↦ inr (refl, rw (long, inside) refl)
  ]
]

module _ {D X : Type 0} (env : Env D X) (content : D → ℕ → Block)
    (dev : IsDevice env.layer content) where
  abbrev pub Runs : ℕ → D → List Run → Type 0
  Runs bound disk rs = All (OnDisk env.layer env.crc32_le content dev bound disk) rs

  abbrev pub tables_of : List Run → List Sstable
  tables_of rs = map (table env.layer env.crc32_le content dev) rs

  -- What a walk that made its requests from number `n` on leaves: the same contents, and the answer,
  -- or -ENOMEM and the cell left alone, where a request was refused.
  abbrev pub Walked : D → ℕ → ℕ → Ret × Ptr ℕ → Ret × Ptr ℕ × D × ℕ → Type 0
  Walked disk n cell r a =
      (disk' : D) × (n' : ℕ) × ((s : ℕ) → content disk' s ≡ content disk s)
      × ((a ≡ (r.0, r.1, disk', n'))
          ⊎ ((m : ℕ) × (n ≤ m)
              × (env.grants m ≡ false)
              × (a ≡ (err Errno.enomem, some cell, disk', n'))))

  -- A walk over the tables of runs on the device gives the first answer that one of them has, unless
  -- memory is refused.
  pub lookup_tables-Walked :
      (rs : List Run) (bound k cell n : ℕ) (disk : D)
      → Runs bound disk rs
      → Walked disk n cell
          (log_answer cell (log_reading rs k))
          (lookup_tables env (tables_of rs) k disk cell n)
  unfolding lookup_tables
  lookup_tables-Walked [] bound k cell n disk o = (disk, n, (λ s. refl), inl refl)
  lookup_tables-Walked (r ∷ rs) bound k cell n disk o =
      elim (lookup_without env.layer (env.grants n) env.uninit disk
        (table env.layer env.crc32_le content dev r) k cell) [
          | inr (none_left, e) ↦
              rw e (disk, n + 1, (λ s. refl), inr (n, omega arith, none_left, refl))
          | inl with_memory ↦
              let (disk', same, e) =
                lookup-run env.layer env.crc32_le content dev bound disk r k cell env.uninit o.0 in
              rw (with_memory, e)
                (next (run_reading r k) disk' same (
                  lookup_tables-Walked rs bound k cell (n + 1) disk' (
                    AllOnDisk-kept env.layer env.crc32_le content dev bound bound disk disk' rs
                      (omega arith) (λ s _. same s) o.1)))
        ]
    where
      next :
          (first : Option ℕ) (disk' : D)
          → ((s : ℕ) → content disk' s ≡ content disk s)
          → Walked disk'
              (n + 1)
              cell
              (log_answer cell (log_reading rs k))
              (lookup_tables env (tables_of rs) k disk' cell (n + 1))
          → Walked disk n cell (log_answer cell (over first (log_reading rs k))) (
              next_table env
                (lookup_tables env (tables_of rs) k)
                n
                ((answer first cell).0, (answer first cell).1, some disk')
                disk
                cell)
      next none disk' same (d, m, same', inl e) = (d, m, (λ s. same' s ∙ same s), inl e)
      next none disk' same (d, m, same', inr (i, le, refused, e)) =
          (d, m, (λ s. same' s ∙ same s), inr (i, omega (arith, le), refused, e))
      next (some p) disk' same w = (disk', n + 1, same, inl refl)
