-- ===== src/Sstable/Scan.antt =====
-- src/lsm-sstable.c: what `zns_sst_scan_memtable` counts.
use mathlib.Core.Path.{subst}
use mathlib.Core.Option.{some-injective}
use dm_zns_base.Prelude.{
  ℕ, zero, suc, ◌+◌, ◌≤◌, ◌<◌, ◌≡◌, refl, ◌∙◌, ap, List, [], ◌∷◌, some, length, get_elem?, u32_mod,
  arith, eq→==, ne→==, if◌then◌else◌,
}
use dm_zns_base.Memtable.{Entry}
use dm_zns_base.Sstable.{Sstable}
use dm_zns_base.Sstable.Writer.{scan_entry, scan_from, scan_memtable}

-- The keys of the list grow.
abbrev pub Growing : List Entry → Type 0
Growing es =
    (i j : ℕ) (e f : Entry)
    → i < j
    → get_elem? es i ≡ some e
    → get_elem? es j ≡ some f
    → e.logical_block < f.logical_block

Growing-tail : (x : Entry) (es : List Entry) → Growing (x ∷ es) → Growing es
Growing-tail x es g i j e f l ei fj = g (suc i) (suc j) e f (omega (arith, l)) ei fj

scan_count :
    (es : List Entry) (sst : Sstable)
    → sst.nr_entries + length es < u32_mod
    → (scan_from sst es).nr_entries ≡ sst.nr_entries + length es
scan_count [] sst h = omega arith
scan_count (x ∷ es) sst h =
    let one : (scan_entry sst x).nr_entries ≡ sst.nr_entries + 1 = omega (arith, h) in
    scan_count es (scan_entry sst x) (omega (arith, h, one)) ∙ omega (arith, one)

scan_kept :
    (es : List Entry) (sst : Sstable)
    → ((scan_from sst es).start_sector ≡ sst.start_sector) × ((scan_from sst es).seq ≡ sst.seq)
scan_kept [] sst = (refl, refl)
scan_kept (x ∷ es) sst = scan_kept es (scan_entry sst x)

-- The first key stays.
scan_min :
    (es : List Entry) (sst : Sstable)
    → 0 < sst.nr_entries
    → sst.nr_entries + length es < u32_mod
    → (scan_from sst es).min_key ≡ sst.min_key
scan_min [] sst pos h = refl
scan_min (x ∷ es) sst pos h =
    let one : (scan_entry sst x).nr_entries ≡ sst.nr_entries + 1 = omega (arith, h) in
    scan_min es (scan_entry sst x) (omega (arith, one)) (omega (arith, h, one))
    ∙ ap (λ t. if t then x.logical_block else sst.min_key)
        (ne→== sst.nr_entries 0 (λ e. absurd (omega (arith, pos, e))))

-- The last key is the greatest.
scan_max :
    (es : List Entry) (sst : Sstable)
    → Growing es
    → ((e : Entry) → get_elem? es 0 ≡ some e → sst.max_key ≤ e.logical_block)
    → (sst.max_key ≤ (scan_from sst es).max_key)
      × ((j : ℕ) (e : Entry)
          → get_elem? es j ≡ some e
          → e.logical_block ≤ (scan_from sst es).max_key)
scan_max [] sst g h = (omega arith, λ j e at. absurd (ground arith))
scan_max (x ∷ es) sst g h =
    let next =
      scan_max es (scan_entry sst x) (Growing-tail x es g)
        (λ e at. omega (arith, g 0 1 x e (omega arith) refl at)) in
    (omega (arith, h x refl, next.0), go next.0 next.1)
  where
    go :
        x.logical_block ≤ (scan_from (scan_entry sst x) es).max_key
        → ((j : ℕ) (e : Entry)
            → get_elem? es j ≡ some e
            → e.logical_block ≤ (scan_from (scan_entry sst x) es).max_key)
        → (j : ℕ) (e : Entry) → get_elem? (x ∷ es) j ≡ some e
        → e.logical_block ≤ (scan_from (scan_entry sst x) es).max_key
    go head tail zero e at =
        subst (λ y. y.logical_block ≤ (scan_from (scan_entry sst x) es).max_key)
          (some-injective _ _ at) head
    go head tail (suc j) e at = tail j e at

-- The first key is the least.
scan_least :
    (x : Entry) (es : List Entry) (from : Sstable)
    → from.nr_entries ≡ 0
    → Growing (x ∷ es)
    → length (x ∷ es) < u32_mod
    → (scan_from from (x ∷ es)).min_key ≡ x.logical_block
scan_least x es from z g h =
    let one : (scan_entry from x).nr_entries ≡ 1 = omega (arith, z) in
    scan_min es (scan_entry from x) (omega (arith, one)) (omega (arith, h, one))
    ∙ ap (λ t. if t then x.logical_block else from.min_key) (eq→== from.nr_entries 0 z)

least :
    (es : List Entry) (from : Sstable)
    → from.nr_entries ≡ 0
    → Growing es
    → length es < u32_mod
    → (j : ℕ) (e : Entry) → get_elem? es j ≡ some e
    → (scan_from from es).min_key ≤ e.logical_block
least [] from z g h j e at = absurd (ground arith)
least (x ∷ es) from z g h zero e at =
    subst (λ y. (scan_from from (x ∷ es)).min_key ≤ y.logical_block) (some-injective _ _ at)
      (omega (arith, scan_least x es from z g h))
least (x ∷ es) from z g h (suc j) e at =
    omega (arith, scan_least x es from z g h, g 0 (suc j) x e (omega arith) refl at)

-- A scan counts the entries, with the least and the greatest key where the keys grow, and leaves the
-- rest of the table alone.
pub record Scanned (es : List Entry) (sst out : Sstable) : Type 0 where
  pub start_sector : out.start_sector ≡ sst.start_sector
  pub seq : out.seq ≡ sst.seq
  pub count : out.nr_entries ≡ length es
  pub lower : (j : ℕ) (e : Entry) → get_elem? es j ≡ some e → out.min_key ≤ e.logical_block
  pub upper : (j : ℕ) (e : Entry) → get_elem? es j ≡ some e → e.logical_block ≤ out.max_key

pub scan_memtable-Scanned :
    (es : List Entry) (sst : Sstable)
    → Growing es
    → length es < u32_mod
    → Scanned es sst (scan_memtable es sst)
unfolding scan_memtable
scan_memtable-Scanned es sst g h =
    let from = record sst { nr_entries = 0; min_key = 0; max_key = 0 } in
    record {
      start_sector = (scan_kept es from).0;
      seq = (scan_kept es from).1;
      count = scan_count es from (omega (arith, h)) ∙ omega arith;
      lower = least es from refl g h;
      upper = (scan_max es from g (λ e at. omega arith)).1;
    }

scan_last :
    (es : List Entry) (sst : Sstable) (j : ℕ) (e : Entry)
    → suc j ≡ length es
    → get_elem? es j ≡ some e
    → (scan_from sst es).max_key ≡ e.logical_block
scan_last [] sst j e h at = absurd (omega (arith, h))
scan_last (x ∷ []) sst zero e h at = ap (λ y. y.logical_block) (some-injective _ _ at)
scan_last (x ∷ []) sst (suc j) e h at = absurd (omega (arith, h))
scan_last (x ∷ y ∷ es) sst zero e h at = absurd (omega (arith, h))
scan_last (x ∷ y ∷ es) sst (suc j) e h at =
    scan_last (y ∷ es) (scan_entry sst x) j e (omega (arith, h)) at

-- The keys of a scan are those of the first and of the last entry.
pub scan_memtable-first :
    (es : List Entry) (sst : Sstable) (e : Entry)
    → Growing es
    → length es < u32_mod
    → get_elem? es 0 ≡ some e
    → (scan_memtable es sst).min_key ≡ e.logical_block
unfolding scan_memtable
scan_memtable-first [] sst e g h at = absurd (ground arith)
scan_memtable-first (x ∷ es) sst e g h at =
    scan_least x es (record sst { nr_entries = 0; min_key = 0; max_key = 0 }) refl g h
    ∙ ap (λ y. y.logical_block) (some-injective _ _ at)

pub scan_memtable-last :
    (es : List Entry) (sst : Sstable) (j : ℕ) (e : Entry)
    → suc j ≡ length es
    → get_elem? es j ≡ some e
    → (scan_memtable es sst).max_key ≡ e.logical_block
unfolding scan_memtable
scan_memtable-last es sst j e h at =
    scan_last es (record sst { nr_entries = 0; min_key = 0; max_key = 0 }) j e h at
