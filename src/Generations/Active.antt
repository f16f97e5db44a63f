-- ===== src/Generations/Active.antt =====
-- The write path over both generations: a completed write is what the next lookup finds, and no
-- freeze or merge changes what any other key reads.
use mathlib.Core.Path.{subst⁻¹}
use dm_zns_base.Prelude.{
  ℕ, ◌+◌, ◌≡◌, ◌≢◌, refl, sym, ap, ◌∙◌, Bool, true, false, ltb, ◌==◌, if◌then◌else◌, Option, none,
  some, arith, Bool-cases, inl, inr, ne→==,
}
use dm_zns_base.Kernel.{Errno, Ret, ok, err, Ptr, Grants}
use dm_zns_base.Memtable.{Memtable, Rbtree, IsRbtree, find, empty_memtable, size}
use dm_zns_base.Memtable.Laws.{
  IsValid, reading, put_table, put_table-IsValid, reading-put_table, empty-IsValid, lookup_lem,
}
use dm_zns_base.Generations.{
  Tables, create_fn, compact, freeze_prepared_locked, lookup_active_immutable, maintain, to_ptr,
  freeze_created, merge_compacted, put_active,
}
use dm_zns_base.Generations.Compact.{
  over, Compacted, merged, starved_merge, compact-Compacted, create_fn_granted, create_fn_refused,
  put_fn_granted, put_fn_refused,
}

abbrev pub IsValidPtr : Ptr Memtable → Type 0
IsValidPtr none = Unit
IsValidPtr (some m) = IsValid m

-- There is an active table, and both tables are valid.
pub record IsValidTables (t : Tables) : Type 0 where
  pub current : Memtable
  pub is_active : t.active ≡ some current
  pub active_valid : IsValid current
  pub immutable_valid : IsValidPtr t.immutable

abbrev pub reading_at : Ptr Memtable → ℕ → Option ℕ
reading_at none k = none
reading_at (some m) k = reading m k

-- What a lookup of both generations reads.
abbrev pub reads : Tables → ℕ → Option ℕ
reads t k = over (reading_at t.active k) (reading_at t.immutable k)

abbrev pub answer_of : ℕ → Option ℕ → Ret × Ptr ℕ
answer_of cell none = (err Errno.enodata, some cell)
answer_of cell (some p) = (ok, some p)

abbrev pub tables : Memtable → Ptr Memtable → Tables
tables m im = record { active = some m; immutable = im }

pub eq-tables : (t : Tables) (v : IsValidTables t) → t ≡ tables v.current t.immutable
eq-tables t v = λ i. record { active = v.is_active i; immutable = t.immutable }

pub tables-IsValidTables :
    (m : Memtable) (im : Ptr Memtable) → IsValid m → IsValidPtr im → IsValidTables (tables m im)
tables-IsValidTables m im v w = record {
  current = m;
  is_active = refl;
  active_valid = v;
  immutable_valid = w;
}

pub empty_reads : (o : Option ℕ) (j : ℕ) → over (reading empty_memtable j) o ≡ o
unfolding find
empty_reads o j = refl

lookup_tables :
    (m : Memtable) (im : Ptr Memtable) (k cell : ℕ)
    → lookup_active_immutable (some (tables m im)) k (some cell)
      ≡ answer_of cell (reads (tables m im) k)
unfolding lookup_active_immutable
lookup_tables m none k cell = ground (arith, lookup_lem m k cell)
lookup_tables m (some im) k cell = ground (arith, lookup_lem m k cell, lookup_lem im k cell)

-- `memtable_lookup_active_immutable` answers the active table's sector, or else the immutable one's,
-- or else -ENODATA, and then leaves the cell alone.
pub lookup_active_immutable_lem :
    (t : Tables) (k cell : ℕ)
    → IsValidTables t
    → lookup_active_immutable (some t) k (some cell) ≡ answer_of cell (reads t k)
lookup_active_immutable_lem t k cell v =
    subst⁻¹ (λ s. lookup_active_immutable (some s) k (some cell) ≡ answer_of cell (reads s k))
      (eq-tables t v) (lookup_tables v.current t.immutable k cell)

module _ (rb : Rbtree) (laws : IsRbtree rb) (grants : Grants) where
  -- How a write ends: it is stored, and both tables are valid; or there was no memory for its
  -- entry, and nothing changed.
  pub data Written (t : Tables) (k p : ℕ) : Ret × Ptr Tables × ℕ → Type 0 where
    written :
        (t' : Tables) (n' : ℕ)
        → IsValidTables t'
        → ((j : ℕ) → reads t' j ≡ (if j == k then some p else reads t j))
        → Written t k p (ok, some t', n')
    unwritten : (n' i : ℕ) → grants i ≡ false → Written t k p (err Errno.enomem, some t, n')

  -- Maintenance never fails, and changes no reading.
  data Maintained (t : Tables) : Ret × Tables × ℕ → Type 0 where
    maintained :
        (t' : Tables) (n' : ℕ)
        → IsValidTables t'
        → ((j : ℕ) → reads t' j ≡ reads t j)
        → Maintained t (ok, t', n')

  merge-Maintained :
      (newer older : Memtable) {r : Ret × Ptr (Ptr Memtable) × ℕ}
      → IsValid newer
      → IsValid older
      → Compacted rb laws grants older newer r
      → Maintained
          (tables newer (some older))
          (merge_compacted (create_fn grants) (tables newer (some older)) r)
  merge-Maintained newer older v w (merged m n' u read) = elim (Bool-cases (grants n')) [
    | inl g ↦ rw (create_fn_granted rb laws grants n' g) (
        maintained (tables empty_memtable (some m)) (n' + 1)
          (tables-IsValidTables empty_memtable (some m) empty-IsValid u)
          (λ j. empty_reads (reading m j) j ∙ read j))
    | inr g ↦ rw (create_fn_refused rb laws grants n' g) (
        maintained (tables newer (some older)) (n' + 1)
          (tables-IsValidTables newer (some older) v w) (λ j. refl))
  ]
  merge-Maintained newer older v w (starved_merge n' i no_memory) =
      maintained (tables newer (some older)) n' (tables-IsValidTables newer (some older) v w)
        (λ j. refl)

  pub over-none : (o : Option ℕ) → over o none ≡ o
  over-none none = refl
  over-none (some p) = refl

  freeze-Maintained :
      (m : Memtable) (n : ℕ)
      → IsValid m
      → Maintained (tables m none) (freeze_created (tables m none) (create_fn grants n))
  unfolding freeze_prepared_locked
  freeze-Maintained m n v = elim (Bool-cases (grants n)) [
    | inl g ↦ rw (create_fn_granted rb laws grants n g) (
        maintained (tables empty_memtable (some m)) (n + 1)
          (tables-IsValidTables empty_memtable (some m) empty-IsValid v)
          (λ j. empty_reads (reading m j) j ∙ sym (over-none (reading m j))))
    | inr g ↦
        rw (create_fn_refused rb laws grants n g)
          (maintained (tables m none) (n + 1) (tables-IsValidTables m none v tt) (λ j. refl))
  ]

  maintain-Maintained :
      (threshold : ℕ) (m : Memtable) (im : Ptr Memtable) (n : ℕ)
      → IsValid m
      → IsValidPtr im
      → Maintained
          (tables m im)
          (maintain (compact rb grants) (create_fn grants) threshold (tables m im) n)
  maintain-Maintained threshold m none n v w = elim (Bool-cases (ltb (size (some m)) threshold)) [
    | inl small ↦
        rw small (maintained (tables m none) n (tables-IsValidTables m none v w) (λ j. refl))
    | inr large ↦ rw large (freeze-Maintained m n v)
  ]
  maintain-Maintained threshold m (some older) n v w =
      elim (Bool-cases (ltb (size (some m)) threshold)) [
        | inl small ↦ rw small (
            maintained (tables m (some older)) n (tables-IsValidTables m (some older) v w)
              (λ j. refl))
        | inr large ↦
            rw large
              (merge-Maintained m older v w (compact-Compacted rb laws grants n older m none w v))
      ]

  Maintained-Written :
      (m : Memtable) (im : Ptr Memtable) (k p : ℕ) {r : Ret × Tables × ℕ}
      → IsValid m
      → Maintained (tables (put_table rb m k p) im) r
      → Written (tables m im) k p (to_ptr r)
  Maintained-Written m im k p v (maintained t' n' w read) = written t' n' w (λ j.
      read j
      ∙ ap (λ o. over o (reading_at im j)) (reading-put_table rb laws m k p j v)
      ∙ choose (j == k) (reading m j) (reading_at im j))
    where
      choose :
          (b : Bool) (x y : Option ℕ)
          → over (if b then some p else x) y ≡ (if b then some p else over x y)
      choose true x y = refl
      choose false x y = refl

  put_tables :
      (n threshold k p : ℕ) (m : Memtable) (im : Ptr Memtable)
      → IsValid m
      → IsValidPtr im
      → threshold ≢ 0
      → Written (tables m im) k p (put_active rb grants n (some (tables m im)) threshold k p)
  unfolding put_active
  put_tables n threshold k p m im v w ne = rw (ne→== threshold 0 ne) (elim (Bool-cases (grants n)) [
    | inl g ↦ rw (put_fn_granted rb laws grants n m k p g) (
        Maintained-Written m im k p v (
          maintain-Maintained threshold (put_table rb m k p) im (n + 1)
            (put_table-IsValid rb laws m k p v) w))
    | inr g ↦ rw (put_fn_refused rb laws grants n m k p g) (unwritten (n + 1) n g)
  ])

  pub put_active-Written :
      (n threshold k p : ℕ) (t : Tables)
      → IsValidTables t
      → threshold ≢ 0
      → Written t k p (put_active rb grants n (some t) threshold k p)
  put_active-Written n threshold k p t v ne =
      subst⁻¹ (λ s. Written s k p (put_active rb grants n (some s) threshold k p)) (eq-tables t v)
        (put_tables n threshold k p v.current t.immutable v.active_valid v.immutable_valid ne)
