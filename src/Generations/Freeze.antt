-- ===== src/Generations/Freeze.antt =====
-- Freezing on request, and the bound on the active table that the write path keeps.
use mathlib.Core.Option.{some-injective}
use mathlib.Core.Path.{subst⁻¹, subst}
use dm_zns_base.Prelude.{
  ℕ, ◌+◌, ◌<◌, ◌≡◌, ◌≢◌, refl, sym, ap, ◌∙◌, Bool, true, false, ltb, if◌then◌else◌, none, some,
  arith, Bool-cases, inl, inr, ne→==, ltb→lt,
}
use dm_zns_base.Kernel.{Errno, Ret, ok, err, Ptr, Grants}
use dm_zns_base.Memtable.{Memtable, Rbtree, IsRbtree, empty_memtable, size}
use dm_zns_base.Memtable.Laws.{IsValid, reading, empty-IsValid, put_table, put_table-IsValid}
use dm_zns_base.Generations.{
  Tables, create_fn, compact, freeze_prepared_locked, freeze_prepared, freeze, maintain,
  merge_compacted, put_active, to_ptr,
}
use dm_zns_base.Generations.Compact.{
  AllGranted, Compacted, merged, starved_merge, compact-Compacted, create_fn_granted,
  create_fn_refused, put_fn_granted,
}
use dm_zns_base.Generations.Active.{
  IsValidTables, IsValidPtr, tables, eq-tables, reads, empty_reads, over-none, tables-IsValidTables,
}

abbrev pub is_present : Ptr Memtable → Bool
is_present none = false
is_present (some _) = true

-- The verdict of a freeze.
abbrev pub freeze_ret : Bool → Ptr Memtable → Ret
freeze_ret granted im =
    if granted then (if is_present im then err Errno.ebusy else ok) else err Errno.enomem

data Frozen (grants : Grants) (n : ℕ) (t : Tables) : Ret × Ptr Tables × ℕ → Type 0 where
  frozen :
      (r : Ret) (t' : Tables) (n' : ℕ)
      → r ≡ freeze_ret (grants n) t.immutable
      → IsValidTables t'
      → ((k : ℕ) → reads t' k ≡ reads t k)
      → Frozen grants n t (r, some t', n')

module _ (rb : Rbtree) (laws : IsRbtree rb) (grants : Grants) where
  freeze-tables :
      (n : ℕ) (m : Memtable) (im : Ptr Memtable)
      → IsValid m
      → IsValidPtr im
      → Frozen grants n (tables m im) (freeze grants n (some (tables m im)))
  unfolding freeze freeze_prepared freeze_prepared_locked
  freeze-tables n m none v w = elim (Bool-cases (grants n)) [
    | inl g ↦ rw (create_fn_granted rb laws grants n g) (
        frozen ok (tables empty_memtable (some m)) (n + 1) (rw g)
          (tables-IsValidTables empty_memtable (some m) empty-IsValid v)
          (λ j. empty_reads (reading m j) j ∙ sym (over-none rb laws grants (reading m j))))
    | inr g ↦ rw (create_fn_refused rb laws grants n g) (
        frozen (err Errno.enomem) (tables m none) (n + 1) (rw g) (tables-IsValidTables m none v tt)
          (λ j. refl))
  ]
  freeze-tables n m (some im) v w = elim (Bool-cases (grants n)) [
    | inl g ↦ rw (create_fn_granted rb laws grants n g) (
        frozen (err Errno.ebusy) (tables m (some im)) (n + 1) (rw g)
          (tables-IsValidTables m (some im) v w) (λ j. refl))
    | inr g ↦ rw (create_fn_refused rb laws grants n g) (
        frozen (err Errno.enomem) (tables m (some im)) (n + 1) (rw g)
          (tables-IsValidTables m (some im) v w) (λ j. refl))
  ]

  Frozen-result :
      (n : ℕ) (t t' : Tables) (n' : ℕ) {r : Ret} {res : Ret × Ptr Tables × ℕ}
      → Frozen grants n t res
      → res ≡ (r, some t', n')
      → (r ≡ freeze_ret (grants n) t.immutable)
        × IsValidTables t'
        × ((k : ℕ) → reads t' k ≡ reads t k)
  Frozen-result n t t' n' (frozen s u m verdict valid same) e =
      let here : u ≡ t' = some-injective u t' (ap (λ x. x.1) e) in
      (
        sym (ap (λ x. x.0) e) ∙ verdict,
        subst IsValidTables here valid,
        subst (λ x. (k : ℕ) → reads x k ≡ reads t k) here same,
      )

  -- `memtable_freeze` never changes what any block reads, and keeps the tables valid; it succeeds
  -- exactly when memory is granted and no frozen table is waiting, and answers -ENOMEM or -EBUSY
  -- otherwise.
  pub freeze_lem :
      (n n' : ℕ) (t t' : Tables) {r : Ret}
      → IsValidTables t
      → freeze grants n (some t) ≡ (r, some t', n')
      → (r ≡ freeze_ret (grants n) t.immutable)
        × IsValidTables t'
        × ((k : ℕ) → reads t' k ≡ reads t k)
  freeze_lem n n' t t' v h =
      Frozen-result n t t' n'
        (subst⁻¹ (λ s. Frozen grants n s (freeze grants n (some s))) (eq-tables t v)
          (freeze-tables n v.current t.immutable v.active_valid v.immutable_valid))
        h

  module _ (all : AllGranted grants) (threshold : ℕ) (pos : threshold ≢ 0) where
    Small : Ret × Tables × ℕ → Type 0
    Small r = size r.1.active < threshold

    merge-Small :
        (older newer : Memtable) (t : Tables) {r : Ret × Ptr (Ptr Memtable) × ℕ}
        → Compacted rb laws grants older newer r
        → Small (merge_compacted (create_fn grants) t r)
    unfolding Small size
    merge-Small older newer t (merged m n' v read) =
        rw (create_fn_granted rb laws grants n' (all n')) (omega arith)
    merge-Small older newer t (starved_merge n' i g) = absurd (ground (arith, all i))

    maintain-Small :
        (m : Memtable) (im : Ptr Memtable) (n : ℕ)
        → IsValid m
        → IsValidPtr im
        → Small (maintain (compact rb grants) (create_fn grants) threshold (tables m im) n)
    unfolding Small size freeze_prepared_locked
    maintain-Small m none n v w = elim (Bool-cases (ltb (size (some m)) threshold)) [
      | inl small ↦ rw small (ltb→lt (size (some m)) threshold small)
      | inr large ↦ rw (large, create_fn_granted rb laws grants n (all n)) (omega arith)
    ]
    maintain-Small m (some older) n v w = elim (Bool-cases (ltb (size (some m)) threshold)) [
      | inl small ↦ rw small (ltb→lt (size (some m)) threshold small)
      | inr large ↦ rw large (
          merge-Small older m (tables m (some older))
            (compact-Compacted rb laws grants n older m none w v))
    ]

    Small-after :
        (t : Tables) {r : Ret} (t' : Tables) (n' : ℕ) {res : Ret × Tables × ℕ}
        → Small res
        → to_ptr res ≡ (r, some t', n')
        → size t'.active < threshold
    unfolding Small
    Small-after t t' n' {res = (s, u, m)} small e =
        subst (λ x. size x.active < threshold) (some-injective u t' (ap (λ x. x.1) e)) small

    put_tables-Small :
        (n k p : ℕ) (m : Memtable) (im : Ptr Memtable) {r : Ret} (t' : Tables) (n' : ℕ)
        → IsValid m
        → IsValidPtr im
        → put_active rb grants n (some (tables m im)) threshold k p ≡ (r, some t', n')
        → size t'.active < threshold
    unfolding put_active
    put_tables-Small n k p m im t' n' v w e =
        Small-after (tables m im) t' n'
          (maintain-Small (put_table rb m k p) im (n + 1) (put_table-IsValid rb laws m k p v) w)
          (rw (ne→== threshold 0 pos, put_fn_granted rb laws grants n m k p (all n)) at e)

    -- While every memory request is met, `memtable_put_active` leaves fewer entries in the active
    -- table than the threshold, also if there were more before.
    pub put_active-bound :
        (n k p n' : ℕ) (t t' : Tables) {r : Ret}
        → IsValidTables t
        → put_active rb grants n (some t) threshold k p ≡ (r, some t', n')
        → size t'.active < threshold
    put_active-bound n k p n' t t' {r} v e =
        put_tables-Small n k p v.current t.immutable t' n' v.active_valid v.immutable_valid (
          subst (λ s. put_active rb grants n (some s) threshold k p ≡ (r, some t', n'))
            (eq-tables t v) e)
