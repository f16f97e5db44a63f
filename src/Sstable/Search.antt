-- ===== src/Sstable/Search.antt =====
-- src/lsm-sstable.c: the binary search inside one block.
use mathlib.Core.Path.{subst}
use dm_zns_base.Prelude.{
  ℕ, zero, suc, ◌+◌, ◌-◌, ◌≤◌, ◌<◌, ◌≡◌, ◌≢◌, refl, ap, inl, inr, some, arith, lt→ltb, ne→==, eq→==,
  ge→ltb, lt_or_ge, trichotomy,
}
use dm_zns_base.Kernel.{Errno, Ret, ok, err}
use dm_zns_base.Block.{Block}
use dm_zns_base.Sstable.{
  key_at, sector_at, mid_of, find_loop, block_find, entries_per_block, to_cell,
}

-- The keys of the first `n` entries grow.
abbrev pub Sorted : Block → ℕ → Type 0
Sorted block n = (i j : ℕ) → i < j → j < n → key_at block i < key_at block j

-- The answer of a search among the first `n` entries.
pub data Found (block : Block) (n k cell : ℕ) : Ret × ℕ → Type 0 where
  hit : (i : ℕ) → i < n → key_at block i ≡ k → Found block n k cell (ok, sector_at block i)
  miss : ((i : ℕ) → i < n → key_at block i ≢ k) → Found block n k cell (err Errno.enodata, cell)

module _ (block : Block) (n k cell : ℕ) (sorted : Sorted block n)
    (few : n ≤ entries_per_block) where
  abbrev Below : ℕ → Type 0
  Below low = (i : ℕ) → i < low → key_at block i < k

  abbrev Above : ℕ → Type 0
  Above high = (i : ℕ) → high ≤ i → i < n → k < key_at block i

  mid-between :
      (low high : ℕ) → low < high → high ≤ n → (low ≤ mid_of low high) × (mid_of low high < high)
  mid-between low high l h = ground arith

  loop_end :
      (fuel low high : ℕ)
      → high ≤ low
      → find_loop block k cell (suc fuel) low high ≡ (err Errno.enodata, cell)
  unfolding find_loop
  loop_end fuel low high h = ground arith

  loop_hit :
      (fuel low high : ℕ)
      → low < high
      → key_at block (mid_of low high) ≡ k
      → find_loop block k cell (suc fuel) low high ≡ (ok, sector_at block (mid_of low high))
  unfolding find_loop
  loop_hit fuel low high h e = rw (lt→ltb low high h, eq→== _ _ e) refl

  loop_less :
      (fuel low high : ℕ)
      → low < high
      → high ≤ n
      → key_at block (mid_of low high) < k
      → find_loop block k cell (suc fuel) low high
        ≡ find_loop block k cell fuel (mid_of low high + 1) high
  unfolding find_loop
  loop_less fuel low high h h' e =
      rw
        (
          lt→ltb low high h,
          ne→== (key_at block (mid_of low high)) k (λ e'. absurd (omega (arith, e, e'))),
          lt→ltb _ _ e,
        )
        (ap (λ l. find_loop block k cell fuel l high) (ground (arith, mid-between low high h h')))

  loop_more :
      (fuel low high : ℕ)
      → low < high
      → k < key_at block (mid_of low high)
      → find_loop block k cell (suc fuel) low high
        ≡ find_loop block k cell fuel low (mid_of low high)
  unfolding find_loop
  loop_more fuel low high h e =
      rw
        (
          lt→ltb low high h,
          ne→== (key_at block (mid_of low high)) k (λ e'. absurd (omega (arith, e, e'))),
          ge→ltb (key_at block (mid_of low high)) k (omega (arith, e)),
        )
        refl

  -- The search below or above the middle keeps both bounds.
  Below-mid : (mid : ℕ) → mid < n → key_at block mid < k → Below (mid + 1)
  Below-mid mid h e i l = elim (lt_or_ge i mid) [
    | inl lt ↦ omega (arith, sorted i mid lt h, e)
    | inr ge ↦ subst (λ j. key_at block j < k) (omega (arith, l, ge)) e
  ]

  Above-mid : (mid : ℕ) → k < key_at block mid → Above mid
  Above-mid mid e i l h = elim (lt_or_ge mid i) [
    | inl lt ↦ omega (arith, sorted mid i lt h, e)
    | inr ge ↦ subst (λ j. k < key_at block j) (omega (arith, l, ge)) e
  ]

  find_loop-Found :
      (fuel low high : ℕ)
      → high - low < fuel
      → low ≤ high
      → high ≤ n
      → Below low
      → Above high
      → Found block n k cell (find_loop block k cell fuel low high)
  find_loop-Found zero low high f l h below above = absurd (omega (arith, f))
  find_loop-Found (suc fuel) low high f l h below above = elim (lt_or_ge low high) [
    | inr ge ↦ rw (loop_end fuel low high ge) (
        Found.miss λ i hi e. elim (lt_or_ge i low) [
          | inl lt ↦ absurd (omega (arith, below i lt, e))
          | inr ge' ↦ absurd (omega (arith, above i (omega (arith, ge, ge')) hi, e))
        ])
    | inl lt ↦
        let m = mid-between low high lt h in
        elim (trichotomy (key_at block (mid_of low high)) k) [
          | inl less ↦ rw (loop_less fuel low high lt h less) (
              find_loop-Found fuel (mid_of low high + 1) high (omega (arith, f, m.0, m.1))
                (omega (arith, m.1)) h (Below-mid (mid_of low high) (omega (arith, m.1, h)) less)
                above)
          | inr (inl same) ↦
              rw (loop_hit fuel low high lt same)
                (Found.hit (mid_of low high) (omega (arith, m.1, h)) same)
          | inr (inr more) ↦ rw (loop_more fuel low high lt more) (
              find_loop-Found fuel low (mid_of low high) (omega (arith, f, m.0, m.1)) m.0
                (omega (arith, m.1, h)) below (Above-mid (mid_of low high) more))
        ]
  ]

  -- In a block whose first n keys grow, with 0 < n ≤ 256, the search for a key ends, with the sector
  -- of the entry that has the key, or with -ENODATA and the cell left alone if no entry has it.
  pub block_find-Found :
      0 < n
      → (r : Ret × ℕ) × (block_find (some block) n k (some cell) ≡ to_cell r)
        × Found block n k cell r
  unfolding block_find
  block_find-Found pos = (
    find_loop block k cell (suc n) 0 n,
    ground (arith, few),
    find_loop-Found (suc n) 0 n (omega arith) (omega arith) (omega arith)
        (λ i l. absurd (omega (arith, l))) (λ i l h. absurd (omega (arith, l, h))),
  )
