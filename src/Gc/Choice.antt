-- ===== src/Gc/Choice.antt =====
-- Which zone the policies choose.
use native.Mathlib.Decide.{ℕ_discrete}
use dm_zns_base.Prelude.{
  ℕ, zero, suc, ◌+◌, ◌-◌, ◌^◌, ◌≤◌, ◌<◌, ◌≡◌, refl, Bool, true, false, not, ◌&&◌, ltb, u64_mod,
  arith, Bool-cases, inl, inr,
}
use dm_zns_base.Kernel.{Errno}
use dm_zns_base.Gc.{GcContext, Victim, zone, none_found, to_int}
use dm_zns_base.Gc.Simple
use dm_zns_base.Gc.Greedy

-- A zone that a collection may take: not the reserve, resettable, written to its end, holding
-- garbage, and with live blocks that fit the reserve.
abbrev pub Collectable : GcContext → ℕ → Type 0
Collectable ctx k =
    let info = ctx.get_zone_info k in
    (info.is_reserve ≡ false)
    × (info.resettable ≡ true)
    × (info.free_blocks ≡ 0)
    × (info.valid_blocks < info.capacity_blocks)
    × (info.valid_blocks ≤ ctx.reserve_free_blocks)

abbrev pub live : GcContext → ℕ → ℕ
live ctx k = (ctx.get_zone_info k).valid_blocks

-- The zone numbers fit an `int`, and the counts a `sector_t`.
pub record IsSmall (ctx : GcContext) : Type 0 where
  pub zones : ctx.nr_zones ≤ 2 ^ 31
  pub blocks : (k : ℕ) → (ctx.get_zone_info k).capacity_blocks < u64_mod

-- The outcome of a policy: a collectable zone that satisfies `P`, or -ENOSPC because none is.
pub data Chosen (ctx : GcContext) (P : ℕ → Type 0) : Victim → Type 0 where
  chosen : (v : ℕ) → v < ctx.nr_zones → Collectable ctx v → P v → Chosen ctx P (zone v)
  nothing :
      ((k : ℕ) → k < ctx.nr_zones → ¬ (Collectable ctx k)) → Chosen ctx P (none_found Errno.enospc)

-- `v` comes first among the collectable zones.
abbrev pub IsFirst : GcContext → ℕ → Type 0
IsFirst ctx v = (k : ℕ) → k < v → ¬ (Collectable ctx k)

-- `v` has the fewest live blocks of all collectable zones, and fewer than those before it.
abbrev pub IsFewest : GcContext → ℕ → Type 0
IsFewest ctx v =
    (k : ℕ)
    → k < ctx.nr_zones
    → Collectable ctx k
    → (live ctx v ≤ live ctx k) × (k < v → live ctx v < live ctx k)

module _ (ctx : GcContext) (small : IsSmall ctx) where
  simple_from :
      (n k : ℕ)
      → k + n ≡ ctx.nr_zones
      → ((j : ℕ) → j < k → ¬ (Collectable ctx j))
      → Chosen ctx (IsFirst ctx) (Simple.select_from ctx n k)
  unfolding Simple.select_from
  simple_from zero k e before = nothing (λ j h. before j (omega arith))
  simple_from (suc n) k e before =
      elim (Bool-cases (Simple.collectable ctx (ctx.get_zone_info k))) [
        | inl hit ↦
            let fits : ltb k (2 ^ 31) ≡ true = ground (arith, small.zones) in
            rw (hit, fits) (chosen k (omega arith) (ground arith) before)
        | inr miss ↦ rw miss (
            simple_from n (k + 1) (omega arith) (λ j h. elim (ℕ_discrete j k) [
              | yes same ↦ rw same (λ c. ground arith)
              | no other ↦ before j (omega arith)
            ]))
      ]

  -- The simple policy chooses the first collectable zone, and answers -ENOSPC exactly when no zone
  -- is collectable.
  pub simple-Chosen : Chosen ctx (IsFirst ctx) (Simple.select_victim ctx)
  unfolding Simple.select_victim
  simple-Chosen = simple_from ctx.nr_zones 0 (omega arith) (λ j h. absurd (omega arith))

-- What the two variables of the greedy loop hold once the zones below `k` are seen.
data Best (ctx : GcContext) (k : ℕ) : ℕ → Victim → Type 0 where
  unset :
      (fewest : ℕ)
      → fewest ≡ u64_mod - 1
      → ((j : ℕ) → j < k → ¬ (Collectable ctx j))
      → Best ctx k fewest (none_found Errno.enospc)
  best :
      (v fewest : ℕ)
      → fewest ≡ live ctx v
      → v < k
      → Collectable ctx v
      → ((j : ℕ)
          → j < k
          → Collectable ctx j
          → (live ctx v ≤ live ctx j) × (j < v → live ctx v < live ctx j))
      → Best ctx k fewest (zone v)

abbrev better : GcContext → ℕ → ℕ → Bool
better ctx k fewest = not (Greedy.skipped ctx (ctx.get_zone_info k)) && ltb (live ctx k) fewest

module _ (ctx : GcContext) (small : IsSmall ctx) where
  Best-improve :
      (k fewest : ℕ) {w : Victim}
      → k < ctx.nr_zones
      → better ctx k fewest ≡ true
      → Best ctx k fewest w
      → Best ctx (k + 1) (live ctx k) (to_int k)
  Best-improve k fewest lt h (unset _ e before) =
      let fits : ltb k (2 ^ 31) ≡ true = ground (arith, small.zones) in
      rw fits (
        best k (live ctx k) refl (omega arith) (ground arith) (λ j hj c. elim (ℕ_discrete j k) [
          | yes same ↦ rw same (omega arith)
          | no other ↦ absurd (before j (omega arith) c)
        ]))
  Best-improve k fewest lt h (best v _ e hv cv least) =
      let fits : ltb k (2 ^ 31) ≡ true = ground (arith, small.zones) in
      let fewer : live ctx k < live ctx v = ground arith in
      rw fits (
        best k (live ctx k) refl (omega arith) (ground arith) (λ j hj c. elim (ℕ_discrete j k) [
          | yes same ↦ rw same (omega arith)
          | no other ↦ let (le, before) = least j (omega arith) c in (omega arith, λ p. omega arith)
        ]))

  Best-keep :
      (k fewest : ℕ) {w : Victim}
      → k < ctx.nr_zones
      → better ctx k fewest ≡ false
      → Best ctx k fewest w
      → Best ctx (k + 1) fewest w
  Best-keep k fewest lt h (unset _ e before) = unset fewest e (λ j hj c. elim (ℕ_discrete j k) [
    | yes same ↦
        let c' : Collectable ctx k = rw (← same) c in
        let room : live ctx k < u64_mod - 1 = omega (arith, small.blocks k) in ground arith
    | no other ↦ before j (omega arith) c
  ])
  Best-keep k fewest lt h (best v _ e hv cv least) = best v fewest e (omega arith) cv (λ j hj c.
      elim (ℕ_discrete j k) [
        | yes same ↦ let c' : Collectable ctx k = rw (← same) c in rw same (ground arith)
        | no other ↦ least j (omega arith) c
      ])

  greedy_from :
      (n k fewest : ℕ) {w : Victim}
      → k + n ≡ ctx.nr_zones
      → Best ctx k fewest w
      → Chosen ctx (IsFewest ctx) (Greedy.select_from ctx n k fewest w)
  unfolding Greedy.select_from
  greedy_from zero k fewest e (unset _ _ before) = nothing (λ j h. before j (omega arith))
  greedy_from zero k fewest e (best v _ _ hv cv least) =
      chosen v (omega arith) cv (λ j h c. least j (omega arith) c)
  greedy_from (suc n) k fewest e b = elim (Bool-cases (better ctx k fewest)) [
    | inl h ↦
        rw h (
          greedy_from n (k + 1) (live ctx k) (omega arith)
            (Best-improve k fewest (omega arith) h b))
    | inr h ↦
        rw h (greedy_from n (k + 1) fewest (omega arith) (Best-keep k fewest (omega arith) h b))
  ]

  -- The greedy policy chooses a collectable zone with the fewest live blocks, the first of several,
  -- and answers -ENOSPC exactly when no zone is collectable.
  pub greedy-Chosen : Chosen ctx (IsFewest ctx) (Greedy.select_victim ctx)
  unfolding Greedy.select_victim
  greedy-Chosen =
      greedy_from ctx.nr_zones 0 (u64_mod - 1) (omega arith)
        (unset (u64_mod - 1) refl (λ j h. absurd (omega arith)))
