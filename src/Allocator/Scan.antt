-- ===== src/Allocator/Scan.antt =====
-- The scan of `zns_allocator_alloc_zoned` over the zones: what a hit changes, and which zones a miss
-- has seen.
use mathlib.Core.Option.{some-injective}
use native.Mathlib.Decide.{ℕ_discrete}
use native.Mathlib.Nat.{mod-eq_of_lt, mod-lt}
use dm_zns_base.Prelude.{
  ℕ, zero, suc, ◌+◌, ◌%◌, ◌≤◌, ◌<◌, ◌≡◌, ◌≢◌, refl, sym, Bool, true, false, not, ◌&&◌, some, ◌==◌,
  get_elem?, set, get_elem?-some, u32_mod, arith, add64, add32, ◌⊎◌, inl, inr, Bool-cases,
  Option-cases, ◌∙◌,
}
use dm_zns_base.Kernel.{Errno, Ret, ok, err}
use dm_zns_base.Zone.{ZnsZone, can_append}
use dm_zns_base.Allocator.{Allocator, alloc_loop, take_block}
use dm_zns_base.Allocator.Valid.{IsValid}

-- The test of the loop, on zone number `i` with descriptor `z`.
abbrev pub takes : Allocator → ℕ → ZnsZone → Bool
takes a i z = not (i == a.reserve_zone) && can_append z a.sectors_per_block

abbrev pub appended : Allocator → ZnsZone → ZnsZone
appended a z = record z { write_pointer = add64 z.write_pointer a.sectors_per_block }

-- From `a` to `a'`, one block was taken at the write pointer `p` of a zone that had room for it and
-- is not the reserve; every other zone is as it was.
pub record Appended (a : Allocator) (p : ℕ) (a' : Allocator) : Type 0 where
  pub zone : ℕ
  pub descriptor : ZnsZone
  pub found : get_elem? a.zones zone ≡ some descriptor
  pub had_room : takes a zone descriptor ≡ true
  pub at_pointer : p ≡ descriptor.write_pointer
  pub moved : a'.zones ≡ set a.zones zone (appended a descriptor)
  pub same_count : a'.nr_zones ≡ a.nr_zones
  pub same_reserve : a'.reserve_zone ≡ a.reserve_zone
  pub same_block : a'.sectors_per_block ≡ a.sectors_per_block
  pub same_mode : a'.mode ≡ a.mode

abbrev pub Full : Allocator → ℕ → Type 0
Full a i = (z : ZnsZone) → get_elem? a.zones i ≡ some z → takes a i z ≡ false

-- The zones that `n` rounds from `k` on visit, going round at `nr`.
abbrev pub Visited : ℕ → ℕ → ℕ → ℕ → Type 0
Visited nr k n i = (k ≤ i) × (i < k + n) ⊎ (i + nr < k + n)

abbrev next_zone : Allocator → Allocator
next_zone a = record a { active_zone = add32 a.active_zone 1 % a.nr_zones }

next_cases :
    (k nr : ℕ)
    → k < nr
    → nr < u32_mod
    → ((k + 1 < nr) × (add32 k 1 % nr ≡ k + 1)) ⊎ ((k + 1 ≡ nr) × (add32 k 1 % nr ≡ 0))
next_cases k nr h s = grind (arith, mod-eq_of_lt)

next_visits :
    (nr k n i : ℕ)
    → k < nr
    → nr < u32_mod
    → i < nr
    → i ≢ k
    → Visited nr k (suc n) i
    → Visited nr (add32 k 1 % nr) n i
next_visits nr k n i h s hi ne v = elim (next_cases k nr h s) [
  | inl (lt, e) ↦ rw e (omega arith)
  | inr (same, e) ↦ rw e (omega arith)
]

pub data Scan (n : ℕ) (a : Allocator) (cell : ℕ) : Ret × ℕ × Allocator → Type 0 where
  taken : (p : ℕ) (a' : Allocator) → Appended a p a' → Scan n a cell (ok, p, a')
  exhausted :
      (a' : Allocator)
      → IsValid a'
      → a' ≡ record a { active_zone = a'.active_zone }
      → ((i : ℕ) → i < a.nr_zones → Visited a.nr_zones a.active_zone n i → Full a i)
      → Scan n a cell (err Errno.enospc, cell, a')

next-IsValid : (a : Allocator) → IsValid a → IsValid (next_zone a)
next-IsValid a v = ground arith

next-lt : (a : Allocator) → IsValid a → (next_zone a).active_zone < a.nr_zones
next-lt a v = mod-lt (add32 a.active_zone 1) v.some_zone

-- `Appended` does not look at the cursor of the state it starts from.
pub Appended-active :
    (a : Allocator) (k : ℕ) {p : ℕ} {a' : Allocator}
    → Appended (record a { active_zone = k }) p a'
    → Appended a p a'
Appended-active a k step = record {
  zone = step.zone;
  descriptor = step.descriptor;
  found = step.found;
  had_room = step.had_room;
  at_pointer = step.at_pointer;
  moved = step.moved;
  same_count = step.same_count;
  same_reserve = step.same_reserve;
  same_block = step.same_block;
  same_mode = step.same_mode;
}

skip :
    (n : ℕ) (a : Allocator) (cell : ℕ) {r : Ret × ℕ × Allocator}
    → IsValid a
    → a.active_zone < a.nr_zones
    → Full a a.active_zone
    → Scan n (next_zone a) cell r
    → Scan (suc n) a cell r
skip n a cell v lt full (taken p a' step) =
    taken p a' (Appended-active a (next_zone a).active_zone step)
skip n a cell v lt full (exhausted a' w same none_left) = exhausted a' w same (λ i hi seen.
    elim (ℕ_discrete i a.active_zone) [
      | yes e ↦ rw e full
      | no ne ↦ none_left i hi (next_visits a.nr_zones a.active_zone n i lt v.small hi ne seen)
    ])

Full-here :
    (a : Allocator) (z : ZnsZone)
    → get_elem? a.zones a.active_zone ≡ some z
    → takes a a.active_zone z ≡ false
    → Full a a.active_zone
Full-here a z e f z' e' = rw (some-injective _ _ (sym e' ∙ e)) f

alloc_loop_done : (a : Allocator) (cell : ℕ) → alloc_loop zero a cell ≡ (err Errno.enospc, cell, a)
unfolding alloc_loop
alloc_loop_done a cell = refl

pub alloc_loop_take :
    (n : ℕ) (a : Allocator) (cell : ℕ) (z : ZnsZone)
    → get_elem? a.zones a.active_zone ≡ some z
    → takes a a.active_zone z ≡ true
    → alloc_loop (suc n) a cell ≡ (ok, z.write_pointer, take_block a z)
unfolding alloc_loop
alloc_loop_take n a cell z e room = rw (e, alloc_loop) (rw room)

alloc_loop_skip :
    (n : ℕ) (a : Allocator) (cell : ℕ) (z : ZnsZone)
    → get_elem? a.zones a.active_zone ≡ some z
    → takes a a.active_zone z ≡ false
    → alloc_loop (suc n) a cell ≡ alloc_loop n (next_zone a) cell
unfolding alloc_loop
alloc_loop_skip n a cell z e no_room = rw (e, alloc_loop) (rw no_room)

pub alloc_loop-Scan :
    (n : ℕ) (a : Allocator) (cell : ℕ)
    → IsValid a
    → a.active_zone < a.nr_zones
    → Scan n a cell (alloc_loop n a cell)
alloc_loop-Scan zero a cell v lt =
    rw alloc_loop_done (exhausted a v refl (λ i hi seen. absurd (omega arith)))
alloc_loop-Scan (suc n) a cell v lt = elim (Option-cases (get_elem? a.zones a.active_zone)) [
  | inl gone ↦
      let (z, e) = get_elem?-some a.zones a.active_zone (omega (arith, v.count)) in
      absurd (ground arith)
  | inr (z, e) ↦ elim (Bool-cases (takes a a.active_zone z)) [
    | inl room ↦ rw (alloc_loop_take n a cell z e room) (
        taken z.write_pointer (take_block a z) (record {
          zone = a.active_zone;
          descriptor = z;
          found = e;
          had_room = room;
          at_pointer = refl;
          moved = refl;
          same_count = refl;
          same_reserve = refl;
          same_block = refl;
          same_mode = refl;
        }))
    | inr no_room ↦ rw (alloc_loop_skip n a cell z e no_room) (
        skip n a cell v lt (Full-here a z e no_room)
          (alloc_loop-Scan n (next_zone a) cell (next-IsValid a v) (next-lt a v)))
  ]
]
