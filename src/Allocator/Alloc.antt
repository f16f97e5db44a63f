-- ===== src/Allocator/Alloc.antt =====
-- `zns_allocator_alloc` in zoned mode: what it hands out, and when it has nothing to hand out.
use mathlib.Core.Path.{subst₂}
use dm_zns_base.Prelude.{
  ℕ, zero, suc, ◌+◌, ◌-◌, ◌<◌, ◌≡◌, refl, sym, true, false, not, ◌&&◌, some, List, [], ◌∷◌, leb,
  ◌==◌, if◌then◌else◌, get_elem?, lt-length_of_get_elem?, arith, ap, ◌∙◌,
}
use dm_zns_base.Kernel.{Errno, Ret, ok, err}
use dm_zns_base.Zone.{ZnsZone, can_append}
use dm_zns_base.Allocator.{
  Allocator, alloc_loop, alloc_zoned, alloc, take_block, space_from, has_space, to_ptrs,
}
use dm_zns_base.Allocator.Valid.{IsValid}
use dm_zns_base.Allocator.Scan.{
  Appended, Appended-active, Visited, Scan, taken, exhausted, alloc_loop-Scan, takes,
  alloc_loop_take,
}

space_from-true :
    (reserve block : ℕ) (zs : List ZnsZone) (i j k : ℕ) (z : ZnsZone)
    → i + j ≡ k
    → get_elem? zs j ≡ some z
    → (not (k == reserve) && can_append z block) ≡ true
    → space_from reserve block zs i ≡ true
unfolding space_from
space_from-true reserve block [] i j k z s e h = absurd (ground arith)
space_from-true reserve block (y ∷ zs) i zero k z s e h = ground arith
space_from-true reserve block (y ∷ zs) i (suc j) k z s e h =
    ground (arith, space_from-true reserve block zs (i + 1) j k z)

space_from-false :
    (reserve block : ℕ) (zs : List ZnsZone) (i : ℕ)
    → ((j k : ℕ) (z : ZnsZone)
        → i + j ≡ k
        → get_elem? zs j ≡ some z
        → (not (k == reserve) && can_append z block) ≡ false)
    → space_from reserve block zs i ≡ false
unfolding space_from
space_from-false reserve block [] i h = refl
space_from-false reserve block (y ∷ zs) i h = ground (
  arith,
  h 0 i y (omega arith) refl,
  space_from-false reserve block zs (i + 1) (λ j k z s e. h (suc j) k z (omega arith) e),
)

-- The start of `zns_allocator_alloc_zoned`.
abbrev pub started : Allocator → Allocator
started a = record a { active_zone = if leb a.nr_zones a.active_zone then 0 else a.active_zone }

started-IsValid : (a : Allocator) → IsValid a → IsValid (started a)
started-IsValid a v = ground arith

everywhere :
    (a : Allocator)
    → IsValid a
    → (i : ℕ) → i < a.nr_zones
    → Visited a.nr_zones (started a).active_zone a.nr_zones i
everywhere a v i h = ground arith

to_ptrs-injective :
    (r : Ret × ℕ × Allocator) (p : ℕ) (a' : Allocator)
    → to_ptrs r ≡ (ok, some p, some a')
    → r ≡ (ok, p, a')
to_ptrs-injective (ret, cell, a) p a' e = ground arith

started-lt : (a : Allocator) → IsValid a → (started a).active_zone < a.nr_zones
started-lt a v = ground arith

pub data Answer (a : Allocator) (cell : ℕ) : Ret × ℕ × Allocator → Type 0 where
  given :
      (p : ℕ) (a' : Allocator) → Appended a p a' → has_space a ≡ true → Answer a cell (ok, p, a')
  refused :
      (a' : Allocator)
      → IsValid a'
      → a' ≡ record a { active_zone = a'.active_zone }
      → has_space a ≡ false
      → Answer a cell (err Errno.enospc, cell, a')

answer :
    (a : Allocator) (cell : ℕ) {r : Ret × ℕ × Allocator}
    → IsValid a
    → Scan a.nr_zones (started a) cell r
    → Answer a cell r
unfolding has_space
answer a cell v (taken p a' step) = given p a' (Appended-active a (started a).active_zone step) (
    space_from-true a.reserve_zone a.sectors_per_block a.zones 0 step.zone step.zone step.descriptor
      (omega arith) step.found step.had_room)
answer a cell v (exhausted a' w same all_full) = refused a' w same (
    space_from-false a.reserve_zone a.sectors_per_block a.zones 0 (λ j k z s e.
      let here : j ≡ k = omega arith in
      let inside : j < a.nr_zones = omega (arith, v.count, lt-length_of_get_elem? a.zones j e) in
      rw (← here) (all_full j inside (everywhere a v j inside) z e)))

pub alloc_zoned-Answer : (a : Allocator) (cell : ℕ) → IsValid a → Answer a cell (alloc_zoned a cell)
unfolding alloc_zoned
alloc_zoned-Answer a cell v =
    answer a cell v
      (alloc_loop-Scan a.nr_zones (started a) cell (started-IsValid a v) (started-lt a v))

-- The verdict of an answer is the test of free space.
Answer-ret :
    (a : Allocator) (cell : ℕ) {r : Ret × ℕ × Allocator}
    → Answer a cell r
    → r.0 ≡ (if has_space a then ok else err Errno.enospc)
Answer-ret a cell (given p a' step h) = rw h
Answer-ret a cell (refused a' w same h) = rw h

Answer-Appended :
    (a : Allocator) (cell p : ℕ) (a' : Allocator) {r : Ret × ℕ × Allocator}
    → Answer a cell r
    → r ≡ (ok, p, a')
    → Appended a p a'
Answer-Appended a cell p a' (given q b step h) e =
    subst₂ (λ x y. Appended a x y) (ap (λ t. t.1) e) (ap (λ t. t.2) e) step
Answer-Appended a cell p a' (refused b w same h) e = absurd (ground arith)

pub alloc_of_valid :
    (a : Allocator) (cell : ℕ)
    → IsValid a
    → alloc (some a) (some cell) ≡ to_ptrs (alloc_zoned a cell)
unfolding alloc
alloc_of_valid a cell v = rw v.in_zones

-- In a valid zoned allocator `zns_allocator_alloc` never fails but for lack of space, never reads
-- outside the zone array, and finds a block exactly when `zns_allocator_has_space` says that there
-- is one, whatever zone its cursor points to.
pub alloc-has_space :
    (a : Allocator) (cell : ℕ)
    → IsValid a
    → (alloc (some a) (some cell)).0 ≡ (if has_space a then ok else err Errno.enospc)
alloc-has_space a cell v =
    rw (alloc_of_valid a cell v) (Answer-ret a cell (alloc_zoned-Answer a cell v))

-- A sector that `zns_allocator_alloc` hands out is the write pointer of a zone that is not the
-- reserve and had room for a whole block; that pointer moves on by one block, and every other zone,
-- the zone count, the reserve, the block size and the mode stay as they were.
pub alloc-Appended :
    (a : Allocator) (cell p : ℕ) (a' : Allocator)
    → IsValid a
    → alloc (some a) (some cell) ≡ (ok, some p, some a')
    → Appended a p a'
alloc-Appended a cell p a' v e =
    Answer-Appended a cell p a' (alloc_zoned-Answer a cell v)
      (to_ptrs-injective _ p a' (sym (alloc_of_valid a cell v) ∙ e))

-- Where the cursor's zone has room, the block comes from that zone.
pub alloc_at_cursor :
    (a : Allocator) (cell : ℕ) (z : ZnsZone)
    → IsValid a
    → a.active_zone < a.nr_zones
    → get_elem? a.zones a.active_zone ≡ some z
    → takes a a.active_zone z ≡ true
    → (alloc (some a) (some cell)).0 ≡ ok × (alloc (some a) (some cell)).1 ≡ some z.write_pointer
unfolding alloc_zoned
alloc_at_cursor a cell z v lt e room =
    let stays : (started a).active_zone ≡ a.active_zone = ground arith in
    let rounds : a.nr_zones ≡ suc (a.nr_zones - 1) = omega (arith, v.some_zone) in
    let hit : alloc_loop (suc (a.nr_zones - 1)) (started a) cell
        ≡ (ok, z.write_pointer, take_block (started a) z) =
      alloc_loop_take (a.nr_zones - 1) (started a) cell z (rw stays e) (rw stays room) in
    let whole : alloc (some a) (some cell)
        ≡ to_ptrs (ok, z.write_pointer, take_block (started a) z) =
      alloc_of_valid a cell v
      ∙ ap (λ n. to_ptrs (alloc_loop n (started a) cell)) rounds
      ∙ ap to_ptrs hit in
    (ap (λ t. t.0) whole, ap (λ t. t.1) whole)
