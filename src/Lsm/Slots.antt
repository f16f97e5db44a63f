-- ===== src/Lsm/Slots.antt =====
-- src/engines/zns-engine-lsm.c: the position of a physical sector in the reverse map.
use native.Mathlib.Nat.{div-add-mod}
use mathlib.Core.Path.{subst}
use dm_zns_base.Prelude.{
  ℕ, zero, suc, ◌+◌, ◌-◌, ◌*◌, ◌/◌, ◌%◌, ◌≤◌, ◌<◌, ◌≡◌, refl, sym, ◌∙◌, ap, inl, inr, false, List,
  [], ◌∷◌, some, ◌||◌, ltb, leb, get_elem?, All, arith, Bool-cases,
}
use dm_zns_base.Kernel.{ok, Ret}
use dm_zns_base.Zone.{ZnsZone, zone_end, is_full}
use dm_zns_base.Allocator.{Allocator}
use dm_zns_base.Allocator.Valid.{IsSound, IsValid}
use dm_zns_base.Lsm.{bad_slot, slot_loop, physical_to_gc_slot}

-- The sector starts block number `slot` of the zone, which lies inside the zone and is written.
pub record IsSlot (z : ZnsZone) (block p slot : ℕ) : Type 0 where
  pub starts : p ≡ z.start_sector + slot * block
  pub inside : p + block ≤ z.start_sector + z.capacity
  pub written : is_full z.condition ≡ false → p < z.write_pointer

-- The number that the loop starts at, and the zone it stops at.
abbrev Located : List ZnsZone → ℕ → ℕ → ℕ → Ret × ℕ × ℕ → Type 0
Located zs i block p r =
    r.0 ≡ ok
    → (j : ℕ) × (z : ZnsZone) × (r.1 ≡ i + j) × (get_elem? zs j ≡ some z) × IsSlot z block p r.2

here-IsSlot :
    (z : ZnsZone) (block p : ℕ)
    → IsSound z
    → (ltb p z.start_sector || leb (zone_end z) p) ≡ false
    → bad_slot z block p ≡ false
    → IsSlot z block p ((p - z.start_sector) / block)
here-IsSlot z block p sound within good = record {
  starts = grind (arith, div-add-mod (p - z.start_sector) block, from, even);
  inside = ground (arith, sound.fits, within, good);
  written = λ part. ground (arith, part, good);
}
  where
    from : z.start_sector ≤ p
    from = ground (arith, within)

    even : (p - z.start_sector) % block ≡ 0
    even = ground (arith, good)

slot_loop-Located :
    (n : ℕ) (zs : List ZnsZone) (i block p zone_id slot : ℕ)
    → All IsSound zs
    → Located zs i block p (slot_loop n zs i block p zone_id slot)
unfolding slot_loop
slot_loop-Located zero zs i block p zone_id slot sound = λ h. absurd (ground arith)
slot_loop-Located (suc n) [] i block p zone_id slot sound = λ h. absurd (ground arith)
slot_loop-Located (suc n) (z ∷ zs) i block p zone_id slot sound =
    elim (Bool-cases (ltb p z.start_sector || leb (zone_end z) p)) [
      | inl past ↦ rw past (later (slot_loop-Located n zs (i + 1) block p zone_id slot sound.1))
      | inr within ↦ elim (Bool-cases (bad_slot z block p)) [
        | inl bad ↦ rw (within, bad) (λ h. absurd (ground arith))
        | inr good ↦
            rw (within, good)
              (λ h. (0, z, omega arith, refl, here-IsSlot z block p sound.0 within good))
      ]
    ]
  where
    later :
        Located zs (i + 1) block p (slot_loop n zs (i + 1) block p zone_id slot)
        → Located (z ∷ zs) i block p (slot_loop n zs (i + 1) block p zone_id slot)
    later rest h = let (j, y, at, e, slot') = rest h in (suc j, y, omega (arith, at), e, slot')

-- On a valid allocator, a sector that is converted to a zone and a slot is the first sector of that
-- block of that zone, the block lies inside the zone, and it is written, unless the zone is full.
pub physical_to_gc_slot-IsSlot :
    (a : Allocator) (block p zone_id slot : ℕ) {i s : ℕ}
    → IsValid a
    → physical_to_gc_slot a block p zone_id slot ≡ (ok, i, s)
    → (z : ZnsZone) × (get_elem? a.zones i ≡ some z) × IsSlot z block p s
unfolding physical_to_gc_slot
physical_to_gc_slot-IsSlot a block p zone_id slot {i} {s} v e =
    let (j, z, at, inside, slot') =
      slot_loop-Located a.nr_zones a.zones 0 block p zone_id slot v.sound (ap (λ r. r.0) e) in
    let zone : j ≡ i = omega (arith, sym at ∙ ap (λ r. r.1) e) in
    (
      z,
      subst (λ k. get_elem? a.zones k ≡ some z) zone inside,
      subst (IsSlot z block p) (ap (λ r. r.2) e) slot',
    )
