-- ===== src/Allocator/Reset.antt =====
-- src/zns-allocator.c: the change of the reserve after its new zone was reset, on every branch.
use dm_zns_base.Prelude.{
  ℕ, ◌<◌, ◌≡◌, ◌≢◌, refl, ◌∙◌, true, some, All-get_elem?, leb, ◌==◌, if◌then◌else◌, get_elem?,
  length, get_elem?-some, get_elem?-set, arith, ap, inl, inr, Bool-cases, ◌||◌, ◌≤◌, ◌⊎◌, ne→==,
  lt-length_of_get_elem?, get_elem?-set_self,
}
use dm_zns_base.Kernel.{Errno, Ret, ok, err, Ptr}
use dm_zns_base.Zone.{ZnsZone, can_append}
use dm_zns_base.Allocator.{Allocator, alloc, alloc_gc, set_reserve_after_reset}
use dm_zns_base.Allocator.Valid.{IsSound, IsValid}
use dm_zns_base.Allocator.Alloc.{alloc_at_cursor}
use dm_zns_base.Allocator.Reserve.{
  set-IsValid, alloc_gc_lem, emptied, after_reset, emptied-IsSound, set_reserve_after_reset-ok,
}

-- What `zns_allocator_set_reserve_after_reset` leaves: it refuses a zone out of range and the reserve
-- itself, and changes nothing then; else the zone is the empty reserve, and no other descriptor has
-- changed. Every other zone with room, the former reserve too, takes ordinary writes when the cursor
-- is at it, and the collection writes from the start of the new reserve.
pub data Reset (a : Allocator) (victim : ℕ) : Ret × Ptr Allocator → Type 0 where
  declined :
      (a.nr_zones ≤ victim) ⊎ (victim ≡ a.reserve_zone) → Reset a victim (err Errno.einval, some a)
  reset_done :
      (z : ZnsZone) (a' : Allocator)
      → victim < a.nr_zones
      → victim ≢ a.reserve_zone
      → get_elem? a.zones victim ≡ some z
      → a'.reserve_zone ≡ victim
      → ((i : ℕ)
          → get_elem? a'.zones i ≡ (if i == victim then some (emptied z) else get_elem? a.zones i))
      → IsValid a'
      → ((i cell : ℕ) (x : ZnsZone)
          → i ≢ victim
          → get_elem? a.zones i ≡ some x
          → can_append x a.sectors_per_block ≡ true
          → ((alloc (some (record a' { active_zone = i })) (some cell)).0 ≡ ok)
            × ((alloc (some (record a' { active_zone = i })) (some cell)).1 ≡ some x.write_pointer))
      → ((cell : ℕ)
          → can_append (emptied z) a.sectors_per_block ≡ true
          → ((alloc_gc (some a') (some cell)).0 ≡ ok)
            × ((alloc_gc (some a') (some cell)).1 ≡ some z.start_sector))
      → Reset a victim (ok, some a')

module _ (a : Allocator) (victim : ℕ) (z : ZnsZone) (v : IsValid a) (lt : victim < a.nr_zones)
    (at : get_elem? a.zones victim ≡ some z) where
  inside : victim < length a.zones
  inside = omega (arith, lt, v.count)

  after_reset-IsValid : (a' : Allocator) → a' ≡ after_reset a victim z → IsValid a'
  after_reset-IsValid a' same = rw same (
      set-IsValid a (after_reset a victim z) victim (emptied z) v
        (emptied-IsSound z (All-get_elem? IsSound a.zones victim v.sound at)) refl refl refl refl)

  -- A zone other than the victim is a zone to write to.
  writes_again :
      (i cell : ℕ) (x : ZnsZone)
      → i ≢ victim
      → get_elem? a.zones i ≡ some x
      → can_append x a.sectors_per_block ≡ true
      → ((alloc (some (record (after_reset a victim z) { active_zone = i })) (some cell)).0 ≡ ok)
        × ((alloc (some (record (after_reset a victim z) { active_zone = i })) (some cell)).1
            ≡ some x.write_pointer)
  writes_again i cell x ne there room =
      let t = record (after_reset a victim z) { active_zone = i } in
      let valid : IsValid t =
        set-IsValid a t victim (emptied z) v
          (emptied-IsSound z (All-get_elem? IsSound a.zones victim v.sound at)) refl refl refl
          refl in
      let kept : get_elem? t.zones i ≡ some x =
        get_elem?-set a.zones victim i (emptied z) inside
        ∙ ap (λ b. if b then some (emptied z) else get_elem? a.zones i) (ne→== i victim ne)
        ∙ there in
      alloc_at_cursor t cell x valid
        (omega (arith, lt-length_of_get_elem? a.zones i there, v.count)) kept
        (rw (ne→== i victim ne) room)

  collects :
      (cell : ℕ)
      → can_append (emptied z) a.sectors_per_block ≡ true
      → ((alloc_gc (some (after_reset a victim z)) (some cell)).0 ≡ ok)
        × ((alloc_gc (some (after_reset a victim z)) (some cell)).1 ≡ some z.start_sector)
  collects cell room =
      let e =
        alloc_gc_lem (after_reset a victim z) cell (emptied z) lt
          (get_elem?-set_self a.zones victim (emptied z) inside) in
      rw (e, room) (refl, refl)

set_reserve_after_reset-einval :
    (a : Allocator) (victim : ℕ)
    → (leb a.nr_zones victim || victim == a.reserve_zone) ≡ true
    → set_reserve_after_reset (some a) victim ≡ (err Errno.einval, some a)
unfolding set_reserve_after_reset
set_reserve_after_reset-einval a victim h = rw h refl

-- On every branch, the change of the reserve after a reset does what `Reset` says. (Condition: the
-- allocator is valid.)
pub set_reserve_after_reset-Reset :
    (a : Allocator) (victim : ℕ)
    → IsValid a
    → Reset a victim (set_reserve_after_reset (some a) victim)
set_reserve_after_reset-Reset a victim v =
    elim (Bool-cases (leb a.nr_zones victim || victim == a.reserve_zone)) [
      | inl out ↦ rw (set_reserve_after_reset-einval a victim out) (Reset.declined (ground arith))
      | inr kept ↦
          let (z, at) = get_elem?-some a.zones victim (ground (arith, v.count)) in
          let lt : victim < a.nr_zones = ground arith in
          let ne : victim ≢ a.reserve_zone = λ e. absurd (ground arith) in
          rw (set_reserve_after_reset-ok a victim z lt ne at) (
            Reset.reset_done z (after_reset a victim z) lt ne at refl
              (λ i. get_elem?-set a.zones victim i (emptied z) (inside a victim z v lt at))
              (after_reset-IsValid a victim z v lt at _ refl) (writes_again a victim z v lt at)
              (collects a victim z v lt at))
    ]
