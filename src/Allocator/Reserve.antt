-- ===== src/Allocator/Reserve.antt =====
-- The reserve zone, and that every operation of the allocator keeps it valid.
use mathlib.Core.Path.{subst}
use mathlib.Core.Option.{some-injective}
use dm_zns_base.Prelude.{
  ℕ, ◌<◌, ◌≡◌, ◌≢◌, refl, sym, ◌∙◌, Bool, true, false, not, ◌&&◌, Option, some, none, All-set,
  All-get_elem?, leb, ◌==◌, if◌then◌else◌, get_elem?, set, length, length-set, get_elem?-some,
  get_elem?-set, arith, ap, inl, inr, Bool-cases,
}
use dm_zns_base.Kernel.{Errno, Ret, ok, err, Ptr}
use dm_zns_base.Zone.{ZnsZone, Condition, can_append}
use dm_zns_base.Allocator.{
  Allocator, alloc, alloc_gc, set_reserve, set_reserve_after_reset, is_writable,
}
use dm_zns_base.Allocator.Valid.{IsSound, IsValid, appended-IsSound}
use dm_zns_base.Allocator.Alloc.{Answer, given, refused, alloc_zoned-Answer, alloc_of_valid}
use dm_zns_base.Allocator.Scan.{Appended, appended}

&&-right : (x y : Bool) → (x && y) ≡ true → y ≡ true
&&-right x y h = ground arith

-- Writing a sound descriptor into the array keeps the allocator valid.
pub set-IsValid :
    (a a' : Allocator) (i : ℕ) (z : ZnsZone)
    → IsValid a
    → IsSound z
    → a'.zones ≡ set a.zones i z
    → a'.nr_zones ≡ a.nr_zones
    → a'.sectors_per_block ≡ a.sectors_per_block
    → a'.mode ≡ a.mode
    → IsValid a'
set-IsValid a a' i z v s moved nr block mode = record {
  count = rw (moved, nr) (length-set a.zones i z ∙ v.count);
  some_zone = omega (arith, v.some_zone);
  small = omega (arith, v.small);
  block_pos = omega (arith, v.block_pos);
  in_zones = mode ∙ v.in_zones;
  sound = rw moved (All-set IsSound a.zones i z v.sound s);
}

pub Appended-IsValid : (a a' : Allocator) (p : ℕ) → IsValid a → Appended a p a' → IsValid a'
Appended-IsValid a a' p v step =
    set-IsValid a a' step.zone (appended a step.descriptor) v
      (appended-IsSound step.descriptor a.sectors_per_block
        (All-get_elem? IsSound a.zones step.zone v.sound step.found)
        (&&-right (not (step.zone == a.reserve_zone)) _ step.had_room))
      step.moved step.same_count step.same_block step.same_mode

abbrev pub moved_gc : Allocator → ZnsZone → Allocator
moved_gc a z = record a { zones = set a.zones a.reserve_zone (appended a z) }

abbrev pub reservable : Allocator → Option ZnsZone → Bool
reservable a none = false
reservable a (some z) =
    is_writable z && (leb a.sectors_per_block z.capacity && z.write_pointer == z.start_sector)

Answer-IsValid :
    (a a' : Allocator) (cell : ℕ) {r : Ret × ℕ × Allocator}
    → IsValid a
    → Answer a cell r
    → some r.2 ≡ some a'
    → IsValid a'
Answer-IsValid a a' cell v (given p b step h) e =
    subst IsValid (some-injective _ _ e) (Appended-IsValid a b p v step)
Answer-IsValid a a' cell v (refused b w same h) e = subst IsValid (some-injective _ _ e) w

-- A block for ordinary data keeps the allocator valid, and so does its refusal.
pub alloc-IsValid :
    (a a' : Allocator) (cell : ℕ) {r : Ret} {c : Ptr ℕ}
    → IsValid a
    → alloc (some a) (some cell) ≡ (r, c, some a')
    → IsValid a'
alloc-IsValid a a' cell v h =
    Answer-IsValid a a' cell v (alloc_zoned-Answer a cell v)
      (ap (λ t. t.2) (sym (alloc_of_valid a cell v) ∙ h))

-- A collection takes the next block of the reserve zone, in order, and moves nothing else; it
-- fails exactly when that zone has no room, and then changes nothing.
pub alloc_gc_lem :
    (a : Allocator) (cell : ℕ) (z : ZnsZone)
    → a.reserve_zone < a.nr_zones
    → get_elem? a.zones a.reserve_zone ≡ some z
    → alloc_gc (some a) (some cell) ≡ (
        if can_append z a.sectors_per_block
        then (ok, some z.write_pointer, some (moved_gc a z))
        else (err Errno.enospc, some cell, some a))
unfolding alloc_gc
alloc_gc_lem a cell z h e = ground arith

-- A block for a collection keeps the allocator valid, and so does its refusal.
pub alloc_gc-IsValid :
    (a a' : Allocator) (cell : ℕ) {r : Ret} {c : Ptr ℕ}
    → IsValid a
    → a.reserve_zone < a.nr_zones
    → alloc_gc (some a) (some cell) ≡ (r, c, some a')
    → IsValid a'
alloc_gc-IsValid a a' cell v lt h =
    let (z, e) = get_elem?-some a.zones a.reserve_zone (omega (arith, v.count)) in
    elim (Bool-cases (can_append z a.sectors_per_block)) [
      | inl room ↦
          let moved : IsValid (moved_gc a z) =
            set-IsValid a (moved_gc a z) a.reserve_zone (appended a z) v
              (appended-IsSound z a.sectors_per_block
                (All-get_elem? IsSound a.zones a.reserve_zone v.sound e) room)
              refl refl refl refl in
          let same : a' ≡ moved_gc a z = ground (arith, alloc_gc_lem a cell z) in rw same moved
      | inr no_room ↦ let same : a' ≡ a = ground (arith, alloc_gc_lem a cell z) in rw same v
    ]

-- In a valid allocator `zns_allocator_set_reserve` accepts exactly the zones of the array that take
-- writes, hold a whole block and are empty, and its only change is the reserve; a zone number out
-- of range is -EINVAL and any other refusal -ENOSPC.
pub set_reserve_lem :
    (a : Allocator) (zone : ℕ)
    → IsValid a
    → set_reserve (some a) zone ≡ (
        if leb a.nr_zones zone
        then (err Errno.einval, some a)
        else if reservable a (get_elem? a.zones zone)
        then (ok, some (record a { reserve_zone = zone }))
        else (err Errno.enospc, some a))
unfolding set_reserve
set_reserve_lem a zone v = elim (Bool-cases (leb a.nr_zones zone)) [
  | inl out ↦ ground arith
  | inr inside ↦
      let (z, e) = get_elem?-some a.zones zone (ground (arith, v.count)) in
      ground (arith, v.in_zones)
]

-- A descriptor after the device reset its zone.
abbrev pub emptied : ZnsZone → ZnsZone
emptied z = record z { write_pointer = z.start_sector; condition = Condition.empty }

abbrev pub after_reset : Allocator → ℕ → ZnsZone → Allocator
after_reset a victim z = record a { zones = set a.zones victim (emptied z); reserve_zone = victim }

pub emptied-IsSound : (z : ZnsZone) → IsSound z → IsSound (emptied z)
emptied-IsSound z s = omega (arith, s.fits)

pub set_reserve_after_reset-ok :
    (a : Allocator) (victim : ℕ) (z : ZnsZone)
    → victim < a.nr_zones
    → victim ≢ a.reserve_zone
    → get_elem? a.zones victim ≡ some z
    → set_reserve_after_reset (some a) victim ≡ (ok, some (after_reset a victim z))
unfolding set_reserve_after_reset
set_reserve_after_reset-ok a victim z lt ne e = ground arith

-- After the reset of a zone other than the reserve, that zone is the new, empty reserve; the former
-- reserve takes ordinary writes again, and no other descriptor changes.
pub set_reserve_after_reset_lem :
    (a : Allocator) (victim : ℕ)
    → IsValid a
    → victim < a.nr_zones
    → victim ≢ a.reserve_zone
    → (z : ZnsZone) (a' : Allocator) → get_elem? a.zones victim ≡ some z
    → set_reserve_after_reset (some a) victim ≡ (ok, some a')
    → (a'.reserve_zone ≡ victim)
      × ((i : ℕ)
          → get_elem? a'.zones i ≡ (if i == victim then some (emptied z) else get_elem? a.zones i))
      × IsValid a'
set_reserve_after_reset_lem a victim v lt ne z a' e h =
    let same : a' ≡ after_reset a victim z =
      ground (arith, set_reserve_after_reset-ok a victim z) in
    let inside : victim < length a.zones = omega (arith, v.count) in
    rw same (
      refl,
      (λ i. get_elem?-set a.zones victim i (emptied z) inside),
      set-IsValid a (after_reset a victim z) victim (emptied z) v
          (emptied-IsSound z (All-get_elem? IsSound a.zones victim v.sound e)) refl refl refl refl,
    )
