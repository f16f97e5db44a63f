-- ===== src/Allocator.antt =====
-- src/zns-allocator.h and src/zns-allocator.c: the physical append allocator, in its linear and its
-- zoned mode, with the reserve zone of garbage collection.
--
-- The spin lock leaves no trace: an operation is one step on the state. `physical_sector` is the
-- cell that the pointer argument names, passed in and handed back. A read of `zones[i]` out of range
-- is `fault`; Allocator/Valid.antt rules it out.
pub mod Valid
pub mod Scan
pub mod Alloc
pub mod Reserve
pub mod Reset
pub mod Resync
mod Tests
use dm_zns_base.Prelude.{
  ℕ, zero, suc, ◌+◌, ◌-◌, ◌%◌, Bool, true, false, not, ◌&&◌, ◌||◌, Option, none, some, List, [],
  ◌∷◌, ltb, leb, ◌==◌, if◌then◌else◌, get_elem?, set, add64, sub64, add32, u32_mod, u64_mod,
}
use dm_zns_base.Kernel.{Errno, Ret, ok, err, fault, Ptr}
use dm_zns_base.Zone.{Condition, ZnsZone, is_full, is_readonly, is_offline, zone_end, can_append}

pub data AllocatorMode : Type 0 where
  linear zoned : AllocatorMode

pub record Allocator : Type 0 where
  pub next_sector : ℕ
  pub physical_sectors : ℕ
  pub zones : List ZnsZone
  pub nr_zones : ℕ
  pub active_zone : ℕ
  pub reserve_zone : ℕ
  pub sectors_per_block : ℕ
  pub mode : AllocatorMode

-- `UINT_MAX`, the value of `reserve_zone` that names no zone.
abbrev pub uint_max : ℕ
uint_max = u32_mod - 1

-- The state after `zns_allocator_reset`.
abbrev pub reset : Allocator
reset = record {
  next_sector = 0;
  physical_sectors = 0;
  zones = [];
  nr_zones = 0;
  active_zone = 0;
  reserve_zone = uint_max;
  sectors_per_block = 0;
  mode = AllocatorMode.linear;
}

unfoldable pub init : Ptr Allocator → ℕ → ℕ → Ret × Ptr Allocator
init none physical_sectors sectors_per_block = (err Errno.einval, none)
init (some a) physical_sectors sectors_per_block =
    if sectors_per_block == 0 || not (physical_sectors % sectors_per_block == 0)
    then (err Errno.einval, some a)
    else (
      ok,
      some (record reset {
        physical_sectors = physical_sectors;
        sectors_per_block = sectors_per_block;
      }),
    )

abbrev pub is_writable : ZnsZone → Bool
is_writable z =
    not (is_full z.condition) && (not (is_readonly z.condition) && not (is_offline z.condition))

pub metadata_valid : ZnsZone → Bool
metadata_valid z =
    if z.length == 0 || ltb z.length z.capacity
    then false
    else if ltb (u64_mod - 1 - z.start_sector) z.capacity
    then false
    else not
        (is_writable z && (ltb z.write_pointer z.start_sector || ltb (zone_end z) z.write_pointer))

-- The validation loop of `zns_allocator_init_zoned`, over the first `n` descriptors of the array.
pub check_zones : ℕ → List ZnsZone → Ret
check_zones zero zs = ok
check_zones (suc n) [] = fault
check_zones (suc n) (z ∷ zs) = if metadata_valid z then check_zones n zs else err Errno.einval

abbrev pub take : ℕ → List ZnsZone → List ZnsZone
take zero zs = []
take (suc n) [] = []
take (suc n) (z ∷ zs) = z ∷ take n zs

-- `kmalloc_array` and `memcpy` of the descriptors: one memory request.
abbrev pub adopt_zones : Bool → Allocator → List ZnsZone → ℕ → ℕ → Ret × Ptr Allocator
adopt_zones false a zones nr_zones sectors_per_block = (err Errno.enomem, some a)
adopt_zones true a zones nr_zones sectors_per_block = (
  ok,
  some (record reset {
    zones = take nr_zones zones;
    nr_zones = nr_zones;
    sectors_per_block = sectors_per_block;
    mode = AllocatorMode.zoned;
  }),
)

pub init_zoned : Bool → Ptr Allocator → Ptr (List ZnsZone) → ℕ → ℕ → Ret × Ptr Allocator
init_zoned granted none zones nr_zones sectors_per_block = (err Errno.einval, none)
init_zoned granted (some a) none nr_zones sectors_per_block = (err Errno.einval, some a)
init_zoned granted (some a) (some zones) nr_zones sectors_per_block =
    if nr_zones == 0 || sectors_per_block == 0
    then (err Errno.einval, some a)
    else elim (check_zones nr_zones zones) [
      | ok ↦ adopt_zones granted a zones nr_zones sectors_per_block
      | err e ↦ (err e, some a)
      | fault ↦ (fault, some a)
    ]

unfoldable pub exit : Ptr Allocator → Ptr Allocator
exit none = none
exit (some a) = some reset

-- The loop of `zns_allocator_resync`: the first zone, from number `i` on, with that start sector.
pub find_zone : List ZnsZone → ℕ → ℕ → Option (ℕ × ZnsZone)
find_zone [] i start = none
find_zone (z ∷ zs) i start =
    if z.start_sector == start then some (i, z) else find_zone zs (i + 1) start

-- The `switch` on the reported condition; false is the jump to `out`.
abbrev pub condition_recoverable : Condition → ℕ → ℕ → ℕ → Bool
condition_recoverable Condition.empty wp start end = wp == start
condition_recoverable Condition.imp_open wp start end = true
condition_recoverable Condition.exp_open wp start end = true
condition_recoverable Condition.closed wp start end = true
condition_recoverable Condition.full wp start end = wp == end
condition_recoverable _ wp start end = false

-- The tests on the zone found and on its report, in the order of the code.
pub recoverable : ℕ → ℕ → ZnsZone → ZnsZone → Bool
recoverable block failed_sector z reported =
    reported.length == z.length
    && (reported.capacity == z.capacity
        && (metadata_valid reported
            && (leb z.start_sector failed_sector
                && (leb failed_sector (zone_end z)
                    && (leb block (zone_end z - failed_sector)
                        && (failed_sector % block == 0
                            && (z.write_pointer == add64 failed_sector block
                                && ((reported.write_pointer == failed_sector
                                      || reported.write_pointer == add64 failed_sector block)
                                    && condition_recoverable reported.condition
                                        reported.write_pointer z.start_sector (zone_end z)))))))))

abbrev pub resynced : Allocator → ℕ → ZnsZone → ZnsZone → Allocator
resynced a zone_id z reported = record a {
  zones = set a.zones zone_id (record z {
    write_pointer = reported.write_pointer;
    condition = reported.condition;
    active = reported.active;
  });
  active_zone =
      if is_full reported.condition
        || ltb (sub64 (zone_end z) reported.write_pointer) a.sectors_per_block
      then add32 zone_id 1
      else zone_id;
}

abbrev pub is_zoned : AllocatorMode → Bool
is_zoned AllocatorMode.linear = false
is_zoned AllocatorMode.zoned = true

pub resync : Allocator → ℕ → ZnsZone → Ret × Allocator
resync a failed_sector reported =
    if not (is_zoned a.mode) || a.sectors_per_block == 0
    then (err Errno.eio, a)
    else elim (find_zone a.zones 0 reported.start_sector) [
      | none ↦ (err Errno.eio, a)
      | some (zone_id, z) ↦
          if recoverable a.sectors_per_block failed_sector z reported
          then (ok, resynced a zone_id z reported)
          else (err Errno.eio, a)
    ]

-- `*physical_sector = zone->write_pointer`, and the zone moves on by one block. A zone with no room
-- for another block is left behind at once.
abbrev pub take_block : Allocator → ZnsZone → Allocator
take_block a z =
    let write_pointer = add64 z.write_pointer a.sectors_per_block in
    record a {
      zones = set a.zones a.active_zone (record z { write_pointer = write_pointer });
      active_zone =
          if ltb (sub64 (zone_end z) write_pointer) a.sectors_per_block
          then add32 a.active_zone 1
          else a.active_zone;
    }

-- The loop of `zns_allocator_alloc_zoned`, by the rounds left.
pub alloc_loop : ℕ → Allocator → ℕ → Ret × ℕ × Allocator
alloc_loop zero a cell = (err Errno.enospc, cell, a)
alloc_loop (suc n) a cell = elim (get_elem? a.zones a.active_zone) [
  | none ↦ (fault, cell, a)
  | some z ↦
      let next =
        alloc_loop n (record a { active_zone = add32 a.active_zone 1 % a.nr_zones }) cell in
      if not (a.active_zone == a.reserve_zone) && can_append z a.sectors_per_block
      then (ok, z.write_pointer, take_block a z)
      else next
]

pub alloc_zoned : Allocator → ℕ → Ret × ℕ × Allocator
alloc_zoned a cell =
    alloc_loop a.nr_zones
      (record a { active_zone = if leb a.nr_zones a.active_zone then 0 else a.active_zone }) cell

unfoldable pub alloc_linear : Allocator → ℕ → Ret × ℕ × Allocator
alloc_linear a cell =
    if ltb a.physical_sectors a.next_sector
      || ltb (a.physical_sectors - a.next_sector) a.sectors_per_block
    then (err Errno.enospc, cell, a)
    else (ok, a.next_sector, record a { next_sector = add64 a.next_sector a.sectors_per_block })

-- The result of a call through pointers that are not NULL.
abbrev pub to_ptrs : Ret × ℕ × Allocator → Ret × Ptr ℕ × Ptr Allocator
to_ptrs (ret, cell, a) = (ret, some cell, some a)

unfoldable pub alloc : Ptr Allocator → Ptr ℕ → Ret × Ptr ℕ × Ptr Allocator
alloc none cell = (err Errno.einval, cell, none)
alloc (some a) none = (err Errno.einval, none, some a)
alloc (some a) (some cell) =
    to_ptrs (if is_zoned a.mode then alloc_zoned a cell else alloc_linear a cell)

-- The loop of `zns_allocator_has_space`, from zone number `i` on.
pub space_from : ℕ → ℕ → List ZnsZone → ℕ → Bool
space_from reserve_zone sectors_per_block [] i = false
space_from reserve_zone sectors_per_block (z ∷ zs) i =
    not (i == reserve_zone) && can_append z sectors_per_block
    || space_from reserve_zone sectors_per_block zs (i + 1)

pub has_space : Allocator → Bool
has_space a = space_from a.reserve_zone a.sectors_per_block a.zones 0

abbrev pub set_reserve_at : Allocator → ℕ → ZnsZone → Ret × Ptr Allocator
set_reserve_at a zone z =
    if not (is_writable z)
      || (ltb z.capacity a.sectors_per_block || not (z.write_pointer == z.start_sector))
    then (err Errno.enospc, some a)
    else (ok, some (record a { reserve_zone = zone }))

pub set_reserve : Ptr Allocator → ℕ → Ret × Ptr Allocator
set_reserve none zone = (err Errno.einval, none)
set_reserve (some a) zone =
    if not (is_zoned a.mode) || leb a.nr_zones zone
    then (err Errno.einval, some a)
    else elim (get_elem? a.zones zone) [ none ↦ (fault, some a) | some z ↦ set_reserve_at a zone z ]

abbrev pub alloc_gc_at : Allocator → ℕ → ZnsZone → Ret × ℕ × Allocator
alloc_gc_at a cell z =
    if not (can_append z a.sectors_per_block) then (err Errno.enospc, cell, a) else (
      ok,
      z.write_pointer,
      record a {
        zones =
            set a.zones a.reserve_zone
              (record z { write_pointer = add64 z.write_pointer a.sectors_per_block });
      },
    )

pub alloc_gc : Ptr Allocator → Ptr ℕ → Ret × Ptr ℕ × Ptr Allocator
alloc_gc none cell = (err Errno.einval, cell, none)
alloc_gc (some a) none = (err Errno.einval, none, some a)
alloc_gc (some a) (some cell) =
    if leb a.nr_zones a.reserve_zone
    then (err Errno.einval, some cell, some a)
    else elim (get_elem? a.zones a.reserve_zone) [
      | none ↦ (fault, some cell, some a)
      | some z ↦ to_ptrs (alloc_gc_at a cell z)
    ]

pub set_reserve_after_reset : Ptr Allocator → ℕ → Ret × Ptr Allocator
set_reserve_after_reset none victim = (err Errno.einval, none)
set_reserve_after_reset (some a) victim =
    if leb a.nr_zones victim || victim == a.reserve_zone
    then (err Errno.einval, some a)
    else elim (get_elem? a.zones victim) [
      | none ↦ (fault, some a)
      | some z ↦ (
        ok,
        some (record a {
          zones =
              set a.zones victim
                (record z { write_pointer = z.start_sector; condition = Condition.empty });
          reserve_zone = victim;
        }),
      )
    ]
