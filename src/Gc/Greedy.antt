-- ===== src/Gc/Greedy.antt =====
-- src/gc-policy/zns-gc-greedy.c: the zone with the fewest live blocks, the first of several.
use dm_zns_base.Prelude.{
  ℕ, zero, suc, ◌+◌, ◌-◌, Bool, not, ◌&&◌, ◌||◌, ltb, leb, ◌==◌, if◌then◌else◌, u64_mod,
}
use dm_zns_base.Kernel.{Errno}
use dm_zns_base.Gc.{ZoneInfo, GcContext, Victim, none_found, to_int}

pub should_gc : GcContext → Bool
should_gc ctx = not ctx.has_write_space

-- The test that leads to `continue`.
abbrev pub skipped : GcContext → ZoneInfo → Bool
skipped ctx info =
    info.is_reserve
    || (not info.resettable
        || (not (info.free_blocks == 0)
            || (leb info.capacity_blocks info.valid_blocks
                || ltb ctx.reserve_free_blocks info.valid_blocks)))

-- The loop, by the rounds left, the zone number and the two variables that it keeps.
unfoldable pub select_from : GcContext → ℕ → ℕ → ℕ → Victim → Victim
select_from ctx zero zone fewest_valid victim = victim
select_from ctx (suc n) zone fewest_valid victim =
    let info = ctx.get_zone_info zone in
    let better = not (skipped ctx info) && ltb info.valid_blocks fewest_valid in
    select_from ctx n (zone + 1) (if better then info.valid_blocks else fewest_valid)
      (if better then to_int zone else victim)

-- The initial `fewest_valid` is `(sector_t)-1`.
unfoldable pub select_victim : GcContext → Victim
unfolding select_from
select_victim ctx = select_from ctx ctx.nr_zones 0 (u64_mod - 1) (none_found Errno.enospc)
