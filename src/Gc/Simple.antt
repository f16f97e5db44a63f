-- ===== src/Gc/Simple.antt =====
-- src/gc-policy/zns-gc-simple.c: the first zone whose live blocks fit the reserve.
use dm_zns_base.Prelude.{ℕ, zero, suc, ◌+◌, Bool, not, ◌&&◌, ltb, leb, ◌==◌, if◌then◌else◌}
use dm_zns_base.Kernel.{Errno}
use dm_zns_base.Gc.{ZoneInfo, GcContext, Victim, none_found, to_int}

pub should_gc : GcContext → Bool
should_gc ctx = not ctx.has_write_space

-- The test of the loop.
abbrev pub collectable : GcContext → ZoneInfo → Bool
collectable ctx info =
    not info.is_reserve
    && (info.resettable
        && (info.free_blocks == 0
            && (ltb info.valid_blocks info.capacity_blocks
                && leb info.valid_blocks ctx.reserve_free_blocks)))

-- The loop, by the rounds left and the zone number.
unfoldable pub select_from : GcContext → ℕ → ℕ → Victim
select_from ctx zero zone = none_found Errno.enospc
select_from ctx (suc n) zone =
    if collectable ctx (ctx.get_zone_info zone) then to_int zone else select_from ctx n (zone + 1)

unfoldable pub select_victim : GcContext → Victim
unfolding select_from
select_victim ctx = select_from ctx ctx.nr_zones 0
