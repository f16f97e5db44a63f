-- ===== src/Gc/Tests.antt =====
-- The policies at a small context.
use dm_zns_base.Prelude.{ℕ, ◌≡◌, refl, arith, true, false, zero, suc, ◌<◌, u64_mod}
use dm_zns_base.Kernel.{Errno}
use dm_zns_base.Gc.{ZoneInfo, GcContext, zone, none_found}
use dm_zns_base.Gc.Simple
use dm_zns_base.Gc.Greedy
use dm_zns_base.Gc.Choice.{IsSmall, Chosen, IsFewest, greedy-Chosen}

abbrev full_zone : ℕ → ZoneInfo
full_zone live = record {
  is_reserve = false;
  resettable = true;
  capacity_blocks = 8;
  free_blocks = 0;
  valid_blocks = live;
}

-- Zone 0 is the reserve, and zones 1 and 2 hold 5 and 3 live blocks.
abbrev info : ℕ → ZoneInfo
info zero = record (full_zone 0) { is_reserve = true; free_blocks = 8 }
info (suc zero) = full_zone 5
info (suc (suc n)) = full_zone 3

abbrev ctx : GcContext
ctx = record {
  nr_zones = 3;
  has_write_space = false;
  reserve_free_blocks = 8;
  get_zone_info = info;
}

ctx-IsSmall : IsSmall ctx
ctx-IsSmall = record { zones = omega arith; blocks = below }
  where
    below : (k : ℕ) → (info k).capacity_blocks < u64_mod
    below zero = omega arith
    below (suc zero) = omega arith
    below (suc (suc n)) = omega arith

simple_runs : Simple.select_victim ctx ≡ zone 1
unfolding Simple.select_victim
simple_runs = refl

greedy_runs : Greedy.select_victim ctx ≡ zone 2
unfolding Greedy.select_victim
greedy_runs = refl

-- With no room in the reserve there is no victim.
greedy_cramped :
    Greedy.select_victim (record ctx { reserve_free_blocks = 2 }) ≡ none_found Errno.enospc
unfolding Greedy.select_victim
greedy_cramped = refl

greedy-Chosen_example : Chosen ctx (IsFewest ctx) (Greedy.select_victim ctx)
greedy-Chosen_example = greedy-Chosen ctx ctx-IsSmall
