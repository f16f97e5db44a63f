-- ===== src/Gc.antt =====
-- src/zns-gc.h and src/gc-policy/: the context that a collection policy sees, and the three policies
-- `none`, `simple` and `greedy` (one of them is linked into a build).
pub mod None
pub mod Simple
pub mod Greedy
pub mod Choice
mod Tests
use dm_zns_base.Prelude.{
  ℕ, zero, suc, ◌+◌, ◌-◌, ◌^◌, Bool, true, false, not, ◌&&◌, ◌||◌, ltb, leb, ◌==◌, if◌then◌else◌,
  add32, u64_mod, u32_mod,
}
use dm_zns_base.Kernel.{Errno}

pub record ZoneInfo : Type 0 where
  pub is_reserve : Bool
  pub resettable : Bool
  pub capacity_blocks : ℕ
  pub free_blocks : ℕ
  pub valid_blocks : ℕ

-- `private` only serves the callback, which is here a function.
pub record GcContext : Type 0 where
  pub nr_zones : ℕ
  pub has_write_space : Bool
  pub reserve_free_blocks : ℕ
  pub get_zone_info : ℕ → ZoneInfo

-- The `int` that a policy returns: a zone number, a negative error number, or the negative number
-- that an `unsigned int` of 2 ^ 31 or more becomes.
pub data Victim : Type 0 where
  zone : ℕ → Victim
  none_found : Errno → Victim
  negative : ℕ → Victim

abbrev pub to_int : ℕ → Victim
to_int n = if ltb n (2 ^ 31) then zone n else negative (u32_mod - n)
