-- ===== src/Lsm/Tests/World.antt =====
-- A device of two zones in memory under the engine of src/engines/zns-engine-lsm.c: block 3 is in the
-- second block of zone 0, and zone 1 is the reserve.
use mathlib.Core.Option
use mathlib.Core.Path.{subst}
use mathlib.Core.Option.{some-injective}
use dm_zns_base.Prelude.{
  ℕ, zero, suc, ◌+◌, ◌≡◌, refl, sym, ◌∙◌, ap, Bool, true, false, Option, none, some, List, [], ◌∷◌,
  ◌==◌, if◌then◌else◌, get_elem?, arith, Bool-cases, inl, inr, ◌⊎◌, leb, ltb, ◌&&◌,
}
use dm_zns_base.Kernel.{ok}
use dm_zns_base.Zone.{ZnsZone, Condition, Device, empty_table}
use dm_zns_base.Block.{zeroed}
use dm_zns_base.Block.Io.{block_write, submit_block}
use dm_zns_base.Block.Tests.{
  Memory, in_memory, in_memory-IsDevice, in_memory-IsStorage, content, sum,
}
use dm_zns_base.Allocator.{Allocator, AllocatorMode, reset}
use dm_zns_base.Allocator.Valid.{IsValid}
use dm_zns_base.Gc.{Victim}
use dm_zns_base.Memtable.{Memtable, empty_memtable, find}
use dm_zns_base.Memtable.Laws.{put_table, put_table-IsValid, empty-IsValid, reading-put_table}
use dm_zns_base.Memtable.Tests.{plain, plain-IsRbtree}
use dm_zns_base.Generations.Compact.{over}
use dm_zns_base.Generations.Active.{IsValidTables, tables, tables-IsValidTables}
use dm_zns_base.Zone.Table.{deliver}
use dm_zns_base.Sstable.Confined.{IsConfined}
use dm_zns_base.Sstable.Outcome.{IsPlainLayer}
use dm_zns_base.Lsm.{physical_to_gc_slot, slot_loop}
use dm_zns_base.Lsm.Index.{XArray, GcZone, GcIndexes, slot_of}
use dm_zns_base.Lsm.Index.Agree.{IsXArray, IsHeld, At, Agrees}
use dm_zns_base.Lsm.State.{Env, ZnsLsm}
use dm_zns_base.Lsm.Flush.Steps.{IsWorld}
use dm_zns_base.Lsm.Publish.Agreement.{IsReady}
use dm_zns_base.Lsm.Publish.Fresh.{IsTidy, Inside, Spans}
use dm_zns_base.Lsm.Collect.Whole.{IsGround, IsWhole, located}
use dm_zns_base.Lsm.Collect.Reset.{IsResetConfined}

-- An XArray with memory for everything.
abbrev pub Entries : Type 0
Entries = ℕ → Option ℕ

abbrev pub entries : XArray Entries
entries = record {
  load = λ x k. x k;
  store = λ x k v. (ok, λ t. if t == k then some v else x t);
  reserve = λ x k. (ok, x);
  empty = λ k. none;
}

pub entries-IsXArray : IsXArray entries
entries-IsXArray = record {
  store_ok = λ x x' k v t lt h. ap (λ r. r.1 t) (sym h);
  store_err = λ x x' k v t e h. absurd (ground (arith, ap (λ r. r.0) h));
  store_defined = λ x k v e. absurd (ground (arith, e));
  reserve_load = λ x k t. refl;
  reserve_defined = λ x k e. absurd (ground (arith, e));
  reserve_store = λ x k v h. refl;
  empty_load = λ t. refl;
}

in_memory-IsConfined : IsConfined in_memory content
unfolding block_write submit_block
in_memory-IsConfined disk sector b s ne = ground (arith, ne)

in_memory-IsPlainLayer : IsPlainLayer in_memory
unfolding block_write submit_block
in_memory-IsPlainLayer disk sector b =
    ((λ e. absurd (ground (arith, e))), λ e. absurd (ground (arith, e)))

abbrev no_device : Device
no_device = record {
  is_zoned = true;
  nr_zones = 2;
  report_zones = λ S sector nr cb s. deliver S cb 0 [] s;
}

-- A reset empties the blocks from the start of the zone to its end.
abbrev pub cleared : Memory → ℕ → ℕ → Memory
cleared disk start len x = if leb start x && ltb x (start + len) then zeroed else disk x

abbrev pub env : Env Memory Entries
env = record {
  layer = in_memory;
  bdev = λ disk. no_device;
  zone_reset = λ disk start len. (ok, cleared disk start len);
  crc32_le = sum;
  rb = plain;
  grants = λ n. true;
  uninit = zeroed;
  xa = entries;
  should_gc = λ c. true;
  select_victim = λ c. Victim.zone 0;
  fail_data_write_at = 0;
  fail_gc_move_write_at = 0;
  fail_gc_zone_reset_at = 0;
}

abbrev zone_at : ℕ → ℕ → ℕ → Condition → ZnsZone
zone_at id start wp condition = record {
  id = id;
  start_sector = start;
  length = 64;
  capacity = 48;
  write_pointer = wp;
  condition = condition;
  active = true;
}

abbrev pub written_zone : ZnsZone
written_zone = zone_at 0 64 80 Condition.imp_open

abbrev pub reserve : ZnsZone
reserve = zone_at 1 128 128 Condition.empty

abbrev pub two_zones : Allocator
two_zones = record reset {
  zones = written_zone ∷ reserve ∷ [];
  nr_zones = 2;
  reserve_zone = 1;
  sectors_per_block = 8;
  mode = AllocatorMode.zoned;
}

pub two_zones-IsValid : IsValid two_zones
two_zones-IsValid = record {
  count = refl;
  some_zone = omega arith;
  small = omega arith;
  block_pos = omega arith;
  in_zones = refl;
  sound = (
    record { fits = omega arith; from_start = λ w. omega arith; to_end = λ w. omega arith },
    (record { fits = omega arith; from_start = λ w. omega arith; to_end = λ w. omega arith }, tt),
  );
}

abbrev pub map_of : List ℕ → ℕ → GcZone
map_of slots valid = record { logical_blocks = some slots; nr_blocks = 6; nr_valid_blocks = valid }

abbrev pub maps_of_two : List GcZone
maps_of_two = map_of (0 ∷ 4 ∷ 0 ∷ 0 ∷ 0 ∷ 0 ∷ []) 1 ∷ map_of (0 ∷ 0 ∷ 0 ∷ 0 ∷ 0 ∷ 0 ∷ []) 0 ∷ []

abbrev pub indexes : GcIndexes Entries
indexes = record {
  gc_zones = some maps_of_two;
  latest = λ k. if k == 3 then some 73 else none;
  valid_blocks = 1;
}

abbrev pub memory : Memtable
memory = put_table plain empty_memtable 3 72

pub memory-IsValid : IsValidTables (tables memory none)
memory-IsValid =
    tables-IsValidTables memory none
      (put_table-IsValid plain plain-IsRbtree empty_memtable 3 72 empty-IsValid) tt

abbrev pub data_blocks : Memory
data_blocks sector = if sector == 72 then (λ i. 7) else zeroed

abbrev pub running : ZnsLsm Memory Entries
running = record {
  disk = data_blocks;
  requests = 0;
  zone_table = empty_table;
  allocator = two_zones;
  indexes = indexes;
  gc_runs = 0;
  gc_moved = 0;
  gc_resets = 0;
  tables = tables memory none;
  flushing = none;
  flush_in_flight = false;
  flush_queued = false;
  memtable_threshold = 2;
  sectors_per_block = 8;
  data_write_attempts = 0;
  gc_move_write_attempts = 0;
  gc_zone_reset_attempts = 0;
  writes_stopped = false;
  sstables = [];
  nr_sstables = 0;
  nr_sst_entries = 0;
  next_sst_seq = 0;
  meta_start = 8;
  meta_wp = 8;
  meta_end = 64;
  super = record {
    uuid = 1;
    logical_sectors = 40;
    zone_size_sectors = 64;
    nr_zones = 3;
    meta_zone_id = 0;
    sectors_per_block = 8;
  };
}

-- A zone of the allocator is one of the two.
pub which :
    (i : ℕ) (z : ZnsZone)
    → get_elem? two_zones.zones i ≡ some z
    → ((i ≡ 0) × (z ≡ written_zone)) ⊎ ((i ≡ 1) × (z ≡ reserve))
which zero z h = inl (refl, sym (some-injective _ _ h))
which (suc zero) z h = inr (refl, sym (some-injective _ _ h))
which (suc (suc i)) z h = absurd (ground (arith, h))

pub two_zones-IsTidy : IsTidy two_zones
two_zones-IsTidy = record {
  short = λ i z h. elim (which i z h) [
    | inl (_, e) ↦ rw e (omega arith)
    | inr (_, e) ↦ rw e (omega arith)
  ];
  apart = λ i j z y p h h' inside spans. elim (which i z h) [
    | inl (at, e) ↦ elim (which j y h') [
      | inl (at', e') ↦ at ∙ sym at'
      | inr (at', e') ↦
          absurd (omega (arith, subst (λ v. Inside v p) e inside, subst (λ v. Spans v p) e' spans))
    ]
    | inr (at, e) ↦ elim (which j y h') [
      | inr (at', e') ↦ at ∙ sym at'
      | inl (at', e') ↦
          absurd (omega (arith, subst (λ v. Inside v p) e inside, subst (λ v. Spans v p) e' spans))
    ]
  ];
  aligned = λ i z h room. elim (which i z h) [ inl (_, e) ↦ rw e refl | inr (_, e) ↦ rw e refl ];
}

at_72 : At two_zones 8 72 0 1
unfolding physical_to_gc_slot slot_loop
at_72 = refl

backward :
    (k zone slot : ℕ)
    → slot_of maps_of_two zone slot ≡ some (suc k)
    → (p : ℕ) × (entries.load indexes.latest k ≡ some (suc p)) × At two_zones 8 p zone slot
backward k zero zero h = absurd (ground (arith, h))
backward k zero (suc zero) h =
    let is : k ≡ 3 = omega (arith, some-injective _ _ h) in (72, rw is refl, at_72)
backward k zero (suc (suc zero)) h = absurd (ground (arith, h))
backward k zero (suc (suc (suc zero))) h = absurd (ground (arith, h))
backward k zero (suc (suc (suc (suc zero)))) h = absurd (ground (arith, h))
backward k zero (suc (suc (suc (suc (suc zero))))) h = absurd (ground (arith, h))
backward k zero (suc (suc (suc (suc (suc (suc slot)))))) h = absurd (ground (arith, h))
backward k (suc zero) zero h = absurd (ground (arith, h))
backward k (suc zero) (suc zero) h = absurd (ground (arith, h))
backward k (suc zero) (suc (suc zero)) h = absurd (ground (arith, h))
backward k (suc zero) (suc (suc (suc zero))) h = absurd (ground (arith, h))
backward k (suc zero) (suc (suc (suc (suc zero)))) h = absurd (ground (arith, h))
backward k (suc zero) (suc (suc (suc (suc (suc zero))))) h = absurd (ground (arith, h))
backward k (suc zero) (suc (suc (suc (suc (suc (suc slot)))))) h = absurd (ground (arith, h))
backward k (suc (suc zone)) slot h = absurd (ground (arith, h))

forward :
    (k e : ℕ)
    → entries.load indexes.latest k ≡ some e
    → (p : ℕ) × (e ≡ suc p) × IsHeld maps_of_two two_zones 8 k p
forward k e h = elim (Bool-cases (k == 3)) [
  | inr other ↦ absurd (ground (arith, h, other))
  | inl same ↦ (
    72,
    ground (arith, h, same),
    record {
      zone = 0;
      slot = 1;
      at = at_72;
      recorded = ap (λ n. some (suc n)) (ground (arith, same));
    },
  )
]

pub running-Agrees : Agrees entries two_zones 8 indexes
running-Agrees = record {
  zones = maps_of_two;
  present = refl;
  total = refl;
  matches = record {
    counted = (
      record { entries = _; present = refl; size = refl; small = omega arith; count = refl },
      (record { entries = _; present = refl; size = refl; small = omega arith; count = refl }, tt),
    );
    shape = λ i z h. elim (which i z h) [
      | inl (at, e) ↦ rw (at, e) (_, refl, refl)
      | inr (at, e) ↦ rw (at, e) (_, refl, refl)
    ];
    small = λ i z h. elim (which i z h) [
      | inl (_, e) ↦ rw e (omega arith)
      | inr (_, e) ↦ rw e (omega arith)
    ];
    forward = forward;
    backward = backward;
  };
}

pub running-IsReady : IsReady env running
running-IsReady = record {
  zones = two_zones-IsValid;
  same_block = refl;
  agree = running-Agrees;
  memory = memory-IsValid;
  threshold = λ e. absurd (omega (arith, e));
}

-- No table on the device has a block.
abbrev pub nothing : ℕ → Option ℕ
nothing k = none

running_reading :
    (k : ℕ) → located env content nothing running k ≡ (if k == 3 then some 72 else none)
unfolding find
running_reading k =
    rw (reading-put_table plain plain-IsRbtree empty_memtable 3 72 k empty-IsValid)
      (by_key (k == 3))
  where
    by_key :
        (b : Bool)
        → over (over (over (if b then some 72 else none) none) none) none
          ≡ (if b then some 72 else none)
    by_key true = refl
    by_key false = refl

pub running-IsWhole : IsWhole env content nothing running
running-IsWhole = record {
  ready = running-IsReady;
  tidy = two_zones-IsTidy;
  known = λ k. rw (running_reading k) (by_key (k == 3));
  range = λ k p h. elim (Bool-cases (k == 3)) [
    | inl same ↦ ground (arith, same)
    | inr other ↦ absurd (ground (arith, other, sym (running_reading k) ∙ h))
  ];
}
  where
    by_key :
        (b : Bool) → (if b then some 73 else none) ≡ Option.map suc (if b then some 72 else none)
    by_key true = refl
    by_key false = refl

pub ground_env : IsGround env content
ground_env = record {
  dev = in_memory-IsStorage;
  confined = in_memory-IsConfined;
  tree = plain-IsRbtree;
  array = entries-IsXArray;
}

pub reset-IsResetConfined : IsResetConfined env content
reset-IsResetConfined disk start len x out = ground (arith, out)

pub world_env : IsWorld env content
world_env = record {
  dev = in_memory-IsDevice;
  confined = in_memory-IsConfined;
  plain = in_memory-IsPlainLayer;
  tree = plain-IsRbtree;
  granted = λ n. refl;
}
