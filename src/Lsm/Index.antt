-- ===== src/Lsm/Index.antt =====
-- src/engines/zns-engine-lsm.c: the two indexes of the collection, the reverse map `gc_zones` and the
-- XArray `latest`.
--
-- The XArray of the kernel is a parameter. A value entry stands for the number that
-- `xa_mk_value` wraps, and `none` for the NULL pointer, which a reserved entry also loads as.
-- The local variables that a failed conversion leaves unset are never read: they start at 0.
pub mod Counts
pub mod Agree
pub mod Moves
pub mod Made
use dm_zns_base.Prelude.{
  ℕ, zero, suc, ◌/◌, Bool, Option, none, some, List, [], ◌∷◌, map, ◌==◌, leb, if◌then◌else◌,
  get_elem?, set, replicate, add64, sub64,
}
use dm_zns_base.Kernel.{Errno, Ret, ok, err, fault, Ptr, Grants}
use dm_zns_base.Zone.{ZnsZone}
use dm_zns_base.Allocator.{Allocator}
use dm_zns_base.Lsm.{physical_to_gc_slot}

pub record XArray (X : Type 0) : Type 0 where
  pub load : X → ℕ → Option ℕ
  pub store : X → ℕ → ℕ → Ret × X
  pub reserve : X → ℕ → Ret × X
  pub empty : X

pub record GcZone : Type 0 where
  pub logical_blocks : Ptr (List ℕ)
  pub nr_blocks : ℕ
  pub nr_valid_blocks : ℕ

pub record GcIndexes (X : Type 0) : Type 0 where
  pub gc_zones : Ptr (List GcZone)
  pub latest : X
  pub valid_blocks : ℕ

abbrev pub encode_logical_block : ℕ → ℕ
encode_logical_block logical_block = add64 logical_block 1

abbrev pub decode_logical_block : ℕ → ℕ
decode_logical_block entry = sub64 entry 1

abbrev pub encode_physical_sector : ℕ → ℕ
encode_physical_sector physical_sector = add64 physical_sector 1

abbrev pub decode_physical_sector : ℕ → ℕ
decode_physical_sector entry = sub64 entry 1

abbrev pub slot_in : Ptr (List ℕ) → ℕ → Option ℕ
slot_in none s = none
slot_in (some entries) s = get_elem? entries s

-- `gc_zones[zone].logical_blocks[s]`, if it is inside the arrays.
abbrev pub slot_of : List GcZone → ℕ → ℕ → Option ℕ
slot_of [] zone s = none
slot_of (g ∷ gs) zero s = slot_in g.logical_blocks s
slot_of (g ∷ gs) (suc zone) s = slot_of gs zone s

abbrev pub slot_at : Ptr (List GcZone) → ℕ → ℕ → Option ℕ
slot_at none zone s = none
slot_at (some gs) zone s = slot_of gs zone s

abbrev pub set_in : Ptr (List ℕ) → ℕ → ℕ → Ptr (List ℕ)
set_in none s entry = none
set_in (some entries) s entry = some (set entries s entry)

-- `zone->logical_blocks[s] = entry` with `zone->nr_valid_blocks++`.
abbrev pub fill_zone : ℕ → ℕ → GcZone → GcZone
fill_zone s entry g = record g {
  logical_blocks = set_in g.logical_blocks s entry;
  nr_valid_blocks = add64 g.nr_valid_blocks 1;
}

-- `zone->logical_blocks[s] = 0` with `zone->nr_valid_blocks--`.
abbrev pub clear_zone : ℕ → GcZone → GcZone
clear_zone s g = record g {
  logical_blocks = set_in g.logical_blocks s 0;
  nr_valid_blocks = sub64 g.nr_valid_blocks 1;
}

-- A change of the element number `i`.
abbrev pub modify : (GcZone → GcZone) → List GcZone → ℕ → List GcZone
modify f [] i = []
modify f (g ∷ gs) zero = f g ∷ gs
modify f (g ∷ gs) (suc i) = g ∷ modify f gs i

abbrev pub modify_at : (GcZone → GcZone) → Ptr (List GcZone) → ℕ → Ptr (List GcZone)
modify_at f none i = none
modify_at f (some gs) i = some (modify f gs i)

-- `kvcalloc` for the reverse map of each zone from the first on; request number `n` is the next one.
-- A failed request leaves the zones after it as `kcalloc` made them.
pub fill_maps : Grants → ℕ → ℕ → List ZnsZone → ℕ → Ret × List GcZone × ℕ
fill_maps grants zero block zs n = (ok, [], n)
fill_maps grants (suc nr) block [] n = (fault, [], n)
fill_maps grants (suc nr) block (z ∷ zs) n =
    let rest = fill_maps grants nr block zs (suc n) in
    let nr_blocks = z.capacity / block in
    if grants n
    then (
      rest.0,
      record {
        logical_blocks = some (replicate nr_blocks 0);
        nr_blocks = nr_blocks;
        nr_valid_blocks = 0;
      }
          ∷ rest.1,
      rest.2,
    )
    else (
      err Errno.enomem,
      record { logical_blocks = none; nr_blocks = nr_blocks; nr_valid_blocks = 0 }
          ∷ replicate nr (record { logical_blocks = none; nr_blocks = 0; nr_valid_blocks = 0 }),
      suc n,
    )

module _ {X : Type 0} where
  abbrev with_maps : GcIndexes X → Ret × List GcZone × ℕ → Ret × GcIndexes X × ℕ
  with_maps ix (r, gs, n) = (r, record ix { gc_zones = some gs }, n)

  pub gc_map_init : Grants → Allocator → ℕ → GcIndexes X → ℕ → Ret × GcIndexes X × ℕ
  gc_map_init grants a block ix n =
      if grants n
      then with_maps ix (fill_maps grants a.nr_zones block a.zones (suc n))
      else (err Errno.enomem, record ix { gc_zones = none }, suc n)

  pub gc_map_exit : GcIndexes X → GcIndexes X
  gc_map_exit ix = record ix { gc_zones = none }

-- Where the previous copy of the block is, if it has one.
abbrev pub Old : Type 0
Old = Option (ℕ × ℕ)

module _ {X : Type 0} (xa : XArray X) (a : Allocator) (block : ℕ) where
  -- After the store: the previous copy gives up its slot, or the total grows; then the new copy
  -- takes its slot.
  abbrev pub move_validity : Old → ℕ → ℕ → ℕ → GcIndexes X → GcIndexes X
  move_validity none zone slot entry ix = record ix {
    gc_zones = modify_at (fill_zone slot entry) ix.gc_zones zone;
    valid_blocks = add64 ix.valid_blocks 1;
  }
  move_validity (some (old_zone, old_slot)) zone slot entry ix = record ix {
    gc_zones =
        modify_at (fill_zone slot entry) (modify_at (clear_zone old_slot) ix.gc_zones old_zone)
          zone;
  }

  abbrev pub stored : Old → ℕ → ℕ → ℕ → GcIndexes X → Ret × X → Ret × GcIndexes X
  stored old zone slot entry ix (ok, latest) =
      (ok, move_validity old zone slot entry (record ix { latest = latest }))
  stored old zone slot entry ix (err e, latest) = (err e, record ix { latest = latest })
  stored old zone slot entry ix (fault, latest) = (fault, record ix { latest = latest })

  -- The commit: `latest` first.
  abbrev pub commit : ℕ → ℕ → Old → ℕ → ℕ → GcIndexes X → Ret × GcIndexes X
  commit k p old zone slot ix =
      stored old zone slot (encode_logical_block k) ix
        (xa.store ix.latest k (encode_physical_sector p))

  -- The previous location must still record this block.
  abbrev pub check_old : ℕ → ℕ → ℕ → ℕ → GcIndexes X → Ret × ℕ × ℕ → Ret × GcIndexes X
  check_old k p zone slot ix (ok, old_zone, old_slot) =
      elim (slot_at ix.gc_zones old_zone old_slot) [
        | none ↦ (fault, ix)
        | some entry ↦
            if entry == encode_logical_block k
            then commit k p (some (old_zone, old_slot)) zone slot ix
            else (err Errno.einval, ix)
      ]
  check_old k p zone slot ix (err _, old_zone, old_slot) = (err Errno.einval, ix)
  check_old k p zone slot ix (fault, old_zone, old_slot) = (fault, ix)

  abbrev pub find_old : ℕ → ℕ → ℕ → ℕ → GcIndexes X → Option ℕ → Ret × GcIndexes X
  find_old k p zone slot ix none = commit k p none zone slot ix
  find_old k p zone slot ix (some old_entry) =
      check_old k p zone slot ix
        (physical_to_gc_slot a block (decode_physical_sector old_entry) 0 0)

  -- The new location must be a written data block that no block owns yet.
  abbrev pub check_new : ℕ → ℕ → GcIndexes X → Ret × ℕ × ℕ → Ret × GcIndexes X
  check_new k p ix (ok, zone, slot) = elim (slot_at ix.gc_zones zone slot) [
    | none ↦ (fault, ix)
    | some entry ↦
        if entry == 0
        then find_old k p zone slot ix (xa.load ix.latest k)
        else (err Errno.einval, ix)
  ]
  check_new k p ix (err e, zone, slot) = (err e, ix)
  check_new k p ix (fault, zone, slot) = (fault, ix)

  pub update_gc_block_location : ℕ → ℕ → GcIndexes X → Ret × GcIndexes X
  update_gc_block_location k p ix = check_new k p ix (physical_to_gc_slot a block p 0 0)

  -- The entry is new to the index: the slot that it converts to must be free.
  abbrev pub restore_new : ℕ → ℕ → GcIndexes X → Ret × ℕ × ℕ → Ret × GcIndexes X
  restore_new k p ix (ok, zone, slot) = elim (slot_at ix.gc_zones zone slot) [
    | none ↦ (fault, ix)
    | some entry ↦ if entry == 0 then commit k p none zone slot ix else (err Errno.einval, ix)
  ]
  restore_new k p ix (err _, zone, slot) = (err Errno.einval, ix)
  restore_new k p ix (fault, zone, slot) = (fault, ix)

  -- `logical_sectors` is the field of the superblock.
  pub gc_restore_entry : ℕ → ℕ → ℕ → GcIndexes X → Ret × GcIndexes X
  gc_restore_entry logical_sectors k p ix =
      if leb (logical_sectors / block) k
      then (err Errno.einval, ix)
      else elim (xa.load ix.latest k) [
        | some _ ↦ (ok, ix)
        | none ↦ restore_new k p ix (physical_to_gc_slot a block p 0 0)
      ]
