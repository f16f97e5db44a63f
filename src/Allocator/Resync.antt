-- ===== src/Allocator/Resync.antt =====
-- `zns_allocator_resync`: the recovery of the write pointer after a failed data write.
use mathlib.Core.Path.{subst}
use native.Mathlib.Nat.{zero-add}
use dm_zns_base.Prelude.{
  ℕ, ◌+◌, ◌≤◌, ◌<◌, ◌≡◌, ◌≢◌, refl, ◌∙◌, true, false, not, ◌||◌, some, none, List, [], ◌∷◌,
  All-get_elem?, ◌==◌, ne→==, if◌then◌else◌, get_elem?, length, lt-length_of_get_elem?,
  get_elem?-set_self, get_elem?-set, u64_mod, arith, ap, ◌⊎◌, inl, inr, Bool-cases, Option-cases,
  suc,
}
use dm_zns_base.Kernel.{Errno, Ret, ok, err}
use dm_zns_base.Zone.{ZnsZone, can_append, is_full}
use dm_zns_base.Allocator.{Allocator, find_zone, recoverable, resynced, resync, is_zoned, alloc}
use dm_zns_base.Allocator.Valid.{IsSound, IsValid, metadata_valid-IsSound}
use dm_zns_base.Allocator.Alloc.{alloc_at_cursor}
use dm_zns_base.Allocator.Reserve.{set-IsValid}

find_zone_lem :
    (zs : List ZnsZone) (i start k : ℕ) (z : ZnsZone)
    → find_zone zs i start ≡ some (k, z)
    → (j : ℕ) × (k ≡ i + j) × (get_elem? zs j ≡ some z) × (z.start_sector ≡ start)
unfolding find_zone
find_zone_lem [] i start k z h = absurd (ground arith)
find_zone_lem (y ∷ zs) i start k z h = elim (Bool-cases (y.start_sector == start)) [
  | inl here ↦ (0, ground arith, ground arith, ground arith)
  | inr there ↦
      let (j, e, g, s) = find_zone_lem zs (i + 1) start k z (rw there at h) in
      (suc j, omega arith, g, s)
]

-- The step of a successful recovery: the zone was ahead of the failed write by exactly one block,
-- the report puts it at the failed sector or one block past it, and only this zone and the cursor
-- change.
pub record Recovered (a : Allocator) (failed_sector : ℕ) (reported : ZnsZone) (a' : Allocator)
    : Type 0 where
  pub zone : ℕ
  pub descriptor : ZnsZone
  pub found : get_elem? a.zones zone ≡ some descriptor
  pub same_start : descriptor.start_sector ≡ reported.start_sector
  pub accepted : recoverable a.sectors_per_block failed_sector descriptor reported ≡ true
  pub result : a' ≡ resynced a zone descriptor reported

pub data Resync (a : Allocator) (failed_sector : ℕ) (reported : ZnsZone)
    : Ret × Allocator → Type 0 where
  recovered :
      (a' : Allocator)
      → Recovered a failed_sector reported a'
      → Resync a failed_sector reported (ok, a')
  declined : Resync a failed_sector reported (err Errno.eio, a)

resync_unready :
    (a : Allocator) (f : ℕ) (r : ZnsZone)
    → (not (is_zoned a.mode) || a.sectors_per_block == 0) ≡ true
    → resync a f r ≡ (err Errno.eio, a)
unfolding resync
resync_unready a f r h = rw h

resync_missing :
    (a : Allocator) (f : ℕ) (r : ZnsZone)
    → find_zone a.zones 0 r.start_sector ≡ none
    → resync a f r ≡ (err Errno.eio, a)
unfolding resync
resync_missing a f r h = ground arith

resync_found :
    (a : Allocator) (f : ℕ) (r : ZnsZone) (k : ℕ) (z : ZnsZone)
    → (not (is_zoned a.mode) || a.sectors_per_block == 0) ≡ false
    → find_zone a.zones 0 r.start_sector ≡ some (k, z)
    → resync a f r ≡ (
        if recoverable a.sectors_per_block f z r
        then (ok, resynced a k z r)
        else (err Errno.eio, a))
unfolding resync
resync_found a f r k z g h = rw (g, h, resync)

found_zone :
    (a : Allocator) (f : ℕ) (r : ZnsZone) (k : ℕ) (z : ZnsZone)
    → find_zone a.zones 0 r.start_sector ≡ some (k, z)
    → recoverable a.sectors_per_block f z r ≡ true
    → Recovered a f r (resynced a k z r)
found_zone a f r k z h c =
    let (j, e, g, s) = find_zone_lem a.zones 0 r.start_sector k z h in
    record {
      zone = k;
      descriptor = z;
      found = rw (e, zero-add) g;
      same_start = s;
      accepted = c;
      result = refl;
    }

-- `zns_allocator_resync` either makes the step of a recovery, or answers -EIO and changes nothing.
pub resync-Resync : (a : Allocator) (f : ℕ) (r : ZnsZone) → Resync a f r (resync a f r)
resync-Resync a f r = elim (Bool-cases (not (is_zoned a.mode) || a.sectors_per_block == 0)) [
  | inl bad ↦ rw (resync_unready a f r bad) declined
  | inr good ↦ elim (Option-cases (find_zone a.zones 0 r.start_sector)) [
    | inl gone ↦ rw (resync_missing a f r gone) declined
    | inr ((k, z), e) ↦ elim (Bool-cases (recoverable a.sectors_per_block f z r)) [
      | inl c ↦
          rw (resync_found a f r k z good e, c)
            (recovered (resynced a k z r) (found_zone a f r k z e c))
      | inr c ↦ rw (resync_found a f r k z good e, c) declined
    ]
  ]
]

-- The descriptor that a recovery writes.
abbrev pub restored : ZnsZone → ZnsZone → ZnsZone
restored z r = record z {
  write_pointer = r.write_pointer;
  condition = r.condition;
  active = r.active;
}

restored-IsSound :
    (block f : ℕ) (z r : ZnsZone)
    → r.start_sector < u64_mod
    → z.start_sector ≡ r.start_sector
    → recoverable block f z r ≡ true
    → IsSound (restored z r)
unfolding recoverable
restored-IsSound block f z r small same h = ground (arith, metadata_valid-IsSound r small)

Resync-IsValid :
    (a a' : Allocator) (f : ℕ) (r : ZnsZone) {res : Ret × Allocator}
    → IsValid a
    → r.start_sector < u64_mod
    → Resync a f r res
    → res.1 ≡ a'
    → IsValid a'
Resync-IsValid a a' f r v small (recovered b step) e =
    set-IsValid a a' step.zone (restored step.descriptor r) v
      (restored-IsSound a.sectors_per_block f step.descriptor r small step.same_start step.accepted)
      (rw (← e, step.result)) (rw (← e, step.result)) (rw (← e, step.result))
      (rw (← e, step.result))
Resync-IsValid a a' f r v small declined e = rw (← e) v

-- A recovery keeps a valid allocator valid, whatever the device reports, and so does its refusal.
pub resync-IsValid :
    (a : Allocator) (f : ℕ) (r : ZnsZone)
    → IsValid a
    → r.start_sector < u64_mod
    → IsValid (resync a f r).1
resync-IsValid a f r v small = Resync-IsValid a _ f r v small (resync-Resync a f r) refl

-- What a recovery accepts pins the report down to the failed block.
recoverable_bounds :
    (block f : ℕ) (z r : ZnsZone)
    → z.start_sector + z.capacity < u64_mod
    → recoverable block f z r ≡ true
    → (z.write_pointer ≡ f + block)
      × (f + block ≤ z.start_sector + z.capacity)
      × (z.start_sector ≤ f)
      × ((r.write_pointer ≡ f) ⊎ (r.write_pointer ≡ f + block))
unfolding recoverable
recoverable_bounds block f z r fits h = ground arith

-- An unmoved report is of a zone that still takes a block.
recoverable-can_append :
    (block f : ℕ) (z r : ZnsZone)
    → 0 < block
    → z.start_sector + z.capacity < u64_mod
    → recoverable block f z r ≡ true
    → r.write_pointer ≡ f
    → (can_append (restored z r) block ≡ true) × (is_full r.condition ≡ false)
unfolding recoverable can_append
recoverable-can_append block f z r pos fits h e = ground arith

Resync-ok :
    (a a' : Allocator) (f : ℕ) (r : ZnsZone) {res : Ret × Allocator}
    → Resync a f r res
    → res ≡ (ok, a')
    → Recovered a f r a'
Resync-ok a a' f r (recovered b step) h = subst (Recovered a f r) (ap (λ t. t.1) h) step
Resync-ok a a' f r declined h = absurd (ground arith)

-- A successful recovery touches one zone, which was exactly one block past the failed sector: it
-- goes to where the device puts it, which is the failed sector (the block was never written) or one
-- block further (it was). No other descriptor changes.
pub resync_lem :
    (a a' : Allocator) (f : ℕ) (r : ZnsZone)
    → IsValid a
    → resync a f r ≡ (ok, a')
    → (i : ℕ) × (z : ZnsZone) × (get_elem? a.zones i ≡ some z)
      × (z.write_pointer ≡ f + a.sectors_per_block)
      × ((r.write_pointer ≡ f) ⊎ (r.write_pointer ≡ f + a.sectors_per_block))
      × ((j : ℕ)
          → get_elem? a'.zones j ≡ (if j == i then some (restored z r) else get_elem? a.zones j))
resync_lem a a' f r v h =
    let step = Resync-ok a a' f r (resync-Resync a f r) h in
    let z = step.descriptor in
    let sound : IsSound z = All-get_elem? IsSound a.zones step.zone v.sound step.found in
    let bounds = recoverable_bounds a.sectors_per_block f z r sound.fits step.accepted in
    (
      step.zone,
      z,
      step.found,
      bounds.0,
      bounds.3,
      (λ j. rw step.result (
          get_elem?-set a.zones step.zone j (restored z r)
            (lt-length_of_get_elem? a.zones step.zone step.found))),
    )

resynced_cursor :
    (a : Allocator) (f k : ℕ) (z r : ZnsZone)
    → 0 < a.sectors_per_block
    → z.start_sector + z.capacity < u64_mod
    → recoverable a.sectors_per_block f z r ≡ true
    → r.write_pointer ≡ f
    → (resynced a k z r).active_zone ≡ k
unfolding recoverable
resynced_cursor a f k z r pos fits h e = ground arith

-- Space is not lost: when the report shows that the failed block was never written, the next
-- allocation hands out that same sector, unless its zone is the reserve.
pub resync_retry :
    (a a' : Allocator) (f cell : ℕ) (r : ZnsZone)
    → IsValid a
    → r.start_sector < u64_mod
    → resync a f r ≡ (ok, a')
    → r.write_pointer ≡ f
    → a'.active_zone ≢ a'.reserve_zone
    → (alloc (some a') (some cell)).0 ≡ ok × (alloc (some a') (some cell)).1 ≡ some f
resync_retry a a' f cell r v small h e ne =
    let step = Resync-ok a a' f r (resync-Resync a f r) h in
    let z = step.descriptor in
    let sound : IsSound z = All-get_elem? IsSound a.zones step.zone v.sound step.found in
    let (room, unfilled) =
      recoverable-can_append a.sectors_per_block f z r v.block_pos sound.fits step.accepted e in
    let inside : step.zone < length a.zones = lt-length_of_get_elem? a.zones step.zone step.found in
    let cursor : a'.active_zone ≡ step.zone =
      rw step.result (resynced_cursor a f step.zone z r v.block_pos sound.fits step.accepted e) in
    let v' : IsValid a' = Resync-IsValid a a' f r v small (resync-Resync a f r) (ap (λ t. t.1) h) in
    let there : get_elem? a'.zones a'.active_zone ≡ some (restored z r) =
      rw (cursor, step.result) (get_elem?-set_self a.zones step.zone (restored z r) inside) in
    let block : a'.sectors_per_block ≡ a.sectors_per_block = rw step.result refl in
    let (done, same) =
      alloc_at_cursor a' cell (restored z r) v'
        (omega (arith, v'.count, lt-length_of_get_elem? a'.zones a'.active_zone there)) there
        (rw (ne→== _ _ ne, block) room) in
    (done, same ∙ ap some e)
