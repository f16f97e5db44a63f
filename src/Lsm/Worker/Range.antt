-- ===== src/Lsm/Worker/Range.antt =====
-- src/engines/zns-engine-lsm.c: which requests `zns_engine_map` accepts.
use native.Mathlib.Nat.{div-add-mod', div-lt_iff_lt-mul, le-div_iff_mul-le}
use dm_zns_base.Prelude.{
  ℕ, suc, ◌+◌, ◌*◌, ◌/◌, ◌%◌, ◌≤◌, ◌<◌, ◌≡◌, refl, Bool, true, false, List, [], ◌∷◌, ◌++◌, some,
  if◌then◌else◌, arith, Bool-cases, inl, inr, ◌⊎◌,
}
use dm_zns_base.Engine.{BioOp, MapIo}
use dm_zns_base.Lsm.State.{ZnsLsm}
use dm_zns_base.Lsm.Request.{LsmBio, bio_sectors}
use dm_zns_base.Lsm.Worker.{queue_io, out_of_range, map_request, engine_map}

-- Whole sectors of the device, one at least.
pub record IsInside (logical_sectors : ℕ) (bio : LsmBio) : Type 0 where
  pub whole : bio.size ≡ bio_sectors bio * 512
  pub some_sector : 0 < bio_sectors bio
  pub inside : bio.sector + bio_sectors bio ≤ logical_sectors

-- Every block that the request touches is a block of the device.
abbrev pub BlocksInside : ℕ → ℕ → LsmBio → Type 0
BlocksInside logical_sectors block bio =
    (x : ℕ)
    → bio.sector ≤ x
    → x < bio.sector + bio_sectors bio
    → suc (x / block) * block ≤ logical_sectors

abbrev pub IsTransfer : BioOp → Type 0
IsTransfer op = (op ≡ BioOp.read) ⊎ (op ≡ BioOp.write)

-- How `zns_engine_map` answers: a flush waits, a read or a write of the device waits, and any other
-- request is killed and waits nowhere.
pub data Mapped (granted : Bool) (logical_sectors block : ℕ) (waiting : List LsmBio) (bio : LsmBio)
    : MapIo × List LsmBio → Type 0 where
  flush_waits :
      bio.op ≡ BioOp.flush
      → Mapped granted logical_sectors block waiting bio (MapIo.submitted, waiting ++ (bio ∷ []))
  waits :
      IsTransfer bio.op
      → IsInside logical_sectors bio
      → BlocksInside logical_sectors block bio
      → Mapped granted logical_sectors block waiting bio (MapIo.submitted, waiting ++ (bio ∷ []))
  killed :
      (granted ≡ true
        → (bio.op ≡ BioOp.flush) ⊎ (IsTransfer bio.op × IsInside logical_sectors bio)
        → ⊥)
      → Mapped granted logical_sectors block waiting bio (MapIo.kill, waiting)

block_inside :
    (logical_sectors block x : ℕ)
    → 0 < block
    → logical_sectors % block ≡ 0
    → x < logical_sectors
    → suc (x / block) * block ≤ logical_sectors
block_inside logical_sectors block x pos whole lt =
    let multiple : logical_sectors / block * block ≡ logical_sectors =
      omega (arith, div-add-mod' logical_sectors block, whole) in
    let before : x / block < logical_sectors / block =
      (div-lt_iff_lt-mul pos).1 (omega (arith, multiple, lt)) in
    (le-div_iff_mul-le pos).0 (omega (arith, before))

in_range :
    (logical_sectors : ℕ) (bio : LsmBio)
    → out_of_range logical_sectors bio ≡ false
    → IsInside logical_sectors bio
in_range logical_sectors bio h = record {
  whole = ground (arith, h);
  some_sector = ground (arith, h);
  inside = ground (arith, h);
}

out_range :
    (logical_sectors : ℕ) (bio : LsmBio)
    → out_of_range logical_sectors bio ≡ true
    → IsInside logical_sectors bio
    → ⊥
out_range logical_sectors bio h v = ground (arith, h, v.whole, v.some_sector, v.inside)

flush_no_transfer : (op : BioOp) → op ≡ BioOp.flush → IsTransfer op → ⊥
flush_no_transfer op e (inl read) = ground (arith, e, read)
flush_no_transfer op e (inr write) = ground (arith, e, write)

other_no_transfer : (op : BioOp) → op ≡ BioOp.other_op → IsTransfer op → ⊥
other_no_transfer op e (inl read) = ground (arith, e, read)
other_no_transfer op e (inr write) = ground (arith, e, write)

-- A read or a write that `zns_engine_map` lets through has whole sectors, all of them in the device,
-- and so is every block that it touches; it waits behind the requests before it, as a flush does. It
-- kills every other request, and with memory no other one. (Conditions: the device is a whole number
-- of blocks.)
pub engine_map-Mapped :
    {D X : Type 0} (granted : Bool) (s : ZnsLsm D X) (waiting : List LsmBio) (bio : LsmBio)
    → 0 < s.sectors_per_block
    → s.super.logical_sectors % s.sectors_per_block ≡ 0
    → Mapped granted s.super.logical_sectors s.sectors_per_block waiting bio
        (engine_map granted (some s) waiting bio)
unfolding engine_map
engine_map-Mapped granted s waiting bio pos whole = by_op bio.op refl
  where
    queued :
        IsTransfer bio.op
        → Mapped granted s.super.logical_sectors s.sectors_per_block waiting bio (
            if out_of_range s.super.logical_sectors bio
            then (MapIo.kill, waiting)
            else queue_io granted waiting bio)
    queued transfer = elim (Bool-cases (out_of_range s.super.logical_sectors bio)) [
      | inl out ↦ rw out (
          Mapped.killed (λ memory ok. elim ok [
            | inl flush ↦ flush_no_transfer bio.op flush transfer
            | inr (_, inside) ↦ out_range s.super.logical_sectors bio out inside
          ]))
      | inr within ↦
          let inside = in_range s.super.logical_sectors bio within in
          rw within (elim (Bool-cases granted) [
            | inl memory ↦ rw memory (
                Mapped.waits transfer inside (λ x above below.
                  block_inside s.super.logical_sectors s.sectors_per_block x pos whole
                    (omega (arith, below, inside.inside))))
            | inr refused ↦ rw refused (Mapped.killed (λ memory ok. ground (arith, memory)))
          ])
    ]

    by_op :
        (op : BioOp)
        → bio.op ≡ op
        → Mapped granted s.super.logical_sectors s.sectors_per_block waiting bio
            (map_request granted s.super.logical_sectors waiting bio op)
    by_op BioOp.read e = queued (inl e)
    by_op BioOp.write e = queued (inr e)
    by_op BioOp.flush e = elim (Bool-cases granted) [
      | inl memory ↦ rw memory (Mapped.flush_waits e)
      | inr refused ↦ rw refused (Mapped.killed (λ memory ok. ground (arith, memory)))
    ]
    by_op BioOp.other_op e = Mapped.killed (λ memory ok. elim ok [
      | inl flush ↦ ground (arith, e, flush)
      | inr (transfer, _) ↦ other_no_transfer bio.op e transfer
    ])
