-- ===== src/Lsm/Index/Moves.antt =====
-- src/engines/zns-engine-lsm.c: a published write and a recovered entry keep the two indexes of the
-- collection in agreement.
use mathlib.Core.Path.{subst}
use dm_zns_base.Prelude.{
  ℕ, zero, suc, ◌+◌, ◌≤◌, ◌<◌, ◌≡◌, refl, ◌∙◌, ap, Option, none, some, true, ◌/◌, ne→==, List, [],
  ◌∷◌, ◌==◌, ◌||◌, if◌then◌else◌, u64_mod, arith, Bool-cases, Option-cases, inl, inr, ◌⊎◌, length,
  ltb, leb,
}
use dm_zns_base.Kernel.{Errno, Ret, ok, err, fault}
use dm_zns_base.Zone.{ZnsZone, zone_end}
use dm_zns_base.Allocator.{Allocator}
use dm_zns_base.Allocator.Valid.{IsValid}
use dm_zns_base.Lsm.{bad_slot, slot_loop, physical_to_gc_slot}
use dm_zns_base.Lsm.Index.{
  XArray, GcZone, GcIndexes, slot_of, slot_at, modify, modify_at, fill_zone, clear_zone,
  encode_logical_block, decode_physical_sector, encode_physical_sector, stored, commit, check_old,
  find_old, check_new, update_gc_block_location, restore_new, gc_restore_entry,
}
use dm_zns_base.Lsm.Index.Counts.{slot_of-modify}
use dm_zns_base.Lsm.Index.Agree.{
  IsXArray, xa_limit, At, Matches-load, At-slot, Agrees, fill-Matches, clear-Matches,
}

slot_loop-answer :
    (n : ℕ) (zs : List ZnsZone) (i block p zone slot : ℕ)
    → n ≤ length zs
    → ((slot_loop n zs i block p zone slot).0 ≡ ok)
      ⊎ ((slot_loop n zs i block p zone slot).0 ≡ err Errno.einval)
unfolding slot_loop
slot_loop-answer zero zs i block p zone slot h = inr refl
slot_loop-answer (suc n) [] i block p zone slot h = absurd (omega (arith, h))
slot_loop-answer (suc n) (z ∷ zs) i block p zone slot h =
    elim (Bool-cases (ltb p z.start_sector || leb (zone_end z) p)) [
      | inl past ↦ rw past (slot_loop-answer n zs (i + 1) block p zone slot (omega (arith, h)))
      | inr within ↦ elim (Bool-cases (bad_slot z block p)) [
        | inl bad ↦ rw (within, bad) (inr refl)
        | inr good ↦ rw (within, good) (inl refl)
      ]
    ]

convert-answer :
    (a : Allocator) (block p : ℕ)
    → IsValid a
    → ((physical_to_gc_slot a block p 0 0).0 ≡ ok)
      ⊎ ((physical_to_gc_slot a block p 0 0).0 ≡ err Errno.einval)
unfolding physical_to_gc_slot
convert-answer a block p v =
    slot_loop-answer a.nr_zones a.zones 0 block p 0 0 (omega (arith, v.count))

module _ {X : Type 0} (xa : XArray X) (a : Allocator) (block : ℕ) where
  -- Why a copy of block `k` at sector `p` is refused: the sector does not start a whole written block,
  -- a block owns it, or there is no memory.
  pub data Cause (ix : GcIndexes X) (k p : ℕ) : Errno → Type 0 where
    unwritten : (physical_to_gc_slot a block p 0 0).0 ≡ err Errno.einval → Cause ix k p Errno.einval
    taken :
        (zone slot w : ℕ)
        → At a block p zone slot
        → slot_at ix.gc_zones zone slot ≡ some (suc w)
        → Cause ix k p Errno.einval
    no_store : (e : Errno) → (xa.store ix.latest k (suc p)).0 ≡ err e → Cause ix k p e

  -- What a new copy of block `k` at sector `p` leaves: the indexes agree on it and on what they
  -- recorded of every other block, or nothing that they record is changed.
  pub data Recorded (ix : GcIndexes X) (k p : ℕ) : Ret × GcIndexes X → Type 0 where
    refused :
        (e : Errno) (ix' : GcIndexes X)
        → Cause ix k p e
        → Agrees xa a block ix'
        → ix'.gc_zones ≡ ix.gc_zones
        → ix'.valid_blocks ≡ ix.valid_blocks
        → ((t : ℕ) → xa.load ix'.latest t ≡ xa.load ix.latest t)
        → Recorded ix k p (err e, ix')
    moved :
        (ix' : GcIndexes X)
        → Agrees xa a block ix'
        → ((t : ℕ) → xa.load ix'.latest t ≡ (if t == k then some (suc p) else xa.load ix.latest t))
        → Recorded ix k p (ok, ix')

  refused_at :
      (ix : GcIndexes X) (k p : ℕ) (e : Errno)
      → Cause ix k p e
      → Agrees xa a block ix
      → Recorded ix k p (err e, ix)
  refused_at ix k p e c g = Recorded.refused e ix c g refl refl (λ t. refl)

  module _ (law : IsXArray xa) (ix : GcIndexes X) (k p : ℕ) (v : IsValid a) (pos : 0 < block)
      (g : Agrees xa a block ix) (small : suc k < u64_mod) where
    below : {z s : ℕ} → At a block p z s → suc p < xa_limit
    below {z} {s} at = (At-slot (xa.load ix.latest) a block g.zones p z s v pos g.matches at).1

    -- The entries are one more than what they stand for.
    logical : encode_logical_block k ≡ suc k
    logical = omega (arith, small)

    physical : {z s : ℕ} → At a block p z s → encode_physical_sector p ≡ suc p
    physical {z} {s} at = omega (arith, below at)

    -- The indexes after a store that failed.
    store_failed :
        (e : Errno) (x : X)
        → xa.store ix.latest k (suc p) ≡ (err e, x)
        → Recorded ix k p (err e, record ix { latest = x })
    store_failed e x h =
        Recorded.refused e (record ix { latest = x })
          (Cause.no_store e (ap (λ (r : Ret × X). r.0) h))
          (record {
            zones = g.zones;
            present = g.present;
            total = g.total;
            matches = Matches-load (xa.load ix.latest) (xa.load x) a block g.zones loads g.matches;
          })
          refl refl loads
      where
        loads : (t : ℕ) → xa.load x t ≡ xa.load ix.latest t
        loads t = law.store_err ix.latest x k (suc p) t e h

    loads_stored :
        (x : X) (t : ℕ) {z s : ℕ}
        → At a block p z s
        → xa.store ix.latest k (suc p) ≡ (ok, x)
        → xa.load x t ≡ (if t == k then some (suc p) else xa.load ix.latest t)
    loads_stored x t {z} {s} at h = law.store_ok ix.latest x k (suc p) t (below at) h

    commit_new :
        (z s : ℕ)
        → At a block p z s
        → slot_of g.zones z s ≡ some 0
        → xa.load ix.latest k ≡ none
        → Recorded ix k p (commit xa a block k p none z s ix)
    commit_new z s at free new =
        rw (logical, physical at) (after (xa.store ix.latest k (suc p)) refl)
      where
        after :
            (q : Ret × X)
            → xa.store ix.latest k (suc p) ≡ q
            → Recorded ix k p (stored xa a block none z s (suc k) ix q)
        after (fault, x) h =
            absurd (law.store_defined ix.latest k (suc p) (ap (λ (r : Ret × X). r.0) h))
        after (err e, x) h = store_failed e x h
        after (ok, x) h =
            let (m, more) =
              fill-Matches (xa.load ix.latest) a block g.zones g.matches k z s (xa.load x) p new
                free at (λ t. loads_stored x t at h) in
            Recorded.moved _
              (record {
                zones = modify (fill_zone s (suc k)) g.zones z;
                present = ap (λ gs. modify_at (fill_zone s (suc k)) gs z) g.present;
                total = omega (arith, more, g.total);
                matches = m;
              })
              (λ t. loads_stored x t at h)

    commit_over :
        (z s z' s' : ℕ)
        → At a block p z s
        → slot_of g.zones z s ≡ some 0
        → slot_of g.zones z' s' ≡ some (suc k)
        → Recorded ix k p (commit xa a block k p (some (z', s')) z s ix)
    commit_over z s z' s' at free was =
        rw (logical, physical at) (after (xa.store ix.latest k (suc p)) refl)
      where
        without : ℕ → Option ℕ
        without t = if t == k then none else xa.load ix.latest t

        cleared : List GcZone
        cleared = modify (clear_zone s') g.zones z'

        still_free : slot_of cleared z s ≡ some 0
        still_free =
            slot_of-modify (clear_zone s') g.zones z' s' 0 z s (λ x. refl) was
            ∙ ground (arith, free)

        after :
            (q : Ret × X)
            → xa.store ix.latest k (suc p) ≡ q
            → Recorded ix k p (stored xa a block (some (z', s')) z s (suc k) ix q)
        after (fault, x) h =
            absurd (law.store_defined ix.latest k (suc p) (ap (λ (r : Ret × X). r.0) h))
        after (err e, x) h = store_failed e x h
        after (ok, x) h =
            let (m, less) =
              clear-Matches (xa.load ix.latest) a block g.zones g.matches k z' s' without was
                (λ t. refl) in
            let (m', more) =
              fill-Matches without a block cleared m k z s (xa.load x) p (ground arith) still_free
                at (λ t. loads_stored x t at h ∙ ground arith) in
            Recorded.moved _
              (record {
                zones = modify (fill_zone s (suc k)) cleared z;
                present =
                    ap (λ gs. modify_at (fill_zone s (suc k)) (modify_at (clear_zone s') gs z') z)
                      g.present;
                total = omega (arith, more, less, g.total);
                matches = m';
              })
              (λ t. loads_stored x t at h)

module _ {X : Type 0} (xa : XArray X) (a : Allocator) (block : ℕ) (law : IsXArray xa)
    (ix : GcIndexes X) (k p : ℕ) (v : IsValid a) (pos : 0 < block) where
  -- On an old copy whose sector converts, the slot there is the one that records the block.
  update_found :
      (z s : ℕ)
      → (g : Agrees xa a block ix) → suc k < u64_mod
      → At a block p z s
      → slot_of g.zones z s ≡ some 0
      → Recorded xa a block ix k p (find_old xa a block k p z s ix (xa.load ix.latest k))
  update_found z s g small at free = after (xa.load ix.latest k) refl
    where
      after :
          (o : Option ℕ)
          → xa.load ix.latest k ≡ o
          → Recorded xa a block ix k p (find_old xa a block k p z s ix o)
      after none h = commit_new xa a block law ix k p v pos g small z s at free h
      after (some e) h =
          let (q, is, held) = g.matches.forward k e h in
          let back : decode_physical_sector e ≡ q = omega (
            arith,
            is,
            (At-slot (xa.load ix.latest) a block g.zones q held.zone held.slot v pos g.matches
                held.at).1,
          ) in
          let there : slot_at ix.gc_zones held.zone held.slot ≡ some (suc k) =
            ap (λ gs. slot_at gs held.zone held.slot) g.present ∙ held.recorded in
          let entry : (suc k == encode_logical_block k) ≡ true = ground (arith, small) in
          rw (back, held.at, check_old, there, entry)
            (commit_over xa a block law ix k p v pos g small z s held.zone held.slot at free
              held.recorded)

  update_new :
      (r : Ret × ℕ × ℕ)
      → (g : Agrees xa a block ix) → suc k < u64_mod
      → physical_to_gc_slot a block p 0 0 ≡ r
      → (r.0 ≡ ok) ⊎ (r.0 ≡ err Errno.einval)
      → Recorded xa a block ix k p (check_new xa a block k p ix r)
  update_new (fault, z, s) g small h (inl c) = absurd (ground arith)
  update_new (fault, z, s) g small h (inr c) = absurd (ground arith)
  update_new (err e, z, s) g small h (inl c) = absurd (ground arith)
  update_new (err e, z, s) g small h (inr c) =
      refused_at xa a block ix k p e
        (subst (Cause xa a block ix k p) (ground (arith, c))
          (Cause.unwritten (ap (λ (r : Ret × ℕ × ℕ). r.0) h ∙ c)))
        g
  update_new (ok, z, s) g small h c =
      on_slot (At-slot (xa.load ix.latest) a block g.zones p z s v pos g.matches h).0
    where
      on_slot :
          (w : ℕ) × (slot_of g.zones z s ≡ some w)
          → Recorded xa a block ix k p (check_new xa a block k p ix (ok, z, s))
      on_slot (zero, free) =
          rw (check_new, ap (λ gs. slot_at gs z s) g.present ∙ free)
            (update_found z s g small h free)
      on_slot (suc w, owned) =
          rw
            (
              check_new,
              ap (λ gs. slot_at gs z s) g.present ∙ owned,
              ne→== (suc w) 0 (λ e. absurd (omega (arith, e))),
            )
            (refused_at xa a block ix k p Errno.einval
              (Cause.taken z s w h (ap (λ gs. slot_at gs z s) g.present ∙ owned)) g)

  restored_new :
      (r : Ret × ℕ × ℕ)
      → (g : Agrees xa a block ix) → suc k < u64_mod
      → xa.load ix.latest k ≡ none
      → physical_to_gc_slot a block p 0 0 ≡ r
      → (r.0 ≡ ok) ⊎ (r.0 ≡ err Errno.einval)
      → Recorded xa a block ix k p (restore_new xa a block k p ix r)
  restored_new (fault, z, s) g small new h (inl c) = absurd (ground arith)
  restored_new (fault, z, s) g small new h (inr c) = absurd (ground arith)
  restored_new (err e, z, s) g small new h (inl c) = absurd (ground arith)
  restored_new (err e, z, s) g small new h (inr c) =
      refused_at xa a block ix k p Errno.einval
        (Cause.unwritten (ap (λ (r : Ret × ℕ × ℕ). r.0) h ∙ c)) g
  restored_new (ok, z, s) g small new h c =
      on_slot (At-slot (xa.load ix.latest) a block g.zones p z s v pos g.matches h).0
    where
      on_slot :
          (w : ℕ) × (slot_of g.zones z s ≡ some w)
          → Recorded xa a block ix k p (restore_new xa a block k p ix (ok, z, s))
      on_slot (zero, free) =
          rw (restore_new, ap (λ gs. slot_at gs z s) g.present ∙ free)
            (commit_new xa a block law ix k p v pos g small z s h free new)
      on_slot (suc w, owned) =
          rw
            (
              restore_new,
              ap (λ gs. slot_at gs z s) g.present ∙ owned,
              ne→== (suc w) 0 (λ e. absurd (omega (arith, e))),
            )
            (refused_at xa a block ix k p Errno.einval
              (Cause.taken z s w h (ap (λ gs. slot_at gs z s) g.present ∙ owned)) g)

  -- While the two indexes of the collection agree, recording that block `k` now lives at sector `p`
  -- keeps them in agreement, `latest` has `p` for the block and what it had for every other one; or it
  -- fails, changes nothing that either index records, and the reason is that `p` does not start a
  -- whole written block, that a block owns its slot, or that the store has no memory. In particular
  -- the previous copy of the block is never a reason. (Conditions: a valid allocator, blocks of a
  -- sector at least, and a block number whose successor is a 64-bit number.)
  pub update_gc_block_location-Recorded :
      Agrees xa a block ix
      → suc k < u64_mod
      → Recorded xa a block ix k p (update_gc_block_location xa a block k p ix)
  unfolding update_gc_block_location
  update_gc_block_location-Recorded g small =
      update_new (physical_to_gc_slot a block p 0 0) g small refl (convert-answer a block p v)

  -- What an entry of a recovered table leaves.
  pub data Restored (logical_sectors : ℕ) : Ret × GcIndexes X → Type 0 where
    out_of_range : logical_sectors / block ≤ k → Restored logical_sectors (err Errno.einval, ix)
    older :
        (e : ℕ)
        → k < logical_sectors / block
        → xa.load ix.latest k ≡ some e
        → Restored logical_sectors (ok, ix)
    newest :
        (r : Ret × GcIndexes X)
        → k < logical_sectors / block
        → xa.load ix.latest k ≡ none
        → Recorded xa a block ix k p r
        → Restored logical_sectors r

  -- While the two indexes agree, an entry of a recovered table for a block that they already have
  -- changes nothing, and one for a new block is recorded as a write of it is, or refused without a
  -- change; an entry past the end of the device is refused. (Conditions: a valid allocator, blocks
  -- of a sector at least, and a device of fewer than 2 ^ 64 blocks.)
  pub gc_restore_entry-Restored :
      (logical_sectors : ℕ)
      → Agrees xa a block ix
      → logical_sectors / block < u64_mod
      → Restored logical_sectors (gc_restore_entry xa a block logical_sectors k p ix)
  unfolding gc_restore_entry
  gc_restore_entry-Restored logical_sectors g small =
      elim (Bool-cases (leb (logical_sectors / block) k)) [
        | inl out ↦ rw out (Restored.out_of_range (ground (arith, out)))
        | inr within ↦ elim (Option-cases (xa.load ix.latest k)) [
          | inr (e, has) ↦ rw (within, has) (Restored.older e (ground (arith, within)) has)
          | inl new ↦
              rw (within, new)
                (Restored.newest _ (ground (arith, within)) new (
                  restored_new (physical_to_gc_slot a block p 0 0) g (ground (arith, within, small))
                    new refl (convert-answer a block p v)))
        ]
      ]
