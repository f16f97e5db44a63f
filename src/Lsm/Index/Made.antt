-- ===== src/Lsm/Index/Made.antt =====
-- src/engines/zns-engine-lsm.c: `zns_lsm_gc_map_init` makes two indexes that agree on nothing at all.
use native.Mathlib.Nat.{div-le_self}
use mathlib.Core.Path.{subst}
use mathlib.Core.Option.{some-injective}
use dm_zns_base.Prelude.{
  ℕ, zero, suc, ◌+◌, ◌/◌, ◌<◌, ◌≡◌, refl, sym, ap, none, some, List, [], ◌∷◌, u64_mod, arith,
  Bool-cases, inl, inr, length, get_elem?, replicate, length-replicate, All,
}
use dm_zns_base.Kernel.{Errno, Ret, ok, err, Grants}
use dm_zns_base.Zone.{ZnsZone}
use dm_zns_base.Allocator.{Allocator}
use dm_zns_base.Allocator.Valid.{IsSound, IsValid}
use dm_zns_base.Lsm.Index.{XArray, GcZone, GcIndexes, slot_of, fill_maps, with_maps, gc_map_init}
use dm_zns_base.Lsm.Index.Counts.{used, IsCounted, total_valid}
use dm_zns_base.Lsm.Index.Agree.{IsXArray, xa_limit, Agrees}

used-replicate : (n : ℕ) → used (replicate n 0) ≡ 0
used-replicate zero = refl
used-replicate (suc n) = ground (arith, used-replicate n)

get_elem?-zeros : (n s : ℕ) {w : ℕ} → get_elem? (replicate n 0) s ≡ some w → w ≡ 0
get_elem?-zeros zero s h = absurd (ground arith)
get_elem?-zeros (suc n) zero h = sym (some-injective _ _ h)
get_elem?-zeros (suc n) (suc s) h = get_elem?-zeros n s h

abbrev empty_zone : ℕ → GcZone
empty_zone nr_blocks = record {
  logical_blocks = some (replicate nr_blocks 0);
  nr_blocks = nr_blocks;
  nr_valid_blocks = 0;
}

-- The arrays that a run of the loop leaves: one for each zone, and no slot in use.
record AllEmpty (zs : List ZnsZone) (block : ℕ) (gs : List GcZone) : Type 0 where
  counted : All IsCounted gs
  sizes :
      (i : ℕ) (z : ZnsZone)
      → get_elem? zs i ≡ some z
      → (g : GcZone) × (get_elem? gs i ≡ some g) × (g.nr_blocks ≡ z.capacity / block)
  unused : (i s : ℕ) {w : ℕ} → slot_of gs i s ≡ some w → w ≡ 0
  total : total_valid gs ≡ 0

empty_zone-IsCounted : (n : ℕ) → n < u64_mod → IsCounted (empty_zone n)
empty_zone-IsCounted n small = record {
  entries = replicate n 0;
  present = refl;
  size = length-replicate n 0;
  small = small;
  count = sym (used-replicate n);
}

-- The loop ends, with every array or for want of memory.
data Mapped (zs : List ZnsZone) (block : ℕ) : Ret × List GcZone × ℕ → Type 0 where
  no_memory : (gs : List GcZone) (n : ℕ) → Mapped zs block (err Errno.enomem, gs, n)
  made : (gs : List GcZone) (n : ℕ) → AllEmpty zs block gs → Mapped zs block (ok, gs, n)

cons-AllEmpty :
    (z : ZnsZone) (zs : List ZnsZone) (block : ℕ) (gs : List GcZone)
    → z.capacity < u64_mod
    → AllEmpty zs block gs
    → AllEmpty (z ∷ zs) block (empty_zone (z.capacity / block) ∷ gs)
cons-AllEmpty z zs block gs small e = record {
  counted =
      (empty_zone-IsCounted _ (omega (arith, div-le_self z.capacity block, small)), e.counted);
  sizes = sizes;
  unused = unused;
  total = omega (arith, e.total);
}
  where
    sizes :
        (i : ℕ) (y : ZnsZone)
        → get_elem? (z ∷ zs) i ≡ some y
        → (g : GcZone) × (get_elem? (empty_zone (z.capacity / block) ∷ gs) i ≡ some g)
          × (g.nr_blocks ≡ y.capacity / block)
    sizes zero y h = (_, refl, ap (λ (x : ZnsZone). x.capacity / block) (some-injective _ _ h))
    sizes (suc i) y h = e.sizes i y h

    unused : (i s : ℕ) {w : ℕ} → slot_of (empty_zone (z.capacity / block) ∷ gs) i s ≡ some w → w ≡ 0
    unused zero s h = get_elem?-zeros (z.capacity / block) s h
    unused (suc i) s h = e.unused i s h

fill_maps-Mapped :
    (grants : Grants) (block : ℕ) (zs : List ZnsZone) (n : ℕ)
    → All IsSound zs
    → Mapped zs block (fill_maps grants (length zs) block zs n)
unfolding fill_maps
fill_maps-Mapped grants block [] n sound = Mapped.made [] n (record {
  counted = tt;
  sizes = λ i z h. absurd (ground arith);
  unused = λ i s h. absurd (ground arith);
  total = refl;
})
fill_maps-Mapped grants block (z ∷ zs) n sound = elim (Bool-cases (grants n)) [
  | inr refused ↦ rw refused (Mapped.no_memory _ _)
  | inl granted ↦ rw granted (with_first _ (fill_maps-Mapped grants block zs (suc n) sound.1))
]
  where
    with_first :
        (r : Ret × List GcZone × ℕ)
        → Mapped zs block r
        → Mapped (z ∷ zs) block (r.0, empty_zone (z.capacity / block) ∷ r.1, r.2)
    with_first _ (Mapped.no_memory gs n') = Mapped.no_memory _ n'
    with_first _ (Mapped.made gs n' e) =
        Mapped.made _ n' (cons-AllEmpty z zs block gs (omega (arith, sound.0.fits)) e)

module _ {X : Type 0} (xa : XArray X) (law : IsXArray xa) (a : Allocator) (block : ℕ) where
  -- The initialisation ends with indexes that agree, or for want of memory.
  pub data Initialised : Ret × GcIndexes X × ℕ → Type 0 where
    no_memory : (ix : GcIndexes X) (n : ℕ) → Initialised (err Errno.enomem, ix, n)
    made :
        (ix : GcIndexes X) (n : ℕ)
        → Agrees xa a block ix
        → ((k : ℕ) → xa.load ix.latest k ≡ none)
        → Initialised (ok, ix, n)

  -- On a valid allocator, whose zones end below 2 ^ 63, the initialisation of the reverse map beside an
  -- empty `latest` gives two indexes that agree and record no block, or fails for want of memory.
  pub gc_map_init-Initialised :
      (grants : Grants) (n : ℕ)
      → IsValid a
      → ((i : ℕ) (z : ZnsZone)
          → get_elem? a.zones i ≡ some z
          → z.start_sector + z.capacity < xa_limit)
      → Initialised (
          gc_map_init grants a block
            (record { gc_zones = none; latest = xa.empty; valid_blocks = 0 })
            n)
  unfolding gc_map_init
  gc_map_init-Initialised grants n v small = elim (Bool-cases (grants n)) [
    | inr refused ↦ rw refused (Initialised.no_memory _ _)
    | inl granted ↦ rw granted (
        mapped _ (
          subst (λ nr. Mapped a.zones block (fill_maps grants nr block a.zones (suc n))) v.count
            (fill_maps-Mapped grants block a.zones (suc n) v.sound)))
  ]
    where
      start : GcIndexes X
      start = record { gc_zones = none; latest = xa.empty; valid_blocks = 0 }

      mapped :
          (r : Ret × List GcZone × ℕ) → Mapped a.zones block r → Initialised (with_maps start r)
      mapped _ (Mapped.no_memory gs n') = Initialised.no_memory _ n'
      mapped _ (Mapped.made gs n' e) =
          Initialised.made _ n'
            (record {
              zones = gs;
              present = refl;
              total = omega (arith, e.total);
              matches = record {
                counted = e.counted;
                shape = e.sizes;
                small = small;
                forward = λ k w h. absurd (ground (arith, law.empty_load k, h));
                backward = λ k zone slot h. absurd (omega (arith, e.unused zone slot h));
              };
            })
            law.empty_load
