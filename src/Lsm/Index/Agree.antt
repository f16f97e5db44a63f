-- ===== src/Lsm/Index/Agree.antt =====
-- src/engines/zns-engine-lsm.c: "both indexes must agree after each published write". What agreement
-- is, and what the kernel promises of an XArray.
use native.Mathlib.Nat.{le-div_iff_mul-le}
use mathlib.Core.Path.{subst}
use mathlib.Core.Option.{some-injective}
use dm_zns_base.Prelude.{
  get_elem?, get_elem?-some, All-get_elem?, ℕ, zero, suc, ◌+◌, ◌%◌, ◌/◌, ◌^◌, ◌<◌, ◌≡◌, ◌≢◌, refl,
  sym, ◌∙◌, ap, Option, none, some, List, [], ◌∷◌, ◌==◌, ◌&&◌, if◌then◌else◌, u64_mod, arith,
  Bool-cases, inl, inr, ◌⊎◌, All,
}
use dm_zns_base.Kernel.{Errno, Ret, ok, err, fault}
use dm_zns_base.Zone.{ZnsZone}
use dm_zns_base.Allocator.{Allocator}
use dm_zns_base.Allocator.Valid.{IsValid}
use dm_zns_base.Lsm.{physical_to_gc_slot}
use dm_zns_base.Lsm.Slots.{physical_to_gc_slot-IsSlot}
use dm_zns_base.Lsm.Index.{
  XArray, GcZone, slot_in, GcIndexes, slot_of, modify, fill_zone, clear_zone,
}
use dm_zns_base.Lsm.Index.Counts.{
  IsCounted, total_valid, slot_of-modify, fill-IsCounted, clear-IsCounted,
}

-- The values that an XArray can hold.
abbrev pub xa_limit : ℕ
xa_limit = 2 ^ 63

-- A store that succeeds changes the one entry, and a store that fails changes none. It fails with an
-- error number. A reserved entry loads as before, and a store to it needs no memory.
pub record IsXArray {X : Type 0} (xa : XArray X) : Type 0 where
  pub store_ok :
      (x x' : X) (k v t : ℕ)
      → v < xa_limit
      → xa.store x k v ≡ (ok, x')
      → xa.load x' t ≡ (if t == k then some v else xa.load x t)
  pub store_err :
      (x x' : X) (k v t : ℕ) (e : Errno) → xa.store x k v ≡ (err e, x') → xa.load x' t ≡ xa.load x t
  pub store_defined : (x : X) (k v : ℕ) → (xa.store x k v).0 ≢ fault
  pub reserve_load : (x : X) (k t : ℕ) → xa.load (xa.reserve x k).1 t ≡ xa.load x t
  pub reserve_defined : (x : X) (k : ℕ) → (xa.reserve x k).0 ≢ fault
  pub reserve_store :
      (x : X) (k v : ℕ) → (xa.reserve x k).0 ≡ ok → (xa.store (xa.reserve x k).1 k v).0 ≡ ok
  pub empty_load : (t : ℕ) → xa.load xa.empty t ≡ none

-- The sector `p` starts block number `slot` of a zone, whole and written.
abbrev pub At : Allocator → ℕ → ℕ → ℕ → ℕ → Type 0
At a block p zone slot = physical_to_gc_slot a block p 0 0 ≡ (ok, zone, slot)

-- Block `k` is recorded at the sector `p`, and the slot there records block `k`.
pub record IsHeld (gs : List GcZone) (a : Allocator) (block k p : ℕ) : Type 0 where
  pub zone : ℕ
  pub slot : ℕ
  pub at : At a block p zone slot
  pub recorded : slot_of gs zone slot ≡ some (suc k)

-- The reverse map has a slot for each block of a zone, it records each block that `load` has a sector
-- for in the slot of that sector, and every used slot is the one of the sector that `load` has for its
-- block.
pub record Matches (load : ℕ → Option ℕ) (a : Allocator) (block : ℕ) (zones : List GcZone)
    : Type 0 where
  pub counted : All IsCounted zones
  pub shape :
      (i : ℕ) (z : ZnsZone)
      → get_elem? a.zones i ≡ some z
      → (g : GcZone) × (get_elem? zones i ≡ some g) × (g.nr_blocks ≡ z.capacity / block)
  pub small :
      (i : ℕ) (z : ZnsZone) → get_elem? a.zones i ≡ some z → z.start_sector + z.capacity < xa_limit
  pub forward : (k e : ℕ) → load k ≡ some e → (p : ℕ) × (e ≡ suc p) × IsHeld zones a block k p
  pub backward :
      (k zone slot : ℕ)
      → slot_of zones zone slot ≡ some (suc k)
      → (p : ℕ) × (load k ≡ some (suc p)) × At a block p zone slot

-- The two indexes match, and the number of valid blocks is that of the used slots.
pub record Agrees {X : Type 0} (xa : XArray X) (a : Allocator) (block : ℕ) (ix : GcIndexes X)
    : Type 0 where
  pub zones : List GcZone
  pub present : ix.gc_zones ≡ some zones
  pub total : ix.valid_blocks ≡ total_valid zones % u64_mod
  pub matches : Matches (xa.load ix.latest) a block zones

-- Only what `load` answers matters.
pub Matches-load :
    (load load' : ℕ → Option ℕ) (a : Allocator) (block : ℕ) (zs : List GcZone)
    → ((t : ℕ) → load' t ≡ load t)
    → Matches load a block zs
    → Matches load' a block zs
Matches-load load load' a block zs same m = record {
  counted = m.counted;
  shape = m.shape;
  small = m.small;
  forward = λ k e h. m.forward k e (sym (same k) ∙ h);
  backward = λ k zone slot h. let (p, is, at) = m.backward k zone slot h in (p, same k ∙ is, at);
}

get_elem?-modify :
    (f : GcZone → GcZone) (gs : List GcZone) (i z : ℕ) {g : GcZone}
    → ((h : GcZone) → (f h).nr_blocks ≡ h.nr_blocks)
    → get_elem? gs i ≡ some g
    → (g' : GcZone) × (get_elem? (modify f gs z) i ≡ some g') × (g'.nr_blocks ≡ g.nr_blocks)
get_elem?-modify f [] i z same h = absurd (ground arith)
get_elem?-modify f (x ∷ gs) zero zero same h =
    (f x, refl, same x ∙ ap (λ (y : GcZone). y.nr_blocks) (some-injective _ _ h))
get_elem?-modify f (x ∷ gs) zero (suc z) same h =
    (x, refl, ap (λ (y : GcZone). y.nr_blocks) (some-injective _ _ h))
get_elem?-modify f (x ∷ gs) (suc i) zero same h = (_, h, refl)
get_elem?-modify f (x ∷ gs) (suc i) (suc z) same h = get_elem?-modify f gs i z same h

-- The array keeps its shape.
shape_modify :
    (zs : List GcZone) (a : Allocator) (block : ℕ) (f : GcZone → GcZone) (z : ℕ)
    → ((i : ℕ) (d : ZnsZone)
        → get_elem? a.zones i ≡ some d
        → (g : GcZone) × (get_elem? zs i ≡ some g) × (g.nr_blocks ≡ d.capacity / block))
    → ((h : GcZone) → (f h).nr_blocks ≡ h.nr_blocks)
    → (i : ℕ) (d : ZnsZone) → get_elem? a.zones i ≡ some d
    → (g : GcZone) × (get_elem? (modify f zs z) i ≡ some g) × (g.nr_blocks ≡ d.capacity / block)
shape_modify zs a block f z shape same i d at =
    let (g, there, size) = shape i d at in
    let (g', there', size') = get_elem?-modify f zs i z same there in (g', there', size' ∙ size)

pub slot_of-get_elem? :
    (gs : List GcZone) (i s : ℕ) {g : GcZone}
    → get_elem? gs i ≡ some g
    → slot_of gs i s ≡ slot_in g.logical_blocks s
slot_of-get_elem? [] i s h = absurd (ground arith)
slot_of-get_elem? (x ∷ gs) zero s h =
    ap (λ (y : GcZone). slot_in y.logical_blocks s) (some-injective _ _ h)
slot_of-get_elem? (x ∷ gs) (suc i) s h = slot_of-get_elem? gs i s h

-- A slot of a zone of the device is in the array.
pub slot_in_shape :
    (load : ℕ → Option ℕ) (a : Allocator) (block : ℕ) (zs : List GcZone) (i s : ℕ) (z : ZnsZone)
    → Matches load a block zs
    → get_elem? a.zones i ≡ some z
    → s < z.capacity / block
    → (w : ℕ) × (slot_of zs i s ≡ some w)
slot_in_shape load a block zs i s z m at inside =
    let (g, there, size) = m.shape i z at in
    let c = All-get_elem? IsCounted zs i m.counted there in
    let (w, is) = get_elem?-some c.entries s (omega (arith, inside, size, c.size)) in
    (w, slot_of-get_elem? zs i s there ∙ (ap (λ e. slot_in e s) c.present ∙ is))

-- The slot of a sector that converts, and its bound.
pub At-slot :
    (load : ℕ → Option ℕ) (a : Allocator) (block : ℕ) (zs : List GcZone) (p i s : ℕ)
    → IsValid a
    → 0 < block
    → Matches load a block zs
    → At a block p i s
    → ((w : ℕ) × (slot_of zs i s ≡ some w)) × (suc p < xa_limit)
At-slot load a block zs p i s v pos m at =
    let (z, there, inside) = physical_to_gc_slot-IsSlot a block p 0 0 v at in
    let room : s < z.capacity / block =
      (le-div_iff_mul-le pos).1 (grind (arith, inside.starts, inside.inside)) in
    (
      slot_in_shape load a block zs i s z m there room,
      omega (arith, m.small i z there, inside.inside, pos),
    )

module _ (load : ℕ → Option ℕ) (a : Allocator) (block : ℕ) (zs : List GcZone)
    (m : Matches load a block zs) where
  -- A sector has one slot.
  At-unique : (p : ℕ) {z s z' s' : ℕ} → At a block p z s → At a block p z' s' → (z ≡ z') × (s ≡ s')
  At-unique p {z} {s} {z'} {s'} h h' =
      let e : (ok, z, s) ≡ (ok, z', s') = sym h ∙ h' in
      (ap (λ (r : Ret × ℕ × ℕ). r.1) e, ap (λ (r : Ret × ℕ × ℕ). r.2) e)

  -- A block has one slot.
  slot_unique :
      (k : ℕ) {z s z' s' : ℕ}
      → slot_of zs z s ≡ some (suc k)
      → slot_of zs z' s' ≡ some (suc k)
      → (z ≡ z') × (s ≡ s')
  slot_unique k {z} {s} {z'} {s'} h h' =
      let (p, is, at) = m.backward k z s h in
      let (p', is', at') = m.backward k z' s' h' in
      At-unique p at
        (subst (λ q. At a block q z' s') (omega (arith, some-injective _ _ (sym is' ∙ is))) at')

  -- After a change of slot `s` of zone `z` to `entry`: what is used now, and what is kept.
  module _ (z s entry old : ℕ) (zs' : List GcZone) (was : slot_of zs z s ≡ some old)
      (reads : (y t : ℕ)
        → slot_of zs' y t ≡ (if (y == z) && (t == s) then some entry else slot_of zs y t)) where
    used_now :
        (y t v : ℕ)
        → slot_of zs' y t ≡ some v
        → ((y ≡ z) × (t ≡ s) × (entry ≡ v)) ⊎ (slot_of zs y t ≡ some v)
    used_now y t v h = elim (Bool-cases ((y == z) && (t == s))) [
      | inl same ↦ inl (
        ground (arith, same),
        ground (arith, same),
        some-injective _ _ (ground (arith, reads y t, h, same)),
      )
      | inr other ↦ inr (ground (arith, reads y t, h, other))
    ]

    kept : (y t w : ℕ) → slot_of zs y t ≡ some w → w ≢ old → slot_of zs' y t ≡ some w
    kept y t w h ne = elim (Bool-cases ((y == z) && (t == s))) [
      | inl same ↦
          let at_z : y ≡ z = ground (arith, same) in
          let at_s : t ≡ s = ground (arith, same) in
          absurd (
            ne (
              some-injective _ _
                (sym h ∙ (ap (λ x. slot_of zs x t) at_z ∙ (ap (slot_of zs z) at_s ∙ was)))))
      | inr other ↦ reads y t ∙ (ground (arith, other) ∙ h)
    ]

    IsHeld-kept : (t q : ℕ) → suc t ≢ old → IsHeld zs a block t q → IsHeld zs' a block t q
    IsHeld-kept t q ne h = record {
      zone = h.zone;
      slot = h.slot;
      at = h.at;
      recorded = kept h.zone h.slot (suc t) h.recorded ne;
    }

  module _ (k z s : ℕ) (load' : ℕ → Option ℕ) where
    -- A block without a slot takes a free one.
    pub fill-Matches :
        (p : ℕ)
        → load k ≡ none
        → slot_of zs z s ≡ some 0
        → At a block p z s
        → ((t : ℕ) → load' t ≡ (if t == k then some (suc p) else load t))
        → Matches load' a block (modify (fill_zone s (suc k)) zs z)
          × (total_valid (modify (fill_zone s (suc k)) zs z) ≡ suc (total_valid zs))
    fill-Matches p new free at loads = (
      record {
        counted = (fill-IsCounted zs z s (suc k) m.counted free (λ e. absurd (omega (arith, e)))).0;
        shape = shape_modify zs a block (fill_zone s (suc k)) z m.shape (λ g. refl);
        small = m.small;
        forward = forward;
        backward = backward;
      },
      (fill-IsCounted zs z s (suc k) m.counted free (λ e. absurd (omega (arith, e)))).1,
    )
      where
        zs' : List GcZone
        zs' = modify (fill_zone s (suc k)) zs z

        reads :
            (y t : ℕ)
            → slot_of zs' y t ≡ (if (y == z) && (t == s) then some (suc k) else slot_of zs y t)
        reads y t = slot_of-modify (fill_zone s (suc k)) zs z s (suc k) y t (λ g. refl) free

        forward : (t e : ℕ) → load' t ≡ some e → (q : ℕ) × (e ≡ suc q) × IsHeld zs' a block t q
        forward t e h = elim (Bool-cases (t == k)) [
          | inl same ↦ (
            p,
            some-injective _ _ (sym h ∙ (loads t ∙ ground (arith, same))),
            record { zone = z; slot = s; at = at; recorded = reads z s ∙ ground (arith, same) },
          )
          | inr other ↦
              let (q, is, held) = m.forward t e (ground (arith, loads t, h, other)) in
              (
                q,
                is,
                IsHeld-kept z s (suc k) 0 zs' free reads t q (λ x. absurd (omega (arith, x))) held,
              )
        ]

        backward :
            (t zone slot : ℕ)
            → slot_of zs' zone slot ≡ some (suc t)
            → (q : ℕ) × (load' t ≡ some (suc q)) × At a block q zone slot
        backward t zone slot h = elim (used_now z s (suc k) 0 zs' free reads zone slot (suc t) h) [
          | inl (at_z, at_s, is) ↦ (
            p,
            loads t ∙ ground (arith, is),
            subst (λ x. At a block p x slot) (sym at_z) (subst (At a block p z) (sym at_s) at),
          )
          | inr before ↦
              let (q, is, there) = m.backward t zone slot before in
              (q, loads t ∙ ground (arith, is, new), there)
        ]

    -- The copy of a block gives up its slot.
    pub clear-Matches :
        slot_of zs z s ≡ some (suc k)
        → ((t : ℕ) → load' t ≡ (if t == k then none else load t))
        → Matches load' a block (modify (clear_zone s) zs z)
          × (suc (total_valid (modify (clear_zone s) zs z)) ≡ total_valid zs)
    clear-Matches was loads = (
      record {
        counted = (clear-IsCounted zs z s (suc k) m.counted was (λ e. absurd (omega (arith, e)))).0;
        shape = shape_modify zs a block (clear_zone s) z m.shape (λ g. refl);
        small = m.small;
        forward = forward;
        backward = backward;
      },
      (clear-IsCounted zs z s (suc k) m.counted was (λ e. absurd (omega (arith, e)))).1,
    )
      where
        zs' : List GcZone
        zs' = modify (clear_zone s) zs z

        reads :
            (y t : ℕ) → slot_of zs' y t ≡ (if (y == z) && (t == s) then some 0 else slot_of zs y t)
        reads y t = slot_of-modify (clear_zone s) zs z s 0 y t (λ g. refl) was

        forward : (t e : ℕ) → load' t ≡ some e → (q : ℕ) × (e ≡ suc q) × IsHeld zs' a block t q
        forward t e h = elim (Bool-cases (t == k)) [
          | inl same ↦ absurd (ground (arith, loads t, h, same))
          | inr other ↦
              let (q, is, held) = m.forward t e (ground (arith, loads t, h, other)) in
              (
                q,
                is,
                IsHeld-kept z s 0 (suc k) zs' was reads t q (λ x. absurd (ground (arith, x, other)))
                    held,
              )
        ]

        backward :
            (t zone slot : ℕ)
            → slot_of zs' zone slot ≡ some (suc t)
            → (q : ℕ) × (load' t ≡ some (suc q)) × At a block q zone slot
        backward t zone slot h = elim (used_now z s 0 (suc k) zs' was reads zone slot (suc t) h) [
          | inl (at_z, at_s, is) ↦ absurd (omega (arith, is))
          | inr before ↦
              let (q, is, there) = m.backward t zone slot before in
              elim (Bool-cases (t == k)) [
                | inl same ↦
                    let (at_z, at_s) =
                      slot_unique k
                        (subst (λ x. slot_of zs zone slot ≡ some (suc x)) (ground (arith, same))
                          before)
                        was in
                    absurd (ground (arith, reads zone slot, h, at_z, at_s))
                | inr other ↦ (q, loads t ∙ (ground (arith, other) ∙ is), there)
              ]
        ]
