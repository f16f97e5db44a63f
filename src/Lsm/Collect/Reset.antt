-- ===== src/Lsm/Collect/Reset.antt =====
-- src/engines/zns-engine-lsm.c: the reset of a zone without live blocks, which becomes the reserve.
use native.Mathlib.Nat.{mul-div_cancel, mod-eq_of_lt, add-mul-mod_self_right}
use mathlib.Core.Option
use mathlib.Core.Path.{subst}
use mathlib.Core.Option.{some-injective}
use dm_zns_base.Prelude.{
  ℕ, zero, suc, ◌+◌, ◌-◌, ◌/◌, ◌%◌, ◌≤◌, ◌<◌, ◌≡◌, ◌≢◌, refl, sym, ◌∙◌, ap, true, false, Option,
  some, List, ◌==◌, ltb, leb, ◌||◌, length, get_elem?, set, arith, Bool-cases, Option-cases, inl,
  inr, ◌⊎◌, [], ◌∷◌, All-get_elem?, lt-length_of_get_elem?, get_elem?-set_self, get_elem?-set_ne,
}
use dm_zns_base.Kernel.{ok}
use dm_zns_base.Zone.{ZnsZone, is_full, can_append}
use dm_zns_base.Block.{Block}
use dm_zns_base.Allocator.{Allocator, set_reserve_after_reset}
use dm_zns_base.Allocator.Valid.{IsSound, IsValid}
use dm_zns_base.Allocator.Reserve.{
  emptied, after_reset, set_reserve_after_reset-ok, set_reserve_after_reset_lem,
}
use dm_zns_base.Lsm.{bad_slot, physical_to_gc_slot}
use dm_zns_base.Lsm.Slots.{IsSlot, physical_to_gc_slot-IsSlot}
use dm_zns_base.Lsm.Index.{GcZone, slot_of, slot_in}
use dm_zns_base.Lsm.Index.Counts.{used, IsCounted}
use dm_zns_base.Lsm.Index.Agree.{At, Matches, slot_of-get_elem?}
use dm_zns_base.Lsm.State.{Env, ZnsLsm}
use dm_zns_base.Lsm.Publish.Fresh.{IsTidy, Inside, Spans, slot_loop-at}
use dm_zns_base.Lsm.Collect.Whole.{IsWhole, located, data_of}

used-none : (xs : List ℕ) (s k : ℕ) → used xs ≡ 0 → get_elem? xs s ≡ some (suc k) → ⊥
used-none [] s k e h = absurd (ground (arith, h))
used-none (x ∷ xs) zero k e h = absurd (ground (arith, e, h))
used-none (x ∷ xs) (suc s) k e h = used-none xs s k (ground (arith, e)) h

-- A zone whose count is 0 has no used slot.
pub unused :
    (gs : List GcZone) (id s k : ℕ) (g : GcZone)
    → IsCounted g
    → get_elem? gs id ≡ some g
    → g.nr_valid_blocks ≡ 0
    → slot_of gs id s ≡ some (suc k)
    → ⊥
unused gs id s k g c at none_left h =
    used-none c.entries s k (sym c.count ∙ none_left)
      (sym (slot_of-get_elem? gs id s at ∙ ap (λ e. slot_in e s) c.present) ∙ h)

good_of_IsSlot :
    (z : ZnsZone) (block q s : ℕ)
    → 0 < block
    → IsSound z
    → IsSlot z block q s
    → bad_slot z block q ≡ false
good_of_IsSlot z block q s pos sound slot =
    let whole : (q - z.start_sector) % block ≡ 0 =
      ap (λ n. n % block) (omega (arith, slot.starts))
      ∙ (add-mul-mod_self_right 0 s block ∙ mod-eq_of_lt pos) in
    elim (Bool-cases (is_full z.condition)) [
      | inl full ↦ ground (arith, whole, slot.inside, sound.fits, full)
      | inr open_zone ↦ ground (arith, whole, slot.inside, sound.fits, slot.written open_zone)
    ]

-- A sector that starts a whole written block converts.
pub At-IsSlot :
    (a : Allocator) (block q i s : ℕ) (z : ZnsZone)
    → 0 < block
    → IsValid a
    → IsTidy a
    → get_elem? a.zones i ≡ some z
    → IsSlot z block q s
    → At a block q i s
unfolding physical_to_gc_slot
At-IsSlot a block q i s z pos v tidy at slot =
    slot_loop-at a.nr_zones a.zones 0 i block q 0 0 z
      (omega (arith, lt-length_of_get_elem? a.zones i at, v.count)) v.sound at
      (λ m y less h inside'.
        let here : Inside z q = (omega (arith, slot.starts), omega (arith, slot.inside, pos)) in
        let spans : Spans z q = (here.0, omega (arith, here, tidy.short i z at)) in
        absurd (omega (arith, less, tidy.apart m i y z q h at inside' spans)))
      (omega (arith, slot.starts), omega (arith, slot.inside, pos))
      (good_of_IsSlot z block q s pos (All-get_elem? IsSound a.zones i v.sound at) slot)
    ∙ (ap (λ x. (ok, x, (q - z.start_sector) / block)) (omega arith)
        ∙ ap (λ x. (ok, i, x))
            (ap (λ n. n / block) (omega (arith, slot.starts)) ∙ mul-div_cancel s pos))

-- A reset changes at most the sectors of the zone, whether it succeeds or not.
abbrev pub IsResetConfined : {D X : Type 0} → Env D X → (D → ℕ → Block) → Type 0
IsResetConfined {D} env content =
    (disk : D) (start len x : ℕ)
    → (x < start) ⊎ (start + len ≤ x)
    → content (env.zone_reset disk start len).1 x ≡ content disk x

module _ {D X : Type 0} (env : Env D X) (content : D → ℕ → Block) (base : ℕ → Option ℕ)
    (s : ZnsLsm D X) (w : IsWhole env content base s) (id : ℕ) (z : ZnsZone)
    (at : get_elem? s.allocator.zones id ≡ some z)
    (unused_zone : (slot k : ℕ) → slot_of w.ready.agree.zones id slot ≡ some (suc k) → ⊥) where
  -- Where a block is: in a zone other than the one without blocks.
  elsewhere :
      (k q : ℕ)
      → located env content base s k ≡ some q
      → (i : ℕ) × (slot : ℕ) × (y : ZnsZone) × (i ≢ id)
        × (get_elem? s.allocator.zones i ≡ some y)
        × IsSlot y s.sectors_per_block q slot
  elsewhere k q h =
      let (q', is, held) =
        w.ready.agree.matches.forward k (suc q) (w.known k ∙ ap (Option.map suc) h) in
      let (y, there, slot) =
        physical_to_gc_slot-IsSlot s.allocator s.sectors_per_block q' 0 0 w.ready.zones held.at in
      (
        held.zone,
        held.slot,
        y,
        (λ e.
            unused_zone held.slot k (
              subst (λ i. slot_of w.ready.agree.zones i held.slot ≡ some (suc k)) e held.recorded)),
        there,
        subst (λ x. IsSlot y s.sectors_per_block x held.slot) (omega (arith, is)) slot,
      )

  -- No block is in the range that a reset clears.
  outside :
      (k q : ℕ)
      → located env content base s k ≡ some q
      → (q < z.start_sector) ⊎ (z.start_sector + z.length ≤ q)
  outside k q h =
      let (i, slot, y, ne, there, is) = elsewhere k q h in
      elim (Bool-cases (ltb q z.start_sector || leb (z.start_sector + z.length) q)) [
        | inl out ↦ ground (arith, out)
        | inr within ↦ absurd (
            ne (
              w.tidy.apart i id y z q there at
                (
                  omega (arith, is.starts),
                  omega (arith, is.inside, w.ready.zones.block_pos, w.ready.same_block),
                )
                (ground (arith, within), ground (arith, within))))
      ]

  pub reset_allocator : Allocator
  reset_allocator = after_reset s.allocator id z

  -- The other zones are as they were.
  other_zone : (i : ℕ) → i ≢ id → get_elem? reset_allocator.zones i ≡ get_elem? s.allocator.zones i
  unfolding reset_allocator
  other_zone i ne = get_elem?-set_ne s.allocator.zones id i (emptied z) (λ e. ne (sym e))

  -- Each zone has the place of the one before.
  placed :
      (i : ℕ) (x : ZnsZone)
      → get_elem? reset_allocator.zones i ≡ some x
      → (y : ZnsZone) × (get_elem? s.allocator.zones i ≡ some y)
        × (x.start_sector ≡ y.start_sector)
        × (x.capacity ≡ y.capacity)
        × (x.length ≡ y.length)
        × ((x ≡ y) ⊎ (x ≡ emptied y))
  unfolding reset_allocator
  placed i x h = elim (Bool-cases (i == id)) [
    | inr other ↦ (
      x,
      sym (other_zone i (λ e. absurd (ground (arith, e, other)))) ∙ h,
      refl,
      refl,
      refl,
      inl refl,
    )
    | inl same ↦
        let i_id : i ≡ id = ground (arith, same) in
        let here : emptied z ≡ x = some-injective _ _ (
          sym (
            get_elem?-set_self s.allocator.zones id (emptied z)
              (lt-length_of_get_elem? s.allocator.zones id at))
          ∙ (ap (get_elem? (set s.allocator.zones id (emptied z))) (sym i_id) ∙ h)) in
        (
          z,
          ap (get_elem? s.allocator.zones) i_id ∙ at,
          ap (λ (v : ZnsZone). v.start_sector) (sym here),
          ap (λ (v : ZnsZone). v.capacity) (sym here),
          ap (λ (v : ZnsZone). v.length) (sym here),
          inr (sym here),
        )
  ]

  reset-IsTidy : IsTidy reset_allocator
  unfolding reset_allocator
  reset-IsTidy = record {
    short = λ i x h.
        let (y, there, _, capacity, length, _) = placed i x h in
        omega (arith, w.tidy.short i y there, capacity, length);
    apart = λ i j x x' p h h' inside spans.
        let (y, there, start, capacity, _, _) = placed i x h in
        let (y', there', start', _, length', _) = placed j x' h' in
        w.tidy.apart i j y y' p there there' (omega (arith, start, capacity, inside))
          (omega (arith, start', length', spans));
    aligned = λ i x h room. aligned i x (placed i x h) room;
  }
    where
      aligned :
          (i : ℕ) (x : ZnsZone)
          → (y : ZnsZone) × (get_elem? s.allocator.zones i ≡ some y)
            × (x.start_sector ≡ y.start_sector)
            × (x.capacity ≡ y.capacity)
            × (x.length ≡ y.length)
            × ((x ≡ y) ⊎ (x ≡ emptied y))
          → can_append x s.allocator.sectors_per_block ≡ true
          → (x.write_pointer - x.start_sector) % s.allocator.sectors_per_block ≡ 0
      aligned i x (y, there, _, _, _, inl same) room =
          w.tidy.aligned i x (there ∙ ap some (sym same)) room
      aligned i x (y, there, _, _, _, inr same) room =
          subst (λ v. (v.write_pointer - v.start_sector) % s.allocator.sectors_per_block ≡ 0)
            (sym same)
            (ap (λ n. n % s.allocator.sectors_per_block) (omega arith)
              ∙ mod-eq_of_lt w.ready.zones.block_pos)

  module _ (ne : id ≢ s.allocator.reserve_zone) where
    in_array : id < s.allocator.nr_zones
    in_array = omega (arith, lt-length_of_get_elem? s.allocator.zones id at, w.ready.zones.count)

    pub reset_answer : set_reserve_after_reset (some s.allocator) id ≡ (ok, some reset_allocator)
    unfolding reset_allocator
    reset_answer = set_reserve_after_reset-ok s.allocator id z in_array ne at

    reset-IsValid : IsValid reset_allocator
    reset-IsValid =
        (set_reserve_after_reset_lem s.allocator id w.ready.zones in_array ne z reset_allocator at
          reset_answer).2

    reset-same_block : reset_allocator.sectors_per_block ≡ s.allocator.sectors_per_block
    unfolding reset_allocator
    reset-same_block = refl

    block_pos : 0 < s.sectors_per_block
    block_pos = omega (arith, w.ready.zones.block_pos, w.ready.same_block)

    -- A sector of another zone converts as it did.
    At-kept :
        (q i slot : ℕ)
        → i ≢ id
        → At s.allocator s.sectors_per_block q i slot
        → At reset_allocator s.sectors_per_block q i slot
    At-kept q i slot other h =
        let (y, there, is) =
          physical_to_gc_slot-IsSlot s.allocator s.sectors_per_block q 0 0 w.ready.zones h in
        At-IsSlot reset_allocator s.sectors_per_block q i slot y block_pos reset-IsValid
          reset-IsTidy (other_zone i other ∙ there) is

    used-other : (k i slot : ℕ) → slot_of w.ready.agree.zones i slot ≡ some (suc k) → i ≢ id
    used-other k i slot h e =
        unused_zone slot k (subst (λ j. slot_of w.ready.agree.zones j slot ≡ some (suc k)) e h)

    reset-Matches :
        Matches
          (env.xa.load s.indexes.latest)
          reset_allocator
          s.sectors_per_block
          w.ready.agree.zones
    reset-Matches = record {
      counted = w.ready.agree.matches.counted;
      shape = λ i x h.
          let (y, there, _, capacity, _, _) = placed i x h in
          let (g, at', size) = w.ready.agree.matches.shape i y there in
          (g, at', size ∙ ap (λ n. n / s.sectors_per_block) (sym capacity));
      small = λ i x h.
          let (y, there, start, capacity, _, _) = placed i x h in
          omega (arith, w.ready.agree.matches.small i y there, start, capacity);
      forward = λ k e h.
          let (q, is, held) = w.ready.agree.matches.forward k e h in
          (
            q,
            is,
            record {
              zone = held.zone;
              slot = held.slot;
              at =
                  At-kept q held.zone held.slot (used-other k held.zone held.slot held.recorded)
                    held.at;
              recorded = held.recorded;
            },
          );
      backward = λ k i slot h.
          let (q, load, at') = w.ready.agree.matches.backward k i slot h in
          (q, load, At-kept q i slot (used-other k i slot h) at');
    }

    -- The state with the new reserve is whole.
    pub reset-IsWhole : IsWhole env content base (record s { allocator = reset_allocator })
    reset-IsWhole = record {
      ready = record {
        zones = reset-IsValid;
        same_block = reset-same_block ∙ w.ready.same_block;
        agree = record {
          zones = w.ready.agree.zones;
          present = w.ready.agree.present;
          total = w.ready.agree.total;
          matches = reset-Matches;
        };
        memory = w.ready.memory;
        threshold = w.ready.threshold;
      };
      tidy = reset-IsTidy;
      known = w.known;
      range = w.range;
    }

  -- A device that changed at most inside the zone has the data of every block.
  pub reset-data :
      (disk : D)
      → ((x : ℕ)
          → (x < z.start_sector) ⊎ (z.start_sector + z.length ≤ x)
          → content disk x ≡ content s.disk x)
      → (k : ℕ)
      → Option.map (content disk) (located env content base s k) ≡ data_of env content base s k
  reset-data disk same k = elim (Option-cases (located env content base s k)) [
    | inl e ↦ rw e refl
    | inr (q, e) ↦ rw e (ap some (same q (outside k q e)))
  ]
