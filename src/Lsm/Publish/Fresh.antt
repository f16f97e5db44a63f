-- ===== src/Lsm/Publish/Fresh.antt =====
-- src/engines/zns-engine-lsm.c: a sector that the allocator has just handed out has a slot of its own.
use native.Mathlib.Nat.{add-mod_right, div-add-mod', le-div_iff_mul-le}
use mathlib.Core.Path.{subst}
use mathlib.Core.Option.{some-injective}
use dm_zns_base.Prelude.{
  ℕ, zero, suc, ◌+◌, ◌-◌, ◌*◌, ◌/◌, ◌%◌, ◌≤◌, ◌<◌, ◌≡◌, refl, sym, ◌∙◌, ap, true, false, some, Bool,
  List, [], ◌∷◌, ◌||◌, ltb, leb, ◌==◌, if◌then◌else◌, get_elem?, set, All, All-get_elem?, All-set,
  get_elem?-set_self, get_elem?-some, get_elem?-set_ne, Option, add64, arith, Bool-cases, inl, inr,
  lt-length_of_get_elem?,
}
use dm_zns_base.Kernel.{Errno, Ret, ok, err, Ptr}
use dm_zns_base.Zone.{ZnsZone, zone_end, is_full, can_append}
use dm_zns_base.Allocator.{Allocator, is_writable, alloc_gc}
use dm_zns_base.Allocator.Valid.{IsSound, IsValid}
use dm_zns_base.Allocator.Valid.{appended-IsSound}
use dm_zns_base.Allocator.Reserve.{set-IsValid, alloc_gc_lem, moved_gc}
use dm_zns_base.Allocator.Scan.{Appended, appended}
use dm_zns_base.Lsm.{bad_slot, slot_loop, physical_to_gc_slot}
use dm_zns_base.Lsm.Index.Agree.{At, Matches, slot_in_shape}
use dm_zns_base.Lsm.Index.{GcZone, slot_of}
use dm_zns_base.Lsm.Slots.{IsSlot, physical_to_gc_slot-IsSlot}

-- A later state of a zone that has only taken more writes.
pub record Grown (z y : ZnsZone) : Type 0 where
  pub start : y.start_sector ≡ z.start_sector
  pub capacity : y.capacity ≡ z.capacity
  pub length : y.length ≡ z.length
  pub condition : y.condition ≡ z.condition
  pub pointer : z.write_pointer ≤ y.write_pointer

abbrev pub AllGrown : List ZnsZone → List ZnsZone → Type 0
AllGrown [] [] = Unit
AllGrown (z ∷ zs) (y ∷ ys) = Grown z y × AllGrown zs ys
AllGrown _ _ = ⊥

Grown-refl : (z : ZnsZone) → Grown z z
Grown-refl z = record {
  start = refl;
  capacity = refl;
  length = refl;
  condition = refl;
  pointer = omega arith;
}

AllGrown-refl : (zs : List ZnsZone) → AllGrown zs zs
AllGrown-refl [] = tt
AllGrown-refl (z ∷ zs) = (Grown-refl z, AllGrown-refl zs)

pub AllGrown-set :
    (zs : List ZnsZone) (i : ℕ) (z y : ZnsZone)
    → get_elem? zs i ≡ some z
    → Grown z y
    → AllGrown zs (set zs i y)
AllGrown-set [] i z y h g = absurd (ground arith)
AllGrown-set (x ∷ zs) zero z y h g =
    (subst (λ w. Grown w y) (sym (some-injective _ _ h)) g, AllGrown-refl zs)
AllGrown-set (x ∷ zs) (suc i) z y h g = (Grown-refl x, AllGrown-set zs i z y h g)

AllGrown-get_elem? :
    (zs ys : List ZnsZone) (i : ℕ) (y : ZnsZone)
    → AllGrown zs ys
    → get_elem? ys i ≡ some y
    → (z : ZnsZone) × (get_elem? zs i ≡ some z) × Grown z y
AllGrown-get_elem? [] [] i y g h = absurd (ground arith)
AllGrown-get_elem? [] (x ∷ ys) i y g h = elim g [ ]
AllGrown-get_elem? (z ∷ zs) [] i y g h = elim g [ ]
AllGrown-get_elem? (z ∷ zs) (x ∷ ys) zero y g h =
    (z, refl, subst (Grown z) (some-injective _ _ h) g.0)
AllGrown-get_elem? (z ∷ zs) (x ∷ ys) (suc i) y g h = AllGrown-get_elem? zs ys i y g.1 h

past_same :
    (z y : ZnsZone) (p : ℕ)
    → Grown z y
    → (ltb p y.start_sector || leb (zone_end y) p) ≡ (ltb p z.start_sector || leb (zone_end z) p)
past_same z y p g = rw (g.start, g.capacity) refl

good_same :
    (z y : ZnsZone) (block p : ℕ)
    → Grown z y
    → bad_slot z block p ≡ false
    → bad_slot y block p ≡ false
good_same z y block p g h = rw (g.start, g.capacity, g.condition) (ground (arith, g.pointer, h))

-- A sector that converts goes on converting to the same slot.
slot_loop-Grown :
    (n : ℕ) (zs ys : List ZnsZone) (i block p a b : ℕ) {zone slot : ℕ}
    → AllGrown zs ys
    → slot_loop n zs i block p a b ≡ (ok, zone, slot)
    → slot_loop n ys i block p a b ≡ (ok, zone, slot)
unfolding slot_loop
slot_loop-Grown zero zs ys i block p a b g h = absurd (ground arith)
slot_loop-Grown (suc n) [] ys i block p a b g h = absurd (ground arith)
slot_loop-Grown (suc n) (z ∷ zs) [] i block p a b g h = elim g [ ]
slot_loop-Grown (suc n) (z ∷ zs) (y ∷ ys) i block p a b {zone} {slot} g h =
    elim (Bool-cases (ltb p z.start_sector || leb (zone_end z) p)) [
      | inl past ↦
          rw (past_same z y p g.0 ∙ past)
            (slot_loop-Grown n zs ys (i + 1) block p a b g.1 (step_past past h))
      | inr within ↦ elim (Bool-cases (bad_slot z block p)) [
        | inl bad ↦ absurd (ground (arith, bad, within, h))
        | inr good ↦
            rw (past_same z y p g.0 ∙ within, good_same z y block p g.0 good, g.0.start)
              (step_good within good h)
      ]
    ]
  where
    answer : Bool → Bool → Ret × ℕ × ℕ
    answer c d =
        if c
        then slot_loop n zs (i + 1) block p a b
        else if d
        then (err Errno.einval, a, b)
        else (ok, i, (p - z.start_sector) / block)

    step_past :
        (ltb p z.start_sector || leb (zone_end z) p) ≡ true
        → answer (ltb p z.start_sector || leb (zone_end z) p) (bad_slot z block p)
          ≡ (ok, zone, slot)
        → slot_loop n zs (i + 1) block p a b ≡ (ok, zone, slot)
    step_past past h = subst (λ c. answer c (bad_slot z block p) ≡ (ok, zone, slot)) past h

    step_good :
        (ltb p z.start_sector || leb (zone_end z) p) ≡ false
        → bad_slot z block p ≡ false
        → answer (ltb p z.start_sector || leb (zone_end z) p) (bad_slot z block p)
          ≡ (ok, zone, slot)
        → answer false false ≡ (ok, zone, slot)
    step_good within good h =
        subst (λ d. answer false d ≡ (ok, zone, slot)) good
          (subst (λ c. answer c (bad_slot z block p) ≡ (ok, zone, slot)) within h)

-- The sector is one of the zone.
abbrev pub Inside : ZnsZone → ℕ → Type 0
Inside z p = (z.start_sector ≤ p) × (p < z.start_sector + z.capacity)

within_eq :
    (z : ZnsZone) (p : ℕ)
    → IsSound z
    → Inside z p
    → (ltb p z.start_sector || leb (zone_end z) p) ≡ false
within_eq z p s h = ground (arith, s.fits, h)

past_eq :
    (z : ZnsZone) (p : ℕ)
    → IsSound z
    → (Inside z p → ⊥)
    → (ltb p z.start_sector || leb (zone_end z) p) ≡ true
past_eq z p s h = elim (Bool-cases (ltb p z.start_sector || leb (zone_end z) p)) [
  | inl e ↦ e
  | inr e ↦ absurd (h (ground (arith, e, s.fits), ground (arith, e, s.fits)))
]

-- A sector of one zone, at the start of a whole written block of it, converts.
pub slot_loop-at :
    (n : ℕ) (zs : List ZnsZone) (i j block p a b : ℕ) (z : ZnsZone)
    → j < n
    → All IsSound zs
    → get_elem? zs j ≡ some z
    → ((m : ℕ) (y : ZnsZone) → m < j → get_elem? zs m ≡ some y → Inside y p → ⊥)
    → Inside z p
    → bad_slot z block p ≡ false
    → slot_loop n zs i block p a b ≡ (ok, i + j, (p - z.start_sector) / block)
unfolding slot_loop
slot_loop-at zero zs i j block p a b z l s at apart inside good = absurd (omega (arith, l))
slot_loop-at (suc n) [] i j block p a b z l s at apart inside good = absurd (ground arith)
slot_loop-at (suc n) (x ∷ zs) i zero block p a b z l s at apart inside good =
    let here : x ≡ z = some-injective _ _ at in
    let same : i + 0 ≡ i = omega arith in
    rw (here, within_eq z p (subst IsSound here s.0) inside, good, same) refl
slot_loop-at (suc n) (x ∷ zs) i (suc j) block p a b z l s at apart inside good =
    let next : i + 1 + j ≡ i + suc j = omega arith in
    rw (past_eq x p s.0 (apart 0 x (omega arith) refl)) (
      slot_loop-at n zs (i + 1) j block p a b z (omega (arith, l)) s.1 at
        (λ m y less h. apart (suc m) y (omega (arith, less)) h) inside good
      ∙ ap (λ k. (ok, k, (p - z.start_sector) / block)) next)

-- The sector is in the range of the zone, its part past the capacity included.
abbrev pub Spans : ZnsZone → ℕ → Type 0
Spans z p = (z.start_sector ≤ p) × (p < z.start_sector + z.length)

-- No two zones share a sector, and a zone that takes a block has whole blocks before it.
pub record IsTidy (a : Allocator) : Type 0 where
  pub short : (i : ℕ) (z : ZnsZone) → get_elem? a.zones i ≡ some z → z.capacity ≤ z.length
  pub apart :
      (i j : ℕ) (z y : ZnsZone) (p : ℕ)
      → get_elem? a.zones i ≡ some z
      → get_elem? a.zones j ≡ some y
      → Inside z p
      → Spans y p
      → i ≡ j
  pub aligned :
      (i : ℕ) (z : ZnsZone)
      → get_elem? a.zones i ≡ some z
      → can_append z a.sectors_per_block ≡ true
      → (z.write_pointer - z.start_sector) % a.sectors_per_block ≡ 0

-- From `a` to `a'`, a block was taken at the write pointer `p` of a zone that had room.
pub record Advance (a : Allocator) (p : ℕ) (a' : Allocator) : Type 0 where
  pub zone : ℕ
  pub descriptor : ZnsZone
  pub found : get_elem? a.zones zone ≡ some descriptor
  pub had_room : can_append descriptor a.sectors_per_block ≡ true
  pub at_pointer : p ≡ descriptor.write_pointer
  pub moved : a'.zones ≡ set a.zones zone (appended a descriptor)
  pub same_count : a'.nr_zones ≡ a.nr_zones
  pub same_reserve : a'.reserve_zone ≡ a.reserve_zone
  pub same_block : a'.sectors_per_block ≡ a.sectors_per_block
  pub same_mode : a'.mode ≡ a.mode

-- A zone that takes a block has its pointer inside, and a block of room behind it.
room_of :
    (z : ZnsZone) (block : ℕ)
    → IsSound z
    → can_append z block ≡ true
    → (z.start_sector ≤ z.write_pointer)
      × (add64 z.write_pointer block ≡ z.write_pointer + block)
      × (z.write_pointer + block ≤ z.start_sector + z.capacity)
      × (is_full z.condition ≡ false)
unfolding can_append
room_of z block s h =
    let writable : is_writable z ≡ true = ground (arith, h) in
    let from = s.from_start writable in ground (arith, h, s.fits, from)

good_slot :
    (z : ZnsZone) (block : ℕ)
    → IsSound z
    → 0 < block
    → (z.write_pointer - z.start_sector) % block ≡ 0
    → z.start_sector ≤ z.write_pointer
    → z.write_pointer + block ≤ z.start_sector + z.capacity
    → bad_slot (record z { write_pointer = z.write_pointer + block }) block z.write_pointer ≡ false
good_slot z block s pos whole from to = ground (arith, s.fits, whole, from, to, pos)

-- A later state of the allocator: the same zones, which have only taken more writes.
pub record Frame (a a' : Allocator) : Type 0 where
  pub count : a'.nr_zones ≡ a.nr_zones
  pub reserve : a'.reserve_zone ≡ a.reserve_zone
  pub zones :
      (i : ℕ) (z : ZnsZone)
      → get_elem? a'.zones i ≡ some z
      → (y : ZnsZone) × (get_elem? a.zones i ≡ some y) × Grown y z

pub Frame-refl : (a : Allocator) → Frame a a
Frame-refl a = record { count = refl; reserve = refl; zones = λ i z h. (z, h, Grown-refl z) }

pub Frame-trans : (a b c : Allocator) → Frame a b → Frame b c → Frame a c
Frame-trans a b c f g = record {
  count = g.count ∙ f.count;
  reserve = g.reserve ∙ f.reserve;
  zones = λ i z h.
      let (y, at, grown) = g.zones i z h in
      let (x, at', grown') = f.zones i y at in
      (
        x,
        at',
        record {
          start = grown.start ∙ grown'.start;
          capacity = grown.capacity ∙ grown'.capacity;
          length = grown.length ∙ grown'.length;
          condition = grown.condition ∙ grown'.condition;
          pointer = omega (arith, grown.pointer, grown'.pointer);
        },
      );
}

module _ (a a' : Allocator) (p : ℕ) (v : IsValid a) (step : Advance a p a') where
  sound : IsSound step.descriptor
  sound = All-get_elem? IsSound a.zones step.zone v.sound step.found

  -- The pointer before, and the pointer after.
  room :
      (step.descriptor.start_sector ≤ step.descriptor.write_pointer)
      × ((appended a step.descriptor).write_pointer
          ≡ step.descriptor.write_pointer + a.sectors_per_block)
      × (step.descriptor.write_pointer + a.sectors_per_block
          ≤ step.descriptor.start_sector + step.descriptor.capacity)
      × (is_full step.descriptor.condition ≡ false)
  room = room_of step.descriptor a.sectors_per_block sound step.had_room

  pub Advance-IsValid : IsValid a'
  Advance-IsValid =
      set-IsValid a a' step.zone (appended a step.descriptor) v
        (appended-IsSound step.descriptor a.sectors_per_block sound step.had_room) step.moved
        step.same_count step.same_block step.same_mode

  appended-Grown : Grown step.descriptor (appended a step.descriptor)
  appended-Grown = record {
    start = refl;
    capacity = refl;
    length = refl;
    condition = refl;
    pointer = omega (arith, room);
  }

  -- What converted before still does.
  pub Advance-At :
      (q : ℕ) {zone slot : ℕ}
      → At a a.sectors_per_block q zone slot
      → At a' a.sectors_per_block q zone slot
  unfolding physical_to_gc_slot
  Advance-At q h =
      rw (step.moved, step.same_count)
        (slot_loop-Grown a.nr_zones a.zones (set a.zones step.zone (appended a step.descriptor)) 0
          a.sectors_per_block q 0 0
          (AllGrown-set a.zones step.zone step.descriptor (appended a step.descriptor) step.found
            appended-Grown)
          h)

  -- The slot of the block that was taken.
  abbrev pub new_slot : ℕ
  new_slot = (p - step.descriptor.start_sector) / a.sectors_per_block

  pub Advance-new : IsTidy a → At a' a.sectors_per_block p step.zone new_slot
  unfolding physical_to_gc_slot
  Advance-new tidy =
      rw (step.moved, step.same_count, step.at_pointer)
        (subst
          (λ k.
            slot_loop a.nr_zones (set a.zones step.zone (appended a step.descriptor)) 0
              a.sectors_per_block step.descriptor.write_pointer 0 0
            ≡ (
              ok,
              k,
              (step.descriptor.write_pointer - step.descriptor.start_sector) / a.sectors_per_block,
            ))
          (omega arith)
          (slot_loop-at a.nr_zones (set a.zones step.zone (appended a step.descriptor)) 0 step.zone
            a.sectors_per_block step.descriptor.write_pointer 0 0 (appended a step.descriptor)
            in_array
            (All-set IsSound a.zones step.zone (appended a step.descriptor) v.sound
              (appended-IsSound step.descriptor a.sectors_per_block sound step.had_room))
            (get_elem?-set_self a.zones step.zone (appended a step.descriptor)
              (lt-length_of_get_elem? a.zones step.zone step.found))
            alone (room.0, omega (arith, room, v.block_pos))
            (rw (room.1) (
              good_slot step.descriptor a.sectors_per_block sound v.block_pos
                (tidy.aligned step.zone step.descriptor step.found step.had_room) room.0 room.2))))
    where
      in_array : step.zone < a.nr_zones
      in_array = omega (arith, lt-length_of_get_elem? a.zones step.zone step.found, v.count)

      alone :
          (m : ℕ) (y : ZnsZone)
          → m < step.zone
          → get_elem? (set a.zones step.zone (appended a step.descriptor)) m ≡ some y
          → Inside y step.descriptor.write_pointer
          → ⊥
      alone m y less h inside =
          let there =
            sym (
              get_elem?-set_ne a.zones step.zone m (appended a step.descriptor)
                (λ e. absurd (omega (arith, less, e))))
            ∙ h in
          absurd (
            omega (
              arith,
              less,
              tidy.apart m step.zone y step.descriptor step.descriptor.write_pointer there
                  step.found inside
                  (
                    room.0,
                    omega
                        (arith, room, v.block_pos, tidy.short step.zone step.descriptor step.found),
                  ),
            ))

  -- The slot was free.
  pub new-free :
      (load : ℕ → Option ℕ) (zs : List GcZone)
      → IsTidy a
      → Matches load a a.sectors_per_block zs
      → slot_of zs step.zone new_slot ≡ some 0
  new-free load zs tidy m = free (
      slot_in_shape load a a.sectors_per_block zs step.zone new_slot step.descriptor m step.found
        in_zone)
    where
      whole : new_slot * a.sectors_per_block ≡ p - step.descriptor.start_sector
      whole =
          let rest : (p - step.descriptor.start_sector) % a.sectors_per_block ≡ 0 =
            rw step.at_pointer (tidy.aligned step.zone step.descriptor step.found step.had_room) in
          grind (arith, rest, div-add-mod' (p - step.descriptor.start_sector) a.sectors_per_block)

      in_zone : new_slot < step.descriptor.capacity / a.sectors_per_block
      in_zone = (le-div_iff_mul-le v.block_pos).1 (grind (arith, whole, room, step.at_pointer))

      free :
          (w : ℕ) × (slot_of zs step.zone new_slot ≡ some w)
          → slot_of zs step.zone new_slot ≡ some 0
      free (zero, h) = h
      free (suc k, h) =
          let (q, _, at) = m.backward k step.zone new_slot h in
          let (z, there, slot) = physical_to_gc_slot-IsSlot a a.sectors_per_block q 0 0 v at in
          let same : z ≡ step.descriptor = some-injective _ _ (sym there ∙ step.found) in
          let slot' = subst (λ y. IsSlot y a.sectors_per_block q new_slot) same slot in
          absurd (grind (arith, slot'.starts, slot'.written room.3, whole, room, step.at_pointer))

  -- Each zone is a later state of what it was.
  before :
      (i : ℕ) (z : ZnsZone)
      → get_elem? a'.zones i ≡ some z
      → (y : ZnsZone) × (get_elem? a.zones i ≡ some y) × Grown y z
  before i z h =
      AllGrown-get_elem? a.zones a'.zones i z
        (subst (AllGrown a.zones) (sym step.moved) (
          AllGrown-set a.zones step.zone step.descriptor (appended a step.descriptor) step.found
            appended-Grown))
        h

  pub Advance-Frame : Frame a a'
  Advance-Frame = record { count = step.same_count; reserve = step.same_reserve; zones = before }

  pub Advance-IsTidy : IsTidy a → IsTidy a'
  Advance-IsTidy tidy = record {
    short = λ i z h.
        let (y, at, g) = before i z h in omega (arith, tidy.short i y at, g.capacity, g.length);
    apart = λ i j z y q hi hj inside inside'.
        let (z', at, g) = before i z hi in
        let (y', at', g') = before j y hj in
        tidy.apart i j z' y' q at at' (omega (arith, g.start, g.capacity, inside))
          (omega (arith, g'.start, g'.length, inside'));
    aligned = λ i z h room'. rw step.same_block (
        aligned i z (subst (λ zs. get_elem? zs i ≡ some z) step.moved h)
          (subst (λ b. can_append z b ≡ true) step.same_block room'));
  }
    where
      aligned :
          (i : ℕ) (z : ZnsZone)
          → get_elem? (set a.zones step.zone (appended a step.descriptor)) i ≡ some z
          → can_append z a.sectors_per_block ≡ true
          → (z.write_pointer - z.start_sector) % a.sectors_per_block ≡ 0
      aligned i z h room' = elim (Bool-cases (i == step.zone)) [
        | inr other ↦
            tidy.aligned i z
              (sym (
                  get_elem?-set_ne a.zones step.zone i (appended a step.descriptor)
                    (λ e. absurd (ground (arith, e, other))))
                ∙ h)
              room'
        | inl same ↦
            let at : i ≡ step.zone = ground (arith, same) in
            let here : appended a step.descriptor ≡ z = some-injective _ _ (
              sym (
                get_elem?-set_self a.zones step.zone (appended a step.descriptor)
                  (lt-length_of_get_elem? a.zones step.zone step.found))
              ∙ (ap (get_elem? (set a.zones step.zone (appended a step.descriptor))) (sym at)
                  ∙ h)) in
            let whole = tidy.aligned step.zone step.descriptor step.found step.had_room in
            let shift : add64 step.descriptor.write_pointer a.sectors_per_block
                  - step.descriptor.start_sector
                ≡ step.descriptor.write_pointer - step.descriptor.start_sector
                  + a.sectors_per_block =
              omega (arith, room) in
            subst (λ y. (y.write_pointer - y.start_sector) % a.sectors_per_block ≡ 0) here
              (ap (λ n. n % a.sectors_per_block) shift
                ∙ (add-mod_right _ a.sectors_per_block ∙ whole))
      ]

  -- The indexes agree in the later state of the allocator too.
  pub Advance-Matches :
      (load : ℕ → Option ℕ) (zs : List GcZone)
      → Matches load a a.sectors_per_block zs
      → Matches load a' a.sectors_per_block zs
  Advance-Matches load zs m = record {
    counted = m.counted;
    shape = λ i z h.
        let (y, at, g) = before i z h in
        let (c, there, size) = m.shape i y at in
        (c, there, size ∙ ap (λ x. x / a.sectors_per_block) (sym g.capacity));
    small = λ i z h.
        let (y, at, g) = before i z h in omega (arith, m.small i y at, g.start, g.capacity);
    forward = λ k e h.
        let (q, is, held) = m.forward k e h in
        (
          q,
          is,
          record {
            zone = held.zone;
            slot = held.slot;
            at = Advance-At q held.at;
            recorded = held.recorded;
          },
        );
    backward =
        λ k zone slot h. let (q, is, at) = m.backward k zone slot h in (q, is, Advance-At q at);
  }

-- Both ways to take a block.
pub Appended-Advance : (a a' : Allocator) (p : ℕ) → Appended a p a' → Advance a p a'
Appended-Advance a a' p step = record {
  zone = step.zone;
  descriptor = step.descriptor;
  found = step.found;
  had_room = ground (arith, step.had_room);
  at_pointer = step.at_pointer;
  moved = step.moved;
  same_count = step.same_count;
  same_reserve = step.same_reserve;
  same_block = step.same_block;
  same_mode = step.same_mode;
}

pub alloc_gc-Advance :
    (a a' : Allocator) (cell p : ℕ)
    → IsValid a
    → a.reserve_zone < a.nr_zones
    → alloc_gc (some a) (some cell) ≡ (ok, some p, some a')
    → Advance a p a'
alloc_gc-Advance a a' cell p v lt h =
    let (z, e) = get_elem?-some a.zones a.reserve_zone (omega (arith, v.count, lt)) in
    elim (Bool-cases (can_append z a.sectors_per_block)) [
      | inl has_room ↦
          let answer : (ok, some z.write_pointer, some (moved_gc a z)) ≡ (ok, some p, some a') =
            sym (alloc_gc_lem a cell z lt e ∙ ground (arith, has_room)) ∙ h in
          let same : moved_gc a z ≡ a' =
            some-injective _ _ (ap (λ (r : Ret × Ptr ℕ × Ptr Allocator). r.2) answer) in
          subst (Advance a p) same (record {
            zone = a.reserve_zone;
            descriptor = z;
            found = e;
            had_room = has_room;
            at_pointer =
                sym (some-injective _ _ (ap (λ (r : Ret × Ptr ℕ × Ptr Allocator). r.1) answer));
            moved = refl;
            same_count = refl;
            same_reserve = refl;
            same_block = refl;
            same_mode = refl;
          })
      | inr no_room ↦ absurd (ground (arith, alloc_gc_lem a cell z lt e, h, no_room))
    ]
