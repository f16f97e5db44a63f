-- ===== src/Lsm/Capacity.antt =====
-- src/engines/zns-engine-lsm.c: the capacity leaves room for the metadata zone and for a reserve.
use mathlib.Core.Path.{subst}
use mathlib.Core.Option.{some-injective}
use dm_zns_base.Prelude.{
  ℕ, zero, suc, ◌+◌, ◌-◌, ◌≤◌, ◌<◌, ◌≡◌, refl, ◌∙◌, ap, true, some, List, [], ◌∷◌, add64, sub64,
  length, get_elem?, get_elem?-some, u64_mod, arith, eq→==, gt→leb, ◌*◌, ◌/◌, ◌⊎◌, inl, inr,
  Bool-cases, ltb, if◌then◌else◌,
}
use dm_zns_base.Zone.{ZnsZone, ZnsZoneTable, BlkZone, Device}
use dm_zns_base.Zone.Table.{Reports, zones_of, table_init_lem}
use dm_zns_base.Lsm.{usable_sectors, max, sum_zones, capacity}

-- The sectors of the whole blocks of eight sectors that a zone has room for.
abbrev pub whole : ZnsZone → ℕ
whole z = z.capacity / 8 * 8

-- Those of the first `n` zones.
abbrev pub total : ℕ → List ZnsZone → ℕ
total zero zs = 0
total (suc n) [] = 0
total (suc n) (z ∷ zs) = whole z + total n zs

usable-whole : (z : ZnsZone) → usable_sectors z ≡ whole z
usable-whole z = omega arith

-- The greatest of `l` and the usable sectors of the first `n` zones.
abbrev pub greatest : ℕ → List ZnsZone → ℕ → ℕ
greatest zero zs l = l
greatest (suc n) [] l = l
greatest (suc n) (z ∷ zs) l = greatest n zs (max l (usable_sectors z))

sum_zones_lem :
    (n : ℕ) (zs : List ZnsZone) (d l : ℕ)
    → n ≤ length zs
    → d + total n zs < u64_mod
    → sum_zones n zs d l ≡ some (sub64 (d + total n zs) (greatest n zs l))
unfolding sum_zones
sum_zones_lem zero zs d l h small = ap (λ t. some (sub64 t l)) (omega arith)
sum_zones_lem (suc n) [] d l h small = absurd (omega (arith, h))
sum_zones_lem (suc n) (z ∷ zs) d l h small =
    let at : add64 d (usable_sectors z) ≡ d + whole z = omega (arith, small) in
    sum_zones_lem n zs (add64 d (usable_sectors z)) (max l (usable_sectors z)) (omega (arith, h))
      (omega (arith, at, small))
    ∙ ap (λ t. some (sub64 t (greatest n zs (max l (usable_sectors z))))) (omega (arith, at))

greatest-upper :
    (n : ℕ) (zs : List ZnsZone) (l : ℕ)
    → (l ≤ greatest n zs l)
      × ((i : ℕ) (z : ZnsZone)
          → i < n
          → get_elem? zs i ≡ some z
          → usable_sectors z ≤ greatest n zs l)
greatest-upper zero zs l = (omega arith, λ i z h e. absurd (omega (arith, h)))
greatest-upper (suc n) [] l = (omega arith, λ i z h e. absurd (ground arith))
greatest-upper (suc n) (x ∷ zs) l =
    let rest = greatest-upper n zs (max l (usable_sectors x)) in
    (ground (arith, rest.0), λ i z h e. zone i z h e rest.0 rest.1)
  where
    zone :
        (i : ℕ) (z : ZnsZone)
        → i < suc n
        → get_elem? (x ∷ zs) i ≡ some z
        → max l (usable_sectors x) ≤ greatest n zs (max l (usable_sectors x))
        → ((i : ℕ) (z : ZnsZone)
            → i < n
            → get_elem? zs i ≡ some z
            → usable_sectors z ≤ greatest n zs (max l (usable_sectors x)))
        → usable_sectors z ≤ greatest n zs (max l (usable_sectors x))
    zone zero z h e above rest =
        subst (λ y. usable_sectors y ≤ greatest n zs (max l (usable_sectors x)))
          (some-injective _ _ e) (ground (arith, above))
    zone (suc i) z h e above rest = rest i z (omega (arith, h)) e

greatest-total : (n : ℕ) (zs : List ZnsZone) (l : ℕ) → greatest n zs l ≤ l + total n zs
greatest-total zero zs l = omega arith
greatest-total (suc n) [] l = omega arith
greatest-total (suc n) (z ∷ zs) l =
    ground (arith, usable-whole z, greatest-total n zs (max l (usable_sectors z)))

-- The value of the greatest is its start or that of one of the zones.
greatest-attained :
    (n : ℕ) (zs : List ZnsZone) (l : ℕ)
    → (greatest n zs l ≡ l)
      ⊎ ((i : ℕ) × (z : ZnsZone) × (i < n)
          × (get_elem? zs i ≡ some z)
          × (greatest n zs l ≡ usable_sectors z))
greatest-attained zero zs l = inl refl
greatest-attained (suc n) [] l = inl refl
greatest-attained (suc n) (x ∷ zs) l = elim (greatest-attained n zs (max l (usable_sectors x))) [
  | inr (i, z, h, at, e) ↦ inr (suc i, z, omega (arith, h), at, e)
  | inl e ↦ elim (Bool-cases (ltb l (usable_sectors x))) [
    | inl more ↦
        inr (zero, x, omega arith, refl, e ∙ ap (λ t. if t then usable_sectors x else l) more)
    | inr less ↦ inl (e ∙ ap (λ t. if t then usable_sectors x else l) less)
  ]
]

-- The zone `r` is one of the first `n`, and none of them has more whole blocks.
pub record IsLargest (n : ℕ) (zs : List ZnsZone) (r : ZnsZone) : Type 0 where
  pub index : ℕ
  pub before : index < n
  pub there : get_elem? zs index ≡ some r
  pub most : (i : ℕ) (z : ZnsZone) → i < n → get_elem? zs i ≡ some z → whole z ≤ whole r

greatest-IsLargest :
    (n : ℕ) (zs : List ZnsZone)
    → 0 < n
    → n ≤ length zs
    → (r : ZnsZone) × IsLargest n zs r × (greatest n zs 0 ≡ whole r)
greatest-IsLargest n zs pos h = elim (greatest-attained n zs 0) [
  | inr (i, r, lt, at, e) ↦ (r, largest i r lt at e, e ∙ usable-whole r)
  | inl e ↦
      let (r, at) = get_elem?-some zs 0 (omega (arith, pos, h)) in
      let none_usable = (greatest-upper n zs 0).1 0 r pos at in
      let same : greatest n zs 0 ≡ usable_sectors r = omega (arith, e, none_usable) in
      (r, largest 0 r pos at same, same ∙ usable-whole r)
]
  where
    largest :
        (i : ℕ) (r : ZnsZone)
        → i < n
        → get_elem? zs i ≡ some r
        → greatest n zs 0 ≡ usable_sectors r
        → IsLargest n zs r
    largest i r lt at e = record {
      index = i;
      before = lt;
      there = at;
      most = λ j z l f.
          omega (arith, (greatest-upper n zs 0).1 j z l f, e, usable-whole z, usable-whole r);
    }

-- The loop gives what is left when a largest zone is set aside.
sum_zones-reserve :
    (n : ℕ) (zs : List ZnsZone)
    → 0 < n
    → n ≤ length zs
    → total n zs < u64_mod
    → (c : ℕ) × (r : ZnsZone) × (sum_zones n zs 0 0 ≡ some c)
      × IsLargest n zs r
      × (c + whole r ≡ total n zs)
sum_zones-reserve n zs pos h small =
    let (r, largest, e) = greatest-IsLargest n zs pos h in
    (
      sub64 (0 + total n zs) (greatest n zs 0),
      r,
      sum_zones_lem n zs 0 0 h (omega (arith, small)),
      largest,
      omega (arith, e, greatest-total n zs 0, small),
    )

length-zones_of : (index : ℕ) (zs : List BlkZone) → length (zones_of index zs) ≡ length zs
length-zones_of index [] = refl
length-zones_of index (z ∷ zs) = ap suc (length-zones_of (index + 1) zs)

capacity_eq :
    (bdev : Device) (uninit : ZnsZoneTable) (zs : List BlkZone)
    → bdev.is_zoned ≡ true
    → 2 < bdev.nr_zones
    → length zs ≡ bdev.nr_zones
    → Reports bdev 0 bdev.nr_zones zs
    → capacity true uninit (some bdev) ≡ sum_zones (length zs - 1) (zones_of 0 zs) 0 0
unfolding capacity
capacity_eq bdev uninit zs zoned many all reports =
    rw
      (
        table_init_lem bdev uninit zs zoned (λ e. absurd (omega (arith, many, e))) reports,
        eq→== (length zs) bdev.nr_zones all,
        gt→leb (length zs) 2 (omega (arith, many, all)),
      )
      refl

-- On a zoned device with more than two zones, which reports each of them, the capacity of the engine
-- is what the zones before the last one, which is for the metadata, have room for in whole blocks of
-- eight sectors, less the room of the largest of them: whichever of them is the reserve of the
-- collection, the others have room for the capacity. (Conditions: memory for the zone table, and the
-- room of those zones is together a 64-bit number.)
pub capacity-reserve :
    (bdev : Device) (uninit : ZnsZoneTable) (zs : List BlkZone)
    → bdev.is_zoned ≡ true
    → 2 < bdev.nr_zones
    → length zs ≡ bdev.nr_zones
    → Reports bdev 0 bdev.nr_zones zs
    → total (length zs - 1) (zones_of 0 zs) < u64_mod
    → (c : ℕ) × (r : ZnsZone) × (capacity true uninit (some bdev) ≡ some c)
      × IsLargest (length zs - 1) (zones_of 0 zs) r
      × (c + whole r ≡ total (length zs - 1) (zones_of 0 zs))
capacity-reserve bdev uninit zs zoned many all reports small =
    let (c, r, sum, largest, left) =
      sum_zones-reserve (length zs - 1) (zones_of 0 zs) (omega (arith, many, all))
        (omega (arith, length-zones_of 0 zs)) small in
    (c, r, capacity_eq bdev uninit zs zoned many all reports ∙ sum, largest, left)
