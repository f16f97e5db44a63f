-- ===== src/Lsm/Index/Counts.antt =====
-- src/engines/zns-engine-lsm.c: the reverse map of a zone, with the number of blocks that it holds.
use mathlib.Core.Path.{subst}
use dm_zns_base.Prelude.{
  ℕ, zero, suc, ◌+◌, ◌≤◌, ◌<◌, ◌≡◌, ◌≢◌, ◌∙◌, ap, none, some, List, [], ◌∷◌, ◌==◌, ◌&&◌,
  if◌then◌else◌, get_elem?, set, length, length-set, u64_mod, arith, All, add64, sub64,
  get_elem?-set, lt-length_of_get_elem?,
}
use dm_zns_base.Kernel.{Ptr}
use dm_zns_base.Lsm.Index.{GcZone, slot_in, slot_of, set_in, fill_zone, clear_zone, modify}

-- The slots that hold a block.
abbrev pub used : List ℕ → ℕ
used [] = 0
used (entry ∷ entries) = if entry == 0 then used entries else suc (used entries)

-- The array has one slot per block of the zone, and the number of blocks is the number of used slots.
pub record IsCounted (g : GcZone) : Type 0 where
  pub entries : List ℕ
  pub present : g.logical_blocks ≡ some entries
  pub size : length entries ≡ g.nr_blocks
  pub small : g.nr_blocks < u64_mod
  pub count : g.nr_valid_blocks ≡ used entries

used-upper : (xs : List ℕ) → used xs ≤ length xs
used-upper [] = omega arith
used-upper (x ∷ xs) = ground (arith, used-upper xs)

used-fill :
    (xs : List ℕ) (s entry : ℕ)
    → get_elem? xs s ≡ some 0
    → entry ≢ 0
    → used (set xs s entry) ≡ suc (used xs)
used-fill [] s entry h ne = absurd (ground arith)
used-fill (x ∷ xs) zero entry h ne = ground arith
used-fill (x ∷ xs) (suc s) entry h ne = ground (arith, used-fill xs s entry h ne)

used-clear :
    (xs : List ℕ) (s entry : ℕ)
    → get_elem? xs s ≡ some entry
    → entry ≢ 0
    → suc (used (set xs s 0)) ≡ used xs
used-clear [] s entry h ne = absurd (ground arith)
used-clear (x ∷ xs) zero entry h ne = ground arith
used-clear (x ∷ xs) (suc s) entry h ne = ground (arith, used-clear xs s entry h ne)

slot_in-entries :
    (g : GcZone) (s : ℕ) {w : ℕ}
    → (c : IsCounted g) → slot_in g.logical_blocks s ≡ some w
    → get_elem? c.entries s ≡ some w
slot_in-entries g s {w} c h = subst (λ e. slot_in e s ≡ some w) c.present h

pub fill_zone-IsCounted :
    (g : GcZone) (s entry : ℕ)
    → IsCounted g
    → slot_in g.logical_blocks s ≡ some 0
    → entry ≢ 0
    → IsCounted (fill_zone s entry g)
      × ((fill_zone s entry g).nr_valid_blocks ≡ suc g.nr_valid_blocks)
fill_zone-IsCounted g s entry c h ne =
    let at = slot_in-entries g s c h in
    let more = used-fill c.entries s entry at ne in
    let same = length-set c.entries s entry in
    let top = used-upper (set c.entries s entry) in
    let one : add64 g.nr_valid_blocks 1 ≡ suc g.nr_valid_blocks =
      omega (arith, c.count, more, top, same, c.size, c.small) in
    (
      record {
        entries = set c.entries s entry;
        present = ap (λ e. set_in e s entry) c.present;
        size = same ∙ c.size;
        small = c.small;
        count = omega (arith, one, c.count, more);
      },
      one,
    )

pub clear_zone-IsCounted :
    (g : GcZone) (s entry : ℕ)
    → IsCounted g
    → slot_in g.logical_blocks s ≡ some entry
    → entry ≢ 0
    → IsCounted (clear_zone s g) × (suc (clear_zone s g).nr_valid_blocks ≡ g.nr_valid_blocks)
clear_zone-IsCounted g s entry c h ne =
    let at = slot_in-entries g s c h in
    let less = used-clear c.entries s entry at ne in
    let same = length-set c.entries s 0 in
    let top = used-upper c.entries in
    let one : suc (sub64 g.nr_valid_blocks 1) ≡ g.nr_valid_blocks =
      omega (arith, c.count, less, top, c.size, c.small) in
    (
      record {
        entries = set c.entries s 0;
        present = ap (λ e. set_in e s 0) c.present;
        size = same ∙ c.size;
        small = c.small;
        count = omega (arith, one, c.count, less);
      },
      one,
    )

abbrev pub total_valid : List GcZone → ℕ
total_valid [] = 0
total_valid (g ∷ gs) = g.nr_valid_blocks + total_valid gs

-- The blocks that a slot of the array may hold, in zone number `zone`.
pub fill-IsCounted :
    (gs : List GcZone) (zone s entry : ℕ)
    → All IsCounted gs
    → slot_of gs zone s ≡ some 0
    → entry ≢ 0
    → All IsCounted (modify (fill_zone s entry) gs zone)
      × (total_valid (modify (fill_zone s entry) gs zone) ≡ suc (total_valid gs))
fill-IsCounted [] zone s entry c h ne = absurd (ground arith)
fill-IsCounted (g ∷ gs) zero s entry c h ne =
    let (c', one) = fill_zone-IsCounted g s entry c.0 h ne in ((c', c.1), omega (arith, one))
fill-IsCounted (g ∷ gs) (suc zone) s entry c h ne =
    let (c', one) = fill-IsCounted gs zone s entry c.1 h ne in ((c.0, c'), omega (arith, one))

pub clear-IsCounted :
    (gs : List GcZone) (zone s entry : ℕ)
    → All IsCounted gs
    → slot_of gs zone s ≡ some entry
    → entry ≢ 0
    → All IsCounted (modify (clear_zone s) gs zone)
      × (suc (total_valid (modify (clear_zone s) gs zone)) ≡ total_valid gs)
clear-IsCounted [] zone s entry c h ne = absurd (ground arith)
clear-IsCounted (g ∷ gs) zero s entry c h ne =
    let (c', one) = clear_zone-IsCounted g s entry c.0 h ne in ((c', c.1), omega (arith, one))
clear-IsCounted (g ∷ gs) (suc zone) s entry c h ne =
    let (c', one) = clear-IsCounted gs zone s entry c.1 h ne in ((c.0, c'), omega (arith, one))

set_in-slot :
    (xs : Ptr (List ℕ)) (s t entry : ℕ) {w : ℕ}
    → slot_in xs s ≡ some w
    → slot_in (set_in xs s entry) t ≡ (if t == s then some entry else slot_in xs t)
set_in-slot none s t entry h = absurd (ground arith)
set_in-slot (some xs) s t entry h = get_elem?-set xs s t entry (lt-length_of_get_elem? xs s h)

-- What the slots hold after a change of slot `s` of zone `zone`.
pub slot_of-modify :
    (f : GcZone → GcZone) (gs : List GcZone) (zone s entry z t : ℕ) {w : ℕ}
    → ((g : GcZone) → (f g).logical_blocks ≡ set_in g.logical_blocks s entry)
    → slot_of gs zone s ≡ some w
    → slot_of (modify f gs zone) z t
      ≡ (if (z == zone) && (t == s) then some entry else slot_of gs z t)
slot_of-modify f [] zone s entry z t sets h = absurd (ground arith)
slot_of-modify f (g ∷ gs) zero s entry zero t sets h =
    ap (λ e. slot_in e t) (sets g) ∙ (set_in-slot g.logical_blocks s t entry h ∙ ground arith)
slot_of-modify f (g ∷ gs) zero s entry (suc z) t sets h = ground arith
slot_of-modify f (g ∷ gs) (suc zone) s entry zero t sets h = ground arith
slot_of-modify f (g ∷ gs) (suc zone) s entry (suc z) t sets h =
    ground (arith, slot_of-modify f gs zone s entry z t sets h)
