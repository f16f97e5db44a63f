-- ===== src/Sstable/Payload.antt =====
-- src/lsm-sstable.c: the payload blocks that the entries of a memory table are assembled into.
use dm_zns_base.Prelude.{
  ℕ, zero, suc, ◌+◌, ◌*◌, ◌/◌, ◌%◌, ◌≤◌, ◌<◌, ◌≡◌, refl, sym, ◌∙◌, ap, inl, inr, List, [], ◌∷◌,
  some, ◌==◌, ltb, if◌then◌else◌, length, get_elem?, u64_mod, arith, lt_or_ge, lt→ltb, ge→ltb,
  ne→==,
}
use mathlib.Core.Path.{subst}
use mathlib.Core.Option.{some-injective}
use dm_zns_base.Memtable.{Entry}
use dm_zns_base.Block.{Block, zeroed, put_le, store}
use dm_zns_base.Block.Laws.{get_le-stores, get_le-apart}
use dm_zns_base.Sstable.{key_at, sector_at, entries_per_block}
use dm_zns_base.Sstable.Writer.{put_entry}

-- The blocks that the loop of `zns_sst_emit_payload` consumes, in order.
unfoldable pub blocks_of : List Entry → ℕ → Block → List Block
blocks_of [] nr block = if nr == 0 then [] else block ∷ []
blocks_of (e ∷ es) nr block =
    let more = blocks_of es (nr + 1) (put_entry nr e block) in
    let full = put_entry nr e block ∷ blocks_of es 0 zeroed in
    if ltb (nr + 1) entries_per_block then more else full

-- An entry holds 64-bit numbers.
pub record InRange (e : Entry) : Type 0 where
  pub logical_block : e.logical_block < u64_mod
  pub physical_sector : e.physical_sector < u64_mod

-- Slot `s` of the block has the entry.
pub record Holds (b : Block) (s : ℕ) (e : Entry) : Type 0 where
  pub key : key_at b s ≡ e.logical_block
  pub sector : sector_at b s ≡ e.physical_sector

put_entry-Holds : (s : ℕ) (e : Entry) (b : Block) → InRange e → Holds (put_entry s e b) s e
put_entry-Holds s e b r = record {
  key =
      get_le-apart 8 (16 * s) (store 8 (16 * s + 8) e.physical_sector)
        (put_le 8 (16 * s) e.logical_block b) (ground arith)
      ∙ get_le-stores 8 (16 * s) e.logical_block [] b refl (omega (arith, r.logical_block));
  sector =
      get_le-stores 8 (16 * s + 8) e.physical_sector [] (put_le 8 (16 * s) e.logical_block b) refl
        (omega (arith, r.physical_sector));
}

-- Storing an entry leaves the fields of another slot alone.
put_entry-key :
    (s t : ℕ) (e : Entry) (b : Block)
    → t < s
    → (key_at (put_entry s e b) t ≡ key_at b t) × (sector_at (put_entry s e b) t ≡ sector_at b t)
put_entry-key s t e b l = (
  get_le-apart 8 (16 * t) (store 8 (16 * s + 8) e.physical_sector)
        (put_le 8 (16 * s) e.logical_block b) (ground arith)
      ∙ get_le-apart 8 (16 * t) (store 8 (16 * s) e.logical_block) b (ground arith),
  get_le-apart 8 (16 * t + 8) (store 8 (16 * s + 8) e.physical_sector)
        (put_le 8 (16 * s) e.logical_block b) (ground arith)
      ∙ get_le-apart 8 (16 * t + 8) (store 8 (16 * s) e.logical_block) b (ground arith),
)

-- The two ways the loop goes on.
pub more_eq :
    (e : Entry) (es : List Entry) (nr : ℕ) (block : Block)
    → nr + 1 < 256
    → blocks_of (e ∷ es) nr block ≡ blocks_of es (nr + 1) (put_entry nr e block)
unfolding blocks_of
more_eq e es nr block h = rw (lt→ltb (nr + 1) 256 h) refl

pub full_eq :
    (e : Entry) (es : List Entry) (nr : ℕ) (block : Block)
    → 256 ≤ nr + 1
    → blocks_of (e ∷ es) nr block ≡ put_entry nr e block ∷ blocks_of es 0 zeroed
unfolding blocks_of
full_eq e es nr block h = rw (ge→ltb (nr + 1) 256 h) refl

-- The first block keeps the slots that are filled already.
abbrev Kept : List Block → ℕ → Block → Type 0
Kept bs nr block =
    (b : Block) × (get_elem? bs 0 ≡ some b)
    × ((t : ℕ) → t < nr → (key_at b t ≡ key_at block t) × (sector_at b t ≡ sector_at block t))

blocks_of-Kept :
    (es : List Entry) (nr : ℕ) (block : Block) → 0 < nr → Kept (blocks_of es nr block) nr block
unfolding blocks_of
blocks_of-Kept [] nr block pos =
    rw (ne→== nr 0 (λ e. absurd (omega (arith, pos, e)))) (block, refl, λ t h. (refl, refl))
blocks_of-Kept (e ∷ es) nr block pos = elim (lt_or_ge (nr + 1) 256) [
  | inl lt ↦
      let (b, at, keeps) = blocks_of-Kept es (nr + 1) (put_entry nr e block) (omega arith) in
      subst (λ bs. Kept bs nr block) (sym (more_eq e es nr block lt))
        (
          b,
          at,
          λ t h. (
            (keeps t (omega (arith, h))).0 ∙ (put_entry-key nr t e block h).0,
            (keeps t (omega (arith, h))).1 ∙ (put_entry-key nr t e block h).1,
          ),
        )
  | inr ge ↦
      subst (λ bs. Kept bs nr block) (sym (full_eq e es nr block ge))
        (put_entry nr e block, refl, λ t h. put_entry-key nr t e block h)
]

-- Entry number j, after nr slots of the first block.
abbrev pub At : List Block → ℕ → Entry → Type 0
At bs q e = (b : Block) × (get_elem? bs (q / 256) ≡ some b) × Holds b (q % 256) e

head-At :
    (bs : List Block) (nr : ℕ) (e : Entry) (block : Block)
    → nr < 256
    → InRange e
    → Kept bs (nr + 1) (put_entry nr e block)
    → At bs nr e
head-At bs nr e block lt r (b, at, keeps) =
    let h = put_entry-Holds nr e block r in
    let q : nr / 256 ≡ 0 = omega (arith, lt) in
    let s : nr % 256 ≡ nr = omega (arith, lt) in
    rw (q, s)
      (
        b,
        at,
        record {
          key = (keeps nr (omega arith)).0 ∙ h.key;
          sector = (keeps nr (omega arith)).1 ∙ h.sector;
        },
      )

tail-At : (b : Block) (bs : List Block) (q : ℕ) (e : Entry) → At bs q e → At (b ∷ bs) (256 + q) e
tail-At b bs q e at =
    let d : (256 + q) / 256 ≡ suc (q / 256) = omega arith in
    let m : (256 + q) % 256 ≡ q % 256 = omega arith in rw (d, m) at

blocks_of-At_head :
    (x : Entry) (es : List Entry) (nr : ℕ) (block : Block)
    → nr < 256
    → InRange x
    → At (blocks_of (x ∷ es) nr block) nr x
blocks_of-At_head x es nr block lt r = elim (lt_or_ge (nr + 1) 256) [
  | inl more ↦
      subst (λ bs. At bs nr x) (sym (more_eq x es nr block more))
        (head-At _ nr x block lt r
          (blocks_of-Kept es (nr + 1) (put_entry nr x block) (omega arith)))
  | inr full ↦
      subst (λ bs. At bs nr x) (sym (full_eq x es nr block full))
        (head-At (put_entry nr x block ∷ blocks_of es 0 zeroed) nr x block lt r
          (put_entry nr x block, refl, λ t h. (refl, refl)))
]

-- Entry j of the list is in block j / 256, in slot j % 256.
pub blocks_of-At :
    (es : List Entry) (nr j : ℕ) (block : Block) (e : Entry)
    → nr < 256
    → get_elem? es j ≡ some e
    → InRange e
    → At (blocks_of es nr block) (nr + j) e
blocks_of-At [] nr j block e lt at r = absurd (ground arith)
blocks_of-At (x ∷ es) nr zero block e lt at r =
    let same = some-injective _ _ at in
    subst (λ q. At (blocks_of (x ∷ es) nr block) q e) (omega arith)
      (subst (λ y. At (blocks_of (x ∷ es) nr block) nr y) same
        (blocks_of-At_head x es nr block lt (subst InRange (sym same) r)))
blocks_of-At (x ∷ es) nr (suc j) block e lt at r = elim (lt_or_ge (nr + 1) 256) [
  | inl more ↦
      subst (λ bs. At bs (nr + suc j) e) (sym (more_eq x es nr block more))
        (subst (λ q. At (blocks_of es (nr + 1) (put_entry nr x block)) q e) (omega arith)
          (blocks_of-At es (nr + 1) j (put_entry nr x block) e more at r))
  | inr full ↦
      subst (λ bs. At bs (nr + suc j) e) (sym (full_eq x es nr block full))
        (subst (λ q. At (put_entry nr x block ∷ blocks_of es 0 zeroed) q e)
          (omega (arith, lt, full))
          (tail-At (put_entry nr x block) (blocks_of es 0 zeroed) (0 + j) e
            (blocks_of-At es 0 j zeroed e (omega arith) at r)))
]

-- As many blocks as the entries need.
pub length-blocks_of :
    (es : List Entry) (nr : ℕ) (block : Block)
    → nr < 256
    → length (blocks_of es nr block) ≡ (nr + length es + 255) / 256
unfolding blocks_of
length-blocks_of [] nr block lt = ground arith
length-blocks_of (x ∷ es) nr block lt = elim (lt_or_ge (nr + 1) 256) [
  | inl more ↦
      ap length (more_eq x es nr block more)
      ∙ omega (arith, length-blocks_of es (nr + 1) (put_entry nr x block) more)
  | inr full ↦
      ap length (full_eq x es nr block full)
      ∙ omega (arith, lt, full, length-blocks_of es 0 zeroed (omega arith))
]
