-- ===== src/Block/Laws.antt =====
-- Reading a field back: after it is stored, and past the other fields of the structure.
use mathlib.Core.Path.{subst}
use mathlib.Core.Option.{some-injective}
use dm_zns_base.Prelude.{
  ℕ, zero, suc, ◌+◌, ◌/◌, ◌%◌, ◌^◌, ◌≤◌, ◌<◌, ◌≡◌, refl, sym, ◌∙◌, ◌⊎◌, inl, Bool, true, ◌&&◌, ◌||◌,
  leb, List, [], ◌∷◌, some, get_elem?, u32_mod, arith,
}
use dm_zns_base.Block.{Block, poke, get_le, put_le, bytes, Store, store, stores}

-- The byte is not one of the `w` bytes from `o` on.
abbrev pub Outside : ℕ → ℕ → ℕ → Type 0
Outside i o w = (i < o) ⊎ (o + w ≤ i)

poke_ne : (b : Block) (o x i : ℕ) → (i < o) ⊎ (o + 1 ≤ i) → poke b o x i ≡ b i
poke_ne b o x i h = ground arith

poke_self : (b : Block) (o x : ℕ) → poke b o x o ≡ x
poke_self b o x = ground arith

pub put_le-Outside : (w o v : ℕ) (b : Block) (i : ℕ) → Outside i o w → put_le w o v b i ≡ b i
unfolding put_le
put_le-Outside zero o v b i h = refl
put_le-Outside (suc w) o v b i h =
    put_le-Outside w (o + 1) (v / 256) (poke b o (v % 256)) i (omega (arith, h))
    ∙ poke_ne b o (v % 256) i (omega (arith, h))

-- A field depends on its own bytes only.
pub get_le_ext :
    (w o : ℕ) (b b' : Block)
    → ((i : ℕ) → o ≤ i → i < o + w → b i ≡ b' i)
    → get_le w o b ≡ get_le w o b'
unfolding get_le
get_le_ext zero o b b' h = refl
get_le_ext (suc w) o b b' h = omega (
  arith,
  h o (omega arith) (omega arith),
  get_le_ext w (o + 1) b b' (λ i l u. h i (omega arith) (omega arith)),
)

pub bytes_ext :
    (n o : ℕ) (b b' : Block) → ((i : ℕ) → o ≤ i → b i ≡ b' i) → bytes b o n ≡ bytes b' o n
unfolding bytes
bytes_ext zero o b b' h = refl
bytes_ext (suc n) o b b' h =
    cc (h o (omega arith), bytes_ext n (o + 1) b b' (λ i l. h i (omega arith)))

pub get_le-put_le : (w o v : ℕ) (b : Block) → v < 256 ^ w → get_le w o (put_le w o v b) ≡ v
unfolding get_le put_le
get_le-put_le zero o v b h = omega arith
get_le-put_le (suc w) o v b h = omega (
  arith,
  get_le-put_le w (o + 1) (v / 256) (poke b o (v % 256)) (omega arith),
  put_le-Outside w (o + 1) (v / 256) (poke b o (v % 256)) o (inl (omega arith)),
  poke_self b o (v % 256),
)

-- Two fields without a common byte.
abbrev pub apart : ℕ → ℕ → Store → Bool
apart w o s = leb (o + w) s.offset || leb (s.offset + s.width) o

abbrev pub all_apart : ℕ → ℕ → List Store → Bool
all_apart w o [] = true
all_apart w o (s ∷ xs) = apart w o s && all_apart w o xs

pub get_le-apart :
    (w o : ℕ) (s : Store) (b : Block)
    → apart w o s ≡ true
    → get_le w o (put_le s.width s.offset s.value b) ≡ get_le w o b
get_le-apart w o s b h =
    get_le_ext w o (put_le s.width s.offset s.value b) b
      (λ i l u. put_le-Outside s.width s.offset s.value b i (ground arith))

pub get_le-stores_apart :
    (w o : ℕ) (xs : List Store) (b : Block)
    → all_apart w o xs ≡ true
    → get_le w o (stores xs b) ≡ get_le w o b
get_le-stores_apart w o [] b h = refl
get_le-stores_apart w o (s ∷ xs) b h =
    get_le-stores_apart w o xs (put_le s.width s.offset s.value b) (ground arith)
    ∙ get_le-apart w o s b (ground arith)

-- A field that no later assignment touches is read back.
pub get_le-stores :
    (w o v : ℕ) (xs : List Store) (b : Block)
    → all_apart w o xs ≡ true
    → v < 256 ^ w
    → get_le w o (stores (store w o v ∷ xs) b) ≡ v
get_le-stores w o v xs b h small =
    get_le-stores_apart w o xs (put_le w o v b) h ∙ get_le-put_le w o v b small

abbrev pub after : List Store → ℕ → List Store
after [] n = []
after (s ∷ xs) zero = xs
after (s ∷ xs) (suc n) = after xs n

-- The same for assignment number `n` of a sequence.
pub get_le-nth :
    (n : ℕ) (xs : List Store) (b : Block) (s : Store)
    → get_elem? xs n ≡ some s
    → all_apart s.width s.offset (after xs n) ≡ true
    → s.value < 256 ^ s.width
    → get_le s.width s.offset (stores xs b) ≡ s.value
get_le-nth n [] b s e h small = absurd (ground arith)
get_le-nth zero (x ∷ xs) b s e h small =
    subst (λ y. get_le s.width s.offset (stores (y ∷ xs) b) ≡ s.value) (sym (some-injective _ _ e))
      (get_le-stores s.width s.offset s.value xs b h small)
get_le-nth (suc n) (x ∷ xs) b s e h small =
    get_le-nth n xs (put_le x.width x.offset x.value b) s e h small

-- `crc32_le` returns a `u32`.
abbrev pub IsU32 : (ℕ → List ℕ → ℕ) → Type 0
IsU32 crc32_le = (seed : ℕ) (xs : List ℕ) → crc32_le seed xs < u32_mod
