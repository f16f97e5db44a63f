-- ===== src/Engine/BlockMap.antt =====
-- The array of block addresses that the append4k engines keep: what it reads as, and when the blocks
-- it names lie apart.
use native.Mathlib.Nat.{div-add-mod}
use mathlib.Core.Option.{some-injective}
use dm_zns_base.Prelude.{
  ℕ, ◌+◌, ◌*◌, ◌/◌, ◌%◌, ◌≤◌, ◌<◌, ◌≡◌, ◌≢◌, sym, ◌∙◌, ap, ◌⊎◌, Bool, true, List, some, ◌==◌, ltb,
  ◌&&◌, length, get_elem?, set, replicate, get_elem?-set, if◌then◌else◌, arith, get_elem?-replicate,
  lt-length_of_get_elem?, length-replicate,
}
use dm_zns_base.Kernel.{Errno, ok, err}
use dm_zns_base.Engine.{unmapped, is_aligned_io, block_read, read_slot}

-- Two aligned sectors in the same block are the same sector.
pub aligned-eq : (s t b : ℕ) → s % b ≡ 0 → t % b ≡ 0 → s / b ≡ t / b → s ≡ t
aligned-eq s t b hs ht e = grind (arith, div-add-mod s b, div-add-mod t b, ap (λ q. b * q) e)

-- The request asks for one whole block of the map.
unfoldable pub servable : ℕ → ℕ → ℕ → ℕ → Bool
servable nr b s n = is_aligned_io b s n && ltb (s / b) nr

pub block_read_lem :
    (mapping : List ℕ) (nr b s n cell : ℕ)
    → block_read mapping nr b s n cell
      ≡ (if servable nr b s n then read_slot mapping (s / b) cell else (err Errno.einval, cell))
unfolding block_read servable
block_read_lem mapping nr b s n cell = ground arith

-- After a block is stored for one request, that request reads it and every other one reads as before.
pub block_read-set :
    (mapping : List ℕ) (nr b s n p : ℕ)
    → length mapping ≡ nr
    → servable nr b s n ≡ true
    → p ≢ unmapped
    → (t k cell : ℕ)
    → block_read (set mapping (s / b) p) nr b t k cell
      ≡ (if t == s && k == n then (ok, p) else block_read mapping nr b t k cell)
unfolding block_read servable is_aligned_io
block_read-set mapping nr b s n p size h new t k cell =
    ground (arith, get_elem?-set mapping (s / b) (t / b) p, aligned-eq s t b)

-- The stored blocks end before `next` and no two of them share a sector.
pub record IsPlaced (mapping : List ℕ) (b next : ℕ) : Type 0 where
  pub bounded : (i p : ℕ) → get_elem? mapping i ≡ some p → p ≢ unmapped → p + b ≤ next
  pub apart :
      (i j p q : ℕ)
      → i ≢ j
      → get_elem? mapping i ≡ some p
      → get_elem? mapping j ≡ some q
      → p ≢ unmapped
      → q ≢ unmapped
      → (p + b ≤ q) ⊎ (q + b ≤ p)

pub IsPlaced-holes : (n b next : ℕ) → IsPlaced (replicate n unmapped) b next
IsPlaced-holes n b next = record {
  bounded = λ i p e h. absurd (h (hole i e));
  apart = λ i j p q ne e e' h h'. absurd (h (hole i e));
}
  where
    hole : (i : ℕ) {p : ℕ} → get_elem? (replicate n unmapped) i ≡ some p → p ≡ unmapped
    hole i e = some-injective _ _ (
        sym e
        ∙ get_elem?-replicate n i unmapped (
            ground (
              arith,
              length-replicate n unmapped,
              lt-length_of_get_elem? (replicate n unmapped) i e,
            )))

pub IsPlaced-set :
    (mapping : List ℕ) (b next i : ℕ)
    → i < length mapping
    → IsPlaced mapping b next
    → IsPlaced (set mapping i next) b (next + b)
IsPlaced-set mapping b next i lt v = record {
  bounded = λ j p e h. ground (arith, get_elem?-set mapping i j next lt, v.bounded j p);
  apart = λ j k p q ne e e' h h'. ground (
    arith,
    get_elem?-set mapping i j next lt,
    get_elem?-set mapping i k next lt,
    v.bounded j p,
    v.bounded k q,
    v.apart j k p q,
  );
}
