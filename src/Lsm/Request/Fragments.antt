-- ===== src/Lsm/Request/Fragments.antt =====
-- src/engines/zns-engine-lsm.c: `zns_lsm_copy_fragment` from the segments of a bio into a block.
use dm_zns_base.Prelude.{
  ℕ, ◌+◌, ◌-◌, ◌≤◌, ◌<◌, ◌≡◌, refl, ◌∙◌, true, false, ◌&&◌, List, [], ◌∷◌, ◌==◌, ltb, leb,
  if◌then◌else◌, length, arith, Bool-cases, inl, inr,
}
use dm_zns_base.Kernel.{Ret, ok}
use dm_zns_base.Block.{Block}
use dm_zns_base.Sstable.{min}
use dm_zns_base.Lsm.Request.{byte_at, copy_out, copy_from_bio}

-- The number of bytes of the segments, and each of them, whatever segment it is in.
unfoldable pub total_bytes : List (List ℕ) → ℕ
total_bytes [] = 0
total_bytes (seg ∷ segs) = length seg + total_bytes segs

pub byte_in : List (List ℕ) → ℕ → ℕ
byte_in [] o = 0
byte_in (seg ∷ segs) o =
    let rest = byte_in segs (o - length seg) in if ltb o (length seg) then byte_at seg o else rest

-- The buffer with the `bytes` bytes from `copied` on, at `base`, taken from the bio.
abbrev pub spliced : List (List ℕ) → ℕ → Block → ℕ → ℕ → ℕ → Block
spliced segs offset buffer base bytes copied i =
    if leb (base + copied) i && ltb i (base + bytes)
    then byte_in segs (offset + (i - (base + copied)))
    else buffer i

abbrev pub Copied : List (List ℕ) → ℕ → Block → ℕ → ℕ → ℕ → Ret × Block → Type 0
Copied segs offset buffer base bytes copied r =
    (out : Block) × (r ≡ (ok, out))
    × ((i : ℕ) → out i ≡ spliced segs offset buffer base bytes copied i)

-- The segment ends before the fragment starts.
skip-spliced :
    (seg : List ℕ) (segs : List (List ℕ)) (offset : ℕ) (buffer : Block) (base bytes copied i : ℕ)
    → length seg ≤ offset
    → spliced segs (offset - length seg) buffer base bytes copied i
      ≡ spliced (seg ∷ segs) offset buffer base bytes copied i
unfolding byte_in
skip-spliced seg segs offset buffer base bytes copied i le =
    let past : ltb (offset + (i - (base + copied))) (length seg) ≡ false = ground (arith, le) in
    let same : offset - length seg + (i - (base + copied))
        ≡ offset + (i - (base + copied)) - length seg =
      omega (arith, le) in
    rw (past, same) refl

-- The fragment ends in the segment.
last-spliced :
    (seg : List ℕ) (segs : List (List ℕ)) (offset : ℕ) (buffer : Block)
    (base bytes copied chunk i : ℕ)
    → offset + chunk ≤ length seg
    → copied + chunk ≡ bytes
    → copy_out chunk (base + copied) offset seg buffer i
      ≡ spliced (seg ∷ segs) offset buffer base bytes copied i
unfolding byte_in
last-spliced seg segs offset buffer base bytes copied chunk i fits all =
    elim (Bool-cases (leb (base + copied) i && ltb i (base + copied + chunk))) [
      | inl inside ↦
          let range : (leb (base + copied) i && ltb i (base + bytes)) ≡ true =
            ground (arith, inside, all) in
          let here : ltb (offset + (i - (base + copied))) (length seg) ≡ true =
            ground (arith, inside, fits) in
          rw (inside, range, here) refl
      | inr outside ↦
          let range : (leb (base + copied) i && ltb i (base + bytes)) ≡ false =
            ground (arith, outside, all) in
          rw (outside, range) refl
    ]

-- The fragment goes on in the next segment.
next-spliced :
    (seg : List ℕ) (segs : List (List ℕ)) (offset : ℕ) (buffer : Block)
    (base bytes copied chunk i : ℕ)
    → offset + chunk ≡ length seg
    → copied + chunk < bytes
    → spliced segs 0
        (copy_out chunk (base + copied) offset seg buffer)
        base
        bytes
        (copied + chunk)
        i
      ≡ spliced (seg ∷ segs) offset buffer base bytes copied i
unfolding byte_in
next-spliced seg segs offset buffer base bytes copied chunk i fits more =
    elim (Bool-cases (leb (base + copied) i && ltb i (base + bytes))) [
      | inr outside ↦
          let first : (leb (base + copied) i && ltb i (base + copied + chunk)) ≡ false =
            ground (arith, outside, more) in
          let later : (leb (base + (copied + chunk)) i && ltb i (base + bytes)) ≡ false =
            ground (arith, outside) in
          rw (later, first, outside) refl
      | inl inside ↦ elim (Bool-cases (ltb (offset + (i - (base + copied))) (length seg))) [
        | inl here ↦
            let first : (leb (base + copied) i && ltb i (base + copied + chunk)) ≡ true =
              ground (arith, inside, here, fits) in
            let later : (leb (base + (copied + chunk)) i && ltb i (base + bytes)) ≡ false =
              ground (arith, inside, here, fits) in
            rw (later, first, inside, here) refl
        | inr past ↦
            let later : (leb (base + (copied + chunk)) i && ltb i (base + bytes)) ≡ true =
              ground (arith, inside, past, fits) in
            let same : 0 + (i - (base + (copied + chunk)))
                ≡ offset + (i - (base + copied)) - length seg =
              ground (arith, inside, past, fits) in
            rw (later, inside, past, same) refl
      ]
    ]

-- With enough bytes in the bio from the offset on, the copy returns 0, and the block has the bytes of
-- the bio in the range of the fragment, from whichever segments they come, and its own everywhere else.
pub copy_from_bio-Copied :
    (segs : List (List ℕ)) (offset : ℕ) (buffer : Block) (base bytes copied : ℕ)
    → copied < bytes
    → offset + (bytes - copied) ≤ total_bytes segs
    → Copied segs offset buffer base bytes copied
        (copy_from_bio segs offset buffer base bytes copied)
unfolding copy_from_bio total_bytes
copy_from_bio-Copied [] offset buffer base bytes copied some_left enough =
    absurd (omega (arith, some_left, enough))
copy_from_bio-Copied (seg ∷ segs) offset buffer base bytes copied some_left enough =
    elim (Bool-cases (leb (length seg) offset)) [
      | inl before ↦
          let le : length seg ≤ offset = ground (arith, before) in
          let (out, e, is) =
            copy_from_bio-Copied segs (offset - length seg) buffer base bytes copied some_left
              (omega (arith, le, enough)) in
          rw (before, e)
            (out, refl, λ i. is i ∙ skip-spliced seg segs offset buffer base bytes copied i le)
      | inr within ↦
          let lt : offset < length seg = ground (arith, within) in
          let chunk = min (bytes - copied) (length seg - offset) in
          elim (Bool-cases (copied + chunk == bytes)) [
            | inl done ↦
                rw (within, done)
                  (
                    _,
                    refl,
                    λ i.
                        last-spliced seg segs offset buffer base bytes copied chunk i
                          (ground (arith, lt)) (ground (arith, done)),
                  )
            | inr more ↦
                let whole : offset + chunk ≡ length seg = ground (arith, more, lt, some_left) in
                let left : copied + chunk < bytes = ground (arith, more, lt, some_left) in
                let (out, e, is) =
                  copy_from_bio-Copied segs 0 (copy_out chunk (base + copied) offset seg buffer)
                    base bytes (copied + chunk) left (omega (arith, whole, enough, left)) in
                rw (within, more, e)
                  (
                    out,
                    refl,
                    λ i.
                        is i
                        ∙ next-spliced seg segs offset buffer base bytes copied chunk i whole left,
                  )
          ]
    ]
