-- ===== src/Lsm/Request.antt =====
-- src/engines/zns-engine-lsm.c: reads and writes of parts of blocks, fragment by fragment.
--
-- A request is its segments of memory, each a list of bytes.
pub mod Fragments
use dm_zns_base.Prelude.{
  ℕ, zero, suc, ◌+◌, ◌-◌, ◌*◌, ◌/◌, ◌%◌, ◌^◌, Bool, true, false, not, ◌&&◌, ◌||◌, List, [], ◌∷◌,
  Option, none, some, ◌==◌, ltb, leb, if◌then◌else◌, add64, length, set, get_elem?, u32_mod, ◌++◌,
  replicate, map,
}
use dm_zns_base.Kernel.{Errno, Ret, ok, err, fault, Ptr}
use dm_zns_base.Block.{Block, zeroed, block_bytes, bytes}
use dm_zns_base.Block.Io.{Request, block_read}
use dm_zns_base.Sstable.{min}
use dm_zns_base.Engine.{BioOp}
use dm_zns_base.Lsm.State.{Env, ZnsLsm, then_do}
use dm_zns_base.Lsm.Reading.{is_enodata, is_aligned_io, read}
use dm_zns_base.Lsm.Append.{Source, append_write}

-- `memcpy` of `n` bytes from the buffer at `from` into the segment at `to`.
abbrev pub copy_in : ℕ → ℕ → ℕ → Block → List ℕ → List ℕ
copy_in zero to from buffer seg = seg
copy_in (suc n) to from buffer seg = copy_in n (to + 1) (from + 1) buffer (set seg to (buffer from))

abbrev pub byte_at : List ℕ → ℕ → ℕ
byte_at seg i = elim (get_elem? seg i) [ none ↦ 0 | some b ↦ b ]

-- `memcpy` of `n` bytes from the segment at `from` into the buffer at `to`.
abbrev pub copy_out : ℕ → ℕ → ℕ → List ℕ → Block → Block
copy_out n to from seg buffer i =
    if leb to i && ltb i (to + n) then byte_at seg (from + (i - to)) else buffer i

-- `zns_lsm_copy_fragment`, with the segments of the bio and the buffer. `base` is where `buffer` of
-- the code starts inside the block.
unfoldable pub copy_to_bio : List (List ℕ) → ℕ → Block → ℕ → ℕ → ℕ → Ret × List (List ℕ)
copy_to_bio [] offset buffer base bytes copied = (err Errno.eio, [])
copy_to_bio (seg ∷ segs) offset buffer base bytes copied =
    let skip = copy_to_bio segs (offset - length seg) buffer base bytes copied in
    let chunk = min (bytes - copied) (length seg - offset) in
    let seg' = copy_in chunk offset (base + copied) buffer seg in
    let next = copy_to_bio segs 0 buffer base bytes (copied + chunk) in
    if leb (length seg) offset
    then (skip.0, seg ∷ skip.1)
    else if copied + chunk == bytes
    then (ok, seg' ∷ segs)
    else (next.0, seg' ∷ next.1)

unfoldable pub copy_from_bio : List (List ℕ) → ℕ → Block → ℕ → ℕ → ℕ → Ret × Block
copy_from_bio [] offset buffer base bytes copied = (err Errno.eio, buffer)
copy_from_bio (seg ∷ segs) offset buffer base bytes copied =
    let chunk = min (bytes - copied) (length seg - offset) in
    let buffer' = copy_out chunk (base + copied) offset seg buffer in
    let skip = copy_from_bio segs (offset - length seg) buffer base bytes copied in
    let next = copy_from_bio segs 0 buffer' base bytes (copied + chunk) in
    if leb (length seg) offset
    then skip
    else if copied + chunk == bytes
    then (ok, buffer')
    else next

-- `struct bio` of the request: `bi_size` is in bytes.
pub record LsmBio : Type 0 where
  pub op : BioOp
  pub sector : ℕ
  pub size : ℕ
  pub segments : List (List ℕ)

-- `bio_sectors(bio)`.
abbrev pub bio_sectors : LsmBio → ℕ
bio_sectors bio = bio.size / 512

module _ {D X : Type 0} (env : Env D X) where
  -- A request, the engine, and what the worker does to them.
  abbrev pub Served : Type 0
  Served = Ret × List (List ℕ) × ZnsLsm D X

  -- A block that is not mapped reads as zeros; the physical sector of any other one is read.
  abbrev pub mapped_block : Block → Ret × Ptr ℕ × ZnsLsm D X → Ret × Block × ZnsLsm D X
  mapped_block buffer (ok, some sector, s) =
      let (ret, b, disk) = block_read env.layer s.disk sector buffer in
      (ret, b, record s { disk = disk })
  mapped_block buffer (ok, none, s) = (fault, buffer, s)
  mapped_block buffer (err e, cell, s) =
      if is_enodata (err e) then (ok, zeroed, s) else (err e, buffer, s)
  mapped_block buffer (fault, cell, s) = (fault, buffer, s)

  pub read_block : ZnsLsm D X → ℕ → Block → Ret × Block × ZnsLsm D X
  read_block s logical_sector buffer =
      mapped_block buffer (read env s logical_sector s.sectors_per_block 0)

  abbrev pub fragment_copied :
      (List (List ℕ) → ZnsLsm D X → Served) → ZnsLsm D X → Ret × List (List ℕ) → Served
  fragment_copied rest s (ok, segs) = rest segs s
  fragment_copied rest s (err e, segs) = (err e, segs, s)
  fragment_copied rest s (fault, segs) = (fault, segs, s)

  abbrev pub fragment_read :
      (Block → List (List ℕ) → ZnsLsm D X → Served)
      → List (List ℕ)
      → ℕ
      → ℕ
      → ℕ
      → Ret × Block × ZnsLsm D X
      → Served
  fragment_read rest segs bio_offset base bytes (ok, b, s) =
      fragment_copied (rest b) s (copy_to_bio segs bio_offset b base bytes 0)
  fragment_read rest segs bio_offset base bytes (err e, b, s) = (err e, segs, s)
  fragment_read rest segs bio_offset base bytes (fault, b, s) = (fault, segs, s)

  -- The loop of `zns_lsm_read_partial`, by fuel: every round serves a sector at least.
  unfoldable pub read_fragments : ℕ → ℕ → ℕ → ℕ → Block → List (List ℕ) → ZnsLsm D X → Served
  read_fragments zero sector remaining bio_offset buffer segs s =
      if remaining == 0 then (ok, segs, s) else (fault, segs, s)
  read_fragments (suc n) sector remaining bio_offset buffer segs s =
      let offset = sector % s.sectors_per_block in
      let sectors = min remaining (s.sectors_per_block - offset) in
      let rest =
        read_fragments n (add64 sector sectors) (remaining - sectors)
          (bio_offset + sectors * 512) in
      if remaining == 0
      then (ok, segs, s)
      else fragment_read rest segs bio_offset (offset * 512) (sectors * 512)
          (read_block s (sector - offset) buffer)

  -- The memory request is for the buffer.
  unfoldable pub read_partial : ZnsLsm D X → LsmBio → Served
  unfolding read_fragments
  read_partial s bio =
      let s' = record s { requests = s.requests + 1 } in
      if env.grants s.requests
      then read_fragments (bio_sectors bio) bio.sector (bio_sectors bio) 0 env.uninit bio.segments
          s'
      else (err Errno.enomem, bio.segments, s')

  abbrev pub fragment_filled :
      (Block → ZnsLsm D X → Ret × ZnsLsm D X) → ZnsLsm D X → ℕ → Ret × Block → Ret × ZnsLsm D X
  fragment_filled rest s logical_sector (ok, b) =
      then_do (append_write env s logical_sector (Source.buffer b)) (rest b)
  fragment_filled rest s logical_sector (err e, b) = (err e, s)
  fragment_filled rest s logical_sector (fault, b) = (fault, s)

  abbrev pub fragment_prepared :
      (Block → ZnsLsm D X → Ret × ZnsLsm D X)
      → List (List ℕ)
      → ℕ
      → ℕ
      → ℕ
      → ℕ
      → Ret × Block × ZnsLsm D X
      → Ret × ZnsLsm D X
  fragment_prepared rest segs logical_sector bio_offset base bytes (ok, b, s) =
      fragment_filled rest s logical_sector (copy_from_bio segs bio_offset b base bytes 0)
  fragment_prepared rest segs logical_sector bio_offset base bytes (err e, b, s) = (err e, s)
  fragment_prepared rest segs logical_sector bio_offset base bytes (fault, b, s) = (fault, s)

  -- The loop of `zns_lsm_write_partial`, by fuel. A whole block needs no read.
  unfoldable pub write_fragments :
      ℕ → ℕ → ℕ → ℕ → List (List ℕ) → Block → ZnsLsm D X → Ret × ZnsLsm D X
  write_fragments zero sector remaining bio_offset segs buffer s =
      if remaining == 0 then (ok, s) else (fault, s)
  write_fragments (suc n) sector remaining bio_offset segs buffer s =
      let offset = sector % s.sectors_per_block in
      let sectors = min remaining (s.sectors_per_block - offset) in
      let rest =
        write_fragments n (add64 sector sectors) (remaining - sectors) (bio_offset + sectors * 512)
          segs in
      if remaining == 0
      then (ok, s)
      else fragment_prepared rest segs (sector - offset) bio_offset (offset * 512) (sectors * 512) (
          if not (offset == 0) || not (sectors == s.sectors_per_block)
          then read_block s (sector - offset) buffer
          else (ok, buffer, s))

  unfoldable pub write_partial : ZnsLsm D X → LsmBio → Ret × ZnsLsm D X
  unfolding write_fragments
  write_partial s bio =
      let s' = record s { requests = s.requests + 1 } in
      if s.writes_stopped
      then (err Errno.eio, s)
      else if env.grants s.requests
      then write_fragments (bio_sectors bio) bio.sector (bio_sectors bio) 0 bio.segments env.uninit
          s'
      else (err Errno.enomem, s')
