-- ===== src/Lsm/Worker.antt =====
-- src/engines/zns-engine-lsm.c: a request from `zns_engine_map` to its completion by the worker.
--
-- A clone shares the memory of its request: a write of the clone hands down the bytes of the segments,
-- a read of it fills them. A flush of the device below is a parameter, and the status of a completed
-- request is the number that `errno_to_blk_status` converts.
pub mod Range
use dm_zns_base.Prelude.{
  ℕ, ◌+◌, ◌-◌, ◌%◌, Bool, true, false, not, ◌||◌, List, none, some, ◌==◌, ltb, leb, map,
  if◌then◌else◌, [], ◌∷◌, ◌++◌,
}
use dm_zns_base.Kernel.{Errno, Ret, ok, err, fault, Ptr}
use dm_zns_base.Block.{Block, block_bytes}
use dm_zns_base.Block.Io.{Request}
use dm_zns_base.Engine.{BioOp, MapIo}
use dm_zns_base.Lsm.State.{Env, ZnsLsm}
use dm_zns_base.Lsm.Reading.{is_enodata, is_aligned_io, read}
use dm_zns_base.Lsm.Append.{Source, append_write}
use dm_zns_base.Lsm.Request.{LsmBio, bio_sectors, copy_to_bio, read_partial, write_partial}
use dm_zns_base.Lsm.Request.Fragments.{byte_in}

-- The memory of a clone of one block, and the segments after the device filled it.
abbrev pub clone_block : List (List ℕ) → Block
clone_block segs i = byte_in segs i

abbrev pub filled : List (List ℕ) → Block → List (List ℕ)
filled segs b = (copy_to_bio segs 0 b 0 block_bytes 0).1

-- `zero_fill_bio`.
abbrev pub zero_fill : List (List ℕ) → List (List ℕ)
zero_fill segs = map (map (λ x. 0)) segs

module _ {D X : Type 0} (env : Env D X) (flush_device : D → Ret × D) where
  abbrev pub Completed : Type 0
  Completed = Ret × List (List ℕ) × ZnsLsm D X

  abbrev pub clone_was_read : List (List ℕ) → ZnsLsm D X → Ret × Block × D → Completed
  clone_was_read segs s (ret, b, disk) = (ret, filled segs b, record s { disk = disk })

  abbrev pub read_clone : List (List ℕ) → Ret × Ptr ℕ × ZnsLsm D X → Completed
  read_clone segs (ok, some sector, s) =
      clone_was_read segs s
        (env.layer.submit_bio_wait s.disk Request.read sector (clone_block segs))
  read_clone segs (ok, none, s) = (fault, segs, s)
  read_clone segs (err e, _, s) =
      if is_enodata (err e) then (ok, zero_fill segs, s) else (err e, segs, s)
  read_clone segs (fault, _, s) = (fault, segs, s)

  abbrev pub with_segments : List (List ℕ) → Ret × ZnsLsm D X → Completed
  with_segments segs (ret, s) = (ret, segs, s)

  abbrev pub flushed : List (List ℕ) → ZnsLsm D X → Ret × D → Completed
  flushed segs s (ret, disk) = (ret, segs, record s { disk = disk })

  -- The switch of the worker, with a clone.
  abbrev pub serve_clone : ZnsLsm D X → LsmBio → BioOp → Completed
  serve_clone s bio BioOp.read = read_clone bio.segments (read env s bio.sector (bio_sectors bio) 0)
  serve_clone s bio BioOp.write =
      with_segments bio.segments
        (append_write env s bio.sector (Source.clone (clone_block bio.segments)))
  serve_clone s bio BioOp.flush = flushed bio.segments s (flush_device s.disk)
  serve_clone s bio BioOp.other_op = (err Errno.eopnotsupp, bio.segments, s)

  -- The memory request is for the clone.
  abbrev pub serve_whole : ZnsLsm D X → LsmBio → Completed
  serve_whole s bio =
      let s' = record s { requests = s.requests + 1 } in
      if env.grants s.requests
      then serve_clone s' bio bio.op
      else (err Errno.enomem, bio.segments, s')

  abbrev pub serve_ragged : ZnsLsm D X → LsmBio → BioOp → Completed
  serve_ragged s bio BioOp.read = read_partial env s bio
  serve_ragged s bio BioOp.write = with_segments bio.segments (write_partial env s bio)
  serve_ragged s bio _ = serve_whole s bio

  pub io_worker : ZnsLsm D X → LsmBio → Completed
  io_worker s bio =
      if is_aligned_io env s bio.sector (bio_sectors bio)
      then serve_whole s bio
      else serve_ragged s bio bio.op

-- The queue of requests is the list of those that wait. The Boolean answers the memory request.
abbrev pub queue_io : Bool → List LsmBio → LsmBio → MapIo × List LsmBio
queue_io granted waiting bio =
    if granted then (MapIo.submitted, waiting ++ (bio ∷ [])) else (MapIo.kill, waiting)

-- `bi_size` is a number of bytes; `sector_t` does not wrap in the difference after the test before it.
abbrev pub out_of_range : ℕ → LsmBio → Bool
out_of_range logical_sectors bio =
    (bio.size == 0)
    || (not (bio.size % 512 == 0)
        || (leb logical_sectors bio.sector || ltb (logical_sectors - bio.sector) (bio_sectors bio)))

abbrev pub map_request : Bool → ℕ → List LsmBio → LsmBio → BioOp → MapIo × List LsmBio
map_request granted logical_sectors waiting bio BioOp.flush = queue_io granted waiting bio
map_request granted logical_sectors waiting bio BioOp.other_op = (MapIo.kill, waiting)
map_request granted logical_sectors waiting bio _ =
    if out_of_range logical_sectors bio then (MapIo.kill, waiting) else queue_io granted waiting bio

-- `engine` and `bio` are not NULL; `private` may be.
pub engine_map :
    {D X : Type 0} → Bool → Ptr (ZnsLsm D X) → List LsmBio → LsmBio → MapIo × List LsmBio
engine_map granted none waiting bio = (MapIo.kill, waiting)
engine_map granted (some s) waiting bio =
    map_request granted s.super.logical_sectors waiting bio bio.op
