-- ===== src/Block/Io.antt =====
-- Reading and writing one block of the device: `zns_submit_block` of src/lsm-sstable.c.
use dm_zns_base.Prelude.{ℕ, Bool, ◌==◌, if◌then◌else◌, not, ◌≡◌}
use dm_zns_base.Kernel.{Errno, Ret, ok, err}
use dm_zns_base.Block.{Block, block_bytes}

-- `REQ_OP_READ` and `REQ_OP_WRITE`.
pub data Request : Type 0 where
  read write : Request

-- What the block layer does, over any state of the device: whether a bio is granted, how many bytes
-- of a page it takes, and what `submit_bio_wait` returns and leaves in the buffer.
pub record Layer (D : Type 0) : Type 0 where
  pub bio_alloc : D → Bool
  pub bio_add_page : D → Block → ℕ
  pub submit_bio_wait : D → Request → ℕ → Block → Ret × Block × D

module _ {D : Type 0} (layer : Layer D) where
  unfoldable pub submit_block : D → ℕ → Request → Block → Ret × Block × D
  submit_block disk sector request block =
      if not (layer.bio_alloc disk)
      then (err Errno.enomem, block, disk)
      else if layer.bio_add_page disk block == block_bytes
      then layer.submit_bio_wait disk request sector block
      else (err Errno.eio, block, disk)

  unfoldable pub block_read : D → ℕ → Block → Ret × Block × D
  unfolding submit_block
  block_read disk sector block = submit_block disk sector Request.read block

  unfoldable pub block_write : D → ℕ → Block → Ret × Block × D
  unfolding submit_block
  block_write disk sector block = submit_block disk sector Request.write block

-- A block that is written is what a later read of that sector finds.
abbrev pub Keeps : {D : Type 0} → Layer D → Type 0
Keeps {D} layer =
    (disk after_disk read_disk : D) (sector : ℕ) (b out uninit found : Block)
    → block_write layer disk sector b ≡ (ok, out, after_disk)
    → block_read layer after_disk sector uninit ≡ (ok, found, read_disk)
    → found ≡ b

-- A device whose states have contents: a write that succeeds puts the block at its sector and leaves
-- every other sector alone, and a read succeeds, with the contents of its sector.
pub record IsDevice {D : Type 0} (layer : Layer D) (content : D → ℕ → Block) : Type 0 where
  pub writes :
      (disk after_disk : D) (sector : ℕ) (b out : Block)
      → block_write layer disk sector b ≡ (ok, out, after_disk)
      → (s : ℕ) → content after_disk s ≡ (if s == sector then b else content disk s)
  pub reads :
      (disk : D) (sector : ℕ) (uninit : Block)
      → (read_disk : D) × ((s : ℕ) → content read_disk s ≡ content disk s)
        × (block_read layer disk sector uninit ≡ (ok, content disk sector, read_disk))

-- A device whose requests may fail: a write that succeeds is as above, a read that succeeds gives the
-- contents of its sector, and no read changes any contents.
pub record IsStorage {D : Type 0} (layer : Layer D) (content : D → ℕ → Block) : Type 0 where
  pub writes :
      (disk after_disk : D) (sector : ℕ) (b out : Block)
      → block_write layer disk sector b ≡ (ok, out, after_disk)
      → (s : ℕ) → content after_disk s ≡ (if s == sector then b else content disk s)
  pub reads :
      (disk after_disk : D) (sector : ℕ) (uninit out : Block)
      → block_read layer disk sector uninit ≡ (ok, out, after_disk)
      → out ≡ content disk sector
  pub reads_keep :
      (disk : D) (sector : ℕ) (uninit : Block) (s : ℕ)
      → content (block_read layer disk sector uninit).2 s ≡ content disk s
