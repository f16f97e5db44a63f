-- ===== src/Block.antt =====
-- A 4 KiB block in memory, as the code of src/lsm-super.c and src/lsm-sstable.c reads and writes it:
-- little-endian fields at the offsets of a packed structure.
--
-- A block is the function from an offset to the byte there. The reads and writes of the code stay
-- below offset 4096.
pub mod Laws
pub mod Io
pub mod Tests
use dm_zns_base.Prelude.{ℕ, zero, suc, ◌+◌, ◌*◌, ◌/◌, ◌%◌, ◌==◌, if◌then◌else◌, List, [], ◌∷◌}

abbrev pub Block : Type 0
Block = ℕ → ℕ

abbrev pub block_bytes : ℕ
block_bytes = 4096

-- `memset(block, 0, ZNS_SST_BLOCK_BYTES)`.
abbrev pub zeroed : Block
zeroed i = 0

abbrev pub poke : Block → ℕ → ℕ → Block
poke b o x i = if i == o then x else b i

-- A field of `w` bytes at offset `o`, through `le64_to_cpu` or `le32_to_cpu`.
unfoldable pub get_le : ℕ → ℕ → Block → ℕ
get_le zero o b = 0
get_le (suc w) o b = b o + 256 * get_le w (o + 1) b

-- The same field, through `cpu_to_le64` or `cpu_to_le32`.
unfoldable pub put_le : ℕ → ℕ → ℕ → Block → Block
put_le zero o v b = b
put_le (suc w) o v b = put_le w (o + 1) (v / 256) (poke b o (v % 256))

-- `n` bytes from offset `o` on, as a checksum reads them.
unfoldable pub bytes : Block → ℕ → ℕ → List ℕ
bytes b o zero = []
bytes b o (suc n) = b o ∷ bytes b (o + 1) n

-- One assignment to a field.
pub record Store : Type 0 where
  pub width : ℕ
  pub offset : ℕ
  pub value : ℕ

abbrev pub store : ℕ → ℕ → ℕ → Store
store w o v = record { width = w; offset = o; value = v }

-- A sequence of assignments to fields.
abbrev pub stores : List Store → Block → Block
stores [] b = b
stores (s ∷ xs) b = stores xs (put_le s.width s.offset s.value b)
