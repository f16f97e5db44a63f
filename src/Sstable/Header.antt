-- ===== src/Sstable/Header.antt =====
-- src/lsm-sstable.c: the header of a table comes back from its block.
use dm_zns_base.Prelude.{
  ℕ, ◌^◌, ◌≤◌, ◌<◌, ◌≡◌, refl, true, some, get_elem?, u32_mod, u64_mod, arith,
}
use dm_zns_base.Kernel.{ok, Ptr}
use dm_zns_base.Block.{zeroed, get_le, Store, store}
use dm_zns_base.Block.Laws.{get_le-nth, all_apart, after}
use dm_zns_base.Sstable.{
  Sstable, sst_magic, sst_version, nr_blocks, header_fields, encode_header, decode_header, set_ptr,
}

-- What `zns_sst_write` puts in a header: the fields are what their C types hold, there is an entry,
-- the number of blocks is the one for that many entries, and the keys are in order.
pub record InRange (sst : Sstable) : Type 0 where
  pub some_entry : 0 < sst.nr_entries
  pub nr_entries : sst.nr_entries < u32_mod
  pub blocks : sst.nr_blocks ≡ nr_blocks sst.nr_entries
  pub seq : sst.seq < u64_mod
  pub min_key : sst.min_key ≤ sst.max_key
  pub max_key : sst.max_key < u64_mod

field :
    (sst : Sstable) (crc n : ℕ) (x : Store)
    → get_elem? (header_fields sst crc) n ≡ some x
    → all_apart x.width x.offset (after (header_fields sst crc) n) ≡ true
    → x.value < 256 ^ x.width
    → get_le x.width x.offset (encode_header sst crc) ≡ x.value
unfolding encode_header
field sst crc n x e h small = get_le-nth n (header_fields sst crc) zeroed x e h small

pub nr_blocks-small : (n : ℕ) → nr_blocks n < u32_mod
unfolding nr_blocks
nr_blocks-small n = omega arith

-- What decoding fills in.
abbrev pub filled : Sstable → Sstable → Sstable
filled sst old = record sst { start_sector = old.start_sector; payload_crc = old.payload_crc }

-- A header with fields of the right width, for a table that has an entry, comes back from its block:
-- every field except the two that no header holds, and the checksum.
pub decode_header-encode_header :
    (sst old : Sstable) (crc : ℕ) (cell : Ptr ℕ)
    → InRange sst
    → crc < u32_mod
    → decode_header (some (encode_header sst crc)) (some old) cell
      ≡ (ok, some (filled sst old), set_ptr cell crc)
unfolding decode_header
decode_header-encode_header sst old crc cell r small =
    let magic = field sst crc 0 (store 8 0 sst_magic) refl refl (omega arith) in
    let version = field sst crc 1 (store 4 8 sst_version) refl refl (omega arith) in
    let entries =
      field sst crc 2 (store 4 12 sst.nr_entries) refl refl (omega (arith, r.nr_entries)) in
    let blocks =
      field sst crc 3 (store 4 16 sst.nr_blocks) refl refl
        (omega (arith, r.blocks, nr_blocks-small sst.nr_entries)) in
    let payload = field sst crc 4 (store 4 20 crc) refl refl (omega (arith, small)) in
    let seq = field sst crc 5 (store 8 24 sst.seq) refl refl (omega (arith, r.seq)) in
    let min_key =
      field sst crc 6 (store 8 32 sst.min_key) refl refl (omega (arith, r.min_key, r.max_key)) in
    let max_key = field sst crc 7 (store 8 40 sst.max_key) refl refl (omega (arith, r.max_key)) in
    rw (magic, version, entries, blocks, payload, seq, min_key, max_key)
      (ground (arith, r.blocks, r.some_entry, r.min_key))
