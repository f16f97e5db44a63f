-- ===== src/Super/Format.antt =====
-- src/lsm-super.c: the superblock comes back from its block, and from the device; the comparison with
-- the device in front of us.
use dm_zns_base.Prelude.{
  ℕ, ◌-◌, ◌^◌, ◌<◌, ◌≡◌, refl, sym, ◌∙◌, ap, ◌↔◌, ◌⊎◌, inr, true, List, [], some, get_elem?,
  u32_mod, u64_mod, arith, eq→==,
}
use dm_zns_base.Kernel.{Errno, ok, err}
use dm_zns_base.Block.{Block, block_bytes, zeroed, get_le, bytes, Store, store}
use dm_zns_base.Block.Laws.{
  get_le-stores, get_le-apart, get_le-nth, all_apart, apart, after, put_le-Outside, bytes_ext,
  IsU32,
}
use dm_zns_base.Block.Io.{Layer, block_read, block_write, Keeps}
use dm_zns_base.Super.{
  Super, super_magic, super_version, super_fields, encode_fields, decode_fields, super_crc, encode,
  decode, matches, compare_field, write, read, after_read, after_write, with_disk,
}

-- The fields are what their C types hold.
pub record InRange (s : Super) : Type 0 where
  pub uuid : s.uuid < u64_mod
  pub logical_sectors : s.logical_sectors < u64_mod
  pub zone_size_sectors : s.zone_size_sectors < u64_mod
  pub nr_zones : s.nr_zones < u32_mod
  pub meta_zone_id : s.meta_zone_id < u32_mod
  pub sectors_per_block : s.sectors_per_block < u32_mod

-- The fields that are compared. The uuid is not.
abbrev pub SameGeometry : Super → Super → Type 0
SameGeometry a b =
    (a.sectors_per_block ≡ b.sectors_per_block)
    × (a.nr_zones ≡ b.nr_zones)
    × (a.zone_size_sectors ≡ b.zone_size_sectors)
    × (a.meta_zone_id ≡ b.meta_zone_id)
    × (a.logical_sectors ≡ b.logical_sectors)

-- Two superblocks match if and only if every field except the uuid agrees, and otherwise the answer
-- is -EINVAL.
pub matches_lem :
    (a b : Super)
    → ((matches (some a) (some b) ≡ ok) ↔ SameGeometry a b)
      × ((matches (some a) (some b) ≡ ok) ⊎ (matches (some a) (some b) ≡ err Errno.einval))
unfolding matches compare_field
matches_lem a b = (ground arith, ground arith)

module _ (crc32_le : ℕ → List ℕ → ℕ) (is_u32 : IsU32 crc32_le) where
  super_crc-small : (b : Block) → super_crc crc32_le b < 256 ^ 4
  unfolding super_crc
  super_crc-small b = is_u32 0 (bytes b 16 (block_bytes - 16))

  -- The checksum field lies before the bytes that the checksum reads.
  crc-encode :
      (s : Super) → super_crc crc32_le (encode crc32_le s) ≡ super_crc crc32_le (encode_fields s)
  unfolding super_crc encode
  crc-encode s = ap (crc32_le 0) (
      bytes_ext (block_bytes - 16) 16 (encode crc32_le s) (encode_fields s) (λ i l.
        put_le-Outside 4 12 (super_crc crc32_le (encode_fields s)) (encode_fields s) i (inr l)))

  -- The checksum field has no byte of another one.
  field-encode :
      (s : Super) (n : ℕ) (x : Store)
      → get_elem? (super_fields s) n ≡ some x
      → all_apart x.width x.offset (after (super_fields s) n) ≡ true
      → apart x.width x.offset (store 4 12 (super_crc crc32_le (encode_fields s))) ≡ true
      → x.value < 256 ^ x.width
      → get_le x.width x.offset (encode crc32_le s) ≡ x.value
  unfolding encode
  field-encode s n x e h h' small =
      get_le-apart x.width x.offset (store 4 12 (super_crc crc32_le (encode_fields s)))
        (encode_fields s) h'
      ∙ get_le-nth n (super_fields s) zeroed x e h small

  fields-encode : (s : Super) → InRange s → decode_fields (encode crc32_le s) ≡ s
  fields-encode s r i = record {
    uuid = field-encode s 2 (store 8 16 s.uuid) refl refl refl (omega (arith, r.uuid)) i;
    logical_sectors =
        field-encode s 3 (store 8 24 s.logical_sectors) refl refl refl
          (omega (arith, r.logical_sectors)) i;
    zone_size_sectors =
        field-encode s 4 (store 8 32 s.zone_size_sectors) refl refl refl
          (omega (arith, r.zone_size_sectors)) i;
    nr_zones =
        field-encode s 5 (store 4 40 s.nr_zones) refl refl refl (omega (arith, r.nr_zones)) i;
    meta_zone_id =
        field-encode s 6 (store 4 44 s.meta_zone_id) refl refl refl (omega (arith, r.meta_zone_id))
          i;
    sectors_per_block =
        field-encode s 7 (store 4 48 s.sectors_per_block) refl refl refl
          (omega (arith, r.sectors_per_block)) i;
  }

  crc_field-encode :
      (s : Super) → get_le 4 12 (encode crc32_le s) ≡ super_crc crc32_le (encode crc32_le s)
  unfolding encode
  crc_field-encode s =
      get_le-stores 4 12 (super_crc crc32_le (encode_fields s)) [] (encode_fields s) refl
        (super_crc-small (encode_fields s))
      ∙ sym (crc-encode s)

  -- A superblock with fields of the right width comes back from the block that it is encoded to.
  pub decode-encode :
      (s old : Super)
      → InRange s
      → decode crc32_le (some (encode crc32_le s)) (some old) ≡ (ok, some s)
  unfolding decode
  decode-encode s old r =
      let magic = field-encode s 0 (store 8 0 super_magic) refl refl refl (omega arith) in
      let version = field-encode s 1 (store 4 8 super_version) refl refl refl (omega arith) in
      rw (eq→== _ _ magic, eq→== _ _ version, eq→== _ _ (crc_field-encode s))
        (ap (λ x. (ok, some x)) (fields-encode s r))

  module _ {D : Type 0} (layer : Layer D) (keeps : Keeps layer) where
    -- On a device that keeps its blocks, once a superblock is written, a read of its sector that the
    -- device answers returns that superblock, and it matches every superblock with its geometry.
    pub read-write :
        (s old device : Super) (disk after_disk read_disk : D) (sector : ℕ)
        (out uninit found : Block)
        → InRange s
        → SameGeometry s device
        → block_write layer disk sector (encode crc32_le s) ≡ (ok, out, after_disk)
        → block_read layer after_disk sector uninit ≡ (ok, found, read_disk)
        → (write crc32_le layer true (some disk) sector (some s) ≡ (ok, some after_disk))
          × (read crc32_le layer true uninit (some after_disk) sector (some old)
              ≡ (ok, some s, some read_disk))
          × (matches (some s) (some device) ≡ ok)
    unfolding write read
    read-write s old device disk after_disk read_disk sector out uninit found r same wrote got = (
      ap (after_write crc32_le layer) wrote,
      ap (after_read crc32_le layer (some old)) got
          ∙ (ap (λ b. with_disk crc32_le layer read_disk (decode crc32_le (some b) (some old)))
                (keeps disk after_disk read_disk sector (encode crc32_le s) out uninit found wrote
                  got)
              ∙ ap (with_disk crc32_le layer read_disk) (decode-encode s old r)),
      (matches_lem s device).0.1 same,
    )
