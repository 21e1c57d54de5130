-- ===== src/Blk/Device.antt =====
-- The device: `struct virtio_blk`, `virtio_blk_init` and its configuration space.
use libvhost_user.Base.{
  ℕ, ◌+◌, ◌-◌, ◌^◌, Bool, ◌||◌, bit_or, ◌==◌, if◌then◌else◌, ℤ, einval, has_any,
}
use libvhost_user.Base.{pos as ok}
use libvhost_user.Ram.{Ram, write32, write64}
use libvhost_user.Vdev.{VirtioDev}

-- Constants of include/virtio/virtio10.h
abbrev pub sector_shift : ℕ
sector_shift = 9

abbrev pub sector_size : ℕ
sector_size = 2 ^ sector_shift

abbrev pub f_ro : ℕ
f_ro = 5

abbrev pub f_blk_size : ℕ
f_blk_size = 6

abbrev pub f_flush : ℕ
f_flush = 9

-- VBLK_DEFAULT_FEATURES
abbrev pub default_features : ℕ
default_features = 2 ^ f_blk_size

-- `sizeof(struct virtio_blk_config)`, and the offset of its `blk_size`
abbrev pub sizeof_config : ℕ
sizeof_config = 40

abbrev pub offset_blk_size : ℕ
offset_blk_size = 20

pub record VirtioBlk : Type 0 where
  pub vdev : VirtioDev
  pub total_sectors : ℕ
  pub block_size : ℕ
  pub readonly : Bool
  pub writeback : Bool

unfoldable pub vblk_get_config : VirtioBlk → Ram → ℕ → Ram
vblk_get_config vblk ram buffer =
    write32 (write64 ram buffer vblk.total_sectors) (buffer + offset_blk_size) vblk.block_size

-- The features on offer. The code ors the number VIRTIO_BLK_F_RO itself.
unfoldable pub offered_features : VirtioBlk → ℕ
offered_features vblk =
    let base = if vblk.readonly then bit_or default_features f_ro else default_features in
    if vblk.writeback then bit_or base (2 ^ f_flush) else base

unfoldable pub blk_init : VirtioBlk → ℤ × VirtioBlk
blk_init vblk =
    if vblk.block_size == 0 || has_any vblk.block_size (sector_size - 1)
    then (einval, vblk)
    else if vblk.total_sectors == 0
    then (einval, vblk)
    else (
      ok 0,
      record vblk {
        vdev = record {
          supported_features = offered_features vblk;
          features = 0;
          config_size = sizeof_config;
          get_config = vblk_get_config vblk;
        };
      },
    )
