-- ===== src/Blk/Init.antt =====
-- `virtio_blk_init`: which devices it takes and what they then tell the driver.
use libvhost_user.Base.{
  ℕ, ◌+◌, ◌%◌, ◌^◌, ◌≤◌, ◌<◌, ◌≡◌, ◌≢◌, ◌↔◌, ◌⊎◌, refl, ◌∙◌, true, false, if◌then◌else◌, arith, inl,
  inr, Bool-cases, einval, enospc, bit_and, ltb,
}
use libvhost_user.Base.{pos as ok}
use libvhost_user.Base.Bits.{bit_and_mask}
use libvhost_user.Ram.{Ram, read32, read64, write8, write16, write32, write64}
use libvhost_user.Ram.Laws.{read32-write32, read64-write64, read64-write32-Apart}
use libvhost_user.Vdev.{IsFiller, dev_get_config}
use libvhost_user.Blk.Device.{
  VirtioBlk, sector_size, offset_blk_size, sizeof_config, offered_features, blk_init,
  vblk_get_config, f_ro, f_blk_size, f_flush,
}

-- A device is taken just when its block size is a positive multiple of 512 and it has a sector; one
-- that is refused stays as it was.
pub blk_init_iff :
    (vblk : VirtioBlk)
    → (((blk_init vblk).0 ≡ ok 0)
        ↔ (vblk.block_size ≢ 0) × (vblk.block_size % sector_size ≡ 0) × (vblk.total_sectors ≢ 0))
      × ((blk_init vblk).0 ≢ ok 0 → blk_init vblk ≡ (einval, vblk))
unfolding blk_init
blk_init_iff vblk = let mask = bit_and_mask vblk.block_size 9 in ground arith

init_vdev :
    (vblk : VirtioBlk) (ram : Ram) (buffer bufsize : ℕ)
    → (blk_init vblk).0 ≡ ok 0
    → dev_get_config (blk_init vblk).1.vdev ram buffer bufsize ≡ (
        if ltb bufsize sizeof_config
        then (enospc, ram)
        else (ok 0, vblk_get_config vblk ram buffer))
unfolding blk_init dev_get_config
init_vdev vblk ram buffer bufsize h = ground arith

-- A driver that reads the configuration of an initialised device, whose capacity and block size have
-- 64 and 32 bits, into a buffer of at least 40 bytes
-- finds the capacity at its start and the block size at offset 20; a smaller buffer stays as it is,
-- with -ENOSPC.
pub dev_get_config-reads :
    (vblk : VirtioBlk) (ram : Ram) (buffer bufsize : ℕ)
    → (blk_init vblk).0 ≡ ok 0
    → vblk.total_sectors < 2 ^ 64
    → vblk.block_size < 2 ^ 32
    → let dev = (blk_init vblk).1.vdev in
      let answer = dev_get_config dev ram buffer bufsize in
      (sizeof_config ≤ bufsize
        → (answer.0 ≡ ok 0)
          × (read64 answer.1 buffer ≡ vblk.total_sectors)
          × (read32 answer.1 (buffer + offset_blk_size) ≡ vblk.block_size))
      × (bufsize < sizeof_config → answer ≡ (enospc, ram))
unfolding vblk_get_config
dev_get_config-reads vblk ram buffer bufsize h s b =
    let answer = init_vdev vblk ram buffer bufsize h in
    let low = write64 ram buffer vblk.total_sectors in
    let capacity =
      read64-write32-Apart low (buffer + offset_blk_size) buffer vblk.block_size (inr (omega arith))
      ∙ read64-write64 ram buffer vblk.total_sectors s in
    let block = read32-write32 low (buffer + offset_blk_size) vblk.block_size b in
    (
      (λ k.
          let large : ltb bufsize sizeof_config ≡ false = ground arith in
          rw (answer, large) (refl, capacity, block)),
      λ k. let little : ltb bufsize sizeof_config ≡ true = ground arith in rw (answer, little) refl,
    )

-- What a device offers: its block size always, a flush just when it caches writes; and never
-- VIRTIO_BLK_F_RO, not even when it is read-only.
offered_features_lem :
    (vblk : VirtioBlk)
    → (bit_and (offered_features vblk) (2 ^ f_blk_size) ≡ 2 ^ f_blk_size)
      × (bit_and (offered_features vblk) (2 ^ f_flush)
          ≡ (if vblk.writeback then 2 ^ f_flush else 0))
      × (bit_and (offered_features vblk) (2 ^ f_ro) ≡ 0)
unfolding offered_features
offered_features_lem vblk = elim (Bool-cases vblk.readonly) [
  | inl t ↦ elim (Bool-cases vblk.writeback) [
    | inl u ↦ rw (t, u) (refl, refl, refl)
    | inr u ↦ rw (t, u) (refl, refl, refl)
  ]
  | inr t ↦ elim (Bool-cases vblk.writeback) [
    | inl u ↦ rw (t, u) (refl, refl, refl)
    | inr u ↦ rw (t, u) (refl, refl, refl)
  ]
]

vblk_get_config-beside :
    (vblk : VirtioBlk) (ram : Ram) (buffer a : ℕ)
    → (a < buffer) ⊎ (buffer + sizeof_config ≤ a)
    → vblk_get_config vblk ram buffer a ≡ ram a
unfolding vblk_get_config write64 write32 write16 write8
vblk_get_config-beside vblk ram buffer a h = ground arith

-- An initialised device keeps to the 40 bytes of its configuration.
pub blk_init-IsFiller :
    (vblk : VirtioBlk) → (blk_init vblk).0 ≡ ok 0 → IsFiller (blk_init vblk).1.vdev
unfolding blk_init
blk_init-IsFiller vblk h = record {
  beside = λ ram buffer a k. ground (arith, h, k, vblk_get_config-beside vblk ram buffer a);
}
