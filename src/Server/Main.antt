-- ===== src/Server/Main.antt =====
-- The start of the test server: `main` of tools/server/server.c.
use libvhost_user.Base.{
  ℕ, ◌*◌, ◌/◌, ◌%◌, ◌≤◌, ◌<◌, ◌≡◌, ◌⊎◌, ap, sym, ◌∙◌, Bool, false, not, ◌==◌, if◌then◌else◌, arith,
  inl, inr, Bool-cases, u32_mod, ℤ, ◌==ℤ◌, is_neg,
}
use libvhost_user.Base.{pos as ok}
use libvhost_user.Vdev.{VirtioDev}
use libvhost_user.Base.{==ℤ→eq}
use libvhost_user.Blk.Init.{blk_init_iff}
use libvhost_user.Blk.Device.{VirtioBlk, sector_size, blk_init}

-- What `main` asks the system: the number of its arguments, `access` of the socket's path and of the
-- image, `open`, `fstat` and the two numbers that it reads of the image.
pub record Launch : Type 0 where
  pub argc : ℕ
  pub socket_exists : Bool
  pub image_readable : Bool
  pub image_writable : Bool
  pub fd : ℤ
  pub fstat_ok : Bool
  pub st_blocks : ℕ
  pub st_size : ℕ

-- The messages with which `main` ends the process before it registers its device.
pub data Refusal : Type 0 where
  usage socket_taken no_image open_failed fstat_failed no_blocks init_failed : Refusal

-- The stack variable `vblk`, whose device part is `vdev` before `virtio_blk_init`.
unfoldable pub image_device : VirtioDev → Launch → VirtioBlk
image_device vdev a = record {
  vdev = vdev;
  total_sectors = a.st_size / sector_size % u32_mod;
  block_size = sector_size;
  readonly = not a.image_writable;
  writeback = false;
}

unfoldable pub after_init : ℤ × VirtioBlk → Refusal ⊎ VirtioBlk
after_init (error, vblk) = if error ==ℤ ok 0 then inr vblk else inl init_failed

-- `main` up to `vhost_register_device_server`: the device that it registers, with one queue.
unfoldable pub main_device : VirtioDev → Launch → Refusal ⊎ VirtioBlk
main_device vdev a =
    if not (a.argc == 3)
    then inl usage
    else if a.socket_exists
    then inl socket_taken
    else if not a.image_readable
    then inl no_image
    else if is_neg a.fd
    then inl open_failed
    else if not a.fstat_ok
    then inl fstat_failed
    else if a.st_blocks == 0
    then inl no_blocks
    else after_init (blk_init (image_device vdev a))

passed_guards :
    (vdev : VirtioDev) (a : Launch) (vblk : VirtioBlk)
    → main_device vdev a ≡ inr vblk
    → after_init (blk_init (image_device vdev a)) ≡ inr vblk
unfolding main_device
passed_guards vdev a vblk e = ground arith

blk_init-kept :
    (d : VirtioBlk)
    → ((blk_init d).1.total_sectors ≡ d.total_sectors) × ((blk_init d).1.readonly ≡ d.readonly)
unfolding blk_init
blk_init-kept d = ground arith

initialised :
    (d vblk : VirtioBlk)
    → after_init (blk_init d) ≡ inr vblk
    → (0 < d.total_sectors) × (vblk.total_sectors ≡ d.total_sectors) × (vblk.readonly ≡ d.readonly)
unfolding after_init
initialised d vblk e = elim (Bool-cases ((blk_init d).0 ==ℤ ok 0)) [
  | inl t ↦
      let (size, ro) = blk_init-kept d in
      let (block, whole, some_sectors) = (blk_init_iff d).0.0 (==ℤ→eq (blk_init d).0 (ok 0) t) in
      let out : inr (blk_init d).1 ≡ inr vblk = rw t at e in
      let same : (blk_init d).1 ≡ vblk = cc in
      (
        omega arith,
        sym (ap (λ (v : VirtioBlk). v.total_sectors) same) ∙ size,
        sym (ap (λ (v : VirtioBlk). v.readonly) same) ∙ ro,
      )
  | inr t ↦ absurd (ground (arith, e, t))
]

-- A device that the server registers has at least one sector, and all its sectors are within the
-- image; it is read-only if the image cannot be written to.
pub main_device-in_image :
    (vdev : VirtioDev) (a : Launch) (vblk : VirtioBlk)
    → main_device vdev a ≡ inr vblk
    → (0 < vblk.total_sectors)
      × (vblk.total_sectors * sector_size ≤ a.st_size)
      × (vblk.total_sectors < u32_mod)
      × (vblk.readonly ≡ not a.image_writable)
unfolding image_device
main_device-in_image vdev a vblk e =
    let (some_sectors, same, ro) =
      initialised (image_device vdev a) vblk (passed_guards vdev a vblk e) in
    (ground arith, ground arith, ground arith, ro)
