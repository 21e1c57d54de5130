-- ===== src/Server/Tests.antt =====
-- The test server on the queue of `Virtqueue.Fixture`, with an image of eight sectors.
use libvhost_user.Base.{ℕ, ◌+◌, ◌*◌, ◌≤◌, ◌<◌, ◌≡◌, inr, refl, true, false, [], ◌∷◌, u32_mod}
use libvhost_user.Base.{pos as ok}
use libvhost_user.Virtqueue.Fixture.{base, ram, vq}
use libvhost_user.Blk.Device.{VirtioBlk, sector_size, blk_init}
use libvhost_user.Blk.Request.{write, BlkIoRequest}
use libvhost_user.Blk.Fixture.{disk}
use libvhost_user.Server.{ServerState}
use libvhost_user.Server.Fixture.{File, eight_sectors}
use libvhost_user.Server.Main.{Launch, image_device, after_init, main_device, main_device-in_image}

abbrev image_size : File → ℕ
image_size f = f.size

abbrev image_byte : File → ℕ → ℕ
image_byte f = f.byte

abbrev initial : ServerState File
initial = record { file = eight_sectors; vq = vq; ram = ram; live = 0; calls = [] }

-- A write of two vectors, to sector 2 on.
abbrev two_vecs : BlkIoRequest
two_vecs = record {
  type = write;
  sector = 2;
  total_sectors = 3;
  nvecs = 2;
  vecs = record { ptr = base; len = 512 } ∷ record { ptr = base + 8192; len = 1024 } ∷ [];
}

abbrev launch : Launch
launch = record {
  argc = 3;
  socket_exists = false;
  image_readable = true;
  image_writable = true;
  fd = ok 5;
  fstat_ok = true;
  st_blocks = 8;
  st_size = 5000;
}

abbrev registered : VirtioBlk
registered = (blk_init (image_device disk.vdev launch)).1

registered_lem : main_device disk.vdev launch ≡ inr registered
unfolding main_device after_init image_device blk_init
registered_lem = refl

main_device-in_image_example :
    (0 < registered.total_sectors)
    × (registered.total_sectors * sector_size ≤ 5000)
    × (registered.total_sectors < u32_mod)
    × (registered.readonly ≡ false)
main_device-in_image_example = main_device-in_image disk.vdev launch registered registered_lem
