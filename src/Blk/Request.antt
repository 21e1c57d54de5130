-- ===== src/Blk/Request.antt =====
-- Requests in flight: the structs of include/virtio/blk.h and the header that the driver sends.
use libvhost_user.Base.{ℕ, ◌+◌, Bool, not, ◌&&◌, ◌==◌, List}
use libvhost_user.Ram.{Ram, read32, read64}
use libvhost_user.Virtqueue.Layout.{Buffer}

-- `struct virtio_iovec`
pub record Iovec : Type 0 where
  pub ptr : ℕ
  pub len : ℕ

pub data BlkIoType : Type 0 where
  read write flush get_id : BlkIoType

pub data BlkIoStatus : Type 0 where
  success ioerror : BlkIoStatus

-- VIRTIO_BLK_S_OK and VIRTIO_BLK_S_IOERR
abbrev pub status_value : BlkIoStatus → ℕ
status_value success = 0
status_value ioerror = 1

-- `struct blk_io_request`. GET_ID sets only the type and the vectors; the other numbers are then
-- whatever the allocation held, here 0.
pub record BlkIoRequest : Type 0 where
  pub type : BlkIoType
  pub sector : ℕ
  pub total_sectors : ℕ
  pub nvecs : ℕ
  pub vecs : List Iovec

-- `struct virtio_blk_io`; its `vq` is the queue that it was taken from.
pub record VirtioBlkIo : Type 0 where
  pub pstatus : ℕ
  pub head : ℕ
  pub bio : BlkIoRequest

-- Request types of include/virtio/virtio10.h
abbrev pub t_in : ℕ
t_in = 0

abbrev pub t_out : ℕ
t_out = 1

abbrev pub t_get_id : ℕ
t_get_id = 8

-- `struct virtio_blk_req`, 16 bytes, copied out of the first buffer
pub record BlkReq : Type 0 where
  pub type : ℕ
  pub sector : ℕ

abbrev pub sizeof_req : ℕ
sizeof_req = 16

unfoldable pub read_req : Ram → ℕ → BlkReq
read_req ram p = record { type = read32 ram p; sector = read64 ram (p + 8) }

unfoldable pub is_good_status_buf : Buffer → Bool
is_good_status_buf buf = buf.len == 1 && not buf.ro
