-- ===== src/Virtqueue/Layout.antt =====
-- The structs of include/virtio/virtqueue.h and include/virtio/virtio10.h, and where their parts lie.
use libvhost_user.Base.{ℕ, ◌+◌, ◌*◌, Bool, ℤ}
use libvhost_user.Ram.{Ram, read16, read32, read64}

-- Constants of include/virtio/virtio10.h
abbrev pub max_size : ℕ
max_size = 32768

abbrev pub invalid_desc_id : ℕ
invalid_desc_id = max_size

abbrev pub desc_f_next : ℕ
desc_f_next = 1

abbrev pub desc_f_write : ℕ
desc_f_write = 2

abbrev pub desc_f_indirect : ℕ
desc_f_indirect = 4

abbrev pub sizeof_desc : ℕ
sizeof_desc = 16

-- `struct virtq_desc`, 16 bytes
pub record Desc : Type 0 where
  pub addr : ℕ
  pub len : ℕ
  pub flags : ℕ
  pub next : ℕ

unfoldable pub read_desc : Ram → ℕ → Desc
read_desc ram p = record {
  addr = read64 ram p;
  len = read32 ram (p + 8);
  flags = read16 ram (p + 12);
  next = read16 ram (p + 14);
}

-- `struct virtqueue_buffer`
pub record Buffer : Type 0 where
  pub ptr : ℕ
  pub len : ℕ
  pub ro : Bool

-- `struct virtqueue`. The three ring pointers are host addresses.
pub record Virtqueue : Type 0 where
  pub desc : ℕ
  pub avail : ℕ
  pub used : ℕ
  pub qsize : ℕ
  pub last_seen_avail : ℕ
  pub is_broken : Bool
  pub callfd : ℤ
  pub has_event_idx : Bool
  pub signalled_used_idx : ℕ

-- `struct virtqueue_buffer_iter`; `iter->vq` is the queue beside it.
pub record Iter : Type 0 where
  pub head : ℕ
  pub cur : ℕ
  pub ptbl : ℕ
  pub tbl_size : ℕ
  pub is_indirect : Bool
  pub nseen : ℕ

-- Addresses inside the rings: flags, idx and then the entries.
abbrev pub avail_ring : Virtqueue → ℕ → ℕ
avail_ring vq i = vq.avail + 4 + 2 * i

abbrev pub used_ring : Virtqueue → ℕ → ℕ
used_ring vq i = vq.used + 4 + 8 * i

abbrev pub get_used_event : Virtqueue → ℕ
get_used_event vq = avail_ring vq vq.qsize

abbrev pub get_avail_event : Virtqueue → ℕ
get_avail_event vq = used_ring vq vq.qsize
