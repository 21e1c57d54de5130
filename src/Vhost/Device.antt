-- ===== src/Vhost/Device.antt =====
-- include/vhost.h: the state of a vhost device and of its vrings.
use libvhost_user.Base.{ℕ, Bool, List, ℤ}
use libvhost_user.Memory.{MemoryMap}
use libvhost_user.Virtqueue.Layout.{Virtqueue}
use libvhost_user.Vdev.{VirtioDev}
use libvhost_user.Vhost.Protocol.{MemRegion}

-- `struct vring`. A file descriptor is -1 where there is none.
pub record Vring : Type 0 where
  pub kickfd : ℤ
  pub callfd : ℤ
  pub errfd : ℤ
  pub size : ℕ
  pub avail_base : ℕ
  pub avail_addr : ℕ
  pub desc_addr : ℕ
  pub used_addr : ℕ
  pub is_enabled : Bool
  pub is_started : Bool
  pub vq : Virtqueue

-- `struct vhost_dev`. The list `regions` holds the first `num_regions` of the array.
pub record VhostDev : Type 0 where
  pub listenfd : ℤ
  pub connfd : ℤ
  pub has_protocol_features : Bool
  pub negotiated_protocol_features : ℕ
  pub session_started : Bool
  pub num_queues : ℕ
  pub vrings : List Vring
  pub memory_map : MemoryMap
  pub regions : List MemRegion
  pub vdev : VirtioDev
