-- ===== src/Vhost/Client.antt =====
-- What the handler of vrings of the program that uses the library may do: the interface that a
-- backend fills.
use libvhost_user.Base.{◌≡◌, Bool, true, not, ◌&&◌, ℤ}
use libvhost_user.Memory.{MemoryMap}
use libvhost_user.Ram.{Ram}
use libvhost_user.Vdev.{VirtioDev}
use libvhost_user.Virtqueue.Placed.{IsPlaced}
use libvhost_user.Vhost.Device.{Vring}
use libvhost_user.Vhost.Event.{VringCb}

-- For the memory table and the virtio device of a device, a vring of it that is started, and the
-- memory: a result that a call of the handler may have, and the vring and the memory that it leaves.
abbrev pub Client : Type 1
Client = MemoryMap → VirtioDev → Vring → Ram → ℤ × Vring × Ram → Type 0

-- The handler leaves the size of the vring alone, and its virtqueue where it is.
pub record IsLawful (client : Client) : Type 0 where
  pub size_kept :
      (mem : MemoryMap) (vdev : VirtioDev) (v : Vring) (ram : Ram) (r : ℤ × Vring × Ram)
      → client mem vdev v ram r
      → r.1.size ≡ v.size
  pub queue_kept :
      (mem : MemoryMap) (vdev : VirtioDev) (v : Vring) (ram : Ram) (r : ℤ × Vring × Ram)
      → client mem vdev v ram r
      → IsPlaced v.vq r.1.vq

-- A handler in a call of which it leaves `r`.
abbrev pub answers : ℤ × Vring × Ram → VringCb
answers r vdev vring ram = r

-- Whether an event of a vring calls the handler.
abbrev pub asks_client : (hung_up readable read_ok : Bool) → Vring → Bool
asks_client hung_up readable read_ok vring = not hung_up && readable && read_ok && vring.is_started

-- What the handler may leave in an event of a vring, where the event calls it.
abbrev pub MayAnswer :
    Client
    → (hung_up readable read_ok : Bool) → MemoryMap
    → VirtioDev
    → Vring
    → Ram
    → ℤ × Vring × Ram
    → Type 0
MayAnswer client hung_up readable read_ok mem vdev vring ram r =
    asks_client hung_up readable read_ok vring ≡ true → client mem vdev vring ram r
