-- ===== src/Server/Life.antt =====
-- The test server behind the vhost protocol: `process_event` as the handler that `main` registers.
use libvhost_user.Base.{
  ℕ, ◌^◌, ◌≤◌, ◌≡◌, ap, sym, subst, Bool, true, false, some, ℤ, ◌==ℤ◌, is_neg, minus_one, List,
  get_elem?,
}
use libvhost_user.Memory.{MemoryMap}
use libvhost_user.Ram.{Ram}
use libvhost_user.System.{Call}
use libvhost_user.Vdev.{VirtioDev}
use libvhost_user.Virtqueue.Layout.{max_size}
use libvhost_user.Virtqueue.Placed.{IsPlaced}
use libvhost_user.Blk.Device.{VirtioBlk}
use libvhost_user.Vhost.Device.{Vring, VhostDev}
use libvhost_user.Vhost.Event.{register_device_server}
use libvhost_user.Vhost.Client.{IsLawful}
use libvhost_user.Vhost.Sized.{IsDev}
use libvhost_user.Vhost.LifeCycle.{Reach, Reach-IsDev}
use libvhost_user.Vhost.Live.{Reach-IsAllLive}
use libvhost_user.Server.{DiskImage, ServerState, returned, process_event}
use libvhost_user.Server.Placed.{process_event-IsPlacedEnd}

module _ {F : Type 0} (image : DiskImage F) (can_alloc : ℕ → Bool) (vblk : VirtioBlk) where
  -- A call of `process_event` that returns, whatever the image holds and the driver adds meanwhile.
  -- The virtio device of the call is the part of `vblk` that it does not use.
  pub record Serves (mem : MemoryMap) (vdev : VirtioDev) (v : Vring) (ram : Ram)
      (r : ℤ × Vring × Ram) : Type 0 where
    pub fuel : ℕ
    pub file : F
    pub live : ℕ
    pub calls : List Call
    pub error : ℤ
    pub left : ServerState F
    pub returns :
        process_event image can_alloc mem vblk fuel
          (record { file = file; vq = v.vq; ram = ram; live = live; calls = calls })
        ≡ returned error left
    pub outcome : r ≡ (error, record v { vq = left.vq }, left.ram)

  -- The server fills the interface of its library.
  pub Serves-IsLawful : IsLawful Serves
  Serves-IsLawful = record {
    size_kept = λ mem vdev v ram r s. ap (λ (x : ℤ × Vring × Ram). x.1.size) s.outcome;
    queue_kept = λ mem vdev v ram r s.
        let st : ServerState F = record {
          file = s.file;
          vq = v.vq;
          ram = ram;
          live = s.live;
          calls = s.calls;
        } in
        let p = process_event-IsPlacedEnd image can_alloc mem vblk s.fuel st in
        subst {A = ℤ × Vring × Ram} (λ x. IsPlaced v.vq x.1.vq) (sym s.outcome)
          (p.placed s.error s.left s.returns);
  }

-- In a build with or without NDEBUG, the device that the server registers, over any events of its
-- sockets in which the code stays inside of its arrays, and of its vring, served by `process_event`
-- as long as its calls return: a vring for each queue, none larger than a queue may be; a client
-- while a vring is watched; and each vring that is started has a virtqueue whose size is a power of
-- two, 32768 at most.
pub server-IsDev :
    {F : Type 0} (image : DiskImage F) (can_alloc : ℕ → Bool) (ndebug : Bool) (vblk : VirtioBlk)
    (listenfd : ℤ) (first dev : VhostDev)
    → (register_device_server listenfd 1 vblk.vdev).0 ≡ some first
    → Reach ndebug (Serves image can_alloc vblk) first dev
    → IsDev dev
      × ((i : ℕ) (v : Vring)
          → get_elem? dev.vrings i ≡ some v
          → ((v.kickfd ==ℤ minus_one) ≡ false → is_neg dev.connfd ≡ false)
            × (v.is_started ≡ true → (k : ℕ) × (v.vq.qsize ≡ 2 ^ k) × (v.vq.qsize ≤ max_size)))
server-IsDev image can_alloc ndebug vblk listenfd first dev e r =
    let client = Serves image can_alloc vblk in
    let lawful = Serves-IsLawful image can_alloc vblk in
    let (sized, peers) = Reach-IsDev ndebug client lawful listenfd 1 vblk.vdev first dev e r in
    (
      sized,
      λ i v g. (
        peers i v g,
        Reach-IsAllLive ndebug client listenfd 1 vblk.vdev first dev i v lawful e r g,
      ),
    )
