-- ===== src/Server/Round.antt =====
-- A round of `process_event`, from the queue over the image to the used ring.
use libvhost_user.Base.{ℕ, ◌≡◌, ◌⊎◌, Bool, eio}
use libvhost_user.Memory.{MemoryMap}
use libvhost_user.Ram.{Ram, write8}
use libvhost_user.Virtqueue.Layout.{Virtqueue, Iter}
use libvhost_user.Virtqueue.Rings.{put_used}
use libvhost_user.Blk.Device.{VirtioBlk}
use libvhost_user.Blk.Request.{VirtioBlkIo}
use libvhost_user.Server.{
  DiskImage, ServerState, Processed, wild_read, process_one, io_failed, exited,
}
use libvhost_user.Server.Copy.{IsImage}
use libvhost_user.Server.Moved.{IsMoved, IsCut}

module _ {F : Type 0} (image : DiskImage F) (size : F → ℕ) (byte : F → ℕ → ℕ)
    (laws : IsImage image size byte) where
  module _ (can_alloc : ℕ → Bool) (mem : MemoryMap) (vblk : VirtioBlk)
      (again : ServerState F → Processed F) where
    -- What a round leaves of a chain with the iterator `it`, taken from the state `st`: with the
    -- request served and completed, or refused; or the process has ended.
    abbrev pub IsRound : ServerState F → Iter → Virtqueue → Ram → Type 0
    IsRound st it vq ram =
        ((io : VirtioBlkIo) × (ram2 : Ram) × (st' : ServerState F) × (process_one image can_alloc
              mem vblk again st
            ≡ again st')
          × IsMoved image size byte laws io st.file ram st'.file ram2
          × (st'.ram ≡ put_used vq (write8 ram2 io.pstatus 0) it.head 0)
          × (st'.live ≡ st.live))
        ⊎ (((st' : ServerState F) × (process_one image can_alloc mem vblk again st
                ≡ wild_read eio st')
              × (st'.file ≡ st.file)
              × (st'.ram ≡ put_used vq ram it.head 0))
            ⊎ ((io : VirtioBlkIo) × (process_one image can_alloc mem vblk again st
                  ≡ exited io_failed)
                × IsCut image size byte laws io st.file ram))
