-- ===== src/Vhost/Confined.antt =====
-- The memory that the backend of a block device gets to see is memory that the client shares.
use libvhost_user.Base.{
  ℕ, ◌+◌, ◌<◌, ◌≤◌, ◌≡◌, ◌≢◌, ap, subst, ◌∙◌, Bool, true, false, some, List, [], ◌∷◌, ℤ, All,
  u64_mod, u32_mod, ◌^◌, ◌*◌, ◌==◌,
}
use libvhost_user.Base.{pos as ok}
use libvhost_user.Memory.Spec.{host}
use libvhost_user.Memory.Valid.{IsValid}
use libvhost_user.Memory.Gap.{IsJoined}
use libvhost_user.Ram.{Ram}
use libvhost_user.System.{Call}
use libvhost_user.Virtqueue.Layout.{Virtqueue, Iter, max_size, sizeof_desc}
use libvhost_user.Virtqueue.Chain.{IsMapped}
use libvhost_user.Virtqueue.Heads.{next_head}
use libvhost_user.Virtqueue.Rings.{dequeue_avail}
use libvhost_user.Blk.Device.{VirtioBlk}
use libvhost_user.Blk.Request.{Iovec, VirtioBlkIo, get_id, t_in}
use libvhost_user.Blk.Gather.{IsVec}
use libvhost_user.Blk.Dispatch.{blk_dequeue_request}
use libvhost_user.Blk.Parse.{accepted, identity, blk_dequeue_request-IsTaken}
use libvhost_user.Vhost.Protocol.{Message, get_num_regions, get_region}
use libvhost_user.Vhost.Device.{VhostDev}
use libvhost_user.Vhost.MemTable.{Mmap, set_mem_table}
use libvhost_user.Vhost.Table.{IsMmap, set_mem_table-IsValid}
use libvhost_user.Vhost.Shared.{IsAmong, host-set_mem_table}

-- `n` bytes at `p` that are a range of the guest in the regions of the message.
pub record IsShared (mmap : Mmap) (msg : Message) (fds : ℕ → ℤ) (p n : ℕ) : Type 0 where
  pub gpa : ℕ
  pub bytes : (i : ℕ) → i < n → IsAmong mmap msg fds 0 (get_num_regions msg) (gpa + i) (p + i)

module _ (mmap : Mmap) (msg : Message) (fds : ℕ → ℤ) (w : IsMmap mmap)
    (fits : (i : ℕ)
      → i < get_num_regions msg
      → (get_region msg i).guest_addr + (get_region msg i).size ≤ u64_mod)
    (dev dev' : VhostDev) (calls : List Call)
    (taken : set_mem_table mmap msg fds dev ≡ (ok 0, dev', calls)) where
  abbrev Shares : ℕ → ℕ → Type 0
  Shares p n = IsShared mmap msg fds p n

  IsMapped-IsShared : (b : Bool) (p n : ℕ) → IsMapped dev'.memory_map b p n → Shares p n
  IsMapped-IsShared b p n m = record {
    gpa = m.gpa;
    bytes = λ i h.
        let result = ap (λ (r : ℤ × VhostDev × List Call). r.0) taken in
        let map = ap (λ (r : ℤ × VhostDev × List Call). host r.1.memory_map b (m.gpa + i)) taken in
        (host-set_mem_table mmap msg fds w fits dev b (m.gpa + i) (p + i) result).0
          (map ∙ m.bytes i h);
  }

  vecs-IsShared :
      (b : Bool) (vs : List Iovec)
      → All (IsVec dev'.memory_map b) vs
      → All (λ (v : Iovec). Shares v.ptr v.len) vs
  vecs-IsShared b [] all = tt
  vecs-IsShared b (v ∷ vs) (a, all) =
      (IsMapped-IsShared _ v.ptr v.len a.mapped, vecs-IsShared b vs all)

  -- A read or a write that a block device takes from a queue, when the client has sent a table that
  -- was accepted, gives the backend no memory but the memory that the client shares: each byte of its
  -- vectors, and its status byte, are in one of the regions of the table, at their place in its
  -- mapping. No region wraps around, `mmap` keeps mappings off the top of the address space, the map
  -- before was valid and the one built is joined, the device is below 2 TiB less 4 GiB, the queue has
  -- a readable descriptor table and gives a head below its size.
  pub blk_dequeue_request-IsShared :
      (can_alloc : ℕ → Bool) (vblk : VirtioBlk) (live : ℕ) (vq vq' : Virtqueue) (ram ram' : Ram)
      (it : Iter) (io : VirtioBlkIo)
      → IsValid dev.memory_map
      → IsJoined dev'.memory_map
      → vblk.total_sectors + 2 ^ 23 ≤ u32_mod
      → vq.qsize ≤ max_size
      → IsMapped dev'.memory_map true vq.desc (sizeof_desc * vq.qsize)
      → next_head vq ram < vq.qsize
      → dequeue_avail vq ram ≡ (some it, vq', ram')
      → (blk_dequeue_request can_alloc dev'.memory_map vblk live vq ram).io ≡ some io
      → io.bio.type ≢ get_id
      → All (λ (v : Iovec). IsShared mmap msg fds v.ptr v.len) io.bio.vecs
        × IsShared mmap msg fds io.pstatus 1
  blk_dequeue_request-IsShared can_alloc vblk live vq vq' ram ram' it io v join small h m low e f
        n =
      let valid : IsValid dev'.memory_map =
        subst {A = ℤ × VhostDev × List Call} (λ r. IsValid r.1.memory_map) taken
          (set_mem_table-IsValid mmap msg fds w fits dev v) in
      elim (blk_dequeue_request-IsTaken can_alloc dev'.memory_map vblk live valid join small vq vq'
        ram ram' it io h m low e f) [
          | accepted hdr a ↦ (
            vecs-IsShared (hdr.type == t_in) io.bio.vecs a.vecs_ok,
            IsMapped-IsShared false io.pstatus 1 a.status_mapped,
          )
          | identity g ↦ absurd (n g.is_get_id)
        ]
