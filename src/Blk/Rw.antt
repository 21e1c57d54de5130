-- ===== src/Blk/Rw.antt =====
-- `blk_rw`: collecting the data buffers of a read or a write.
use libvhost_user.Base.{
  ℕ, zero, suc, ◌+◌, ◌-◌, ◌/◌, ◌^◌, Bool, not, ◌&&◌, ◌||◌, Option, none, some, List, [], ◌∷◌, ◌++◌,
  ltb, leb, ◌==◌, if◌then◌else◌, has_any, add32, add64,
}
use libvhost_user.Memory.{MemoryMap}
use libvhost_user.Ram.{Ram}
use libvhost_user.Virtqueue.Layout.{Virtqueue, Iter, Buffer}
use libvhost_user.Virtqueue.Iterator.{next_buffer, has_next_buffer}
use libvhost_user.Blk.Device.{VirtioBlk, sector_size, sector_shift}
use libvhost_user.Blk.Request.{
  Iovec, read, write, VirtioBlkIo, BlkReq, t_in, t_out, is_good_status_buf,
}

-- The variables of the loop. `live` counts the blocks that are allocated and not freed.
pub record RwState : Type 0 where
  pub vecs : List Iovec
  pub total_sectors : ℕ
  pub nvecs : ℕ
  pub maxvecs : ℕ
  pub live : ℕ

-- How the loop ends: by its condition or `break`, with the status pointer or 0 for NULL; by `goto
-- error_out` with the block still there; or there after a `realloc` that failed, with the pointer
-- to the block lost.
pub data RwEnd : Type 0 where
  finished : ℕ → RwState → RwEnd
  bad_request : RwState → RwEnd
  alloc_failed : RwState → RwEnd
  out_of_fuel : RwEnd

-- One data buffer: `none` is `goto error_out`.
unfoldable pub add_data :
    VirtioBlk → (is_read : Bool) (sector : ℕ) → RwState → Buffer → Option RwState
add_data vblk is_read sector st buf =
    let total = add32 st.total_sectors (buf.len / 2 ^ sector_shift) in
    if (buf.len == 0 || has_any buf.len (sector_size - 1)) || (is_read && buf.ro)
    then none
    else if ltb vblk.total_sectors (add64 sector total)
    then none
    else some (record st {
      vecs = st.vecs ++ record { ptr = buf.ptr; len = buf.len } ∷ [];
      total_sectors = total;
      nvecs = add32 st.nvecs 1;
    })

-- Room for the next vector: `none` where `realloc` fails. `can_alloc n`: an allocation for `n`
-- vectors succeeds.
unfoldable pub grow : (can_alloc : ℕ → Bool) → RwState → Option RwState
grow can_alloc st =
    if st.nvecs == st.maxvecs
    then if can_alloc (add32 st.maxvecs 16)
      then some (record st { maxvecs = add32 st.maxvecs 16 })
      else none
    else some st

module _ (can_alloc : ℕ → Bool) (vblk : VirtioBlk) (is_read : Bool) (sector : ℕ) where
  -- The body of the loop behind a call of `virtqueue_next_buffer` that found `buf`, with what comes
  -- after as an argument.
  unfoldable pub rw_body :
      (RwState → RwEnd × Virtqueue × Iter)
      → RwState
      → Buffer
      → Virtqueue
      → Iter
      → RwEnd × Virtqueue × Iter
  rw_body more st buf vq it =
      if not (has_next_buffer it)
      then ((if is_good_status_buf buf then finished buf.ptr st else bad_request st), vq, it)
      else elim (add_data vblk is_read sector st buf) [
        | none ↦ (bad_request st, vq, it)
        | some st' ↦ elim (grow can_alloc st') [
          | none ↦ (alloc_failed st', vq, it)
          | some st'' ↦ more st''
        ]
      ]

  unfoldable pub rw_step :
      (Virtqueue → Iter → RwState → RwEnd × Virtqueue × Iter)
      → RwState
      → Option Buffer × Virtqueue × Iter
      → RwEnd × Virtqueue × Iter
  rw_step more st (none, vq, it) = (finished 0 st, vq, it)
  rw_step more st (some buf, vq, it) = rw_body (more vq it) st buf vq it

module _ (can_alloc : ℕ → Bool) (mem : MemoryMap) (ram : Ram) (vblk : VirtioBlk) (is_read : Bool)
    (sector : ℕ) where
  -- The loop runs once for each buffer of the chain.
  unfoldable pub rw_loop : ℕ → Virtqueue → Iter → RwState → RwEnd × Virtqueue × Iter
  rw_loop zero vq it st = (out_of_fuel, vq, it)
  rw_loop (suc fuel) vq it st =
      rw_step can_alloc vblk is_read sector (rw_loop fuel) st (next_buffer mem ram vq it)

-- What a call of one of the request functions leaves behind.
pub record IoResult : Type 0 where
  pub io : Option VirtioBlkIo
  pub vq : Virtqueue
  pub iter : Iter
  pub live : ℕ

-- The fields that `blk_rw` sets before it returns the block.
abbrev pub rw_io : (is_read : Bool) (sector pstatus : ℕ) → RwState → Iter → VirtioBlkIo
rw_io is_read sector pstatus st it = record {
  pstatus = pstatus;
  head = it.head;
  bio = record {
    type = if is_read then read else write;
    sector = sector;
    total_sectors = st.total_sectors;
    nvecs = st.nvecs;
    vecs = st.vecs;
  };
}

-- The code behind the loop.
unfoldable pub rw_finish : (is_read : Bool) (sector : ℕ) → RwEnd × Virtqueue × Iter → IoResult
rw_finish is_read sector (finished pstatus st, vq, it) =
    if st.total_sectors == 0 || pstatus == 0
    then record { io = none; vq = vq; iter = it; live = st.live }
    else record {
      io = some (rw_io is_read sector pstatus st it);
      vq = vq;
      iter = it;
      live = st.live;
    }
rw_finish is_read sector (bad_request st, vq, it) = record {
  io = none;
  vq = vq;
  iter = it;
  live = st.live - 1;
}
rw_finish is_read sector (alloc_failed st, vq, it) = record {
  io = none;
  vq = vq;
  iter = it;
  live = st.live;
}
rw_finish is_read sector (out_of_fuel, vq, it) = record { io = none; vq = vq; iter = it; live = 0 }

-- The first allocation, for 16 vectors.
abbrev pub fresh_state : ℕ → RwState
fresh_state live = record { vecs = []; total_sectors = 0; nvecs = 0; maxvecs = 16; live = live + 1 }

-- One round more than the queue has descriptors: each round counts one against the queue size.
abbrev pub rw_fuel : Virtqueue → ℕ
rw_fuel vq = vq.qsize + 1

unfoldable pub blk_rw :
    (ℕ → Bool) → MemoryMap → Ram → VirtioBlk → BlkReq → Virtqueue → Iter → (live : ℕ) → IoResult
blk_rw can_alloc mem ram vblk hdr vq it live =
    let is_read = hdr.type == t_in in
    let refused : IoResult = record { io = none; vq = vq; iter = it; live = live } in
    if leb vblk.total_sectors hdr.sector
    then refused
    else if hdr.type == t_out && vblk.readonly
    then refused
    else if not (can_alloc 16)
    then refused
    else rw_finish is_read hdr.sector
        (rw_loop can_alloc mem ram vblk is_read hdr.sector (rw_fuel vq) vq it (fresh_state live))
