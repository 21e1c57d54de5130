-- ===== src/Blk/Accept.antt =====
-- What a read or write request that `blk_rw` accepts looks like.
use libvhost_user.Base.{
  ℕ, zero, suc, ◌+◌, ◌^◌, ◌≤◌, ◌<◌, ◌≡◌, ◌≢◌, refl, ap, subst, Bool, true, false, not, ◌&&◌, ◌||◌,
  Option, none, some, leb, ◌==◌, if◌then◌else◌, arith, inl, inr, Bool-cases, u32_mod, length, All,
}
use libvhost_user.Memory.{MemoryMap}
use libvhost_user.Memory.Valid.{IsValid}
use libvhost_user.Memory.Gap.{IsJoined}
use libvhost_user.Ram.{Ram}
use libvhost_user.Virtqueue.Layout.{Virtqueue, Iter, Buffer, max_size}
use libvhost_user.Virtqueue.Iterator.{next_buffer}
use libvhost_user.Virtqueue.Loop.{next_buffer-nseen}
use libvhost_user.Virtqueue.Frame.{next_buffer-IsFramed}
use libvhost_user.Virtqueue.Chain.{IsMapped, IsSafe, IsSafeStep, next_buffer-IsSafeStep}
use libvhost_user.Blk.Device.{VirtioBlk}
use libvhost_user.Blk.Request.{read, write, BlkReq, VirtioBlkIo, t_in, t_out, is_good_status_buf}
use libvhost_user.Blk.Rw.{
  RwState, RwEnd, finished, bad_request, alloc_failed, out_of_fuel, rw_step, rw_loop, rw_fuel,
  fresh_state, rw_finish, rw_io, blk_rw,
}
use libvhost_user.Blk.Gather.{sectors_of, IsVec, IsGathered, rw_body_elim, grow-IsGathered}

-- How the loop may end: with the vectors in order, and a status byte to write to or none.
abbrev IsEnd :
    MemoryMap → VirtioBlk → (is_read : Bool) (sector : ℕ) → RwEnd × Virtqueue × Iter → Type 0
IsEnd mem vblk is_read sector r =
    (p : ℕ) (st : RwState)
    → r.0 ≡ finished p st
    → IsGathered mem vblk is_read sector st × (p ≢ 0 → IsMapped mem false p 1)

ended :
    {mem : MemoryMap} {vblk : VirtioBlk} {is_read : Bool} {sector : ℕ} {q : ℕ} (st : RwState)
    → (q ≢ 0 → IsMapped mem false q 1)
    → IsGathered mem vblk is_read sector st
    → (p : ℕ) (st' : RwState) → finished q st ≡ finished p st'
    → IsGathered mem vblk is_read sector st' × (p ≢ 0 → IsMapped mem false p 1)
ended {mem} {vblk} {is_read} {sector} {q} st m g p st' e =
    let ptr_eq : q ≡ p = cc in
    let st_eq : st ≡ st' = cc in
    (
      subst {A = RwState} (λ t. IsGathered mem vblk is_read sector t) st_eq g,
      subst {A = ℕ} (λ n. n ≢ 0 → IsMapped mem false n 1) ptr_eq m,
    )

status-IsMapped :
    (mem : MemoryMap) (buf : Buffer)
    → is_good_status_buf buf ≡ true
    → IsMapped mem buf.ro buf.ptr buf.len
    → IsMapped mem false buf.ptr 1
unfolding is_good_status_buf
status-IsMapped mem buf good m =
    let writable : buf.ro ≡ false = ground arith in
    let one : buf.len ≡ 1 = ground arith in
    subst {A = Bool} (λ b. IsMapped mem b buf.ptr 1) writable
      (subst {A = ℕ} (λ n. IsMapped mem buf.ro buf.ptr n) one m)

module _ (can_alloc : ℕ → Bool) (mem : MemoryMap) (ram : Ram) (vblk : VirtioBlk) (is_read : Bool)
    (sector : ℕ) (v : IsValid mem) (w : IsJoined mem)
    (small : vblk.total_sectors + 2 ^ 23 ≤ u32_mod) where
  rw_loop-IsEnd :
      (fuel : ℕ) (vq : Virtqueue) (it : Iter) (st : RwState)
      → vq.qsize ≤ max_size
      → it.nseen ≤ vq.qsize
      → st.nvecs ≤ it.nseen
      → IsSafe mem it
      → IsGathered mem vblk is_read sector st
      → IsEnd mem vblk is_read sector (rw_loop can_alloc mem ram vblk is_read sector fuel vq it st)
  unfolding rw_loop rw_step
  rw_loop-IsEnd zero vq it st h k c s g = λ p st' e. absurd (ground arith)
  rw_loop-IsEnd (suc fuel) vq it st h k c s g =
      step (rw_loop-IsEnd fuel) (next_buffer mem ram vq it) refl
        (next_buffer-IsSafeStep mem ram v w vq it s)
    where
      step :
          ((vq1 : Virtqueue) (it1 : Iter) (st1 : RwState)
            → vq1.qsize ≤ max_size
            → it1.nseen ≤ vq1.qsize
            → st1.nvecs ≤ it1.nseen
            → IsSafe mem it1
            → IsGathered mem vblk is_read sector st1
            → IsEnd mem vblk is_read sector
                (rw_loop can_alloc mem ram vblk is_read sector fuel vq1 it1 st1))
          → (r : Option Buffer × Virtqueue × Iter) → next_buffer mem ram vq it ≡ r
          → IsSafeStep mem ram v w r
          → IsEnd mem vblk is_read sector (
              rw_step can_alloc vblk is_read sector
                (rw_loop can_alloc mem ram vblk is_read sector fuel)
                st
                r)
      step ih (none, vq', it') e safe = ended st (λ n. absurd (n refl)) g
      step ih (some buf, vq', it') e safe =
          let (same, more, bound) = next_buffer-nseen mem ram vq vq' it it' buf (omega arith) e in
          let q : vq'.qsize ≡ vq.qsize = ap (λ (t : Virtqueue). t.qsize) same in
          let (m, positive) = safe.buffer_mapped buf refl in
          let len_lt : buf.len < u32_mod =
            (next_buffer-IsFramed mem ram vq it).len_fits buf
              (ap (λ (t : Option Buffer × Virtqueue × Iter). t.0) e) in
          rw_body_elim can_alloc vblk is_read sector (IsEnd mem vblk is_read sector)
            (rw_loop can_alloc mem ram vblk is_read sector fuel vq' it') st buf vq' it'
            (λ good. ended st (λ _. status-IsMapped mem buf good m) g)
            (λ _ p st' x. absurd (ground arith)) (λ _ p st' x. absurd (ground arith))
            (λ st1 st2 added grown.
              let (n, g2) =
                grow-IsGathered can_alloc mem vblk is_read sector st st1 st2 buf small (omega arith)
                  len_lt m g added grown in
              ih vq' it' st2 (omega arith) (omega arith) (omega arith) safe.iter_safe g2)

-- A request for the backend: it lies within the capacity, its vectors are guest memory of as many
-- sectors, and its status byte is guest memory that may be written to.
pub record IsAccepted (mem : MemoryMap) (vblk : VirtioBlk) (hdr : BlkReq) (io : VirtioBlkIo)
    : Type 0 where
  pub sector_kept : io.bio.sector ≡ hdr.sector
  pub type_kept : io.bio.type ≡ (if hdr.type == t_in then read else write)
  pub some_sectors : 0 < io.bio.total_sectors
  pub in_capacity : io.bio.sector + io.bio.total_sectors ≤ vblk.total_sectors
  pub counted : io.bio.nvecs ≡ length io.bio.vecs
  pub summed : io.bio.total_sectors ≡ sectors_of io.bio.vecs
  pub vecs_ok : All (IsVec mem (hdr.type == t_in)) io.bio.vecs
  pub status_mapped : IsMapped mem false io.pstatus 1
  pub may_write : hdr.type ≡ t_out → vblk.readonly ≡ false

module _ (mem : MemoryMap) (vblk : VirtioBlk) (hdr : BlkReq) where
  rw_finish-IsAccepted :
      (r : RwEnd × Virtqueue × Iter) (io : VirtioBlkIo)
      → (hdr.type ≡ t_out → vblk.readonly ≡ false)
      → IsEnd mem vblk (hdr.type == t_in) hdr.sector r
      → (rw_finish (hdr.type == t_in) hdr.sector r).io ≡ some io
      → IsAccepted mem vblk hdr io
  unfolding rw_finish
  rw_finish-IsAccepted (finished p st, vq, it) io may ok e =
      elim (Bool-cases (st.total_sectors == 0 || p == 0)) [
        | inl t ↦ absurd (ground (arith, e, t))
        | inr t ↦
            let (g, m) = ok p st refl in
            let e' : some (rw_io (hdr.type == t_in) hdr.sector p st it) ≡ some io = rw t at e in
            let io_eq : rw_io (hdr.type == t_in) hdr.sector p st it ≡ io = cc in
            subst {A = VirtioBlkIo} (IsAccepted mem vblk hdr) io_eq (record {
              sector_kept = refl;
              type_kept = refl;
              some_sectors = ground (arith, t);
              in_capacity = g.fits;
              counted = g.counted;
              summed = g.summed;
              vecs_ok = g.vecs_ok;
              status_mapped = m (ground (arith, t));
              may_write = may;
            })
      ]
  rw_finish-IsAccepted (bad_request st, vq, it) io may ok e = absurd (ground arith)
  rw_finish-IsAccepted (alloc_failed st, vq, it) io may ok e = absurd (ground arith)
  rw_finish-IsAccepted (out_of_fuel, vq, it) io may ok e = absurd (ground arith)

fresh-IsGathered :
    (mem : MemoryMap) (vblk : VirtioBlk) (is_read : Bool) (sector live : ℕ)
    → sector < vblk.total_sectors
    → IsGathered mem vblk is_read sector (fresh_state live)
fresh-IsGathered mem vblk is_read sector live h = record {
  counted = refl;
  room = omega arith;
  slack = omega arith;
  summed = refl;
  fits = omega arith;
  vecs_ok = tt;
}

-- A read or a write that `blk_rw` accepts lies within the capacity of the device, has at least one
-- sector and as many as its vectors together; each vector is mapped guest memory of whole sectors,
-- writable for a read; the status byte is writable guest memory; and a read-only device takes no
-- write. The map is valid and joined, the iterator safe, and the device below 2 TiB less 4 GiB.
pub blk_rw-IsAccepted :
    (can_alloc : ℕ → Bool) (mem : MemoryMap) (ram : Ram) (vblk : VirtioBlk) (hdr : BlkReq)
    (vq : Virtqueue) (it : Iter) (live : ℕ) (io : VirtioBlkIo)
    → IsValid mem
    → IsJoined mem
    → vblk.total_sectors + 2 ^ 23 ≤ u32_mod
    → vq.qsize ≤ max_size
    → it.nseen ≤ vq.qsize
    → IsSafe mem it
    → (blk_rw can_alloc mem ram vblk hdr vq it live).io ≡ some io
    → IsAccepted mem vblk hdr io
unfolding blk_rw
blk_rw-IsAccepted can_alloc mem ram vblk hdr vq it live io v w small h k s e =
    elim (Bool-cases (leb vblk.total_sectors hdr.sector)) [
      | inl t ↦ absurd (ground (arith, e, t))
      | inr t ↦ elim (Bool-cases (hdr.type == t_out && vblk.readonly)) [
        | inl u ↦ absurd (ground (arith, e, t, u))
        | inr u ↦ elim (Bool-cases (not (can_alloc 16))) [
          | inl x ↦ absurd (ground (arith, e, t, u, x))
          | inr x ↦
              rw_finish-IsAccepted mem vblk hdr
                (rw_loop can_alloc mem ram vblk (hdr.type == t_in) hdr.sector (rw_fuel vq) vq it
                  (fresh_state live))
                io (λ y. ground (arith, u, y))
                (rw_loop-IsEnd can_alloc mem ram vblk (hdr.type == t_in) hdr.sector v w small
                  (rw_fuel vq) vq it (fresh_state live) h k (omega arith) s
                  (fresh-IsGathered mem vblk (hdr.type == t_in) hdr.sector live
                    (ground (arith, t))))
                (rw (t, u, x) at e)
        ]
      ]
    ]
