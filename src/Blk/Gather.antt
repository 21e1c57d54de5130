-- ===== src/Blk/Gather.antt =====
-- What a round of the loop of `blk_rw` does: it writes its vectors in bounds and keeps count.
use libvhost_user.Base.{
  ℕ, ◌+◌, ◌-◌, ◌/◌, ◌%◌, ◌^◌, ◌≤◌, ◌<◌, ◌≡◌, refl, ap, sym, subst, ◌∙◌, Bool, true, false, not,
  some, List, [], ◌∷◌, ◌++◌, add32, add64, arith, inl, inr, Bool-cases, Option-cases, u32_mod,
  length, length-append, All, bit_and,
}
use libvhost_user.Base.Bits.{bit_and_mask}
use libvhost_user.Memory.{MemoryMap}
use libvhost_user.Memory.Spec.{host}
use libvhost_user.Memory.Range.{host_readable}
use libvhost_user.Virtqueue.Layout.{Virtqueue, Iter, Buffer, max_size}
use libvhost_user.Virtqueue.Iterator.{has_next_buffer}
use libvhost_user.Virtqueue.Chain.{IsMapped}
use libvhost_user.Blk.Device.{VirtioBlk, sector_size, sector_shift}
use libvhost_user.Blk.Request.{Iovec, is_good_status_buf}
use libvhost_user.Blk.Rw.{
  RwState, RwEnd, finished, bad_request, alloc_failed, add_data, grow, rw_body,
}

abbrev pub sectors_of : List Iovec → ℕ
sectors_of [] = 0
sectors_of (v ∷ vs) = v.len / sector_size + sectors_of vs

sectors_of-append :
    (vs : List Iovec) (v : Iovec) → sectors_of (vs ++ v ∷ []) ≡ sectors_of vs + v.len / sector_size
sectors_of-append [] v = omega arith
sectors_of-append (w ∷ ws) v = omega (arith, sectors_of-append ws v)

All-append :
    (P : Iovec → Type 0) (vs : List Iovec) (v : Iovec) → All P vs → P v → All P (vs ++ v ∷ [])
All-append P [] v all p = (p, tt)
All-append P (w ∷ ws) v (q, all) p = (q, All-append P ws v all p)

-- A vector that the backend may use: guest memory, of whole sectors, that a read may write to.
pub record IsVec (mem : MemoryMap) (is_read : Bool) (v : Iovec) : Type 0 where
  pub mapped : IsMapped mem (not is_read) v.ptr v.len
  pub nonempty : 0 < v.len
  pub whole : v.len % sector_size ≡ 0
  pub len_fits : v.len < u32_mod

-- What holds each time round the loop, for a request from `sector` on.
pub record IsGathered (mem : MemoryMap) (vblk : VirtioBlk) (is_read : Bool) (sector : ℕ)
    (st : RwState) : Type 0 where
  pub counted : st.nvecs ≡ length st.vecs
  pub room : st.nvecs < st.maxvecs
  pub summed : st.total_sectors ≡ sectors_of st.vecs
  pub slack : st.maxvecs ≤ st.nvecs + 16
  pub fits : sector + st.total_sectors ≤ vblk.total_sectors
  pub vecs_ok : All (IsVec mem is_read) st.vecs

-- A case for each way through the body of the loop.
pub rw_body_elim :
    (can_alloc : ℕ → Bool) (vblk : VirtioBlk) (is_read : Bool) (sector : ℕ)
    (P : RwEnd × Virtqueue × Iter → Type 0) (more : RwState → RwEnd × Virtqueue × Iter)
    (st : RwState) (buf : Buffer) (vq : Virtqueue) (it : Iter)
    → (is_good_status_buf buf ≡ true → P (finished buf.ptr st, vq, it))
    → ((st1 : RwState) → P (bad_request st1, vq, it))
    → ((st1 : RwState) → P (alloc_failed st1, vq, it))
    → ((st1 st2 : RwState)
        → add_data vblk is_read sector st buf ≡ some st1
        → grow can_alloc st1 ≡ some st2
        → P (more st2))
    → P (rw_body can_alloc vblk is_read sector more st buf vq it)
unfolding rw_body
rw_body_elim can_alloc vblk is_read sector P more st buf vq it good bad failed go =
    elim (Bool-cases (not (has_next_buffer it))) [
      | inl t ↦ rw t (elim (Bool-cases (is_good_status_buf buf)) [
        | inl u ↦ rw u (good u)
        | inr u ↦ rw u (bad st)
      ])
      | inr t ↦ rw t (elim (Option-cases (add_data vblk is_read sector st buf)) [
        | inl u ↦ rw u (bad st)
        | inr (st1, u) ↦ rw u (elim (Option-cases (grow can_alloc st1)) [
          | inl x ↦ rw x (failed st1)
          | inr (st2, x) ↦ rw x (go st1 st2 u x)
        ])
      ])
    ]

-- What one data buffer does to the state.
record IsAdded (vblk : VirtioBlk) (is_read : Bool) (sector : ℕ) (st : RwState) (buf : Buffer)
    (st1 : RwState) : Type 0 where
  vecs_added : st1.vecs ≡ st.vecs ++ record { ptr = buf.ptr; len = buf.len } ∷ []
  total_added : st1.total_sectors ≡ add32 st.total_sectors (buf.len / 2 ^ sector_shift)
  nvecs_added : st1.nvecs ≡ add32 st.nvecs 1
  maxvecs_kept : st1.maxvecs ≡ st.maxvecs
  nonempty : 0 < buf.len
  whole : bit_and buf.len (sector_size - 1) ≡ 0
  writable : is_read ≡ true → buf.ro ≡ false
  fits : add64 sector st1.total_sectors ≤ vblk.total_sectors

add_data-IsAdded :
    (vblk : VirtioBlk) (is_read : Bool) (sector : ℕ) (st st1 : RwState) (buf : Buffer)
    → add_data vblk is_read sector st buf ≡ some st1
    → IsAdded vblk is_read sector st buf st1
unfolding add_data
add_data-IsAdded vblk is_read sector st st1 buf e = record {
  vecs_added = ground arith;
  total_added = ground arith;
  nvecs_added = ground arith;
  maxvecs_kept = ground arith;
  nonempty = ground arith;
  whole = ground arith;
  writable = λ r. ground arith;
  fits = ground arith;
}

IsAdded-IsVec :
    (mem : MemoryMap) (vblk : VirtioBlk) (is_read : Bool) (sector : ℕ) (st st1 : RwState)
    (buf : Buffer)
    → IsAdded vblk is_read sector st buf st1
    → IsMapped mem buf.ro buf.ptr buf.len
    → buf.len < u32_mod
    → IsVec mem is_read (record { ptr = buf.ptr; len = buf.len })
IsAdded-IsVec mem vblk is_read sector st st1 buf a m len_lt = record {
  mapped = record { gpa = m.gpa; bytes = λ i b. access is_read i a.writable (m.bytes i b) };
  nonempty = a.nonempty;
  whole = sym (bit_and_mask buf.len 9) ∙ a.whole;
  len_fits = len_lt;
}
  where
    access :
        (r : Bool) (i : ℕ)
        → (r ≡ true → buf.ro ≡ false)
        → host mem buf.ro (m.gpa + i) ≡ some (buf.ptr + i)
        → host mem (not r) (m.gpa + i) ≡ some (buf.ptr + i)
    access true i w e =
        subst {A = Bool} (λ b. host mem b (m.gpa + i) ≡ some (buf.ptr + i)) (w refl) e
    access false i w e = host_readable mem buf.ro (m.gpa + i) e

-- One more data buffer keeps the invariant.
pub grow-IsGathered :
    (can_alloc : ℕ → Bool) (mem : MemoryMap) (vblk : VirtioBlk) (is_read : Bool) (sector : ℕ)
    (st st1 st2 : RwState) (buf : Buffer)
    → vblk.total_sectors + 2 ^ 23 ≤ u32_mod
    → st.nvecs ≤ max_size
    → buf.len < u32_mod
    → IsMapped mem buf.ro buf.ptr buf.len
    → IsGathered mem vblk is_read sector st
    → add_data vblk is_read sector st buf ≡ some st1
    → grow can_alloc st1 ≡ some st2
    → (st2.nvecs ≡ st.nvecs + 1) × IsGathered mem vblk is_read sector st2
unfolding grow
grow-IsGathered can_alloc mem vblk is_read sector st st1 st2 buf small few len_lt m g e f =
    let a = add_data-IsAdded vblk is_read sector st st1 buf e in
    let same : (st2.vecs ≡ st1.vecs)
        × (st2.nvecs ≡ st1.nvecs)
        × (st2.total_sectors ≡ st1.total_sectors) =
      ground (arith, f) in
    let room : (st2.nvecs < st2.maxvecs) × (st2.maxvecs ≤ st2.nvecs + 16) =
      ground (arith, f, a.nvecs_added, a.maxvecs_kept, g.room, g.slack) in
    let vecs_eq : st2.vecs ≡ st.vecs ++ record { ptr = buf.ptr; len = buf.len } ∷ [] =
      same.0 ∙ a.vecs_added in
    let total_eq : st1.total_sectors ≡ st.total_sectors + buf.len / 2 ^ sector_shift =
      omega (arith, a.total_added, g.fits) in
    (
      omega (arith, same.1, a.nvecs_added),
      record {
        counted = omega (
          arith,
          same.1,
          a.nvecs_added,
          g.counted,
          ap length vecs_eq,
          length-append st.vecs (record { ptr = buf.ptr; len = buf.len } ∷ []),
        );
        room = room.0;
        slack = room.1;
        summed = omega (
          arith,
          same.2,
          total_eq,
          g.summed,
          ap sectors_of vecs_eq,
          sectors_of-append st.vecs (record { ptr = buf.ptr; len = buf.len }),
        );
        fits = omega (arith, same.2, total_eq, a.fits, g.fits);
        vecs_ok =
            subst {A = List Iovec} (λ vs. All (IsVec mem is_read) vs) (sym vecs_eq)
              (All-append (IsVec mem is_read) st.vecs (record { ptr = buf.ptr; len = buf.len })
                g.vecs_ok (IsAdded-IsVec mem vblk is_read sector st st1 buf a m len_lt));
      },
    )
