-- ===== src/Blk/Parse.antt =====
-- What a request that the device hands to the backend is like, from the queue on.
use libvhost_user.Base.{
  ℕ, ◌+◌, ◌*◌, ◌^◌, ◌≤◌, ◌<◌, ◌≡◌, refl, ap, sym, ◌∙◌, Bool, true, not, ◌||◌, Option, none, some,
  [], ◌∷◌, ◌==◌, arith, inl, inr, Bool-cases, u32_mod,
}
use libvhost_user.Memory.{MemoryMap}
use libvhost_user.Memory.Valid.{IsValid}
use libvhost_user.Memory.Gap.{IsJoined}
use libvhost_user.Ram.{Ram}
use libvhost_user.Virtqueue.Layout.{Virtqueue, Iter, Buffer, max_size, sizeof_desc}
use libvhost_user.Virtqueue.Iterator.{next_buffer, start_desc_chain}
use libvhost_user.Virtqueue.Rings.{dequeue_avail}
use libvhost_user.Virtqueue.Loop.{next_buffer-nseen}
use libvhost_user.Virtqueue.Chain.{IsMapped, IsSafe, IsSafeStep, next_buffer-IsSafeStep}
use libvhost_user.Virtqueue.Heads.{next_head, dequeue_avail-IsSafe}
use libvhost_user.Blk.Device.{VirtioBlk}
use libvhost_user.Blk.Request.{Iovec, get_id, BlkReq, VirtioBlkIo, t_in, t_out, t_get_id, read_req}
use libvhost_user.Blk.Rw.{IoResult}
use libvhost_user.Blk.Accept.{IsAccepted, blk_rw-IsAccepted}
use libvhost_user.Blk.Dispatch.{
  get_id_of, get_id_second, get_id_first, blk_get_id, switch_type, parse_first, parse, Outcome,
  outcome_of, handle_blk_request, dequeue_from, blk_dequeue_request,
}
use libvhost_user.Blk.Lifecycle.{blk_dequeue_request_not_broken, not_broken}

-- A GET_ID has one vector.
pub record IsGetId (io : VirtioBlkIo) : Type 0 where
  pub is_get_id : io.bio.type ≡ get_id
  pub vec : Iovec
  pub one_vec : io.bio.vecs ≡ vec ∷ []

-- A read or a write that `blk_rw` accepts, or a GET_ID.
pub data IsTaken (mem : MemoryMap) (vblk : VirtioBlk) (io : VirtioBlkIo) : Type 0 where
  accepted : (hdr : BlkReq) → IsAccepted mem vblk hdr io → IsTaken mem vblk io
  identity : IsGetId io → IsTaken mem vblk io

get_id_of-IsGetId :
    (can_alloc : ℕ → Bool) (live : ℕ) (data_buf status_buf : Buffer) (vq : Virtqueue) (it : Iter)
    (io : VirtioBlkIo)
    → (get_id_of can_alloc live data_buf status_buf vq it).io ≡ some io
    → IsGetId io
unfolding get_id_of
get_id_of-IsGetId can_alloc live data_buf status_buf vq it io e = record {
  is_get_id = ground arith;
  vec = record { ptr = data_buf.ptr; len = data_buf.len };
  one_vec = ground arith;
}

blk_get_id-IsGetId :
    (can_alloc : ℕ → Bool) (mem : MemoryMap) (ram : Ram) (vq : Virtqueue) (it : Iter) (live : ℕ)
    (io : VirtioBlkIo)
    → (blk_get_id can_alloc mem ram vq it live).io ≡ some io
    → IsGetId io
unfolding blk_get_id
blk_get_id-IsGetId can_alloc mem ram vq it live io e = first (next_buffer mem ram vq it) e
  where
    second :
        (data_buf : Buffer) (r : Option Buffer × Virtqueue × Iter)
        → (get_id_second can_alloc live data_buf r).io ≡ some io
        → IsGetId io
    second data_buf (none, vq', it') e = unfold get_id_second in absurd (ground arith)
    second data_buf (some buf, vq', it') e =
        unfold get_id_second in get_id_of-IsGetId can_alloc live data_buf buf vq' it' io e

    first :
        (r : Option Buffer × Virtqueue × Iter)
        → (get_id_first can_alloc mem ram live r).io ≡ some io
        → IsGetId io
    first (none, vq', it') e = unfold get_id_first in absurd (ground arith)
    first (some buf, vq', it') e = unfold get_id_first in second buf (next_buffer mem ram vq' it') e

module _ (can_alloc : ℕ → Bool) (mem : MemoryMap) (vblk : VirtioBlk) (live : ℕ) (v : IsValid mem)
    (w : IsJoined mem) (small : vblk.total_sectors + 2 ^ 23 ≤ u32_mod) where
  switch_type-IsTaken :
      (ram : Ram) (hdr : BlkReq) (vq : Virtqueue) (it : Iter) (io : VirtioBlkIo)
      → vq.qsize ≤ max_size
      → it.nseen ≤ vq.qsize
      → IsSafe mem it
      → (switch_type can_alloc mem ram vblk hdr vq it live).io ≡ some io
      → IsTaken mem vblk io
  unfolding switch_type
  switch_type-IsTaken ram hdr vq it io h k s e =
      elim (Bool-cases (hdr.type == t_in || hdr.type == t_out)) [
        | inl t ↦
            accepted hdr (
              blk_rw-IsAccepted can_alloc mem ram vblk hdr vq it live io v w small h k s
                (rw t at e))
        | inr t ↦ elim (Bool-cases (hdr.type == t_get_id)) [
          | inl u ↦ identity (blk_get_id-IsGetId can_alloc mem ram vq it live io (rw (t, u) at e))
          | inr u ↦ absurd (ground (arith, e, t, u))
        ]
      ]

  parse-IsTaken :
      (ram : Ram) (vq : Virtqueue) (it : Iter) (io : VirtioBlkIo)
      → vq.qsize ≤ max_size
      → it.nseen ≤ vq.qsize
      → IsSafe mem it
      → (parse can_alloc mem ram vblk vq it live).io ≡ some io
      → IsTaken mem vblk io
  unfolding parse
  parse-IsTaken ram vq it io h k s e =
      first (next_buffer mem ram vq it) refl (next_buffer-IsSafeStep mem ram v w vq it s) e
    where
      first :
          (r : Option Buffer × Virtqueue × Iter)
          → next_buffer mem ram vq it ≡ r
          → IsSafeStep mem ram v w r
          → (parse_first can_alloc mem ram vblk live r).io ≡ some io
          → IsTaken mem vblk io
      first (none, vq', it') same safe e = unfold parse_first in absurd (ground arith)
      first (some buf, vq', it') same safe e =
          unfold parse_first in
          let (vq_eq, more, bound) =
            next_buffer-nseen mem ram vq vq' it it' buf (omega arith) same in
          let q : vq'.qsize ≡ vq.qsize = ap (λ (t : Virtqueue). t.qsize) vq_eq in
          elim (Bool-cases (not (buf.len == 16))) [
            | inl t ↦ absurd (ground (arith, e, t))
            | inr t ↦
                switch_type-IsTaken ram (read_req ram buf.ptr) vq' it' io (omega arith)
                  (omega arith) safe.iter_safe (rw t at e)
          ]

  outcome_of-io :
      (ram : Ram) (r : IoResult) (o : Option VirtioBlkIo) (io : VirtioBlkIo)
      → (outcome_of ram r o).io ≡ some io
      → o ≡ some io
  unfolding outcome_of
  outcome_of-io ram r none io e = absurd (ground arith)
  outcome_of-io ram r (some x) io e = e

  fresh_iter :
      (vq vq' : Virtqueue) (ram ram' : Ram) (it : Iter)
      → dequeue_avail vq ram ≡ (some it, vq', ram')
      → (it.nseen ≡ 0) × (vq'.qsize ≡ vq.qsize)
  unfolding dequeue_avail start_desc_chain
  fresh_iter vq vq' ram ram' it e = ground arith

  -- Where the head that is next in the available ring is below the queue size and the descriptor
  -- table is readable guest memory, a request that the backend gets is a read or a write that `blk_rw`
  -- accepts, or a GET_ID with one vector.
  pub blk_dequeue_request-IsTaken :
      (vq vq' : Virtqueue) (ram ram' : Ram) (it : Iter) (io : VirtioBlkIo)
      → vq.qsize ≤ max_size
      → IsMapped mem true vq.desc (sizeof_desc * vq.qsize)
      → next_head vq ram < vq.qsize
      → dequeue_avail vq ram ≡ (some it, vq', ram')
      → (blk_dequeue_request can_alloc mem vblk live vq ram).io ≡ some io
      → IsTaken mem vblk io
  unfolding dequeue_from handle_blk_request
  blk_dequeue_request-IsTaken vq vq' ram ram' it io h m low e f =
      let (unseen, q) = fresh_iter vq vq' ram ram' it e in
      let whole =
        blk_dequeue_request_not_broken can_alloc mem vblk live vq ram
          (not_broken vq vq' ram ram' it e)
        ∙ ap (dequeue_from can_alloc mem vblk live) e in
      let r = parse can_alloc mem ram' vblk vq' it live in
      let taken : (outcome_of ram' r r.io).io ≡ some io =
        sym (ap (λ (o : Outcome). o.io) whole) ∙ f in
      parse-IsTaken ram' vq' it io (omega arith) (omega arith)
        (dequeue_avail-IsSafe mem vq vq' ram ram' it m low e) (outcome_of-io ram' r r.io io taken)
