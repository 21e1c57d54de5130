-- ===== src/Server/Placed.antt =====
-- `process_event` leaves a queue where it is.
use libvhost_user.Base.{
  ℕ, zero, suc, ◌≡◌, subst, Bool, Option, none, some, List, ℤ, ◌==ℤ◌, arith, by_if, enoent,
}
use libvhost_user.Base.{pos as ok}
use libvhost_user.Memory.{MemoryMap}
use libvhost_user.Ram.{Ram, write8}
use libvhost_user.System.{Call}
use libvhost_user.Virtqueue.Layout.{Virtqueue, Iter}
use libvhost_user.Virtqueue.Rings.{dequeue_avail, release_buffers}
use libvhost_user.Virtqueue.Placed.{
  IsPlaced, IsPlaced-refl, IsPlaced-trans, same-IsPlaced, dequeue_avail-IsPlaced,
  enqueue_used-IsPlaced,
}
use libvhost_user.Blk.Device.{VirtioBlk}
use libvhost_user.Blk.Request.{VirtioBlkIo, status_value, success}
use libvhost_user.Blk.Rw.{IoResult}
use libvhost_user.Blk.Dispatch.{
  parse, Outcome, outcome_of, handle_blk_request, dequeue_from, blk_dequeue_request,
  blk_complete_request,
}
use libvhost_user.Blk.Lifecycle.{parse-IsKept}
use libvhost_user.Server.{
  DiskImage, BioResult, finished, died, bad_vec, serve_type, ServerState, Processed, returned,
  state_of, complete, process_io, process_one, process_event,
}

outcome_of-IsPlaced :
    (ram : Ram) (r : IoResult) (o : Option VirtioBlkIo) → IsPlaced r.vq (outcome_of ram r o).vq
unfolding outcome_of release_buffers
outcome_of-IsPlaced ram r none = enqueue_used-IsPlaced r.vq ram r.iter.head 0
outcome_of-IsPlaced ram r (some io) = IsPlaced-refl r.vq

module _ (can_alloc : ℕ → Bool) (mem : MemoryMap) (vblk : VirtioBlk) where
  dequeue_from-IsPlaced :
      (live : ℕ) (r : Option Iter × Virtqueue × Ram)
      → IsPlaced r.1 (dequeue_from can_alloc mem vblk live r).vq
  unfolding dequeue_from handle_blk_request
  dequeue_from-IsPlaced live (none, vq, ram) = IsPlaced-refl vq
  dequeue_from-IsPlaced live (some it, vq, ram) =
      let r = parse can_alloc mem ram vblk vq it live in
      IsPlaced-trans
        (same-IsPlaced vq r.vq (parse-IsKept can_alloc mem vblk live ram vq it).vq_kept)
        (outcome_of-IsPlaced ram r r.io)

  pub blk_dequeue_request-IsPlaced :
      (live : ℕ) (vq : Virtqueue) (ram : Ram)
      → IsPlaced vq (blk_dequeue_request can_alloc mem vblk live vq ram).vq
  unfolding blk_dequeue_request
  blk_dequeue_request-IsPlaced live vq ram =
      by_if (λ (o : Outcome). IsPlaced vq o.vq) vq.is_broken (IsPlaced-refl vq)
        (IsPlaced-trans (dequeue_avail-IsPlaced vq ram)
          (dequeue_from-IsPlaced live (dequeue_avail vq ram)))

-- Where the function returns, the queue is where it was.
pub record IsPlacedEnd {F : Type 0} (vq : Virtqueue) (p : Processed F) : Type 0 where
  pub placed : (error : ℤ) (st : ServerState F) → p ≡ returned error st → IsPlaced vq st.vq

module _ {F : Type 0} (image : DiskImage F) (can_alloc : ℕ → Bool) (mem : MemoryMap)
    (vblk : VirtioBlk) where
  returned-IsPlacedEnd :
      (vq : Virtqueue) (error : ℤ) (st : ServerState F)
      → IsPlaced vq st.vq
      → IsPlacedEnd vq (returned error st)
  returned-IsPlacedEnd vq error st p = record {
    placed = λ e st' same.
        let s : st ≡ st' = cc in subst {A = ServerState F} (λ x. IsPlaced vq x.vq) s p;
  }

  after-IsPlacedEnd :
      (a b : Virtqueue) (p : Processed F) → IsPlaced a b → IsPlacedEnd b p → IsPlacedEnd a p
  after-IsPlacedEnd a b p q e = record {
    placed = λ error st same. IsPlaced-trans q (e.placed error st same);
  }

  module _ (again : ServerState F → Processed F)
      (more : (st : ServerState F) → IsPlacedEnd st.vq (again st)) where
    complete-IsPlacedEnd :
        (io : VirtioBlkIo) (calls : List Call) (o : Outcome) (r : BioResult F)
        → IsPlacedEnd o.vq (complete io calls o again r)
    unfolding complete blk_complete_request
    complete-IsPlacedEnd io calls o (finished file ram) =
        after-IsPlacedEnd o.vq _ _
          (enqueue_used-IsPlaced o.vq (write8 ram io.pstatus (status_value success)) io.head 0)
          (more _)
    complete-IsPlacedEnd io calls o (died d) = record {
      placed = λ e st same. absurd (ground arith);
    }
    complete-IsPlacedEnd io calls o bad_vec = record { placed = λ e st same. absurd (ground arith) }

    process_io-IsPlacedEnd :
        (file : F) (calls : List Call) (o : Outcome) (io : Option VirtioBlkIo)
        → IsPlacedEnd o.vq (process_io image again file calls o io)
    unfolding process_io
    process_io-IsPlacedEnd file calls o none = record {
      placed = λ e st same. absurd (ground arith);
    }
    process_io-IsPlacedEnd file calls o (some io) =
        complete-IsPlacedEnd io calls o (serve_type image io.bio.type io.bio file o.ram)

    process_one-IsPlacedEnd :
        (st : ServerState F) → IsPlacedEnd st.vq (process_one image can_alloc mem vblk again st)
    unfolding process_one
    process_one-IsPlacedEnd st =
        let o = blk_dequeue_request can_alloc mem vblk st.live st.vq st.ram in
        after-IsPlacedEnd st.vq o.vq _
          (blk_dequeue_request-IsPlaced can_alloc mem vblk st.live st.vq st.ram)
          (by_if (IsPlacedEnd o.vq) (o.res ==ℤ enoent)
            (returned-IsPlacedEnd o.vq (ok 0) (state_of st.file st.calls o) (IsPlaced-refl o.vq))
            (process_io-IsPlacedEnd st.file st.calls o o.io))

  -- However many rounds it makes, `process_event` leaves the queue where it was.
  pub process_event-IsPlacedEnd :
      (fuel : ℕ) (st : ServerState F)
      → IsPlacedEnd st.vq (process_event image can_alloc mem vblk fuel st)
  unfolding process_event
  process_event-IsPlacedEnd zero st = record { placed = λ e st' same. absurd (ground arith) }
  process_event-IsPlacedEnd (suc fuel) st =
      process_one-IsPlacedEnd (process_event image can_alloc mem vblk fuel)
        (process_event-IsPlacedEnd fuel) st
