-- ===== src/Blk/Lifecycle.antt =====
-- A request from the queue to its completion.
use libvhost_user.Base.{
  ℕ, ◌+◌, ◌≡◌, ◌⊎◌, refl, ap, subst, sym, ◌∙◌, Bool, false, Option, none, some, [], arith, inl, inr,
  eio,
}
use libvhost_user.Base.{pos as ok}
use libvhost_user.Memory.{MemoryMap}
use libvhost_user.Ram.{Ram, write8}
use libvhost_user.Virtqueue.Layout.{Virtqueue, Iter, Buffer}
use libvhost_user.Virtqueue.Iterator.{next_buffer}
use libvhost_user.Virtqueue.Rings.{
  get_index, read_used_idx, write_used_idx, put_used, enqueue_used, release_buffers, dequeue_avail,
}
use libvhost_user.Virtqueue.Frame.{IsFramed, next_buffer-IsFramed}
use libvhost_user.Blk.Device.{VirtioBlk}
use libvhost_user.Blk.Request.{BlkReq, BlkIoStatus, status_value, VirtioBlkIo, read_req}
use libvhost_user.Blk.Rw.{IoResult}
use libvhost_user.Blk.Dispatch.{
  switch_type, parse_first, parse, Outcome, outcome_of, handle_blk_request, dequeue_from,
  blk_dequeue_request, blk_complete_request,
}
use libvhost_user.Blk.RwKept.{IsSameQueue}
use libvhost_user.Blk.Handover.{
  IsKept, IsKept-after, refuse-IsKept, blk_rw-IsKept, blk_get_id-IsKept,
}

module _ (can_alloc : ℕ → Bool) (mem : MemoryMap) (vblk : VirtioBlk) (live : ℕ) where
  switch_type-IsKept :
      (ram : Ram) (hdr : BlkReq) (vq : Virtqueue) (it : Iter)
      → IsKept vq it.head live (switch_type can_alloc mem ram vblk hdr vq it live)
  unfolding switch_type
  switch_type-IsKept ram hdr vq it = ground (
    arith,
    refuse-IsKept vq it live,
    blk_rw-IsKept can_alloc mem ram vblk hdr vq it live,
    blk_get_id-IsKept can_alloc mem ram vq it live,
  )

  parse_first-IsKept :
      (ram : Ram) (vq : Virtqueue) (it : Iter) (r : Option Buffer × Virtqueue × Iter)
      → IsFramed vq it.head r
      → IsKept vq it.head live (parse_first can_alloc mem ram vblk live r)
  unfolding parse_first
  parse_first-IsKept ram vq it (none, vq', it') f =
      IsKept-after f.vq_kept f.head_kept (refuse-IsKept vq' it' live)
  parse_first-IsKept ram vq it (some buf, vq', it') f = IsKept-after f.vq_kept f.head_kept (
      ground
        (arith, refuse-IsKept vq' it' live, switch_type-IsKept ram (read_req ram buf.ptr) vq' it'))

  pub parse-IsKept :
      (ram : Ram) (vq : Virtqueue) (it : Iter)
      → IsKept vq it.head live (parse can_alloc mem ram vblk vq it live)
  unfolding parse
  parse-IsKept ram vq it =
      parse_first-IsKept ram vq it (next_buffer mem ram vq it) (next_buffer-IsFramed mem ram vq it)

pub put_used-same :
    (vq vq' : Virtqueue) (ram : Ram) (head n : ℕ)
    → IsSameQueue vq vq'
    → put_used vq' ram head n ≡ put_used vq ram head n
unfolding put_used get_index read_used_idx write_used_idx
put_used-same vq vq' ram head n (inl e) = ap (λ (q : Virtqueue). put_used q ram head n) e
put_used-same vq vq' ram head n (inr e) = ap (λ (q : Virtqueue). put_used q ram head n) e

pub enqueue_used-ram :
    (vq : Virtqueue) (ram : Ram) (head n : ℕ)
    → (enqueue_used vq ram head n).1 ≡ put_used vq ram head n
unfolding enqueue_used
enqueue_used-ram vq ram head n = ground arith

-- What a request that goes to the backend keeps, and what one that does not leaves in memory.
unfoldable pub IsServed : Iter → Virtqueue → Ram → ℕ → Outcome → Type 0
IsServed it vq ram live o =
    ((io : VirtioBlkIo) × (o.io ≡ some io)
      × (o.res ≡ ok 0)
      × (io.head ≡ it.head)
      × (o.ram ≡ ram)
      × (o.calls ≡ [])
      × IsSameQueue vq o.vq
      × (o.live ≡ live + 1))
    ⊎ ((o.io ≡ none) × (o.res ≡ eio) × (o.ram ≡ put_used vq ram it.head 0))

outcome_of-IsServed :
    (it : Iter) (vq : Virtqueue) (ram : Ram) (live : ℕ) (r : IoResult) (io : Option VirtioBlkIo)
    → IsKept vq it.head live r
    → r.io ≡ io
    → IsServed it vq ram live (outcome_of ram r io)
unfolding outcome_of IsServed release_buffers
outcome_of-IsServed it vq ram live r none k e = inr (
  refl,
  refl,
  enqueue_used-ram r.vq ram r.iter.head 0
      ∙ put_used-same vq r.vq ram r.iter.head 0 k.vq_kept
      ∙ ap (λ (h : ℕ). put_used vq ram h 0) k.head_kept,
)
outcome_of-IsServed it vq ram live r (some io) k e =
    let (head, more) = k.io_kept io e in inl (io, refl, refl, head, refl, refl, k.vq_kept, more)

pub not_broken :
    (vq vq' : Virtqueue) (ram ram' : Ram) (it : Iter)
    → dequeue_avail vq ram ≡ (some it, vq', ram')
    → vq.is_broken ≡ false
unfolding dequeue_avail
not_broken vq vq' ram ram' it e = ground arith

pub blk_dequeue_request_not_broken :
    (can_alloc : ℕ → Bool) (mem : MemoryMap) (vblk : VirtioBlk) (live : ℕ) (vq : Virtqueue)
    (ram : Ram)
    → vq.is_broken ≡ false
    → blk_dequeue_request can_alloc mem vblk live vq ram
      ≡ dequeue_from can_alloc mem vblk live (dequeue_avail vq ram)
unfolding blk_dequeue_request
blk_dequeue_request_not_broken can_alloc mem vblk live vq ram h = ground arith

-- Each chain that the device takes from its queue goes either to the backend, as a request that
-- keeps its head and with guest memory untouched, or straight back to the driver: its head is put
-- on the used ring with no bytes written, and the caller gets -EIO.
pub blk_dequeue_request-IsServed :
    (can_alloc : ℕ → Bool) (mem : MemoryMap) (vblk : VirtioBlk) (live : ℕ) (vq vq' : Virtqueue)
    (ram ram' : Ram) (it : Iter)
    → dequeue_avail vq ram ≡ (some it, vq', ram')
    → IsServed it vq' ram' live (blk_dequeue_request can_alloc mem vblk live vq ram)
unfolding dequeue_from handle_blk_request
blk_dequeue_request-IsServed can_alloc mem vblk live vq vq' ram ram' it e =
    let r = parse can_alloc mem ram' vblk vq' it live in
    let whole =
      blk_dequeue_request_not_broken can_alloc mem vblk live vq ram
        (not_broken vq vq' ram ram' it e)
      ∙ ap (dequeue_from can_alloc mem vblk live) e in
    subst {A = Outcome} (IsServed it vq' ram' live) (sym whole) (
      outcome_of-IsServed it vq' ram' live r r.io (parse-IsKept can_alloc mem vblk live ram' vq' it)
        refl)

-- The whole life of a request: the backend gets it and completes it; then its status is in guest
-- memory, its head is on the used ring of the queue that it came from, and the block that held it is
-- free again.
pub blk_complete_request-returns :
    (can_alloc : ℕ → Bool) (mem : MemoryMap) (vblk : VirtioBlk) (live : ℕ) (vq vq' : Virtqueue)
    (ram ram' : Ram) (it : Iter) (io : VirtioBlkIo) (res : BlkIoStatus)
    → dequeue_avail vq ram ≡ (some it, vq', ram')
    → (blk_dequeue_request can_alloc mem vblk live vq ram).io ≡ some io
    → let o = blk_dequeue_request can_alloc mem vblk live vq ram in
      let done = blk_complete_request o.live io res o.vq o.ram in
      (done.0.1 ≡ put_used vq' (write8 ram' io.pstatus (status_value res)) it.head 0)
      × (done.1 ≡ live)
unfolding blk_complete_request IsServed
blk_complete_request-returns can_alloc mem vblk live vq vq' ram ram' it io res e f =
    elim (blk_dequeue_request-IsServed can_alloc mem vblk live vq vq' ram ram' it e) [
      | inl (io', a, b, c, d, g, h, i) ↦
          let same : io' ≡ io = cc in
          let o = blk_dequeue_request can_alloc mem vblk live vq ram in
          let mem_eq : write8 o.ram io.pstatus (status_value res)
              ≡ write8 ram' io.pstatus (status_value res) =
            ap (λ (m : Ram). write8 m io.pstatus (status_value res)) d in
          (
            enqueue_used-ram o.vq (write8 o.ram io.pstatus (status_value res)) io.head 0
                ∙ put_used-same vq' o.vq (write8 o.ram io.pstatus (status_value res)) io.head 0 h
                ∙ ap (λ (m : Ram). put_used vq' m io.head 0) mem_eq
                ∙ ap (λ (n : ℕ). put_used vq' (write8 ram' io.pstatus (status_value res)) n 0)
                    (sym (ap (λ (i : VirtioBlkIo). i.head) same) ∙ c),
            omega arith,
          )
      | inr (a, b, c) ↦ absurd (ground arith)
    ]
