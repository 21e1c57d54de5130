-- ===== src/Blk/Ends.antt =====
-- The loop of `blk_rw` ends.
use libvhost_user.Base.{
  ℕ, zero, suc, ◌+◌, ◌≤◌, ◌<◌, ◌≡◌, ◌≢◌, refl, ap, Bool, Option, none, some, arith,
}
use libvhost_user.Memory.{MemoryMap}
use libvhost_user.Ram.{Ram}
use libvhost_user.Virtqueue.Layout.{Virtqueue, Iter, Buffer, max_size}
use libvhost_user.Virtqueue.Iterator.{next_buffer}
use libvhost_user.Virtqueue.Loop.{next_buffer-nseen}
use libvhost_user.Blk.Device.{VirtioBlk}
use libvhost_user.Blk.Rw.{RwState, out_of_fuel, rw_step, rw_loop}
use libvhost_user.Blk.Gather.{rw_body_elim}

module _ (can_alloc : ℕ → Bool) (mem : MemoryMap) (ram : Ram) (vblk : VirtioBlk) (is_read : Bool)
    (sector : ℕ) where
  -- With that fuel the loop ends on what is left of a chain.
  abbrev Ends : ℕ → Type 0
  Ends fuel =
      (vq : Virtqueue) (it : Iter) (st : RwState)
      → vq.qsize ≤ max_size
      → it.nseen ≤ vq.qsize
      → vq.qsize < fuel + it.nseen
      → (rw_loop can_alloc mem ram vblk is_read sector fuel vq it st).0 ≢ out_of_fuel

  rw_step-ne-out_of_fuel :
      (fuel : ℕ) (vq : Virtqueue) (it : Iter) (st : RwState) (r : Option Buffer × Virtqueue × Iter)
      → Ends fuel
      → vq.qsize ≤ max_size
      → it.nseen ≤ vq.qsize
      → vq.qsize < suc fuel + it.nseen
      → next_buffer mem ram vq it ≡ r
      → (rw_step can_alloc vblk is_read sector
          (rw_loop can_alloc mem ram vblk is_read sector fuel)
          st
          r).0
        ≢ out_of_fuel
  unfolding rw_step
  rw_step-ne-out_of_fuel fuel vq it st (none, vq', it') ih h k f e = ground arith
  rw_step-ne-out_of_fuel fuel vq it st (some buf, vq', it') ih h k f e =
      let (same, more, bound) = next_buffer-nseen mem ram vq vq' it it' buf (omega arith) e in
      let q : vq'.qsize ≡ vq.qsize = ap (λ (t : Virtqueue). t.qsize) same in
      rw_body_elim can_alloc vblk is_read sector (λ r. r.0 ≢ out_of_fuel)
        (rw_loop can_alloc mem ram vblk is_read sector fuel vq' it') st buf vq' it'
        (λ _. ground arith) (λ _. ground arith) (λ _. ground arith)
        (λ _ st2 _ _. ih vq' it' st2 (omega arith) (omega arith) (omega arith))

  -- The loop of `blk_rw` ends on any chain of a queue of up to 32768 descriptors: one round more than
  -- the queue has descriptors is enough.
  pub rw_loop-ne-out_of_fuel :
      (fuel : ℕ) (vq : Virtqueue) (it : Iter) (st : RwState)
      → vq.qsize ≤ max_size
      → it.nseen ≤ vq.qsize
      → vq.qsize < fuel + it.nseen
      → (rw_loop can_alloc mem ram vblk is_read sector fuel vq it st).0 ≢ out_of_fuel
  unfolding rw_loop
  rw_loop-ne-out_of_fuel zero vq it st h k f = absurd (omega arith)
  rw_loop-ne-out_of_fuel (suc fuel) vq it st h k f =
      rw_step-ne-out_of_fuel fuel vq it st (next_buffer mem ram vq it) (rw_loop-ne-out_of_fuel fuel)
        h k f refl
