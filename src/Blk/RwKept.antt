-- ===== src/Blk/RwKept.antt =====
-- The loop of `blk_rw` keeps its queue, its head and its count of blocks.
use libvhost_user.Base.{
  ℕ, zero, suc, ◌≡◌, ◌⊎◌, refl, ap, ◌∙◌, Bool, Option, none, some, arith, inl, inr,
}
use libvhost_user.Memory.{MemoryMap}
use libvhost_user.Ram.{Ram}
use libvhost_user.Virtqueue.Layout.{Virtqueue, Iter, Buffer}
use libvhost_user.Virtqueue.Iterator.{mark_broken, next_buffer}
use libvhost_user.Virtqueue.Frame.{IsFramed, next_buffer-IsFramed}
use libvhost_user.Blk.Device.{VirtioBlk}
use libvhost_user.Blk.Rw.{RwState, RwEnd, finished, add_data, grow, rw_step, rw_loop}
use libvhost_user.Blk.Gather.{rw_body_elim}

-- The queue changes in nothing but its `is_broken`.
abbrev pub IsSameQueue : Virtqueue → Virtqueue → Type 0
IsSameQueue vq vq' = (vq' ≡ vq) ⊎ (vq' ≡ mark_broken vq)

pub same_trans :
    (vq vq' vq'' : Virtqueue) → IsSameQueue vq vq' → IsSameQueue vq' vq'' → IsSameQueue vq vq''
same_trans vq vq' vq'' (inl p) (inl q) = inl (q ∙ p)
same_trans vq vq' vq'' (inl p) (inr q) = inr (q ∙ ap mark_broken p)
same_trans vq vq' vq'' (inr p) (inl q) = inr (q ∙ p)
same_trans vq vq' vq'' (inr p) (inr q) = inr (q ∙ ap mark_broken p)

-- The loop of `blk_rw`, started with `live` blocks.
pub record IsEndKept (vq : Virtqueue) (head live : ℕ) (r : RwEnd × Virtqueue × Iter) : Type 0 where
  pub vq_kept : IsSameQueue vq r.1
  pub head_kept : r.2.head ≡ head
  pub live_kept : (p : ℕ) (st : RwState) → r.0 ≡ finished p st → st.live ≡ live

add_data-live :
    (vblk : VirtioBlk) (is_read : Bool) (sector : ℕ) (st st1 : RwState) (buf : Buffer)
    → add_data vblk is_read sector st buf ≡ some st1
    → st1.live ≡ st.live
unfolding add_data
add_data-live vblk is_read sector st st1 buf e = ground arith

grow-live :
    (can_alloc : ℕ → Bool) (st st1 : RwState) → grow can_alloc st ≡ some st1 → st1.live ≡ st.live
unfolding grow
grow-live can_alloc st st1 e = ground arith

-- The loop stops with the queue as the last call of the iterator leaves it.
stopped :
    (vq : Virtqueue) (head live : ℕ) (b : Option Buffer) (vq' : Virtqueue) (it' : Iter) (e : RwEnd)
    → IsFramed vq head (b, vq', it')
    → ((p : ℕ) (st : RwState) → e ≡ finished p st → st.live ≡ live)
    → IsEndKept vq head live (e, vq', it')
stopped vq head live b vq' it' e f live_kept = record {
  vq_kept = f.vq_kept;
  head_kept = f.head_kept;
  live_kept = live_kept;
}

module _ (can_alloc : ℕ → Bool) (mem : MemoryMap) (ram : Ram) (vblk : VirtioBlk) (is_read : Bool)
    (sector : ℕ) where
  abbrev loop : ℕ → Virtqueue → Iter → RwState → RwEnd × Virtqueue × Iter
  loop fuel = rw_loop can_alloc mem ram vblk is_read sector fuel

  rw_step-IsEndKept :
      (fuel : ℕ) (vq : Virtqueue) (it : Iter) (st : RwState) (r : Option Buffer × Virtqueue × Iter)
      → ((vq1 : Virtqueue) (it1 : Iter) (st1 : RwState)
          → IsEndKept vq1 it1.head st1.live (loop fuel vq1 it1 st1))
      → IsFramed vq it.head r
      → IsEndKept vq it.head st.live (rw_step can_alloc vblk is_read sector (loop fuel) st r)
  unfolding rw_step
  rw_step-IsEndKept fuel vq it st (none, vq', it') ih f =
      stopped vq it.head st.live none vq' it' _ f (λ p st' e. ground arith)
  rw_step-IsEndKept fuel vq it st (some buf, vq', it') ih f =
      let stop = λ (e : RwEnd). stopped vq it.head st.live (some buf) vq' it' e f in
      rw_body_elim can_alloc vblk is_read sector (IsEndKept vq it.head st.live) (loop fuel vq' it')
        st buf vq' it' (λ _. stop _ (λ p st' e. ground arith))
        (λ _. stop _ (λ p st' e. absurd (ground arith)))
        (λ _. stop _ (λ p st' e. absurd (ground arith)))
        (λ st1 st2 added grown.
          let k = ih vq' it' st2 in
          record {
            vq_kept = same_trans vq vq' _ f.vq_kept k.vq_kept;
            head_kept = k.head_kept ∙ f.head_kept;
            live_kept = λ p st' e.
                k.live_kept p st' e
                ∙ grow-live can_alloc st1 st2 grown
                ∙ add_data-live vblk is_read sector st st1 buf added;
          })

  pub rw_loop-IsEndKept :
      (fuel : ℕ) (vq : Virtqueue) (it : Iter) (st : RwState)
      → IsEndKept vq it.head st.live (loop fuel vq it st)
  unfolding rw_loop
  rw_loop-IsEndKept zero vq it st = record {
    vq_kept = inl refl;
    head_kept = refl;
    live_kept = λ p st' e. absurd (ground arith);
  }
  rw_loop-IsEndKept (suc fuel) vq it st =
      rw_step-IsEndKept fuel vq it st (next_buffer mem ram vq it) (rw_loop-IsEndKept fuel)
        (next_buffer-IsFramed mem ram vq it)
