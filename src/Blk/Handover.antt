-- ===== src/Blk/Handover.antt =====
-- Where the chains go that the device takes from its queue: to the backend or back to the driver.
use libvhost_user.Base.{
  ℕ, ◌+◌, ◌≡◌, refl, ap, sym, ◌∙◌, Bool, ◌||◌, Option, none, some, ◌==◌, arith, inl, inr,
  Bool-cases,
}
use libvhost_user.Memory.{MemoryMap}
use libvhost_user.Ram.{Ram}
use libvhost_user.Virtqueue.Layout.{Virtqueue, Iter, Buffer}
use libvhost_user.Virtqueue.Iterator.{next_buffer}
use libvhost_user.Virtqueue.Frame.{IsFramed, next_buffer-IsFramed}
use libvhost_user.Blk.Device.{VirtioBlk}
use libvhost_user.Blk.Request.{BlkReq, VirtioBlkIo, t_in}
use libvhost_user.Blk.Rw.{
  RwEnd, finished, bad_request, alloc_failed, out_of_fuel, rw_fuel, IoResult, fresh_state,
  rw_finish, rw_io, blk_rw,
}
use libvhost_user.Blk.RwKept.{IsSameQueue, same_trans, IsEndKept, rw_loop-IsEndKept}
use libvhost_user.Blk.Dispatch.{refuse, get_id_of, get_id_second, get_id_first, blk_get_id}

-- A request function, called with `live` blocks.
pub record IsKept (vq : Virtqueue) (head live : ℕ) (r : IoResult) : Type 0 where
  pub vq_kept : IsSameQueue vq r.vq
  pub head_kept : r.iter.head ≡ head
  pub io_kept : (io : VirtioBlkIo) → r.io ≡ some io → (io.head ≡ head) × (r.live ≡ live + 1)

pub refuse-IsKept :
    (vq : Virtqueue) (it : Iter) (live : ℕ) → IsKept vq it.head live (refuse vq it live)
refuse-IsKept vq it live = record {
  vq_kept = inl refl;
  head_kept = refl;
  io_kept = λ io e. absurd (ground arith);
}

rw_finish-IsKept :
    (is_read : Bool) (sector : ℕ) (vq : Virtqueue) (head live : ℕ) (r : RwEnd × Virtqueue × Iter)
    → IsEndKept vq head (live + 1) r
    → IsKept vq head live (rw_finish is_read sector r)
unfolding rw_finish
rw_finish-IsKept is_read sector vq head live (finished p st, vq', it) k =
    elim (Bool-cases (st.total_sectors == 0 || p == 0)) [
      | inl t ↦ rw t (record {
        vq_kept = k.vq_kept;
        head_kept = k.head_kept;
        io_kept = λ io e. absurd (ground arith);
      })
      | inr t ↦ rw t (record {
        vq_kept = k.vq_kept;
        head_kept = k.head_kept;
        io_kept = λ io e.
            let same : rw_io is_read sector p st it ≡ io = cc in
            (sym (ap (λ (i : VirtioBlkIo). i.head) same) ∙ k.head_kept, k.live_kept p st refl);
      })
    ]
rw_finish-IsKept is_read sector vq head live (bad_request st, vq', it) k = record {
  vq_kept = k.vq_kept;
  head_kept = k.head_kept;
  io_kept = λ io e. absurd (ground arith);
}
rw_finish-IsKept is_read sector vq head live (alloc_failed st, vq', it) k = record {
  vq_kept = k.vq_kept;
  head_kept = k.head_kept;
  io_kept = λ io e. absurd (ground arith);
}
rw_finish-IsKept is_read sector vq head live (out_of_fuel, vq', it) k = record {
  vq_kept = k.vq_kept;
  head_kept = k.head_kept;
  io_kept = λ io e. absurd (ground arith);
}

pub IsKept-after :
    {vq vq' : Virtqueue} {head head' live : ℕ} {r : IoResult}
    → IsSameQueue vq vq'
    → head' ≡ head
    → IsKept vq' head' live r
    → IsKept vq head live r
IsKept-after {vq} {vq'} {head} {head'} {live} {r} s e k = record {
  vq_kept = same_trans vq vq' r.vq s k.vq_kept;
  head_kept = k.head_kept ∙ e;
  io_kept = λ io f. ((k.io_kept io f).0 ∙ e, (k.io_kept io f).1);
}

pub blk_rw-IsKept :
    (can_alloc : ℕ → Bool) (mem : MemoryMap) (ram : Ram) (vblk : VirtioBlk) (hdr : BlkReq)
    (vq : Virtqueue) (it : Iter) (live : ℕ)
    → IsKept vq it.head live (blk_rw can_alloc mem ram vblk hdr vq it live)
unfolding blk_rw
blk_rw-IsKept can_alloc mem ram vblk hdr vq it live = ground (
  arith,
  refuse-IsKept vq it live,
  rw_finish-IsKept (hdr.type == t_in) hdr.sector vq it.head live _ (
      rw_loop-IsEndKept can_alloc mem ram vblk (hdr.type == t_in) hdr.sector (rw_fuel vq) vq it
        (fresh_state live)),
)

get_id_of-IsKept :
    (can_alloc : ℕ → Bool) (data_buf status_buf : Buffer) (vq : Virtqueue) (it : Iter) (live : ℕ)
    → IsKept vq it.head live (get_id_of can_alloc live data_buf status_buf vq it)
unfolding get_id_of
get_id_of-IsKept can_alloc data_buf status_buf vq it live = record {
  vq_kept = ground arith;
  head_kept = ground arith;
  io_kept = λ io e. ground arith;
}

get_id_second-IsKept :
    (can_alloc : ℕ → Bool) (data_buf : Buffer) (vq : Virtqueue) (head live : ℕ)
    (r : Option Buffer × Virtqueue × Iter)
    → IsFramed vq head r
    → IsKept vq head live (get_id_second can_alloc live data_buf r)
unfolding get_id_second
get_id_second-IsKept can_alloc data_buf vq head live (none, vq', it') f =
    IsKept-after f.vq_kept f.head_kept (refuse-IsKept vq' it' live)
get_id_second-IsKept can_alloc data_buf vq head live (some buf, vq', it') f =
    IsKept-after f.vq_kept f.head_kept (get_id_of-IsKept can_alloc data_buf buf vq' it' live)

get_id_first-IsKept :
    (can_alloc : ℕ → Bool) (mem : MemoryMap) (ram : Ram) (vq : Virtqueue) (head live : ℕ)
    (r : Option Buffer × Virtqueue × Iter)
    → IsFramed vq head r
    → IsKept vq head live (get_id_first can_alloc mem ram live r)
unfolding get_id_first
get_id_first-IsKept can_alloc mem ram vq head live (none, vq', it') f =
    IsKept-after f.vq_kept f.head_kept (refuse-IsKept vq' it' live)
get_id_first-IsKept can_alloc mem ram vq head live (some buf, vq', it') f =
    IsKept-after f.vq_kept f.head_kept (
      get_id_second-IsKept can_alloc buf vq' it'.head live (next_buffer mem ram vq' it')
        (next_buffer-IsFramed mem ram vq' it'))

pub blk_get_id-IsKept :
    (can_alloc : ℕ → Bool) (mem : MemoryMap) (ram : Ram) (vq : Virtqueue) (it : Iter) (live : ℕ)
    → IsKept vq it.head live (blk_get_id can_alloc mem ram vq it live)
unfolding blk_get_id
blk_get_id-IsKept can_alloc mem ram vq it live =
    get_id_first-IsKept can_alloc mem ram vq it.head live (next_buffer mem ram vq it)
      (next_buffer-IsFramed mem ram vq it)
