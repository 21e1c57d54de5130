-- ===== src/Virtqueue/Placed.antt =====
-- What the functions of virtqueue.c leave alone: where a queue is, its size and its settings.
use libvhost_user.Base.{ℕ, ◌≡◌, ◌⊎◌, arith}
use libvhost_user.Ram.{Ram}
use libvhost_user.Virtqueue.Layout.{Virtqueue}
use libvhost_user.Virtqueue.Iterator.{mark_broken}
use libvhost_user.Virtqueue.Rings.{dequeue_avail, enqueue_used}

-- The queue is where it was, of the same size and with the same settings.
pub record IsPlaced (vq vq' : Virtqueue) : Type 0 where
  pub same_desc : vq'.desc ≡ vq.desc
  pub same_avail : vq'.avail ≡ vq.avail
  pub same_used : vq'.used ≡ vq.used
  pub same_size : vq'.qsize ≡ vq.qsize
  pub same_callfd : vq'.callfd ≡ vq.callfd
  pub same_event_idx : vq'.has_event_idx ≡ vq.has_event_idx

pub IsPlaced-refl : (vq : Virtqueue) → IsPlaced vq vq
IsPlaced-refl vq = ground arith

pub IsPlaced-trans : {a b c : Virtqueue} → IsPlaced a b → IsPlaced b c → IsPlaced a c
IsPlaced-trans p q = ground arith

pub same-IsPlaced : (vq vq' : Virtqueue) → (vq' ≡ vq) ⊎ (vq' ≡ mark_broken vq) → IsPlaced vq vq'
same-IsPlaced vq vq' e = ground arith

pub dequeue_avail-IsPlaced : (vq : Virtqueue) (ram : Ram) → IsPlaced vq (dequeue_avail vq ram).1
unfolding dequeue_avail
dequeue_avail-IsPlaced vq ram = ground arith

pub enqueue_used-IsPlaced :
    (vq : Virtqueue) (ram : Ram) (desc_id nwritten : ℕ)
    → IsPlaced vq (enqueue_used vq ram desc_id nwritten).0
unfolding enqueue_used
enqueue_used-IsPlaced vq ram desc_id nwritten = ground arith
