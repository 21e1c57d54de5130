-- ===== src/Virtqueue/Started.antt =====
-- What a queue is when `virtqueue_start` has started it.
use libvhost_user.Base.{ℕ, ◌+◌, ◌*◌, ◌≤◌, ◌<◌, ◌≡◌, ◌⊎◌, Bool, true, false, ℤ}
use libvhost_user.Base.{pos as ok}
use libvhost_user.Ram.{Ram, read16}
use libvhost_user.Virtqueue.Layout.{Virtqueue}

-- The queue takes its size, its base, its descriptor and its event indices from the call and its
-- parts from the guest's memory, where it clears the flags of the used ring and, with event indices,
-- asks to be told of the entry that it takes next. It keeps `signalled_used_idx`.
pub record IsStarted (vq : Virtqueue) (ram : Ram) (qsize d a u avail_base : ℕ) (callfd : ℤ)
    (has_event_idx : Bool) (vq' : Virtqueue) (ram' : Ram) : Type 0 where
  pub desc_there : vq'.desc ≡ d
  pub avail_there : vq'.avail ≡ a
  pub used_there : vq'.used ≡ u
  pub size_taken : vq'.qsize ≡ qsize
  pub base_taken : vq'.last_seen_avail ≡ avail_base
  pub unbroken : vq'.is_broken ≡ false
  pub callfd_taken : vq'.callfd ≡ callfd
  pub event_idx_taken : vq'.has_event_idx ≡ has_event_idx
  pub signalled_kept : vq'.signalled_used_idx ≡ vq.signalled_used_idx
  pub flags_cleared : read16 ram' u ≡ 0
  pub event_asked : has_event_idx ≡ true → read16 ram' (u + 4 + 8 * qsize) ≡ avail_base
  pub event_kept : has_event_idx ≡ false → (b : ℕ) → u + 2 ≤ b → ram' b ≡ ram b
  pub others_kept :
      (b : ℕ)
      → (b < u) ⊎ (((u + 2 ≤ b) × (b < u + 4 + 8 * qsize)) ⊎ (u + 6 + 8 * qsize ≤ b))
      → ram' b ≡ ram b
