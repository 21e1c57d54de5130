-- ===== src/Virtqueue/Notify.antt =====
-- When the device signals the driver.
use libvhost_user.Base.{
  ℕ, ◌+◌, ◌%◌, ◌<◌, ◌≡◌, ◌∙◌, sym, ap, ◌↔◌, true, false, arith, u16_mod, sub16, add16, [], ◌∷◌,
  ◌==ℤ◌, minus_one,
}
use libvhost_user.Ram.{Ram, read16}
use libvhost_user.Ram.Laws.{read16-lt}
use libvhost_user.System.{eventfd_write}
use libvhost_user.Virtqueue.Layout.{Virtqueue, get_used_event}
use libvhost_user.Virtqueue.Rings.{
  vring_need_event, should_notify_used, put_used, read_used_idx, enqueue_used,
}

-- Among the `count` indices from `old` on, modulo 2 ^ 16, one is `event_idx`.
abbrev pub Passed : (event_idx old count : ℕ) → Type 0
Passed event_idx old count = (i : ℕ) × (i < count) × (event_idx ≡ (old + i) % u16_mod)

-- For 16-bit indices, an event is due exactly when the step from `old` to `new_idx` passed the index that the other side
-- has asked for.
pub vring_need_event_iff :
    (event_idx old count : ℕ)
    → event_idx < u16_mod
    → old < u16_mod
    → count < u16_mod
    → (vring_need_event event_idx ((old + count) % u16_mod) old ≡ true) ↔ Passed event_idx old count
unfolding vring_need_event
vring_need_event_iff event_idx old count he ho hc =
    (λ e. (sub16 event_idx old, ground arith, ground arith), λ (i, k, e). ground arith)

module _ (vq : Virtqueue) (ram : Ram) (desc_id nwritten : ℕ) where
  enqueue_used-ram : (enqueue_used vq ram desc_id nwritten).1 ≡ put_used vq ram desc_id nwritten
  unfolding enqueue_used
  enqueue_used-ram = ground arith

  signal_iff :
      (vq.callfd ==ℤ minus_one) ≡ false
      → ((enqueue_used vq ram desc_id nwritten).2 ≡ eventfd_write vq.callfd 0 ∷ []) ↔ (
          should_notify_used vq (put_used vq ram desc_id nwritten) (add16 (read_used_idx vq ram) 1)
          ≡ true)
  unfolding enqueue_used
  signal_iff fd = ground arith

  should_notify_lem :
      (ram' : Ram) (idx : ℕ)
      → vq.has_event_idx ≡ true
      → should_notify_used vq ram' idx
        ≡ vring_need_event (read16 ram' (get_used_event vq)) idx vq.signalled_used_idx
  unfolding should_notify_used
  should_notify_lem ram' idx ev = ground arith

  -- With event indices and a descriptor to signal, entry number `count + 1` since the last signal, of
  -- fewer than 2 ^ 16, is signalled exactly when one of these entries is the one that the driver asked
  -- to be told of.
  pub enqueue_used-signals :
      (count : ℕ)
      → vq.has_event_idx ≡ true
      → (vq.callfd ==ℤ minus_one) ≡ false
      → vq.signalled_used_idx < u16_mod
      → read_used_idx vq ram ≡ (vq.signalled_used_idx + count) % u16_mod
      → count + 1 < u16_mod
      → let (vq', ram', calls) = enqueue_used vq ram desc_id nwritten in
        (calls ≡ eventfd_write vq.callfd 0 ∷ [])
        ↔ Passed (read16 ram' (get_used_event vq)) vq.signalled_used_idx (count + 1)
  enqueue_used-signals count ev fd small idx bound =
      let ram' = put_used vq ram desc_id nwritten in
      let next : add16 (read_used_idx vq ram) 1 ≡ (vq.signalled_used_idx + (count + 1)) % u16_mod =
        omega arith in
      let need =
        vring_need_event_iff (read16 ram' (get_used_event vq)) vq.signalled_used_idx (count + 1)
          (read16-lt ram' (get_used_event vq)) small bound in
      let due = should_notify_lem ram' (add16 (read_used_idx vq ram) 1) ev in
      let same =
        ap (λ n. vring_need_event (read16 ram' (get_used_event vq)) n vq.signalled_used_idx) next in
      (
        λ e. rw (enqueue_used-ram) (need.0 (sym same ∙ sym due ∙ (signal_iff fd).0 e)),
        λ p. (signal_iff fd).1 (due ∙ same ∙ need.1 (rw (enqueue_used-ram) at p)),
      )

  -- With event indices, a stale record of the last signal silences the queue: if it is the index that this entry leads
  -- to, no event is sent, whatever the driver has asked for.
  pub enqueue_used_stale :
      vq.has_event_idx ≡ true
      → vq.signalled_used_idx ≡ add16 (read_used_idx vq ram) 1
      → (enqueue_used vq ram desc_id nwritten).2 ≡ []
  unfolding enqueue_used should_notify_used vring_need_event
  enqueue_used_stale ev stale = ground arith
