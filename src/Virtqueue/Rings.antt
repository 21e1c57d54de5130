-- ===== src/Virtqueue/Rings.antt =====
-- The available and the used ring: `virtqueue_dequeue_avail` and `virtqueue_enqueue_used`.
use libvhost_user.Base.{
  ℕ, ◌+◌, ◌-◌, Bool, Option, none, some, List, [], ◌∷◌, bit_and, ltb, ◌==◌, if◌then◌else◌, ◌==ℤ◌,
  minus_one, add16, sub16,
}
use libvhost_user.Ram.{Ram, read16, write16, write32}
use libvhost_user.System.{Call, eventfd_write}
use libvhost_user.Virtqueue.Layout.{Virtqueue, Iter, avail_ring, used_ring, get_used_event}
use libvhost_user.Virtqueue.Setup.{update_avail_event}
use libvhost_user.Virtqueue.Iterator.{start_desc_chain}

-- The queue size is a power of two, so `&` serves as a remainder.
unfoldable pub get_index : Virtqueue → ℕ → ℕ
get_index vq idx = bit_and idx (vq.qsize - 1)

unfoldable pub read_avail_idx : Virtqueue → Ram → ℕ
read_avail_idx vq ram = read16 ram (vq.avail + 2)

unfoldable pub read_used_idx : Virtqueue → Ram → ℕ
read_used_idx vq ram = read16 ram (vq.used + 2)

unfoldable pub write_used_idx : Virtqueue → Ram → ℕ → Ram
write_used_idx vq ram idx = write16 ram (vq.used + 2) idx

unfoldable pub dequeue_avail : Virtqueue → Ram → Option Iter × Virtqueue × Ram
dequeue_avail vq ram =
    if vq.is_broken
    then (none, vq, ram)
    else if vq.last_seen_avail == read_avail_idx vq ram
    then (none, vq, ram)
    else let head = read16 ram (avail_ring vq (get_index vq vq.last_seen_avail)) in
      let vq' = record vq { last_seen_avail = add16 vq.last_seen_avail 1 } in
      (some (start_desc_chain vq head), vq', update_avail_event vq' ram)

-- Has the driver asked for an event somewhere in `old .. new_idx - 1`?
unfoldable pub vring_need_event : (event_idx new_idx old : ℕ) → Bool
vring_need_event event_idx new_idx old = ltb (sub16 (sub16 new_idx event_idx) 1) (sub16 new_idx old)

unfoldable pub should_notify_used : Virtqueue → Ram → ℕ → Bool
should_notify_used vq ram used_idx =
    if vq.has_event_idx
    then vring_need_event (read16 ram (get_used_event vq)) used_idx vq.signalled_used_idx
    else read16 ram vq.avail == 0

-- The entry, and then the index: what `virtqueue_enqueue_used` writes.
unfoldable pub put_used : Virtqueue → Ram → ℕ → ℕ → Ram
put_used vq ram desc_id nwritten =
    let used_idx = read_used_idx vq ram in
    let entry = used_ring vq (get_index vq used_idx) in
    write_used_idx vq (write32 (write32 ram entry desc_id) (entry + 4) nwritten) (add16 used_idx 1)

unfoldable pub enqueue_used : Virtqueue → Ram → ℕ → ℕ → Virtqueue × Ram × List Call
enqueue_used vq ram desc_id nwritten =
    let used_idx = add16 (read_used_idx vq ram) 1 in
    let ram' = put_used vq ram desc_id nwritten in
    if should_notify_used vq ram' used_idx
    then (
      record vq { signalled_used_idx = used_idx },
      ram',
      if vq.callfd ==ℤ minus_one then [] else eventfd_write vq.callfd 0 ∷ [],
    )
    else (vq, ram', [])

unfoldable pub release_buffers : Virtqueue → Iter → Ram → ℕ → Virtqueue × Ram × List Call
release_buffers vq it ram nwritten = enqueue_used vq ram it.head nwritten
