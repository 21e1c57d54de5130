-- ===== src/Virtqueue/Heads.antt =====
-- The heads that `virtqueue_dequeue_avail` takes from the available ring. It does not compare them
-- with the queue size.
use libvhost_user.Base.{ℕ, ◌+◌, ◌*◌, ◌≤◌, ◌<◌, ◌≡◌, ◌↔◌, subst, true, some, arith}
use libvhost_user.Memory.{MemoryMap}
use libvhost_user.Ram.{Ram, read16}
use libvhost_user.Virtqueue.Layout.{sizeof_desc, Virtqueue, Iter, avail_ring}
use libvhost_user.Virtqueue.Iterator.{start_desc_chain, cur_desc}
use libvhost_user.Virtqueue.Rings.{get_index, dequeue_avail}
use libvhost_user.Virtqueue.Chain.{IsMapped, IsSafe, inside}

-- The entry that is next in turn.
unfoldable pub next_head : Virtqueue → Ram → ℕ
next_head vq ram = read16 ram (avail_ring vq (get_index vq vq.last_seen_avail))

dequeue_avail-start :
    (vq vq' : Virtqueue) (ram ram' : Ram) (it : Iter)
    → dequeue_avail vq ram ≡ (some it, vq', ram')
    → start_desc_chain vq (next_head vq ram) ≡ it
unfolding dequeue_avail next_head
dequeue_avail-start vq vq' ram ram' it e = ground arith

-- A chain starts inside the descriptor table just when the driver's entry is below the queue size;
-- the code takes any other entry too and reads behind the table.
pub dequeue_avail-inside_iff :
    (vq vq' : Virtqueue) (ram ram' : Ram) (it : Iter)
    → dequeue_avail vq ram ≡ (some it, vq', ram')
    → (cur_desc it + sizeof_desc ≤ vq.desc + sizeof_desc * vq.qsize) ↔ (next_head vq ram < vq.qsize)
unfolding start_desc_chain
dequeue_avail-inside_iff vq vq' ram ram' it e =
    subst {A = Iter}
      (λ i.
        (cur_desc i + sizeof_desc ≤ vq.desc + sizeof_desc * vq.qsize)
        ↔ (next_head vq ram < vq.qsize))
      (dequeue_avail-start vq vq' ram ram' it e) (at_head (next_head vq ram))
  where
    at_head :
        (head : ℕ)
        → (cur_desc (start_desc_chain vq head) + sizeof_desc ≤ vq.desc + sizeof_desc * vq.qsize)
          ↔ (head < vq.qsize)
    at_head head = ground arith

-- Where the driver keeps its entries below the queue size and the table is guest memory, each chain
-- starts with an iterator that is safe to use.
pub dequeue_avail-IsSafe :
    (mem : MemoryMap) (vq vq' : Virtqueue) (ram ram' : Ram) (it : Iter)
    → IsMapped mem true vq.desc (sizeof_desc * vq.qsize)
    → next_head vq ram < vq.qsize
    → dequeue_avail vq ram ≡ (some it, vq', ram')
    → IsSafe mem it
unfolding start_desc_chain
dequeue_avail-IsSafe mem vq vq' ram ram' it m h e =
    subst {A = Iter} (IsSafe mem) (dequeue_avail-start vq vq' ram ram' it e)
      (inside (sizeof_desc * vq.qsize) m (omega arith) (omega arith))
