-- ===== src/Virtqueue/Fifo.antt =====
-- The rings as queues: `virtqueue_dequeue_avail` takes the oldest chain that the driver has made
-- available, and `virtqueue_enqueue_used` appends to what the driver will read.
use libvhost_user.Base.{
  ℕ, zero, suc, ◌+◌, ◌-◌, ◌%◌, ◌^◌, ◌<◌, ◌≡◌, ◌∙◌, refl, ap, true, false, Option, none, some, arith,
  ◌==◌, inl, inr, Bool-cases, u16_mod, sub16, add16, List, [], ◌∷◌,
}
use libvhost_user.Base.Bits.{bit_and_mask}
use native.Mathlib.Nat.{one-le-pow, mod-lt}
use libvhost_user.Ram.{Ram, read16}
use libvhost_user.Ram.Laws.{Apart, read16-lt, read16-write16-Apart}
use libvhost_user.Virtqueue.Layout.{Virtqueue, Iter, avail_ring, get_avail_event}
use libvhost_user.Virtqueue.Setup.{update_avail_event, avail_size, used_size}
use libvhost_user.Virtqueue.Iterator.{start_desc_chain}
use libvhost_user.Virtqueue.Rings.{get_index, read_avail_idx, dequeue_avail}

-- What `start` establishes of a queue, as far as the rings go: the size is a power of two below
-- 2 ^ 16, the index is a word, and the two rings have no byte in common.
pub record IsRings (vq : Virtqueue) : Type 0 where
  pub exponent : ℕ
  pub pow2 : vq.qsize ≡ 2 ^ exponent
  pub small : vq.qsize < u16_mod
  pub seen_fits : vq.last_seen_avail < u16_mod
  pub apart : Apart vq.avail (avail_size vq.qsize) vq.used (used_size vq.qsize)

pub get_index_lem : (vq : Virtqueue) (idx : ℕ) → IsRings vq → get_index vq idx ≡ idx % vq.qsize
unfolding get_index
get_index_lem vq idx v = rw v.pow2 (bit_and_mask idx v.exponent)

-- The head of the chain at an index of the available ring.
abbrev pub avail_head : Virtqueue → Ram → ℕ → ℕ
avail_head vq ram idx = read16 ram (avail_ring vq (idx % vq.qsize))

-- The `n` heads from an index on.
pub heads : Virtqueue → Ram → ℕ → ℕ → List ℕ
heads vq ram idx zero = []
heads vq ram idx (suc n) = avail_head vq ram idx ∷ heads vq ram (add16 idx 1) n

read_avail_idx-lt : (vq : Virtqueue) (ram : Ram) → read_avail_idx vq ram < u16_mod
unfolding read_avail_idx
read_avail_idx-lt vq ram = read16-lt ram (vq.avail + 2)

-- How far the driver's index is ahead.
abbrev pub left : Virtqueue → Ram → ℕ
left vq ram = sub16 (read_avail_idx vq ram) vq.last_seen_avail

-- What the driver has made available and the device has not taken: from `last_seen_avail` up to the
-- driver's index.
pub pending : Virtqueue → Ram → List ℕ
pending vq ram = heads vq ram vq.last_seen_avail (left vq ram)

pub size_pos : {vq : Virtqueue} → IsRings vq → 0 < vq.qsize
size_pos {vq} v = omega (arith, v.pow2, one-le-pow v.exponent 2)

-- A state of the queue and the memory that shows the driver's part of the rings as another does.
record SameAvail (vq vq' : Virtqueue) (ram ram' : Ram) : Type 0 where
  same_avail : vq'.avail ≡ vq.avail
  same_size : vq'.qsize ≡ vq.qsize
  same_idx : read_avail_idx vq' ram' ≡ read_avail_idx vq ram
  same_heads : (i : ℕ) → avail_head vq' ram' i ≡ avail_head vq ram i

heads-same :
    {vq vq' : Virtqueue} {ram ram' : Ram} (idx n : ℕ)
    → SameAvail vq vq' ram ram'
    → heads vq' ram' idx n ≡ heads vq ram idx n
unfolding heads
heads-same idx zero s = refl
heads-same idx (suc n) s = rw (s.same_heads idx, heads-same (add16 idx 1) n s)

abbrev advance : Virtqueue → Virtqueue
advance vq = record vq { last_seen_avail = add16 vq.last_seen_avail 1 }

advance-IsRings : (vq : Virtqueue) → IsRings vq → IsRings (advance vq)
advance-IsRings vq v = record {
  exponent = v.exponent;
  pow2 = v.pow2;
  small = v.small;
  seen_fits = omega arith;
  apart = v.apart;
}

-- Writing the avail event touches nothing of the driver's.
advance-SameAvail :
    (vq : Virtqueue) (ram : Ram)
    → IsRings vq
    → SameAvail vq (advance vq) ram (update_avail_event (advance vq) ram)
unfolding update_avail_event read_avail_idx
advance-SameAvail vq ram v = record {
  same_avail = refl;
  same_size = refl;
  same_idx = ground (
    arith,
    read16-write16-Apart ram (get_avail_event vq) (vq.avail + 2) (add16 vq.last_seen_avail 1),
    v.apart,
  );
  same_heads = λ i. ground (
    arith,
    read16-write16-Apart ram (get_avail_event vq) (avail_ring vq (i % vq.qsize))
        (add16 vq.last_seen_avail 1),
    v.apart,
    mod-lt i (size_pos v),
  );
}

-- How a call of `virtqueue_dequeue_avail` shows in the queue of pending chains.
pub data Dequeued (vq : Virtqueue) (ram : Ram) : Option Iter × Virtqueue × Ram → Type 0 where
  empty : pending vq ram ≡ [] → Dequeued vq ram (none, vq, ram)
  taken :
      (head : ℕ) (rest : List ℕ) (vq' : Virtqueue) (ram' : Ram)
      → pending vq ram ≡ head ∷ rest
      → pending vq' ram' ≡ rest
      → IsRings vq'
      → Dequeued vq ram (some (start_desc_chain vq head), vq', ram')

dequeue-empty :
    (vq : Virtqueue) (ram : Ram)
    → vq.is_broken ≡ false
    → (vq.last_seen_avail == read_avail_idx vq ram) ≡ true
    → dequeue_avail vq ram ≡ (none, vq, ram)
unfolding dequeue_avail
dequeue-empty vq ram b t = ground (arith, b, t)

dequeue-taken :
    (vq : Virtqueue) (ram : Ram)
    → IsRings vq
    → vq.is_broken ≡ false
    → (vq.last_seen_avail == read_avail_idx vq ram) ≡ false
    → dequeue_avail vq ram ≡ (
      some (start_desc_chain vq (avail_head vq ram vq.last_seen_avail)),
      advance vq,
      update_avail_event (advance vq) ram,
    )
unfolding dequeue_avail
dequeue-taken vq ram v b t = ground (arith, get_index_lem vq vq.last_seen_avail v, b, t)

pending-empty :
    (vq : Virtqueue) (ram : Ram)
    → (vq.last_seen_avail == read_avail_idx vq ram) ≡ true
    → pending vq ram ≡ []
unfolding pending heads
pending-empty vq ram t =
    let zero_left : left vq ram ≡ 0 = ground (arith, t) in
    ap (heads vq ram vq.last_seen_avail) zero_left

heads-cons :
    (vq : Virtqueue) (ram : Ram) (idx n : ℕ)
    → 0 < n
    → heads vq ram idx n ≡ avail_head vq ram idx ∷ heads vq ram (add16 idx 1) (n - 1)
unfolding heads
heads-cons vq ram idx zero h = absurd (omega arith)
heads-cons vq ram idx (suc n) h =
    ap (λ m. avail_head vq ram idx ∷ heads vq ram (add16 idx 1) m) (omega arith)

pending-cons :
    (vq : Virtqueue) (ram : Ram)
    → IsRings vq
    → (vq.last_seen_avail == read_avail_idx vq ram) ≡ false
    → pending vq ram
      ≡ avail_head vq ram vq.last_seen_avail
        ∷ heads vq ram (add16 vq.last_seen_avail 1) (left vq ram - 1)
unfolding pending
pending-cons vq ram v t =
    heads-cons vq ram vq.last_seen_avail (left vq ram)
      (ground (arith, t, read_avail_idx-lt vq ram, v.seen_fits))

pending-advance :
    (vq : Virtqueue) (ram : Ram)
    → IsRings vq
    → (vq.last_seen_avail == read_avail_idx vq ram) ≡ false
    → pending (advance vq) (update_avail_event (advance vq) ram)
      ≡ heads vq ram (add16 vq.last_seen_avail 1) (left vq ram - 1)
unfolding pending
pending-advance vq ram v t =
    let s = advance-SameAvail vq ram v in
    heads-same (add16 vq.last_seen_avail 1)
      (left (advance vq) (update_avail_event (advance vq) ram)) s
    ∙ ap (heads vq ram (add16 vq.last_seen_avail 1))
        (ground (arith, t, s.same_idx, read_avail_idx-lt vq ram, v.seen_fits))

-- On a queue that is not broken and whose rings are in order a call finds nothing exactly when no chain is pending; else it starts
-- the oldest one, and the others stay pending in their order.
pub dequeue_avail-Dequeued :
    (vq : Virtqueue) (ram : Ram)
    → IsRings vq
    → vq.is_broken ≡ false
    → Dequeued vq ram (dequeue_avail vq ram)
dequeue_avail-Dequeued vq ram v b =
    elim (Bool-cases (vq.last_seen_avail == read_avail_idx vq ram)) [
      | inl t ↦ rw (dequeue-empty vq ram b t) (empty (pending-empty vq ram t))
      | inr t ↦ rw (dequeue-taken vq ram v b t) (
          taken (avail_head vq ram vq.last_seen_avail)
            (heads vq ram (add16 vq.last_seen_avail 1) (left vq ram - 1)) (advance vq)
            (update_avail_event (advance vq) ram) (pending-cons vq ram v t)
            (pending-advance vq ram v t) (advance-IsRings vq v))
    ]
