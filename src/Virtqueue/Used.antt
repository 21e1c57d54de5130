-- ===== src/Virtqueue/Used.antt =====
-- The used ring: `virtqueue_enqueue_used` appends one entry to what the driver has still to read.
use libvhost_user.Base.{
  ℕ, zero, suc, ◌+◌, ◌%◌, ◌^◌, ◌≤◌, ◌<◌, ◌≡◌, ◌≢◌, ◌∙◌, ap, ap₂, arith, u16_mod, u32_mod, add16,
  List, [], ◌∷◌, ◌++◌,
}
use libvhost_user.Base.Bits.{mod-mod_pow2, exponent-lt}
use libvhost_user.Ram.{Ram, read32, write16, write32}
use libvhost_user.Ram.Laws.{
  Apart, read16-write16, read32-write32, read32-write32-Apart, read32-write16-Apart,
}
use libvhost_user.Virtqueue.Layout.{Virtqueue, used_ring}
use libvhost_user.Virtqueue.Rings.{get_index, read_used_idx, write_used_idx, put_used}
use libvhost_user.Virtqueue.Fifo.{IsRings, get_index_lem}

-- The slot of the ring for an index.
abbrev slot : Virtqueue → ℕ → ℕ
slot vq idx = used_ring vq (idx % vq.qsize)

-- An entry: the head of the chain and the number of bytes written.
abbrev pub used_entry : Virtqueue → Ram → ℕ → ℕ × ℕ
used_entry vq ram idx = (read32 ram (slot vq idx), read32 ram (slot vq idx + 4))

-- The entries number `i`, `i + 1`, … , `n` of them, counted from the index `from` on.
pub entries : Virtqueue → Ram → ℕ → ℕ → ℕ → List (ℕ × ℕ)
entries vq ram from i zero = []
entries vq ram from i (suc n) =
    used_entry vq ram ((from + i) % u16_mod) ∷ entries vq ram from (i + 1) n

-- Two entries less than a ring apart have different slots.
mod_ne : (q f i c : ℕ) → i < c → c < i + q → (f + i) % q ≢ (f + c) % q
mod_ne q f i c lo hi e = grind arith

slot_ne :
    (vq : Virtqueue) (from i c : ℕ)
    → IsRings vq
    → i < c
    → c < i + vq.qsize
    → ((from + i) % u16_mod) % vq.qsize ≢ ((from + c) % u16_mod) % vq.qsize
slot_ne vq from i c v lo hi =
    let k = exponent-lt v.exponent 16 (omega (arith, v.pow2, v.small)) in
    rw (v.pow2, mod-mod_pow2 (from + i) v.exponent 16 k, mod-mod_pow2 (from + c) v.exponent 16 k)
      (mod_ne (2 ^ v.exponent) from i c lo (omega (arith, v.pow2)))

-- The three writes, at any addresses in this order.
module _ (ram : Ram) (u e d n x : ℕ) (below : u + 2 ≤ e) where
  abbrev written : Ram
  written = write16 (write32 (write32 ram e d) (e + 4) n) u x

  read32-written_id : d < u32_mod → read32 written e ≡ d
  read32-written_id h = ground (
    arith,
    read32-write16-Apart (write32 (write32 ram e d) (e + 4) n) u e x,
    read32-write32-Apart (write32 ram e d) (e + 4) e n,
    read32-write32 ram e d,
  )

  read32-written_len : n < u32_mod → read32 written (e + 4) ≡ n
  read32-written_len h = ground (
    arith,
    read32-write16-Apart (write32 (write32 ram e d) (e + 4) n) u (e + 4) x,
    read32-write32 (write32 ram e d) (e + 4) n,
  )

  read32-written-Apart : (b : ℕ) → u + 2 ≤ b → Apart e 8 b 4 → read32 written b ≡ read32 ram b
  read32-written-Apart b h a = ground (
    arith,
    read32-write16-Apart (write32 (write32 ram e d) (e + 4) n) u b x,
    read32-write32-Apart (write32 ram e d) (e + 4) b n,
    read32-write32-Apart ram e b d,
  )

module _ (vq : Virtqueue) (ram : Ram) (desc_id nwritten : ℕ) (v : IsRings vq) where
  abbrev after : Ram
  after = put_used vq ram desc_id nwritten

  abbrev idx : ℕ
  idx = read_used_idx vq ram

  put_used-written :
      after ≡ written ram (vq.used + 2) (slot vq idx) desc_id nwritten (add16 idx 1) (omega arith)
  unfolding put_used write_used_idx
  put_used-written = rw (get_index_lem vq idx v)

  -- What the call leaves at the slot that it writes, and at any other.
  pub put_used_self :
      desc_id < u32_mod → nwritten < u32_mod → used_entry vq after idx ≡ (desc_id, nwritten)
  put_used_self hd hn = rw put_used-written (
      ap₂ (λ a b. (a, b))
        (read32-written_id ram (vq.used + 2) (slot vq idx) desc_id nwritten (add16 idx 1)
          (omega arith) hd)
        (read32-written_len ram (vq.used + 2) (slot vq idx) desc_id nwritten (add16 idx 1)
          (omega arith) hn))

  put_used-other :
      (j : ℕ) → j % vq.qsize ≢ idx % vq.qsize → used_entry vq after j ≡ used_entry vq ram j
  put_used-other j ne = rw put_used-written (
      ap₂ (λ a b. (a, b)) (other (slot vq j) (omega arith) (omega arith))
        (other (slot vq j + 4) (omega arith) (omega arith)))
    where
      other :
          (b : ℕ)
          → vq.used + 2 + 2 ≤ b
          → Apart (slot vq idx) 8 b 4
          → read32
              (written ram (vq.used + 2) (slot vq idx) desc_id nwritten (add16 idx 1) (omega arith))
              b
            ≡ read32 ram b
      other =
          read32-written-Apart ram (vq.used + 2) (slot vq idx) desc_id nwritten (add16 idx 1)
            (omega arith)

  -- The index goes up by one.
  pub read_used_idx-put_used : read_used_idx vq after ≡ add16 idx 1
  unfolding put_used write_used_idx read_used_idx
  read_used_idx-put_used = ground (
    arith,
    read16-write16
        (write32 (write32 ram (used_ring vq (get_index vq idx)) desc_id)
          (used_ring vq (get_index vq idx) + 4) nwritten)
        (vq.used + 2) (add16 idx 1),
  )

  entries-put_used :
      (from i n c : ℕ)
      → idx ≡ (from + c) % u16_mod
      → i + n ≡ c
      → c < i + vq.qsize
      → desc_id < u32_mod
      → nwritten < u32_mod
      → entries vq after from i (suc n) ≡ entries vq ram from i n ++ (desc_id, nwritten) ∷ []
  unfolding entries
  entries-put_used from i zero c e s b hd hn =
      let here : (from + i) % u16_mod ≡ idx = omega arith in
      ap (λ (j : ℕ). used_entry vq after j ∷ []) here ∙ ap (λ x. x ∷ []) (put_used_self hd hn)
  entries-put_used from i (suc n) c e s b hd hn =
      let apart = slot_ne vq from i c v (omega arith) b in
      ap₂ ◌∷◌ (put_used-other ((from + i) % u16_mod) (rw e apart))
        (entries-put_used from (i + 1) n c e (omega arith) (omega arith) hd hn)

  -- On a queue whose rings are in order, for a driver that is less than a ring behind, the entries that it has still to read are those of
  -- before with the new one behind them.
  pub put_used-appends :
      (from count : ℕ)
      → idx ≡ (from + count) % u16_mod
      → count < vq.qsize
      → desc_id < u32_mod
      → nwritten < u32_mod
      → (read_used_idx vq after ≡ (from + (count + 1)) % u16_mod)
        × (entries vq after from 0 (suc count)
            ≡ entries vq ram from 0 count ++ (desc_id, nwritten) ∷ [])
  put_used-appends from count e b hd hn = (
    rw read_used_idx-put_used (omega arith),
    entries-put_used from 0 count count e (omega arith) (omega arith) hd hn,
  )
