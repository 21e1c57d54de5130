-- ===== src/Virtqueue/Loop.antt =====
-- Walking a chain to its end: `while (virtqueue_next_buffer(iter, &buf))` stops, whatever the guest
-- has put into its descriptors.
use libvhost_user.Base.{
  ℕ, zero, suc, ◌+◌, ◌≤◌, ◌<◌, ◌≡◌, ◌≢◌, refl, ap, true, ◌||◌, Option, none, some, arith, ◌==◌, inl,
  inr, Bool-cases, List, [], ◌∷◌, length, u32_mod,
}
use libvhost_user.Memory.{MemoryMap}
use libvhost_user.Ram.{Ram}
use libvhost_user.Virtqueue.Layout.{
  max_size, invalid_desc_id, Virtqueue, Iter, Desc, read_desc, Buffer,
}
use libvhost_user.Virtqueue.Iterator.{
  map_buffer, cur_desc, Resolved, broken, at, out_of_fuel, enter_table, resolve, take_buffer,
  take_resolved, next_buffer, has_next_buffer,
}

abbrev with_buffer :
    Buffer → Option (List Buffer × Virtqueue × Iter) → Option (List Buffer × Virtqueue × Iter)
with_buffer buf none = none
with_buffer buf (some (bufs, vq, it)) = some (buf ∷ bufs, vq, it)

abbrev drain_step :
    Option Buffer × Virtqueue × Iter
    → (Virtqueue → Iter → Option (List Buffer × Virtqueue × Iter))
    → Option (List Buffer × Virtqueue × Iter)
drain_step (none, vq, it) more = some ([], vq, it)
drain_step (some buf, vq, it) more = with_buffer buf (more vq it)

module _ (mem : MemoryMap) (ram : Ram) where
  resolve_indirect :
      (fuel : ℕ) (it : Iter) (d : Desc)
      → it.is_indirect ≡ true
      → resolve (suc fuel) mem ram it d ≢ out_of_fuel
  unfolding resolve
  resolve_indirect fuel it d e = ground (arith, e)

  -- One indirect descriptor is entered at most: the loop in `virtqueue_next_buffer` ends.
  pub resolve-ne-out_of_fuel : (it : Iter) (d : Desc) → resolve 2 mem ram it d ≢ out_of_fuel
  unfolding resolve
  resolve-ne-out_of_fuel it d = ground (
    arith,
    resolve_indirect 0 (enter_table it d (map_buffer mem d)) (read_desc ram (map_buffer mem d))
        refl,
  )

  resolve-nseen :
      (fuel : ℕ) (it it' : Iter) (d d' : Desc)
      → it.nseen + fuel < u32_mod
      → resolve fuel mem ram it d ≡ at it' d'
      → (it.nseen ≤ it'.nseen) × (it'.nseen ≤ it.nseen + fuel)
  unfolding resolve
  resolve-nseen zero it it' d d' h e = absurd (ground arith)
  resolve-nseen (suc fuel) it it' d d' h e = ground (
    arith,
    resolve-nseen fuel (enter_table it d (map_buffer mem d)) it' (read_desc ram (map_buffer mem d))
        d',
  )

  take_buffer-nseen :
      (vq vq' : Virtqueue) (it it' : Iter) (d : Desc) (buf : Buffer)
      → it.nseen + 1 < u32_mod
      → take_buffer mem vq it d ≡ (some buf, vq', it')
      → (vq' ≡ vq) × (it'.nseen ≡ it.nseen + 1) × (it'.nseen ≤ vq.qsize)
  unfolding take_buffer
  take_buffer-nseen vq vq' it it' d buf h e = ground arith

  take_resolved-nseen :
      (vq vq' : Virtqueue) (it it' : Iter) (buf : Buffer) (r : Resolved)
      → ((it1 : Iter) (d : Desc)
          → r ≡ at it1 d
          → (it.nseen ≤ it1.nseen) × (it1.nseen + 1 < u32_mod))
      → take_resolved mem vq it r ≡ (some buf, vq', it')
      → (vq' ≡ vq) × (it.nseen < it'.nseen) × (it'.nseen ≤ vq.qsize)
  unfolding take_resolved
  take_resolved-nseen vq vq' it it' buf (broken it1) b e = absurd (ground arith)
  take_resolved-nseen vq vq' it it' buf (at it1 d) b e =
      let (low, high) = b it1 d refl in
      ground (arith, take_buffer-nseen vq vq' it1 it' d buf high e)
  take_resolved-nseen vq vq' it it' buf out_of_fuel b e = absurd (ground arith)

  -- Each buffer counts, and no chain has more of them than the queue has descriptors.
  pub next_buffer-nseen :
      (vq vq' : Virtqueue) (it it' : Iter) (buf : Buffer)
      → it.nseen ≤ max_size
      → next_buffer mem ram vq it ≡ (some buf, vq', it')
      → (vq' ≡ vq) × (it.nseen < it'.nseen) × (it'.nseen ≤ vq.qsize)
  unfolding next_buffer
  next_buffer-nseen vq vq' it it' buf h e =
      elim (Bool-cases (vq.is_broken || it.cur == invalid_desc_id)) [
        | inl t ↦ absurd (ground (arith, e, t))
        | inr t ↦
            take_resolved-nseen vq vq' it it' buf
              (resolve 2 mem ram it (read_desc ram (cur_desc it)))
              (λ it1 d r.
                omega
                  (arith, resolve-nseen 2 it it1 (read_desc ram (cur_desc it)) d (omega arith) r))
              (rw t at e)
      ]

  -- The loop, with fuel: all buffers, and the queue and the iterator as it leaves them.
  unfoldable pub drain : ℕ → Virtqueue → Iter → Option (List Buffer × Virtqueue × Iter)
  drain zero vq it = none
  drain (suc fuel) vq it = drain_step (next_buffer mem ram vq it) (drain fuel)

  abbrev Drained : ℕ → Virtqueue → Iter → Type 0
  Drained fuel vq it =
      (r : List Buffer × Virtqueue × Iter) × (drain fuel vq it ≡ some r)
      × (length r.0 + it.nseen ≤ vq.qsize)

  Drained-cons :
      (fuel : ℕ) (vq vq' : Virtqueue) (it it' : Iter) (buf : Buffer)
      → next_buffer mem ram vq it ≡ (some buf, vq', it')
      → vq'.qsize ≡ vq.qsize
      → it.nseen < it'.nseen
      → Drained fuel vq' it'
      → Drained (suc fuel) vq it
  unfolding drain
  Drained-cons fuel vq vq' it it' buf e q n (r, more, bound) =
      ((buf ∷ r.0, r.1, r.2), rw (e, more), omega arith)

  -- On a queue of up to 32768 descriptors a chain comes to its end within the fuel that the queue size
  -- gives, after at most as many buffers as the queue has descriptors.
  pub drain_total :
      (fuel : ℕ) (vq : Virtqueue) (it : Iter)
      → vq.qsize ≤ max_size
      → it.nseen ≤ vq.qsize
      → vq.qsize < fuel + it.nseen
      → (r : List Buffer × Virtqueue × Iter) × (drain fuel vq it ≡ some r)
        × (length r.0 + it.nseen ≤ vq.qsize)
  unfolding drain
  drain_total zero vq it h k f = absurd (omega arith)
  drain_total (suc fuel) vq it h k f = step (drain_total fuel) (next_buffer mem ram vq it) refl
    where
      step :
          ((vq1 : Virtqueue) (it1 : Iter)
            → vq1.qsize ≤ max_size
            → it1.nseen ≤ vq1.qsize
            → vq1.qsize < fuel + it1.nseen
            → Drained fuel vq1 it1)
          → (r : Option Buffer × Virtqueue × Iter) → next_buffer mem ram vq it ≡ r
          → Drained (suc fuel) vq it
      step ih (none, vq', it') e = (([], vq', it'), rw e, omega arith)
      step ih (some buf, vq', it') e =
          let (same, more, bound) = next_buffer-nseen vq vq' it it' buf (omega arith) e in
          let q : vq'.qsize ≡ vq.qsize = ap (λ (t : Virtqueue). t.qsize) same in
          Drained-cons fuel vq vq' it it' buf e q more
            (ih vq' it' (omega arith) (omega arith) (omega arith))

take_buffer_end :
    (mem : MemoryMap) (vq vq' : Virtqueue) (it it' : Iter) (d : Desc)
    → take_buffer mem vq it d ≡ (none, vq', it')
    → vq'.is_broken ≡ true
unfolding take_buffer
take_buffer_end mem vq vq' it it' d e = ground arith

take_resolved_end :
    (mem : MemoryMap) (vq vq' : Virtqueue) (it it' : Iter) (r : Resolved)
    → take_resolved mem vq it r ≡ (none, vq', it')
    → vq'.is_broken ≡ true
unfolding take_resolved
take_resolved_end mem vq vq' it it' (broken it1) e = ground arith
take_resolved_end mem vq vq' it it' (at it1 d) e = take_buffer_end mem vq vq' it1 it' d e
take_resolved_end mem vq vq' it it' out_of_fuel e = ground arith

-- Once a call finds no buffer, no later one does, whatever the guest writes or the device maps; and
-- where the chain had not come to its end, the queue is marked broken.
pub next_buffer_end :
    (mem mem' : MemoryMap) (ram ram' : Ram) (vq vq' : Virtqueue) (it it' : Iter)
    → next_buffer mem ram vq it ≡ (none, vq', it')
    → (next_buffer mem' ram' vq' it' ≡ (none, vq', it'))
      × (has_next_buffer it ≡ true → vq'.is_broken ≡ true)
unfolding next_buffer has_next_buffer
next_buffer_end mem mem' ram ram' vq vq' it it' e =
    elim (Bool-cases (vq.is_broken || it.cur == invalid_desc_id)) [
      | inl t ↦ ground (arith, e, t)
      | inr t ↦
          let broke =
            take_resolved_end mem vq vq' it it' (resolve 2 mem ram it (read_desc ram (cur_desc it)))
              (rw t at e) in
          (rw broke, λ _. broke)
    ]
