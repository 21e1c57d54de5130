-- ===== src/Virtqueue/Frame.antt =====
-- What `virtqueue_next_buffer` leaves alone.
use libvhost_user.Base.{
  ℕ, zero, suc, ◌+◌, ◌<◌, ◌≡◌, ◌⊎◌, refl, ◌||◌, Option, some, arith, ◌==◌, inl, inr, Bool-cases,
  u32_mod, subst,
}
use libvhost_user.Memory.{MemoryMap}
use libvhost_user.Ram.{Ram}
use libvhost_user.Ram.Laws.{read32-lt}
use libvhost_user.Virtqueue.Layout.{invalid_desc_id, Virtqueue, Iter, Desc, read_desc, Buffer}
use libvhost_user.Virtqueue.Iterator.{
  map_buffer, cur_desc, mark_broken, Resolved, broken, at, out_of_fuel, enter_table, resolve,
  take_buffer, take_resolved, next_buffer,
}

-- The iterator keeps its head; the queue changes in nothing but its `is_broken`; a buffer has a
-- length that a descriptor can hold.
pub record IsFramed (vq : Virtqueue) (head : ℕ) (r : Option Buffer × Virtqueue × Iter)
    : Type 0 where
  pub vq_kept : (r.1 ≡ vq) ⊎ (r.1 ≡ mark_broken vq)
  pub head_kept : r.2.head ≡ head
  pub len_fits : (buf : Buffer) → r.0 ≡ some buf → buf.len < u32_mod

read_desc-len_lt : (ram : Ram) (p : ℕ) → (read_desc ram p).len < u32_mod
unfolding read_desc
read_desc-len_lt ram p = read32-lt ram (p + 8)

take_buffer-IsFramed :
    (mem : MemoryMap) (vq : Virtqueue) (it : Iter) (d : Desc)
    → d.len < u32_mod
    → IsFramed vq it.head (take_buffer mem vq it d)
unfolding take_buffer
take_buffer-IsFramed mem vq it d h = record {
  vq_kept = ground arith;
  head_kept = ground arith;
  len_fits = λ buf e. ground arith;
}

data IsKept (head : ℕ) : Resolved → Type 0 where
  stopped : (it : Iter) → it.head ≡ head → IsKept head (broken it)
  arrived : (it : Iter) (d : Desc) → it.head ≡ head → d.len < u32_mod → IsKept head (at it d)
  starved : IsKept head out_of_fuel

resolve-IsKept :
    (fuel : ℕ) (mem : MemoryMap) (ram : Ram) (it : Iter) (d : Desc)
    → d.len < u32_mod
    → IsKept it.head (resolve fuel mem ram it d)
unfolding resolve
resolve-IsKept zero mem ram it d h = starved
resolve-IsKept (suc fuel) mem ram it d h =
    let stop : IsKept it.head (broken it) = stopped it refl in
    let arrive : IsKept it.head (at it d) = arrived it d refl h in
    let more =
      resolve-IsKept fuel mem ram (enter_table it d (map_buffer mem d))
        (read_desc ram (map_buffer mem d)) (read_desc-len_lt ram (map_buffer mem d)) in
    ground (arith, stop, arrive, more)

take_resolved-IsFramed :
    (mem : MemoryMap) (vq : Virtqueue) (it : Iter) (r : Resolved)
    → IsKept it.head r
    → IsFramed vq it.head (take_resolved mem vq it r)
unfolding take_resolved
take_resolved-IsFramed mem vq it (broken it') (stopped _ e) = record {
  vq_kept = inr refl;
  head_kept = e;
  len_fits = λ buf e. cc;
}
take_resolved-IsFramed mem vq it (at it' d) (arrived _ _ e h) =
    subst {A = ℕ} (λ n. IsFramed vq n (take_buffer mem vq it' d)) e
      (take_buffer-IsFramed mem vq it' d h)
take_resolved-IsFramed mem vq it out_of_fuel starved = record {
  vq_kept = inr refl;
  head_kept = refl;
  len_fits = λ buf e. cc;
}

pub next_buffer-IsFramed :
    (mem : MemoryMap) (ram : Ram) (vq : Virtqueue) (it : Iter)
    → IsFramed vq it.head (next_buffer mem ram vq it)
unfolding next_buffer
next_buffer-IsFramed mem ram vq it = elim (Bool-cases (vq.is_broken || it.cur == invalid_desc_id)) [
  | inl t ↦ rw t (record { vq_kept = inl refl; head_kept = refl; len_fits = λ buf e. cc })
  | inr t ↦ rw t (
      take_resolved-IsFramed mem vq it (resolve 2 mem ram it (read_desc ram (cur_desc it))) (
        resolve-IsKept 2 mem ram it (read_desc ram (cur_desc it))
          (read_desc-len_lt ram (cur_desc it))))
]
