-- ===== src/Virtqueue/Chain.antt =====
-- What `virtqueue_next_buffer` touches and what it hands out.
use libvhost_user.Base.{
  ℕ, zero, suc, ◌+◌, ◌*◌, ◌/◌, ◌≤◌, ◌<◌, ◌≡◌, ◌≢◌, ◌∙◌, refl, ap, Bool, true, not, ◌||◌, Option,
  some, arith, ltb, leb, ◌==◌, inl, inr, Bool-cases, has_any, u64_mod, u32_mod, ==_iff, add32,
  subst,
}
use libvhost_user.Memory.{MemoryMap, map_failed, find_gpa_range}
use libvhost_user.Memory.Valid.{IsValid}
use libvhost_user.Memory.Spec.{host}
use libvhost_user.Memory.Range.{find_gpa_range_zero, host_readable}
use libvhost_user.Memory.Gap.{IsJoined, find_gpa_range-bytes}
use libvhost_user.Ram.{Ram}
use libvhost_user.Ram.Laws.{read32-lt, read64-lt}
use libvhost_user.Virtqueue.Layout.{
  invalid_desc_id, desc_f_next, desc_f_indirect, desc_f_write, sizeof_desc, Virtqueue, Iter, Desc,
  read_desc, Buffer,
}
use libvhost_user.Virtqueue.Iterator.{
  map_buffer, cur_desc, Resolved, broken, at, out_of_fuel, enter_table, resolve, give_up,
  take_buffer, take_resolved, next_buffer, buffer_of,
}

-- `n` bytes from the host pointer `p` on are guest memory that may be accessed so.
pub record IsMapped (mem : MemoryMap) (ro : Bool) (p n : ℕ) : Type 0 where
  pub gpa : ℕ
  pub bytes : (i : ℕ) → i < n → host mem ro (gpa + i) ≡ some (p + i)

-- A descriptor as it can be read from memory.
record IsDesc (d : Desc) : Type 0 where
  addr_fits : d.addr < u64_mod
  len_fits : d.len < u32_mod

read_desc-IsDesc : (ram : Ram) (p : ℕ) → IsDesc (read_desc ram p)
unfolding read_desc
read_desc-IsDesc ram p = record { addr_fits = read64-lt ram p; len_fits = read32-lt ram (p + 8) }

-- The descriptor that the iterator is at lies in a readable table, with all that it may go to.
pub data IsSafe (mem : MemoryMap) (it : Iter) : Type 0 where
  ended : it.cur ≡ invalid_desc_id → IsSafe mem it
  inside :
      (n : ℕ)
      → IsMapped mem true it.ptbl n
      → sizeof_desc * (it.cur + 1) ≤ n
      → sizeof_desc * it.tbl_size ≤ n
      → IsSafe mem it

module _ (mem : MemoryMap) (ram : Ram) (v : IsValid mem) (w : IsJoined mem) where
  map_buffer-IsMapped :
      (d : Desc)
      → IsDesc d
      → map_buffer mem d ≢ map_failed
      → IsMapped mem (not (has_any d.flags desc_f_write)) (map_buffer mem d) d.len × (0 < d.len)
  unfolding map_buffer
  map_buffer-IsMapped d q ne = elim (Bool-cases (d.len == 0)) [
    | inl z ↦ absurd (
        ne (
          ap (λ n. find_gpa_range mem d.addr n (not (has_any d.flags desc_f_write)))
            ((==_iff _ _).0 z)
          ∙ find_gpa_range_zero mem d.addr _))
    | inr nz ↦ (
      record {
        gpa = d.addr;
        bytes =
            find_gpa_range-bytes mem d.addr d.len _ v w q.addr_fits (ground arith) q.len_fits ne;
      },
      ground arith,
    )
  ]

  enter_table-IsSafe :
      (it : Iter) (d : Desc)
      → IsDesc d
      → d.len / sizeof_desc ≢ 0
      → map_buffer mem d ≢ map_failed
      → IsSafe mem (enter_table it d (map_buffer mem d))
  enter_table-IsSafe it d q room ne =
      let (m, positive) = map_buffer-IsMapped d q ne in
      inside d.len
        (record { gpa = m.gpa; bytes = λ i b. host_readable mem _ (m.gpa + i) (m.bytes i b) })
        (omega arith) (omega arith)

  -- What the loop over indirect descriptors leaves.
  data IsGood : Resolved → Type 0 where
    stopped : (it : Iter) → IsGood (broken it)
    arrived :
        (it : Iter) (d : Desc)
        → IsSafe mem it
        → it.cur ≢ invalid_desc_id
        → d ≡ read_desc ram (cur_desc it)
        → IsGood (at it d)
    starved : IsGood out_of_fuel

  resolve-IsGood :
      (fuel : ℕ) (it : Iter) (d : Desc)
      → IsSafe mem it
      → it.cur ≢ invalid_desc_id
      → d ≡ read_desc ram (cur_desc it)
      → IsGood (resolve fuel mem ram it d)
  unfolding resolve
  resolve-IsGood zero it d s ne e = starved
  resolve-IsGood (suc fuel) it d s ne e =
      elim (Bool-cases (not (has_any d.flags desc_f_indirect))) [
        | inl t ↦ rw t (arrived it d s ne e)
        | inr t ↦ rw t (elim (Bool-cases (it.is_indirect || has_any d.flags desc_f_next)) [
          | inl u ↦ rw u (stopped it)
          | inr u ↦
              rw u
                (elim (Bool-cases ((d.len / sizeof_desc) == 0 || map_buffer mem d == map_failed)) [
                  | inl x ↦ rw x (stopped it)
                  | inr x ↦ rw x (
                      resolve-IsGood fuel (enter_table it d (map_buffer mem d))
                        (read_desc ram (map_buffer mem d))
                        (enter_table-IsSafe it d (rw e (read_desc-IsDesc ram (cur_desc it)))
                          (ground arith) (ground arith))
                        (omega arith) (ap (read_desc ram) (omega arith)))
                ])
        ])
      ]

  -- An iterator that is safe to use, and a buffer that may be accessed as it says.
  pub record IsSafeStep (r : Option Buffer × Virtqueue × Iter) : Type 0 where
    pub iter_safe : IsSafe mem r.2
    pub buffer_mapped :
        (buf : Buffer) → r.0 ≡ some buf → IsMapped mem buf.ro buf.ptr buf.len × (0 < buf.len)

  give_up-IsSafeStep : (vq : Virtqueue) (it : Iter) → IsSafeStep (give_up vq it)
  give_up-IsSafeStep vq it = record { iter_safe = ended refl; buffer_mapped = λ buf e. cc }

  -- Going on to `next` below the size of the table stays in the table.
  next-IsSafe :
      (it : Iter) (n next : ℕ)
      → it.cur ≢ invalid_desc_id
      → IsSafe mem it
      → next < it.tbl_size
      → IsSafe mem (record it { cur = next; nseen = n })
  next-IsSafe it n next ne (ended e) k = absurd (ne e)
  next-IsSafe it n next ne (inside m mapped low high) k = inside m mapped (omega arith) high

  take_buffer-IsSafeStep :
      (vq : Virtqueue) (it : Iter) (d : Desc)
      → IsSafe mem it
      → it.cur ≢ invalid_desc_id
      → IsDesc d
      → IsSafeStep (take_buffer mem vq it d)
  unfolding take_buffer
  take_buffer-IsSafeStep vq it d s ne q = elim (Bool-cases (ltb vq.qsize (add32 it.nseen 1))) [
    | inl t ↦ rw t (give_up-IsSafeStep vq (record it { nseen = add32 it.nseen 1 }))
    | inr t ↦ rw t (elim (Bool-cases (d.len == 0 || map_buffer mem d == map_failed)) [
      | inl u ↦ rw u (give_up-IsSafeStep vq (record it { nseen = add32 it.nseen 1 }))
      | inr u ↦
          let found = map_buffer-IsMapped d q (ground arith) in
          let same : (buf : Buffer)
              → some (buffer_of d (map_buffer mem d)) ≡ some buf
              → IsMapped mem buf.ro buf.ptr buf.len × (0 < buf.len) =
            λ buf e.
              let eq : buffer_of d (map_buffer mem d) ≡ buf = cc in
              subst {A = Buffer} (λ b. IsMapped mem b.ro b.ptr b.len × (0 < b.len)) eq found in
          rw u (elim (Bool-cases (has_any d.flags desc_f_next)) [
            | inr x ↦ rw x (record { iter_safe = ended refl; buffer_mapped = same })
            | inl x ↦ rw x (elim (Bool-cases (leb it.tbl_size d.next)) [
              | inl y ↦ rw y (give_up-IsSafeStep vq (record it { nseen = add32 it.nseen 1 }))
              | inr y ↦ rw y (record {
                iter_safe = next-IsSafe it (add32 it.nseen 1) d.next ne s (ground arith);
                buffer_mapped = same;
              })
            ])
          ])
    ])
  ]

  take_resolved-IsSafeStep :
      (vq : Virtqueue) (it : Iter) {r : Resolved}
      → IsGood r
      → IsSafeStep (take_resolved mem vq it r)
  unfolding take_resolved
  take_resolved-IsSafeStep vq it (stopped it') = give_up-IsSafeStep vq it'
  take_resolved-IsSafeStep vq it (arrived it' d s ne e) =
      take_buffer-IsSafeStep vq it' d s ne (rw e (read_desc-IsDesc ram (cur_desc it')))
  take_resolved-IsSafeStep vq it starved = give_up-IsSafeStep vq it

  -- In a valid and joined memory map: from an iterator whose descriptor lies in a readable table, each
  -- call leaves such an iterator; the buffer that it hands out, if any, is not empty and is
  -- mapped to its end, for writing too unless it is marked read-only.
  pub next_buffer-IsSafeStep :
      (vq : Virtqueue) (it : Iter) → IsSafe mem it → IsSafeStep (next_buffer mem ram vq it)
  unfolding next_buffer
  next_buffer-IsSafeStep vq it s = elim (Bool-cases (vq.is_broken || it.cur == invalid_desc_id)) [
    | inl t ↦ rw t (record { iter_safe = s; buffer_mapped = λ buf e. cc })
    | inr t ↦ rw t (
        take_resolved-IsSafeStep vq it
          (resolve-IsGood 2 it (read_desc ram (cur_desc it)) s (ground arith) refl))
  ]
