-- ===== src/Virtqueue/Start.antt =====
-- `virtqueue_start`: which queues it accepts, and what holds of a queue that was started.
use libvhost_user.Base.{
  ℕ, ◌+◌, ◌-◌, ◌%◌, ◌^◌, ◌≤◌, ◌<◌, ◌≡◌, ◌≢◌, ◌↔◌, ◌⊎◌, ◌∙◌, ap, Bool, true, false, ◌||◌, Option,
  none, some, arith, ltb, ◌==◌, ℤ, inl, inr, Bool-cases, Option-cases, has_any, bit_and, u64_mod,
  u32_mod, einval,
}
use libvhost_user.Base.{pos as ok}
use libvhost_user.Base.Bits.{bit_and_mask, pow2_of_test, test_of_pow2}
use native.Mathlib.Nat.{one-le-pow}
use libvhost_user.Memory.{MemoryMap, map_failed, find_gpa_range}
use libvhost_user.Memory.Valid.{IsValid}
use libvhost_user.Memory.Spec.{host}
use libvhost_user.Memory.Range.{find_gpa_range_iff, host-find_gpa_range}
use libvhost_user.Ram.{Ram}
use libvhost_user.Virtqueue.Layout.{max_size, Virtqueue}
use libvhost_user.Virtqueue.Setup.{
  is_aligned, map_part, desc_size, avail_size, used_size, map_parts, started, start_ram, start,
}

-- All of a part is mapped for writing, its first byte at an aligned pointer.
pub record IsPart (mem : MemoryMap) (gpa size align p : ℕ) : Type 0 where
  pub mapped : (i : ℕ) → i < size → host mem false (gpa + i) ≢ none
  pub first : host mem false gpa ≡ some p
  pub aligned : p % align ≡ 0

aligned_iff : (p j : ℕ) → (is_aligned p (2 ^ j) ≡ true) ↔ (p % 2 ^ j ≡ 0)
aligned_iff p j = rw (bit_and_mask p j) (ground arith)

-- What the test of a part says.
map_part_cases :
    (mem : MemoryMap) (gpa size j p : ℕ)
    → (map_part mem gpa size (2 ^ j) ≡ some p)
      ↔ ((find_gpa_range mem gpa size false ≡ p) × (p ≢ map_failed) × (p % 2 ^ j ≡ 0))
unfolding map_part
map_part_cases mem gpa size j p = (
  λ e. ground (arith, aligned_iff (find_gpa_range mem gpa size false) j),
  λ (e, ne, al). rw e (ground (arith, aligned_iff p j)),
)

module _ (mem : MemoryMap) (gpa size j : ℕ) (v : IsValid mem) (h : gpa < u64_mod) (k : 0 < size)
    (fits : size < u32_mod) where
  -- A part is accepted exactly when it is mapped and aligned.
  map_part_iff : (p : ℕ) → (map_part mem gpa size (2 ^ j) ≡ some p) ↔ IsPart mem gpa size (2 ^ j) p
  map_part_iff p = (λ e. accept (part.0 e), λ q. part.1 (refuse q))
    where
      part :
          (map_part mem gpa size (2 ^ j) ≡ some p)
          ↔ ((find_gpa_range mem gpa size false ≡ p) × (p ≢ map_failed) × (p % 2 ^ j ≡ 0))
      part = map_part_cases mem gpa size j p

      accept :
          (find_gpa_range mem gpa size false ≡ p) × (p ≢ map_failed) × (p % 2 ^ j ≡ 0)
          → IsPart mem gpa size (2 ^ j) p
      accept (e, ne, al) =
          let found : find_gpa_range mem gpa size false ≢ map_failed = rw e ne in
          record {
            mapped = (find_gpa_range_iff mem gpa size false v h k fits).0 found;
            first = host-find_gpa_range mem gpa size false v h k fits found ∙ ap some e;
            aligned = al;
          }

      refuse :
          IsPart mem gpa size (2 ^ j) p
          → (find_gpa_range mem gpa size false ≡ p) × (p ≢ map_failed) × (p % 2 ^ j ≡ 0)
      refuse q =
          let found = (find_gpa_range_iff mem gpa size false v h k fits).1 q.mapped in
          let e : find_gpa_range mem gpa size false ≡ p =
            ground (arith, host-find_gpa_range mem gpa size false v h k fits found, q.first) in
          (e, rw (← e) found, q.aligned)

map_parts_iff :
    (mem : MemoryMap) (qsize desc_gpa avail_gpa used_gpa d a u : ℕ)
    → (map_parts mem qsize desc_gpa avail_gpa used_gpa ≡ some (d, a, u)) ↔ (
        (map_part mem desc_gpa (desc_size qsize) 16 ≡ some d)
        × (map_part mem avail_gpa (avail_size qsize) 2 ≡ some a)
        × (map_part mem used_gpa (used_size qsize) 4 ≡ some u))
unfolding map_parts
map_parts_iff mem qsize desc_gpa avail_gpa used_gpa d a u = ground arith

module _ (mem : MemoryMap) (ram : Ram) (vq : Virtqueue)
    (qsize desc_gpa avail_gpa used_gpa avail_base : ℕ) (callfd : ℤ) (has_event_idx : Bool)
    (v : IsValid mem) (hd : desc_gpa < u64_mod) (ha : avail_gpa < u64_mod)
    (hu : used_gpa < u64_mod) where
  -- What the specification asks of a queue: a size that is a power of two, up to 32768, and three
  -- parts in writable memory at aligned pointers `d`, `a` and `u`.
  pub record Startable (d a u : ℕ) : Type 0 where
    pub exponent : ℕ
    pub pow2 : qsize ≡ 2 ^ exponent
    pub small : qsize ≤ max_size
    pub desc : IsPart mem desc_gpa (desc_size qsize) (2 ^ 4) d
    pub avail : IsPart mem avail_gpa (avail_size qsize) (2 ^ 1) a
    pub used : IsPart mem used_gpa (used_size qsize) (2 ^ 2) u

  abbrev call : ℤ × Virtqueue × Ram
  call = start mem ram vq qsize desc_gpa avail_gpa used_gpa avail_base callfd has_event_idx

  abbrev parts : Option (ℕ × ℕ × ℕ)
  parts = map_parts mem qsize desc_gpa avail_gpa used_gpa

  abbrev bad_size : Bool
  bad_size = (qsize == 0 || has_any qsize (qsize - 1)) || ltb max_size qsize

  -- The test of the size.
  size_pow2 : bad_size ≡ false → ((k : ℕ) × (qsize ≡ 2 ^ k)) × (qsize ≤ max_size) × (0 < qsize)
  size_pow2 e = (pow2_of_test qsize (ground arith) (ground arith), ground arith, ground arith)

  pow2-size : (k : ℕ) → qsize ≡ 2 ^ k → qsize ≤ max_size → (bad_size ≡ false) × (0 < qsize)
  pow2-size k e small =
      let zero_test : bit_and qsize (qsize - 1) ≡ 0 = rw e (test_of_pow2 k) in
      (ground (arith, one-le-pow k 2), omega (arith, one-le-pow k 2))

  module _ (pos_size : 0 < qsize) (small : qsize ≤ max_size) where
    desc_iff :
        (p : ℕ)
        → (map_part mem desc_gpa (desc_size qsize) (2 ^ 4) ≡ some p)
          ↔ IsPart mem desc_gpa (desc_size qsize) (2 ^ 4) p
    desc_iff = map_part_iff mem desc_gpa (desc_size qsize) 4 v hd (omega arith) (omega arith)

    avail_iff :
        (p : ℕ)
        → (map_part mem avail_gpa (avail_size qsize) (2 ^ 1) ≡ some p)
          ↔ IsPart mem avail_gpa (avail_size qsize) (2 ^ 1) p
    avail_iff = map_part_iff mem avail_gpa (avail_size qsize) 1 v ha (omega arith) (omega arith)

    used_iff :
        (p : ℕ)
        → (map_part mem used_gpa (used_size qsize) (2 ^ 2) ≡ some p)
          ↔ IsPart mem used_gpa (used_size qsize) (2 ^ 2) p
    used_iff = map_part_iff mem used_gpa (used_size qsize) 2 v hu (omega arith) (omega arith)

    parts_iff :
        (d a u : ℕ)
        → (parts ≡ some (d, a, u)) ↔ (
            IsPart mem desc_gpa (desc_size qsize) (2 ^ 4) d
            × IsPart mem avail_gpa (avail_size qsize) (2 ^ 1) a
            × IsPart mem used_gpa (used_size qsize) (2 ^ 2) u)
    parts_iff d a u =
        let split = map_parts_iff mem qsize desc_gpa avail_gpa used_gpa d a u in
        (
          λ e. let (x, y, z) = split.0 e in ((desc_iff d).0 x, (avail_iff a).0 y, (used_iff u).0 z),
          λ (x, y, z). split.1 ((desc_iff d).1 x, (avail_iff a).1 y, (used_iff u).1 z),
        )

  abbrev pub IsStartable : Type 0
  IsStartable = (d : ℕ) × (a : ℕ) × (u : ℕ) × Startable d a u

  startable_cases : IsStartable ⊎ (¬ IsStartable × (call ≡ (einval, vq, ram)))
  unfolding start
  startable_cases = elim (Bool-cases bad_size) [
    | inl bad ↦
        inr ((λ (_, _, _, w). ground (arith, pow2-size w.exponent w.pow2 w.small, bad)), rw bad)
    | inr good ↦
        let (pow, small, positive) = size_pow2 good in
        elim (Option-cases parts) [
          | inl e ↦ inr (
            (λ (d, a, u, w).
                ground (arith, (parts_iff positive small d a u).1 (w.desc, w.avail, w.used), e)),
            rw (good, e),
          )
          | inr (t, e) ↦
              let (x, y, z) = (parts_iff positive small t.0 t.1 t.2).0 e in
              inl (
                t.0,
                t.1,
                t.2,
                record {
                  exponent = pow.0;
                  pow2 = pow.1;
                  small = small;
                  desc = x;
                  avail = y;
                  used = z;
                },
              )
        ]
  ]

  accepted :
      (d a u : ℕ)
      → Startable d a u
      → let vq' = started vq qsize (d, a, u) avail_base callfd has_event_idx in
        call ≡ (ok 0, vq', start_ram vq' ram)
  unfolding start
  accepted d a u w =
      let (good, positive) = pow2-size w.exponent w.pow2 w.small in
      let e = (parts_iff positive w.small d a u).1 (w.desc, w.avail, w.used) in rw (good, e)

  -- A queue is started exactly when it meets what the specification asks; then its state is as
  -- asked, with the pointers of its parts, and otherwise nothing changes and the result is -EINVAL.
  pub start_lem :
      ((d : ℕ) × (a : ℕ) × (u : ℕ) × Startable d a u
        × (let vq' = started vq qsize (d, a, u) avail_base callfd has_event_idx in
            call ≡ (ok 0, vq', start_ram vq' ram)))
      ⊎ (¬ ((d : ℕ) × (a : ℕ) × (u : ℕ) × Startable d a u) × (call ≡ (einval, vq, ram)))
  start_lem = elim startable_cases [
    | inl (d, a, u, w) ↦ inl (d, a, u, w, accepted d a u w)
    | inr r ↦ inr r
  ]
