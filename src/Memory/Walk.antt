-- ===== src/Memory/Walk.antt =====
-- The loop of `virtio_find_gpa_range` over the regions, against `host`.
use libvhost_user.Base.{
  ℕ, zero, suc, ◌+◌, ◌-◌, ◌≤◌, ◌<◌, ◌≡◌, ◌≢◌, ◌∙◌, Bool, true, not, ◌||◌, none, [], ◌∷◌, arith, ltb,
  inl, inr, Bool-cases, u32_mod,
}
use libvhost_user.Memory.{Region, MemoryMap, is_gap, walk_regions}
use libvhost_user.Memory.Valid.{Above}
use libvhost_user.Memory.Spec.{has, host}
use libvhost_user.Memory.Steps.{
  host_below, walk_zero, walk_inside, walk_refused, host_here, host_there, adjacent, gap-Above,
  across_end, walk_next, across_next,
}

-- If the byte behind a region is mapped, the next region starts there.
pub next_start :
    (lo : ℕ) (mr r2 : Region) (rs : MemoryMap) (ro : Bool) (g : ℕ)
    → Above lo (mr ∷ r2 ∷ rs)
    → has mr g ≡ true
    → host (mr ∷ r2 ∷ rs) ro (g + (mr.gpa + mr.len - g)) ≢ none
    → r2.gpa ≡ mr.gpa + mr.len
next_start lo mr r2 rs ro g v h n = elim (Bool-cases (ltb (mr.gpa + mr.len) r2.gpa)) [
  | inr t ↦ ground arith
  | inl t ↦ absurd (
      n (
        host_there mr (r2 ∷ rs) ro (g + (mr.gpa + mr.len - g)) (ground arith)
        ∙ host_below r2.gpa (r2 ∷ rs) ro (g + (mr.gpa + mr.len - g)) (omega arith, v.2.1, v.2.2)
            (ground arith)))
]

-- What the loop decides, at a region that has the first address: every byte is mapped.
pub walk_sound :
    (lo : ℕ) (mr : Region) (rest : MemoryMap) (g len : ℕ) (ro : Bool)
    → Above lo (mr ∷ rest)
    → has mr g ≡ true
    → len < u32_mod
    → walk_regions (mr ∷ rest) g len ro ≡ 0
    → (i : ℕ) → i < len
    → host (mr ∷ rest) ro (g + i) ≢ none
walk_sound lo mr [] g len ro v h fits e i k = elim (Bool-cases (ro || not mr.ro)) [
  | inr refused ↦ absurd (omega (arith, walk_refused mr [] g len ro refused))
  | inl access ↦ elim (Bool-cases (ltb (g + i) (mr.gpa + mr.len))) [
    | inl near ↦ rw (host_here mr [] ro (g + i) (ground arith), access) (λ n. cc)
    | inr far ↦ absurd (across_end lo mr g len ro v.1 h access fits (ground arith) e)
  ]
]
walk_sound lo mr (r2 ∷ rs) g len ro v h fits e i k = elim (Bool-cases (ro || not mr.ro)) [
  | inr refused ↦ absurd (omega (arith, walk_refused mr (r2 ∷ rs) g len ro refused))
  | inl access ↦ elim (Bool-cases (ltb (g + i) (mr.gpa + mr.len))) [
    | inl near ↦ rw (host_here mr (r2 ∷ rs) ro (g + i) (ground arith), access) (λ n. cc)
    | inr far ↦
        let (start, more) = across_next lo mr g len ro v.1 h access fits (ground arith) r2 rs v e in
        let next =
          walk_sound (mr.gpa + mr.len) r2 rs r2.gpa (g + len - (mr.gpa + mr.len)) ro v.2
            (ground arith) (ground arith) more (g + i - (mr.gpa + mr.len)) (ground arith) in
        let same : r2.gpa + (g + i - (mr.gpa + mr.len)) ≡ g + i = ground arith in
        rw (host_there mr (r2 ∷ rs) ro (g + i) (ground arith)) (rw same at next)
  ]
]

-- And the other way round: if every byte is mapped, nothing is left.
pub walk_complete :
    (lo : ℕ) (mr : Region) (rest : MemoryMap) (g len : ℕ) (ro : Bool)
    → Above lo (mr ∷ rest)
    → has mr g ≡ true
    → len < u32_mod
    → ((i : ℕ) → i < len → host (mr ∷ rest) ro (g + i) ≢ none)
    → walk_regions (mr ∷ rest) g len ro ≡ 0
walk_complete lo mr rest g zero ro v h fits all = walk_zero (mr ∷ rest) g ro
walk_complete lo mr [] g (suc n) ro v h fits all = elim (Bool-cases (ro || not mr.ro)) [
  | inr refused ↦
      let first = all 0 (omega arith) in
      absurd (first (rw (host_here mr [] ro (g + 0) (ground arith), refused)))
  | inl access ↦ elim (Bool-cases (ltb (mr.gpa + mr.len) (g + suc n))) [
    | inl far ↦ absurd (all (mr.gpa + mr.len - g) (ground arith) (past (ground arith)))
    | inr near ↦ walk_inside mr [] g (suc n) ro v.1 h access fits (ground arith)
  ]
]
  where
    past : g ≤ mr.gpa + mr.len → host (mr ∷ []) ro (g + (mr.gpa + mr.len - g)) ≡ none
    past low = unfold host in rw (host_there mr [] ro (g + (mr.gpa + mr.len - g)) (ground arith))
walk_complete lo mr (r2 ∷ rs) g (suc n) ro v h fits all = elim (Bool-cases (ro || not mr.ro)) [
  | inr refused ↦
      let first = all 0 (omega arith) in
      absurd (first (rw (host_here mr (r2 ∷ rs) ro (g + 0) (ground arith), refused)))
  | inl access ↦ elim (Bool-cases (ltb (mr.gpa + mr.len) (g + suc n))) [
    | inr near ↦ walk_inside mr (r2 ∷ rs) g (suc n) ro v.1 h access fits (ground arith)
    | inl far ↦ elim (Bool-cases (is_gap mr (r2 ∷ rs))) [
      | inl gap ↦ absurd (
          all (mr.gpa + mr.len - g) (ground arith) (
            rw (host_there mr (r2 ∷ rs) ro (g + (mr.gpa + mr.len - g)) (ground arith)) (
              host_below r2.gpa (r2 ∷ rs) ro _ (omega arith, v.2.1, v.2.2)
                (ground (arith, gap-Above lo mr r2 rs v gap)))))
      | inr joined ↦
          walk_next lo mr g (suc n) ro v.1 h access fits (ground arith) r2 rs v joined
          ∙ walk_complete (mr.gpa + mr.len) r2 rs r2.gpa (g + suc n - (mr.gpa + mr.len)) ro v.2
              (ground arith) (ground arith) (shift (adjacent lo mr r2 rs v joined).0 (ground arith))
    ]
  ]
]
  where
    shift :
        r2.gpa ≡ mr.gpa + mr.len
        → g < mr.gpa + mr.len
        → (i : ℕ) → i < g + suc n - (mr.gpa + mr.len)
        → host (r2 ∷ rs) ro (r2.gpa + i) ≢ none
    shift start low i k =
        let same : g + (r2.gpa + i - g) ≡ r2.gpa + i = omega arith in
        rw (same, host_there mr (r2 ∷ rs) ro (r2.gpa + i) (ground arith)) at
          (all (r2.gpa + i - g) (omega arith))
