-- ===== src/Memory/Gap.antt =====
-- A range over several regions gets one pointer. Which bytes stand behind it depends on where the
-- regions were mapped in the host.
use libvhost_user.Base.{
  ℕ, ◌+◌, ◌-◌, ◌≤◌, ◌<◌, ◌≡◌, ◌≢◌, ◌∙◌, refl, ap, Bool, true, false, not, ◌||◌, none, some, [], ◌∷◌,
  arith, ltb, inl, inr, Bool-cases, u64_mod, u32_mod,
}
use libvhost_user.Memory.{Region, MemoryMap, map_failed, find_gpa_range}
use libvhost_user.Memory.Valid.{Above, IsValid}
use libvhost_user.Memory.Spec.{has, host}
use libvhost_user.Memory.Range.{find_gpa_range_iff, host-find_gpa_range}
use libvhost_user.Memory.Steps.{host_below, host_here, host_there}
use libvhost_user.Memory.Walk.{next_start}

-- Regions that follow one another in the guest do so in the host.
abbrev pub IsJoined : MemoryMap → Type 0
IsJoined [] = Unit {0}
IsJoined (r ∷ []) = Unit {0}
IsJoined (r ∷ r2 ∷ rs) = (r2.gpa ≡ r.gpa + r.len → r2.hva ≡ r.hva + r.len) × IsJoined (r2 ∷ rs)

access_of_mapped :
    (mr : Region) (rest : MemoryMap) (ro : Bool) (a : ℕ)
    → has mr a ≡ true
    → host (mr ∷ rest) ro a ≢ none
    → host (mr ∷ rest) ro a ≡ some (mr.hva + (a - mr.gpa))
access_of_mapped mr rest ro a h n = elim (Bool-cases (ro || not mr.ro)) [
  | inl t ↦ host_here mr rest ro a h ∙ rw t
  | inr t ↦ absurd (n (host_here mr rest ro a h ∙ rw t))
]

joined_from :
    (lo : ℕ) (mr : Region) (rest : MemoryMap) (ro : Bool) (g i : ℕ)
    → Above lo (mr ∷ rest)
    → IsJoined (mr ∷ rest)
    → has mr g ≡ true
    → ((j : ℕ) → j ≤ i → host (mr ∷ rest) ro (g + j) ≢ none)
    → host (mr ∷ rest) ro (g + i) ≡ some (mr.hva + (g - mr.gpa) + i)
joined_from lo mr [] ro g i v w h all = elim (Bool-cases (ltb (g + i) (mr.gpa + mr.len))) [
  | inl near ↦
      access_of_mapped mr [] ro (g + i) (ground arith) (all i (omega arith))
      ∙ ap some (ground arith)
  | inr far ↦
      absurd (all i (omega arith) (unfold host in host_there mr [] ro (g + i) (ground arith)))
]
joined_from lo mr (r2 ∷ rs) ro g i v w h all = elim (Bool-cases (ltb (g + i) (mr.gpa + mr.len))) [
  | inl near ↦
      access_of_mapped mr (r2 ∷ rs) ro (g + i) (ground arith) (all i (omega arith))
      ∙ ap some (ground arith)
  | inr far ↦
      let start = next_start lo mr r2 rs ro g v h (all (mr.gpa + mr.len - g) (ground arith)) in
      host_there mr (r2 ∷ rs) ro (g + i) (ground arith)
      ∙ ap (host (r2 ∷ rs) ro) (ground (arith, start))
      ∙ joined_from (mr.gpa + mr.len) r2 rs ro r2.gpa (g + i - (mr.gpa + mr.len)) v.2 w.1
          (ground arith) (shift start (ground arith) (ground arith))
      ∙ ap some (ground (arith, start, w.0 start))
]
  where
    shift :
        r2.gpa ≡ mr.gpa + mr.len
        → g < mr.gpa + mr.len
        → mr.gpa + mr.len ≤ g + i
        → (j : ℕ) → j ≤ g + i - (mr.gpa + mr.len)
        → host (r2 ∷ rs) ro (r2.gpa + j) ≢ none
    shift start before behind j b =
        let same : g + (r2.gpa + j - g) ≡ r2.gpa + j = omega arith in
        rw (same, host_there mr (r2 ∷ rs) ro (r2.gpa + j) (ground arith)) at
          (all (r2.gpa + j - g) (omega arith))

-- The same from the first byte, wherever its region is.
joined_bytes :
    (lo : ℕ) (mem : MemoryMap) (ro : Bool) (g i : ℕ) {p : ℕ}
    → Above lo mem
    → IsJoined mem
    → host mem ro g ≡ some p
    → ((j : ℕ) → j ≤ i → host mem ro (g + j) ≢ none)
    → host mem ro (g + i) ≡ some (p + i)
joined_bytes lo [] ro g i v w e all = absurd (unfold host in all 0 (omega arith) refl)
joined_bytes lo (r ∷ []) ro g i {p} v w e all = elim (Bool-cases (has r g)) [
  | inl t ↦ joined_from lo r [] ro g i v tt t all ∙ ap some (start t)
  | inr t ↦ absurd (unfold host in ground (arith, e, t))
]
  where
    start : has r g ≡ true → r.hva + (g - r.gpa) + i ≡ p + i
    start t = ground (arith, access_of_mapped r [] ro g t (λ n. ground (arith, e, n)), e)
joined_bytes lo (r ∷ r2 ∷ rs) ro g i {p} v w e all = elim (Bool-cases (has r g)) [
  | inl t ↦ joined_from lo r (r2 ∷ rs) ro g i v w t all ∙ ap some (start t)
  | inr t ↦
      let rest = host_there r (r2 ∷ rs) ro g t in
      host_there r (r2 ∷ rs) ro (g + i) (behind t i)
      ∙ joined_bytes (r.gpa + r.len) (r2 ∷ rs) ro g i v.2 w.1 (ground (arith, rest, e))
          (λ j b. rw (host_there r (r2 ∷ rs) ro (g + j) (behind t j)) at (all j b))
]
  where
    start : has r g ≡ true → r.hva + (g - r.gpa) + i ≡ p + i
    start t = ground (arith, access_of_mapped r (r2 ∷ rs) ro g t (λ n. ground (arith, e, n)), e)

    behind : has r g ≡ false → (j : ℕ) → has r (g + j) ≡ false
    behind t j = elim (Bool-cases (ltb g r.gpa)) [
      | inl low ↦ absurd (
          ground (
            arith,
            host_there r (r2 ∷ rs) ro g t,
            host_below (r.gpa + r.len) (r2 ∷ rs) ro g v.2 (ground arith),
            e,
          ))
      | inr high ↦ ground arith
    ]

-- In a valid table whose neighbours in the guest are neighbours in the host, each byte of a non-empty
-- mapped range, with a 64-bit start and a 32-bit length, is behind the returned pointer, at its
-- offset.
pub find_gpa_range-bytes :
    (mem : MemoryMap) (g len : ℕ) (ro : Bool)
    → IsValid mem
    → IsJoined mem
    → g < u64_mod
    → 0 < len
    → len < u32_mod
    → find_gpa_range mem g len ro ≢ map_failed
    → (i : ℕ) → i < len
    → host mem ro (g + i) ≡ some (find_gpa_range mem g len ro + i)
find_gpa_range-bytes mem g len ro v w h k fits ne i b =
    joined_bytes 0 mem ro g i v.sorted w (host-find_gpa_range mem g len ro v h k fits ne)
      (λ j c. (find_gpa_range_iff mem g len ro v h k fits).0 ne j (omega arith))

-- Without that the pointer runs out of its region: in a valid table of two regions that follow one
-- another in the guest but not in the host, the range of the last byte of the one and the first of
-- the other is mapped, and the second byte behind the pointer is not the second byte of the range.
pub find_gpa_range_escapes :
    (r1 r2 : Region)
    → IsValid (r1 ∷ r2 ∷ [])
    → r2.gpa ≡ r1.gpa + r1.len
    → r2.hva ≢ r1.hva + r1.len
    → let p = find_gpa_range (r1 ∷ r2 ∷ []) (r2.gpa - 1) 2 true in
      (p ≢ map_failed) × (host (r1 ∷ r2 ∷ []) true (r2.gpa - 1 + 1) ≢ some (p + 1))
unfolding host
find_gpa_range_escapes r1 r2 v next apart = (
  ne,
  λ e. ground (
    arith,
    host-find_gpa_range (r1 ∷ r2 ∷ []) (r2.gpa - 1) 2 true v low (omega arith) (omega arith) ne,
    e,
  ),
)
  where
    low : r2.gpa - 1 < u64_mod
    low = omega arith

    ne : find_gpa_range (r1 ∷ r2 ∷ []) (r2.gpa - 1) 2 true ≢ map_failed
    ne =
        (find_gpa_range_iff (r1 ∷ r2 ∷ []) (r2.gpa - 1) 2 true v low (omega arith) (omega arith)).1
          (λ i b n. ground (arith, n))
