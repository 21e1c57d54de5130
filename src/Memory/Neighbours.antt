-- ===== src/Memory/Neighbours.antt =====
-- The test of the two neighbours in `virtio_add_guest_region` is a test of all regions.
use libvhost_user.Base.{
  Bool-cases, ◌∙◌, inl, inr, ℕ, suc, ◌+◌, ◌≤◌, ◌≡◌, refl, Bool, false, ◌&&◌, ◌||◌, [], ◌∷◌, arith,
  ltb,
}
use native.Mathlib.Numerals.{sub-one}
use libvhost_user.Memory.{
  Region, MemoryMap, are_overlapping_regions, insert_pos, overlaps, next_region, prev_region,
}
use libvhost_user.Memory.Valid.{IsRegion, Above}

-- Some region of the map shares an address with `mr`.
unfoldable pub any_overlap : MemoryMap → Region → Bool
any_overlap [] mr = false
any_overlap (r ∷ rs) mr =
    (ltb r.gpa (mr.gpa + mr.len) && ltb mr.gpa (r.gpa + r.len)) || any_overlap rs mr

any_overlap_below :
    (lo : ℕ) (mem : MemoryMap) (mr : Region)
    → Above lo mem
    → mr.gpa + mr.len ≤ lo
    → any_overlap mem mr ≡ false
unfolding any_overlap
any_overlap_below lo [] mr v h = refl
any_overlap_below lo (r ∷ rs) mr v h = ground (arith, any_overlap_below (r.gpa + r.len) rs mr v.2)

are_overlapping_lem :
    (r mr : Region)
    → IsRegion r
    → IsRegion mr
    → are_overlapping_regions r mr ≡ (ltb r.gpa (mr.gpa + mr.len) && ltb mr.gpa (r.gpa + r.len))
unfolding are_overlapping_regions
are_overlapping_lem r mr v w = ground arith

unfoldable pub neighbours : MemoryMap → Region → ℕ → Bool
neighbours mem mr i = overlaps (next_region mem i) mr || overlaps (prev_region mem i) mr

neighbours-zero :
    (r : Region) (rs : MemoryMap) (mr : Region)
    → neighbours (r ∷ rs) mr 0 ≡ are_overlapping_regions r mr
unfolding neighbours next_region prev_region overlaps
neighbours-zero r rs mr = ground arith

neighbours-one :
    (r r2 : Region) (rs : MemoryMap) (mr : Region)
    → neighbours (r ∷ r2 ∷ rs) mr 1
      ≡ (are_overlapping_regions r2 mr || are_overlapping_regions r mr)
unfolding neighbours next_region prev_region overlaps
neighbours-one r r2 rs mr = ground arith

-- Behind the second region both neighbours are those of the tail.
neighbours-suc :
    (r : Region) (rs : MemoryMap) (mr : Region) (i : ℕ)
    → neighbours (r ∷ rs) mr (suc (suc i)) ≡ neighbours rs mr (suc i)
unfolding neighbours next_region prev_region
neighbours-suc r rs mr i = rw (sub-one, sub-one) (ground arith)

neighbours_nil : (mr : Region) (i : ℕ) → neighbours [] mr i ≡ false
unfolding neighbours next_region prev_region overlaps
neighbours_nil mr i = ground arith

neighbours_single : (r mr : Region) → neighbours (r ∷ []) mr 1 ≡ are_overlapping_regions r mr
unfolding neighbours next_region prev_region overlaps
neighbours_single r mr = ground arith

pub neighbours_lem :
    (lo : ℕ) (mem : MemoryMap) (mr : Region)
    → Above lo mem
    → IsRegion mr
    → neighbours mem mr (insert_pos mem mr.gpa) ≡ any_overlap mem mr
unfolding any_overlap insert_pos
neighbours_lem lo [] mr v w = neighbours_nil mr 0
neighbours_lem lo (r ∷ []) mr v w =
    let over = are_overlapping_lem r mr v.1 w in
    elim (Bool-cases (ltb mr.gpa r.gpa)) [
      | inl t ↦ rw t (ground (arith, over, neighbours-zero r [] mr))
      | inr t ↦ rw t (ground (arith, over, neighbours_single r mr))
    ]
neighbours_lem lo (r ∷ r2 ∷ rs) mr v w =
    let over = are_overlapping_lem r mr v.1 w in
    let over2 = are_overlapping_lem r2 mr v.2.1 w in
    let below = any_overlap_below (r2.gpa + r2.len) rs mr v.2.2 in
    let ih = neighbours_lem (r.gpa + r.len) (r2 ∷ rs) mr v.2 w in
    elim (Bool-cases (ltb mr.gpa r.gpa)) [
      | inl t ↦ rw t (rw (neighbours-zero r (r2 ∷ rs) mr, over) (ground (arith, below)))
      | inr t ↦ rw t (elim (Bool-cases (ltb mr.gpa r2.gpa)) [
        | inl u ↦ rw u (rw (neighbours-one r r2 rs mr, over, over2) (ground (arith, below)))
        | inr u ↦
            rw u (
              rw (neighbours-suc r (r2 ∷ rs) mr (insert_pos rs mr.gpa)) (rw u at ih ∙ ground arith))
      ])
    ]
