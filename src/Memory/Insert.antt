-- ===== src/Memory/Insert.antt =====
-- `virtio_add_guest_region`: a region that is added maps its own addresses and no others.
use libvhost_user.Base.{
  Bool-cases, ◌⊎◌, ◌↔◌, ◌≢◌, not, enospc, einval, length-insert_at, inl, inr, ℕ, ◌+◌, ◌-◌, ◌≤◌, ◌<◌,
  ◌≡◌, refl, Bool, true, false, ◌&&◌, ◌||◌, none, some, [], ◌∷◌, arith, ltb, ◌==◌, if◌then◌else◌,
  length, insert_at,
}
use libvhost_user.Base.{pos as ok}
use libvhost_user.Memory.{
  add_guest_region, place_region, max_regions, Region, MemoryMap, insert_pos,
}
use libvhost_user.Memory.Valid.{IsRegion, Above, IsValid}
use libvhost_user.Memory.Spec.{has, host}
use libvhost_user.Memory.Neighbours.{any_overlap, neighbours, neighbours_lem}

-- With no overlap a sorted table stays sorted.
insert-Above :
    (lo : ℕ) (mem : MemoryMap) (mr : Region)
    → Above lo mem
    → IsRegion mr
    → lo ≤ mr.gpa
    → any_overlap mem mr ≡ false
    → Above lo (insert_at mem (insert_pos mem mr.gpa) mr)
unfolding any_overlap insert_pos
insert-Above lo [] mr v w h e = (h, w, tt)
insert-Above lo (r ∷ rs) mr v w h e = elim (Bool-cases (ltb mr.gpa r.gpa)) [
  | inl t ↦ rw t (h, w, (ground arith, v.1, v.2))
  | inr t ↦ rw t (v.0, v.1, insert-Above (r.gpa + r.len) rs mr v.2 w (ground arith) (ground arith))
]

host-insert :
    (lo : ℕ) (mem : MemoryMap) (mr : Region) (b : Bool) (a : ℕ)
    → Above lo mem
    → any_overlap mem mr ≡ false
    → host (insert_at mem (insert_pos mem mr.gpa) mr) b a ≡ (
        if has mr a
        then (if b || not mr.ro then some (mr.hva + (a - mr.gpa)) else none)
        else host mem b a)
unfolding any_overlap insert_pos host
host-insert lo [] mr b a v e = refl
host-insert lo (r ∷ rs) mr b a v e = elim (Bool-cases (ltb mr.gpa r.gpa)) [
  | inl t ↦ rw t
  | inr t ↦ rw t (ground (arith, host-insert (r.gpa + r.len) rs mr b a v.2))
]

-- `any_overlap` says what it should.
any_overlap-none :
    (mem : MemoryMap) (mr : Region) (a : ℕ)
    → any_overlap mem mr ≡ false
    → has mr a ≡ true
    → host mem true a ≡ none
unfolding any_overlap host
any_overlap-none [] mr a e h = refl
any_overlap-none (r ∷ rs) mr a e h = ground (arith, any_overlap-none rs mr a)

any_overlap_some :
    (lo : ℕ) (mem : MemoryMap) (mr : Region)
    → Above lo mem
    → IsRegion mr
    → any_overlap mem mr ≡ true
    → (a : ℕ) × (has mr a ≡ true) × (host mem true a ≢ none)
unfolding any_overlap host
any_overlap_some lo [] mr v w e = absurd (ground arith)
any_overlap_some lo (r ∷ rs) mr v w e =
    elim (Bool-cases (ltb r.gpa (mr.gpa + mr.len) && ltb mr.gpa (r.gpa + r.len))) [
      | inl t ↦ elim (Bool-cases (ltb r.gpa mr.gpa)) [
        | inl u ↦ (mr.gpa, ground arith, ground arith)
        | inr u ↦ (r.gpa, ground arith, ground arith)
      ]
      | inr t ↦
          let (a, p, q) = any_overlap_some (r.gpa + r.len) rs mr v.2 w (ground arith) in
          (a, p, ground arith)
    ]

add_lem :
    (mem : MemoryMap) (mr : Region)
    → IsValid mem
    → IsRegion mr
    → add_guest_region mem mr.gpa mr.len mr.hva mr.ro ≡ (
        if length mem == max_regions
        then (enospc, mem)
        else if any_overlap mem mr
        then (einval, mem)
        else (ok 0, insert_at mem (insert_pos mem mr.gpa) mr))
unfolding add_guest_region place_region
add_lem mem mr v w = unfold neighbours in rw (neighbours_lem 0 mem mr v.sorted w)

-- In a valid table a region that fits the address spaces is added exactly when the table has a free
-- slot and no address of the region is mapped; the table is full (ENOSPC) or an address is taken
-- (EINVAL) otherwise, and then nothing changes.
pub add_guest_region-status :
    (mem : MemoryMap) (mr : Region)
    → IsValid mem
    → IsRegion mr
    → let (status, mem') = add_guest_region mem mr.gpa mr.len mr.hva mr.ro in
      ((status ≡ ok 0)
        ↔ ((length mem < max_regions) × ((a : ℕ) → has mr a ≡ true → host mem true a ≡ none)))
      × ((status ≡ enospc) ↔ (length mem ≡ max_regions))
      × (status ≢ ok 0 → (mem' ≡ mem) × ((status ≡ enospc) ⊎ (status ≡ einval)))
add_guest_region-status mem mr v w =
    rw (add_lem mem mr v w) (elim (Bool-cases (length mem == max_regions)) [
      | inl t ↦ rw t (ground arith)
      | inr t ↦ rw t (elim (Bool-cases (any_overlap mem mr)) [
        | inl u ↦
            let (a, p, q) = any_overlap_some 0 mem mr v.sorted w u in
            rw u (((λ e. cc), λ (_, f). absurd (q (f a p))), ground arith, ground arith)
        | inr u ↦ rw u (
          ((λ _. (ground (arith, v.bounded), λ a. any_overlap-none mem mr a u)), λ _. refl),
          ground arith,
          λ n. absurd (n refl),
        )
      ])
    ])

-- Adding a region that fits the address spaces, or failing to, keeps a valid table valid: sorted,
-- apart, and within its 16 slots.
pub add_guest_region-IsValid :
    (mem : MemoryMap) (mr : Region)
    → IsValid mem
    → IsRegion mr
    → IsValid (add_guest_region mem mr.gpa mr.len mr.hva mr.ro).1
add_guest_region-IsValid mem mr v w =
    rw (add_lem mem mr v w) (elim (Bool-cases (length mem == max_regions)) [
      | inl t ↦ rw t v
      | inr t ↦ rw t (elim (Bool-cases (any_overlap mem mr)) [
        | inl u ↦ rw u v
        | inr u ↦ rw u (record {
          sorted = insert-Above 0 mem mr v.sorted w (omega arith) u;
          bounded = rw (length-insert_at mem (insert_pos mem mr.gpa) mr) (ground arith);
        })
      ])
    ])

-- A region that fits the address spaces and was added to a valid table maps its own addresses, at
-- their offsets from its host pointer; all other addresses are mapped as before.
pub host-add_guest_region :
    (mem : MemoryMap) (mr : Region) (b : Bool) (a : ℕ)
    → IsValid mem
    → IsRegion mr
    → (add_guest_region mem mr.gpa mr.len mr.hva mr.ro).0 ≡ ok 0
    → host (add_guest_region mem mr.gpa mr.len mr.hva mr.ro).1 b a ≡ (
        if has mr a
        then (if b || not mr.ro then some (mr.hva + (a - mr.gpa)) else none)
        else host mem b a)
host-add_guest_region mem mr b a v w =
    rw (add_lem mem mr v w) (elim (Bool-cases (length mem == max_regions)) [
      | inl t ↦ rw t (λ e. cc)
      | inr t ↦ rw t (elim (Bool-cases (any_overlap mem mr)) [
        | inl u ↦ rw u (λ e. cc)
        | inr u ↦ rw u (λ e. host-insert 0 mem mr b a v.sorted u)
      ])
    ])
