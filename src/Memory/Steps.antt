-- ===== src/Memory/Steps.antt =====
-- One round of the loop of `virtio_find_gpa_range`.
use libvhost_user.Base.{
  ℕ, ◌+◌, ◌-◌, ◌≤◌, ◌<◌, ◌≡◌, ◌≢◌, ◌∙◌, refl, ap, sym, Bool, true, false, not, ◌||◌, none, some, [],
  ◌∷◌, arith, if◌then◌else◌, inl, inr, Bool-cases, u64_mod, u32_mod, add64, ◌%◌,
}
use libvhost_user.Memory.{Region, MemoryMap, region_contains_gpa, is_gap, consumed, walk_regions}
use libvhost_user.Memory.Valid.{IsRegion, Above}
use libvhost_user.Memory.Spec.{has, host}

pub region_contains_gpa_lem :
    (r : Region) (a : ℕ) → IsRegion r → a < u64_mod → region_contains_gpa r a ≡ has r a
unfolding region_contains_gpa
region_contains_gpa_lem r a v h = ground arith

pub host_below :
    (lo : ℕ) (mem : MemoryMap) (ro : Bool) (a : ℕ) → Above lo mem → a < lo → host mem ro a ≡ none
unfolding host
host_below lo [] ro a v h = refl
host_below lo (r ∷ rs) ro a v h = ground (arith, host_below (r.gpa + r.len) rs ro a v.2)

-- A region that has the address takes the whole range, or the rest of itself.
consumed_whole :
    (mr : Region) (g len : ℕ)
    → IsRegion mr
    → has mr g ≡ true
    → g + len ≤ mr.gpa + mr.len
    → consumed mr g len ≡ len
unfolding consumed
consumed_whole mr g len v h k = ground arith

consumed_part :
    (mr : Region) (g len : ℕ)
    → IsRegion mr
    → has mr g ≡ true
    → mr.gpa + mr.len < g + len
    → consumed mr g len ≡ mr.gpa + mr.len - g
unfolding consumed
consumed_part mr g len v h k = ground arith

pub walk_zero : (mem : MemoryMap) (g : ℕ) (ro : Bool) → walk_regions mem g 0 ro ≡ 0
unfolding walk_regions
walk_zero [] g ro = refl
walk_zero (r ∷ rs) g ro = refl

-- One round, inside a region that grants the access.
pub walk_inside :
    (mr : Region) (rest : MemoryMap) (g len : ℕ) (ro : Bool)
    → IsRegion mr
    → has mr g ≡ true
    → (ro || not mr.ro) ≡ true
    → len < u32_mod
    → g + len ≤ mr.gpa + mr.len
    → walk_regions (mr ∷ rest) g len ro ≡ 0
unfolding walk_regions
walk_inside mr rest g len ro v h access fits inside =
    let none_left : (len + u64_mod - len) % u32_mod ≡ 0 = omega arith in
    rw (consumed_whole mr g len v h inside, none_left)
      (ground (arith, walk_zero rest (add64 g len) ro))

pub walk_refused :
    (mr : Region) (rest : MemoryMap) (g len : ℕ) (ro : Bool)
    → (ro || not mr.ro) ≡ false
    → walk_regions (mr ∷ rest) g len ro ≡ len
unfolding walk_regions
walk_refused mr rest g len ro h = ground arith

-- One round that reaches the end of the region.
walk_across :
    (mr : Region) (rest : MemoryMap) (g len : ℕ) (ro : Bool)
    → IsRegion mr
    → has mr g ≡ true
    → (ro || not mr.ro) ≡ true
    → len < u32_mod
    → mr.gpa + mr.len < g + len
    → walk_regions (mr ∷ rest) g len ro ≡ (
        let left = g + len - (mr.gpa + mr.len) in
        if is_gap mr rest then left else walk_regions rest ((mr.gpa + mr.len) % u64_mod) left ro)
unfolding walk_regions
walk_across mr rest g len ro v h access fits beyond =
    let left : (len + u64_mod - (mr.gpa + mr.len - g)) % u32_mod ≡ g + len - (mr.gpa + mr.len) =
      ground arith in
    let end : add64 g (mr.gpa + mr.len - g) ≡ (mr.gpa + mr.len) % u64_mod = ground arith in
    rw (consumed_part mr g len v h beyond, left, end) (ground arith)

pub host_here :
    (mr : Region) (rest : MemoryMap) (ro : Bool) (a : ℕ)
    → has mr a ≡ true
    → host (mr ∷ rest) ro a ≡ (if ro || not mr.ro then some (mr.hva + (a - mr.gpa)) else none)
unfolding host
host_here mr rest ro a h = rw h

pub host_there :
    (mr : Region) (rest : MemoryMap) (ro : Bool) (a : ℕ)
    → has mr a ≡ false
    → host (mr ∷ rest) ro a ≡ host rest ro a
unfolding host
host_there mr rest ro a h = rw h

-- Where the loop goes on, the next region starts at the end of this one.
pub adjacent :
    (lo : ℕ) (mr r2 : Region) (rs : MemoryMap)
    → Above lo (mr ∷ r2 ∷ rs)
    → is_gap mr (r2 ∷ rs) ≡ false
    → (r2.gpa ≡ mr.gpa + mr.len) × ((mr.gpa + mr.len) % u64_mod ≡ mr.gpa + mr.len)
unfolding is_gap
adjacent lo mr r2 rs v h = ground arith

pub gap-Above :
    (lo : ℕ) (mr r2 : Region) (rs : MemoryMap)
    → Above lo (mr ∷ r2 ∷ rs)
    → is_gap mr (r2 ∷ rs) ≡ true
    → mr.gpa + mr.len < r2.gpa
unfolding is_gap
gap-Above lo mr r2 rs v h = ground arith

module _ (lo : ℕ) (mr : Region) (g len : ℕ) (ro : Bool) (v : IsRegion mr) (h : has mr g ≡ true)
    (access : (ro || not mr.ro) ≡ true) (fits : len < u32_mod)
    (beyond : mr.gpa + mr.len < g + len) where
  -- The loop ends with nothing left only if the next region continues this one.
  pub across_end : walk_regions (mr ∷ []) g len ro ≢ 0
  unfolding walk_regions is_gap
  across_end e = omega (arith, walk_across mr [] g len ro v h access fits beyond)

  pub walk_next :
      (r2 : Region) (rs : MemoryMap)
      → Above lo (mr ∷ r2 ∷ rs)
      → is_gap mr (r2 ∷ rs) ≡ false
      → walk_regions (mr ∷ r2 ∷ rs) g len ro
        ≡ walk_regions (r2 ∷ rs) r2.gpa (g + len - (mr.gpa + mr.len)) ro
  walk_next r2 rs w joined =
      let (start, whole) = adjacent lo mr r2 rs w joined in
      rw (walk_across mr (r2 ∷ rs) g len ro v h access fits beyond, joined)
        (ap (λ t. walk_regions (r2 ∷ rs) t (g + len - (mr.gpa + mr.len)) ro) (whole ∙ sym start))

  pub across_next :
      (r2 : Region) (rs : MemoryMap)
      → Above lo (mr ∷ r2 ∷ rs)
      → walk_regions (mr ∷ r2 ∷ rs) g len ro ≡ 0
      → (r2.gpa ≡ mr.gpa + mr.len)
        × (walk_regions (r2 ∷ rs) r2.gpa (g + len - (mr.gpa + mr.len)) ro ≡ 0)
  across_next r2 rs w e =
      let step = walk_across mr (r2 ∷ rs) g len ro v h access fits beyond in
      elim (Bool-cases (is_gap mr (r2 ∷ rs))) [
        | inl gap ↦ absurd (ground (arith, step, gap))
        | inr joined ↦ ((adjacent lo mr r2 rs w joined).0, sym (walk_next r2 rs w joined) ∙ e)
      ]
