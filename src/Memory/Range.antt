-- ===== src/Memory/Range.antt =====
-- `virtio_find_gpa_range` against `host`: it maps a range exactly when each of its bytes is mapped.
use libvhost_user.Base.{
  ℕ, suc, ◌+◌, ◌-◌, ◌≤◌, ◌<◌, ◌≡◌, ◌≢◌, ◌↔◌, ◌∙◌, refl, ap, sym, Bool, true, false, not, ◌||◌, none,
  some, [], ◌∷◌, arith, ltb, if◌then◌else◌, length, drop, inl, inr, Bool-cases, u64_mod, u32_mod,
  ◌⊎◌,
}
use libvhost_user.Memory.{
  Region, MemoryMap, map_failed, region_contains_gpa, find_region, walk_regions, map_from,
  find_gpa_range, host_address,
}
use libvhost_user.Memory.Valid.{IsRegion, Above, IsValid}
use libvhost_user.Memory.Spec.{has, host}
use libvhost_user.Memory.Steps.{region_contains_gpa_lem, walk_refused, host_here, host_there}
use libvhost_user.Memory.Walk.{walk_sound, walk_complete}

-- Where the search for the first address ends.
data Located (low : ℕ) (mem : MemoryMap) (g : ℕ) : Type 0 where
  missing :
      find_region mem g ≡ length mem → ((ro : Bool) → host mem ro g ≡ none) → Located low mem g
  found :
      (lo : ℕ) (mr : Region) (rest : MemoryMap)
      → drop (find_region mem g) mem ≡ mr ∷ rest
      → find_region mem g < length mem
      → low ≤ mr.gpa
      → Above lo (mr ∷ rest)
      → has mr g ≡ true
      → ((ro : Bool) (i : ℕ) → host mem ro (g + i) ≡ host (mr ∷ rest) ro (g + i))
      → Located low mem g

located : (lo : ℕ) (mem : MemoryMap) (g : ℕ) → Above lo mem → g < u64_mod → Located lo mem g
unfolding find_region
located lo [] g v h = missing refl (λ ro. unfold host in refl)
located lo (r ∷ rs) g v h = here (Bool-cases (has r g)) (located (r.gpa + r.len) rs g v.2 h)
  where
    test : region_contains_gpa r g ≡ has r g
    test = region_contains_gpa_lem r g v.1 h

    skip : has r g ≡ false → find_region (r ∷ rs) g ≡ suc (find_region rs g)
    skip t = rw (test, t)

    here :
        (has r g ≡ true) ⊎ (has r g ≡ false) → Located (r.gpa + r.len) rs g → Located lo (r ∷ rs) g
    here (inl t) _ =
        let first : find_region (r ∷ rs) g ≡ 0 = rw (test, t) in
        found lo r rs (rw first) (rw first (omega arith)) v.0 v t (λ ro i. refl)
    here (inr t) (missing e f) = missing (skip t ∙ ap suc e) (λ ro. host_there r rs ro g t ∙ f ro)
    here (inr t) (found l mr rest e k behind w m same) =
        found l mr rest (rw (skip t) e) (rw (skip t) (omega arith)) (omega arith) w m
          (λ ro i. host_there r rs ro (g + i) (ground arith) ∙ same ro i)

-- The pointer to an address that a region has.
host_address_lem :
    (mr : Region) (g : ℕ)
    → IsRegion mr
    → has mr g ≡ true
    → (host_address mr g ≡ mr.hva + (g - mr.gpa)) × (host_address mr g ≢ map_failed)
host_address_lem mr g v h = ground arith

module _ (mem : MemoryMap) (g len : ℕ) (ro : Bool) (k : 0 < len) where
  find_missing : find_region mem g ≡ length mem → find_gpa_range mem g len ro ≡ map_failed
  unfolding find_gpa_range
  find_missing e = ground arith

  find_found :
      (mr : Region) (rest : MemoryMap)
      → drop (find_region mem g) mem ≡ mr ∷ rest
      → find_region mem g < length mem
      → find_gpa_range mem g len ro
        ≡ (if ltb 0 (walk_regions (mr ∷ rest) g len ro) then map_failed else host_address mr g)
  unfolding find_gpa_range map_from
  find_found mr rest e n = rw e (ground arith)

-- What a call returns: a pointer to the first byte of a range whose bytes are all mapped, or
-- MAP_FAILED and then some byte is not.
data Outcome (mem : MemoryMap) (g len : ℕ) (ro : Bool) (res : ℕ) : Type 0 where
  mapped :
      res ≢ map_failed
      → host mem ro g ≡ some res
      → ((i : ℕ) → i < len → host mem ro (g + i) ≢ none)
      → Outcome mem g len ro res
  failed :
      res ≡ map_failed
      → ¬ ((i : ℕ) → i < len → host mem ro (g + i) ≢ none)
      → Outcome mem g len ro res

-- The other branch: the loop left nothing.
module _ (mem : MemoryMap) (g len : ℕ) (ro : Bool) (lo : ℕ) (mr : Region) (rest : MemoryMap)
    (w : Above lo (mr ∷ rest)) (m : has mr g ≡ true)
    (same : (i : ℕ) → host mem ro (g + i) ≡ host (mr ∷ rest) ro (g + i)) (k : 0 < len)
    (fits : len < u32_mod) (whole : walk_regions (mr ∷ rest) g len ro ≡ 0) where
  first_byte : host mem ro g ≡ some (host_address mr g)
  first_byte =
      ap (host mem ro) (omega arith)
      ∙ same 0
      ∙ ap (host (mr ∷ rest) ro) (omega arith)
      ∙ elim (Bool-cases (ro || not mr.ro)) [
        | inr refused ↦ absurd (omega (arith, walk_refused mr rest g len ro refused))
        | inl access ↦
            host_here mr rest ro g m ∙ rw access (ap some (sym (host_address_lem mr g w.1 m).0))
      ]

  done : Outcome mem g len ro (host_address mr g)
  done =
      mapped (host_address_lem mr g w.1 m).1 first_byte
        (λ i b. rw (same i) (walk_sound lo mr rest g len ro w m fits whole i b))

outcome :
    (mem : MemoryMap) (g len : ℕ) (ro : Bool)
    → IsValid mem
    → g < u64_mod
    → 0 < len
    → len < u32_mod
    → Outcome mem g len ro (find_gpa_range mem g len ro)
outcome mem g len ro v h k fits = cases (located 0 mem g v.sorted h)
  where
    at_first : (m : MemoryMap) → host m ro (g + 0) ≡ host m ro g
    at_first m = ap (host m ro) (omega arith)

    cases : Located 0 mem g → Outcome mem g len ro (find_gpa_range mem g len ro)
    cases (missing e f) =
        failed (find_missing mem g len ro k e) (λ all. all 0 k (at_first mem ∙ f ro))
    cases (found lo mr rest e n _ w m same) =
        rw (find_found mem g len ro k mr rest e n)
          (elim (Bool-cases (ltb 0 (walk_regions (mr ∷ rest) g len ro))) [
            | inl t ↦ rw t (
                failed refl (λ all. absurd (
                  ground (
                    arith,
                    t,
                    walk_complete lo mr rest g len ro w m fits (λ i b. rw (same ro i) at (all i b)),
                  ))))
            | inr t ↦ rw t (done mem g len ro lo mr rest w m (same ro) k fits (ground (arith, t)))
          ])

module _ (mem : MemoryMap) (g len : ℕ) (ro : Bool) where
  -- In a valid table a non-empty range, with a 64-bit start and a 32-bit length, is mapped exactly when
  -- each of its bytes is mapped with the access that is asked for.
  pub find_gpa_range_iff :
      IsValid mem
      → g < u64_mod
      → 0 < len
      → len < u32_mod
      → (find_gpa_range mem g len ro ≢ map_failed)
        ↔ ((i : ℕ) → i < len → host mem ro (g + i) ≢ none)
  find_gpa_range_iff v h k fits = read (outcome mem g len ro v h k fits)
    where
      read :
          {res : ℕ}
          → Outcome mem g len ro res
          → (res ≢ map_failed) ↔ ((i : ℕ) → i < len → host mem ro (g + i) ≢ none)
      read (mapped ne first all) = ((λ _. all), λ _. ne)
      read (failed e some_missing) = ((λ ne. absurd (ne e)), λ all. absurd (some_missing all))

  -- The pointer that is returned for such a range that is mapped is the host address of its first byte.
  pub host-find_gpa_range :
      IsValid mem
      → g < u64_mod
      → 0 < len
      → len < u32_mod
      → find_gpa_range mem g len ro ≢ map_failed
      → host mem ro g ≡ some (find_gpa_range mem g len ro)
  host-find_gpa_range v h k fits = read (outcome mem g len ro v h k fits)
    where
      read : {res : ℕ} → Outcome mem g len ro res → res ≢ map_failed → host mem ro g ≡ some res
      read (mapped ne first all) _ = first
      read (failed e some_missing) ne = absurd (ne e)

pub find_gpa_range_zero :
    (mem : MemoryMap) (g : ℕ) (ro : Bool) → find_gpa_range mem g 0 ro ≡ map_failed
unfolding find_gpa_range
find_gpa_range_zero mem g ro = refl

-- What can be written can be read.
pub host_readable :
    (mem : MemoryMap) (ro : Bool) (a : ℕ) {p : ℕ}
    → host mem ro a ≡ some p
    → host mem true a ≡ some p
unfolding host
host_readable [] ro a e = ground arith
host_readable (r ∷ rs) ro a {p} e = ground (arith, host_readable rs ro a {p = p})
