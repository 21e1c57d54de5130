-- ===== src/Memory/Tests.antt =====
-- The theorems on the region table at concrete tables.
use libvhost_user.Base.{
  ℕ, ◌+◌, ◌-◌, ◌^◌, ◌<◌, ◌≡◌, ◌≢◌, ◌⊎◌, ◌↔◌, refl, true, false, none, some, [], ◌∷◌, arith, length,
  enospc, einval,
}
use libvhost_user.Base.{pos as ok}
use libvhost_user.Memory.{
  Region, max_regions, map_failed, add_guest_region, find_gpa_range, find_region, map_from,
  walk_regions, consumed, is_gap, region_contains_gpa, place_region, insert_pos, overlaps,
  are_overlapping_regions, next_region, prev_region,
}
use libvhost_user.Memory.Spec.{has, host}
use libvhost_user.Memory.Valid.{IsRegion, IsValid}
use libvhost_user.Memory.Insert.{add_guest_region-status}
use libvhost_user.Memory.Range.{find_gpa_range_iff}
use libvhost_user.Memory.Gap.{IsJoined, find_gpa_range-bytes, find_gpa_range_escapes}

abbrev low : Region
low = record { gpa = 0; len = 4096; hva = 65536; ro = false }

-- Follows `low` in the guest and in the host.
abbrev next_door : Region
next_door = record { gpa = 4096; len = 4096; hva = 69632; ro = true }

-- Follows `low` in the guest only.
abbrev far_away : Region
far_away = record { gpa = 4096; len = 4096; hva = 1048576; ro = false }

low-IsRegion : IsRegion low
low-IsRegion = record { nonempty = omega arith; gpa_fits = omega arith; hva_fits = omega arith }

next_door-IsRegion : IsRegion next_door
next_door-IsRegion = record {
  nonempty = omega arith;
  gpa_fits = omega arith;
  hva_fits = omega arith;
}

far_away-IsRegion : IsRegion far_away
far_away-IsRegion = record {
  nonempty = omega arith;
  gpa_fits = omega arith;
  hva_fits = omega arith;
}

low-IsValid : IsValid (low ∷ [])
low-IsValid = record { sorted = (omega arith, low-IsRegion, tt); bounded = omega arith }

pair-IsValid : IsValid (low ∷ next_door ∷ [])
pair-IsValid = record {
  sorted = (omega arith, low-IsRegion, (omega arith, next_door-IsRegion, tt));
  bounded = omega arith;
}

apart-IsValid : IsValid (low ∷ far_away ∷ [])
apart-IsValid = record {
  sorted = (omega arith, low-IsRegion, (omega arith, far_away-IsRegion, tt));
  bounded = omega arith;
}

pair-IsJoined : IsJoined (low ∷ next_door ∷ [])
pair-IsJoined = ((λ _. refl), tt)

-- A region is put in its place.
added : add_guest_region (next_door ∷ []) 0 4096 65536 false ≡ (ok 0, low ∷ next_door ∷ [])
unfolding add_guest_region place_region insert_pos overlaps are_overlapping_regions next_region
    prev_region
added = refl

overlapping : add_guest_region (low ∷ []) 4095 10 0 false ≡ (einval, low ∷ [])
unfolding add_guest_region place_region insert_pos overlaps are_overlapping_regions next_region
    prev_region
overlapping = refl

-- A range over both regions, for reading and for writing.
range_read : find_gpa_range (low ∷ next_door ∷ []) 4000 200 true ≡ 69536
unfolding find_gpa_range find_region map_from walk_regions consumed is_gap region_contains_gpa
range_read = refl

range_written : find_gpa_range (low ∷ next_door ∷ []) 4000 200 false ≡ map_failed
unfolding find_gpa_range find_region map_from walk_regions consumed is_gap region_contains_gpa
range_written = refl

-- A region that ends past the address space is taken, though it has addresses of another.
wrapped : (add_guest_region (low ∷ []) 8192 (2 ^ 64 - 4096) 0 false).0 ≡ ok 0
unfolding add_guest_region place_region insert_pos overlaps are_overlapping_regions next_region
    prev_region
wrapped = refl

add_guest_region-status_example :
    let (status, mem') = add_guest_region (low ∷ []) 4096 4096 69632 true in
    ((status ≡ ok 0) ↔ (
      (length (low ∷ []) < max_regions)
      × ((a : ℕ) → has next_door a ≡ true → host (low ∷ []) true a ≡ none)))
    × ((status ≡ enospc) ↔ (length (low ∷ []) ≡ max_regions))
    × (status ≢ ok 0 → (mem' ≡ low ∷ []) × ((status ≡ enospc) ⊎ (status ≡ einval)))
add_guest_region-status_example =
    add_guest_region-status (low ∷ []) next_door low-IsValid next_door-IsRegion

find_gpa_range_iff_example :
    (find_gpa_range (low ∷ next_door ∷ []) 4000 200 true ≢ map_failed)
    ↔ ((i : ℕ) → i < 200 → host (low ∷ next_door ∷ []) true (4000 + i) ≢ none)
find_gpa_range_iff_example =
    find_gpa_range_iff (low ∷ next_door ∷ []) 4000 200 true pair-IsValid (omega arith) (omega arith)
      (omega arith)

range_found : find_gpa_range (low ∷ next_door ∷ []) 4000 200 true ≢ map_failed
range_found = rw range_read (omega arith)

find_gpa_range-bytes_example :
    host (low ∷ next_door ∷ []) true (4000 + 150)
    ≡ some (find_gpa_range (low ∷ next_door ∷ []) 4000 200 true + 150)
find_gpa_range-bytes_example =
    find_gpa_range-bytes (low ∷ next_door ∷ []) 4000 200 true pair-IsValid pair-IsJoined
      (omega arith) (omega arith) (omega arith) range_found 150 (omega arith)

find_gpa_range_escapes_example :
    let p = find_gpa_range (low ∷ far_away ∷ []) (4096 - 1) 2 true in
    (p ≢ map_failed) × (host (low ∷ far_away ∷ []) true (4096 - 1 + 1) ≢ some (p + 1))
find_gpa_range_escapes_example =
    find_gpa_range_escapes low far_away apart-IsValid refl (omega arith)
