-- ===== src/Memory.antt =====
-- virtio/memory.c and include/virtio/memory.h: the table of guest regions mapped into the host.
-- `num_regions` is the length of the list; the slots of the array above it are never read.
pub mod Spec
pub mod Valid
pub mod Neighbours
pub mod Insert
pub mod Steps
pub mod Walk
pub mod Range
pub mod Gap
mod Tests
use libvhost_user.Base.{
  ℕ, suc, ◌+◌, ◌-◌, ◌^◌, ◌%◌, Bool, true, false, not, ◌&&◌, ◌||◌, Option, none, some, List, [], ◌∷◌,
  ltb, leb, ◌==◌, if◌then◌else◌, length, get_elem?, insert_at, drop, ℤ, enospc, einval, add64,
  sub64, u64_mod, u32_mod,
}
use libvhost_user.Base.{pos as ok}

-- `(void*)-1`
abbrev pub map_failed : ℕ
map_failed = u64_mod - 1

abbrev pub max_regions : ℕ
max_regions = 16

-- `struct virtio_memory_region`; a host pointer is its address.
pub record Region : Type 0 where
  pub gpa : ℕ
  pub len : ℕ
  pub hva : ℕ
  pub ro : Bool

abbrev pub MemoryMap : Type 0
MemoryMap = List Region

-- VIRTIO_INIT_MEMORY_MAP
abbrev pub init_memory_map : MemoryMap
init_memory_map = []

-- `mr->gpa + mr->len - 1`
abbrev pub last_gpa : Region → ℕ
last_gpa r = (r.gpa + r.len + map_failed) % u64_mod

unfoldable pub region_contains_gpa : Region → ℕ → Bool
region_contains_gpa r a = leb r.gpa a && leb a (last_gpa r)

unfoldable pub are_overlapping_regions : Region → Region → Bool
are_overlapping_regions r1 r2 =
    if ltb r2.gpa r1.gpa then leb r1.gpa (last_gpa r2) else leb r2.gpa (last_gpa r1)

-- The loop that finds the place of a new region: the first with a larger base, or the end.
unfoldable pub insert_pos : MemoryMap → ℕ → ℕ
insert_pos [] gpa = 0
insert_pos (r ∷ rs) gpa = if ltb gpa r.gpa then 0 else suc (insert_pos rs gpa)

-- `neighbour && are_overlapping_regions(neighbour, &mr)`
unfoldable pub overlaps : Option Region → Region → Bool
unfolding are_overlapping_regions
overlaps none mr = false
overlaps (some r) mr = are_overlapping_regions r mr

-- `mem->regions[pos]` and `mem->regions[pos - 1]`, with NULL at the ends.
unfoldable pub next_region : MemoryMap → ℕ → Option Region
next_region mem i = if i == length mem then none else get_elem? mem i

unfoldable pub prev_region : MemoryMap → ℕ → Option Region
prev_region mem i = if i == 0 then none else get_elem? mem (i - 1)

-- The part of `virtio_add_guest_region` behind the test for space.
unfoldable pub place_region : MemoryMap → Region → ℤ × MemoryMap
unfolding insert_pos overlaps next_region prev_region
place_region mem mr =
    let i = insert_pos mem mr.gpa in
    if overlaps (next_region mem i) mr || overlaps (prev_region mem i) mr
    then (einval, mem)
    else (ok 0, insert_at mem i mr)

unfoldable pub add_guest_region : MemoryMap → ℕ → ℕ → ℕ → Bool → ℤ × MemoryMap
unfolding place_region
add_guest_region mem gpa len hva ro =
    if length mem == max_regions
    then (enospc, mem)
    else place_region mem (record { gpa = gpa; len = len; hva = hva; ro = ro })

-- The index of the first region that has the address, or `num_regions`.
unfoldable pub find_region : MemoryMap → ℕ → ℕ
unfolding region_contains_gpa
find_region [] a = 0
find_region (r ∷ rs) a = if region_contains_gpa r a then 0 else suc (find_region rs a)

-- `mem->regions[region_id].gpa != mr->gpa + mr->len`, where there is such a region.
unfoldable pub is_gap : Region → List Region → Bool
is_gap mr [] = false
is_gap mr (next ∷ _) = not (next.gpa == add64 mr.gpa mr.len)

-- How much of the range a region takes: `consumed_len`.
unfoldable pub consumed : Region → ℕ → ℕ → ℕ
consumed mr gpa len =
    let remaining = sub64 mr.len (sub64 gpa mr.gpa) in if ltb remaining len then remaining else len

-- The `while` loop over the regions from `region_id` on: the length that is left when it ends.
unfoldable pub walk_regions : List Region → ℕ → ℕ → Bool → ℕ
unfolding is_gap consumed
walk_regions [] gpa len ro = len
walk_regions (mr ∷ rest) gpa len ro =
    let len' = (len + u64_mod - consumed mr gpa len) % u32_mod in
    let left = walk_regions rest (add64 gpa (consumed mr gpa len)) len' ro in
    if len == 0
    then len
    else if not ro && mr.ro
    then len
    else if not (len' == 0) && is_gap mr rest
    then len'
    else left

-- `mr->hva + gpa - mr->gpa`
abbrev pub host_address : Region → ℕ → ℕ
host_address mr gpa = (mr.hva + gpa + u64_mod - mr.gpa) % u64_mod

-- The mapping from `mr`, the first region on.
unfoldable pub map_from : List Region → ℕ → ℕ → Bool → ℕ
unfolding walk_regions
map_from [] gpa len ro = map_failed
map_from (mr ∷ rest) gpa len ro =
    if ltb 0 (walk_regions (mr ∷ rest) gpa len ro) then map_failed else host_address mr gpa

unfoldable pub find_gpa_range : MemoryMap → ℕ → ℕ → Bool → ℕ
unfolding find_region map_from
find_gpa_range mem gpa len ro =
    let id = find_region mem gpa in
    if len == 0
    then map_failed
    else if id == length mem
    then map_failed
    else map_from (drop id mem) gpa len ro
