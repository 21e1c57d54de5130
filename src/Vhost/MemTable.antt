-- ===== src/Vhost/MemTable.antt =====
-- The memory of a device in vhost.c: `uva_to_gpa`, `reset_memory_map` and `set_mem_table`.
use libvhost_user.Base.{
  ℕ, zero, suc, ◌+◌, ◌-◌, ◌%◌, Bool, false, not, ◌&&◌, ◌||◌, List, [], ◌∷◌, ◌++◌, ltb, leb, ◌==◌,
  if◌then◌else◌, has_any, ℤ, ◌==ℤ◌, minus_one, add64, sub64, u64_mod,
}
use libvhost_user.Base.{pos as ok}
use libvhost_user.Memory.{MemoryMap, map_failed, init_memory_map, add_guest_region}
use libvhost_user.System.{Call, close, munmap}
use libvhost_user.Vhost.Protocol.{Message, MemRegion, max_fds, get_num_regions, get_region}
use libvhost_user.Vhost.Device.{VhostDev}

abbrev pub page_size : ℕ
page_size = 4096

unfoldable pub is_user_of : MemRegion → ℕ → Bool
is_user_of mr uva =
    leb mr.user_addr uva && leb uva ((mr.user_addr + mr.size + map_failed) % u64_mod)

-- The loop of `uva_to_gpa` over the regions.
unfoldable pub uva_to_gpa : List MemRegion → ℕ → ℕ
uva_to_gpa [] uva = map_failed
uva_to_gpa (mr ∷ rest) uva =
    if is_user_of mr uva then add64 mr.guest_addr (sub64 uva mr.user_addr) else uva_to_gpa rest uva

unfoldable pub unmap_calls : MemoryMap → List Call
unmap_calls [] = []
unmap_calls (r ∷ rs) = munmap r.hva r.len ∷ unmap_calls rs

unfoldable pub reset_memory_map : VhostDev → VhostDev × List Call
reset_memory_map dev =
    (record dev { memory_map = init_memory_map; regions = [] }, unmap_calls dev.memory_map)

unfoldable pub is_page_aligned : MemRegion → Bool
is_page_aligned mr =
    not (has_any mr.guest_addr (page_size - 1))
    && not (has_any mr.size (page_size - 1))
    && not (has_any (add64 mr.user_addr mr.mmap_offset) (page_size - 1))

-- What `mmap` returns: for the region number, the descriptor, the size and the offset.
abbrev pub Mmap : Type 0
Mmap = ℕ → ℤ → ℕ → ℕ → ℕ

module _ (mmap : Mmap) (msg : Message) (fds : ℕ → ℤ) where
  -- The loop over the regions of the message, from `i` on, with `count` to go.
  unfoldable pub map_regions : (count i : ℕ) → MemoryMap → List Call → ℤ × MemoryMap × List Call
  map_regions zero i mem calls = (ok 0, mem, calls)
  map_regions (suc count) i mem calls =
      let mr = get_region msg i in
      let ptr = mmap i (fds i) mr.size mr.mmap_offset in
      let (error, mem') = add_guest_region mem mr.guest_addr mr.size ptr false in
      let rest = map_regions count (i + 1) mem' (calls ++ close (fds i) ∷ []) in
      if mr.size == 0 || not (is_page_aligned mr)
      then (minus_one, mem, calls)
      else if ptr == map_failed
      then (minus_one, mem, calls)
      else if not (error ==ℤ ok 0)
      then (minus_one, mem', calls)
      else rest

  -- The regions that are copied into the device.
  unfoldable pub copy_regions : (count i : ℕ) → List MemRegion
  copy_regions zero i = []
  copy_regions (suc count) i = get_region msg i ∷ copy_regions count (i + 1)

  unfoldable pub set_mem_table : VhostDev → ℤ × VhostDev × List Call
  set_mem_table dev =
      let num_regions = get_num_regions msg in
      let (dev', calls) = reset_memory_map dev in
      let (res, mem, calls') = map_regions num_regions 0 init_memory_map calls in
      if ltb max_fds num_regions
      then (minus_one, dev, [])
      else if res ==ℤ ok 0
      then (ok 0, record dev' { memory_map = mem; regions = copy_regions num_regions 0 }, calls')
      else (minus_one, record dev' { memory_map = mem }, calls')
