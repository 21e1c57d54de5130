-- ===== src/Vhost/Table.antt =====
-- The memory map that SET_MEM_TABLE builds.
use libvhost_user.Base.{
  ℕ, zero, suc, ◌+◌, ◌≤◌, ◌<◌, ◌≡◌, ◌≢◌, ◌⊎◌, false, not, ◌||◌, List, ◌==◌, ℤ, ◌==ℤ◌, arith, inl,
  inr, Bool-cases, u64_mod,
}
use libvhost_user.Base.{pos as ok}
use libvhost_user.Memory.{MemoryMap, map_failed, add_guest_region, init_memory_map}
use libvhost_user.Memory.Valid.{IsRegion, IsValid}
use libvhost_user.Memory.Insert.{add_guest_region-IsValid}
use libvhost_user.System.{Call}
use libvhost_user.Vhost.Protocol.{Message, get_num_regions, get_region}
use libvhost_user.Vhost.Device.{VhostDev}
use libvhost_user.Vhost.MemTable.{
  Mmap, is_page_aligned, map_regions, set_mem_table, reset_memory_map, unmap_calls,
}

-- What `mmap` is relied on for: it fails, or the mapping ends below the top of the address space.
abbrev pub IsMmap : Mmap → Type 0
IsMmap mmap =
    (i : ℕ) (fd : ℤ) (size offset : ℕ)
    → (mmap i fd size offset ≡ map_failed) ⊎ (mmap i fd size offset + size < u64_mod)

pub empty-IsValid : IsValid init_memory_map
empty-IsValid = record { sorted = tt; bounded = omega arith }

module _ (mmap : Mmap) (msg : Message) (fds : ℕ → ℤ) (w : IsMmap mmap)
    (fits : (i : ℕ)
      → i < get_num_regions msg
      → (get_region msg i).guest_addr + (get_region msg i).size ≤ u64_mod) where
  pub get_region-IsRegion :
      (i : ℕ)
      → i < get_num_regions msg
      → (let mr = get_region msg i in mr.size ≢ 0)
      → (let mr = get_region msg i in mmap i (fds i) mr.size mr.mmap_offset ≢ map_failed)
      → (let mr = get_region msg i in
          IsRegion (record {
            gpa = mr.guest_addr;
            len = mr.size;
            hva = mmap i (fds i) mr.size mr.mmap_offset;
            ro = false;
          }))
  get_region-IsRegion i h s p =
      let mr = get_region msg i in
      let ends = w i (fds i) mr.size mr.mmap_offset in
      record {
        nonempty = omega (arith, s);
        gpa_fits = fits i h;
        hva_fits = ground (arith, ends, p);
      }

  map_regions-IsValid :
      (count i : ℕ) (mem : MemoryMap) (calls : List Call)
      → i + count ≤ get_num_regions msg
      → IsValid mem
      → IsValid (map_regions mmap msg fds count i mem calls).1
  unfolding map_regions
  map_regions-IsValid zero i mem calls h v = v
  map_regions-IsValid (suc count) i mem calls h v =
      let mr = get_region msg i in
      let ptr = mmap i (fds i) mr.size mr.mmap_offset in
      elim (Bool-cases (mr.size == 0 || not (is_page_aligned mr))) [
        | inl t ↦ rw t v
        | inr t ↦ rw t (elim (Bool-cases (ptr == map_failed)) [
          | inl u ↦ rw u v
          | inr u ↦
              let next =
                add_guest_region-IsValid mem
                  (record { gpa = mr.guest_addr; len = mr.size; hva = ptr; ro = false }) v
                  (get_region-IsRegion i (omega arith) (ground (arith, t)) (ground (arith, u))) in
              rw u
                (elim (Bool-cases
                  ((add_guest_region mem mr.guest_addr mr.size ptr false).0 ==ℤ ok 0)) [
                    | inl x ↦ rw x (map_regions-IsValid count (i + 1) _ _ (omega arith) next)
                    | inr x ↦ rw x next
                  ])
        ])
      ]

  -- Whatever table the client sends, the memory map of the device is valid afterwards, also when the
  -- table is refused half way: if no region wraps around the guest's address space, `mmap` keeps
  -- mappings off the top of the address space, and the map was valid before.
  pub set_mem_table-IsValid :
      (dev : VhostDev)
      → IsValid dev.memory_map
      → IsValid (set_mem_table mmap msg fds dev).1.memory_map
  unfolding set_mem_table reset_memory_map
  set_mem_table-IsValid dev v =
      let built =
        map_regions-IsValid (get_num_regions msg) 0 init_memory_map (unmap_calls dev.memory_map)
          (omega arith) empty-IsValid in
      ground (arith, v, built)
