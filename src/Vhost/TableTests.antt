-- ===== src/Vhost/TableTests.antt =====
-- SET_MEM_TABLE with one region.
use libvhost_user.Base.{
  ℕ, zero, suc, ◌+◌, ◌≤◌, ◌<◌, ◌≡◌, ◌↔◌, refl, true, some, arith, u64_mod, [], ◌∷◌, All,
}
use libvhost_user.Base.{pos as ok}
use libvhost_user.Memory.{add_guest_region, place_region}
use libvhost_user.Memory.Spec.{host}
use libvhost_user.Memory.Valid.{IsValid}
use libvhost_user.Ram.{read8, read16, read32, read64, write8, write16, write32, write64}
use libvhost_user.Virtqueue.Fixture.{base, table, table-IsValid, table-IsMapped, ram, vq, it}
use libvhost_user.System.{munmap, close}
use libvhost_user.Virtqueue.Heads.{next_head}
use libvhost_user.Virtqueue.Rings.{get_index}
use libvhost_user.Blk.Request.{Iovec}
use libvhost_user.Blk.Fixture.{disk, vq1, ram1, request, any_size, taken_it, request_dequeued}
use libvhost_user.Vhost.Confined.{IsShared, blk_dequeue_request-IsShared}
use libvhost_user.Vhost.Device.{VhostDev}
use libvhost_user.Vhost.Protocol.{Message, get_num_regions, get_region}
use libvhost_user.Vhost.MemTable.{
  unmap_calls, reset_memory_map, set_mem_table, map_regions, is_page_aligned, copy_regions,
}
use libvhost_user.Vhost.Table.{IsMmap, set_mem_table-IsValid}
use libvhost_user.Vhost.Fixture.{dev, message, mmap, fds}
use libvhost_user.Vhost.Shared.{IsAmong, host-set_mem_table}

mmap-IsMmap : IsMmap mmap
unfolding mmap
mmap-IsMmap i fd size offset = ground arith

-- SET_MEM_TABLE with one region of 64 KiB.
abbrev mem_table : Message
mem_table = message 5 40 (write64 (write64 (write32 (λ _. 0) 0 1) 16 65536) 24 1048576)

one_region : get_num_regions mem_table ≡ 1
unfolding get_num_regions read8 read16 read32 write8 write16 write32 write64
one_region = refl

region_fits : (get_region mem_table 0).guest_addr + (get_region mem_table 0).size ≤ u64_mod
unfolding get_region read8 read16 read32 read64 write8 write16 write32 write64
region_fits = omega arith

regions_fit :
    (i : ℕ)
    → i < get_num_regions mem_table
    → (get_region mem_table i).guest_addr + (get_region mem_table i).size ≤ u64_mod
regions_fit zero h = region_fits
regions_fit (suc i) h = absurd (omega (arith, one_region))

set_mem_table-IsValid_example : IsValid (set_mem_table mmap mem_table fds dev).1.memory_map
set_mem_table-IsValid_example =
    set_mem_table-IsValid mmap mem_table fds mmap-IsMmap regions_fit dev table-IsValid

table_taken : (set_mem_table mmap mem_table fds dev).0 ≡ ok 0
unfolding set_mem_table map_regions copy_regions reset_memory_map unmap_calls is_page_aligned mmap
    fds get_num_regions get_region add_guest_region place_region read8 read16 read32 read64 write8
    write16 write32 write64
table_taken = refl

host-set_mem_table_example :
    (host (set_mem_table mmap mem_table fds dev).1.memory_map true 100 ≡ some (base + 100))
    ↔ IsAmong mmap mem_table fds 0 (get_num_regions mem_table) 100 (base + 100)
host-set_mem_table_example =
    host-set_mem_table mmap mem_table fds mmap-IsMmap regions_fit dev true 100 (base + 100)
      table_taken

abbrev mapped_dev : VhostDev
mapped_dev = record dev {
  memory_map = table;
  regions = record { guest_addr = 0; size = 65536; user_addr = 1048576; mmap_offset = 0 } ∷ [];
}

table_mapped :
    set_mem_table mmap mem_table fds dev
    ≡ (ok 0, mapped_dev, munmap base 65536 ∷ close (ok 10) ∷ [])
unfolding set_mem_table map_regions copy_regions reset_memory_map unmap_calls is_page_aligned mmap
    fds get_num_regions get_region add_guest_region place_region read8 read16 read32 read64 write8
    write16 write32 write64
table_mapped = refl

low_head : next_head vq ram < vq.qsize
unfolding next_head get_index read8 read16 write8 write16 write32 write64
low_head = omega arith

blk_dequeue_request-IsShared_example :
    All (λ (v : Iovec). IsShared mmap mem_table fds v.ptr v.len) request.bio.vecs
    × IsShared mmap mem_table fds request.pstatus 1
blk_dequeue_request-IsShared_example =
    blk_dequeue_request-IsShared mmap mem_table fds mmap-IsMmap regions_fit dev mapped_dev
      (munmap base 65536 ∷ close (ok 10) ∷ []) table_mapped any_size disk 0 vq vq1 ram ram1 it
      request table-IsValid tt (omega arith) (omega arith) (table-IsMapped 64 (omega arith))
      low_head taken_it request_dequeued (λ e. absurd (ground arith))
