-- ===== src/Blk/Tests.antt =====
-- The block device on the queue of `Virtqueue.Fixture`: a read of one sector.
use libvhost_user.Base.{◌≡◌, ◌≢◌, refl, true, false, some, arith}
use libvhost_user.Memory.{
  find_gpa_range, find_region, map_from, walk_regions, consumed, is_gap, region_contains_gpa,
}
use libvhost_user.Ram.{read8, read16, read32, read64, write8, write16, write32, write64}
use libvhost_user.Virtqueue.Layout.{read_desc, Iter}
use libvhost_user.Virtqueue.Iterator.{
  map_buffer, resolve, take_buffer, take_resolved, next_buffer, has_next_buffer,
}
use libvhost_user.Virtqueue.Fixture.{base, table, table-IsValid, ram, vq, it, table-IsMapped}
use libvhost_user.Virtqueue.Chain.{IsSafe, inside}
use libvhost_user.Blk.Request.{is_good_status_buf}
use libvhost_user.Blk.Rw.{
  out_of_fuel, fresh_state, add_data, grow, rw_body, rw_step, rw_loop, rw_finish, blk_rw,
}
use libvhost_user.Blk.Dispatch.{blk_dequeue_request}
use libvhost_user.Blk.Ends.{rw_loop-ne-out_of_fuel}
use libvhost_user.Blk.Accept.{IsAccepted, blk_rw-IsAccepted}
use libvhost_user.Blk.Fixture.{disk, hdr, vq1, ram1, request, any_size, taken_it}
use libvhost_user.Blk.Lifecycle.{IsServed, blk_dequeue_request-IsServed}

-- The iterator behind the header.
abbrev it1 : Iter
it1 = record { head = 0; cur = 1; ptbl = base; tbl_size = 4; is_indirect = false; nseen = 1 }

read_accepted : (blk_rw any_size table ram disk hdr vq it1 0).io ≡ some request
unfolding any_size blk_rw rw_finish rw_loop rw_step rw_body add_data grow is_good_status_buf
    has_next_buffer next_buffer take_resolved take_buffer resolve map_buffer read_desc read64 read32
    read16 read8 write64 write32 write16 write8 find_gpa_range find_region map_from walk_regions
    consumed is_gap region_contains_gpa
read_accepted = refl

it1-IsSafe : IsSafe table it1
it1-IsSafe = inside 64 (table-IsMapped 64 (omega arith)) (omega arith) (omega arith)

rw_loop-ne-out_of_fuel_example :
    (rw_loop any_size table ram disk true 0 5 vq it1 (fresh_state 0)).0 ≢ out_of_fuel
rw_loop-ne-out_of_fuel_example =
    rw_loop-ne-out_of_fuel any_size table ram disk true 0 5 vq it1 (fresh_state 0) (omega arith)
      (omega arith) (omega arith)

blk_rw-IsAccepted_example : IsAccepted table disk hdr request
blk_rw-IsAccepted_example =
    blk_rw-IsAccepted any_size table ram disk hdr vq it1 0 request table-IsValid tt (omega arith)
      (omega arith) (omega arith) it1-IsSafe read_accepted

blk_dequeue_request-IsServed_example :
    IsServed it vq1 ram1 0 (blk_dequeue_request any_size table disk 0 vq ram)
blk_dequeue_request-IsServed_example =
    blk_dequeue_request-IsServed any_size table disk 0 vq vq1 ram ram1 it taken_it
