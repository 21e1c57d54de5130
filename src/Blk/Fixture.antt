-- ===== src/Blk/Fixture.antt =====
-- A device of eight sectors and the request on the queue of `Virtqueue.Fixture`, for the tests.
use libvhost_user.Base.{ℕ, ◌+◌, ◌≡◌, refl, Bool, true, false, some, [], ◌∷◌}
use libvhost_user.Ram.{Ram, read8, read16, read32, read64, write8, write16, write32, write64}
use libvhost_user.Virtqueue.Layout.{Virtqueue, read_desc}
use libvhost_user.Virtqueue.Setup.{update_avail_event}
use libvhost_user.Virtqueue.Rings.{get_index, read_avail_idx, dequeue_avail}
use libvhost_user.Virtqueue.Fixture.{base, table, ram, vq, it}
use libvhost_user.Blk.Device.{VirtioBlk}
use libvhost_user.Blk.Request.{read, VirtioBlkIo, BlkReq, read_req, is_good_status_buf}
use libvhost_user.Memory.{
  find_gpa_range, find_region, map_from, walk_regions, consumed, is_gap, region_contains_gpa,
}
use libvhost_user.Virtqueue.Iterator.{
  map_buffer, start_desc_chain, resolve, take_buffer, take_resolved, next_buffer, has_next_buffer,
}
use libvhost_user.Blk.Rw.{add_data, grow, rw_body, rw_step, rw_loop, rw_finish, blk_rw}
use libvhost_user.Blk.Dispatch.{
  switch_type, parse_first, parse, outcome_of, handle_blk_request, dequeue_from,
  blk_dequeue_request,
}

abbrev pub disk : VirtioBlk
disk = record {
  vdev = record { supported_features = 0; features = 0; config_size = 0; get_config = λ m _. m };
  total_sectors = 8;
  block_size = 4096;
  readonly = true;
  writeback = false;
}

-- The header of the request on the queue, and the request.
abbrev pub hdr : BlkReq
hdr = record { type = 0; sector = 0 }

abbrev pub vq1 : Virtqueue
vq1 = record vq { last_seen_avail = 1 }

abbrev pub ram1 : Ram
ram1 = update_avail_event vq1 ram

abbrev pub request : VirtioBlkIo
request = record {
  pstatus = base + 12288;
  head = 0;
  bio = record {
    type = read;
    sector = 0;
    total_sectors = 1;
    nvecs = 1;
    vecs = record { ptr = base + 8192; len = 512 } ∷ [];
  };
}

unfoldable pub any_size : ℕ → Bool
any_size _ = true

pub taken_it : dequeue_avail vq ram ≡ (some it, vq1, ram1)
unfolding dequeue_avail read_avail_idx get_index read16 read8 write64 write32 write16 write8
taken_it = refl

pub request_dequeued : (blk_dequeue_request any_size table disk 0 vq ram).io ≡ some request
unfolding any_size blk_dequeue_request dequeue_from handle_blk_request outcome_of parse parse_first
    switch_type read_req blk_rw rw_finish rw_loop rw_step rw_body add_data grow is_good_status_buf
    has_next_buffer next_buffer take_resolved take_buffer resolve map_buffer read_desc read64 read32
    read16 read8 write64 write32 write16 write8 find_gpa_range find_region map_from walk_regions
    consumed is_gap region_contains_gpa dequeue_avail read_avail_idx get_index start_desc_chain
    update_avail_event
request_dequeued = refl
