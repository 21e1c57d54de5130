-- ===== src/Virtqueue/Tests.antt =====
-- The theorems on virtqueues at a queue of four descriptors with one request on it.
use libvhost_user.Base.{
  ◌+◌, ◌%◌, ◌≤◌, ◌≡◌, ◌↔◌, refl, inl, true, false, ◌++◌, none, some, List, [], ◌∷◌, arith, length,
  u16_mod,
}
use libvhost_user.Base.{pos as ok}
use libvhost_user.Memory.{
  find_gpa_range, find_region, map_from, walk_regions, consumed, is_gap, region_contains_gpa,
}
use libvhost_user.Ram.{read8, read16, read32, read64, write8, write16, write32, write64, Ram}
use libvhost_user.System.{eventfd_write}
use libvhost_user.Virtqueue.Layout.{
  invalid_desc_id, read_desc, Buffer, Virtqueue, Iter, get_used_event,
}
use libvhost_user.Virtqueue.Ready.{IsReady, start-IsReady}
use libvhost_user.Virtqueue.Setup.{
  map_part, map_parts, started, start_ram, start, update_avail_event,
}
use libvhost_user.Virtqueue.Iterator.{
  map_buffer, start_desc_chain, resolve, take_buffer, take_resolved, next_buffer, has_next_buffer,
}
use libvhost_user.Virtqueue.Rings.{
  get_index, read_avail_idx, read_used_idx, dequeue_avail, put_used, enqueue_used,
}
use libvhost_user.Virtqueue.Chain.{IsSafeStep, next_buffer-IsSafeStep}
use libvhost_user.Virtqueue.Loop.{drain, drain_total, next_buffer_end}
use libvhost_user.Virtqueue.Fifo.{Dequeued, dequeue_avail-Dequeued}
use libvhost_user.Virtqueue.Heads.{next_head}
use libvhost_user.Virtqueue.Used.{entries, put_used-appends}
use libvhost_user.Virtqueue.Notify.{Passed, enqueue_used-signals}
use libvhost_user.Virtqueue.Fixture.{base, table, table-IsValid, ram, vq, vq-IsRings, it, it-IsSafe}

-- The three buffers of the chain.
drained :
    drain table ram 5 vq it
    ≡ some (
      record { ptr = base + 4096; len = 16; ro = true }
          ∷ record { ptr = base + 8192; len = 512; ro = false }
          ∷ record { ptr = base + 12288; len = 1; ro = false }
          ∷ [],
      vq,
      record {
        head = 0;
        cur = invalid_desc_id;
        ptbl = base;
        tbl_size = 4;
        is_indirect = false;
        nseen = 3;
      },
    )
unfolding drain next_buffer take_resolved take_buffer resolve map_buffer read_desc read64 read32
    read16 read8 write64 write32 write16 write8 start_desc_chain find_gpa_range find_region map_from
    walk_regions consumed is_gap region_contains_gpa
drained = refl

taken_it : dequeue_avail vq ram ≡ (
  some it,
  record vq { last_seen_avail = 1 },
  update_avail_event (record vq { last_seen_avail = 1 }) ram,
)
unfolding dequeue_avail read_avail_idx get_index read16 read8 write64 write32 write16 write8
taken_it = refl

next_buffer-IsSafeStep_example : IsSafeStep table ram table-IsValid tt (next_buffer table ram vq it)
next_buffer-IsSafeStep_example = next_buffer-IsSafeStep table ram table-IsValid tt vq it it-IsSafe

drain_total_example :
    (r : List Buffer × Virtqueue × Iter) × (drain table ram 5 vq it ≡ some r)
    × (length r.0 + it.nseen ≤ vq.qsize)
unfolding start_desc_chain
drain_total_example = drain_total table ram 5 vq it (omega arith) (omega arith) (omega arith)

-- An iterator whose descriptor has no length: the chain is given up.
abbrev bad_it : Iter
bad_it = start_desc_chain vq 3

given_up :
    next_buffer table ram vq bad_it
    ≡ (none, record vq { is_broken = true }, record bad_it { cur = invalid_desc_id; nseen = 1 })
unfolding next_buffer take_resolved take_buffer resolve map_buffer read_desc read64 read32 read16
    read8 write64 write32 write16 write8 start_desc_chain find_gpa_range find_region map_from
    walk_regions consumed is_gap region_contains_gpa
given_up = refl

next_buffer_end_example :
    let vq' = record vq { is_broken = true } in
    let it' = record bad_it { cur = invalid_desc_id; nseen = 1 } in
    (next_buffer [] ram vq' it' ≡ (none, vq', it'))
    × (has_next_buffer bad_it ≡ true → vq'.is_broken ≡ true)
next_buffer_end_example =
    next_buffer_end table [] ram ram vq (record vq { is_broken = true }) bad_it
      (record bad_it { cur = invalid_desc_id; nseen = 1 }) given_up

dequeue_avail-Dequeued_example : Dequeued vq ram (dequeue_avail vq ram)
dequeue_avail-Dequeued_example = dequeue_avail-Dequeued vq ram vq-IsRings refl

first_head : next_head vq ram ≡ 0
unfolding next_head get_index read16 read8 write64 write32 write16 write8
first_head = refl

nothing_used : read_used_idx vq ram ≡ 0
unfolding read_used_idx read16 read8 write64 write32 write16 write8
nothing_used = refl

put_used-appends_example :
    (read_used_idx vq (put_used vq ram 0 0) ≡ (0 + (0 + 1)) % u16_mod)
    × (entries vq (put_used vq ram 0 0) 0 0 1 ≡ entries vq ram 0 0 0 ++ (0, 0) ∷ [])
put_used-appends_example =
    put_used-appends vq ram 0 0 vq-IsRings 0 0 nothing_used (omega arith) (omega arith)
      (omega arith)

enqueue_used-signals_example :
    let (vq', ram', calls) = enqueue_used vq ram 0 0 in
    (calls ≡ eventfd_write (ok 7) 0 ∷ []) ↔ Passed (read16 ram' (get_used_event vq)) 0 (0 + 1)
enqueue_used-signals_example =
    enqueue_used-signals vq ram 0 0 0 refl refl (omega arith) nothing_used (omega arith)

-- A queue that broke, started again.
abbrev broken_vq : Virtqueue
broken_vq = record vq { is_broken = true; desc = 0; last_seen_avail = 9 }

started_again : start table ram broken_vq 4 0 64 80 0 (ok 7) true ≡ (ok 0, vq, start_ram vq ram)
unfolding start map_parts map_part started find_gpa_range find_region map_from walk_regions consumed
    is_gap region_contains_gpa
started_again = refl

start-IsReady_example : IsReady table vq
start-IsReady_example =
    start-IsReady table ram (start_ram vq ram) broken_vq vq 4 0 64 80 0 (ok 7) true table-IsValid tt
      (omega arith) (omega arith) (omega arith) (omega arith) started_again (inl (omega arith))
