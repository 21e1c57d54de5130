-- ===== src/Server/LifeTests.antt =====
-- The server serves the kick of a client that has set up its queue.
use libvhost_user.Base.{
  zero, suc, sym, ◌∙◌, subst, ◌≢◌, Option, none, ℕ, ◌^◌, ◌≤◌, ◌≡◌, refl, true, false, some, [],
  ◌==ℤ◌, is_neg, minus_one, get_elem?, arith,
}
use libvhost_user.Base.{pos as ok}
use libvhost_user.Virtqueue.Layout.{max_size}
use libvhost_user.Virtqueue.Fixture.{table, ram}
use libvhost_user.Blk.Dispatch.{
  blk_complete_request, switch_type, blk_dequeue_request, dequeue_from, handle_blk_request,
  outcome_of, parse, parse_first,
}
use libvhost_user.Blk.Request.{is_good_status_buf, read_req}
use libvhost_user.Blk.Rw.{add_data, blk_rw, grow, rw_body, rw_finish, rw_loop, rw_step}
use libvhost_user.Memory.{
  consumed, find_gpa_range, find_region, is_gap, map_from, region_contains_gpa, walk_regions,
}
use libvhost_user.Ram.{read8, read16, read32, read64, write8, write16, write32, write64}
use libvhost_user.Server.{
  process_one, check_result, complete, handle_from, handle_rw, handle_vec, process_io, serve_type,
  transfer, vec_sectors,
}
use libvhost_user.Server.Copy.{load, span}
use libvhost_user.Virtqueue.Iterator.{
  take_resolved, next_buffer, start_desc_chain, has_next_buffer, map_buffer, resolve, take_buffer,
}
use libvhost_user.Virtqueue.Layout.{read_desc}
use libvhost_user.Virtqueue.Rings.{
  dequeue_avail, read_avail_idx, get_index, enqueue_used, put_used, read_used_idx,
  should_notify_used, vring_need_event, write_used_idx,
}
use libvhost_user.Virtqueue.Setup.{update_avail_event}
use libvhost_user.Blk.Device.{VirtioBlk}
use libvhost_user.Blk.Fixture.{disk, any_size}
use libvhost_user.Vhost.Device.{Vring}
use libvhost_user.Vhost.Event.{on_kick, serve_kick, handle_vring_event}
use libvhost_user.Vhost.Client.{Client, answers}
use libvhost_user.Vhost.Fixture.{nic, registered, register_works}
use libvhost_user.Vhost.LifeCycle.{vring, Reach, later}
use libvhost_user.Vhost.Session.{with_vrings, started_vring, reached_started}
use libvhost_user.Vhost.Sized.{IsDev}
use libvhost_user.Server.{
  ServerState, returned, out_of_fuel, process_event, process_one, process_io, complete,
}
use libvhost_user.Server.Rounds.{
  after_rounds, after_rounds-next, after_rounds-last, completed, after_io, next_round,
}
use libvhost_user.Server.Pending.{process_event-ne-out_of_fuel}
use libvhost_user.Server.Life.{Serves, server-IsDev}
use libvhost_user.Server.Fixture.{File, file_image, eight_sectors}

-- The disk behind the device of the session.
abbrev served_disk : VirtioBlk
served_disk = record disk { vdev = nic }

abbrev kicked : ServerState File
kicked = record { file = eight_sectors; vq = started_vring.vq; ram = ram; live = 0; calls = [] }

-- One round, with all that it computes.
round : ServerState File → Option (ServerState File)
unfolding next_round blk_complete_request switch_type blk_dequeue_request dequeue_from
    handle_blk_request outcome_of parse parse_first is_good_status_buf read_req add_data blk_rw grow
    rw_body rw_finish rw_loop rw_step consumed find_gpa_range find_region is_gap map_from
    region_contains_gpa walk_regions read8 read16 read32 read64 write8 write16 write32 write64
    check_result handle_from handle_rw handle_vec completed after_io serve_type transfer vec_sectors
    load span take_resolved next_buffer start_desc_chain has_next_buffer map_buffer resolve
    take_buffer read_desc dequeue_avail read_avail_idx get_index enqueue_used put_used read_used_idx
    should_notify_used vring_need_event write_used_idx update_avail_event any_size
round st = next_round file_image any_size table served_disk st

abbrev or_kicked : Option (ServerState File) → ServerState File
or_kicked none = kicked
or_kicked (some st) = st

-- The request that is on the queue, and no other.
abbrev served : ServerState File
served = or_kicked (next_round file_image any_size table served_disk kicked)

first_round : next_round file_image any_size table served_disk kicked ≡ some served
unfolding round
first_round = refl

second_round : next_round file_image any_size table served_disk served ≡ none
unfolding round
second_round = refl

serves_request :
    process_event file_image any_size table served_disk 2 kicked ≡ returned (ok 0) served
unfolding round process_event process_one process_io complete
serves_request = refl

first_index : read_avail_idx started_vring.vq ram ≡ 1
unfolding round
first_index = refl

served_index : read_avail_idx served.vq served.ram ≡ 1
unfolding round
served_index = refl

-- The driver adds nothing.
quiet :
    (n : ℕ) (st : ServerState File)
    → after_rounds file_image any_size table served_disk n kicked ≡ some st
    → read_avail_idx st.vq st.ram ≡ 1
quiet zero st e =
    let same : kicked ≡ st = unfold after_rounds in ground (arith, e) in
    subst {A = ServerState File} (λ x. read_avail_idx x.vq x.ram ≡ 1) same first_index
quiet (suc n) st e =
    later_quiet n st (
      sym (after_rounds-next file_image any_size table served_disk n kicked served first_round) ∙ e)
  where
    later_quiet :
        (m : ℕ) (x : ServerState File)
        → after_rounds file_image any_size table served_disk m served ≡ some x
        → read_avail_idx x.vq x.ram ≡ 1
    later_quiet zero x f =
        let same : served ≡ x = unfold after_rounds in ground (arith, f) in
        subst {A = ServerState File} (λ y. read_avail_idx y.vq y.ram ≡ 1) same served_index
    later_quiet (suc m) x f =
        let ended =
          sym (after_rounds-last file_image any_size table served_disk m served second_round) ∙ f in
        absurd (ground (arith, ended))

process_event-ne-out_of_fuel_example :
    process_event file_image any_size table served_disk 2 kicked ≢ out_of_fuel
process_event-ne-out_of_fuel_example =
    process_event-ne-out_of_fuel file_image any_size table served_disk 2 1 kicked (omega arith)
      (omega arith) quiet (omega arith)

abbrev served_vring : Vring
served_vring = record started_vring { vq = served.vq }

answered :
    (handle_vring_event
      (answers (ok 0, served_vring, served.ram))
      false
      true
      true
      (with_vrings started_vring)
      0
      started_vring
      ram).dev
    ≡ with_vrings served_vring
unfolding handle_vring_event on_kick serve_kick
answered = refl

abbrev Serving : Client
Serving = Serves file_image any_size served_disk

reached_served : Reach true Serving registered (with_vrings served_vring)
reached_served = later (reached_started Serving) (
    vring false true true 0 started_vring ram (ok 0, served_vring, served.ram) refl refl
      (λ asked. record {
        fuel = 2;
        file = eight_sectors;
        live = 0;
        calls = [];
        error = ok 0;
        left = served;
        returns = serves_request;
        outcome = refl;
      })
      answered)

server-IsDev_example :
    IsDev (with_vrings served_vring)
    × ((i : ℕ) (v : Vring)
        → get_elem? (with_vrings served_vring).vrings i ≡ some v
        → ((v.kickfd ==ℤ minus_one) ≡ false → is_neg (with_vrings served_vring).connfd ≡ false)
          × (v.is_started ≡ true → (k : ℕ) × (v.vq.qsize ≡ 2 ^ k) × (v.vq.qsize ≤ max_size)))
server-IsDev_example =
    server-IsDev file_image any_size true served_disk (ok 3) registered (with_vrings served_vring)
      register_works reached_served
