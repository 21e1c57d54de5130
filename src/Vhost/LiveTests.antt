-- ===== src/Vhost/LiveTests.antt =====
-- A vring that is placed and started, and a memory table that is sent again.
use libvhost_user.Base.{
  ℤ, true, arith, ℕ, ◌^◌, ◌≤◌, ◌≡◌, refl, ap, false, get_elem?, some, none, [], ◌∷◌,
}
use libvhost_user.Base.{pos as ok}
use libvhost_user.Ram.{Ram, read16, read32, read64, write16, write32, write64}
use libvhost_user.System.{close, munmap}
use libvhost_user.Memory.{add_guest_region, find_gpa_range}
use libvhost_user.Virtqueue.Fixture.{base, table}
use libvhost_user.Virtqueue.Setup
use libvhost_user.Virtqueue.Setup.{started, map_parts, map_part}
use libvhost_user.Virtqueue.Layout.{max_size}
use libvhost_user.Vhost.Protocol.{
  Message, get_num, set_num, get_address_flags, get_descriptor, get_used, get_available,
  get_vring_index, vring_f_log, get_num_regions, get_region, has_feature,
}
use libvhost_user.Vhost.Device.{Vring}
use libvhost_user.Vhost.Ring.{vring_start}
use libvhost_user.Vhost.Resume.{get_vring_base-resumes}
use libvhost_user.Vhost.MemTable.{
  set_mem_table, map_regions, copy_regions, reset_memory_map, is_page_aligned, unmap_calls,
}
use libvhost_user.Vhost.Handlers.{answer, with_vring, handle_set_mem_table}
use libvhost_user.Vhost.Dispatch.{
  call_handler, message_assumes_reply, must_reply_ack, finish_message, finish_result,
  handle_message,
}
use libvhost_user.Vhost.Event.{on_read_avail, overruns, as_u32}
use libvhost_user.Vhost.Server.{read_event, on_conn_event, handle_server_event}
use libvhost_user.Vhost.RingHandlers.{set_vring_addr, set_vring_base, get_vring_base}
use libvhost_user.Vhost.Addresses.{IsUserOf, set_vring_addr-stores}
use libvhost_user.Vhost.Live.{Reach-IsAllLive}
use libvhost_user.Vhost.Sockets.{handle_server_event-StartsNone}
use libvhost_user.Vhost.Starts.{StartsNone}
use libvhost_user.Vhost.Fixture.{
  message, nic, can_send, mmap, fds, registered, register_works, serves, serves-IsLawful,
}
use libvhost_user.Vhost.Session.{
  watched_vring, event, done, with_memory, sized_vring, placed_vring, vring_addr, user_region,
  received, mem_table, with_vrings, started_vring, reached_started,
}

Reach-IsAllLive_example : (k : ℕ) × (4 ≡ 2 ^ k) × (4 ≤ max_size)
Reach-IsAllLive_example =
    Reach-IsAllLive true serves (ok 3) 1 nic registered (with_vrings started_vring) 0 started_vring
      serves-IsLawful register_works (reached_started serves) refl refl

-- The memory table is sent again while the vring is started: its virtqueue stays as it is.
maps_again :
    event mem_table (with_vrings started_vring)
    ≡ done (with_vrings started_vring) (munmap base 65536 ∷ close (ok 10) ∷ [])
unfolding handle_server_event on_conn_event read_event on_read_avail overruns as_u32 handle_message
    call_handler finish_result finish_message handle_set_mem_table set_mem_table map_regions
    copy_regions get_num_regions get_region reset_memory_map is_page_aligned unmap_calls
    add_guest_region mmap fds message_assumes_reply must_reply_ack has_feature read16 read32 read64
    write16 write32 write64
maps_again = refl

handle_server_event-StartsNone_example :
    StartsNone (with_vrings started_vring) (with_vrings started_vring)
handle_server_event-StartsNone_example =
    handle_server_event-StartsNone true mmap can_send (ok 4) (received mem_table) (ok 4) 1
      (with_vrings started_vring)
      (record {
        dev = with_vrings started_vring;
        reply = none;
        calls = munmap base 65536 ∷ close (ok 10) ∷ [];
      })
      maps_again

-- The parts of the queue, by the addresses of the client.
desc_at : IsUserOf with_memory.regions (get_descriptor vring_addr) 0
unfolding get_descriptor read16 read32 read64 write16 write32 write64
desc_at = record {
  index = 0;
  region = user_region;
  listed = refl;
  from = omega arith;
  to = omega arith;
  user = refl;
}

avail_at : IsUserOf with_memory.regions (get_available vring_addr) 64
unfolding get_available read16 read32 read64 write16 write32 write64
avail_at = record {
  index = 0;
  region = user_region;
  listed = refl;
  from = omega arith;
  to = omega arith;
  user = refl;
}

used_at : IsUserOf with_memory.regions (get_used vring_addr) 80
unfolding get_used read16 read32 read64 write16 write32 write64
used_at = record {
  index = 0;
  region = user_region;
  listed = refl;
  from = omega arith;
  to = omega arith;
  user = refl;
}

no_log : has_feature (get_address_flags vring_addr) vring_f_log ≡ false
unfolding has_feature get_address_flags read16 read32 write16 write32 write64
no_log = refl

first_index : get_vring_index vring_addr ≡ 0
unfolding get_vring_index read16 read32 write16 write32 write64
first_index = refl

set_vring_addr-stores_example :
    set_vring_addr (with_vrings sized_vring) vring_addr
    ≡ some (
        answer
          (ok 0)
          (with_vring (with_vrings sized_vring) (get_vring_index vring_addr) placed_vring)
          vring_addr)
set_vring_addr-stores_example =
    set_vring_addr-stores (with_vrings sized_vring) vring_addr sized_vring 0 64 80
      (record { nonempty = omega arith; user_fits = omega arith; guest_fits = omega arith }, tt, tt)
      (omega arith) (rw first_index (omega arith)) no_log
      (ap (get_elem? (with_vrings sized_vring).vrings) first_index) desc_at avail_at used_at

-- A vring that has come to its eighth entry, the requests for its base, and a vring that is given it.
abbrev far_vring : Vring
far_vring = record started_vring { vq = record started_vring.vq { last_seen_avail = 7 } }

abbrev get_base : Message
get_base = message 11 8 (λ _. 0)

abbrev set_base : Message
set_base = message 10 8 (write32 (λ _. 0) 4 7)

abbrev resumed : Vring
resumed = record far_vring { avail_base = 7 }

get_base_index : get_vring_index get_base ≡ 0
unfolding get_vring_index read16 read32
get_base_index = refl

set_base_index : get_vring_index set_base ≡ 0
unfolding get_vring_index read16 read32 write16 write32
set_base_index = refl

base_told : get_num set_base ≡ get_num (set_num get_base 7)
unfolding get_num set_num read16 read32 write16 write32
base_told = refl

abbrev restart : ℤ × Vring × Ram
restart = vring_start table nic (record watched_vring { avail_base = get_num set_base }) (λ _. 0)

restarts : restart ≡ (ok 0, resumed, restart.2)
unfolding vring_start Setup.start started map_parts map_part find_gpa_range has_feature get_num
    read16 read32 write16 write32
restarts = refl

get_vring_base-resumes_example :
    (get_vring_base (with_vrings far_vring) get_base
      ≡ some (
          answer
            (ok 0)
            (with_vring
              (with_vrings far_vring)
              (get_vring_index get_base)
              (record far_vring { is_started = false; avail_base = 7 }))
            (set_num get_base 7)))
    × (get_num (set_num get_base 7) ≡ 7)
    × (set_vring_base (with_vrings watched_vring) set_base
        ≡ some (
            answer
              (ok 0)
              (with_vring
                (with_vrings watched_vring)
                (get_vring_index set_base)
                (record watched_vring { avail_base = get_num set_base }))
              set_base))
    × (resumed.is_started ≡ true)
    × (resumed.vq.last_seen_avail ≡ 7)
get_vring_base-resumes_example =
    get_vring_base-resumes (with_vrings far_vring) (with_vrings watched_vring) get_base set_base
      far_vring watched_vring resumed table nic (λ _. 0) restart.2 (omega arith)
      (rw get_base_index (omega arith))
      (ap (get_elem? (with_vrings far_vring).vrings) get_base_index) (omega arith) (omega arith)
      (rw set_base_index (omega arith))
      (ap (get_elem? (with_vrings watched_vring).vrings) set_base_index) base_told refl restarts
