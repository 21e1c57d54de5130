-- ===== src/Vhost/Session.antt =====
-- A client that sets up the queue of the device of Fixture and kicks it.
use libvhost_user.Base.{ℤ, arith, ◌+◌, ◌≡◌, refl, true, false, none, List, [], ◌∷◌, minus_one}
use libvhost_user.Base.{pos as ok}
use libvhost_user.Ram.{read16, read32, read64, write16, write32, write64}
use libvhost_user.System.{Call, close, add_fd}
use libvhost_user.Memory.{add_guest_region, find_gpa_range}
use libvhost_user.Virtqueue.Fixture.{base, table}
use libvhost_user.Virtqueue.Setup
use libvhost_user.Virtqueue.Setup.{map_part, map_parts, started}
use libvhost_user.Vhost.Protocol.{
  Message, get_num_regions, get_region, get_u64, get_num, get_vring_index, get_address_flags,
  get_descriptor, get_used, get_available, has_feature,
}
use libvhost_user.Vhost.Protocol.{MemRegion}
use libvhost_user.Vhost.Device.{Vring, VhostDev}
use libvhost_user.Vhost.Ring.{close_fd_calls, vring_start}
use libvhost_user.Vhost.MemTable.{
  set_mem_table, map_regions, copy_regions, reset_memory_map, is_page_aligned, unmap_calls,
  uva_to_gpa, is_user_of,
}
use libvhost_user.Vhost.Handlers.{
  handle_set_mem_table, set_fd, set_vring_fd, set_vring_kick, watch_kick, watch_result,
}
use libvhost_user.Vhost.RingHandlers.{
  is_too_large, is_logged, set_vring_num, put_num, set_vring_addr, put_addr,
}
use libvhost_user.Vhost.Dispatch.{
  call_handler, message_assumes_reply, must_reply_ack, finish_message, finish_result,
  handle_message,
}
use libvhost_user.Vhost.Event.{
  zeroed_vring, Received, on_connect, on_read_avail, serve_kick, on_kick, handle_vring_event,
  overruns, as_u32,
}
use libvhost_user.Vhost.Server.{
  ServerEvent, handled, accept_one, on_listen_event, read_event, on_conn_event, handle_server_event,
}
use libvhost_user.Vhost.Client.{Client, answers}
use libvhost_user.Ram.{Ram}
use libvhost_user.Vhost.LifeCycle.{socket, vring, start, later, Reach}
use libvhost_user.Vhost.Fixture.{message, can_send, mmap, fds, owner, registered}

abbrev pub received : Message → Received
received msg = record owner { body = ok msg.size; msg = msg }

abbrev pub event : Message → VhostDev → ServerEvent
event msg dev = handle_server_event true mmap can_send (ok 4) (received msg) (ok 4) 1 dev

abbrev pub done : VhostDev → List Call → ServerEvent
done dev calls = handled (record { dev = dev; reply = none; calls = calls })

abbrev pub connected_dev : VhostDev
connected_dev = record registered { connfd = ok 4 }

connects :
    handle_server_event true mmap can_send (ok 4) owner (ok 3) 1 registered
    ≡ done connected_dev (add_fd (ok 4) ∷ [])
unfolding handle_server_event on_listen_event accept_one on_connect
connects = refl

abbrev pub mem_table : Message
mem_table = message 5 40 (write64 (write64 (write32 (λ _. 0) 0 1) 16 65536) 24 base)

abbrev pub user_region : MemRegion
user_region = record { guest_addr = 0; size = 65536; user_addr = base; mmap_offset = 0 }

abbrev pub with_memory : VhostDev
with_memory = record connected_dev { memory_map = table; regions = user_region ∷ [] }

maps : event mem_table connected_dev ≡ done with_memory (close (ok 10) ∷ [])
unfolding handle_server_event on_conn_event read_event on_read_avail overruns as_u32 handle_message
    call_handler finish_result finish_message handle_set_mem_table set_mem_table map_regions
    copy_regions get_num_regions get_region reset_memory_map is_page_aligned unmap_calls
    add_guest_region mmap fds message_assumes_reply must_reply_ack has_feature read16 read32 read64
    write16 write32 write64
maps = refl

abbrev pub vring_num : Message
vring_num = message 8 8 (write32 (λ _. 0) 4 4)

abbrev pub first_vring : Vring
first_vring = record zeroed_vring {
  kickfd = minus_one;
  callfd = minus_one;
  errfd = minus_one;
  is_enabled = true;
}

abbrev pub sized_vring : Vring
sized_vring = record first_vring { size = 4 }

abbrev pub with_vrings : Vring → VhostDev
with_vrings v = record with_memory { vrings = v ∷ [] }

sizes : event vring_num with_memory ≡ done (with_vrings sized_vring) []
unfolding handle_server_event on_conn_event read_event on_read_avail overruns as_u32 handle_message
    call_handler finish_result finish_message set_vring_num is_too_large put_num get_num
    get_vring_index message_assumes_reply must_reply_ack has_feature read16 read32 write16 write32
sizes = refl

abbrev pub vring_addr : Message
vring_addr =
    message 9 40 (write64 (write64 (write64 (λ _. 0) 8 base) 16 (base + 80)) 24 (base + 64))

abbrev pub placed_vring : Vring
placed_vring = record sized_vring { desc_addr = 0; used_addr = 80; avail_addr = 64 }

places : event vring_addr (with_vrings sized_vring) ≡ done (with_vrings placed_vring) []
unfolding handle_server_event on_conn_event read_event on_read_avail overruns as_u32 handle_message
    call_handler finish_result finish_message set_vring_addr is_logged put_addr get_address_flags
    get_descriptor get_used get_available get_vring_index uva_to_gpa is_user_of
    message_assumes_reply must_reply_ack has_feature read16 read32 read64 write16 write32 write64
places = refl

abbrev pub vring_kick : Message
vring_kick = message 12 8 (λ _. 0)

abbrev pub watched_vring : Vring
watched_vring = record placed_vring { kickfd = ok 10 }

watches :
    event vring_kick (with_vrings placed_vring)
    ≡ done (with_vrings watched_vring) (add_fd (ok 10) ∷ [])
unfolding handle_server_event on_conn_event read_event on_read_avail overruns as_u32 handle_message
    call_handler finish_result finish_message set_vring_kick set_vring_fd set_fd watch_kick
    watch_result close_fd_calls get_u64 fds message_assumes_reply must_reply_ack has_feature read16
    read32 read64
watches = refl

abbrev pub started_vring : Vring
started_vring = record watched_vring {
  is_started = true;
  vq = record zeroed_vring.vq {
    desc = base;
    avail = base + 64;
    used = base + 80;
    qsize = 4;
    callfd = minus_one;
  };
}

-- What the handler would leave is not asked.
kicks :
    (r : ℤ × Vring × Ram)
    → (handle_vring_event
        (answers r)
        false
        true
        true
        (with_vrings watched_vring)
        0
        watched_vring
        (λ _. 0)).dev
      ≡ with_vrings started_vring
unfolding handle_vring_event on_kick serve_kick vring_start Setup.start started map_parts map_part
    find_gpa_range has_feature
kicks r = refl

module _ (client : Client) where
  abbrev pub Reaches : VhostDev → Type 0
  Reaches = Reach true client registered

  message-Reaches :
      (msg : Message) (dev dev' : VhostDev) (calls : List Call)
      → event msg dev ≡ done dev' calls
      → Reaches dev
      → Reaches dev'
  message-Reaches msg dev dev' calls e r = later r (
      socket mmap can_send (ok 4) (received msg) (ok 4) 1
        (record { dev = dev'; reply = none; calls = calls }) refl e refl)

  pub reached_connected : Reaches connected_dev
  reached_connected = later start (
      socket mmap can_send (ok 4) owner (ok 3) 1
        (record { dev = connected_dev; reply = none; calls = add_fd (ok 4) ∷ [] }) refl connects
        refl)

  reached_memory : Reaches with_memory
  reached_memory =
      message-Reaches mem_table connected_dev with_memory (close (ok 10) ∷ []) maps
        reached_connected

  reached_watched : Reaches (with_vrings watched_vring)
  reached_watched =
      message-Reaches vring_kick (with_vrings placed_vring) (with_vrings watched_vring)
        (add_fd (ok 10) ∷ []) watches
        (message-Reaches vring_addr (with_vrings sized_vring) (with_vrings placed_vring) [] places
          (message-Reaches vring_num with_memory (with_vrings sized_vring) [] sizes reached_memory))

  pub reached_started : Reaches (with_vrings started_vring)
  reached_started = later reached_watched (
      vring false true true 0 watched_vring (λ _. 0) (ok 0, watched_vring, λ _. 0) refl refl
        (λ asked. absurd (ground arith)) (kicks (ok 0, watched_vring, λ _. 0)))
