-- ===== src/Vhost/Event.antt =====
-- The events of vhost.c: registration, connections, incoming messages and kicks.
use libvhost_user.Base.{
  ℕ, zero, suc, ◌-◌, ◌%◌, u32_mod, negsuc, Bool, false, not, ◌||◌, Option, none, some, List, [],
  ◌∷◌, ltb, ◌==◌, if◌then◌else◌, ℤ, ◌==ℤ◌, is_neg, minus_one,
}
use libvhost_user.Base.{pos as ok}
use libvhost_user.Memory.{init_memory_map}
use libvhost_user.Ram.{Ram}
use libvhost_user.System.{Call, add_fd}
use libvhost_user.Vdev.{VirtioDev}
use libvhost_user.Vhost.Protocol.{Message}
use libvhost_user.Vhost.Device.{Vring, VhostDev}
use libvhost_user.Vhost.Ring.{close_fd_calls, vring_start}
use libvhost_user.Vhost.MemTable.{Mmap}
use libvhost_user.Vhost.Handlers.{with_vring}
use libvhost_user.Vhost.Dispatch.{
  reset_vrings, vhost_reset_dev, Handled, reset_after, handle_message,
}

-- What `memset` and `vhost_calloc` leave.
abbrev pub zeroed_vring : Vring
zeroed_vring = record {
  kickfd = ok 0;
  callfd = ok 0;
  errfd = ok 0;
  size = 0;
  avail_base = 0;
  avail_addr = 0;
  desc_addr = 0;
  used_addr = 0;
  is_enabled = false;
  is_started = false;
  vq = record {
    desc = 0;
    avail = 0;
    used = 0;
    qsize = 0;
    last_seen_avail = 0;
    is_broken = false;
    callfd = ok 0;
    has_event_idx = false;
    signalled_used_idx = 0;
  };
}

abbrev pub zeroed_vrings : ℕ → List Vring
zeroed_vrings zero = []
zeroed_vrings (suc n) = zeroed_vring ∷ zeroed_vrings n

-- `vhost_register_device_server`, where `create_listen_socket` gave `listenfd`.
unfoldable pub register_device_server :
    (listenfd : ℤ) (num_queues : ℕ) → VirtioDev → Option VhostDev × List Call
register_device_server listenfd num_queues vdev =
    let (vrings, calls) = reset_vrings false (zeroed_vrings num_queues) in
    if is_neg listenfd then (none, []) else (
      some (record {
        listenfd = listenfd;
        connfd = minus_one;
        has_protocol_features = false;
        negotiated_protocol_features = 0;
        session_started = false;
        num_queues = num_queues;
        vrings = vrings;
        memory_map = init_memory_map;
        regions = [];
        vdev = vdev;
      }),
      add_fd listenfd ∷ calls,
    )

-- `on_connect`, where `accept4` gives `fd`.
unfoldable pub on_connect : (fd : ℤ) → VhostDev → VhostDev × List Call
on_connect fd dev =
    if not (is_neg dev.connfd) then (dev, []) else (record dev { connfd = fd }, add_fd fd ∷ [])

-- The size of the union in `struct vhost_user_message`: 268 bytes, and 4 of padding, since it is
-- aligned as its 64-bit members
abbrev pub sizeof_payload : ℕ
sizeof_payload = 272

-- What `recvmsg` and `recv` deliver: whether the header came whole, whether the control message, if
-- any, is as it should be, what `recv` returned for the body, and the data.
pub record Received : Type 0 where
  pub header_ok : Bool
  pub control_ok : Bool
  pub body : ℤ
  pub msg : Message
  pub fds : ℕ → ℤ

-- `recv` has put more bytes into the message buffer than it has.
unfoldable pub overruns : ℤ → Bool
overruns (ok n) = ltb sizeof_payload n
overruns (negsuc n) = false

-- The result of `recv` as it is compared with the size, which is a `uint32_t`.
unfoldable pub as_u32 : ℤ → ℕ
as_u32 (ok n) = n % u32_mod
as_u32 (negsuc n) = u32_mod - suc n

-- `none` is an access outside of an array: also of the message buffer, by a body that is too long.
unfoldable pub on_read_avail :
    Mmap → (can_send : Message → Bool) → VhostDev → Received → Option Handled
on_read_avail mmap can_send dev r =
    if not r.header_ok || not r.control_ok
    then some (reset_after dev none [])
    else if r.msg.size == 0
    then handle_message mmap can_send r.fds dev r.msg
    else if overruns r.body
    then none
    else if not (as_u32 r.body == r.msg.size)
    then some (reset_after dev none [])
    else handle_message mmap can_send r.fds dev r.msg

-- What a kick leads to.
pub record Kicked : Type 0 where
  pub dev : VhostDev
  pub ram : Ram
  pub calls : List Call

abbrev pub reset_kicked : VhostDev → Ram → Kicked
reset_kicked dev ram =
    let (dev', calls) = vhost_reset_dev dev in record { dev = dev'; ram = ram; calls = calls }

-- The client's handler of a vring that is started: its result, and the vring and the memory that it
-- leaves.
abbrev pub VringCb : Type 0
VringCb = VirtioDev → Vring → Ram → ℤ × Vring × Ram

-- A stopped vring is started by a kick, and a started one is served by the client.
unfoldable pub serve_kick : VringCb → VhostDev → Vring → Ram → ℤ × Vring × Ram
serve_kick vring_cb dev vring ram =
    if vring.is_started
    then vring_cb dev.vdev vring ram
    else vring_start dev.memory_map dev.vdev vring ram

-- A kick of the vring with the index `i`, where `eventfd_read` works if `read_ok`.
unfoldable pub on_kick : VringCb → (read_ok : Bool) → VhostDev → (i : ℕ) → Vring → Ram → Kicked
on_kick vring_cb read_ok dev i vring ram =
    let (error, vring', ram') = serve_kick vring_cb dev vring ram in
    if not read_ok
    then reset_kicked dev ram
    else if not (error ==ℤ ok 0)
    then reset_kicked (with_vring dev i vring') ram'
    else record { dev = with_vring dev i vring'; ram = ram'; calls = [] }

-- `handle_vring_event`; `hung_up` is EPOLLHUP or EPOLLERR, `readable` EPOLLIN.
unfoldable pub handle_vring_event :
    VringCb → (hung_up readable read_ok : Bool) → VhostDev → (i : ℕ) → Vring → Ram → Kicked
handle_vring_event vring_cb hung_up readable read_ok dev i vring ram =
    if hung_up
    then record {
      dev = with_vring dev i (record vring { kickfd = minus_one });
      ram = ram;
      calls = close_fd_calls vring vring.kickfd;
    }
    else if readable
    then on_kick vring_cb read_ok dev i vring ram
    else record { dev = dev; ram = ram; calls = [] }
