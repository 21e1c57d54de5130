-- ===== src/Vhost/Server.antt =====
-- The socket of a device: `create_listen_socket`, `handle_server_event` and `on_disconnect` of vhost.c.
use libvhost_user.Base.{
  ℕ, ◌-◌, Bool, false, not, ◌&&◌, Option, none, some, List, [], ◌∷◌, ltb, ◌==◌, if◌then◌else◌,
  has_any, bit_and, bit_or, ℤ, ◌==ℤ◌, is_neg, neg, minus_one, enospc,
}
use libvhost_user.Base.{pos as ok}
use libvhost_user.Platform.{verify_fails}
use libvhost_user.System.{Call, close}
use libvhost_user.Vdev.{VirtioDev}
use libvhost_user.Evloop.{epollin, epollhup}
use libvhost_user.Vhost.Protocol.{Message}
use libvhost_user.Vhost.Device.{VhostDev}
use libvhost_user.Vhost.MemTable.{Mmap}
use libvhost_user.Vhost.Dispatch.{Handled, reset_after}
use libvhost_user.Vhost.Event.{Received, register_device_server, on_connect, on_read_avail}

-- `sizeof(addr.sun_path)`
abbrev pub sizeof_sun_path : ℕ
sizeof_sun_path = 108

-- What the system says to the calls of `create_listen_socket`, with the errno of one that fails.
pub record Socket : Type 0 where
  pub sockfd : ℤ
  pub bind_ok : Bool
  pub listen_ok : Bool
  pub errno : ℕ

-- The result for a path of that length: a descriptor or an error, and the calls of `close`.
unfoldable pub create_listen_socket : (path_len : ℕ) → Socket → ℤ × List Call
create_listen_socket path_len s =
    if ltb sizeof_sun_path path_len
    then (enospc, [])
    else if is_neg s.sockfd
    then (neg s.errno, [])
    else if not (s.bind_ok && s.listen_ok)
    then (neg s.errno, close s.sockfd ∷ [])
    else (s.sockfd, [])

-- What `vhost_register_device_server` returns, and the list of devices that it leaves.
unfoldable pub enlist :
    (g_vhost_dev_list : List VhostDev) → Option VhostDev × List Call → ℤ × List VhostDev × List Call
enlist devs (none, calls) = (minus_one, devs, calls)
enlist devs (some dev, calls) = (ok 0, dev ∷ devs, calls)

-- `vhost_register_device_server` with its socket and the list of devices
unfoldable pub register_on_path :
    (g_vhost_dev_list : List VhostDev)
    → (path_len : ℕ) → Socket
    → (num_queues : ℕ) → VirtioDev
    → ℤ × List VhostDev × List Call
register_on_path devs path_len s num_queues vdev =
    let (listenfd, closed) = create_listen_socket path_len s in
    if is_neg listenfd
    then (minus_one, devs, closed)
    else enlist devs (register_device_server listenfd num_queues vdev)

-- EPOLLERR
abbrev pub epollerr : ℕ
epollerr = 8

-- `(events & ~mask) == 0`
abbrev pub is_within : (events mask : ℕ) → Bool
is_within events mask = events - bit_and events mask == 0

-- An event of a socket ends the process by VHOST_VERIFY, in a build without NDEBUG, leads to an access outside of an array, or
-- is handled.
pub data ServerEvent : Type 0 where
  aborted out_of_bounds : ServerEvent
  handled : Handled → ServerEvent

abbrev pub untouched : VhostDev → Handled
untouched dev = record { dev = dev; reply = none; calls = [] }

unfoldable pub on_disconnect : VhostDev → Handled
on_disconnect dev = reset_after dev none []

-- `on_connect` with its check of what `accept4` gives
unfoldable pub accept_one : (ndebug : Bool) (accepted : ℤ) → VhostDev → ServerEvent
accept_one ndebug accepted dev =
    let (dev', calls) = on_connect accepted dev in
    if is_neg dev.connfd && verify_fails ndebug (not (is_neg accepted))
    then aborted
    else handled (record { dev = dev'; reply = none; calls = calls })

unfoldable pub on_listen_event :
    (ndebug : Bool) (accepted : ℤ) → (events : ℕ) → VhostDev → ServerEvent
on_listen_event ndebug accepted events dev =
    if verify_fails ndebug (is_within events epollin)
    then aborted
    else if has_any events epollin
    then accept_one ndebug accepted dev
    else handled (untouched dev)

unfoldable pub read_event : Option Handled → ServerEvent
read_event none = out_of_bounds
read_event (some h) = handled h

unfoldable pub on_conn_event :
    (ndebug : Bool)
    → Mmap
    → (can_send : Message → Bool) → Received
    → (events : ℕ) → VhostDev
    → ServerEvent
on_conn_event ndebug mmap can_send r events dev =
    if verify_fails ndebug (is_within events (bit_or (bit_or epollin epollhup) epollerr))
    then aborted
    else if has_any events (bit_or epollhup epollerr)
    then handled (on_disconnect dev)
    else if has_any events epollin
    then read_event (on_read_avail mmap can_send dev r)
    else handled (untouched dev)

-- `handle_server_event`, where `accept4` would give `accepted` and a read of the socket `r`.
unfoldable pub handle_server_event :
    (ndebug : Bool)
    → Mmap
    → (can_send : Message → Bool) → (accepted : ℤ) → Received
    → (fd : ℤ) → (events : ℕ) → VhostDev
    → ServerEvent
handle_server_event ndebug mmap can_send accepted r fd events dev =
    if fd ==ℤ dev.listenfd
    then on_listen_event ndebug accepted events dev
    else if fd ==ℤ dev.connfd
    then on_conn_event ndebug mmap can_send r events dev
    else if verify_fails ndebug false
    then aborted
    else handled (untouched dev)
