-- ===== src/Vhost/Fixture.antt =====
-- A device with one queue, for the tests of the vhost protocol.
use libvhost_user.Base.{
  ℕ, ◌+◌, ◌^◌, ◌≡◌, refl, ap, sym, subst, Bool, true, false, some, [], ◌∷◌, ltb, if◌then◌else◌, ℤ,
  minus_one,
}
use libvhost_user.Base.{pos as ok}
use libvhost_user.Memory.{map_failed}
use libvhost_user.Ram.{Ram}
use libvhost_user.Vdev.{VirtioDev}
use libvhost_user.Virtqueue.Fixture.{base, table}
use libvhost_user.Vhost.Protocol.{Message}
use libvhost_user.Vhost.Device.{Vring, VhostDev}
use libvhost_user.Vhost.Ring.{vring_reset}
use libvhost_user.Vhost.MemTable.{Mmap}
use libvhost_user.Vhost.Dispatch.{reset_vrings}
use libvhost_user.Vhost.Event.{zeroed_vring, register_device_server, Received, VringCb}
use libvhost_user.Virtqueue.Placed.{IsPlaced, IsPlaced-refl}
use libvhost_user.Vhost.Client.{Client, IsLawful}

abbrev pub nic : VirtioDev
nic = record { supported_features = 64; features = 0; config_size = 0; get_config = λ m _. m }

abbrev pub ring : Vring
ring = record zeroed_vring {
  kickfd = ok 7;
  callfd = ok 8;
  errfd = minus_one;
  is_enabled = true;
  is_started = true;
  size = 4;
}

abbrev pub dev : VhostDev
dev = record {
  listenfd = ok 3;
  connfd = ok 4;
  has_protocol_features = false;
  negotiated_protocol_features = 0;
  session_started = false;
  num_queues = 1;
  vrings = ring ∷ [];
  memory_map = table;
  regions = [];
  vdev = nic;
}

abbrev pub message : (request size : ℕ) → Ram → Message
message request size payload = record {
  request = request;
  flags = 1;
  size = size;
  payload = payload;
}

unfoldable pub can_send : Message → Bool
can_send _ = true

-- Mappings of less than 4 GiB work.
unfoldable pub mmap : Mmap
mmap i fd size offset = if ltb size (2 ^ 32) then base else map_failed

unfoldable pub fds : ℕ → ℤ
fds i = ok (10 + i)

abbrev pub owner : Received
owner = record {
  header_ok = true;
  control_ok = true;
  body = ok 0;
  msg = message 3 0 (λ _. 0);
  fds = fds;
}

abbrev pub registered : VhostDev
registered = record {
  listenfd = ok 3;
  connfd = minus_one;
  has_protocol_features = false;
  negotiated_protocol_features = 0;
  session_started = false;
  num_queues = 1;
  vrings =
      record zeroed_vring {
        kickfd = minus_one;
        callfd = minus_one;
        errfd = minus_one;
        is_enabled = true;
      }
      ∷ [];
  memory_map = [];
  regions = [];
  vdev = nic;
}

pub register_works : (register_device_server (ok 3) 1 nic).0 ≡ some registered
unfolding register_device_server reset_vrings vring_reset
register_works = refl

unfoldable pub serve : VringCb
serve vdev vring ram = (ok 0, vring, ram)

-- As a client: it does what `serve` says.
abbrev pub serves : Client
serves mem vdev vring ram r = r ≡ serve vdev vring ram

pub serves-IsLawful : IsLawful serves
unfolding serve
serves-IsLawful = record {
  size_kept = λ mem vdev v ram r e. ap (λ (x : ℤ × Vring × Ram). x.1.size) e;
  queue_kept = λ mem vdev v ram r e.
      subst {A = ℤ × Vring × Ram} (λ x. IsPlaced v.vq x.1.vq) (sym e) (IsPlaced-refl v.vq);
}
