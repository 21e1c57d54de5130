-- ===== src/Vhost/Ring.antt =====
-- The vring functions of vhost.c: `vring_close_fd`, `vring_reset`, `vring_start`, `vring_stop`.
use libvhost_user.Base.{
  ◌%◌, Bool, true, false, not, ◌||◌, List, [], ◌∷◌, ◌++◌, ◌==◌, if◌then◌else◌, ℤ, ◌==ℤ◌, minus_one,
  einval, u16_mod,
}
use libvhost_user.Base.{pos as ok}
use libvhost_user.Memory.{MemoryMap}
use libvhost_user.Ram.{Ram}
use libvhost_user.System.{Call, close, del_fd}
use libvhost_user.Virtqueue.Setup.{start}
use libvhost_user.Vdev.{VirtioDev}
use libvhost_user.Vhost.Protocol.{f_event_idx, has_feature}
use libvhost_user.Vhost.Device.{Vring}

-- The calls of `vring_close_fd` for one of the descriptors of a vring; it then sets it to -1.
unfoldable pub close_fd_calls : Vring → ℤ → List Call
close_fd_calls vring fd =
    if fd ==ℤ minus_one
    then []
    else if fd ==ℤ vring.kickfd
    then del_fd fd ∷ close fd ∷ []
    else close fd ∷ []

abbrev pub without_kickfd : Vring → Vring
without_kickfd vring = record vring { kickfd = minus_one }

-- The kick descriptor is closed first, so the other two are compared with -1.
unfoldable pub vring_reset : (has_protocol_features : Bool) → Vring → Vring × List Call
vring_reset has_protocol_features vring = (
  record vring {
    kickfd = minus_one;
    callfd = minus_one;
    errfd = minus_one;
    is_enabled = not has_protocol_features;
    is_started = false;
  },
  close_fd_calls vring vring.kickfd
      ++ close_fd_calls (without_kickfd vring) vring.callfd
      ++ close_fd_calls (without_kickfd vring) vring.errfd,
)

-- The queue takes the size and the base as 16-bit numbers.
unfoldable pub vring_start : MemoryMap → VirtioDev → Vring → Ram → ℤ × Vring × Ram
vring_start mem vdev vring ram =
    if vring.size == 0 || vring.kickfd ==ℤ minus_one
    then (einval, vring, ram)
    else if vring.is_started
    then (ok 0, vring, ram)
    else let (res, vq, ram') =
        start mem ram vring.vq (vring.size % u16_mod) vring.desc_addr vring.avail_addr
          vring.used_addr (vring.avail_base % u16_mod) vring.callfd
          (has_feature vdev.features f_event_idx) in
      if res ==ℤ ok 0
      then (res, record vring { vq = vq; is_started = true }, ram')
      else (res, record vring { vq = vq }, ram')

unfoldable pub vring_stop : Vring → Vring
vring_stop vring = if not vring.is_started then vring else record vring { is_started = false }
