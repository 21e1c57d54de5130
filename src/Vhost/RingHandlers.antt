-- ===== src/Vhost/RingHandlers.antt =====
-- The request handlers of vhost.c for the state of one vring.
use libvhost_user.Base.{ℕ, Bool, false, Option, some, ltb, if◌then◌else◌}
use libvhost_user.Base.{pos as ok}
use libvhost_user.Virtqueue.Layout.{max_size}
use libvhost_user.Vhost.Protocol.{
  Message, vring_f_log, has_feature, sizeof_vring_state, sizeof_vring_address, get_vring_index,
  get_num, set_num, get_address_flags, get_descriptor, get_used, get_available,
}
use libvhost_user.Vhost.Device.{Vring, VhostDev}
use libvhost_user.Vhost.Ring.{vring_stop}
use libvhost_user.Vhost.MemTable.{uva_to_gpa}
use libvhost_user.Vhost.Handlers.{Answer, answer, reject, with_vring, on_vring}

-- The guards of a vring request: the size of the payload, the index, of which `num_queues` passes,
-- and the guard of its own, before the vring is looked up.
abbrev pub on_index :
    VhostDev → Message → (sizeof : ℕ) → (refused : Bool) → (ℕ → Vring → Answer) → Option Answer
on_index dev msg sizeof refused f =
    if ltb msg.size sizeof
    then some (reject dev msg)
    else if ltb dev.num_queues (get_vring_index msg)
    then some (reject dev msg)
    else if refused
    then some (reject dev msg)
    else on_vring dev (get_vring_index msg) (f (get_vring_index msg))

-- `num > VIRTQ_MAX_SIZE`
unfoldable pub is_too_large : Message → Bool
is_too_large msg = ltb max_size (get_num msg)

unfoldable pub put_num : VhostDev → Message → ℕ → Vring → Answer
put_num dev msg i vring = answer (ok 0) (with_vring dev i (record vring { size = get_num msg })) msg

unfoldable pub set_vring_num : VhostDev → Message → Option Answer
set_vring_num dev msg = on_index dev msg sizeof_vring_state (is_too_large msg) (put_num dev msg)

-- Logging is not supported.
unfoldable pub is_logged : Message → Bool
is_logged msg = has_feature (get_address_flags msg) vring_f_log

unfoldable pub put_addr : VhostDev → Message → ℕ → Vring → Answer
put_addr dev msg i vring =
    answer (ok 0)
      (with_vring dev i (record vring {
        avail_addr = uva_to_gpa dev.regions (get_available msg);
        desc_addr = uva_to_gpa dev.regions (get_descriptor msg);
        used_addr = uva_to_gpa dev.regions (get_used msg);
      }))
      msg

unfoldable pub set_vring_addr : VhostDev → Message → Option Answer
set_vring_addr dev msg = on_index dev msg sizeof_vring_address (is_logged msg) (put_addr dev msg)

unfoldable pub put_base : VhostDev → Message → ℕ → Vring → Answer
put_base dev msg i vring =
    answer (ok 0) (with_vring dev i (record vring { avail_base = get_num msg })) msg

unfoldable pub set_vring_base : VhostDev → Message → Option Answer
set_vring_base dev msg = on_index dev msg sizeof_vring_state false (put_base dev msg)

unfoldable pub take_base : VhostDev → Message → ℕ → Vring → Answer
take_base dev msg i vring =
    let base = vring.vq.last_seen_avail in
    answer (ok 0) (with_vring dev i (vring_stop (record vring { avail_base = base })))
      (set_num msg base)

unfoldable pub get_vring_base : VhostDev → Message → Option Answer
get_vring_base dev msg = on_index dev msg sizeof_vring_state false (take_base dev msg)
