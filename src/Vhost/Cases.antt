-- ===== src/Vhost/Cases.antt =====
-- The table of handlers as a case distinction.
use libvhost_user.Base.{ℕ, Option, some, ℤ, arith, enotsup, ◌≡◌}
use libvhost_user.Vhost.Protocol.{Message}
use libvhost_user.Vhost.Device.{VhostDev}
use libvhost_user.Vhost.MemTable.{Mmap}
use libvhost_user.Vhost.Handlers.{
  Answer, answer, call, err, get_features, set_features, get_protocol_features,
  set_protocol_features, set_owner, reset_owner, handle_set_mem_table, get_queue_num, get_config,
  set_vring_fd, set_vring_kick,
}
use libvhost_user.Vhost.RingHandlers.{set_vring_num, set_vring_addr, set_vring_base, get_vring_base}
use libvhost_user.Vhost.Dispatch.{call_handler}

-- What holds of each handler holds of the one that a request calls.
pub call_handler_elim :
    (P : Option Answer → Type 0) (mmap : Mmap) (fds : ℕ → ℤ) (dev : VhostDev) (msg : Message)
    → P (some (get_features dev msg))
    → P (some (set_features dev msg))
    → P (some (set_owner dev msg))
    → P (some (reset_owner dev msg))
    → P (some (handle_set_mem_table mmap fds dev msg))
    → P (set_vring_num dev msg)
    → P (set_vring_addr dev msg)
    → P (set_vring_base dev msg)
    → P (get_vring_base dev msg)
    → P (set_vring_kick fds dev msg)
    → P (set_vring_fd call fds dev msg)
    → P (set_vring_fd err fds dev msg)
    → P (some (get_protocol_features dev msg))
    → (msg.request ≡ 16 → P (some (set_protocol_features dev msg)))
    → P (some (get_queue_num dev msg))
    → P (some (get_config dev msg))
    → P (some (answer enotsup dev msg))
    → P (call_handler mmap fds dev msg)
unfolding call_handler
call_handler_elim P mmap fds dev msg a1 a2 a3 a4 a5 a8 a9 a10 a11 a12 a13 a14 a15 a16 a17 a24 a0 =
    ground arith
