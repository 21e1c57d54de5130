-- ===== src/Vhost/Quiet.antt =====
-- The handlers that touch neither a vring nor the connection of a device.
use libvhost_user.Base.{ℕ, ◌≡◌, refl, ℤ, arith}
use libvhost_user.Vhost.Protocol.{Message}
use libvhost_user.Vhost.Device.{VhostDev}
use libvhost_user.Vhost.MemTable.{Mmap, set_mem_table, reset_memory_map}
use libvhost_user.Vhost.Handlers.{
  get_features, set_features, get_protocol_features, set_protocol_features, set_owner, reset_owner,
  handle_set_mem_table, get_queue_num, get_config,
}
use libvhost_user.Vhost.Every.{EachQuiet}

pub record IsQuiet (dev dev' : VhostDev) : Type 0 where
  pub same_list : dev'.vrings ≡ dev.vrings
  pub same_count : dev'.num_queues ≡ dev.num_queues
  pub same_fd : dev'.connfd ≡ dev.connfd

set_mem_table-IsQuiet :
    (mmap : Mmap) (msg : Message) (fds : ℕ → ℤ) (dev : VhostDev)
    → IsQuiet dev (set_mem_table mmap msg fds dev).1
unfolding set_mem_table reset_memory_map
set_mem_table-IsQuiet mmap msg fds dev = record {
  same_list = ground arith;
  same_count = ground arith;
  same_fd = ground arith;
}

-- What holds of a device when a handler has left its vrings and its connection.
pub IsQuiet-EachQuiet :
    (Q : VhostDev → Type 0) (mmap : Mmap) (fds : ℕ → ℤ) (dev : VhostDev) (msg : Message)
    → ((dev' : VhostDev) → IsQuiet dev dev' → Q dev')
    → EachQuiet (λ a. Q a.dev) mmap fds dev msg
unfolding get_features set_features get_protocol_features set_protocol_features set_owner
    reset_owner handle_set_mem_table get_queue_num get_config
IsQuiet-EachQuiet Q mmap fds dev msg quiet =
    let same = quiet dev (record { same_list = refl; same_count = refl; same_fd = refl }) in
    record {
      by_get_features = same;
      by_set_features =
          quiet (set_features dev msg).dev (record {
            same_list = ground arith;
            same_count = ground arith;
            same_fd = ground arith;
          });
      by_set_owner =
          quiet (set_owner dev msg).dev (record {
            same_list = ground arith;
            same_count = ground arith;
            same_fd = ground arith;
          });
      by_reset_owner = same;
      by_set_mem_table = quiet _ (set_mem_table-IsQuiet mmap msg fds dev);
      by_get_protocol_features = same;
      by_set_protocol_features = λ e.
          quiet (set_protocol_features dev msg).dev (record {
            same_list = ground arith;
            same_count = ground arith;
            same_fd = ground arith;
          });
      by_get_queue_num = same;
      by_get_config =
          quiet (get_config dev msg).dev (record {
            same_list = ground arith;
            same_count = ground arith;
            same_fd = ground arith;
          });
      by_none = same;
      by_refusal = same;
    }
