-- ===== src/Vhost/Answers.antt =====
-- What the handlers of vhost.c answer.
use libvhost_user.Base.{ℕ, ◌≡◌, ◌⊎◌, refl, true, ℤ, arith, inr, is_neg}
use libvhost_user.Base.{pos as ok}
use libvhost_user.Vdev.{dev_get_config, dev_set_features}
use libvhost_user.Vhost.Protocol.{Message, set_u64, set_num}
use libvhost_user.Vhost.Device.{Vring, VhostDev}
use libvhost_user.Vhost.MemTable.{Mmap, set_mem_table}
use libvhost_user.Vhost.Handlers.{
  Answer, get_features, set_features, get_protocol_features, set_protocol_features, set_owner,
  reset_owner, handle_set_mem_table, get_queue_num, get_config, set_fd, watch_kick,
}
use libvhost_user.Vhost.RingHandlers.{put_num, put_addr, put_base, take_base}
use libvhost_user.Vhost.Every.{Each, EachQuiet, EachVring, call_handler-Each}
use libvhost_user.Vhost.Dispatch.{call_handler}

-- The answer of a handler: done or refused, never a positive result, for the same request.
pub record IsAnswer (msg : Message) (a : Answer) : Type 0 where
  pub res_ok : (a.res ≡ ok 0) ⊎ (is_neg a.res ≡ true)
  pub request_kept : a.msg.request ≡ msg.request
  pub flags_kept : a.msg.flags ≡ msg.flags

quiet_handlers :
    (mmap : Mmap) (fds : ℕ → ℤ) (dev : VhostDev) (msg : Message)
    → EachQuiet (IsAnswer msg) mmap fds dev msg
unfolding get_features set_features get_protocol_features set_protocol_features set_owner
    reset_owner handle_set_mem_table set_mem_table get_queue_num get_config dev_set_features
    dev_get_config set_u64
quiet_handlers mmap fds dev msg = record {
  by_get_features = record { res_ok = ground arith; request_kept = refl; flags_kept = refl };
  by_set_features = record {
    res_ok = ground arith;
    request_kept = ground arith;
    flags_kept = ground arith;
  };
  by_set_owner = record {
    res_ok = ground arith;
    request_kept = ground arith;
    flags_kept = ground arith;
  };
  by_reset_owner = record { res_ok = ground arith; request_kept = refl; flags_kept = refl };
  by_set_mem_table = record { res_ok = ground arith; request_kept = refl; flags_kept = refl };
  by_get_protocol_features = record {
    res_ok = ground arith;
    request_kept = refl;
    flags_kept = refl;
  };
  by_set_protocol_features =
      λ e. record { res_ok = ground arith; request_kept = ground arith; flags_kept = ground arith };
  by_get_queue_num = record { res_ok = ground arith; request_kept = refl; flags_kept = refl };
  by_get_config = record {
    res_ok = ground arith;
    request_kept = ground arith;
    flags_kept = ground arith;
  };
  by_none = record { res_ok = ground arith; request_kept = refl; flags_kept = refl };
  by_refusal = record { res_ok = inr refl; request_kept = refl; flags_kept = refl };
}

vring_handlers :
    (dev : VhostDev) (msg : Message) (i : ℕ) (v : Vring) → EachVring (IsAnswer msg) dev msg i v
unfolding set_fd put_num put_addr put_base take_base set_num
vring_handlers dev msg i v = record {
  by_num =
      λ g. record { res_ok = ground arith; request_kept = ground arith; flags_kept = ground arith };
  by_addr =
      λ g. record { res_ok = ground arith; request_kept = ground arith; flags_kept = ground arith };
  by_base = record { res_ok = ground arith; request_kept = refl; flags_kept = refl };
  by_take = record { res_ok = ground arith; request_kept = refl; flags_kept = refl };
  by_fd = λ t fd. record {
    res_ok = ground arith;
    request_kept = ground arith;
    flags_kept = ground arith;
  };
}

watch_kick-IsAnswer :
    (msg : Message) (a : Answer) (i : ℕ) → IsAnswer msg a → IsAnswer msg (watch_kick a i)
unfolding watch_kick
watch_kick-IsAnswer msg a i p = record {
  res_ok = ground (arith, p.res_ok);
  request_kept = ground (arith, p.request_kept);
  flags_kept = ground (arith, p.flags_kept);
}

pub call_handler-IsAnswer :
    (mmap : Mmap) (fds : ℕ → ℤ) (dev : VhostDev) (msg : Message)
    → Each (IsAnswer msg) (call_handler mmap fds dev msg)
call_handler-IsAnswer mmap fds dev msg =
    call_handler-Each (IsAnswer msg) mmap fds dev msg (quiet_handlers mmap fds dev msg)
      (λ i v e. vring_handlers dev msg i v) (watch_kick-IsAnswer msg)
