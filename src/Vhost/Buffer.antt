-- ===== src/Vhost/Buffer.antt =====
-- The request handlers stay inside the message buffer of `on_read_avail`.
use libvhost_user.Base.{pos as ok}
use libvhost_user.Base.{
  ℕ, ◌+◌, ◌≤◌, ◌≡◌, refl, subst, sym, ◌∙◌, ℤ, arith, minus_one, u32_mod, ◌<◌, ◌⊎◌,
}
use libvhost_user.Ram.{Ram, write8, write16, write32, write64}
use libvhost_user.Vdev.{IsFiller, dev_get_config, dev_set_features}
use libvhost_user.Vhost.Protocol.{
  Message, get_config_offset, sizeof_config_header, set_u64, set_num, get_u64, f_protocol_features,
}
use libvhost_user.Vhost.Device.{Vring, VhostDev}
use libvhost_user.Vhost.MemTable.{Mmap}
use libvhost_user.Vhost.Handlers.{
  Answer, clear_feature, get_features, set_features, get_protocol_features, set_protocol_features,
  set_owner, reset_owner, handle_set_mem_table, get_queue_num, get_config, set_fd, watch_kick,
}
use libvhost_user.Vhost.RingHandlers.{put_num, put_addr, put_base, take_base}
use libvhost_user.Vhost.Every.{Each, EachQuiet, EachVring, call_handler-Each}
use libvhost_user.Vhost.Sent.{Sent}
use libvhost_user.Vhost.Dispatch.{call_handler}
use libvhost_user.Vhost.Event.{sizeof_payload, Received}

-- The message fits the buffer, and the bytes behind the buffer are those of before.
pub record IsInside (msg m : Message) : Type 0 where
  pub fits : m.size ≤ sizeof_payload
  pub behind : (a : ℕ) → sizeof_payload ≤ a → m.payload a ≡ msg.payload a

write32-behind : (m : Ram) (v a : ℕ) → 8 ≤ a → write32 m 4 v a ≡ m a
unfolding write32 write16 write8
write32-behind m v a h = ground arith

write64-behind : (m : Ram) (v a : ℕ) → 8 ≤ a → write64 m 0 v a ≡ m a
unfolding write64 write32 write16 write8
write64-behind m v a h = ground arith

set_u64-IsInside :
    (msg m : Message) (v : ℕ) → IsInside msg m → IsInside msg (record (set_u64 m v) { size = 8 })
unfolding set_u64
set_u64-IsInside msg m v p = record {
  fits = omega arith;
  behind = λ a h. write64-behind m.payload v a (omega (arith, h)) ∙ p.behind a h;
}

set_num-IsInside :
    (msg : Message) (v : ℕ) → msg.size ≤ sizeof_payload → IsInside msg (set_num msg v)
unfolding set_num
set_num-IsInside msg v s = record {
  fits = s;
  behind = λ a h. write32-behind msg.payload v a (omega (arith, h));
}

-- A request that has its payload changed at most by the handler of the device.
get_config-IsInside :
    (dev : VhostDev) (msg : Message)
    → IsFiller dev.vdev
    → msg.size ≤ sizeof_payload
    → IsInside msg (get_config dev msg).msg
unfolding get_config dev_get_config
get_config-IsInside dev msg f s = record {
  fits = ground (arith, s);
  behind = λ a h.
      ground (arith, h, f.beside msg.payload (sizeof_config_header + get_config_offset msg) a);
}

set_features-IsInside :
    (dev : VhostDev) (msg : Message)
    → msg.size ≤ sizeof_payload
    → IsInside msg (set_features dev msg).msg
unfolding set_features dev_set_features set_u64
set_features-IsInside dev msg s = record {
  fits = ground (arith, s);
  behind = λ a h.
      ground
        (arith, write64-behind msg.payload (clear_feature (get_u64 msg) f_protocol_features) a);
}

same-IsInside : (msg m : Message) → msg.size ≤ sizeof_payload → m ≡ msg → IsInside msg m
same-IsInside msg m s e =
    subst {A = Message} (IsInside msg) (sym e) (record { fits = s; behind = λ a h. refl })

quiet-IsInside :
    (mmap : Mmap) (fds : ℕ → ℤ) (dev : VhostDev) (msg : Message)
    → IsFiller dev.vdev
    → msg.size ≤ sizeof_payload
    → EachQuiet (λ a. IsInside msg a.msg) mmap fds dev msg
unfolding get_features get_protocol_features set_protocol_features set_owner reset_owner
    handle_set_mem_table get_queue_num
quiet-IsInside mmap fds dev msg f s =
    let same = same-IsInside msg msg s refl in
    let u64 = λ (v : ℕ). set_u64-IsInside msg msg v same in
    record {
      by_get_features = u64 _;
      by_set_features = set_features-IsInside dev msg s;
      by_set_owner = same-IsInside msg (set_owner dev msg).msg s (ground arith);
      by_reset_owner = same;
      by_set_mem_table = same;
      by_get_protocol_features = u64 _;
      by_set_protocol_features =
          λ e. same-IsInside msg (set_protocol_features dev msg).msg s (ground arith);
      by_get_queue_num = u64 _;
      by_get_config = get_config-IsInside dev msg f s;
      by_none = same;
      by_refusal = same;
    }

vring-IsInside :
    (dev : VhostDev) (msg : Message) (i : ℕ) (v : Vring)
    → msg.size ≤ sizeof_payload
    → EachVring (λ a. IsInside msg a.msg) dev msg i v
unfolding put_num put_addr put_base take_base set_fd
vring-IsInside dev msg i v s =
    let same = λ (m : Message). same-IsInside msg m s in
    record {
      by_num = λ g. same msg refl;
      by_addr = λ g. same msg refl;
      by_base = same msg refl;
      by_take = set_num-IsInside msg _ s;
      by_fd = λ t fd. same (set_fd t fd dev msg i v).msg (ground arith);
    }

watch_kick-msg : (a : Answer) (i : ℕ) → (watch_kick a i).msg ≡ a.msg
unfolding watch_kick
watch_kick-msg a i = ground arith

-- No handler writes behind the buffer, or makes the message larger than it.
pub call_handler-IsInside :
    (mmap : Mmap) (fds : ℕ → ℤ) (dev : VhostDev) (msg : Message)
    → IsFiller dev.vdev
    → msg.size ≤ sizeof_payload
    → Each (λ a. IsInside msg a.msg) (call_handler mmap fds dev msg)
call_handler-IsInside mmap fds dev msg f s =
    call_handler-Each (λ a. IsInside msg a.msg) mmap fds dev msg
      (quiet-IsInside mmap fds dev msg f s) (λ i v e. vring-IsInside dev msg i v s)
      (λ a i p. subst {A = Message} (IsInside msg) (sym (watch_kick-msg a i)) p)

-- What `recv` may return where the size is not all ones: the number of bytes, or -1.
abbrev pub IsRead : Received → Type 0
IsRead r =
    ((n : ℕ) × (n < u32_mod) × (r.body ≡ ok n))
    ⊎ ((r.body ≡ minus_one) × (r.msg.size + 1 < u32_mod))
