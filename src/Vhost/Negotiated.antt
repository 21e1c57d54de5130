-- ===== src/Vhost/Negotiated.antt =====
-- The protocol features that have been negotiated once a message is handled.
use libvhost_user.Base.{
  ℕ, ◌≡◌, ◌⊎◌, refl, some, ℤ, arith, inl, inr, is_neg, false, Bool-cases, ◌==◌, if◌then◌else◌,
}
use libvhost_user.Vhost.Protocol.{Message, get_u64}
use libvhost_user.Vhost.Device.{Vring, VhostDev}
use libvhost_user.Vhost.MemTable.{Mmap, set_mem_table, reset_memory_map}
use libvhost_user.Vhost.Handlers.{
  Answer, get_features, set_features, get_protocol_features, set_protocol_features, set_owner,
  reset_owner, handle_set_mem_table, get_queue_num, get_config, set_fd,
}
use libvhost_user.Vhost.RingHandlers.{put_num, put_addr, put_base, take_base}
use libvhost_user.Vhost.Dispatch.{call_handler}
use libvhost_user.Vhost.Every.{Each, EachQuiet, EachVring, call_handler-EachDev}

-- Only SET_PROTOCOL_FEATURES changes them.
abbrev IsSame : VhostDev → Message → VhostDev → Type 0
IsSame dev msg dev' =
    (dev'.negotiated_protocol_features ≡ dev.negotiated_protocol_features) ⊎ (msg.request ≡ 16)

set_mem_table-IsSame :
    (mmap : Mmap) (fds : ℕ → ℤ) (dev : VhostDev) (msg : Message)
    → IsSame dev msg (set_mem_table mmap msg fds dev).1
unfolding set_mem_table reset_memory_map
set_mem_table-IsSame mmap fds dev msg = inl (ground arith)

quiet-IsSame :
    (mmap : Mmap) (fds : ℕ → ℤ) (dev : VhostDev) (msg : Message)
    → EachQuiet (λ a. IsSame dev msg a.dev) mmap fds dev msg
unfolding get_features set_features get_protocol_features set_owner reset_owner handle_set_mem_table
    get_queue_num get_config
quiet-IsSame mmap fds dev msg = record {
  by_get_features = inl refl;
  by_set_features = inl (ground arith);
  by_set_owner = inl (ground arith);
  by_reset_owner = inl refl;
  by_set_mem_table = set_mem_table-IsSame mmap fds dev msg;
  by_get_protocol_features = inl refl;
  by_set_protocol_features = λ e. inr e;
  by_get_queue_num = inl refl;
  by_get_config = inl (ground arith);
  by_none = inl refl;
  by_refusal = inl refl;
}

vring-IsSame :
    (dev : VhostDev) (msg : Message) (i : ℕ) (v : Vring)
    → EachVring (λ a. IsSame dev msg a.dev) dev msg i v
unfolding set_fd put_num put_addr put_base take_base
vring-IsSame dev msg i v = record {
  by_num = λ g. inl refl;
  by_addr = λ g. inl refl;
  by_base = inl refl;
  by_take = inl refl;
  by_fd = λ t fd. inl (ground arith);
}

call_handler-IsSame :
    (mmap : Mmap) (fds : ℕ → ℤ) (dev : VhostDev) (msg : Message)
    → Each (λ a. IsSame dev msg a.dev) (call_handler mmap fds dev msg)
call_handler-IsSame mmap fds dev msg =
    call_handler-EachDev (IsSame dev msg) mmap fds dev msg (quiet-IsSame mmap fds dev msg)
      (λ i v e. vring-IsSame dev msg i v)

-- What SET_PROTOCOL_FEATURES names, or what was negotiated before.
abbrev pub negotiated : VhostDev → Message → ℕ
negotiated dev msg = if msg.request == 16 then get_u64 msg else dev.negotiated_protocol_features

set_protocol_features-negotiated :
    (mmap : Mmap) (fds : ℕ → ℤ) (dev : VhostDev) (msg : Message) (a : Answer)
    → msg.request ≡ 16
    → call_handler mmap fds dev msg ≡ some a
    → is_neg a.res ≡ false
    → a.dev.negotiated_protocol_features ≡ get_u64 msg
unfolding call_handler set_protocol_features
set_protocol_features-negotiated mmap fds dev msg a r e h = ground arith

pub call_handler-negotiated :
    (mmap : Mmap) (fds : ℕ → ℤ) (dev : VhostDev) (msg : Message) (a : Answer)
    → call_handler mmap fds dev msg ≡ some a
    → is_neg a.res ≡ false
    → a.dev.negotiated_protocol_features ≡ negotiated dev msg
call_handler-negotiated mmap fds dev msg a e h =
    let same = (call_handler-IsSame mmap fds dev msg).each a e in
    let told =
      λ (r : msg.request ≡ 16). set_protocol_features-negotiated mmap fds dev msg a r e h in
    elim (Bool-cases (msg.request == 16)) [
      | inl t ↦ rw t (told (ground (arith, t)))
      | inr t ↦ rw t (ground (arith, same, t))
    ]
