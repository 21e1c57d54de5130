-- ===== src/Vhost/Every.antt =====
-- What holds of whatever a request handler answers.
use libvhost_user.Base.{
  ℕ, ◌%◌, ◌≡◌, refl, sym, subst, Option, none, some, ltb, leb, ℤ, arith, inl, inr, Option-cases,
  get_elem?, by_if, enotsup, by_test, Bool, false,
}
use libvhost_user.Vhost.Protocol.{
  Message, get_u64, get_vring_index, sizeof_u64, sizeof_vring_state, sizeof_vring_address,
}
use libvhost_user.Vhost.Device.{Vring, VhostDev}
use libvhost_user.Vhost.MemTable.{Mmap}
use libvhost_user.Vhost.Handlers.{
  Answer, answer, reject, FdType, kick, call, err, on_vring, get_features, set_features,
  get_protocol_features, set_protocol_features, set_owner, reset_owner, handle_set_mem_table,
  get_queue_num, get_config, set_fd, set_vring_fd, watch_kick, watch_result, set_vring_kick,
}
use libvhost_user.Vhost.RingHandlers.{
  on_index, put_num, set_vring_num, put_addr, set_vring_addr, put_base, set_vring_base, take_base,
  get_vring_base, is_too_large, is_logged,
}
use libvhost_user.Vhost.Cases.{call_handler_elim}
use libvhost_user.Vhost.Dispatch.{call_handler}

-- The answer, if there is one, is as `P` says.
pub record Each (P : Answer → Type 0) (o : Option Answer) : Type 0 where
  pub each : (a : Answer) → o ≡ some a → P a

module _ (P : Answer → Type 0) where
  none-Each : Each P none
  none-Each = record { each = λ a e. absurd (ground arith) }

  some-Each : (a : Answer) → P a → Each P (some a)
  some-Each a p = record { each = λ b e. let same : a ≡ b = cc in subst {A = Answer} P same p }

  on_vring-Each :
      (dev : VhostDev) (i : ℕ) (f : Vring → Answer)
      → ((v : Vring) → get_elem? dev.vrings i ≡ some v → P (f v))
      → Each P (on_vring dev i f)
  on_vring-Each dev i f p = elim (Option-cases (get_elem? dev.vrings i)) [
    | inl t ↦ rw (on_vring, t) none-Each
    | inr (v, t) ↦ rw (on_vring, t) (some-Each (f v) (p v t))
  ]

  watch_result-Each :
      (i : ℕ) (o : Option Answer)
      → ((a : Answer) → P a → P (watch_kick a i))
      → Each P o
      → Each P (watch_result i o)
  unfolding watch_result
  watch_result-Each i none w k = none-Each
  watch_result-Each i (some a) w k = some-Each (watch_kick a i) (w a (k.each a refl))

  module _ (dev : VhostDev) (msg : Message) (refused : P (reject dev msg)) where
    on_index-Each :
        (sizeof : ℕ) (guard : Bool) (f : ℕ → Vring → Answer)
        → (guard ≡ false → (i : ℕ) (v : Vring) → get_elem? dev.vrings i ≡ some v → P (f i v))
        → Each P (on_index dev msg sizeof guard f)
    on_index-Each sizeof guard f p = by_if (Each P) (ltb msg.size sizeof) (some-Each _ refused) (
        by_if (Each P) (ltb dev.num_queues (get_vring_index msg)) (some-Each _ refused) (
          by_test (Each P) guard (λ _. some-Each _ refused)
            (λ g.
              on_vring-Each dev (get_vring_index msg) (f (get_vring_index msg))
                (p g (get_vring_index msg)))))

    set_vring_fd-Each :
        (t : FdType) (fds : ℕ → ℤ)
        → ((fd : ℤ) (i : ℕ) (v : Vring)
            → get_elem? dev.vrings i ≡ some v
            → P (set_fd t fd dev msg i v))
        → Each P (set_vring_fd t fds dev msg)
    unfolding set_vring_fd
    set_vring_fd-Each t fds p = by_if (Each P) (ltb msg.size sizeof_u64) (some-Each _ refused) (
        by_if (Each P) (leb dev.num_queues (get_u64 msg % 256)) (some-Each _ refused)
          (on_vring-Each dev (get_u64 msg % 256) _ (p _ (get_u64 msg % 256))))

-- The handlers that concern no vring, and the answer to a request that has no handler.
pub record EachQuiet (P : Answer → Type 0) (mmap : Mmap) (fds : ℕ → ℤ) (dev : VhostDev)
    (msg : Message) : Type 0 where
  pub by_get_features : P (get_features dev msg)
  pub by_set_features : P (set_features dev msg)
  pub by_set_owner : P (set_owner dev msg)
  pub by_reset_owner : P (reset_owner dev msg)
  pub by_set_mem_table : P (handle_set_mem_table mmap fds dev msg)
  pub by_get_protocol_features : P (get_protocol_features dev msg)
  pub by_set_protocol_features : msg.request ≡ 16 → P (set_protocol_features dev msg)
  pub by_get_queue_num : P (get_queue_num dev msg)
  pub by_get_config : P (get_config dev msg)
  pub by_none : P (answer enotsup dev msg)
  pub by_refusal : P (reject dev msg)

-- Those that concern a vring, at a vring that there is.
pub record EachVring (P : Answer → Type 0) (dev : VhostDev) (msg : Message) (i : ℕ) (v : Vring)
    : Type 0 where
  pub by_num : is_too_large msg ≡ false → P (put_num dev msg i v)
  pub by_addr : is_logged msg ≡ false → P (put_addr dev msg i v)
  pub by_base : P (put_base dev msg i v)
  pub by_take : P (take_base dev msg i v)
  pub by_fd : (t : FdType) (fd : ℤ) → P (set_fd t fd dev msg i v)

pub watch_kick-dev : (a : Answer) (i : ℕ) → (watch_kick a i).dev ≡ a.dev
unfolding watch_kick
watch_kick-dev a i = ground arith

-- What holds of the parts holds of the answer to any request.
pub call_handler-Each :
    (P : Answer → Type 0) (mmap : Mmap) (fds : ℕ → ℤ) (dev : VhostDev) (msg : Message)
    → EachQuiet P mmap fds dev msg
    → ((i : ℕ) (v : Vring) → get_elem? dev.vrings i ≡ some v → EachVring P dev msg i v)
    → ((a : Answer) (i : ℕ) → P a → P (watch_kick a i))
    → Each P (call_handler mmap fds dev msg)
unfolding set_vring_num set_vring_addr set_vring_base get_vring_base set_vring_kick
call_handler-Each P mmap fds dev msg q r w =
    let quiet = some-Each P in
    let state = on_index-Each P dev msg q.by_refusal in
    let fd = λ (t : FdType).
      set_vring_fd-Each P dev msg q.by_refusal t fds (λ x i v e. (r i v e).by_fd t x) in
    call_handler_elim (Each P) mmap fds dev msg (quiet _ q.by_get_features)
      (quiet _ q.by_set_features) (quiet _ q.by_set_owner) (quiet _ q.by_reset_owner)
      (quiet _ q.by_set_mem_table)
      (state sizeof_vring_state (is_too_large msg) (put_num dev msg)
        (λ g i v e. (r i v e).by_num g))
      (state sizeof_vring_address (is_logged msg) (put_addr dev msg)
        (λ g i v e. (r i v e).by_addr g))
      (state sizeof_vring_state false (put_base dev msg) (λ g i v e. (r i v e).by_base))
      (state sizeof_vring_state false (take_base dev msg) (λ g i v e. (r i v e).by_take))
      (watch_result-Each P (get_u64 msg % 256) (set_vring_fd kick fds dev msg)
        (λ a. w a (get_u64 msg % 256)) (fd kick))
      (fd call) (fd err) (quiet _ q.by_get_protocol_features)
      (λ e. quiet _ (q.by_set_protocol_features e)) (quiet _ q.by_get_queue_num)
      (quiet _ q.by_get_config) (quiet _ q.by_none)

-- The same for a property of the device that is left.
pub call_handler-EachDev :
    (Q : VhostDev → Type 0) (mmap : Mmap) (fds : ℕ → ℤ) (dev : VhostDev) (msg : Message)
    → EachQuiet (λ a. Q a.dev) mmap fds dev msg
    → ((i : ℕ) (v : Vring) → get_elem? dev.vrings i ≡ some v → EachVring (λ a. Q a.dev) dev msg i v)
    → Each (λ a. Q a.dev) (call_handler mmap fds dev msg)
call_handler-EachDev Q mmap fds dev msg q r =
    call_handler-Each (λ a. Q a.dev) mmap fds dev msg q r
      (λ a i p. subst {A = VhostDev} Q (sym (watch_kick-dev a i)) p)
