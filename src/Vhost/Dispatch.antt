-- ===== src/Vhost/Dispatch.antt =====
-- The dispatch of vhost.c: `handle_message` with its replies, and `vhost_reset_dev`.
use libvhost_user.Base.{
  ℕ, zero, suc, ◌+◌, ◌-◌, ◌^◌, Bool, false, ◌&&◌, ◌||◌, Option, none, some, List, [], ◌∷◌, ◌++◌,
  ltb, ◌==◌, if◌then◌else◌, ℤ, is_neg, minus_one, enotsup, negsuc, u64_mod,
}
use libvhost_user.Base.{pos as ok}
use libvhost_user.System.{Call, close, del_fd}
use libvhost_user.Vhost.Protocol.{
  get_features_id, get_protocol_features_id, get_vring_base_id, set_log_base_id, get_inflight_fd_id,
  get_queue_num_id, get_config_id, Message, protocol_f_reply_ack, message_f_reply,
  message_f_reply_ack, has_feature, set_u64, sizeof_u64,
}
use libvhost_user.Vhost.Device.{Vring, VhostDev}
use libvhost_user.Vhost.Ring.{vring_reset}
use libvhost_user.Vhost.MemTable.{Mmap, reset_memory_map}
use libvhost_user.Vhost.Handlers.{
  Answer, answer, get_features, set_features, get_protocol_features, set_protocol_features,
  set_owner, reset_owner, handle_set_mem_table, get_queue_num, get_config, call, err, set_vring_fd,
  set_vring_kick,
}
use libvhost_user.Vhost.RingHandlers.{set_vring_num, set_vring_addr, set_vring_base, get_vring_base}

-- The loop of `vhost_reset_dev` over the vrings.
unfoldable pub reset_vrings : (has_protocol_features : Bool) → List Vring → List Vring × List Call
reset_vrings has [] = ([], [])
reset_vrings has (vring ∷ rest) =
    let (vring', calls) = vring_reset has vring in
    let (rest', calls') = reset_vrings has rest in (vring' ∷ rest', calls ++ calls')

-- `drop_connection`; the device is connected.
unfoldable pub drop_connection : VhostDev → VhostDev × List Call
drop_connection dev = (record dev { connfd = minus_one }, del_fd dev.connfd ∷ close dev.connfd ∷ [])

unfoldable pub vhost_reset_dev : VhostDev → VhostDev × List Call
vhost_reset_dev dev =
    let (dev1, calls1) = drop_connection dev in
    let (vrings, calls2) = reset_vrings false dev1.vrings in
    let (dev2, calls3) = reset_memory_map (record dev1 {
      has_protocol_features = false;
      negotiated_protocol_features = 0;
      session_started = false;
      vrings = vrings;
    }) in
    (dev2, calls1 ++ calls2 ++ calls3)

abbrev pub num_handlers : ℕ
num_handlers = 41

-- A call of `handler_tbl[request]`, for a request below 41. An entry that is NULL is -ENOTSUP, and
-- `none` is an access outside of an array.
unfoldable pub call_handler : Mmap → (ℕ → ℤ) → VhostDev → Message → Option Answer
call_handler mmap fds dev msg =
    if msg.request == 1
    then some (get_features dev msg)
    else if msg.request == 2
    then some (set_features dev msg)
    else if msg.request == 3
    then some (set_owner dev msg)
    else if msg.request == 4
    then some (reset_owner dev msg)
    else if msg.request == 5
    then some (handle_set_mem_table mmap fds dev msg)
    else if msg.request == 8
    then set_vring_num dev msg
    else if msg.request == 9
    then set_vring_addr dev msg
    else if msg.request == 10
    then set_vring_base dev msg
    else if msg.request == 11
    then get_vring_base dev msg
    else if msg.request == 12
    then set_vring_kick fds dev msg
    else if msg.request == 13
    then set_vring_fd call fds dev msg
    else if msg.request == 14
    then set_vring_fd err fds dev msg
    else if msg.request == 15
    then some (get_protocol_features dev msg)
    else if msg.request == 16
    then some (set_protocol_features dev msg)
    else if msg.request == 17
    then some (get_queue_num dev msg)
    else if msg.request == 24
    then some (get_config dev msg)
    else some (answer enotsup dev msg)

-- Those message types have a reply by default.
unfoldable pub message_assumes_reply : Message → Bool
message_assumes_reply msg =
    msg.request == get_features_id
    || msg.request == get_protocol_features_id
    || msg.request == get_vring_base_id
    || msg.request == set_log_base_id
    || msg.request == get_inflight_fd_id
    || msg.request == get_queue_num_id
    || msg.request == get_config_id

unfoldable pub must_reply_ack : VhostDev → Message → Bool
must_reply_ack dev msg =
    has_feature dev.negotiated_protocol_features protocol_f_reply_ack
    && has_feature msg.flags message_f_reply_ack

-- What a message leads to: the device, the reply that `sendmsg` was called for, and the calls.
pub record Handled : Type 0 where
  pub dev : VhostDev
  pub reply : Option Message
  pub calls : List Call

unfoldable pub reset_after : VhostDev → Option Message → List Call → Handled
reset_after dev reply calls =
    let (dev', calls') = vhost_reset_dev dev in
    record { dev = dev'; reply = reply; calls = calls ++ calls' }

-- `sendmsg` works for the messages for which `can_send` says so.
unfoldable pub send_reply : (can_send : Message → Bool) → VhostDev → Message → List Call → Handled
send_reply can_send dev msg calls =
    let reply = record msg { flags = 1 + 2 ^ message_f_reply } in
    if can_send reply
    then record { dev = dev; reply = some reply; calls = calls }
    else reset_after dev (some reply) calls

-- `-res` as a 64-bit number
abbrev pub ack_value : ℤ → ℕ
ack_value (ok zero) = 0
ack_value (ok (suc n)) = u64_mod - suc n
ack_value (negsuc n) = suc n

abbrev pub ack_reply : Answer → Message
ack_reply a = record (set_u64 a.msg (ack_value a.res)) { size = sizeof_u64 }

-- `handle_message` behind the call of the handler.
unfoldable pub finish_message : (can_send : Message → Bool) → Answer → Handled
finish_message can_send a =
    if is_neg a.res
    then reset_after a.dev none a.calls
    else if message_assumes_reply a.msg
    then send_reply can_send a.dev a.msg a.calls
    else if must_reply_ack a.dev a.msg
    then send_reply can_send a.dev (ack_reply a) a.calls
    else record { dev = a.dev; reply = none; calls = a.calls }

unfoldable pub finish_result : (can_send : Message → Bool) → Option Answer → Option Handled
finish_result can_send none = none
finish_result can_send (some a) = some (finish_message can_send a)

-- `none` is an access outside of an array: of the vrings, or of the table of handlers.
unfoldable pub handle_message :
    Mmap → (can_send : Message → Bool) → (ℕ → ℤ) → VhostDev → Message → Option Handled
handle_message mmap can_send fds dev msg =
    if msg.request == 0 || ltb num_handlers msg.request
    then some (reset_after dev none [])
    else if msg.request == num_handlers
    then none
    else finish_result can_send (call_handler mmap fds dev msg)
