-- ===== src/Vhost/Handlers.antt =====
-- The request handlers of vhost.c.
use libvhost_user.Base.{
  ℕ, ◌+◌, ◌-◌, ◌%◌, ◌^◌, true, not, ◌||◌, Option, none, some, List, [], ◌∷◌, ◌++◌, ltb, leb, ◌==◌,
  if◌then◌else◌, has_any, bit_or, bit_and, ℤ, ◌==ℤ◌, minus_one, set, get_elem?,
}
use libvhost_user.Base.{pos as ok}
use libvhost_user.System.{Call, add_fd}
use libvhost_user.Vdev.{dev_get_config, dev_set_features}
use libvhost_user.Vhost.Protocol.{
  Message, max_config_size, f_protocol_features, supported_features, supported_protocol_features,
  has_feature, sizeof_u64, sizeof_config_header, get_u64, set_u64, get_config_offset,
  get_config_size,
}
use libvhost_user.Vhost.Device.{Vring, VhostDev}
use libvhost_user.Vhost.Ring.{close_fd_calls}
use libvhost_user.Vhost.MemTable.{Mmap, set_mem_table}

-- What a handler leaves: its result, the device, the message buffer with a reply, if any, and the
-- calls it made.
pub record Answer : Type 0 where
  pub res : ℤ
  pub dev : VhostDev
  pub msg : Message
  pub calls : List Call

abbrev pub answer : ℤ → VhostDev → Message → Answer
answer res dev msg = record { res = res; dev = dev; msg = msg; calls = [] }

-- `return -1`
abbrev pub reject : VhostDev → Message → Answer
reject dev msg = answer minus_one dev msg

abbrev pub reply_u64 : VhostDev → Message → ℕ → Answer
reply_u64 dev msg v = answer (ok 0) dev (record (set_u64 msg v) { size = sizeof_u64 })

unfoldable pub get_features : VhostDev → Message → Answer
get_features dev msg = reply_u64 dev msg (bit_or supported_features dev.vdev.supported_features)

-- `features & ~(1ull << bit)`
abbrev pub clear_feature : ℕ → ℕ → ℕ
clear_feature features bit = features - bit_and features (2 ^ bit)

unfoldable pub set_features : VhostDev → Message → Answer
set_features dev msg =
    let features = get_u64 msg in
    let has = dev.has_protocol_features || has_feature features f_protocol_features in
    let msg' = set_u64 msg (clear_feature features f_protocol_features) in
    let (res, vdev) = dev_set_features dev.vdev (get_u64 msg') in
    if ltb msg.size sizeof_u64
    then reject dev msg
    else answer res (record dev { has_protocol_features = has; vdev = vdev }) msg'

unfoldable pub get_protocol_features : VhostDev → Message → Answer
get_protocol_features dev msg = reply_u64 dev msg supported_protocol_features

-- `features & ~VHOST_SUPPORTED_PROTOCOL_FEATURES`
abbrev pub unsupported_bits : ℕ → ℕ
unsupported_bits features = features - bit_and features supported_protocol_features

unfoldable pub set_protocol_features : VhostDev → Message → Answer
set_protocol_features dev msg =
    if ltb msg.size sizeof_u64
    then reject dev msg
    else if not (unsupported_bits (get_u64 msg) == 0)
    then reject dev msg
    else answer (ok 0) (record dev { negotiated_protocol_features = get_u64 msg }) msg

unfoldable pub set_owner : VhostDev → Message → Answer
set_owner dev msg =
    if dev.session_started
    then reject dev msg
    else answer (ok 0) (record dev { session_started = true }) msg

unfoldable pub reset_owner : VhostDev → Message → Answer
reset_owner dev msg = answer (ok 0) dev msg

unfoldable pub handle_set_mem_table : Mmap → (ℕ → ℤ) → VhostDev → Message → Answer
handle_set_mem_table mmap fds dev msg =
    let (res, dev', calls) = set_mem_table mmap msg fds dev in
    record { res = res; dev = dev'; msg = msg; calls = calls }

unfoldable pub get_queue_num : VhostDev → Message → Answer
get_queue_num dev msg = reply_u64 dev msg dev.num_queues

unfoldable pub get_config : VhostDev → Message → Answer
get_config dev msg =
    let size = get_config_size msg in
    let offset = get_config_offset msg in
    let (res, payload) =
      dev_get_config dev.vdev msg.payload (sizeof_config_header + offset) (size - offset) in
    if ltb msg.size sizeof_config_header
    then reject dev msg
    else if ltb size offset || ltb max_config_size size
    then reject dev msg
    else answer res dev (record msg { payload = payload })

pub data FdType : Type 0 where
  kick call err : FdType

abbrev pub fd_of : FdType → Vring → ℤ
fd_of kick vring = vring.kickfd
fd_of call vring = vring.callfd
fd_of err vring = vring.errfd

abbrev pub with_fd : FdType → ℤ → Vring → Vring
with_fd kick fd vring = record vring { kickfd = fd }
with_fd call fd vring = record vring { callfd = fd }
with_fd err fd vring = record vring { errfd = fd }

abbrev pub with_vring : VhostDev → ℕ → Vring → VhostDev
with_vring dev i vring = record dev { vrings = set dev.vrings i vring }

-- `set_vring_fd` behind the lookup of the vring, which has the index `i`.
unfoldable pub set_fd : FdType → (fd : ℤ) → VhostDev → Message → (i : ℕ) → Vring → Answer
set_fd fdtype fd dev msg i vring = if vring.is_started then reject dev msg else record {
  res = ok 0;
  dev = with_vring dev i (with_fd fdtype fd vring);
  msg = msg;
  calls = close_fd_calls vring (fd_of fdtype vring);
}

-- A handler for one vring: `none` is an access outside of the array.
abbrev pub on_vring : VhostDev → ℕ → (Vring → Answer) → Option Answer
on_vring dev i f = elim (get_elem? dev.vrings i) [ none ↦ none | some vring ↦ some (f vring) ]

unfoldable pub set_vring_fd : FdType → (ℕ → ℤ) → VhostDev → Message → Option Answer
set_vring_fd fdtype fds dev msg =
    let vring_idx = get_u64 msg % 256 in
    let fd = if has_any (get_u64 msg) (2 ^ 8) then minus_one else fds 0 in
    if ltb msg.size sizeof_u64
    then some (reject dev msg)
    else if leb dev.num_queues vring_idx
    then some (reject dev msg)
    else on_vring dev vring_idx (set_fd fdtype fd dev msg vring_idx)

-- `set_vring_kick` behind `set_vring_fd`: the new descriptor is watched.
unfoldable pub watch_kick : Answer → ℕ → Answer
watch_kick a i = elim (get_elem? a.dev.vrings i) [
  | none ↦ a
  | some vring ↦
      if not (a.res ==ℤ ok 0) || vring.kickfd ==ℤ minus_one
      then a
      else record a { calls = a.calls ++ add_fd vring.kickfd ∷ [] }
]

unfoldable pub watch_result : ℕ → Option Answer → Option Answer
watch_result i none = none
watch_result i (some a) = some (watch_kick a i)

unfoldable pub set_vring_kick : (ℕ → ℤ) → VhostDev → Message → Option Answer
set_vring_kick fds dev msg = watch_result (get_u64 msg % 256) (set_vring_fd kick fds dev msg)
