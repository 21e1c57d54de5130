-- ===== src/Vhost/Protocol.antt =====
-- include/vhost-protocol.h: messages and the constants of the protocol.
use libvhost_user.Base.{ℕ, ◌+◌, ◌*◌, ◌^◌, Bool, has_any}
use libvhost_user.Ram.{Ram, read32, read64, write32, write64}

abbrev pub max_fds : ℕ
max_fds = 8

-- Master message ids, of the requests that have a reply in any case
abbrev pub get_features_id : ℕ
get_features_id = 1

abbrev pub get_protocol_features_id : ℕ
get_protocol_features_id = 15

abbrev pub get_vring_base_id : ℕ
get_vring_base_id = 11

abbrev pub set_log_base_id : ℕ
set_log_base_id = 6

abbrev pub get_inflight_fd_id : ℕ
get_inflight_fd_id = 31

abbrev pub get_queue_num_id : ℕ
get_queue_num_id = 17

abbrev pub get_config_id : ℕ
get_config_id = 24

abbrev pub max_config_size : ℕ
max_config_size = 256

-- Feature bits, of vhost and of include/virtio/virtio10.h
abbrev pub f_protocol_features : ℕ
f_protocol_features = 30

abbrev pub f_indirect_desc : ℕ
f_indirect_desc = 28

abbrev pub f_event_idx : ℕ
f_event_idx = 29

abbrev pub f_version_1 : ℕ
f_version_1 = 32

abbrev pub protocol_f_mq : ℕ
protocol_f_mq = 0

abbrev pub protocol_f_reply_ack : ℕ
protocol_f_reply_ack = 3

abbrev pub protocol_f_config : ℕ
protocol_f_config = 9

abbrev pub protocol_f_reset_device : ℕ
protocol_f_reset_device = 13

abbrev pub supported_features : ℕ
supported_features =
    2 ^ f_protocol_features + 2 ^ f_indirect_desc + 2 ^ f_event_idx + 2 ^ f_version_1

abbrev pub supported_protocol_features : ℕ
supported_protocol_features =
    2 ^ protocol_f_mq
    + 2 ^ protocol_f_reply_ack
    + 2 ^ protocol_f_config
    + 2 ^ protocol_f_reset_device

-- Message flags
abbrev pub message_f_reply : ℕ
message_f_reply = 2

abbrev pub message_f_reply_ack : ℕ
message_f_reply_ack = 3

abbrev pub vring_f_log : ℕ
vring_f_log = 0

unfoldable pub has_feature : ℕ → ℕ → Bool
has_feature features fbit = has_any features (2 ^ fbit)

-- `struct vhost_user_message`: the header, and the bytes of the union behind it, which start at 0.
pub record Message : Type 0 where
  pub request : ℕ
  pub flags : ℕ
  pub size : ℕ
  pub payload : Ram

-- The sizes of the members of the union.
abbrev pub sizeof_u64 : ℕ
sizeof_u64 = 8

abbrev pub sizeof_vring_state : ℕ
sizeof_vring_state = 8

abbrev pub sizeof_vring_address : ℕ
sizeof_vring_address = 40

-- `device_config_space` without its data, which is also where the data start
abbrev pub sizeof_config_header : ℕ
sizeof_config_header = 12

unfoldable pub get_u64 : Message → ℕ
get_u64 msg = read64 msg.payload 0

unfoldable pub set_u64 : Message → ℕ → Message
set_u64 msg v = record msg { payload = write64 msg.payload 0 v }

-- `vring_state`, whose index is also that of `vring_address`
unfoldable pub get_vring_index : Message → ℕ
get_vring_index msg = read32 msg.payload 0

unfoldable pub get_num : Message → ℕ
get_num msg = read32 msg.payload 4

unfoldable pub set_num : Message → ℕ → Message
set_num msg v = record msg { payload = write32 msg.payload 4 v }

-- `vring_address`
unfoldable pub get_address_flags : Message → ℕ
get_address_flags msg = read32 msg.payload 4

unfoldable pub get_descriptor : Message → ℕ
get_descriptor msg = read64 msg.payload 8

unfoldable pub get_used : Message → ℕ
get_used msg = read64 msg.payload 16

unfoldable pub get_available : Message → ℕ
get_available msg = read64 msg.payload 24

-- `device_config_space`
unfoldable pub get_config_offset : Message → ℕ
get_config_offset msg = read32 msg.payload 0

unfoldable pub get_config_size : Message → ℕ
get_config_size msg = read32 msg.payload 4

-- `struct vhost_user_mem_region`, and those of `mem_regions`
pub record MemRegion : Type 0 where
  pub guest_addr : ℕ
  pub size : ℕ
  pub user_addr : ℕ
  pub mmap_offset : ℕ

unfoldable pub get_num_regions : Message → ℕ
get_num_regions msg = read32 msg.payload 0

unfoldable pub get_region : Message → ℕ → MemRegion
get_region msg i =
    let p = 8 + 32 * i in
    record {
      guest_addr = read64 msg.payload p;
      size = read64 msg.payload (p + 8);
      user_addr = read64 msg.payload (p + 16);
      mmap_offset = read64 msg.payload (p + 24);
    }
