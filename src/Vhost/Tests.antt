-- ===== src/Vhost/Tests.antt =====
-- The vhost protocol at a device with one queue.
use libvhost_user.Base.{
  ◌≤◌, ◌≡◌, ◌⊎◌, refl, true, false, none, some, [], ◌∷◌, arith, length, is_neg, map, ◌<◌, ◌+◌,
}
use libvhost_user.Base.{pos as ok}
use libvhost_user.Ram.{write32, write64}
use libvhost_user.System.{add_fd, close, del_fd, munmap}
use libvhost_user.Blk.Device.{VirtioBlk, blk_init, vblk_get_config}
use libvhost_user.Virtqueue.Fixture.{base}
use libvhost_user.Vhost.Protocol.{
  Message, MemRegion, get_num_regions, get_region, get_vring_index, set_u64, get_config_offset,
}
use libvhost_user.Vhost.Device.{VhostDev}
use libvhost_user.Vhost.Ring.{close_fd_calls, vring_reset}
use libvhost_user.Vhost.MemTable.{unmap_calls, reset_memory_map}
use libvhost_user.Vhost.Handlers.{set_owner, get_queue_num}
use libvhost_user.Vhost.Dispatch.{
  reset_vrings, drop_connection, vhost_reset_dev, call_handler, message_assumes_reply,
  must_reply_ack, Handled, send_reply, finish_message, finish_result, handle_message, reset_after,
}
use libvhost_user.Vhost.Event.{Received, register_device_server, on_read_avail}
use libvhost_user.Vhost.Reset.{IsFresh, IsGivenBack, vhost_reset_dev-IsFresh, settings}
use libvhost_user.Vhost.Sized.{IsDev}
use libvhost_user.Vhost.Reply.{IsReplied, handle_message-IsReplied}
use libvhost_user.Vhost.Config.{IsRoomy, IsDisk, IsTold, handle_message-config}
use libvhost_user.Vhost.Register.{zero_closed, IsRegistered, register_device_server-IsRegistered}
use libvhost_user.Vhost.Fixture.{nic, dev, message, can_send, mmap, fds, owner, ring}

dev-IsDev : IsDev dev
dev-IsDev = record { counted = refl; sized = (omega arith, tt) }

reset_calls :
    (vhost_reset_dev dev).1
    ≡ del_fd (ok 4)
      ∷ close (ok 4)
      ∷ del_fd (ok 7)
      ∷ close (ok 7)
      ∷ close (ok 8)
      ∷ munmap base 65536
      ∷ []
unfolding vhost_reset_dev drop_connection reset_vrings vring_reset close_fd_calls reset_memory_map
    unmap_calls
reset_calls = refl

vhost_reset_dev-IsFresh_example :
    let (dev', calls) = vhost_reset_dev dev in
    IsFresh dev'
    × IsGivenBack dev calls
    × (length dev'.vrings ≡ 1)
    × (dev'.num_queues ≡ 1)
    × (dev'.vdev ≡ nic)
    × (map settings dev'.vrings ≡ settings ring ∷ [])
vhost_reset_dev-IsFresh_example = vhost_reset_dev-IsFresh dev

-- SET_VRING_NUM for the vring 1 of a device that has one.
abbrev one_past : Message
one_past = message 8 8 (write32 (write32 (λ _. 0) 0 1) 4 256)

abbrev one_past_read : Received
one_past_read = record owner { body = ok 8; msg = one_past }

abbrev owned : Handled
owned = record { dev = record dev { session_started = true }; reply = none; calls = [] }

owner_set : on_read_avail mmap can_send dev owner ≡ some owned
unfolding on_read_avail handle_message call_handler finish_result finish_message set_owner
    message_assumes_reply must_reply_ack libvhost_user.Vhost.Protocol.has_feature
owner_set = refl

-- GET_QUEUE_NUM, its reply, and what it leaves.
abbrev asked : Message
asked = message 17 0 (λ _. 0)

abbrev told_num : Message
told_num = record { request = 17; flags = 5; size = 8; payload = write64 (λ _. 0) 0 1 }

queue_num_told :
    handle_message mmap can_send fds dev asked
    ≡ some (record { dev = dev; reply = some told_num; calls = [] })
unfolding handle_message call_handler finish_result finish_message send_reply can_send get_queue_num
    set_u64 message_assumes_reply must_reply_ack
queue_num_told = refl

handle_message-IsReplied_example :
    IsReplied mmap fds dev asked (record { dev = dev; reply = some told_num; calls = [] })
handle_message-IsReplied_example =
    handle_message-IsReplied mmap can_send fds dev asked
      (record { dev = dev; reply = some told_num; calls = [] }) queue_num_told

register_device_server-IsRegistered_example :
    let call = register_device_server (ok 3) 1 nic in
    ((is_neg (ok 3) ≡ true) × (call ≡ (none, [])))
    ⊎ ((d : VhostDev) × (is_neg (ok 3) ≡ false)
        × (call ≡ (some d, add_fd (ok 3) ∷ zero_closed 1))
        × IsRegistered (ok 3) 1 nic d)
register_device_server-IsRegistered_example = register_device_server-IsRegistered (ok 3) 1 nic

-- A disk of eight sectors, and GET_CONFIG of its 40 bytes.
abbrev disk : VirtioBlk
disk = record {
  vdev = nic;
  total_sectors = 8;
  block_size = 512;
  readonly = false;
  writeback = false;
}

abbrev disk_dev : VhostDev
disk_dev = record dev { vdev = (blk_init disk).1.vdev }

abbrev config_asked : Received
config_asked = record {
  header_ok = true;
  control_ok = true;
  body = ok 52;
  msg = message 24 52 (write32 (λ _. 0) 4 40);
  fds = fds;
}

abbrev config_told : Message
config_told = record {
  request = 24;
  flags = 5;
  size = 52;
  payload = vblk_get_config disk (write32 (λ _. 0) 4 40) 12;
}

disk_is : IsDisk disk disk_dev.vdev
disk_is = record {
  initialised = unfold blk_init in refl;
  features = 0;
  is_disk = unfold blk_init in refl;
}

handle_message-config_example :
    let msg = config_asked.msg in
    let sent = λ (m : Message).
      handle_message mmap can_send fds disk_dev msg ≡ some (send_reply can_send disk_dev m []) in
    let whole = 12 + get_config_offset msg + 40 in
    (IsRoomy msg × (whole ≤ msg.size) × ((m : Message) × sent m × IsTold disk msg m))
    ⊎ ((IsRoomy msg × (msg.size < whole) × ((m : Message) × sent m × (m.size < whole)))
        ⊎ ((¬ IsRoomy msg)
            × (handle_message mmap can_send fds disk_dev msg
                ≡ some (reset_after disk_dev none []))))
handle_message-config_example =
    handle_message-config disk disk_dev config_asked.msg disk_is (omega arith) (omega arith) mmap
      can_send fds refl
