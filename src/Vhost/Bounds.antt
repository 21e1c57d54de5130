-- ===== src/Vhost/Bounds.antt =====
-- Which messages make the code go outside of its arrays.
use libvhost_user.Base.{pos as ok}
use libvhost_user.Vhost.Event.{Received, as_u32}
use libvhost_user.Virtqueue.Layout.{max_size}
use libvhost_user.Base.{ℕ, ◌≤◌, ◌<◌, ◌≡◌, ◌≢◌, ◌⊎◌, ◌==◌, if◌then◌else◌, ℤ, false}
use libvhost_user.Vhost.Protocol.{
  Message, sizeof_vring_state, sizeof_vring_address, get_vring_index, get_num, has_feature,
  get_address_flags, vring_f_log,
}
use libvhost_user.Vhost.Device.{VhostDev}

-- The size that the handler of a vring request asks for.
abbrev pub asked_size : ℕ → ℕ
asked_size request = if request == 9 then sizeof_vring_address else sizeof_vring_state

-- The vring requests SET_VRING_NUM, SET_VRING_ADDR, SET_VRING_BASE and GET_VRING_BASE.
abbrev pub IsVringRequest : ℕ → Type 0
IsVringRequest request = (8 ≤ request) × (request ≤ 11)

-- What such a request says lets it through: no size above 32768, and no logging.
abbrev pub IsLetThrough : Message → Type 0
IsLetThrough msg =
    (msg.request ≡ 8 → get_num msg ≤ max_size)
    × (msg.request ≡ 9 → has_feature (get_address_flags msg) vring_f_log ≡ false)

-- Request 41 is one past the table of handlers. A vring request is for the vring one past the last.
abbrev pub IsWild : VhostDev → Message → Type 0
IsWild dev msg =
    (msg.request ≡ 41)
    ⊎ (IsVringRequest msg.request
        × (asked_size msg.request ≤ msg.size)
        × (get_vring_index msg ≡ dev.num_queues)
        × IsLetThrough msg)

-- `recv` has put more than the 272 bytes of the message buffer into it.
abbrev pub IsLong : ℤ → Type 0
IsLong body = (n : ℕ) × (body ≡ ok n) × (272 < n)

abbrev pub IsOverrun : Received → Type 0
IsOverrun r = (r.msg.size ≢ 0) × IsLong r.body

-- There is no body, or its length, as a 32-bit number, is what the header says.
abbrev pub IsWhole : Received → Type 0
IsWhole r = (r.msg.size ≡ 0) ⊎ ((¬ IsLong r.body) × (as_u32 r.body ≡ r.msg.size))
