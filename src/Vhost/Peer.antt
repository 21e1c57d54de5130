-- ===== src/Vhost/Peer.antt =====
-- A device whose vrings are watched is connected.
use libvhost_user.Base.{
  ℕ, ◌+◌, ◌^◌, ◌≡◌, refl, ap, subst, ◌∙◌, Bool, false, Option, none, some, List, [], ◌∷◌, ℤ, arith,
  inl, inr, Bool-cases, All, is_neg, minus_one,
}
use libvhost_user.System.{Call}
use libvhost_user.Vhost.Protocol.{Message, message_f_reply}
use libvhost_user.Vhost.Device.{Vring, VhostDev}
use libvhost_user.Vhost.MemTable.{Mmap}
use libvhost_user.Vhost.Handlers.{Answer}
use libvhost_user.Vhost.Dispatch.{
  vhost_reset_dev, call_handler, message_assumes_reply, must_reply_ack, Handled, reset_after,
  ack_reply, send_reply, finish_message, finish_result, handle_message,
}
use libvhost_user.Vhost.Event.{Received, on_read_avail}
use libvhost_user.Vhost.Reset.{IsIdle, vhost_reset_dev-IsFresh}
use libvhost_user.Vhost.Every.{Each}
use libvhost_user.Vhost.Connected.{connected, unwatched, HasPeer, HasFd, call_handler-HasFd}

pub idle-All : (vs : List Vring) → All IsIdle vs → All (λ (v : Vring). v.kickfd ≡ minus_one) vs
idle-All [] all = tt
idle-All (v ∷ vs) (i, all) = (i.no_kickfd, idle-All vs all)

-- A reset leaves no vring that is watched.
pub vhost_reset_dev-HasPeer : (dev : VhostDev) → HasPeer (vhost_reset_dev dev).0
vhost_reset_dev-HasPeer dev =
    unwatched (idle-All (vhost_reset_dev dev).0.vrings (vhost_reset_dev-IsFresh dev).0.vrings_idle)

reset_after-HasPeer :
    (dev : VhostDev) (reply : Option Message) (calls : List Call)
    → HasPeer (reset_after dev reply calls).dev
unfolding reset_after
reset_after-HasPeer dev reply calls = vhost_reset_dev-HasPeer dev

send_reply-HasPeer :
    (can_send : Message → Bool) (dev : VhostDev) (msg : Message) (calls : List Call)
    → HasPeer dev
    → HasPeer (send_reply can_send dev msg calls).dev
unfolding send_reply
send_reply-HasPeer can_send dev msg calls p =
    elim (Bool-cases (can_send (record msg { flags = 1 + 2 ^ message_f_reply }))) [
      | inl t ↦ rw t p
      | inr t ↦ rw t (reset_after-HasPeer dev _ calls)
    ]

finish_message-HasPeer :
    (can_send : Message → Bool) (a : Answer)
    → HasPeer a.dev
    → HasPeer (finish_message can_send a).dev
unfolding finish_message
finish_message-HasPeer can_send a p = elim (Bool-cases (is_neg a.res)) [
  | inl t ↦ rw t (reset_after-HasPeer a.dev none a.calls)
  | inr t ↦ elim (Bool-cases (message_assumes_reply a.msg)) [
    | inl u ↦ rw (t, u) (send_reply-HasPeer can_send a.dev a.msg a.calls p)
    | inr u ↦ elim (Bool-cases (must_reply_ack a.dev a.msg)) [
      | inl x ↦ rw (t, u, x) (send_reply-HasPeer can_send a.dev (ack_reply a) a.calls p)
      | inr x ↦ rw (t, u, x) p
    ]
  ]
]

finish_result-HasPeer :
    (can_send : Message → Bool) (fd : ℤ) (o : Option Answer) (h : Handled)
    → is_neg fd ≡ false
    → Each (λ a. HasFd fd a.dev) o
    → finish_result can_send o ≡ some h
    → HasPeer h.dev
unfolding finish_result
finish_result-HasPeer can_send fd none h p k e = absurd (ground arith)
finish_result-HasPeer can_send fd (some a) h p k e =
    let same : finish_message can_send a ≡ h = cc in
    subst {A = Handled} (λ x. HasPeer x.dev) same
      (finish_message-HasPeer can_send a (connected (ap is_neg (k.each a refl) ∙ p)))

reset_result-HasPeer :
    (dev : VhostDev) (h : Handled) → some (reset_after dev none []) ≡ some h → HasPeer h.dev
reset_result-HasPeer dev h e =
    let same : reset_after dev none [] ≡ h = cc in
    subst {A = Handled} (λ x. HasPeer x.dev) same (reset_after-HasPeer dev none [])

handle_message-HasPeer :
    (mmap : Mmap) (can_send : Message → Bool) (fds : ℕ → ℤ) (dev : VhostDev) (msg : Message)
    (h : Handled)
    → is_neg dev.connfd ≡ false
    → handle_message mmap can_send fds dev msg ≡ some h
    → HasPeer h.dev
unfolding handle_message
handle_message-HasPeer mmap can_send fds dev msg h p e = ground (
  arith,
  e,
  reset_result-HasPeer dev h,
  finish_result-HasPeer can_send dev.connfd (call_handler mmap fds dev msg) h p
      (call_handler-HasFd mmap fds dev msg),
)

-- A message of a client that is connected leaves a device that is connected, or that watches nothing.
pub on_read_avail-HasPeer :
    (mmap : Mmap) (can_send : Message → Bool) (dev : VhostDev) (r : Received) (h : Handled)
    → is_neg dev.connfd ≡ false
    → on_read_avail mmap can_send dev r ≡ some h
    → HasPeer h.dev
unfolding on_read_avail
on_read_avail-HasPeer mmap can_send dev r h p e =
    ground (
      arith,
      e,
      reset_result-HasPeer dev h,
      handle_message-HasPeer mmap can_send r.fds dev r.msg h p,
    )
