-- ===== src/Vhost/Invariant.antt =====
-- The invariant of a device over whole messages, resets and registration.
use libvhost_user.Base.{
  ℕ, zero, suc, ◌≡◌, refl, ap, sym, subst, ◌∙◌, Bool, false, Option, none, some, List, [], ◌∷◌, ℤ,
  arith, length, All,
}
use libvhost_user.System.{Call}
use libvhost_user.Vdev.{VirtioDev}
use libvhost_user.Vhost.Protocol.{Message}
use libvhost_user.Vhost.Device.{Vring, VhostDev}
use libvhost_user.Vhost.Ring.{vring_reset}
use libvhost_user.Vhost.MemTable.{Mmap, reset_memory_map}
use libvhost_user.Vhost.Handlers.{Answer}
use libvhost_user.Vhost.Dispatch.{
  reset_vrings, drop_connection, vhost_reset_dev, call_handler, Handled, reset_after, ack_reply,
  send_reply, finish_message, finish_result, handle_message,
}
use libvhost_user.Vhost.Event.{zeroed_vrings, register_device_server, Received, on_read_avail}
use libvhost_user.Vhost.Every.{Each}
use libvhost_user.Vhost.Sized.{IsSized, IsDev}
use libvhost_user.Vhost.Keep.{call_handler-IsDev}

reset_vrings-IsSized :
    (has : Bool) (vrings : List Vring)
    → All IsSized vrings
    → All IsSized (reset_vrings has vrings).0
unfolding reset_vrings vring_reset
reset_vrings-IsSized has [] all = tt
reset_vrings-IsSized has (v ∷ vs) (p, all) = (p, reset_vrings-IsSized has vs all)

reset_vrings-length :
    (has : Bool) (vrings : List Vring) → length (reset_vrings has vrings).0 ≡ length vrings
unfolding reset_vrings
reset_vrings-length has [] = refl
reset_vrings-length has (v ∷ vs) = ap suc (reset_vrings-length has vs)

pub vhost_reset_dev-IsDev : (dev : VhostDev) → IsDev dev → IsDev (vhost_reset_dev dev).0
unfolding vhost_reset_dev drop_connection reset_memory_map
vhost_reset_dev-IsDev dev d = record {
  counted = reset_vrings-length false dev.vrings ∙ d.counted;
  sized = reset_vrings-IsSized false dev.vrings d.sized;
}

reset_after-IsDev :
    (dev : VhostDev) (reply : Option Message) (calls : List Call)
    → IsDev dev
    → IsDev (reset_after dev reply calls).dev
unfolding reset_after
reset_after-IsDev dev reply calls d = vhost_reset_dev-IsDev dev d

send_reply-IsDev :
    (can_send : Message → Bool) (dev : VhostDev) (msg : Message) (calls : List Call)
    → IsDev dev
    → IsDev (send_reply can_send dev msg calls).dev
unfolding send_reply
send_reply-IsDev can_send dev msg calls d =
    ground (arith, d, reset_after-IsDev dev (some (record msg { flags = 5 })) calls d)

finish_message-IsDev :
    (can_send : Message → Bool) (a : Answer) → IsDev a.dev → IsDev (finish_message can_send a).dev
unfolding finish_message
finish_message-IsDev can_send a d = ground (
  arith,
  d,
  reset_after-IsDev a.dev none a.calls d,
  send_reply-IsDev can_send a.dev a.msg a.calls d,
  send_reply-IsDev can_send a.dev (ack_reply a) a.calls d,
)

finish_result-IsDev :
    (can_send : Message → Bool) (o : Option Answer) (h : Handled)
    → Each (λ a. IsDev a.dev) o
    → finish_result can_send o ≡ some h
    → IsDev h.dev
unfolding finish_result
finish_result-IsDev can_send none h k e = absurd (ground arith)
finish_result-IsDev can_send (some a) h k e =
    let same : finish_message can_send a ≡ h = cc in
    subst {A = Handled} (λ x. IsDev x.dev) same (finish_message-IsDev can_send a (k.each a refl))

reset_result-IsDev :
    (dev : VhostDev) (h : Handled)
    → IsDev dev
    → some (reset_after dev none []) ≡ some h
    → IsDev h.dev
reset_result-IsDev dev h d e =
    let same : reset_after dev none [] ≡ h = cc in
    subst {A = Handled} (λ x. IsDev x.dev) same (reset_after-IsDev dev none [] d)

handle_message-IsDev :
    (mmap : Mmap) (can_send : Message → Bool) (fds : ℕ → ℤ) (dev : VhostDev) (msg : Message)
    (h : Handled)
    → IsDev dev
    → handle_message mmap can_send fds dev msg ≡ some h
    → IsDev h.dev
unfolding handle_message
handle_message-IsDev mmap can_send fds dev msg h d e = ground (
  arith,
  e,
  reset_result-IsDev dev h d,
  finish_result-IsDev can_send (call_handler mmap fds dev msg) h
      (call_handler-IsDev mmap fds dev msg d),
)

-- Whatever a client sends, unless it drives the code outside of an array, the device keeps a vring
-- for each of its queues, and no vring has a size that a queue may not have.
pub on_read_avail-IsDev :
    (mmap : Mmap) (can_send : Message → Bool) (dev : VhostDev) (r : Received) (h : Handled)
    → IsDev dev
    → on_read_avail mmap can_send dev r ≡ some h
    → IsDev h.dev
unfolding on_read_avail
on_read_avail-IsDev mmap can_send dev r h d e =
    ground
      (arith, e, reset_result-IsDev dev h d, handle_message-IsDev mmap can_send r.fds dev r.msg h d)

zeroed_vrings-IsSized : (n : ℕ) → All IsSized (zeroed_vrings n)
zeroed_vrings-IsSized zero = tt
zeroed_vrings-IsSized (suc n) = (omega arith, zeroed_vrings-IsSized n)

length-zeroed_vrings : (n : ℕ) → length (zeroed_vrings n) ≡ n
length-zeroed_vrings zero = refl
length-zeroed_vrings (suc n) = ap suc (length-zeroed_vrings n)

-- A device that was registered has a vring for each of the queues it was registered with, none
-- larger than a queue may be.
pub register_device_server-IsDev :
    (listenfd : ℤ) (num_queues : ℕ) (vdev : VirtioDev) (dev : VhostDev)
    → (register_device_server listenfd num_queues vdev).0 ≡ some dev
    → IsDev dev
unfolding register_device_server
register_device_server-IsDev listenfd num_queues vdev dev e =
    let vrings : dev.vrings ≡ (reset_vrings false (zeroed_vrings num_queues)).0 =
      ground (arith, e) in
    let count : dev.num_queues ≡ num_queues = ground (arith, e) in
    record {
      counted =
          ap length vrings
          ∙ reset_vrings-length false (zeroed_vrings num_queues)
          ∙ length-zeroed_vrings num_queues
          ∙ sym count;
      sized =
          subst {A = List Vring} (λ vs. All IsSized vs) (sym vrings)
            (reset_vrings-IsSized false (zeroed_vrings num_queues)
              (zeroed_vrings-IsSized num_queues));
    }
