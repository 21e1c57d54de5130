-- ===== src/Vhost/Sockets.antt =====
-- No event of a socket starts a vring: whole messages, resets, connections.
use libvhost_user.Base.{
  by_if, ℕ, zero, suc, ◌≡◌, refl, ap, sym, subst, ◌∙◌, Bool, false, not, ◌&&◌, ◌||◌, ◌==◌, ltb,
  has_any, bit_or, Option, none, some, List, [], ◌∷◌, ℤ, ◌==ℤ◌, is_neg, arith, All, get_elem?,
}
use libvhost_user.Platform.{verify_fails}
use libvhost_user.Evloop.{epollin, epollhup}
use libvhost_user.System.{Call}
use libvhost_user.Vhost.Protocol.{Message}
use libvhost_user.Vhost.Device.{Vring, VhostDev}
use libvhost_user.Vhost.MemTable.{Mmap}
use libvhost_user.Vhost.Handlers.{Answer}
use libvhost_user.Vhost.Dispatch.{
  vhost_reset_dev, call_handler, num_handlers, message_assumes_reply, must_reply_ack, Handled,
  reset_after, ack_reply, send_reply, finish_message, finish_result, handle_message,
}
use libvhost_user.Vhost.Event.{overruns, as_u32, Received, on_connect, on_read_avail}
use libvhost_user.Vhost.Server.{
  epollerr, is_within, untouched, ServerEvent, aborted, handled, on_disconnect, accept_one,
  on_listen_event, read_event, on_conn_event, handle_server_event,
}
use libvhost_user.Vhost.Reset.{IsIdle, vhost_reset_dev-IsFresh}
use libvhost_user.Vhost.Every.{Each}
use libvhost_user.Vhost.Starts.{StartsNone, same-StartsNone, call_handler-StartsNone}

pub stopped_at :
    (vs : List Vring) (i : ℕ) (v : Vring)
    → All IsIdle vs
    → get_elem? vs i ≡ some v
    → v.is_started ≡ false
stopped_at [] i v all e = absurd (ground arith)
stopped_at (x ∷ vs) zero v (p, all) e =
    let same : x ≡ v = ground arith in sym (ap (λ (t : Vring). t.is_started) same) ∙ p.stopped
stopped_at (x ∷ vs) (suc i) v (p, all) e = stopped_at vs i v all e

-- A reset stops all, so that it starts none of the vrings of any device.
pub vhost_reset_dev-StartsNone : (first dev : VhostDev) → StartsNone first (vhost_reset_dev dev).0
vhost_reset_dev-StartsNone first dev =
    let (fresh, _, _, _, _, _) = vhost_reset_dev-IsFresh dev in
    record {
      before = λ i v g s.
          absurd
            (ground (arith, s, stopped_at (vhost_reset_dev dev).0.vrings i v fresh.vrings_idle g));
    }

reset_after-StartsNone :
    (first dev : VhostDev) (reply : Option Message) (calls : List Call)
    → StartsNone first (reset_after dev reply calls).dev
unfolding reset_after
reset_after-StartsNone first dev reply calls = vhost_reset_dev-StartsNone first dev

send_reply-StartsNone :
    (can_send : Message → Bool) (first dev : VhostDev) (msg : Message) (calls : List Call)
    → StartsNone first dev
    → StartsNone first (send_reply can_send dev msg calls).dev
unfolding send_reply
send_reply-StartsNone can_send first dev msg calls d =
    by_if (λ (h : Handled). StartsNone first h.dev) (can_send (record msg { flags = 5 })) d
      (reset_after-StartsNone first dev (some (record msg { flags = 5 })) calls)

finish_message-StartsNone :
    (can_send : Message → Bool) (first : VhostDev) (a : Answer)
    → StartsNone first a.dev
    → StartsNone first (finish_message can_send a).dev
unfolding finish_message
finish_message-StartsNone can_send first a d =
    let none_started = λ (h : Handled). StartsNone first h.dev in
    by_if none_started (is_neg a.res) (reset_after-StartsNone first a.dev none a.calls) (
      by_if none_started (message_assumes_reply a.msg)
        (send_reply-StartsNone can_send first a.dev a.msg a.calls d)
        (by_if none_started (must_reply_ack a.dev a.msg)
          (send_reply-StartsNone can_send first a.dev (ack_reply a) a.calls d) d))

-- What is handled, if anything, leaves a device in which no vring was started.
pub record StartsNoneEvent (first : VhostDev) (o : ServerEvent) : Type 0 where
  pub starts : (h : Handled) → o ≡ handled h → StartsNone first h.dev

handled-StartsNoneEvent :
    (first : VhostDev) (h : Handled) → StartsNone first h.dev → StartsNoneEvent first (handled h)
handled-StartsNoneEvent first h d = record {
  starts = λ g e. let same : h ≡ g = cc in subst {A = Handled} (λ x. StartsNone first x.dev) same d;
}

reset-StartsNoneEvent :
    (dev : VhostDev) → StartsNoneEvent dev (read_event (some (reset_after dev none [])))
unfolding read_event
reset-StartsNoneEvent dev = handled-StartsNoneEvent dev _ (reset_after-StartsNone dev dev none [])

finish_result-StartsNoneEvent :
    (can_send : Message → Bool) (first : VhostDev) (o : Option Answer)
    → Each (λ a. StartsNone first a.dev) o
    → StartsNoneEvent first (read_event (finish_result can_send o))
unfolding finish_result read_event
finish_result-StartsNoneEvent can_send first none k = record {
  starts = λ h e. absurd (ground arith);
}
finish_result-StartsNoneEvent can_send first (some a) k =
    handled-StartsNoneEvent first _ (finish_message-StartsNone can_send first a (k.each a refl))

outside-StartsNoneEvent : (dev : VhostDev) → StartsNoneEvent dev (read_event none)
unfolding read_event
outside-StartsNoneEvent dev = record { starts = λ h e. absurd (ground arith) }

aborted-StartsNoneEvent : (dev : VhostDev) → StartsNoneEvent dev aborted
aborted-StartsNoneEvent dev = record { starts = λ h e. absurd (ground arith) }

module _ (mmap : Mmap) (can_send : Message → Bool) (dev : VhostDev) (r : Received) where
  abbrev Reads : Option Handled → Type 0
  Reads o = StartsNoneEvent dev (read_event o)

  handle_message-StartsNoneEvent : Reads (handle_message mmap can_send r.fds dev r.msg)
  unfolding handle_message
  handle_message-StartsNoneEvent =
      by_if Reads (r.msg.request == 0 || ltb num_handlers r.msg.request) (reset-StartsNoneEvent dev)
        (by_if Reads (r.msg.request == num_handlers) (outside-StartsNoneEvent dev) (
          finish_result-StartsNoneEvent can_send dev (call_handler mmap r.fds dev r.msg)
            (call_handler-StartsNone mmap r.fds dev r.msg)))

  on_read_avail-StartsNoneEvent : Reads (on_read_avail mmap can_send dev r)
  unfolding on_read_avail
  on_read_avail-StartsNoneEvent =
      by_if Reads (not r.header_ok || not r.control_ok) (reset-StartsNoneEvent dev) (
        by_if Reads (r.msg.size == 0) handle_message-StartsNoneEvent (
          by_if Reads (overruns r.body) (outside-StartsNoneEvent dev) (
            by_if Reads (not (as_u32 r.body == r.msg.size)) (reset-StartsNoneEvent dev)
              handle_message-StartsNoneEvent)))

  on_conn_event-StartsNoneEvent :
      (ndebug : Bool) (events : ℕ)
      → StartsNoneEvent dev (on_conn_event ndebug mmap can_send r events dev)
  unfolding on_conn_event on_disconnect
  on_conn_event-StartsNoneEvent ndebug events =
      let none_started = StartsNoneEvent dev in
      let mask = bit_or (bit_or epollin epollhup) epollerr in
      by_if none_started (verify_fails ndebug (is_within events mask)) (aborted-StartsNoneEvent dev)
        (by_if none_started (has_any events (bit_or epollhup epollerr))
          (handled-StartsNoneEvent dev _ (reset_after-StartsNone dev dev none []))
          (by_if none_started (has_any events epollin) on_read_avail-StartsNoneEvent
            (handled-StartsNoneEvent dev (untouched dev) (same-StartsNone dev dev refl))))

on_connect-vrings : (fd : ℤ) (dev : VhostDev) → (on_connect fd dev).0.vrings ≡ dev.vrings
unfolding on_connect
on_connect-vrings fd dev = ground arith

on_listen_event-StartsNoneEvent :
    (ndebug : Bool) (accepted : ℤ) (events : ℕ) (dev : VhostDev)
    → StartsNoneEvent dev (on_listen_event ndebug accepted events dev)
unfolding on_listen_event accept_one
on_listen_event-StartsNoneEvent ndebug accepted events dev =
    let none_started = StartsNoneEvent dev in
    by_if none_started (verify_fails ndebug (is_within events epollin))
      (aborted-StartsNoneEvent dev)
      (by_if none_started (has_any events epollin)
        (by_if none_started (is_neg dev.connfd && verify_fails ndebug (not (is_neg accepted)))
          (aborted-StartsNoneEvent dev)
          (handled-StartsNoneEvent dev _ (same-StartsNone dev _ (on_connect-vrings accepted dev))))
        (handled-StartsNoneEvent dev (untouched dev) (same-StartsNone dev dev refl)))

-- In a build with or without NDEBUG, no event of a socket in which the code stays inside of its arrays
-- starts a vring: of the device that it leaves, each vring that is started was started before, with
-- the same virtqueue.
pub handle_server_event-StartsNone :
    (ndebug : Bool) (mmap : Mmap) (can_send : Message → Bool) (accepted : ℤ) (r : Received) (fd : ℤ)
    (events : ℕ) (dev : VhostDev) (h : Handled)
    → handle_server_event ndebug mmap can_send accepted r fd events dev ≡ handled h
    → StartsNone dev h.dev
unfolding handle_server_event
handle_server_event-StartsNone ndebug mmap can_send accepted r fd events dev h e =
    let all =
      by_if (StartsNoneEvent dev) (fd ==ℤ dev.listenfd)
        (on_listen_event-StartsNoneEvent ndebug accepted events dev)
        (by_if (StartsNoneEvent dev) (fd ==ℤ dev.connfd)
          (on_conn_event-StartsNoneEvent mmap can_send dev r ndebug events)
          (by_if (StartsNoneEvent dev) (verify_fails ndebug false) (aborted-StartsNoneEvent dev)
            (handled-StartsNoneEvent dev (untouched dev) (same-StartsNone dev dev refl)))) in
    all.starts h e
