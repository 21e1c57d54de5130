-- ===== src/Vhost/Linked.antt =====
-- The invariant of a device over the events of its sockets.
use libvhost_user.Base.{
  by_if, by_test, true, ℕ, ◌≡◌, refl, ap, sym, subst, ◌∙◌, Bool, false, not, ◌&&◌, Option, none,
  some, has_any, bit_or, ℤ, arith, inl, inr, Bool-cases, ◌==ℤ◌, ==ℤ→eq, is_neg,
}
use libvhost_user.Platform.{verify_fails}
use libvhost_user.Evloop.{epollin, epollhup}
use libvhost_user.Vhost.Protocol.{Message}
use libvhost_user.Vhost.Device.{VhostDev}
use libvhost_user.Vhost.MemTable.{Mmap}
use libvhost_user.Vhost.Dispatch.{vhost_reset_dev, Handled, reset_after}
use libvhost_user.Vhost.Event.{on_connect, Received, on_read_avail}
use libvhost_user.Vhost.Server.{
  epollerr, is_within, ServerEvent, aborted, handled, untouched, on_disconnect, accept_one,
  on_listen_event, read_event, on_conn_event, handle_server_event,
}
use libvhost_user.Vhost.Sized.{IsDev}
use libvhost_user.Vhost.Invariant.{vhost_reset_dev-IsDev, on_read_avail-IsDev}
use libvhost_user.Vhost.Connected.{HasPeer, connected, unwatched}
use libvhost_user.Vhost.Peer.{vhost_reset_dev-HasPeer, on_read_avail-HasPeer}

-- What holds of a device at all times.
pub record IsLinked (dev : VhostDev) : Type 0 where
  pub is_dev : IsDev dev
  pub has_peer : HasPeer dev

pub reset-IsLinked : (dev : VhostDev) → IsDev dev → IsLinked (vhost_reset_dev dev).0
reset-IsLinked dev d = record {
  is_dev = vhost_reset_dev-IsDev dev d;
  has_peer = vhost_reset_dev-HasPeer dev;
}

-- The event is handled, if it is, by a device like that.
pub record IsLinkedEvent (e : ServerEvent) : Type 0 where
  pub linked : (h : Handled) → e ≡ handled h → IsLinked h.dev

pub handled-IsLinkedEvent : (h : Handled) → IsLinked h.dev → IsLinkedEvent (handled h)
handled-IsLinkedEvent h l = record {
  linked = λ k e. let same : h ≡ k = cc in subst {A = Handled} (λ x. IsLinked x.dev) same l;
}

pub aborted-IsLinkedEvent : IsLinkedEvent aborted
aborted-IsLinkedEvent = record { linked = λ k e. absurd (ground arith) }

-- Also where `accept4` fails and the build goes on.
pub on_connect-IsLinked : (fd : ℤ) (dev : VhostDev) → IsLinked dev → IsLinked (on_connect fd dev).0
unfolding on_connect
on_connect-IsLinked fd dev l = elim (Bool-cases (is_neg dev.connfd)) [
  | inr t ↦ rw t l
  | inl t ↦ rw t (record {
    is_dev = record { counted = l.is_dev.counted; sized = l.is_dev.sized };
    has_peer = peer_of l.has_peer t;
  })
]
  where
    peer_of : HasPeer dev → is_neg dev.connfd ≡ true → HasPeer (record dev { connfd = fd })
    peer_of (connected c) t = absurd (ground (arith, c, t))
    peer_of (unwatched all) t = unwatched all

pub accept_one-IsLinkedEvent :
    (ndebug : Bool) (accepted : ℤ) (dev : VhostDev)
    → IsLinked dev
    → IsLinkedEvent (accept_one ndebug accepted dev)
unfolding accept_one
accept_one-IsLinkedEvent ndebug accepted dev l =
    by_if IsLinkedEvent (is_neg dev.connfd && verify_fails ndebug (not (is_neg accepted)))
      aborted-IsLinkedEvent (handled-IsLinkedEvent _ (on_connect-IsLinked accepted dev l))

pub on_listen_event-IsLinkedEvent :
    (ndebug : Bool) (accepted : ℤ) (events : ℕ) (dev : VhostDev)
    → IsLinked dev
    → IsLinkedEvent (on_listen_event ndebug accepted events dev)
unfolding on_listen_event
on_listen_event-IsLinkedEvent ndebug accepted events dev l =
    by_if IsLinkedEvent (verify_fails ndebug (is_within events epollin)) aborted-IsLinkedEvent (
      by_if IsLinkedEvent (has_any events epollin) (accept_one-IsLinkedEvent ndebug accepted dev l)
        (handled-IsLinkedEvent (untouched dev) l))

pub read_event-IsLinkedEvent :
    (o : Option Handled)
    → ((h : Handled) → o ≡ some h → IsLinked h.dev)
    → IsLinkedEvent (read_event o)
unfolding read_event
read_event-IsLinkedEvent none l = record { linked = λ k e. absurd (ground arith) }
read_event-IsLinkedEvent (some h) l = handled-IsLinkedEvent h (l h refl)

pub on_conn_event-IsLinkedEvent :
    (ndebug : Bool) (mmap : Mmap) (can_send : Message → Bool) (r : Received) (events : ℕ)
    (dev : VhostDev)
    → is_neg dev.connfd ≡ false
    → IsLinked dev
    → IsLinkedEvent (on_conn_event ndebug mmap can_send r events dev)
unfolding on_conn_event on_disconnect reset_after
on_conn_event-IsLinkedEvent ndebug mmap can_send r events dev p l =
    by_if IsLinkedEvent
      (verify_fails ndebug (is_within events (bit_or (bit_or epollin epollhup) epollerr)))
      aborted-IsLinkedEvent
      (by_if IsLinkedEvent (has_any events (bit_or epollhup epollerr))
        (handled-IsLinkedEvent _ (reset-IsLinked dev l.is_dev))
        (by_if IsLinkedEvent (has_any events epollin)
          (read_event-IsLinkedEvent (on_read_avail mmap can_send dev r) (λ h e. record {
            is_dev = on_read_avail-IsDev mmap can_send dev r h l.is_dev e;
            has_peer = on_read_avail-HasPeer mmap can_send dev r h p e;
          }))
          (handled-IsLinkedEvent (untouched dev) l)))

pub handle_server_event-IsLinkedEvent :
    (ndebug : Bool) (mmap : Mmap) (can_send : Message → Bool) (accepted : ℤ) (r : Received) (fd : ℤ)
    (events : ℕ) (dev : VhostDev)
    → is_neg fd ≡ false
    → IsLinked dev
    → IsLinkedEvent (handle_server_event ndebug mmap can_send accepted r fd events dev)
unfolding handle_server_event
handle_server_event-IsLinkedEvent ndebug mmap can_send accepted r fd events dev valid l =
    by_if IsLinkedEvent (fd ==ℤ dev.listenfd)
      (on_listen_event-IsLinkedEvent ndebug accepted events dev l)
      (by_test IsLinkedEvent (fd ==ℤ dev.connfd)
        (λ u.
          on_conn_event-IsLinkedEvent ndebug mmap can_send r events dev
            (ap is_neg (sym (==ℤ→eq fd dev.connfd u)) ∙ valid) l)
        (λ u.
          by_if IsLinkedEvent (verify_fails ndebug false) aborted-IsLinkedEvent
            (handled-IsLinkedEvent (untouched dev) l)))
