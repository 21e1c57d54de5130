-- ===== src/Vhost/LifeCycle.antt =====
-- The life of a device that has been registered: the events of its sockets and of its vrings.
use libvhost_user.Base.{
  ℕ, zero, suc, ◌≡◌, ap, sym, subst, ◌∙◌, Bool, false, not, some, List, [], ◌∷◌, ℤ, arith,
  get_elem?, All, ◌==ℤ◌, is_neg, minus_one, by_if,
}
use libvhost_user.Base.{pos as ok}
use libvhost_user.Ram.{Ram}
use libvhost_user.Vdev.{VirtioDev}
use libvhost_user.Vhost.Protocol.{Message}
use libvhost_user.Vhost.Device.{Vring, VhostDev}
use libvhost_user.Vhost.MemTable.{Mmap}
use libvhost_user.Vhost.Handlers.{with_vring}
use libvhost_user.Vhost.Dispatch.{reset_vrings, Handled}
use libvhost_user.Vhost.Event.{
  zeroed_vrings, register_device_server, Received, Kicked, VringCb, serve_kick, on_kick,
  handle_vring_event,
}
use libvhost_user.Vhost.Server.{handled, handle_server_event}
use libvhost_user.Vhost.Reset.{reset_vrings-All}
use libvhost_user.Vhost.Sized.{IsDev, All-get_elem?}
use libvhost_user.Vhost.Invariant.{register_device_server-IsDev}
use libvhost_user.Vhost.Client.{Client, IsLawful, answers, MayAnswer}
use libvhost_user.Vhost.Kick.{handle_vring_event-IsDev}
use libvhost_user.Vhost.Connected.{HasPeer, connected, unwatched}
use libvhost_user.Vhost.Peer.{idle-All, vhost_reset_dev-HasPeer}
use libvhost_user.Vhost.Linked.{IsLinked, handle_server_event-IsLinkedEvent}

unwatched_at :
    (vs : List Vring) (i : ℕ) (v : Vring)
    → All (λ (x : Vring). x.kickfd ≡ minus_one) vs
    → get_elem? vs i ≡ some v
    → v.kickfd ≡ minus_one
unwatched_at [] i v all e = absurd (ground arith)
unwatched_at (x ∷ vs) zero v (p, all) e =
    let same : x ≡ v = ground arith in sym (ap (λ (t : Vring). t.kickfd) same) ∙ p
unwatched_at (x ∷ vs) (suc i) v (p, all) e = unwatched_at vs i v all e

watched-connected :
    (dev : VhostDev) (i : ℕ) (v : Vring)
    → HasPeer dev
    → get_elem? dev.vrings i ≡ some v
    → (v.kickfd ==ℤ minus_one) ≡ false
    → is_neg dev.connfd ≡ false
watched-connected dev i v (connected c) e w = c
watched-connected dev i v (unwatched all) e w =
    absurd (ground (arith, w, unwatched_at dev.vrings i v all e))

registered-IsLinked :
    (listenfd : ℤ) (num_queues : ℕ) (vdev : VirtioDev) (dev : VhostDev)
    → (register_device_server listenfd num_queues vdev).0 ≡ some dev
    → IsLinked dev
registered-IsLinked listenfd num_queues vdev dev e =
    let vrings : dev.vrings ≡ (reset_vrings false (zeroed_vrings num_queues)).0 =
      unfold register_device_server in ground (arith, e) in
    record {
      is_dev = register_device_server-IsDev listenfd num_queues vdev dev e;
      has_peer = unwatched (
          subst {A = List Vring} (λ vs. All (λ (v : Vring). v.kickfd ≡ minus_one) vs) (sym vrings)
            (idle-All (reset_vrings false (zeroed_vrings num_queues)).0
              (reset_vrings-All (zeroed_vrings num_queues)).0));
    }

on_kick-HasPeer :
    (vring_cb : VringCb) (read_ok : Bool) (dev : VhostDev) (i : ℕ) (v : Vring) (ram : Ram)
    → is_neg dev.connfd ≡ false
    → HasPeer (on_kick vring_cb read_ok dev i v ram).dev
unfolding on_kick
on_kick-HasPeer vring_cb read_ok dev i v ram c =
    let r = serve_kick vring_cb dev v ram in
    let has_peer = λ (k : Kicked). HasPeer k.dev in
    by_if has_peer (not read_ok) (vhost_reset_dev-HasPeer dev) (
      by_if has_peer (not (r.0 ==ℤ ok 0)) (vhost_reset_dev-HasPeer (with_vring dev i r.1))
        (connected c))

handle_vring_event-HasPeer :
    (vring_cb : VringCb) (hung_up readable read_ok : Bool) (dev : VhostDev) (i : ℕ) (v : Vring)
    (ram : Ram)
    → is_neg dev.connfd ≡ false
    → HasPeer (handle_vring_event vring_cb hung_up readable read_ok dev i v ram).dev
unfolding handle_vring_event
handle_vring_event-HasPeer vring_cb hung_up readable read_ok dev i v ram c =
    let has_peer = λ (k : Kicked). HasPeer k.dev in
    by_if has_peer hung_up (connected c)
      (by_if has_peer readable (on_kick-HasPeer vring_cb read_ok dev i v ram c) (connected c))

module _ (ndebug : Bool) (client : Client) where
  -- One event: of a socket, with what the system gives it, or of a vring that is watched, with what
  -- the client's handler leaves if it is called.
  pub data Step (dev dev' : VhostDev) : Type 0 where
    socket :
        (mmap : Mmap) (can_send : Message → Bool) (accepted : ℤ) (r : Received) (fd : ℤ)
        (events : ℕ) (h : Handled)
        → is_neg fd ≡ false
        → handle_server_event ndebug mmap can_send accepted r fd events dev ≡ handled h
        → h.dev ≡ dev'
        → Step dev dev'
    vring :
        (hung_up readable read_ok : Bool) (i : ℕ) (v : Vring) (ram : Ram) (r : ℤ × Vring × Ram)
        → get_elem? dev.vrings i ≡ some v
        → (v.kickfd ==ℤ minus_one) ≡ false
        → MayAnswer client hung_up readable read_ok dev.memory_map dev.vdev v ram r
        → (handle_vring_event (answers r) hung_up readable read_ok dev i v ram).dev ≡ dev'
        → Step dev dev'

  -- The states that events lead to.
  pub data Reach (first : VhostDev) : VhostDev → Type 0 where
    start : Reach first first
    later : {dev dev' : VhostDev} → Reach first dev → Step dev dev' → Reach first dev'

module _ (ndebug : Bool) (client : Client) (lawful : IsLawful client) where
  Step-IsLinked : (dev dev' : VhostDev) → IsLinked dev → Step ndebug client dev dev' → IsLinked dev'
  Step-IsLinked dev dev' l (socket mmap can_send accepted r fd events h valid e same) =
      subst {A = VhostDev} IsLinked same (
        (handle_server_event-IsLinkedEvent ndebug mmap can_send accepted r fd events dev valid
            l).linked
          h e)
  Step-IsLinked dev dev' l (vring hung_up readable read_ok i v ram r e w may same) =
      let c = watched-connected dev i v l.has_peer e w in
      subst {A = VhostDev} IsLinked same (record {
        is_dev =
            handle_vring_event-IsDev (answers r) dev i v ram hung_up readable read_ok
              (λ asked. lawful.size_kept dev.memory_map dev.vdev v ram r (may asked)) l.is_dev
              (All-get_elem? dev.vrings i v l.is_dev.sized e);
        has_peer = handle_vring_event-HasPeer (answers r) hung_up readable read_ok dev i v ram c;
      })

  Reach-IsLinked :
      (dev dev' : VhostDev) → IsLinked dev → Reach ndebug client dev dev' → IsLinked dev'
  Reach-IsLinked dev dev' l start = l
  Reach-IsLinked dev dev' l (later {dev = mid} r s) =
      Step-IsLinked mid dev' (Reach-IsLinked dev mid l r) s

  -- In a build with or without NDEBUG, over any events in which the code stays inside of its arrays,
  -- of whatever a client sends and whenever it kicks, connects or hangs up, a device that has been
  -- registered keeps a vring for each of its queues, none larger than a queue may be; and while a
  -- vring is watched a client is connected, so that the check of `drop_connection` does not fail in
  -- an event of a vring. The handler of the program leaves the sizes of the vrings alone, and their
  -- virtqueues where they are.
  pub Reach-IsDev :
      (listenfd : ℤ) (num_queues : ℕ) (vdev : VirtioDev) (first dev : VhostDev)
      → (register_device_server listenfd num_queues vdev).0 ≡ some first
      → Reach ndebug client first dev
      → IsDev dev
        × ((i : ℕ) (v : Vring)
            → get_elem? dev.vrings i ≡ some v
            → (v.kickfd ==ℤ minus_one) ≡ false
            → is_neg dev.connfd ≡ false)
  Reach-IsDev listenfd num_queues vdev first dev e r =
      let l = Reach-IsLinked first dev (registered-IsLinked listenfd num_queues vdev first e) r in
      (l.is_dev, λ i v g w. watched-connected dev i v l.has_peer g w)
