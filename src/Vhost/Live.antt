-- ===== src/Vhost/Live.antt =====
-- The vrings that are started, over the life of a device.
use libvhost_user.Base.{
  ℕ, ◌-◌, ◌^◌, ◌≤◌, ◌%◌, ◌≡◌, ◌≢◌, refl, ap, sym, subst, ◌∙◌, Bool, true, false, not, ◌||◌, some,
  List, ltb, ◌==◌, has_any, ℤ, ◌==ℤ◌, minus_one, u16_mod, arith, inl, inr, Bool-cases, Option-cases,
  get_elem?, get_elem?-set_ne, set, All, by_if, by_test,
}
use libvhost_user.Base.{pos as ok}
use libvhost_user.Base.Bits.{pow2_of_test}
use libvhost_user.Memory.{MemoryMap}
use libvhost_user.Ram.{Ram}
use libvhost_user.Vdev.{VirtioDev}
use libvhost_user.Virtqueue.Layout.{max_size, Virtqueue}
use libvhost_user.Virtqueue.Setup.{map_parts, started}
use libvhost_user.Virtqueue.Setup
use libvhost_user.Vhost.Protocol.{f_event_idx, has_feature}
use libvhost_user.Vhost.Device.{Vring, VhostDev}
use libvhost_user.Vhost.Ring.{vring_start}
use libvhost_user.Vhost.Handlers.{with_vring}
use libvhost_user.Vhost.Dispatch.{reset_vrings, vhost_reset_dev}
use libvhost_user.Vhost.Event.{
  zeroed_vrings, register_device_server, Kicked, VringCb, serve_kick, on_kick, handle_vring_event,
}
use libvhost_user.Vhost.Reset.{IsIdle, reset_vrings-All}
use libvhost_user.Vhost.Starts.{StartsNone, get_elem?-set_present}
use libvhost_user.Vhost.Client.{Client, IsLawful, answers, asks_client}
use libvhost_user.Vhost.LifeCycle.{socket, vring, Step, start, later, Reach}
use libvhost_user.Vhost.Sockets.{
  stopped_at, vhost_reset_dev-StartsNone, handle_server_event-StartsNone,
}

-- A size that virtqueue_start takes.
pub record IsQueueSize (n : ℕ) : Type 0 where
  pub exponent : ℕ
  pub pow2 : n ≡ 2 ^ exponent
  pub small : n ≤ max_size

-- A vring that is started has a virtqueue of such a size.
pub record IsLive (v : Vring) : Type 0 where
  pub live : v.is_started ≡ true → IsQueueSize v.vq.qsize

stopped-IsLive : (v : Vring) → v.is_started ≡ false → IsLive v
stopped-IsLive v s = record { live = λ t. absurd (ground (arith, s, t)) }

-- What `virtqueue_start` returns, where it succeeds, has a size that it takes.
record IsStart (r : ℤ × Virtqueue × Ram) : Type 0 where
  sized : r.0 ≡ ok 0 → IsQueueSize r.1.qsize

size-IsQueueSize :
    (n : ℕ) → ((n == 0 || has_any n (n - 1)) || ltb max_size n) ≡ false → IsQueueSize n
size-IsQueueSize n e =
    let (k, p) = pow2_of_test n (ground arith) (ground arith) in
    record { exponent = k; pow2 = p; small = ground arith }

start-IsStart :
    (mem : MemoryMap) (ram : Ram) (vq : Virtqueue) (qsize desc_gpa avail_gpa used_gpa base : ℕ)
    (callfd : ℤ) (has_event_idx : Bool)
    → IsStart (Setup.start mem ram vq qsize desc_gpa avail_gpa used_gpa base callfd has_event_idx)
unfolding Setup.start started
start-IsStart mem ram vq qsize desc_gpa avail_gpa used_gpa base callfd has_event_idx =
    elim (Bool-cases ((qsize == 0 || has_any qsize (qsize - 1)) || ltb max_size qsize)) [
      | inl t ↦ rw t (record { sized = λ e. absurd (ground arith) })
      | inr t ↦ elim (Option-cases (map_parts mem qsize desc_gpa avail_gpa used_gpa)) [
        | inl u ↦ rw (t, u) (record { sized = λ e. absurd (ground arith) })
        | inr (parts, u) ↦ rw (t, u) (record { sized = λ e. size-IsQueueSize qsize t })
      ]
    ]

vring_start-IsLive :
    (mem : MemoryMap) (vdev : VirtioDev) (v : Vring) (ram : Ram)
    → IsLive v
    → IsLive (vring_start mem vdev v ram).1
unfolding vring_start
vring_start-IsLive mem vdev v ram l =
    let res =
      Setup.start mem ram v.vq (v.size % u16_mod) v.desc_addr v.avail_addr v.used_addr
        (v.avail_base % u16_mod) v.callfd (has_feature vdev.features f_event_idx) in
    let s : IsStart res =
      start-IsStart mem ram v.vq (v.size % u16_mod) v.desc_addr v.avail_addr v.used_addr
        (v.avail_base % u16_mod) v.callfd (has_feature vdev.features f_event_idx) in
    elim (Bool-cases (v.size == 0 || v.kickfd ==ℤ minus_one)) [
      | inl t ↦ rw t l
      | inr t ↦ elim (Bool-cases v.is_started) [
        | inl u ↦ rw (t, u) (record { live = λ x. l.live u })
        | inr u ↦ elim (Bool-cases (res.0 ==ℤ ok 0)) [
          | inl x ↦ rw (t, u, x) (record { live = λ y. s.sized (ground (arith, x)) })
          | inr x ↦ rw (t, u, x) (stopped-IsLive _ refl)
        ]
      ]
    ]

-- So are all vrings of the device.
pub record IsAllLive (dev : VhostDev) : Type 0 where
  pub each : (i : ℕ) (v : Vring) → get_elem? dev.vrings i ≡ some v → IsLive v

StartsNone-IsAllLive : (dev dev' : VhostDev) → IsAllLive dev → StartsNone dev dev' → IsAllLive dev'
StartsNone-IsAllLive dev dev' l n = record {
  each = λ i v' g. record {
    live = λ s.
        let (v, at, calm) = n.before i v' g s in
        subst {A = Virtqueue} (λ q. IsQueueSize q.qsize) (sym calm.vq_kept)
          ((l.each i v at).live (calm.was_started s));
  };
}

with_vring-IsAllLive :
    (dev : VhostDev) (i : ℕ) (v x : Vring)
    → get_elem? dev.vrings i ≡ some v
    → IsAllLive dev
    → IsLive x
    → IsAllLive (with_vring dev i x)
with_vring-IsAllLive dev i v x e l p = record {
  each = λ j v' g. elim (Bool-cases (i == j)) [
    | inl t ↦
        let at : i ≡ j = ground arith in
        let here : get_elem? (set dev.vrings i x) i ≡ some v' =
          ap (get_elem? (set dev.vrings i x)) at ∙ g in
        let got : some x ≡ some v' = sym (get_elem?-set_present dev.vrings i v e x) ∙ here in
        let same : x ≡ v' = cc in subst {A = Vring} IsLive same p
    | inr t ↦
        let apart : i ≢ j = ground (arith, t) in
        l.each j v' (sym (get_elem?-set_ne dev.vrings x apart) ∙ g)
  ];
}

reset-IsAllLive : (dev first : VhostDev) → IsAllLive first → IsAllLive (vhost_reset_dev dev).0
reset-IsAllLive dev first l =
    StartsNone-IsAllLive first (vhost_reset_dev dev).0 l (vhost_reset_dev-StartsNone first dev)

module _ (vring_cb : VringCb) (dev : VhostDev) (v : Vring) (ram : Ram) where
  serve_kick-IsLive :
      (v.is_started ≡ true → (vring_cb dev.vdev v ram).1.vq.qsize ≡ v.vq.qsize)
      → IsLive v
      → IsLive (serve_kick vring_cb dev v ram).1
  unfolding serve_kick
  serve_kick-IsLive keeps l =
      by_test (λ (r : ℤ × Vring × Ram). IsLive r.1) v.is_started
        (λ t. record { live = λ s. subst {A = ℕ} IsQueueSize (sym (keeps t)) (l.live t) })
        (λ t. vring_start-IsLive dev.memory_map dev.vdev v ram l)

  module _ (i : ℕ) (g : get_elem? dev.vrings i ≡ some v) (l : IsAllLive dev) where
    on_kick-IsAllLive :
        (read_ok : Bool)
        → (read_ok ≡ true → v.is_started ≡ true → (vring_cb dev.vdev v ram).1.vq.qsize ≡ v.vq.qsize)
        → IsAllLive (on_kick vring_cb read_ok dev i v ram).dev
    unfolding on_kick
    on_kick-IsAllLive false keeps = reset-IsAllLive dev dev l
    on_kick-IsAllLive true keeps =
        let r = serve_kick vring_cb dev v ram in
        by_if (λ (k : Kicked). IsAllLive k.dev) (not (r.0 ==ℤ ok 0))
          (reset-IsAllLive (with_vring dev i r.1) dev l)
          (with_vring-IsAllLive dev i v r.1 g l (serve_kick-IsLive (keeps refl) (l.each i v g)))

    handle_vring_event-IsAllLive :
        (hung_up readable read_ok : Bool)
        → (asks_client hung_up readable read_ok v ≡ true
            → (vring_cb dev.vdev v ram).1.vq.qsize ≡ v.vq.qsize)
        → IsAllLive (handle_vring_event vring_cb hung_up readable read_ok dev i v ram).dev
    unfolding handle_vring_event
    handle_vring_event-IsAllLive true readable read_ok keeps =
        with_vring-IsAllLive dev i v (record v { kickfd = minus_one }) g l
          (record { live = (l.each i v g).live })
    handle_vring_event-IsAllLive false true read_ok keeps =
        on_kick-IsAllLive read_ok (λ t u. keeps (rw (t, u) refl))
    handle_vring_event-IsAllLive false false read_ok keeps = l

module _ (ndebug : Bool) (client : Client) (lawful : IsLawful client) where
  Step-IsAllLive :
      (dev dev' : VhostDev) → IsAllLive dev → Step ndebug client dev dev' → IsAllLive dev'
  Step-IsAllLive dev dev' l (socket mmap can_send accepted r fd events h valid e same) =
      subst {A = VhostDev} IsAllLive same (
        StartsNone-IsAllLive dev h.dev l
          (handle_server_event-StartsNone ndebug mmap can_send accepted r fd events dev h e))
  Step-IsAllLive dev dev' l (vring hung_up readable read_ok i v ram r g w may same) =
      subst {A = VhostDev} IsAllLive same (
        handle_vring_event-IsAllLive (answers r) dev v ram i g l hung_up readable read_ok
          (λ asked. (lawful.queue_kept dev.memory_map dev.vdev v ram r (may asked)).same_size))

  Reach-started :
      (first dev : VhostDev) → IsAllLive first → Reach ndebug client first dev → IsAllLive dev
  Reach-started first dev l start = l
  Reach-started first dev l (later {dev = mid} r s) =
      Step-IsAllLive mid dev (Reach-started first mid l r) s

registered-IsAllLive :
    (listenfd : ℤ) (num_queues : ℕ) (vdev : VirtioDev) (dev : VhostDev)
    → (register_device_server listenfd num_queues vdev).0 ≡ some dev
    → IsAllLive dev
registered-IsAllLive listenfd num_queues vdev dev e =
    let vrings : dev.vrings ≡ (reset_vrings false (zeroed_vrings num_queues)).0 =
      unfold register_device_server in ground (arith, e) in
    let idle =
      subst {A = List Vring} (All IsIdle) (sym vrings)
        (reset_vrings-All (zeroed_vrings num_queues)).0 in
    record { each = λ i v g. stopped-IsLive v (stopped_at dev.vrings i v idle g) }

-- In a build with or without NDEBUG, over any events of a device that has been registered in which
-- the code stays inside of its arrays, each of its vrings that is started has a virtqueue whose size
-- is a power of two, 32768 at most, if the handler of the program leaves the sizes of the vrings
-- alone and their virtqueues where they are.
pub Reach-IsAllLive :
    (ndebug : Bool) (client : Client) (listenfd : ℤ) (num_queues : ℕ) (vdev : VirtioDev)
    (first dev : VhostDev) (i : ℕ) (v : Vring)
    → IsLawful client
    → (register_device_server listenfd num_queues vdev).0 ≡ some first
    → Reach ndebug client first dev
    → get_elem? dev.vrings i ≡ some v
    → v.is_started ≡ true
    → (k : ℕ) × (v.vq.qsize ≡ 2 ^ k) × (v.vq.qsize ≤ max_size)
Reach-IsAllLive ndebug client listenfd num_queues vdev first dev i v lawful e r g s =
    let l = registered-IsAllLive listenfd num_queues vdev first e in
    let q = ((Reach-started ndebug client lawful first dev l r).each i v g).live s in
    (q.exponent, q.pow2, q.small)
