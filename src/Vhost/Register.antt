-- ===== src/Vhost/Register.antt =====
-- What `vhost_register_device_server` leaves, and what it does to descriptors that are not its own.
use libvhost_user.Base.{
  ℕ, zero, suc, ◌<◌, ◌≡◌, ◌⊎◌, refl, ap, sym, subst, ◌∙◌, true, false, Option, none, some, List, [],
  ◌∷◌, ℤ, arith, inl, inr, is_neg, length, minus_one, Bool-cases,
}
use libvhost_user.Base.{pos as ok}
use libvhost_user.System.{Call, close, add_fd, del_fd}
use libvhost_user.Vdev.{VirtioDev}
use libvhost_user.Memory.{init_memory_map}
use libvhost_user.Vhost.Device.{VhostDev}
use libvhost_user.Vhost.Ring.{close_fd_calls, vring_reset}
use libvhost_user.Vhost.Dispatch.{reset_vrings}
use libvhost_user.Vhost.Event.{zeroed_vrings, register_device_server}
use libvhost_user.Vhost.Reset.{Called, IsFresh, reset_vrings-All}

-- For each vring descriptor 0 is removed from the event loop and closed three times.
abbrev pub zero_closed : ℕ → List Call
zero_closed zero = []
zero_closed (suc n) = del_fd (ok 0) ∷ close (ok 0) ∷ close (ok 0) ∷ close (ok 0) ∷ zero_closed n

reset_zeroed : (n : ℕ) → (reset_vrings false (zeroed_vrings n)).1 ≡ zero_closed n
unfolding reset_vrings vring_reset close_fd_calls
reset_zeroed zero = refl
reset_zeroed (suc n) =
    ap (λ cs. del_fd (ok 0) ∷ close (ok 0) ∷ close (ok 0) ∷ close (ok 0) ∷ cs) (reset_zeroed n)

length-zeroed_vrings : (n : ℕ) → length (zeroed_vrings n) ≡ n
length-zeroed_vrings zero = refl
length-zeroed_vrings (suc n) = ap suc (length-zeroed_vrings n)

-- As new, for that socket, with so many vrings.
pub record IsRegistered (listenfd : ℤ) (num_queues : ℕ) (vdev : VirtioDev) (dev : VhostDev)
    : Type 0 where
  pub fresh : IsFresh dev
  pub listens : dev.listenfd ≡ listenfd
  pub counted : dev.num_queues ≡ num_queues
  pub vrings_there : length dev.vrings ≡ num_queues
  pub is_vdev : dev.vdev ≡ vdev

-- Registration fails, with no further call, just when there is no socket to listen on; else the
-- socket is watched, and the device is as new, with a vring for each queue. But descriptor 0, the
-- standard input, is then closed, three times for each vring: they are reset when they are still all
-- zero.
pub register_device_server-IsRegistered :
    (listenfd : ℤ) (num_queues : ℕ) (vdev : VirtioDev)
    → let call = register_device_server listenfd num_queues vdev in
      ((is_neg listenfd ≡ true) × (call ≡ (none, [])))
      ⊎ ((dev : VhostDev) × (is_neg listenfd ≡ false)
          × (call ≡ (some dev, add_fd listenfd ∷ zero_closed num_queues))
          × IsRegistered listenfd num_queues vdev dev)
unfolding register_device_server
register_device_server-IsRegistered listenfd num_queues vdev =
    let (idle, released, len) = reset_vrings-All (zeroed_vrings num_queues) in
    let dev : VhostDev = record {
      listenfd = listenfd;
      connfd = minus_one;
      has_protocol_features = false;
      negotiated_protocol_features = 0;
      session_started = false;
      num_queues = num_queues;
      vrings = (reset_vrings false (zeroed_vrings num_queues)).0;
      memory_map = init_memory_map;
      regions = [];
      vdev = vdev;
    } in
    elim (Bool-cases (is_neg listenfd)) [
      | inl t ↦ inl (t, rw t refl)
      | inr t ↦ inr (
        dev,
        t,
        rw t (ap (λ (cs : List Call). (some dev, add_fd listenfd ∷ cs)) (reset_zeroed num_queues)),
        record {
          fresh = record {
            no_connfd = refl;
            no_protocol = refl;
            nothing_negotiated = refl;
            no_session = refl;
            no_memory = refl;
            no_regions = refl;
            vrings_idle = idle;
          };
          listens = refl;
          counted = refl;
          vrings_there = len ∙ length-zeroed_vrings num_queues;
          is_vdev = refl;
        },
      )
    ]

-- A device with at least one queue that is registered on a socket closes descriptor 0.
register_device_server_closes :
    (listenfd : ℤ) (num_queues : ℕ) (vdev : VirtioDev)
    → is_neg listenfd ≡ false
    → 0 < num_queues
    → Called (close (ok 0)) (register_device_server listenfd num_queues vdev).1
register_device_server_closes listenfd zero vdev h k = absurd (omega arith)
register_device_server_closes listenfd (suc n) vdev h k =
    elim (register_device_server-IsRegistered listenfd (suc n) vdev) [
      | inl (negative, e) ↦ absurd (ground (arith, h, negative))
      | inr (dev, live, e, r) ↦
          subst {A = Option VhostDev × List Call} (λ c. Called (close (ok 0)) c.1) (sym e)
            (inr (inr (inl refl)))
    ]
