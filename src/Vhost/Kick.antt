-- ===== src/Vhost/Kick.antt =====
-- What a kick of a vring leads to.
use libvhost_user.Base.{
  ℕ, ◌≡◌, ◌≢◌, ◌⊎◌, refl, ap, sym, subst, ◌∙◌, Bool, true, false, [], ℤ, arith, inl, inr, minus_one,
  not, ◌==ℤ◌, by_if, by_test,
}
use libvhost_user.Base.{pos as ok}
use libvhost_user.Memory.{MemoryMap}
use libvhost_user.Ram.{Ram}
use libvhost_user.Vdev.{VirtioDev}
use libvhost_user.Vhost.Device.{Vring, VhostDev}
use libvhost_user.Vhost.Ring.{vring_start}
use libvhost_user.Vhost.Handlers.{with_vring}
use libvhost_user.Vhost.Event.{
  Kicked, reset_kicked, VringCb, serve_kick, on_kick, handle_vring_event,
}
use libvhost_user.Vhost.Client.{asks_client}
use libvhost_user.Vhost.Reset.{IsFresh, vhost_reset_dev-IsFresh}
use libvhost_user.Vhost.Sized.{IsSized, IsDev, with_vring-IsDev}
use libvhost_user.Vhost.Invariant.{vhost_reset_dev-IsDev}

vring_start-size :
    (mem : MemoryMap) (vdev : VirtioDev) (vring : Vring) (ram : Ram)
    → (vring_start mem vdev vring ram).1.size ≡ vring.size
unfolding vring_start
vring_start-size mem vdev vring ram = ground arith

vring_start-started :
    (mem : MemoryMap) (vdev : VirtioDev) (vring : Vring) (ram : Ram)
    → (vring_start mem vdev vring ram).0 ≡ ok 0
    → (vring_start mem vdev vring ram).1.is_started ≡ true
unfolding vring_start
vring_start-started mem vdev vring ram e = ground arith

module _ (vring_cb : VringCb) (dev : VhostDev) (i : ℕ) (vring : Vring) (ram : Ram) where
  abbrev served : ℤ × Vring × Ram
  served = serve_kick vring_cb dev vring ram

  on_kick_cases :
      (read_ok : Bool)
      → ((read_ok ≡ false) × (on_kick vring_cb read_ok dev i vring ram ≡ reset_kicked dev ram))
        ⊎ (((served.0 ≢ ok 0)
              × (on_kick vring_cb read_ok dev i vring ram
                  ≡ reset_kicked (with_vring dev i served.1) served.2))
            ⊎ ((served.0 ≡ ok 0)
                × (on_kick vring_cb read_ok dev i vring ram
                    ≡ record { dev = with_vring dev i served.1; ram = served.2; calls = [] })))
  unfolding on_kick
  on_kick_cases read_ok = ground arith

  -- The first kick of a vring starts it and leaves it started, without asking the client; where it
  -- cannot be started the device is reset.
  on_kick-starts :
      vring.is_started ≡ false
      → let r = vring_start dev.memory_map dev.vdev vring ram in
        let k = on_kick vring_cb true dev i vring ram in
        ((r.0 ≡ ok 0)
          × (r.1.is_started ≡ true)
          × (k ≡ record { dev = with_vring dev i r.1; ram = r.2; calls = [] }))
        ⊎ ((r.0 ≢ ok 0) × IsFresh k.dev)
  on_kick-starts stopped =
      let start : served ≡ vring_start dev.memory_map dev.vdev vring ram =
        unfold serve_kick in rw stopped refl in
      let result = ap (λ (r : ℤ × Vring × Ram). r.0) start in
      elim (on_kick_cases true) [
        | inl (t, e) ↦ absurd (ground (arith, t))
        | inr (inl (failed, e)) ↦ inr (
          λ q. failed (result ∙ q),
          subst {A = Kicked} (λ k. IsFresh k.dev) (sym e)
              (vhost_reset_dev-IsFresh (with_vring dev i served.1)).0,
        )
        | inr (inr (done, e)) ↦ inl (
          sym result ∙ done,
          vring_start-started dev.memory_map dev.vdev vring ram (sym result ∙ done),
          e
              ∙ ap
                  (λ (r : ℤ × Vring × Ram). record {
                    dev = with_vring dev i r.1;
                    ram = r.2;
                    calls = [];
                  })
                  start,
        )
      ]

  served-IsSized :
      (vring.is_started ≡ true → (vring_cb dev.vdev vring ram).1.size ≡ vring.size)
      → IsSized vring
      → IsSized served.1
  unfolding serve_kick
  served-IsSized kept p =
      by_test (λ (r : ℤ × Vring × Ram). IsSized r.1) vring.is_started
        (λ t. omega (arith, kept t, p))
        (λ t. omega (arith, vring_start-size dev.memory_map dev.vdev vring ram, p))

  on_kick-IsDev :
      (read_ok : Bool)
      → (read_ok ≡ true
          → vring.is_started ≡ true
          → (vring_cb dev.vdev vring ram).1.size ≡ vring.size)
      → IsDev dev
      → IsSized vring
      → IsDev (on_kick vring_cb read_ok dev i vring ram).dev
  unfolding on_kick
  on_kick-IsDev false kept d p = vhost_reset_dev-IsDev dev d
  on_kick-IsDev true kept d p =
      let served_dev = with_vring-IsDev dev i served.1 d (served-IsSized (kept refl) p) in
      by_if (λ (k : Kicked). IsDev k.dev) (not (served.0 ==ℤ ok 0))
        (vhost_reset_dev-IsDev (with_vring dev i served.1) served_dev) served_dev

  -- An event of a kick descriptor, whatever it is, keeps the invariant of the device, if the client's
  -- handler, where it is called, leaves the size of the vring alone.
  pub handle_vring_event-IsDev :
      (hung_up readable read_ok : Bool)
      → (asks_client hung_up readable read_ok vring ≡ true
          → (vring_cb dev.vdev vring ram).1.size ≡ vring.size)
      → IsDev dev
      → IsSized vring
      → IsDev (handle_vring_event vring_cb hung_up readable read_ok dev i vring ram).dev
  unfolding handle_vring_event
  handle_vring_event-IsDev true readable read_ok kept d p =
      with_vring-IsDev dev i (record vring { kickfd = minus_one }) d p
  handle_vring_event-IsDev false true read_ok kept d p =
      on_kick-IsDev read_ok (λ t u. kept (rw (t, u) refl)) d p
  handle_vring_event-IsDev false false read_ok kept d p = d
