-- ===== src/Vhost/LifeTests.antt =====
-- The life of the device of Fixture, and a device with two queues at the event loop.
use libvhost_user.Base.{
  ℕ, ◌≡◌, refl, true, false, none, some, [], ◌∷◌, arith, ℤ, is_neg, minus_one, ◌==ℤ◌, get_elem?,
}
use libvhost_user.Base.{pos as ok}
use libvhost_user.System.{close}
use libvhost_user.Evloop.Fixture.{lookup, kernel, kernel-IsEpoll}
use libvhost_user.Evloop.Scene.{busy, busy-IsSound}
use libvhost_user.Evloop.{deref}
use libvhost_user.Evloop.Marks.{ptr_at}
use libvhost_user.Vhost.Device.{Vring, VhostDev}
use libvhost_user.Vhost.Dispatch.{vhost_reset_dev}
use libvhost_user.Vhost.Event.{zeroed_vring}
use libvhost_user.Vhost.Server.{create_listen_socket, register_on_path}
use libvhost_user.Vhost.Sized.{IsDev}
use libvhost_user.Vhost.LifeCycle.{Reach-IsDev}
use libvhost_user.Vhost.Loop.{run_calls}
use libvhost_user.Vhost.Disconnect.{vhost_reset_dev-reads_freed}
use libvhost_user.Vhost.Session.{connected_dev, reached_connected}
use libvhost_user.Vhost.Fixture.{nic, dev, registered, register_works, serves, serves-IsLawful}

Reach-IsDev_example :
    IsDev connected_dev
    × ((i : ℕ) (v : Vring)
        → get_elem? connected_dev.vrings i ≡ some v
        → (v.kickfd ==ℤ minus_one) ≡ false
        → is_neg connected_dev.connfd ≡ false)
Reach-IsDev_example =
    Reach-IsDev true serves serves-IsLawful (ok 3) 1 nic registered connected_dev register_works
      (reached_connected serves)

-- A path that just fits without the zero at its end is taken.
long_path :
    create_listen_socket 108 (record { sockfd = ok 9; bind_ok = true; listen_ok = true; errno = 0 })
    ≡ (ok 9, [])
unfolding create_listen_socket
long_path = refl

-- The socket of a device whose address is taken is closed.
address_taken :
    register_on_path [] 10
      (record { sockfd = ok 9; bind_ok = false; listen_ok = true; errno = 98 })
      1
      nic
    ≡ (minus_one, [], close (ok 9) ∷ [])
unfolding register_on_path create_listen_socket
address_taken = refl

abbrev kicked : ℤ → Vring
kicked fd = record zeroed_vring { kickfd = fd }

abbrev two_queues : VhostDev
two_queues = record dev { connfd = ok 7; vrings = kicked (ok 6) ∷ kicked (ok 5) ∷ [] }

vhost_reset_dev-reads_freed_example :
    run_calls kernel (λ _. 17) (λ _. 0) (vhost_reset_dev two_queues).1 busy ≡ none
unfolding ptr_at deref
vhost_reset_dev-reads_freed_example =
    vhost_reset_dev-reads_freed kernel lookup kernel-IsEpoll (λ _. 17) (λ _. 0) busy 1 1
      (record { ptr = 1; fd = ok 6; cb = 1 }) two_queues (kicked (ok 6)) (kicked (ok 5)) [] refl
      refl refl refl refl refl busy-IsSound (omega arith) (omega arith) refl refl refl
      (λ n. absurd (ground arith))
