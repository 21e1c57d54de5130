-- ===== src/Evloop/Waits.antt =====
-- `evloop_run` ends, whatever its handlers do.
use libvhost_user.Base.{ℕ, zero, suc, Bool, true, false}
use libvhost_user.Evloop.{Waited, ready, interrupted, failed, Epoll, ev_max}

abbrev pub is_awake : {K : Type 0} → (K → Bool) → Waited × K → Bool
is_awake again (ready evs, k) = true
is_awake again (failed, k) = true
is_awake again (interrupted, k) = again k

-- One of the first `n` calls of `epoll_wait` is not interrupted by a signal.
abbrev pub wakes : {K : Type 0} → Epoll K → (n : ℕ) → K → Bool
wakes sys zero k = false
wakes sys (suc n) k = is_awake (wakes sys n) (sys.wait k ev_max)
