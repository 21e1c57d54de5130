-- ===== src/Vhost/Loop.antt =====
-- The calls of vhost.c at the event loop: `vhost_evloop_add_fd` and `vhost_evloop_del_fd`.
use libvhost_user.Base.{
  ℕ, ◌≡◌, refl, ap, subst, sym, ◌∙◌, Option, some, List, [], ◌∷◌, ◌++◌, ◌>>=◌, arith, inl, inr,
  Option-cases, ℤ,
}
use libvhost_user.System.{Call, eventfd_write, close, add_fd, del_fd, munmap}
use libvhost_user.Evloop.{Epoll, EventLoop, evloop_add_fd, evloop_del_fd}

module _ {K : Type 0} (sys : Epoll K) where
  -- `vhost_evloop_add_fd` and `vhost_evloop_del_fd` take no notice of the result.
  unfoldable pub vhost_evloop_del_fd : EventLoop K → ℤ → Option (EventLoop K)
  vhost_evloop_del_fd l fd = evloop_del_fd sys l fd >>= λ r. some r.1

  unfoldable pub vhost_evloop_add_fd : EventLoop K → (fd : ℤ) → (mask cb : ℕ) → EventLoop K
  vhost_evloop_add_fd l fd mask cb = (evloop_add_fd sys l fd mask cb).1

  -- A call, where a descriptor is watched with the event mask and the callback that are given. The
  -- others do nothing to the loop.
  unfoldable pub run_call : (mask cb : ℤ → ℕ) → EventLoop K → Call → Option (EventLoop K)
  run_call mask cb l (add_fd fd) = some (vhost_evloop_add_fd l fd (mask fd) (cb fd))
  run_call mask cb l (del_fd fd) = vhost_evloop_del_fd l fd
  run_call mask cb l (eventfd_write fd n) = some l
  run_call mask cb l (close fd) = some l
  run_call mask cb l (munmap hva len) = some l

  -- The calls in their order; `none` is a read of a context that has been freed.
  unfoldable pub run_calls : (mask cb : ℤ → ℕ) → List Call → EventLoop K → Option (EventLoop K)
  run_calls mask cb [] l = some l
  run_calls mask cb (c ∷ cs) l = run_call mask cb l c >>= run_calls mask cb cs

module _ {K : Type 0} (sys : Epoll K) (mask cb : ℤ → ℕ) where
  -- What holds after the calls, if they get that far.
  abbrev pub After : (EventLoop K → Type 0) → List Call → EventLoop K → Type 0
  After P cs l = (l' : EventLoop K) → run_calls sys mask cb cs l ≡ some l' → P l'

  pub run_calls-append :
      (xs ys : List Call) (l : EventLoop K)
      → run_calls sys mask cb (xs ++ ys) l
        ≡ (run_calls sys mask cb xs l >>= run_calls sys mask cb ys)
  unfolding run_calls
  run_calls-append [] ys l = refl
  run_calls-append (c ∷ xs) ys l = elim (Option-cases (run_call sys mask cb l c)) [
    | inl e ↦ rw e refl
    | inr (l', e) ↦ rw e (run_calls-append xs ys l')
  ]

  pub After-append :
      (P Q : EventLoop K → Type 0) (xs ys : List Call) (l : EventLoop K)
      → After P xs l
      → ((l' : EventLoop K) → P l' → After Q ys l')
      → After Q (xs ++ ys) l
  After-append P Q xs ys l p q l' e = elim (Option-cases (run_calls sys mask cb xs l)) [
    | inl x ↦ absurd (ground (arith, e, x, run_calls-append xs ys l))
    | inr (m, x) ↦
        q m (p m x) l'
          (ap (λ o. o >>= run_calls sys mask cb ys) (sym x) ∙ sym (run_calls-append xs ys l) ∙ e)
  ]

  pub After-del :
      (P : EventLoop K → Type 0) (fd : ℤ) (cs : List Call) (l : EventLoop K)
      → ((r : ℤ) (l' : EventLoop K) → evloop_del_fd sys l fd ≡ some (r, l') → After P cs l')
      → After P (del_fd fd ∷ cs) l
  unfolding run_calls run_call vhost_evloop_del_fd
  After-del P fd cs l p l' e = elim (Option-cases (evloop_del_fd sys l fd)) [
    | inl x ↦ absurd (ground (arith, e, x))
    | inr ((r, m), x) ↦ p r m x l' (rw x at e)
  ]

  pub After-close :
      (P : EventLoop K → Type 0) (fd : ℤ) (cs : List Call) (l : EventLoop K)
      → After P cs l
      → After P (close fd ∷ cs) l
  unfolding run_calls run_call
  After-close P fd cs l p l' e = p l' e

  pub After-end : (P : EventLoop K → Type 0) (l : EventLoop K) → P l → After P [] l
  unfolding run_calls
  After-end P l p l' e = let same : l ≡ l' = cc in subst {A = EventLoop K} P same p
