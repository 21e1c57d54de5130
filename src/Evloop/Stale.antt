-- ===== src/Evloop/Stale.antt =====
-- Two descriptors that one callback stops watching.
use libvhost_user.Base.{
  ℕ, ◌+◌, ◌-◌, ◌<◌, ◌≡◌, refl, ap, subst, ◌∙◌, none, some, arith, inl, inr, ℤ, ◌==ℤ◌,
}
use libvhost_user.Base.{pos as ok}
use libvhost_user.Evloop.{EventCtx, Epoll, EventLoop, deref, del_registered, evloop_del_fd}
use libvhost_user.Base.{==ℤ-self}
use libvhost_user.Evloop.Registry.{IsUnique, deref-remove_self}
use libvhost_user.Evloop.Marks.{ptr_at, ignore_from-IsIgnored, ignore_from_of_freed}
use libvhost_user.Evloop.Deletion.{IsDeleted, evloop_del_fd-cases}

module _ {K : Type 0} (sys : Epoll K) where
  -- An event to come whose context has been freed.
  pub record IsFreed (l : EventLoop K) (j p : ℕ) : Type 0 where
    pub later : l.ev_pos < j
    pub arrived : j < l.ev_count
    pub points : ptr_at l.ev_inflight j ≡ some p
    pub freed : deref l.ev_map p ≡ none

  pub evloop_del_fd_of_freed :
      (l : EventLoop K) (fd : ℤ) (j p : ℕ)
      → IsFreed l j p
      → (sys.ctl_del l.epoll fd).0 ≡ ok 0
      → evloop_del_fd sys l fd ≡ none
  unfolding evloop_del_fd del_registered
  evloop_del_fd_of_freed l fd j p f e =
      let stuck =
        ignore_from_of_freed l.ev_map fd (l.ev_count - (l.ev_pos + 1)) (l.ev_pos + 1) l.ev_inflight
          j p (omega (arith, f.later)) (omega (arith, f.later, f.arrived)) f.points f.freed in
      rw (e, stuck) refl

  pub IsDeleted-IsFreed :
      (l l' : EventLoop K) (fd : ℤ) (j p : ℕ) (ctx : EventCtx)
      → IsUnique l.ev_map
      → l.ev_pos < j
      → j < l.ev_count
      → ptr_at l.ev_inflight j ≡ some p
      → deref l.ev_map p ≡ some ctx
      → ctx.fd ≡ fd
      → IsDeleted sys l fd l'
      → IsFreed l' j p
  IsDeleted-IsFreed l l' fd j p ctx u a b g live same d =
      subst {A = EventLoop K} (λ t. IsFreed t j p) d.left
        (record {
          later = a;
          arrived = b;
          points =
              (ignore_from-IsIgnored l.ev_map fd (l.ev_count - (l.ev_pos + 1)) (l.ev_pos + 1)
                  l.ev_inflight d.evs d.ignored).ptrs
                j
              ∙ g;
          freed =
              deref-remove_self l.ev_map fd p ctx u live
                (ap (λ (t : ℤ). t ==ℤ fd) same ∙ ==ℤ-self fd);
        })

  -- A callback stops watching a descriptor that has an event still to come, then another one that
  -- the kernel watches: the second call reads the context that the first has freed.
  pub evloop_del_fd-reads_freed :
      (l l' : EventLoop K) (fd fd' : ℤ) (j p : ℕ) (ctx : EventCtx)
      → IsUnique l.ev_map
      → l.ev_pos < j
      → j < l.ev_count
      → ptr_at l.ev_inflight j ≡ some p
      → deref l.ev_map p ≡ some ctx
      → ctx.fd ≡ fd
      → evloop_del_fd sys l fd ≡ some (ok 0, l')
      → (sys.ctl_del l'.epoll fd').0 ≡ ok 0
      → evloop_del_fd sys l' fd' ≡ none
  evloop_del_fd-reads_freed l l' fd fd' j p ctx u a b g live same e again =
      elim (evloop_del_fd-cases sys l fd (ok 0) l' e) [
        | inl (r, d) ↦
            evloop_del_fd_of_freed l' fd' j p
              (IsDeleted-IsFreed l l' fd j p ctx u a b g live same d) again
        | inr (inl (r, t, x)) ↦ absurd (ground arith)
        | inr (inr (r, t, n)) ↦ absurd (ground arith)
      ]
