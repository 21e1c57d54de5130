-- ===== src/Evloop/Deletion.antt =====
-- How a call of `evloop_del_fd` may end.
use libvhost_user.Base.{
  ◌+◌, ◌-◌, ◌≡◌, ◌⊎◌, refl, Bool, true, false, Option, none, some, List, arith, inl, inr,
  Bool-cases, Option-cases, ℤ, ◌==ℤ◌, minus_one, enoent,
}
use libvhost_user.Base.{pos as ok}
use libvhost_user.Evloop.{
  EventCtx, EpollEvent, Epoll, EventLoop, find_fd, remove_fd, ignore_from, unlink_fd,
  del_registered, evloop_del_fd,
}

module _ {K : Type 0} (sys : Epoll K) where
  abbrev pub later_ignored : EventLoop K → ℤ → Option (List EpollEvent)
  later_ignored l fd =
      ignore_from l.ev_map fd (l.ev_count - (l.ev_pos + 1)) (l.ev_pos + 1) l.ev_inflight

  abbrev pub without_fd : EventLoop K → ℤ → List EpollEvent → EventLoop K
  without_fd l fd evs = record l {
    epoll = (sys.ctl_del l.epoll fd).1;
    ev_inflight = evs;
    ev_map = remove_fd l.ev_map fd;
  }

  abbrev pub IsCtlOk : EventLoop K → ℤ → Bool → Type 0
  IsCtlOk l fd b = ((sys.ctl_del l.epoll fd).0 ==ℤ ok 0) ≡ b

  -- A call that works has gone through the events to come and has removed the context.
  pub record IsDeleted (l : EventLoop K) (fd : ℤ) (l' : EventLoop K) : Type 0 where
    pub evs : List EpollEvent
    pub ctx : EventCtx
    pub ctl_ok : IsCtlOk l fd true
    pub ignored : later_ignored l fd ≡ some evs
    pub found : find_fd l.ev_map fd ≡ some ctx
    pub left : without_fd l fd evs ≡ l'

  -- It works, or the kernel refuses, or it works but there is no context.
  abbrev pub DelCase : EventLoop K → ℤ → ℤ → EventLoop K → Type 0
  DelCase l fd r l' =
      ((r ≡ ok 0) × IsDeleted l fd l')
      ⊎ ((r ≡ minus_one)
          × IsCtlOk l fd false
          × (record l { epoll = (sys.ctl_del l.epoll fd).1 } ≡ l'))
      ⊎ ((r ≡ enoent) × IsCtlOk l fd true × (find_fd l.ev_map fd ≡ none))

  found_case :
      (l : EventLoop K) (fd r : ℤ) (l' : EventLoop K) (evs : List EpollEvent) (c : Option EventCtx)
      → IsCtlOk l fd true
      → later_ignored l fd ≡ some evs
      → find_fd l.ev_map fd ≡ c
      → unlink_fd (record l { epoll = (sys.ctl_del l.epoll fd).1; ev_inflight = evs }) fd c
        ≡ (r, l')
      → DelCase l fd r l'
  unfolding unlink_fd
  found_case l fd r l' evs none t e f h = inr (inr (cc, t, f))
  found_case l fd r l' evs (some ctx) t e f h =
      inl (cc, record { evs = evs; ctx = ctx; ctl_ok = t; ignored = e; found = f; left = cc })

  refused_case :
      (l : EventLoop K) (fd r : ℤ) (l' : EventLoop K)
      → IsCtlOk l fd false
      → Path
          (Option (ℤ × EventLoop K))
          (some (minus_one, record l { epoll = (sys.ctl_del l.epoll fd).1 }))
          (some (r, l'))
      → DelCase l fd r l'
  refused_case l fd r l' t e = inr (inl (cc, t, cc))

  pub evloop_del_fd-cases :
      (l : EventLoop K) (fd r : ℤ) (l' : EventLoop K)
      → evloop_del_fd sys l fd ≡ some (r, l')
      → DelCase l fd r l'
  unfolding evloop_del_fd del_registered
  evloop_del_fd-cases l fd r l' e = elim (Bool-cases ((sys.ctl_del l.epoll fd).0 ==ℤ ok 0)) [
    | inl t ↦ elim (Option-cases (later_ignored l fd)) [
      | inl x ↦ absurd (ground (arith, e, t, x))
      | inr (evs, x) ↦
          let out : some (
                unlink_fd (record l { epoll = (sys.ctl_del l.epoll fd).1; ev_inflight = evs }) fd
                  (find_fd l.ev_map fd))
              ≡ some (r, l') =
            rw (t, x) at e in
          found_case l fd r l' evs (find_fd l.ev_map fd) t x refl cc
    ]
    | inr t ↦ refused_case l fd r l' t (rw t at e)
  ]
