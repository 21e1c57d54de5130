-- ===== src/Evloop/Run.antt =====
-- A round of `evloop_run`: what is called is registered.
use libvhost_user.Base.{
  ℕ, ◌+◌, ◌-◌, ◌≤◌, ◌<◌, ◌≡◌, ◌≢◌, ◌⊎◌, refl, ap, subst, sym, ◌∙◌, false, Option, none, some, List,
  ◌∷◌, arith, inl, inr, Bool-cases, length, get_elem?, bit_and, bit_or, ℤ, ◌==ℤ◌, minus_one,
}
use libvhost_user.Base.{pos as ok}
use libvhost_user.Evloop.{
  EventCtx, EpollEvent, Epoll, EventLoop, deref, find_fd, remove_fd, epollin, epollhup,
  evloop_add_fd, evloop_del_fd,
}
use libvhost_user.Base.{==ℤ→eq}
use libvhost_user.Evloop.Registry.{
  IsEpoll, IsUnique, ptr_of, find-remove_ne, find-remove_self, remove-IsUnique, deref-remove_ne,
}
use libvhost_user.Evloop.Marks.{IsIgnored, ignore_from-IsIgnored}
use libvhost_user.Evloop.Deletion.{without_fd, evloop_del_fd-cases}

-- The contexts are apart and are what the kernel watches, and the events from `from` on that have
-- not been marked as ignored are of live contexts.
pub record IsSound {K : Type 0} (interest : K → ℤ → Option ℕ) (from : ℕ) (l : EventLoop K)
    : Type 0 where
  pub unique : IsUnique l.ev_map
  pub agrees : (fd : ℤ) → ptr_of (find_fd l.ev_map fd) ≡ interest l.epoll fd
  pub room : l.ev_count ≤ length l.ev_inflight
  pub later :
      (j : ℕ) (ev : EpollEvent)
      → from ≤ j
      → j < l.ev_count
      → get_elem? l.ev_inflight j ≡ some ev
      → ev.events ≢ 0
      → deref l.ev_map ev.ptr ≢ none

-- The same events, at the same place.
pub record IsSamePlace {K : Type 0} (l l' : EventLoop K) : Type 0 where
  pub pos_kept : l'.ev_pos ≡ l.ev_pos
  pub count_kept : l'.ev_count ≡ l.ev_count

pub none_of_ptr_of : (o : Option EventCtx) → ptr_of o ≡ none → o ≡ none
unfolding ptr_of
none_of_ptr_of none e = refl
none_of_ptr_of (some c) e = absurd (ground arith)

module _ {K : Type 0} (sys : Epoll K) (interest : K → ℤ → Option ℕ)
    (laws : IsEpoll sys interest) where
  -- What `evloop_add_fd` does to the descriptors that are watched.
  abbrev pub Added : EventLoop K → ℤ → ℤ × EventLoop K → Type 0
  Added l fd r =
      ((r.0 ≡ ok 0)
        × (find_fd l.ev_map fd ≡ none)
        × ((ctx : EventCtx) × (r.1.ev_map ≡ ctx ∷ l.ev_map) × (ctx.fd ≡ fd)))
      ⊎ ((r.0 ≡ minus_one) × (r.1.ev_map ≡ l.ev_map))

  added :
      (from : ℕ) (l : EventLoop K) (fd : ℤ) (events cb : ℕ)
      → IsSound interest from l
      → let p = sys.malloc l.epoll l.ev_map in
        (sys.ctl_add l.epoll fd events p).0 ≡ ok 0
        → IsSound interest from (record l {
          epoll = (sys.ctl_add l.epoll fd events p).1;
          ev_map = record { ptr = p; fd = fd; cb = cb } ∷ l.ev_map;
        })
  unfolding IsUnique find_fd deref ptr_of
  added from l fd events cb s e =
      let p = sys.malloc l.epoll l.ev_map in
      record {
        unique = (
          none_of_ptr_of (find_fd l.ev_map fd) (s.agrees fd ∙ laws.add_new l.epoll fd events p e),
          laws.malloc_fresh l.epoll l.ev_map,
          s.unique,
        );
        agrees = λ fd'. elim (Bool-cases (fd ==ℤ fd')) [
          | inl t ↦ rw t (
              sym (laws.add_here l.epoll fd events p e)
              ∙ ap (interest (sys.ctl_add l.epoll fd events p).1) (==ℤ→eq fd fd' t))
          | inr t ↦ rw t (s.agrees fd' ∙ sym (laws.add_there l.epoll fd fd' events p t))
        ];
        room = s.room;
        later = λ j ev a b g z n.
            let live : deref l.ev_map ev.ptr ≢ none = s.later j ev a b g z in
            absurd (ground (arith, n, live));
      }

  pub evloop_add_fd-IsSound :
      (from : ℕ) (l : EventLoop K) (fd : ℤ) (mask cb : ℕ)
      → IsSound interest from l
      → let r = evloop_add_fd sys l fd mask cb in
        IsSound interest from r.1 × IsSamePlace l r.1 × Added l fd r
  unfolding evloop_add_fd
  evloop_add_fd-IsSound from l fd mask cb s =
      let p = sys.malloc l.epoll l.ev_map in
      let events = bit_and mask (bit_or epollin epollhup) in
      elim (Bool-cases ((sys.ctl_add l.epoll fd events p).0 ==ℤ ok 0)) [
        | inl t ↦
            let e = ==ℤ→eq (sys.ctl_add l.epoll fd events p).0 (ok 0) t in
            rw t (
              added from l fd events cb s e,
              record { pos_kept = refl; count_kept = refl },
              inl (
                refl,
                none_of_ptr_of (find_fd l.ev_map fd)
                    (s.agrees fd ∙ laws.add_new l.epoll fd events p e),
                (record { ptr = p; fd = fd; cb = cb }, refl, refl),
              ),
            )
        | inr t ↦ rw t (
          record {
            unique = s.unique;
            agrees = λ fd'. s.agrees fd' ∙ sym (laws.add_fails l.epoll fd fd' events p t);
            room = s.room;
            later = s.later;
          },
          record { pos_kept = refl; count_kept = refl },
          inr (refl, refl),
        )
      ]

  -- What `evloop_del_fd` does to the descriptors that are watched.
  abbrev pub Deleted : EventLoop K → ℤ → ℤ × EventLoop K → Type 0
  Deleted l fd r =
      ((r.0 ≡ ok 0)
        × (find_fd l.ev_map fd ≢ none)
        × (find_fd r.1.ev_map fd ≡ none)
        × ((fd' : ℤ) → (fd ==ℤ fd') ≡ false → find_fd r.1.ev_map fd' ≡ find_fd l.ev_map fd'))
      ⊎ ((r.0 ≡ minus_one) × (r.1.ev_map ≡ l.ev_map))

  left-IsSound :
      (l : EventLoop K) (fd : ℤ) (evs : List EpollEvent)
      → IsSound interest (l.ev_pos + 1) l
      → (sys.ctl_del l.epoll fd).0 ≡ ok 0
      → IsIgnored l.ev_map fd (l.ev_count - (l.ev_pos + 1)) (l.ev_pos + 1) l.ev_inflight evs
      → IsSound interest (l.ev_pos + 1) (without_fd sys l fd evs)
  left-IsSound l fd evs s e i = record {
    unique = remove-IsUnique l.ev_map fd s.unique;
    agrees = λ fd'. elim (Bool-cases (fd ==ℤ fd')) [
      | inl t ↦
          let same = ==ℤ→eq fd fd' t in
          subst {A = ℤ}
            (λ x.
              ptr_of (find_fd (remove_fd l.ev_map fd) x) ≡ interest (sys.ctl_del l.epoll fd).1 x)
            same
            (ap ptr_of (find-remove_self l.ev_map fd s.unique)
              ∙ (unfold ptr_of in sym (laws.del_here l.epoll fd e)))
      | inr t ↦
          ap ptr_of (find-remove_ne l.ev_map fd fd' t)
          ∙ s.agrees fd'
          ∙ sym (laws.del_there l.epoll fd fd' t)
    ];
    room = omega (arith, i.len, s.room);
    later = λ j ev a b g z n.
        let (ctx, live, apart) = i.others j ev a (omega arith) g z in
        let still = deref-remove_ne l.ev_map fd ev.ptr ctx live apart in
        absurd (ground (arith, n, still));
  }

  -- `evloop_del_fd` keeps the state of the loop sound, and never finds that there is no context.
  pub evloop_del_fd-IsSound :
      (l : EventLoop K) (fd r : ℤ) (l' : EventLoop K)
      → IsSound interest (l.ev_pos + 1) l
      → evloop_del_fd sys l fd ≡ some (r, l')
      → IsSound interest (l.ev_pos + 1) l' × IsSamePlace l l' × Deleted l fd (r, l')
  evloop_del_fd-IsSound l fd r l' s e = elim (evloop_del_fd-cases sys l fd r l' e) [
    | inl (res, d) ↦
        let ctl = ==ℤ→eq (sys.ctl_del l.epoll fd).0 (ok 0) d.ctl_ok in
        subst {A = EventLoop K}
          (λ t. IsSound interest (l.ev_pos + 1) t × IsSamePlace l t × Deleted l fd (r, t)) d.left
          (
            left-IsSound l fd d.evs s ctl (
                ignore_from-IsIgnored l.ev_map fd (l.ev_count - (l.ev_pos + 1)) (l.ev_pos + 1)
                  l.ev_inflight d.evs d.ignored),
            record { pos_kept = refl; count_kept = refl },
            inl (
              res,
              (λ n. absurd (ground (arith, n, d.found))),
              find-remove_self l.ev_map fd s.unique,
              (λ fd' t. find-remove_ne l.ev_map fd fd' t),
            ),
          )
    | inr (inl (res, t, same)) ↦
        subst {A = EventLoop K}
          (λ t. IsSound interest (l.ev_pos + 1) t × IsSamePlace l t × Deleted l fd (r, t)) same
          (
            record {
              unique = s.unique;
              agrees = λ fd'. s.agrees fd' ∙ sym (laws.del_fails l.epoll fd fd' t);
              room = s.room;
              later = s.later;
            },
            record { pos_kept = refl; count_kept = refl },
            inr (res, refl),
          )
    | inr (inr (res, t, n)) ↦ absurd (
        laws.del_known l.epoll fd (==ℤ→eq (sys.ctl_del l.epoll fd).0 (ok 0) t)
          (sym (s.agrees fd) ∙ (unfold ptr_of in ap ptr_of n)))
  ]
