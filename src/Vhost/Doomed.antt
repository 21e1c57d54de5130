-- ===== src/Vhost/Doomed.antt =====
-- An event still to come, and the descriptors that a reset stops watching.
use libvhost_user.Base.{
  ℕ, ◌+◌, ◌-◌, ◌<◌, ◌≡◌, ◌≢◌, ap, subst, sym, ◌∙◌, false, Option, none, some, List, ◌∷◌, arith, inl,
  inr, ℤ, ◌==ℤ◌, ==ℤ→eq,
}
use libvhost_user.Base.{pos as ok}
use libvhost_user.System.{Call, del_fd}
use libvhost_user.Evloop.{EventCtx, Epoll, EventLoop, deref, find_fd, evloop_del_fd}
use libvhost_user.Evloop.Registry.{IsEpoll, ptr_of, deref-found, deref-remove_ne}
use libvhost_user.Evloop.Marks.{ptr_at, ignore_from-IsIgnored}
use libvhost_user.Evloop.Deletion.{evloop_del_fd-cases}
use libvhost_user.Evloop.Run.{IsSound, none_of_ptr_of, evloop_del_fd-IsSound}
use libvhost_user.Evloop.Stale.{IsFreed, IsDeleted-IsFreed, evloop_del_fd_of_freed}
use libvhost_user.Vhost.Loop.{After, After-del}

module _ {K : Type 0} (sys : Epoll K) (interest : K → ℤ → Option ℕ) (laws : IsEpoll sys interest)
    (mask cb : ℤ → ℕ) (j p : ℕ) (ctx : EventCtx) (other : ℤ) where
  -- An event of a descriptor is still to come, and another descriptor is watched.
  pub record IsWaiting (l : EventLoop K) : Type 0 where
    pub sound : IsSound interest (l.ev_pos + 1) l
    pub pending : l.ev_pos < j
    pub arrived : j < l.ev_count
    pub points : ptr_at l.ev_inflight j ≡ some p
    pub live : deref l.ev_map p ≡ some ctx
    pub watched : interest l.epoll other ≢ none

  -- That event's context has been freed.
  pub record IsDoomed (l : EventLoop K) : Type 0 where
    pub freed : IsFreed sys l j p
    pub watched : interest l.epoll other ≢ none

  pub still_watched :
      (l : EventLoop K) (fd : ℤ)
      → (fd ==ℤ other) ≡ false
      → interest l.epoll other ≢ none
      → interest (sys.ctl_del l.epoll fd).1 other ≢ none
  still_watched l fd apart known n = known (sym (laws.del_there l.epoll fd other apart) ∙ n)

  pub del-IsWaiting :
      (l l' : EventLoop K) (fd r : ℤ)
      → IsWaiting l
      → (ctx.fd ==ℤ fd) ≡ false
      → (fd ==ℤ other) ≡ false
      → evloop_del_fd sys l fd ≡ some (r, l')
      → IsWaiting l'
  del-IsWaiting l l' fd r w far apart e =
      let (s, place, more) = evloop_del_fd-IsSound sys interest laws l fd r l' w.sound e in
      let known = still_watched l fd apart w.watched in
      let sound : IsSound interest (l'.ev_pos + 1) l' =
        subst {A = ℕ} (λ n. IsSound interest (n + 1) l') (sym place.pos_kept) s in
      elim (evloop_del_fd-cases sys l fd r l' e) [
        | inl (res, d) ↦
            let i =
              ignore_from-IsIgnored l.ev_map fd (l.ev_count - (l.ev_pos + 1)) (l.ev_pos + 1)
                l.ev_inflight d.evs d.ignored in
            record {
              sound = sound;
              pending = omega (arith, place.pos_kept, w.pending);
              arrived = omega (arith, place.count_kept, w.arrived);
              points =
                  sym (ap (λ (t : EventLoop K). ptr_at t.ev_inflight j) d.left)
                  ∙ i.ptrs j
                  ∙ w.points;
              live =
                  sym (ap (λ (t : EventLoop K). deref t.ev_map p) d.left)
                  ∙ deref-remove_ne l.ev_map fd p ctx w.live far;
              watched = subst {A = EventLoop K} (λ t. interest t.epoll other ≢ none) d.left known;
            }
        | inr (inl (res, t, same)) ↦ record {
          sound = sound;
          pending = omega (arith, place.pos_kept, w.pending);
          arrived = omega (arith, place.count_kept, w.arrived);
          points = sym (ap (λ (t : EventLoop K). ptr_at t.ev_inflight j) same) ∙ w.points;
          live = sym (ap (λ (t : EventLoop K). deref t.ev_map p) same) ∙ w.live;
          watched = subst {A = EventLoop K} (λ t. interest t.epoll other ≢ none) same known;
        }
        | inr (inr (res, t, n)) ↦ absurd (
            laws.del_known l.epoll fd (==ℤ→eq (sys.ctl_del l.epoll fd).0 (ok 0) t)
              (sym (w.sound.agrees fd) ∙ (unfold ptr_of in ap ptr_of n)))
      ]

  pub del-IsDoomed :
      (l l' : EventLoop K) (fd r : ℤ)
      → IsWaiting l
      → ctx.fd ≡ fd
      → (fd ==ℤ other) ≡ false
      → evloop_del_fd sys l fd ≡ some (r, l')
      → IsDoomed l'
  del-IsDoomed l l' fd r w same apart e =
      let known = still_watched l fd apart w.watched in
      elim (evloop_del_fd-cases sys l fd r l' e) [
        | inl (res, d) ↦ record {
          freed =
              IsDeleted-IsFreed sys l l' fd j p ctx w.sound.unique w.pending w.arrived w.points
                w.live same d;
          watched = subst {A = EventLoop K} (λ t. interest t.epoll other ≢ none) d.left known;
        }
        | inr (inl (res, t, left)) ↦
            let known_fd : interest l.epoll fd ≢ none = λ n. deref-found l.ev_map p ctx w.live (
              none_of_ptr_of (find_fd l.ev_map ctx.fd)
                (w.sound.agrees ctx.fd ∙ ap (interest l.epoll) same ∙ n)) in
            absurd (ground (arith, t, laws.del_works l.epoll fd known_fd))
        | inr (inr (res, t, n)) ↦ absurd (
            laws.del_known l.epoll fd (==ℤ→eq (sys.ctl_del l.epoll fd).0 (ok 0) t)
              (sym (w.sound.agrees fd) ∙ (unfold ptr_of in ap ptr_of n)))
      ]

  pub doomed_end :
      (l : EventLoop K) (cs : List Call)
      → IsDoomed l
      → After sys mask cb (λ _. ⊥) (del_fd other ∷ cs) l
  doomed_end l cs d =
      After-del sys mask cb (λ _. ⊥) other cs l
        (λ r l' e. absurd (
          ground (
            arith,
            e,
            evloop_del_fd_of_freed sys l other j p d.freed (laws.del_works l.epoll other d.watched),
          )))
