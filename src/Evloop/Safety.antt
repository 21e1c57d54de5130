-- ===== src/Evloop/Safety.antt =====
-- `evloop_run` as a whole, and the state of the loop between its calls.
use libvhost_user.Base.{
  ℕ, zero, suc, ◌+◌, ◌<◌, ◌≡◌, ◌≢◌, refl, subst, sym, ◌∙◌, Option, none, some, List, [], ◌∷◌, ◌++◌,
  arith, inl, inr, Option-cases, length, length-append, get_elem?, drop, All, ℤ, minus_one,
}
use libvhost_user.Base.{pos as ok}
use libvhost_user.Evloop.{
  EpollEvent, Waited, ready, interrupted, failed, Epoll, ev_max, EventLoop, deref, find_fd,
}
use libvhost_user.Evloop.Registry.{IsEpoll, ptr_of, find-live}
use libvhost_user.Evloop.Handler.{
  EventCb, Ran, returned, with_events, dispatch, dispatch_from, run_waited, evloop_run,
}
use libvhost_user.Evloop.Run.{IsSound}
use libvhost_user.Evloop.Dispatch.{IsSafe, IsAt, then_run-IsSafe, dispatch_from-IsSafe}

get_All :
    (P : EpollEvent → Type 0) (evs rest : List EpollEvent) (j : ℕ) (ev : EpollEvent)
    → All P evs
    → j < length evs
    → get_elem? (evs ++ rest) j ≡ some ev
    → P ev
get_All P [] rest j ev all h e = absurd (omega arith)
get_All P (x ∷ evs) rest zero ev (p, all) h e =
    let same : x ≡ ev = ground arith in subst {A = EpollEvent} P same p
get_All P (x ∷ evs) rest (suc j) ev (p, all) h e = get_All P evs rest j ev all (omega arith) e

module _ {K S : Type 0} (sys : Epoll K) (interest : K → ℤ → Option ℕ) (laws : IsEpoll sys interest)
    (cbs : ℕ → EventCb S) where
  known_live :
      (l : EventLoop K) (p : ℕ) (fd : ℤ)
      → ptr_of (find_fd l.ev_map fd) ≡ some p
      → deref l.ev_map p ≢ none
  unfolding ptr_of
  known_live l p fd e = elim (Option-cases (find_fd l.ev_map fd)) [
    | inl x ↦ absurd (ground (arith, e, x))
    | inr (ctx, x) ↦
        let found : some ctx.ptr ≡ some p = rw x at e in
        let same : ctx.ptr ≡ p = cc in rw (sym same) (find-live l.ev_map fd ctx x)
  ]

  -- A loop between two calls of `evloop_run`.
  abbrev pub IsAtRest : EventLoop K → Type 0
  IsAtRest l = IsSound interest (l.ev_pos + 1) l

  with_events-IsAt :
      (l : EventLoop K) (k : K) (evs : List EpollEvent)
      → IsAtRest l
      → ((fd : ℤ) → interest k fd ≡ interest l.epoll fd)
      → All (λ (ev : EpollEvent). (fd : ℤ) × (interest l.epoll fd ≡ some ev.ptr)) evs
      → IsAt sys interest laws cbs 0 0 (length evs) (with_events sys cbs l k evs)
  unfolding with_events
  with_events-IsAt l k evs s same all = record {
    sound = record {
      unique = s.unique;
      agrees = λ fd. s.agrees fd ∙ sym (same fd);
      room = omega (arith, length-append evs (drop (length evs) l.ev_inflight));
      later = λ j ev lo hi g z.
          let (fd, known) =
            get_All (λ (ev : EpollEvent). (fd : ℤ) × (interest l.epoll fd ≡ some ev.ptr)) evs
              (drop (length evs) l.ev_inflight) j ev all hi g in
          known_live l ev.ptr fd (s.agrees fd ∙ known);
    };
    pos_is = refl;
    count_is = refl;
  }

  -- What a call of `evloop_run` returns leaves the loop at rest.
  abbrev pub Rested : ℤ × EventLoop K × S → Type 0
  Rested r = IsAtRest r.1

  dispatch-IsSafe :
      (l : EventLoop K) (k : K) (evs : List EpollEvent) (s : S)
      → IsAt sys interest laws cbs 0 0 (length evs) (with_events sys cbs l k evs)
      → IsSafe Rested (dispatch sys cbs l k evs s)
  unfolding dispatch
  dispatch-IsSafe l k evs s a =
      let n = length evs in
      then_run-IsSafe (λ (r : EventLoop K × S). IsAt sys interest laws cbs n n n r.0) Rested
        (dispatch_from sys cbs n (with_events sys cbs l k evs) s) (λ r. returned (ok 0, r.0, r.1))
        (dispatch_from-IsSafe sys interest laws cbs n 0 n (with_events sys cbs l k evs) s
          (omega arith) a)
        (λ r e b.
          unfold IsSafe in
          record {
            unique = b.sound.unique;
            agrees = b.sound.agrees;
            room = b.sound.room;
            later = λ j ev lo hi. absurd (omega (arith, b.pos_is, b.count_is));
          })

  kept-IsAtRest :
      (l : EventLoop K) (k : K)
      → IsAtRest l
      → ((fd : ℤ) → interest k fd ≡ interest l.epoll fd)
      → IsAtRest (record l { epoll = k })
  kept-IsAtRest l k s same = record {
    unique = s.unique;
    agrees = λ fd. s.agrees fd ∙ sym (same fd);
    room = s.room;
    later = s.later;
  }

  -- A call of `evloop_run` on a loop at rest never calls the handler of a context that has been
  -- freed, whatever the handlers do with the loop; if it returns, the loop is at rest again.
  pub evloop_run-IsSafe :
      (fuel : ℕ) (l : EventLoop K) (s : S) (r : Ran (ℤ × EventLoop K × S))
      → IsAtRest l
      → evloop_run sys cbs fuel l s ≡ some r
      → IsSafe Rested r
  unfolding evloop_run
  evloop_run-IsSafe zero l s r a e = absurd (ground arith)
  evloop_run-IsSafe (suc fuel) l s r a e =
      waited (evloop_run-IsSafe fuel) (sys.wait l.epoll ev_max) (laws.wait_keeps l.epoll ev_max)
        (laws.wait_known l.epoll ev_max) e
    where
      waited :
          ((l' : EventLoop K) (s' : S) (r' : Ran (ℤ × EventLoop K × S))
            → IsAtRest l'
            → evloop_run sys cbs fuel l' s' ≡ some r'
            → IsSafe Rested r')
          → (w : Waited × K) → ((fd : ℤ) → interest w.1 fd ≡ interest l.epoll fd)
          → ((evs : List EpollEvent)
              → w.0 ≡ ready evs
              → All (λ (ev : EpollEvent). (fd : ℤ) × (interest l.epoll fd ≡ some ev.ptr)) evs)
          → run_waited sys cbs (λ l'. evloop_run sys cbs fuel l' s) w l s ≡ some r
          → IsSafe Rested r
      waited ih (ready evs, k) same known e =
          unfold run_waited in
          let out : dispatch sys cbs l k evs s ≡ r = cc in
          subst {A = Ran (ℤ × EventLoop K × S)} (IsSafe Rested) out
            (dispatch-IsSafe l k evs s (with_events-IsAt l k evs a same (known evs refl)))
      waited ih (failed, k) same known e =
          unfold run_waited in
          let out : returned (minus_one, record l { epoll = k }, s) ≡ r = cc in
          subst {A = Ran (ℤ × EventLoop K × S)} (IsSafe Rested) out
            (unfold IsSafe in kept-IsAtRest l k a same)
      waited ih (interrupted, k) same known e =
          unfold run_waited in ih (record l { epoll = k }) s r (kept-IsAtRest l k a same) e
