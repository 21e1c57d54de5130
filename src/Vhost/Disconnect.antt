-- ===== src/Vhost/Disconnect.antt =====
-- A reset of a device while the kick of one of its vrings is still to be handled.
use libvhost_user.Base.{
  ℕ, ◌+◌, ◌<◌, ◌≡◌, ◌≢◌, refl, ap, subst, sym, ◌∙◌, false, Option, none, some, List, [], ◌∷◌, ◌++◌,
  inl, inr, Bool-cases, Option-cases, ℤ, ◌==ℤ◌, ==ℤ-self, minus_one,
}
use libvhost_user.System.{Call, close, del_fd}
use libvhost_user.Evloop.{EventCtx, Epoll, EventLoop, deref}
use libvhost_user.Evloop.Registry.{IsEpoll}
use libvhost_user.Evloop.Marks.{ptr_at}
use libvhost_user.Evloop.Run.{IsSound}
use libvhost_user.Vhost.Device.{Vring, VhostDev}
use libvhost_user.Vhost.Ring.{close_fd_calls, without_kickfd, vring_reset}
use libvhost_user.Vhost.MemTable.{unmap_calls, reset_memory_map}
use libvhost_user.Vhost.Dispatch.{reset_vrings, drop_connection, vhost_reset_dev}
use libvhost_user.Vhost.Loop.{run_calls, After, After-append, After-del, After-close, After-end}
use libvhost_user.Vhost.Doomed.{IsWaiting, IsDoomed, del-IsWaiting, del-IsDoomed, doomed_end}

module _ {K : Type 0} (sys : Epoll K) (interest : K → ℤ → Option ℕ) (laws : IsEpoll sys interest)
    (mask cb : ℤ → ℕ) (j p : ℕ) (ctx : EventCtx) (other : ℤ) where
  After-prefix :
      (P : EventLoop K → Type 0) (xs ys : List Call) (l : EventLoop K)
      → After sys mask cb (λ _. ⊥) xs l
      → After sys mask cb P (xs ++ ys) l
  After-prefix P xs ys l n = After-append sys mask cb (λ _. ⊥) P xs ys l n (λ l' b. absurd b)

  After-quiet :
      (P : EventLoop K → Type 0) (v : Vring) (fd : ℤ) (l : EventLoop K)
      → P l
      → After sys mask cb P (close_fd_calls (without_kickfd v) fd) l
  unfolding close_fd_calls
  After-quiet P v fd l p = elim (Bool-cases (fd ==ℤ minus_one)) [
    | inl t ↦ rw t (After-end sys mask cb P l p)
    | inr t ↦ rw t (After-close sys mask cb P fd [] l (After-end sys mask cb P l p))
  ]

  kick_calls :
      (v : Vring)
      → (v.kickfd ==ℤ minus_one) ≡ false
      → close_fd_calls v v.kickfd ≡ del_fd v.kickfd ∷ close v.kickfd ∷ []
  unfolding close_fd_calls
  kick_calls v h = rw (h, ==ℤ-self v.kickfd) refl

  -- The reset of the vring whose event is still to come.
  first-IsDoomed :
      (v : Vring) (l : EventLoop K)
      → (v.kickfd ==ℤ minus_one) ≡ false
      → ctx.fd ≡ v.kickfd
      → (v.kickfd ==ℤ other) ≡ false
      → IsWaiting sys interest laws mask cb j p ctx other l
      → After sys mask cb
          (IsDoomed sys interest laws mask cb j p ctx other)
          (vring_reset false v).1
          l
  unfolding vring_reset
  first-IsDoomed v l here same apart w =
      let kick = close_fd_calls v v.kickfd in
      let call = close_fd_calls (without_kickfd v) v.callfd in
      let err = close_fd_calls (without_kickfd v) v.errfd in
      After-append sys mask cb (IsDoomed sys interest laws mask cb j p ctx other)
        (IsDoomed sys interest laws mask cb j p ctx other) (kick ++ call) err l
        (After-append sys mask cb (IsDoomed sys interest laws mask cb j p ctx other)
          (IsDoomed sys interest laws mask cb j p ctx other) kick call l
          (subst {A = List Call}
            (λ cs. After sys mask cb (IsDoomed sys interest laws mask cb j p ctx other) cs l)
            (sym (kick_calls v here))
            (After-del sys mask cb (IsDoomed sys interest laws mask cb j p ctx other) v.kickfd
              (close v.kickfd ∷ []) l
              (λ r l' e.
                After-close sys mask cb (IsDoomed sys interest laws mask cb j p ctx other) v.kickfd
                  [] l'
                  (After-end sys mask cb (IsDoomed sys interest laws mask cb j p ctx other) l' (
                    del-IsDoomed sys interest laws mask cb j p ctx other l l' v.kickfd r w same
                      apart e)))))
          (After-quiet (IsDoomed sys interest laws mask cb j p ctx other) v v.callfd))
        (After-quiet (IsDoomed sys interest laws mask cb j p ctx other) v v.errfd)

  second_end :
      (v : Vring) (l : EventLoop K)
      → (v.kickfd ==ℤ minus_one) ≡ false
      → v.kickfd ≡ other
      → IsDoomed sys interest laws mask cb j p ctx other l
      → After sys mask cb (λ _. ⊥) (vring_reset false v).1 l
  unfolding vring_reset
  second_end v l here same d =
      let kick = close_fd_calls v v.kickfd in
      let call = close_fd_calls (without_kickfd v) v.callfd in
      let err = close_fd_calls (without_kickfd v) v.errfd in
      After-prefix (λ _. ⊥) (kick ++ call) err l
        (After-prefix (λ _. ⊥) kick call l
          (subst {A = List Call} (λ cs. After sys mask cb (λ _. ⊥) cs l)
            (sym (kick_calls v here ∙ ap (λ (fd : ℤ). del_fd fd ∷ close v.kickfd ∷ []) same))
            (doomed_end sys interest laws mask cb j p ctx other l (close v.kickfd ∷ []) d)))

  reset_end :
      (v w : Vring) (rest : List Vring) (l : EventLoop K)
      → (v.kickfd ==ℤ minus_one) ≡ false
      → (w.kickfd ==ℤ minus_one) ≡ false
      → ctx.fd ≡ v.kickfd
      → w.kickfd ≡ other
      → (v.kickfd ==ℤ other) ≡ false
      → IsWaiting sys interest laws mask cb j p ctx other l
      → After sys mask cb (λ _. ⊥) (reset_vrings false (v ∷ w ∷ rest)).1 l
  unfolding reset_vrings
  reset_end v w rest l hv hw same_v same_w apart wait =
      After-append sys mask cb (IsDoomed sys interest laws mask cb j p ctx other) (λ _. ⊥)
        (vring_reset false v).1 (reset_vrings false (w ∷ rest)).1 l
        (first-IsDoomed v l hv same_v apart wait)
        (λ l' d.
          After-prefix (λ _. ⊥) (vring_reset false w).1 (reset_vrings false rest).1 l'
            (second_end w l' hw same_w d))

-- A client that hangs up, or is dropped, while the kick of its first vring is still to be handled,
-- when the kernel watches the kick of its second vring too: the calls of the reset read a context
-- that the reset has freed.
pub vhost_reset_dev-reads_freed :
    {K : Type 0} (sys : Epoll K) (interest : K → ℤ → Option ℕ) (laws : IsEpoll sys interest)
    (mask cb : ℤ → ℕ) (l : EventLoop K) (j p : ℕ) (ctx : EventCtx) (dev : VhostDev) (v w : Vring)
    (rest : List Vring)
    → dev.vrings ≡ v ∷ w ∷ rest
    → (v.kickfd ==ℤ minus_one) ≡ false
    → (w.kickfd ==ℤ minus_one) ≡ false
    → (v.kickfd ==ℤ w.kickfd) ≡ false
    → (v.kickfd ==ℤ dev.connfd) ≡ false
    → (dev.connfd ==ℤ w.kickfd) ≡ false
    → IsSound interest (l.ev_pos + 1) l
    → l.ev_pos < j
    → j < l.ev_count
    → ptr_at l.ev_inflight j ≡ some p
    → deref l.ev_map p ≡ some ctx
    → ctx.fd ≡ v.kickfd
    → interest l.epoll w.kickfd ≢ none
    → run_calls sys mask cb (vhost_reset_dev dev).1 l ≡ none
unfolding vhost_reset_dev drop_connection reset_memory_map
vhost_reset_dev-reads_freed sys interest laws mask cb l j p ctx dev v w rest e hv hw apart far near
      s later arrived points live same watched =
    let waiting : IsWaiting sys interest laws mask cb j p ctx w.kickfd l = record {
      sound = s;
      pending = later;
      arrived = arrived;
      points = points;
      live = live;
      watched = watched;
    } in
    let connection = del_fd dev.connfd ∷ close dev.connfd ∷ [] in
    let vrings = (reset_vrings false dev.vrings).1 in
    let P = IsWaiting sys interest laws mask cb j p ctx w.kickfd in
    let conn_far : (ctx.fd ==ℤ dev.connfd) ≡ false = ap (λ (x : ℤ). x ==ℤ dev.connfd) same ∙ far in
    let first : After sys mask cb P connection l =
      After-del sys mask cb P dev.connfd (close dev.connfd ∷ []) l (λ r l' q.
        After-close sys mask cb P dev.connfd [] l' (
          After-end sys mask cb P l' (
            del-IsWaiting sys interest laws mask cb j p ctx w.kickfd l l' dev.connfd r waiting
              conn_far near q))) in
    let second : (l' : EventLoop _) → P l' → After sys mask cb (λ _. ⊥) vrings l' = λ l' a.
      subst {A = List Vring} (λ vs. After sys mask cb (λ _. ⊥) (reset_vrings false vs).1 l') (sym e)
        (reset_end sys interest laws mask cb j p ctx w.kickfd v w rest l' hv hw same refl apart
          a) in
    let whole =
      After-prefix sys interest laws mask cb j p ctx w.kickfd (λ _. ⊥) (connection ++ vrings)
        (unmap_calls dev.memory_map) l
        (After-append sys mask cb P (λ _. ⊥) connection vrings l first second) in
    elim (Option-cases (run_calls sys mask cb (vhost_reset_dev dev).1 l)) [
      | inl x ↦ x
      | inr (l', x) ↦ absurd (whole l' x)
    ]
