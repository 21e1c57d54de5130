-- ===== src/Evloop/Dispatch.antt =====
-- `evloop_run` calls the handlers of contexts that are live.
use libvhost_user.Base.{
  ℕ, zero, suc, ◌+◌, ◌<◌, ◌≡◌, refl, ap, subst, sym, ◌∙◌, Option, none, some, ◌==◌, arith, inl, inr,
  Bool-cases, Option-cases, get_elem?, get_elem?_of_lt, ℤ,
}
use libvhost_user.Evloop.{Epoll, EventLoop, deref, evloop_add_fd, evloop_del_fd}
use libvhost_user.Evloop.Registry.{IsEpoll}
use libvhost_user.Evloop.Handler.{
  Act, done, add, del, EventCb, Ran, returned, freed_in_del, freed_in_run, then_run, deleted,
  run_act, dispatch_ctx, dispatch_event, dispatch_from,
}
use libvhost_user.Evloop.Run.{IsSound, IsSamePlace, evloop_add_fd-IsSound, evloop_del_fd-IsSound}

-- The run does not call the handler of a context that has been freed, and what it returns is so.
unfoldable pub IsSafe : {A : Type 0} → (A → Type 0) → Ran A → Type 0
IsSafe P (returned a) = P a
IsSafe P freed_in_del = Unit
IsSafe P freed_in_run = ⊥

pub then_run-IsSafe :
    {A B : Type 0} (P : A → Type 0) (Q : B → Type 0) (r : Ran A) (f : A → Ran B)
    → IsSafe P r
    → ((a : A) → r ≡ returned a → P a → IsSafe Q (f a))
    → IsSafe Q (then_run r f)
unfolding IsSafe then_run
then_run-IsSafe P Q (returned a) f p q = q a refl p
then_run-IsSafe P Q freed_in_del f p q = tt
then_run-IsSafe P Q freed_in_run f p q = elim p [ ]

module _ {K S : Type 0} (sys : Epoll K) (interest : K → ℤ → Option ℕ) (laws : IsEpoll sys interest)
    (cbs : ℕ → EventCb S) where
  -- In the round of the event at `pos`, of `count`, and after it.
  pub record IsAt (from pos count : ℕ) (l : EventLoop K) : Type 0 where
    pub sound : IsSound interest from l
    pub pos_is : l.ev_pos ≡ pos
    pub count_is : l.ev_count ≡ count

  pub moved :
      {from pos count : ℕ} (l l' : EventLoop K)
      → IsAt from pos count l
      → IsSound interest from l'
      → IsSamePlace l l'
      → IsAt from pos count l'
  moved l l' a s p = record {
    sound = s;
    pos_is = p.pos_kept ∙ a.pos_is;
    count_is = p.count_kept ∙ a.count_is;
  }

  run_act-IsSafe :
      (pos count : ℕ) (act : Act S) (l : EventLoop K)
      → IsAt (pos + 1) pos count l
      → IsSafe (λ (r : EventLoop K × S). IsAt (pos + 1) pos count r.0) (run_act sys cbs act l)
  unfolding run_act
  run_act-IsSafe pos count (done s) l a = unfold IsSafe in a
  run_act-IsSafe pos count (add fd cb f) l a =
      let r = evloop_add_fd sys l fd (cbs cb).events cb in
      let (s, p, more) =
        evloop_add_fd-IsSound sys interest laws (pos + 1) l fd (cbs cb).events cb a.sound in
      run_act-IsSafe pos count (f r.0) r.1 (moved l r.1 a s p)
  run_act-IsSafe pos count (del fd f) l a =
      then_run-IsSafe (λ (r : ℤ × EventLoop K). IsAt (pos + 1) pos count r.1)
        (λ (r : EventLoop K × S). IsAt (pos + 1) pos count r.0) (deleted (evloop_del_fd sys l fd))
        (λ r. run_act sys cbs (f r.0) r.1) (after (evloop_del_fd sys l fd) refl)
        (λ r e b. run_act-IsSafe pos count (f r.0) r.1 b)
    where
      after :
          (o : Option (ℤ × EventLoop K))
          → evloop_del_fd sys l fd ≡ o
          → IsSafe (λ (r : ℤ × EventLoop K). IsAt (pos + 1) pos count r.1) (deleted o)
      after none e = unfold deleted IsSafe in tt
      after (some (r, l')) e =
          unfold deleted IsSafe in
          let here : IsSound interest (l.ev_pos + 1) l =
            subst {A = ℕ} (λ n. IsSound interest (n + 1) l) (sym a.pos_is) a.sound in
          let (s, p, more) = evloop_del_fd-IsSound sys interest laws l fd r l' here e in
          moved l l' a (subst {A = ℕ} (λ n. IsSound interest (n + 1) l') a.pos_is s) p

  weaker : (pos count : ℕ) (l : EventLoop K) → IsAt pos pos count l → IsAt (pos + 1) pos count l
  weaker pos count l a =
      let s = a.sound in
      record {
        sound = record {
          unique = s.unique;
          agrees = s.agrees;
          room = s.room;
          later = λ j ev lo hi. s.later j ev (omega arith) hi;
        };
        pos_is = a.pos_is;
        count_is = a.count_is;
      }

  advanced :
      (pos count : ℕ) (l : EventLoop K)
      → IsAt (pos + 1) pos count l
      → IsAt (pos + 1) (pos + 1) count (record l { ev_pos = l.ev_pos + 1 })
  advanced pos count l a = record {
    sound = record {
      unique = a.sound.unique;
      agrees = a.sound.agrees;
      room = a.sound.room;
      later = a.sound.later;
    };
    pos_is = ap (λ (p : ℕ). p + 1) a.pos_is;
    count_is = a.count_is;
  }

  dispatch_event-IsSafe :
      (pos count : ℕ) (l : EventLoop K) (s : S)
      → pos < count
      → IsAt pos pos count l
      → IsSafe
          (λ (r : EventLoop K × S). IsAt (pos + 1) pos count r.0)
          (dispatch_event sys cbs (get_elem? l.ev_inflight l.ev_pos) l s)
  unfolding dispatch_event
  dispatch_event-IsSafe pos count l s h a = elim (Option-cases (get_elem? l.ev_inflight l.ev_pos)) [
    | inl x ↦
        let (ev, got) =
          get_elem?_of_lt l.ev_inflight l.ev_pos
            (omega (arith, a.pos_is, a.count_is, a.sound.room)) in
        absurd (ground (arith, x, got))
    | inr (ev, x) ↦ elim (Bool-cases (ev.events == 0)) [
      | inl t ↦ rw (x, t) (unfold IsSafe in weaker pos count l a)
      | inr t ↦ elim (Option-cases (deref l.ev_map ev.ptr)) [
        | inl y ↦ absurd (
            a.sound.later pos ev (omega arith) (omega (arith, a.count_is))
              (ap (get_elem? l.ev_inflight) (sym a.pos_is) ∙ x) (ground (arith, t)) y)
        | inr (ctx, y) ↦
            rw (x, t, y)
              (unfold dispatch_ctx in
                run_act-IsSafe pos count ((cbs ctx.cb).handler ctx.cb ctx.fd ev.events s) l
                  (weaker pos count l a))
      ]
    ]
  ]

  pub dispatch_from-IsSafe :
      (n pos count : ℕ) (l : EventLoop K) (s : S)
      → pos + n ≡ count
      → IsAt pos pos count l
      → IsSafe (λ (r : EventLoop K × S). IsAt count count count r.0) (dispatch_from sys cbs n l s)
  unfolding dispatch_from
  dispatch_from-IsSafe zero pos count l s h a =
      let same : pos ≡ count = omega arith in
      unfold IsSafe in subst {A = ℕ} (λ p. IsAt p p count l) same a
  dispatch_from-IsSafe (suc n) pos count l s h a =
      then_run-IsSafe (λ (r : EventLoop K × S). IsAt (pos + 1) pos count r.0)
        (λ (r : EventLoop K × S). IsAt count count count r.0)
        (dispatch_event sys cbs (get_elem? l.ev_inflight l.ev_pos) l s)
        (λ r. dispatch_from sys cbs n (record r.0 { ev_pos = r.0.ev_pos + 1 }) r.1)
        (dispatch_event-IsSafe pos count l s (omega arith) a)
        (λ r e b.
          dispatch_from-IsSafe n (pos + 1) count (record r.0 { ev_pos = r.0.ev_pos + 1 }) r.1
            (omega arith) (advanced pos count r.0 b))
