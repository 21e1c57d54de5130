-- ===== src/Evloop/Handler.antt =====
-- `evloop_run` of evloop.c, with the handlers that it calls. A handler knows the loop only by
-- `evloop_add_fd` and `evloop_del_fd`; one that runs the loop itself is not modelled.
use libvhost_user.Base.{
  ℕ, zero, suc, ◌+◌, Option, none, some, List, ◌++◌, ◌==◌, if◌then◌else◌, length, get_elem?, drop,
  ℤ, minus_one,
}
use libvhost_user.Base.{pos as ok}
use libvhost_user.Evloop.{
  EventCtx, EpollEvent, Waited, ready, interrupted, failed, Epoll, ev_max, EventLoop, deref,
  evloop_add_fd, evloop_del_fd,
}

-- What a handler does, with `S` for the state of the program: it ends, or calls the loop and goes
-- on from the result.
pub data Act (S : Type 0) : Type 0 where
  done : S → Act S
  add : (fd : ℤ) (cb : ℕ) → (ℤ → Act S) → Act S
  del : (fd : ℤ) → (ℤ → Act S) → Act S

-- `struct event_cb`. The handler gets the address of the callback, the descriptor and the events.
pub record EventCb (S : Type 0) : Type 0 where
  pub events : ℕ
  pub handler : (cb : ℕ) → (fd : ℤ) → (events : ℕ) → S → Act S

-- A run ends, or reads a context that has been freed, in `evloop_del_fd` or in `evloop_run`.
pub data Ran (A : Type 0) : Type 0 where
  returned : A → Ran A
  freed_in_del freed_in_run : Ran A

unfoldable pub then_run : {A B : Type 0} → Ran A → (A → Ran B) → Ran B
then_run (returned a) f = f a
then_run freed_in_del f = freed_in_del
then_run freed_in_run f = freed_in_run

unfoldable pub deleted : {A : Type 0} → Option A → Ran A
deleted none = freed_in_del
deleted (some a) = returned a

module _ {K S : Type 0} (sys : Epoll K) (cbs : ℕ → EventCb S) where
  unfoldable pub run_act : Act S → EventLoop K → Ran (EventLoop K × S)
  run_act (done s) l = returned (l, s)
  run_act (add fd cb f) l = let r = evloop_add_fd sys l fd (cbs cb).events cb in run_act (f r.0) r.1
  run_act (del fd f) l = then_run (deleted (evloop_del_fd sys l fd)) (λ r. run_act (f r.0) r.1)

  -- One round of the loop of `evloop_run`, with the event and what its pointer leads to.
  unfoldable pub dispatch_ctx :
      (events : ℕ) → Option EventCtx → EventLoop K → S → Ran (EventLoop K × S)
  dispatch_ctx events none l s = freed_in_run
  dispatch_ctx events (some ctx) l s = run_act ((cbs ctx.cb).handler ctx.cb ctx.fd events s) l

  unfoldable pub dispatch_event : Option EpollEvent → EventLoop K → S → Ran (EventLoop K × S)
  dispatch_event none l s = freed_in_run
  dispatch_event (some ev) l s =
      if ev.events == 0 then returned (l, s) else dispatch_ctx ev.events (deref l.ev_map ev.ptr) l s

  -- The `for` loop of `evloop_run` with `n` rounds to go.
  unfoldable pub dispatch_from : (n : ℕ) → EventLoop K → S → Ran (EventLoop K × S)
  dispatch_from zero l s = returned (l, s)
  dispatch_from (suc n) l s =
      then_run (dispatch_event (get_elem? l.ev_inflight l.ev_pos) l s)
        (λ r. dispatch_from n (record r.0 { ev_pos = r.0.ev_pos + 1 }) r.1)

  unfoldable pub with_events : EventLoop K → K → List EpollEvent → EventLoop K
  with_events l k evs = record l {
    epoll = k;
    ev_pos = 0;
    ev_count = length evs;
    ev_inflight = evs ++ drop (length evs) l.ev_inflight;
  }

  unfoldable pub dispatch : EventLoop K → K → List EpollEvent → S → Ran (ℤ × EventLoop K × S)
  dispatch l k evs s =
      then_run (dispatch_from (length evs) (with_events l k evs) s) (λ r. returned (ok 0, r.0, r.1))

  -- What `evloop_run` makes of the result of `epoll_wait`; `again` is its `goto`.
  unfoldable pub run_waited :
      (again : EventLoop K → Option (Ran (ℤ × EventLoop K × S)))
      → Waited × K
      → EventLoop K
      → S
      → Option (Ran (ℤ × EventLoop K × S))
  run_waited again (ready evs, k) l s = some (dispatch l k evs s)
  run_waited again (failed, k) l s = some (returned (minus_one, record l { epoll = k }, s))
  run_waited again (interrupted, k) l s = again (record l { epoll = k })

  -- `evloop_run`, where `fuel` bounds the calls of `epoll_wait` that a signal may interrupt; `none`
  -- is that they are used up.
  unfoldable pub evloop_run : (fuel : ℕ) → EventLoop K → S → Option (Ran (ℤ × EventLoop K × S))
  evloop_run zero l s = none
  evloop_run (suc fuel) l s = run_waited (λ l'. evloop_run fuel l' s) (sys.wait l.epoll ev_max) l s
