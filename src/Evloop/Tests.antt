-- ===== src/Evloop/Tests.antt =====
-- Runs of the event loop.
use libvhost_user.Base.{ℕ, ◌≡◌, refl, none, some, List, [], ◌∷◌, ◌==◌, if◌then◌else◌, arith, ℤ}
use libvhost_user.Base.{pos as ok}
use libvhost_user.Evloop.{
  EventCtx, EpollEvent, EventLoop, deref, find_fd, remove_fd, ignore_event, ignore_from,
  evloop_add_fd, unlink_fd, del_registered, evloop_del_fd, evloop_free, free_contexts, epollfd,
  loop, context,
}
use libvhost_user.Evloop.Registry.{IsUnique}
use libvhost_user.Evloop.Marks.{ptr_at}
use libvhost_user.Evloop.Handler.{
  done, del, EventCb, returned, freed_in_del, then_run, deleted, run_act, dispatch_ctx,
  dispatch_event, dispatch_from, with_events, dispatch, run_waited, evloop_run,
}
use libvhost_user.Evloop.Run.{IsSound, IsSamePlace, Deleted, evloop_del_fd-IsSound}
use libvhost_user.Evloop.Safety.{Rested, evloop_run-IsSafe}
use libvhost_user.Evloop.Dispatch.{IsSafe}
use libvhost_user.Evloop.Stale.{evloop_del_fd-reads_freed}
use libvhost_user.Evloop.Fixture.{Entry, lookup, ready_events, kernel, kernel-IsEpoll}
use libvhost_user.Evloop.Scene.{three_fds, watching, three, three-IsAtRest, busy, busy-IsSound}

-- Three calls of `evloop_add_fd` give that loop.
added_three :
    let a = evloop_add_fd kernel (watching [] [] []) (ok 5) 1 0 in
    let b = evloop_add_fd kernel a.1 (ok 6) 1 1 in
    evloop_add_fd kernel b.1 (ok 7) 1 2 ≡ (ok 0, three)
unfolding evloop_add_fd
added_three = refl

freed_three : evloop_free (some three) ≡ epollfd ∷ context 2 ∷ context 1 ∷ context 0 ∷ loop ∷ []
unfolding evloop_free free_contexts
freed_three = refl

-- Each handler notes its descriptor; that of the callback 2 stops watching its own.
abbrev own_handlers : ℕ → EventCb (List ℤ)
own_handlers n = record {
  events = 1;
  handler = λ cb fd events s. if n == 2 then del fd (λ r. done (fd ∷ s)) else done (fd ∷ s);
}

-- That of the callback 2 stops watching 6 and 5.
abbrev rude_handlers : ℕ → EventCb (List ℤ)
rude_handlers n = record {
  events = 1;
  handler = λ cb fd events s.
      if n == 2 then del (ok 6) (λ r. del (ok 5) (λ r'. done (fd ∷ s))) else done (fd ∷ s);
}

rude_run : evloop_run kernel rude_handlers 1 three [] ≡ some freed_in_del
unfolding evloop_run run_waited dispatch dispatch_from with_events dispatch_event dispatch_ctx
    run_act then_run deleted deref evloop_del_fd del_registered unlink_fd find_fd remove_fd
    ignore_from ignore_event
rude_run = refl

-- In a run with the first handlers, 7 is served and no longer watched, then 6 is served.
abbrev two_fds : List Entry
two_fds = record { fd = ok 6; ptr = 1 } ∷ record { fd = ok 5; ptr = 0 } ∷ []

abbrev two_ctxs : List EventCtx
two_ctxs = record { ptr = 1; fd = ok 6; cb = 1 } ∷ record { ptr = 0; fd = ok 5; cb = 0 } ∷ []

abbrev served : EventLoop (List Entry)
served = record (watching two_fds two_ctxs (ready_events three_fds)) { ev_pos = 2 }

own_run :
    evloop_run kernel own_handlers 1 three [] ≡ some (returned (ok 0, served, ok 6 ∷ ok 7 ∷ []))
unfolding evloop_run run_waited dispatch dispatch_from with_events dispatch_event dispatch_ctx
    run_act then_run deleted deref evloop_del_fd del_registered unlink_fd find_fd remove_fd
    ignore_from ignore_event
own_run = refl

evloop_run-IsSafe_example :
    IsSafe
      (Rested kernel lookup kernel-IsEpoll own_handlers)
      (returned (ok 0, served, ok 6 ∷ ok 7 ∷ []))
evloop_run-IsSafe_example =
    evloop_run-IsSafe kernel lookup kernel-IsEpoll own_handlers 1 three []
      (returned (ok 0, served, ok 6 ∷ ok 7 ∷ [])) three-IsAtRest own_run

abbrev ignored : List EpollEvent
ignored = record { events = 1; ptr = 2 } ∷ record { events = 0; ptr = 1 } ∷ []

abbrev without_6 : EventLoop (List Entry)
without_6 =
    watching (record { fd = ok 7; ptr = 2 } ∷ record { fd = ok 5; ptr = 0 } ∷ [])
      (record { ptr = 2; fd = ok 7; cb = 2 } ∷ record { ptr = 0; fd = ok 5; cb = 0 } ∷ []) ignored

del_6 : evloop_del_fd kernel busy (ok 6) ≡ some (ok 0, without_6)
unfolding evloop_del_fd del_registered unlink_fd find_fd remove_fd ignore_from ignore_event deref
del_6 = refl

evloop_del_fd-IsSound_example :
    IsSound lookup 1 without_6
    × IsSamePlace busy without_6
    × Deleted kernel lookup kernel-IsEpoll busy (ok 6) (ok 0, without_6)
evloop_del_fd-IsSound_example =
    evloop_del_fd-IsSound kernel lookup kernel-IsEpoll busy (ok 6) (ok 0) without_6 busy-IsSound
      del_6

evloop_del_fd-reads_freed_example : evloop_del_fd kernel without_6 (ok 5) ≡ none
unfolding IsUnique find_fd deref ptr_at
evloop_del_fd-reads_freed_example =
    evloop_del_fd-reads_freed kernel busy without_6 (ok 6) (ok 5) 1 1
      (record { ptr = 1; fd = ok 6; cb = 1 }) (refl, refl, (refl, refl, (refl, refl, tt)))
      (omega arith) (omega arith) refl refl refl del_6 refl
