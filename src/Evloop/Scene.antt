-- ===== src/Evloop/Scene.antt =====
-- Three descriptors that are watched on the kernel of Fixture, for the tests.
use libvhost_user.Base.{
  ℕ, zero, suc, ◌≤◌, ◌<◌, ◌≡◌, ◌≢◌, subst, get_elem?, refl, none, some, List, [], ◌∷◌, arith,
  length,
}
use libvhost_user.Base.{pos as ok}
use libvhost_user.Evloop.{EventCtx, EpollEvent, EventLoop, deref, find_fd}
use libvhost_user.Evloop.Registry.{IsUnique, ptr_of}
use libvhost_user.Evloop.Run.{IsSound}
use libvhost_user.Evloop.Fixture.{Entry, lookup, ready_events}

abbrev pub three_fds : List Entry
three_fds =
    record { fd = ok 7; ptr = 2 }
    ∷ record { fd = ok 6; ptr = 1 }
    ∷ record { fd = ok 5; ptr = 0 }
    ∷ []

abbrev pub three_ctxs : List EventCtx
three_ctxs =
    record { ptr = 2; fd = ok 7; cb = 2 }
    ∷ record { ptr = 1; fd = ok 6; cb = 1 }
    ∷ record { ptr = 0; fd = ok 5; cb = 0 }
    ∷ []

abbrev pub watching : List Entry → List EventCtx → List EpollEvent → EventLoop (List Entry)
watching k ctxs evs = record {
  epoll = k;
  ev_map = ctxs;
  ev_pos = 0;
  ev_count = length evs;
  ev_inflight = evs;
}

abbrev pub three : EventLoop (List Entry)
three = watching three_fds three_ctxs []

pub three-IsAtRest : IsSound lookup 1 three
unfolding IsUnique find_fd deref ptr_of
three-IsAtRest = record {
  unique = (refl, refl, (refl, refl, (refl, refl, tt)));
  agrees = λ fd. ground arith;
  room = omega arith;
  later = λ j ev a b. absurd (omega arith);
}

-- The handler of 7, whose event comes before that of 6.
abbrev pub busy : EventLoop (List Entry)
busy = watching three_fds three_ctxs (ready_events three_fds)

pub busy-IsSound : IsSound lookup 1 busy
unfolding deref
busy-IsSound = record {
  unique = three-IsAtRest.unique;
  agrees = three-IsAtRest.agrees;
  room = omega arith;
  later = later_live;
}
  where
    later_live :
        (j : ℕ) (ev : EpollEvent)
        → 1 ≤ j
        → j < 2
        → get_elem? (ready_events three_fds) j ≡ some ev
        → ev.events ≢ 0
        → deref three_ctxs ev.ptr ≢ none
    later_live zero ev a b g z = absurd (omega arith)
    later_live (suc zero) ev a b g z =
        let same : record { events = 1; ptr = 1 } ≡ ev = cc in
        subst {A = EpollEvent} (λ t. deref three_ctxs t.ptr ≢ none) same
          (λ n. absurd (ground arith))
    later_live (suc (suc j)) ev a b g z = absurd (omega arith)
