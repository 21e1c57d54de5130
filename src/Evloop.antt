-- ===== src/Evloop.antt =====
-- The event loop of evloop.c: the descriptors that it watches and the events of one `epoll_wait`.
use libvhost_user.Base.{
  ℕ, zero, suc, ◌+◌, ◌-◌, Bool, Option, none, some, List, [], ◌∷◌, ◌++◌, bit_and, bit_or, ◌==◌,
  if◌then◌else◌, ◌>>=◌, length, get_elem?, set, drop, ℤ, ◌==ℤ◌, minus_one, enoent,
}
use libvhost_user.Base.{pos as ok}
pub mod Handler
pub mod Registry
pub mod Marks
pub mod Deletion
pub mod Stale
pub mod Run
pub mod Dispatch
pub mod Safety
pub mod Waits
pub mod Fixture
pub mod Scene
mod Tests

-- `struct event_ctx`: `ptr` is the address of the object and `cb` that of the callback.
pub record EventCtx : Type 0 where
  pub ptr : ℕ
  pub fd : ℤ
  pub cb : ℕ

-- `struct epoll_event` of the kernel
pub record EpollEvent : Type 0 where
  pub events : ℕ
  pub ptr : ℕ

-- What `epoll_wait` gives: events, or an error, EINTR or another one.
pub data Waited : Type 0 where
  ready : List EpollEvent → Waited
  interrupted failed : Waited

-- The kernel and the allocator, with `K` for the state of an epoll instance: EPOLL_CTL_ADD of a
-- descriptor with events and a pointer, EPOLL_CTL_DEL, `epoll_wait` for a number of events, and the
-- address that an allocation gives while the contexts listed are live.
pub record Epoll (K : Type 0) : Type 0 where
  pub ctl_add : K → (fd : ℤ) → (events ptr : ℕ) → ℤ × K
  pub ctl_del : K → (fd : ℤ) → ℤ × K
  pub wait : K → (max : ℕ) → Waited × K
  pub malloc : K → List EventCtx → ℕ

-- EV_MAX
abbrev pub ev_max : ℕ
ev_max = 32

-- EPOLLIN and EPOLLHUP
abbrev pub epollin : ℕ
epollin = 1

abbrev pub epollhup : ℕ
epollhup = 16

-- `struct event_loop`, where `epoll` is the instance that `epollfd` names. A context is allocated to
-- be listed in `ev_map` and freed when it leaves it: the list holds the contexts that are live.
pub record EventLoop (K : Type 0) : Type 0 where
  pub epoll : K
  pub ev_map : List EventCtx
  pub ev_pos : ℕ
  pub ev_count : ℕ
  pub ev_inflight : List EpollEvent

-- A read of the context at an address; `none` is a read of memory that has been freed.
unfoldable pub deref : List EventCtx → (ptr : ℕ) → Option EventCtx
deref [] p = none
deref (ctx ∷ ctxs) p = if ctx.ptr == p then some ctx else deref ctxs p

-- The search of `evloop_del_fd`: `LIST_FOREACH` up to the first context of the descriptor.
unfoldable pub find_fd : List EventCtx → ℤ → Option EventCtx
find_fd [] fd = none
find_fd (ctx ∷ ctxs) fd = if ctx.fd ==ℤ fd then some ctx else find_fd ctxs fd

-- `LIST_REMOVE` of the first context of the descriptor
unfoldable pub remove_fd : List EventCtx → ℤ → List EventCtx
remove_fd [] fd = []
remove_fd (ctx ∷ ctxs) fd = if ctx.fd ==ℤ fd then ctxs else ctx ∷ remove_fd ctxs fd

unfoldable pub ignore_event :
    ℤ → List EpollEvent → (i : ℕ) → EpollEvent → Option EventCtx → Option (List EpollEvent)
ignore_event fd evs i ev none = none
ignore_event fd evs i ev (some ctx) =
    some (if ctx.fd ==ℤ fd then set evs i (record ev { events = 0 }) else evs)

-- The `for` loop of `evloop_del_fd` from the event `i` on, with `n` rounds to go.
unfoldable pub ignore_from :
    List EventCtx → ℤ → (n i : ℕ) → List EpollEvent → Option (List EpollEvent)
ignore_from ctxs fd zero i evs = some evs
ignore_from ctxs fd (suc n) i evs =
    (get_elem? evs i >>= λ ev. ignore_event fd evs i ev (deref ctxs ev.ptr))
    >>= ignore_from ctxs fd n (suc i)

module _ {K : Type 0} where
  -- `evloop_create`, where `epoll_create1` gives an instance or fails, and `junk` is what the
  -- allocation holds.
  unfoldable pub evloop_create : Option K → (junk : List EpollEvent) → Option (EventLoop K)
  evloop_create none junk = none
  evloop_create (some k) junk =
      some (record { epoll = k; ev_map = []; ev_pos = 0; ev_count = 0; ev_inflight = junk })

  -- `evloop_add_fd` of a callback at the address `cb` whose event mask is `mask`
  unfoldable pub evloop_add_fd : Epoll K → EventLoop K → (fd : ℤ) → (mask cb : ℕ) → ℤ × EventLoop K
  evloop_add_fd sys l fd mask cb =
      let p = sys.malloc l.epoll l.ev_map in
      let (error, k) = sys.ctl_add l.epoll fd (bit_and mask (bit_or epollin epollhup)) p in
      if error ==ℤ ok 0
      then (ok 0, record l { epoll = k; ev_map = record { ptr = p; fd = fd; cb = cb } ∷ l.ev_map })
      else (minus_one, record l { epoll = k })

  -- `evloop_del_fd` after its loop
  unfoldable pub unlink_fd : EventLoop K → ℤ → Option EventCtx → ℤ × EventLoop K
  unlink_fd l fd none = (enoent, l)
  unlink_fd l fd (some _) = (ok 0, record l { ev_map = remove_fd l.ev_map fd })

  unfoldable pub del_registered : EventLoop K → ℤ → Option (ℤ × EventLoop K)
  del_registered l fd =
      ignore_from l.ev_map fd (l.ev_count - (l.ev_pos + 1)) (l.ev_pos + 1) l.ev_inflight >>= λ evs.
      some (unlink_fd (record l { ev_inflight = evs }) fd (find_fd l.ev_map fd))

  -- `none` is a read of a context that has been freed.
  unfoldable pub evloop_del_fd : Epoll K → EventLoop K → (fd : ℤ) → Option (ℤ × EventLoop K)
  evloop_del_fd sys l fd =
      let (error, k) = sys.ctl_del l.epoll fd in
      if error ==ℤ ok 0
      then del_registered (record l { epoll = k }) fd
      else some (minus_one, record l { epoll = k })

-- What `evloop_free` gives back, in its order.
pub data Given : Type 0 where
  epollfd loop : Given
  context : (ptr : ℕ) → Given

unfoldable pub free_contexts : List EventCtx → List Given
free_contexts [] = []
free_contexts (ctx ∷ ctxs) = context ctx.ptr ∷ free_contexts ctxs

unfoldable pub evloop_free : {K : Type 0} → Option (EventLoop K) → List Given
evloop_free none = []
evloop_free (some l) = epollfd ∷ (free_contexts l.ev_map ++ loop ∷ [])
