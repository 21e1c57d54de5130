-- ===== src/Evloop/Registry.antt =====
-- What evloop.c relies on of the kernel, and the contexts by descriptor and by address.
use libvhost_user.Base.{
  ℕ, ◌≡◌, ◌≢◌, refl, sym, ◌∙◌, true, false, Option, none, some, List, [], ◌∷◌, ◌==◌, arith, inl,
  inr, Bool-cases, All, ℤ, pos, ◌==ℤ◌, ==ℤ→eq, ==ℤ-self,
}
use libvhost_user.Evloop.{EventCtx, EpollEvent, ready, Epoll, deref, find_fd, remove_fd}

-- The documented behaviour of epoll and malloc: `interest` is the pointer with which a descriptor is
-- registered. ADD takes a descriptor that is not registered, DEL works for just those that are; a
-- call that fails changes nothing; events are of registered descriptors; an allocation is apart from
-- all others.
pub record IsEpoll {K : Type 0} (sys : Epoll K) (interest : K → ℤ → Option ℕ) : Type 0 where
  pub add_new :
      (k : K) (fd : ℤ) (events p : ℕ) → (sys.ctl_add k fd events p).0 ≡ pos 0 → interest k fd ≡ none
  pub add_here :
      (k : K) (fd : ℤ) (events p : ℕ)
      → (sys.ctl_add k fd events p).0 ≡ pos 0
      → interest (sys.ctl_add k fd events p).1 fd ≡ some p
  pub add_there :
      (k : K) (fd fd' : ℤ) (events p : ℕ)
      → (fd ==ℤ fd') ≡ false
      → interest (sys.ctl_add k fd events p).1 fd' ≡ interest k fd'
  pub add_fails :
      (k : K) (fd fd' : ℤ) (events p : ℕ)
      → ((sys.ctl_add k fd events p).0 ==ℤ pos 0) ≡ false
      → interest (sys.ctl_add k fd events p).1 fd' ≡ interest k fd'
  pub del_known : (k : K) (fd : ℤ) → (sys.ctl_del k fd).0 ≡ pos 0 → interest k fd ≢ none
  pub del_works : (k : K) (fd : ℤ) → interest k fd ≢ none → (sys.ctl_del k fd).0 ≡ pos 0
  pub del_here :
      (k : K) (fd : ℤ) → (sys.ctl_del k fd).0 ≡ pos 0 → interest (sys.ctl_del k fd).1 fd ≡ none
  pub del_there :
      (k : K) (fd fd' : ℤ)
      → (fd ==ℤ fd') ≡ false
      → interest (sys.ctl_del k fd).1 fd' ≡ interest k fd'
  pub del_fails :
      (k : K) (fd fd' : ℤ)
      → ((sys.ctl_del k fd).0 ==ℤ pos 0) ≡ false
      → interest (sys.ctl_del k fd).1 fd' ≡ interest k fd'
  pub wait_keeps : (k : K) (n : ℕ) (fd : ℤ) → interest (sys.wait k n).1 fd ≡ interest k fd
  pub wait_known :
      (k : K) (n : ℕ) (evs : List EpollEvent)
      → (sys.wait k n).0 ≡ ready evs
      → All (λ (ev : EpollEvent). (fd : ℤ) × (interest k fd ≡ some ev.ptr)) evs
  pub malloc_fresh : (k : K) (ctxs : List EventCtx) → deref ctxs (sys.malloc k ctxs) ≡ none

-- The address of the context of a descriptor.
unfoldable pub ptr_of : Option EventCtx → Option ℕ
ptr_of none = none
ptr_of (some ctx) = some ctx.ptr

-- No two contexts of the list have the same descriptor or the same address.
unfoldable pub IsUnique : List EventCtx → Type 0
IsUnique [] = Unit
IsUnique (ctx ∷ ctxs) = (find_fd ctxs ctx.fd ≡ none) × (deref ctxs ctx.ptr ≡ none) × IsUnique ctxs

pub find-remove_ne :
    (ctxs : List EventCtx) (fd fd' : ℤ)
    → (fd ==ℤ fd') ≡ false
    → find_fd (remove_fd ctxs fd) fd' ≡ find_fd ctxs fd'
unfolding find_fd remove_fd
find-remove_ne [] fd fd' h = refl
find-remove_ne (ctx ∷ ctxs) fd fd' h = elim (Bool-cases (ctx.fd ==ℤ fd)) [
  | inl t ↦ let apart : (ctx.fd ==ℤ fd') ≡ false = rw (==ℤ→eq ctx.fd fd t) h in rw (t, apart) refl
  | inr t ↦ rw (t, find-remove_ne ctxs fd fd' h) refl
]

pub find-remove_self :
    (ctxs : List EventCtx) (fd : ℤ) → IsUnique ctxs → find_fd (remove_fd ctxs fd) fd ≡ none
unfolding find_fd remove_fd IsUnique
find-remove_self [] fd u = refl
find-remove_self (ctx ∷ ctxs) fd (here, far, u) = elim (Bool-cases (ctx.fd ==ℤ fd)) [
  | inl t ↦ rw t (rw (==ℤ→eq ctx.fd fd t) at here)
  | inr t ↦ rw (t, t) (find-remove_self ctxs fd u)
]

find-remove_none :
    (ctxs : List EventCtx) (fd fd' : ℤ)
    → find_fd ctxs fd' ≡ none
    → find_fd (remove_fd ctxs fd) fd' ≡ none
unfolding find_fd remove_fd
find-remove_none [] fd fd' h = refl
find-remove_none (ctx ∷ ctxs) fd fd' h = ground (arith, find-remove_none ctxs fd fd')

deref-remove_none :
    (ctxs : List EventCtx) (fd : ℤ) (p : ℕ)
    → deref ctxs p ≡ none
    → deref (remove_fd ctxs fd) p ≡ none
unfolding deref remove_fd
deref-remove_none [] fd p h = refl
deref-remove_none (ctx ∷ ctxs) fd p h = ground (arith, deref-remove_none ctxs fd p)

pub remove-IsUnique : (ctxs : List EventCtx) (fd : ℤ) → IsUnique ctxs → IsUnique (remove_fd ctxs fd)
unfolding remove_fd IsUnique
remove-IsUnique [] fd u = tt
remove-IsUnique (ctx ∷ ctxs) fd (here, far, u) = elim (Bool-cases (ctx.fd ==ℤ fd)) [
  | inl t ↦ rw t u
  | inr t ↦ rw t (
    find-remove_none ctxs fd ctx.fd here,
    deref-remove_none ctxs fd ctx.ptr far,
    remove-IsUnique ctxs fd u,
  )
]

-- The context that is found is live, and has the descriptor.
pub find-live :
    (ctxs : List EventCtx) (fd : ℤ) (ctx : EventCtx)
    → find_fd ctxs fd ≡ some ctx
    → deref ctxs ctx.ptr ≢ none
unfolding find_fd deref
find-live [] fd ctx e n = absurd (ground arith)
find-live (c ∷ ctxs) fd ctx e n = elim (Bool-cases (c.fd ==ℤ fd)) [
  | inl t ↦
      let found : some c ≡ some ctx = rw t at e in
      let same : c.ptr ≡ ctx.ptr = cc in absurd (ground (arith, n, same))
  | inr t ↦
      let found : find_fd ctxs fd ≡ some ctx = rw t at e in
      let live : deref ctxs ctx.ptr ≢ none = find-live ctxs fd ctx found in
      absurd (ground (arith, n, live))
]

-- Removing a descriptor keeps the contexts of the others where they are.
pub deref-remove_ne :
    (ctxs : List EventCtx) (fd : ℤ) (p : ℕ) (ctx : EventCtx)
    → deref ctxs p ≡ some ctx
    → (ctx.fd ==ℤ fd) ≡ false
    → deref (remove_fd ctxs fd) p ≡ some ctx
unfolding deref remove_fd
deref-remove_ne [] fd p ctx e h = e
deref-remove_ne (c ∷ ctxs) fd p ctx e h = elim (Bool-cases (c.ptr == p)) [
  | inl t ↦
      let found : some c ≡ some ctx = rw t at e in
      let same : c.fd ≡ ctx.fd = cc in
      let apart : (c.fd ==ℤ fd) ≡ false = rw same h in rw (apart, t) found
  | inr t ↦
      let found : deref ctxs p ≡ some ctx = rw t at e in
      let rest = deref-remove_ne ctxs fd p ctx found h in
      elim (Bool-cases (c.fd ==ℤ fd)) [ inl u ↦ rw u found | inr u ↦ rw (u, t) rest ]
]

pub deref-found :
    (ctxs : List EventCtx) (p : ℕ) (ctx : EventCtx)
    → deref ctxs p ≡ some ctx
    → find_fd ctxs ctx.fd ≢ none
unfolding find_fd deref
deref-found [] p ctx e n = absurd (ground arith)
deref-found (c ∷ ctxs) p ctx e n = elim (Bool-cases (c.ptr == p)) [
  | inl t ↦
      let found : some c ≡ some ctx = rw t at e in
      let same : c.fd ≡ ctx.fd = cc in absurd (ground (arith, rw same at n, ==ℤ-self ctx.fd))
  | inr t ↦
      let found : deref ctxs p ≡ some ctx = rw t at e in
      let more : find_fd ctxs ctx.fd ≢ none = deref-found ctxs p ctx found in
      absurd (ground (arith, n, more))
]

-- The context that is removed is no longer live.
pub deref-remove_self :
    (ctxs : List EventCtx) (fd : ℤ) (p : ℕ) (ctx : EventCtx)
    → IsUnique ctxs
    → deref ctxs p ≡ some ctx
    → (ctx.fd ==ℤ fd) ≡ true
    → deref (remove_fd ctxs fd) p ≡ none
unfolding deref remove_fd IsUnique
deref-remove_self [] fd p ctx u e h = refl
deref-remove_self (c ∷ ctxs) fd p ctx (here, far, u) e h = elim (Bool-cases (c.ptr == p)) [
  | inl t ↦
      let found : some c ≡ some ctx = rw t at e in
      let same : c.fd ≡ ctx.fd = cc in
      let mine : (c.fd ==ℤ fd) ≡ true = rw same h in
      let at_p : c.ptr ≡ p = ground arith in rw mine (rw at_p at far)
  | inr t ↦
      let found : deref ctxs p ≡ some ctx = rw t at e in
      let rest = deref-remove_self ctxs fd p ctx u found h in
      elim (Bool-cases (c.fd ==ℤ fd)) [
        | inl v ↦
            let same : c.fd ≡ ctx.fd = ==ℤ→eq c.fd fd v ∙ sym (==ℤ→eq ctx.fd fd h) in
            absurd (deref-found ctxs p ctx found (rw same at here))
        | inr v ↦ rw (v, t) rest
      ]
]
