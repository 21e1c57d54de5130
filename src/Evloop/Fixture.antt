-- ===== src/Evloop/Fixture.antt =====
-- A kernel to run the event loop on.
use libvhost_user.Base.{
  ℕ, ◌+◌, ◌≤◌, ◌≡◌, refl, subst, Bool, false, Option, none, some, List, [], ◌∷◌, ◌==◌, ltb,
  if◌then◌else◌, arith, inl, inr, Bool-cases, Option-cases, All, ℤ, ◌==ℤ◌, minus_one,
}
use libvhost_user.Base.{pos as ok}
use libvhost_user.Evloop.{EventCtx, EpollEvent, ready, Epoll, deref}
use libvhost_user.Base.{==ℤ→eq, ==ℤ-self}
use libvhost_user.Evloop.Registry.{IsEpoll}

-- A descriptor that is registered, and the pointer given with it.
pub record Entry : Type 0 where
  pub fd : ℤ
  pub ptr : ℕ

abbrev pub lookup : List Entry → ℤ → Option ℕ
lookup [] fd = none
lookup (x ∷ xs) fd = if x.fd ==ℤ fd then some x.ptr else lookup xs fd

abbrev forget : List Entry → ℤ → List Entry
forget [] fd = []
forget (x ∷ xs) fd = let rest = forget xs fd in if x.fd ==ℤ fd then rest else x ∷ rest

abbrev insert_new : List Entry → ℤ → ℕ → Option ℕ → ℤ × List Entry
insert_new xs fd p none = (ok 0, record { fd = fd; ptr = p } ∷ xs)
insert_new xs fd p (some q) = (minus_one, xs)

abbrev delete_known : List Entry → ℤ → Option ℕ → ℤ × List Entry
delete_known xs fd none = (minus_one, xs)
delete_known xs fd (some q) = (ok 0, forget xs fd)

abbrev readable : Entry → EpollEvent
readable x = record { events = 1; ptr = x.ptr }

abbrev same_ptr : Option ℕ → ℕ → Bool
same_ptr none p = false
same_ptr (some q) p = q == p

-- The first entry of the list that is registered with another pointer than `p`.
abbrev second : (k : List Entry) → ℕ → List Entry → List EpollEvent
second k p [] = []
second k p (y ∷ ys) =
    let rest = second k p ys in
    if p == y.ptr then rest else if same_ptr (lookup k y.fd) y.ptr then readable y ∷ [] else rest

abbrev pub ready_events : List Entry → List EpollEvent
ready_events [] = []
ready_events (x ∷ xs) = readable x ∷ second (x ∷ xs) x.ptr xs

abbrev above : List EventCtx → ℕ
above [] = 0
above (c ∷ cs) = let rest = above cs in if ltb c.ptr rest then rest else c.ptr + 1

-- All descriptors that are registered can be read at any time.
abbrev pub kernel : Epoll (List Entry)
kernel = record {
  ctl_add = λ k fd events p. insert_new k fd p (lookup k fd);
  ctl_del = λ k fd. delete_known k fd (lookup k fd);
  wait = λ k n. (ready (ready_events k), k);
  malloc = λ k ctxs. above ctxs;
}

second-known :
    (k : List Entry) (p : ℕ) (ys : List Entry)
    → All (λ (ev : EpollEvent). (fd : ℤ) × (lookup k fd ≡ some ev.ptr)) (second k p ys)
second-known k p [] = tt
second-known k p (y ∷ ys) = elim (Bool-cases (p == y.ptr)) [
  | inl t ↦ rw t (second-known k p ys)
  | inr t ↦ elim (Bool-cases (same_ptr (lookup k y.fd) y.ptr)) [
    | inl u ↦ rw (t, u) ((y.fd, ground (arith, u)), tt)
    | inr u ↦ rw (t, u) (second-known k p ys)
  ]
]

ready_events-known :
    (k : List Entry)
    → All (λ (ev : EpollEvent). (fd : ℤ) × (lookup k fd ≡ some ev.ptr)) (ready_events k)
ready_events-known [] = tt
ready_events-known (x ∷ xs) = ((x.fd, rw (==ℤ-self x.fd) refl), second-known (x ∷ xs) x.ptr xs)

lookup-forget_self : (xs : List Entry) (fd : ℤ) → lookup (forget xs fd) fd ≡ none
lookup-forget_self [] fd = refl
lookup-forget_self (x ∷ xs) fd = ground (arith, lookup-forget_self xs fd)

lookup-forget_ne :
    (xs : List Entry) (fd fd' : ℤ)
    → (fd ==ℤ fd') ≡ false
    → lookup (forget xs fd) fd' ≡ lookup xs fd'
lookup-forget_ne [] fd fd' h = refl
lookup-forget_ne (x ∷ xs) fd fd' h = elim (Bool-cases (x.fd ==ℤ fd)) [
  | inl t ↦
      let apart : (x.fd ==ℤ fd') ≡ false = rw (==ℤ→eq x.fd fd t) h in
      rw (t, apart) (lookup-forget_ne xs fd fd' h)
  | inr t ↦ rw (t, lookup-forget_ne xs fd fd' h) refl
]

above-fresh : (cs : List EventCtx) (n : ℕ) → above cs ≤ n → deref cs n ≡ none
unfolding deref
above-fresh [] n h = refl
above-fresh (c ∷ cs) n h = ground (arith, above-fresh cs n)

pub kernel-IsEpoll : IsEpoll kernel lookup
kernel-IsEpoll = record {
  add_new = λ k fd events p e. ground arith;
  add_here = λ k fd events p e. elim (Option-cases (lookup k fd)) [
    | inl x ↦ rw (x, ==ℤ-self fd) refl
    | inr (q, x) ↦ absurd (ground arith)
  ];
  add_there = λ k fd fd' events p h. elim (Option-cases (lookup k fd)) [
    | inl x ↦ rw (x, h) refl
    | inr (q, x) ↦ rw x refl
  ];
  add_fails = λ k fd fd' events p h. elim (Option-cases (lookup k fd)) [
    | inl x ↦ absurd (ground arith)
    | inr (q, x) ↦ rw x refl
  ];
  del_known = λ k fd e n. ground arith;
  del_works =
      λ k fd n. elim (Option-cases (lookup k fd)) [ inl x ↦ absurd (n x) | inr (q, x) ↦ rw x refl ];
  del_here = λ k fd e. elim (Option-cases (lookup k fd)) [
    | inl x ↦ absurd (ground arith)
    | inr (q, x) ↦ rw x (lookup-forget_self k fd)
  ];
  del_there = λ k fd fd' h. elim (Option-cases (lookup k fd)) [
    | inl x ↦ rw x refl
    | inr (q, x) ↦ rw x (lookup-forget_ne k fd fd' h)
  ];
  del_fails = λ k fd fd' h. elim (Option-cases (lookup k fd)) [
    | inl x ↦ rw x refl
    | inr (q, x) ↦ absurd (ground arith)
  ];
  wait_keeps = λ k n fd. refl;
  wait_known = λ k n evs e.
      let same : ready_events k ≡ evs = cc in
      subst {A = List EpollEvent}
        (All (λ (ev : EpollEvent). (fd : ℤ) × (lookup k fd ≡ some ev.ptr))) same
        (ready_events-known k);
  malloc_fresh = λ k ctxs. above-fresh ctxs (above ctxs) (omega arith);
}
