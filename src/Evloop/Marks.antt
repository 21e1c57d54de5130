-- ===== src/Evloop/Marks.antt =====
-- The loop of `evloop_del_fd` over the events still to come.
use libvhost_user.Base.{
  ℕ, zero, suc, ◌+◌, ◌≤◌, ◌<◌, ◌≡◌, ◌≢◌, refl, ap, subst, sym, ◌∙◌, false, Option, none, some, List,
  [], ◌∷◌, ◌==◌, arith, inl, inr, Bool-cases, Option-cases, length, get_elem?, set, length-set,
  get_elem?_of_lt, ℤ, ◌==ℤ◌,
}
use libvhost_user.Evloop.{EventCtx, EpollEvent, deref, ignore_event, ignore_from}

-- The pointer of an event.
unfoldable pub ptr_at : List EpollEvent → ℕ → Option ℕ
ptr_at [] j = none
ptr_at (ev ∷ evs) zero = some ev.ptr
ptr_at (ev ∷ evs) (suc j) = ptr_at evs j

ptr_at_of_get :
    (evs : List EpollEvent) (j : ℕ) (ev : EpollEvent)
    → get_elem? evs j ≡ some ev
    → ptr_at evs j ≡ some ev.ptr
unfolding ptr_at
ptr_at_of_get [] j ev e = absurd (ground arith)
ptr_at_of_get (x ∷ evs) zero ev e = ground arith
ptr_at_of_get (x ∷ evs) (suc j) ev e = ptr_at_of_get evs j ev e

get_of_ptr_at :
    (evs : List EpollEvent) (j p : ℕ)
    → ptr_at evs j ≡ some p
    → (ev : EpollEvent) × (get_elem? evs j ≡ some ev) × (ev.ptr ≡ p)
unfolding ptr_at
get_of_ptr_at [] j p e = absurd (ground arith)
get_of_ptr_at (x ∷ evs) zero p e = (x, refl, ground arith)
get_of_ptr_at (x ∷ evs) (suc j) p e = get_of_ptr_at evs j p e

ptr_at-set :
    (evs : List EpollEvent) (i : ℕ) (ev v : EpollEvent) (j : ℕ)
    → get_elem? evs i ≡ some ev
    → v.ptr ≡ ev.ptr
    → ptr_at (set evs i v) j ≡ ptr_at evs j
unfolding ptr_at
ptr_at-set [] i ev v j e p = refl
ptr_at-set (x ∷ evs) zero ev v zero e p = ground arith
ptr_at-set (x ∷ evs) zero ev v (suc j) e p = refl
ptr_at-set (x ∷ evs) (suc i) ev v zero e p = refl
ptr_at-set (x ∷ evs) (suc i) ev v (suc j) e p = ptr_at-set evs i ev v j e p

-- Events that are left with flags are as they were, and those of the range are of live contexts of
-- other descriptors.
pub record IsIgnored (ctxs : List EventCtx) (fd : ℤ) (n i : ℕ) (evs evs' : List EpollEvent)
    : Type 0 where
  pub len : length evs' ≡ length evs
  pub ptrs : (j : ℕ) → ptr_at evs' j ≡ ptr_at evs j
  pub kept :
      (j : ℕ) (ev : EpollEvent)
      → get_elem? evs' j ≡ some ev
      → ev.events ≢ 0
      → get_elem? evs j ≡ some ev
  pub others :
      (j : ℕ) (ev : EpollEvent)
      → i ≤ j
      → j < i + n
      → get_elem? evs' j ≡ some ev
      → ev.events ≢ 0
      → (ctx : EventCtx) × (deref ctxs ev.ptr ≡ some ctx) × ((ctx.fd ==ℤ fd) ≡ false)

-- An event with flags is not the one whose flags are gone.
zeroed :
    (evs : List EpollEvent) (i : ℕ) (v : EpollEvent) (j : ℕ) (ev : EpollEvent)
    → v.events ≡ 0
    → get_elem? (set evs i v) j ≡ some ev
    → ev.events ≢ 0
    → (i ≢ j) × (get_elem? evs j ≡ some ev)
zeroed [] i v j ev z e n = absurd (ground arith)
zeroed (x ∷ evs) zero v zero ev z e n =
    let same : v ≡ ev = ground arith in
    absurd (n (sym (ap (λ (t : EpollEvent). t.events) same) ∙ z))
zeroed (x ∷ evs) zero v (suc j) ev z e n = (omega arith, e)
zeroed (x ∷ evs) (suc i) v zero ev z e n = (omega arith, e)
zeroed (x ∷ evs) (suc i) v (suc j) ev z e n =
    let (apart, got) = zeroed evs i v j ev z e n in (omega arith, got)

-- One round.
ignore_event-IsIgnored :
    (ctxs : List EventCtx) (fd : ℤ) (i : ℕ) (evs evs' : List EpollEvent) (ev : EpollEvent)
    (ctx : EventCtx)
    → get_elem? evs i ≡ some ev
    → deref ctxs ev.ptr ≡ some ctx
    → ignore_event fd evs i ev (some ctx) ≡ some evs'
    → IsIgnored ctxs fd 1 i evs evs'
unfolding ignore_event
ignore_event-IsIgnored ctxs fd i evs evs' ev ctx e live h = elim (Bool-cases (ctx.fd ==ℤ fd)) [
  | inl t ↦
      let same : set evs i (record ev { events = 0 }) ≡ evs' = ground (arith, h, t) in
      let v : EpollEvent = record ev { events = 0 } in
      subst {A = List EpollEvent} (IsIgnored ctxs fd 1 i evs) same (record {
        len = length-set evs i v;
        ptrs = λ j. ptr_at-set evs i ev v j e refl;
        kept = λ j x g n. (zeroed evs i v j x refl g n).1;
        others = λ j x a b g n. absurd ((zeroed evs i v j x refl g n).0 (omega arith));
      })
  | inr t ↦
      let same : evs ≡ evs' = ground (arith, h, t) in
      subst {A = List EpollEvent} (IsIgnored ctxs fd 1 i evs) same (record {
        len = refl;
        ptrs = λ j. refl;
        kept = λ j x g n. g;
        others = λ j x a b g n.
            let at_i : i ≡ j = omega arith in
            let same_ev : some ev ≡ some x = sym e ∙ ap (get_elem? evs) at_i ∙ g in
            let ev_eq : ev ≡ x = cc in
            (ctx, subst {A = EpollEvent} (λ t. deref ctxs t.ptr ≡ some ctx) ev_eq live, t);
      })
]

IsIgnored-trans :
    (ctxs : List EventCtx) (fd : ℤ) (n i : ℕ) (evs evs' evs2 : List EpollEvent)
    → IsIgnored ctxs fd 1 i evs evs'
    → IsIgnored ctxs fd n (suc i) evs' evs2
    → IsIgnored ctxs fd (suc n) i evs evs2
IsIgnored-trans ctxs fd n i evs evs' evs2 a b = record {
  len = b.len ∙ a.len;
  ptrs = λ j. b.ptrs j ∙ a.ptrs j;
  kept = λ j ev g z. a.kept j ev (b.kept j ev g z) z;
  others = λ j ev lo hi g z. elim (Bool-cases (i == j)) [
    | inl t ↦ a.others j ev (ground arith) (ground arith) (b.kept j ev g z) z
    | inr t ↦ b.others j ev (ground arith) (omega arith) g z
  ];
}

-- What the loop leaves.
pub ignore_from-IsIgnored :
    (ctxs : List EventCtx) (fd : ℤ) (n i : ℕ) (evs evs' : List EpollEvent)
    → ignore_from ctxs fd n i evs ≡ some evs'
    → IsIgnored ctxs fd n i evs evs'
unfolding ignore_from
ignore_from-IsIgnored ctxs fd zero i evs evs' e =
    let same : evs ≡ evs' = cc in
    subst {A = List EpollEvent} (IsIgnored ctxs fd 0 i evs) same (record {
      len = refl;
      ptrs = λ j. refl;
      kept = λ j x g n. g;
      others = λ j x a b g n. absurd (omega arith);
    })
ignore_from-IsIgnored ctxs fd (suc n) i evs evs' e = elim (Option-cases (get_elem? evs i)) [
  | inl x ↦ absurd (ground (arith, e, x))
  | inr (ev, x) ↦ elim (Option-cases (deref ctxs ev.ptr)) [
    | inl y ↦ absurd (unfold ignore_event in ground (arith, e, x, y))
    | inr (ctx, y) ↦ elim (Option-cases (ignore_event fd evs i ev (some ctx))) [
      | inl z ↦ absurd (ground (arith, e, x, y, z))
      | inr (evs1, z) ↦
          IsIgnored-trans ctxs fd n i evs evs1 evs'
            (ignore_event-IsIgnored ctxs fd i evs evs1 ev ctx x y z)
            (ignore_from-IsIgnored ctxs fd n (suc i) evs1 evs' (rw (x, y, z) at e))
    ]
  ]
]

-- The loop ends if the contexts of the range are live.
ignore_from_of_live :
    (ctxs : List EventCtx) (fd : ℤ) (n i : ℕ) (evs : List EpollEvent)
    → ((j p : ℕ) → i ≤ j → j < i + n → ptr_at evs j ≡ some p → deref ctxs p ≢ none)
    → i + n ≤ length evs
    → (evs' : List EpollEvent) × (ignore_from ctxs fd n i evs ≡ some evs')
unfolding ignore_from
ignore_from_of_live ctxs fd zero i evs live h = (evs, refl)
ignore_from_of_live ctxs fd (suc n) i evs live h =
    let (ev, x) = get_elem?_of_lt evs i (omega arith) in
    let there = live i ev.ptr (omega arith) (omega arith) (ptr_at_of_get evs i ev x) in
    elim (Option-cases (deref ctxs ev.ptr)) [
      | inl y ↦ absurd (there y)
      | inr (ctx, y) ↦ elim (Option-cases (ignore_event fd evs i ev (some ctx))) [
        | inl z ↦ absurd (unfold ignore_event in ground (arith, z))
        | inr (evs1, z) ↦
            let one = ignore_event-IsIgnored ctxs fd i evs evs1 ev ctx x y z in
            let (evs', r) =
              ignore_from_of_live ctxs fd n (suc i) evs1
                (λ j p a b g. live j p (omega arith) (omega arith) (sym (one.ptrs j) ∙ g))
                (omega (arith, one.len)) in
            (evs', rw (x, y, z) r)
      ]
    ]

-- An event of the range whose context has been freed: the loop reads it.
pub ignore_from_of_freed :
    (ctxs : List EventCtx) (fd : ℤ) (n i : ℕ) (evs : List EpollEvent) (j p : ℕ)
    → i ≤ j
    → j < i + n
    → ptr_at evs j ≡ some p
    → deref ctxs p ≡ none
    → ignore_from ctxs fd n i evs ≡ none
unfolding ignore_from
ignore_from_of_freed ctxs fd zero i evs j p a b g dead = absurd (omega arith)
ignore_from_of_freed ctxs fd (suc n) i evs j p a b g dead = elim (Option-cases (get_elem? evs i)) [
  | inl x ↦ rw x refl
  | inr (ev, x) ↦ elim (Option-cases (deref ctxs ev.ptr)) [
    | inl y ↦ unfold ignore_event in rw (x, y) refl
    | inr (ctx, y) ↦ elim (Option-cases (ignore_event fd evs i ev (some ctx))) [
      | inl z ↦ rw (x, y, z) refl
      | inr (evs1, z) ↦
          let one = ignore_event-IsIgnored ctxs fd i evs evs1 ev ctx x y z in
          let apart : i ≢ j = λ w.
            let same : some ev.ptr ≡ some p =
              sym (ptr_at_of_get evs i ev x) ∙ ap (ptr_at evs) w ∙ g in
            let ptr_eq : ev.ptr ≡ p = cc in absurd (ground (arith, y, rw (sym ptr_eq) at dead)) in
          rw (x, y, z)
            (ignore_from_of_freed ctxs fd n (suc i) evs1 j p (omega arith) (omega arith)
              (one.ptrs j ∙ g) dead)
    ]
  ]
]
