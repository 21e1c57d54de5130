-- ===== src/Vhost/Reset.antt =====
-- What `vhost_reset_dev` leaves behind, and what it closes.
use libvhost_user.Virtqueue.Layout.{Virtqueue}
use libvhost_user.Base.{
  suc, ◌≡◌, ◌⊎◌, refl, ap, true, false, List, [], ◌∷◌, ◌++◌, ℤ, ◌==ℤ◌, minus_one, inl, inr,
  Bool-cases, length, All, map, ℕ,
}
use libvhost_user.Memory.{Region, MemoryMap}
use libvhost_user.System.{Call, close, del_fd, munmap}
use libvhost_user.Vhost.Device.{Vring, VhostDev}
use libvhost_user.Vhost.Ring.{close_fd_calls, without_kickfd, vring_reset}
use libvhost_user.Vhost.MemTable.{unmap_calls, reset_memory_map}
use libvhost_user.Vhost.Dispatch.{reset_vrings, drop_connection, vhost_reset_dev}

-- The call is one of those.
abbrev pub Called : Call → List Call → Type 0
Called c [] = ⊥
Called c (x ∷ xs) = (c ≡ x) ⊎ Called c xs

left : (c : Call) (xs ys : List Call) → Called c xs → Called c (xs ++ ys)
left c [] ys m = elim m [ ]
left c (x ∷ xs) ys (inl e) = inl e
left c (x ∷ xs) ys (inr m) = inr (left c xs ys m)

right : (c : Call) (xs ys : List Call) → Called c ys → Called c (xs ++ ys)
right c [] ys m = m
right c (x ∷ xs) ys m = inr (right c xs ys m)

-- A descriptor that is there is closed.
abbrev IsClosed : ℤ → List Call → Type 0
IsClosed fd calls = (fd ==ℤ minus_one) ≡ false → Called (close fd) calls

close_fd_calls-IsClosed : (vring : Vring) (fd : ℤ) → IsClosed fd (close_fd_calls vring fd)
unfolding close_fd_calls
close_fd_calls-IsClosed vring fd h = rw h (elim (Bool-cases (fd ==ℤ vring.kickfd)) [
  | inl t ↦ rw t (inr (inl refl))
  | inr t ↦ rw t (inl refl)
])

-- A vring as new, as far as a reset goes.
pub record IsIdle (vring : Vring) : Type 0 where
  pub no_kickfd : vring.kickfd ≡ minus_one
  pub no_callfd : vring.callfd ≡ minus_one
  pub no_errfd : vring.errfd ≡ minus_one
  pub enabled : vring.is_enabled ≡ true
  pub stopped : vring.is_started ≡ false

-- All that a vring held open is closed.
pub record IsReleased (calls : List Call) (vring : Vring) : Type 0 where
  pub kick_closed : IsClosed vring.kickfd calls
  pub call_closed : IsClosed vring.callfd calls
  pub err_closed : IsClosed vring.errfd calls

vring_reset-IsReleased : (vring : Vring) → IsReleased (vring_reset false vring).1 vring
unfolding vring_reset
vring_reset-IsReleased vring =
    let kick = close_fd_calls vring vring.kickfd in
    let call = close_fd_calls (without_kickfd vring) vring.callfd in
    let err = close_fd_calls (without_kickfd vring) vring.errfd in
    record {
      kick_closed = λ h.
          left _ (kick ++ call) err
            (left _ kick call (close_fd_calls-IsClosed vring vring.kickfd h));
      call_closed = λ h.
          left _ (kick ++ call) err
            (right _ kick call (close_fd_calls-IsClosed (without_kickfd vring) vring.callfd h));
      err_closed = λ h.
          right _ (kick ++ call) err (close_fd_calls-IsClosed (without_kickfd vring) vring.errfd h);
    }

IsReleased-more :
    (f : List Call → List Call) (calls : List Call) (vring : Vring)
    → ((c : Call) → Called c calls → Called c (f calls))
    → IsReleased calls vring
    → IsReleased (f calls) vring
IsReleased-more f calls vring m r = record {
  kick_closed = λ h. m _ (r.kick_closed h);
  call_closed = λ h. m _ (r.call_closed h);
  err_closed = λ h. m _ (r.err_closed h);
}

All-more :
    (f : List Call → List Call) (calls : List Call) (vrings : List Vring)
    → ((c : Call) → Called c calls → Called c (f calls))
    → All (IsReleased calls) vrings
    → All (IsReleased (f calls)) vrings
All-more f calls [] m all = tt
All-more f calls (v ∷ vs) m (r, all) = (IsReleased-more f calls v m r, All-more f calls vs m all)

pub reset_vrings-All :
    (vrings : List Vring)
    → All IsIdle (reset_vrings false vrings).0
      × All (IsReleased (reset_vrings false vrings).1) vrings
      × (length (reset_vrings false vrings).0 ≡ length vrings)
unfolding reset_vrings
reset_vrings-All [] = (tt, tt, refl)
reset_vrings-All (v ∷ vs) =
    let (idle, released, len) = reset_vrings-All vs in
    let here = (vring_reset false v).1 in
    let there = (reset_vrings false vs).1 in
    (
      (
        unfold vring_reset in
            record {
              no_kickfd = refl;
              no_callfd = refl;
              no_errfd = refl;
              enabled = refl;
              stopped = refl;
            },
        idle,
      ),
      (
        IsReleased-more (λ c. c ++ there) here v (λ c. left c here there)
            (vring_reset-IsReleased v),
        All-more (λ c. here ++ c) there vs (λ c. right c here there) released,
      ),
      ap suc len,
    )

unmapped :
    (f : List Call → List Call) (mem : MemoryMap)
    → ((c : Call) → Called c (unmap_calls mem) → Called c (f (unmap_calls mem)))
    → All (λ (r : Region). Called (munmap r.hva r.len) (f (unmap_calls mem))) mem
unfolding unmap_calls
unmapped f [] m = tt
unmapped f (r ∷ rs) m = (
  m (munmap r.hva r.len) (inl refl),
  unmapped (λ calls. f (munmap r.hva r.len ∷ calls)) rs (λ c n. m c (inr n)),
)

-- A device as new: not connected, nothing negotiated, no memory, and all its vrings idle.
pub record IsFresh (dev : VhostDev) : Type 0 where
  pub no_connfd : dev.connfd ≡ minus_one
  pub no_protocol : dev.has_protocol_features ≡ false
  pub nothing_negotiated : dev.negotiated_protocol_features ≡ 0
  pub no_session : dev.session_started ≡ false
  pub no_memory : dev.memory_map ≡ []
  pub no_regions : dev.regions ≡ []
  pub vrings_idle : All IsIdle dev.vrings

-- All that a device held is given back by the calls.
pub record IsGivenBack (dev : VhostDev) (calls : List Call) : Type 0 where
  pub connection_closed : Called (close dev.connfd) calls
  pub vrings_released : All (IsReleased calls) dev.vrings
  pub memory_unmapped : All (λ (r : Region). Called (munmap r.hva r.len) calls) dev.memory_map

-- What a reset leaves of a vring: its size, its base, its addresses and its virtqueue.
pub record Settings : Type 0 where
  pub size : ℕ
  pub avail_base : ℕ
  pub avail_addr : ℕ
  pub desc_addr : ℕ
  pub used_addr : ℕ
  pub vq : Virtqueue

abbrev pub settings : Vring → Settings
settings v = record {
  size = v.size;
  avail_base = v.avail_base;
  avail_addr = v.avail_addr;
  desc_addr = v.desc_addr;
  used_addr = v.used_addr;
  vq = v.vq;
}

reset_vrings-settings :
    (vrings : List Vring) → map settings (reset_vrings false vrings).0 ≡ map settings vrings
unfolding reset_vrings vring_reset
reset_vrings-settings [] = refl
reset_vrings-settings (v ∷ vs) =
    ap (λ (ss : List Settings). settings v ∷ ss) (reset_vrings-settings vs)

-- A reset leaves a device that has no connection, no session, no features negotiated and no memory,
-- and all its vrings enabled, stopped and without descriptors, but each with the size, the base, the
-- addresses and the virtqueue that it had. It gives back all that the device held: its connection,
-- the descriptors of all its vrings and its mapped memory.
pub vhost_reset_dev-IsFresh :
    (dev : VhostDev)
    → let (dev', calls) = vhost_reset_dev dev in
      IsFresh dev'
      × IsGivenBack dev calls
      × (length dev'.vrings ≡ length dev.vrings)
      × (dev'.num_queues ≡ dev.num_queues)
      × (dev'.vdev ≡ dev.vdev)
      × (map settings dev'.vrings ≡ map settings dev.vrings)
unfolding vhost_reset_dev drop_connection reset_memory_map
vhost_reset_dev-IsFresh dev =
    let (idle, released, len) = reset_vrings-All dev.vrings in
    let connection = del_fd dev.connfd ∷ close dev.connfd ∷ [] in
    let vrings = (reset_vrings false dev.vrings).1 in
    let memory = unmap_calls dev.memory_map in
    (
      record {
        no_connfd = refl;
        no_protocol = refl;
        nothing_negotiated = refl;
        no_session = refl;
        no_memory = refl;
        no_regions = refl;
        vrings_idle = idle;
      },
      record {
        connection_closed = inr (inl refl);
        vrings_released =
            All-more (λ c. (connection ++ c) ++ memory) vrings dev.vrings
              (λ c m. left c (connection ++ vrings) memory (right c connection vrings m)) released;
        memory_unmapped =
            unmapped (λ c. (connection ++ vrings) ++ c) dev.memory_map
              (λ c m. right c (connection ++ vrings) memory m);
      },
      len,
      refl,
      refl,
      reset_vrings-settings dev.vrings,
    )
