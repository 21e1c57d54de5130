-- ===== src/Vhost/Sized.antt =====
-- The invariant of a device: it has a vring for each queue, and none is larger than a queue may be.
use libvhost_user.Base.{
  ℕ, zero, suc, ◌≤◌, ◌≡◌, ◌∙◌, some, List, [], ◌∷◌, ℤ, false, arith, inl, inr, Bool-cases, length,
  get_elem?, set, length-set, All,
}
use libvhost_user.Virtqueue.Layout.{max_size}
use libvhost_user.Vhost.Protocol.{Message, get_num}
use libvhost_user.Vhost.Device.{Vring, VhostDev}
use libvhost_user.Vhost.Ring.{vring_stop}
use libvhost_user.Vhost.Handlers.{with_vring, with_fd, FdType, kick, call, err, set_fd}
use libvhost_user.Vhost.RingHandlers.{is_too_large, put_num, put_addr, take_base}

-- `virtqueue_start` takes the size as a 16-bit number; with this nothing is cut off.
abbrev pub IsSized : Vring → Type 0
IsSized vring = vring.size ≤ max_size

pub record IsDev (dev : VhostDev) : Type 0 where
  pub counted : length dev.vrings ≡ dev.num_queues
  pub sized : All IsSized dev.vrings

pub All-set :
    (vrings : List Vring) (i : ℕ) (v : Vring)
    → All IsSized vrings
    → IsSized v
    → All IsSized (set vrings i v)
All-set [] i v all p = tt
All-set (x ∷ xs) zero v (q, all) p = (p, all)
All-set (x ∷ xs) (suc i) v (q, all) p = (q, All-set xs i v all p)

pub All-get_elem? :
    (vrings : List Vring) (i : ℕ) (v : Vring)
    → All IsSized vrings
    → get_elem? vrings i ≡ some v
    → IsSized v
All-get_elem? [] i v all e = absurd (ground arith)
All-get_elem? (x ∷ xs) zero v (q, all) e = ground arith
All-get_elem? (x ∷ xs) (suc i) v (q, all) e = All-get_elem? xs i v all e

pub with_vring-IsDev :
    (dev : VhostDev) (i : ℕ) (v : Vring) → IsDev dev → IsSized v → IsDev (with_vring dev i v)
with_vring-IsDev dev i v d p = record {
  counted = length-set dev.vrings i v ∙ d.counted;
  sized = All-set dev.vrings i v d.sized p;
}

pub put_num-IsDev :
    (dev : VhostDev) (msg : Message) (i : ℕ) (v : Vring)
    → IsDev dev
    → is_too_large msg ≡ false
    → IsDev (put_num dev msg i v).dev
unfolding put_num is_too_large
put_num-IsDev dev msg i v d g =
    with_vring-IsDev dev i (record v { size = get_num msg }) d (ground (arith, g))

pub put_addr-IsDev :
    (dev : VhostDev) (msg : Message) (i : ℕ) (v : Vring)
    → IsDev dev
    → IsSized v
    → IsDev (put_addr dev msg i v).dev
unfolding put_addr
put_addr-IsDev dev msg i v d p = with_vring-IsDev dev i _ d p

pub take_base-IsDev :
    (dev : VhostDev) (msg : Message) (i : ℕ) (v : Vring)
    → IsDev dev
    → IsSized v
    → IsDev (take_base dev msg i v).dev
unfolding take_base vring_stop
take_base-IsDev dev msg i v d p = with_vring-IsDev dev i _ d (ground (arith, p))

pub with_fd-IsSized : (t : FdType) (fd : ℤ) (v : Vring) → IsSized v → IsSized (with_fd t fd v)
with_fd-IsSized kick fd v p = p
with_fd-IsSized call fd v p = p
with_fd-IsSized err fd v p = p

pub set_fd-IsDev :
    (t : FdType) (fd : ℤ) (dev : VhostDev) (msg : Message) (i : ℕ) (v : Vring)
    → IsDev dev
    → IsSized v
    → IsDev (set_fd t fd dev msg i v).dev
unfolding set_fd
set_fd-IsDev t fd dev msg i v d p = elim (Bool-cases v.is_started) [
  | inl u ↦ rw u d
  | inr u ↦ rw u (
      with_vring-IsDev dev i (with_fd t fd (record v { is_started = false })) d
        (with_fd-IsSized t fd (record v { is_started = false }) p))
]
