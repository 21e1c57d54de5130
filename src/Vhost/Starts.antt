-- ===== src/Vhost/Starts.antt =====
-- No message starts a vring: the request handlers.
use libvhost_user.Base.{
  ℕ, zero, suc, ◌≡◌, ◌≢◌, refl, ap, sym, subst, ◌∙◌, true, false, some, List, [], ◌∷◌, ◌==◌, ℤ,
  arith, inl, inr, Bool-cases, get_elem?, get_elem?-set_ne, set,
}
use libvhost_user.Vhost.Protocol.{Message}
use libvhost_user.Vhost.Device.{Vring, VhostDev}
use libvhost_user.Vhost.Ring.{vring_stop}
use libvhost_user.Vhost.MemTable.{Mmap}
use libvhost_user.Vhost.Handlers.{kick, call, err, with_fd, with_vring, FdType, set_fd}
use libvhost_user.Vhost.RingHandlers.{put_num, put_addr, put_base, take_base}
use libvhost_user.Vhost.Every.{Each, EachVring, call_handler-EachDev}
use libvhost_user.Vhost.Quiet.{IsQuiet-EachQuiet}
use libvhost_user.Vhost.Dispatch.{call_handler}

-- The vring is as it was, as far as its virtqueue goes, or it is stopped.
pub record IsCalm (v v' : Vring) : Type 0 where
  pub was_started : v'.is_started ≡ true → v.is_started ≡ true
  pub vq_kept : v'.vq ≡ v.vq

-- Each vring that is started was started, with the virtqueue that it has.
pub record StartsNone (dev dev' : VhostDev) : Type 0 where
  pub before :
      (i : ℕ) (v' : Vring)
      → get_elem? dev'.vrings i ≡ some v'
      → v'.is_started ≡ true
      → (v : Vring) × (get_elem? dev.vrings i ≡ some v) × IsCalm v v'

pub same-StartsNone : (dev dev' : VhostDev) → dev'.vrings ≡ dev.vrings → StartsNone dev dev'
same-StartsNone dev dev' e = record {
  before = λ i v' g s. (
    v',
    sym (ap (λ (vs : List Vring). get_elem? vs i) e) ∙ g,
    record { was_started = λ t. t; vq_kept = refl },
  );
}

pub get_elem?-set_present :
    (vs : List Vring) (i : ℕ) (v : Vring)
    → get_elem? vs i ≡ some v
    → (x : Vring) → get_elem? (set vs i x) i ≡ some x
get_elem?-set_present [] i v e x = absurd (ground arith)
get_elem?-set_present (y ∷ vs) zero v e x = refl
get_elem?-set_present (y ∷ vs) (suc i) v e x = get_elem?-set_present vs i v e x

with_vring-StartsNone :
    (dev : VhostDev) (i : ℕ) (v x : Vring)
    → get_elem? dev.vrings i ≡ some v
    → IsCalm v x
    → StartsNone dev (with_vring dev i x)
with_vring-StartsNone dev i v x e c = record {
  before = λ j v' g s. elim (Bool-cases (i == j)) [
    | inl t ↦
        let at : i ≡ j = ground arith in
        let here : get_elem? (set dev.vrings i x) i ≡ some v' =
          ap (get_elem? (set dev.vrings i x)) at ∙ g in
        let got : some x ≡ some v' = sym (get_elem?-set_present dev.vrings i v e x) ∙ here in
        let same : x ≡ v' = cc in
        (v, ap (get_elem? dev.vrings) (sym at) ∙ e, subst {A = Vring} (IsCalm v) same c)
    | inr t ↦
        let apart : i ≢ j = ground (arith, t) in
        (
          v',
          sym (get_elem?-set_ne dev.vrings x apart) ∙ g,
          record { was_started = λ u. u; vq_kept = refl },
        )
  ];
}

same-IsCalm : (v x : Vring) → x.is_started ≡ v.is_started → x.vq ≡ v.vq → IsCalm v x
same-IsCalm v x s q = record { was_started = λ t. sym s ∙ t; vq_kept = q }

put_num-StartsNone :
    (dev : VhostDev) (msg : Message) (i : ℕ) (v : Vring)
    → get_elem? dev.vrings i ≡ some v
    → StartsNone dev (put_num dev msg i v).dev
unfolding put_num
put_num-StartsNone dev msg i v e = with_vring-StartsNone dev i v _ e (same-IsCalm v _ refl refl)

put_addr-StartsNone :
    (dev : VhostDev) (msg : Message) (i : ℕ) (v : Vring)
    → get_elem? dev.vrings i ≡ some v
    → StartsNone dev (put_addr dev msg i v).dev
unfolding put_addr
put_addr-StartsNone dev msg i v e = with_vring-StartsNone dev i v _ e (same-IsCalm v _ refl refl)

take_base-StartsNone :
    (dev : VhostDev) (msg : Message) (i : ℕ) (v : Vring)
    → get_elem? dev.vrings i ≡ some v
    → StartsNone dev (take_base dev msg i v).dev
unfolding take_base vring_stop
take_base-StartsNone dev msg i v e =
    with_vring-StartsNone dev i v _ e
      (record { was_started = λ t. ground (arith, t); vq_kept = ground arith })

-- A vring that is not started, with another descriptor.
with_fd-IsCalm :
    (t : FdType) (fd : ℤ) (v : Vring) → IsCalm v (with_fd t fd (record v { is_started = false }))
with_fd-IsCalm kick fd v = record { was_started = λ t. ground (arith, t); vq_kept = refl }
with_fd-IsCalm call fd v = record { was_started = λ t. ground (arith, t); vq_kept = refl }
with_fd-IsCalm err fd v = record { was_started = λ t. ground (arith, t); vq_kept = refl }

set_fd-StartsNone :
    (t : FdType) (fd : ℤ) (dev : VhostDev) (msg : Message) (i : ℕ) (v : Vring)
    → get_elem? dev.vrings i ≡ some v
    → StartsNone dev (set_fd t fd dev msg i v).dev
unfolding set_fd
set_fd-StartsNone t fd dev msg i v e = elim (Bool-cases v.is_started) [
  | inl u ↦ rw u (same-StartsNone dev dev refl)
  | inr u ↦ rw u (
      with_vring-StartsNone dev i v (with_fd t fd (record v { is_started = false })) e
        (with_fd-IsCalm t fd v))
]

vring-StartsNone :
    (dev : VhostDev) (msg : Message) (i : ℕ) (v : Vring)
    → get_elem? dev.vrings i ≡ some v
    → EachVring (λ a. StartsNone dev a.dev) dev msg i v
unfolding put_base
vring-StartsNone dev msg i v e = record {
  by_num = λ g. put_num-StartsNone dev msg i v e;
  by_addr = λ g. put_addr-StartsNone dev msg i v e;
  by_base = with_vring-StartsNone dev i v _ e (same-IsCalm v _ refl refl);
  by_take = take_base-StartsNone dev msg i v e;
  by_fd = λ t fd. set_fd-StartsNone t fd dev msg i v e;
}

-- What a handler returns, if anything, is of a device in which it has started no vring.
pub call_handler-StartsNone :
    (mmap : Mmap) (fds : ℕ → ℤ) (dev : VhostDev) (msg : Message)
    → Each (λ a. StartsNone dev a.dev) (call_handler mmap fds dev msg)
call_handler-StartsNone mmap fds dev msg =
    call_handler-EachDev (StartsNone dev) mmap fds dev msg
      (IsQuiet-EachQuiet (StartsNone dev) mmap fds dev msg
        (λ dev' q. same-StartsNone dev dev' q.same_list))
      (vring-StartsNone dev msg)
