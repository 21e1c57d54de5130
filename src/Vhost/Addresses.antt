-- ===== src/Vhost/Addresses.antt =====
-- The user addresses of a client: `uva_to_gpa` and SET_VRING_ADDR.
use libvhost_user.Base.{
  ℕ, zero, suc, ◌+◌, ◌-◌, ◌%◌, ◌<◌, ◌≤◌, ◌≡◌, ◌⊎◌, refl, ap, sym, subst, ◌∙◌, true, false, some,
  List, ltb, [], ◌∷◌, leb, ◌&&◌, arith, inl, inr, Bool-cases, All, get_elem?, u64_mod, add64, sub64,
}
use libvhost_user.Memory.{map_failed}
use libvhost_user.Vhost.Protocol.{
  Message, MemRegion, vring_f_log, has_feature, sizeof_vring_address, get_vring_index,
  get_address_flags, get_descriptor, get_used, get_available,
}
use libvhost_user.Vhost.Device.{Vring, VhostDev}
use libvhost_user.Vhost.Handlers.{answer, with_vring, on_vring}
use libvhost_user.Vhost.RingHandlers.{is_logged, set_vring_addr, put_addr}
use libvhost_user.Base.{pos as ok}
use libvhost_user.Vhost.MemTable.{is_user_of, uva_to_gpa}

-- A region that does not wrap, neither for the client nor in the guest.
pub record Fits (mr : MemRegion) : Type 0 where
  pub nonempty : 0 < mr.size
  pub user_fits : mr.user_addr + mr.size ≤ u64_mod
  pub guest_fits : mr.guest_addr + mr.size ≤ u64_mod

abbrev pub IsInUser : MemRegion → ℕ → Type 0
IsInUser mr uva = (mr.user_addr ≤ uva) × (uva < mr.user_addr + mr.size)

last_user :
    (mr : MemRegion)
    → Fits mr
    → (mr.user_addr + mr.size + map_failed) % u64_mod ≡ mr.user_addr + mr.size - 1
last_user mr f = omega (arith, f.nonempty, f.user_fits)

is_user_of-in : (mr : MemRegion) (uva : ℕ) → Fits mr → IsInUser mr uva → is_user_of mr uva ≡ true
unfolding is_user_of
is_user_of-in mr uva f (lo, hi) = rw (last_user mr f) (ground (arith, lo, hi, f.nonempty))

is_user_of-out : (mr : MemRegion) (uva : ℕ) → Fits mr → is_user_of mr uva ≡ true → IsInUser mr uva
unfolding is_user_of
is_user_of-out mr uva f e =
    let e' : (leb mr.user_addr uva && leb uva (mr.user_addr + mr.size - 1)) ≡ true =
      subst {A = ℕ} (λ x. (leb mr.user_addr uva && leb uva x) ≡ true) (last_user mr f) e in
    (ground (arith, e'), ground (arith, e', f.nonempty))

to_guest :
    (mr : MemRegion) (uva : ℕ)
    → Fits mr
    → IsInUser mr uva
    → add64 mr.guest_addr (sub64 uva mr.user_addr) ≡ mr.guest_addr + (uva - mr.user_addr)
to_guest mr uva f (lo, hi) = omega (arith, f.user_fits, f.guest_fits, lo, hi)

-- The regions of a client that do not wrap and have no address of it in common.
abbrev pub IsUserTable : List MemRegion → Type 0
IsUserTable [] = Unit
IsUserTable (mr ∷ rest) =
    Fits mr
    × All
        (λ (r : MemRegion).
          (mr.user_addr + mr.size ≤ r.user_addr) ⊎ (r.user_addr + r.size ≤ mr.user_addr))
        rest
    × IsUserTable rest

All-at :
    (P : MemRegion → Type 0) (rs : List MemRegion) (n : ℕ) (mr : MemRegion)
    → All P rs
    → get_elem? rs n ≡ some mr
    → P mr
All-at P [] n mr all e = absurd (ground arith)
All-at P (r ∷ rs) zero mr (p, all) e =
    let same : r ≡ mr = ground arith in subst {A = MemRegion} P same p
All-at P (r ∷ rs) (suc n) mr (p, all) e = All-at P rs n mr all e

-- An address that the table has is translated by its own region, whichever comes before it.
uva_to_gpa-in :
    (rs : List MemRegion) (n : ℕ) (mr : MemRegion) (uva : ℕ)
    → IsUserTable rs
    → get_elem? rs n ≡ some mr
    → IsInUser mr uva
    → uva_to_gpa rs uva ≡ mr.guest_addr + (uva - mr.user_addr)
unfolding uva_to_gpa
uva_to_gpa-in [] n mr uva t e p = absurd (ground arith)
uva_to_gpa-in (r ∷ rs) zero mr uva (f, _, _) e p =
    let same : mr ≡ r = ground arith in
    let here : IsInUser r uva = subst {A = MemRegion} (λ x. IsInUser x uva) same p in
    let at : r.guest_addr + (uva - r.user_addr) ≡ mr.guest_addr + (uva - mr.user_addr) =
      sym (ap (λ (x : MemRegion). x.guest_addr + (uva - x.user_addr)) same) in
    rw (is_user_of-in r uva f here) (to_guest r uva f here ∙ at)
uva_to_gpa-in (r ∷ rs) (suc n) mr uva (f, apart, t) e p =
    let rest = uva_to_gpa-in rs n mr uva t e p in
    let away = All-at _ rs n mr apart e in
    elim (Bool-cases (is_user_of r uva)) [
      | inl b ↦
          let (lo, hi) = is_user_of-out r uva f b in absurd (omega (arith, away, lo, hi, p.0, p.1))
      | inr b ↦ rw b rest
    ]

-- The client's address of a guest address.
pub record IsUserOf (rs : List MemRegion) (uva gpa : ℕ) : Type 0 where
  pub index : ℕ
  pub region : MemRegion
  pub listed : get_elem? rs index ≡ some region
  pub from : region.guest_addr ≤ gpa
  pub to : gpa < region.guest_addr + region.size
  pub user : uva ≡ region.user_addr + (gpa - region.guest_addr)

uva_to_gpa-user :
    (rs : List MemRegion) (uva gpa : ℕ)
    → IsUserTable rs
    → IsUserOf rs uva gpa
    → uva_to_gpa rs uva ≡ gpa
uva_to_gpa-user rs uva gpa t u =
    uva_to_gpa-in rs u.index u.region uva t u.listed
      (omega (arith, u.user, u.from, u.to), omega (arith, u.user, u.from, u.to))
    ∙ omega (arith, u.user, u.from, u.to)

-- SET_VRING_ADDR of a vring that there is, by a client that names the three parts by its own
-- addresses of them, stores the guest addresses of the parts, and changes nothing else; the
-- regions that the client has sent do not wrap and have no address of the client in common, and
-- logging is not asked for.
pub set_vring_addr-stores :
    (dev : VhostDev) (msg : Message) (v : Vring) (desc avail used : ℕ)
    → IsUserTable dev.regions
    → sizeof_vring_address ≤ msg.size
    → get_vring_index msg ≤ dev.num_queues
    → has_feature (get_address_flags msg) vring_f_log ≡ false
    → get_elem? dev.vrings (get_vring_index msg) ≡ some v
    → IsUserOf dev.regions (get_descriptor msg) desc
    → IsUserOf dev.regions (get_available msg) avail
    → IsUserOf dev.regions (get_used msg) used
    → set_vring_addr dev msg
      ≡ some (
          answer
            (ok 0)
            (with_vring dev
              (get_vring_index msg)
              (record v { avail_addr = avail; desc_addr = desc; used_addr = used }))
            msg)
unfolding set_vring_addr put_addr is_logged
set_vring_addr-stores dev msg v desc avail used t size index flags e d a u =
    let whole : ltb msg.size sizeof_vring_address ≡ false = ground (arith, size) in
    let known : ltb dev.num_queues (get_vring_index msg) ≡ false = ground (arith, index) in
    rw
      (
        whole,
        known,
        on_vring,
        e,
        flags,
        uva_to_gpa-user dev.regions (get_descriptor msg) desc t d,
        uva_to_gpa-user dev.regions (get_available msg) avail t a,
        uva_to_gpa-user dev.regions (get_used msg) used t u,
      )
      refl
