-- ===== src/Vhost/Keep.antt =====
-- The request handlers keep the invariant of a device.
use libvhost_user.Base.{ℕ, ap, sym, subst, ◌∙◌, ℤ, List, length, All}
use libvhost_user.Vhost.Protocol.{Message}
use libvhost_user.Vhost.Device.{Vring, VhostDev}
use libvhost_user.Vhost.MemTable.{Mmap}
use libvhost_user.Vhost.RingHandlers.{put_base}
use libvhost_user.Vhost.Dispatch.{call_handler}
use libvhost_user.Vhost.Every.{Each, EachVring, call_handler-EachDev}
use libvhost_user.Vhost.Quiet.{IsQuiet, IsQuiet-EachQuiet}
use libvhost_user.Vhost.Sized.{
  IsSized, IsDev, All-get_elem?, with_vring-IsDev, put_num-IsDev, put_addr-IsDev, take_base-IsDev,
  set_fd-IsDev,
}

IsQuiet-IsDev : (dev dev' : VhostDev) → IsDev dev → IsQuiet dev dev' → IsDev dev'
IsQuiet-IsDev dev dev' d q = record {
  counted = ap length q.same_list ∙ d.counted ∙ sym q.same_count;
  sized = subst {A = List Vring} (λ vs. All IsSized vs) (sym q.same_list) d.sized;
}

vring-IsDev :
    (dev : VhostDev) (msg : Message) (i : ℕ) (v : Vring)
    → IsDev dev
    → IsSized v
    → EachVring (λ a. IsDev a.dev) dev msg i v
unfolding put_base
vring-IsDev dev msg i v d p = record {
  by_num = λ g. put_num-IsDev dev msg i v d g;
  by_addr = λ g. put_addr-IsDev dev msg i v d p;
  by_base = with_vring-IsDev dev i _ d p;
  by_take = take_base-IsDev dev msg i v d p;
  by_fd = λ t fd. set_fd-IsDev t fd dev msg i v d p;
}

pub call_handler-IsDev :
    (mmap : Mmap) (fds : ℕ → ℤ) (dev : VhostDev) (msg : Message)
    → IsDev dev
    → Each (λ a. IsDev a.dev) (call_handler mmap fds dev msg)
call_handler-IsDev mmap fds dev msg d =
    call_handler-EachDev IsDev mmap fds dev msg
      (IsQuiet-EachQuiet IsDev mmap fds dev msg (λ dev' q. IsQuiet-IsDev dev dev' d q))
      (λ i v e. vring-IsDev dev msg i v d (All-get_elem? dev.vrings i v d.sized e))
