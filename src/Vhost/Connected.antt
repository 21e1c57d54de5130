-- ===== src/Vhost/Connected.antt =====
-- The request handlers leave the connection of a device alone.
use libvhost_user.Base.{ℕ, ◌≡◌, refl, false, ℤ, arith, All, is_neg, minus_one}
use libvhost_user.Vhost.Protocol.{Message}
use libvhost_user.Vhost.Device.{Vring, VhostDev}
use libvhost_user.Vhost.MemTable.{Mmap}
use libvhost_user.Vhost.Handlers.{set_fd}
use libvhost_user.Vhost.RingHandlers.{put_num, put_addr, put_base, take_base}
use libvhost_user.Vhost.Dispatch.{call_handler}
use libvhost_user.Vhost.Every.{Each, EachVring, call_handler-EachDev}
use libvhost_user.Vhost.Quiet.{IsQuiet-EachQuiet}

-- Connected, or with no vring that is watched.
pub data HasPeer (dev : VhostDev) : Type 0 where
  connected : is_neg dev.connfd ≡ false → HasPeer dev
  unwatched : All (λ (v : Vring). v.kickfd ≡ minus_one) dev.vrings → HasPeer dev

-- The device has that connection.
abbrev pub HasFd : ℤ → VhostDev → Type 0
HasFd fd dev = dev.connfd ≡ fd

vring-HasFd :
    (dev : VhostDev) (msg : Message) (i : ℕ) (v : Vring)
    → EachVring (λ a. HasFd dev.connfd a.dev) dev msg i v
unfolding set_fd put_num put_addr put_base take_base
vring-HasFd dev msg i v = record {
  by_num = λ g. refl;
  by_addr = λ g. refl;
  by_base = refl;
  by_take = refl;
  by_fd = λ t fd. ground arith;
}

pub call_handler-HasFd :
    (mmap : Mmap) (fds : ℕ → ℤ) (dev : VhostDev) (msg : Message)
    → Each (λ a. HasFd dev.connfd a.dev) (call_handler mmap fds dev msg)
call_handler-HasFd mmap fds dev msg =
    call_handler-EachDev (HasFd dev.connfd) mmap fds dev msg
      (IsQuiet-EachQuiet (HasFd dev.connfd) mmap fds dev msg (λ dev' q. q.same_fd))
      (λ i v e. vring-HasFd dev msg i v)
