-- ===== src/System.antt =====
-- Calls of the operating system, as a trace in the order in which the code makes them.
use libvhost_user.Base.{ℕ, ℤ}

-- `add_fd` and `del_fd` are the calls of evloop.c that watch a descriptor and stop watching it.
pub data Call : Type 0 where
  eventfd_write : ℤ → ℕ → Call
  close : ℤ → Call
  add_fd : ℤ → Call
  del_fd : ℤ → Call
  munmap : (hva len : ℕ) → Call
