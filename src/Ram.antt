-- ===== src/Ram.antt =====
-- Host memory as the code sees it through its pointers: bytes at addresses, words little-endian
-- (the `le16`, `le32` and `le64` of include/virtio/virtio10.h on an x86 host).
pub mod Laws
use libvhost_user.Base.{ℕ, ◌+◌, ◌*◌, ◌/◌, ◌%◌, ◌^◌, ◌==◌, if◌then◌else◌}

abbrev pub Ram : Type 0
Ram = ℕ → ℕ

unfoldable pub read8 : Ram → ℕ → ℕ
read8 m a = m a % 256

unfoldable pub read16 : Ram → ℕ → ℕ
unfolding read8
read16 m a = read8 m a + 256 * read8 m (a + 1)

unfoldable pub read32 : Ram → ℕ → ℕ
read32 m a = read16 m a + 65536 * read16 m (a + 2)

unfoldable pub read64 : Ram → ℕ → ℕ
read64 m a = read32 m a + 2 ^ 32 * read32 m (a + 4)

unfoldable pub write8 : Ram → ℕ → ℕ → Ram
write8 m a v b = if b == a then v % 256 else m b

unfoldable pub write16 : Ram → ℕ → ℕ → Ram
unfolding write8
write16 m a v = write8 (write8 m a v) (a + 1) (v / 256)

unfoldable pub write32 : Ram → ℕ → ℕ → Ram
write32 m a v = write16 (write16 m a v) (a + 2) (v / 65536)

unfoldable pub write64 : Ram → ℕ → ℕ → Ram
write64 m a v = write32 (write32 m a v) (a + 4) (v / 2 ^ 32)
