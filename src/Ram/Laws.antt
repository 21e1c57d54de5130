-- ===== src/Ram/Laws.antt =====
-- A word reads back as it was written, and a write leaves the words beside it alone.
use libvhost_user.Base.{ℕ, ◌+◌, ◌/◌, ◌%◌, ◌^◌, ◌≤◌, ◌<◌, ◌≡◌, ◌⊎◌, arith}
use libvhost_user.Ram.{Ram, read8, read16, read32, read64, write8, write16, write32, write64}

-- Two stretches of memory have no byte in common.
abbrev pub Apart : ℕ → ℕ → ℕ → ℕ → Type 0
Apart a n b m = (a + n ≤ b) ⊎ (b + m ≤ a)

pub read16-lt : (m : Ram) (a : ℕ) → read16 m a < 2 ^ 16
unfolding read16 read8
read16-lt m a = omega arith

pub read16-write16 : (m : Ram) (a v : ℕ) → read16 (write16 m a v) a ≡ v % 2 ^ 16
unfolding read16 read8 write16 write8
read16-write16 m a v = ground arith

pub read16-write16-Apart :
    (m : Ram) (a b v : ℕ) → Apart a 2 b 2 → read16 (write16 m a v) b ≡ read16 m b
unfolding read16 read8 write16 write8
read16-write16-Apart m a b v h = ground arith

pub read16-write32-Apart :
    (m : Ram) (a b v : ℕ) → Apart a 4 b 2 → read16 (write32 m a v) b ≡ read16 m b
unfolding write32
read16-write32-Apart m a b v h = ground (
  arith,
  read16-write16-Apart (write16 m a v) (a + 2) b (v / 65536),
  read16-write16-Apart m a b v,
)

pub read32-write32 : (m : Ram) (a v : ℕ) → v < 2 ^ 32 → read32 (write32 m a v) a ≡ v
unfolding read32 write32
read32-write32 m a v h =
    let lo = write16 m a v in
    ground (
      arith,
      read16-write16 lo (a + 2) (v / 65536),
      read16-write16-Apart lo (a + 2) a (v / 65536),
      read16-write16 m a v,
    )

pub read32-write32-Apart :
    (m : Ram) (a b v : ℕ) → Apart a 4 b 4 → read32 (write32 m a v) b ≡ read32 m b
unfolding read32
read32-write32-Apart m a b v h =
    ground (arith, read16-write32-Apart m a b v, read16-write32-Apart m a (b + 2) v)

pub read32-write16-Apart :
    (m : Ram) (a b v : ℕ) → Apart a 2 b 4 → read32 (write16 m a v) b ≡ read32 m b
unfolding read32
read32-write16-Apart m a b v h =
    ground (arith, read16-write16-Apart m a b v, read16-write16-Apart m a (b + 2) v)

pub read32-lt : (m : Ram) (a : ℕ) → read32 m a < 2 ^ 32
unfolding read32
read32-lt m a = omega (arith, read16-lt m a, read16-lt m (a + 2))

pub read64-lt : (m : Ram) (a : ℕ) → read64 m a < 2 ^ 64
unfolding read64
read64-lt m a = omega (arith, read32-lt m a, read32-lt m (a + 4))

read32-write32_mod : (m : Ram) (a v : ℕ) → read32 (write32 m a v) a ≡ v % 2 ^ 32
unfolding read32 write32
read32-write32_mod m a v =
    let lo = write16 m a v in
    ground (
      arith,
      read16-write16 lo (a + 2) (v / 65536),
      read16-write16-Apart lo (a + 2) a (v / 65536),
      read16-write16 m a v,
    )

pub read64-write64 : (m : Ram) (a v : ℕ) → v < 2 ^ 64 → read64 (write64 m a v) a ≡ v
unfolding read64 write64
read64-write64 m a v h =
    let lo = write32 m a v in
    ground (
      arith,
      read32-write32_mod lo (a + 4) (v / 2 ^ 32),
      read32-write32-Apart lo (a + 4) a (v / 2 ^ 32),
      read32-write32_mod m a v,
    )

pub read64-write32-Apart :
    (m : Ram) (a b v : ℕ) → Apart a 4 b 8 → read64 (write32 m a v) b ≡ read64 m b
unfolding read64
read64-write32-Apart m a b v h =
    ground (arith, read32-write32-Apart m a b v, read32-write32-Apart m a (b + 4) v)

-- A write leaves the other bytes alone.
pub write16-other : (m : Ram) (p v b : ℕ) → (b < p) ⊎ (p + 2 ≤ b) → write16 m p v b ≡ m b
unfolding write16 write8
write16-other m p v b h = ground arith

pub write32-other : (m : Ram) (p v b : ℕ) → (b < p) ⊎ (p + 4 ≤ b) → write32 m p v b ≡ m b
unfolding write32
write32-other m p v b h =
    ground (arith, h, write16-other (write16 m p v) (p + 2) (v / 65536) b, write16-other m p v b)
