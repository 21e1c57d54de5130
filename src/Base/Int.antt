-- ===== src/Base/Int.antt =====
-- The C `int`: results 0 and -E, and file descriptors with -1 for none.
use Prim.Native.Nat.{ℕ, zero, suc}
use mathlib.Core.Path.{◌≡◌, ap}
use native.Mathlib.Omega.{arith}
use mathlib.Core.Bool.{Bool, true, false}
use libvhost_user.Base.Tests.{◌==◌}

-- `negsuc n` is -(n + 1).
pub data ℤ : Type 0 where
  pos : ℕ → ℤ
  negsuc : ℕ → ℤ

abbrev pub neg : ℕ → ℤ
neg zero = pos zero
neg (suc n) = negsuc n

abbrev pub is_neg : ℤ → Bool
is_neg (pos _) = false
is_neg (negsuc _) = true

infix 50 ◌==ℤ◌
abbrev pub ◌==ℤ◌ : ℤ → ℤ → Bool
pos a ==ℤ pos b = a == b
pos _ ==ℤ negsuc _ = false
negsuc _ ==ℤ pos _ = false
negsuc a ==ℤ negsuc b = a == b

abbrev pub minus_one : ℤ
minus_one = negsuc 0

-- The errno values that the code returns, negated: their Linux numbers.
abbrev pub enoent : ℤ
enoent = negsuc 1

abbrev pub eio : ℤ
eio = negsuc 4

abbrev pub enxio : ℤ
enxio = negsuc 5

abbrev pub einval : ℤ
einval = negsuc 21

abbrev pub enospc : ℤ
enospc = negsuc 27

abbrev pub enotsup : ℤ
enotsup = negsuc 94

pub ==ℤ→eq : (a b : ℤ) → (a ==ℤ b) ≡ true → a ≡ b
==ℤ→eq (pos a) (pos b) h = ap pos (ground arith)
==ℤ→eq (pos a) (negsuc b) h = absurd (ground arith)
==ℤ→eq (negsuc a) (pos b) h = absurd (ground arith)
==ℤ→eq (negsuc a) (negsuc b) h = ap negsuc (ground arith)

pub ==ℤ-self : (a : ℤ) → (a ==ℤ a) ≡ true
==ℤ-self (pos a) = ground arith
==ℤ-self (negsuc a) = ground arith
