-- ===== src/Base/Bits.antt =====
-- `&` with a low mask is a remainder, and `x & (x - 1)` tests for a power of two.
use Prim.Native.Nat.{
  ℕ, zero, suc, ◌+◌, ◌-◌, ◌*◌, ◌/◌, ◌%◌, ◌^◌, ◌≤◌, ◌<◌, min, digits, bit_and, bit_and-bitwise,
}
use mathlib.Core.Path.{◌≡◌, refl, ◌∙◌, ap, sym}
use mathlib.Core.Logic.{◌≢◌, ◌⊎◌, inl, inr}
use native.Mathlib.Nat.{
  pow-suc, one-le-pow, le_refl, mod-lt, mod-add-div, mod-eq_of_lt, mul-add-mod_self_left, zero-mod,
  mod_self, mul_assoc, mod-mod_of_dvd, pow-le-pow_right,
}
use native.Mathlib.Omega.{arith}
use native.Mathlib.Decide.{dec_le}

-- The recursion on digits that `bit_and` stands for, with its count of digits left.
abbrev and_from : ℕ → ℕ → ℕ → ℕ
and_from = digits (λ _. zero) min

double_mod : (m q r : ℕ) → 0 < m → r < 2 → (q % m) * 2 + r ≡ (q * 2 + r) % (m * 2)
double_mod m q r hm hr =
    sym (mod-eq_of_lt {n = q % m * 2 + r} {m = m * 2} (omega (arith, mod-lt q hm)))
    ∙ sym (mul-add-mod_self_left (m * 2) (q / m) (q % m * 2 + r))
    ∙ ap (λ t. t % (m * 2)) (omega (arith, ap (λ (t : ℕ). t * 2) (mod-add-div q m)))

half_mask : (k : ℕ) → (2 ^ suc k - 1) / 2 ≡ 2 ^ k - 1
half_mask k = omega (arith, pow-suc 2 k, one-le-pow k 2)

odd_mask : (k : ℕ) → (2 ^ suc k - 1) % 2 ≡ 1
odd_mask k = omega (arith, pow-suc 2 k, one-le-pow k 2)

and_from_mask : (n a k : ℕ) → a ≤ n → and_from n a (2 ^ k - 1) ≡ a % 2 ^ k
and_from_mask zero zero k h = sym (zero-mod (2 ^ k))
and_from_mask zero (suc a) k h = absurd (omega arith)
and_from_mask (suc n) zero k h = sym (zero-mod (2 ^ k))
and_from_mask (suc n) (suc a) zero h = omega (arith, and_from_mask n (suc a / 2) 0 (omega arith))
and_from_mask (suc n) (suc a) (suc k) h =
    rw (half_mask k, odd_mask k, and_from_mask n (suc a / 2) k (omega arith), pow-suc)
      (ap (λ (t : ℕ). suc a / 2 % 2 ^ k * 2 + t) (omega arith)
        ∙ double_mod (2 ^ k) (suc a / 2) (suc a % 2) (one-le-pow k 2 (omega arith)) (omega arith)
        ∙ ap (λ (t : ℕ). t % (2 ^ k * 2)) (omega arith))

-- `a & (2^k - 1)` keeps the low `k` bits.
pub bit_and_mask : (a k : ℕ) → bit_and a (2 ^ k - 1) ≡ a % 2 ^ k
bit_and_mask a k = bit_and-bitwise a (2 ^ k - 1) ∙ and_from_mask a a k (le_refl a)

and_from_self : (n a : ℕ) → a ≤ n → and_from n a a ≡ a
and_from_self zero zero h = refl
and_from_self zero (suc a) h = absurd (omega arith)
and_from_self (suc n) zero h = refl
and_from_self (suc n) (suc a) h = omega (arith, and_from_self n (suc a / 2) (omega arith))

even_or_odd : (a : ℕ) → ((m : ℕ) × (a ≡ 2 * m)) ⊎ ((m : ℕ) × (a ≡ 2 * m + 1))
even_or_odd zero = inl (0, omega arith)
even_or_odd (suc a) = elim (even_or_odd a) [
  | inl (m, p) ↦ inr (m, omega arith)
  | inr (m, p) ↦ inl (suc m, omega arith)
]

and_from_pred : (n a : ℕ) → a ≤ n → a ≢ 0 → and_from n a (a - 1) ≡ 0 → (k : ℕ) × (a ≡ 2 ^ k)
and_from_pred zero a h ne e = absurd (omega arith)
and_from_pred (suc n) zero h ne e = absurd (ne refl)
and_from_pred (suc n) (suc a) h ne e = split (and_from_pred n) (even_or_odd a)
  where
    low : and_from n (suc a / 2) ((suc a - 1) / 2) ≡ 0
    low = omega arith

    split :
        ((m : ℕ) → m ≤ n → m ≢ 0 → and_from n m (m - 1) ≡ 0 → (k : ℕ) × (m ≡ 2 ^ k))
        → ((m : ℕ) × (a ≡ 2 * m)) ⊎ ((m : ℕ) × (a ≡ 2 * m + 1))
        → (k : ℕ) × (suc a ≡ 2 ^ k)
    split ih (inl (m, p)) =
        let hi : suc a / 2 ≡ m = omega arith in
        let lo : (suc a - 1) / 2 ≡ m = omega arith in
        let z : and_from n m m ≡ 0 = rw (hi, lo) at low in
        (0, omega (arith, and_from_self n m (omega arith)))
    split ih (inr (m, p)) =
        let hi : suc a / 2 ≡ suc m = omega arith in
        let lo : (suc a - 1) / 2 ≡ suc m - 1 = omega arith in
        let (k, q) = ih (suc m) (omega arith) (omega arith) (rw (hi, lo) at low) in
        (suc k, omega (arith, pow-suc 2 k))

-- What the test `n != 0 && !(n & (n - 1))` accepts is a power of two.
pub pow2_of_test : (n : ℕ) → n ≢ 0 → bit_and n (n - 1) ≡ 0 → (k : ℕ) × (n ≡ 2 ^ k)
pow2_of_test n ne e = and_from_pred n n (le_refl n) ne (sym (bit_and-bitwise n (n - 1)) ∙ e)

pub test_of_pow2 : (k : ℕ) → bit_and (2 ^ k) (2 ^ k - 1) ≡ 0
test_of_pow2 k = rw (bit_and_mask (2 ^ k) k) (mod_self (2 ^ k))

pow2_add : (k j : ℕ) → 2 ^ (k + j) ≡ 2 ^ k * 2 ^ j
pow2_add k zero = let k0 : k + 0 ≡ k = omega arith in ap (λ n. 2 ^ n) k0 ∙ omega arith
pow2_add k (suc j) =
    let next : k + suc j ≡ suc (k + j) = omega arith in
    ap (λ n. 2 ^ n) next
    ∙ pow-suc 2 (k + j)
    ∙ ap (λ (t : ℕ). t * 2) (pow2_add k j)
    ∙ mul_assoc (2 ^ k) (2 ^ j) 2
    ∙ ap (λ t. 2 ^ k * t) (sym (pow-suc 2 j))

-- A power of two up to 2 ^ n divides it, so that a second remainder by it is the first.
pub mod-mod_pow2 : (a k n : ℕ) → k ≤ n → a % 2 ^ n % 2 ^ k ≡ a % 2 ^ k
mod-mod_pow2 a k n h =
    let whole : n ≡ k + (n - k) = omega arith in
    mod-mod_of_dvd (2 ^ k) a ∣ (2 ^ (n - k), ap (λ m. 2 ^ m) whole ∙ pow2_add k (n - k)) ∣₁

pub exponent-lt : (k n : ℕ) → 2 ^ k < 2 ^ n → k ≤ n
exponent-lt k n h = elim (dec_le k n) [
  | yes p ↦ p
  | no p ↦
      absurd (omega (arith, pow-le-pow_right {n = 2} (omega arith) {i = n} {j = k} (omega arith)))
]
