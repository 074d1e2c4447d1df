-- ===== src/Bytes/Or.antt =====
-- `|` on words whose bits do not overlap is addition.
use Prim.Native.Nat.{max, bit_or, digits, bit_or-bitwise}
use native.Mathlib.Nat.{pow-suc}
use vulkan_core.Common.{ℕ, zero, suc, ◌+◌, ◌*◌, ◌/◌, ◌%◌, ◌^◌, ◌≤◌, ◌<◌, ◌≡◌, refl, ap, arith}

-- The digit recursion behind the native operation, with its fuel.
abbrev or_digits : ℕ → ℕ → ℕ → ℕ
or_digits fuel a b = digits (λ b. b) max fuel a b

or_digits-fuel : (f g a b : ℕ) → a ≤ f → a ≤ g → or_digits f a b ≡ or_digits g a b
or_digits-fuel zero zero zero b p q = refl
or_digits-fuel zero (suc g) zero b p q = refl
or_digits-fuel (suc f) zero zero b p q = refl
or_digits-fuel (suc f) (suc g) zero b p q = refl
or_digits-fuel zero g (suc a) b p q = absurd (omega arith)
or_digits-fuel (suc f) zero (suc a) b p q = absurd (omega arith)
or_digits-fuel (suc f) (suc g) (suc a) b p q =
    omega (arith, or_digits-fuel f g (suc a / 2) (b / 2) (omega arith) (omega arith))

or_zero : (b : ℕ) → bit_or 0 b ≡ b
or_zero b = bit_or-bitwise 0 b

-- The law of the lowest bit.
or_step : (a b : ℕ) → bit_or a b ≡ bit_or (a / 2) (b / 2) * 2 + max (a % 2) (b % 2)
or_step zero b = omega (arith, or_zero b, or_zero (b / 2))
or_step (suc a) b =
    let half : ℕ = suc a / 2 in
    omega (
      arith,
      bit_or-bitwise (suc a) b,
      bit_or-bitwise half (b / 2),
      or_digits-fuel a half half (b / 2) (omega arith) (omega arith),
    )

or-zero_below : (n a : ℕ) → a ≤ n → bit_or a 0 ≡ a
or-zero_below n zero h = refl
or-zero_below zero (suc a) h = absurd (omega arith)
or-zero_below (suc n) (suc a) h =
    omega (arith, or_step (suc a) 0, or-zero_below n (suc a / 2) (omega arith))

pub two_pow-suc : (k : ℕ) → 2 ^ suc k ≡ 2 * 2 ^ k
two_pow-suc k = omega (arith, pow-suc 2 k)

-- The low `k` bits of the left side are free, and the right side has no others.
pub or-shl : (k x c : ℕ) → c < 2 ^ k → bit_or (x * 2 ^ k) c ≡ x * 2 ^ k + c
or-shl zero x zero h = omega (arith, or-zero_below (x * 2 ^ 0) (x * 2 ^ 0) (omega arith))
or-shl zero x (suc c) h = absurd (omega arith)
or-shl (suc k) x c h =
    let doubled : x * 2 ^ suc k ≡ 2 * (x * 2 ^ k) =
      omega (arith, ap (λ (t : ℕ). x * t) (two_pow-suc k)) in
    let below : c / 2 < 2 ^ k = omega (arith, two_pow-suc k) in
    omega (arith, doubled, or_step (x * 2 ^ suc k) c, halved doubled, or-shl k x (c / 2) below)
  where
    halved :
        x * 2 ^ suc k ≡ 2 * (x * 2 ^ k)
        → bit_or (x * 2 ^ suc k / 2) (c / 2) ≡ bit_or (x * 2 ^ k) (c / 2)
    halved e = ap (λ t. bit_or t (c / 2)) (omega arith)
