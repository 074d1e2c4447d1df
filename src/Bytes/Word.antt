-- ===== src/Bytes/Word.antt =====
-- Writing a word in memory order and reading it back by shifts gives the word.
use native.Mathlib.Numerals.{towards_suc}
use native.Mathlib.Nat.{pow-suc, div-add-mod, one-le-pow}
use vulkan_core.Common.{
  ℕ, zero, suc, ◌+◌, ◌*◌, ◌/◌, ◌%◌, ◌^◌, ◌≤◌, ◌<◌, ◌-◌, ◌≡◌, refl, ap, length, All, arith,
}
use vulkan_core.Bytes.{IsByte, le_bytes, or_bytes}
use vulkan_core.Bytes.Or.{or-shl}

pub length-le_bytes : (n v : ℕ) → length (le_bytes n v) ≡ n
unfolding le_bytes
length-le_bytes zero v = refl
length-le_bytes (suc n) v = ap suc (length-le_bytes n (v / 256))

pub le_bytes-IsByte : (n v : ℕ) → All IsByte (le_bytes n v)
unfolding le_bytes
le_bytes-IsByte zero v = tt
le_bytes-IsByte (suc n) v = (omega arith, le_bytes-IsByte n (v / 256))

shift_eight : (s : ℕ) → 2 ^ (s + 8) ≡ 256 * 2 ^ s
shift_eight s = simp towards_suc (omega arith)

shl-lt : (b s : ℕ) → b < 256 → b * 2 ^ s < 2 ^ (s + 8)
shl-lt b s h =
    let bound : 1 * 2 ^ s ≤ (256 - b) * 2 ^ s = grind arith in
    let whole : 256 * 2 ^ s ≡ b * 2 ^ s + (256 - b) * 2 ^ s = grind arith in
    omega (arith, shift_eight s, one-le-pow s 2 (omega arith))

-- The low byte and the rest, both moved up by `s` bits.
split_byte : (v s : ℕ) → v * 2 ^ s ≡ v / 256 * 2 ^ (s + 8) + v % 256 * 2 ^ s
split_byte v s = omega (
  arith,
  ap (λ (t : ℕ). t * 2 ^ s) (div-add-mod v 256),
  ap (λ (t : ℕ). v / 256 * t) (shift_eight s),
)

pow-div : (n v : ℕ) → v < 256 ^ suc n → v / 256 < 256 ^ n
pow-div n v h = omega (arith, pow-suc 256 n)

-- Any word of `n` bytes.
pub or_bytes-le_bytes :
    (n v shift : ℕ) → v < 256 ^ n → or_bytes shift (le_bytes n v) ≡ v * 2 ^ shift
unfolding or_bytes le_bytes
or_bytes-le_bytes zero v shift h = grind arith
or_bytes-le_bytes (suc zero) v shift h = ap (λ b. b * 2 ^ shift) (omega arith)
or_bytes-le_bytes (suc (suc n)) v shift h =
    rw (or_bytes-le_bytes (suc n) (v / 256) (shift + 8) (pow-div (suc n) v h)) (
      omega (
        arith,
        or-shl (shift + 8) (v / 256) (v % 256 * 2 ^ shift) (shl-lt (v % 256) shift (omega arith)),
        split_byte v shift,
      ))

pub word-le_bytes : (n v : ℕ) → v < 256 ^ n → or_bytes 0 (le_bytes n v) ≡ v
word-le_bytes n v h = omega (arith, or_bytes-le_bytes n v 0 h)
