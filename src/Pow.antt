-- ===== src/Pow.antt =====
-- src/core/pow.c and src/crypto/bignum_util.c: the check of a hash against a compact target.
pub mod Target
pub mod Tests
use vulkan_core.Common.{
  ℕ, zero, suc, ◌+◌, ◌*◌, ◌-◌, ◌/◌, ◌%◌, ◌^◌, ◌<◌, ◌≡◌, Bool, true, false, ◌||◌, ◌&&◌, not, List,
  [], ◌∷◌, ◌++◌, length, take, replicate, All, if◌then◌else◌, ltb, ◌==◌,
}
use vulkan_core.Check.{Check, crash, guard}
use vulkan_core.Bytes.{IsByte}

-- The numbers of OpenSSL; `exceeds a b` is `BN_cmp(a, b) == 1`.
pub record Bignums : Type 1 where
  pub Number : Type 0
  pub mpi2bn : List ℕ → Number
  pub bin2bn : List ℕ → Number
  pub is_zero : Number → Bool
  pub exceeds : Number → Number → Bool

-- The number that bytes write from the most significant one on.
unfoldable pub be_value : List ℕ → ℕ
be_value [] = 0
be_value (b ∷ bs) = b * 256 ^ length bs + be_value bs

-- What the documentation of OpenSSL says of numbers that are not negative. The MPI format has a
-- length of four bytes before the number, whose top bit is the sign.
pub record BignumsLaws (n : Bignums) : Type 0 where
  pub negative : n.Number → Bool
  pub value : n.Number → ℕ
  pub bin2bn_sign : (bs : List ℕ) → negative (n.bin2bn bs) ≡ false
  pub bin2bn_value : (bs : List ℕ) → All IsByte bs → value (n.bin2bn bs) ≡ be_value bs
  pub mpi2bn_sign :
      (size first : ℕ) (bs : List ℕ)
      → first < 128
      → negative (n.mpi2bn (0 ∷ 0 ∷ 0 ∷ size ∷ first ∷ bs)) ≡ false
  pub mpi2bn_value :
      (size first : ℕ) (bs : List ℕ)
      → All IsByte bs
      → first < 128
      → size ≡ suc (length bs)
      → size < 256
      → value (n.mpi2bn (0 ∷ 0 ∷ 0 ∷ size ∷ first ∷ bs)) ≡ be_value (first ∷ bs)
  pub is_zero_value : (a : n.Number) → negative a ≡ false → n.is_zero a ≡ (value a == 0)
  pub exceeds_value :
      (a b : n.Number)
      → negative a ≡ false
      → negative b ≡ false
      → n.exceeds a b ≡ ltb (value b) (value a)

-- `g_pow_limit_str` as bytes.
abbrev pub pow_limit_bytes : List ℕ
pow_limit_bytes = replicate 4 0 ++ replicate 28 255

module _ (n : Bignums) where
  -- What `init_pow` leaves in `g_pow_limit_bn`.
  unfoldable pub pow_limit : n.Number
  pow_limit = n.bin2bn pow_limit_bytes

  -- The size of the number is the top byte. The three bytes of the mantissa are written as far as
  -- the number reaches, and the bytes behind them are 0.
  unfoldable pub bignum_set_compact : ℕ → n.Number
  bignum_set_compact c = n.mpi2bn (
      0
      ∷ 0
      ∷ 0
      ∷ c / 2 ^ 24
      ∷ take (c / 2 ^ 24)
          (c / 2 ^ 16 % 256 ∷ c / 2 ^ 8 % 256 ∷ c % 256 ∷ replicate (c / 2 ^ 24 - 3) 0))

  unfoldable pub check_proof_of_work : List ℕ → ℕ → Check (Unit {0})
  unfolding bignum_set_compact pow_limit
  check_proof_of_work hash bits =
      if n.is_zero pow_limit
      then crash
      else guard (
          not (n.is_zero (bignum_set_compact bits) || n.exceeds (bignum_set_compact bits) pow_limit)
          && not (n.exceeds (n.bin2bn hash) (bignum_set_compact bits)))
