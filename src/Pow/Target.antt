-- ===== src/Pow/Target.antt =====
-- The compact form of a target.
use native.Mathlib.Nat.{pow-suc}
use vulkan_core.Common.{
  ℕ, zero, suc, ◌+◌, ◌*◌, ◌-◌, ◌/◌, ◌%◌, ◌^◌, ◌<◌, ◌≤◌, ◌≡◌, refl, ap, ap₂, ◌∙◌, ◌↔◌, false, ◌||◌,
  ◌&&◌, not, List, ◌∷◌, replicate, All, ltb, ◌==◌, arith, take_all, length-replicate,
}
use vulkan_core.Check.{guard, pass, reject}
use vulkan_core.Bytes.{IsByte}
use vulkan_core.Pow.{
  Bignums, BignumsLaws, be_value, pow_limit_bytes, pow_limit, bignum_set_compact,
  check_proof_of_work,
}

-- The target that a compact form with at least three bytes stands for.
unfoldable pub target : ℕ → ℕ
target c = c % 2 ^ 24 * 256 ^ (c / 2 ^ 24 - 3)

be_value-zeros : (k : ℕ) → be_value (replicate k 0) ≡ 0
unfolding be_value
be_value-zeros zero = refl
be_value-zeros (suc k) = omega (arith, be_value-zeros k)

zeros-IsByte : (k : ℕ) → All IsByte (replicate k 0)
zeros-IsByte zero = tt
zeros-IsByte (suc k) = (omega arith, zeros-IsByte k)

mantissa-value :
    (a b d k : ℕ) → be_value (a ∷ b ∷ d ∷ replicate k 0) ≡ (a * 65536 + b * 256 + d) * 256 ^ k
unfolding be_value
mantissa-value a b d k =
    rw (length-replicate {A = ℕ} k 0, be_value-zeros k, pow-suc 256 (suc k), pow-suc 256 k)
      (grind arith)

verdict :
    (t limit v : ℕ)
    → ((guard (not ((t == 0) || ltb limit t) && not (ltb t v)) ≡ pass tt)
        ↔ ((0 < t) × (t ≤ limit) × (v ≤ t)))
      × (¬ ((0 < t) × (t ≤ limit) × (v ≤ t))
          → guard (not ((t == 0) || ltb limit t) && not (ltb t v)) ≡ reject)
verdict t limit v = ((λ h. ground arith, λ h. ground arith), λ h. ground arith)

module _ (n : Bignums) (laws : BignumsLaws n) where
  compact-shape :
      (c : ℕ)
      → 3 ≤ c / 2 ^ 24
      → bignum_set_compact n c
        ≡ n.mpi2bn (
            0
            ∷ 0
            ∷ 0
            ∷ c / 2 ^ 24
            ∷ c / 2 ^ 16 % 256
            ∷ c / 2 ^ 8 % 256
            ∷ c % 256
            ∷ replicate (c / 2 ^ 24 - 3) 0)
  unfolding bignum_set_compact
  compact-shape c big =
      ap (λ bs. n.mpi2bn (0 ∷ 0 ∷ 0 ∷ c / 2 ^ 24 ∷ bs))
        (take_all (c / 2 ^ 24)
          (c / 2 ^ 16 % 256 ∷ c / 2 ^ 8 % 256 ∷ c % 256 ∷ replicate (c / 2 ^ 24 - 3) 0)
          (omega (arith, length-replicate {A = ℕ} (c / 2 ^ 24 - 3) 0)))

  compact-value :
      (c : ℕ)
      → c < 2 ^ 32
      → 3 ≤ c / 2 ^ 24
      → c / 2 ^ 16 % 256 < 128
      → laws.value (bignum_set_compact n c) ≡ target c
  unfolding target
  compact-value c small big positive =
      ap laws.value (compact-shape c big)
      ∙ laws.mpi2bn_value (c / 2 ^ 24) (c / 2 ^ 16 % 256) _
          (omega arith, (omega arith, zeros-IsByte _)) positive
          (omega (arith, length-replicate {A = ℕ} (c / 2 ^ 24 - 3) 0)) (omega arith)
      ∙ mantissa-value (c / 2 ^ 16 % 256) (c / 2 ^ 8 % 256) (c % 256) (c / 2 ^ 24 - 3)
      ∙ ap (λ (m : ℕ). m * 256 ^ (c / 2 ^ 24 - 3)) (omega arith)

  compact-sign :
      (c : ℕ)
      → 3 ≤ c / 2 ^ 24
      → c / 2 ^ 16 % 256 < 128
      → laws.negative (bignum_set_compact n c) ≡ false
  compact-sign c big positive =
      ap laws.negative (compact-shape c big)
      ∙ laws.mpi2bn_sign (c / 2 ^ 24) (c / 2 ^ 16 % 256) _ positive

  limit-value : laws.value (pow_limit n) ≡ 2 ^ 224 - 1
  unfolding pow_limit be_value
  limit-value = laws.bin2bn_value pow_limit_bytes (omega arith)

  -- With the numbers of OpenSSL as documented, and for a compact target of at least three bytes
  -- whose sign bit is clear: `check_proof_of_work` accepts a hash exactly when the target is positive
  -- and at most 2 ^ 224 - 1 and the hash, read as a number from its first byte on, is at most the
  -- target, and returns 0 for every other hash; it never fails its assertion.
  pub check_proof_of_work_iff :
      (hash : List ℕ) (bits : ℕ)
      → All IsByte hash
      → bits < 2 ^ 32
      → 3 ≤ bits / 2 ^ 24
      → bits / 2 ^ 16 % 256 < 128
      → ((check_proof_of_work n hash bits ≡ pass tt)
          ↔ ((0 < target bits) × (target bits ≤ 2 ^ 224 - 1) × (be_value hash ≤ target bits)))
        × (¬ ((0 < target bits) × (target bits ≤ 2 ^ 224 - 1) × (be_value hash ≤ target bits))
            → check_proof_of_work n hash bits ≡ reject)
  unfolding check_proof_of_work
  check_proof_of_work_iff hash bits bytes small big positive =
      rw
        (
          laws.is_zero_value (pow_limit n) limit_sign ∙ ap (λ (v : ℕ). v == 0) limit-value,
          laws.is_zero_value (bignum_set_compact n bits) sign ∙ ap (λ (v : ℕ). v == 0) worth,
          laws.exceeds_value (bignum_set_compact n bits) (pow_limit n) sign limit_sign
              ∙ ap₂ ltb limit-value worth,
          laws.exceeds_value (n.bin2bn hash) (bignum_set_compact n bits) (laws.bin2bn_sign hash)
                sign
              ∙ ap₂ ltb worth (laws.bin2bn_value hash bytes),
        )
        (verdict (target bits) (2 ^ 224 - 1) (be_value hash))
    where
      sign : laws.negative (bignum_set_compact n bits) ≡ false
      sign = compact-sign bits big positive

      limit_sign : laws.negative (pow_limit n) ≡ false
      limit_sign = unfold pow_limit in laws.bin2bn_sign pow_limit_bytes

      worth : laws.value (bignum_set_compact n bits) ≡ target bits
      worth = compact-value bits small big positive
