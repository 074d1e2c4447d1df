-- ===== src/Pow/Tests.antt =====
-- The proof of work at a concrete target.
use vulkan_core.Common.{
  ℕ, ◌-◌, ◌^◌, ◌<◌, ◌≤◌, ◌≡◌, refl, ◌↔◌, false, ◌++◌, drop, replicate, List, ltb, ◌==◌, arith,
}
use vulkan_core.Check.{pass, reject}
use vulkan_core.Pow.{Bignums, BignumsLaws, be_value, check_proof_of_work}
use vulkan_core.Pow.Target.{target, check_proof_of_work_iff}

-- Numbers without a sign.
abbrev pub naturals : Bignums
naturals = record {
  Number = ℕ;
  mpi2bn = λ bs. be_value (drop 4 bs);
  bin2bn = be_value;
  is_zero = λ a. a == 0;
  exceeds = λ a b. ltb b a;
}

naturals-laws : BignumsLaws naturals
naturals-laws = record {
  negative = λ a. false;
  value = λ a. a;
  bin2bn_sign = λ bs. refl;
  bin2bn_value = λ bs bytes. refl;
  mpi2bn_sign = λ size first bs positive. refl;
  mpi2bn_value = λ size first bs bytes positive e small. refl;
  is_zero_value = λ a positive. refl;
  exceeds_value = λ a b p q. refl;
}

abbrev hash : List ℕ
hash = replicate 5 0 ++ replicate 27 200

check_proof_of_work_iff_example :
    ((check_proof_of_work naturals hash 0x1d00ffff ≡ pass tt) ↔ (
      (0 < target 0x1d00ffff)
      × (target 0x1d00ffff ≤ 2 ^ 224 - 1)
      × (be_value hash ≤ target 0x1d00ffff)))
    × (¬ (
          (0 < target 0x1d00ffff)
          × (target 0x1d00ffff ≤ 2 ^ 224 - 1)
          × (be_value hash ≤ target 0x1d00ffff))
        → check_proof_of_work naturals hash 0x1d00ffff ≡ reject)
check_proof_of_work_iff_example =
    check_proof_of_work_iff naturals naturals-laws hash 0x1d00ffff (omega arith) (omega arith)
      (omega arith) (omega arith)
