-- ===== src/Merkle/Levels.antt =====
-- One level of a Merkle tree.
use vulkan_core.Common.{
  ℕ, zero, suc, ◌+◌, ◌*◌, ◌-◌, ◌/◌, ◌%◌, ◌≡◌, refl, ap, ◌∙◌, List, [], ◌∷◌, ◌++◌, length, take,
  drop, ◌==◌, arith,
}
use vulkan_core.Merkle.{
  MerkleNode, construct_merkle_node, collapse_pairs, collapse_odd, collapse_merkle_nodes,
}

module _ (digest : List ℕ → List ℕ) where
  -- The level above as a recursion over the level: pairs, and the odd node with itself.
  unfoldable pub parents : List MerkleNode → List MerkleNode
  parents [] = []
  parents (a ∷ []) = construct_merkle_node digest a a ∷ []
  parents (a ∷ b ∷ ns) = construct_merkle_node digest a b ∷ parents ns

  collapse_odd_two :
      (a b : MerkleNode) (ns : List MerkleNode)
      → collapse_odd digest (a ∷ b ∷ ns) ≡ collapse_odd digest ns
  unfolding collapse_odd
  collapse_odd_two a b [] = refl
  collapse_odd_two a b (c ∷ cs) = rw (even_or_odd, last)
    where
      even_or_odd : (suc (suc (suc (length cs))) % 2 == 0) ≡ (suc (length cs) % 2 == 0)
      even_or_odd = ap (λ (n : ℕ). n == 0) (omega arith)

      last : suc (suc (suc (length cs))) - 1 ≡ suc (suc (suc (length cs) - 1))
      last = omega arith

  pub collapse-parents : (ns : List MerkleNode) → collapse_merkle_nodes digest ns ≡ parents ns
  unfolding parents collapse_merkle_nodes collapse_pairs
  collapse-parents [] = refl
  collapse-parents (a ∷ []) = refl
  collapse-parents (a ∷ b ∷ ns) =
      ap (λ t. construct_merkle_node digest a b ∷ t)
        (ap (λ t. collapse_pairs digest ns ++ t) (collapse_odd_two a b ns) ∙ collapse-parents ns)

  pub length-parents : (ns : List MerkleNode) → length (parents ns) ≡ (length ns + 1) / 2
  unfolding parents
  length-parents [] = refl
  length-parents (a ∷ []) = refl
  length-parents (a ∷ b ∷ ns) = omega (arith, length-parents ns)

  -- Cutting a level at an even place cuts the level above at half of it.
  pub take-parents :
      (m k : ℕ) (ns : List MerkleNode) → m ≡ 2 * k → take k (parents ns) ≡ parents (take m ns)
  unfolding parents
  take-parents zero zero ns e = refl
  take-parents zero (suc k) ns e = absurd (omega arith)
  take-parents (suc m) zero ns e = absurd (omega arith)
  take-parents (suc zero) (suc k) ns e = absurd (omega arith)
  take-parents (suc (suc m)) (suc k) [] e = refl
  take-parents (suc (suc m)) (suc zero) (a ∷ []) e = refl
  take-parents (suc (suc m)) (suc (suc k)) (a ∷ []) e = refl
  take-parents (suc (suc m)) (suc k) (a ∷ b ∷ ns) e =
      ap (λ t. construct_merkle_node digest a b ∷ t) (take-parents m k ns (omega arith))

  pub drop-parents :
      (m k : ℕ) (ns : List MerkleNode) → m ≡ 2 * k → drop k (parents ns) ≡ parents (drop m ns)
  unfolding parents
  drop-parents zero zero ns e = refl
  drop-parents zero (suc k) ns e = absurd (omega arith)
  drop-parents (suc m) zero ns e = absurd (omega arith)
  drop-parents (suc zero) (suc k) ns e = absurd (omega arith)
  drop-parents (suc (suc m)) (suc k) [] e = refl
  drop-parents (suc (suc m)) (suc zero) (a ∷ []) e = refl
  drop-parents (suc (suc m)) (suc (suc k)) (a ∷ []) e = refl
  drop-parents (suc (suc m)) (suc k) (a ∷ b ∷ ns) e = drop-parents m k ns (omega arith)
