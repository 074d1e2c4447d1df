-- ===== src/Merkle.antt =====
-- src/core/merkle.c.
pub mod Levels
pub mod Root
pub mod Duplicate
mod Tests
use vulkan_core.Common.{
  ℕ, zero, suc, ◌+◌, ◌*◌, ◌-◌, ◌%◌, ◌<◌, Bool, Option, none, some, List, [], ◌∷◌, ◌++◌, length,
  get_elem?, ltb, ◌==◌, if◌then◌else◌,
}
use vulkan_core.Crypto.{compare_hash}
use vulkan_core.Buffer.{load}

-- `merkle_node_t`: a leaf has no children.
pub data MerkleNode : Type 0 where
  leaf : List ℕ → MerkleNode
  branch : List ℕ → MerkleNode → MerkleNode → MerkleNode

abbrev pub hash_of : MerkleNode → List ℕ
hash_of (leaf h) = h
hash_of (branch h l r) = h

unfoldable pub compare_merkle_node : MerkleNode → MerkleNode → Bool
compare_merkle_node a b = compare_hash (hash_of a) (hash_of b)

-- A leaf in front of the later ones; `none` where one of the copies read past the end.
unfoldable pub add_leaf : Option (List ℕ) → Option (List MerkleNode) → Option (List MerkleNode)
add_leaf none ls = none
add_leaf (some h) none = none
add_leaf (some h) (some ls) = some (leaf h ∷ ls)

-- The leaves of `n` hashes that stand one behind the other in `hashes`, from number `i` on; `none`
-- where the copy reads past the end.
unfoldable pub construct_merkle_leaves_from_hashes : List ℕ → ℕ → ℕ → Option (List MerkleNode)
unfolding add_leaf
construct_merkle_leaves_from_hashes hashes zero i = some []
construct_merkle_leaves_from_hashes hashes (suc n) i =
    add_leaf (load hashes (i * 32) 32) (construct_merkle_leaves_from_hashes hashes n (i + 1))

-- `digest` is what `crypto_hash_sha256d` leaves in its output.
module _ (digest : List ℕ → List ℕ) where
  unfoldable pub construct_merkle_node : MerkleNode → MerkleNode → MerkleNode
  construct_merkle_node l r = branch (digest (hash_of l ++ hash_of r)) l r

  -- The loop over the pairs, which ends before an odd node.
  unfoldable pub collapse_pairs : List MerkleNode → List MerkleNode
  collapse_pairs [] = []
  collapse_pairs (a ∷ []) = []
  collapse_pairs (a ∷ b ∷ ns) = construct_merkle_node a b ∷ collapse_pairs ns

  -- The node of the last one with itself, where the number is odd.
  unfoldable pub twin : Option MerkleNode → List MerkleNode
  twin none = []
  twin (some a) = construct_merkle_node a a ∷ []

  unfoldable pub collapse_odd : List MerkleNode → List MerkleNode
  unfolding twin
  collapse_odd ns = if length ns % 2 == 0 then [] else twin (get_elem? ns (length ns - 1))

  unfoldable pub collapse_merkle_nodes : List MerkleNode → List MerkleNode
  unfolding collapse_pairs collapse_odd
  collapse_merkle_nodes ns = collapse_pairs ns ++ collapse_odd ns

  -- `while (num_of_nodes > 1)` on fuel, and `nodes[0]`; `none` without fuel or nodes.
  unfoldable pub collapse_loop : ℕ → List MerkleNode → Option MerkleNode
  collapse_loop zero ns = none
  collapse_loop (suc f) [] = none
  collapse_loop (suc f) (a ∷ ns) =
      let rest = collapse_loop f (collapse_merkle_nodes (a ∷ ns)) in
      if ltb 1 (length (a ∷ ns)) then rest else some a

  -- The root; `none` stands for `NULL` where there are no hashes. As many rounds as there are hashes
  -- are enough, since every round but the last leaves fewer nodes.
  unfoldable pub construct_merkle_tree_from_leaves : List ℕ → ℕ → Option MerkleNode
  construct_merkle_tree_from_leaves hashes n =
      if ltb n 1 then none else (elim (construct_merkle_leaves_from_hashes hashes n 0) [
        | none ↦ none
        | some ns ↦ collapse_loop n ns
      ])
