-- ===== src/Merkle/Tests.antt =====
-- Concrete Merkle trees.
use vulkan_core.Common.{ℕ, ◌≡◌, refl, List, [], ◌∷◌, ◌++◌, map, take, replicate, arith}
use vulkan_core.Merkle.{leaf, construct_merkle_tree_from_leaves}
use vulkan_core.Merkle.Root.{joined, tree, construct_merkle_tree-tree}
use vulkan_core.Merkle.Duplicate.{construct_merkle_tree-duplicate}

abbrev one : List ℕ
one = replicate 32 1

abbrev two : List ℕ
two = replicate 32 2

abbrev three : List ℕ
three = replicate 32 3

abbrev hashes : List (List ℕ)
hashes = one ∷ two ∷ three ∷ []

-- A digest that keeps the first half of both children.
abbrev toy_digest : List ℕ → List ℕ
toy_digest bytes = take 16 bytes ++ take 16 bytes

construct_merkle_tree-tree_example :
    construct_merkle_tree_from_leaves toy_digest (joined hashes) 3
    ≡ tree toy_digest 2 (map leaf hashes)
construct_merkle_tree-tree_example =
    construct_merkle_tree-tree toy_digest 2 hashes (refl, (refl, (refl, tt))) (omega arith)
      (omega arith)

construct_merkle_tree-duplicate_example :
    construct_merkle_tree_from_leaves toy_digest (joined (one ∷ two ∷ three ∷ three ∷ [])) 4
    ≡ construct_merkle_tree_from_leaves toy_digest (joined (one ∷ two ∷ three ∷ [])) 3
construct_merkle_tree-duplicate_example =
    construct_merkle_tree-duplicate toy_digest 2 (one ∷ two ∷ []) three (refl, (refl, tt)) refl
      (omega arith) refl (omega arith) (omega arith)
