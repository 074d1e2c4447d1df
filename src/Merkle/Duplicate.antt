-- ===== src/Merkle/Duplicate.antt =====
-- Hashes whose last one stands twice.
use vulkan_core.Common.{
  ℕ, zero, suc, ◌+◌, ◌*◌, ◌%◌, ◌^◌, ◌≤◌, ◌<◌, ◌≡◌, refl, sym, ap, ◌∙◌, List, [], ◌∷◌, ◌++◌, length,
  map, arith, length-append, length-map, All,
}
use vulkan_core.Bytes.Or.{two_pow-suc}
use vulkan_core.Merkle.{MerkleNode, leaf, construct_merkle_node, construct_merkle_tree_from_leaves}
use vulkan_core.Merkle.Levels.{parents}
use vulkan_core.Merkle.Root.{joined, tree, tree-parents, construct_merkle_tree-tree}

module _ (digest : List ℕ → List ℕ) where
  parents-twice :
      (ns : List MerkleNode) (a : MerkleNode)
      → length ns % 2 ≡ 0
      → parents digest (ns ++ a ∷ a ∷ []) ≡ parents digest (ns ++ a ∷ [])
  unfolding parents
  parents-twice [] a even = refl
  parents-twice (b ∷ []) a even = absurd (omega arith)
  parents-twice (b ∷ c ∷ ns) a even =
      ap (λ t. construct_merkle_node digest b c ∷ t) (parents-twice ns a (omega arith))

All-append :
    (hs gs : List (List ℕ))
    → All (λ x. length x ≡ 32) hs
    → All (λ x. length x ≡ 32) gs
    → All (λ x. length x ≡ 32) (hs ++ gs)
All-append [] gs ps qs = qs
All-append (x ∷ hs) gs ps qs = (ps.0, All-append hs gs ps.1 qs)

map-append : (hs gs : List (List ℕ)) → map leaf (hs ++ gs) ≡ map leaf hs ++ map leaf gs
map-append [] gs = refl
map-append (h ∷ hs) gs = ap (λ t. leaf h ∷ t) (map-append hs gs)

root-parents :
    (digest : List ℕ → List ℕ) (k n : ℕ) (hs : List (List ℕ))
    → All (λ x. length x ≡ 32) hs
    → n ≡ length hs
    → 0 < n
    → n ≤ 2 ^ suc k
    → 2 ^ suc k < 2 * n
    → construct_merkle_tree_from_leaves digest (joined hs) n
      ≡ tree digest k (parents digest (map leaf hs))
root-parents digest k n hs ps e pos le gt =
    ap (construct_merkle_tree_from_leaves digest (joined hs)) e
    ∙ construct_merkle_tree-tree digest (suc k) hs ps (omega arith) (omega arith)
    ∙ tree-parents digest k (map leaf hs) (omega (arith, length-map hs leaf))
        (omega (arith, length-map hs leaf))

-- Behind an even and positive number of hashes of 32 bytes, a last hash makes the same tree whether
-- it stands once or twice, so the root does not tell the two lists apart. `k` is the least height
-- that has room for the shorter list.
pub construct_merkle_tree-duplicate :
    (digest : List ℕ → List ℕ) (k : ℕ) (hs : List (List ℕ)) (h : List ℕ)
    → All (λ x. length x ≡ 32) hs
    → length h ≡ 32
    → 0 < length hs
    → length hs % 2 ≡ 0
    → length hs + 1 ≤ 2 ^ k
    → 2 ^ k < 2 * (length hs + 1)
    → construct_merkle_tree_from_leaves digest (joined (hs ++ h ∷ h ∷ [])) (length hs + 2)
      ≡ construct_merkle_tree_from_leaves digest (joined (hs ++ h ∷ [])) (length hs + 1)
construct_merkle_tree-duplicate digest zero hs h ps p pos even le gt = absurd (omega arith)
construct_merkle_tree-duplicate digest (suc k) hs h ps p pos even le gt =
    let half : 2 ^ suc k ≡ 2 * 2 ^ k = two_pow-suc k in
    root-parents digest k (length hs + 2) (hs ++ h ∷ h ∷ [])
      (All-append hs (h ∷ h ∷ []) ps (p, (p, tt))) (sym (length-append hs (h ∷ h ∷ [])))
      (omega arith) (omega arith) (omega arith)
    ∙ ap (tree digest k) same
    ∙ sym (
        root-parents digest k (length hs + 1) (hs ++ h ∷ []) (All-append hs (h ∷ []) ps (p, tt))
          (sym (length-append hs (h ∷ []))) (omega arith) (omega arith) (omega arith))
  where
    same : parents digest (map leaf (hs ++ h ∷ h ∷ [])) ≡ parents digest (map leaf (hs ++ h ∷ []))
    same =
        ap (parents digest) (map-append hs (h ∷ h ∷ []))
        ∙ parents-twice digest (map leaf hs) (leaf h)
            (ap (λ (n : ℕ). n % 2) (length-map hs leaf) ∙ even)
        ∙ ap (parents digest) (sym (map-append hs (h ∷ [])))
