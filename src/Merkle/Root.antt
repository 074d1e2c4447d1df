-- ===== src/Merkle/Root.antt =====
-- The root that the loop ends with.
use vulkan_core.Common.{
  ℕ, zero, suc, ◌+◌, ◌*◌, ◌-◌, ◌/◌, ◌^◌, ◌≤◌, ◌<◌, ◌≡◌, refl, sym, ap, subst, ap₂, ◌∙◌, Option,
  none, some, List, [], ◌∷◌, ◌++◌, length, take, drop, map, leb, if◌then◌else◌, arith, false,
  Bool-cases, inl, inr, length-take, length-drop, length-append, length-map, All, lt→ltb,
  le→ltb_false, le→leb, gt→leb_false, take-append, drop-append, drop-drop, leb→le,
}
use native.Mathlib.Nat.{one-le-pow}
use vulkan_core.Bytes.Or.{two_pow-suc}
use vulkan_core.Buffer.{load}
use vulkan_core.Merkle.{
  MerkleNode, leaf, construct_merkle_leaves_from_hashes, add_leaf, construct_merkle_node,
  collapse_loop, construct_merkle_tree_from_leaves,
}
use vulkan_core.Merkle.Levels.{
  parents, collapse-parents, length-parents, take-parents, drop-parents,
}

module _ (digest : List ℕ → List ℕ) where
  -- The tree of height `k` over nodes, from the top down: the first `2 ^ k` of twice as many make
  -- the left half, and the rest the right half; where nothing is left, the left half stands twice.
  -- `none` without nodes.
  unfoldable pub both_halves : Option MerkleNode → Option MerkleNode → Option MerkleNode
  both_halves (some a) (some b) = some (construct_merkle_node digest a b)
  both_halves (some a) none = none
  both_halves none b = none

  unfoldable pub tree : ℕ → List MerkleNode → Option MerkleNode
  tree zero [] = none
  tree zero (a ∷ ns) = some a
  tree (suc k) ns =
      let whole = tree k ns in
      let left = tree k (take (2 ^ k) ns) in
      let right = tree k (drop (2 ^ k) ns) in
      if leb (length ns) (2 ^ k) then both_halves whole whole else both_halves left right

  tree-low :
      (k : ℕ) (ns : List MerkleNode)
      → length ns ≤ 2 ^ k
      → tree (suc k) ns ≡ both_halves (tree k ns) (tree k ns)
  unfolding tree
  tree-low k ns le = rw (le→leb _ _ le)

  tree-high :
      (k : ℕ) (ns : List MerkleNode)
      → leb (length ns) (2 ^ k) ≡ false
      → tree (suc k) ns ≡ both_halves (tree k (take (2 ^ k) ns)) (tree k (drop (2 ^ k) ns))
  unfolding tree
  tree-high k ns e = rw e

  -- A tree one level higher is the tree over the level above.
  pub tree-parents :
      (k : ℕ) (ns : List MerkleNode)
      → 0 < length ns
      → length ns ≤ 2 ^ suc k
      → tree (suc k) ns ≡ tree k (parents digest ns)
  tree-parents zero [] pos fits = absurd (omega arith)
  tree-parents zero (a ∷ []) pos fits = unfold tree parents both_halves in refl
  tree-parents zero (a ∷ b ∷ []) pos fits = unfold tree parents both_halves in refl
  tree-parents zero (a ∷ b ∷ c ∷ ns) pos fits = absurd (omega arith)
  tree-parents (suc k) ns pos fits =
      let half : 2 ^ suc k ≡ 2 * 2 ^ k = two_pow-suc k in
      let twice : 2 ^ suc (suc k) ≡ 2 * 2 ^ suc k = two_pow-suc (suc k) in
      let some_below : 1 ≤ 2 ^ k = one-le-pow k 2 (omega arith) in
      let count : length (parents digest ns) ≡ (length ns + 1) / 2 = length-parents digest ns in
      elim (Bool-cases (leb (length ns) (2 ^ suc k))) [
        | inl e ↦
            let le : length ns ≤ 2 ^ suc k = leb→le _ _ e in
            let ih = tree-parents k ns pos le in
            tree-low (suc k) ns le
            ∙ ap₂ both_halves ih ih
            ∙ sym (tree-low k (parents digest ns) (omega arith))
        | inr e ↦
            let gt : 2 ^ suc k < length ns = ground arith in
            tree-high (suc k) ns e
            ∙ ap₂ both_halves
                (tree-parents k (take (2 ^ suc k) ns) (omega (arith, length-take (2 ^ suc k) ns))
                    (omega (arith, length-take (2 ^ suc k) ns))
                  ∙ ap (tree k) (sym (take-parents digest (2 ^ suc k) (2 ^ k) ns half)))
                (tree-parents k (drop (2 ^ suc k) ns) (omega (arith, length-drop (2 ^ suc k) ns))
                    (omega (arith, length-drop (2 ^ suc k) ns))
                  ∙ ap (tree k) (sym (drop-parents digest (2 ^ suc k) (2 ^ k) ns half)))
            ∙ sym (tree-high k (parents digest ns) (above gt half count))
      ]
    where
      above :
          2 ^ suc k < length ns
          → 2 ^ suc k ≡ 2 * 2 ^ k
          → length (parents digest ns) ≡ (length ns + 1) / 2
          → leb (length (parents digest ns)) (2 ^ k) ≡ false
      above gt half count = gt→leb_false _ _ (omega arith)

  collapse_loop-tree :
      (k f : ℕ) (ns : List MerkleNode)
      → length ns ≤ 2 ^ k
      → 2 ^ k < 2 * length ns
      → length ns ≤ f
      → collapse_loop digest f ns ≡ tree k ns
  unfolding collapse_loop
  collapse_loop-tree k zero [] le gt fuel = absurd (omega arith)
  collapse_loop-tree k zero (a ∷ ns) le gt fuel = absurd (omega arith)
  collapse_loop-tree k (suc f) [] le gt fuel = absurd (omega arith)
  collapse_loop-tree zero (suc f) (a ∷ []) le gt fuel = unfold tree in refl
  collapse_loop-tree zero (suc f) (a ∷ b ∷ ns) le gt fuel = absurd (omega arith)
  collapse_loop-tree (suc k) (suc f) (a ∷ ns) le gt fuel =
      let half : 2 ^ suc k ≡ 2 * 2 ^ k = two_pow-suc k in
      let some_below : 1 ≤ 2 ^ k = one-le-pow k 2 (omega arith) in
      let count = length-parents digest (a ∷ ns) in
      rw (lt→ltb 1 (length (a ∷ ns)) (omega arith), collapse-parents digest (a ∷ ns))
        (collapse_loop-tree k f (parents digest (a ∷ ns)) (omega arith) (omega arith) (omega arith)
          ∙ sym (tree-parents k (a ∷ ns) (omega arith) le))

-- Hashes that stand one behind the other.
abbrev pub joined : List (List ℕ) → List ℕ
joined [] = []
joined (h ∷ hs) = h ++ joined hs

load-prefix :
    (bytes h rest : List ℕ) (off : ℕ)
    → length h ≡ 32
    → drop off bytes ≡ h ++ rest
    → load bytes off 32 ≡ some h
unfolding load
load-prefix bytes h rest off size here =
    let count : length (h ++ rest) ≡ length bytes - off =
      ap length (sym here) ∙ length-drop off bytes in
    rw (
      le→leb (off + 32) (length bytes) (omega (arith, length-append h rest)),
      here,
      subst (λ k. take k (h ++ rest) ≡ h) size (take-append h rest),
    )

drop-prefix :
    (bytes h rest : List ℕ) (i : ℕ)
    → length h ≡ 32
    → drop (i * 32) bytes ≡ h ++ rest
    → drop ((i + 1) * 32) bytes ≡ rest
drop-prefix bytes h rest i size here =
    sym (drop-drop 32 (i * 32) ((i + 1) * 32) bytes (omega arith))
    ∙ ap (drop 32) here
    ∙ subst (λ k. drop k (h ++ rest) ≡ rest) size (drop-append h rest)

leaves-joined :
    (hs : List (List ℕ)) (bytes : List ℕ) (n i : ℕ)
    → n ≡ length hs
    → All (λ h. length h ≡ 32) hs
    → drop (i * 32) bytes ≡ joined hs
    → construct_merkle_leaves_from_hashes bytes n i ≡ some (map leaf hs)
unfolding construct_merkle_leaves_from_hashes add_leaf
leaves-joined [] bytes zero i e sizes here = refl
leaves-joined [] bytes (suc n) i e sizes here = absurd (omega arith)
leaves-joined (h ∷ hs) bytes zero i e sizes here = absurd (omega arith)
leaves-joined (h ∷ hs) bytes (suc n) i e sizes here = rw (
  load-prefix bytes h (joined hs) (i * 32) sizes.0 here,
  leaves-joined hs bytes n (i + 1) (omega arith) sizes.1
      (drop-prefix bytes h (joined hs) i sizes.0 here),
)

-- For hashes of 32 bytes, with `k` the least height that has room for them: the loop ends within its
-- fuel, and its root is the root of the tree of height `k` that is built from the top down by
-- halving, a half that stands alone taken twice.
pub construct_merkle_tree-tree :
    (digest : List ℕ → List ℕ) (k : ℕ) (hs : List (List ℕ))
    → All (λ h. length h ≡ 32) hs
    → length hs ≤ 2 ^ k
    → 2 ^ k < 2 * length hs
    → construct_merkle_tree_from_leaves digest (joined hs) (length hs) ≡ tree digest k (map leaf hs)
unfolding construct_merkle_tree_from_leaves
construct_merkle_tree-tree digest k hs sizes le gt =
    rw
      (
        le→ltb_false (length hs) 1 (omega arith),
        leaves-joined hs (joined hs) (length hs) 0 refl sizes refl,
      )
      (collapse_loop-tree digest k (length hs) (map leaf hs) (omega (arith, length-map hs leaf))
        (omega (arith, length-map hs leaf)) (omega (arith, length-map hs leaf)))
