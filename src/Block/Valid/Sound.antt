-- ===== src/Block/Valid/Sound.antt =====
-- Which blocks `valid_block` accepts.
use vulkan_core.Common.{
  ℕ, ◌≤◌, ◌≡◌, ◌≢◌, sym, ◌∙◌, ◌↔◌, true, false, not, some, get_elem?, arith, ◌==◌, same_bytes_iff,
  Bool-cases, inl, inr,
}
use vulkan_core.Check.{Check, pass, guard}
use vulkan_core.Crypto.{compare_hash}
use vulkan_core.Transaction.{TxIn, Transaction, TransactionIsValid}
use vulkan_core.Transaction.Spend.{is_coinbase_tx}
use vulkan_core.Pow.{check_proof_of_work}
use vulkan_core.Block.{Block, valid_block_timestamp, get_block_header_size, max_block_size}
use vulkan_core.Block.Hash.{compute_block_hash, compute_merkle_root}
use vulkan_core.Block.Valid.{Node, check_each, same_outpoint, check_txins, check_pair, valid_tx}
use vulkan_core.Block.Valid.Loops.{>>-iff, guard-not_iff, check_all_iff}

-- Neither the same id nor an output that both spend.
pub record Apart (t u : Transaction) : Type 0 where
  pub distinct_ids : t.id ≢ u.id
  pub disjoint :
      (k l : ℕ) (x y : TxIn)
      → get_elem? t.txins k ≡ some x
      → get_elem? u.txins l ≡ some y
      → x.transaction ≡ y.transaction
      → x.txout_index ≢ y.txout_index

-- The rules of a block.
pub record Acceptable (e : Node) (b : Block) : Type 0 where
  pub timely : valid_block_timestamp e.now b ≡ true
  pub headed : (t : Transaction) × (get_elem? b.transactions 0 ≡ some t) × (is_coinbase_tx t ≡ true)
  pub each_valid :
      (i : ℕ) (t : Transaction) → get_elem? b.transactions i ≡ some t → valid_tx e t ≡ pass tt
  pub one_coinbase :
      (i : ℕ) (t : Transaction)
      → get_elem? b.transactions i ≡ some t
      → is_coinbase_tx t ≡ true
      → i ≡ 0
  pub all_apart :
      (i j : ℕ) (t u : Transaction)
      → get_elem? b.transactions i ≡ some t
      → get_elem? b.transactions j ≡ some u
      → i ≢ j
      → Apart t u
  pub sized : (size : ℕ) × (get_block_header_size b ≡ some size) × (size ≤ max_block_size)
  pub hashed : compute_block_hash e.heap e.digest b ≡ pass b.hash
  pub worked : check_proof_of_work e.numbers b.hash b.bits ≡ pass tt
  pub rooted : compute_merkle_root e.heap e.digest b ≡ pass b.merkle_root

same_outpoint_iff :
    (x y : TxIn)
    → (same_outpoint x y ≡ false) ↔ (x.transaction ≡ y.transaction → x.txout_index ≢ y.txout_index)
unfolding same_outpoint
same_outpoint_iff x y = (
  λ h same. λ e. ground (arith, same_bytes_iff x.transaction y.transaction),
  λ h. ground (arith, same_bytes_iff x.transaction y.transaction),
)

check_txins_iff :
    (t u : Transaction)
    → TransactionIsValid t
    → TransactionIsValid u
    → (check_txins t u ≡ pass tt) ↔ (
        (k l : ℕ) (x y : TxIn)
        → get_elem? t.txins k ≡ some x
        → get_elem? u.txins l ≡ some y
        → x.transaction ≡ y.transaction
        → x.txout_index ≢ y.txout_index)
unfolding check_txins
check_txins_iff t u v w = (
  λ h k l x y gx gy.
      (same_outpoint_iff x y).0
        ((guard-not_iff (same_outpoint x y)).0 ((inner x).0 (outer.0 h k x gx) l y gy)),
  λ h. outer.1 (λ k x gx. (inner x).1 (λ l y gy.
      (guard-not_iff (same_outpoint x y)).1 ((same_outpoint_iff x y).1 (h k l x y gx gy)))),
)
  where
    against : TxIn → ℕ → TxIn → Check (Unit {0})
    against x _ y = guard (not (same_outpoint x y))

    inner :
        (x : TxIn)
        → (check_each u.txin_count 0 u.txins (against x) ≡ pass tt)
          ↔ ((l : ℕ) (y : TxIn) → get_elem? u.txins l ≡ some y → against x l y ≡ pass tt)
    inner x = check_all_iff (against x) u.txin_count u.txins w.txin_counted

    outer :
        (check_each t.txin_count 0 t.txins (λ _ x. check_each u.txin_count 0 u.txins (against x))
          ≡ pass tt)
        ↔ ((k : ℕ) (x : TxIn)
            → get_elem? t.txins k ≡ some x
            → check_each u.txin_count 0 u.txins (against x) ≡ pass tt)
    outer =
        check_all_iff (λ _ x. check_each u.txin_count 0 u.txins (against x)) t.txin_count t.txins
          v.txin_counted

pub check_pair_iff :
    (i j : ℕ) (t u : Transaction)
    → TransactionIsValid t
    → TransactionIsValid u
    → (check_pair i t j u ≡ pass tt) ↔ (i ≢ j → Apart t u)
unfolding check_pair
check_pair_iff i j t u v w = elim (Bool-cases (i == j)) [
  | inl e ↦ (λ h. λ ne. absurd (ne (ground arith)), λ h. rw e)
  | inr e ↦ rw e (
    (λ h. λ ne.
        let parts = (>>-iff (guard (not (compare_hash t.id u.id))) (check_txins t u)).0 h in
        record {
          distinct_ids = λ same. cc (
              sym ((guard-not_iff (compare_hash t.id u.id)).0 parts.0)
              ∙ (same_bytes_iff t.id u.id).1 same);
          disjoint = (check_txins_iff t u v w).0 parts.1;
        }),
    λ h.
        let apart = h (λ same. absurd (ground arith)) in
        (>>-iff (guard (not (compare_hash t.id u.id))) (check_txins t u)).1 (
          (guard-not_iff (compare_hash t.id u.id)).1 (different apart),
          (check_txins_iff t u v w).1 apart.disjoint,
        ),
  )
]
  where
    different : Apart t u → compare_hash t.id u.id ≡ false
    different apart = elim (Bool-cases (compare_hash t.id u.id)) [
      | inl e ↦ absurd (apart.distinct_ids ((same_bytes_iff t.id u.id).0 e))
      | inr e ↦ e
    ]
