-- ===== src/Block/Copy.antt =====
-- `copy_block` of src/core/block.c.
use vulkan_core.Common.{
  ℕ, zero, suc, ◌+◌, ◌<◌, ◌≡◌, refl, ap, ◌∙◌, true, false, ◌&&◌, not, Option, none, some, List, [],
  ◌∷◌, ◌++◌, length, take, drop, ltb, if◌then◌else◌, arith, same_bytes_refl, ◌⊎◌, inl, inr,
  Bool-cases,
}
use vulkan_core.Exec.{Outcome, fault, error, ok, Action, done, stop, fail, ◌>>◌, and_then}
use vulkan_core.Transaction.{TxIn, TxOut, Transaction, next_count}
use vulkan_core.Transaction.Copy.{free_txins, free_txouts, copy_transaction, expect}
use vulkan_core.Transaction.Spend.{is_null}
use vulkan_core.Transaction.Copy.Whole.{null-empty}
use vulkan_core.Block.{Block, BlockIsValid, compare_block, compare_transactions}

-- `free_transaction`, of which the block keeps nothing.
unfoldable pub freed : Outcome Transaction (Unit {0}) → Action Block
freed fault = stop
freed (error o) = done tt
freed (ok _ o) = done tt

-- `free_transaction` of every element; past the end of the array is a fault.
unfoldable pub free_each : ℕ → List Transaction → Action Block
free_each zero txs = done tt
free_each (suc n) [] = stop
free_each (suc n) (t ∷ ts) = freed ((free_txins >> free_txouts) t) >> free_each n ts

unfoldable pub free_block_transactions : Action Block
unfolding free_each
free_block_transactions b =
    if ltb 0 b.transaction_count && not (is_null b.transactions)
    then (free_each b.transaction_count b.transactions >> λ c.
          ok tt (record c { transaction_count = 0; transactions = [] }))
        b
    else ok tt b

module _ (fi : TxIn) (fo : TxOut) where
  -- `copy_transaction` on a pointer, where `none` is `NULL`; the result is what the pointer then
  -- refers to.
  unfoldable pub copy_transaction_to :
      Transaction → Option Transaction → Outcome (Option Transaction) (Unit {0})
  copy_transaction_to tx none = fault
  copy_transaction_to tx (some other) = lifted (copy_transaction fi fo tx other)
    where
      lifted : Outcome Transaction (Unit {0}) → Outcome (Option Transaction) (Unit {0})
      lifted fault = fault
      lifted (error o) = error (some o)
      lifted (ok _ o) = ok tt (some o)

  -- The end of a round, with the assertion that there is a copy.
  unfoldable pub store_copy : ℕ → Outcome (Option Transaction) (Unit {0}) → Action Block
  store_copy i fault = stop
  store_copy i (error o) = fail
  store_copy i (ok _ none) = stop
  store_copy i (ok _ (some c)) = λ b. ok tt (record b {
    transaction_count = next_count b.transaction_count;
    transactions = take i b.transactions ++ c ∷ drop (i + 1) b.transactions;
  })

  -- Each round passes `other_tx`, which is `NULL`.
  unfoldable pub copy_each : ℕ → ℕ → List Transaction → Action Block
  unfolding copy_transaction_to store_copy
  copy_each zero i txs = done tt
  copy_each (suc n) i [] = stop
  copy_each (suc n) i (tx ∷ txs) =
      store_copy i (copy_transaction_to tx none) >> copy_each n (i + 1) txs

  unfoldable pub copy_block_transactions : Block → Action Block
  unfolding copy_each free_block_transactions
  copy_block_transactions b =
      free_block_transactions
      >> (if ltb 0 b.transaction_count && not (is_null b.transactions)
          then copy_each b.transaction_count 0 b.transactions
          else done tt)

  -- The fields are copied before the old transactions are freed, the count included.
  unfoldable pub copy_block : Block → Action Block
  unfolding copy_block_transactions
  copy_block b = fields >> (copy_block_transactions b >> λ c. expect (compare_block b c) c)
    where
      fields : Action Block
      fields o = ok tt (record b { transactions = o.transactions })

-- The block whose fields are copied over an object.
abbrev over : Block → Block → Block
over b o = record b { transactions = o.transactions }

-- Freeing either faults or goes through.
abbrev Frees : Action Block → Block → Type 0
Frees m b = (m b ≡ fault) ⊎ ((c : Block) × (m b ≡ ok tt c))

freed-Frees :
    (r : Outcome Transaction (Unit {0})) (m : Action Block) (b : Block)
    → Frees m b
    → Frees (freed r >> m) b
unfolding freed
freed-Frees fault m b f = inl refl
freed-Frees (error o) m b f = f
freed-Frees (ok _ o) m b f = f

free_each-Frees : (n : ℕ) (ts : List Transaction) (b : Block) → Frees (free_each n ts) b
unfolding free_each
free_each-Frees zero ts b = inr (b, refl)
free_each-Frees (suc n) [] b = inl refl
free_each-Frees (suc n) (t ∷ ts) b =
    freed-Frees ((free_txins >> free_txouts) t) (free_each n ts) b (free_each-Frees n ts b)

free-Frees : (b : Block) → Frees free_block_transactions b
unfolding free_block_transactions
free-Frees b = elim (Bool-cases (ltb 0 b.transaction_count && not (is_null b.transactions))) [
  | inl e ↦ rw e (elim (free_each-Frees b.transaction_count b.transactions b) [
    | inl f ↦ inl (ap (λ r. and_then r emptied) f)
    | inr f ↦ inr (emptied_of f.0, ap (λ r. and_then r emptied) f.1)
  ])
  | inr e ↦ rw e (inr (b, refl))
]
  where
    emptied_of : Block → Block
    emptied_of c = record c { transaction_count = 0; transactions = [] }

    emptied : Unit {0} → Action Block
    emptied _ c = ok tt (emptied_of c)

-- `copy_block` fails an assertion for every well-formed block that has transactions, whatever it is
-- copied to, since each transaction is copied to `NULL`. A block without transactions is copied,
-- and the target keeps the array that it had.
pub copy_block-cases :
    (fi : TxIn) (fo : TxOut) (b o : Block)
    → BlockIsValid b
    → (0 < length b.transactions → copy_block fi fo b o ≡ fault)
      × (length b.transactions ≡ 0
          → copy_block fi fo b o ≡ ok tt (record b { transactions = o.transactions }))
unfolding copy_block
copy_block-cases fi fo b o v = (λ some_left. faults some_left, λ none_left. copies none_left)
  where
    copy_each-faults :
        (n : ℕ) (ts : List Transaction) (c : Block)
        → 0 < n
        → n ≡ length ts
        → copy_each fi fo n 0 ts c ≡ fault
    copy_each-faults zero ts c pos e = absurd (omega arith)
    copy_each-faults (suc n) [] c pos e = absurd (omega arith)
    copy_each-faults (suc n) (t ∷ ts) c pos e =
        unfold copy_each copy_transaction_to store_copy in refl

    transactions-fault :
        0 < length b.transactions → copy_block_transactions fi fo b (over b o) ≡ fault
    transactions-fault some_left =
        let present : (ltb 0 b.transaction_count && not (is_null b.transactions)) ≡ true =
          ground (arith, v.counted, null-empty b.transactions) in
        unfold copy_block_transactions in
        rw present (elim (free-Frees (over b o)) [
          | inl f ↦
              ap (λ r. and_then r (λ _. copy_each fi fo b.transaction_count 0 b.transactions)) f
          | inr f ↦
              ap (λ r. and_then r (λ _. copy_each fi fo b.transaction_count 0 b.transactions)) f.1
              ∙ copy_each-faults b.transaction_count b.transactions f.0 (omega (arith, v.counted))
                  v.counted
        ])

    faults : 0 < length b.transactions → copy_block fi fo b o ≡ fault
    faults some_left =
        ap (λ r. and_then r (λ _ c. expect (compare_block b c) c)) (transactions-fault some_left)

    same : length b.transactions ≡ 0 → compare_block b (over b o) ≡ some true
    same none_left =
        unfold compare_block compare_transactions in
        ground (
          arith,
          v.counted,
          same_bytes_refl b.previous_hash,
          same_bytes_refl b.hash,
          same_bytes_refl b.merkle_root,
        )

    copies : length b.transactions ≡ 0 → copy_block fi fo b o ≡ ok tt (over b o)
    copies none_left =
        let none_freed : free_block_transactions (over b o) ≡ ok tt (over b o) =
          unfold free_block_transactions in ground (arith, v.counted) in
        let absent : (ltb 0 b.transaction_count && not (is_null b.transactions)) ≡ false =
          ground (arith, v.counted) in
        unfold copy_block_transactions in
        rw absent (
          ap (λ r. and_then (and_then r (λ _. done tt)) (λ _ c. expect (compare_block b c) c))
            none_freed
          ∙ ap (λ r. expect r (over b o)) (same none_left))
