-- ===== src/Chain/Unspent.antt =====
-- The round of `update_unspent_transaction` of src/core/blockchain.c for one input: what becomes of
-- the unspent transaction that was looked up.
use vulkan_core.Common.{
  ℕ, zero, suc, ◌+◌, ◌-◌, ◌%◌, ◌^◌, ◌<◌, ◌≡◌, ◌≢◌, ap, ◌∙◌, true, false, Option, none, some, List,
  ◌∷◌, ◌++◌, length, take, drop, get_elem?, ltb, ◌==◌, if◌then◌else◌, arith, Bool-cases, inl, inr,
}
use vulkan_core.Check.{Check, crash, pass}
use vulkan_core.Transaction.{
  UnspentTxOut, UnspentTransaction, UnspentTransactionIsValid, next_count,
}

-- What is done to the unspent index.
pub data Update : Type 0 where
  skip : Update
  delete : List ℕ → Update
  insert : UnspentTransaction → Update

-- The loop over the outputs, which tests the output that was just marked in every round.
unfoldable pub count_spent : ℕ → UnspentTxOut → ℕ → ℕ
count_spent zero o spent_txs = spent_txs
count_spent (suc n) o spent_txs =
    count_spent n o (if o.spent == 1 then next_count spent_txs else spent_txs)

unfoldable pub store_or_delete : UnspentTransaction → UnspentTxOut → Update
unfolding count_spent
store_or_delete u o =
    if count_spent u.unspent_txout_count o 0 == u.unspent_txout_count then delete u.id else insert u

-- The output that the input names, with what it becomes in the array.
unfoldable pub mark_output : UnspentTransaction → ℕ → Option UnspentTxOut → Check Update
unfolding store_or_delete
mark_output u index none = crash
mark_output u index (some o) =
    if o.spent == 1
    then pass skip
    else pass (
        store_or_delete
          (record u {
            unspent_txouts =
                take index u.unspent_txouts
                ++ record o { spent = 1 } ∷ drop (index + 1) u.unspent_txouts;
          })
          (record o { spent = 1 }))

unfoldable pub update_unspent : UnspentTransaction → ℕ → Check Update
unfolding mark_output
update_unspent u index =
    if ltb ((2 ^ 32 + u.unspent_txout_count - 1) % 2 ^ 32) index
    then pass skip
    else mark_output u index (get_elem? u.unspent_txouts index)

count_spent-marked :
    (n : ℕ) (o : UnspentTxOut) (spent_txs : ℕ)
    → spent_txs + n < 2 ^ 32
    → count_spent n (record o { spent = 1 }) spent_txs ≡ spent_txs + n
unfolding count_spent
count_spent-marked zero o k small = omega arith
count_spent-marked (suc n) o k small =
    ap (count_spent n (record o { spent = 1 })) (omega arith)
    ∙ count_spent-marked n o (k + 1) (omega arith)
    ∙ omega arith

-- What `update_unspent_transaction` does with a well-formed unspent transaction for an input that
-- names an output of it: an output marked as spent is passed over; any other output has the whole
-- unspent transaction deleted from the index, whatever its other outputs are.
pub update_unspent-deletes :
    (u : UnspentTransaction) (index : ℕ) (o : UnspentTxOut)
    → UnspentTransactionIsValid u
    → index < length u.unspent_txouts
    → get_elem? u.unspent_txouts index ≡ some o
    → (o.spent ≡ 1 → update_unspent u index ≡ pass skip)
      × (o.spent ≢ 1 → update_unspent u index ≡ pass (delete u.id))
unfolding update_unspent mark_output store_or_delete
update_unspent-deletes u index o v inside here = (
  λ spent. rw (in_range, here, ap (λ (n : ℕ). n == 1) spent),
  λ ne. rw (in_range, here, unspent ne, all_counted),
)
  where
    in_range : ltb ((2 ^ 32 + u.unspent_txout_count - 1) % 2 ^ 32) index ≡ false
    in_range = ground (arith, v.counted, v.count_width)

    unspent : o.spent ≢ 1 → (o.spent == 1) ≡ false
    unspent ne = elim (Bool-cases (o.spent == 1)) [ inl e ↦ absurd (ne (ground arith)) | inr e ↦ e ]

    all_counted :
        (count_spent u.unspent_txout_count (record o { spent = 1 }) 0 == u.unspent_txout_count)
        ≡ true
    all_counted = ground (
      arith,
      count_spent-marked u.unspent_txout_count o 0 (omega (arith, v.counted, v.count_width)),
    )
