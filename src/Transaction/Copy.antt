-- ===== src/Transaction/Copy.antt =====
-- The copies of src/core/transaction.c.
pub mod Whole
use vulkan_core.Common.{
  ℕ, zero, suc, ◌+◌, ◌^◌, ◌<◌, ◌≡◌, refl, sym, ap, ◌∙◌, Bool, true, false, ◌&&◌, not, Option, none,
  some, List, [], ◌∷◌, ◌++◌, length, ltb, leb, ◌==◌, if◌then◌else◌, All, arith, append-nil,
  append_assoc, length-append, same_bytes_refl,
}
use vulkan_core.Exec.{Outcome, fault, error, ok, Action, Exec, done, stop, fail, ◌>>◌, ◌>>=◌, local}
use vulkan_core.Transaction.{
  TxIn, TxOut, Transaction, UnspentTxOut, UnspentTransaction, TransactionIsValid, TxInIsValid,
  TxOutIsValid, make_transaction, make_unspent_transaction, add_txin_to_transaction,
  add_txout_to_transaction,
}
use vulkan_core.Transaction.Compare.{compare_txin, compare_txout, compare_transaction}
use vulkan_core.Transaction.Spend.{is_null, is_coinbase_tx}

-- An array of `count` pointers is walked and freed; past its end is a fault.
unfoldable pub free_txins : Action Transaction
free_txins tx =
    if ltb 0 tx.txin_count && not (is_null tx.txins)
    then (if leb tx.txin_count (length tx.txins)
        then ok tt (record tx { txin_count = 0; txins = [] })
        else fault)
    else ok tt tx

unfoldable pub free_txouts : Action Transaction
free_txouts tx =
    if ltb 0 tx.txout_count && not (is_null tx.txouts)
    then (if leb tx.txout_count (length tx.txouts)
        then ok tt (record tx { txout_count = 0; txouts = [] })
        else fault)
    else ok tt tx

-- The copy into another object, whose old contents are all overwritten.
unfoldable pub copy_txin : TxIn → Action TxIn
copy_txin t other = if compare_txin t c then ok tt c else error c
  where
    c : TxIn
    c = record other {
      transaction = t.transaction;
      txout_index = t.txout_index;
      signature = t.signature;
      public_key = t.public_key;
    }

unfoldable pub copy_txout : TxOut → Action TxOut
copy_txout t other = if compare_txout t c then ok tt c else error c
  where
    c : TxOut
    c = record other { amount = t.amount; address = t.address }

-- The element that was copied is added; an error of its copy is returned.
unfoldable pub add_copy :
    {A : Type 0} → Outcome A (Unit {0}) → (A → Action Transaction) → Action Transaction
add_copy fault add = stop
add_copy (error c) add = fail
add_copy (ok _ c) add = add c

-- `fresh` is what `malloc` hands out for the copy.
module _ (fresh : TxIn) where
  unfoldable pub copy_txins : ℕ → ℕ → List TxIn → Action Transaction
  copy_txins zero i txins = done tt
  copy_txins (suc n) i [] = stop
  copy_txins (suc n) i (t ∷ ts) =
      add_copy (copy_txin t fresh) (λ c. add_txin_to_transaction c i) >> copy_txins n (i + 1) ts

module _ (fresh : TxOut) where
  unfoldable pub copy_txouts : ℕ → ℕ → List TxOut → Action Transaction
  copy_txouts zero i txouts = done tt
  copy_txouts (suc n) i [] = stop
  copy_txouts (suc n) i (t ∷ ts) =
      add_copy (copy_txout t fresh) (λ c. add_txout_to_transaction c i) >> copy_txouts n (i + 1) ts

-- `if (compare(...) == 0) return 1;`
abbrev pub expect : {S : Type 0} → Option Bool → Action S
expect none = stop
expect (some true) = done tt
expect (some false) = fail

unfoldable pub copy_transaction : TxIn → TxOut → Transaction → Action Transaction
copy_transaction fresh_in fresh_out tx = do
  free_txins
  free_txouts
  set_id
  arrays
  λ other. expect (compare_transaction tx other) other
  where
    set_id : Action Transaction
    set_id other = ok tt (record other { id = tx.id })

    arrays : Action Transaction
    arrays =
        if ltb 0 tx.txin_count
          && not (is_null tx.txins)
          && (ltb 0 tx.txout_count && not (is_null tx.txouts))
        then copy_txins fresh_in tx.txin_count 0 tx.txins
          >> copy_txouts fresh_out tx.txout_count 0 tx.txouts
        else done tt

unfoldable pub txout_to_unspent_txout : TxOut → UnspentTxOut
txout_to_unspent_txout t = record { amount = t.amount; address = t.address; spent = 0 }

-- The loop of `transaction_to_unspent_transaction`.
unfoldable pub unspent_txouts_from : ℕ → List TxOut → Option (List UnspentTxOut)
unspent_txouts_from zero txouts = some []
unspent_txouts_from (suc n) [] = none
unspent_txouts_from (suc n) (t ∷ ts) = prepend (txout_to_unspent_txout t) (unspent_txouts_from n ts)
  where
    prepend : UnspentTxOut → Option (List UnspentTxOut) → Option (List UnspentTxOut)
    prepend u none = none
    prepend u (some us) = some (u ∷ us)

-- `none` is a fault.
unfoldable pub transaction_to_unspent_transaction : Transaction → Option UnspentTransaction
transaction_to_unspent_transaction tx = finish (unspent_txouts_from tx.txout_count tx.txouts)
  where
    finish : Option (List UnspentTxOut) → Option UnspentTransaction
    finish none = none
    finish (some us) = some (record {
      id = tx.id;
      coinbase = if is_coinbase_tx tx then 1 else 0;
      unspent_txout_count = tx.txout_count;
      unspent_txouts = us;
    })

-- `get_unspent_txouts_from_unspent_tx`: the outputs that it pushes, whose number it adds to the
-- caller's counter. `vec_push` succeeds here.
unfoldable pub unspent_of : ℕ → List UnspentTxOut → Option (List UnspentTxOut)
unspent_of zero us = some []
unspent_of (suc n) [] = none
unspent_of (suc n) (u ∷ us) = keep (u.spent == 1) (unspent_of n us)
  where
    keep : Bool → Option (List UnspentTxOut) → Option (List UnspentTxOut)
    keep spent none = none
    keep true (some vs) = some vs
    keep false (some vs) = some (u ∷ vs)

unfoldable pub get_unspent_txouts_from_unspent_tx : UnspentTransaction → Option (List UnspentTxOut)
get_unspent_txouts_from_unspent_tx tx = unspent_of tx.unspent_txout_count tx.unspent_txouts
