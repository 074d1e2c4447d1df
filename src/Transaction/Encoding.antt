-- ===== src/Transaction/Encoding.antt =====
-- The wire format of transactions as plain byte strings, and that the serializers append it.
use vulkan_core.Common.{ℕ, zero, suc, ◌<◌, ◌≡◌, List, [], ◌∷◌, ◌++◌, length, All, arith}
use vulkan_core.Exec.{Action}
use vulkan_core.Bytes.{le_bytes}
use vulkan_core.Buffer.{Heap, Buffer, write_bytes_prefixed}
use vulkan_core.Buffer.Append.{
  Generous, Appends, Appends-done, Appends->>, Appends-write, Appends-write_word,
  Appends-write_bytes_prefixed,
}
use vulkan_core.Transaction.{
  TxIn, TxOut, Transaction, UnspentTxOut, UnspentTransaction, TxInIsValid, TxOutIsValid,
  TransactionIsValid, UnspentTxOutIsValid, UnspentTransactionIsValid, for_each,
}
use vulkan_core.Transaction.Codec.{
  serialize_txin_header, serialize_txin, serialize_txout_header, serialize_txout,
  serialize_transaction_header, serialize_transaction, serialize_unspent_txout,
  serialize_unspent_transaction,
}

-- A byte string behind its length in four bytes.
abbrev pub sized : List ℕ → List ℕ
sized bs = le_bytes 4 (length bs) ++ bs

unfoldable pub encode_txin : TxIn → List ℕ
encode_txin t =
    sized t.transaction ++ (le_bytes 4 t.txout_index ++ (sized t.signature ++ sized t.public_key))

unfoldable pub encode_txout : TxOut → List ℕ
encode_txout t = le_bytes 8 t.amount ++ sized t.address

unfoldable pub encode_all {ℓ} : {A : Type ℓ} → (A → List ℕ) → List A → List ℕ
encode_all f [] = []
encode_all f (x ∷ xs) = f x ++ encode_all f xs

unfoldable pub encode_transaction : Transaction → List ℕ
encode_transaction t =
    sized t.id
    ++ (le_bytes 4 (length t.txins)
        ++ (le_bytes 4 (length t.txouts)
            ++ (encode_all encode_txin t.txins ++ encode_all encode_txout t.txouts)))

unfoldable pub encode_unspent_txout : UnspentTxOut → List ℕ
encode_unspent_txout t = le_bytes 8 t.amount ++ (sized t.address ++ le_bytes 1 t.spent)

unfoldable pub encode_unspent_transaction : UnspentTransaction → List ℕ
encode_unspent_transaction t =
    sized t.id
    ++ (le_bytes 1 t.coinbase
        ++ (le_bytes 4 (length t.unspent_txouts)
            ++ encode_all encode_unspent_txout t.unspent_txouts))

-- The headers that the transaction id is computed from.
unfoldable pub encode_txin_header : TxIn → List ℕ
encode_txin_header t = t.transaction ++ le_bytes 4 t.txout_index

unfoldable pub encode_txout_header : TxOut → List ℕ
encode_txout_header t = le_bytes 8 t.amount ++ t.address

pub Appends-for_each :
    {A : Type 0} (P : A → Type 0) (f : A → Action Buffer) (e : A → List ℕ)
    → ((x : A) → P x → Appends (f x) (e x))
    → (n : ℕ) (xs : List A) → n ≡ length xs
    → All P xs
    → Appends (for_each n xs f) (encode_all e xs)
unfolding for_each encode_all
Appends-for_each P f e step zero [] eq ps = Appends-done
Appends-for_each P f e step zero (x ∷ xs) eq ps = absurd (omega arith)
Appends-for_each P f e step (suc n) [] eq ps = absurd (omega arith)
Appends-for_each P f e step (suc n) (x ∷ xs) eq ps =
    Appends->> (step x ps.0) (Appends-for_each P f e step n xs (omega arith) ps.1)

module _ (h : Heap) (g : Generous h) where
  pub sized_bytes : (bs : List ℕ) → 0 < length bs → Appends (write_bytes_prefixed h 4 bs) (sized bs)
  sized_bytes bs pos = Appends-write_bytes_prefixed h g 4 bs (omega arith) pos

  pub Appends-serialize_txin :
      (t : TxIn) → TxInIsValid t → Appends (serialize_txin h t) (encode_txin t)
  unfolding serialize_txin encode_txin
  Appends-serialize_txin t v = Appends->> (sized_bytes t.transaction (omega arith)) (
      Appends->> (Appends-write_word h g 4 t.txout_index (omega arith)) (
        Appends->> (sized_bytes t.signature (omega arith))
          (sized_bytes t.public_key (omega arith))))

  pub Appends-serialize_txout :
      (t : TxOut) → TxOutIsValid t → Appends (serialize_txout h t) (encode_txout t)
  unfolding serialize_txout encode_txout
  Appends-serialize_txout t v =
      Appends->> (Appends-write_word h g 8 t.amount (omega arith))
        (sized_bytes t.address (omega arith))

  pub Appends-serialize_transaction :
      (t : Transaction)
      → TransactionIsValid t
      → Appends (serialize_transaction h t) (encode_transaction t)
  unfolding serialize_transaction encode_transaction
  Appends-serialize_transaction t v =
      rw (← v.txin_counted, ← v.txout_counted)
        (Appends->> (sized_bytes t.id (omega arith)) (
          Appends->> (Appends-write_word h g 4 t.txin_count (omega arith)) (
            Appends->> (Appends-write_word h g 4 t.txout_count (omega arith)) (
              Appends->>
                (Appends-for_each TxInIsValid (serialize_txin h) encode_txin Appends-serialize_txin
                  t.txin_count t.txins v.txin_counted v.txins_valid)
                (Appends-for_each TxOutIsValid (serialize_txout h) encode_txout
                  Appends-serialize_txout t.txout_count t.txouts v.txout_counted v.txouts_valid)))))

  pub Appends-serialize_txin_header :
      (t : TxIn) → TxInIsValid t → Appends (serialize_txin_header h t) (encode_txin_header t)
  unfolding serialize_txin_header encode_txin_header
  Appends-serialize_txin_header t v =
      Appends->> (Appends-write h g t.transaction (omega arith))
        (Appends-write_word h g 4 t.txout_index (omega arith))

  pub Appends-serialize_txout_header :
      (t : TxOut) → TxOutIsValid t → Appends (serialize_txout_header h t) (encode_txout_header t)
  unfolding serialize_txout_header encode_txout_header
  Appends-serialize_txout_header t v =
      Appends->> (Appends-write_word h g 8 t.amount (omega arith))
        (Appends-write h g t.address (omega arith))

  pub Appends-serialize_transaction_header :
      (t : Transaction)
      → TransactionIsValid t
      → Appends
          (serialize_transaction_header h t)
          (encode_all encode_txin_header t.txins ++ encode_all encode_txout_header t.txouts)
  unfolding serialize_transaction_header
  Appends-serialize_transaction_header t v =
      Appends->>
        (Appends-for_each TxInIsValid (serialize_txin_header h) encode_txin_header
          Appends-serialize_txin_header t.txin_count t.txins v.txin_counted v.txins_valid)
        (Appends-for_each TxOutIsValid (serialize_txout_header h) encode_txout_header
          Appends-serialize_txout_header t.txout_count t.txouts v.txout_counted v.txouts_valid)

  pub Appends-serialize_unspent_txout :
      (t : UnspentTxOut)
      → UnspentTxOutIsValid t
      → Appends (serialize_unspent_txout h t) (encode_unspent_txout t)
  unfolding serialize_unspent_txout encode_unspent_txout
  Appends-serialize_unspent_txout t v =
      Appends->> (Appends-write_word h g 8 t.amount (omega arith)) (
        Appends->> (sized_bytes t.address (omega arith))
          (Appends-write_word h g 1 t.spent (omega arith)))

  pub Appends-serialize_unspent_transaction :
      (t : UnspentTransaction)
      → UnspentTransactionIsValid t
      → Appends (serialize_unspent_transaction h t) (encode_unspent_transaction t)
  unfolding serialize_unspent_transaction encode_unspent_transaction
  Appends-serialize_unspent_transaction t v = rw (← v.counted) (
      Appends->> (sized_bytes t.id (omega arith)) (
        Appends->> (Appends-write_word h g 1 t.coinbase (omega arith)) (
          Appends->> (Appends-write_word h g 4 t.unspent_txout_count (omega arith)) (
            Appends-for_each UnspentTxOutIsValid (serialize_unspent_txout h) encode_unspent_txout
              Appends-serialize_unspent_txout t.unspent_txout_count t.unspent_txouts v.counted
              v.txouts_valid))))
