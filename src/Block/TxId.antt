-- ===== src/Block/TxId.antt =====
-- What `compute_tx_id` of src/core/transaction.c hashes.
use vulkan_core.Common.{
  ℕ, zero, suc, ◌+◌, ◌*◌, ◌^◌, ◌<◌, ◌≡◌, false, List, [], ◌∷◌, ◌++◌, length, replicate, arith,
  length-append, length-replicate, All, append-nil, drop_all, ◌==◌,
}
use vulkan_core.Exec.{Action}
use vulkan_core.Check.{pass}
use vulkan_core.Bytes.{le_bytes}
use vulkan_core.Bytes.Word.{length-le_bytes}
use vulkan_core.Buffer.{Heap, Buffer, ignoring}
use vulkan_core.Buffer.Append.{Generous}
use vulkan_core.Buffer.Fill.{Fills, Fills-write, Fills-write_word, Fills->>, Fills-done}
use vulkan_core.Transaction.{
  TxIn, TxOut, Transaction, TxInIsValid, TxOutIsValid, TransactionIsValid, for_each,
}
use vulkan_core.Transaction.Codec.{
  serialize_txin_header, serialize_txout_header, serialize_transaction_header,
}
use vulkan_core.Transaction.Encoding.{encode_all, encode_txin_header, encode_txout_header}
use vulkan_core.Transaction.Sign.{get_tx_header_size}
use vulkan_core.Block.Hash.{compute_tx_id}
use vulkan_core.Block.Commit.{header_bytes-fill}

unfoldable pub encode_transaction_header : Transaction → List ℕ
encode_transaction_header t =
    encode_all encode_txin_header t.txins ++ encode_all encode_txout_header t.txouts

Fills-ignoring : {m : Action Buffer} {src : List ℕ} → Fills m src → Fills (ignoring m) src
unfolding ignoring
Fills-ignoring p = record { at = λ bs rest small le. rw (p.at bs rest small le, ignoring) }

Fills-for_each :
    {A : Type 0} (P : A → Type 0) (f : A → Action Buffer) (e : A → List ℕ)
    → ((x : A) → P x → Fills (f x) (e x))
    → (n : ℕ) (xs : List A) → n ≡ length xs
    → All P xs
    → Fills (for_each n xs f) (encode_all e xs)
unfolding for_each encode_all
Fills-for_each P f e step zero [] eq ps = Fills-done
Fills-for_each P f e step zero (x ∷ xs) eq ps = absurd (omega arith)
Fills-for_each P f e step (suc n) [] eq ps = absurd (omega arith)
Fills-for_each P f e step (suc n) (x ∷ xs) eq ps =
    Fills->> (step x ps.0) (Fills-for_each P f e step n xs (omega arith) ps.1)

-- Elements that are all encoded in the same number of bytes.
length-encode_all :
    {A : Type 0} (P : A → Type 0) (e : A → List ℕ) (w : ℕ)
    → ((x : A) → P x → length (e x) ≡ w)
    → (xs : List A) → All P xs
    → length (encode_all e xs) ≡ w * length xs
unfolding encode_all
length-encode_all P e w size [] ps = omega arith
length-encode_all P e w size (x ∷ xs) ps =
    let here = size x ps.0 in
    let later = length-encode_all P e w size xs ps.1 in
    let both = length-append (e x) (encode_all e xs) in grind arith

module _ (h : Heap) where
  Fills-serialize_txin_header :
      (t : TxIn) → TxInIsValid t → Fills (serialize_txin_header h t) (encode_txin_header t)
  unfolding serialize_txin_header encode_txin_header
  Fills-serialize_txin_header t v =
      Fills->> (Fills-write h t.transaction (omega arith))
        (Fills-write_word h 4 t.txout_index (omega arith))

  Fills-serialize_txout_header :
      (t : TxOut) → TxOutIsValid t → Fills (serialize_txout_header h t) (encode_txout_header t)
  unfolding serialize_txout_header encode_txout_header
  Fills-serialize_txout_header t v =
      Fills->> (Fills-write_word h 8 t.amount (omega arith)) (Fills-write h t.address (omega arith))

  Fills-serialize_transaction_header :
      (t : Transaction)
      → TransactionIsValid t
      → Fills (serialize_transaction_header h t) (encode_transaction_header t)
  unfolding serialize_transaction_header encode_transaction_header
  Fills-serialize_transaction_header t v =
      Fills->>
        (Fills-for_each TxInIsValid (serialize_txin_header h) encode_txin_header
          Fills-serialize_txin_header t.txin_count t.txins v.txin_counted v.txins_valid)
        (Fills-for_each TxOutIsValid (serialize_txout_header h) encode_txout_header
          Fills-serialize_txout_header t.txout_count t.txouts v.txout_counted v.txouts_valid)

length-txin_header : (t : TxIn) → TxInIsValid t → length (encode_txin_header t) ≡ 36
unfolding encode_txin_header
length-txin_header t v =
    omega (
      arith,
      length-append t.transaction (le_bytes 4 t.txout_index),
      length-le_bytes 4 t.txout_index,
    )

length-txout_header : (t : TxOut) → TxOutIsValid t → length (encode_txout_header t) ≡ 41
unfolding encode_txout_header
length-txout_header t v =
    omega (arith, length-append (le_bytes 8 t.amount) t.address, length-le_bytes 8 t.amount)

-- A transaction whose header is not empty, and whose header size does not wrap.
abbrev pub HeaderFits : Transaction → Type 0
HeaderFits t =
    (0 < 36 * length t.txins + 41 * length t.txouts)
    × (36 * length t.txins + 41 * length t.txouts < 2 ^ 32)

header_size :
    (t : Transaction)
    → TransactionIsValid t
    → HeaderFits t
    → get_tx_header_size t ≡ 36 * length t.txins + 41 * length t.txouts
unfolding get_tx_header_size
header_size t v fits = omega arith

length-transaction_header :
    (t : Transaction)
    → TransactionIsValid t
    → HeaderFits t
    → length (encode_transaction_header t) ≡ get_tx_header_size t
unfolding encode_transaction_header
length-transaction_header t v fits = omega (
  arith,
  header_size t v fits,
  length-append (encode_all encode_txin_header t.txins) (encode_all encode_txout_header t.txouts),
  length-encode_all TxInIsValid encode_txin_header 36 length-txin_header t.txins v.txins_valid,
  length-encode_all TxOutIsValid encode_txout_header 41 length-txout_header t.txouts v.txouts_valid,
)

-- The id of a transaction is the digest of the headers of its inputs and then its outputs.
pub compute_tx_id-encode :
    (h : Heap) (digest : List ℕ → List ℕ) (t : Transaction)
    → Generous h
    → TransactionIsValid t
    → HeaderFits t
    → compute_tx_id h digest t ≡ pass (digest (encode_transaction_header t))
unfolding compute_tx_id
compute_tx_id-encode h digest t g v fits = rw (
  nonzero,
  header_bytes-fill h (ignoring (serialize_transaction_header h t)) (encode_transaction_header t)
      (get_tx_header_size t) g (Fills-ignoring (Fills-serialize_transaction_header h t v))
      (omega (arith, header_size t v fits)) (omega (arith, header_size t v fits))
      (omega (arith, length-transaction_header t v fits)),
  drop_all {A = ℕ} (length (encode_transaction_header t)) (replicate (get_tx_header_size t) 0) (
      omega (
        arith,
        length-transaction_header t v fits,
        length-replicate {A = ℕ} (get_tx_header_size t) 0,
      )),
  append-nil (encode_transaction_header t),
)
  where
    nonzero : (get_tx_header_size t == 0) ≡ false
    nonzero = ground (arith, header_size t v fits)
