-- ===== src/Transaction/RoundTrip.antt =====
-- Deserializing what was serialized.
use vulkan_core.Common.{
  ℕ, zero, suc, ◌+◌, ◌^◌, ◌<◌, ◌≡◌, refl, ap, subst, some, List, [], ◌∷◌, ◌++◌, length, All, arith,
  append_assoc, append-nil, length-append, take_all, le→leb,
}
use vulkan_core.Exec.{Exec, Action, require, local, ok, done}
use vulkan_core.Buffer.{Heap, load}
use vulkan_core.Buffer.Append.{Generous}
use vulkan_core.Buffer.Iterator.{Iterator}
use vulkan_core.Buffer.Read.{
  Reads, Reads-done, Reads->>=, Reads-map, Reads-read_word, Reads-read_bytes_prefixed, RoundTrip,
  RoundTrip-of,
}
use vulkan_core.Transaction.{
  TxIn, TxOut, Transaction, UnspentTxOut, UnspentTransaction, TxInIsValid, TxOutIsValid,
  TransactionIsValid, UnspentTxOutIsValid, UnspentTransactionIsValid, make_transaction,
  make_unspent_transaction, add_txin_to_transaction, add_txout_to_transaction,
}
use vulkan_core.Transaction.Codec.{
  copy_fixed, read_into, read_fixed, deserialize_txin, deserialize_txout, deserialize_transaction,
  deserialize_unspent_txout, deserialize_unspent_transaction, add_unspent_txout,
  serialize_transaction, serialize_unspent_transaction,
}
use vulkan_core.Transaction.Encoding.{
  sized, encode_txin, encode_txout, encode_all, encode_transaction, encode_unspent_txout,
  encode_unspent_transaction, Appends-serialize_transaction, Appends-serialize_unspent_transaction,
}

pub load_all : (src : List ℕ) (n : ℕ) → length src ≡ n → load src 0 n ≡ some src
unfolding load
load_all src n e = rw (le→leb (0 + n) (length src) (omega arith), take_all n src (omega arith))

copy_fixed_all :
    (src : List ℕ) (n : ℕ) → length src ≡ n → copy_fixed {S = Iterator} n src ≡ done src
unfolding copy_fixed
copy_fixed_all src n e = ap require (load_all src n e)

module _ (h : Heap) (g : Generous h) where
  pub Reads-read_fixed :
      (n : ℕ) (src : List ℕ) → length src ≡ n → n < 2 ^ 32 → Reads (read_fixed h n) (sized src) src
  unfolding read_fixed
  Reads-read_fixed n src e small = rw (← append-nil (sized src)) (
      Reads->>= (copy_fixed n) (Reads-read_bytes_prefixed h g 4 src (omega arith) (omega arith))
        (rw (copy_fixed_all src n e) (Reads-done src)))

  Reads-deserialize_txin : (t : TxIn) → TxInIsValid t → Reads (deserialize_txin h) (encode_txin t) t
  unfolding deserialize_txin encode_txin
  Reads-deserialize_txin t v =
      Reads->>= _ (Reads-read_fixed 32 t.transaction v.transaction_size (omega arith)) (
        Reads->>= _ (Reads-read_word 4 t.txout_index v.index_width) (
          Reads->>= _ (Reads-read_fixed 64 t.signature v.signature_width (omega arith))
            (Reads-map _ (Reads-read_fixed 32 t.public_key v.key_width (omega arith)))))

  Reads-deserialize_txout :
      (t : TxOut) → TxOutIsValid t → Reads (deserialize_txout h) (encode_txout t) t
  unfolding deserialize_txout encode_txout
  Reads-deserialize_txout t v =
      Reads->>= _ (Reads-read_word 8 t.amount v.amount_width)
        (Reads-map _ (Reads-read_fixed 33 t.address v.address_width (omega arith)))

-- The loop of a deserializer, where `grown xs` is the object after the elements `xs`.
module _ {A T : Type 0} (P : A → Type 0) (read : Exec Iterator A) (e : A → List ℕ)
    (add : A → ℕ → Action T) (grown : List A → T) (reads : (x : A) → P x → Reads read (e x) x)
    (grows : (xs : List A) (x : A)
      → length xs + 1 < 2 ^ 32
      → add x (length xs) (grown xs) ≡ ok tt (grown (xs ++ x ∷ []))) where
  Reads-read_into :
      (ys : List A) (n i : ℕ) (xs : List A)
      → n ≡ length ys
      → i ≡ length xs
      → length xs + length ys < 2 ^ 32
      → All P ys
      → Reads (read_into read add n i (grown xs)) (encode_all e ys) (grown (xs ++ ys))
  unfolding read_into encode_all
  Reads-read_into [] zero i xs en ei small ps = rw append-nil (Reads-done (grown xs))
  Reads-read_into [] (suc n) i xs en ei small ps = absurd (omega arith)
  Reads-read_into (y ∷ ys) zero i xs en ei small ps = absurd (omega arith)
  Reads-read_into (y ∷ ys) (suc n) i xs en ei small ps = Reads->>= _ (reads y ps.0) (
      Reads->>= _ added (
        rw (append_assoc xs (y ∷ []) ys) at (
          Reads-read_into ys n (i + 1) (xs ++ y ∷ []) (omega arith)
            (omega (arith, length-append xs (y ∷ []))) (omega (arith, length-append xs (y ∷ [])))
            ps.1)))
    where
      added : Reads (local (add y i (grown xs))) [] (grown (xs ++ y ∷ []))
      added = rw (ei, grows xs y (omega arith)) (Reads-done (grown (xs ++ y ∷ [])))

module _ (tx : Transaction) where
  unfoldable pub with_txins : List TxIn → Transaction
  with_txins ts = record tx { txin_count = length ts; txins = ts }

  unfoldable pub with_txouts : List TxOut → Transaction
  with_txouts ts = record tx { txout_count = length ts; txouts = ts }

  pub add_txin-with_txins :
      (ts : List TxIn) (t : TxIn)
      → length ts + 1 < 2 ^ 32
      → add_txin_to_transaction t (length ts) (with_txins ts) ≡ ok tt (with_txins (ts ++ t ∷ []))
  unfolding add_txin_to_transaction with_txins
  add_txin-with_txins ts t small = ground (arith, length-append ts (t ∷ []))

  pub add_txout-with_txouts :
      (ts : List TxOut) (t : TxOut)
      → length ts + 1 < 2 ^ 32
      → add_txout_to_transaction t (length ts) (with_txouts ts) ≡ ok tt (with_txouts (ts ++ t ∷ []))
  unfolding add_txout_to_transaction with_txouts
  add_txout-with_txouts ts t small = ground (arith, length-append ts (t ∷ []))

module _ (tx : UnspentTransaction) where
  with_unspent : List UnspentTxOut → UnspentTransaction
  with_unspent ts = record tx { unspent_txout_count = length ts; unspent_txouts = ts }

  add_unspent-with_unspent :
      (ts : List UnspentTxOut) (t : UnspentTxOut)
      → length ts + 1 < 2 ^ 32
      → add_unspent_txout t (length ts) (with_unspent ts) ≡ ok tt (with_unspent (ts ++ t ∷ []))
  unfolding add_unspent_txout with_unspent
  add_unspent-with_unspent ts t small = ground (arith, length-append ts (t ∷ []))

abbrev started : List ℕ → Transaction
started tx_id = record make_transaction { id = tx_id }

rebuilt :
    (t : Transaction)
    → TransactionIsValid t
    → with_txouts (with_txins (started t.id) t.txins) t.txouts ≡ t
unfolding with_txins with_txouts
rebuilt t v = ground arith

rebuilt_unspent :
    (t : UnspentTransaction)
    → UnspentTransactionIsValid t
    → with_unspent
        (record make_unspent_transaction { id = t.id; coinbase = t.coinbase })
        t.unspent_txouts
      ≡ t
unfolding with_unspent
rebuilt_unspent t v = ground arith

module _ (h : Heap) (g : Generous h) where
  pub Reads-deserialize_transaction :
      (t : Transaction)
      → TransactionIsValid t
      → Reads (deserialize_transaction h) (encode_transaction t) t
  unfolding deserialize_transaction encode_transaction with_txins with_txouts
  Reads-deserialize_transaction t v =
      subst (λ r. Reads (deserialize_transaction h) (encode_transaction t) r) (rebuilt t v)
        (Reads->>= _ (Reads-read_fixed h g 32 t.id v.id_size (omega arith)) (
          Reads->>= _ (Reads-read_word 4 (length t.txins) v.txin_width) (
            Reads->>= _ (Reads-read_word 4 (length t.txouts) v.txout_width)
              (Reads->>= _ txins txouts))))
    where
      txins :
          Reads
            (read_into
              (deserialize_txin h)
              add_txin_to_transaction
              (length t.txins)
              0
              (with_txins (started t.id) []))
            (encode_all encode_txin t.txins)
            (with_txins (started t.id) t.txins)
      txins =
          Reads-read_into TxInIsValid (deserialize_txin h) encode_txin add_txin_to_transaction
            (with_txins (started t.id)) (Reads-deserialize_txin h g)
            (add_txin-with_txins (started t.id)) t.txins _ 0 [] refl refl (omega arith)
            v.txins_valid

      txouts :
          Reads
            (read_into
              (deserialize_txout h)
              add_txout_to_transaction
              (length t.txouts)
              0
              (with_txouts (with_txins (started t.id) t.txins) []))
            (encode_all encode_txout t.txouts)
            (with_txouts (with_txins (started t.id) t.txins) t.txouts)
      txouts =
          Reads-read_into TxOutIsValid (deserialize_txout h) encode_txout add_txout_to_transaction
            (with_txouts (with_txins (started t.id) t.txins)) (Reads-deserialize_txout h g)
            (add_txout-with_txouts (with_txins (started t.id) t.txins)) t.txouts _ 0 [] refl refl
            (omega arith) v.txouts_valid

  Reads-deserialize_unspent_txout :
      (t : UnspentTxOut)
      → UnspentTxOutIsValid t
      → Reads (deserialize_unspent_txout h) (encode_unspent_txout t) t
  unfolding deserialize_unspent_txout encode_unspent_txout
  Reads-deserialize_unspent_txout t v = Reads->>= _ (Reads-read_word 8 t.amount v.amount_width) (
      Reads->>= _ (Reads-read_fixed h g 33 t.address v.address_width (omega arith))
        (Reads-map _ (Reads-read_word 1 t.spent v.spent_width)))

  pub Reads-deserialize_unspent_transaction :
      (t : UnspentTransaction)
      → UnspentTransactionIsValid t
      → Reads (deserialize_unspent_transaction h) (encode_unspent_transaction t) t
  unfolding deserialize_unspent_transaction encode_unspent_transaction with_unspent
  Reads-deserialize_unspent_transaction t v =
      subst (λ r. Reads (deserialize_unspent_transaction h) (encode_unspent_transaction t) r)
        (rebuilt_unspent t v)
        (Reads->>= _ (Reads-read_fixed h g 32 t.id v.id_size (omega arith)) (
          Reads->>= _ (Reads-read_word 1 t.coinbase v.coinbase_width) (
            Reads->>= _ (Reads-read_word 4 (length t.unspent_txouts) v.count_width) (
              Reads-read_into UnspentTxOutIsValid (deserialize_unspent_txout h) encode_unspent_txout
                add_unspent_txout (with_unspent base) Reads-deserialize_unspent_txout
                (add_unspent-with_unspent base) t.unspent_txouts _ 0 [] refl refl (omega arith)
                v.txouts_valid))))
    where
      base : UnspentTransaction
      base = record make_unspent_transaction { id = t.id; coinbase = t.coinbase }

-- Where every allocation succeeds and the buffer stays below the address space: for a transaction
-- whose counts, sizes and widths are those of its C struct, `serialize_transaction` succeeds
-- behind any bytes already written, and `deserialize_transaction` at that place returns the
-- transaction and leaves the cursor at the end of the buffer.
pub deserialize_transaction-serialize_transaction :
    (h : Heap) (bs : List ℕ) (t : Transaction)
    → Generous h
    → TransactionIsValid t
    → length bs + length (encode_transaction t) < 2 ^ 64
    → RoundTrip (serialize_transaction h t) (deserialize_transaction h) t bs
deserialize_transaction-serialize_transaction h bs t g v fits =
    RoundTrip-of (Appends-serialize_transaction h g t v) (Reads-deserialize_transaction h g t v) bs
      fits

-- The same of `serialize_unspent_transaction` and `deserialize_unspent_transaction`: where every
-- allocation succeeds and the buffer stays below the address space, a well-formed unspent
-- transaction is written behind any bytes and read back from there, and the cursor ends up at the
-- end of the buffer.
pub deserialize_unspent-serialize_unspent :
    (h : Heap) (bs : List ℕ) (t : UnspentTransaction)
    → Generous h
    → UnspentTransactionIsValid t
    → length bs + length (encode_unspent_transaction t) < 2 ^ 64
    → RoundTrip (serialize_unspent_transaction h t) (deserialize_unspent_transaction h) t bs
deserialize_unspent-serialize_unspent h bs t g v fits =
    RoundTrip-of (Appends-serialize_unspent_transaction h g t v)
      (Reads-deserialize_unspent_transaction h g t v) bs fits
