-- ===== src/Transaction/Serialized.antt =====
-- Transactions as byte strings of their own, of src/core/transaction.c.
use vulkan_core.Common.{
  ℕ, ◌^◌, ◌<◌, ◌≡◌, List, length, arith, length-append, ◌==◌, if◌then◌else◌, false,
}
use vulkan_core.Check.{Check, crash, pass}
use vulkan_core.Bytes.{le_bytes}
use vulkan_core.Buffer.{Heap}
use vulkan_core.Buffer.Append.{Generous}
use vulkan_core.Buffer.Serialized.{
  to_serialized, from_serialized, to_serialized-bytes, from_serialized-value,
}
use vulkan_core.Transaction.{
  Transaction, TransactionIsValid, UnspentTransaction, UnspentTransactionIsValid,
}
use vulkan_core.Transaction.Codec.{
  serialize_transaction, deserialize_transaction, serialize_unspent_transaction,
  deserialize_unspent_transaction,
}
use vulkan_core.Transaction.Encoding.{
  encode_transaction, encode_unspent_transaction, Appends-serialize_transaction,
  Appends-serialize_unspent_transaction, sized,
}
use vulkan_core.Transaction.RoundTrip.{
  Reads-deserialize_transaction, Reads-deserialize_unspent_transaction,
}

module _ (h : Heap) where
  unfoldable pub transaction_to_serialized : Transaction → Check (List ℕ)
  transaction_to_serialized tx = to_serialized h (serialize_transaction h tx)

  unfoldable pub transaction_from_serialized : List ℕ → ℕ → Check Transaction
  transaction_from_serialized bytes n = from_serialized h (deserialize_transaction h) bytes n

  unfoldable pub unspent_transaction_to_serialized : UnspentTransaction → Check (List ℕ)
  unspent_transaction_to_serialized tx = to_serialized h (serialize_unspent_transaction h tx)

  -- An empty byte string fails an assertion.
  unfoldable pub unspent_transaction_from_serialized : List ℕ → ℕ → Check UnspentTransaction
  unspent_transaction_from_serialized bytes n =
      if n == 0 then crash else from_serialized h (deserialize_unspent_transaction h) bytes n

-- Where every allocation succeeds, `transaction_to_serialized` turns a well-formed transaction whose
-- encoding is shorter than 2 ^ 32 bytes into bytes that `transaction_from_serialized` turns back into
-- the transaction.
pub transaction_from_serialized-transaction_to_serialized :
    (h : Heap) (t : Transaction)
    → Generous h
    → TransactionIsValid t
    → length (encode_transaction t) < 2 ^ 32
    → (bytes : List ℕ) × (transaction_to_serialized h t ≡ pass bytes)
      × (transaction_from_serialized h bytes (length bytes) ≡ pass t)
unfolding transaction_to_serialized transaction_from_serialized encode_transaction
transaction_from_serialized-transaction_to_serialized h t g v small = (
  encode_transaction t,
  to_serialized-bytes h g (encode_transaction t) nonempty small
      (Appends-serialize_transaction h g t v),
  from_serialized-value h g (encode_transaction t) nonempty small
      (Reads-deserialize_transaction h g t v),
)
  where
    nonempty : 0 < length (encode_transaction t)
    nonempty = omega (
      arith,
      length-append (sized t.id) _,
      length-append (le_bytes 4 (length t.id)) t.id,
      v.id_size,
    )

-- The same of `unspent_transaction_to_serialized` and `unspent_transaction_from_serialized`: where
-- every allocation succeeds, a well-formed unspent transaction whose encoding is shorter than 2 ^ 32
-- bytes comes back.
pub unspent_from_serialized-unspent_to_serialized :
    (h : Heap) (t : UnspentTransaction)
    → Generous h
    → UnspentTransactionIsValid t
    → length (encode_unspent_transaction t) < 2 ^ 32
    → (bytes : List ℕ) × (unspent_transaction_to_serialized h t ≡ pass bytes)
      × (unspent_transaction_from_serialized h bytes (length bytes) ≡ pass t)
unfolding unspent_transaction_to_serialized unspent_transaction_from_serialized
    encode_unspent_transaction
unspent_from_serialized-unspent_to_serialized h t g v small = (
  encode_unspent_transaction t,
  to_serialized-bytes h g (encode_unspent_transaction t) nonempty small
      (Appends-serialize_unspent_transaction h g t v),
  rw (some_bytes) (
      from_serialized-value h g (encode_unspent_transaction t) nonempty small
        (Reads-deserialize_unspent_transaction h g t v)),
)
  where
    nonempty : 0 < length (encode_unspent_transaction t)
    nonempty = omega (
      arith,
      length-append (sized t.id) _,
      length-append (le_bytes 4 (length t.id)) t.id,
      v.id_size,
    )

    some_bytes : (length (encode_unspent_transaction t) == 0) ≡ false
    some_bytes = ground (arith, nonempty)
