-- ===== src/Transaction/Codec.antt =====
-- The serializers and deserializers of src/core/transaction.c.
use vulkan_core.Common.{ℕ, zero, suc, ◌+◌, List, [], ◌∷◌, ◌++◌, if◌then◌else◌}
use vulkan_core.Exec.{ok, fault, Action, Exec, done, require, local, ◌>>=◌, ◌>>◌}
use vulkan_core.Buffer.{
  Heap, Buffer, load, write, write_uint8, write_uint32, write_uint64, write_bytes32,
}
use vulkan_core.Buffer.Iterator.{Iterator, read_uint8, read_uint32, read_uint64, read_bytes32}
use vulkan_core.Transaction.{
  TxIn, TxOut, Transaction, UnspentTxOut, UnspentTransaction, make_transaction,
  make_unspent_transaction, hash_size, address_size, signature_size, public_key_size, next_count,
  at_end, add_txin_to_transaction, add_txout_to_transaction, for_each,
}

-- `memcpy(field, bytes, size)` from a block that holds `bytes`.
unfoldable pub copy_fixed : {S : Type 0} → ℕ → List ℕ → Exec S (List ℕ)
copy_fixed size bytes = require (load bytes 0 size)

-- The loop of a deserializer that reads an element and adds it to an object of its own, from index
-- `i` on with `n` rounds left.
unfoldable pub read_into :
    {A T : Type 0} → Exec Iterator A → (A → ℕ → Action T) → ℕ → ℕ → T → Exec Iterator T
read_into read add zero i t = done t
read_into read add (suc n) i t =
    read >>= λ x. local (add x i t) >>= λ t'. read_into read add n (i + 1) t'

-- The body of the loop of `deserialize_unspent_transaction` behind the read.
unfoldable pub add_unspent_txout : UnspentTxOut → ℕ → Action UnspentTransaction
add_unspent_txout txout index tx =
    if at_end index (next_count tx.unspent_txout_count)
    then ok tt (record tx {
      unspent_txout_count = next_count tx.unspent_txout_count;
      unspent_txouts = tx.unspent_txouts ++ txout ∷ [];
    })
    else fault

module _ (h : Heap) where
  unfoldable pub serialize_txin_header : TxIn → Action Buffer
  serialize_txin_header txin = do write h txin.transaction; write_uint32 h txin.txout_index

  unfoldable pub serialize_txin : TxIn → Action Buffer
  serialize_txin txin = do
    write_bytes32 h txin.transaction
    write_uint32 h txin.txout_index
    write_bytes32 h txin.signature
    write_bytes32 h txin.public_key

  unfoldable pub serialize_txout_header : TxOut → Action Buffer
  serialize_txout_header txout = do write_uint64 h txout.amount; write h txout.address

  unfoldable pub serialize_txout : TxOut → Action Buffer
  serialize_txout txout = do write_uint64 h txout.amount; write_bytes32 h txout.address

  unfoldable pub serialize_transaction_header : Transaction → Action Buffer
  serialize_transaction_header tx = do
    for_each tx.txin_count tx.txins serialize_txin_header
    for_each tx.txout_count tx.txouts serialize_txout_header

  unfoldable pub serialize_transaction : Transaction → Action Buffer
  serialize_transaction tx = do
    write_bytes32 h tx.id
    write_uint32 h tx.txin_count
    write_uint32 h tx.txout_count
    for_each tx.txin_count tx.txins serialize_txin
    for_each tx.txout_count tx.txouts serialize_txout

  unfoldable pub serialize_unspent_txout : UnspentTxOut → Action Buffer
  serialize_unspent_txout t = do
    write_uint64 h t.amount
    write_bytes32 h t.address
    write_uint8 h t.spent

  unfoldable pub serialize_unspent_transaction : UnspentTransaction → Action Buffer
  serialize_unspent_transaction tx = do
    write_bytes32 h tx.id
    write_uint8 h tx.coinbase
    write_uint32 h tx.unspent_txout_count
    for_each tx.unspent_txout_count tx.unspent_txouts serialize_unspent_txout

  -- `buffer_read_bytes32`, then the copy of a fixed number of the bytes that it returned.
  unfoldable pub read_fixed : ℕ → Exec Iterator (List ℕ)
  read_fixed size = read_bytes32 h >>= copy_fixed size

  unfoldable pub deserialize_txin : Exec Iterator TxIn
  deserialize_txin = do
    prev_tx_id ← read_fixed hash_size
    index ← read_uint32
    sig ← read_fixed signature_size
    key ← read_fixed public_key_size
    done (record {
      transaction = prev_tx_id;
      txout_index = index;
      signature = sig;
      public_key = key;
    })

  unfoldable pub deserialize_txout : Exec Iterator TxOut
  deserialize_txout = do
    n ← read_uint64
    to ← read_fixed address_size
    done (record { amount = n; address = to })

  unfoldable pub deserialize_transaction : Exec Iterator Transaction
  deserialize_transaction = do
    tx_id ← read_fixed hash_size
    txin_count ← read_uint32
    txout_count ← read_uint32
    tx ←
        read_into deserialize_txin add_txin_to_transaction txin_count 0
          (record make_transaction { id = tx_id })
    read_into deserialize_txout add_txout_to_transaction txout_count 0 tx

  unfoldable pub deserialize_unspent_txout : Exec Iterator UnspentTxOut
  deserialize_unspent_txout = do
    n ← read_uint64
    to ← read_fixed address_size
    flag ← read_uint8
    done (record { amount = n; address = to; spent = flag })

  unfoldable pub deserialize_unspent_transaction : Exec Iterator UnspentTransaction
  deserialize_unspent_transaction = do
    tx_id ← read_fixed hash_size
    flag ← read_uint8
    count ← read_uint32
    read_into deserialize_unspent_txout add_unspent_txout count 0
        (record make_unspent_transaction { id = tx_id; coinbase = flag })
