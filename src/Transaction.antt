-- ===== src/Transaction.antt =====
-- src/core/transaction.h and the constructors of src/core/transaction.c.
pub mod Codec
pub mod Encoding
pub mod RoundTrip
pub mod Compare
pub mod Copy
pub mod Serialized
pub mod Sign
pub mod Spend
pub mod Tests
use vulkan_core.Common.{
  ℕ, zero, suc, ◌+◌, ◌%◌, ◌^◌, ◌-◌, ◌<◌, ◌≡◌, List, [], ◌∷◌, ◌++◌, length, replicate, All, ◌==◌,
  if◌then◌else◌, Bool, ◌&&◌, not,
}
use vulkan_core.Exec.{ok, fault, Action, Exec, stop, done, ◌>>◌}

abbrev pub hash_size : ℕ
hash_size = 32

-- crypto_hash_sha256_BYTES + 1
abbrev pub address_size : ℕ
address_size = 33

-- crypto_sign_BYTES
abbrev pub signature_size : ℕ
signature_size = 64

-- crypto_sign_PUBLICKEYBYTES
abbrev pub public_key_size : ℕ
public_key_size = 32

abbrev pub txin_header_size : ℕ
txin_header_size = hash_size + 4

abbrev pub txout_header_size : ℕ
txout_header_size = address_size + 8

-- `input_transaction_t`
pub record TxIn : Type 0 where
  pub transaction : List ℕ
  pub txout_index : ℕ
  pub signature : List ℕ
  pub public_key : List ℕ

-- `output_transaction_t`
pub record TxOut : Type 0 where
  pub amount : ℕ
  pub address : List ℕ

-- `transaction_t`. An array of pointers is a list, empty for `NULL`.
pub record Transaction : Type 0 where
  pub id : List ℕ
  pub txin_count : ℕ
  pub txout_count : ℕ
  pub txins : List TxIn
  pub txouts : List TxOut

-- `unspent_output_transaction_t`
pub record UnspentTxOut : Type 0 where
  pub amount : ℕ
  pub address : List ℕ
  pub spent : ℕ

-- `unspent_transaction_t`
pub record UnspentTransaction : Type 0 where
  pub id : List ℕ
  pub coinbase : ℕ
  pub unspent_txout_count : ℕ
  pub unspent_txouts : List UnspentTxOut

abbrev pub make_transaction : Transaction
make_transaction = record {
  id = replicate hash_size 0;
  txin_count = 0;
  txout_count = 0;
  txins = [];
  txouts = [];
}

abbrev pub make_unspent_transaction : UnspentTransaction
make_unspent_transaction = record {
  id = replicate hash_size 0;
  coinbase = 0;
  unspent_txout_count = 0;
  unspent_txouts = [];
}

-- `count++` on a uint32_t.
abbrev pub next_count : ℕ → ℕ
next_count n = (n + 1) % 2 ^ 32

-- `assert(index == count - 1)` after the increment.
abbrev pub at_end : ℕ → ℕ → Bool
at_end index count = index == (2 ^ 32 + count - 1) % 2 ^ 32

unfoldable pub add_txin_to_transaction : TxIn → ℕ → Action Transaction
add_txin_to_transaction txin index tx =
    if at_end index (next_count tx.txin_count)
    then ok tt (record tx { txin_count = next_count tx.txin_count; txins = tx.txins ++ txin ∷ [] })
    else fault

unfoldable pub add_txout_to_transaction : TxOut → ℕ → Action Transaction
add_txout_to_transaction txout index tx =
    if at_end index (next_count tx.txout_count)
    then ok tt
        (record tx { txout_count = next_count tx.txout_count; txouts = tx.txouts ++ txout ∷ [] })
    else fault

-- `for (i = 0; i < count; i++)` over an array of pointers; past its end is a fault.
unfoldable pub for_each : {S A : Type 0} → ℕ → List A → (A → Action S) → Action S
for_each zero xs f = done tt
for_each (suc n) [] f = stop
for_each (suc n) (x ∷ xs) f = f x >> for_each n xs f

-- The arrays of a C struct have their declared sizes, and its integers their widths.
pub record TxInIsValid (t : TxIn) : Type 0 where
  pub transaction_size : length t.transaction ≡ hash_size
  pub index_width : t.txout_index < 2 ^ 32
  pub signature_width : length t.signature ≡ signature_size
  pub key_width : length t.public_key ≡ public_key_size

pub record TxOutIsValid (t : TxOut) : Type 0 where
  pub amount_width : t.amount < 2 ^ 64
  pub address_width : length t.address ≡ address_size

-- The counts tell the lengths of the arrays.
pub record TransactionIsValid (t : Transaction) : Type 0 where
  pub id_size : length t.id ≡ hash_size
  pub txin_counted : t.txin_count ≡ length t.txins
  pub txout_counted : t.txout_count ≡ length t.txouts
  pub txin_width : length t.txins < 2 ^ 32
  pub txout_width : length t.txouts < 2 ^ 32
  pub txins_valid : All TxInIsValid t.txins
  pub txouts_valid : All TxOutIsValid t.txouts

pub record UnspentTxOutIsValid (t : UnspentTxOut) : Type 0 where
  pub amount_width : t.amount < 2 ^ 64
  pub address_width : length t.address ≡ address_size
  pub spent_width : t.spent < 256

pub record UnspentTransactionIsValid (t : UnspentTransaction) : Type 0 where
  pub id_size : length t.id ≡ hash_size
  pub coinbase_width : t.coinbase < 256
  pub counted : t.unspent_txout_count ≡ length t.unspent_txouts
  pub count_width : length t.unspent_txouts < 2 ^ 32
  pub txouts_valid : All UnspentTxOutIsValid t.unspent_txouts
