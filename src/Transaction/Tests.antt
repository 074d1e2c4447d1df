-- ===== src/Transaction/Tests.antt =====
-- The theorems about transactions at concrete inputs.
use vulkan_core.Common.{
  ℕ, ◌<◌, ◌≡◌, length, refl, subst, ◌↔◌, Bool-cases, inl, inr, true, Option, some, none, List, [],
  ◌∷◌, replicate, same_bytes, if◌then◌else◌, ◌%◌, ◌^◌, arith,
}
use mathlib.Core.Option.{some-injective}
use vulkan_core.Bytes.{le_bytes}
use vulkan_core.Exec.{ok, error}
use vulkan_core.Check.{pass}
use vulkan_core.Transaction.Copy.{copy_transaction}
use vulkan_core.Transaction.Copy.Whole.{copy_transaction-cases}
use vulkan_core.Buffer.Tests.{plenty, plenty-Generous}
use vulkan_core.Buffer.Read.{RoundTrip}
use vulkan_core.Transaction.{
  TxIn, TxOut, Transaction, UnspentTransaction, UnspentTransactionIsValid, make_transaction,
}
use vulkan_core.Transaction.Codec.{
  serialize_transaction, deserialize_transaction, serialize_unspent_transaction,
  deserialize_unspent_transaction,
}
use vulkan_core.Transaction.Encoding.{
  encode_transaction, encode_txin, encode_txout, encode_all, encode_unspent_transaction,
  encode_unspent_txout,
}
use vulkan_core.Transaction.RoundTrip.{
  deserialize_transaction-serialize_transaction, deserialize_unspent-serialize_unspent,
}
use vulkan_core.Transaction.Compare.{compare_transaction, without_keys, compare_transaction_iff}
use vulkan_core.Transaction.Sign.{
  Signatures, sign_txin, validate_txin_signature, reprice, signature-ignores_amounts,
}
use vulkan_core.Transaction.Spend.{
  is_coinbase_tx, do_txins_reference_unspent_txouts, valid_transaction, valid_address,
}
use vulkan_core.Transaction.Spend.Sound.{spendable_in, BringIn, AddressesOk, sum}
use vulkan_core.Transaction.Spend.Accept.{
  do_txins_reference_unspent_txouts_iff, duplicate_input-accepted,
}
use vulkan_core.Transaction.Spend.Owner.{owned, valid_transaction-owned}

abbrev pub hash : ℕ → List ℕ
hash b = replicate 32 b

abbrev pub address : ℕ → List ℕ
address b = 1 ∷ replicate 32 b

abbrev pub input : TxIn
input = record {
  transaction = hash 7;
  txout_index = 0;
  signature = replicate 64 3;
  public_key = hash 9;
}

abbrev pub output : ℕ → TxOut
output n = record { amount = n; address = address 5 }

abbrev pub payment : Transaction
payment = record {
  id = hash 1;
  txin_count = 1;
  txout_count = 2;
  txins = input ∷ [];
  txouts = output 30 ∷ output 70 ∷ [];
}

abbrev pub coins : UnspentTransaction
coins = record {
  id = hash 7;
  coinbase = 1;
  unspent_txout_count = 1;
  unspent_txouts = record { amount = 100; address = address 8; spent = 0 } ∷ [];
}

abbrev pub only_coins : List ℕ → Option UnspentTransaction
only_coins id = if same_bytes id (hash 7) then some coins else none

abbrev pub toy : Signatures
toy = record { sign = λ m k. k; verify = λ s m k. true }

coins-valid : UnspentTransactionIsValid coins
coins-valid = omega arith

only_coins-valid :
    (id : List ℕ) (u : UnspentTransaction) → only_coins id ≡ some u → UnspentTransactionIsValid u
only_coins-valid id u h = elim (Bool-cases (same_bytes id (hash 7))) [
  | inl e ↦ subst UnspentTransactionIsValid (some-injective coins u (rw e at h)) coins-valid
  | inr e ↦ cc (rw e at h)
]

deserialize_transaction-serialize_transaction_example :
    RoundTrip
      (serialize_transaction plenty payment)
      (deserialize_transaction plenty)
      payment
      (1 ∷ 2 ∷ [])
unfolding encode_transaction encode_txin encode_txout encode_all le_bytes
deserialize_transaction-serialize_transaction_example =
    deserialize_transaction-serialize_transaction plenty (1 ∷ 2 ∷ []) payment plenty-Generous
      (omega arith) (omega arith)

deserialize_unspent-serialize_unspent_example :
    RoundTrip
      (serialize_unspent_transaction plenty coins)
      (deserialize_unspent_transaction plenty)
      coins
      []
unfolding encode_unspent_transaction encode_unspent_txout encode_all le_bytes
deserialize_unspent-serialize_unspent_example =
    deserialize_unspent-serialize_unspent plenty [] coins plenty-Generous (omega arith)
      (omega arith)

compare_transaction_iff_example :
    (compare_transaction payment
        (record payment { txins = record input { public_key = hash 4 } ∷ [] })
      ≡ some true)
    ↔ (without_keys payment
        ≡ without_keys (record payment { txins = record input { public_key = hash 4 } ∷ [] }))
compare_transaction_iff_example =
    compare_transaction_iff payment
      (record payment { txins = record input { public_key = hash 4 } ∷ [] }) refl refl refl refl

signature-ignores_amounts_example :
    (sign_txin toy (replicate 118 0) input (reprice (λ _. 5) payment) (hash 9) (hash 2)
      ≡ sign_txin toy (replicate 118 0) input payment (hash 9) (hash 2))
    × (validate_txin_signature toy (replicate 118 0) (reprice (λ _. 5) payment) input
        ≡ validate_txin_signature toy (replicate 118 0) payment input)
signature-ignores_amounts_example =
    signature-ignores_amounts toy (replicate 118 0) (λ _. 5) payment input (hash 9) (hash 2)
      (omega arith)

do_txins_reference_unspent_txouts_iff_example :
    (do_txins_reference_unspent_txouts only_coins 0 payment ≡ pass tt) ↔ (
      (ms : List ℕ) × BringIn only_coins (input ∷ []) ms
      × AddressesOk 0 (output 30 ∷ output 70 ∷ [])
      × (sum ms % 2 ^ 64 ≡ 100))
unfolding is_coinbase_tx
do_txins_reference_unspent_txouts_iff_example =
    do_txins_reference_unspent_txouts_iff only_coins only_coins-valid 0 payment refl refl refl
      (omega arith)

duplicate_input-accepted_example :
    do_txins_reference_unspent_txouts only_coins 0 (record {
      id = hash 2;
      txin_count = 2;
      txout_count = 1;
      txins = input ∷ input ∷ [];
      txouts = output 200 ∷ [];
    })
    ≡ pass tt
unfolding spendable_in valid_address same_bytes
duplicate_input-accepted_example =
    duplicate_input-accepted only_coins only_coins-valid 0 100 input (hash 2) (output 200 ∷ []) refl
      (refl, tt) refl

valid_transaction-owned_example :
    valid_transaction (owned (λ _. address 1) only_coins) 0 toy (replicate 118 0) payment
    ≡ valid_transaction only_coins 0 toy (replicate 118 0) payment
valid_transaction-owned_example =
    valid_transaction-owned (λ _. address 1) only_coins 0 toy (replicate 118 0) payment

copy_transaction-cases_example :
    (0 < length payment.txins
      → copy_transaction input (output 1) payment make_transaction ≡ ok tt payment)
    × (length payment.txins ≡ 0
        → copy_transaction input (output 1) payment make_transaction
          ≡ error (record make_transaction { id = payment.id }))
copy_transaction-cases_example =
    copy_transaction-cases input (output 1) payment make_transaction (omega arith) refl refl
      (omega arith)
