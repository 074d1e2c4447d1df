-- ===== src/Transaction/Spend.antt =====
-- `valid_transaction` and what it rests on, in src/core/transaction.c, with `valid_address` of
-- src/wallet/wallet.c.
pub mod Sound
pub mod Accept
pub mod Owner
use vulkan_core.Common.{
  ℕ, zero, suc, ◌+◌, ◌-◌, ◌*◌, ◌%◌, ◌^◌, ◌≤◌, ◌<◌, Bool, true, false, ◌&&◌, ◌||◌, not, Option, none,
  some, List, [], ◌∷◌, get_elem?, ltb, ◌==◌, if◌then◌else◌,
}
use vulkan_core.Check.{Check, crash, reject, pass, ◌>>=◌, ◌>>◌, guard, guard?, access}
use vulkan_core.Transaction.{TxIn, TxOut, Transaction, UnspentTxOut, UnspentTransaction, next_count}
use vulkan_core.Transaction.Sign.{Signatures, validate_txin_signature, get_tx_header_size}

unfoldable pub is_null {ℓ} : {A : Type ℓ} → List A → Bool
is_null [] = true
is_null (x ∷ xs) = false

unfoldable pub is_coinbase_tx : Transaction → Bool
unfolding is_null
is_coinbase_tx tx =
    tx.txin_count == 0 && (tx.txout_count == 1 && (is_null tx.txins && not (is_null tx.txouts)))

-- `get_address_id` is the first byte. `testnet` is `parameters_get_use_testnet()`.
unfoldable pub valid_address : ℕ → List ℕ → Bool
valid_address testnet [] = false
valid_address testnet (id ∷ _) =
    if id == 0x01 then testnet == 0 else if id == 0x02 then testnet == 1 else false

-- What the loops over the inputs and outputs add up, on uint32_t and uint64_t.
pub record Tally : Type 0 where
  pub valid_txins : ℕ
  pub money : ℕ

abbrev pub add64 : ℕ → ℕ → ℕ
add64 a b = (a + b) % 2 ^ 64

-- The output that an input names: it counts if it is not spent.
unfoldable pub count_output : Option UnspentTxOut → Tally → Check Tally
count_output none t = crash
count_output (some o) t = pass (
    if o.spent == 0
    then record { valid_txins = next_count t.valid_txins; money = add64 t.money o.amount }
    else t)

-- The round of the loop for an unspent transaction that was found. A count of 0 lets every index
-- through, since `count - 1` wraps.
unfoldable pub count_txin : UnspentTransaction → ℕ → Tally → Check Tally
unfolding count_output
count_txin u index t =
    if ltb ((2 ^ 32 + u.unspent_txout_count - 1) % 2 ^ 32) index
    then reject
    else count_output (get_elem? u.unspent_txouts index) t

-- What the index answered for an input: an unknown transaction is passed over.
unfoldable pub count_found : Option UnspentTransaction → ℕ → Tally → Check Tally
count_found none i t = pass t
count_found (some u) i t = count_txin u i t

-- `get_unspent_tx_from_index` is the parameter `index`.
module _ (index : List ℕ → Option UnspentTransaction) where
  unfoldable pub count_txins : ℕ → List TxIn → Tally → Check Tally
  count_txins zero txins t = pass t
  count_txins (suc n) [] t = crash
  count_txins (suc n) (i ∷ is) t =
      count_found (index i.transaction) i.txout_index t >>= λ t'. count_txins n is t'

unfoldable pub count_txouts : ℕ → ℕ → List TxOut → ℕ → Check ℕ
count_txouts testnet zero txouts money = pass money
count_txouts testnet (suc n) [] money = crash
count_txouts testnet (suc n) (o ∷ os) money =
    guard (valid_address testnet o.address) >> count_txouts testnet n os (add64 money o.amount)

module _ (s : Signatures) (stack : List ℕ) where
  unfoldable pub check_signatures : Transaction → ℕ → List TxIn → Check (Unit {0})
  check_signatures tx zero txins = pass tt
  check_signatures tx (suc n) [] = crash
  check_signatures tx (suc n) (i ∷ is) =
      guard? (validate_txin_signature s stack tx i) >> check_signatures tx n is

  -- `validate_tx_signatures`; its result 1 is `reject` here.
  unfoldable pub validate_tx_signatures : Transaction → Check (Unit {0})
  unfolding check_signatures
  validate_tx_signatures tx = check_signatures tx tx.txin_count tx.txins

abbrev pub max_tx_size : ℕ
max_tx_size = 1024 * 512

module _ (index : List ℕ → Option UnspentTransaction) (testnet : ℕ) where
  unfoldable pub do_txins_reference_unspent_txouts : Transaction → Check (Unit {0})
  do_txins_reference_unspent_txouts tx =
      if is_coinbase_tx tx then guard (not (ltb 0 tx.txin_count)) else do
        t ← count_txins index tx.txin_count tx.txins (record { valid_txins = 0; money = 0 })
        required ← count_txouts testnet tx.txout_count tx.txouts 0
        guard (t.valid_txins == tx.txin_count && t.money == required)

  unfoldable pub valid_transaction : Signatures → List ℕ → Transaction → Check (Unit {0})
  valid_transaction s stack tx = do
    guard (not (tx.txout_count == 0 || is_null tx.txouts))
    guard (not (ltb max_tx_size (get_tx_header_size tx)))
    validate_tx_signatures s stack tx
    do_txins_reference_unspent_txouts tx
