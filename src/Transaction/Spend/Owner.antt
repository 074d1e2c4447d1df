-- ===== src/Transaction/Spend/Owner.antt =====
-- Who may spend an output.
use vulkan_core.Common.{ℕ, zero, suc, ◌≡◌, refl, Option, none, some, List, [], ◌∷◌, map, get_elem?}
use mathlib.Core.Option
use vulkan_core.Check.{>>=-ext}
use vulkan_core.Transaction.{TxIn, Transaction, UnspentTxOut, UnspentTransaction}
use vulkan_core.Transaction.Sign.{Signatures}
use vulkan_core.Transaction.Spend.{
  Tally, count_output, count_txin, count_found, count_txins, do_txins_reference_unspent_txouts,
  valid_transaction,
}

-- An unspent transaction whose outputs are made over to other addresses.
abbrev pub with_owner : (UnspentTxOut → List ℕ) → UnspentTxOut → UnspentTxOut
with_owner f o = record o { address = f o }

abbrev pub with_owners : (UnspentTxOut → List ℕ) → UnspentTransaction → UnspentTransaction
with_owners f u = record u { unspent_txouts = map (with_owner f) u.unspent_txouts }

abbrev pub owned :
    (UnspentTxOut → List ℕ)
    → (List ℕ → Option UnspentTransaction)
    → List ℕ
    → Option UnspentTransaction
owned f index id = Option.map (with_owners f) (index id)

module _ (f : UnspentTxOut → List ℕ) where
  get_elem?-owner :
      (os : List UnspentTxOut) (i : ℕ)
      → get_elem? (map (with_owner f) os) i ≡ Option.map (with_owner f) (get_elem? os i)
  get_elem?-owner [] i = refl
  get_elem?-owner (o ∷ os) zero = refl
  get_elem?-owner (o ∷ os) (suc i) = get_elem?-owner os i

  count_output-owner :
      (o : Option UnspentTxOut) (t : Tally)
      → count_output (Option.map (with_owner f) o) t ≡ count_output o t
  unfolding count_output
  count_output-owner none t = refl
  count_output-owner (some o) t = refl

  count_found-owner :
      (o : Option UnspentTransaction) (i : ℕ) (t : Tally)
      → count_found (Option.map (with_owners f) o) i t ≡ count_found o i t
  unfolding count_found count_txin
  count_found-owner none i t = refl
  count_found-owner (some u) i t =
      rw (get_elem?-owner u.unspent_txouts i, count_output-owner (get_elem? u.unspent_txouts i) t)

  module _ (index : List ℕ → Option UnspentTransaction) where
    count_txins-owner :
        (n : ℕ) (ts : List TxIn) (t : Tally)
        → count_txins (owned f index) n ts t ≡ count_txins index n ts t
    unfolding count_txins
    count_txins-owner zero ts t = refl
    count_txins-owner (suc n) [] t = refl
    count_txins-owner (suc n) (i ∷ is) t =
        rw (count_found-owner (index i.transaction) i.txout_index t) (
          >>=-ext (count_found (index i.transaction) i.txout_index t)
            (λ t'. count_txins-owner n is t'))

    references-owner :
        (testnet : ℕ) (tx : Transaction)
        → do_txins_reference_unspent_txouts (owned f index) testnet tx
          ≡ do_txins_reference_unspent_txouts index testnet tx
    unfolding do_txins_reference_unspent_txouts
    references-owner testnet tx = rw count_txins-owner

    -- The verdict of `valid_transaction` does not depend on the addresses that the spent outputs
    -- belong to: whoever they are made over to, the answer on every transaction stays the same.
    pub valid_transaction-owned :
        (testnet : ℕ) (s : Signatures) (stack : List ℕ) (tx : Transaction)
        → valid_transaction (owned f index) testnet s stack tx
          ≡ valid_transaction index testnet s stack tx
    unfolding valid_transaction
    valid_transaction-owned testnet s stack tx = rw references-owner
