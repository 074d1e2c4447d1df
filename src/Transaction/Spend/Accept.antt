-- ===== src/Transaction/Spend/Accept.antt =====
-- What the check of inputs and outputs accepts.
use vulkan_core.Common.{
  ℕ, zero, suc, ◌+◌, ◌*◌, ◌%◌, ◌^◌, ◌<◌, ◌≡◌, refl, ap, ap₂, ==_iff, ◌∙◌, ◌↔◌, false, ◌&&◌, Option,
  some, List, [], ◌∷◌, length, ◌==◌, arith,
}
use vulkan_core.Check.{pass, guard, >>=-eq-pass, guard-eq-pass}
use vulkan_core.Transaction.{
  TxIn, TxOut, Transaction, UnspentTransaction, UnspentTransactionIsValid, next_count,
}
use vulkan_core.Transaction.Spend.{
  is_coinbase_tx, Tally, add64, count_txins, count_txouts, do_txins_reference_unspent_txouts,
}
use vulkan_core.Transaction.Spend.Sound.{
  spendable, BringIn, sum, amounts, AddressesOk, record_tally, counted, both, count_txouts→ok,
  ok→count_txouts, count_txins-Counts, spendable→count_found,
}

module _ (index : List ℕ → Option UnspentTransaction)
    (valid : (id : List ℕ) (u : UnspentTransaction)
      → index id ≡ some u
      → UnspentTransactionIsValid u) where
  bring_in→count_txins :
      (n : ℕ) (ts : List TxIn) (ms : List ℕ) (t : Tally)
      → n ≡ length ts
      → t.valid_txins + length ts < 2 ^ 32
      → t.money < 2 ^ 64
      → BringIn index ts ms
      → count_txins index n ts t
        ≡ pass (record {
          valid_txins = t.valid_txins + length ts;
          money = (t.money + sum ms) % 2 ^ 64;
        })
  unfolding count_txins
  bring_in→count_txins zero [] [] t e small low b = ground arith
  bring_in→count_txins zero [] (m ∷ ms) t e small low b = absurd b
  bring_in→count_txins zero (i ∷ is) ms t e small low b = absurd (omega arith)
  bring_in→count_txins (suc n) [] ms t e small low b = absurd (omega arith)
  bring_in→count_txins (suc n) (i ∷ is) [] t e small low b = absurd b
  bring_in→count_txins (suc n) (i ∷ is) (m ∷ ms) t e small low (s, b) =
      rw (spendable→count_found (index i.transaction) i.txout_index t m (valid i.transaction) s) (
        bring_in→count_txins n is ms (counted t m) (omega arith) (omega arith) (omega arith) b
        ∙ ap pass tallies)
    where
      tallies :
          record_tally (next_count t.valid_txins + length is) ((add64 t.money m + sum ms) % 2 ^ 64)
          ≡ record_tally (t.valid_txins + length (i ∷ is)) ((t.money + sum (m ∷ ms)) % 2 ^ 64)
      tallies = ap₂ record_tally (omega arith) (omega arith)

  -- For a transaction that is not a coinbase and whose counts are the lengths of its arrays, over an
  -- index of well-formed entries: `do_txins_reference_unspent_txouts` accepts exactly when every
  -- input names an unspent output of a transaction in the index, every output address is valid for
  -- the network, and the two sums of amounts agree modulo 2 ^ 64.
  pub do_txins_reference_unspent_txouts_iff :
      (testnet : ℕ) (tx : Transaction)
      → is_coinbase_tx tx ≡ false
      → tx.txin_count ≡ length tx.txins
      → tx.txout_count ≡ length tx.txouts
      → tx.txin_count < 2 ^ 32
      → (do_txins_reference_unspent_txouts index testnet tx ≡ pass tt) ↔ (
          (ms : List ℕ) × BringIn index tx.txins ms
          × AddressesOk testnet tx.txouts
          × (sum ms % 2 ^ 64 ≡ sum (amounts tx.txouts) % 2 ^ 64))
  unfolding do_txins_reference_unspent_txouts
  do_txins_reference_unspent_txouts_iff testnet tx regular ti to small = (there, back)
    where
      start : Tally
      start = record_tally 0 0

      there :
          do_txins_reference_unspent_txouts index testnet tx ≡ pass tt
          → (ms : List ℕ) × BringIn index tx.txins ms
            × AddressesOk testnet tx.txouts
            × (sum ms % 2 ^ 64 ≡ sum (amounts tx.txouts) % 2 ^ 64)
      there h =
          let h' = rw regular at h in
          let (t, first, rest) =
            >>=-eq-pass (count_txins index tx.txin_count tx.txins start) _ h' in
          let (r, second, last) =
            >>=-eq-pass (count_txouts testnet tx.txout_count tx.txouts 0) _ rest in
          let (counts, all) =
            count_txins-Counts index tx.txin_count tx.txins start t ti (omega arith) (omega arith)
              first in
          let (ok, total) =
            count_txouts→ok testnet tx.txout_count tx.txouts 0 r to (omega arith) second in
          let (n, m) = both (t.valid_txins == tx.txin_count) _ (guard-eq-pass _ last) in
          let (ms, b, paid) = all (omega (arith, (==_iff _ _).0 n)) in
          (ms, b, ok, omega (arith, (==_iff _ _).0 m))

      back :
          ((ms : List ℕ) × BringIn index tx.txins ms
            × AddressesOk testnet tx.txouts
            × (sum ms % 2 ^ 64 ≡ sum (amounts tx.txouts) % 2 ^ 64))
          → do_txins_reference_unspent_txouts index testnet tx ≡ pass tt
      back (ms, b, ok, eq) =
          rw
            (
              regular,
              bring_in→count_txins tx.txin_count tx.txins ms start ti (omega arith) (omega arith) b,
              ok→count_txouts testnet tx.txout_count tx.txouts 0 to (omega arith) ok,
            )
            (ap guard (
              ap₂ ◌&&◌ ((==_iff (0 + length tx.txins) tx.txin_count).1 (omega arith)) (
                (==_iff ((0 + sum ms) % 2 ^ 64) ((0 + sum (amounts tx.txouts)) % 2 ^ 64)).1
                  (omega arith))))

  -- Over an index of well-formed entries, a transaction may name the same unspent output twice:
  -- with an amount of `m` behind it, outputs with valid addresses that are worth `2 * m` are accepted.
  pub duplicate_input-accepted :
      (testnet m : ℕ) (t : TxIn) (tx_id : List ℕ) (os : List TxOut)
      → spendable index t ≡ some m
      → AddressesOk testnet os
      → sum (amounts os) ≡ 2 * m
      → do_txins_reference_unspent_txouts index testnet (record {
        id = tx_id;
        txin_count = 2;
        txout_count = length os;
        txins = t ∷ t ∷ [];
        txouts = os;
      })
        ≡ pass tt
  duplicate_input-accepted testnet m t tx_id os s ok paid =
      (do_txins_reference_unspent_txouts_iff testnet
          (record {
            id = tx_id;
            txin_count = 2;
            txout_count = length os;
            txins = t ∷ t ∷ [];
            txouts = os;
          })
          (unfold is_coinbase_tx in refl) refl refl (omega arith)).1
        (m ∷ m ∷ [], (s, (s, tt)), ok, omega arith)
