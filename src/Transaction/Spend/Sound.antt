-- ===== src/Transaction/Spend/Sound.antt =====
-- The loops of `do_txins_reference_unspent_txouts` over inputs and outputs.
use vulkan_core.Common.{
  ℕ, zero, suc, ◌+◌, ◌-◌, ◌%◌, ◌^◌, ◌≤◌, ◌<◌, ◌≡◌, refl, le→ltb_false, ◌⊎◌, Bool, true, false, ◌&&◌,
  Option, none, some, List, [], ◌∷◌, length, get_elem?, ltb, ◌==◌, if◌then◌else◌, arith, Bool-cases,
  inl, inr,
}
use vulkan_core.Check.{pass, >>=-eq-pass}
use vulkan_core.Transaction.{
  TxIn, TxOut, UnspentTxOut, UnspentTransaction, UnspentTransactionIsValid, next_count,
}
use vulkan_core.Transaction.Spend.{
  valid_address, Tally, add64, count_output, count_txin, count_found, count_txins, count_txouts,
}

-- The amount of an output that is there and not spent.
unfoldable pub unspent_amount : Option UnspentTxOut → Option ℕ
unspent_amount none = none
unspent_amount (some o) = if o.spent == 0 then some o.amount else none

-- The amount that an input brings in: its transaction is in the index, and the output that it
-- names exists and is not spent.
unfoldable pub spendable_in : Option UnspentTransaction → ℕ → Option ℕ
unfolding unspent_amount
spendable_in none i = none
spendable_in (some u) i = unspent_amount (get_elem? u.unspent_txouts i)

module _ (index : List ℕ → Option UnspentTransaction) where
  abbrev pub spendable : TxIn → Option ℕ
  spendable t = spendable_in (index t.transaction) t.txout_index

  -- Every input brings in an amount, and they are `ms`.
  abbrev pub BringIn : List TxIn → List ℕ → Type 0
  BringIn [] [] = Unit
  BringIn [] (m ∷ ms) = ⊥
  BringIn (t ∷ ts) [] = ⊥
  BringIn (t ∷ ts) (m ∷ ms) = (spendable t ≡ some m) × BringIn ts ms

abbrev pub sum : List ℕ → ℕ
sum [] = 0
sum (m ∷ ms) = m + sum ms

abbrev pub amounts : List TxOut → List ℕ
amounts [] = []
amounts (o ∷ os) = o.amount ∷ amounts os

abbrev pub AddressesOk : ℕ → List TxOut → Type 0
AddressesOk testnet [] = Unit
AddressesOk testnet (o ∷ os) = (valid_address testnet o.address ≡ true) × AddressesOk testnet os

-- The outputs.
pub count_txouts→ok :
    (testnet n : ℕ) (os : List TxOut) (money r : ℕ)
    → n ≡ length os
    → money < 2 ^ 64
    → count_txouts testnet n os money ≡ pass r
    → AddressesOk testnet os × (r ≡ (money + sum (amounts os)) % 2 ^ 64)
unfolding count_txouts
count_txouts→ok testnet zero [] money r e small h = (tt, ground arith)
count_txouts→ok testnet zero (o ∷ os) money r e small h = absurd (omega arith)
count_txouts→ok testnet (suc n) [] money r e small h = absurd (omega arith)
count_txouts→ok testnet (suc n) (o ∷ os) money r e small h =
    ground
      (arith, count_txouts→ok testnet n os (add64 money o.amount) r (omega arith) (omega arith))

pub ok→count_txouts :
    (testnet n : ℕ) (os : List TxOut) (money : ℕ)
    → n ≡ length os
    → money < 2 ^ 64
    → AddressesOk testnet os
    → count_txouts testnet n os money ≡ pass ((money + sum (amounts os)) % 2 ^ 64)
unfolding count_txouts
ok→count_txouts testnet zero [] money e small h = ground arith
ok→count_txouts testnet zero (o ∷ os) money e small h = absurd (omega arith)
ok→count_txouts testnet (suc n) [] money e small h = absurd (omega arith)
ok→count_txouts testnet (suc n) (o ∷ os) money e small h =
    ground (arith, ok→count_txouts testnet n os (add64 money o.amount) (omega arith) (omega arith))

abbrev pub record_tally : ℕ → ℕ → Tally
record_tally n m = record { valid_txins = n; money = m }

abbrev pub counted : Tally → ℕ → Tally
counted t m = record { valid_txins = next_count t.valid_txins; money = add64 t.money m }

-- One round over the inputs counts the input with its amount, or passes it over.
count_output-cases :
    (o : Option UnspentTxOut) (t t' : Tally)
    → count_output o t ≡ pass t'
    → ((m : ℕ) × (unspent_amount o ≡ some m) × (t' ≡ counted t m)) ⊎ (t' ≡ t)
unfolding count_output unspent_amount
count_output-cases none t t' h = cc
count_output-cases (some o) t t' h = elim (Bool-cases (o.spent == 0)) [
  | inl e ↦ inl (o.amount, ground arith, ground arith)
  | inr e ↦ inr (ground arith)
]

count_txin-output :
    (u : UnspentTransaction) (i : ℕ) (t t' : Tally)
    → count_txin u i t ≡ pass t'
    → count_output (get_elem? u.unspent_txouts i) t ≡ pass t'
unfolding count_txin
count_txin-output u i t t' h = ground arith

count_found-cases :
    (o : Option UnspentTransaction) (i : ℕ) (t t' : Tally)
    → count_found o i t ≡ pass t'
    → ((m : ℕ) × (spendable_in o i ≡ some m) × (t' ≡ counted t m)) ⊎ (t' ≡ t)
unfolding count_found spendable_in
count_found-cases none i t t' h = inr (ground arith)
count_found-cases (some u) i t t' h =
    count_output-cases (get_elem? u.unspent_txouts i) t t' (count_txin-output u i t t' h)

module _ (index : List ℕ → Option UnspentTransaction) where
  -- From a tally `t`, the inputs `ts` lead to `t'`: no more inputs are counted than there are, and
  -- where all are counted each brings in its amount.
  abbrev Counts : List TxIn → Tally → Tally → Type 0
  Counts ts t t' =
      (t'.valid_txins ≤ t.valid_txins + length ts)
      × (t'.valid_txins ≡ t.valid_txins + length ts
          → (ms : List ℕ) × BringIn index ts ms × (t'.money ≡ (t.money + sum ms) % 2 ^ 64))

  Counts-counted :
      (i : TxIn) (is : List TxIn) (t t' : Tally) (m : ℕ)
      → t.valid_txins + length (i ∷ is) < 2 ^ 32
      → spendable index i ≡ some m
      → Counts is (counted t m) t'
      → Counts (i ∷ is) t t'
  Counts-counted i is t t' m small s (bound, all) =
      (omega arith, λ e. let (ms, b, r) = all (omega arith) in (m ∷ ms, (s, b), omega arith))

  Counts-passed : (i : TxIn) (is : List TxIn) (t t' : Tally) → Counts is t t' → Counts (i ∷ is) t t'
  Counts-passed i is t t' (bound, all) = (omega arith, λ e. absurd (omega arith))

  pub count_txins-Counts :
      (n : ℕ) (ts : List TxIn) (t t' : Tally)
      → n ≡ length ts
      → t.valid_txins + length ts < 2 ^ 32
      → t.money < 2 ^ 64
      → count_txins index n ts t ≡ pass t'
      → Counts ts t t'
  unfolding count_txins
  count_txins-Counts zero [] t t' e small low h = (ground arith, λ _. ([], tt, ground arith))
  count_txins-Counts zero (i ∷ is) t t' e small low h = absurd (omega arith)
  count_txins-Counts (suc n) [] t t' e small low h = absurd (omega arith)
  count_txins-Counts (suc n) (i ∷ is) t t' e small low h =
      let (t₁, first, rest) = >>=-eq-pass (count_found (index i.transaction) i.txout_index t) _ h in
      elim (count_found-cases (index i.transaction) i.txout_index t t₁ first) [
        | inl (m, s, eq) ↦ Counts-counted i is t t' m small s (
            count_txins-Counts n is (counted t m) t' (omega arith) (omega arith) (omega arith)
              (rw eq at rest))
        | inr eq ↦
            Counts-passed i is t t'
              (count_txins-Counts n is t t' (omega arith) (omega arith) low (rw eq at rest))
      ]

pub both : (a b : Bool) → (a && b) ≡ true → (a ≡ true) × (b ≡ true)
both true b h = (refl, h)
both false b h = cc

get_elem?-lt :
    (os : List UnspentTxOut) (k m : ℕ) → unspent_amount (get_elem? os k) ≡ some m → k < length os
unfolding unspent_amount
get_elem?-lt [] k m h = cc
get_elem?-lt (o ∷ os) zero m h = omega arith
get_elem?-lt (o ∷ os) (suc k) m h = omega (arith, get_elem?-lt os k m h)

unspent→count_output :
    (o : Option UnspentTxOut) (t : Tally) (m : ℕ)
    → unspent_amount o ≡ some m
    → count_output o t ≡ pass (counted t m)
unfolding unspent_amount count_output
unspent→count_output none t m h = cc
unspent→count_output (some o) t m h = ground arith

pub spendable→count_found :
    (o : Option UnspentTransaction) (i : ℕ) (t : Tally) (m : ℕ)
    → ((u : UnspentTransaction) → o ≡ some u → UnspentTransactionIsValid u)
    → spendable_in o i ≡ some m
    → count_found o i t ≡ pass (counted t m)
unfolding spendable_in count_found count_txin
spendable→count_found none i t m valid h = cc
spendable→count_found (some u) i t m valid h =
    rw (in_range, count_txin) (unspent→count_output (get_elem? u.unspent_txouts i) t m h)
  where
    in_range : ltb ((2 ^ 32 + u.unspent_txout_count - 1) % 2 ^ 32) i ≡ false
    in_range =
        let v : UnspentTransactionIsValid u = valid u refl in
        le→ltb_false _ _ (omega (arith, get_elem?-lt u.unspent_txouts i m h))
