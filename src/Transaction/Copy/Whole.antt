-- ===== src/Transaction/Copy/Whole.antt =====
-- When `copy_transaction` copies.
use vulkan_core.Common.{
  ℕ, zero, suc, ◌+◌, ◌^◌, ◌<◌, ◌≡◌, refl, sym, ap, ◌∙◌, true, false, ◌&&◌, not, some, List, [], ◌∷◌,
  ◌++◌, length, ltb, arith, append-nil, append_assoc, length-append,
}
use vulkan_core.Exec.{error, ok, Exec, ◌>>◌, ◌>>=◌, and_then}
use vulkan_core.Transaction.{
  TxIn, TxOut, Transaction, TransactionIsValid, add_txin_to_transaction, add_txout_to_transaction,
}
use vulkan_core.Transaction.Compare.{
  compare_transaction, compare_txin_iff, compare_txout_iff, compare_transaction_iff,
}
use vulkan_core.Transaction.RoundTrip.{
  with_txins, with_txouts, add_txin-with_txins, add_txout-with_txouts,
}
use vulkan_core.Transaction.Spend.{is_null}
use vulkan_core.Transaction.Copy.{
  free_txins, free_txouts, copy_txin, copy_txout, add_copy, copy_txins, copy_txouts, expect,
  copy_transaction,
}

step :
    {S A B : Type 0} (m : Exec S A) (k : A → Exec S B) (s s' : S) (a : A)
    → m s ≡ ok a s'
    → (m >>= k) s ≡ k a s'
step m k s s' a e = ap (λ r. and_then r k) e

copy_txin_same : (t fresh : TxIn) → copy_txin t fresh ≡ ok tt t
unfolding copy_txin
copy_txin_same t fresh = rw ((compare_txin_iff t t).1 refl)

copy_txout_same : (t fresh : TxOut) → copy_txout t fresh ≡ ok tt t
unfolding copy_txout
copy_txout_same t fresh = rw ((compare_txout_iff t t).1 refl)

copy_txins-all :
    (fresh : TxIn) (other : Transaction) (ts : List TxIn) (n i : ℕ) (xs : List TxIn)
    → n ≡ length ts
    → i ≡ length xs
    → length xs + length ts < 2 ^ 32
    → copy_txins fresh n i ts (with_txins other xs) ≡ ok tt (with_txins other (xs ++ ts))
unfolding copy_txins add_copy with_txins
copy_txins-all fresh other [] zero i xs en ei small =
    ap (λ ys. ok tt (with_txins other ys)) (sym (append-nil xs))
copy_txins-all fresh other [] (suc n) i xs en ei small = absurd (omega arith)
copy_txins-all fresh other (t ∷ ts) zero i xs en ei small = absurd (omega arith)
copy_txins-all fresh other (t ∷ ts) (suc n) i xs en ei small =
    step (add_copy (copy_txin t fresh) (λ c. add_txin_to_transaction c i)) _ (with_txins other xs) _
      tt added
    ∙ copy_txins-all fresh other ts n (i + 1) (xs ++ t ∷ []) (omega arith)
        (omega (arith, length-append xs (t ∷ []))) (omega (arith, length-append xs (t ∷ [])))
    ∙ ap (λ ys. ok tt (with_txins other ys)) (append_assoc xs (t ∷ []) ts)
  where
    added :
        add_copy (copy_txin t fresh) (λ c. add_txin_to_transaction c i) (with_txins other xs)
        ≡ ok tt (with_txins other (xs ++ t ∷ []))
    added = rw (copy_txin_same t fresh, ei, add_txin-with_txins other xs t (omega arith))

copy_txouts-all :
    (fresh : TxOut) (other : Transaction) (ts : List TxOut) (n i : ℕ) (xs : List TxOut)
    → n ≡ length ts
    → i ≡ length xs
    → length xs + length ts < 2 ^ 32
    → copy_txouts fresh n i ts (with_txouts other xs) ≡ ok tt (with_txouts other (xs ++ ts))
unfolding copy_txouts add_copy with_txouts
copy_txouts-all fresh other [] zero i xs en ei small =
    ap (λ ys. ok tt (with_txouts other ys)) (sym (append-nil xs))
copy_txouts-all fresh other [] (suc n) i xs en ei small = absurd (omega arith)
copy_txouts-all fresh other (t ∷ ts) zero i xs en ei small = absurd (omega arith)
copy_txouts-all fresh other (t ∷ ts) (suc n) i xs en ei small =
    step (add_copy (copy_txout t fresh) (λ c. add_txout_to_transaction c i)) _
      (with_txouts other xs) _ tt added
    ∙ copy_txouts-all fresh other ts n (i + 1) (xs ++ t ∷ []) (omega arith)
        (omega (arith, length-append xs (t ∷ []))) (omega (arith, length-append xs (t ∷ [])))
    ∙ ap (λ ys. ok tt (with_txouts other ys)) (append_assoc xs (t ∷ []) ts)
  where
    added :
        add_copy (copy_txout t fresh) (λ c. add_txout_to_transaction c i) (with_txouts other xs)
        ≡ ok tt (with_txouts other (xs ++ t ∷ []))
    added = rw (copy_txout_same t fresh, ei, add_txout-with_txouts other xs t (omega arith))

pub null-empty : {A : Type 0} (xs : List A) → is_null xs ≡ true → xs ≡ []
unfolding is_null
null-empty [] e = refl
null-empty (x ∷ xs) e = cc e

null-length : {A : Type 0} (xs : List A) → is_null xs ≡ false → 0 < length xs
unfolding is_null
null-length [] e = cc e
null-length (x ∷ xs) e = omega arith

free_txins-clears :
    (o : Transaction) → o.txin_count ≡ length o.txins → free_txins o ≡ ok tt (with_txins o [])
unfolding free_txins with_txins
free_txins-clears o e = ground (arith, null-empty o.txins, null-length o.txins)

free_txouts-clears :
    (o : Transaction) → o.txout_count ≡ length o.txouts → free_txouts o ≡ ok tt (with_txouts o [])
unfolding free_txouts with_txouts
free_txouts-clears o e = ground (arith, null-empty o.txouts, null-length o.txouts)

-- The object that is copied to, once its arrays are freed and it has its new id.
abbrev emptied : Transaction → List ℕ → Transaction
emptied o new = record o { id = new; txin_count = 0; txout_count = 0; txins = []; txouts = [] }

module _ (fi : TxIn) (fo : TxOut) (tx : Transaction) (v : TransactionIsValid tx)
    (o : Transaction) where
  arrays-copied :
      (copy_txins fi tx.txin_count 0 tx.txins >> copy_txouts fo tx.txout_count 0 tx.txouts)
        (emptied o tx.id)
      ≡ ok tt tx
  unfolding with_txins with_txouts
  arrays-copied =
      step (copy_txins fi tx.txin_count 0 tx.txins) _ (emptied o tx.id) _ tt (
        copy_txins-all fi (emptied o tx.id) tx.txins tx.txin_count 0 [] v.txin_counted refl
          (omega arith))
      ∙ copy_txouts-all fo (with_txins (emptied o tx.id) tx.txins) tx.txouts tx.txout_count 0 []
          v.txout_counted refl (omega arith)
      ∙ ap (ok tt) rebuilt
    where
      rebuilt : with_txouts (with_txins (emptied o tx.id) tx.txins) tx.txouts ≡ tx
      rebuilt = ground arith

  both_present :
      0 < length tx.txins
      → 0 < length tx.txouts
      → (ltb 0 tx.txin_count
          && not (is_null tx.txins)
          && (ltb 0 tx.txout_count && not (is_null tx.txouts)))
        ≡ true
  both_present pi po =
      ground (arith, v.txin_counted, v.txout_counted, null-empty tx.txins, null-empty tx.txouts)

  none_copied :
      length tx.txins ≡ 0
      → (ltb 0 tx.txin_count
          && not (is_null tx.txins)
          && (ltb 0 tx.txout_count && not (is_null tx.txouts)))
        ≡ false
  none_copied e = ground (arith, v.txin_counted)

compare-itself : (tx : Transaction) → TransactionIsValid tx → compare_transaction tx tx ≡ some true
compare-itself tx v =
    (compare_transaction_iff tx tx v.txin_counted v.txout_counted v.txin_counted v.txout_counted).1
      refl

compare-emptied :
    (tx o : Transaction)
    → TransactionIsValid tx
    → 0 < length tx.txouts
    → compare_transaction tx (emptied o tx.id) ≡ some false
unfolding compare_transaction
compare-emptied tx o v po = ground (arith, v.txout_counted)

-- `copy_transaction` onto a transaction whose counts are right, where the allocator serves its
-- requests. A well-formed transaction with inputs and outputs is copied whole. One without inputs
-- but with outputs, as a generation transaction is, is reported as an error, and the target is left
-- with the id and no outputs.
pub copy_transaction-cases :
    (fi : TxIn) (fo : TxOut) (tx o : Transaction)
    → TransactionIsValid tx
    → o.txin_count ≡ length o.txins
    → o.txout_count ≡ length o.txouts
    → 0 < length tx.txouts
    → (0 < length tx.txins → copy_transaction fi fo tx o ≡ ok tt tx)
      × (length tx.txins ≡ 0 → copy_transaction fi fo tx o ≡ error (emptied o tx.id))
unfolding copy_transaction with_txins with_txouts
copy_transaction-cases fi fo tx o v oi oo po = (whole, refused)
  where
    whole : 0 < length tx.txins → copy_transaction fi fo tx o ≡ ok tt tx
    whole pi =
        step free_txins _ o _ tt (free_txins-clears o oi)
        ∙ step free_txouts _ (with_txins o []) _ tt (free_txouts-clears (with_txins o []) oo)
        ∙ rw (both_present fi fo tx v o pi po) (
            step
              (copy_txins fi tx.txin_count 0 tx.txins >> copy_txouts fo tx.txout_count 0 tx.txouts)
              _ (emptied o tx.id) tx tt (arrays-copied fi fo tx v o)
            ∙ ap (λ r. expect r tx) (compare-itself tx v))

    refused : length tx.txins ≡ 0 → copy_transaction fi fo tx o ≡ error (emptied o tx.id)
    refused none_in =
        step free_txins _ o _ tt (free_txins-clears o oi)
        ∙ step free_txouts _ (with_txins o []) _ tt (free_txouts-clears (with_txins o []) oo)
        ∙ rw (none_copied fi fo tx v o none_in)
            (ap (λ r. expect r (emptied o tx.id)) (compare-emptied tx o v po))
