-- ===== src/Transaction/Compare.antt =====
-- The comparisons of src/core/transaction.c.
use vulkan_core.Common.{
  ℕ, zero, suc, ◌≡◌, refl, ap, ◌↔◌, Bool, true, false, ◌&&◌, Option, none, some, List, [], ◌∷◌, map,
  length, ◌==◌, if◌then◌else◌, arith, same_bytes_refl, same_bytes_iff,
}
use vulkan_core.Crypto.{compare_hash, compare_address, compare_signature, compare_public_key}
use vulkan_core.Transaction.{TxIn, TxOut, Transaction}

unfoldable pub compare_txin : TxIn → TxIn → Bool
compare_txin t u =
    compare_hash t.transaction u.transaction
    && (t.txout_index == u.txout_index
        && (compare_signature t.signature u.signature
            && compare_public_key t.public_key u.public_key))

unfoldable pub compare_txout : TxOut → TxOut → Bool
compare_txout t u = t.amount == u.amount && compare_address t.address u.address

-- The loop over two arrays at once, up to the count of the first; past an end is a fault.
unfoldable pub compare_each {ℓ} : {A : Type ℓ} → (A → A → Bool) → ℕ → List A → List A → Option Bool
compare_each same zero xs ys = some true
compare_each same (suc n) [] ys = none
compare_each same (suc n) (x ∷ xs) [] = none
compare_each same (suc n) (x ∷ xs) (y ∷ ys) =
    let rest = compare_each same n xs ys in if same x y then rest else some false

unfoldable pub compare_transaction_txins : Transaction → Transaction → Option Bool
compare_transaction_txins t u = compare_each compare_txin t.txin_count t.txins u.txins

unfoldable pub compare_transaction_txouts : Transaction → Transaction → Option Bool
compare_transaction_txouts t u = compare_each compare_txout t.txout_count t.txouts u.txouts

-- `&&` of C on results that may fault.
abbrev pub and_also : Option Bool → Option Bool → Option Bool
and_also none m = none
and_also (some false) m = some false
and_also (some true) m = m

unfoldable pub compare_transaction : Transaction → Transaction → Option Bool
compare_transaction t u =
    and_also (some result)
      (and_also (compare_transaction_txins t u) (compare_transaction_txouts t u))
  where
    result : Bool
    result =
        compare_hash t.id u.id && (t.txin_count == u.txin_count && t.txout_count == u.txout_count)

-- A transaction with its public keys taken away.
abbrev pub without_key : TxIn → TxIn
without_key t = record t { public_key = [] }

abbrev pub without_keys : Transaction → Transaction
without_keys t = record t { txins = map without_key t.txins }

pub compare_txin_iff : (t u : TxIn) → (compare_txin t u ≡ true) ↔ (without_key t ≡ without_key u)
unfolding compare_txin
compare_txin_iff t u = (there, back)
  where
    there : compare_txin t u ≡ true → without_key t ≡ without_key u
    there h =
        ground (
          arith,
          same_bytes_iff t.transaction u.transaction,
          same_bytes_iff t.signature u.signature,
        )

    back : without_key t ≡ without_key u → compare_txin t u ≡ true
    back e = ground (
      arith,
      ap (λ (x : TxIn). x.transaction) e,
      ap (λ (x : TxIn). x.txout_index) e,
      ap (λ (x : TxIn). x.signature) e,
      same_bytes_refl t.transaction,
      same_bytes_refl t.signature,
      same_bytes_refl t.public_key,
    )

pub compare_txout_iff : (t u : TxOut) → (compare_txout t u ≡ true) ↔ (t ≡ u)
unfolding compare_txout
compare_txout_iff t u = (
  λ h. ground (arith, same_bytes_iff t.address u.address),
  λ e. rw e (ground (arith, same_bytes_refl u.address)),
)

module _ {A B : Type 0} (same : A → A → Bool) (key : A → B)
    (decides : (x y : A) → (same x y ≡ true) ↔ (key x ≡ key y)) where
  compare_each→eq :
      (n : ℕ) (xs ys : List A)
      → n ≡ length xs
      → n ≡ length ys
      → compare_each same n xs ys ≡ some true
      → map key xs ≡ map key ys
  unfolding compare_each
  compare_each→eq zero [] [] e f h = refl
  compare_each→eq zero (x ∷ xs) ys e f h = absurd (omega arith)
  compare_each→eq zero [] (y ∷ ys) e f h = absurd (omega arith)
  compare_each→eq (suc n) [] ys e f h = absurd (omega arith)
  compare_each→eq (suc n) (x ∷ xs) [] e f h = absurd (omega arith)
  compare_each→eq (suc n) (x ∷ xs) (y ∷ ys) e f h =
      ground (arith, decides x y, compare_each→eq n xs ys (omega arith) (omega arith))

  eq→compare_each :
      (n : ℕ) (xs ys : List A)
      → n ≡ length xs
      → n ≡ length ys
      → map key xs ≡ map key ys
      → compare_each same n xs ys ≡ some true
  unfolding compare_each
  eq→compare_each zero xs ys e f h = refl
  eq→compare_each (suc n) [] ys e f h = absurd (omega arith)
  eq→compare_each (suc n) (x ∷ xs) [] e f h = absurd (omega arith)
  eq→compare_each (suc n) (x ∷ xs) (y ∷ ys) e f h =
      ground (arith, decides x y, eq→compare_each n xs ys (omega arith) (omega arith))

abbrev itself : TxOut → TxOut
itself t = t

map-itself : (ts : List TxOut) → map itself ts ≡ ts
map-itself [] = refl
map-itself (t ∷ ts) = ap (λ us. t ∷ us) (map-itself ts)

-- Two transactions whose counts are the lengths of their arrays compare as equal exactly when they
-- are equal in all but the public keys of their inputs: the keys are never compared with each other.
pub compare_transaction_iff :
    (t u : Transaction)
    → t.txin_count ≡ length t.txins
    → t.txout_count ≡ length t.txouts
    → u.txin_count ≡ length u.txins
    → u.txout_count ≡ length u.txouts
    → (compare_transaction t u ≡ some true) ↔ (without_keys t ≡ without_keys u)
unfolding compare_transaction compare_transaction_txins compare_transaction_txouts
compare_transaction_iff t u ti to ui uo = (there, back)
  where
    there : compare_transaction t u ≡ some true → without_keys t ≡ without_keys u
    there h = ground (
      arith,
      same_bytes_iff t.id u.id,
      compare_each→eq compare_txin without_key compare_txin_iff t.txin_count t.txins u.txins,
      compare_each→eq compare_txout itself compare_txout_iff t.txout_count t.txouts u.txouts,
      map-itself t.txouts,
      map-itself u.txouts,
    )

    back : without_keys t ≡ without_keys u → compare_transaction t u ≡ some true
    back e = ground (
      arith,
      ap (λ (x : Transaction). x.id) e,
      ap (λ (x : Transaction). x.txin_count) e,
      ap (λ (x : Transaction). x.txout_count) e,
      ap (λ (x : Transaction). x.txins) e,
      ap (λ (x : Transaction). map itself x.txouts) e,
      same_bytes_refl t.id,
      eq→compare_each compare_txin without_key compare_txin_iff t.txin_count t.txins u.txins,
      eq→compare_each compare_txout itself compare_txout_iff t.txout_count t.txouts u.txouts,
    )
