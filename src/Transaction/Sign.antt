-- ===== src/Transaction/Sign.antt =====
-- Signing and the headers that are signed, of src/core/transaction.c.
use vulkan_core.Common.{
  ℕ, zero, suc, ◌+◌, ◌*◌, ◌-◌, ◌%◌, ◌^◌, ◌≤◌, ◌≡◌, refl, sym, ap, ◌∙◌, Bool, true, false, Option,
  none, some, List, [], ◌∷◌, ◌++◌, map, length, take, drop, leb, arith, length-append, All,
  Bool-cases, inl, inr, take-append, drop-append, length-take, length-drop, drop-drop, leb→le,
}
use vulkan_core.Bytes.{le_bytes}
use vulkan_core.Bytes.Word.{length-le_bytes}
use vulkan_core.Buffer.{store}
use vulkan_core.Transaction.{
  TxIn, TxOut, Transaction, hash_size, address_size, txin_header_size, txout_header_size,
}

-- Sequencing of writes to one block of memory; `none` is a write out of bounds.
infixl 5 ◌>>=◌
abbrev pub ◌>>=◌ {ℓ κ} : {A : Type ℓ} {B : Type κ} → Option A → (A → Option B) → Option B
none >>= f = none
some a >>= f = f a

-- Headers are written into a block that the caller provides, from an offset on. The integers are
-- copied as they stand in the memory of a little-endian machine.
unfoldable pub get_txin_header : List ℕ → TxIn → Option (List ℕ)
get_txin_header header txin = do
  header ← store header 0 txin.transaction
  store header hash_size (le_bytes 4 txin.txout_index)

-- Both copies go to the start of the header.
unfoldable pub get_txout_header : List ℕ → ℕ → TxOut → Option (List ℕ)
get_txout_header header off txout = do
  header ← store header off (le_bytes 8 txout.amount)
  store header off txout.address

unfoldable pub get_tx_header_size : Transaction → ℕ
get_tx_header_size tx =
    (txin_header_size * tx.txin_count % 2 ^ 32 + txout_header_size * tx.txout_count % 2 ^ 32)
    % 2 ^ 32

unfoldable pub get_tx_sign_header_size : Transaction → ℕ
get_tx_sign_header_size tx = txout_header_size * tx.txout_count % 2 ^ 32

-- The loop of `get_tx_sign_header`, at output `i` with `n` left.
unfoldable pub sign_header_loop : ℕ → ℕ → List TxOut → List ℕ → ℕ → Option (List ℕ)
sign_header_loop zero i txouts header off = some header
sign_header_loop (suc n) i [] header off = none
sign_header_loop (suc n) i (t ∷ ts) header off =
    get_txout_header header (off + txout_header_size * i) t >>= λ header'.
    sign_header_loop n (i + 1) ts header' off

unfoldable pub get_tx_sign_header : List ℕ → ℕ → Transaction → Option (List ℕ)
get_tx_sign_header header off tx = sign_header_loop tx.txout_count 0 tx.txouts header off

-- The message of a signature. `stack` is what the array on the stack holds before.
unfoldable pub signed_header : List ℕ → Transaction → TxIn → Option (List ℕ)
signed_header stack tx txin = do
  header ← get_txin_header stack txin
  get_tx_sign_header header txin_header_size tx

-- libsodium's detached signatures.
pub record Signatures : Type 0 where
  pub sign : List ℕ → List ℕ → List ℕ
  pub verify : List ℕ → List ℕ → List ℕ → Bool

module _ (s : Signatures) where
  -- `sign_txin`: the input with its signature and public key.
  unfoldable pub sign_txin : List ℕ → TxIn → Transaction → List ℕ → List ℕ → Option TxIn
  sign_txin stack txin tx key secret = signed_header stack tx txin >>= λ header.
      some (record txin { signature = s.sign header secret; public_key = key })

  -- `validate_txin_signature`: whether the signature verifies.
  unfoldable pub validate_txin_signature : List ℕ → Transaction → TxIn → Option Bool
  validate_txin_signature stack tx txin = signed_header stack tx txin >>= λ header.
      some (s.verify txin.signature header txin.public_key)

-- The same output with another amount, and a transaction with all its amounts changed.
abbrev pub with_amount : (TxOut → ℕ) → TxOut → TxOut
with_amount f t = record t { amount = f t }

abbrev pub reprice : (TxOut → ℕ) → Transaction → Transaction
reprice f tx = record tx { txouts = map (with_amount f) tx.txouts }

abbrev written : List ℕ → ℕ → List ℕ → List ℕ
written h off a = take off h ++ (a ++ drop (off + length a) h)

take-prefix : (n : ℕ) (p q : List ℕ) → length p ≡ n → take n (p ++ q) ≡ p
take-prefix n p q e = rw (← e) (take-append p q)

drop-prefix : (n m : ℕ) (p q : List ℕ) → length p + m ≡ n → drop n (p ++ q) ≡ drop m q
drop-prefix n m p q e =
    sym (drop-drop m (length p) n (p ++ q) (sym e)) ∙ ap (drop m) (drop-append p q)

module _ (h a b : List ℕ) (off : ℕ) (le : length a ≤ length b)
    (fits : off + length a ≤ length h) where
  length-front : length (take off h) ≡ off
  length-front = omega (arith, length-take off h)

  length-written : length (written h off a) ≡ length h
  length-written = omega (
    arith,
    length-append (take off h) (a ++ drop (off + length a) h),
    length-append a (drop (off + length a) h),
    length-take off h,
    length-drop (off + length a) h,
  )

  drop-written : drop (off + length b) (written h off a) ≡ drop (off + length b) h
  drop-written =
      drop-prefix (off + length b) (length b) (take off h) (a ++ drop (off + length a) h)
        (omega (arith, length-front))
      ∙ drop-prefix (length b) (length b - length a) a (drop (off + length a) h) (omega arith)
      ∙ drop-drop (length b - length a) (off + length a) (off + length b) h (omega arith)

  -- The second copy covers the first.
  rewritten : store (written h off a) off b ≡ store h off b
  unfolding store
  rewritten = rw (
    length-written,
    take-prefix off (take off h) (a ++ drop (off + length a) h) length-front,
    drop-written,
  )

no_room : (h a : List ℕ) (off : ℕ) → leb (off + length a) (length h) ≡ false → store h off a ≡ none
unfolding store
no_room h a off e = rw e

room :
    (h a : List ℕ) (off : ℕ)
    → leb (off + length a) (length h) ≡ true
    → store h off a ≡ some (written h off a)
unfolding store
room h a off e = rw e

store-store :
    (h a b : List ℕ) (off : ℕ)
    → length a ≤ length b
    → (store h off a >>= λ h'. store h' off b) ≡ store h off b
store-store h a b off le = elim (Bool-cases (leb (off + length a) (length h))) [
  | inl e ↦ rw (room h a off e) (rewritten h a b off le (leb→le _ _ e))
  | inr e ↦ rw (no_room h a off e, no_room h b off (ground arith))
]

-- The header of an output that is signed does not depend on the amount.
get_txout_header-amount :
    (header : List ℕ) (off n : ℕ) (t : TxOut)
    → 8 ≤ length t.address
    → get_txout_header header off (record t { amount = n }) ≡ get_txout_header header off t
unfolding get_txout_header
get_txout_header-amount header off n t long =
    store-store header (le_bytes 8 n) t.address off (omega (arith, length-le_bytes 8 n))
    ∙ sym (
        store-store header (le_bytes 8 t.amount) t.address off
          (omega (arith, length-le_bytes 8 t.amount)))

>>=-ext :
    {A B : Type 0} (m : Option A) {f g : A → Option B}
    → ((a : A) → f a ≡ g a)
    → (m >>= f) ≡ (m >>= g)
>>=-ext none e = refl
>>=-ext (some a) e = e a

sign_header_loop-amounts :
    (f : TxOut → ℕ) (n i : ℕ) (ts : List TxOut) (header : List ℕ) (off : ℕ)
    → All (λ t. length t.address ≡ address_size) ts
    → sign_header_loop n i (map (with_amount f) ts) header off ≡ sign_header_loop n i ts header off
unfolding sign_header_loop
sign_header_loop-amounts f zero i ts header off long = refl
sign_header_loop-amounts f (suc n) i [] header off long = refl
sign_header_loop-amounts f (suc n) i (t ∷ ts) header off long =
    rw (get_txout_header-amount header (off + txout_header_size * i) (f t) t (omega arith)) (
      >>=-ext (get_txout_header header (off + txout_header_size * i) t)
        (λ header'. sign_header_loop-amounts f n (i + 1) ts header' off long.1))

-- The signed message and the verdict on a signature say nothing of the amounts: for outputs whose
-- addresses have their declared size, changing every amount of a transaction changes neither what
-- `sign_txin` makes of an input nor what `validate_txin_signature` answers, whatever the signature
-- scheme does.
pub signature-ignores_amounts :
    (s : Signatures) (stack : List ℕ) (f : TxOut → ℕ) (tx : Transaction) (txin : TxIn)
    (key secret : List ℕ)
    → All (λ t. length t.address ≡ address_size) tx.txouts
    → (sign_txin s stack txin (reprice f tx) key secret ≡ sign_txin s stack txin tx key secret)
      × (validate_txin_signature s stack (reprice f tx) txin
          ≡ validate_txin_signature s stack tx txin)
unfolding sign_txin validate_txin_signature
signature-ignores_amounts s stack f tx txin key secret long = (rw message, rw message)
  where
    message : signed_header stack (reprice f tx) txin ≡ signed_header stack tx txin
    message =
        unfold signed_header get_tx_sign_header in
        >>=-ext (get_txin_header stack txin) (λ header.
          sign_header_loop-amounts f tx.txout_count 0 tx.txouts header txin_header_size long)
