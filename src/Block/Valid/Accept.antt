-- ===== src/Block/Valid/Accept.antt =====
-- The acceptance condition of `valid_block`.
use vulkan_core.Common.{
  ℕ, zero, suc, ◌<◌, ◌≡◌, ◌≢◌, ap, subst, ◌↔◌, true, not, some, List, [], ◌∷◌, length, get_elem?,
  arith, ltb, ◌==◌, same_bytes_iff, All, le→ltb_false, ◌&&◌,
}
use mathlib.Core.Option.{some-injective}
use vulkan_core.Check.{Check, crash, reject, pass, ◌>>=◌, ◌>>◌, guard, guard-eq-pass}
use vulkan_core.Crypto.{compare_hash}
use vulkan_core.Transaction.{Transaction, TransactionIsValid}
use vulkan_core.Transaction.Spend.{is_coinbase_tx}
use vulkan_core.Pow.{check_proof_of_work}
use vulkan_core.Block.{
  Block, BlockIsValid, valid_block_timestamp, get_block_header_size, max_block_size,
}
use vulkan_core.Block.Hash.{compute_block_hash, compute_merkle_root, valid_merkle_root}
use vulkan_core.Block.Valid.{
  Node, check_each, check_pair, check_transaction, valid_tx, valid_block_hash, valid_block,
}
use vulkan_core.Block.Valid.Loops.{>>-iff, access->>=_iff, check_all_iff}
use vulkan_core.Block.Valid.Sound.{Apart, Acceptable, check_pair_iff}

All-get :
    {A : Type 0} (P : A → Type 0) (xs : List A) (i : ℕ) (x : A)
    → All P xs
    → get_elem? xs i ≡ some x
    → P x
All-get P [] i x ps g = cc g
All-get P (y ∷ xs) zero x ps g = subst P (some-injective y x g) ps.0
All-get P (y ∷ xs) (suc i) x ps g = All-get P xs i x ps.1 g

-- A hash is computed and is the one that is stored.
checked_hash :
    (m : Check (List ℕ)) (own : List ℕ) (k : Check (Unit {0}))
    → ((m >>= λ found. guard (compare_hash found own) >> k) ≡ pass tt)
      ↔ ((m ≡ pass own) × (k ≡ pass tt))
checked_hash crash own k = (λ h. cc, λ h. cc (h.0))
checked_hash reject own k = (λ h. cc, λ h. cc (h.0))
checked_hash (pass found) own k = (
  λ h.
      let parts = (>>-iff (guard (compare_hash found own)) k).0 h in
      (ap pass ((same_bytes_iff found own).0 (guard-eq-pass _ parts.0)), parts.1),
  λ h.
      (>>-iff (guard (compare_hash found own)) k).1
        (ap guard ((same_bytes_iff found own).1 (cc (h.0))), h.1),
)

checked_root :
    (m : Check (List ℕ)) (own : List ℕ)
    → ((m >>= λ root. guard (compare_hash root own)) ≡ pass tt) ↔ (m ≡ pass own)
checked_root crash own = (λ h. cc, λ h. cc)
checked_root reject own = (λ h. cc, λ h. cc)
checked_root (pass root) own = (
  λ h. ap pass ((same_bytes_iff root own).0 (guard-eq-pass _ h)),
  λ h. ap guard ((same_bytes_iff root own).1 (cc h)),
)

nonempty : (ts : List Transaction) (t : Transaction) → get_elem? ts 0 ≡ some t → 0 < length ts
nonempty [] t g = cc g
nonempty (u ∷ ts) t g = omega arith

module _ (e : Node) (b : Block) (v : BlockIsValid b) where
  well_formed :
      (i : ℕ) (t : Transaction) → get_elem? b.transactions i ≡ some t → TransactionIsValid t
  well_formed i t g = All-get TransactionIsValid b.transactions i t v.transactions_valid g

  check_transaction_iff :
      (i : ℕ) (t : Transaction)
      → get_elem? b.transactions i ≡ some t
      → (check_transaction e b i t ≡ pass tt) ↔ (
          (valid_tx e t ≡ pass tt)
          × (is_coinbase_tx t ≡ true → i ≡ 0)
          × ((j : ℕ) (u : Transaction) → get_elem? b.transactions j ≡ some u → i ≢ j → Apart t u))
  unfolding check_transaction
  check_transaction_iff i t g = (
    λ h.
        let one = (>>-iff (valid_tx e t) _).0 h in
        let two = (>>-iff (guard (not (not (i == 0) && is_coinbase_tx t))) _).0 one.1 in
        (
          one.0,
          (first_only).0 two.0,
          λ j u gu.
              (check_pair_iff i j t u (well_formed i t g) (well_formed j u gu)).0
                (loop.0 two.1 j u gu),
        ),
    λ h. (>>-iff (valid_tx e t) _).1 (
      h.0,
      (>>-iff (guard (not (not (i == 0) && is_coinbase_tx t))) _).1 (
        first_only.1 h.1,
        loop.1 (λ j u gu.
            (check_pair_iff i j t u (well_formed i t g) (well_formed j u gu)).1 (h.2 j u gu)),
      ),
    ),
  )
    where
      first_only :
          (guard (not (not (i == 0) && is_coinbase_tx t)) ≡ pass tt)
          ↔ (is_coinbase_tx t ≡ true → i ≡ 0)
      first_only = (λ h. λ c. ground arith, λ h. ground arith)

      loop : (check_each b.transaction_count 0 b.transactions (check_pair i t) ≡ pass tt) ↔ (
          (j : ℕ) (u : Transaction)
          → get_elem? b.transactions j ≡ some u
          → check_pair i t j u ≡ pass tt)
      loop = check_all_iff (check_pair i t) b.transaction_count b.transactions v.counted

  transactions_checked :
      (check_each b.transaction_count 0 b.transactions (check_transaction e b) ≡ pass tt) ↔ (
        (i : ℕ) (t : Transaction)
        → get_elem? b.transactions i ≡ some t
        → check_transaction e b i t ≡ pass tt)
  transactions_checked =
      check_all_iff (check_transaction e b) b.transaction_count b.transactions v.counted

  hash_checked : (valid_block_hash e b ≡ pass tt) ↔ (
      (compute_block_hash e.heap e.digest b ≡ pass b.hash)
      × (check_proof_of_work e.numbers b.hash b.bits ≡ pass tt))
  unfolding valid_block_hash
  hash_checked = checked_hash (compute_block_hash e.heap e.digest b) b.hash _

  root_checked :
      (valid_merkle_root e.heap e.digest b ≡ pass tt)
      ↔ (compute_merkle_root e.heap e.digest b ≡ pass b.merkle_root)
  unfolding valid_merkle_root
  root_checked = checked_root (compute_merkle_root e.heap e.digest b) b.merkle_root

-- For a block whose counts, sizes and widths are those of its C structs, `valid_block` accepts it
-- exactly when: its timestamp is in time; its first transaction is a generation transaction and no
-- other one is; every transaction passes `valid_transaction`; any two transactions at different
-- places have different ids and spend no output in common; the header size that is computed is
-- within the limit; the hash is the one that is computed, and meets the proof of work; and the Merkle
-- root is the one that is computed.
pub valid_block_iff :
    (e : Node) (b : Block) → BlockIsValid b → (valid_block e b ≡ pass tt) ↔ Acceptable e b
unfolding valid_block
valid_block_iff e b v = (there, back)
  where
    there : valid_block e b ≡ pass tt → Acceptable e b
    there h =
        let one = (>>-iff (guard (valid_block_timestamp e.now b)) _).0 h in
        let two = (>>-iff (guard (not (ltb b.transaction_count 1))) _).0 one.1 in
        let three = (access->>=_iff (get_elem? b.transactions 0) _).0 two.1 in
        let four = (>>-iff (guard (is_coinbase_tx three.0)) _).0 three.2 in
        let five =
          (>>-iff (check_each b.transaction_count 0 b.transactions (check_transaction e b)) _).0
            four.1 in
        let six = (access->>=_iff (get_block_header_size b) _).0 five.1 in
        let seven = (>>-iff (guard (not (ltb max_block_size six.0))) _).0 six.2 in
        let eight = (>>-iff (valid_block_hash e b) _).0 seven.1 in
        let every = (transactions_checked e b v).0 five.0 in
        record {
          timely = guard-eq-pass _ one.0;
          headed = (three.0, three.1, guard-eq-pass _ four.0);
          each_valid = λ i t g. ((check_transaction_iff e b v i t g).0 (every i t g)).0;
          one_coinbase = λ i t g. ((check_transaction_iff e b v i t g).0 (every i t g)).1;
          all_apart =
              λ i j t u g gu. ((check_transaction_iff e b v i t g).0 (every i t g)).2 j u gu;
          sized = (six.0, six.1, ground (arith, seven.0));
          hashed = ((hash_checked e b v).0 eight.0).0;
          worked = ((hash_checked e b v).0 eight.0).1;
          rooted = (root_checked e b v).0 eight.1;
        }

    back : Acceptable e b → valid_block e b ≡ pass tt
    back a =
        let counted = nonempty b.transactions a.headed.0 a.headed.1 in
        (>>-iff (guard (valid_block_timestamp e.now b)) _).1 (
          ap guard a.timely,
          (>>-iff (guard (not (ltb b.transaction_count 1))) _).1 (
            ap (λ c. guard (not c)) (le→ltb_false b.transaction_count 1 (omega (arith, v.counted))),
            (access->>=_iff (get_elem? b.transactions 0) _).1 (
              a.headed.0,
              a.headed.1,
              (>>-iff (guard (is_coinbase_tx a.headed.0)) _).1 (
                ap guard a.headed.2,
                (>>-iff (check_each b.transaction_count 0 b.transactions (check_transaction e b))
                      _).1
                    (
                      (transactions_checked e b v).1 (λ i t g.
                          (check_transaction_iff e b v i t g).1 (
                            a.each_valid i t g,
                            a.one_coinbase i t g,
                            λ j u gu. a.all_apart i j t u g gu,
                          )),
                      (access->>=_iff (get_block_header_size b) _).1 (
                        a.sized.0,
                        a.sized.1,
                        (>>-iff (guard (not (ltb max_block_size a.sized.0))) _).1 (
                          ap (λ c. guard (not c)) (le→ltb_false max_block_size a.sized.0 a.sized.2),
                          (>>-iff (valid_block_hash e b) _).1 (
                            (hash_checked e b v).1 (a.hashed, a.worked),
                            (root_checked e b v).1 a.rooted,
                          ),
                        ),
                      ),
                    ),
              ),
            ),
          ),
        )
