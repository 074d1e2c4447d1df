-- ===== src/Mempool.antt =====
-- src/core/mempool.c: the transactions that wait for a block.
pub mod Invariant
pub mod Flush
pub mod Runs
pub mod Expiry
pub mod Fill
pub mod Tests
use vulkan_core.Common.{
  ℕ, zero, suc, ◌+◌, ◌*◌, ◌-◌, ◌%◌, ◌^◌, ◌≡◌, ◌≤◌, ◌<◌, Bool, true, false, Option, none, some, List,
  [], ◌∷◌, ◌++◌, length, leb, ltb, ◌==◌, if◌then◌else◌,
}
use vulkan_core.Exec.{Outcome, ok, error, fault, Exec, Action, done, stop, fail, ◌>>=◌, ◌>>◌}
use vulkan_core.Check.{Check, crash, reject, pass}
use vulkan_core.Crypto.{compare_hash}
use vulkan_core.Transaction.{Transaction}
use vulkan_core.Transaction.Spend.{is_coinbase_tx}
use vulkan_core.Block.{Block}

-- `mempool_entry_t`, with the address that it stands at.
pub record Entry : Type 0 where
  pub address : ℕ
  pub tx : Transaction
  pub received_ts : ℕ

-- The arrays of collections-c over entries; `none` is a status other than `CC_OK`, and `elements` is
-- what `ARRAY_FOREACH` visits, in order.
pub record Arrays : Type 1 where
  pub Array : Type 0
  pub array_new : Array
  pub array_add : Entry → Array → Option Array
  pub array_remove : Entry → Array → Option Array
  pub array_remove_at : ℕ → Array → Option (Entry × Array)
  pub elements : Array → List Entry

-- A list without the first entry at an address.
unfoldable pub erase : ℕ → List Entry → List Entry
erase p [] = []
erase p (e ∷ es) = let rest = erase p es in if e.address == p then es else e ∷ rest

unfoldable pub stands_in : ℕ → List Entry → Bool
stands_in p [] = false
stands_in p (e ∷ es) = let rest = stands_in p es in if e.address == p then true else rest

-- What the documentation of collections-c says of the calls that succeed: an element is added at the
-- end, removed at its first place, or removed at index 0; what stands in an array can be removed.
pub record ArraysLaws (a : Arrays) : Type 0 where
  pub new_elements : a.elements a.array_new ≡ []
  pub add_elements :
      (e : Entry) (xs ys : a.Array)
      → a.array_add e xs ≡ some ys
      → a.elements ys ≡ a.elements xs ++ e ∷ []
  pub remove_elements :
      (e : Entry) (xs ys : a.Array)
      → a.array_remove e xs ≡ some ys
      → (stands_in e.address (a.elements xs) ≡ true)
        × (a.elements ys ≡ erase e.address (a.elements xs))
  pub remove_present :
      (e : Entry) (xs : a.Array)
      → stands_in e.address (a.elements xs) ≡ true
      → (ys : a.Array) × (a.array_remove e xs ≡ some ys)
  pub remove_first :
      (e : Entry) (xs ys : a.Array)
      → a.array_remove_at 0 xs ≡ some (e, ys)
      → a.elements xs ≡ e ∷ a.elements ys

abbrev pub mempool_tx_expire_time : ℕ
mempool_tx_expire_time = 60 * 60 * 24

-- The loop of `get_mempool_entry_from_mempool`.
unfoldable pub find_entry : List ℕ → List Entry → Option Entry
find_entry tx_hash [] = none
find_entry tx_hash (e ∷ es) =
    let rest = find_entry tx_hash es in if compare_hash e.tx.id tx_hash then some e else rest

abbrev pub found : {A : Type 0} → Option A → Bool
found none = false
found (some a) = true

module _ (a : Arrays) where
  -- The globals, and the address that `malloc` gives to the next entry.
  pub record Mempool : Type 0 where
    pub transactions : a.Array
    pub num_transactions : ℕ
    pub next_address : ℕ

  -- What `start_mempool` leaves.
  unfoldable pub start_mempool : ℕ → Mempool
  start_mempool first = record {
    transactions = a.array_new;
    num_transactions = 0;
    next_address = first;
  }

  unfoldable pub get_mempool_entry_from_mempool : List ℕ → Mempool → Option Entry
  get_mempool_entry_from_mempool tx_hash m = find_entry tx_hash (a.elements m.transactions)

  unfoldable pub is_tx_in_mempool : Transaction → Mempool → Bool
  unfolding get_mempool_entry_from_mempool
  is_tx_in_mempool tx m = found (get_mempool_entry_from_mempool tx.id m)

  -- The end of `add_tx_to_mempool_nolock`, behind `array_add`.
  unfoldable pub added : Option a.Array → Action Mempool
  added none = fail
  added (some ys) = λ m. ok tt (record {
    transactions = ys;
    num_transactions = m.num_transactions + 1;
    next_address = m.next_address + 1;
  })

  unfoldable pub add_tx_to_mempool : ℕ → Transaction → Action Mempool
  unfolding added
  add_tx_to_mempool now tx m =
      added
        (a.array_add (record { address = m.next_address; tx = tx; received_ts = now })
          m.transactions)
        m

  -- The checks behind `valid_transaction`.
  unfoldable pub add_if_new : ℕ → Transaction → Check (Unit {0}) → Action Mempool
  unfolding is_tx_in_mempool
  add_if_new now tx crash m = fault
  add_if_new now tx reject m = error m
  add_if_new now tx (pass _) m =
      if is_coinbase_tx tx
      then error m
      else if is_tx_in_mempool tx m
      then error m
      else add_tx_to_mempool now tx m

  -- The end of `remove_tx_from_mempool_nolock`, behind `array_remove`.
  unfoldable pub removed : Option a.Array → Action Mempool
  removed none = fail
  removed (some ys) =
      λ m. ok tt (record m { transactions = ys; num_transactions = m.num_transactions - 1 })

  -- The removal of the entry that was looked up; without one the transaction is not in the pool.
  unfoldable pub remove_entry : Option Entry → Action Mempool
  unfolding removed
  remove_entry none = fail
  remove_entry (some e) = λ m. removed (a.array_remove e m.transactions) m

  unfoldable pub remove_tx_from_mempool : Transaction → Action Mempool
  unfolding remove_entry
  remove_tx_from_mempool tx m = remove_entry (get_mempool_entry_from_mempool tx.id m) m

  -- An empty pool fails the assertion.
  unfoldable pub popped : Option (Entry × a.Array) → Exec Mempool Transaction
  popped none = stop
  popped (some (e, ys)) =
      λ m. ok e.tx (record m { transactions = ys; num_transactions = m.num_transactions - 1 })

  unfoldable pub pop_tx_from_mempool : Exec Mempool Transaction
  unfolding popped
  pop_tx_from_mempool m = popped (a.array_remove_at 0 m.transactions) m

  -- The result of a removal is dropped.
  unfoldable pub forget : {A : Type 0} → Outcome Mempool A → Outcome Mempool (Unit {0})
  forget fault = fault
  forget (error m) = ok tt m
  forget (ok _ m) = ok tt m

  unfoldable pub clear_each : ℕ → List Transaction → Action Mempool
  unfolding forget
  clear_each zero txs = done tt
  clear_each (suc n) [] = stop
  clear_each (suc n) (t ∷ ts) = (λ m. forget (remove_tx_from_mempool t m)) >> clear_each n ts

  unfoldable pub clear_txs_in_mempool_from_block : Block → Action Mempool
  unfolding clear_each
  clear_txs_in_mempool_from_block b = clear_each b.transaction_count b.transactions
