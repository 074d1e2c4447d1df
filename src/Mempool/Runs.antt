-- ===== src/Mempool/Runs.antt =====
-- Sequences of calls on the pool.
use vulkan_core.Common.{
  ℕ, zero, suc, ◌+◌, ◌≡◌, refl, sym, ap, subst, false, Option, none, some, List, [], ◌∷◌, length,
  All, arith, length-append, Bool-cases, inl, inr,
}
use vulkan_core.Exec.{Outcome, ok, error, fault, Action, ◌>>◌, and_then}
use vulkan_core.Check.{Check, crash, reject, pass}
use vulkan_core.Transaction.{Transaction}
use vulkan_core.Transaction.Spend.{is_coinbase_tx}
use vulkan_core.Block.{Block}
use vulkan_core.Mempool.{
  Arrays, ArraysLaws, Entry, Mempool, find_entry, found, start_mempool,
  get_mempool_entry_from_mempool, is_tx_in_mempool, added, add_tx_to_mempool, add_if_new, removed,
  remove_entry, remove_tx_from_mempool, popped, pop_tx_from_mempool, forget, clear_each,
  clear_txs_in_mempool_from_block,
}
use vulkan_core.Mempool.Invariant.{
  Distinct, Distinct-erase, length-erase, Distinct-snoc, Within, Below, All-erase, All-snoc,
  All-Below,
}
use vulkan_core.Mempool.Flush.{insisted, remove_each, clear_expired_txs_in_mempool, txs_to_remove}

-- A call from outside; `validate` carries what `valid_transaction` answers.
pub data Call : Type 0 where
  validate : ℕ → Transaction → Check (Unit {0}) → Call
  remove : Transaction → Call
  pop : Call
  clear_block : Block → Call
  expire : (Transaction → Check (Unit {0})) → (Entry → ℕ) → Call

module _ (a : Arrays) where
  -- The counter is the number of the entries, their ids and addresses are distinct, and later
  -- entries will get other addresses.
  pub record WellFormed (m : Mempool a) : Type 0 where
    pub counted : m.num_transactions ≡ length (a.elements m.transactions)
    pub distinct : Distinct (a.elements m.transactions)
    pub below : All (Below m.next_address) (a.elements m.transactions)

  unfoldable pub call : Call → Action (Mempool a)
  unfolding forget
  call (validate now tx valid) m = forget a (add_if_new a now tx valid m)
  call (remove tx) m = forget a (remove_tx_from_mempool a tx m)
  call pop m = forget a (pop_tx_from_mempool a m)
  call (clear_block b) m = forget a (clear_txs_in_mempool_from_block a b m)
  call (expire valid now) m = forget a (clear_expired_txs_in_mempool a valid now m)

  -- The calls one after the other, whatever they return; a fault ends the program.
  unfoldable pub run : List Call → Action (Mempool a)
  run [] m = ok tt m
  run (c ∷ cs) m = (call c >> run cs) m

module _ (a : Arrays) (laws : ArraysLaws a) where
  removed-WellFormed :
      (e : Entry) (m : Mempool a)
      → WellFormed a m
      → (r : Option a.Array) → a.array_remove e m.transactions ≡ r
      → Within (WellFormed a) (removed a r m)
  unfolding removed
  removed-WellFormed e m w none h = w
  removed-WellFormed e m w (some ys) h =
      let law = laws.remove_elements e m.transactions ys h in
      record {
        counted = omega (
          arith,
          w.counted,
          ap length law.1,
          length-erase e.address (a.elements m.transactions) law.0,
        );
        distinct =
            subst Distinct (sym law.1)
              (Distinct-erase e.address (a.elements m.transactions) w.distinct);
        below =
            subst (All (Below m.next_address)) (sym law.1)
              (All-erase (Below m.next_address) e.address (a.elements m.transactions) w.below);
      }

  remove_entry-WellFormed :
      (o : Option Entry) (m : Mempool a)
      → WellFormed a m
      → Within (WellFormed a) (remove_entry a o m)
  unfolding remove_entry
  remove_entry-WellFormed none m w = w
  remove_entry-WellFormed (some e) m w =
      removed-WellFormed e m w (a.array_remove e m.transactions) refl

  added-WellFormed :
      (e : Entry) (m : Mempool a)
      → WellFormed a m
      → e.address ≡ m.next_address
      → found (find_entry e.tx.id (a.elements m.transactions)) ≡ false
      → (r : Option a.Array) → a.array_add e m.transactions ≡ r
      → Within (WellFormed a) (added a r m)
  unfolding added
  added-WellFormed e m w here new none h = w
  added-WellFormed e m w here new (some ys) h =
      let law = laws.add_elements e m.transactions ys h in
      record {
        counted =
            omega
              (arith, w.counted, ap length law, length-append (a.elements m.transactions) (e ∷ []));
        distinct = subst Distinct (sym law) (
            Distinct-snoc (a.elements m.transactions) e w.distinct
              (subst (λ n. All (Below n) (a.elements m.transactions)) (sym here) w.below) new);
        below = subst (All (Below (m.next_address + 1))) (sym law) (
            All-snoc (Below (m.next_address + 1)) (a.elements m.transactions) e
              (All-Below m.next_address (a.elements m.transactions) w.below) (omega (arith, here)));
      }

  add_if_new-WellFormed :
      (now : ℕ) (tx : Transaction) (valid : Check (Unit {0})) (m : Mempool a)
      → WellFormed a m
      → Within (WellFormed a) (add_if_new a now tx valid m)
  unfolding add_if_new add_tx_to_mempool is_tx_in_mempool get_mempool_entry_from_mempool
  add_if_new-WellFormed now tx crash m w = tt
  add_if_new-WellFormed now tx reject m w = w
  add_if_new-WellFormed now tx (pass _) m w = elim (Bool-cases (is_coinbase_tx tx)) [
    | inl c ↦ rw c w
    | inr c ↦ elim (Bool-cases (found (find_entry tx.id (a.elements m.transactions)))) [
      | inl f ↦ rw (c, f) w
      | inr f ↦
          rw (c, f)
            (added-WellFormed (record { address = m.next_address; tx = tx; received_ts = now }) m w
              refl f _ refl)
    ]
  ]

  popped-WellFormed :
      (m : Mempool a)
      → WellFormed a m
      → (r : Option (Entry × a.Array)) → a.array_remove_at 0 m.transactions ≡ r
      → Within (WellFormed a) (popped a r m)
  unfolding popped
  popped-WellFormed m w none h = tt
  popped-WellFormed m w (some (e, ys)) h =
      let law = laws.remove_first e m.transactions ys h in
      record {
        counted = omega (arith, w.counted, ap length law);
        distinct = (subst Distinct law w.distinct).1;
        below = (subst (All (Below m.next_address)) law w.below).1;
      }

  remove_tx-WellFormed :
      (tx : Transaction) (m : Mempool a)
      → WellFormed a m
      → Within (WellFormed a) (remove_tx_from_mempool a tx m)
  unfolding remove_tx_from_mempool
  remove_tx-WellFormed tx m w =
      remove_entry-WellFormed (get_mempool_entry_from_mempool a tx.id m) m w

  forget-Within :
      {A : Type 0} (r : Outcome (Mempool a) A)
      → Within (WellFormed a) r
      → Within (WellFormed a) (forget a r)
  unfolding forget
  forget-Within fault w = tt
  forget-Within (error m) w = w
  forget-Within (ok _ m) w = w

  insisted-Within :
      (r : Outcome (Mempool a) (Unit {0}))
      → Within (WellFormed a) r
      → Within (WellFormed a) (insisted a r)
  unfolding insisted
  insisted-Within fault w = tt
  insisted-Within (error m) w = tt
  insisted-Within (ok _ m) w = w

  then-Within :
      (r : Outcome (Mempool a) (Unit {0})) (k : Action (Mempool a))
      → Within (WellFormed a) r
      → ((m : Mempool a) → WellFormed a m → Within (WellFormed a) (k m))
      → Within (WellFormed a) (and_then r (λ _. k))
  then-Within fault k w f = tt
  then-Within (error m) k w f = w
  then-Within (ok _ m) k w f = f m w

  clear_each-WellFormed :
      (n : ℕ) (txs : List Transaction) (m : Mempool a)
      → WellFormed a m
      → Within (WellFormed a) (clear_each a n txs m)
  unfolding clear_each
  clear_each-WellFormed zero txs m w = w
  clear_each-WellFormed (suc n) [] m w = tt
  clear_each-WellFormed (suc n) (t ∷ ts) m w =
      then-Within (forget a (remove_tx_from_mempool a t m)) (clear_each a n ts)
        (forget-Within (remove_tx_from_mempool a t m) (remove_tx-WellFormed t m w))
        (clear_each-WellFormed n ts)

  remove_each-WellFormed :
      (txs : List Transaction) (m : Mempool a)
      → WellFormed a m
      → Within (WellFormed a) (remove_each a (some txs) m)
  unfolding remove_each
  remove_each-WellFormed [] m w = w
  remove_each-WellFormed (t ∷ ts) m w =
      then-Within (insisted a (remove_tx_from_mempool a t m)) (remove_each a (some ts))
        (insisted-Within (remove_tx_from_mempool a t m) (remove_tx-WellFormed t m w))
        (remove_each-WellFormed ts)

  expire-WellFormed :
      (o : Option (List Transaction)) (m : Mempool a)
      → WellFormed a m
      → Within (WellFormed a) (remove_each a o m)
  expire-WellFormed none m w = unfold remove_each in tt
  expire-WellFormed (some txs) m w = remove_each-WellFormed txs m w

  call-WellFormed : (c : Call) (m : Mempool a) → WellFormed a m → Within (WellFormed a) (call a c m)
  unfolding call pop_tx_from_mempool clear_txs_in_mempool_from_block clear_expired_txs_in_mempool
  call-WellFormed (validate now tx valid) m w =
      forget-Within _ (add_if_new-WellFormed now tx valid m w)
  call-WellFormed (remove tx) m w = forget-Within _ (remove_tx-WellFormed tx m w)
  call-WellFormed pop m w =
      forget-Within _ (popped-WellFormed m w (a.array_remove_at 0 m.transactions) refl)
  call-WellFormed (clear_block b) m w =
      forget-Within _ (clear_each-WellFormed b.transaction_count b.transactions m w)
  call-WellFormed (expire valid now) m w =
      forget-Within _ (expire-WellFormed (txs_to_remove valid now (a.elements m.transactions)) m w)

  run-kept : (cs : List Call) (m : Mempool a) → WellFormed a m → Within (WellFormed a) (run a cs m)
  unfolding run
  run-kept [] m w = w
  run-kept (c ∷ cs) m w = then-Within (call a c m) (run a cs) (call-WellFormed c m w) (run-kept cs)

-- With arrays as documented, and whatever `valid_transaction` answers: after any sequence of
-- validated additions, removals, pops, clearings by a block and expiries from `start_mempool` on,
-- some of which may fail, the counter is the number of transactions in the pool, and no two of them
-- have the same id or stand at the same address; unless a call ran into a failed assertion, which ends the program.
pub run-WellFormed :
    (a : Arrays) (first : ℕ) (cs : List Call)
    → ArraysLaws a
    → Within (WellFormed a) (run a cs (start_mempool a first))
run-WellFormed a first cs laws = run-kept a laws cs (start_mempool a first) (
    unfold start_mempool in
    record {
      counted = sym (ap length laws.new_elements);
      distinct = subst Distinct (sym laws.new_elements) tt;
      below = subst (All (Below first)) (sym laws.new_elements) tt;
    })
