-- ===== src/Mempool/Expiry.antt =====
-- What `clear_expired_txs_in_mempool` leaves.
use vulkan_core.Common.{
  ℕ, ◌+◌, ◌-◌, ◌%◌, ◌^◌, leb, not, ◌≡◌, ◌≢◌, refl, sym, ap, subst, ◌∙◌, Bool, true, false, some,
  List, [], ◌∷◌, ◌++◌, length, All, ◌==◌, if◌then◌else◌, arith, length-append, append_assoc,
  same_bytes_iff, same_bytes_refl, Bool-cases, inl, inr,
}
use vulkan_core.Exec.{ok, and_then}
use vulkan_core.Check.{Check, crash, reject, pass}
use vulkan_core.Crypto.{compare_hash}
use vulkan_core.Transaction.{Transaction}
use vulkan_core.Mempool.{
  Arrays, ArraysLaws, Entry, Mempool, erase, stands_in, find_entry, get_mempool_entry_from_mempool,
  removed, remove_entry, remove_tx_from_mempool, mempool_tx_expire_time,
}
use vulkan_core.Mempool.Invariant.{Differ, Distinct}
use vulkan_core.Mempool.Flush.{
  stale, collect, txs_to_remove, insisted, remove_each, clear_expired_txs_in_mempool,
}
use vulkan_core.Mempool.Runs.{WellFormed}

-- Entries that all differ from `e` stand before it.
abbrev Others : Entry → List Entry → Type 0
Others e pre = All (λ d. Differ d e) pre

find-behind :
    (e : Entry) (pre es : List Entry) → Others e pre → find_entry e.tx.id (pre ++ e ∷ es) ≡ some e
unfolding find_entry
find-behind e [] es o = rw (same_bytes_refl e.tx.id)
find-behind e (d ∷ pre) es o = elim (Bool-cases (compare_hash d.tx.id e.tx.id)) [
  | inl s ↦ absurd (o.0.0 ((same_bytes_iff d.tx.id e.tx.id).0 s))
  | inr s ↦ rw s (find-behind e pre es o.1)
]

stands-behind : (e : Entry) (pre es : List Entry) → stands_in e.address (pre ++ e ∷ es) ≡ true
unfolding stands_in
stands-behind e [] es = ground arith
stands-behind e (d ∷ pre) es = ground (arith, stands-behind e pre es)

erase-behind :
    (e : Entry) (pre es : List Entry) → Others e pre → erase e.address (pre ++ e ∷ es) ≡ pre ++ es
unfolding erase
erase-behind e [] es o = ground arith
erase-behind e (d ∷ pre) es o = elim (Bool-cases (d.address == e.address)) [
  | inl s ↦ absurd (o.0.1 (ground arith))
  | inr s ↦ rw s (ap (λ t. d ∷ t) (erase-behind e pre es o.1))
]

Distinct-middle :
    (e : Entry) (pre es : List Entry)
    → Distinct (pre ++ e ∷ es)
    → Others e pre × Distinct (pre ++ es)
Distinct-middle e [] es d = (tt, d.1)
Distinct-middle e (c ∷ pre) es d =
    let inner = Distinct-middle e pre es d.1 in
    let parts = split c pre d.0 in ((parts.0, inner.0), (parts.1, inner.1))
  where
    split :
        (c : Entry) (pre : List Entry)
        → All (Differ c) (pre ++ e ∷ es)
        → Differ c e × All (Differ c) (pre ++ es)
    split c [] h = h
    split c (b ∷ pre) h = let rest = split c pre h.1 in (rest.0, (h.0, rest.1))

-- What an entry needs to stay: `valid_transaction` accepts it, and it is not too old.
unfoldable pub good : Check (Unit {0}) → ℕ → Bool
good crash age = false
good reject age = false
good (pass _) age = leb age mempool_tx_expire_time

unfoldable pub age_at : ℕ → Entry → ℕ
age_at now e = (2 ^ 32 + now - e.received_ts) % 2 ^ 32

good-stale :
    (now : ℕ) (e : Entry) (c : Check (Unit {0})) (b : Bool)
    → stale now e c ≡ some b
    → good c (age_at now e) ≡ not b
unfolding good stale age_at
good-stale now e crash b h = cc h
good-stale now e reject b h = ground (arith, h)
good-stale now e (pass _) b h = ground (arith, h)

module _ (valid : Transaction → Check (Unit {0})) (now : Entry → ℕ) where
  unfoldable pub kept : List Entry → List Entry
  kept [] = []
  kept (e ∷ es) =
      let rest = kept es in if good (valid e.tx) (age_at (now e) e) then e ∷ rest else rest

  -- `valid_transaction` returns on every entry.
  abbrev pub Settled : Entry → Type 0
  Settled e = valid e.tx ≢ crash

  stale-Settled : (e : Entry) → Settled e → (b : Bool) × (stale (now e) e (valid e.tx) ≡ some b)
  unfolding stale
  stale-Settled e s = settle (valid e.tx) refl
    where
      settle : (c : Check (Unit {0})) → valid e.tx ≡ c → (b : Bool) × (stale (now e) e c ≡ some b)
      settle crash h = absurd (s h)
      settle reject h = (true, refl)
      settle (pass _) h = (_, refl)

  collected :
      (es : List Entry)
      → All Settled es
      → (ts : List Transaction) × (txs_to_remove valid now es ≡ some ts)
  unfolding txs_to_remove collect
  collected [] ss = ([], refl)
  collected (e ∷ es) ss =
      let later = collected es ss.1 in
      let here = stale-Settled e ss.0 in choose here.0 here.1 later.0 later.1
    where
      choose :
          (b : Bool)
          → stale (now e) e (valid e.tx) ≡ some b
          → (ts : List Transaction) → txs_to_remove valid now es ≡ some ts
          → (us : List Transaction) × (txs_to_remove valid now (e ∷ es) ≡ some us)
      choose true h ts l = (e.tx ∷ ts, rw (h, l))
      choose false h ts l = (ts, rw (h, l))

module _ (a : Arrays) (laws : ArraysLaws a) where
  -- The pool holds these entries, and its counter is right.
  abbrev Holds : List Entry → Mempool a → Type 0
  Holds es m = (a.elements m.transactions ≡ es) × (m.num_transactions ≡ length es)

  remove_tx-behind :
      (m : Mempool a) (e : Entry) (pre es : List Entry)
      → Holds (pre ++ e ∷ es) m
      → Others e pre
      → (m' : Mempool a) × (remove_tx_from_mempool a e.tx m ≡ ok tt m') × Holds (pre ++ es) m'
  unfolding remove_tx_from_mempool remove_entry removed get_mempool_entry_from_mempool
  remove_tx-behind m e pre es here o =
      let present =
        laws.remove_present e m.transactions
          (ap (stands_in e.address) here.0 ∙ stands-behind e pre es) in
      let law = laws.remove_elements e m.transactions present.0 present.1 in
      (
        record m { transactions = present.0; num_transactions = m.num_transactions - 1 },
        rw (here.0, find-behind e pre es o, present.1),
        (
          law.1 ∙ ap (erase e.address) here.0 ∙ erase-behind e pre es o,
          omega (arith, here.1, length-append pre (e ∷ es), length-append pre es),
        ),
      )

  module _ (valid : Transaction → Check (Unit {0})) (now : Entry → ℕ) where
    flushed :
        (es pre : List Entry) (m : Mempool a)
        → Holds (pre ++ es) m
        → Distinct (pre ++ es)
        → All (Settled valid now) es
        → (m' : Mempool a) × (remove_each a (txs_to_remove valid now es) m ≡ ok tt m')
          × Holds (pre ++ kept valid now es) m'
    unfolding txs_to_remove collect remove_each kept
    flushed [] pre m here d ss = (m, refl, here)
    flushed (e ∷ es) pre m here d ss =
        let settled = stale-Settled valid now e ss.0 in
        let later = collected valid now es ss.1 in
        elim (Bool-cases settled.0) [
          | inl t ↦
              let old : stale (now e) e (valid e.tx) ≡ some true = settled.1 ∙ ap some t in
              let middle = Distinct-middle e pre es d in
              let gone = remove_tx-behind m e pre es here middle.0 in
              let rest = flushed es pre gone.0 gone.2 middle.1 ss.1 in
              rw (old, later.1, good-stale (now e) e (valid e.tx) true old)
                (
                  rest.0,
                  ap (λ r. and_then (insisted a r) (λ _. remove_each a (some later.0))) gone.1
                      ∙ unfold insisted in (rw later.1 at rest.1),
                  rest.2,
                )
          | inr f ↦
              let young : stale (now e) e (valid e.tx) ≡ some false = settled.1 ∙ ap some f in
              let same : pre ++ e ∷ es ≡ (pre ++ e ∷ []) ++ es =
                sym (append_assoc pre (e ∷ []) es) in
              let rest =
                flushed es (pre ++ e ∷ []) m (here.0 ∙ same, here.1 ∙ ap length same)
                  (subst Distinct same d) ss.1 in
              let back = append_assoc pre (e ∷ []) (kept valid now es) in
              rw (young, later.1, good-stale (now e) e (valid e.tx) false young)
                (rest.0, rw later.1 at rest.1, (rest.2.0 ∙ back, rest.2.1 ∙ ap length back))
        ]

-- `clear_expired_txs_in_mempool` on a pool as `run-WellFormed` has it, with arrays as documented, and
-- where `valid_transaction` returns for every transaction in the pool: no assertion fails, and what is
-- left, in its old order, are the entries whose transaction is valid and whose age, at the time that
-- the clock shows for the entry, is at most `MEMPOOL_TX_EXPIRE_TIME`, with the counter at their number.
pub clear_expired-kept :
    (a : Arrays) (valid : Transaction → Check (Unit {0})) (now : Entry → ℕ) (m : Mempool a)
    → ArraysLaws a
    → WellFormed a m
    → All (Settled valid now) (a.elements m.transactions)
    → (m' : Mempool a) × (clear_expired_txs_in_mempool a valid now m ≡ ok tt m')
      × (a.elements m'.transactions ≡ kept valid now (a.elements m.transactions))
      × (m'.num_transactions ≡ length (a.elements m'.transactions))
unfolding clear_expired_txs_in_mempool
clear_expired-kept a valid now m laws w ss =
    let done_at =
      flushed a laws valid now (a.elements m.transactions) [] m (refl, w.counted) w.distinct ss in
    (done_at.0, done_at.1, done_at.2.0, done_at.2.1 ∙ sym (ap length done_at.2.0))
