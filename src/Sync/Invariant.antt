-- ===== src/Sync/Invariant.antt =====
-- What holds of the synchronisation entry between any two events.
use vulkan_core.Common.{
  ℕ, ◌+◌, ◌%◌, ◌^◌, ◌≤◌, ◌≡◌, refl, Bool, true, false, Option, none, some, List, [], ◌∷◌, length,
  ◌==◌, if◌then◌else◌, arith, Bool-cases, inl, inr,
}
use vulkan_core.Exec.{Outcome, ok, error, fault, Action, and_then, stop, fail, ◌>>◌}
use vulkan_core.Block.{Block}
use vulkan_core.Sync.{
  SyncEntry, Services, Node, minus_one, no_sync, started, cleared, update, call, answered, must,
  succeeded, or_else, failed_with, regardless, dropped,
}
use vulkan_core.Sync.Requests.{count_try, count_tx_try, remove_last, put_front}

abbrev pub has {ℓ} : {A : Type ℓ} → Option A → Bool
has none = false
has (some a) = true

-- A synchronisation has a peer and nobody else has one; no more than `RESYNC_BLOCK_MAX_TRIES` + 1
-- tries are counted, and no more than `MAX_GROUPED_BLOCKS_COUNT` headers wait; transactions are
-- asked for only while a block is pending, and none is while the block is looked for at which the
-- chains part.
pub record SyncIsValid (e : SyncEntry) : Type 0 where
  pub peered : has e.net_connection ≡ e.sync_initiated
  pub tried : e.last_sync_tries ≤ 6
  pub counted : e.sync_pending_blocks_count ≡ length e.sync_pending_blocks
  pub few : e.sync_pending_blocks_count ≤ 6
  pub quiet : e.sync_initiated ≡ false → e.sync_pending_blocks_count ≡ 0
  pub started_tx : e.tx_sync_initiated ≡ true → e.sync_initiated ≡ true
  pub pending_tx : e.tx_sync_initiated ≡ true → has e.sync_pending_block ≡ true
  pub searching :
      e.sync_start_height ≡ minus_one → e.sync_initiated ≡ true → has e.sync_pending_block ≡ false

abbrev pub Calm : SyncEntry → Type 0
Calm e = SyncIsValid e × (has e.sync_pending_block ≡ false)

abbrev pub Tried : SyncEntry → Type 0
Tried e = SyncIsValid e × (e.last_sync_tries ≤ 5)

pub no_sync-SyncIsValid : SyncIsValid no_sync
unfolding no_sync
no_sync-SyncIsValid = record {
  peered = refl;
  tried = omega arith;
  counted = refl;
  few = omega arith;
  quiet = λ _. refl;
  started_tx = λ e. cc;
  pending_tx = λ e. cc;
  searching = λ _ _. refl;
}

pub started-SyncIsValid : (height conn : ℕ) → SyncIsValid (started height conn)
unfolding started
started-SyncIsValid height conn = record {
  peered = refl;
  tried = omega arith;
  counted = refl;
  few = omega arith;
  quiet = λ _. refl;
  started_tx = λ e. cc;
  pending_tx = λ e. cc;
  searching = λ _ _. refl;
}

pub cleared-SyncIsValid : (e : SyncEntry) → SyncIsValid (cleared e)
unfolding cleared
cleared-SyncIsValid e = record {
  peered = refl;
  tried = omega arith;
  counted = refl;
  few = omega arith;
  quiet = λ _. refl;
  started_tx = λ e. cc;
  pending_tx = λ e. cc;
  searching = λ _ on. absurd cc;
}

-- A call ends in a fault, or the entry has `Q` behind it; behind a return value 1 it is well-formed.
pub data After {sv : Services} (Q : SyncEntry → Type 0)
    : Outcome (Node sv) (Unit {0}) → Type 0 where
  after_fault : After Q fault
  after_error : {w : Node sv} → SyncIsValid w.entry → After Q (error w)
  after_ok : {u : Unit {0}} {w : Node sv} → Q w.entry → After Q (ok u w)

pub After-if :
    {sv : Services} {Q : SyncEntry → Type 0} (b : Bool) (x y : Outcome (Node sv) (Unit {0}))
    → (b ≡ true → After Q x)
    → (b ≡ false → After Q y)
    → After Q (if b then x else y)
After-if true x y f g = f refl
After-if false x y f g = g refl

pub same_entry : (e : SyncEntry) → SyncIsValid e → SyncIsValid e
same_entry e v = v

pub record Keeps {sv : Services} (P : SyncEntry → Type 0) (m : Action (Node sv))
    (Q : SyncEntry → Type 0) : Type 0 where
  pub at : (w : Node sv) → P w.entry → After Q (m w)

module _ {sv : Services} {P Q : SyncEntry → Type 0} where
  pub Keeps-if :
      (b : Bool) {m n : Action (Node sv)}
      → (b ≡ true → Keeps P m Q)
      → (b ≡ false → Keeps P n Q)
      → Keeps P (if b then m else n) Q
  Keeps-if true f g = f refl
  Keeps-if false f g = g refl

  pub Keeps-stop : Keeps {sv = sv} P stop Q
  Keeps-stop = record { at = λ w v. after_fault }

  pub Keeps-fail : ((e : SyncEntry) → P e → SyncIsValid e) → Keeps {sv = sv} P fail Q
  Keeps-fail weak = record { at = λ w v. after_error (weak w.entry v) }

  pub Keeps-update :
      (f : SyncEntry → SyncEntry)
      → ((e : SyncEntry) → P e → Q (f e))
      → Keeps {sv = sv} P (update f) Q
  Keeps-update f holds = record { at = λ w v. after_ok (holds w.entry v) }

  pub Keeps-must : {m : Action (Node sv)} → Keeps P m Q → Keeps P (must m) Q
  Keeps-must {m} k = record { at = λ w v. go (m w) (k.at w v) }
    where
      go : (o : Outcome (Node sv) (Unit {0})) → After Q o → After Q (succeeded o)
      go fault after_fault = after_fault
      go (error w) (after_error v) = after_fault
      go (ok _ w) (after_ok v) = after_ok v

  pub Keeps->> :
      {R : SyncEntry → Type 0} {m n : Action (Node sv)}
      → Keeps P m R
      → Keeps R n Q
      → Keeps P (m >> n) Q
  Keeps->> {R} {m} {n} k l = record { at = λ w v. go (m w) (k.at w v) }
    where
      go : (o : Outcome (Node sv) (Unit {0})) → After R o → After Q (and_then o (λ _. n))
      go fault after_fault = after_fault
      go (error w) (after_error v) = after_error v
      go (ok _ w) (after_ok v) = l.at w v

  pub Keeps-or_else :
      {m recover : Action (Node sv)}
      → Keeps P m Q
      → Keeps SyncIsValid recover SyncIsValid
      → Keeps P (or_else m recover) Q
  Keeps-or_else {m} {recover} k l = record { at = λ w v. go (m w) (k.at w v) }
    where
      last :
          (o : Outcome (Node sv) (Unit {0}))
          → After SyncIsValid o
          → After Q (and_then {B = Unit {0}} o (λ _. fail))
      last fault after_fault = after_fault
      last (error w) (after_error v) = after_error v
      last (ok _ w) (after_ok v) = after_error v

      go : (o : Outcome (Node sv) (Unit {0})) → After Q o → After Q (failed_with recover o)
      go fault after_fault = after_fault
      go (error w) (after_error v) = last (recover w) (l.at w v)
      go (ok _ w) (after_ok v) = after_ok v

pub Keeps-call :
    {sv : Services} {P : SyncEntry → Type 0} (f : sv.State → Bool × sv.State)
    → ((e : SyncEntry) → P e → SyncIsValid e)
    → Keeps {sv = sv} P (call f) P
Keeps-call {sv} {P} f weak = record { at = λ w v. go w.entry (f w.rest) v }
  where
    go : (e : SyncEntry) (r : Bool × sv.State) → P e → After P (answered {sv = sv} e r)
    go e (true, s) v = after_ok v
    go e (false, s) v = after_error (weak e v)

pub Keeps-regardless :
    {sv : Services} {P : SyncEntry → Type 0} {m : Action (Node sv)}
    → Keeps P m SyncIsValid
    → Keeps P (regardless m) SyncIsValid
Keeps-regardless {sv} {P} {m} k = record { at = λ w v. go (m w) (k.at w v) }
  where
    go : (o : Outcome (Node sv) (Unit {0})) → After SyncIsValid o → After SyncIsValid (dropped o)
    go fault after_fault = after_fault
    go (error w) (after_error v) = after_ok v
    go (ok _ w) (after_ok v) = after_ok v

-- The fields of a block request do not matter beyond the tries.
pub with_request :
    (e : SyncEntry) (n height ts : ℕ)
    → SyncIsValid e
    → n ≤ 6
    → SyncIsValid (record e { last_sync_tries = n; last_sync_height = height; last_sync_ts = ts })
with_request e n height ts v few_tries = record {
  peered = v.peered;
  tried = few_tries;
  counted = v.counted;
  few = v.few;
  quiet = v.quiet;
  started_tx = v.started_tx;
  pending_tx = v.pending_tx;
  searching = v.searching;
}

pub with_transaction_request :
    (e : SyncEntry) (n index ts : ℕ)
    → SyncIsValid e
    → SyncIsValid
        (record e { last_tx_sync_tries = n; last_tx_sync_index = index; last_tx_sync_ts = ts })
with_transaction_request e n index ts v = record {
  peered = v.peered;
  tried = v.tried;
  counted = v.counted;
  few = v.few;
  quiet = v.quiet;
  started_tx = v.started_tx;
  pending_tx = v.pending_tx;
  searching = v.searching;
}

-- What is changed of the pending blocks.
pub with_pending :
    (e : SyncEntry) (bs : List Block) (n : ℕ)
    → SyncIsValid e
    → n ≡ length bs
    → n ≤ 6
    → (e.sync_initiated ≡ false → n ≡ 0)
    → SyncIsValid (record e { sync_pending_blocks = bs; sync_pending_blocks_count = n })
with_pending e bs n v same few_blocks still = record {
  peered = v.peered;
  tried = v.tried;
  counted = same;
  few = few_blocks;
  quiet = still;
  started_tx = v.started_tx;
  pending_tx = v.pending_tx;
  searching = v.searching;
}

pub count_try-SyncIsValid :
    (height : ℕ) (e : SyncEntry) → Tried e → SyncIsValid (count_try height e)
unfolding count_try
count_try-SyncIsValid height e (v, few_tries) = elim (Bool-cases (height == e.last_sync_height)) [
  | inl same ↦ rw same (
      with_request e ((e.last_sync_tries + 1) % 2 ^ 8) e.last_sync_height e.last_sync_ts v
        (omega arith))
  | inr other ↦ rw other (with_request e 0 height e.last_sync_ts v (omega arith))
]

-- The next height is another one, whose tries start anew.
pub count_next-SyncIsValid :
    (e : SyncEntry) → SyncIsValid e → SyncIsValid (count_try ((e.last_sync_height + 1) % 2 ^ 32) e)
unfolding count_try
count_next-SyncIsValid e v =
    rw moves (with_request e 0 ((e.last_sync_height + 1) % 2 ^ 32) e.last_sync_ts v (omega arith))
  where
    moves : ((e.last_sync_height + 1) % 2 ^ 32 == e.last_sync_height) ≡ false
    moves = ground arith

pub count_tx_try-SyncIsValid :
    (i : ℕ) (e : SyncEntry) → SyncIsValid e → SyncIsValid (count_tx_try i e)
unfolding count_tx_try
count_tx_try-SyncIsValid i e v = elim (Bool-cases (i == e.last_tx_sync_index)) [
  | inl same ↦ rw same (
      with_transaction_request e ((e.last_tx_sync_tries + 1) % 2 ^ 8) e.last_tx_sync_index
        e.last_tx_sync_ts v)
  | inr other ↦ rw other (with_transaction_request e 0 i e.last_tx_sync_ts v)
]

-- Of the deque, all but one block is left.
abbrev pub LeavesOneLess : List Block → Option (Block × List Block) → Type 0
LeavesOneLess bs none = length bs ≡ 0
LeavesOneLess bs (some r) = length bs ≡ 1 + length r.1

pub remove_last-LeavesOneLess : (bs : List Block) → LeavesOneLess bs (remove_last bs)
unfolding remove_last put_front
remove_last-LeavesOneLess [] = refl
remove_last-LeavesOneLess (b ∷ bs) = go (remove_last bs) (remove_last-LeavesOneLess bs)
  where
    go :
        (o : Option (Block × List Block))
        → LeavesOneLess bs o
        → LeavesOneLess (b ∷ bs) (put_front b o)
    go none e = omega arith
    go (some r) e = omega arith
