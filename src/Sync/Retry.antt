-- ===== src/Sync/Retry.antt =====
-- A peer that stops answering.
use vulkan_core.Common.{
  ℕ, zero, suc, ◌+◌, ◌-◌, ◌%◌, ◌^◌, ◌≤◌, ◌<◌, ◌≡◌, refl, ap, subst, ◌∙◌, Bool, true, false, ◌&&◌,
  Option, none, some, List, [], ◌∷◌, length, ltb, if◌then◌else◌, arith, ==_refl, lt→ltb,
  le→ltb_false, gt→leb_false,
}
use vulkan_core.Exec.{Outcome, ok, error, fault, Action, and_then, done, fail, ◌>>◌}
use vulkan_core.Protocol.{Arguments, get_block_by_height_req_args}
use vulkan_core.Sync.{
  SyncEntry, Services, Node, cleared, answered, succeeded, dropped, update,
  resync_block_request_delay, resync_block_max_tries,
}
use vulkan_core.Sync.Requests.{
  count_try, clear_sync_request, request_sync_block, stamp_block, wanted_height, block_request,
}
use vulkan_core.Sync.Handle.{request_again, resync_request}
use vulkan_core.Sync.Invariant.{has, SyncIsValid}

-- Messages can be sent, whether or not they are answered.
abbrev pub Delivers : Services → Type 0
Delivers sv =
    (conn : ℕ) (args : Arguments) (s : sv.State) → (sv.handle_packet_sendto conn args s).0 ≡ true

-- The last request is more than `RESYNC_BLOCK_REQUEST_DELAY` seconds old.
abbrev pub IsLate : (sv : Services) → sv.State → SyncEntry → Type 0
IsLate sv s e =
    ltb resync_block_request_delay ((2 ^ 32 + sv.get_current_time s - e.last_sync_ts) % 2 ^ 32)
    ≡ true

module _ {sv : Services} where
  -- The rest of the node changes, and the task runs.
  unfoldable pub round : (sv.State → sv.State) → Action (Node sv)
  round f w = resync_request (record w { rest = f w.rest })

  unfoldable pub rounds : List (sv.State → sv.State) → Action (Node sv)
  unfolding round
  rounds [] = done tt
  rounds (f ∷ fs) = round f >> rounds fs

  -- Every round comes late.
  abbrev pub AllLate : List (sv.State → sv.State) → Outcome (Node sv) (Unit {0}) → Type 0
  AllLate [] o = Unit
  AllLate (f ∷ fs) fault = Unit
  AllLate (f ∷ fs) (error w) = Unit
  AllLate (f ∷ fs) (ok _ w) = IsLate sv (f w.rest) w.entry × AllLate fs (round f w)

  -- The rounds end without a synchronisation.
  abbrev pub IsAbandoned : Outcome (Node sv) (Unit {0}) → Type 0
  IsAbandoned o = (w : Node sv) × (o ≡ ok tt w) × (w.entry.sync_initiated ≡ false)

  -- A connection that a request goes out on.
  abbrev sent_state : ℕ → Node sv → sv.State
  sent_state conn w =
      (sv.handle_packet_sendto conn (get_block_by_height_req_args w.entry.last_sync_height)
        w.rest).1

  abbrev tried_again : ℕ → Node sv → Node sv
  tried_again conn w = record {
    entry = record w.entry {
      last_sync_tries = (w.entry.last_sync_tries + 1) % 2 ^ 8;
      last_sync_ts = sv.get_current_time (sent_state conn w);
    };
    rest = sent_state conn w;
  }

  sent :
      (e : SyncEntry) (r : Bool × sv.State)
      → r.0 ≡ true
      → answered {sv = sv} e r ≡ ok tt (record { entry = e; rest = r.1 })
  sent e (true, s) h = refl
  sent e (false, s) h = absurd cc

  request-again :
      (delivers : Delivers sv) (conn : ℕ) (w : Node sv)
      → w.entry.last_sync_height < 2 ^ 31
      → w.entry.last_sync_tries ≤ 5
      → request_sync_block conn w.entry.last_sync_height none w ≡ ok tt (tried_again conn w)
  unfolding request_sync_block stamp_block wanted_height block_request count_try
  request-again delivers conn w low few =
      rw
        (
          gt→leb_false (2 ^ 31) w.entry.last_sync_height low,
          le→ltb_false resync_block_max_tries w.entry.last_sync_tries few,
        )
        (ap
            (λ o.
              and_then (and_then o (λ _. update (count_try w.entry.last_sync_height)))
                (λ _. stamp_block))
            (sent w.entry _
              (delivers conn (get_block_by_height_req_args w.entry.last_sync_height) w.rest))
          ∙ ap
              (λ b. ok tt (record {
                entry =
                    record (if b
                      then record w.entry {
                        last_sync_tries = (w.entry.last_sync_tries + 1) % 2 ^ 8;
                      }
                      else record w.entry {
                        last_sync_tries = 0;
                        last_sync_height = w.entry.last_sync_height;
                      }) { last_sync_ts = sv.get_current_time (sent_state conn w) };
                rest = sent_state conn w;
              }))
              (==_refl w.entry.last_sync_height))

  -- What is left when the tries are spent.
  given_up : Node sv → Node sv
  given_up w = record {
    entry = cleared w.entry;
    rest = if w.entry.sync_did_backup_blockchain then (sv.restore_blockchain w.rest).1 else w.rest;
  }

  given_up-off : (w : Node sv) → (given_up w).entry.sync_initiated ≡ false
  unfolding given_up cleared
  given_up-off w = refl

  request-spent :
      (conn : ℕ) (w : Node sv)
      → w.entry.last_sync_height < 2 ^ 31
      → 5 < w.entry.last_sync_tries
      → w.entry.sync_initiated ≡ true
      → request_sync_block conn w.entry.last_sync_height none w ≡ error (given_up w)
  unfolding request_sync_block wanted_height clear_sync_request given_up
  request-spent conn w low many on =
      rw
        (
          gt→leb_false (2 ^ 31) w.entry.last_sync_height low,
          lt→ltb resync_block_max_tries w.entry.last_sync_tries many,
        )
        (ap
          (λ (b : Bool).
            and_then {B = Unit {0}} (succeeded (if b then ok tt (given_up w) else error w))
              (λ _. fail))
          on)

  round-late :
      (f : sv.State → sv.State) (w : Node sv) (conn : ℕ)
      → w.entry.sync_initiated ≡ true
      → w.entry.net_connection ≡ some conn
      → IsLate sv (f w.rest) w.entry
      → round f w
        ≡ dropped
            (request_sync_block conn w.entry.last_sync_height none (record w { rest = f w.rest }))
  unfolding round resync_request request_again
  round-late f w conn on peer late =
      ap
        (λ (b : Bool).
          if b
          then request_again w.entry.net_connection (record w { rest = f w.rest })
          else ok tt (record w { rest = f w.rest }))
        both
      ∙ ap (λ o. request_again o (record w { rest = f w.rest })) peer
    where
      both :
          (w.entry.sync_initiated
            && ltb resync_block_request_delay
                ((2 ^ 32 + sv.get_current_time (f w.rest) - w.entry.last_sync_ts) % 2 ^ 32))
          ≡ true
      both = ground (arith, on, late)

  round-off :
      (f : sv.State → sv.State) (w : Node sv)
      → w.entry.sync_initiated ≡ false
      → round f w ≡ ok tt (record w { rest = f w.rest })
  unfolding round resync_request
  round-off f w off =
      ap
        (λ (b : Bool).
          if b
            && ltb resync_block_request_delay
                ((2 ^ 32 + sv.get_current_time (f w.rest) - w.entry.last_sync_ts) % 2 ^ 32)
          then request_again w.entry.net_connection (record w { rest = f w.rest })
          else ok tt (record w { rest = f w.rest }))
        off

  rounds-off :
      (fs : List (sv.State → sv.State)) (w : Node sv)
      → w.entry.sync_initiated ≡ false
      → IsAbandoned (rounds fs w)
  unfolding rounds
  rounds-off [] w off = (w, refl, off)
  rounds-off (f ∷ fs) w off =
      let (w', e, off') = rounds-off fs (record w { rest = f w.rest }) off in
      (w', ap (λ o. and_then o (λ _. rounds fs)) (round-off f w off) ∙ e, off')

  rounds-on :
      (delivers : Delivers sv) (n : ℕ) (fs : List (sv.State → sv.State)) (w : Node sv) (conn : ℕ)
      → n + w.entry.last_sync_tries ≡ 6
      → n < length fs
      → w.entry.last_sync_height < 2 ^ 31
      → w.entry.sync_initiated ≡ true
      → w.entry.net_connection ≡ some conn
      → AllLate fs (ok tt w)
      → IsAbandoned (rounds fs w)
  unfolding rounds
  rounds-on delivers n [] w conn left enough low on peer late = absurd (omega arith)
  rounds-on delivers zero (f ∷ fs) w conn left enough low on peer late =
      let (w', e, off') =
        rounds-off fs (given_up (record w { rest = f w.rest }))
          (given_up-off (record w { rest = f w.rest })) in
      (
        w',
        ap (λ o. and_then o (λ _. rounds fs))
              (round-late f w conn on peer late.0
                ∙ ap dropped
                    (request-spent conn (record w { rest = f w.rest }) low (omega arith) on))
            ∙ e,
        off',
      )
  rounds-on delivers (suc n) (f ∷ fs) w conn left enough low on peer late =
      let w1 = tried_again conn (record w { rest = f w.rest }) in
      let again =
        round-late f w conn on peer late.0
        ∙ ap dropped
            (request-again delivers conn (record w { rest = f w.rest }) low (omega arith)) in
      let (w', e, off') =
        rounds-on delivers n fs w1 conn (omega arith) (omega arith) low on peer
          (subst (AllLate fs) again late.1) in
      (w', ap (λ o. and_then o (λ _. rounds fs)) again ∙ e, off')

-- Where messages can be sent: while a synchronisation goes on at a height below 2 ^ 31 and its peer
-- does not answer, seven runs of the task `resync_chain` that each come more than
-- `RESYNC_BLOCK_REQUEST_DELAY` seconds behind the last request are enough to end it, whatever happens
-- to the rest of the node in between; none of the runs up to its broadcasts faults.
pub rounds-IsAbandoned :
    {sv : Services} (fs : List (sv.State → sv.State)) (w : Node sv)
    → Delivers sv
    → SyncIsValid w.entry
    → w.entry.sync_initiated ≡ true
    → w.entry.last_sync_height < 2 ^ 31
    → 7 ≤ length fs
    → AllLate fs (ok tt w)
    → IsAbandoned (rounds fs w)
rounds-IsAbandoned {sv} fs w delivers v on low enough late =
    with_peer w.entry.net_connection refl (v.peered ∙ on)
  where
    with_peer :
        (o : Option ℕ) → w.entry.net_connection ≡ o → has o ≡ true → IsAbandoned (rounds fs w)
    with_peer none e there = absurd cc
    with_peer (some conn) e there =
        rounds-on delivers (6 - w.entry.last_sync_tries) fs w conn (omega (arith, v.tried))
          (omega arith) low on e late
