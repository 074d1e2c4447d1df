-- ===== src/Net/Fuel.antt =====
-- `data_received` on any bytes: what it can do, and that its calls of itself come to an end.
use vulkan_core.Common.{
  ℕ, zero, suc, ◌+◌, ◌^◌, ◌≤◌, ◌<◌, ◌≡◌, ◌≢◌, refl, sym, ap, subst, ◌∙◌, true, false, some, List,
  [], ◌∷◌, length, drop, leb, ltb, if◌then◌else◌, arith, le→ltb_false, le→leb, ltb→lt, length-drop,
  take_all, inl, inr, Bool-cases,
}
use vulkan_core.Exec.{Outcome, ok, error, fault, Action, and_then, stop, done}
use vulkan_core.Buffer.{Heap, load, sub_size}
use vulkan_core.Buffer.Append.{Generous}
use vulkan_core.Buffer.Iterator.{Iterator}
use vulkan_core.Buffer.Iterator
use vulkan_core.Buffer.Read.{cursor}
use vulkan_core.Buffer.Serialized.{cursor_buffer}
use vulkan_core.Protocol.{Packet}
use vulkan_core.Protocol.Codec.{deserialize_packet}
use vulkan_core.Protocol.Bounds.{deserialize_packet-bounds}
use vulkan_core.Net.{close_net_connection}
use vulkan_core.Net.Receive.{
  Receiver, Handler, dispatch, process_packet, go_on, after_packet, process_incoming_packet,
  receive_first, received_within, data_received,
}
use vulkan_core.Net.Stream.{
  IsIdle, IdleAfter, IdleNow, KeepsIdle, then_rest, then_rest-ext, received_within-idle,
}

-- What the bytes begin with: a packet that ends at `q`, none, or one whose reading is undefined.
data Seen : Type 0 where
  undefined_packet : Seen
  no_packet : Seen
  whole_packet : (p : Packet) (q : ℕ) → Seen

-- A packet has at least its header.
abbrev SeenIsShort : Heap → List ℕ → Seen → Type 0
SeenIsShort h bytes undefined_packet = deserialize_packet h (cursor (cursor_buffer bytes) 0) ≡ fault
SeenIsShort h bytes no_packet = Unit
SeenIsShort h bytes (whole_packet p q) = (8 ≤ q) × (q ≤ length bytes)

-- Wherever a packet is looked for in the bytes, reading it stays within them.
abbrev pub Readable : Heap → List ℕ → Type 0
Readable h [] = Unit
Readable h (x ∷ xs) =
    (deserialize_packet h (cursor (cursor_buffer (x ∷ xs)) 0) ≢ fault) × Readable h xs

-- Handling a packet fails no assertion, and does not start to collect one.
abbrev pub ReturnsIdle : {N : Type 0} → Handler N → Type 0
ReturnsIdle {N} handle = (p : Packet) (r : Receiver N) → IsIdle r → IdleNow (handle p r)

module _ {N : Type 0} (h : Heap) (handle : Handler N) where
  act : Seen → (List ℕ → Action (Receiver N)) → List ℕ → Action (Receiver N)
  act undefined_packet next bytes = stop
  act no_packet next bytes = λ r. ok tt (record r { conn = close_net_connection r.conn })
  act (whole_packet p q) next bytes = λ r.
      then_rest (if ltb 0 (length (drop q bytes)) then next (drop q bytes) else done tt)
        (handle p r)

  go_on-drop :
      (next : List ℕ → Action (Receiver N)) (bytes : List ℕ) (q : ℕ)
      → length bytes < 2 ^ 32
      → q ≤ length bytes
      → go_on h handle next (some (cursor_buffer bytes)) q
        ≡ (if ltb 0 (length (drop q bytes)) then next (drop q bytes) else done tt)
  unfolding go_on load
  go_on-drop next bytes q small inside =
      rw (left, fits, take_all (length (drop q bytes)) (drop q bytes) (omega arith)) refl
    where
      left : sub_size (length bytes) q ≡ length (drop q bytes)
      left = omega (arith, length-drop q bytes)

      fits : leb (q + length (drop q bytes)) (length bytes) ≡ true
      fits = le→leb _ _ (omega (arith, length-drop q bytes))

  process_incoming-act :
      (next : List ℕ → Action (Receiver N)) (bytes : List ℕ) (p : Packet) (q : ℕ) (r : Receiver N)
      → length bytes < 2 ^ 32
      → q ≤ length bytes
      → deserialize_packet h (cursor (cursor_buffer bytes) 0)
        ≡ ok p (cursor (cursor_buffer bytes) q)
      → process_incoming_packet h handle next (Iterator.init (cursor_buffer bytes)) r
        ≡ act (whole_packet p q) next bytes r
  unfolding act process_incoming_packet process_packet dispatch after_packet Iterator.init
      Iterator.make then_rest
  process_incoming-act next bytes p q r small inside e =
      ap (λ o. after_packet h handle next (dispatch h handle o r)) e ∙ finish (handle p r)
    where
      finish :
          (o : Outcome (Receiver N) (Unit {0}))
          → after_packet h handle next (and_then o (λ _. done (cursor (cursor_buffer bytes) q)))
            ≡ then_rest (if ltb 0 (length (drop q bytes)) then next (drop q bytes) else done tt) o
      finish fault = refl
      finish (error r') = refl
      finish (ok _ r') = ap (λ k. k r') (go_on-drop next bytes q small inside)

  -- One reading decides what happens, for any number of calls that are left.
  receive_first-act :
      (g : Generous h) (bytes : List ℕ)
      → 0 < length bytes
      → length bytes < 2 ^ 32
      → (o : Outcome Iterator Packet) → deserialize_packet h (cursor (cursor_buffer bytes) 0) ≡ o
      → (s : Seen) × SeenIsShort h bytes s
        × ((next : List ℕ → Action (Receiver N)) (r : Receiver N)
            → receive_first h handle next (length bytes) (cursor_buffer bytes) o r
              ≡ act s next bytes r)
  unfolding receive_first act
  receive_first-act g bytes pos small fault e = (undefined_packet, e, λ next r. refl)
  receive_first-act g bytes pos small (error it) e = (no_packet, tt, λ next r. refl)
  receive_first-act g bytes pos small (ok p it) e =
      let (q, moved, far, inside) =
        deserialize_packet-bounds h (cursor_buffer bytes) 0 p it (omega arith) (omega arith) e in
      let long : ltb (length bytes) p.size ≡ false = le→ltb_false _ _ (omega arith) in
      (
        whole_packet p q,
        (omega arith, inside),
        λ next r.
            rw long (process_incoming-act next bytes p q r small inside (e ∙ ap (ok p) moved)),
      )

  received_within-act :
      (g : Generous h) (bytes : List ℕ)
      → 0 < length bytes
      → length bytes < 2 ^ 32
      → (s : Seen) × SeenIsShort h bytes s
        × ((spent : List ℕ → Action (Receiver N)) (fuel : ℕ) (r : Receiver N)
            → IsIdle r
            → received_within h handle spent (suc fuel) bytes r
              ≡ act s (received_within h handle spent fuel) bytes r)
  received_within-act g bytes pos small =
      let (s, short, same) =
        receive_first-act g bytes pos small (deserialize_packet h (cursor (cursor_buffer bytes) 0))
          refl in
      (
        s,
        short,
        λ spent fuel r idle.
            received_within-idle h g handle spent fuel bytes r pos small idle
            ∙ same (received_within h handle spent fuel) r,
      )

  act-same :
      (keeps : KeepsIdle handle) (next next' : List ℕ → Action (Receiver N)) (bytes : List ℕ)
      (s : Seen) (r : Receiver N)
      → SeenIsShort h bytes s
      → 0 < length bytes
      → ((rest : List ℕ) (r : Receiver N)
          → length rest < length bytes
          → 0 < length rest
          → IsIdle r
          → next rest r ≡ next' rest r)
      → IsIdle r
      → act s next bytes r ≡ act s next' bytes r
  unfolding act
  act-same keeps next next' bytes undefined_packet r short pos later idle = refl
  act-same keeps next next' bytes no_packet r short pos later idle = refl
  act-same keeps next next' bytes (whole_packet p q) r short pos later idle =
      then_rest-ext (handle p r) (λ r' e. elim (Bool-cases (ltb 0 (length (drop q bytes)))) [
        | inl more ↦ rw more (
            later (drop q bytes) r' (omega (arith, length-drop q bytes, short.0)) (ltb→lt _ _ more)
              (subst IdleAfter e (keeps p r idle)))
        | inr all ↦ rw all refl
      ])

  enough :
      (g : Generous h) (keeps : KeepsIdle handle) (spent spent' : List ℕ → Action (Receiver N))
      (n m : ℕ) (bytes : List ℕ) (r : Receiver N)
      → 0 < length bytes
      → length bytes ≤ n
      → length bytes ≤ m
      → length bytes < 2 ^ 32
      → IsIdle r
      → received_within h handle spent n bytes r ≡ received_within h handle spent' m bytes r
  enough g keeps spent spent' n m [] r pos le le' small idle = absurd (omega arith)
  enough g keeps spent spent' zero m (x ∷ xs) r pos le le' small idle = absurd (omega arith)
  enough g keeps spent spent' (suc n) zero (x ∷ xs) r pos le le' small idle = absurd (omega arith)
  enough g keeps spent spent' (suc n) (suc m) (x ∷ xs) r pos le le' small idle =
      let (s, bounded, same) = received_within-act g (x ∷ xs) pos small in
      same spent n r idle
      ∙ act-same keeps (received_within h handle spent n) (received_within h handle spent' m)
          (x ∷ xs) s r bounded pos
          (λ rest r' shorter some_left idle'.
            enough g keeps spent spent' n m rest r' some_left (omega arith) (omega arith)
              (omega arith) idle')
          idle
      ∙ sym (same spent' m r idle)

  -- No bytes fail an assertion at once.
  received_within-empty :
      (spent : List ℕ → Action (Receiver N)) (fuel : ℕ) (r : Receiver N)
      → received_within h handle spent (suc fuel) [] r ≡ fault
  unfolding received_within
  received_within-empty spent fuel r = refl

-- Where every allocation succeeds and handling a packet does not start to collect one: on a
-- connection that does not collect a packet, `data_received` and `process_incoming_packet` call each
-- other at most once more than there are bytes, whatever the bytes are: with more fuel than that the
-- result is the same whatever a further call would do.
pub data_received-ends :
    {N : Type 0} (h : Heap) (handle : Handler N) (fuel : ℕ) (bytes : List ℕ) (r : Receiver N)
    (spent : List ℕ → Action (Receiver N))
    → Generous h
    → KeepsIdle handle
    → length bytes < fuel
    → length bytes < 2 ^ 32
    → IsIdle r
    → data_received h handle fuel bytes r
      ≡ received_within h handle spent (suc (length bytes)) bytes r
unfolding data_received
data_received-ends h handle zero bytes r spent g keeps le small idle = absurd (omega arith)
data_received-ends h handle (suc fuel) [] r spent g keeps le small idle =
    received_within-empty h handle (λ rest. stop) fuel r
    ∙ sym (received_within-empty h handle spent 0 r)
data_received-ends h handle (suc fuel) (x ∷ xs) r spent g keeps le small idle =
    enough h handle g keeps (λ rest. stop) spent (suc fuel) (suc (length (x ∷ xs))) (x ∷ xs) r
      (omega arith) (omega arith) (omega arith) small idle
