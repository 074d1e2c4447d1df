-- ===== src/P2p/Full.antt =====
-- A peer that connects while the table is full: `handle_packet_anonymous` over the table of peers.
use vulkan_core.Common.{
  ℕ, ◌≤◌, ◌≡◌, refl, ap, ◌∙◌, Bool, true, false, some, List, leb, ◌==◌, if◌then◌else◌, arith,
  le→leb, ==_refl, ◌<◌, ◌^◌, ◌*◌, ◌%◌, ◌+◌, gt→leb_false, Bool-cases, inl, inr,
}
use vulkan_core.Exec.{Outcome, ok, error, fault, and_then, fail, ◌>>◌}
use vulkan_core.Buffer.{Heap}
use vulkan_core.Protocol.{connect_establish_req, connect_establish_resp_args}
use vulkan_core.Net.{NetConnection}
use vulkan_core.Net.Receive.{Receiver}
use vulkan_core.Sync.{Services, Node, answered, succeeded, must, call, sendto}
use vulkan_core.Sync.Dispatch.{
  right_version, admit_peer, connect_requested, on_node, handle_packet_anonymous,
}
use vulkan_core.P2p.{
  Peer, Tables, Peers, has_peer, add_peer, concatenate, joined, power_above, max_p2p_peers_count,
}

abbrev pub succeeds : {S : Type 0} → Outcome S (Unit {0}) → Bool
succeeds fault = false
succeeds (error s) = false
succeeds (ok _ s) = true

-- The rest of the node has the table: `remote_ip` is the address of the other end of a connection.
pub record HasPeers (sv : Services) (t : Tables) : Type 0 where
  pub peers : sv.State → Peers t
  pub remote_ip : ℕ → ℕ
  pub has_peer_is :
      (s : sv.State) (conn port peer_id : ℕ)
      → concatenate (remote_ip conn) port ≡ some peer_id
      → sv.has_peer s conn port ≡ has_peer t peer_id (peers s)
  pub add_peer_is :
      (s : sv.State) (conn port peer_id : ℕ)
      → concatenate (remote_ip conn) port ≡ some peer_id
      → (sv.add_peer conn port s).0
        ≡ succeeds (add_peer t (record { id = peer_id; net_connection = conn }) (peers s))

add_peer-full :
    (t : Tables) (p : Peer) (s : Peers t)
    → max_p2p_peers_count ≤ s.num_peers
    → succeeds (add_peer t p s) ≡ false
unfolding add_peer
add_peer-full t p s full =
    rw (le→leb max_p2p_peers_count s.num_peers full) (either (has_peer t p.id s))
  where
    either : (b : Bool) → succeeds (if b then error s else error s) ≡ false
    either true = refl
    either false = refl

refused :
    {sv : Services} (w : Node sv) (r : Bool × sv.State)
    → r.0 ≡ false
    → succeeded (answered {sv = sv} w.entry r) ≡ fault
refused w (true, s) e = absurd cc
refused w (false, s) e = refl

module _ {sv : Services} (h : Heap) where
  admit_peer-refused :
      (c : NetConnection) (testnet : ℕ) (w : Node sv)
      → testnet ≡ sv.use_testnet
      → (sv.add_peer c.address c.host_port w.rest).0 ≡ false
      → admit_peer h c testnet (some true) w ≡ fault
  unfolding admit_peer
  admit_peer-refused c testnet w same full =
      ap
        (λ (b : Bool).
          (if b
              then must (call (sv.add_peer c.address c.host_port))
                >> sendto c.address connect_establish_resp_args
              else fail)
            w)
        (ap (λ n. n == sv.use_testnet) same ∙ ==_refl sv.use_testnet)
      ∙ ap (λ o. and_then o (λ _. sendto {sv = sv} c.address connect_establish_resp_args))
          (refused w _ full)

  connect_requested-refused :
      (c : NetConnection) (number name : List ℕ) (testnet : ℕ) (w : Node sv)
      → sv.has_peer w.rest c.address c.host_port ≡ false
      → right_version sv number name ≡ some true
      → testnet ≡ sv.use_testnet
      → (sv.add_peer c.address c.host_port w.rest).0 ≡ false
      → connect_requested h c number name testnet w ≡ fault
  unfolding connect_requested
  connect_requested-refused c number name testnet w new right same full =
      ap
        (λ (b : Bool).
          if b then error w else admit_peer h c testnet (right_version sv number name) w)
        new
      ∙ ap (λ o. admit_peer h c testnet o w) right
      ∙ admit_peer-refused c testnet w same full

-- While the table of peers is full: a connection request from a new peer with the right version, and
-- for the right network, makes `handle_packet_anonymous` fail an assertion.
pub handle_packet_anonymous-full :
    {sv : Services} {t : Tables} (has : HasPeers sv t) (h : Heap) (port peer_id testnet : ℕ)
    (number name : List ℕ) (r : Receiver (Node sv))
    → concatenate (has.remote_ip r.conn.address) port ≡ some peer_id
    → max_p2p_peers_count ≤ (has.peers r.node.rest).num_peers
    → has_peer t peer_id (has.peers r.node.rest) ≡ false
    → right_version sv number name ≡ some true
    → testnet ≡ sv.use_testnet
    → handle_packet_anonymous h (connect_establish_req port number name testnet) r ≡ fault
unfolding handle_packet_anonymous on_node
handle_packet_anonymous-full {sv} {t} has h port peer_id testnet number name r at full new right
      same =
    ap (on_node h c) (
      connect_requested-refused h c number name testnet r.node
        (has.has_peer_is r.node.rest r.conn.address port peer_id at ∙ new) right same
        (has.add_peer_is r.node.rest r.conn.address port peer_id at
          ∙ add_peer-full t (record { id = peer_id; net_connection = r.conn.address })
              (has.peers r.node.rest) full))
  where
    c : NetConnection
    c = record r.conn { host_port = port; anonymous = false }

-- Five rounds of `concatenate` are enough for a port.
power_above-port : (y : ℕ) → y < 2 ^ 16 → (pow : ℕ) × (power_above 5 10 y ≡ some pow)
unfolding power_above
power_above-port y small = elim (Bool-cases (leb 10 y)) [
  | inr e ↦ (10, rw e refl)
  | inl e ↦ elim (Bool-cases (leb 100 y)) [
    | inr f ↦ (100, rw (e, f) refl)
    | inl f ↦ elim (Bool-cases (leb 1000 y)) [
      | inr g ↦ (1000, rw (e, f, g) refl)
      | inl g ↦ elim (Bool-cases (leb 10000 y)) [
        | inr k ↦ (10000, rw (e, f, g, k) refl)
        | inl k ↦ (100000, rw (e, f, g, k, gt→leb_false 100000 y (omega arith)) refl)
      ]
    ]
  ]
]

concatenate-port : (x y : ℕ) → y < 2 ^ 16 → (peer_id : ℕ) × (concatenate x y ≡ some peer_id)
unfolding concatenate joined
concatenate-port x y small =
    let (pow, e) = power_above-port y small in ((x * pow + y) % 2 ^ 32, ap (joined x y) e)
