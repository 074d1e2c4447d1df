-- ===== src/P2p/Tests.antt =====
-- The theorems on the table of peers at concrete inputs.
use vulkan_core.Common.{
  suc, same_bytes, ℕ, ◌+◌, ◌≡◌, refl, ap, ◌∙◌, subst, Bool, true, false, Option, some, none, List,
  [], ◌∷◌, length, if◌then◌else◌, arith, Bool-cases, inl, inr,
}
use vulkan_core.Exec.{Outcome, ok, error, fault}
use vulkan_core.Bytes.{le_bytes}
use vulkan_core.Buffer.{load}
use vulkan_core.Sync.Tests.{node_with}
use vulkan_core.Buffer.Tests.{plenty}
use vulkan_core.Protocol.{connect_establish_req}
use vulkan_core.Protocol.Write.{application_version, application_release_name}
use vulkan_core.Net.{init_net_connection}
use vulkan_core.Net.Receive.{Receiver}
use vulkan_core.Sync.{Services, Node, no_sync}
use vulkan_core.Sync.Dispatch.{begins_with, right_version, handle_packet_anonymous}
use vulkan_core.P2p.{
  has_key, key_of, until_zero, peer_added, peer_removed, remove_peer, joined, power_above, get_peer,
  Peer, Tables, TablesLaws, Peers, find_peer, init_p2p, has_peer, add_peer, concatenate,
}
use vulkan_core.P2p.Runs.{
  Change, addition, removal, change, collides, behind, collisions, Leaves, run_changes,
  run_changes-PeersIsValid,
}
use vulkan_core.P2p.Full.{succeeds, HasPeers, handle_packet_anonymous-full}

-- A table that keeps the peers in a list, one for every key.
replace_peer : Peer → List Peer → List Peer
replace_peer p [] = []
replace_peer p (q ∷ qs) =
    let rest = replace_peer p qs in
    if same_bytes (key_of q.id) (key_of p.id) then p ∷ qs else q ∷ rest

drop_key : List ℕ → List Peer → List Peer
drop_key key [] = []
drop_key key (p ∷ ps) =
    let rest = drop_key key ps in if same_bytes (key_of p.id) key then ps else p ∷ rest

abbrev lists : Tables
lists = record {
  HashTable = List Peer;
  hashtable_new = [];
  values = λ ps. ps;
  hashtable_add = λ p ps. some (if has_key (key_of p.id) ps then replace_peer p ps else p ∷ ps);
  hashtable_remove = λ peer_id ps. some (drop_key (key_of peer_id) ps);
}

length-replace_peer : (p : Peer) (ps : List Peer) → length (replace_peer p ps) ≡ length ps
unfolding replace_peer
length-replace_peer p [] = refl
length-replace_peer p (q ∷ qs) = elim (Bool-cases (same_bytes (key_of q.id) (key_of p.id))) [
  | inl e ↦ rw e refl
  | inr e ↦ rw e (ap suc (length-replace_peer p qs))
]

length-drop_key :
    (key : List ℕ) (ps : List Peer)
    → has_key key ps ≡ true
    → 1 + length (drop_key key ps) ≡ length ps
unfolding has_key drop_key
length-drop_key key [] there = absurd cc
length-drop_key key (p ∷ ps) there = elim (Bool-cases (same_bytes (key_of p.id) key)) [
  | inl e ↦ rw e (omega arith)
  | inr e ↦ rw e (
      omega (
        arith,
        length-drop_key key ps
            (subst (λ (b : Bool). (if b then true else has_key key ps) ≡ true) e there),
      ))
]

length-added :
    (b : Bool) (p : Peer) (ps : List Peer)
    → length (if b then replace_peer p ps else p ∷ ps) ≡ (if b then length ps else 1 + length ps)
length-added true p ps = length-replace_peer p ps
length-added false p ps = omega arith

lists-TablesLaws : TablesLaws lists
lists-TablesLaws = record {
  fresh = refl;
  adds = λ p xs. (
    if has_key (key_of p.id) xs then replace_peer p xs else p ∷ xs,
    refl,
    length-added (has_key (key_of p.id) xs) p xs,
  );
  removes = λ peer_id xs there.
      (drop_key (key_of peer_id) xs, refl, length-drop_key (key_of peer_id) xs there);
}

abbrev peer : ℕ → Peer
peer n = record { id = n; net_connection = n }

-- The first two ids have a zero in their first byte.
abbrev changes : List Change
changes = addition (peer 256) ∷ addition (peer 512) ∷ addition (peer 4) ∷ removal (peer 4) ∷ []

run_changes-PeersIsValid_example :
    Leaves lists
      (collisions lists changes (init_p2p lists))
      (run_changes lists changes (init_p2p lists))
run_changes-PeersIsValid_example = run_changes-PeersIsValid lists changes lists-TablesLaws

-- The second addition replaced the first peer, and is counted.
collisions_at_changes : collisions lists changes (init_p2p lists) ≡ 1
unfolding collisions collides behind change add_peer remove_peer peer_added peer_removed has_peer
    get_peer find_peer has_key key_of until_zero le_bytes init_p2p same_bytes replace_peer drop_key
collisions_at_changes = refl

abbrev sixteen : Peers lists
sixteen = record {
  peerlist_table =
      peer 1
      ∷ peer 2
      ∷ peer 3
      ∷ peer 4
      ∷ peer 5
      ∷ peer 6
      ∷ peer 7
      ∷ peer 8
      ∷ peer 9
      ∷ peer 10
      ∷ peer 11
      ∷ peer 12
      ∷ peer 13
      ∷ peer 14
      ∷ peer 15
      ∷ peer 16
      ∷ [];
  num_peers = 16;
}

-- A node whose state is the table, and whose connections have their own address at the other end.
has_at : Option ℕ → Peers lists → Bool
has_at none s = false
has_at (some peer_id) s = has_peer lists peer_id s

outcome_of : Peers lists → Outcome (Peers lists) (Unit {0}) → Bool × Peers lists
outcome_of s fault = (false, s)
outcome_of s (error s') = (false, s')
outcome_of s (ok _ s') = (true, s')

add_at : ℕ → Option ℕ → Peers lists → Bool × Peers lists
add_at conn none s = (false, s)
add_at conn (some peer_id) s =
    outcome_of s (add_peer lists (record { id = peer_id; net_connection = conn }) s)

abbrev node : Services
node =
    node_with (Peers lists) (λ s. 0) (λ s conn port. has_at (concatenate conn port) s)
      (λ conn port s. add_at conn (concatenate conn port) s)

succeeds-outcome_of :
    (s : Peers lists) (o : Outcome (Peers lists) (Unit {0})) → (outcome_of s o).0 ≡ succeeds o
unfolding outcome_of
succeeds-outcome_of s fault = refl
succeeds-outcome_of s (error s') = refl
succeeds-outcome_of s (ok _ s') = refl

node_peers : HasPeers node lists
unfolding has_at add_at
node_peers = record {
  peers = λ s. s;
  remote_ip = λ conn. conn;
  has_peer_is = λ s conn port peer_id at. ap (λ o. has_at o s) at;
  add_peer_is = λ s conn port peer_id at.
      ap (λ o. (add_at conn o s).0) at
      ∙ succeeds-outcome_of s (add_peer lists (record { id = peer_id; net_connection = conn }) s);
}

abbrev connecting : Receiver (Node node)
connecting = record {
  conn = init_net_connection 7 2;
  node = record { entry = no_sync; rest = sixteen };
}

handle_packet_anonymous-full_example :
    handle_packet_anonymous plenty
      (connect_establish_req 99 application_version application_release_name 0)
      connecting
    ≡ fault
unfolding concatenate joined power_above has_peer get_peer find_peer right_version begins_with load
    same_bytes init_net_connection node_peers
handle_packet_anonymous-full_example =
    handle_packet_anonymous-full node_peers plenty 99 799 0 application_version
      application_release_name connecting refl (omega arith) refl refl refl
