-- ===== src/P2p/Runs.antt =====
-- Any sequence of additions to the table of peers and removals from it.
use vulkan_core.Common.{
  ◌∙◌, ℕ, ◌+◌, ◌==◌, some, same_bytes, same_bytes_refl, ==_iff, Bool-cases, inl, inr, ◌≤◌, ◌≡◌,
  refl, sym, ap, subst, Bool, true, false, not, List, [], ◌∷◌, length, leb, if◌then◌else◌, arith,
}
use vulkan_core.Exec.{Outcome, ok, error, fault, Action, done}
use vulkan_core.P2p.{
  found, find_peer, has_key, key_of, Peer, Tables, TablesLaws, Peers, init_p2p, get_peer, has_peer,
  add_peer, peer_added, remove_peer, peer_removed, max_p2p_peers_count,
}

pub data Change : Type 0 where
  addition : Peer → Change
  removal : Peer → Change

-- A peer whose id is in the table has its key there.
found-has_key :
    (peer_id : ℕ) (ps : List Peer)
    → found (find_peer peer_id ps) ≡ true
    → has_key (key_of peer_id) ps ≡ true
unfolding find_peer has_key
found-has_key peer_id [] there = absurd cc
found-has_key peer_id (p ∷ ps) there = elim (Bool-cases (p.id == peer_id)) [
  | inl e ↦ then_true (same_bytes (key_of p.id) (key_of peer_id)) (has_key (key_of peer_id) ps) (
      ap (λ n. same_bytes (key_of p.id) (key_of n)) (sym ((==_iff p.id peer_id).0 e))
      ∙ same_bytes_refl (key_of p.id))
  | inr e ↦ else_true (same_bytes (key_of p.id) (key_of peer_id)) (has_key (key_of peer_id) ps) (
      found-has_key peer_id ps
        (subst (λ (b : Bool). found (if b then some p else find_peer peer_id ps) ≡ true) e there))
]
  where
    then_true : (b c : Bool) → b ≡ true → (if b then true else c) ≡ true
    then_true true c e = refl
    then_true false c e = absurd cc

    else_true : (b c : Bool) → c ≡ true → (if b then true else c) ≡ true
    else_true true c e = refl
    else_true false c e = e

module _ (t : Tables) where
  -- The counter is the number of the peers and of those that were lost, and within its bound.
  pub record PeersIsValid (lost : ℕ) (s : Peers t) : Type 0 where
    pub counted : s.num_peers ≡ length (t.values s.peerlist_table) + lost
    pub bounded : s.num_peers ≤ max_p2p_peers_count

  unfoldable pub change : Change → Action (Peers t)
  change (addition p) = add_peer t p
  change (removal p) = remove_peer t p

  -- What a call returned is dropped; a fault ends the program.
  unfoldable pub go_on_with :
      Action (Peers t) → Outcome (Peers t) (Unit {0}) → Outcome (Peers t) (Unit {0})
  go_on_with rest fault = fault
  go_on_with rest (error s) = rest s
  go_on_with rest (ok _ s) = rest s

  unfoldable pub run_changes : List Change → Action (Peers t)
  unfolding change go_on_with
  run_changes [] = done tt
  run_changes (c ∷ cs) = λ s. go_on_with (run_changes cs) (change c s)

  -- Whether an addition is made under the key of a peer that it is not the same as.
  unfoldable pub collides : Change → Peers t → ℕ
  collides (removal p) s = 0
  collides (addition p) s =
      if has_peer t p.id s
      then 0
      else if leb max_p2p_peers_count s.num_peers
      then 0
      else if has_key (key_of p.id) (t.values s.peerlist_table)
      then 1
      else 0

  unfoldable pub behind : (Peers t → ℕ) → Outcome (Peers t) (Unit {0}) → ℕ
  behind count fault = 0
  behind count (error s) = count s
  behind count (ok _ s) = count s

  -- How many additions of a sequence are.
  unfoldable pub collisions : List Change → Peers t → ℕ
  unfolding change collides behind
  collisions [] s = 0
  collisions (c ∷ cs) s = collides c s + behind (collisions cs) (change c s)

  -- No fault, and a table that is valid.
  abbrev pub Leaves : ℕ → Outcome (Peers t) (Unit {0}) → Type 0
  Leaves lost fault = ⊥
  Leaves lost (error s) = PeersIsValid lost s
  Leaves lost (ok _ s) = PeersIsValid lost s

  -- Both are decided by the same test.
  Leaves-if :
      (b : Bool) (lost k m : ℕ) (x y : Outcome (Peers t) (Unit {0}))
      → (b ≡ true → Leaves (lost + k) x)
      → (b ≡ false → Leaves (lost + m) y)
      → Leaves (lost + (if b then k else m)) (if b then x else y)
  Leaves-if true lost k m x y f g = f refl
  Leaves-if false lost k m x y f g = g refl

  Leaves-pick :
      (b : Bool) (lost : ℕ) (x y : Outcome (Peers t) (Unit {0}))
      → (b ≡ true → Leaves lost x)
      → (b ≡ false → Leaves lost y)
      → Leaves lost (if b then x else y)
  Leaves-pick true lost x y f g = f refl
  Leaves-pick false lost x y f g = g refl

  same_lost : (lost : ℕ) (s : Peers t) → PeersIsValid lost s → PeersIsValid (lost + 0) s
  same_lost lost s v = record { counted = omega (arith, v.counted); bounded = v.bounded }

  go_on_with-Leaves :
      (rest : Action (Peers t)) (count : Peers t → ℕ)
      → ((lost : ℕ) (s : Peers t) → PeersIsValid lost s → Leaves (lost + count s) (rest s))
      → (lost k : ℕ) (o : Outcome (Peers t) (Unit {0})) → Leaves (lost + k) o
      → Leaves (lost + (k + behind count o)) (go_on_with rest o)
  unfolding go_on_with behind
  go_on_with-Leaves rest count works lost k fault none_left = absurd none_left
  go_on_with-Leaves rest count works lost k (error s) v =
      subst (λ n. Leaves n (rest s)) (omega arith) (works (lost + k) s v)
  go_on_with-Leaves rest count works lost k (ok _ s) v =
      subst (λ n. Leaves n (rest s)) (omega arith) (works (lost + k) s v)

  module _ (laws : TablesLaws t) where
    peer_added-Leaves :
        (p : Peer) (lost : ℕ) (s : Peers t)
        → PeersIsValid lost s
        → leb max_p2p_peers_count s.num_peers ≡ false
        → Leaves
            (lost + (if has_key (key_of p.id) (t.values s.peerlist_table) then 1 else 0))
            (peer_added t (t.hashtable_add p s.peerlist_table) s)
    unfolding peer_added
    peer_added-Leaves p lost s v few =
        let (ys, e, long) = laws.adds p s.peerlist_table in
        subst
          (λ o.
            Leaves (lost + (if has_key (key_of p.id) (t.values s.peerlist_table) then 1 else 0))
              (peer_added t o s))
          (sym e)
          (record {
            counted =
                counts (has_key (key_of p.id) (t.values s.peerlist_table)) (length (t.values ys))
                  long;
            bounded = ground (arith, few);
          })
      where
        counts :
            (b : Bool) (n : ℕ)
            → n ≡ (
                if b
                then length (t.values s.peerlist_table)
                else 1 + length (t.values s.peerlist_table))
            → s.num_peers + 1 ≡ n + (lost + (if b then 1 else 0))
        counts true n e = omega (arith, v.counted, e)
        counts false n e = omega (arith, v.counted, e)

    peer_removed-Leaves :
        (p : Peer) (lost : ℕ) (s : Peers t)
        → PeersIsValid lost s
        → has_peer t p.id s ≡ true
        → Leaves (lost + 0) (peer_removed t (t.hashtable_remove p.id s.peerlist_table) s)
    unfolding has_peer get_peer peer_removed
    peer_removed-Leaves p lost s v there =
        let (ys, e, shorter) =
          laws.removes p.id s.peerlist_table
            (found-has_key p.id (t.values s.peerlist_table) there) in
        subst (λ o. Leaves (lost + 0) (peer_removed t o s)) (sym e)
          (record {
            counted = omega (arith, v.counted, shorter);
            bounded = omega (arith, v.bounded);
          })

    change-Leaves :
        (c : Change) (lost : ℕ) (s : Peers t)
        → PeersIsValid lost s
        → Leaves (lost + collides c s) (change c s)
    unfolding change collides add_peer remove_peer
    change-Leaves (addition p) lost s v =
        Leaves-if (has_peer t p.id s) lost _ _ _ _ (λ old. same_lost lost s v)
          (λ new.
            Leaves-if (leb max_p2p_peers_count s.num_peers) lost _ _ _ _
              (λ many. same_lost lost s v) (λ few. peer_added-Leaves p lost s v few))
    change-Leaves (removal p) lost s v =
        Leaves-pick (not (has_peer t p.id s)) (lost + 0) _ _ (λ away. same_lost lost s v)
          (λ here. peer_removed-Leaves p lost s v (ground (arith, here)))

    run_changes-Leaves :
        (cs : List Change) (lost : ℕ) (s : Peers t)
        → PeersIsValid lost s
        → Leaves (lost + collisions cs s) (run_changes cs s)
    unfolding run_changes collisions
    run_changes-Leaves [] lost s v = same_lost lost s v
    run_changes-Leaves (c ∷ cs) lost s v =
        go_on_with-Leaves (run_changes cs) (collisions cs) (run_changes-Leaves cs) lost
          (collides c s) (change c s) (change-Leaves c lost s v)

-- Over a hash table as documented, whose allocations succeed and whose keys are strings: from the table
-- that `init_p2p` makes, any sequence of `add_peer` and `remove_peer` fails no assertion, and leaves a
-- counter that is at most `MAX_P2P_PEERS_COUNT`, and that is the number of the peers in the table and of
-- the additions that were made under the key of another peer, each of which replaced that peer.
pub run_changes-PeersIsValid :
    (t : Tables) (cs : List Change)
    → TablesLaws t
    → Leaves t (collisions t cs (init_p2p t)) (run_changes t cs (init_p2p t))
unfolding init_p2p
run_changes-PeersIsValid t cs laws =
    subst (λ n. Leaves t n (run_changes t cs (init_p2p t))) (omega arith)
      (run_changes-Leaves t laws cs 0 (init_p2p t)
        (record { counted = omega (arith, ap length laws.fresh); bounded = omega arith }))
