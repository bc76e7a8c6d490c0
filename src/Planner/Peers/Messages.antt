-- ===== src/Planner/Peers/Messages.antt =====
-- The contract of a message, and what the two ends of a message agree on.
use origin_ccl.Prelude.{
  ℕ, ◌*◌, ◌%◌, ◌^◌, ◌<◌, ◌≤◌, ◌≡◌, ◌≢◌, ◌↔◌, ◌⊎◌, refl, ap, ◌∙◌, arith, true, false, none, List, [],
  ◌∷◌,
}
use origin_ccl.Prelude.Int.{ℤ, pos, ◌≤ℤ◌}
use origin_ccl.Types.{CollTask}
use origin_ccl.Utils.{data_type_size}
use origin_ccl.Planner.Peers.{
  Peers, Link, same_bytes, node_of, same_machine, link_to, message_buffer, bad_message,
  validate_p2p, p2p_usable,
}

-- What `ValidateP2p` asks of a message.
pub record IsMessage (peers : Peers) (task : CollTask) : Type 0 where
  pub peer_low : pos 0 ≤ℤ task.peer
  pub peer_high : ¬ (peers.world_size ≤ℤ task.peer)
  pub other_rank : task.peer ≢ peers.rank
  pub buffer_given : (task.count ≡ 0) ⊎ (message_buffer task ≢ none)
  pub typed : (task.count ≡ 0) ⊎ (data_type_size task.dtype ≢ 0)
  pub fits : (task.count ≡ 0) ⊎ (task.count * data_type_size task.dtype < 2 ^ 64)
  pub transferable :
      (task.count ≡ 0)
      ⊎ (link_to peers task.peer ≢ Link.rdma_zc)
      ⊎ (task.count * data_type_size task.dtype ≤ 2 ^ 30)

bad_message_lem :
    (t : CollTask)
    → (bad_message t ≡ false) ↔ (
        (message_buffer t ≢ none)
        × (data_type_size t.dtype ≢ 0)
        × (t.count * data_type_size t.dtype < 2 ^ 64))
unfolding bad_message
bad_message_lem t = ground arith

guards :
    (p : Peers) (t : CollTask)
    → (validate_p2p p t ≡ true) ↔ (
        (pos 0 ≤ℤ t.peer)
        × ¬ (p.world_size ≤ℤ t.peer)
        × (t.peer ≢ p.rank)
        × ((t.count ≡ 0) ⊎ (bad_message t ≡ false))
        × ((t.count ≡ 0)
            ⊎ (link_to p t.peer ≢ Link.rdma_zc)
            ⊎ (t.count * data_type_size t.dtype % 2 ^ 64 ≤ 2 ^ 30)))
unfolding validate_p2p
guards p t = ground arith

-- `ValidateP2p` returns true exactly for the messages whose peer is another rank of the communicator and
-- which are empty or have a buffer, a known type, fewer than 2 ^ 64 bytes, and at most 2 ^ 30 bytes if
-- RDMA joins the two ranks.
pub validate_p2p_lem : (p : Peers) (t : CollTask) → (validate_p2p p t ≡ true) ↔ IsMessage p t
validate_p2p_lem p t = (
  λ h.
      let g = (guards p t).0 h in
      record {
        peer_low = g.0;
        peer_high = g.1;
        other_rank = g.2;
        buffer_given = ground (arith, g.3, bad_message_lem t);
        typed = ground (arith, g.3, bad_message_lem t);
        fits = ground (arith, g.3, bad_message_lem t);
        transferable = ground (arith, g.3, g.4, bad_message_lem t);
      },
  λ a. (guards p t).1 (
    a.peer_low,
    a.peer_high,
    a.other_rank,
    ground (arith, a.buffer_given, a.typed, a.fits, bad_message_lem t),
    ground (arith, a.fits, a.transferable),
  ),
)

same_bytes_sym : (xs ys : List ℕ) → same_bytes xs ys ≡ same_bytes ys xs
same_bytes_sym [] [] = refl
same_bytes_sym [] (y ∷ ys) = refl
same_bytes_sym (x ∷ xs) [] = refl
same_bytes_sym (x ∷ xs) (y ∷ ys) = ground (arith, same_bytes_sym xs ys)

module _ (p q : Peers) (e : p.all_nodes ≡ q.all_nodes) where
  node_of-agree : (r : ℤ) → node_of p r ≡ node_of q r
  node_of-agree r = ap (λ nodes. node_of (record p { all_nodes = nodes }) r) e

  same_machine-agree : same_machine p q.rank ≡ same_machine q p.rank
  unfolding same_machine
  same_machine-agree =
      ap (λ n. same_bytes n.hostname (node_of p q.rank).hostname) (node_of-agree p.rank)
      ∙ (ap (λ n. same_bytes (node_of q p.rank).hostname n.hostname) (node_of-agree q.rank)
          ∙ same_bytes_sym (node_of q p.rank).hostname (node_of q q.rank).hostname)

-- The two ends of a message, `a` and `b`, choose the same kind of transport, and find it usable or
-- not alike, if they have the same nodes and both or neither use shared memory and RDMA.
pub link_to-agree :
    (p q : Peers)
    → p.all_nodes ≡ q.all_nodes
    → p.use_shm ≡ q.use_shm
    → p.rdma_ready ≡ q.rdma_ready
    → (link_to p q.rank ≡ link_to q p.rank) × (p2p_usable p q.rank ≡ p2p_usable q p.rank)
unfolding link_to p2p_usable
link_to-agree p q e f g = (
  ground (arith, same_machine-agree p q e, f, g),
  ground (
    arith,
    same_machine-agree p q e,
    f,
    g,
    ap (λ n. n.p2p_rdma_port) (node_of-agree p q e p.rank),
    ap (λ n. n.p2p_rdma_port) (node_of-agree p q e q.rank),
  ),
)
