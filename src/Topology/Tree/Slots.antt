-- ===== src/Topology/Tree/Slots.antt =====
-- The tree's parallel sequences: the edges that the transport layer connects, the transports of a
-- slice, and the roles by which the stepping code reads them.
use origin_ccl.Prelude.{
  ℕ, ◌≡◌, refl, ap, Bool, true, false, not, ◌||◌, some, List, [], ◌∷◌, inl, inr, Bool-cases, ◌++◌,
  map, length, replicate, All, if◌then◌else◌, ◌==◌, get_or, arith,
}
use origin_ccl.Prelude.Int.{ℤ, pos, negsuc, ltb_ℤ, eqb_ℤ}
use origin_ccl.Types.{Channel, PlanTask, TopoEdge}
use origin_ccl.Channels.{send_connector, recv_connector, connected}
use origin_ccl.Topology.Tree.{
  Role, Machines, fill_channel, roles_of, tree_peers, star_peers_of, children_of, parent_of,
  send_side, recv_side, fill_transports, both_edges, fill_peers,
}

-- A peer with a transport either way, as the transport layer leaves it: `sends` and `recvs` name them.
pub record IsConnected (channel : Channel) (sends recvs : ℤ → ℕ) (peer : ℤ) : Type 0 where
  pub to_peer : connected (send_connector channel peer) ≡ some (sends peer) ∷ []
  pub from_peer : connected (recv_connector channel peer) ≡ some (recvs peer) ∷ []

send_side_lem :
    (channel : Channel) (sends recvs : ℤ → ℕ) (peers : List ℤ)
    → All (IsConnected channel sends recvs) peers
    → send_side channel peers ≡ map (λ p. some (sends p)) peers
send_side_lem channel sends recvs [] a = refl
send_side_lem channel sends recvs (p ∷ ps) a =
    let h : IsConnected channel sends recvs p = a.0 in
    rw h.to_peer (rw (send_side_lem channel sends recvs ps a.1) refl)

recv_side_lem :
    (channel : Channel) (sends recvs : ℤ → ℕ) (peers : List ℤ)
    → All (IsConnected channel sends recvs) peers
    → recv_side channel peers ≡ map (λ p. some (recvs p)) peers
recv_side_lem channel sends recvs [] a = refl
recv_side_lem channel sends recvs (p ∷ ps) a =
    let h : IsConnected channel sends recvs p = a.0 in
    rw h.from_peer (rw (recv_side_lem channel sends recvs ps a.1) refl)

abbrev pub is_among : ℤ → List ℤ → Bool
is_among p [] = false
is_among p (q ∷ qs) = eqb_ℤ p q || is_among p qs

-- Whether a role of a channel's tree is that of a peer.
abbrev pub IsRoleOf : Channel → Role → ℤ → Type 0
IsRoleOf channel Role.star peer = is_among peer channel.tree.star_peers ≡ true
IsRoleOf channel Role.tree_down peer = is_among peer channel.tree.children ≡ true
IsRoleOf channel Role.tree_up peer = peer ≡ channel.tree.parent

-- One role for each peer, in the same order.
abbrev pub AreRolesOf : Channel → List Role → List ℤ → Type 0
AreRolesOf channel [] [] = Unit
AreRolesOf channel [] (p ∷ peers) = ⊥
AreRolesOf channel (r ∷ roles) [] = ⊥
AreRolesOf channel (r ∷ roles) (p ∷ peers) = IsRoleOf channel r p × AreRolesOf channel roles peers

eqb_ℤ_self : (p : ℤ) → eqb_ℤ p p ≡ true
eqb_ℤ_self p = ground arith

AreRolesOf-replicate :
    (channel : Channel) (role : Role) (peers : List ℤ) (roles : List Role) (others : List ℤ)
    → ((p : ℤ) → is_among p peers ≡ true → IsRoleOf channel role p)
    → AreRolesOf channel roles others
    → AreRolesOf channel (replicate (length peers) role ++ roles) (peers ++ others)
AreRolesOf-replicate channel role [] roles others h rest = rest
AreRolesOf-replicate channel role (p ∷ peers) roles others h rest = (
  h p (ground (arith, eqb_ℤ_self p)),
  AreRolesOf-replicate channel role peers roles others (λ q e. h q (ground (arith, e))) rest,
)

parent-AreRolesOf :
    (channel : Channel) (is_root : Bool)
    → AreRolesOf channel
        (if is_root then [] else Role.tree_up ∷ [])
        (if is_root then [] else channel.tree.parent ∷ [])
parent-AreRolesOf channel true = tt
parent-AreRolesOf channel false = (refl, tt)

-- A rank that leads no machine has its leader as its only peer, and the leader is its star peer.
follower :
    (m : Machines) (channel : Channel)
    → (m.local_rank == 0) ≡ false
    → AreRolesOf (fill_channel m channel) (Role.star ∷ []) (tree_peers (fill_channel m channel))
unfolding fill_channel star_peers_of children_of parent_of
follower m channel e = rw e (ground (arith, eqb_ℤ_self (get_or m.local_ranks 0 (negsuc 0))), tt)

roles_of-AreRolesOf :
    (m : Machines) (channel : Channel)
    → AreRolesOf (fill_channel m channel) (roles_of m channel) (tree_peers (fill_channel m channel))
unfolding roles_of
roles_of-AreRolesOf m channel = elim (Bool-cases (m.local_rank == 0)) [
  | inl e ↦
      let c : Channel = fill_channel m channel in
      rw e (
        AreRolesOf-replicate c Role.star c.tree.star_peers _ _ (λ p h. h)
          (AreRolesOf-replicate c Role.tree_down c.tree.children _ _ (λ p h. h)
            (parent-AreRolesOf c (ltb_ℤ c.tree.parent (pos 0)))))
  | inr e ↦ rw e (follower m channel e)
]

-- The peers of the sending or of the receiving edges.
abbrev pub edges_at : Bool → List TopoEdge → List ℤ
edges_at is_send [] = []
edges_at is_send (e ∷ edges) =
    if (if is_send then e.is_send else not e.is_send)
    then e.peer ∷ edges_at is_send edges
    else edges_at is_send edges

edges_at-both_edges :
    (is_send : Bool) (peers : List ℤ) → edges_at is_send (both_edges peers) ≡ peers
edges_at-both_edges is_send [] = refl
edges_at-both_edges true (p ∷ peers) = ap (λ l. p ∷ l) (edges_at-both_edges true peers)
edges_at-both_edges false (p ∷ peers) = ap (λ l. p ∷ l) (edges_at-both_edges false peers)

-- On a channel that `FillChannels` filled and whose peers all have a transport either way: the edges that
-- `FillPeers` asks the transport layer for are a sending and a receiving one for each peer,
-- `FillTransports` gives a task the transports to and from these peers in the same order, and so stand the roles, one
-- for each peer: that of a star peer, of a child, or of the parent, as the peer is one.
pub fill_transports-aligned :
    (m : Machines) (channel : Channel) (task : PlanTask) (sends recvs : ℤ → ℕ)
    → All (IsConnected (fill_channel m channel) sends recvs) (tree_peers (fill_channel m channel))
    → (edges_at true (fill_peers (fill_channel m channel)) ≡ tree_peers (fill_channel m channel))
      × (edges_at false (fill_peers (fill_channel m channel)) ≡ tree_peers (fill_channel m channel))
      × ((fill_transports (fill_channel m channel) task).send_transports
          ≡ map (λ p. some (sends p)) (tree_peers (fill_channel m channel)))
      × ((fill_transports (fill_channel m channel) task).recv_transports
          ≡ map (λ p. some (recvs p)) (tree_peers (fill_channel m channel)))
      × AreRolesOf
          (fill_channel m channel)
          (roles_of m channel)
          (tree_peers (fill_channel m channel))
unfolding fill_peers fill_transports
fill_transports-aligned m channel task sends recvs a =
    let c : Channel = fill_channel m channel in
    let peers : List ℤ = tree_peers c in
    (
      edges_at-both_edges true peers,
      edges_at-both_edges false peers,
      send_side_lem c sends recvs peers a,
      recv_side_lem c sends recvs peers a,
      roles_of-AreRolesOf m channel,
    )
