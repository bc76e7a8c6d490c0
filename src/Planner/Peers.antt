-- ===== src/Planner/Peers.antt =====
-- src/planner.cpp: which transport joins two ranks for messages, and what a message must fulfil.
-- `ValidateP2p`, `P2pUsable`, and the choice of a transport in `ConnectP2p`.
pub mod Messages
pub mod Missing
use origin_ccl.Prelude.{
  ℕ, ◌*◌, ◌/◌, ◌%◌, ◌^◌, Bool, true, false, not, ◌&&◌, ◌||◌, Option, none, some, List, [], ◌∷◌, ltb,
  ◌==◌, if◌then◌else◌,
}
use origin_ccl.Prelude.Int.{ℤ, pos, ltb_ℤ, eqb_ℤ}
use origin_ccl.Types.{CollFunc, CollTask, NodeInfo}
use origin_ccl.Utils.{data_type_size}
use origin_ccl.Channels.{at_index}
use origin_ccl.Planner.Validate.{◌is◌, is_null, size_max}

-- What the planner reads of a communicator to join two ranks.
pub record Peers : Type 0 where
  pub rank : ℤ
  pub world_size : ℤ
  pub all_nodes : List NodeInfo
  pub use_shm : Bool
  pub rdma_ready : Bool

-- `==` of strings.
abbrev pub same_bytes : List ℕ → List ℕ → Bool
same_bytes [] [] = true
same_bytes [] (y ∷ ys) = false
same_bytes (x ∷ xs) [] = false
same_bytes (x ∷ xs) (y ∷ ys) = (x == y) && same_bytes xs ys

-- `NodeInfo()`; the code indexes the nodes by ranks of the communicator only.
abbrev pub no_node : NodeInfo
no_node = record {
  rank = pos 0;
  ip_addr = [];
  data_port = 0;
  hostname = [];
  rdma_addr = [];
  rdma_port = 0;
  p2p_port = 0;
  p2p_rdma_port = 0;
}

abbrev pub node_of : Peers → ℤ → NodeInfo
node_of peers rank = elim (at_index peers.all_nodes rank) [ none ↦ no_node | some node ↦ node ]

pub data Link : Type 0 where
  shm rdma_zc tcp : Link

unfoldable pub same_machine : Peers → ℤ → Bool
same_machine peers peer =
    same_bytes (node_of peers peers.rank).hostname (node_of peers peer).hostname

-- The three branches that `use_shm` and `use_rdma` select.
unfoldable pub link_to : Peers → ℤ → Link
link_to peers peer =
    if same_machine peers peer && peers.use_shm
    then Link.shm
    else if not (same_machine peers peer) || peers.rdma_ready
    then Link.rdma_zc
    else Link.tcp

abbrev pub is_rdma : Link → Bool
is_rdma Link.rdma_zc = true
is_rdma _ = false

-- `TransportRDMAZc::IsTransferSizeSupported`
abbrev pub is_transfer_size_supported : ℕ → Bool
is_transfer_size_supported size = not (ltb (2 ^ 30) size)

abbrev pub message_buffer : CollTask → Option ℕ
message_buffer task = if task.func is CollFunc.send then task.send_buf else task.recv_buf

unfoldable pub bad_message : CollTask → Bool
bad_message task =
    let type_size : ℕ = data_type_size task.dtype in
    is_null (message_buffer task) || (type_size == 0 || ltb (size_max / type_size) task.count)

unfoldable pub validate_p2p : Peers → CollTask → Bool
validate_p2p peers task =
    if ltb_ℤ task.peer (pos 0)
      || (not (ltb_ℤ task.peer peers.world_size) || eqb_ℤ task.peer peers.rank)
    then false
    else if task.count == 0
    then true
    else if bad_message task
    then false
    else not (
        is_rdma (link_to peers task.peer)
        && not (is_transfer_size_supported (task.count * data_type_size task.dtype % 2 ^ 64)))

unfoldable pub p2p_usable : Peers → ℤ → Bool
p2p_usable peers peer = not (
    is_rdma (link_to peers peer)
    && (((node_of peers peers.rank).p2p_rdma_port == 0)
        || ((node_of peers peer).p2p_rdma_port == 0)))
