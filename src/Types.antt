-- ===== src/Types.antt =====
-- The data model: include/types.h and include/channel.h. Addresses are numbers and a null pointer is
-- `none`; a `shared_ptr<Transport>` is the number of the transport object, or `none`.
use origin_ccl.Prelude.{ℕ, ◌+◌, Bool, Option, none, List, []}
use origin_ccl.Prelude.Int.{ℤ, pos, negsuc}

-- The enumerations have one constructor more than the source's enumerators: `other n` is a value
-- cast from an integer past the last of them, which the `default` branches of the code handle.
pub data DataType : Type 0 where
  float32 float64 int32 int64 : DataType
  other : ℕ → DataType

pub data ReduceOp : Type 0 where
  sum max min avg : ReduceOp
  other : ℕ → ReduceOp

pub data CollFunc : Type 0 where
  all_reduce broadcast reduce all_gather reduce_scatter send recv : CollFunc
  other : ℕ → CollFunc

-- The underlying integers, by which `<`, `!=` and `static_cast<int>` go.
abbrev pub dtype_code : DataType → ℕ
dtype_code DataType.float32 = 0
dtype_code DataType.float64 = 1
dtype_code DataType.int32 = 2
dtype_code DataType.int64 = 3
dtype_code (DataType.other n) = 4 + n

abbrev pub op_code : ReduceOp → ℕ
op_code ReduceOp.sum = 0
op_code ReduceOp.max = 1
op_code ReduceOp.min = 2
op_code ReduceOp.avg = 3
op_code (ReduceOp.other n) = 4 + n

abbrev pub func_code : CollFunc → ℕ
func_code CollFunc.all_reduce = 0
func_code CollFunc.broadcast = 1
func_code CollFunc.reduce = 2
func_code CollFunc.all_gather = 3
func_code CollFunc.reduce_scatter = 4
func_code CollFunc.send = 5
func_code CollFunc.recv = 6
func_code (CollFunc.other n) = 7 + n

-- Strings are their bytes.
pub record NodeInfo : Type 0 where
  pub rank : ℤ
  pub ip_addr : List ℕ
  pub data_port : ℕ
  pub hostname : List ℕ
  pub rdma_addr : List ℕ
  pub rdma_port : ℕ
  pub p2p_port : ℕ
  pub p2p_rdma_port : ℕ

pub record CollTask : Type 0 where
  pub func : CollFunc
  pub send_buf : Option ℕ
  pub recv_buf : Option ℕ
  pub count : ℕ
  pub dtype : DataType
  pub op : ReduceOp
  pub root : ℤ
  pub peer : ℤ

-- Which of the communicator's three topology objects a task holds.
pub data TopologyKind : Type 0 where
  ring tree p2p : TopologyKind

pub data CollEvent : Type 0 where
  readable writable : CollEvent

-- `state` is value-initialised by the planner, and is modelled with the topologies that step it.
pub record PlanTask : Type 0 where
  pub func : CollFunc
  pub send_buf : Option ℕ
  pub recv_buf : Option ℕ
  pub elem_count : ℕ
  pub chunk_size : ℕ
  pub rank_stride : ℕ
  pub dtype : DataType
  pub reduce_op : ReduceOp
  pub channel_id : ℤ
  pub rank : ℤ
  pub world_size : ℤ
  pub root : ℤ
  pub peer : ℤ
  pub topology : Option TopologyKind
  pub send_transports : List (Option ℕ)
  pub recv_transports : List (Option ℕ)

-- `PlanTask{}`: the default member initialisers.
abbrev pub new_plan_task : PlanTask
new_plan_task = record {
  func = CollFunc.all_reduce;
  send_buf = none;
  recv_buf = none;
  elem_count = 0;
  chunk_size = 0;
  rank_stride = 0;
  dtype = DataType.float32;
  reduce_op = ReduceOp.sum;
  channel_id = pos 0;
  rank = pos 0;
  world_size = pos 1;
  root = pos 0;
  peer = negsuc 0;
  topology = none;
  send_transports = [];
  recv_transports = [];
}

pub record ChannelPlan : Type 0 where
  pub channel_id : ℤ
  pub tasks : List PlanTask

pub record CollPlan : Type 0 where
  pub channels : List ChannelPlan
  pub slices : List PlanTask

pub record Connector : Type 0 where
  pub peer : ℤ
  pub channel_id : ℤ
  pub is_send : Bool
  pub transport : Option ℕ

pub record Ring : Type 0 where
  pub prev : ℤ
  pub next : ℤ

pub record Tree : Type 0 where
  pub parent : ℤ
  pub children : List ℤ
  pub star_peers : List ℤ

pub record Channel : Type 0 where
  pub id : ℤ
  pub ring : Ring
  pub tree : Tree
  pub send : List Connector
  pub recv : List Connector
  pub send_p2p : List Connector
  pub recv_p2p : List Connector

pub record TopoEdge : Type 0 where
  pub peer : ℤ
  pub is_send : Bool
