-- ===== src/Utils/Examples.antt =====
-- A node in a buffer that already holds a byte, with one more byte behind it.
use origin_ccl.Prelude.{ℕ, ◌≡◌, List, [], ◌∷◌, ◌++◌, length, some, arith}
use origin_ccl.Prelude.Int.{pos}
use origin_ccl.Types.{NodeInfo}
use origin_ccl.Utils.Codec.{encode_node_info, decode_node_info}
use origin_ccl.Utils.Codec.RoundTrip.{IsCarried, decode-encode_node_info}

abbrev node : NodeInfo
node = record {
  rank = pos 3;
  ip_addr = 49 ∷ 48 ∷ [];
  data_port = 40000;
  hostname = 104 ∷ [];
  rdma_addr = [];
  rdma_port = 40001;
  p2p_port = 40002;
  p2p_rdma_port = 65535;
}

abbrev prefix : List ℕ
prefix = 7 ∷ []

node-IsCarried : IsCarried node
node-IsCarried = record {
  rank_fits = (omega arith, omega arith);
  ip_short = omega arith;
  host_short = omega arith;
  rdma_short = omega arith;
  data_port_fits = omega arith;
  rdma_port_fits = omega arith;
  p2p_port_fits = omega arith;
  p2p_rdma_port_fits = omega arith;
}

decode-encode_node_info_example :
    decode_node_info (encode_node_info prefix node ++ (9 ∷ [])) (length prefix)
    ≡ some (node, length (encode_node_info prefix node))
decode-encode_node_info_example = decode-encode_node_info prefix (9 ∷ []) node node-IsCarried
