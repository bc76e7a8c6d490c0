-- ===== src/Utils/Codec/RoundTrip.antt =====
-- Decoding what was encoded, at any place of a buffer.
use origin_ccl.Prelude.{
  refl, ℕ, ◌+◌, ◌-◌, ◌%◌, ◌^◌, ◌<◌, ◌≡◌, sym, ap, ◌∙◌, some, List, [], ◌++◌, length, append_assoc,
  length-append, take-length_append, drop-length_append, arith,
}
use origin_ccl.Prelude.Int.{ℤ, pos, negsuc, ◌≤ℤ◌}
use origin_ccl.Types.{NodeInfo}
use origin_ccl.Utils.Codec.{
  Decoder, ◌>>=◌, pure, to_u32, of_u32, to_u16, net_bytes, from_net, encode_int, decode_int,
  encode_string, read_bytes, decode_string, encode_node_info, decode_node_info,
}

-- `m` reads `a` from the bytes `bs`, wherever in a buffer they stand, and moves past them.
record Reads {A : Type 0} (m : Decoder A) (a : A) (bs : List ℕ) : Type 0 where
  run :
      (pre rest : List ℕ) → m (pre ++ (bs ++ rest)) (length pre) ≡ some (a, length pre + length bs)

Reads-bind :
    {A B : Type 0} (m : Decoder A) (k : A → Decoder B) (a : A) (b : B) (bs cs : List ℕ)
    → Reads m a bs
    → Reads (k a) b cs
    → Reads (m >>= k) b (bs ++ cs)
Reads-bind {A} {B} m k a b bs cs hm hk = record {
  run = λ pre rest. rw (first pre rest, ◌>>=◌) (second pre rest);
}
  where
    regroup : (pre rest : List ℕ) → pre ++ ((bs ++ cs) ++ rest) ≡ (pre ++ bs) ++ (cs ++ rest)
    regroup pre rest = simp append_assoc

    first :
        (pre rest : List ℕ)
        → m (pre ++ ((bs ++ cs) ++ rest)) (length pre) ≡ some (a, length pre + length bs)
    first pre rest = rw (append_assoc bs cs rest) (hm.run pre (cs ++ rest))

    second :
        (pre rest : List ℕ)
        → k a (pre ++ ((bs ++ cs) ++ rest)) (length pre + length bs)
          ≡ some (b, length pre + length (bs ++ cs))
    second pre rest =
        rw (regroup pre rest, ← length-append pre bs)
          (hk.run (pre ++ bs) rest
            ∙ ap (λ n. some (b, n)) (omega (arith, length-append pre bs, length-append bs cs)))

Reads-pure : {A : Type 0} (a : A) → Reads (pure a) a []
Reads-pure a = record { run = λ pre rest. ap (λ n. some (a, n)) (omega arith) }

-- An integer that an `int` holds.
abbrev pub IsInt : ℤ → Type 0
IsInt v = (negsuc (2 ^ 31 - 1) ≤ℤ v) × (v ≤ℤ pos (2 ^ 31 - 1))

u32_round : (v : ℤ) → IsInt v → of_u32 (to_u32 v) ≡ v
u32_round v h = ground arith

to_u32-lt : (v : ℤ) → to_u32 v < 2 ^ 32
to_u32-lt v = ground arith

pub length-net_bytes : (w : ℕ) → length (net_bytes w) ≡ 4
unfolding net_bytes
length-net_bytes w = refl

pub from-net_bytes : (w : ℕ) (rest : List ℕ) → w < 2 ^ 32 → from_net (net_bytes w ++ rest) ≡ some w
unfolding from_net net_bytes
from-net_bytes w rest h = ap some (omega arith)

decode_int-Reads : (v : ℤ) → IsInt v → Reads decode_int v (net_bytes (to_u32 v))
unfolding decode_int net_bytes
decode_int-Reads v h = record {
  run = λ pre rest.
      rw (drop-length_append pre (net_bytes (to_u32 v) ++ rest), decode_int)
        (rw (from-net_bytes (to_u32 v) rest (to_u32-lt v))
          (ap (λ x. some (x, length pre + 4)) (u32_round v h)));
}

-- A string that the codec can carry: its length fits an `int`.
abbrev pub IsShort : List ℕ → Type 0
IsShort str = length str < 2 ^ 31

read_bytes-Reads : (str : List ℕ) → Reads (read_bytes (pos (length str))) str str
unfolding read_bytes
read_bytes-Reads str = record {
  run = λ pre rest. ground (
    arith,
    length-append pre (str ++ rest),
    length-append str rest,
    drop-length_append pre (str ++ rest),
    take-length_append str rest,
  );
}

size_round : (n : ℕ) → n < 2 ^ 31 → of_u32 (n % 2 ^ 32) ≡ pos n
size_round n h = ground arith

abbrev string_bytes : List ℕ → List ℕ
string_bytes str = net_bytes (to_u32 (pos (length str))) ++ str

decode_string-Reads : (str : List ℕ) → IsShort str → Reads decode_string str (string_bytes str)
unfolding decode_string
decode_string-Reads str h =
    Reads-bind decode_int read_bytes (pos (length str)) str _ str
      (decode_int-Reads (pos (length str)) (omega arith)) (read_bytes-Reads str)

encode_string-append :
    (buffer str : List ℕ) → IsShort str → encode_string buffer str ≡ buffer ++ string_bytes str
unfolding encode_string encode_int
encode_string-append buffer str h = rw (size_round (length str) h) (append_assoc buffer _ str)

-- What `NodeInfo` may hold: the rank fits an `int`, the ports 16 bits, the strings' lengths an `int`.
pub record IsCarried (node : NodeInfo) : Type 0 where
  pub rank_fits : IsInt node.rank
  pub ip_short : IsShort node.ip_addr
  pub host_short : IsShort node.hostname
  pub rdma_short : IsShort node.rdma_addr
  pub data_port_fits : node.data_port < 2 ^ 16
  pub rdma_port_fits : node.rdma_port < 2 ^ 16
  pub p2p_port_fits : node.p2p_port < 2 ^ 16
  pub p2p_rdma_port_fits : node.p2p_rdma_port < 2 ^ 16

abbrev int_bytes : ℤ → List ℕ
int_bytes v = net_bytes (to_u32 v)

abbrev node_bytes : NodeInfo → List ℕ
node_bytes n =
    int_bytes n.rank
    ++ (string_bytes n.ip_addr
        ++ (int_bytes (pos n.data_port)
            ++ (string_bytes n.hostname
                ++ (string_bytes n.rdma_addr
                    ++ (int_bytes (pos n.rdma_port)
                        ++ (int_bytes (pos n.p2p_port)
                            ++ (int_bytes (pos n.p2p_rdma_port) ++ [])))))))

encode_node_info-append :
    (buffer : List ℕ) (node : NodeInfo)
    → IsCarried node
    → encode_node_info buffer node ≡ buffer ++ node_bytes node
unfolding encode_node_info encode_int net_bytes
encode_node_info-append buffer node c = simp (
  encode_string-append _ node.ip_addr c.ip_short,
  encode_string-append _ node.hostname c.host_short,
  encode_string-append _ node.rdma_addr c.rdma_short,
  append_assoc,
)

port_round : (p : ℕ) → p < 2 ^ 16 → to_u16 (pos p) ≡ p
port_round p h = omega arith

decode_port-Reads : (p : ℕ) → p < 2 ^ 16 → Reads decode_int (pos p) (int_bytes (pos p))
decode_port-Reads p h = decode_int-Reads (pos p) (omega arith)

decode_node_info-Reads :
    (node : NodeInfo) → IsCarried node → Reads decode_node_info node (node_bytes node)
unfolding decode_node_info
decode_node_info-Reads node c =
    Reads-bind decode_int _ _ _ _ _ (decode_int-Reads node.rank c.rank_fits) (
      Reads-bind decode_string _ _ _ _ _ (decode_string-Reads node.ip_addr c.ip_short) (
        Reads-bind decode_int _ _ _ _ _ (decode_port-Reads node.data_port c.data_port_fits) (
          Reads-bind decode_string _ _ _ _ _ (decode_string-Reads node.hostname c.host_short) (
            Reads-bind decode_string _ _ _ _ _ (decode_string-Reads node.rdma_addr c.rdma_short) (
              Reads-bind decode_int _ _ _ _ _ (decode_port-Reads node.rdma_port c.rdma_port_fits) (
                Reads-bind decode_int _ _ _ _ _ (decode_port-Reads node.p2p_port c.p2p_port_fits) (
                  Reads-bind decode_int _ _ _ _ _
                    (decode_port-Reads node.p2p_rdma_port c.p2p_rdma_port_fits) last)))))))
  where
    last :
        Reads
          (pure (record node {
            data_port = to_u16 (pos node.data_port);
            rdma_port = to_u16 (pos node.rdma_port);
            p2p_port = to_u16 (pos node.p2p_port);
            p2p_rdma_port = to_u16 (pos node.p2p_rdma_port);
          }))
          node
          []
    last =
        rw
          (
            port_round node.data_port c.data_port_fits,
            port_round node.rdma_port c.rdma_port_fits,
            port_round node.p2p_port c.p2p_port_fits,
            port_round node.p2p_rdma_port c.p2p_rdma_port_fits,
          )
          (Reads-pure node)

-- `EncodeNodeInfo` appends to the buffer, and `DecodeNodeInfo` at the buffer's old end gives back the
-- node and leaves the offset at the new end, whatever bytes follow. The node's rank fits an `int`, its
-- ports fit 16 bits, and its strings are shorter than 2 ^ 31 bytes.
pub decode-encode_node_info :
    (buffer rest : List ℕ) (node : NodeInfo)
    → IsCarried node
    → decode_node_info (encode_node_info buffer node ++ rest) (length buffer)
      ≡ some (node, length (encode_node_info buffer node))
decode-encode_node_info buffer rest node c =
    rw (encode_node_info-append buffer node c, append_assoc buffer (node_bytes node) rest)
      ((decode_node_info-Reads node c).run buffer rest
        ∙ ap (λ n. some (node, n)) (sym (length-append buffer (node_bytes node))))
