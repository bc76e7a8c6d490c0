-- ===== src/Utils/Codec.antt =====
-- The byte codec of src/utils.cpp: `EncodeInt` to `DecodeNodeInfo`. A buffer is the list of its
-- bytes. A decoder takes the buffer and the offset, and gives the value with the offset moved on;
-- `none` is a read past the end of the buffer, or a negative string length, which the constructor of
-- `std::string` rejects.
pub mod RoundTrip
use origin_ccl.Prelude.{
  ℕ, zero, suc, ◌+◌, ◌-◌, ◌*◌, ◌/◌, ◌%◌, ◌^◌, Option, none, some, List, [], ◌∷◌, ◌++◌, length, take,
  drop, ltb, leb, if◌then◌else◌,
}
use origin_ccl.Prelude.Int.{ℤ, pos, negsuc}
use origin_ccl.Types.{NodeInfo}

abbrev pub Decoder : Type 0 → Type 0
Decoder A = List ℕ → ℕ → Option (A × ℕ)

infixl 5 ◌>>=◌
abbrev pub ◌>>=◌ : {A B : Type 0} → Decoder A → (A → Decoder B) → Decoder B
◌>>=◌ m f buffer offset = elim (m buffer offset) [ none ↦ none | some (a, next) ↦ f a buffer next ]

abbrev pub pure : {A : Type 0} → A → Decoder A
pure a buffer offset = some (a, offset)

-- `static_cast<uint32_t>` of an `int`, and back.
abbrev pub to_u32 : ℤ → ℕ
to_u32 (pos n) = n % 2 ^ 32
to_u32 (negsuc n) = (2 ^ 32 - suc n % 2 ^ 32) % 2 ^ 32

abbrev pub of_u32 : ℕ → ℤ
of_u32 w = if ltb w (2 ^ 31) then pos w else negsuc (2 ^ 32 - w - 1)

-- The four bytes of `htonl`, most significant first.
unfoldable pub net_bytes : ℕ → List ℕ
net_bytes w = (w / 2 ^ 24 % 256) ∷ (w / 2 ^ 16 % 256) ∷ (w / 2 ^ 8 % 256) ∷ (w % 256) ∷ []

-- `ntohl` of the first four bytes.
pub from_net : List ℕ → Option ℕ
from_net (a ∷ b ∷ c ∷ d ∷ rest) = some (a * 2 ^ 24 + b * 2 ^ 16 + c * 2 ^ 8 + d)
from_net _ = none

unfoldable pub encode_int : List ℕ → ℤ → List ℕ
encode_int buffer value = buffer ++ net_bytes (to_u32 value)

pub decode_int : Decoder ℤ
decode_int buffer offset = elim (from_net (drop offset buffer)) [
  | none ↦ none
  | some w ↦ some (of_u32 w, offset + 4)
]

unfoldable pub encode_string : List ℕ → List ℕ → List ℕ
encode_string buffer str = encode_int buffer (of_u32 (length str % 2 ^ 32)) ++ str

-- `std::string ret(buffer + offset, length); offset += length`
pub read_bytes : ℤ → Decoder (List ℕ)
read_bytes (negsuc n) buffer offset = none
read_bytes (pos n) buffer offset =
    if leb (offset + n) (length buffer)
    then some (take n (drop offset buffer), offset + n)
    else none

pub decode_string : Decoder (List ℕ)
decode_string = do size ← decode_int; read_bytes size

unfoldable pub encode_node_info : List ℕ → NodeInfo → List ℕ
encode_node_info buffer node =
    let b1 : List ℕ = encode_int buffer node.rank in
    let b2 : List ℕ = encode_string b1 node.ip_addr in
    let b3 : List ℕ = encode_int b2 (pos node.data_port) in
    let b4 : List ℕ = encode_string b3 node.hostname in
    let b5 : List ℕ = encode_string b4 node.rdma_addr in
    let b6 : List ℕ = encode_int b5 (pos node.rdma_port) in
    let b7 : List ℕ = encode_int b6 (pos node.p2p_port) in encode_int b7 (pos node.p2p_rdma_port)

-- `static_cast<uint16_t>` of a decoded integer.
abbrev pub to_u16 : ℤ → ℕ
to_u16 v = to_u32 v % 2 ^ 16

unfoldable pub decode_node_info : Decoder NodeInfo
decode_node_info = do
  rank ← decode_int
  ip_addr ← decode_string
  data_port ← decode_int
  hostname ← decode_string
  rdma_addr ← decode_string
  rdma_port ← decode_int
  p2p_port ← decode_int
  p2p_rdma_port ← decode_int
  pure (record {
    rank = rank;
    ip_addr = ip_addr;
    data_port = to_u16 data_port;
    hostname = hostname;
    rdma_addr = rdma_addr;
    rdma_port = to_u16 rdma_port;
    p2p_port = to_u16 p2p_port;
    p2p_rdma_port = to_u16 p2p_rdma_port;
  })
