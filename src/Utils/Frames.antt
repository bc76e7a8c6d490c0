-- ===== src/Utils/Frames.antt =====
-- `SendAll` and `RecvAll` of src/utils.cpp: a buffer behind its size, which `htonl` makes four bytes.
pub mod RoundTrip
mod Examples
use origin_ccl.Prelude.{
  ℕ, ◌+◌, ◌%◌, ◌^◌, Option, none, some, List, [], ◌∷◌, length, replicate, ◌==◌, if◌then◌else◌,
}
use origin_ccl.Topology.Stepping.{Run, ok, failed, ◌>>=◌, turns}
use origin_ccl.Sockets.{Socket, Sent, Received, OnBlock, send_turn, recv_turn}
use origin_ccl.Utils.Codec.{net_bytes, from_net}

module _ (socket : Socket) where
  open socket use {World, send, recv}

  -- What follows the `send` of the size.
  abbrev pub send_rest : ℕ → List ℕ → Sent × World → Run World
  send_rest fuel buffer (Sent.moved n, w) =
      if n == 4
      then (turns fuel (send_turn socket OnBlock.fails buffer) (0, w) >>= λ out. ok out.1)
      else failed
  send_rest fuel buffer _ = failed

  unfoldable pub send_all : ℕ → List ℕ → World → Run World
  send_all fuel buffer w = send_rest fuel buffer (send (net_bytes (length buffer % 2 ^ 32)) w)

  -- `ntohl` of four bytes and the rest of the function. Whatever the buffer held is overwritten.
  abbrev pub recv_body : ℕ → Option ℕ → World → Run (List ℕ × World)
  recv_body fuel none w = failed
  recv_body fuel (some size) w =
      if size == 0
      then ok ([], w)
      else (turns fuel (recv_turn socket OnBlock.fails) (replicate size 0, (0, w)) >>= λ out.
          ok (out.0, out.1.1))

  abbrev pub recv_rest : ℕ → Received × World → Run (List ℕ × World)
  recv_rest fuel (Received.bytes bs, w) =
      if length bs == 4 then recv_body fuel (from_net bs) w else failed
  recv_rest fuel _ = failed

  unfoldable pub recv_all : ℕ → World → Run (List ℕ × World)
  recv_all fuel w = recv_rest fuel (recv 4 w)
