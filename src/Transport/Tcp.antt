-- ===== src/Transport/Tcp.antt =====
-- The transfers of src/transport/transport_tcp.cpp over a socket, which is a parameter.
pub mod Transfers
mod Examples
use origin_ccl.Prelude.{ℕ, Bool, List, length, ◌==◌, if◌then◌else◌}
use origin_ccl.Topology.Stepping.{Run, ok, failed, ◌>>=◌, turns}
use origin_ccl.Sockets.{Socket, OnBlock, send_turn, recv_turn}

module _ (socket : Socket) where
  open socket use {World}

  -- `TrySend`, of a transport that is connected if `open_` holds: the progress, and whether it is done.
  unfoldable pub try_send : ℕ → Bool → List ℕ → ℕ → World → Run (ℕ × (Bool × World))
  try_send fuel open_ buffer progress w =
      if open_
      then (turns fuel (send_turn socket OnBlock.leaves buffer) (progress, w) >>= λ out.
          ok (out.0, (out.0 == length buffer, out.1)))
      else failed

  -- `TryRecv`, which gives the buffer too.
  unfoldable pub try_recv : ℕ → Bool → List ℕ → ℕ → World → Run (List ℕ × (ℕ × (Bool × World)))
  try_recv fuel open_ buffer progress w =
      if open_
      then (turns fuel (recv_turn socket OnBlock.leaves) (buffer, (progress, w)) >>= λ out.
          ok (out.0, (out.1.0, (out.1.0 == length out.0, out.1.1))))
      else failed

  unfoldable pub send_raw : ℕ → List ℕ → World → Run World
  send_raw fuel buffer w =
      turns fuel (send_turn socket OnBlock.retries buffer) (0, w) >>= λ out. ok out.1

  unfoldable pub recv_raw : ℕ → List ℕ → World → Run (List ℕ × World)
  recv_raw fuel buffer w =
      turns fuel (recv_turn socket OnBlock.retries) (buffer, (0, w)) >>= λ out. ok (out.0, out.1.1)
