-- ===== src/Sockets.antt =====
-- `send` and `recv` of the operating system on one socket, and the loops over them of src/transport/transport_tcp.cpp
-- and src/utils.cpp. A buffer is the list of its bytes, as long as the `size` that goes with it.
pub mod Streams
pub mod Sending
pub mod Receiving
pub mod Pipes
use origin_ccl.Prelude.{
  ℕ, zero, suc, ◌+◌, ◌-◌, List, [], ◌∷◌, ◌++◌, length, take, drop, ltb, if◌then◌else◌,
}
use origin_ccl.Topology.Stepping.{Turn}

-- How a call ends: `blocked` is -1 with EAGAIN, EWOULDBLOCK or EINTR in `errno`, `broken` is any other -1.
pub data Sent : Type 0 where
  moved : ℕ → Sent
  blocked broken : Sent

pub data Received : Type 0 where
  bytes : List ℕ → Received
  blocked broken : Received

-- The calls take the bytes to send, or the most bytes to receive.
pub record Socket : Type 1 where
  pub World : Type 0
  pub send : List ℕ → World → Sent × World
  pub recv : ℕ → World → Received × World

-- What a loop does when a call blocks: `TrySend` and `TryRecv` leave it, `SendRaw` and `RecvRaw` try again, and the
-- loops of `SendAll` and `RecvAll` fail.
pub data OnBlock : Type 0 where
  leaves retries fails : OnBlock

abbrev pub on_blocked {ℓ} : {A : Type ℓ} → OnBlock → A → Turn A
on_blocked OnBlock.leaves a = Turn.stop a
on_blocked OnBlock.retries a = Turn.again a
on_blocked OnBlock.fails a = Turn.fail

-- A buffer in which bytes were stored from an offset on.
abbrev pub stored : List ℕ → ℕ → List ℕ → List ℕ
stored buffer offset bs = take offset buffer ++ (bs ++ drop (offset + length bs) buffer)

module _ (socket : Socket) where
  open socket use {World, send, recv}

  abbrev pub after_send : OnBlock → ℕ → Sent × World → Turn (ℕ × World)
  after_send mode progress (Sent.moved zero, w) = Turn.fail
  after_send mode progress (Sent.moved (suc n), w) = Turn.again (progress + suc n, w)
  after_send mode progress (Sent.blocked, w) = on_blocked mode (progress, w)
  after_send mode progress (Sent.broken, w) = Turn.fail

  -- A turn of a loop that sends.
  unfoldable pub send_turn : OnBlock → List ℕ → ℕ × World → Turn (ℕ × World)
  send_turn mode buffer (progress, w) =
      if ltb progress (length buffer)
      then after_send mode progress (send (drop progress buffer) w)
      else Turn.stop (progress, w)

  abbrev pub after_recv : OnBlock → List ℕ → ℕ → Received × World → Turn (List ℕ × (ℕ × World))
  after_recv mode buffer progress (Received.bytes [], w) = Turn.fail
  after_recv mode buffer progress (Received.bytes (b ∷ bs), w) =
      Turn.again (stored buffer progress (b ∷ bs), (progress + suc (length bs), w))
  after_recv mode buffer progress (Received.blocked, w) = on_blocked mode (buffer, (progress, w))
  after_recv mode buffer progress (Received.broken, w) = Turn.fail

  -- A turn of a loop that receives, with the buffer and the progress as its state.
  unfoldable pub recv_turn : OnBlock → List ℕ × (ℕ × World) → Turn (List ℕ × (ℕ × World))
  recv_turn mode (buffer, (progress, w)) =
      if ltb progress (length buffer)
      then after_recv mode buffer progress (recv (length buffer - progress) w)
      else Turn.stop (buffer, (progress, w))
