-- ===== src/Sockets/Streams.antt =====
-- What a stream socket documents of `send` and `recv`.
use origin_ccl.Prelude.{ℕ, zero, suc, ◌≡◌, ◌≤◌, ◌<◌, List, [], ◌∷◌, ◌++◌, length, take}
use origin_ccl.Sockets.{Socket, Sent, Received, OnBlock}

-- `F` says what an error, or a peer that has closed the connection, means: a type without elements for a connection
-- that lasts.
module _ (socket : Socket) (F : Type 0) where
  open socket use {World, send, recv}

  -- A call that takes bytes takes the first ones, and one that blocks takes none. `sent` is all that was
  -- taken so far, and `waits` bounds how often calls may still block.
  abbrev pub SendLaw : (World → List ℕ) → (World → ℕ) → List ℕ → World → Sent × World → Type 0
  SendLaw sent waits bs w (Sent.moved zero, w') = F
  SendLaw sent waits bs w (Sent.moved (suc n), w') =
      (suc n ≤ length bs) × (sent w' ≡ sent w ++ take (suc n) bs) × (waits w' ≤ waits w)
  SendLaw sent waits bs w (Sent.blocked, w') = (sent w' ≡ sent w) × (waits w' < waits w)
  SendLaw sent waits bs w (Sent.broken, w') = F

  -- A call gives the next bytes of the stream, and no more than it was asked for. `got` is all that calls have given.
  abbrev pub RecvLaw : (World → List ℕ) → (World → ℕ) → ℕ → World → Received × World → Type 0
  RecvLaw got waits n w (Received.bytes [], w') = F
  RecvLaw got waits n w (Received.bytes (b ∷ bs), w') =
      (suc (length bs) ≤ n) × (got w' ≡ got w ++ (b ∷ bs)) × (waits w' ≤ waits w)
  RecvLaw got waits n w (Received.blocked, w') = (got w' ≡ got w) × (waits w' < waits w)
  RecvLaw got waits n w (Received.broken, w') = F

  -- The laws hold for calls with at least a byte to send, or room for one.
  pub record IsStream : Type 0 where
    pub sent : World → List ℕ
    pub got : World → List ℕ
    pub waits : World → ℕ
    pub sends : (bs : List ℕ) (w : World) → 0 < length bs → SendLaw sent waits bs w (send bs w)
    pub recvs : (n : ℕ) (w : World) → 0 < n → RecvLaw got waits n w (recv n w)

  -- A call never blocks, on a socket that waits instead.
  abbrev pub SendWaits : Sent × World → Type 0
  SendWaits (Sent.blocked, w) = F
  SendWaits _ = Unit

  abbrev pub RecvWaits : Received × World → Type 0
  RecvWaits (Received.blocked, w) = F
  RecvWaits _ = Unit

  -- A loop that fails when a call blocks asks for a socket that waits.
  abbrev pub SendFits : OnBlock → Type 0
  SendFits OnBlock.fails = (bs : List ℕ) (w : World) → SendWaits (send bs w)
  SendFits _ = Unit

  abbrev pub RecvFits : OnBlock → Type 0
  RecvFits OnBlock.fails = (n : ℕ) (w : World) → RecvWaits (recv n w)
  RecvFits _ = Unit
