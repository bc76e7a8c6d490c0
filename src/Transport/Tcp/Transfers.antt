-- ===== src/Transport/Tcp/Transfers.antt =====
-- About `TrySend`, `TryRecv`, `SendRaw` and `RecvRaw` of src/transport/transport_tcp.cpp.
use origin_ccl.Prelude.{
  ℕ, ◌≡◌, ◌≤◌, ◌<◌, ◌↔◌, ◌+◌, refl, sym, ◌∙◌, ap, arith, Bool, true, false, List, ◌++◌, append-nil,
  length, take, drop, ◌==◌,
}
use origin_ccl.Topology.Stepping.{ok, turns}
use origin_ccl.Topology.Stepping.Loops.{Ends, >>=-Ends}
use origin_ccl.Sockets.{Socket, OnBlock, send_turn, recv_turn}
use origin_ccl.Sockets.Streams.{IsStream}
use origin_ccl.Sockets.Sending.{drop-length, IsSent, send_loop-Ends}
use origin_ccl.Sockets.Receiving.{take-length, IsReceived, recv_loop-Ends}
use origin_ccl.Transport.Tcp.{try_send, try_recv, send_raw, recv_raw}

module _ (socket : Socket) (F : Type 0) (stream : IsStream socket F) where
  open socket use {World}
  open stream use {sent, got, waits}

  -- On a stream socket whose faults give `F`, with more turns than bytes and calls that block, `TrySend` on a progress
  -- within the buffer ends. It fails only if that gives `F`, or gives a progress that is no smaller and within the
  -- buffer, says that it is done just if that is the whole buffer, and has sent the bytes between the two: those sent
  -- and those left make up the same bytes as before.
  pub try_send-Ends :
      (fuel : ℕ) (open_ : Bool) (buffer : List ℕ) (progress : ℕ) (w : World)
      → progress ≤ length buffer
      → length buffer + waits w < fuel
      → (open_ ≡ false → F)
      → Ends
          (λ out.
            (progress ≤ out.0)
            × (out.0 ≤ length buffer)
            × ((out.1.0 ≡ true) ↔ (out.0 ≡ length buffer))
            × (sent out.1.1 ++ drop out.0 buffer ≡ sent w ++ drop progress buffer))
          F
          (try_send socket fuel open_ buffer progress w)
  unfolding try_send
  try_send-Ends fuel false buffer progress w le l closed = closed refl
  try_send-Ends fuel true buffer progress w le l closed =
      >>=-Ends (IsSent socket F stream OnBlock.leaves buffer progress w) _ F
        (turns fuel (send_turn socket OnBlock.leaves buffer) (progress, w))
        (λ out. ok (out.0, (out.0 == length buffer, out.1)))
        (send_loop-Ends socket F stream OnBlock.leaves buffer progress w fuel tt le l)
        (λ out h. (h.sending.on, h.sending.within, ground arith, h.sending.carried))

  -- On a stream socket whose faults give `F`, with more turns than bytes and calls that block, `SendRaw` ends. It fails
  -- only if that gives `F`, or has sent the whole buffer after what was sent before.
  pub send_raw-Ends :
      (fuel : ℕ) (buffer : List ℕ) (w : World)
      → length buffer + waits w < fuel
      → Ends (λ w'. sent w' ≡ sent w ++ buffer) F (send_raw socket fuel buffer w)
  unfolding send_raw
  send_raw-Ends fuel buffer w l =
      >>=-Ends (IsSent socket F stream OnBlock.retries buffer 0 w) _ F
        (turns fuel (send_turn socket OnBlock.retries buffer) (0, w)) (λ out. ok out.1)
        (send_loop-Ends socket F stream OnBlock.retries buffer 0 w fuel tt (omega arith) l)
        (λ out h. all_sent out (h.whole (λ e. absurd (ground (arith, e)))) h.sending.carried)
    where
      all_sent :
          (out : ℕ × World)
          → out.0 ≡ length buffer
          → sent out.1 ++ drop out.0 buffer ≡ sent w ++ buffer
          → sent out.1 ≡ sent w ++ buffer
      all_sent out e c =
          sym (append-nil (sent out.1))
          ∙ ap (λ bs. sent out.1 ++ bs) (sym (ap (λ k. drop k buffer) e ∙ drop-length buffer))
          ∙ c

  -- On a stream socket whose faults give `F`, with more turns than bytes and calls that block, `TryRecv` on a progress
  -- within the buffer ends. It fails only if that gives `F`, or gives a buffer of the same size and a progress that is
  -- no smaller and within it, says that it is done just if that is the whole buffer, and has stored what it took from the
  -- stream behind what the buffer held up to the progress.
  pub try_recv-Ends :
      (fuel : ℕ) (open_ : Bool) (buffer : List ℕ) (progress : ℕ) (w : World)
      → progress ≤ length buffer
      → length buffer + waits w < fuel
      → (open_ ≡ false → F)
      → Ends
          (λ out.
            (length out.0 ≡ length buffer)
            × (progress ≤ out.1.0)
            × (out.1.0 ≤ length buffer)
            × ((out.1.1.0 ≡ true) ↔ (out.1.0 ≡ length out.0))
            × ((arrived : List ℕ) × (take out.1.0 out.0 ≡ take progress buffer ++ arrived)
                × (got out.1.1.1 ≡ got w ++ arrived)))
          F
          (try_recv socket fuel open_ buffer progress w)
  unfolding try_recv
  try_recv-Ends fuel false buffer progress w le l closed = closed refl
  try_recv-Ends fuel true buffer progress w le l closed =
      >>=-Ends (IsReceived socket F stream OnBlock.leaves buffer progress w) _ F
        (turns fuel (recv_turn socket OnBlock.leaves) (buffer, (progress, w)))
        (λ out. ok (out.0, (out.1.0, (out.1.0 == length out.0, out.1.1))))
        (recv_loop-Ends socket F stream OnBlock.leaves buffer progress w fuel tt le l)
        (λ out h. (
          h.receiving.sized,
          h.receiving.on,
          h.receiving.within,
          ground arith,
          (h.receiving.arrived, h.receiving.filled, h.receiving.taken),
        ))

  -- On a stream socket whose faults give `F`, with more turns than bytes and calls that block, `RecvRaw` ends. It fails
  -- only if that gives `F`, or gives a buffer of the same size that holds the next bytes of the stream.
  pub recv_raw-Ends :
      (fuel : ℕ) (buffer : List ℕ) (w : World)
      → length buffer + waits w < fuel
      → Ends
          (λ out. (length out.0 ≡ length buffer) × (got out.1 ≡ got w ++ out.0))
          F
          (recv_raw socket fuel buffer w)
  unfolding recv_raw
  recv_raw-Ends fuel buffer w l =
      >>=-Ends (IsReceived socket F stream OnBlock.retries buffer 0 w) _ F
        (turns fuel (recv_turn socket OnBlock.retries) (buffer, (0, w)))
        (λ out. ok (out.0, out.1.1))
        (recv_loop-Ends socket F stream OnBlock.retries buffer 0 w fuel tt (omega arith) l)
        (λ out h. (
          h.receiving.sized,
          h.receiving.taken
              ∙ ap (λ ys. got w ++ ys)
                  (sym h.receiving.filled
                    ∙ ap (λ k. take k out.0)
                        (h.whole (λ e. absurd (ground (arith, e))) ∙ sym h.receiving.sized)
                    ∙ take-length out.0),
        ))
