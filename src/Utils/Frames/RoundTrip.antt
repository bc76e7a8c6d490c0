-- ===== src/Utils/Frames/RoundTrip.antt =====
-- About `SendAll` and `RecvAll` of src/utils.cpp.
use origin_ccl.Prelude.{
  ℕ, zero, suc, ◌≡◌, ◌<◌, ◌≤◌, length-append, ◌+◌, ◌%◌, ◌^◌, ◌⊎◌, inl, inr, refl, sym, ◌∙◌, ap,
  subst, arith, some, List, [], ◌∷◌, ◌++◌, append-nil, append_assoc, length, length-replicate, take,
  drop, take-length_append, drop-length_append, replicate, ◌==◌, ==→eq, by_test,
}
use origin_ccl.Topology.Stepping.{ok, turns}
use origin_ccl.Topology.Stepping.Loops.{Ends, >>=-Ends, Ends-at, Ends-map}
use origin_ccl.Sockets.{Socket, Sent, Received, OnBlock, send_turn, recv_turn}
use origin_ccl.Sockets.Streams.{SendLaw, RecvLaw, SendFits, RecvFits, IsStream}
use origin_ccl.Sockets.Sending.{drop-length, IsSent, send_loop-Ends}
use origin_ccl.Sockets.Receiving.{take-length, IsReceived, recv_loop-Ends}
use origin_ccl.Utils.Codec.{net_bytes, from_net}
use origin_ccl.Utils.Codec.RoundTrip.{length-net_bytes, from-net_bytes}
use origin_ccl.Utils.Frames.{send_rest, send_all, recv_body, recv_rest, recv_all}

-- The bytes of a buffer behind its size.
abbrev pub frame : List ℕ → List ℕ
frame buffer = net_bytes (length buffer % 2 ^ 32) ++ buffer

same_prefix :
    (base xs ys more rest : List ℕ)
    → base ++ (xs ++ more) ≡ base ++ (ys ++ rest)
    → length xs ≡ length ys
    → xs ≡ ys
same_prefix base xs ys more rest e l =
    let e' : xs ++ more ≡ ys ++ rest =
      sym (drop-length_append base (xs ++ more))
      ∙ ap (drop (length base)) e
      ∙ drop-length_append base (ys ++ rest) in
    sym (take-length_append xs more)
    ∙ ap (take (length xs)) e'
    ∙ ap (λ n. take n (ys ++ rest)) l
    ∙ take-length_append ys rest

module _ (F : Type 0) where
  -- The size goes, or comes, in one call.
  abbrev pub IsSizeSent : {W : Type 0} → Sent × W → Type 0
  IsSizeSent (Sent.moved n, w) = (n ≡ 4) ⊎ F
  IsSizeSent (Sent.blocked, w) = F
  IsSizeSent (Sent.broken, w) = F

  abbrev pub IsSizeReceived : {W : Type 0} → Received × W → Type 0
  IsSizeReceived (Received.bytes bs, w) = (length bs ≡ 4) ⊎ F
  IsSizeReceived (Received.blocked, w) = F
  IsSizeReceived (Received.broken, w) = F

  -- A socket that waits until it can go on. `F` says what a fault means.
  pub record IsBlocking (socket : Socket) : Type 0 where
    pub stream : IsStream socket F
    pub send_waits : SendFits socket F OnBlock.fails
    pub recv_waits : RecvFits socket F OnBlock.fails
    pub size_sent : (bs : List ℕ) (w : socket.World) → length bs ≡ 4 → IsSizeSent (socket.send bs w)
    pub size_received : (w : socket.World) → IsSizeReceived (socket.recv 4 w)

module _ (socket : Socket) (F : Type 0) (blocking : IsBlocking F socket) where
  open socket use {World, send, recv}
  open blocking use {stream}
  open stream use {sent, got, waits}

  send_rest-Ends :
      (fuel : ℕ) (buffer : List ℕ) (size : List ℕ) (w : World) (r : Sent × World)
      → length size ≡ 4
      → length buffer + waits w < fuel
      → SendLaw socket F sent waits size w r
      → IsSizeSent F r
      → Ends (λ w'. sent w' ≡ sent w ++ (size ++ buffer)) F (send_rest socket fuel buffer r)
  send_rest-Ends fuel buffer size w (Sent.moved zero, w1) l4 l law whole = law
  send_rest-Ends fuel buffer size w (Sent.moved (suc n), w1) l4 l law whole =
      by_test (Ends (λ w'. sent w' ≡ sent w ++ (size ++ buffer)) F) (suc n == 4)
        (λ e.
          >>=-Ends (IsSent socket F stream OnBlock.fails buffer 0 w1) _ F
            (turns fuel (send_turn socket OnBlock.fails buffer) (0, w1)) (λ out. ok out.1)
            (send_loop-Ends socket F stream OnBlock.fails buffer 0 w1 fuel blocking.send_waits
              (omega arith) (omega (arith, law.2)))
            (λ out h.
              after_all out (==→eq (suc n) 4 e) (h.whole (λ m. absurd (ground (arith, m))))
                h.sending.carried))
        (λ e. elim whole [ inl four ↦ absurd (ground (arith, e, four)) | inr f ↦ f ])
    where
      after_all :
          (out : ℕ × World)
          → suc n ≡ 4
          → out.0 ≡ length buffer
          → sent out.1 ++ drop out.0 buffer ≡ sent w1 ++ buffer
          → sent out.1 ≡ sent w ++ (size ++ buffer)
      after_all out four e c =
          sym (append-nil (sent out.1))
          ∙ ap (λ bs. sent out.1 ++ bs) (sym (ap (λ k. drop k buffer) e ∙ drop-length buffer))
          ∙ c
          ∙ ap (λ bs. bs ++ buffer)
              (law.1
                ∙ ap (λ bs. sent w ++ bs)
                    (ap (λ k. take k size) (four ∙ sym l4) ∙ take-length size))
          ∙ append_assoc (sent w) size buffer
  send_rest-Ends fuel buffer size w (Sent.blocked, w1) l4 l law whole = whole
  send_rest-Ends fuel buffer size w (Sent.broken, w1) l4 l law whole = law

  -- On a socket that waits and whose faults give `F`, with more turns than bytes and calls that block, `SendAll` ends. It
  -- fails only if that gives `F`, or has sent the four bytes of the size and then the buffer.
  pub send_all-Ends :
      (fuel : ℕ) (buffer : List ℕ) (w : World)
      → length buffer + waits w < fuel
      → Ends (λ w'. sent w' ≡ sent w ++ frame buffer) F (send_all socket fuel buffer w)
  unfolding send_all
  send_all-Ends fuel buffer w l =
      let size : List ℕ = net_bytes (length buffer % 2 ^ 32) in
      let four : length size ≡ 4 = length-net_bytes (length buffer % 2 ^ 32) in
      send_rest-Ends fuel buffer size w (send size w) four l
        (stream.sends size w (omega (arith, four))) (blocking.size_sent size w four)

  module _ (whole : List ℕ)
      (arrives : (w : World)
        → length (got w) ≤ length whole
        → (rest : List ℕ) × (whole ≡ got w ++ rest)) where
    -- What was received is no more than the stream holds.
    fits_in :
        (w w' : World) (bs next later : List ℕ)
        → whole ≡ got w ++ (next ++ later)
        → got w' ≡ got w ++ bs
        → length bs ≡ length next
        → length (got w') ≤ length whole
    fits_in w w' bs next later e g l = omega (
      arith,
      ap length e,
      ap length g,
      l,
      length-append (got w) bs,
      length-append (got w) (next ++ later),
      length-append next later,
    )

    -- What was received after a point of the stream are the bytes that follow it.
    received_next :
        (w w' : World) (bs next later : List ℕ)
        → whole ≡ got w ++ (next ++ later)
        → got w' ≡ got w ++ bs
        → length bs ≡ length next
        → bs ≡ next
    received_next w w' bs next later e g l =
        let (rest, e') = arrives w' (fits_in w w' bs next later e g l) in
        same_prefix (got w) bs next rest later
          (sym (append_assoc (got w) bs rest) ∙ ap (λ ys. ys ++ rest) (sym g) ∙ sym e' ∙ e) l

    recv_body-Ends :
        (fuel : ℕ) (buffer later : List ℕ) (w w1 : World)
        → whole ≡ got w1 ++ (buffer ++ later)
        → length buffer + waits w1 < fuel
        → Ends
            (λ out. (out.0 ≡ buffer) × (got out.1 ≡ got w1 ++ buffer))
            F
            (recv_body socket fuel (some (length buffer)) w1)
    recv_body-Ends fuel [] later w w1 e l = (refl, sym (append-nil (got w1)))
    recv_body-Ends fuel (b ∷ bs) later w w1 e l =
        by_test (Ends (λ out. (out.0 ≡ b ∷ bs) × (got out.1 ≡ got w1 ++ (b ∷ bs))) F)
          (length (b ∷ bs) == 0) (λ z. absurd (omega (arith, ==→eq (length (b ∷ bs)) 0 z)))
          (λ z.
            >>=-Ends (IsReceived socket F stream OnBlock.fails zeros 0 w1)
              (λ out. (out.0 ≡ b ∷ bs) × (got out.1 ≡ got w1 ++ (b ∷ bs))) F
              (turns fuel (recv_turn socket OnBlock.fails) (zeros, (0, w1)))
              (λ out. ok (out.0, out.1.1))
              (recv_loop-Ends socket F stream OnBlock.fails zeros 0 w1 fuel blocking.recv_waits
                (omega arith) (omega (arith, l, sized)))
              (λ out h. after_all out h))
      where
        zeros : List ℕ
        zeros = replicate (length (b ∷ bs)) 0

        sized : length zeros ≡ length (b ∷ bs)
        sized = length-replicate (length (b ∷ bs)) 0

        after_all :
            (out : List ℕ × (ℕ × World))
            → IsReceived socket F stream OnBlock.fails zeros 0 w1 out
            → (out.0 ≡ b ∷ bs) × (got out.1.1 ≡ got w1 ++ (b ∷ bs))
        after_all out h =
            let g : got out.1.1 ≡ got w1 ++ out.0 =
              h.receiving.taken
              ∙ ap (λ ys. got w1 ++ ys)
                  (sym h.receiving.filled
                    ∙ ap (λ k. take k out.0)
                        (h.whole (λ m. absurd (ground (arith, m))) ∙ sym h.receiving.sized)
                    ∙ take-length out.0) in
            let same : out.0 ≡ b ∷ bs =
              received_next w1 out.1.1 out.0 (b ∷ bs) later e g (h.receiving.sized ∙ sized) in
            (same, g ∙ ap (λ ys. got w1 ++ ys) same)

    recv_rest-Ends :
        (fuel : ℕ) (buffer later : List ℕ) (w : World) (r : Received × World)
        → length buffer < 2 ^ 32
        → whole ≡ got w ++ (frame buffer ++ later)
        → length buffer + waits w < fuel
        → RecvLaw socket F got waits 4 w r
        → IsSizeReceived F r
        → Ends
            (λ out. (out.0 ≡ buffer) × (got out.1 ≡ got w ++ frame buffer))
            F
            (recv_rest socket fuel r)
    recv_rest-Ends fuel buffer later w (Received.bytes [], w1) fits e l law size = law
    recv_rest-Ends fuel buffer later w (Received.bytes (b ∷ bs), w1) fits e l law size =
        by_test (Ends (λ out. (out.0 ≡ buffer) × (got out.1 ≡ got w ++ frame buffer)) F)
          (length (b ∷ bs) == 4) (λ four. with_size (==→eq (length (b ∷ bs)) 4 four))
          (λ ne. elim size [ inl four ↦ absurd (ground (arith, ne, four)) | inr f ↦ f ])
      where
        prefix : List ℕ
        prefix = net_bytes (length buffer % 2 ^ 32)

        with_size :
            length (b ∷ bs) ≡ 4
            → Ends
                (λ out. (out.0 ≡ buffer) × (got out.1 ≡ got w ++ frame buffer))
                F
                (recv_body socket fuel (from_net (b ∷ bs)) w1)
        with_size four =
            let p : b ∷ bs ≡ prefix =
              received_next w w1 (b ∷ bs) prefix (buffer ++ later)
                (e ∙ ap (λ ys. got w ++ ys) (append_assoc prefix buffer later)) law.1
                (four ∙ sym (length-net_bytes (length buffer % 2 ^ 32))) in
            let g : got w1 ≡ got w ++ prefix = law.1 ∙ ap (λ ys. got w ++ ys) p in
            let n : from_net (b ∷ bs) ≡ some (length buffer) =
              ap from_net (p ∙ sym (append-nil prefix))
              ∙ from-net_bytes (length buffer % 2 ^ 32) [] (omega arith)
              ∙ ap some (omega (arith, fits)) in
            subst
              (λ o.
                Ends (λ out. (out.0 ≡ buffer) × (got out.1 ≡ got w ++ frame buffer)) F
                  (recv_body socket fuel o w1))
              (sym n)
              (Ends-map (λ out. (out.0 ≡ buffer) × (got out.1 ≡ got w1 ++ buffer))
                (λ out. (out.0 ≡ buffer) × (got out.1 ≡ got w ++ frame buffer)) F
                (recv_body socket fuel (some (length buffer)) w1)
                (λ out h.
                  (h.0, h.1 ∙ ap (λ ys. ys ++ buffer) g ∙ append_assoc (got w) prefix buffer))
                (recv_body-Ends fuel buffer later w w1
                  (e
                    ∙ ap (λ ys. got w ++ ys) (append_assoc prefix buffer later)
                    ∙ sym (append_assoc (got w) prefix (buffer ++ later))
                    ∙ ap (λ ys. ys ++ (buffer ++ later)) (sym g))
                  (omega (arith, law.2, l))))
    recv_rest-Ends fuel buffer later w (Received.blocked, w1) fits e l law size = size
    recv_rest-Ends fuel buffer later w (Received.broken, w1) fits e l law size = law

    -- On a socket that waits and whose faults give `F`, and whose first bytes are those of `whole`, with more turns
    -- than bytes and calls that block: if what comes next is what `SendAll` sends for a buffer of less than 2 ^ 32 bytes,
    -- then `RecvAll` ends. It fails only if that gives `F`, or gives that buffer and has taken no byte behind it.
    pub recv_all-Ends :
        (fuel : ℕ) (buffer later : List ℕ) (w : World)
        → length buffer < 2 ^ 32
        → whole ≡ got w ++ (frame buffer ++ later)
        → length buffer + waits w < fuel
        → Ends
            (λ out. (out.0 ≡ buffer) × (got out.1 ≡ got w ++ frame buffer))
            F
            (recv_all socket fuel w)
    unfolding recv_all
    recv_all-Ends fuel buffer later w fits e l =
        recv_rest-Ends fuel buffer later w (recv 4 w) fits e l (stream.recvs 4 w (omega arith))
          (blocking.size_received w)

module _ (sender receiver : Socket) (F G : Type 0) (sending : IsBlocking F sender)
    (receiving : IsBlocking G receiver) where
  open sending.stream use {sent}
  open receiving.stream use {got}

  -- Between two sockets that wait, with more turns on either side than bytes and calls that block there: if `SendAll` of
  -- a buffer of less than 2 ^ 32 bytes has returned true, the receiver had taken all that was sent before it, and what
  -- it takes, as long as that is no more than was sent, is a prefix of it, then `RecvAll` ends. It fails only if a fault
  -- of its socket does that, or gives that buffer and has taken all that was sent.
  pub recv_all-send_all :
      (fuel fuel' : ℕ) (buffer : List ℕ) (w w' : sender.World) (u : receiver.World)
      → length buffer < 2 ^ 32
      → length buffer + sending.stream.waits w < fuel
      → length buffer + receiving.stream.waits u < fuel'
      → send_all sender fuel buffer w ≡ ok w'
      → got u ≡ sent w
      → ((u' : receiver.World)
          → length (got u') ≤ length (sent w')
          → (rest : List ℕ) × (sent w' ≡ got u' ++ rest))
      → Ends (λ out. (out.0 ≡ buffer) × (got out.1 ≡ sent w')) G (recv_all receiver fuel' u)
  recv_all-send_all fuel fuel' buffer w w' u fits l l' ok_ same arrives =
      let s : sent w' ≡ got u ++ frame buffer =
        Ends-at (λ v. sent v ≡ sent w ++ frame buffer) F (send_all sender fuel buffer w) w' ok_
          (send_all-Ends sender F sending fuel buffer w l)
        ∙ ap (λ ys. ys ++ frame buffer) (sym same) in
      Ends-map (λ out. (out.0 ≡ buffer) × (got out.1 ≡ got u ++ frame buffer))
        (λ out. (out.0 ≡ buffer) × (got out.1 ≡ sent w')) G (recv_all receiver fuel' u)
        (λ out h. (h.0, h.1 ∙ sym s))
        (recv_all-Ends receiver G receiving (sent w') arrives fuel' buffer [] u fits
          (s ∙ ap (λ ys. got u ++ ys) (sym (append-nil (frame buffer)))) l')
