-- ===== src/Sockets/Receiving.antt =====
-- About the loops that receive, of src/transport/transport_tcp.cpp and src/utils.cpp.
use origin_ccl.Prelude.{
  ℕ, suc, ◌≡◌, ◌≢◌, ◌≤◌, ◌<◌, ◌+◌, ◌-◌, refl, sym, ◌∙◌, ap, subst, arith, List, [], ◌∷◌, ◌++◌,
  append-nil, append_assoc, length, length-append, length-take, length-drop, take, drop,
  take-length_append, ltb, ltb→lt, ltb→le, by_test,
}
use origin_ccl.Topology.Stepping.{turns}
use origin_ccl.Topology.Stepping.Loops.{After, Ends, turns-Ends}
use origin_ccl.Sockets.{Socket, Received, OnBlock, stored, after_recv, recv_turn}
use origin_ccl.Sockets.Streams.{RecvLaw, RecvWaits, RecvFits, IsStream}

length-stored :
    (buffer : List ℕ) (offset : ℕ) (bs : List ℕ)
    → offset + length bs ≤ length buffer
    → length (stored buffer offset bs) ≡ length buffer
length-stored buffer offset bs h = omega (
  arith,
  h,
  length-append (take offset buffer) (bs ++ drop (offset + length bs) buffer),
  length-append bs (drop (offset + length bs) buffer),
  length-take offset buffer,
  length-drop (offset + length bs) buffer,
)

take-append_more {ℓ} :
    {A : Type ℓ} (xs : List A) (n : ℕ) (ys : List A)
    → take (length xs + n) (xs ++ ys) ≡ xs ++ take n ys
take-append_more [] n ys = ap (λ k. take k ys) (omega arith)
take-append_more (x ∷ xs) n ys =
    let e : suc (length xs) + n ≡ suc (length xs + n) = omega arith in
    ap (λ k. take k (x ∷ (xs ++ ys))) e ∙ ap (λ zs. x ∷ zs) (take-append_more xs n ys)

take-stored :
    (buffer : List ℕ) (offset : ℕ) (bs : List ℕ)
    → offset ≤ length buffer
    → take (offset + length bs) (stored buffer offset bs) ≡ take offset buffer ++ bs
take-stored buffer offset bs h =
    ap (λ k. take (k + length bs) (stored buffer offset bs))
      (sym (omega (arith, h, length-take offset buffer)))
    ∙ take-append_more (take offset buffer) (length bs) (bs ++ drop (offset + length bs) buffer)
    ∙ ap (λ ys. take offset buffer ++ ys) (take-length_append bs (drop (offset + length bs) buffer))

pub take-length {ℓ} : {A : Type ℓ} (xs : List A) → take (length xs) xs ≡ xs
take-length [] = refl
take-length (x ∷ xs) = ap (λ ys. x ∷ ys) (take-length xs)

module _ (socket : Socket) (F : Type 0) (stream : IsStream socket F) where
  open socket use {World, recv}
  open stream use {got, waits}

  -- A loop that started at progress `from` of a buffer in the world `start`: `arrived` is what it has received.
  pub record IsReceiving (buffer : List ℕ) (from : ℕ) (start : World) (at : List ℕ × (ℕ × World))
      : Type 0 where
    pub sized : length at.0 ≡ length buffer
    pub on : from ≤ at.1.0
    pub within : at.1.0 ≤ length buffer
    pub arrived : List ℕ
    pub filled : take at.1.0 at.0 ≡ take from buffer ++ arrived
    pub taken : got at.1.1 ≡ got start ++ arrived

  pub record IsReceived (mode : OnBlock) (buffer : List ℕ) (from : ℕ) (start : World)
      (at : List ℕ × (ℕ × World)) : Type 0 where
    pub receiving : IsReceiving buffer from start at
    pub whole : mode ≢ OnBlock.leaves → at.1.0 ≡ length buffer

  abbrev to_go : List ℕ × (ℕ × World) → ℕ
  to_go at = length at.0 - at.1.0 + waits at.1.1

  stay :
      (buffer : List ℕ) (from : ℕ) (start : World) (at : List ℕ × (ℕ × World)) (w : World)
      → got w ≡ got at.1.1
      → IsReceiving buffer from start at
      → IsReceiving buffer from start (at.0, (at.1.0, w))
  stay buffer from start at w e h = record {
    sized = h.sized;
    on = h.on;
    within = h.within;
    arrived = h.arrived;
    filled = h.filled;
    taken = e ∙ h.taken;
  }

  after_recv-After :
      (mode : OnBlock) (buffer : List ℕ) (from : ℕ) (start : World) (at : List ℕ × (ℕ × World))
      (r : Received × World)
      → at.1.0 < length at.0
      → IsReceiving buffer from start at
      → (mode ≡ OnBlock.fails → RecvWaits socket F r)
      → RecvLaw socket F got waits (length at.0 - at.1.0) at.1.1 r
      → After
          (IsReceiving buffer from start)
          (IsReceived mode buffer from start)
          F
          to_go
          (to_go at)
          (after_recv socket mode at.0 at.1.0 r)
  after_recv-After mode buffer from start at (Received.bytes [], w) l h fits law = law
  after_recv-After mode buffer from start at (Received.bytes (b ∷ bs), w) l h fits law =
      let same : length (stored at.0 at.1.0 (b ∷ bs)) ≡ length at.0 =
        length-stored at.0 at.1.0 (b ∷ bs) (omega (arith, l, law.0)) in
      (
        record {
          sized = same ∙ h.sized;
          on = omega (arith, h.on);
          within = omega (arith, l, law.0, h.sized);
          arrived = h.arrived ++ (b ∷ bs);
          filled =
              take-stored at.0 at.1.0 (b ∷ bs) (omega (arith, l))
              ∙ ap (λ ys. ys ++ (b ∷ bs)) h.filled
              ∙ append_assoc (take from buffer) h.arrived (b ∷ bs);
          taken =
              law.1
              ∙ ap (λ ys. ys ++ (b ∷ bs)) h.taken
              ∙ append_assoc (got start) h.arrived (b ∷ bs);
        },
        omega (arith, law.2, l, same),
      )
  after_recv-After OnBlock.retries buffer from start at (Received.blocked, w) l h fits law =
      (stay buffer from start at w law.0 h, omega (arith, law.1))
  after_recv-After OnBlock.leaves buffer from start at (Received.blocked, w) l h fits law = record {
    receiving = stay buffer from start at w law.0 h;
    whole = λ ne. absurd (ne refl);
  }
  after_recv-After OnBlock.fails buffer from start at (Received.blocked, w) l h fits law = fits refl
  after_recv-After mode buffer from start at (Received.broken, w) l h fits law = law

  recv_turn-After :
      (mode : OnBlock) (buffer : List ℕ) (from : ℕ) (start : World)
      → RecvFits socket F mode
      → (at : List ℕ × (ℕ × World)) → IsReceiving buffer from start at
      → After
          (IsReceiving buffer from start)
          (IsReceived mode buffer from start)
          F
          to_go
          (to_go at)
          (recv_turn socket mode at)
  unfolding recv_turn
  recv_turn-After mode buffer from start fits (b, (progress, w)) h =
      by_test
        (After (IsReceiving buffer from start) (IsReceived mode buffer from start) F to_go
          (to_go (b, (progress, w))))
        (ltb progress (length b))
        (λ e.
          after_recv-After mode buffer from start (b, (progress, w)) (recv (length b - progress) w)
            (ltb→lt progress (length b) e) h
            (λ m. subst (RecvFits socket F) m fits (length b - progress) w)
            (stream.recvs (length b - progress) w (omega (arith, ltb→lt progress (length b) e))))
        (λ e. record {
          receiving = h;
          whole = λ r. omega (arith, h.within, h.sized, ltb→le progress (length b) e);
        })

  -- The loop ends, with enough turns for the bytes and the calls that block.
  pub recv_loop-Ends :
      (mode : OnBlock) (buffer : List ℕ) (from : ℕ) (start : World) (fuel : ℕ)
      → RecvFits socket F mode
      → from ≤ length buffer
      → length buffer + waits start < fuel
      → Ends
          (IsReceived mode buffer from start)
          F
          (turns fuel (recv_turn socket mode) (buffer, (from, start)))
  recv_loop-Ends mode buffer from start fuel fits le l =
      turns-Ends (IsReceiving buffer from start) (IsReceived mode buffer from start) F to_go
        (recv_turn socket mode) (recv_turn-After mode buffer from start fits) fuel
        (buffer, (from, start)) (omega (arith, l))
        (record {
          sized = refl;
          on = omega arith;
          within = le;
          arrived = [];
          filled = sym (append-nil (take from buffer));
          taken = sym (append-nil (got start));
        })
