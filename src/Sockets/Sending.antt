-- ===== src/Sockets/Sending.antt =====
-- About the loops that send, of src/transport/transport_tcp.cpp and src/utils.cpp.
use origin_ccl.Prelude.{
  ℕ, zero, suc, ◌≡◌, ◌≢◌, ◌≤◌, ◌<◌, ◌+◌, ◌-◌, refl, sym, ◌∙◌, ap, subst, arith, List, [], ◌∷◌, ◌++◌,
  append_assoc, length, take, drop, take-append-drop, length-drop, ltb, ltb→lt, ltb→le, by_test,
}
use origin_ccl.Topology.Stepping.{turns}
use origin_ccl.Topology.Stepping.Loops.{After, Ends, turns-Ends}
use origin_ccl.Sockets.{Socket, Sent, OnBlock, after_send, send_turn}
use origin_ccl.Sockets.Streams.{SendLaw, SendWaits, SendFits, IsStream}

drop_nil {ℓ} : {A : Type ℓ} (n : ℕ) → ◌≡◌ {A = List A} [] (drop n [])
drop_nil zero = refl
drop_nil (suc n) = refl

drop-drop {ℓ} : {A : Type ℓ} (m n : ℕ) (xs : List A) → drop n (drop m xs) ≡ drop (m + n) xs
drop-drop zero n xs = ap (λ k. drop k xs) (omega arith)
drop-drop (suc m) zero [] = drop_nil (suc m + 0)
drop-drop (suc m) (suc n) [] = drop_nil (suc m + suc n)
drop-drop (suc m) n (x ∷ xs) =
    let e : suc m + n ≡ suc (m + n) = omega arith in rw e (drop-drop m n xs)

take-drop_more {ℓ} :
    {A : Type ℓ} (m n : ℕ) (xs : List A) → take n (drop m xs) ++ drop (m + n) xs ≡ drop m xs
take-drop_more m n xs =
    ap (λ ys. take n (drop m xs) ++ ys) (sym (drop-drop m n xs)) ∙ take-append-drop n (drop m xs)

pub drop-length {ℓ} : {A : Type ℓ} (xs : List A) → drop (length xs) xs ≡ []
drop-length [] = refl
drop-length (x ∷ xs) = drop-length xs

module _ (socket : Socket) (F : Type 0) (stream : IsStream socket F) where
  open socket use {World, send}
  open stream use {sent, waits}

  -- A loop that started at progress `from` in the world `start`.
  pub record IsSending (buffer : List ℕ) (from : ℕ) (start : World) (at : ℕ × World) : Type 0 where
    pub on : from ≤ at.0
    pub within : at.0 ≤ length buffer
    pub carried : sent at.1 ++ drop at.0 buffer ≡ sent start ++ drop from buffer

  -- What a loop leaves; the loops that do not mode may stop early.
  pub record IsSent (mode : OnBlock) (buffer : List ℕ) (from : ℕ) (start : World) (at : ℕ × World)
      : Type 0 where
    pub sending : IsSending buffer from start at
    pub whole : mode ≢ OnBlock.leaves → at.0 ≡ length buffer

  abbrev to_go : List ℕ → ℕ × World → ℕ
  to_go buffer at = length buffer - at.0 + waits at.1

  after_send-After :
      (mode : OnBlock) (buffer : List ℕ) (from : ℕ) (start : World) (at : ℕ × World)
      (r : Sent × World)
      → at.0 < length buffer
      → IsSending buffer from start at
      → (mode ≡ OnBlock.fails → SendWaits socket F r)
      → SendLaw socket F sent waits (drop at.0 buffer) at.1 r
      → After
          (IsSending buffer from start)
          (IsSent mode buffer from start)
          F
          (to_go buffer)
          (to_go buffer at)
          (after_send socket mode at.0 r)
  after_send-After mode buffer from start at (Sent.moved zero, w) l h fits law = law
  after_send-After mode buffer from start at (Sent.moved (suc n), w) l h fits law = (
    record {
      on = omega (arith, h.on);
      within = omega (arith, l, law.0, length-drop at.0 buffer);
      carried =
          ap (λ bs. bs ++ drop (at.0 + suc n) buffer) law.1
          ∙ append_assoc (sent at.1) (take (suc n) (drop at.0 buffer)) (drop (at.0 + suc n) buffer)
          ∙ ap (λ bs. sent at.1 ++ bs) (take-drop_more at.0 (suc n) buffer)
          ∙ h.carried;
    },
    omega (arith, law.2, l),
  )
  after_send-After OnBlock.retries buffer from start at (Sent.blocked, w) l h fits law = (
    record {
      on = h.on;
      within = h.within;
      carried = ap (λ bs. bs ++ drop at.0 buffer) law.0 ∙ h.carried;
    },
    omega (arith, law.1),
  )
  after_send-After OnBlock.leaves buffer from start at (Sent.blocked, w) l h fits law = record {
    sending = record {
      on = h.on;
      within = h.within;
      carried = ap (λ bs. bs ++ drop at.0 buffer) law.0 ∙ h.carried;
    };
    whole = λ ne. absurd (ne refl);
  }
  after_send-After OnBlock.fails buffer from start at (Sent.blocked, w) l h fits law = fits refl
  after_send-After mode buffer from start at (Sent.broken, w) l h fits law = law

  send_turn-After :
      (mode : OnBlock) (buffer : List ℕ) (from : ℕ) (start : World)
      → SendFits socket F mode
      → (at : ℕ × World) → IsSending buffer from start at
      → After
          (IsSending buffer from start)
          (IsSent mode buffer from start)
          F
          (to_go buffer)
          (to_go buffer at)
          (send_turn socket mode buffer at)
  unfolding send_turn
  send_turn-After mode buffer from start fits (progress, w) h =
      by_test
        (After (IsSending buffer from start) (IsSent mode buffer from start) F (to_go buffer)
          (to_go buffer (progress, w)))
        (ltb progress (length buffer))
        (λ e.
          after_send-After mode buffer from start (progress, w) (send (drop progress buffer) w)
            (ltb→lt progress (length buffer) e) h
            (λ m. subst (SendFits socket F) m fits (drop progress buffer) w)
            (stream.sends (drop progress buffer) w
              (omega (arith, length-drop progress buffer, ltb→lt progress (length buffer) e))))
        (λ e. record {
          sending = h;
          whole = λ r. omega (arith, h.within, ltb→le progress (length buffer) e);
        })

  -- The loop ends, with enough turns for the bytes and the calls that block.
  pub send_loop-Ends :
      (mode : OnBlock) (buffer : List ℕ) (from : ℕ) (start : World) (fuel : ℕ)
      → SendFits socket F mode
      → from ≤ length buffer
      → length buffer + waits start < fuel
      → Ends
          (IsSent mode buffer from start)
          F
          (turns fuel (send_turn socket mode buffer) (from, start))
  send_loop-Ends mode buffer from start fuel fits le l =
      turns-Ends (IsSending buffer from start) (IsSent mode buffer from start) F (to_go buffer)
        (send_turn socket mode buffer) (send_turn-After mode buffer from start fits) fuel
        (from, start) (omega (arith, l)) (record { on = omega arith; within = le; carried = refl })
