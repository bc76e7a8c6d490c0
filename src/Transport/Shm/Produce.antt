-- ===== src/Transport/Shm/Produce.antt =====
-- `Produce` appends to the stream the next bytes of its buffer.
use native.Mathlib.Decide.{dec_lt}
use origin_ccl.Prelude.{
  ℕ, ◌+◌, ◌-◌, ◌%◌, ◌≤◌, ◌<◌, ◌≡◌, ◌⊎◌, List, ◌++◌, get_or, length, take, drop, length-append,
  length-take, length-drop, append-nil, arith, ◌∙◌, ◌≢◌, ◌==◌, by_test, ==→eq, ==-neq, inr,
  get_or-append_left, get_or-append_right, get_or-take, get_or-drop,
}
use origin_ccl.Transport.Shm.{Ring, capacity, room_of, produce_size, written, put, produce}
use origin_ccl.Transport.Shm.Invariant.{IsConsistent, room_of_lem, reload_tail}

-- The bytes that a call moves.
abbrev pub next_bytes : List ℕ → ℕ → ℕ → List ℕ
next_bytes src progress n = take n (drop progress src)

length-next_bytes :
    (src : List ℕ) (progress n : ℕ)
    → n ≤ length src - progress
    → length (next_bytes src progress n) ≡ n
length-next_bytes src progress n h =
    omega (arith, length-take n (drop progress src), length-drop progress src)

module _ {r : Ring} {sent : List ℕ} {taken : ℕ} (c : IsConsistent r sent taken) (src : List ℕ)
    (progress : ℕ) where
  abbrev n : ℕ
  n = produce_size r (room_of r) (length src - progress)

  head_offset : r.head % capacity ≡ length sent % capacity
  head_offset = omega (arith, c.head_is)

  n-le : (n ≤ length src - progress) × (n ≤ room_of r)
  n-le = omega arith

  length-sent : length (sent ++ next_bytes src progress n) ≡ length sent + n
  length-sent = omega (
    arith,
    length-append sent (next_bytes src progress n),
    length-next_bytes src progress n n-le.0,
  )

  old_bytes :
      (i : ℕ)
      → taken ≤ i
      → i < length sent
      → written r.data_at (r.head % capacity) src progress n (i % capacity)
        ≡ get_or (sent ++ next_bytes src progress n) i 0
  old_bytes i h k =
      rw (get_or-append_left 0 sent (next_bytes src progress n) i k)
        (ground (arith, c.holds i h k, outside))
    where
      outside : (i % capacity < r.head % capacity) ⊎ (r.head % capacity + n ≤ i % capacity)
      outside = omega (arith, head_offset, room_of_lem c, c.seen_tail-le, n-le)

  new_bytes :
      (i : ℕ)
      → length sent ≤ i
      → i < length sent + n
      → written r.data_at (r.head % capacity) src progress n (i % capacity)
        ≡ get_or (sent ++ next_bytes src progress n) i 0
  new_bytes i h k =
      let j : ℕ = i - length sent in
      rw (get_or-append_right 0 sent (next_bytes src progress n) i j (omega arith))
        (ground (arith, value, inside))
    where
      value :
          get_or (next_bytes src progress n) (i - length sent) 0
          ≡ get_or src (progress + (i - length sent)) 0
      value =
          get_or-take 0 n (drop progress src) (i - length sent) (omega arith)
          ∙ get_or-drop 0 progress src (i - length sent)

      inside : i % capacity ≡ r.head % capacity + (i - length sent)
      inside = omega (arith, head_offset)

  put-IsConsistent :
      IsConsistent (put r (room_of r) src progress).1 (sent ++ next_bytes src progress n) taken
  unfolding put
  put-IsConsistent = record {
    seen_tail = c.seen_tail;
    seen_head = c.seen_head;
    head_is = omega (arith, length-sent, c.head_is);
    tail_is = c.tail_is;
    cached_tail_is = c.cached_tail_is;
    cached_head_is = c.cached_head_is;
    seen_tail-le = c.seen_tail-le;
    room_left = omega (arith, length-sent, n-le, room_of_lem c);
    taken-le = c.taken-le;
    seen_head-le = omega (arith, length-sent, c.seen_head-le);
    holds = λ i h k. elim (dec_lt i (length sent)) [
      | yes p ↦ old_bytes i h p
      | no p ↦ new_bytes i (omega arith) (omega (arith, length-sent))
    ];
  }

-- What a call leaves: the stream with the bytes that it moved, and why it moved none if it did not.
pub record Produced (sent : List ℕ) (taken : ℕ) (src : List ℕ) (progress : ℕ) (out : ℕ × Ring)
    : Type 0 where
  pub consistent : IsConsistent out.1 (sent ++ next_bytes src progress out.0) taken
  pub in_buffer : out.0 ≤ length src - progress
  pub stuck_when_full : (out.0 ≢ 0) ⊎ (length src ≤ progress) ⊎ (length sent ≡ taken + capacity)

put-Produced :
    {r : Ring} {sent : List ℕ} {taken : ℕ} (c : IsConsistent r sent taken) (src : List ℕ)
    (progress : ℕ)
    → room_of r ≢ 0
    → Produced sent taken src progress (put r (room_of r) src progress)
unfolding put
put-Produced c src progress h = record {
  consistent = put-IsConsistent c src progress;
  in_buffer = (n-le c src progress).0;
  stuck_when_full = omega (arith, h);
}

full-Produced :
    (r : Ring) {sent : List ℕ} {taken : ℕ} (src : List ℕ) (progress : ℕ)
    → IsConsistent (record r { cached_tail = r.tail }) sent taken
    → room_of (record r { cached_tail = r.tail }) ≡ 0
    → Produced sent taken src progress (0, record r { cached_tail = r.tail })
full-Produced r {sent} {taken} src progress c h = record {
  consistent = rw append-nil c;
  in_buffer = omega arith;
  stuck_when_full = inr (inr (omega (arith, room_of_lem c, c.room_left, c.seen_tail-le, h)));
}

-- `Produce` on a consistent ring appends to the stream the bytes of its buffer from `progress` on, as many
-- as it returns and no more than the buffer has left, and leaves the ring consistent. It returns 0
-- only if the buffer has nothing left or the ring holds as many untaken bytes as its capacity.
pub produce_lem :
    (r : Ring) (sent src : List ℕ) (taken progress : ℕ)
    → IsConsistent r sent taken
    → Produced sent taken src progress (produce r src progress)
unfolding produce
produce_lem r sent src taken progress c =
    by_test (Produced sent taken src progress) (room_of r == 0)
      (λ e.
        by_test (Produced sent taken src progress)
          (room_of (record r { cached_tail = r.tail }) == 0)
          (λ f. full-Produced r src progress (reload_tail c) (==→eq _ _ f))
          (λ f. put-Produced (reload_tail c) src progress (==-neq _ _ f)))
      (λ e. put-Produced c src progress (==-neq _ _ e))
