-- ===== src/Transport/Shm/Consume.antt =====
-- `Consume` stores the next bytes of the stream.
use origin_ccl.Prelude.{
  ℕ, zero, suc, ◌+◌, ◌-◌, ◌%◌, ◌≤◌, ◌<◌, ◌≡◌, ◌≢◌, ◌⊎◌, List, [], ◌∷◌, get_or, length, take, drop,
  refl, arith, ◌==◌, by_test, ==→eq, ==-neq, inr,
}
use origin_ccl.Transport.Shm.{Ring, capacity, available_of, consume_size, read_out, get, consume}
use origin_ccl.Transport.Shm.Invariant.{IsConsistent, available_of_lem, reload_head}

length-read_out : (data_at : ℕ → ℕ) (offset n : ℕ) → length (read_out data_at offset n) ≡ n
length-read_out data_at offset zero = refl
length-read_out data_at offset (suc n) = omega (arith, length-read_out data_at (offset + 1) n)

-- A list is its first element and the rest.
drop-step : (xs : List ℕ) (i : ℕ) → i < length xs → drop i xs ≡ get_or xs i 0 ∷ drop (suc i) xs
drop-step [] i h = absurd (omega arith)
drop-step (x ∷ xs) zero h = refl
drop-step (x ∷ xs) (suc i) h = drop-step xs i (omega arith)

-- A stretch of the data that does not pass the end of the ring.
read_out_lem :
    (data_at : ℕ → ℕ) (sent : List ℕ) (taken offset n : ℕ)
    → ((i : ℕ) → taken ≤ i → i < taken + n → data_at (offset + (i - taken)) ≡ get_or sent i 0)
    → taken + n ≤ length sent
    → read_out data_at offset n ≡ take n (drop taken sent)
read_out_lem data_at sent taken offset zero h k = refl
read_out_lem data_at sent taken offset (suc n) h k =
    let first : data_at (offset + 0) ≡ get_or sent taken 0 = ground (arith, h taken) in
    let rest : read_out data_at (offset + 1) n ≡ take n (drop (suc taken) sent) =
      read_out_lem data_at sent (suc taken) (offset + 1) n (λ i p q. ground (arith, h i))
        (omega arith) in
    rw (drop-step sent taken (omega arith)) (ground (arith, first, rest))

module _ {r : Ring} {sent : List ℕ} {taken : ℕ} (c : IsConsistent r sent taken) (wanted : ℕ) where
  abbrev n : ℕ
  n = consume_size r (available_of r) wanted

  n-le : (n ≤ wanted) × (taken + n ≤ c.seen_head)
  n-le = omega (arith, available_of_lem c)

  tail_offset : r.tail % capacity ≡ taken % capacity
  tail_offset = omega (arith, c.tail_is)

  bytes_lem : read_out r.data_at (r.tail % capacity) n ≡ take n (drop taken sent)
  bytes_lem =
      read_out_lem r.data_at sent taken (r.tail % capacity) n
        (λ i p q. ground (arith, c.holds i p (omega (arith, n-le, c.seen_head-le)), inside i p q))
        (omega (arith, n-le, c.seen_head-le))
    where
      inside : (i : ℕ) → taken ≤ i → i < taken + n → i % capacity ≡ r.tail % capacity + (i - taken)
      inside i p q = omega (arith, tail_offset)

  get-IsConsistent : IsConsistent (get r (available_of r) wanted).1 sent (taken + n)
  unfolding get
  get-IsConsistent = record {
    seen_tail = c.seen_tail;
    seen_head = c.seen_head;
    head_is = c.head_is;
    tail_is = omega (arith, c.tail_is);
    cached_tail_is = c.cached_tail_is;
    cached_head_is = c.cached_head_is;
    seen_tail-le = omega (arith, c.seen_tail-le);
    room_left = c.room_left;
    taken-le = n-le.1;
    seen_head-le = c.seen_head-le;
    holds = λ i h k. c.holds i (omega arith) k;
  }

-- What a call leaves: the bytes that it stored are the next of the stream, and why there are none if
-- there are none.
pub record Consumed (sent : List ℕ) (taken wanted : ℕ) (out : List ℕ × Ring) : Type 0 where
  pub next : out.0 ≡ take (length out.0) (drop taken sent)
  pub consistent : IsConsistent out.1 sent (taken + length out.0)
  pub in_buffer : length out.0 ≤ wanted
  pub stuck_when_empty : (length out.0 ≢ 0) ⊎ (wanted ≡ 0) ⊎ (length sent ≡ taken)

get-Consumed :
    {r : Ring} {sent : List ℕ} {taken : ℕ} (c : IsConsistent r sent taken) (wanted : ℕ)
    → available_of r ≢ 0
    → Consumed sent taken wanted (get r (available_of r) wanted)
unfolding get
get-Consumed {r} c wanted h =
    let count : length (read_out r.data_at (r.tail % capacity) (n c wanted)) ≡ n c wanted =
      length-read_out r.data_at (r.tail % capacity) (n c wanted) in
    record {
      next = rw count (bytes_lem c wanted);
      consistent = rw count (get-IsConsistent c wanted);
      in_buffer = omega (arith, count, n-le c wanted);
      stuck_when_empty = omega (arith, count, h);
    }

empty-Consumed :
    (r : Ring) {sent : List ℕ} {taken : ℕ} (wanted : ℕ)
    → IsConsistent (record r { cached_head = r.head }) sent taken
    → available_of (record r { cached_head = r.head }) ≡ 0
    → Consumed sent taken wanted ([], record r { cached_head = r.head })
empty-Consumed r {sent} {taken} wanted c h = record {
  next = refl;
  consistent = let e : taken + 0 ≡ taken = omega arith in rw e c;
  in_buffer = omega arith;
  stuck_when_empty = inr (
      inr (
        omega
          (arith, c.taken-le, c.seen_head-le, available_of_lem c, c.room_left, c.seen_tail-le)));
}

-- `Consume` on a consistent ring stores the next bytes of the stream that were not taken yet, no more
-- than it is asked for, and leaves the ring consistent with as many more bytes taken. It stores none
-- only if it is asked for none or every byte of the stream is taken.
pub consume_lem :
    (r : Ring) (sent : List ℕ) (taken wanted : ℕ)
    → IsConsistent r sent taken
    → Consumed sent taken wanted (consume r wanted)
unfolding consume
consume_lem r sent taken wanted c =
    by_test (Consumed sent taken wanted) (available_of r == 0)
      (λ e.
        by_test (Consumed sent taken wanted) (available_of (record r { cached_head = r.head }) == 0)
          (λ f. empty-Consumed r wanted (reload_head c) (==→eq _ _ f))
          (λ f. get-Consumed (reload_head c) wanted (==-neq _ _ f)))
      (λ e. get-Consumed c wanted (==-neq _ _ e))
