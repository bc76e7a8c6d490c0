-- ===== src/Transport/Shm/Stream.antt =====
-- The two endpoints at work: any sequence of their calls on a new ring carries a stream of bytes.
use origin_ccl.Prelude.{
  ℕ, ◌+◌, ◌≤◌, ◌≡◌, refl, ap, sym, ◌∙◌, List, [], ◌++◌, length, take, drop, length-append,
  append_assoc, arith, ◌==◌, by_test, ==-neq, take-append-drop, drop-length_append,
}
use origin_ccl.Transport.Shm.{
  Ring, capacity, room_of, available_of, produce, consume, space_available, data_available,
  new_ring,
}
use origin_ccl.Transport.Shm.Invariant.{
  IsConsistent, room_of_lem, available_of_lem, reload_tail, reload_head, new_ring-IsConsistent,
}
use origin_ccl.Transport.Shm.Produce.{next_bytes, produce_lem}
use origin_ccl.Transport.Shm.Consume.{consume_lem}

-- What `SpaceAvailable` and `DataAvailable` return and leave.
pub record Space (sent : List ℕ) (taken : ℕ) (out : ℕ × Ring) : Type 0 where
  pub consistent : IsConsistent out.1 sent taken
  pub enough : length sent + out.0 ≤ taken + capacity
  pub none_if_full : out.0 ≡ 0 → length sent ≡ taken + capacity

pub record Bytes (sent : List ℕ) (taken : ℕ) (out : ℕ × Ring) : Type 0 where
  pub consistent : IsConsistent out.1 sent taken
  pub enough : taken + out.0 ≤ length sent
  pub none_if_empty : out.0 ≡ 0 → length sent ≡ taken

-- On a consistent ring `SpaceAvailable` returns no more than the room that is left, and 0 only if there is
-- none; the ring stays consistent.
pub space_available_lem :
    (r : Ring) (sent : List ℕ) (taken : ℕ)
    → IsConsistent r sent taken
    → Space sent taken (space_available r)
unfolding space_available
space_available_lem r sent taken c =
    by_test (Space sent taken) (room_of r == 0)
      (λ e. record {
        consistent = reload_tail c;
        enough = omega (arith, room_of_lem (reload_tail c));
        none_if_full = λ h. omega (arith, h, room_of_lem (reload_tail c));
      })
      (λ e. record {
        consistent = c;
        enough = omega (arith, room_of_lem c, c.seen_tail-le);
        none_if_full = λ h. absurd (==-neq _ _ e h);
      })

-- On a consistent ring `DataAvailable` returns no more than the bytes that were not taken yet, and 0 only if
-- there are none; the ring stays consistent.
pub data_available_lem :
    (r : Ring) (sent : List ℕ) (taken : ℕ)
    → IsConsistent r sent taken
    → Bytes sent taken (data_available r)
unfolding data_available
data_available_lem r sent taken c =
    by_test (Bytes sent taken) (available_of r == 0)
      (λ e. record {
        consistent = reload_head c;
        enough = omega (arith, available_of_lem (reload_head c));
        none_if_empty = λ h. omega (arith, h, available_of_lem (reload_head c));
      })
      (λ e. record {
        consistent = c;
        enough = omega (arith, available_of_lem c, c.seen_head-le);
        none_if_empty = λ h. absurd (==-neq _ _ e h);
      })

-- The calls of the two endpoints, with the bytes that `Produce` took so far and those that `Consume` gave.
pub data Run (data_at : ℕ → ℕ) : Ring → List ℕ → List ℕ → Type 0 where
  start : Run data_at (new_ring data_at) [] []
  produces :
      {r : Ring} {sent taken : List ℕ} (src : List ℕ) (progress : ℕ)
      → Run data_at r sent taken
      → Run data_at
          (produce r src progress).1
          (sent ++ next_bytes src progress (produce r src progress).0)
          taken
  consumes :
      {r : Ring} {sent taken : List ℕ} (wanted : ℕ)
      → Run data_at r sent taken
      → Run data_at (consume r wanted).1 sent (taken ++ (consume r wanted).0)
  asks_space :
      {r : Ring} {sent taken : List ℕ}
      → Run data_at r sent taken
      → Run data_at (space_available r).1 sent taken
  asks_data :
      {r : Ring} {sent taken : List ℕ}
      → Run data_at r sent taken
      → Run data_at (data_available r).1 sent taken

-- The bytes on the way are those of `sent` that come after the taken ones.
pub record Carries (r : Ring) (sent taken : List ℕ) : Type 0 where
  pub rest : List ℕ
  pub split : sent ≡ taken ++ rest
  pub consistent : IsConsistent r sent (length taken)

produces-Carries :
    {r : Ring} {sent taken : List ℕ} (src : List ℕ) (progress : ℕ)
    → Carries r sent taken
    → Carries
        (produce r src progress).1
        (sent ++ next_bytes src progress (produce r src progress).0)
        taken
produces-Carries {r} {sent} {taken} src progress c =
    let b : List ℕ = next_bytes src progress (produce r src progress).0 in
    record {
      rest = c.rest ++ b;
      split = ap (λ l. l ++ b) c.split ∙ append_assoc taken c.rest b;
      consistent = (produce_lem r sent src (length taken) progress c.consistent).consistent;
    }

consumes-Carries :
    {r : Ring} {sent taken : List ℕ} (wanted : ℕ)
    → Carries r sent taken
    → Carries (consume r wanted).1 sent (taken ++ (consume r wanted).0)
consumes-Carries {r} {sent} {taken} wanted c =
    let out : List ℕ = (consume r wanted).0 in
    let h = consume_lem r sent (length taken) wanted c.consistent in
    let next : out ≡ take (length out) c.rest =
      h.next
      ∙ ap (λ l. take (length out) l)
          (ap (λ l. drop (length taken) l) c.split ∙ drop-length_append taken c.rest) in
    record {
      rest = drop (length out) c.rest;
      split =
          c.split
          ∙ ap (λ l. taken ++ l)
              (sym (take-append-drop (length out) c.rest)
                ∙ ap (λ l. l ++ drop (length out) c.rest) (sym next))
          ∙ sym (append_assoc taken out (drop (length out) c.rest));
      consistent = rw (length-append taken out) h.consistent;
    }

pub Run-Carries :
    {data_at : ℕ → ℕ} {r : Ring} {sent taken : List ℕ}
    → Run data_at r sent taken
    → Carries r sent taken
Run-Carries {data_at} start = record {
  rest = [];
  split = refl;
  consistent = new_ring-IsConsistent data_at;
}
Run-Carries (produces src progress run) = produces-Carries src progress (Run-Carries run)
Run-Carries (consumes wanted run) = consumes-Carries wanted (Run-Carries run)
Run-Carries (asks_space {r} {sent} {taken} run) =
    let c = Run-Carries run in
    record {
      rest = c.rest;
      split = c.split;
      consistent = (space_available_lem r sent (length taken) c.consistent).consistent;
    }
Run-Carries (asks_data {r} {sent} {taken} run) =
    let c = Run-Carries run in
    record {
      rest = c.rest;
      split = c.split;
      consistent = (data_available_lem r sent (length taken) c.consistent).consistent;
    }

-- After any sequence of `Produce`, `Consume`, `SpaceAvailable` and `DataAvailable` calls on a ring that was
-- just made, whatever its data held, the bytes that `Produce` took are those that `Consume` gave, in the
-- same order, followed by at most `kShmRingCapacity` bytes that are still on the way.
pub Run-InOrder :
    {data_at : ℕ → ℕ} {r : Ring} {sent taken : List ℕ}
    → Run data_at r sent taken
    → (rest : List ℕ) × (sent ≡ taken ++ rest) × (length rest ≤ capacity)
Run-InOrder {data_at} {r} {sent} {taken} run =
    let c = Run-Carries run in
    let k = c.consistent in
    (
      c.rest,
      c.split,
      omega (arith, ap length c.split, length-append taken c.rest, k.room_left, k.seen_tail-le),
    )
