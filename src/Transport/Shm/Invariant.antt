-- ===== src/Transport/Shm/Invariant.antt =====
-- What the two endpoints rely on, in terms of all the bytes `sent` since the ring was made and of the
-- number `taken` of bytes that the consumer has had.
use origin_ccl.Prelude.{ℕ, ◌+◌, ◌%◌, ◌^◌, ◌≤◌, ◌<◌, ◌≡◌, List, [], get_or, length, arith, refl}
use origin_ccl.Transport.Shm.{Ring, capacity, room_of, available_of, new_ring}

-- The stale cursors stood where they point at some time in the past.
pub record IsConsistent (r : Ring) (sent : List ℕ) (taken : ℕ) : Type 0 where
  pub seen_tail : ℕ
  pub seen_head : ℕ
  pub head_is : r.head ≡ length sent % 2 ^ 64
  pub tail_is : r.tail ≡ taken % 2 ^ 64
  pub cached_tail_is : r.cached_tail ≡ seen_tail % 2 ^ 64
  pub cached_head_is : r.cached_head ≡ seen_head % 2 ^ 64
  pub seen_tail-le : seen_tail ≤ taken
  pub room_left : length sent ≤ seen_tail + capacity
  pub taken-le : taken ≤ seen_head
  pub seen_head-le : seen_head ≤ length sent
  pub holds : (i : ℕ) → taken ≤ i → i < length sent → r.data_at (i % capacity) ≡ get_or sent i 0

-- The differences of wrapped cursors are the differences of the counts.
pub room_of_lem :
    {r : Ring} {sent : List ℕ} {taken : ℕ} (c : IsConsistent r sent taken)
    → room_of r + length sent ≡ c.seen_tail + capacity
room_of_lem c = omega arith

pub available_of_lem :
    {r : Ring} {sent : List ℕ} {taken : ℕ} (c : IsConsistent r sent taken)
    → available_of r + taken ≡ c.seen_head
available_of_lem c = omega arith

-- A reload of the other side's cursor.
pub reload_tail :
    {r : Ring} {sent : List ℕ} {taken : ℕ}
    → IsConsistent r sent taken
    → IsConsistent (record r { cached_tail = r.tail }) sent taken
reload_tail {r} {sent} {taken} c = record {
  seen_tail = taken;
  seen_head = c.seen_head;
  head_is = c.head_is;
  tail_is = c.tail_is;
  cached_tail_is = c.tail_is;
  cached_head_is = c.cached_head_is;
  seen_tail-le = omega arith;
  room_left = omega arith;
  taken-le = c.taken-le;
  seen_head-le = c.seen_head-le;
  holds = c.holds;
}

pub reload_head :
    {r : Ring} {sent : List ℕ} {taken : ℕ}
    → IsConsistent r sent taken
    → IsConsistent (record r { cached_head = r.head }) sent taken
reload_head {r} {sent} {taken} c = record {
  seen_tail = c.seen_tail;
  seen_head = length sent;
  head_is = c.head_is;
  tail_is = c.tail_is;
  cached_tail_is = c.cached_tail_is;
  cached_head_is = c.head_is;
  seen_tail-le = c.seen_tail-le;
  room_left = c.room_left;
  taken-le = omega arith;
  seen_head-le = omega arith;
  holds = c.holds;
}

pub new_ring-IsConsistent : (data_at : ℕ → ℕ) → IsConsistent (new_ring data_at) [] 0
new_ring-IsConsistent data_at = record {
  seen_tail = 0;
  seen_head = 0;
  head_is = refl;
  tail_is = refl;
  cached_tail_is = refl;
  cached_head_is = refl;
  seen_tail-le = omega arith;
  room_left = omega arith;
  taken-le = omega arith;
  seen_head-le = omega arith;
  holds = λ i h k. absurd (omega arith);
}
