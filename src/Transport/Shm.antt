-- ===== src/Transport/Shm.antt =====
-- The shared-memory ring of src/transport/transport_shm.cpp: one producer and one consumer share the
-- cursors and the data of a ring, and each keeps a stale copy of the other's cursor. `cached_tail` is
-- the producer's, `cached_head` the consumer's; the two endpoints' private fields stand in one record.
-- Cursors are `uint64_t` and wrap at 2 ^ 64. A call is one step: the copy of the bytes and the store
-- of the cursor are not interleaved with the peer, which only ever frees what a call may use.
pub mod Invariant
pub mod Produce
pub mod Consume
pub mod Stream
mod Examples
use origin_ccl.Prelude.{
  ℕ, zero, suc, ◌+◌, ◌-◌, ◌*◌, ◌%◌, ◌^◌, min, ◌&&◌, List, [], ◌∷◌, get_or, length, ltb, leb, ◌==◌,
  if◌then◌else◌,
}

-- `kShmRingCapacity`
abbrev pub capacity : ℕ
capacity = 2 * 1024 * 1024

-- The mapped data is a function of the offset; only offsets below the capacity are used.
pub record Ring : Type 0 where
  pub head : ℕ
  pub tail : ℕ
  pub data_at : ℕ → ℕ
  pub cached_tail : ℕ
  pub cached_head : ℕ

-- `uint64_t` and `size_t` difference and sum.
abbrev pub sub64 : ℕ → ℕ → ℕ
sub64 a b = (a + (2 ^ 64 - b)) % 2 ^ 64

abbrev pub add64 : ℕ → ℕ → ℕ
add64 a b = (a + b) % 2 ^ 64

-- `kShmRingCapacity - static_cast<size_t>(head - cached_tail)`
abbrev pub room_of : Ring → ℕ
room_of r = sub64 capacity (sub64 r.head r.cached_tail)

abbrev pub available_of : Ring → ℕ
available_of r = sub64 r.cached_head r.tail

-- `memcpy(RingData() + offset, src + progress, chunk)`
abbrev pub written : (ℕ → ℕ) → ℕ → List ℕ → ℕ → ℕ → ℕ → ℕ
written data_at offset src progress chunk i =
    if leb offset i && ltb i (offset + chunk)
    then get_or src (progress + (i - offset)) 0
    else data_at i

-- The bytes of `memcpy(data + progress, RingData() + offset, chunk)`.
abbrev pub read_out : (ℕ → ℕ) → ℕ → ℕ → List ℕ
read_out data_at offset zero = []
read_out data_at offset (suc n) = data_at offset ∷ read_out data_at (offset + 1) n

abbrev pub produce_size : Ring → ℕ → ℕ → ℕ
produce_size r room wanted = min room (min wanted (capacity - r.head % capacity))

-- The end of `Produce`, with room for at least a byte.
unfoldable pub put : Ring → ℕ → List ℕ → ℕ → ℕ × Ring
put r room src progress =
    let chunk : ℕ = produce_size r room (length src - progress) in
    (
      chunk,
      record r {
        data_at = written r.data_at (r.head % capacity) src progress chunk;
        head = add64 r.head chunk;
      },
    )

-- `Produce(data, size, progress)`; the size is that of `src`, and the callers keep `progress` at most that.
unfoldable pub produce : Ring → List ℕ → ℕ → ℕ × Ring
produce r src progress =
    if room_of r == 0
    then (let fresh : Ring = record r { cached_tail = r.tail } in
        if room_of fresh == 0 then (0, fresh) else put fresh (room_of fresh) src progress)
    else put r (room_of r) src progress

abbrev pub consume_size : Ring → ℕ → ℕ → ℕ
consume_size r available wanted = min available (min wanted (capacity - r.tail % capacity))

unfoldable pub get : Ring → ℕ → ℕ → List ℕ × Ring
get r available wanted =
    let chunk : ℕ = consume_size r available wanted in
    (read_out r.data_at (r.tail % capacity) chunk, record r { tail = add64 r.tail chunk })

-- `Consume(data, size, progress)` with `wanted` = size - progress: the bytes that it stores from
-- `data + progress` on. Their number is the value that it returns.
unfoldable pub consume : Ring → ℕ → List ℕ × Ring
consume r wanted =
    if available_of r == 0
    then (let fresh : Ring = record r { cached_head = r.head } in
        if available_of fresh == 0 then ([], fresh) else get fresh (available_of fresh) wanted)
    else get r (available_of r) wanted

-- `SpaceAvailable` and `DataAvailable`, which reload the stale cursor the same way.
unfoldable pub space_available : Ring → ℕ × Ring
space_available r =
    if room_of r == 0
    then (let fresh : Ring = record r { cached_tail = r.tail } in (room_of fresh, fresh))
    else (room_of r, r)

unfoldable pub data_available : Ring → ℕ × Ring
data_available r =
    if available_of r == 0
    then (let fresh : Ring = record r { cached_head = r.head } in (available_of fresh, fresh))
    else (available_of r, r)

-- `CreateRing`: zeroed cursors, and a copy of 0 on either side.
abbrev pub new_ring : (ℕ → ℕ) → Ring
new_ring data_at = record {
  head = 0;
  tail = 0;
  data_at = data_at;
  cached_tail = 0;
  cached_head = 0;
}
