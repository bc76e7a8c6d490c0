-- ===== src/Transport/Shm/Examples.antt =====
-- Five bytes through a new ring, in two reads.
use origin_ccl.Prelude.{ℕ, ◌≡◌, ◌≤◌, List, [], ◌∷◌, ◌++◌, length, refl}
use origin_ccl.Transport.Shm.{Ring, capacity, produce, consume, put, get, new_ring}
use origin_ccl.Transport.Shm.Invariant.{IsConsistent}
use origin_ccl.Transport.Shm.Produce.{next_bytes}
use origin_ccl.Transport.Shm.Stream.{Run, start, produces, consumes, Run-InOrder, Run-Carries}

abbrev zeros : ℕ → ℕ
zeros i = 0

abbrev message : List ℕ
message = 10 ∷ 11 ∷ 12 ∷ 13 ∷ 14 ∷ []

abbrev filled : Ring
filled = (produce (new_ring zeros) message 0).1

produce-message : (produce (new_ring zeros) message 0).0 ≡ 5
unfolding produce put
produce-message = refl

-- The consumer asks for three bytes and gets the first three.
consume_three : (consume filled 3).0 ≡ 10 ∷ 11 ∷ 12 ∷ []
unfolding produce put consume get
consume_three = refl

abbrev sent : List ℕ
sent = [] ++ next_bytes message 0 (produce (new_ring zeros) message 0).0

filled-IsConsistent : IsConsistent filled sent 0
filled-IsConsistent = (Run-Carries (produces message 0 start)).consistent

run : Run zeros (consume filled 3).1 sent ([] ++ (consume filled 3).0)
run = consumes 3 (produces message 0 start)

Run-InOrder_example :
    (rest : List ℕ) × (sent ≡ ([] ++ (consume filled 3).0) ++ rest) × (length rest ≤ capacity)
Run-InOrder_example = Run-InOrder run
