-- ===== src/Transport/Tcp/Examples.antt =====
-- Transfers over a socket that takes five bytes at a time.
use origin_ccl.Prelude.{ℕ, ◌≡◌, ◌≤◌, ◌↔◌, arith, true, List, [], ◌∷◌, ◌++◌, length, take, drop}
use origin_ccl.Topology.Stepping.Loops.{Ends}
use origin_ccl.Sockets.Pipes.{sink, sink-IsStream}
use origin_ccl.Transport.Tcp.{try_send, try_recv}
use origin_ccl.Transport.Tcp.Transfers.{try_send-Ends, try_recv-Ends}

abbrev seven : List ℕ
seven = 1 ∷ 2 ∷ 3 ∷ 4 ∷ 5 ∷ 6 ∷ 7 ∷ []

try_send-Ends_example :
    Ends
      (λ out.
        (1 ≤ out.0)
        × (out.0 ≤ length seven)
        × ((out.1.0 ≡ true) ↔ (out.0 ≡ length seven))
        × (out.1.1.0 ++ drop out.0 seven ≡ [] ++ drop 1 seven))
      ⊥
      (try_send sink 8 true seven 1 ([], []))
try_send-Ends_example =
    try_send-Ends sink ⊥ sink-IsStream 8 true seven 1 ([], []) (omega arith) (omega arith)
      (λ e. ground (arith, e))

try_recv-Ends_example :
    Ends
      (λ out.
        (length out.0 ≡ length seven)
        × (2 ≤ out.1.0)
        × (out.1.0 ≤ length seven)
        × ((out.1.1.0 ≡ true) ↔ (out.1.0 ≡ length out.0))
        × ((arrived : List ℕ) × (take out.1.0 out.0 ≡ take 2 seven ++ arrived)
            × (out.1.1.1.1 ≡ [] ++ arrived)))
      ⊥
      (try_recv sink 8 true seven 2 ([], []))
try_recv-Ends_example =
    try_recv-Ends sink ⊥ sink-IsStream 8 true seven 2 ([], []) (omega arith) (omega arith)
      (λ e. ground (arith, e))
