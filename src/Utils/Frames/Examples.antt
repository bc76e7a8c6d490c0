-- ===== src/Utils/Frames/Examples.antt =====
-- Three bytes sent over a socket that takes five bytes at a time, and received again.
use origin_ccl.Prelude.{ℕ, ◌≡◌, inl, refl, arith, List, [], ◌∷◌, drop}
use origin_ccl.Topology.Stepping.{ok, turns}
use origin_ccl.Topology.Stepping.Loops.{Ends}
use origin_ccl.Sockets.{send_turn}
use origin_ccl.Sockets.Pipes.{
  sink, sink-IsStream, source, source-IsStream, first_bytes, first_bytes_prefix, length-first_bytes,
}
use origin_ccl.Utils.Codec.{net_bytes}
use origin_ccl.Utils.Frames.{send_all, recv_all}
use origin_ccl.Utils.Frames.RoundTrip.{IsBlocking, frame, recv_all-send_all}

abbrev three : List ℕ
three = 1 ∷ 2 ∷ 3 ∷ []

abbrev sink-IsBlocking : IsBlocking ⊥ sink
sink-IsBlocking = record {
  stream = sink-IsStream;
  send_waits = λ bs w. tt;
  recv_waits = λ n w. tt;
  size_sent = λ bs w l. inl (omega (arith, l));
  size_received = λ w. inl refl;
}

abbrev source-IsBlocking : (whole : List ℕ) → IsBlocking ⊥ (source whole)
source-IsBlocking whole = record {
  stream = source-IsStream whole;
  send_waits = λ bs w. tt;
  recv_waits = λ n w. tt;
  size_sent = λ bs w l. inl (omega (arith, l));
  size_received = λ w. inl (length-first_bytes 4 (drop w.1 whole));
}

three_sent : send_all sink 4 three ([], []) ≡ ok (frame three, [])
unfolding send_all turns send_turn net_bytes
three_sent = refl

recv_all-send_all_example :
    Ends
      (λ out. (out.0 ≡ three) × (first_bytes out.1.1 (frame three) ≡ frame three))
      ⊥
      (recv_all (source (frame three)) 4 ([], 0))
recv_all-send_all_example =
    recv_all-send_all sink (source (frame three)) ⊥ ⊥ sink-IsBlocking
      (source-IsBlocking (frame three)) 4 4 three ([], []) (frame three, []) ([], 0) (omega arith)
      (omega arith) (omega arith) three_sent refl
      (λ u l.
        first_bytes_prefix u.1 (frame three)
          (omega (arith, l, length-first_bytes u.1 (frame three))))
