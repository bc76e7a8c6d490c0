-- ===== src/Sockets/Pipes.antt =====
-- Two sockets for concrete runs. `sink` takes and gives five bytes and more at a time and has no faults; `source`
-- gives a stream whose first bytes are chosen.
use origin_ccl.Prelude.{
  ℕ, zero, suc, ◌≡◌, ◌<◌, ◌≤◌, ◌+◌, min, refl, ◌∙◌, ap, arith, List, [], ◌∷◌, ◌++◌, length, take,
  drop, replicate, length-replicate,
}
use origin_ccl.Sockets.{Socket, Sent, Received}
use origin_ccl.Sockets.Streams.{SendLaw, RecvLaw, IsStream}

-- Its world holds what was sent and what was received.
abbrev pub sink : Socket
sink = record {
  World = List ℕ × List ℕ;
  send = λ bs w. (Sent.moved (min 5 (length bs)), (w.0 ++ take (min 5 (length bs)) bs, w.1));
  recv = λ n w. (Received.bytes (replicate n 7), (w.0, w.1 ++ replicate n 7));
}

pub sink_moves :
    (bs : List ℕ) (w : List ℕ × List ℕ) (m : ℕ)
    → min 5 (length bs) ≡ m
    → 0 < length bs
    → SendLaw sink ⊥ (λ w. w.0) (λ w. 0) bs w (Sent.moved m, (w.0 ++ take m bs, w.1))
sink_moves bs w zero e l = omega (arith, e, l)
sink_moves bs w (suc m) e l = (omega (arith, e), refl, omega arith)

pub sink_gives :
    (n : ℕ) (w : List ℕ × List ℕ)
    → 0 < n
    → RecvLaw sink ⊥
        (λ w. w.1)
        (λ w. 0)
        n
        w
        (Received.bytes (replicate n 7), (w.0, w.1 ++ replicate n 7))
sink_gives zero w l = absurd (omega (arith, l))
sink_gives (suc n) w l = (omega (arith, length-replicate {A = ℕ} n 7), refl, omega arith)

abbrev pub sink-IsStream : IsStream sink ⊥
sink-IsStream = record {
  sent = λ w. w.0;
  got = λ w. w.1;
  waits = λ w. 0;
  sends = λ bs w l. sink_moves bs w (min 5 (length bs)) refl l;
  recvs = λ n w l. sink_gives n w l;
}

-- The first bytes of a stream that begins with the given ones.
abbrev pub first_bytes : ℕ → List ℕ → List ℕ
first_bytes zero bs = []
first_bytes (suc n) [] = 7 ∷ first_bytes n []
first_bytes (suc n) (b ∷ bs) = b ∷ first_bytes n bs

-- Its world holds what was sent and the position in the stream.
abbrev pub source : List ℕ → Socket
source whole = record {
  World = List ℕ × ℕ;
  send = λ bs w. (Sent.moved (min 5 (length bs)), (w.0 ++ take (min 5 (length bs)) bs, w.1));
  recv = λ n w. (Received.bytes (first_bytes n (drop w.1 whole)), (w.0, w.1 + n));
}

pub length-first_bytes : (n : ℕ) (bs : List ℕ) → length (first_bytes n bs) ≡ n
length-first_bytes zero bs = refl
length-first_bytes (suc n) [] = ap suc (length-first_bytes n [])
length-first_bytes (suc n) (b ∷ bs) = ap suc (length-first_bytes n bs)

first_bytes-add :
    (m n : ℕ) (bs : List ℕ) → first_bytes (m + n) bs ≡ first_bytes m bs ++ first_bytes n (drop m bs)
first_bytes-add zero n bs = ap (λ k. first_bytes k bs) (omega arith)
first_bytes-add (suc m) n [] =
    let e : suc m + n ≡ suc (m + n) = omega arith in
    ap (λ k. first_bytes k []) e
    ∙ ap (λ ys. 7 ∷ ys)
        (first_bytes-add m n [] ∙ ap (λ ys. first_bytes m [] ++ first_bytes n ys) (drop_nil m))
  where
    drop_nil : (k : ℕ) → drop {A = ℕ} k [] ≡ []
    drop_nil zero = refl
    drop_nil (suc k) = refl
first_bytes-add (suc m) n (b ∷ bs) =
    let e : suc m + n ≡ suc (m + n) = omega arith in
    ap (λ k. first_bytes k (b ∷ bs)) e ∙ ap (λ ys. b ∷ ys) (first_bytes-add m n bs)

-- As far as the given bytes go, they are what the stream gives.
pub first_bytes_prefix :
    (n : ℕ) (bs : List ℕ) → n ≤ length bs → (rest : List ℕ) × (bs ≡ first_bytes n bs ++ rest)
first_bytes_prefix zero bs l = (bs, refl)
first_bytes_prefix (suc n) [] l = absurd (omega (arith, l))
first_bytes_prefix (suc n) (b ∷ bs) l =
    let (rest, e) = first_bytes_prefix n bs (omega (arith, l)) in (rest, ap (λ ys. b ∷ ys) e)

pub source_takes :
    (whole bs : List ℕ) (w : List ℕ × ℕ) (m : ℕ)
    → min 5 (length bs) ≡ m
    → 0 < length bs
    → SendLaw (source whole) ⊥ (λ w. w.0) (λ w. 0) bs w (Sent.moved m, (w.0 ++ take m bs, w.1))
source_takes whole bs w zero e l = omega (arith, e, l)
source_takes whole bs w (suc m) e l = (omega (arith, e), refl, omega arith)

pub source_gives :
    (whole : List ℕ) (n : ℕ) (w : List ℕ × ℕ) (bs : List ℕ)
    → 0 < n
    → first_bytes n (drop w.1 whole) ≡ bs
    → RecvLaw
        (source whole)
        ⊥
        (λ w. first_bytes w.1 whole)
        (λ w. 0)
        n
        w
        (Received.bytes bs, (w.0, w.1 + n))
source_gives whole n w [] l e =
    absurd (omega (arith, l, ap length e, length-first_bytes n (drop w.1 whole)))
source_gives whole n w (b ∷ bs) l e = (
  omega (arith, ap length e, length-first_bytes n (drop w.1 whole)),
  first_bytes-add w.1 n whole ∙ ap (λ ys. first_bytes w.1 whole ++ ys) e,
  omega arith,
)

abbrev pub source-IsStream : (whole : List ℕ) → IsStream (source whole) ⊥
source-IsStream whole = record {
  sent = λ w. w.0;
  got = λ w. first_bytes w.1 whole;
  waits = λ w. 0;
  sends = λ bs w l. source_takes whole bs w (min 5 (length bs)) refl l;
  recvs = λ n w l. source_gives whole n w (first_bytes n (drop w.1 whole)) l refl;
}
