-- ===== src/Planner/Batch.antt =====
-- `PrepareRound` of src/planner.cpp, with `ConnectP2p` and `AcceptP2pOne`, and what `Plan` shares with it. The messages of each round are joined to their peers
-- first, by two threads if there are both sends and receives.
pub mod Joining
pub mod Accepting
pub mod Preparing
pub mod Prepared
pub mod Linked
pub mod Collectives
pub mod Tally
pub mod Once
pub mod Counts
pub mod Planning
mod Examples
pub mod Plans
use origin_ccl.Prelude.{
  ℕ, zero, suc, ◌+◌, ◌-◌, ◌==◌, Bool, true, false, not, ◌&&◌, ◌||◌, Option, none, some, List, [],
  ◌∷◌, get_elem?, set, all, length, keep, if◌then◌else◌,
}
use origin_ccl.Prelude.Int.{ℤ, pos, negsuc, pos_part, eqb_ℤ}
use origin_ccl.Types.{
  CollFunc, CollTask, PlanTask, new_plan_task, CollPlan, Connector, Channel, TopologyKind,
}
use origin_ccl.Outcome.{Outcome}
use origin_ccl.Topology.{fill_transports}
use origin_ccl.Topology.Stepping.{Run, Turn, turns, is_empty}
use origin_ccl.Planner.Validate.{is_p2p, ◌is◌, validate_collective_task}
use origin_ccl.Planner.Rounds.{p2p_round_of}
use origin_ccl.Planner.Peers.{Peers, node_of, Link, link_to, validate_p2p, p2p_usable}
use origin_ccl.Planner.Peers.Missing.{is_missing, missing_peers}
use origin_ccl.Planner.Slices.{Comm, push_at, emit_collective_slices, new_plan}

-- How a call ends. `endless` is a wait for a peer that took more polls than it was allowed.
pub data Ending (A : Type 0) : Type 0 where
  ok : A → Ending A
  failed thrown endless : Ending A

infixl 5 ◌>>=◌
abbrev pub ◌>>=◌ : {A B : Type 0} → Ending A → (A → Ending B) → Ending B
ok a >>= f = f a
failed >>= f = failed
thrown >>= f = thrown
endless >>= f = endless

abbrev pub of_outcome : {A : Type 0} → Outcome A → Ending A
of_outcome (Outcome.ok a) = ok a
of_outcome Outcome.failed = failed
of_outcome Outcome.thrown = thrown

abbrev pub of_run : {A : Type 0} → Run A → Ending A
of_run (Run.ok a) = ok a
of_run Run.failed = failed
of_run Run.endless = endless

-- `GetChannel`
abbrev pub channel_at : List Channel → ℕ → Ending Channel
channel_at channels i = elim (get_elem? channels i) [ none ↦ thrown | some channel ↦ ok channel ]

-- `revents` of a listener, and how `poll` ends.
pub data Event : Type 0 where
  quiet pending broken : Event

pub data Polled : Type 0 where
  interrupted poll_failed : Polled
  ready : List Event → Polled

-- What the planner asks of the operating system and of the transports. `connect` makes a transport of a kind and
-- connects it; `send_rank` and `recv_rank` are its `Send` and `Recv` of an `int`.
pub record Network : Type 1 where
  pub World : Type 0
  pub shm_path : ℕ → ℤ → List ℕ
  pub connect : Link → List ℕ → ℕ → World → Option ℕ × World
  pub send_rank : ℕ → ℤ → World → Bool × World
  pub poll : List ℕ → World → Polled × World
  pub accept : ℕ → World → Option ℕ × World
  pub recv_rank : ℕ → World → Option ℤ × World

-- What the planner reads of a communicator: `port` is that of the unique id.
pub record Site : Type 0 where
  pub peers : Peers
  pub port : ℕ
  pub listeners : List ℕ

-- A write to a slot; a rank without a slot, which the code does not check for, changes nothing here.
abbrev pub set_transport : List Connector → ℕ → ℕ → List Connector
set_transport [] i t = []
set_transport (c ∷ cs) zero t = record c { transport = some t } ∷ cs
set_transport (c ∷ cs) (suc i) t = c ∷ set_transport cs i t

abbrev pub with_transport : List Connector → ℤ → ℕ → List Connector
with_transport cs (pos i) t = set_transport cs i t
with_transport cs (negsuc n) t = cs

module _ (network : Network) (site : Site) where
  open network use {World, shm_path, connect, send_rank, poll, accept, recv_rank}

  -- The channels of the communicator, and the rest of the world.
  pub record Joined : Type 0 where
    pub channels : List Channel
    pub world : World

  abbrev pub address : ℤ → Link → List ℕ × ℕ
  address peer Link.shm = (shm_path site.port peer, 0)
  address peer Link.rdma_zc =
      ((node_of site.peers peer).rdma_addr, (node_of site.peers peer).p2p_rdma_port)
  address peer Link.tcp = ((node_of site.peers peer).ip_addr, (node_of site.peers peer).p2p_port)

  abbrev pub after_rank : ℤ → Channel → Joined → ℕ → Bool × World → Bool × Joined
  after_rank peer channel j t (false, w) = (false, record j { world = w })
  after_rank peer channel j t (true, w) = (
    true,
    record {
      channels =
          set j.channels 0 (record channel { send_p2p = with_transport channel.send_p2p peer t });
      world = w;
    },
  )

  abbrev pub after_connect : ℤ → Channel → Joined → Option ℕ × World → Bool × Joined
  after_connect peer channel j (none, w) = (false, record j { world = w })
  after_connect peer channel j (some t, w) =
      after_rank peer channel j t (send_rank t site.peers.rank w)

  -- `ConnectP2p`
  unfoldable pub connect_p2p : ℤ → Joined → Ending (Bool × Joined)
  connect_p2p peer j =
      if not (p2p_usable site.peers peer)
      then ok (false, j)
      else channel_at j.channels 0 >>= λ channel.
          if not (is_missing channel.send_p2p peer)
          then ok (true, j)
          else (let link : Link = link_to site.peers peer in
              let to : List ℕ × ℕ = address peer link in
              ok (after_connect peer channel j (connect link to.0 to.1 j.world)))

  -- The state of the loops of `AcceptP2pOne`: the slots of the channel.
  abbrev pub Slots : Type 0
  Slots = List Connector × World

  abbrev pub after_source : Slots → ℕ → Option ℤ × World → Bool × Slots
  after_source slots t (none, w) = (false, (slots.0, w))
  after_source slots t (some source, w) = (true, (with_transport slots.0 source t, w))

  abbrev pub after_accept : Slots → Option ℕ × World → Bool × Slots
  after_accept slots (none, w) = (false, (slots.0, w))
  after_accept slots (some t, w) = after_source slots t (recv_rank t w)

  -- The loop over the listeners after a poll.
  abbrev pub accept_ready : List ℕ → List Event → Slots → Bool × Slots
  accept_ready (l ∷ ls) (Event.quiet ∷ es) slots = accept_ready ls es slots
  accept_ready (l ∷ ls) (Event.broken ∷ es) slots = (false, slots)
  accept_ready (l ∷ ls) (Event.pending ∷ es) slots =
      let after : Bool × Slots = after_accept slots (accept l slots.1) in
      let rest : Bool × Slots = accept_ready ls es after.1 in if after.0 then rest else after
  accept_ready _ _ slots = (true, slots)

  abbrev pub next_poll : Bool × Slots → Turn (Bool × Slots)
  next_poll (true, slots) = Turn.again (true, slots)
  next_poll (false, slots) = Turn.stop (false, slots)

  abbrev pub after_poll : Slots → Polled × World → Turn (Bool × Slots)
  after_poll slots (Polled.interrupted, w) = Turn.again (true, (slots.0, w))
  after_poll slots (Polled.poll_failed, w) = Turn.stop (false, (slots.0, w))
  after_poll slots (Polled.ready es, w) = next_poll (accept_ready site.listeners es (slots.0, w))

  -- A poll until the peer has a slot. An interrupted poll is made again, and the slots are as before.
  unfoldable pub accept_turn : ℤ → Bool × Slots → Turn (Bool × Slots)
  accept_turn peer (b, slots) =
      if not (is_missing slots.0 peer)
      then Turn.stop (true, slots)
      else after_poll slots (poll site.listeners slots.1)

  -- `AcceptP2pOne`, with at most `fuel` polls.
  unfoldable pub accept_p2p_one : ℕ → ℤ → Joined → Ending (Bool × Joined)
  accept_p2p_one fuel peer j =
      if not (p2p_usable site.peers peer)
      then ok (false, j)
      else channel_at j.channels 1 >>= λ channel.
          of_run (turns fuel (accept_turn peer) (true, (channel.recv_p2p, j.world)))
          >>= λ (b, (slots, w)). ok (
            b,
            record { channels = set j.channels 1 (record channel { recv_p2p = slots }); world = w },
          )

  -- A loop over peers that returns at the first that fails.
  unfoldable pub each_peer :
      (ℤ → Joined → Ending (Bool × Joined)) → List ℤ → Joined → Ending (Bool × Joined)
  each_peer f [] j = ok (true, j)
  each_peer f (peer ∷ peers) j =
      f peer j >>= λ (b, next). elim b [ true ↦ each_peer f peers next | false ↦ ok (false, next) ]

  -- The two threads, between two rounds of their loops.
  pub record Threads : Type 0 where
    pub to_connect : List ℤ
    pub to_accept : List ℤ
    pub error : Bool
    pub joined : Joined

  -- A round of the loop of a thread, which takes the peers that it has left, and what it leaves of them.
  unfoldable pub thread_round :
      (ℤ → Joined → Ending (Bool × Joined))
      → List ℤ
      → Bool
      → Joined
      → Ending (List ℤ × (Bool × Joined))
  thread_round f [] error j = ok ([], (error, j))
  thread_round f (peer ∷ peers) true j = ok ([], (true, j))
  thread_round f (peer ∷ peers) false j = f peer j >>= λ (b, next). ok (peers, (not b, next))

  unfoldable pub connects_then_accepts : ℕ → List ℤ → List ℤ → Joined → Ending (Bool × Joined)
  connects_then_accepts fuel send_peers recv_peers j =
      each_peer connect_p2p send_peers j >>= λ (b, next). elim b [
        | true ↦ each_peer (accept_p2p_one fuel) recv_peers next
        | false ↦ ok (false, next)
      ]

  -- The threads until both are joined, where `schedule` says which goes on, true for the one that connects. What
  -- it leaves over is done at the end, so that each interleaving is that of a schedule.
  unfoldable pub run_threads : ℕ → List Bool → Threads → Ending (Bool × Joined)
  run_threads fuel [] s =
      if s.error
      then ok (false, s.joined)
      else connects_then_accepts fuel s.to_connect s.to_accept s.joined
  run_threads fuel (true ∷ schedule) s =
      thread_round connect_p2p s.to_connect s.error s.joined >>= λ (peers, (error, j)).
      run_threads fuel schedule
        (record { to_connect = peers; to_accept = s.to_accept; error = error; joined = j })
  run_threads fuel (false ∷ schedule) s =
      thread_round (accept_p2p_one fuel) s.to_accept s.error s.joined >>= λ (peers, (error, j)).
      run_threads fuel schedule
        (record { to_connect = s.to_connect; to_accept = peers; error = error; joined = j })

  unfoldable pub join_peers : ℕ → List Bool → List ℤ → List ℤ → Joined → Ending (Bool × Joined)
  join_peers fuel schedule send_peers recv_peers j =
      if is_empty send_peers || is_empty recv_peers
      then connects_then_accepts fuel send_peers recv_peers j
      else run_threads fuel schedule
          (record { to_connect = send_peers; to_accept = recv_peers; error = false; joined = j })

  unfoldable pub prepare_round :
      ℕ → List Bool → List CollTask → List CollTask → Joined → Ending (Bool × Joined)
  prepare_round fuel schedule sends recvs j = channel_at j.channels 0 >>= λ sending.
      channel_at j.channels 1 >>= λ receiving.
      join_peers fuel schedule (missing_peers sends sending.send_p2p)
        (missing_peers recvs receiving.recv_p2p) j
