-- ===== src/Lib.antt =====
-- A model of OriginCCL, a collective communication library in C++ (include/, src/).
--
-- A communicator connects the ranks of a job by channels. A batch of calls (AllReduce, Broadcast, Reduce,
-- AllGather, ReduceScatter, Send, Recv) is sorted and cut into slices by the planner; each slice holds a
-- topology and the transports to its neighbours, and an executor steps the slices until they are done.
--
-- Files:
--   Types        include/types.h and include/channel.h: tasks, plans, channels
--   Channels     the connector of a peer in a channel (Channel::SendConnector, RecvConnector)
--   Outcome      how a call ends: a value, `false`, or the exception of vector::at
--   Utils        src/utils.cpp: the size of a data type (GetDataTypeSize)
--   Utils.Codec  src/utils.cpp: EncodeInt to DecodeNodeInfo, the bytes that bootstrapping exchanges
--   Utils.Frames   src/utils.cpp: SendAll and RecvAll
--   Planner      src/planner.cpp, by groups of functions:
--     Validate     ValidateCollectiveTask, one Boolean function for each of its guards
--     Rounds       P2pRoundOf
--     Sort         SortTasks with its two comparators, IsCollectiveBatch
--     Peers        ValidateP2p, P2pUsable, which transport ConnectP2p takes, and (Missing) which peers
--                  PrepareRound connects
--     Batch        ConnectP2p, AcceptP2pOne, PrepareRound and (Planning) PlanP2pRound and Plan, over a network that is
--                  a parameter; Joining to Prepared prove of a round, Linked and Plans of the transports of a plan,
--                  Tally to Counts of how often a message stands in it
--     StableSort   std::stable_sort, as the one stable order there is for a strict weak order
--     Slices       EmitCollectiveSlices: `split_of` holds the locals before the loop, `emit_slice` is the
--                  loop's body and `emit_loop` the loop
--   Topology     include/topology/topology.h: the virtual call FillTransports
--     Ring, Tree, P2p   FillChannels, FillPeers and FillTransports of src/topology/topology_ring.cpp,
--                  topology_tree.cpp and topology_p2p.cpp
--     Stepping     CollOpState of include/types.h, the transports and memory that a step works on, loops
--     Ring.Schedule  the chunk and byte formulas of AllReduce in topology_ring.cpp, at a phase and a step
--     Ring.Transfer, Ring.Collectives, Ring.Calls   PushBuffer and BeginPhase, the Complete functions, and the Init and
--                  Step functions of the five collectives
--     Tree.Stepping, Tree.Calls   PushRecvs, PushSends, EnterDown, Advance, TreeInit and the calls of the tree
--     P2p.Stepping   CollectiveInit and CollectiveStep of topology_p2p.cpp
--   Communicator   src/communicator.cpp: the calls of the user, GroupStart, GroupEnd, Submit, Flush
--   Sockets        `send` and `recv` of the system, and the loops over them that the next two share
--   Transport.Tcp  src/transport/transport_tcp.cpp: TrySend, TryRecv, SendRaw, RecvRaw
--   Transport.Shm  src/transport/transport_shm.cpp: Produce, Consume, SpaceAvailable, DataAvailable
--   Executor       src/executor: what the executors ask of a topology, and ExecuteTask of
--                  multi_thread_executor.cpp with the tasks of a channel in WorkerLoop
--     Polling      StartFrontTask and Run of polling_executor.cpp
--     Dynamic      BatchSize and ProcessChannel of dynamic_multi_thread_executor.cpp, as steps of its workers
-- The children of these modules prove; a module named Examples holds concrete runs. Prelude has the shared
-- names, Boolean tests, list lemmas and integers.
--
-- Conventions. `size_t` and `uint64_t` are numbers with the wrap at 2 ^ 64 written out, `int` is a signed
-- integer, an address is a number and a null pointer `none`, a `shared_ptr<Transport>` is the number of a
-- transport object. The constants are those without OCCL_SMALL_TESTS. An enumeration has a
-- constructor `other` for a value that is none of its enumerators, which the `default` branches handle.
-- `int` arithmetic is not wrapped: it is taken that twice the world size, twice the number of machines and
-- the number of chunks of a slice fit an `int`. Loops are structural recursion on the number of rounds or
-- on the list. The loops of the Complete functions of the ring are run by `turns`, with twice the steps of an
-- AllReduce, the world size and four as fuel, and that of Advance with three: a measure below the fuel falls in every
-- turn, so that none of them runs out of it. Logging is left out.
--
-- Of the shared-memory ring, a call of an endpoint is one step. The copy and the store of the cursor are not
-- interleaved with the other side: that side reads no byte before the cursor is stored, and
-- frees none that the call may write.
--
-- Of an AllReduce on the ring, the theorems on whole phases let all ranks take a step together, and follow a
-- chunk by the ranks whose data is in it; the transports and the reductions themselves are left out.
--
-- Stepping. The transports and the rest of memory are the parameter `Wires`: TrySend and TryRecv take the place,
-- the size and the progress, and give the new progress and whether they are done, or fail; memcpy, PerformReduce
-- and ApplyAverage change a world that the model does not look into. An access past the end of a vector and
-- a null transport end a call as a failure. `IsRegime` says what is taken of the world: that a transfer
-- fails only if `F` holds, and, where `instant` is true, is done at once; the theorems that hold of every world
-- take nothing.
--
-- Sockets. A stream socket is the parameter `Socket`: a call takes or gives some bytes, blocks, or breaks. `IsStream`
-- says what is taken of it: bytes go and come in order, and calls block only a bounded number of times, so that
-- a loop with more turns than bytes and blocked calls does not run out of them. `F` says what a fault means: where
-- it has no elements, there is none.
--
-- Batches. The parameter `Network` stands for the connecting of transports, `poll` and the exchange of ranks. The two
-- threads of PrepareRound take turns by a schedule, one peer at a time; AcceptP2pOne makes at most as many polls as its
-- fuel, since a peer may never come. A rank without a slot, which the code does not
-- check for, changes no slot.
--
-- Executors. The parameter `Stepper` stands for the virtual calls of a topology. The workers of the dynamic executor
-- take steps in any order: a claim under the mutex with the broadcast that follows, and a slice, are one step each.
-- A round of the polling executor is a turn of `turns`. Yielding, pinning and waking of threads are left out.
--
-- Not modelled: connecting channels and the rendezvous (sockets, verbs), the bytes that the stepping of a collective
-- moves, the executors over epoll and of the reactor, and bootstrapping beyond its codec. The model of the communicator
-- has the planner and the executors as an interface.
pub mod Prelude
pub mod Types
pub mod Utils
pub mod Planner
pub mod Outcome
pub mod Channels
pub mod Topology
pub mod Transport
pub mod Communicator
pub mod Sockets
pub mod Executor
