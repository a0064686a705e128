-- ===== src/Lib.antt =====
-- Verification of DebianForm's scheduler, recorded state and engine.
--
-- The program reads a configuration, merges it into host specifications, compiles these into a
-- resource graph, plans the changes against the recorded state of every host, and applies the plan
-- over SSH. The core that is modelled here starts at the graph.
--
-- In internal/core/graph: a graph is a list of nodes and of operations that depend on one another
-- (Graph.antt). schedule.go builds the table of entries (Graph/Schedule.antt, scheduleEntries),
-- looks for a cycle by a depth-first search (Graph/Acyclic.antt, validateAcyclic) and sorts the
-- entries into waves (Graph/Kahn.antt for the loop over the indegrees, Graph/Waves.antt for
-- scheduleWavesWithAliases, Validate, Waves, ActiveWaves and TopologicalSort).
--
-- The dependencies that a configuration declares (Graph/Dependencies.antt):
-- applyExplicitDependencies of graph_dependencies.go, and the artifact references of
-- internal/core/merge/resource_dependencies.go.
--
-- In internal/core/state: the recorded state of a host (State.antt for state.go, State/Moves.antt
-- and State/Moves/Resolve.antt for moved.go).
--
-- In internal/core/engine/engine.go: Compare (Engine/Compare.antt), the orphans in the state
-- (Engine/Orphans.antt), the operations that changes trigger (Engine/Operations.antt), the plan
-- (Engine/Planning.antt), the order of execution (Engine/Order.antt, which uses the scheduler),
-- the run of the waves (Engine/Execution.antt), what a resource step leaves in the state
-- (Engine/Apply.antt), and the whole step (Engine/Stepping.antt).
-- What an operation records is Engine/Outputs.antt, with executeItem. internal/core/engine/memory.go
-- is Engine/Memory.antt.
--
-- Around a plan and its execution: the pool of workers over the hosts (Engine/Hosts.antt, runHosts,
-- with boundedHostParallel of internal/core/engine/facts.go), the locks of the hosts
-- (Engine/Locks.antt; Engine/Locks/InMemory.antt shows that the in-memory backend is as the
-- interface asks), and the states that the execution starts with (Engine/Preparation.antt, and
-- Ir/Platform.antt for internal/core/ir/platform.go). The choices of the threads in the pool are a
-- list of events, and the theorems are about every list.
--
-- In internal/core/plan/diff.go: the hunks of a text (Plan/Hunks.antt).
--
-- In internal/core/ir/types.go: the records of Ir.antt. Base.antt and the files under it hold texts,
-- counting, sorting, maps and results; Value.antt has the attributes of a resource.
--
-- A text is its list of bytes, a Go map is an association list, and `any` is a value of
-- Value.antt. Where Go goes through a map in an arbitrary order, the model goes through the list in
-- its order, and the theorems are about every list. An error is its kind with what its message
-- names. Numbers are natural numbers; the ones that the code counts with are bounded by the lengths
-- of lists in memory. The serial of a state is the 64 bits of a Go int and wraps.
--
-- Fuel: the depth-first search has one more than the number of entries, which bounds the length of
-- its stack; the loop over the waves has one more than the number of addresses, since every round
-- emits one; the chains of moves have one more than the number of moves.
--
-- Parameters: SHA-256 and the JSON encoder (State.Hashing), the JSON decoder, `strconv.Quote`, the
-- clock, and in Engine/Execution.antt the execution of one item and the order in which the items
-- of a wave take effect. In Engine/Stepping.antt, Engine/Outputs.antt and Engine/Preparation.antt,
-- the provider and the backend. In Engine/Locks.antt, the backend's locks with the laws that the
-- engine relies on, and what the lease monitor has recorded.
--
-- Not modelled: the parser, the rest of the merge, the compilation of host specifications to
-- nodes, the providers, the SSH backend with the threads of its leases, the rest of the plan
-- document, the progress log and the command line. They are input and output, or stand on libraries
-- that are not part of the repository.
pub mod Base
pub mod Value
pub mod Ir
pub mod Graph
pub mod State
pub mod Engine
pub mod Plan
pub mod Tests
