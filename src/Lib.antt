-- ===== src/Lib.antt =====
-- o3: bounded storage and accounting for one thread, in Rust. What is modelled here is the arithmetic
-- of bounded numbers, of time and of memory layouts, the accounts that admit and return credit, the
-- ring FIFO, the minimum heaps, the linked topologies over one store of hooks, and the hash directory
-- with its flat table.
--
-- How the parts meet: rings, heaps and tables keep counts and positions that fit 32 bits, as `base::num`
-- bounds them; `mem` admits work before it is queued, and takes it back when a lease is dropped; a slot
-- that a free list hands out is linked into chains and cycles over the same store.
--
-- Prelude        tests, lists and words that all parts share; `wrapping_add` and `wrapping_sub` are
--                those of `Word` in src/mem/raw/mod.rs, with the modulus as an argument
-- Base/Num       src/base/num: `U32`, `U64`, `Usize`, `Epoch` and `Generation`. Const parameters are
--                arguments, and const assertions are hypotheses.
-- Base/Time      src/base/time.rs: `DurationExt::average` and `Unix`
-- Alloc          src/alloc/raw: the layouts of planes in one allocation (Size, Extend, Planes, Apart),
--                the greatest row count (Greatest), and the growth of a buffer (Grow)
-- Mem/Account    src/mem/raw/state/account.rs and src/mem/credit: one scalar account, and its ledger
-- Mem/Quota      src/mem/quota.rs: `Ledger`, `Lease`, `Shared` and `admit_with`
-- Mem/Count      src/mem/raw/mod.rs (`Count`, `Edge`) and src/mem/raw/state/live.rs
-- Mem/Balance    src/mem/raw/balance.rs: fair credit on several axes; Grants and Backed are about the
--                charges and grants of charge.rs and grant.rs
-- Capacity       src/depot/capacity: the counts and limits of collections that a `u32` indexes
-- Ring           src/depot/queue/ring and the ring traits of src/depot/raw
-- Heap           src/depot/heap: Path is hole/path.rs, Entry the operations of raw/hole.rs, mod.rs,
--                entry and keyed; the other files are proofs
-- Links          src/depot/queue/links and src/depot/raw/hooks: Index is index.rs, Order and Chains the
--                sequences of chains, Circle is cycle.rs, Free is free.rs, Stack is list.rs
-- Lanes          src/depot/queue/resident/lanes.rs and src/depot/queue/round/join.rs: FIFOs of
--                residents and their ring of turns, on chains, a cycle and a free list of Links
-- Map            src/depot/map: the plan (Plans), scans (Probing, Lookup), backshift (Edit, Backshift,
--                Closing, Removal), and Flat, the table of src/depot/map/flat
--
-- State is passed explicitly: a `Cell` or a `&mut` is a value that an operation takes and returns, and
-- a closure that the source runs is a function on the state that it may touch. A `usize` is a number
-- below 2 ^ 64 and a cast to `u32` is the remainder by 2 ^ 32; where the source relies on a bound that
-- its types keep, the theorem has it as a hypothesis or proves it of every reachable state.
-- A priority of a heap is a number, since the source only compares priorities.
--
-- Fuel: `up_end` and `raise` have one more than the position, which falls in each round; `down_end`
-- has one more than the length, which bounds the position; `bits_from` has 64, the digits of a
-- `usize`. That this is enough is part of the proofs of Heap/Climb and Heap/Descent, and no heap
-- theorem supposes it. A scan or a backshift of a directory has as many rounds as there are buckets,
-- and yields nothing without any left: the theorems on tables say that a result is returned. The
-- search of `Rows::EXTRA_MAX` has 64 rounds, as many as halve a span below 2 ^ 64 to nothing; that
-- this is enough is part of its theorem.
--
-- Not modelled: raw memory, its allocation and initialisation (the rest of src/alloc, the projections
-- of src/mem), brands and thread markers, which carry no data, arenas, arrays, the other maps and the
-- other queues that are clients of the links (src/depot), buffers (src/buffer), and panics of a
-- priority's own comparison.
pub mod Prelude
pub mod Base
pub mod Alloc
pub mod Mem
pub mod Capacity
pub mod Links
pub mod Map
pub mod Lanes
pub mod Ring
pub mod Heap
