-- ===== src/Lib.antt =====
-- This library models parts of CroCOS, a kernel in C++ with its own containers and allocators, and
-- proves what makes them correct. A template is a definition over its parameters. Words of 64 bits are
-- natural numbers with their wrap-around written out. An assertion that fails, a division by zero and a
-- write outside a buffer give `none`.
--
-- Base: names of the libraries passed on, Boolean tests, lists and raw memory (a `T*` is the function
--   from the index to the value there).
-- Core.SplitBitmap: libraries/Core/include/core/atomic/SplitBitmap.h. A word is the list of its 64
--   bits, the lowest first; the bitmap is the words of both sides and the hint. Claim, Drain and
--   ClaimBit are about the claim, Release and Reserve about the other operations, Available about what
--   a client sees.
-- LibAlloc.Bookkeeper: libraries/LibAlloc/include/liballoc/Slab.h (`SlabBookkeeper`) and
--   OccupancyTransition.h; it calls SplitBitmap and counts. Slots is about allocation and release, Seed
--   about the seeding.
-- LibAlloc.Slab: the class `Slab` of libraries/LibAlloc/SlabAllocator.cpp, a stack of free slots linked
--   through the slots themselves, with a bitmap against double frees. Stack is the refinement to the
--   list of free slots, Layout the constructor, Bits the bitmap.
-- LibAlloc.Buckets: the bucket tables of the same file. LibAlloc.Pointers: PointerArithmetic.h.
-- Core.Vector: libraries/Core/include/core/ds/Vector.h; Policy is the capacity, Sequence and Insert the
--   elements. Core.Heap (ds/Heap.h) keeps its elements in one and calls Core.Sort.
-- Core.Sort: libraries/Core/include/core/algo/sort.h, with a module per routine. Rearranged is what all
--   of them do to the array: they move elements about within a range.
-- Core.StaticStack: libraries/Core/include/core/ds/Stack.h.
-- Core.RingBuffer: `MPMCRingBuffer` of libraries/Core/include/core/atomic/RingBuffer.h, with the threads
--   that are inside its operations; a step is one atomic operation or one access to a slot, and a schedule
--   is any order of steps. Tickets is how claims are handed out and completed, State the invariant, Moves
--   and Steps what keeps it, Places and Runs the code step by step, Reach all schedules
--   of a ring on which `bulkWrite` is not mixed with the other writes, Delivery what readers of such a
--   ring get, Progress that nothing is stuck on it, Overrun the mixed use.
-- Core.TreiberStack: `TreiberStack` of libraries/Core/include/core/atomic/TreiberStack.h, in the same way.
--   Shape is the invariant, Steps what keeps it, Effects the code step by step, Linear all schedules.
-- Core.EpochDomain: `EpochDomain` of libraries/Core/include/core/rcu/EpochDomain.h, in the same way: the
--   read side, the advance of the epoch and `synchronize`. Words is the state word, Shape the invariant,
--   Steps, Sections and Invariant what keeps it, GracePeriod that `synchronize` waits, Return that it returns.
-- Core.LimboBags: the limbo bags of a slot, in the same file; the epoch is an argument. Words is a bag's
--   word, Expiry the invariant, Sweep, Prepare and Retire keep it, Drains and Kept are
--   about the nodes, of which none is lost, Calls about every sequence of calls.
-- Core.LinkedList: libraries/Core/include/core/ds/LinkedList.h, `IntrusiveLinkedList`; the links of all
--   nodes are two functions. Shape is what a list links, Link is about the pushes, Unlink about removal.
-- Core.IndexedHashTable: libraries/Core/include/core/ds/IndexedHashTable.h.
-- Core.Tree: libraries/Core/include/core/ds/Trees.h, the trees and their searches; Order is what a search
--   tree is, Search is about floor. Core.RedBlack is the red-black tree: the ancestry stack is a path of
--   frames. Balance is the red-black property, Contents the elements, Insert, EraseFixup and Erase keep
--   the property, Descend is the way down, and Sorted puts them together.
-- LibAlloc.Span: the class `MemorySpanHeader` of libraries/LibAlloc/InternalAllocator.cpp, whose blocks
--   are in trees of Core.RedBlack; Carve is where an allocation goes in a block. LibAlloc.SpanSearch is
--   the search for a span, over the augmented tree.
-- Kernel.TimerQueues: kernel/timing/TimerQueues.cpp, the search for an event to share; Coalescing is
--   about it.
-- Core.FrequencyData: libraries/Core/FrequencyData.cpp and `log2floor` of core/math.h.
-- Core.Math: libraries/Core/include/core/math.h.
-- Kernel.ContextDepths: kernel/interrupts/InterruptContextDepths.cpp and its header.
-- Kernel.ClockManager: kernel/timing/ClockManager.cpp; a calibration calls FrequencyData.
--   Kernel.MonotonicTime is the time and the stopwatch of the same file.
-- Tests: the theorems at concrete inputs.
--
-- Fuel: `heapify` runs on the size of the heap plus one (the index grows in each round and stays below
-- the size), the scans and rounds of the partition on the length of the range plus one (some cell
-- always stops a scan, and the two indices close in), `bubble_up` on the size, `gcd` on the second
-- argument plus one, `log2floor` on the 64 bits, the probe on the capacity (its index is back at the start
-- by then). That it is enough is part of the theorems on the first four and of that on the probe. `eraseFixup` runs on the length of the path
-- plus two (only a red sibling makes the path longer, once, and the round after it is the last), which is
-- part of the theorem on `erase`. `introsort` needs none: it recurses on its depth limit.
-- `compare_loop` waits for the hardware, and its fuel is the number of rounds waited. The threads of
-- Core.RingBuffer, Core.TreiberStack and Core.EpochDomain need none: a schedule is a list of steps, and
-- the theorems bound its length only by what keeps a 64-bit counter from wrapping.
--
-- Not modelled: memory orders weaker than sequential consistency; other CPUs that run in between, except
-- in Core.RingBuffer, Core.TreiberStack and Core.EpochDomain (elsewhere each operation is one sequence of
-- steps); `barrier` and the drain at teardown of an epoch domain, and deleters that retire; the cast of a slice's size
-- to `int64_t` in `heapsort` (an array has fewer than 2 ^ 63 elements), and the mask in
-- `findFirstAlignedAddressAfterHeaderSpace`, for which its remainder stands (the same test for a power of
-- two, which the code assumes); destructors,
-- the iterators of the hash table and of the linked list, the list that owns its nodes, the augmented data of a
-- red-black tree in its rotations, parent pointers (a path of frames stands for them), the event sources of the clock manager, and the components that are not named above.
pub mod Base
pub mod LibAlloc
pub mod Core
pub mod Kernel
pub mod Tests
