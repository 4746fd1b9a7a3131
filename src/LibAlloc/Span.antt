-- ===== src/LibAlloc/Span.antt =====
-- libraries/LibAlloc/InternalAllocator.cpp: `MemorySpanHeader`, a span of memory that is cut into free
-- and allocated blocks.
--
-- Both free trees and the tree of allocated blocks are those of Core.RedBlack. The headers' sizes are
-- the ones of amd64: a header is aligned to 16 bytes. `none` is an assertion that fails, or a fault
-- within a tree.
pub mod Carve
use Prim.Native.Nat.{max, min}
use cro_cos.Base.{
  ℕ, zero, suc, ◌+◌, ◌-◌, ◌*◌, ◌/◌, ◌%◌, ◌^◌, ◌≤◌, ◌<◌, ◌≡◌, ◌&&◌, ◌||◌, Bool, true, false, not,
  Option, none, some, ltb, leb, ◌==◌, if◌then◌else◌, [],
}
use cro_cos.LibAlloc.Pointers.{add64, sub64, align_down, align_up}
use cro_cos.Core.Tree.{Tree, leaf, floor, mapped_ceil, max_of, predecessor, successor}
use cro_cos.Core.RedBlack.{insert, erase, locate}

-- What `size()` reads of a `sizeAndColor`: `~3u` has 32 bits, so those above them are lost too.
unfoldable pub read_size : ℕ → ℕ
read_size size_and_color = size_and_color % 2 ^ 32 - size_and_color % 4

-- An `UnallocatedMemoryBlockHeader`, by its address and by what `size()` reads.
pub record FreeBlock : Type 0 where
  pub address : ℕ
  pub size : ℕ

-- An `AllocatedMemoryBlockHeader`, with `dataBegin` if it is an aligned one.
pub record AllocatedBlock : Type 0 where
  pub header : ℕ
  pub block_size : ℕ
  pub data_begin : Option ℕ

abbrev pub same_address : FreeBlock → FreeBlock → Bool
same_address a b = a.address == b.address

abbrev pub lower_address : FreeBlock → FreeBlock → Bool
lower_address a b = ltb a.address b.address

-- `UnallocatedMemoryBlockComparator`.
abbrev pub smaller_block : FreeBlock → FreeBlock → Bool
smaller_block a b = if a.size == b.size then ltb a.address b.address else ltb a.size b.size

abbrev pub same_header : AllocatedBlock → AllocatedBlock → Bool
same_header a b = a.header == b.header

abbrev pub lower_header : AllocatedBlock → AllocatedBlock → Bool
lower_header a b = ltb a.header b.header

abbrev pub allocated_header_size : ℕ
allocated_header_size = 32

abbrev pub aligned_header_size : ℕ
aligned_header_size = 48

abbrev pub minimum_block_size : ℕ
minimum_block_size = 96

pub record Span : Type 0 where
  pub address : ℕ
  pub span_size : ℕ
  pub releasable : Bool
  pub allocated : Tree AllocatedBlock
  pub free_by_size : Tree FreeBlock
  pub free_by_address : Tree FreeBlock
  pub free_space : ℕ
  pub largest_free_block_size : ℕ

-- The alignment that every header gives: `guaranteedAlignAfterBlock`. Its only bit is that of 16.
unfoldable pub compute_worst_case_aligned_size : ℕ → ℕ → ℕ
compute_worst_case_aligned_size size align =
    if sub64 align 1 / 16 % 2 == 0
    then add64 size allocated_header_size
    else add64 (add64 size align) aligned_header_size

-- The test of the code that is compiled in is `out & (align - 1)`, which for an alignment that is a
-- power of two, as that code assumes, is this one; this is its other form, for any alignment.
unfoldable pub first_aligned_address : ℕ → ℕ → ℕ
first_aligned_address addr align =
    let out = add64 addr allocated_header_size in
    if out % align == 0
    then out
    else align_up (add64 out (aligned_header_size - allocated_header_size)) align

unfoldable pub header_below : ℕ → ℕ
header_below addr = align_down (sub64 addr allocated_header_size) 16

-- Where an allocation goes in a free block from `base` to `end`.
pub record Carved : Type 0 where
  pub return_addr : ℕ
  pub header_base : ℕ
  pub next_header : ℕ

unfoldable pub lower_edge : ℕ → ℕ → ℕ
unfolding header_below
lower_edge base return_addr =
    if ltb (sub64 (header_below return_addr) base) minimum_block_size
    then base
    else header_below return_addr

unfoldable pub upper_edge : ℕ → ℕ → ℕ
upper_edge edge next = if ltb (sub64 edge next) minimum_block_size then edge else next

unfoldable pub next_after : ℕ → ℕ → ℕ → ℕ
next_after return_addr size header_base =
    align_up (max (add64 return_addr size) (add64 header_base minimum_block_size)) 16

unfoldable pub carve : ℕ → ℕ → ℕ → ℕ → Carved
unfolding first_aligned_address lower_edge upper_edge next_after
carve base edge size align =
    let return_addr = first_aligned_address base align in
    let header_base = lower_edge base return_addr in
    record {
      return_addr = return_addr;
      header_base = header_base;
      next_header = upper_edge edge (next_after return_addr size header_base);
    }

unfoldable pub insert_free_block : FreeBlock → Span → Span
insert_free_block block s = record s {
  free_by_size = (insert smaller_block same_address block s.free_by_size).1;
  free_by_address = (insert lower_address same_address block s.free_by_address).1;
  largest_free_block_size = max s.largest_free_block_size block.size;
}

-- `largestFreeBlockSize` once the block is out of the tree.
abbrev pub largest_left : FreeBlock → Tree FreeBlock → ℕ → ℕ
largest_left block t largest =
    if largest == block.size
    then elim (max_of t) [ none ↦ 0 | some biggest ↦ biggest.size ]
    else largest

unfoldable pub remove_free_block : FreeBlock → Span → Option Span
remove_free_block block s = elim (erase lower_address same_address block s.free_by_address) [
  | none ↦ none
  | some (_, by_address) ↦ elim (erase smaller_block same_address block s.free_by_size) [
    | none ↦ none
    | some (_, by_size) ↦ some (record s {
      free_by_size = by_size;
      free_by_address = by_address;
      largest_free_block_size = largest_left block by_size s.largest_free_block_size;
    })
  ]
]

-- The constructor, at an address and with a size. What `getBufferSize` reads does not change.
unfoldable pub buffer_start : ℕ → ℕ → ℕ
buffer_start span_header_size address = align_up (add64 address span_header_size) 16

unfoldable pub get_buffer_size : ℕ → Span → ℕ
unfolding buffer_start
get_buffer_size span_header_size s =
    sub64 (add64 s.address s.span_size) (buffer_start span_header_size s.address)

unfoldable pub create : ℕ → ℕ → ℕ → Span
unfolding buffer_start insert_free_block read_size
create span_header_size address size =
    let start = buffer_start span_header_size address in
    let room = sub64 (add64 address size) start in
    insert_free_block (record { address = start; size = read_size room })
      (record {
        address = address;
        span_size = size;
        releasable = true;
        allocated = leaf;
        free_by_size = leaf;
        free_by_address = leaf;
        free_space = room;
        largest_free_block_size = room;
      })

-- A leftover piece of a block, if there is one.
unfoldable pub put_back : ℕ → ℕ → Span → Span
unfolding insert_free_block read_size
put_back from to s =
    if from == to
    then s
    else insert_free_block (record { address = from; size = read_size (sub64 to from) }) s

-- The block that an allocation leaves at `c`.
unfoldable pub allocated_at : Carved → AllocatedBlock
unfolding read_size
allocated_at c = record {
  header = c.header_base;
  block_size = read_size (sub64 c.next_header c.header_base);
  data_begin =
      if add64 c.header_base allocated_header_size == c.return_addr
      then none
      else some c.return_addr;
}

-- The rest of `allocateBlock`, once the block is out of the free trees: the pointer, the span and the
-- committed bytes.
unfoldable pub place_block : FreeBlock → ℕ → ℕ → Span → ℕ → ℕ × Span × ℕ
unfolding carve put_back allocated_at
place_block block size align s committed =
    let edge = add64 block.address block.size in
    let c = carve block.address edge size align in
    let b = allocated_at c in
    let with_block = record s { allocated = (insert lower_header same_header b s.allocated).1 } in
    let t = put_back c.next_header edge (put_back block.address c.header_base with_block) in
    (
      c.return_addr,
      record t { free_space = sub64 t.free_space b.block_size },
      add64 committed b.block_size,
    )

-- The inner option is the null pointer that is returned when no block is large enough.
unfoldable pub allocate_block : ℕ → ℕ → Span → ℕ → Option (Option ℕ × Span × ℕ)
unfolding compute_worst_case_aligned_size remove_free_block place_block
allocate_block size align s committed =
    let padded_size = compute_worst_case_aligned_size size align in
    if ltb s.largest_free_block_size padded_size
    then some (none, s, committed)
    else elim (mapped_ceil ltb ◌==◌ (λ b. b.size) padded_size s.free_by_size none) [
      | none ↦ none
      | some block ↦ elim (remove_free_block block s) [
        | none ↦ none
        | some t ↦
            let (ptr, u, total) = place_block block size align t committed in
            some (some ptr, u, total)
      ]
    ]

-- The neighbour of a block in the tree by address, if it touches the block.
unfoldable pub block_before : FreeBlock → Tree FreeBlock → Option FreeBlock
block_before block t = elim (locate lower_address same_address block t []) [
  | none ↦ none
  | some (_, _, l, x, r) ↦ elim (predecessor lower_address x l t) [
    | none ↦ none
    | some b ↦ if add64 b.address b.size == block.address then some b else none
  ]
]

unfoldable pub block_after : FreeBlock → Tree FreeBlock → Option FreeBlock
block_after block t = elim (locate lower_address same_address block t []) [
  | none ↦ none
  | some (_, _, l, x, r) ↦ elim (successor lower_address x r t) [
    | none ↦ none
    | some b ↦ if add64 block.address block.size == b.address then some b else none
  ]
]

-- Removing a neighbour, if there is one.
abbrev pub remove_neighbour : Option FreeBlock → Span → Option Span
remove_neighbour none s = some s
remove_neighbour (some b) s = remove_free_block b s

abbrev pub joined_below : Option FreeBlock → FreeBlock → FreeBlock
joined_below none block = block
joined_below (some b) block = record {
  address = b.address;
  size = read_size (add64 b.size block.size);
}

abbrev pub joined_above : Option FreeBlock → FreeBlock → FreeBlock
joined_above none block = block
joined_above (some b) block = record block { size = read_size (add64 block.size b.size) }

-- The part of `coalesceAdjacentFreeBlocks` behind its return.
unfoldable pub coalesce_with : Option FreeBlock → Option FreeBlock → FreeBlock → Span → Option Span
unfolding remove_free_block insert_free_block read_size
coalesce_with before after block s = elim (remove_free_block block s) [
  | none ↦ none
  | some t ↦ elim (remove_neighbour before t) [
    | none ↦ none
    | some u ↦ elim (remove_neighbour after u) [
      | none ↦ none
      | some v ↦ some (insert_free_block (joined_above after (joined_below before block)) v)
    ]
  ]
]

abbrev pub is_null : Option FreeBlock → Bool
is_null none = true
is_null (some b) = false

unfoldable pub coalesce_adjacent_free_blocks : FreeBlock → Span → Option Span
unfolding block_before block_after coalesce_with
coalesce_adjacent_free_blocks block s =
    let before = block_before block s.free_by_address in
    let after = block_after block s.free_by_address in
    if is_null before && is_null after then some s else coalesce_with before after block s

abbrev pub at_header : ℕ → AllocatedBlock
at_header ptr = record { header = ptr; block_size = 0; data_begin = none }

abbrev pub matches : ℕ → AllocatedBlock → Bool
matches ptr b = elim (b.data_begin) [
  | none ↦ add64 b.header allocated_header_size == ptr
  | some begin ↦ begin == ptr
]

unfoldable pub get_validated_header : ℕ → Span → Option AllocatedBlock
get_validated_header ptr s = elim (floor lower_header same_header (at_header ptr) s.allocated) [
  | none ↦ none
  | some b ↦ if matches ptr b then some b else none
]

-- Whether the pointer was valid, the span and the committed bytes.
unfoldable pub free_block : ℕ → Span → ℕ → Option (Bool × Span × ℕ)
unfolding get_validated_header insert_free_block coalesce_adjacent_free_blocks
free_block ptr s committed = elim (get_validated_header ptr s) [
  | none ↦ some (false, s, committed)
  | some b ↦ elim (erase lower_header same_header b s.allocated) [
    | none ↦ none
    | some (_, allocated) ↦
        let block : FreeBlock = record { address = b.header; size = b.block_size } in
        elim (coalesce_adjacent_free_blocks block
          (insert_free_block block (record s { allocated = allocated }))) [
            | none ↦ none
            | some t ↦ some (
              true,
              record t { free_space = add64 t.free_space b.block_size },
              sub64 committed b.block_size,
            )
          ]
  ]
]
