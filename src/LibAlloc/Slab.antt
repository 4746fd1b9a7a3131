-- ===== src/LibAlloc/Slab.antt =====
-- libraries/LibAlloc/SlabAllocator.cpp: the class `Slab`, its constructor, its free list of slots
-- and its bitmap of free slots.
--
-- An address is a number; `nullptr` is `none`. The pointers that free slots hold stand in `mem`,
-- indexed by the slot's address. `free_list` is the bitmap, a byte at each index. The fields that
-- link a slab into its allocator's buckets and tree (`nextInBucket`, `leftChild`, …) are not here.
pub mod Bits
pub mod Stack
pub mod Layout
use Prim.Native.Nat.{bit_and, bit_or}
use cro_cos.Base.{
  ℕ, zero, suc, ◌+◌, ◌-◌, ◌*◌, ◌/◌, ◌%◌, ◌^◌, ◌≤◌, ◌<◌, ◌≡◌, ◌&&◌, Bool, true, false, not, Option,
  none, some, ltb, leb, ◌==◌, if◌then◌else◌, max,
}
use cro_cos.Base.Memory.{write}
use cro_cos.LibAlloc.Pointers.{add64, sub64, align_up}

pub record Slab : Type 0 where
  pub slot_size : ℕ
  pub backing_storage : ℕ
  pub initialized_horizon : ℕ
  pub backing_size : ℕ
  pub free_count : ℕ
  pub num_slots : ℕ
  pub next_free : Option ℕ
  pub mem : ℕ → Option ℕ
  pub free_list : ℕ → ℕ

-- `1 << bit` and `~mask`, as bytes.
abbrev pub bit_mask : ℕ → ℕ
bit_mask bit = 2 ^ bit % 256

unfoldable pub mark_byte : ℕ → ℕ → Bool → ℕ
mark_byte byte bit free =
    bit_or (bit_and byte (255 - bit_mask bit)) (if free then bit_mask bit else 0)

unfoldable pub test_byte : ℕ → ℕ → Bool
test_byte byte bit = not (bit_and byte (bit_mask bit) == 0)

-- The index of the slot at an address.
abbrev pub slot_index : Slab → ℕ → ℕ
slot_index s ptr = sub64 ptr s.backing_storage / s.slot_size

unfoldable pub mark_slot_free_state : Slab → ℕ → Bool → Slab
mark_slot_free_state s ptr free =
    let byte = slot_index s ptr / 8 in
    record s {
      free_list = write s.free_list byte (mark_byte (s.free_list byte) (slot_index s ptr % 8) free);
    }

unfoldable pub is_slot_free : Slab → ℕ → Bool
is_slot_free s ptr = test_byte (s.free_list (slot_index s ptr / 8)) (slot_index s ptr % 8)

abbrev pub backing_end : Slab → ℕ
backing_end s = add64 s.backing_storage s.backing_size

-- The two branches of `Slab::alloc`, before the count and the bitmap are updated.
unfoldable pub take_horizon : Slab → Slab
take_horizon s =
    let horizon = add64 s.initialized_horizon s.slot_size in
    record s {
      initialized_horizon = horizon;
      next_free = if ltb (backing_end s) (add64 horizon s.slot_size) then none else some horizon;
    }

unfoldable pub take_linked : Slab → ℕ → Slab
take_linked s ptr = record s { next_free = s.mem ptr; mem = write s.mem ptr none }

-- `none`: the assertion that the slab has room fails.
unfoldable pub alloc : Slab → Option (ℕ × Slab)
alloc s = elim (s.next_free) [
  | none ↦ none
  | some ptr ↦
      let t = if ptr == s.initialized_horizon then take_horizon s else take_linked s ptr in
      some (ptr, mark_slot_free_state (record t { free_count = sub64 t.free_count 1 }) ptr false)
]

unfoldable pub contains : Slab → ℕ → Bool
contains s ptr = leb s.backing_storage ptr && ltb ptr (backing_end s)

unfoldable pub contains_with_alignment : Slab → ℕ → Bool
contains_with_alignment s ptr =
    if not (contains s ptr) then false else sub64 ptr s.backing_storage % s.slot_size == 0

-- `none`: the assertion against a double free fails.
unfoldable pub free : Slab → ℕ → Option Slab
free s ptr =
    if is_slot_free s ptr
    then none
    else (let t = mark_slot_free_state s ptr true in
        some (record t {
          mem = write t.mem ptr t.next_free;
          next_free = some ptr;
          free_count = add64 t.free_count 1;
        }))

unfoldable pub get_occupancy_percent : Slab → ℕ
get_occupancy_percent s =
    sub64 100 ((s.free_count * 100 % 2 ^ 64 + (s.num_slots - 1)) % 2 ^ 64 / s.num_slots)

unfoldable pub is_full : Slab → Bool
is_full s = s.free_count == 0

unfoldable pub is_empty : Slab → Bool
is_empty s = s.free_count == s.num_slots

-- The constructor. `fill` is what `memset(…, 0xff, …)` writes, over the bytes of the free list;
-- the bytes behind it, and the pointers in the slots, are what the memory held: `bytes`, `contents`.
unfoldable pub object_count : ℕ → ℕ → ℕ
object_count slot_size backing_size =
    (8 * backing_size) % 2 ^ 64 / add64 ((8 * slot_size) % 2 ^ 64) 1

unfoldable pub free_list_size : ℕ → ℕ → ℕ
free_list_size slot_size backing_size = add64 (object_count slot_size backing_size) (8 - 1) / 8

-- The state that the constructor builds; `align` is `getAlignValForSlotSize(slot_size)`.
unfoldable pub built : ℕ → ℕ → ℕ → ℕ → (ℕ → ℕ) → (ℕ → Option ℕ) → Slab
built align slot_size store size bytes contents =
    let list_size = free_list_size slot_size size in
    let start = align_up (add64 store list_size) align in
    let room = sub64 (add64 store size) start in
    record {
      slot_size = slot_size;
      backing_storage = start;
      initialized_horizon = start;
      backing_size = room;
      free_count = room / slot_size;
      num_slots = room / slot_size;
      next_free = some start;
      mem = contents;
      free_list = λ i. if ltb i list_size then 255 else bytes i;
    }

-- `none`: one of the two assertions of the constructor fails.
unfoldable pub construct : ℕ → ℕ → ℕ → ℕ → (ℕ → ℕ) → (ℕ → Option ℕ) → Option Slab
construct align slot_size store size bytes contents =
    let s = built align slot_size store size bytes contents in
    if leb 8 slot_size && ltb 1 s.num_slots then some s else none
