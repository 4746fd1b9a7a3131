-- ===== src/Tests/Trees.antt =====
-- The theorems on trees and on spans at concrete inputs, and runs of the code.
use cro_cos.Base.{ℕ, ◌<◌, ◌≡◌, true, false, none, some, refl, ◌⊎◌, inl, arith, ltb, ◌==◌, ==_iff}
use cro_cos.Core.Tree.{Tree, leaf, node, red, black, elements, floor, mapped_floor, min_of}
use cro_cos.Core.Tree.Order.{StrictTotal, Above, IsSorted}
use cro_cos.Core.Tree.Search.{IsFloor, floor-IsFloor, mapped_floor_first}
use cro_cos.Core.RedBlack.{insert}
use cro_cos.Core.RedBlack.Balance.{IsRedBlack}
use cro_cos.Core.RedBlack.Descend.{Found}
use cro_cos.Core.RedBlack.Sorted.{Added, insert-Added, Erased, erase-Erased}
use cro_cos.LibAlloc.Pointers.{align_up, align_down}
use cro_cos.LibAlloc.Span.{carve, first_aligned_address, compute_worst_case_aligned_size}
use cro_cos.LibAlloc.SpanSearch.{
  SpanNode, find_most_occupied, first_with_room, find_most_occupied-first,
}
use cro_cos.Kernel.TimerQueues.{QueuedTimerEvent, refreshed, search_subtree}
use cro_cos.Kernel.TimerQueues.Coalescing.{Answer, search_subtree-Answer, search_subtree_misses}
use cro_cos.LibAlloc.Span.Carve.{Room, IsCarved, carve-IsCarved, carve_overruns}

ltb_irrefl : (a : ℕ) → ltb a a ≡ false
ltb_irrefl a = ground arith

ltb_trans : (a b c : ℕ) → ltb a b ≡ true → ltb b c ≡ true → ltb a c ≡ true
ltb_trans a b c h k = ground arith

ltb_total : (a b : ℕ) → (a == b) ≡ false → ltb a b ≡ false → ltb b a ≡ true
ltb_total a b h k = ground arith

abbrev by_number : StrictTotal ltb ◌==◌
by_number = record {
  same_refl = λ a. (==_iff a a).1 refl;
  same_eq = λ a b. (==_iff a b).0;
  irrefl = ltb_irrefl;
  trans = ltb_trans;
  total = ltb_total;
}

-- 2, with 1 and 5 below it.
abbrev three_nodes : Tree ℕ
three_nodes = node black (node red leaf 1 leaf) 2 (node red leaf 5 leaf)

abbrev three_nodes-IsRedBlack : IsRedBlack three_nodes
three_nodes-IsRedBlack = (refl, (2, ((refl, refl, refl, refl), (refl, refl, refl, refl))))

abbrev three_nodes-IsSorted : IsSorted ltb (elements three_nodes)
three_nodes-IsSorted = ((refl, (refl, tt)), ((refl, tt), (tt, tt)))

insert-Added_example :
    (IsRedBlack (insert ltb ◌==◌ 7 three_nodes).1)
    × (((insert ltb ◌==◌ 7 three_nodes).0 ≡ true)
          × (Added ltb ◌==◌ by_number 7 three_nodes (insert ltb ◌==◌ 7 three_nodes).1)
        ⊎ (((insert ltb ◌==◌ 7 three_nodes).0 ≡ false)
            × ((insert ltb ◌==◌ 7 three_nodes).1 ≡ three_nodes)
            × (Found ltb ◌==◌ 7 three_nodes)))
insert-Added_example =
    insert-Added ltb ◌==◌ by_number 7 three_nodes three_nodes-IsRedBlack three_nodes-IsSorted

erase-Erased_example : Erased ltb ◌==◌ by_number 2 three_nodes
erase-Erased_example =
    erase-Erased ltb ◌==◌ by_number 2 three_nodes three_nodes-IsRedBlack three_nodes-IsSorted

floor-IsFloor_example :
    ((floor ltb ◌==◌ 4 three_nodes ≡ none) × (Above ltb 4 (elements three_nodes)))
    ⊎ ((x : ℕ) × (floor ltb ◌==◌ 4 three_nodes ≡ some x)
        × (IsFloor ltb ◌==◌ by_number 4 three_nodes x))
floor-IsFloor_example = floor-IsFloor ltb ◌==◌ by_number 4 three_nodes three_nodes-IsSorted

mapped_floor_first_example :
    mapped_floor ltb ◌==◌ (λ (x : ℕ). x) 9 three_nodes none ≡ min_of three_nodes
mapped_floor_first_example =
    mapped_floor_first ltb ◌==◌ (λ (x : ℕ). x) 9 black (node red leaf 1 leaf) 2
      (node red leaf 5 leaf) none ((refl, refl, (refl, refl, (refl, refl, tt))))

padded : compute_worst_case_aligned_size 100 64 ≡ 212
unfolding compute_worst_case_aligned_size
padded = refl

-- 100 bytes, aligned to 64, in a block of 1024 bytes.
abbrev some_room : Room 4096 5120 100 64
some_room = record {
  align_pos = omega arith;
  alignment = inl refl;
  base_aligned = refl;
  edge_aligned = refl;
  fits = omega (arith, padded);
  no_wrap = omega arith;
  minimum = omega arith;
}

carve-IsCarved_example : IsCarved 4096 5120 100 64 (carve 4096 5120 100 64)
carve-IsCarved_example = carve-IsCarved 4096 5120 100 64 some_room (omega arith)

-- 8 bytes, aligned to 4096, in a block of 4160 bytes: the padded size is 4152.
small_request : compute_worst_case_aligned_size 8 4096 ≡ 4152
unfolding compute_worst_case_aligned_size
small_request = refl

moved_up : first_aligned_address 65520 4096 ≡ 69632
unfolding first_aligned_address align_up align_down
moved_up = refl

carve_overruns_example : 69680 < (carve 65520 69680 8 4096).next_header
carve_overruns_example =
    carve_overruns 65520 69680 8 4096 refl (omega (arith, moved_up)) (omega (arith, moved_up))
      (omega (arith, moved_up)) (omega (arith, moved_up)) (omega arith)

abbrev span_node : ℕ → ℕ → ℕ → SpanNode
span_node span largest subtree = record {
  span = span;
  largest_free_block_size = largest;
  largest_in_subtree = subtree;
}

abbrev three_spans : Tree SpanNode
three_spans =
    node black (node red leaf (span_node 1 64 64) leaf) (span_node 2 96 512)
      (node red leaf (span_node 3 512 512) leaf)

find_most_occupied-first_example :
    find_most_occupied 80 three_spans ≡ first_with_room 80 (elements three_spans) none
find_most_occupied-first_example =
    find_most_occupied-first 80 three_spans ((tt, refl, tt), refl, (tt, refl, tt)) (omega arith)

abbrev timer_event : ℕ → ℕ → ℕ → QueuedTimerEvent
timer_event time earliest latest = record {
  expiration_time = time;
  next_event = earliest;
  earliest = earliest;
  latest = latest;
}

abbrev two_events : Tree QueuedTimerEvent
two_events = node black leaf (timer_event 20 20 40) (node red leaf (timer_event 40 40 40) leaf)

search_subtree-Answer_example : Answer 35 45 (search_subtree 35 45 two_events) two_events
search_subtree-Answer_example = search_subtree-Answer 35 45 two_events (omega arith)

-- The event at 40 would be within the window.
search_subtree_misses_example :
    search_subtree 35 45 (
      refreshed (
        node black
          (node black leaf 10 leaf)
          20
          (node black (node red leaf 25 leaf) 30 (node red leaf 40 leaf))))
    ≡ none
search_subtree_misses_example =
    search_subtree_misses black black (node black leaf 10 leaf) (node red leaf 25 leaf)
      (node red leaf 40 leaf) 20 30 35 45 (omega arith)
