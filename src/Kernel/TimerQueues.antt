-- ===== src/Kernel/TimerQueues.antt =====
-- kernel/timing/TimerQueues.cpp: the tree of queued timer events, the search for an event to share,
-- and what enqueuing decides.
pub mod Coalescing
use cro_cos.Base.{
  ℕ, zero, suc, ◌+◌, ◌-◌, ◌^◌, ◌≤◌, ◌<◌, ◌≡◌, ◌&&◌, Bool, true, false, Option, none, some, ltb, leb,
  ◌==◌, if◌then◌else◌, List, [], ◌∷◌,
}
use cro_cos.LibAlloc.Pointers.{add64, sub64}
use cro_cos.Core.Tree.{Tree, leaf, node, Color}

-- `QueuedTimerEvent` with its `AugmentedData`; `next_event` is the expiration time of the event that
-- the source points to.
pub record QueuedTimerEvent : Type 0 where
  pub expiration_time : ℕ
  pub next_event : ℕ
  pub earliest : ℕ
  pub latest : ℕ

-- The fields of `recomputeAugmentedData`, by the child that each is read from.
unfoldable pub recompute_next : ℕ → Tree QueuedTimerEvent → ℕ
recompute_next time leaf = time
recompute_next time (node c l x r) = x.next_event

unfoldable pub recompute_bound : ℕ → Tree QueuedTimerEvent → ℕ
recompute_bound time leaf = time
recompute_bound time (node c l x r) = x.expiration_time

unfoldable pub recompute_augmented_data :
    ℕ → Tree QueuedTimerEvent → Tree QueuedTimerEvent → QueuedTimerEvent
unfolding recompute_next recompute_bound
recompute_augmented_data time l r = record {
  expiration_time = time;
  next_event = recompute_next time l;
  earliest = recompute_bound time l;
  latest = recompute_bound time r;
}

-- The tree whose augmented data is all recomputed, from the leaves up.
unfoldable pub refreshed : Tree ℕ → Tree QueuedTimerEvent
unfolding recompute_augmented_data
refreshed leaf = leaf
refreshed (node c l time r) =
    node c (refreshed l) (recompute_augmented_data time (refreshed l) (refreshed r)) (refreshed r)

-- `searchSubtree`; the first result that is not null.
abbrev pub or_else : Option QueuedTimerEvent → Option QueuedTimerEvent → Option QueuedTimerEvent
or_else none other = other
or_else (some e) other = some e

unfoldable pub search_subtree : ℕ → ℕ → Tree QueuedTimerEvent → Option QueuedTimerEvent
search_subtree early late leaf = none
search_subtree early late (node c l x r) = elim (ltb x.latest early) [
  | true ↦ none
  | false ↦ elim (ltb late x.earliest) [
    | true ↦ none
    | false ↦ elim (leb early x.expiration_time && leb x.expiration_time late) [
      | true ↦ some x
      | false ↦ or_else (search_subtree early late l) (search_subtree early late r)
    ]
  ]
]

-- What `enqueueTimerEvent` decides before it flushes.
pub data Enqueued : Type 0 where
  expired new_event : Enqueued
  coalesced : QueuedTimerEvent → Enqueued

unfoldable pub enqueue_timer_event : ℕ → ℕ → ℕ → ℕ → Tree QueuedTimerEvent → Enqueued
unfolding search_subtree
enqueue_timer_event now expiration_time late_tolerance early_tolerance queue =
    let early = sub64 expiration_time early_tolerance in
    let late = add64 expiration_time late_tolerance in
    if leb early now
    then expired
    else elim (search_subtree early late queue) [ none ↦ new_event | some e ↦ coalesced e ]
