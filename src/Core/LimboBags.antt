-- ===== src/Core/LimboBags.antt =====
-- libraries/Core/include/core/rcu/EpochDomain.h: the limbo bags of one slot, in which retired objects
-- wait for their grace period.
--
-- A bag is the chain of its nodes from the head on, and its word of tag and state; a node is its
-- address, and its `next` is the node behind it in its bag. The epoch that an operation loads, and
-- whether its caller is in a section, a drain or a teardown, are arguments. An operation runs with no
-- other CPU in between; a deleter does nothing to the bags, so that what a drain runs is the list of its
-- nodes. The deleters themselves are not kept: the drain's assertion that a node has one is left out, and
-- so are the assertion of `retire` that its slot exists, and its call of `tryAdvance`.
pub mod Words
pub mod Expiry
pub mod Sweep
pub mod Prepare
pub mod Retire
pub mod Drains
pub mod Kept
pub mod Calls
use cro_cos.Base.{
  ◌||◌, ◌==◌, ◌-◌, ℕ, zero, suc, ◌+◌, ◌*◌, ◌/◌, ◌%◌, ◌^◌, Bool, true, false, ◌&&◌, not, List, [],
  ◌∷◌, ◌++◌, Option, none, some, ltb, leb, if◌then◌else◌,
}
use cro_cos.Base.Memory.{write}
use cro_cos.LibAlloc.Pointers.{add64}

pub data BagState : Type 0 where
  bag_free : BagState
  bag_open : BagState
  bag_sealed : BagState
  bag_claimed : BagState

-- `static_cast<uint64_t>(state)`.
abbrev pub code : BagState → ℕ
code bag_free = 0
code bag_open = 1
code bag_sealed = 2
code bag_claimed = 3

abbrev pub decode : ℕ → BagState
decode zero = bag_free
decode (suc zero) = bag_open
decode (suc (suc zero)) = bag_sealed
decode (suc (suc (suc n))) = bag_claimed

unfoldable pub pack_bag : ℕ → BagState → ℕ
pack_bag tag state = tag * 4 % 2 ^ 64 + code state

unfoldable pub bag_tag_of : ℕ → ℕ
bag_tag_of tag_state = tag_state / 4

unfoldable pub bag_state_of : ℕ → BagState
bag_state_of tag_state = decode (tag_state % 4)

pub record Bag : Type 0 where
  pub head : List ℕ
  pub tag_state : ℕ

pub record LimboSlot : Type 0 where
  pub bags : ℕ → Bag
  pub open_bag_index : ℕ
  pub retire_count : ℕ

abbrev pub bag_count : ℕ
bag_count = 4

abbrev pub retire_advance_threshold : ℕ
retire_advance_threshold = 64

-- A zeroed slot.
abbrev pub new_slot : LimboSlot
new_slot = record {
  bags = λ _. record { head = []; tag_state = 0 };
  open_bag_index = 0;
  retire_count = 0;
}

abbrev pub is_free : BagState → Bool
is_free bag_free = true
is_free _ = false

abbrev pub is_sealed : BagState → Bool
is_sealed bag_sealed = true
is_sealed _ = false

abbrev pub set_word : LimboSlot → ℕ → ℕ → LimboSlot
set_word s b word = record s {
  bags = write s.bags b (record { head = (s.bags b).head; tag_state = word });
}

-- `n` bags are left from bag `b` on.
unfoldable pub find_free_bag_from : ℕ → ℕ → LimboSlot → Option ℕ
unfolding bag_state_of
find_free_bag_from zero b s = none
find_free_bag_from (suc n) b s =
    let rest = find_free_bag_from n (b + 1) s in
    if is_free (bag_state_of (s.bags b).tag_state) then some b else rest

-- What a drain has run, what it has left of its budget, and the bags or the chain that are left.
pub record Drained (A : Type 0) : Type 0 where
  pub ran : List ℕ
  pub budget : ℕ
  pub rest : A

unfoldable pub drain_claimed_bag : ℕ → List ℕ → Drained (List ℕ)
drain_claimed_bag zero nodes = record { ran = []; budget = 0; rest = nodes }
drain_claimed_bag (suc budget) [] = record { ran = []; budget = suc budget; rest = [] }
drain_claimed_bag (suc budget) (n ∷ nodes) =
    let d = drain_claimed_bag budget nodes in
    record { ran = n ∷ d.ran; budget = d.budget; rest = d.rest }

-- A bag that the budget has not emptied is sealed again.
abbrev pub state_after : List ℕ → BagState
state_after [] = bag_free
state_after (n ∷ nodes) = bag_sealed

abbrev pub expired : ℕ → ℕ → Bool
expired word epoch = is_sealed (bag_state_of word) && not (ltb epoch (add64 (bag_tag_of word) 2))

abbrev pub claimed : Bool → ℕ → ℕ → LimboSlot → Drained LimboSlot
claimed false b budget s = record { ran = []; budget = budget; rest = s }
claimed true b budget s =
    let tag = bag_tag_of (s.bags b).tag_state in
    let taken = set_word s b (pack_bag tag bag_claimed) in
    let d = drain_claimed_bag budget (s.bags b).head in
    record {
      ran = d.ran;
      budget = d.budget;
      rest = record taken {
        bags =
            write taken.bags b
              (record { head = d.rest; tag_state = pack_bag tag (state_after d.rest) });
      };
    }

abbrev pub claim_and_drain : ℕ → ℕ → ℕ → LimboSlot → Drained LimboSlot
claim_and_drain b epoch budget s = claimed (expired (s.bags b).tag_state epoch) b budget s

-- The loop over the bags of a slot in `manufactureFreeBag` and in `sweepExpired`, which stops when the
-- budget is used up; `n` bags are left from bag `b` on.
unfoldable pub sweep_bags : ℕ → ℕ → ℕ → ℕ → LimboSlot → Drained LimboSlot
sweep_bags zero b epoch budget s = record { ran = []; budget = budget; rest = s }
sweep_bags (suc n) b epoch zero s = record { ran = []; budget = 0; rest = s }
sweep_bags (suc n) b epoch (suc budget) s =
    let d = claim_and_drain b epoch (suc budget) s in
    let d' = sweep_bags n (b + 1) epoch d.budget d.rest in
    record { ran = d.ran ++ d'.ran; budget = d'.budget; rest = d'.rest }

-- The bag to push into, and what was drained to make it free.
pub record OpenBag : Type 0 where
  pub index : ℕ
  pub tag_state : ℕ
  pub ran : List ℕ
  pub slot : LimboSlot

-- The new bag is opened before the old one is sealed.
abbrev pub rotate : ℕ → ℕ → LimboSlot → LimboSlot
rotate e j s =
    let i = s.open_bag_index in
    let opened = set_word s j (pack_bag e bag_open) in
    let old_sealed = set_word opened i (pack_bag (bag_tag_of (s.bags i).tag_state) bag_sealed) in
    record old_sealed { open_bag_index = j }

-- The open bag is older than the epoch. Without a free bag and without leave to manufacture one it is
-- kept, with its tag raised.
abbrev pub rotated : Option ℕ → ℕ → List ℕ → LimboSlot → OpenBag
rotated (some j) e ran s = record {
  index = j;
  tag_state = pack_bag e bag_open;
  ran = ran;
  slot = rotate e j s;
}
rotated none e ran s = record {
  index = s.open_bag_index;
  tag_state = pack_bag e bag_open;
  ran = ran;
  slot = set_word s s.open_bag_index (pack_bag e bag_open);
}

abbrev pub opened : BagState → ℕ → List ℕ → LimboSlot → Option ℕ → Option OpenBag
opened bag_free e ran s free_bag = some (record {
  index = s.open_bag_index;
  tag_state = pack_bag e bag_open;
  ran = ran;
  slot = set_word s s.open_bag_index (pack_bag e bag_open);
})
opened bag_open e ran s free_bag = some (
    if leb e (bag_tag_of (s.bags s.open_bag_index).tag_state)
    then record {
      index = s.open_bag_index;
      tag_state = (s.bags s.open_bag_index).tag_state;
      ran = ran;
      slot = s;
    }
    else rotated free_bag e ran s)
opened bag_sealed e ran s free_bag = none
opened bag_claimed e ran s free_bag = none

-- A round of the loop of `prepareOpenBag`, without leave to manufacture a free bag.
abbrev pub prepare_once : ℕ → List ℕ → LimboSlot → Option OpenBag
prepare_once e ran s =
    opened (bag_state_of (s.bags s.open_bag_index).tag_state) e ran s
      (find_free_bag_from bag_count 0 s)

abbrev pub is_open : BagState → Bool
is_open bag_open = true
is_open _ = false

abbrev pub needs_room : ℕ → LimboSlot → Option ℕ → Bool
needs_room e s none =
    let v = (s.bags s.open_bag_index).tag_state in
    is_open (bag_state_of v) && not (leb e (bag_tag_of v))
needs_room e s (some j) = false

-- A free bag is manufactured once: the expired bags of the slot are drained, within the bound.
unfoldable pub prepare_open_bag : ℕ → ℕ → LimboSlot → Option OpenBag
prepare_open_bag e bound s =
    let d = sweep_bags bag_count 0 e bound s in
    if needs_room e s (find_free_bag_from bag_count 0 s)
    then prepare_once e d.ran d.rest
    else prepare_once e [] s

abbrev pub push_node : ℕ → ℕ → LimboSlot → LimboSlot
push_node node b s = record s {
  bags =
      write s.bags b (record { head = node ∷ (s.bags b).head; tag_state = (s.bags b).tag_state });
}

abbrev pub counted : LimboSlot → LimboSlot
counted s = record s {
  retire_count = let n = add64 s.retire_count 1 in if leb retire_advance_threshold n then 0 else n;
}

-- Whether the node has a next one in this chain: `node->next != nullptr`.
abbrev pub has_next : ℕ → List ℕ → Bool
has_next node [] = false
has_next node (x ∷ []) = false
has_next node (x ∷ y ∷ nodes) = x == node || has_next node (y ∷ nodes)

-- `n` bags are left from bag `b` on.
abbrev pub is_linked_from : ℕ → ℕ → ℕ → LimboSlot → Bool
is_linked_from zero b node s = false
is_linked_from (suc n) b node s = has_next node (s.bags b).head || is_linked_from n (b + 1) node s

-- The arguments of `retire`, the epoch that it loads, and `s.nesting > 0 || s.inDrain || teardownActive`.
-- The null pointer is 0.
pub record RetireCall : Type 0 where
  pub retiree : ℕ
  pub deleter : ℕ
  pub epoch : ℕ
  pub in_section : Bool

abbrev pub max_epoch : ℕ
max_epoch = 2 ^ 62 - 1

-- The assertions of `retire` before it looks for a bag.
abbrev pub may_retire : RetireCall → LimboSlot → Bool
may_retire c s =
    not (c.retiree == 0)
    && not (c.deleter == 0)
    && not (is_linked_from bag_count 0 c.retiree s)
    && c.in_section
    && leb c.epoch max_epoch

-- Nothing is returned where an assertion fails; otherwise the nodes that were drained. The word of the
-- bag is looked at again after the push.
abbrev pub retired : ℕ → Option OpenBag → Option (List ℕ × LimboSlot)
retired node none = none
retired node (some o) =
    let pushed = push_node node o.index o.slot in
    if (pushed.bags o.index).tag_state == o.tag_state then some (o.ran, counted pushed) else none

unfoldable pub retire : RetireCall → ℕ → LimboSlot → Option (List ℕ × LimboSlot)
retire c bound s =
    if may_retire c s then retired c.retiree (prepare_open_bag c.epoch bound s) else none

-- The calls on a slot with the epochs that they load: its owner's `retire`, and the part of anyone's
-- `sweepExpired` that is about the slot.
pub data Op : Type 0 where
  retire_op : RetireCall → Op
  sweep_op : ℕ → ℕ → Op

unfoldable pub perform : ℕ → Op → LimboSlot → Option (List ℕ × LimboSlot)
perform bound (retire_op c) s = retire c bound s
perform bound (sweep_op e budget) s =
    let d = sweep_bags bag_count 0 e budget s in some (d.ran, d.rest)

abbrev pub epoch_loaded : Op → ℕ
epoch_loaded (retire_op c) = c.epoch
epoch_loaded (sweep_op e budget) = e

-- The calls in `ops`, with what they have drained put aside.
unfoldable pub perform_all : ℕ → List Op → LimboSlot → Option LimboSlot
perform_all bound [] s = some s
perform_all bound (op ∷ ops) s = elim (perform bound op s) [
  | none ↦ none
  | some result ↦ perform_all bound ops result.1
]
