-- ===== src/Core/EpochDomain.antt =====
-- libraries/Core/include/core/rcu/EpochDomain.h: the read side, the advance of the epoch and
-- `synchronize` of `EpochDomain`, and the threads that use it, one to a slot.
--
-- A thread's state is the place in the code where it stands, with its local variables and the calls
-- that it has still to make; a step is one atomic operation on the epoch or on a slot's state word.
-- The limbo bags are not here: `tryAdvance` leaves out its call of `sweepExpired`, which touches
-- neither the epoch nor a state word, and no thread is in a drain or a teardown. Memory is
-- sequentially consistent here, so that the fences do nothing.
pub mod Words
pub mod Shape
pub mod Steps
pub mod Sections
pub mod Invariant
pub mod GracePeriod
pub mod Return
use cro_cos.Base.{
  ℕ, zero, suc, ◌+◌, ◌-◌, ◌*◌, ◌/◌, ◌%◌, ◌^◌, Bool, true, false, ◌&&◌, not, List, [], ◌∷◌, ltb,
  ◌==◌, if◌then◌else◌,
}
use cro_cos.Base.Memory.{write}
use cro_cos.LibAlloc.Pointers.{add64}

pub record ReaderSlot : Type 0 where
  pub state : ℕ
  pub nesting : ℕ

pub record EpochDomain : Type 0 where
  pub slots : ℕ → ReaderSlot
  pub slot_count : ℕ
  pub global_epoch : ℕ

-- `(epoch << 1) | 1`.
unfoldable pub make_active : ℕ → ℕ
make_active epoch = epoch * 2 % 2 ^ 64 + 1

unfoldable pub is_active : ℕ → Bool
is_active word = not (word % 2 == 0)

unfoldable pub epoch_of : ℕ → ℕ
epoch_of word = word / 2

-- What stops a scan: a section that was entered at another epoch.
unfoldable pub blocks : ℕ → ℕ → Bool
unfolding is_active epoch_of
blocks word epoch = is_active word && not (epoch_of word == epoch)

pub data Op : Type 0 where
  read_lock : Op
  read_unlock : Op
  advance : Op
  synchronize : Op

-- Where `tryAdvance` returns to: its caller outside, or the loop of `synchronize`, which waits for the
-- epoch two after the one it read.
pub data Caller : Type 0 where
  outside : Caller
  synchronizing : ℕ → Caller

pub data Thread : Type 0 where
  between : List Op → Thread
  lock_load : List Op → Thread
  lock_store : List Op → ℕ → Thread
  unlock_store : List Op → Thread
  advance_load : List Op → Caller → Thread
  own_slot : List Op → Caller → ℕ → Thread
  scan : List Op → Caller → ℕ → ℕ → Thread
  exchange : List Op → Caller → ℕ → Thread
  synchronize_load : List Op → Thread
  synchronize_check : List Op → ℕ → Thread
  assertion_failed : Thread

abbrev pub set_state : EpochDomain → ℕ → ℕ → EpochDomain
set_state d slot word = record d {
  slots = write d.slots slot (record { state = word; nesting = (d.slots slot).nesting });
}

abbrev pub set_nesting : EpochDomain → ℕ → ℕ → EpochDomain
set_nesting d slot n = record d {
  slots = write d.slots slot (record { state = (d.slots slot).state; nesting = n });
}

abbrev pub return_to : List Op → Caller → Thread
return_to ops outside = between ops
return_to ops (synchronizing e0) = synchronize_check ops e0

-- `if (s.nesting++ != 0) return;`
abbrev pub lock_entered : ℕ → ℕ → List Op → EpochDomain → Thread × EpochDomain
lock_entered slot zero ops d = (lock_load ops, set_nesting d slot 1)
lock_entered slot (suc n) ops d = (between ops, set_nesting d slot (add64 (suc n) 1))

-- `if (--s.nesting != 0) return;`, behind the assertion that there is a section to leave.
abbrev pub unlock_entered : ℕ → ℕ → List Op → EpochDomain → Thread × EpochDomain
unlock_entered slot zero ops d = (assertion_failed, d)
unlock_entered slot (suc zero) ops d = (unlock_store ops, set_nesting d slot 0)
unlock_entered slot (suc (suc n)) ops d = (between ops, set_nesting d slot (suc n))

abbrev pub next_call : ℕ → List Op → EpochDomain → Thread × EpochDomain
next_call slot [] d = (between [], d)
next_call slot (read_lock ∷ ops) d = lock_entered slot ((d.slots slot).nesting) ops d
next_call slot (read_unlock ∷ ops) d = unlock_entered slot ((d.slots slot).nesting) ops d
next_call slot (advance ∷ ops) d = (advance_load ops outside, d)
next_call slot (synchronize ∷ ops) d =
    (if (d.slots slot).nesting == 0 then synchronize_load ops else assertion_failed, d)

-- The own slot alone can show that the scan will fail.
abbrev pub own_checked : Bool → List Op → Caller → ℕ → Thread
own_checked true ops k e = return_to ops k
own_checked false ops k e = scan ops k e 0

-- One round of the scan: whether a slot is left, and whether it blocks.
abbrev pub scanned : Bool → Bool → List Op → Caller → ℕ → ℕ → Thread
scanned true true ops k e i = return_to ops k
scanned true false ops k e i = scan ops k e (i + 1)
scanned false b ops k e i = exchange ops k e

abbrev pub exchanged : Bool → ℕ → EpochDomain → EpochDomain
exchanged true e d = record d { global_epoch = add64 e 1 }
exchanged false e d = d

abbrev pub checked : Bool → List Op → ℕ → Thread
checked true ops e0 = advance_load ops (synchronizing e0)
checked false ops e0 = between ops

unfoldable pub step : ℕ → Thread → EpochDomain → Thread × EpochDomain
step slot (between ops) d =
    if ltb slot d.slot_count then next_call slot ops d else (assertion_failed, d)
step slot (lock_load ops) d = (lock_store ops d.global_epoch, d)
step slot (lock_store ops e) d = (between ops, set_state d slot (make_active e))
step slot (unlock_store ops) d = (between ops, set_state d slot 0)
step slot (advance_load ops k) d = (own_slot ops k d.global_epoch, d)
step slot (own_slot ops k e) d = (own_checked (blocks (d.slots slot).state e) ops k e, d)
step slot (scan ops k e i) d =
    (scanned (ltb i d.slot_count) (blocks (d.slots i).state e) ops k e i, d)
step slot (exchange ops k e) d = (return_to ops k, exchanged (d.global_epoch == e) e d)
step slot (synchronize_load ops) d = (synchronize_check ops d.global_epoch, d)
step slot (synchronize_check ops e0) d = (checked (ltb d.global_epoch (add64 e0 2)) ops e0, d)
step slot assertion_failed d = (assertion_failed, d)

pub record System : Type 0 where
  pub domain : EpochDomain
  pub threads : ℕ → Thread

-- A new domain over zeroed slots, and what each thread is to call.
abbrev pub start : ℕ → (ℕ → List Op) → System
start slot_count ops = record {
  domain = record {
    slots = λ _. record { state = 0; nesting = 0 };
    slot_count = slot_count;
    global_epoch = 0;
  };
  threads = λ t. between (ops t);
}

unfoldable pub schedule : ℕ → System → System
schedule t s = record {
  domain = (step t (s.threads t) s.domain).1;
  threads = write s.threads t ((step t (s.threads t) s.domain).0);
}

-- The threads that take the steps, in their order.
unfoldable pub run : List ℕ → System → System
run [] s = s
run (t ∷ ts) s = run ts (schedule t s)
