-- ===== src/Core/EpochDomain/Shape.antt =====
-- What holds of an `EpochDomain` (libraries/Core/include/core/rcu/EpochDomain.h) and its threads
-- between any two steps, for one slot: a section that is open on it lets the epoch advance once.
--
-- `entered` is the epoch at which the section on the slot was entered: the one in the domain when the
-- state word was stored. The word may hold an older one, which the reader loaded before.
use cro_cos.Base.{ℕ, ◌+◌, ◌≤◌, ◌<◌, ◌≡◌, ◌≢◌, refl, arith}
use cro_cos.Core.EpochDomain.{
  ReaderSlot, EpochDomain, Thread, between, lock_load, lock_store, unlock_store, advance_load,
  own_slot, scan, exchange, synchronize_load, synchronize_check, assertion_failed, make_active,
}

-- A section that is open on the slot.
pub record InSection (entered epoch word : ℕ) : Type 0 where
  pub held : ℕ
  pub stored : word ≡ make_active held
  pub not_newer : held ≤ entered
  pub reached : entered ≤ epoch
  pub pinned : epoch ≤ entered + 1

-- The thread of the slot is in no section if its nesting is 0, and while it enters one.
abbrev pub Own : ReaderSlot → Thread → Type 0
Own slot (lock_load ops) = (slot.state ≡ 0) × (slot.nesting ≢ 0)
Own slot (lock_store ops e) = (slot.state ≡ 0) × (slot.nesting ≢ 0)
Own slot (unlock_store ops) = Unit
Own slot _ = slot.nesting ≡ 0 → slot.state ≡ 0

-- A thread whose scan has passed the slot would not advance from the epoch after its section's.
abbrev pub Seen : ℕ → ℕ → ℕ → ℕ → Thread → Type 0
Seen i entered epoch word (lock_store ops e) = e ≤ epoch
Seen i entered epoch word (own_slot ops k e) = e ≤ epoch
Seen i entered epoch word (scan ops k e j) = (e ≤ epoch) × (i < j → word ≢ 0 → e ≢ entered + 1)
Seen i entered epoch word (exchange ops k e) = (e ≤ epoch) × (word ≢ 0 → e ≢ entered + 1)
Seen i entered epoch word _ = Unit

pub record Inv (i most entered : ℕ) (d : EpochDomain) (threads : ℕ → Thread) : Type 0 where
  pub in_range : i < d.slot_count
  pub few_epochs : d.global_epoch ≤ most
  pub few_sections : (d.slots i).nesting ≤ most
  pub open_section : (d.slots i).state ≢ 0 → InSection entered d.global_epoch (d.slots i).state
  pub own : Own (d.slots i) (threads i)
  pub seen : (t : ℕ) → Seen i entered d.global_epoch (d.slots i).state (threads t)

-- The epoch only grows, and what was seen stays so.
pub Seen-later :
    (i entered epoch epoch' word : ℕ) (th : Thread)
    → epoch ≤ epoch'
    → Seen i entered epoch word th
    → Seen i entered epoch' word th
Seen-later i entered epoch epoch' word (between ops) le h = tt
Seen-later i entered epoch epoch' word (lock_load ops) le h = tt
Seen-later i entered epoch epoch' word (lock_store ops e) le h = omega (arith, le, h)
Seen-later i entered epoch epoch' word (unlock_store ops) le h = tt
Seen-later i entered epoch epoch' word (advance_load ops k) le h = tt
Seen-later i entered epoch epoch' word (own_slot ops k e) le h = omega (arith, le, h)
Seen-later i entered epoch epoch' word (scan ops k e j) le h = (omega (arith, le, h.0), h.1)
Seen-later i entered epoch epoch' word (exchange ops k e) le h = (omega (arith, le, h.0), h.1)
Seen-later i entered epoch epoch' word (synchronize_load ops) le h = tt
Seen-later i entered epoch epoch' word (synchronize_check ops e) le h = tt
Seen-later i entered epoch epoch' word assertion_failed le h = tt

-- A section that is entered now is newer than every scan that runs.
pub Seen-enter :
    (i entered epoch word word' : ℕ) (th : Thread)
    → Seen i entered epoch word th
    → Seen i epoch epoch word' th
Seen-enter i entered epoch word word' (between ops) h = tt
Seen-enter i entered epoch word word' (lock_load ops) h = tt
Seen-enter i entered epoch word word' (lock_store ops e) h = h
Seen-enter i entered epoch word word' (unlock_store ops) h = tt
Seen-enter i entered epoch word word' (advance_load ops k) h = tt
Seen-enter i entered epoch word word' (own_slot ops k e) h = h
Seen-enter i entered epoch word word' (scan ops k e j) h =
    (h.0, λ _ _ same. absurd (omega (arith, h.0, same)))
Seen-enter i entered epoch word word' (exchange ops k e) h =
    (h.0, λ _ same. absurd (omega (arith, h.0, same)))
Seen-enter i entered epoch word word' (synchronize_load ops) h = tt
Seen-enter i entered epoch word word' (synchronize_check ops e) h = tt
Seen-enter i entered epoch word word' assertion_failed h = tt

-- A slot that is left is in nobody's way.
pub Seen-leave :
    (i entered epoch word : ℕ) (th : Thread)
    → Seen i entered epoch word th
    → Seen i entered epoch 0 th
Seen-leave i entered epoch word (between ops) h = tt
Seen-leave i entered epoch word (lock_load ops) h = tt
Seen-leave i entered epoch word (lock_store ops e) h = h
Seen-leave i entered epoch word (unlock_store ops) h = tt
Seen-leave i entered epoch word (advance_load ops k) h = tt
Seen-leave i entered epoch word (own_slot ops k e) h = h
Seen-leave i entered epoch word (scan ops k e j) h = (h.0, λ _ ne. absurd (ne refl))
Seen-leave i entered epoch word (exchange ops k e) h = (h.0, λ ne. absurd (ne refl))
Seen-leave i entered epoch word (synchronize_load ops) h = tt
Seen-leave i entered epoch word (synchronize_check ops e) h = tt
Seen-leave i entered epoch word assertion_failed h = tt
