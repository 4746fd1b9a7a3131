-- ===== src/Core/EpochDomain/Steps.antt =====
-- What one step on an `EpochDomain` (libraries/Core/include/core/rcu/EpochDomain.h) does to the epoch,
-- to the slots and to its thread.
use cro_cos.Base.{
  ℕ, zero, suc, ◌+◌, ◌^◌, ◌≤◌, ◌<◌, ◌≡◌, ◌≢◌, inl, inr, sym, ap, ◌∙◌, Bool, true, false, List, [],
  ◌∷◌, refl, arith, ==_cases, ◌==◌, if◌then◌else◌, ltb,
}
use cro_cos.Base.Memory.{write, write_same, write_other}
use cro_cos.Core.EpochDomain.{
  ReaderSlot, EpochDomain, Op, read_lock, read_unlock, advance, synchronize, outside, Thread,
  between, lock_load, unlock_store, advance_load, synchronize_load, assertion_failed, next_call,
  lock_entered, unlock_entered, step, set_nesting,
}
use cro_cos.Core.EpochDomain.Shape.{Own, Seen}
use cro_cos.LibAlloc.Pointers.{add64}

-- What a call that begins leaves alone.
pub record Begun (slot : ℕ) (d : EpochDomain) (result : Thread × EpochDomain) : Type 0 where
  pub same_epoch : result.1.global_epoch ≡ d.global_epoch
  pub same_count : result.1.slot_count ≡ d.slot_count
  pub others : (i : ℕ) → slot ≢ i → result.1.slots i ≡ d.slots i
  pub states : (i : ℕ) → (result.1.slots i).state ≡ (d.slots i).state
  pub bounded :
      (most : ℕ)
      → most < 2 ^ 62
      → (d.slots slot).nesting ≤ most
      → (result.1.slots slot).nesting ≤ most + 1
  pub owned :
      (most : ℕ)
      → most < 2 ^ 62
      → (d.slots slot).nesting ≤ most
      → ((d.slots slot).nesting ≡ 0 → (d.slots slot).state ≡ 0)
      → Own (result.1.slots slot) result.0
  pub unseen : (i entered epoch word : ℕ) → Seen i entered epoch word result.0

unchanged :
    (slot : ℕ) (d : EpochDomain) (th : Thread)
    → ((((d.slots slot).nesting ≡ 0 → (d.slots slot).state ≡ 0)) → Own (d.slots slot) th)
    → ((i entered epoch word : ℕ) → Seen i entered epoch word th)
    → Begun slot d (th, d)
unchanged slot d th own unseen = record {
  same_epoch = refl;
  same_count = refl;
  others = λ i ne. refl;
  states = λ i. refl;
  bounded = λ most small le. omega (arith, le);
  owned = λ most small le h. own h;
  unseen = unseen;
}

nesting_set :
    (slot n : ℕ) (d : EpochDomain) (th : Thread)
    → ((most : ℕ) → most < 2 ^ 62 → (d.slots slot).nesting ≤ most → n ≤ most + 1)
    → ((most : ℕ)
        → most < 2 ^ 62
        → (d.slots slot).nesting ≤ most
        → ((d.slots slot).nesting ≡ 0 → (d.slots slot).state ≡ 0)
        → Own (record { state = (d.slots slot).state; nesting = n }) th)
    → ((i entered epoch word : ℕ) → Seen i entered epoch word th)
    → Begun slot d (th, set_nesting d slot n)
nesting_set slot n d th bounded own unseen =
    let new : ReaderSlot = record { state = (d.slots slot).state; nesting = n } in
    let at_slot : write d.slots slot new slot ≡ new = write_same d.slots slot slot new refl in
    record {
      same_epoch = refl;
      same_count = refl;
      others = λ i ne. write_other d.slots slot i new ne;
      states = λ i. elim (==_cases slot i) [
        | inl e ↦
            ap ReaderSlot.state (write_same d.slots slot i new e) ∙ ap (λ j. (d.slots j).state) e
        | inr ne ↦ ap ReaderSlot.state (write_other d.slots slot i new ne)
      ];
      bounded = λ most small le. rw at_slot (bounded most small le);
      owned = λ most small le h. rw at_slot (own most small le h);
      unseen = unseen;
    }

lock-Begun :
    (slot n : ℕ) (ops : List Op) (d : EpochDomain)
    → n ≡ (d.slots slot).nesting
    → Begun slot d (lock_entered slot n ops d)
lock-Begun slot zero ops d e =
    nesting_set slot 1 d (lock_load ops) (λ most small le. omega arith)
      (λ most small le h. (h (sym e), omega arith)) (λ i en ep w. tt)
lock-Begun slot (suc n) ops d e =
    nesting_set slot (add64 (suc n) 1) d (between ops)
      (λ most small le. omega (arith, small, le, e))
      (λ most small le h zero_now. absurd (omega (arith, small, le, e, zero_now))) (λ i en ep w. tt)

unlock-Begun :
    (slot n : ℕ) (ops : List Op) (d : EpochDomain)
    → n ≡ (d.slots slot).nesting
    → Begun slot d (unlock_entered slot n ops d)
unlock-Begun slot zero ops d e = unchanged slot d assertion_failed (λ h. h) (λ i en ep w. tt)
unlock-Begun slot (suc zero) ops d e =
    nesting_set slot 0 d (unlock_store ops) (λ most small le. omega arith) (λ most small le h. tt)
      (λ i en ep w. tt)
unlock-Begun slot (suc (suc n)) ops d e =
    nesting_set slot (suc n) d (between ops) (λ most small le. omega (arith, le, e))
      (λ most small le h zero_now. absurd (omega (arith, zero_now))) (λ i en ep w. tt)

synchronize-Begun :
    (slot : ℕ) (b : Bool) (ops : List Op) (d : EpochDomain)
    → Begun slot d (if b then synchronize_load ops else assertion_failed, d)
synchronize-Begun slot true ops d =
    unchanged slot d (synchronize_load ops) (λ h. h) (λ i en ep w. tt)
synchronize-Begun slot false ops d = unchanged slot d assertion_failed (λ h. h) (λ i en ep w. tt)

next_call-Begun : (slot : ℕ) (ops : List Op) (d : EpochDomain) → Begun slot d (next_call slot ops d)
next_call-Begun slot [] d = unchanged slot d (between []) (λ h. h) (λ i en ep w. tt)
next_call-Begun slot (read_lock ∷ ops) d = lock-Begun slot (d.slots slot).nesting ops d refl
next_call-Begun slot (read_unlock ∷ ops) d = unlock-Begun slot (d.slots slot).nesting ops d refl
next_call-Begun slot (advance ∷ ops) d =
    unchanged slot d (advance_load ops outside) (λ h. h) (λ i en ep w. tt)
next_call-Begun slot (synchronize ∷ ops) d =
    synchronize-Begun slot ((d.slots slot).nesting == 0) ops d

guarded-Begun :
    (slot : ℕ) (b : Bool) (ops : List Op) (d : EpochDomain)
    → Begun slot d (if b then next_call slot ops d else (assertion_failed, d))
guarded-Begun slot true ops d = next_call-Begun slot ops d
guarded-Begun slot false ops d = unchanged slot d assertion_failed (λ h. h) (λ i en ep w. tt)

-- The next call changes nothing but the nesting of the thread's own slot.
pub between-Begun :
    (slot : ℕ) (ops : List Op) (d : EpochDomain) → Begun slot d (step slot (between ops) d)
unfolding step
between-Begun slot ops d = guarded-Begun slot (ltb slot d.slot_count) ops d
