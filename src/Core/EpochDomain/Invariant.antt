-- ===== src/Core/EpochDomain/Invariant.antt =====
-- Every step of every thread of an `EpochDomain` (libraries/Core/include/core/rcu/EpochDomain.h) keeps
-- what holds of one slot.
use cro_cos.Base.{
  ℕ, ◌+◌, ◌^◌, ◌≤◌, ◌<◌, ◌≡◌, ◌≢◌, Bool, true, false, List, refl, arith, ==_iff, ==_cases, ◌==◌,
  ltb, lt→ltb, inl, inr,
}
use cro_cos.Base.Memory.{write}
use cro_cos.Core.EpochDomain.{
  ReaderSlot, EpochDomain, Op, Caller, outside, synchronizing, Thread, between, lock_load,
  lock_store, unlock_store, advance_load, own_slot, scan, exchange, synchronize_load,
  synchronize_check, assertion_failed, make_active, blocks, own_checked, return_to, scanned,
  checked, step,
}
use cro_cos.Core.EpochDomain.Shape.{InSection, Own, Seen, Inv}
use cro_cos.Core.EpochDomain.Steps.{between-Begun}
use cro_cos.Core.EpochDomain.Sections.{
  Inv-same, Inv-begin, Inv-exchange, Inv-enter, Inv-leave, Inv-elsewhere,
}
use cro_cos.Core.EpochDomain.Words.{blocks-make_active}
use cro_cos.LibAlloc.Pointers.{add64}

return_to-Own :
    (slot : ReaderSlot) (ops : List Op) (k : Caller)
    → (slot.nesting ≡ 0 → slot.state ≡ 0)
    → Own slot (return_to ops k)
return_to-Own slot ops outside h = h
return_to-Own slot ops (synchronizing e0) h = h

return_to-Seen :
    (i entered epoch word : ℕ) (ops : List Op) (k : Caller)
    → Seen i entered epoch word (return_to ops k)
return_to-Seen i entered epoch word ops outside = tt
return_to-Seen i entered epoch word ops (synchronizing e0) = tt

pub record Stepped (i most entered : ℕ) (d : EpochDomain) (threads : ℕ → Thread) (t : ℕ)
    (result : Thread × EpochDomain) : Type 0 where
  pub entered' : ℕ
  pub same_section : (d.slots i).state ≢ 0 → entered' ≡ entered
  pub inv : Inv i (most + 1) entered' result.1 (write threads t result.0)

module _ (i most entered : ℕ) (d : EpochDomain) (threads : ℕ → Thread)
    (v : Inv i most entered d threads) (small : most < 2 ^ 62) (t : ℕ) where
  within :
      (result : Thread × EpochDomain)
      → Inv i (most + 1) entered result.1 (write threads t result.0)
      → Stepped i most entered d threads t result
  within result kept = record { entered' = entered; same_section = λ _. refl; inv = kept }

  own_slot-Inv :
      (b : Bool) (ops : List Op) (k : Caller) (e : ℕ)
      → threads t ≡ own_slot ops k e
      → e ≤ d.global_epoch
      → Inv i (most + 1) entered d (write threads t (own_checked b ops k e))
  own_slot-Inv true ops k e eq le =
      Inv-same i most entered d threads v t (return_to ops k)
        (λ _ h. return_to-Own (d.slots i) ops k (rw eq at h))
        (return_to-Seen i entered d.global_epoch (d.slots i).state ops k)
  own_slot-Inv false ops k e eq le =
      Inv-same i most entered d threads v t (scan ops k e 0) (λ _ h. rw eq at h)
        (le, λ before. absurd (omega (arith, before)))

  -- A scan does not get past the slot at the epoch after that of its section.
  scan_past : (e : ℕ) → blocks (d.slots i).state e ≡ false → (d.slots i).state ≢ 0 → e ≢ entered + 1
  scan_past e free busy same =
      let s : InSection entered d.global_epoch (d.slots i).state = v.open_section busy in
      let blocked : blocks (make_active s.held) e ≡ true =
        blocks-make_active s.held e (omega (arith, s.not_newer, s.reached, v.few_epochs, small))
          (λ q. omega (arith, q, same, s.not_newer)) in
      let free' : blocks (make_active s.held) e ≡ false = rw s.stored at free in cc

  scan-Inv :
      (left blocked : Bool) (ops : List Op) (k : Caller) (e j : ℕ)
      → threads t ≡ scan ops k e j
      → ltb j d.slot_count ≡ left
      → blocks (d.slots j).state e ≡ blocked
      → (e ≤ d.global_epoch) × (i < j → (d.slots i).state ≢ 0 → e ≢ entered + 1)
      → Inv i (most + 1) entered d (write threads t (scanned left blocked ops k e j))
  scan-Inv true true ops k e j eq l b h =
      Inv-same i most entered d threads v t (return_to ops k)
        (λ _ own. return_to-Own (d.slots i) ops k (rw eq at own))
        (return_to-Seen i entered d.global_epoch (d.slots i).state ops k)
  scan-Inv true false ops k e j eq l b h =
      Inv-same i most entered d threads v t (scan ops k e (j + 1)) (λ _ own. rw eq at own)
        (
          h.0,
          λ before busy. elim (==_cases j i) [
            | inl here ↦ scan_past e (rw here at b) busy
            | inr ne ↦ h.1 (omega (arith, before, ne)) busy
          ],
        )
  scan-Inv false blocked ops k e j eq l b h =
      Inv-same i most entered d threads v t (exchange ops k e) (λ _ own. rw eq at own)
        (h.0, h.1 (grind (arith, v.in_range, l, lt→ltb)))

  check-Inv :
      (b : Bool) (ops : List Op) (e0 : ℕ)
      → threads t ≡ synchronize_check ops e0
      → Inv i (most + 1) entered d (write threads t (checked b ops e0))
  check-Inv true ops e0 eq =
      Inv-same i most entered d threads v t (advance_load ops (synchronizing e0))
        (λ _ h. rw eq at h) tt
  check-Inv false ops e0 eq =
      Inv-same i most entered d threads v t (between ops) (λ _ h. rw eq at h) tt

  pub step-Stepped :
      (th : Thread) → threads t ≡ th → Stepped i most entered d threads t (step t th d)
  unfolding step
  step-Stepped (between ops) eq = within (step t (between ops) d) (
      Inv-begin i most entered d threads v t ((step t (between ops) d).1)
        ((step t (between ops) d).0) small (between-Begun t ops d) (λ _ h. rw eq at h))
  step-Stepped (lock_load ops) eq = within (step t (lock_load ops) d) (
      Inv-same i most entered d threads v t (lock_store ops d.global_epoch) (λ _ h. rw eq at h)
        (omega arith))
  step-Stepped (lock_store ops e) eq =
      let le : e ≤ d.global_epoch = rw eq at (v.seen t) in
      elim (==_cases t i) [
        | inl here ↦
            (let mine : Own (d.slots i) (threads t) = rw here v.own in
              let free : ((d.slots i).state ≡ 0) × ((d.slots i).nesting ≢ 0) = rw eq at mine in
              record {
                entered' = d.global_epoch;
                same_section = λ busy. absurd (busy free.0);
                inv =
                    Inv-enter i most entered d threads v t e (between ops) here le
                      (λ none. absurd (free.1 (rw here at none))) (λ en ep w. tt);
              })
        | inr ne ↦ within (step t (lock_store ops e) d) (
            Inv-elsewhere i most entered d threads v t (make_active e) (between ops) ne
              (λ en ep w. tt))
      ]
  step-Stepped (unlock_store ops) eq = elim (==_cases t i) [
    | inl here ↦
        within (step t (unlock_store ops) d) (
          Inv-leave i most entered d threads v t (between ops) here (λ slot e _. e) (λ en ep w. tt))
    | inr ne ↦
        within (step t (unlock_store ops) d)
          (Inv-elsewhere i most entered d threads v t 0 (between ops) ne (λ en ep w. tt))
  ]
  step-Stepped (advance_load ops k) eq = within (step t (advance_load ops k) d) (
      Inv-same i most entered d threads v t (own_slot ops k d.global_epoch) (λ _ h. rw eq at h)
        (omega arith))
  step-Stepped (own_slot ops k e) eq =
      within (step t (own_slot ops k e) d)
        (own_slot-Inv (blocks (d.slots t).state e) ops k e eq (rw eq at (v.seen t)))
  step-Stepped (scan ops k e j) eq = within (step t (scan ops k e j) d) (
      scan-Inv (ltb j d.slot_count) (blocks (d.slots j).state e) ops k e j eq refl refl
        (rw eq at (v.seen t)))
  step-Stepped (exchange ops k e) eq =
      let seen : Seen i entered d.global_epoch (d.slots i).state (exchange ops k e) =
        rw eq at (v.seen t) in
      within (step t (exchange ops k e) d) (
        Inv-exchange i most entered d threads v t (d.global_epoch == e) e (return_to ops k) small
          (λ same. (==_iff d.global_epoch e).0 same) seen.1
          (λ _ h. return_to-Own (d.slots i) ops k (rw eq at h))
          (λ epoch. return_to-Seen i entered epoch (d.slots i).state ops k))
  step-Stepped (synchronize_load ops) eq = within (step t (synchronize_load ops) d) (
      Inv-same i most entered d threads v t (synchronize_check ops d.global_epoch)
        (λ _ h. rw eq at h) tt)
  step-Stepped (synchronize_check ops e0) eq =
      within (step t (synchronize_check ops e0) d)
        (check-Inv (ltb d.global_epoch (add64 e0 2)) ops e0 eq)
  step-Stepped assertion_failed eq =
      within (step t assertion_failed d)
        (Inv-same i most entered d threads v t assertion_failed (λ _ h. rw eq at h) tt)
