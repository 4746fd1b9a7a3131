-- ===== src/Core/EpochDomain/Sections.antt =====
-- A step of a thread on an `EpochDomain` (libraries/Core/include/core/rcu/EpochDomain.h) keeps what
-- holds of one slot, and leaves the section that is open on it the one that it is.
use cro_cos.Base.{
  ℕ, ◌+◌, ◌^◌, ◌≤◌, ◌<◌, ◌≡◌, ◌≢◌, Bool, true, false, refl, arith, ==_cases, ap, inl, inr,
}
use cro_cos.Base.Memory.{write, write_same, write_other}
use cro_cos.Core.EpochDomain.{ReaderSlot, EpochDomain, Thread, make_active, exchanged, set_state}
use cro_cos.Core.EpochDomain.Shape.{InSection, Own, Seen, Inv, Seen-later, Seen-enter, Seen-leave}
use cro_cos.Core.EpochDomain.Steps.{Begun}
use cro_cos.Core.RingBuffer.Tickets.{write-all}
use cro_cos.LibAlloc.Pointers.{add64}

-- What a step that keeps the state word of the slot has to show.
record Kept (i most entered : ℕ) (d d' : EpochDomain) (threads : ℕ → Thread) (t : ℕ) (th' : Thread)
    : Type 0 where
  same_count : d'.slot_count ≡ d.slot_count
  later : d.global_epoch ≤ d'.global_epoch
  once : d'.global_epoch ≤ d.global_epoch + 1
  pinned : (d.slots i).state ≢ 0 → d'.global_epoch ≤ entered + 1
  same_state : (d'.slots i).state ≡ (d.slots i).state
  bounded : (d'.slots i).nesting ≤ most + 1
  here : t ≡ i → Own (d'.slots i) th'
  others : t ≢ i → d'.slots i ≡ d.slots i
  unseen : Seen i entered d'.global_epoch (d.slots i).state th'

module _ (i most entered : ℕ) (d : EpochDomain) (threads : ℕ → Thread)
    (v : Inv i most entered d threads) (t : ℕ) where
  Own-write :
      (slot : ReaderSlot) (th' : Thread)
      → (t ≡ i → Own slot th')
      → (t ≢ i → slot ≡ d.slots i)
      → Own slot (write threads t th' i)
  Own-write slot th' here others = elim (==_cases t i) [
    | inl e ↦ rw (write_same threads t i th' e) (here e)
    | inr ne ↦ rw (write_other threads t i th' ne, others ne) v.own
  ]

  Inv-keep :
      (d' : EpochDomain) (th' : Thread)
      → Kept i most entered d d' threads t th'
      → Inv i (most + 1) entered d' (write threads t th')
  Inv-keep d' th' k = record {
    in_range = rw k.same_count v.in_range;
    few_epochs = omega (arith, k.once, v.few_epochs);
    few_sections = k.bounded;
    open_section = rw k.same_state (λ busy.
        let s : InSection entered d.global_epoch (d.slots i).state = v.open_section busy in
        record {
          held = s.held;
          stored = s.stored;
          not_newer = s.not_newer;
          reached = omega (arith, s.reached, k.later);
          pinned = k.pinned busy;
        });
    own = Own-write (d'.slots i) th' k.here k.others;
    seen = rw k.same_state (
        write-all (λ _. Seen i entered d'.global_epoch (d.slots i).state) threads t th' k.unseen
          (λ u ne.
            Seen-later i entered d.global_epoch d'.global_epoch (d.slots i).state (threads u)
              k.later (v.seen u)));
  }

  -- A step that leaves the domain as it is.
  pub Inv-same :
      (th' : Thread)
      → (t ≡ i → Own (d.slots i) (threads t) → Own (d.slots i) th')
      → Seen i entered d.global_epoch (d.slots i).state th'
      → Inv i (most + 1) entered d (write threads t th')
  Inv-same th' here unseen = Inv-keep d th' (record {
    same_count = refl;
    later = omega arith;
    once = omega arith;
    pinned = λ busy. (v.open_section busy).pinned;
    same_state = refl;
    bounded = omega (arith, v.few_sections);
    here = λ e. here e (rw e v.own);
    others = λ ne. refl;
    unseen = unseen;
  })

  -- The next call of a thread begins.
  pub Inv-begin :
      (d' : EpochDomain) (th' : Thread)
      → most < 2 ^ 62
      → Begun t d (th', d')
      → (t ≡ i → Own (d.slots i) (threads t) → (d.slots i).nesting ≡ 0 → (d.slots i).state ≡ 0)
      → Inv i (most + 1) entered d' (write threads t th')
  Inv-begin d' th' small b free = Inv-keep d' th' (record {
    same_count = b.same_count;
    later = omega (arith, b.same_epoch);
    once = omega (arith, b.same_epoch);
    pinned = λ busy. omega (arith, b.same_epoch, (v.open_section busy).pinned);
    same_state = b.states i;
    bounded = elim (==_cases t i) [
      | inl e ↦ rw e at (b.bounded most small (rw e v.few_sections))
      | inr ne ↦ rw (b.others i ne) (omega (arith, v.few_sections))
    ];
    here = λ e. rw e at (b.owned most small (rw e v.few_sections) (rw e (free e (rw e v.own))));
    others = b.others i;
    unseen = b.unseen i entered d'.global_epoch (d.slots i).state;
  })

  -- The exchange advances the epoch if it is still the one that was scanned.
  pub Inv-exchange :
      (b : Bool) (e : ℕ) (th' : Thread)
      → most < 2 ^ 62
      → (b ≡ true → d.global_epoch ≡ e)
      → ((d.slots i).state ≢ 0 → e ≢ entered + 1)
      → (t ≡ i → Own (d.slots i) (threads t) → Own (d.slots i) th')
      → ((epoch : ℕ) → Seen i entered epoch (d.slots i).state th')
      → Inv i (most + 1) entered (exchanged b e d) (write threads t th')
  Inv-exchange false e th' small same passed here unseen = Inv-same th' here (unseen d.global_epoch)
  Inv-exchange true e th' small same passed here unseen =
      let next : add64 e 1 ≡ d.global_epoch + 1 = omega (arith, small, same refl, v.few_epochs) in
      Inv-keep (exchanged true e d) th' (record {
        same_count = refl;
        later = omega (arith, next);
        once = omega (arith, next);
        pinned = λ busy. omega (arith, next, same refl, passed busy, (v.open_section busy).pinned);
        same_state = refl;
        bounded = omega (arith, v.few_sections);
        here = λ h. here h (rw h v.own);
        others = λ ne. refl;
        unseen = unseen (add64 e 1);
      })

  -- The outermost section is entered or left: the state word is stored.
  pub Inv-enter :
      (e : ℕ) (th' : Thread)
      → t ≡ i
      → e ≤ d.global_epoch
      → Own (record { state = make_active e; nesting = (d.slots t).nesting }) th'
      → ((entered epoch word : ℕ) → Seen i entered epoch word th')
      → Inv i (most + 1) d.global_epoch (set_state d t (make_active e)) (write threads t th')
  Inv-enter e th' here le own unseen =
      let new : ReaderSlot = record { state = make_active e; nesting = (d.slots t).nesting } in
      let at_slot : write d.slots t new i ≡ new = write_same d.slots t i new here in
      record {
        in_range = v.in_range;
        few_epochs = omega (arith, v.few_epochs);
        few_sections = rw (at_slot, here) (omega (arith, v.few_sections));
        open_section = rw at_slot (λ busy. record {
          held = e;
          stored = refl;
          not_newer = le;
          reached = omega arith;
          pinned = omega arith;
        });
        own = rw (write_same threads t i th' here, at_slot) own;
        seen = rw at_slot (
            write-all (λ _. Seen i d.global_epoch d.global_epoch (make_active e)) threads t th'
              (unseen d.global_epoch d.global_epoch (make_active e))
              (λ u ne.
                Seen-enter i entered d.global_epoch (d.slots i).state (make_active e) (threads u)
                  (v.seen u)));
      }

  pub Inv-leave :
      (th' : Thread)
      → t ≡ i
      → ((slot : ReaderSlot) → slot.state ≡ 0 → Own slot th')
      → ((entered epoch word : ℕ) → Seen i entered epoch word th')
      → Inv i (most + 1) entered (set_state d t 0) (write threads t th')
  Inv-leave th' here own unseen =
      let new : ReaderSlot = record { state = 0; nesting = (d.slots t).nesting } in
      let at_slot : write d.slots t new i ≡ new = write_same d.slots t i new here in
      record {
        in_range = v.in_range;
        few_epochs = omega (arith, v.few_epochs);
        few_sections = rw (at_slot, here) (omega (arith, v.few_sections));
        open_section = rw at_slot (λ busy. absurd (busy refl));
        own = rw (write_same threads t i th' here, at_slot) (own new refl);
        seen = rw at_slot (
            write-all (λ _. Seen i entered d.global_epoch 0) threads t th'
              (unseen entered d.global_epoch 0)
              (λ u ne.
                Seen-leave i entered d.global_epoch (d.slots i).state (threads u) (v.seen u)));
      }

  -- A store to another slot.
  pub Inv-elsewhere :
      (word : ℕ) (th' : Thread)
      → t ≢ i
      → ((entered epoch word : ℕ) → Seen i entered epoch word th')
      → Inv i (most + 1) entered (set_state d t word) (write threads t th')
  Inv-elsewhere word th' ne unseen =
      let new : ReaderSlot = record { state = word; nesting = (d.slots t).nesting } in
      let kept : write d.slots t new i ≡ d.slots i = write_other d.slots t i new ne in
      Inv-keep (set_state d t word) th' (record {
        same_count = refl;
        later = omega arith;
        once = omega arith;
        pinned = λ busy. (v.open_section busy).pinned;
        same_state = ap ReaderSlot.state kept;
        bounded = rw kept (omega (arith, v.few_sections));
        here = λ e. absurd (ne e);
        others = λ _. kept;
        unseen = unseen entered d.global_epoch (d.slots i).state;
      })
