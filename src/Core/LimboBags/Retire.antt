-- ===== src/Core/LimboBags/Retire.antt =====
-- Retiring a node into the limbo bags of its slot (libraries/Core/include/core/rcu/EpochDomain.h): it
-- goes into the bag that was prepared, and is tagged with its epoch or a later one.
use cro_cos.Base.{
  ℕ, ◌^◌, ◌<◌, ◌≡◌, List, ◌∷◌, some, sym, ap, ◌∙◌, arith, inl, inr, ==_cases, ==_of_eq, refl,
}
use cro_cos.Base.Memory.{write, write_same, write_other}
use cro_cos.Core.LimboBags.{
  bag_free, bag_open, Bag, LimboSlot, OpenBag, push_node, retired, prepare_open_bag,
}
use cro_cos.Core.LimboBags.Expiry.{Expired, BagInv, Inv}
use cro_cos.Core.LimboBags.Sweep.{write-each}
use cro_cos.Core.LimboBags.{counted}
use cro_cos.Core.LimboBags.Prepare.{Prepared, prepare_open_bag-Prepared}

module _ (at_ : ℕ → ℕ) (e : ℕ) (short : e < 2 ^ 62) where
  -- The node goes into a bag that is open and not older than the epoch.
  push-Inv :
      (node : ℕ) (o : OpenBag)
      → at_ node ≡ e
      → Prepared at_ e short o
      → Inv at_ (push_node node o.index o.slot)
  push-Inv node o now p =
      let bag : Bag = o.slot.bags o.index in
      let new : Bag = record { head = node ∷ bag.head; tag_state = bag.tag_state } in
      let old : BagInv at_ bag = p.inv.each o.index in
      let same_word : (c : ℕ)
          → (write o.slot.bags o.index new c).tag_state ≡ (o.slot.bags c).tag_state =
        λ c. elim (==_cases o.index c) [
          | inl q ↦
              ap Bag.tag_state (write_same o.slot.bags o.index c new q)
              ∙ ap (λ x. (o.slot.bags x).tag_state) q
          | inr ne ↦ ap Bag.tag_state (write_other o.slot.bags o.index c new ne)
        ] in
      record {
        each = write-each at_ o.slot.bags o.index new p.inv.each (record {
          tagged = (omega (arith, now, p.new_enough), old.tagged);
          small = old.small;
          emptied = λ q. absurd (open_not_free (sym p.is_open ∙ q));
        });
        usable = rw (same_word o.slot.open_bag_index) p.inv.usable;
      }
    where
      open_not_free : bag_open ≡ bag_free → ⊥
      open_not_free q = cc

  -- The assertion behind the push holds.
  retired-eq :
      (node : ℕ) (o : OpenBag)
      → Prepared at_ e short o
      → retired node (some o) ≡ some (o.ran, counted (push_node node o.index o.slot))
  retired-eq node o p =
      let bag : Bag = o.slot.bags o.index in
      let new : Bag = record { head = node ∷ bag.head; tag_state = bag.tag_state } in
      let word : ((push_node node o.index o.slot).bags o.index).tag_state ≡ o.tag_state =
        ap Bag.tag_state (write_same o.slot.bags o.index o.index new refl) ∙ p.same_word in
      rw (==_of_eq ((push_node node o.index o.slot).bags o.index).tag_state o.tag_state word) refl

  pub retired-Inv :
      (node bound : ℕ) (s : LimboSlot)
      → at_ node ≡ e
      → Inv at_ s
      → (ran : List ℕ) × (s' : LimboSlot) × (retired node (prepare_open_bag e bound s)
          ≡ some (ran, s'))
        × Expired at_ e ran
        × Inv at_ s'
  retired-Inv node bound s now v =
      let (o, made, p) = prepare_open_bag-Prepared at_ e short bound s v in
      let v' : Inv at_ (push_node node o.index o.slot) = push-Inv node o now p in
      (
        o.ran,
        counted (push_node node o.index o.slot),
        ap (retired node) made ∙ retired-eq node o p,
        p.ran_expired,
        record { each = v'.each; usable = v'.usable },
      )
