-- ===== src/Core/LimboBags/Sweep.antt =====
-- Sweeping the limbo bags of a slot (libraries/Core/include/core/rcu/EpochDomain.h): what runs has
-- expired, and what is left waits on.
use cro_cos.Base.{
  ℕ, zero, suc, ◌+◌, ◌^◌, ◌≤◌, ◌<◌, ◌≡◌, ◌≢◌, Bool, true, false, ◌&&◌, not, List, [], ◌∷◌, refl,
  arith, ltb,
}
use cro_cos.Base.Memory.{write, write_other}
use cro_cos.Core.LimboBags.{
  BagState, bag_free, bag_open, bag_sealed, bag_claimed, pack_bag, bag_tag_of, bag_state_of, Bag,
  LimboSlot, is_sealed, Drained, drain_claimed_bag, state_after, expired, claimed, claim_and_drain,
  sweep_bags,
}
use cro_cos.Core.RingBuffer.Tickets.{write-all}
use cro_cos.LibAlloc.Pointers.{add64}
use cro_cos.Core.LimboBags.Expiry.{
  Until, Expired, Expired-of, Expired-append, Usable, BagInv, Inv, packed-BagInv, drain-Until,
}

is_sealed-not_Usable : (state : BagState) → is_sealed state ≡ true → ¬ Usable state
is_sealed-not_Usable bag_free h u = cc
is_sealed-not_Usable bag_open h u = cc
is_sealed-not_Usable bag_sealed h u = u
is_sealed-not_Usable bag_claimed h u = cc

le_of_not_ltb : (a b : ℕ) → ltb a b ≡ false → b ≤ a
le_of_not_ltb a b h = ground arith

expired_gate :
    (word epoch : ℕ)
    → bag_tag_of word < 2 ^ 62
    → expired word epoch ≡ true
    → (is_sealed (bag_state_of word) ≡ true) × (bag_tag_of word + 2 ≤ epoch)
expired_gate word epoch small h =
    gate (is_sealed (bag_state_of word)) (ltb epoch (add64 (bag_tag_of word) 2)) h refl refl
  where
    gate :
        (a b : Bool)
        → (a && not b) ≡ true
        → is_sealed (bag_state_of word) ≡ a
        → ltb epoch (add64 (bag_tag_of word) 2) ≡ b
        → (is_sealed (bag_state_of word) ≡ true) × (bag_tag_of word + 2 ≤ epoch)
    gate true false h ea eb =
        (ea, omega (arith, small, le_of_not_ltb epoch (add64 (bag_tag_of word) 2) eb))
    gate true true h ea eb = cc
    gate false b h ea eb = cc

after_free : (nodes : List ℕ) → state_after nodes ≡ bag_free → nodes ≡ []
after_free [] e = refl
after_free (n ∷ nodes) e = cc

-- One store to a bag, and what the slot is after it.
pub write-each :
    (at_ : ℕ → ℕ) (bags : ℕ → Bag) (b : ℕ) (new : Bag)
    → ((c : ℕ) → BagInv at_ (bags c))
    → BagInv at_ new
    → (c : ℕ) → BagInv at_ (write bags b new c)
write-each at_ bags b new each h = write-all (λ _. BagInv at_) bags b new h (λ c ne. each c)

module _ (at_ : ℕ → ℕ) where
  pub record Swept (epoch : ℕ) (d : Drained LimboSlot) : Type 0 where
    pub ran_expired : Expired at_ epoch d.ran
    pub inv : Inv at_ d.rest

  claimed-Swept :
      (taken : Bool) (b epoch budget : ℕ) (s : LimboSlot)
      → expired (s.bags b).tag_state epoch ≡ taken
      → Inv at_ s
      → Swept epoch (claimed taken b budget s)
  claimed-Swept false b epoch budget s e v = record { ran_expired = tt; inv = v }
  claimed-Swept true b epoch budget s e v =
      let old : BagInv at_ (s.bags b) = v.each b in
      let tag : ℕ = bag_tag_of (s.bags b).tag_state in
      let gate : (is_sealed (bag_state_of (s.bags b).tag_state) ≡ true) × (tag + 2 ≤ epoch) =
        expired_gate (s.bags b).tag_state epoch old.small e in
      let ne : b ≢ s.open_bag_index = λ same.
        is_sealed-not_Usable (bag_state_of (s.bags b).tag_state) gate.0 (rw same v.usable) in
      let d : Drained (List ℕ) = drain_claimed_bag budget (s.bags b).head in
      let split : Until at_ tag d.ran × Until at_ tag d.rest =
        drain-Until at_ tag budget (s.bags b).head old.tagged in
      let taken : Bag = record { head = (s.bags b).head; tag_state = pack_bag tag bag_claimed } in
      let left : Bag = record { head = d.rest; tag_state = pack_bag tag (state_after d.rest) } in
      record {
        ran_expired = Expired-of at_ tag epoch d.ran gate.1 split.0;
        inv = record {
          each =
              write-each at_ (write s.bags b taken) b left
                (write-each at_ s.bags b taken v.each (
                  packed-BagInv at_ (s.bags b).head tag bag_claimed old.small old.tagged (λ q. cc)))
                (packed-BagInv at_ d.rest tag (state_after d.rest) old.small split.1
                  (after_free d.rest));
          usable =
              rw
                (
                  write_other (write s.bags b taken) b s.open_bag_index left ne,
                  write_other s.bags b s.open_bag_index taken ne,
                )
                v.usable;
        };
      }

  pub sweep_bags-Swept :
      (n b epoch budget : ℕ) (s : LimboSlot)
      → Inv at_ s
      → Swept epoch (sweep_bags n b epoch budget s)
  unfolding sweep_bags
  sweep_bags-Swept zero b epoch budget s v = record { ran_expired = tt; inv = v }
  sweep_bags-Swept (suc n) b epoch zero s v = record { ran_expired = tt; inv = v }
  sweep_bags-Swept (suc n) b epoch (suc budget) s v =
      let d : Drained LimboSlot = claim_and_drain b epoch (suc budget) s in
      let first : Swept epoch d =
        claimed-Swept (expired (s.bags b).tag_state epoch) b epoch (suc budget) s refl v in
      let next : Swept epoch (sweep_bags n (b + 1) epoch d.budget d.rest) =
        sweep_bags-Swept n (b + 1) epoch d.budget d.rest first.inv in
      record {
        ran_expired =
            Expired-append at_ epoch d.ran (sweep_bags n (b + 1) epoch d.budget d.rest).ran
              first.ran_expired next.ran_expired;
        inv = next.inv;
      }
