-- ===== src/Core/LimboBags/Drains.antt =====
-- What a drain of the limbo bags of a slot (libraries/Core/include/core/rcu/EpochDomain.h) does with the
-- nodes in them: each is run, or stays.
use cro_cos.Base.{
  ◌<◌, ℕ, zero, suc, ◌+◌, ◌≡◌, ◌⊎◌, inl, inr, Bool, true, false, List, [], ◌∷◌, ◌++◌, refl, ap, ◌∙◌,
  ==_cases,
}
use cro_cos.Base.Memory.{write, write_same, write_other}
use cro_cos.Core.LimboBags.{
  bag_claimed, pack_bag, bag_tag_of, Bag, LimboSlot, bag_count, Drained, drain_claimed_bag,
  state_after, expired, claimed, claim_and_drain, sweep_bags, set_word,
}
use cro_cos.Core.TreiberStack.Shape.{In}

-- The node is in one of the bags of the slot.
abbrev pub Held : ℕ → LimboSlot → Type 0
Held x s = (b : ℕ) × (b < bag_count) × In x (s.bags b).head

abbrev pub SameHeads : LimboSlot → LimboSlot → Type 0
SameHeads s s' = (c : ℕ) → (s'.bags c).head ≡ (s.bags c).head

pub set_word-SameHeads : (s : LimboSlot) (b word : ℕ) → SameHeads s (set_word s b word)
set_word-SameHeads s b word c =
    let new : Bag = record { head = (s.bags b).head; tag_state = word } in
    elim (==_cases b c) [
      | inl e ↦ ap Bag.head (write_same s.bags b c new e) ∙ ap (λ i. (s.bags i).head) e
      | inr ne ↦ ap Bag.head (write_other s.bags b c new ne)
    ]

In-append : (x : ℕ) (xs ys : List ℕ) → In x xs ⊎ In x ys → In x (xs ++ ys)
In-append x [] ys (inl h) = elim h [ ]
In-append x [] ys (inr h) = h
In-append x (y ∷ xs) ys (inl (inl e)) = inl e
In-append x (y ∷ xs) ys (inl (inr h)) = inr (In-append x xs ys (inl h))
In-append x (y ∷ xs) ys (inr h) = inr (In-append x xs ys (inr h))

drain-In :
    (x budget : ℕ) (nodes : List ℕ)
    → In x nodes
    → In x (drain_claimed_bag budget nodes).ran ⊎ In x (drain_claimed_bag budget nodes).rest
unfolding drain_claimed_bag
drain-In x zero nodes h = inr h
drain-In x (suc budget) [] h = elim h [ ]
drain-In x (suc budget) (n ∷ nodes) (inl e) = inl (inl e)
drain-In x (suc budget) (n ∷ nodes) (inr h) = elim (drain-In x budget nodes h) [
  | inl gone ↦ inl (inr gone)
  | inr left ↦ inr left
]

drain-In_rest :
    (x budget : ℕ) (nodes : List ℕ) → In x (drain_claimed_bag budget nodes).rest → In x nodes
unfolding drain_claimed_bag
drain-In_rest x zero nodes h = h
drain-In_rest x (suc budget) [] h = h
drain-In_rest x (suc budget) (n ∷ nodes) h = inr (drain-In_rest x budget nodes h)

-- What a drain does with a node, and with the cursor.
pub record Drains (x : ℕ) (s : LimboSlot) (d : Drained LimboSlot) : Type 0 where
  pub kept : Held x s → In x d.ran ⊎ Held x d.rest
  pub none_new : Held x d.rest → Held x s
  pub same_cursor : d.rest.open_bag_index ≡ s.open_bag_index

claimed-Drains :
    (x : ℕ) (taken : Bool) (b budget : ℕ) (s : LimboSlot) → Drains x s (claimed taken b budget s)
claimed-Drains x false b budget s = record {
  kept = λ h. inr h;
  none_new = λ h. h;
  same_cursor = refl;
}
claimed-Drains x true b budget s =
    let tag : ℕ = bag_tag_of (s.bags b).tag_state in
    let d : Drained (List ℕ) = drain_claimed_bag budget (s.bags b).head in
    let taken : Bag = record { head = (s.bags b).head; tag_state = pack_bag tag bag_claimed } in
    let left : Bag = record { head = d.rest; tag_state = pack_bag tag (state_after d.rest) } in
    let bags : ℕ → Bag = write s.bags b taken in
    record {
      kept = λ (c, lt, h). elim (==_cases b c) [
        | inl e ↦ elim (drain-In x budget (s.bags b).head (rw e h)) [
          | inl gone ↦ inl gone
          | inr stays ↦ inr (c, lt, rw (write_same bags b c left e) stays)
        ]
        | inr ne ↦ inr (c, lt, rw (write_other bags b c left ne, write_other s.bags b c taken ne) h)
      ];
      none_new = λ (c, lt, h). elim (==_cases b c) [
        | inl e ↦ (
          c,
          lt,
          rw e at (drain-In_rest x budget (s.bags b).head (rw (write_same bags b c left e) at h)),
        )
        | inr ne ↦ (c, lt, rw (write_other bags b c left ne, write_other s.bags b c taken ne) at h)
      ];
      same_cursor = refl;
    }

pub sweep_bags-Drains :
    (x n b epoch budget : ℕ) (s : LimboSlot) → Drains x s (sweep_bags n b epoch budget s)
unfolding sweep_bags
sweep_bags-Drains x zero b epoch budget s = record {
  kept = λ h. inr h;
  none_new = λ h. h;
  same_cursor = refl;
}
sweep_bags-Drains x (suc n) b epoch zero s = record {
  kept = λ h. inr h;
  none_new = λ h. h;
  same_cursor = refl;
}
sweep_bags-Drains x (suc n) b epoch (suc budget) s =
    let d : Drained LimboSlot = claim_and_drain b epoch (suc budget) s in
    let d' : Drained LimboSlot = sweep_bags n (b + 1) epoch d.budget d.rest in
    let first : Drains x s d =
      claimed-Drains x (expired (s.bags b).tag_state epoch) b (suc budget) s in
    let next : Drains x d.rest d' = sweep_bags-Drains x n (b + 1) epoch d.budget d.rest in
    record {
      kept = λ h. elim (first.kept h) [
        | inl gone ↦ inl (In-append x d.ran d'.ran (inl gone))
        | inr stays ↦ elim (next.kept stays) [
          | inl gone ↦ inl (In-append x d.ran d'.ran (inr gone))
          | inr left ↦ inr left
        ]
      ];
      none_new = λ h. first.none_new (next.none_new h);
      same_cursor = next.same_cursor ∙ first.same_cursor;
    }
