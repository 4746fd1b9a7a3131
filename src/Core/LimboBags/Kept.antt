-- ===== src/Core/LimboBags/Kept.antt =====
-- No node of the limbo bags (libraries/Core/include/core/rcu/EpochDomain.h) is lost: it stays in a bag
-- until it is drained, and no other node comes into a bag.
use cro_cos.Base.{
  ◌<◌, ◌==◌, arith, ℕ, zero, suc, ◌+◌, ◌≡◌, ◌⊎◌, inl, inr, Bool, true, false, List, [], ◌∷◌, Option,
  none, some, leb, refl, ◌∙◌, if◌then◌else◌, ==_cases,
}
use cro_cos.Base.Memory.{write_same, write_other}
use cro_cos.Core.LimboBags.{
  BagState, bag_free, bag_open, bag_sealed, bag_claimed, pack_bag, bag_tag_of, bag_state_of, Bag,
  LimboSlot, bag_count, is_free, may_retire, counted, find_free_bag_from, Drained, sweep_bags,
  OpenBag, set_word, rotated, opened, prepare_once, needs_room, prepare_open_bag, push_node,
  retired, retire, Op, retire_op, sweep_op, perform,
}
use cro_cos.Core.TreiberStack.Shape.{In}
use cro_cos.Core.LimboBags.Drains.{Held, SameHeads, set_word-SameHeads, Drains, sweep_bags-Drains}

find_free_bag_from-lt :
    (n b : ℕ) (s : LimboSlot) (j : ℕ) → find_free_bag_from n b s ≡ some j → j < b + n
unfolding find_free_bag_from
find_free_bag_from-lt zero b s j e = cc
find_free_bag_from-lt (suc n) b s j e =
    found (is_free (bag_state_of (s.bags b).tag_state))
      (λ later. omega (arith, find_free_bag_from-lt n (b + 1) s j later)) e
  where
    found :
        (here : Bool)
        → (find_free_bag_from n (b + 1) s ≡ some j → j < b + suc n)
        → (if here then some b else find_free_bag_from n (b + 1) s) ≡ some j
        → j < b + suc n
    found true later e = (let same : b ≡ j = ground (arith, e) in omega (arith, same))
    found false later e = later e

-- A bag of the slot was chosen, and the chains are as they were.
abbrev Chosen : List ℕ → LimboSlot → Option OpenBag → Type 0
Chosen ran s none = Unit
Chosen ran s (some o) =
    (o.ran ≡ ran) × SameHeads s o.slot × (o.index < bag_count) × (o.slot.open_bag_index < bag_count)

abbrev InRange : Option ℕ → Type 0
InRange free_bag = (j : ℕ) → free_bag ≡ some j → j < bag_count

rotated-Chosen :
    (free_bag : Option ℕ) (e : ℕ) (ran : List ℕ) (s : LimboSlot)
    → s.open_bag_index < bag_count
    → InRange free_bag
    → Chosen ran s (some (rotated free_bag e ran s))
rotated-Chosen none e ran s cursor range =
    (refl, set_word-SameHeads s s.open_bag_index (pack_bag e bag_open), cursor, cursor)
rotated-Chosen (some j) e ran s cursor range =
    let s1 : LimboSlot = set_word s j (pack_bag e bag_open) in
    let word : ℕ = pack_bag (bag_tag_of (s.bags s.open_bag_index).tag_state) bag_sealed in
    (
      refl,
      (λ c.
          set_word-SameHeads s1 s.open_bag_index word c
          ∙ set_word-SameHeads s j (pack_bag e bag_open) c),
      range j refl,
      range j refl,
    )

opened-Chosen :
    (state : BagState) (e : ℕ) (ran : List ℕ) (s : LimboSlot) (free_bag : Option ℕ)
    → s.open_bag_index < bag_count
    → InRange free_bag
    → Chosen ran s (opened state e ran s free_bag)
opened-Chosen bag_free e ran s free_bag cursor range =
    (refl, set_word-SameHeads s s.open_bag_index (pack_bag e bag_open), cursor, cursor)
opened-Chosen bag_open e ran s free_bag cursor range =
    current (leb e (bag_tag_of (s.bags s.open_bag_index).tag_state))
  where
    current :
        (b : Bool)
        → Chosen ran s (
            some (
              if b
              then record {
                index = s.open_bag_index;
                tag_state = (s.bags s.open_bag_index).tag_state;
                ran = ran;
                slot = s;
              }
              else rotated free_bag e ran s))
    current true = (refl, (λ c. refl), cursor, cursor)
    current false = rotated-Chosen free_bag e ran s cursor range
opened-Chosen bag_sealed e ran s free_bag cursor range = tt
opened-Chosen bag_claimed e ran s free_bag cursor range = tt

prepare_once-Chosen :
    (e : ℕ) (ran : List ℕ) (s : LimboSlot)
    → s.open_bag_index < bag_count
    → Chosen ran s (prepare_once e ran s)
prepare_once-Chosen e ran s cursor =
    opened-Chosen (bag_state_of (s.bags s.open_bag_index).tag_state) e ran s
      (find_free_bag_from bag_count 0 s) cursor (find_free_bag_from-lt bag_count 0 s)

abbrev pub Retires : Op → ℕ → Type 0
Retires (retire_op c) x = c.retiree ≡ x
Retires (sweep_op e budget) x = ⊥

push-Held :
    (x node b : ℕ) (s : LimboSlot)
    → b < bag_count
    → (node ≡ x) ⊎ Held x s
    → Held x (push_node node b s)
push-Held x node b s inside (inl e) =
    let new : Bag = record { head = node ∷ (s.bags b).head; tag_state = (s.bags b).tag_state } in
    (b, inside, rw (write_same s.bags b b new refl) (inl e))
push-Held x node b s inside (inr (c, lt, h)) =
    let new : Bag = record { head = node ∷ (s.bags b).head; tag_state = (s.bags b).tag_state } in
    elim (==_cases b c) [
      | inl e ↦ (b, inside, rw (write_same s.bags b b new refl) (inr (rw e h)))
      | inr ne ↦ (c, lt, rw (write_other s.bags b c new ne) h)
    ]

push-Held_before :
    (x node b : ℕ) (s : LimboSlot) → Held x (push_node node b s) → (node ≡ x) ⊎ Held x s
push-Held_before x node b s (c, lt, h) =
    let new : Bag = record { head = node ∷ (s.bags b).head; tag_state = (s.bags b).tag_state } in
    elim (==_cases b c) [
      | inl e ↦
          let h' : In x (node ∷ (s.bags b).head) = rw (write_same s.bags b c new e) at h in
          elim h' [ inl same ↦ inl same | inr old ↦ inr (c, lt, rw e at old) ]
      | inr ne ↦ inr (c, lt, rw (write_other s.bags b c new ne) at h)
    ]

-- What a call does with the nodes that it finds and the one that it brings.
pub record Changed (Brought : ℕ → Type 0) (x : ℕ) (s : LimboSlot) (ran : List ℕ) (s' : LimboSlot)
    : Type 0 where
  pub kept : Held x s ⊎ Brought x → In x ran ⊎ Held x s'
  pub none_new : Held x s' → Brought x ⊎ Held x s
  pub cursor : s'.open_bag_index < bag_count

abbrev Keeps : (ℕ → Type 0) → ℕ → LimboSlot → Option (List ℕ × LimboSlot) → Type 0
Keeps Brought x s none = Unit
Keeps Brought x s (some result) = Changed Brought x s result.0 result.1

-- A bag was chosen after a drain, and the node is pushed.
pushed-Changed :
    (x node : ℕ) (d : Drained LimboSlot) (s : LimboSlot) (o : OpenBag)
    → Drains x s d
    → Chosen d.ran d.rest (some o)
    → Changed (λ y. node ≡ y) x s o.ran (counted (push_node node o.index o.slot))
pushed-Changed x node d s o drains (same_ran, heads, inside, cursor) = record {
  kept = λ found. elim found [
    | inl held ↦ elim (drains.kept held) [
      | inl gone ↦ inl (rw same_ran gone)
      | inr (c, lt, stays) ↦
          inr (push-Held x node o.index o.slot inside (inr (c, lt, rw (heads c) stays)))
    ]
    | inr e ↦ inr (push-Held x node o.index o.slot inside (inl e))
  ];
  none_new = λ held. elim (push-Held_before x node o.index o.slot held) [
    | inl e ↦ inl e
    | inr (c, lt, h) ↦ inr (drains.none_new (c, lt, rw (heads c) at h))
  ];
  cursor = cursor;
}

retired-Keeps :
    (x node : ℕ) (d : Drained LimboSlot) (s : LimboSlot) (made : Option OpenBag)
    → Drains x s d
    → Chosen d.ran d.rest made
    → Keeps (λ y. node ≡ y) x s (retired node made)
retired-Keeps x node d s none drains chosen = tt
retired-Keeps x node d s (some o) drains chosen =
    looked (((push_node node o.index o.slot).bags o.index).tag_state == o.tag_state)
  where
    looked :
        (b : Bool)
        → Keeps
            (λ y. node ≡ y)
            x
            s
            (if b then some (o.ran, counted (push_node node o.index o.slot)) else none)
    looked true = pushed-Changed x node d s o drains chosen
    looked false = tt

prepared-Keeps :
    (x node e bound : ℕ) (s : LimboSlot)
    → s.open_bag_index < bag_count
    → Keeps (λ y. node ≡ y) x s (retired node (prepare_open_bag e bound s))
unfolding prepare_open_bag
prepared-Keeps x node e bound s cursor = choose (needs_room e s (find_free_bag_from bag_count 0 s))
  where
    choose :
        (b : Bool)
        → Keeps
            (λ y. node ≡ y)
            x
            s
            (retired node (
              if b
              then prepare_once e
                  (sweep_bags bag_count 0 e bound s).ran
                  (sweep_bags bag_count 0 e bound s).rest
              else prepare_once e [] s))
    choose true =
        let d : Drained LimboSlot = sweep_bags bag_count 0 e bound s in
        let drains : Drains x s d = sweep_bags-Drains x bag_count 0 e bound s in
        retired-Keeps x node d s (prepare_once e d.ran d.rest) drains
          (prepare_once-Chosen e d.ran d.rest (rw drains.same_cursor cursor))
    choose false =
        retired-Keeps x node (record { ran = []; budget = bound; rest = s }) s (prepare_once e [] s)
          (record { kept = λ h. inr h; none_new = λ h. h; same_cursor = refl })
          (prepare_once-Chosen e [] s cursor)

perform-Keeps :
    (x bound : ℕ) (op : Op) (s : LimboSlot)
    → s.open_bag_index < bag_count
    → Keeps (Retires op) x s (perform bound op s)
unfolding perform retire
perform-Keeps x bound (retire_op c) s cursor = guarded (may_retire c s)
  where
    guarded :
        (b : Bool)
        → Keeps
            (λ y. c.retiree ≡ y)
            x
            s
            (if b then retired c.retiree (prepare_open_bag c.epoch bound s) else none)
    guarded true = prepared-Keeps x c.retiree c.epoch bound s cursor
    guarded false = tt
perform-Keeps x bound (sweep_op e budget) s cursor =
    let drains : Drains x s (sweep_bags bag_count 0 e budget s) =
      sweep_bags-Drains x bag_count 0 e budget s in
    record {
      kept = λ found. elim found [ inl held ↦ drains.kept held | inr brings ↦ elim brings [ ] ];
      none_new = λ held. inr (drains.none_new held);
      cursor = rw drains.same_cursor cursor;
    }

-- If the open bag is one of the four of the slot, whatever else the slot holds, then a call that fails
-- no assertion loses no node: one that was in one of the four bags, or that the call retires, is among
-- those that the call drains, or in one of the four bags afterwards. A node that is in a bag afterwards
-- was in one before, or the call retires it. The open bag is still one of the four.
pub perform-Kept :
    (bound : ℕ) (op : Op) (s s' : LimboSlot) (ran : List ℕ) (x : ℕ)
    → s.open_bag_index < bag_count
    → perform bound op s ≡ some (ran, s')
    → (Held x s ⊎ Retires op x → In x ran ⊎ Held x s')
      × (Held x s' → Retires op x ⊎ Held x s)
      × (s'.open_bag_index < bag_count)
perform-Kept bound op s s' ran x inside made =
    let keeps : Keeps (Retires op) x s (some (ran, s')) =
      rw made at (perform-Keeps x bound op s inside) in
    (keeps.kept, keeps.none_new, keeps.cursor)
