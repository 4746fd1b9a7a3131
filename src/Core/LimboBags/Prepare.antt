-- ===== src/Core/LimboBags/Prepare.antt =====
-- `prepareOpenBag` of libraries/Core/include/core/rcu/EpochDomain.h: the bag it returns is open and not
-- older than the epoch, whatever the state of the bags.
use cro_cos.Base.{
  ℕ, zero, suc, if◌then◌else◌, ◌+◌, ◌^◌, ◌≤◌, ◌<◌, ◌≡◌, ◌≢◌, Bool, true, false, List, [], Option,
  none, some, refl, sym, ap, ◌∙◌, arith, leb, leb→le,
}
use cro_cos.Base.Memory.{write_same, write_other}
use cro_cos.Core.LimboBags.{
  BagState, bag_free, bag_open, bag_sealed, bag_claimed, pack_bag, bag_tag_of, bag_state_of, Bag,
  LimboSlot, bag_count, is_free, find_free_bag_from, sweep_bags, OpenBag, rotate, set_word, rotated,
  opened, prepare_once, needs_room, prepare_open_bag,
}
use cro_cos.Core.LimboBags.Words.{bag_tag_of-pack_bag, bag_state_of-pack_bag}
use cro_cos.Core.LimboBags.Expiry.{Until, Until-later, Expired, Usable, Inv, packed-BagInv}
use cro_cos.Core.LimboBags.Sweep.{write-each, Swept, sweep_bags-Swept}

find_free_bag_from-free :
    (n b : ℕ) (s : LimboSlot) (j : ℕ)
    → find_free_bag_from n b s ≡ some j
    → bag_state_of (s.bags j).tag_state ≡ bag_free
unfolding find_free_bag_from
find_free_bag_from-free zero b s j e = cc
find_free_bag_from-free (suc n) b s j e =
    found (bag_state_of (s.bags b).tag_state) refl (find_free_bag_from-free n (b + 1) s j) e
  where
    found :
        (state : BagState)
        → bag_state_of (s.bags b).tag_state ≡ state
        → (find_free_bag_from n (b + 1) s ≡ some j → bag_state_of (s.bags j).tag_state ≡ bag_free)
        → (if is_free state then some b else find_free_bag_from n (b + 1) s) ≡ some j
        → bag_state_of (s.bags j).tag_state ≡ bag_free
    found bag_free at_b later e = (let same : b ≡ j = ground (arith, e) in rw same at at_b)
    found bag_open at_b later e = later e
    found bag_sealed at_b later e = later e
    found bag_claimed at_b later e = later e

module _ (at_ : ℕ → ℕ) (e : ℕ) (short : e < 2 ^ 62) where
  pub record Prepared (o : OpenBag) : Type 0 where
    pub ran_expired : Expired at_ e o.ran
    pub inv : Inv at_ o.slot
    pub is_open : bag_state_of (o.slot.bags o.index).tag_state ≡ bag_open
    pub new_enough : e ≤ bag_tag_of (o.slot.bags o.index).tag_state
    pub same_word : (o.slot.bags o.index).tag_state ≡ o.tag_state

  -- A bag that is opened at the epoch.
  module _ (s : LimboSlot) (j : ℕ) where
    open_word :
        (set_word s j (pack_bag e bag_open)).bags j
        ≡ record { head = (s.bags j).head; tag_state = pack_bag e bag_open }
    open_word =
        write_same s.bags j j (record { head = (s.bags j).head; tag_state = pack_bag e bag_open })
          refl

    opens :
        (s' : LimboSlot)
        → s'.bags j ≡ record { head = (s.bags j).head; tag_state = pack_bag e bag_open }
        → (bag_state_of (s'.bags j).tag_state ≡ bag_open) × (e ≤ bag_tag_of (s'.bags j).tag_state)
    opens s' same = (
      rw same (bag_state_of-pack_bag e bag_open),
      rw (same, bag_tag_of-pack_bag e bag_open short) (omega arith),
    )

  open-Usable : (state : BagState) → state ≡ bag_open → Usable state
  open-Usable state h = rw h tt

  -- The cursor's bag is opened, or raised to the epoch.
  raised-Prepared :
      (s : LimboSlot) (ran : List ℕ)
      → Expired at_ e ran
      → Inv at_ s
      → Until at_ e (s.bags s.open_bag_index).head
      → Prepared (record {
        index = s.open_bag_index;
        tag_state = pack_bag e bag_open;
        ran = ran;
        slot = set_word s s.open_bag_index (pack_bag e bag_open);
      })
  raised-Prepared s ran gone v until =
      let i : ℕ = s.open_bag_index in
      let new : Bag = record { head = (s.bags i).head; tag_state = pack_bag e bag_open } in
      let s' : LimboSlot = set_word s i (pack_bag e bag_open) in
      let o : (bag_state_of (s'.bags i).tag_state ≡ bag_open)
          × (e ≤ bag_tag_of (s'.bags i).tag_state) =
        opens s i s' (open_word s i) in
      record {
        ran_expired = gone;
        inv = record {
          each =
              write-each at_ s.bags i new v.each
                (packed-BagInv at_ (s.bags i).head e bag_open short until (λ q. cc));
          usable = open-Usable (bag_state_of (s'.bags i).tag_state) o.0;
        };
        is_open = o.0;
        new_enough = o.1;
        same_word = ap Bag.tag_state (open_word s i);
      }

  rotate-Prepared :
      (s : LimboSlot) (ran : List ℕ) (j : ℕ)
      → Expired at_ e ran
      → Inv at_ s
      → bag_state_of (s.bags s.open_bag_index).tag_state ≡ bag_open
      → bag_state_of (s.bags j).tag_state ≡ bag_free
      → Prepared
          (record { index = j; tag_state = pack_bag e bag_open; ran = ran; slot = rotate e j s })
  rotate-Prepared s ran j gone v was_open was_free =
      let i : ℕ = s.open_bag_index in
      let t : ℕ = bag_tag_of (s.bags i).tag_state in
      let ne : i ≢ j = λ same. absurd (
        open_not_free
          (sym was_open ∙ ap (λ b. bag_state_of (s.bags b).tag_state) same ∙ was_free)) in
      let new : Bag = record { head = (s.bags j).head; tag_state = pack_bag e bag_open } in
      let s1 : LimboSlot = set_word s j (pack_bag e bag_open) in
      let kept : s1.bags i ≡ s.bags i = write_other s.bags j i new (λ q. ne (sym q)) in
      let old : Bag = record { head = (s1.bags i).head; tag_state = pack_bag t bag_sealed } in
      let s' : LimboSlot = rotate e j s in
      let o : (bag_state_of (s'.bags j).tag_state ≡ bag_open)
          × (e ≤ bag_tag_of (s'.bags j).tag_state) =
        opens s j s' (write_other s1.bags i j old ne ∙ open_word s j) in
      let none_left : (s.bags j).head ≡ [] = (v.each j).emptied was_free in
      let until : Until at_ e (s.bags j).head = rw none_left tt in
      record {
        ran_expired = gone;
        inv = record {
          each =
              write-each at_ s1.bags i old
                (write-each at_ s.bags j new v.each
                  (packed-BagInv at_ (s.bags j).head e bag_open short until (λ q. cc)))
                (packed-BagInv at_ (s1.bags i).head t bag_sealed (v.each i).small
                  (rw kept (v.each i).tagged) (λ q. cc));
          usable = open-Usable (bag_state_of (s'.bags j).tag_state) o.0;
        };
        is_open = o.0;
        new_enough = o.1;
        same_word = ap Bag.tag_state (write_other s1.bags i j old ne ∙ open_word s j);
      }
    where
      open_not_free : bag_open ≡ bag_free → ⊥
      open_not_free q = cc

  current-Prepared :
      (b : Bool) (s : LimboSlot) (ran : List ℕ) (free_bag : Option ℕ)
      → leb e (bag_tag_of (s.bags s.open_bag_index).tag_state) ≡ b
      → bag_state_of (s.bags s.open_bag_index).tag_state ≡ bag_open
      → ((j : ℕ) → free_bag ≡ some j → bag_state_of (s.bags j).tag_state ≡ bag_free)
      → Expired at_ e ran
      → Inv at_ s
      → Prepared (
          if b
          then record {
            index = s.open_bag_index;
            tag_state = (s.bags s.open_bag_index).tag_state;
            ran = ran;
            slot = s;
          }
          else rotated free_bag e ran s)
  current-Prepared true s ran free_bag le was_open free gone v = record {
    ran_expired = gone;
    inv = v;
    is_open = was_open;
    new_enough = leb→le e (bag_tag_of (s.bags s.open_bag_index).tag_state) le;
    same_word = refl;
  }
  current-Prepared false s ran (some j) le was_open free gone v =
      rotate-Prepared s ran j gone v was_open (free j refl)
  current-Prepared false s ran none le was_open free gone v = raised-Prepared s ran gone v (
      Until-later at_ (bag_tag_of (s.bags s.open_bag_index).tag_state) e
        (s.bags s.open_bag_index).head (ground (arith, le)) (v.each s.open_bag_index).tagged)

  opened-Prepared :
      (state : BagState) (s : LimboSlot) (ran : List ℕ) (free_bag : Option ℕ)
      → bag_state_of (s.bags s.open_bag_index).tag_state ≡ state
      → ((j : ℕ) → free_bag ≡ some j → bag_state_of (s.bags j).tag_state ≡ bag_free)
      → Expired at_ e ran
      → Inv at_ s
      → (o : OpenBag) × (opened state e ran s free_bag ≡ some o) × Prepared o
  opened-Prepared bag_free s ran free_bag st free gone v =
      let none_left : (s.bags s.open_bag_index).head ≡ [] = (v.each s.open_bag_index).emptied st in
      let until : Until at_ e (s.bags s.open_bag_index).head = rw none_left tt in
      (
        record {
          index = s.open_bag_index;
          tag_state = pack_bag e bag_open;
          ran = ran;
          slot = set_word s s.open_bag_index (pack_bag e bag_open);
        },
        refl,
        raised-Prepared s ran gone v until,
      )
  opened-Prepared bag_open s ran free_bag st free gone v = (
    if leb e (bag_tag_of (s.bags s.open_bag_index).tag_state)
        then record {
          index = s.open_bag_index;
          tag_state = (s.bags s.open_bag_index).tag_state;
          ran = ran;
          slot = s;
        }
        else rotated free_bag e ran s,
    refl,
    current-Prepared (leb e (bag_tag_of (s.bags s.open_bag_index).tag_state)) s ran free_bag refl st
        free gone v,
  )
  opened-Prepared bag_sealed s ran free_bag st free gone v = absurd (rw st at v.usable)
  opened-Prepared bag_claimed s ran free_bag st free gone v = absurd (rw st at v.usable)

  prepare_once-Prepared :
      (s : LimboSlot) (ran : List ℕ)
      → Expired at_ e ran
      → Inv at_ s
      → (o : OpenBag) × (prepare_once e ran s ≡ some o) × Prepared o
  prepare_once-Prepared s ran gone v =
      opened-Prepared (bag_state_of (s.bags s.open_bag_index).tag_state) s ran
        (find_free_bag_from bag_count 0 s) refl (find_free_bag_from-free bag_count 0 s) gone v

  pub prepare_open_bag-Prepared :
      (bound : ℕ) (s : LimboSlot)
      → Inv at_ s
      → (o : OpenBag) × (prepare_open_bag e bound s ≡ some o) × Prepared o
  unfolding prepare_open_bag
  prepare_open_bag-Prepared bound s v = choose (needs_room e s (find_free_bag_from bag_count 0 s))
    where
      choose :
          (b : Bool)
          → (o : OpenBag) × ((if b
                then prepare_once e
                    (sweep_bags bag_count 0 e bound s).ran
                    (sweep_bags bag_count 0 e bound s).rest
                else prepare_once e [] s)
              ≡ some o)
            × Prepared o
      choose true =
          let d : Swept at_ e (sweep_bags bag_count 0 e bound s) =
            sweep_bags-Swept at_ bag_count 0 e bound s v in
          prepare_once-Prepared (sweep_bags bag_count 0 e bound s).rest
            (sweep_bags bag_count 0 e bound s).ran d.ran_expired d.inv
      choose false = prepare_once-Prepared s [] tt v
