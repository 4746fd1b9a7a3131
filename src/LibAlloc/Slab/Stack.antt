-- ===== src/LibAlloc/Slab/Stack.antt =====
-- `Slab::alloc` and `Slab::free` (libraries/LibAlloc/SlabAllocator.cpp) against a stack of free
-- slots: the chain of freed slots first, then the slots behind the initialised horizon.
use cro_cos.Base.{
  ℕ, zero, suc, ◌+◌, ◌*◌, ◌^◌, ◌≤◌, ◌<◌, ◌≡◌, ◌≢◌, true, false, refl, arith, List, [], ◌∷◌, ◌++◌,
  length, Option, none, some, ap,
}
use cro_cos.Base.Memory.{write}
use cro_cos.LibAlloc.Pointers.{add64, sub64}
use cro_cos.LibAlloc.Slab.{
  Slab, alloc, free, take_horizon, take_linked, mark_slot_free_state, is_slot_free,
}

-- The `n` slots from address `p` on.
abbrev pub slots_from : ℕ → ℕ → ℕ → List ℕ
slots_from p size zero = []
slots_from p size (suc n) = p ∷ slots_from (p + size) size n

-- `p` leads through the slots of the list, in order, to `last`.
abbrev pub Chain : (ℕ → Option ℕ) → Option ℕ → List ℕ → Option ℕ → Type 0
Chain m last [] p = p ≡ last
Chain m last (a ∷ l) p = (p ≡ some a) × Chain m last l (m a)

abbrev pub Avoids : ℕ → List ℕ → Type 0
Avoids a [] = Unit
Avoids a (b ∷ l) = (b ≢ a) × Avoids a l

abbrev pub Distinct : List ℕ → Type 0
Distinct [] = Unit
Distinct (a ∷ l) = Avoids a l × Distinct l

abbrev pub Below : ℕ → List ℕ → Type 0
Below h [] = Unit
Below h (a ∷ l) = (a < h) × Below h l

-- Where the chain of freed slots ends: at the horizon, or nowhere if no slot is left behind it.
abbrev pub chain_end : ℕ → ℕ → Option ℕ
chain_end zero horizon = none
chain_end (suc n) horizon = some horizon

-- `linked` is the chain of freed slots and `fresh` counts the slots that were never handed out.
pub record Inv (linked : List ℕ) (fresh : ℕ) (s : Slab) : Type 0 where
  pub slot_pos : 0 < s.slot_size
  pub no_wrap : s.backing_storage + s.backing_size + s.slot_size < 2 ^ 64
  pub room : s.initialized_horizon + fresh * s.slot_size ≤ s.backing_storage + s.backing_size
  pub tight :
      s.backing_storage + s.backing_size < s.initialized_horizon + fresh * s.slot_size + s.slot_size
  pub chain : Chain s.mem (chain_end fresh s.initialized_horizon) linked s.next_free
  pub distinct : Distinct linked
  pub below : Below s.initialized_horizon linked
  pub counted : s.free_count ≡ length linked + fresh
  pub at_most : s.free_count ≤ s.num_slots
  pub few : s.num_slots < 2 ^ 64

-- The abstract value of a slab: its free slots, the next one to be handed out first.
abbrev pub free_slots : List ℕ → ℕ → Slab → List ℕ
free_slots linked fresh s = linked ++ slots_from s.initialized_horizon s.slot_size fresh

Chain-write :
    (m : ℕ → Option ℕ) (a : ℕ) (v last : Option ℕ) (l : List ℕ) (p : Option ℕ)
    → Avoids a l
    → Chain m last l p
    → Chain (write m a v) last l p
Chain-write m a v last [] p d h = h
Chain-write m a v last (b ∷ l) p d h =
    let e : write m a v b ≡ m b = ground arith in
    (h.0, rw e (Chain-write m a v last l (m b) d.1 h.1))

-- What `alloc` does to a slab whose free slots are the list.
abbrev pub Pops : List ℕ → Slab → Type 0
Pops [] s = alloc s ≡ none
Pops (p ∷ rest) s =
    (linked : List ℕ) × (fresh : ℕ) × (t : Slab) × (alloc s ≡ some (p, t))
    × Inv linked fresh t
    × (free_slots linked fresh t ≡ rest)

chain_end-take_horizon :
    (n : ℕ) (s : Slab)
    → Inv [] (suc n) s
    → (take_horizon s).next_free ≡ chain_end n (take_horizon s).initialized_horizon
unfolding take_horizon
chain_end-take_horizon zero s v = ground arith
chain_end-take_horizon (suc k) s v = ground arith

-- The slab after `alloc` took the slot at the horizon.
abbrev after_horizon : Slab → Slab
after_horizon s =
    mark_slot_free_state (record (take_horizon s) { free_count = sub64 s.free_count 1 })
      s.initialized_horizon false

alloc-horizon :
    (n : ℕ) (s : Slab) → Inv [] (suc n) s → alloc s ≡ some (s.initialized_horizon, after_horizon s)
unfolding alloc take_horizon
alloc-horizon n s v = ground arith

after_horizon-Inv : (n : ℕ) (s : Slab) → Inv [] (suc n) s → Inv [] n (after_horizon s)
unfolding mark_slot_free_state take_horizon
after_horizon-Inv n s v = record {
  slot_pos = v.slot_pos;
  no_wrap = v.no_wrap;
  room = omega arith;
  tight = omega arith;
  chain = chain_end-take_horizon n s v;
  distinct = tt;
  below = tt;
  counted = omega arith;
  at_most = omega arith;
  few = v.few;
}

Avoids-Below : (h a : ℕ) (l : List ℕ) → Below h l → h ≤ a → Avoids a l
Avoids-Below h a [] b le = tt
Avoids-Below h a (x ∷ l) b le = (omega arith, Avoids-Below h a l b.1 le)

-- The slab after `alloc` took the first slot of the chain.
abbrev after_linked : Slab → ℕ → Slab
after_linked s a =
    mark_slot_free_state (record (take_linked s a) { free_count = sub64 s.free_count 1 }) a false

module _ (a : ℕ) (l : List ℕ) (n : ℕ) (s : Slab) (v : Inv (a ∷ l) n s) where
  alloc-linked : alloc s ≡ some (a, after_linked s a)
  unfolding alloc take_linked
  alloc-linked = ground arith

  after_linked-Inv : Inv l n (after_linked s a)
  unfolding mark_slot_free_state take_linked
  after_linked-Inv = record {
    slot_pos = v.slot_pos;
    no_wrap = v.no_wrap;
    room = v.room;
    tight = v.tight;
    chain = Chain-write s.mem a none _ l (s.mem a) v.distinct.0 v.chain.1;
    distinct = v.distinct.1;
    below = v.below.1;
    counted = omega arith;
    at_most = omega arith;
    few = v.few;
  }

-- `Slab::alloc` pops the stack of free slots: on a slab with no free slot its assertion fails, and
-- otherwise it returns the first free slot and leaves the others, in the same order.
pub alloc_refines :
    (linked : List ℕ) (fresh : ℕ) (s : Slab)
    → Inv linked fresh s
    → Pops (free_slots linked fresh s) s
unfolding alloc take_horizon take_linked mark_slot_free_state
alloc_refines [] zero s v = rw (v.chain, alloc)
alloc_refines [] (suc n) s v = (
  [],
  n,
  after_horizon s,
  alloc-horizon n s v,
  after_horizon-Inv n s v,
  ap (λ h. slots_from h s.slot_size n) (omega arith),
)
alloc_refines (a ∷ l) n s v =
    (l, n, after_linked s a, alloc-linked a l n s v, after_linked-Inv a l n s v, refl)

-- The slab after `free` of an address.
abbrev after_free : Slab → ℕ → Slab
after_free s p = record (mark_slot_free_state s p true) {
  mem = write s.mem p s.next_free;
  next_free = some p;
  free_count = add64 s.free_count 1;
}

-- `Slab::free` of a slot that was handed out and not freed since pushes it on the stack: it is the
-- next slot that `alloc` returns, and the others stay behind it, in the same order.
pub free_refines :
    (linked : List ℕ) (fresh : ℕ) (s : Slab) (p : ℕ)
    → Inv linked fresh s
    → is_slot_free s p ≡ false
    → Avoids p linked
    → p < s.initialized_horizon
    → s.free_count < s.num_slots
    → (t : Slab) × (free s p ≡ some t)
      × Inv (p ∷ linked) fresh t
      × (free_slots (p ∷ linked) fresh t ≡ p ∷ free_slots linked fresh s)
unfolding free mark_slot_free_state
free_refines linked fresh s p v used avoids lt some_used = (
  after_free s p,
  rw used,
  record {
    slot_pos = v.slot_pos;
    no_wrap = v.no_wrap;
    room = v.room;
    tight = v.tight;
    chain = (
      refl,
      let e : write s.mem p s.next_free p ≡ s.next_free = ground arith in
          rw e (Chain-write s.mem p s.next_free _ linked s.next_free avoids v.chain),
    );
    distinct = (avoids, v.distinct);
    below = (lt, v.below);
    counted = omega arith;
    at_most = omega arith;
    few = v.few;
  },
  refl,
)
