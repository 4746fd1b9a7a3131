-- ===== src/Core/LimboBags/Expiry.antt =====
-- A node of a limbo bag (libraries/Core/include/core/rcu/EpochDomain.h) is not drained before the epoch
-- is two past the one at which it was retired.
use cro_cos.Base.{ℕ, zero, suc, ◌+◌, ◌^◌, ◌≤◌, ◌<◌, ◌≡◌, List, [], ◌∷◌, ◌++◌, arith}
use cro_cos.Core.LimboBags.{
  BagState, bag_free, bag_open, bag_sealed, bag_claimed, pack_bag, bag_tag_of, bag_state_of, Bag,
  LimboSlot, drain_claimed_bag,
}
use cro_cos.Core.LimboBags.Words.{bag_tag_of-pack_bag, bag_state_of-pack_bag}

-- `at n` is the epoch at which the node `n` was retired.
abbrev pub Until : (ℕ → ℕ) → ℕ → List ℕ → Type 0
Until at_ epoch [] = Unit
Until at_ epoch (n ∷ nodes) = (at_ n ≤ epoch) × Until at_ epoch nodes

pub Until-later :
    (at_ : ℕ → ℕ) (e e' : ℕ) (nodes : List ℕ) → e ≤ e' → Until at_ e nodes → Until at_ e' nodes
Until-later at_ e e' [] le h = tt
Until-later at_ e e' (n ∷ nodes) le h = (omega (arith, le, h.0), Until-later at_ e e' nodes le h.1)

-- Each node was retired two epochs before this one at least.
abbrev pub Expired : (ℕ → ℕ) → ℕ → List ℕ → Type 0
Expired at_ epoch [] = Unit
Expired at_ epoch (n ∷ nodes) = (at_ n + 2 ≤ epoch) × Expired at_ epoch nodes

pub Expired-of :
    (at_ : ℕ → ℕ) (tag epoch : ℕ) (nodes : List ℕ)
    → tag + 2 ≤ epoch
    → Until at_ tag nodes
    → Expired at_ epoch nodes
Expired-of at_ tag epoch [] gate h = tt
Expired-of at_ tag epoch (n ∷ nodes) gate h =
    (omega (arith, gate, h.0), Expired-of at_ tag epoch nodes gate h.1)

pub Expired-append :
    (at_ : ℕ → ℕ) (epoch : ℕ) (xs ys : List ℕ)
    → Expired at_ epoch xs
    → Expired at_ epoch ys
    → Expired at_ epoch (xs ++ ys)
Expired-append at_ epoch [] ys h h' = h'
Expired-append at_ epoch (x ∷ xs) ys h h' = (h.0, Expired-append at_ epoch xs ys h.1 h')

-- The bag that is open may be pushed into, or be opened.
abbrev pub Usable : BagState → Type 0
Usable bag_free = Unit
Usable bag_open = Unit
Usable bag_sealed = ⊥
Usable bag_claimed = ⊥

pub record BagInv (at_ : ℕ → ℕ) (b : Bag) : Type 0 where
  pub tagged : Until at_ (bag_tag_of b.tag_state) b.head
  pub small : bag_tag_of b.tag_state < 2 ^ 62
  pub emptied : bag_state_of b.tag_state ≡ bag_free → b.head ≡ []

pub record Inv (at_ : ℕ → ℕ) (s : LimboSlot) : Type 0 where
  pub each : (b : ℕ) → BagInv at_ (s.bags b)
  pub usable : Usable (bag_state_of (s.bags s.open_bag_index).tag_state)

-- A bag of these nodes with a word that is packed here.
pub packed-BagInv :
    (at_ : ℕ → ℕ) (nodes : List ℕ) (tag : ℕ) (state : BagState)
    → tag < 2 ^ 62
    → Until at_ tag nodes
    → (state ≡ bag_free → nodes ≡ [])
    → BagInv at_ (record { head = nodes; tag_state = pack_bag tag state })
packed-BagInv at_ nodes tag state small until empty = record {
  tagged = rw (bag_tag_of-pack_bag tag state small) until;
  small = rw (bag_tag_of-pack_bag tag state small) small;
  emptied = rw (bag_state_of-pack_bag tag state) empty;
}

pub drain-Until :
    (at_ : ℕ → ℕ) (epoch budget : ℕ) (nodes : List ℕ)
    → Until at_ epoch nodes
    → Until at_ epoch (drain_claimed_bag budget nodes).ran
      × Until at_ epoch (drain_claimed_bag budget nodes).rest
unfolding drain_claimed_bag
drain-Until at_ epoch zero nodes h = (tt, h)
drain-Until at_ epoch (suc budget) [] h = (tt, tt)
drain-Until at_ epoch (suc budget) (n ∷ nodes) h =
    let d = drain-Until at_ epoch budget nodes h.1 in ((h.0, d.0), d.1)
