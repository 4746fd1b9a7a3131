-- ===== src/Core/LimboBags/Words.antt =====
-- The word of tag and state of a limbo bag (libraries/Core/include/core/rcu/EpochDomain.h).
use cro_cos.Base.{ℕ, ◌+◌, ◌*◌, ◌%◌, ◌^◌, ◌<◌, ◌≡◌, refl, ap, ◌∙◌, arith}
use cro_cos.Core.LimboBags.{
  BagState, bag_free, bag_open, bag_sealed, bag_claimed, code, decode, pack_bag, bag_tag_of,
  bag_state_of,
}

code_small : (state : BagState) → code state < 4
code_small bag_free = omega arith
code_small bag_open = omega arith
code_small bag_sealed = omega arith
code_small bag_claimed = omega arith

decode-code : (state : BagState) → decode (code state) ≡ state
decode-code bag_free = refl
decode-code bag_open = refl
decode-code bag_sealed = refl
decode-code bag_claimed = refl

pub bag_tag_of-pack_bag :
    (tag : ℕ) (state : BagState) → tag < 2 ^ 62 → bag_tag_of (pack_bag tag state) ≡ tag
unfolding bag_tag_of pack_bag
bag_tag_of-pack_bag tag state small = omega (arith, small, code_small state)

pub bag_state_of-pack_bag : (tag : ℕ) (state : BagState) → bag_state_of (pack_bag tag state) ≡ state
unfolding bag_state_of pack_bag
bag_state_of-pack_bag tag state =
    let low : (tag * 4 % 2 ^ 64 + code state) % 4 ≡ code state = omega (arith, code_small state) in
    ap decode low ∙ decode-code state
