-- ===== src/Core/EpochDomain/Words.antt =====
-- The state word of a slot (libraries/Core/include/core/rcu/EpochDomain.h): the flag and the epoch come
-- out as they went in.
use cro_cos.Base.{ℕ, ◌+◌, ◌*◌, ◌%◌, ◌^◌, ◌<◌, ◌≡◌, ◌≢◌, true, false, refl, arith, ==_of_ne}
use cro_cos.Core.EpochDomain.{make_active, is_active, epoch_of, blocks}

pub is_active-make_active : (e : ℕ) → is_active (make_active e) ≡ true
unfolding is_active make_active
is_active-make_active e =
    let odd : (e * 2 % 2 ^ 64 + 1) % 2 ≢ 0 = omega arith in
    rw (==_of_ne ((e * 2 % 2 ^ 64 + 1) % 2) 0 odd) refl

pub epoch_of-make_active : (e : ℕ) → e < 2 ^ 63 → epoch_of (make_active e) ≡ e
unfolding epoch_of make_active
epoch_of-make_active e small = omega arith

pub is_active-inactive : is_active 0 ≡ false
unfolding is_active
is_active-inactive = refl

-- A section that was entered at an older epoch stops the scan.
pub blocks-make_active :
    (e scanned : ℕ) → e < 2 ^ 63 → e ≢ scanned → blocks (make_active e) scanned ≡ true
unfolding blocks
blocks-make_active e scanned small ne =
    let other : epoch_of (make_active e) ≢ scanned =
      λ same. ne (omega (arith, same, epoch_of-make_active e small)) in
    rw (is_active-make_active e, ==_of_ne (epoch_of (make_active e)) scanned other) refl

pub blocks-inactive : (scanned : ℕ) → blocks 0 scanned ≡ false
unfolding blocks is_active
blocks-inactive scanned = refl
