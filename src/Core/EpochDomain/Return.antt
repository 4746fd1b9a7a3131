-- ===== src/Core/EpochDomain/Return.antt =====
-- `synchronize` of an `EpochDomain` (libraries/Core/include/core/rcu/EpochDomain.h) returns when no
-- section is open: each round of its loop advances the epoch.
use cro_cos.Base.{
  ℕ, zero, suc, ◌+◌, ◌^◌, ◌<◌, ◌≡◌, List, refl, arith, ap, ◌∙◌, lt→ltb, ltb_of_le, ==_of_eq,
  replicate, false,
}
use cro_cos.Base.Memory.{write_same}
use cro_cos.Core.EpochDomain.{
  EpochDomain, Op, Caller, synchronizing, Thread, between, advance_load, own_slot, scan, exchange,
  synchronize_load, synchronize_check, blocks, return_to, step, System, schedule, run,
}
use cro_cos.Core.EpochDomain.Words.{blocks-inactive}
use cro_cos.LibAlloc.Pointers.{add64}

-- A thread and the domain once it has taken `k` steps alone.
alone : ℕ → ℕ → Thread × EpochDomain → Thread × EpochDomain
alone t zero x = x
alone t (suc k) x = alone t k (step t x.0 x.1)

Reaches : ℕ → Thread × EpochDomain → Thread × EpochDomain → Type 0
Reaches t x y = (k : ℕ) × (alone t k x ≡ y)

further : (t k : ℕ) (x y z : Thread × EpochDomain) → alone t k x ≡ y → Reaches t y z → Reaches t x z
unfolding alone Reaches
further t zero x y z e r = (r.0, ap (alone t r.0) e ∙ r.1)
further t (suc k) x y z e r =
    let rest : Reaches t (step t x.0 x.1) z = further t k (step t x.0 x.1) y z e r in
    (suc rest.0, rest.1)

trans : (t : ℕ) (x y z : Thread × EpochDomain) → Reaches t x y → Reaches t y z → Reaches t x z
unfolding Reaches
trans t x y z r r' = further t r.0 x y z r.1 r'

one : (t : ℕ) (x y : Thread × EpochDomain) → step t x.0 x.1 ≡ y → Reaches t x y
unfolding Reaches alone
one t x y e = (1, e)

-- No section is open on any slot.
abbrev pub NoSection : EpochDomain → Type 0
NoSection d = (i : ℕ) → i < d.slot_count → (d.slots i).state ≡ 0

module _ (t : ℕ) (ops : List Op) where
  quiet : (d : EpochDomain) (e i : ℕ) → (d.slots i).state ≡ 0 → blocks (d.slots i).state e ≡ false
  quiet d e i none = rw none (blocks-inactive e)

  scans :
      (n : ℕ) (d : EpochDomain) (k : Caller) (e j : ℕ)
      → NoSection d
      → j + n ≡ d.slot_count
      → Reaches t (scan ops k e j, d) (exchange ops k e, d)
  unfolding step
  scans zero d k e j none left =
      one t (scan ops k e j, d) (exchange ops k e, d)
        (rw (ltb_of_le j d.slot_count (omega (arith, left))) refl)
  scans (suc n) d k e j none left =
      trans t (scan ops k e j, d) (scan ops k e (j + 1), d) (exchange ops k e, d)
        (one t (scan ops k e j, d) (scan ops k e (j + 1), d)
          (rw
            (
              lt→ltb j d.slot_count (omega (arith, left)),
              quiet d e j (none j (omega (arith, left))),
            )
            refl))
        (scans n d k e (j + 1) none (omega (arith, left)))

  exchanges :
      (d : EpochDomain) (k : Caller)
      → d.global_epoch + 1 < 2 ^ 64
      → step t (exchange ops k d.global_epoch) d
        ≡ (return_to ops k, record d { global_epoch = d.global_epoch + 1 })
  unfolding step
  exchanges d k small =
      let next : add64 d.global_epoch 1 ≡ d.global_epoch + 1 = omega (arith, small) in
      rw (==_of_eq d.global_epoch d.global_epoch refl, next) refl

  -- `tryAdvance` advances the epoch.
  advances :
      (d : EpochDomain) (k : Caller)
      → t < d.slot_count
      → NoSection d
      → d.global_epoch + 1 < 2 ^ 64
      → Reaches t
          (advance_load ops k, d)
          (return_to ops k, record d { global_epoch = d.global_epoch + 1 })
  unfolding step
  advances d k lt none small =
      let e : ℕ = d.global_epoch in
      let next : EpochDomain = record d { global_epoch = d.global_epoch + 1 } in
      trans t (advance_load ops k, d) (own_slot ops k e, d) (return_to ops k, next)
        (one t (advance_load ops k, d) (own_slot ops k e, d) refl)
        (trans t (own_slot ops k e, d) (scan ops k e 0, d) (return_to ops k, next)
          (one t (own_slot ops k e, d) (scan ops k e 0, d) (rw (quiet d e t (none t lt)) refl))
          (trans t (scan ops k e 0, d) (exchange ops k e, d) (return_to ops k, next)
            (scans d.slot_count d k e 0 none (omega arith))
            (one t (exchange ops k e, d) (return_to ops k, next) (exchanges d k small))))

  -- A round of the loop of `synchronize`.
  laps :
      (d : EpochDomain) (e0 : ℕ)
      → t < d.slot_count
      → NoSection d
      → d.global_epoch < e0 + 2
      → e0 + 2 < 2 ^ 64
      → Reaches t
          (synchronize_check ops e0, d)
          (synchronize_check ops e0, record d { global_epoch = d.global_epoch + 1 })
  unfolding step
  laps d e0 lt none behind small =
      let next : EpochDomain = record d { global_epoch = d.global_epoch + 1 } in
      trans t (synchronize_check ops e0, d) (advance_load ops (synchronizing e0), d)
        (synchronize_check ops e0, next)
        (one t (synchronize_check ops e0, d) (advance_load ops (synchronizing e0), d)
          (rw (lt→ltb d.global_epoch (add64 e0 2) (omega (arith, behind, small))) refl))
        (advances d (synchronizing e0) lt none (omega (arith, behind, small)))

  leaves :
      (d : EpochDomain) (e0 : ℕ)
      → d.global_epoch ≡ e0 + 2
      → e0 + 2 < 2 ^ 64
      → Reaches t (synchronize_check ops e0, d) (between ops, d)
  unfolding step
  leaves d e0 there small =
      one t (synchronize_check ops e0, d) (between ops, d)
        (rw (ltb_of_le d.global_epoch (add64 e0 2) (omega (arith, there, small))) refl)

  returns :
      (d : EpochDomain)
      → t < d.slot_count
      → NoSection d
      → d.global_epoch + 2 < 2 ^ 64
      → Reaches t
          (synchronize_load ops, d)
          (between ops, record d { global_epoch = d.global_epoch + 1 + 1 })
  unfolding step
  returns d lt none small =
      let e0 : ℕ = d.global_epoch in
      let d1 : EpochDomain = record d { global_epoch = d.global_epoch + 1 } in
      let d2 : EpochDomain = record d { global_epoch = d.global_epoch + 1 + 1 } in
      trans t (synchronize_load ops, d) (synchronize_check ops e0, d) (between ops, d2)
        (one t (synchronize_load ops, d) (synchronize_check ops e0, d) refl)
        (trans t (synchronize_check ops e0, d) (synchronize_check ops e0, d1) (between ops, d2)
          (laps d e0 lt none (omega arith) small)
          (trans t (synchronize_check ops e0, d1) (synchronize_check ops e0, d2) (between ops, d2)
            (laps d1 e0 lt none (omega arith) small) (leaves d2 e0 (omega arith) small)))

run-alone :
    (k t : ℕ) (s : System) (x : Thread × EpochDomain)
    → (s.threads t ≡ x.0) × (s.domain ≡ x.1)
    → ((run (replicate k t) s).threads t ≡ (alone t k x).0)
      × ((run (replicate k t) s).domain ≡ (alone t k x).1)
unfolding run schedule alone
run-alone zero t s x e = e
run-alone (suc k) t s x e =
    let same : step t (s.threads t) s.domain ≡ step t x.0 x.1 = rw (e.0, e.1) refl in
    run-alone k t (schedule t s) (step t x.0 x.1) (
      write_same s.threads t t ((step t (s.threads t) s.domain).0) refl ∙ ap (λ y. y.0) same,
      ap (λ y. y.1) same,
    )

-- Let thread `t`, whose slot is one of the domain's, be at the start of a `synchronize`, in any state in
-- which no section is open, with an epoch that is at least 3 below 2 ^ 64. If it runs alone from there, it
-- returns after some number of steps, and the epoch has advanced by two.
pub synchronize_returns :
    (s : System) (t : ℕ) (rest : List Op)
    → s.threads t ≡ synchronize_load rest
    → t < s.domain.slot_count
    → NoSection s.domain
    → s.domain.global_epoch + 2 < 2 ^ 64
    → (k : ℕ) × ((run (replicate k t) s).threads t ≡ between rest)
      × ((run (replicate k t) s).domain.global_epoch ≡ s.domain.global_epoch + 2)
unfolding Reaches
synchronize_returns s t rest e lt none small =
    let r : Reaches t (synchronize_load rest, s.domain)
        (between rest, record s.domain { global_epoch = s.domain.global_epoch + 1 + 1 }) =
      returns t rest s.domain lt none small in
    let same : ((run (replicate r.0 t) s).threads t
          ≡ (alone t r.0 (synchronize_load rest, s.domain)).0)
        × ((run (replicate r.0 t) s).domain ≡ (alone t r.0 (synchronize_load rest, s.domain)).1) =
      run-alone r.0 t s (synchronize_load rest, s.domain) (e, refl) in
    let two : s.domain.global_epoch + 1 + 1 ≡ s.domain.global_epoch + 2 = omega arith in
    (
      r.0,
      same.0 ∙ ap (λ y. y.0) r.1,
      ap EpochDomain.global_epoch same.1 ∙ ap (λ y. (y.1).global_epoch) r.1 ∙ two,
    )
