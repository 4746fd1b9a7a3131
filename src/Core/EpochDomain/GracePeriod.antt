-- ===== src/Core/EpochDomain/GracePeriod.antt =====
-- Grace periods of an `EpochDomain` (libraries/Core/include/core/rcu/EpochDomain.h): while a section
-- stays open, the epoch advances at most once, so that `synchronize` does not return.
use cro_cos.Base.{
  ℕ, suc, ◌+◌, ◌^◌, ◌≤◌, ◌<◌, ◌≡◌, ◌≢◌, List, [], ◌∷◌, refl, arith, lt→ltb, ap, ◌∙◌, length,
}
use cro_cos.Base.Memory.{write_same}
use cro_cos.Core.EpochDomain.{
  Op, synchronizing, advance_load, synchronize_check, step, System, start, schedule, run,
}
use cro_cos.Core.EpochDomain.Shape.{Inv}
use cro_cos.LibAlloc.Pointers.{add64}
use cro_cos.Core.EpochDomain.Invariant.{Stepped, step-Stepped}

-- The section that is open on the slot is open in every state of the run.
abbrev pub Stays : ℕ → List ℕ → System → Type 0
Stays i [] s = (s.domain.slots i).state ≢ 0
Stays i (t ∷ ts) s = ((s.domain.slots i).state ≢ 0) × Stays i ts (schedule t s)

Stays-now : (i : ℕ) (ts : List ℕ) (s : System) → Stays i ts s → (s.domain.slots i).state ≢ 0
Stays-now i [] s busy = busy
Stays-now i (t ∷ ts) s busy = busy.0

run-Inv :
    (i most entered : ℕ) (ts : List ℕ) (s : System)
    → Inv i most entered s.domain s.threads
    → most + length ts < 2 ^ 62
    → (now : ℕ) × Inv i (most + length ts) now (run ts s).domain (run ts s).threads
unfolding run schedule
run-Inv i most entered [] s v small = let e : most + 0 ≡ most = omega arith in (entered, rw e v)
run-Inv i most entered (t ∷ ts) s v small =
    let next : Stepped i most entered s.domain s.threads t (step t (s.threads t) s.domain) =
      step-Stepped i most entered s.domain s.threads v (omega (arith, small)) t (s.threads t)
        refl in
    let more : most + suc (length ts) ≡ most + 1 + length ts = omega arith in
    rw more (run-Inv i (most + 1) next.entered' ts (schedule t s) next.inv (omega (arith, small)))

run-Stays :
    (i most entered : ℕ) (ts : List ℕ) (s : System)
    → Inv i most entered s.domain s.threads
    → most + length ts < 2 ^ 62
    → Stays i ts s
    → (run ts s).domain.global_epoch ≤ entered + 1
unfolding run schedule
run-Stays i most entered [] s v small busy = (v.open_section busy).pinned
run-Stays i most entered (t ∷ ts) s v small busy =
    let next : Stepped i most entered s.domain s.threads t (step t (s.threads t) s.domain) =
      step-Stepped i most entered s.domain s.threads v (omega (arith, small)) t (s.threads t)
        refl in
    rw (next.same_section busy.0) at (
      run-Stays i (most + 1) next.entered' ts (schedule t s) next.inv (omega (arith, small)) busy.1)

start-Inv :
    (i slot_count : ℕ) (ops : ℕ → List Op)
    → i < slot_count
    → Inv i 0 0 (start slot_count ops).domain (start slot_count ops).threads
start-Inv i slot_count ops lt = record {
  in_range = lt;
  few_epochs = omega arith;
  few_sections = omega arith;
  open_section = λ busy. absurd (busy refl);
  own = λ none. refl;
  seen = λ t. tt;
}

-- A thread that waits for an epoch that is not there yet goes round again.
waits_on :
    (s : System) (t e0 : ℕ) (rest : List Op)
    → s.threads t ≡ synchronize_check rest e0
    → s.domain.global_epoch ≤ e0 + 1
    → e0 < 2 ^ 62
    → (schedule t s).threads t ≡ advance_load rest (synchronizing e0)
unfolding schedule step
waits_on s t e0 rest eq behind small =
    write_same s.threads t t ((step t (s.threads t) s.domain).0) refl
    ∙ ap (λ x. (step t x s.domain).0) eq
    ∙ rw (lt→ltb s.domain.global_epoch (add64 e0 2) (omega (arith, behind, small))) refl

module _ (i slot_count : ℕ) (ops : ℕ → List Op) (ts ts' : List ℕ) (lt : i < slot_count)
    (short : length ts + length ts' < 2 ^ 62)
    (stays : Stays i ts' (run ts (start slot_count ops))) where
  -- While a section stays open, the epoch advances at most once.
  epoch_pinned :
      (run ts' (run ts (start slot_count ops))).domain.global_epoch
        ≤ (run ts (start slot_count ops)).domain.global_epoch + 1
      × (run ts (start slot_count ops)).domain.global_epoch < 2 ^ 62
  epoch_pinned =
      let s : System = run ts (start slot_count ops) in
      let before : (now : ℕ) × Inv i (0 + length ts) now s.domain s.threads =
        run-Inv i 0 0 ts (start slot_count ops) (start-Inv i slot_count ops lt)
          (omega (arith, short)) in
      let after : (run ts' s).domain.global_epoch ≤ before.0 + 1 =
        run-Stays i (0 + length ts) before.0 ts' s before.1 (omega (arith, short)) stays in
      (
        omega (arith, after, (before.1.open_section (Stays-now i ts' s stays)).reached),
        omega (arith, before.1.few_epochs, short),
      )

  -- A run from a new domain has come to a state, and from there a section stays open on slot `i` in
  -- every state of a further run. Then a `synchronize` that loaded its epoch in the first state, and that
  -- stands before its loop's test at the end, does not return: it goes round once more. The two runs
  -- together have fewer than 2 ^ 62 steps.
  pub synchronize_waits :
      (t : ℕ) (rest : List Op)
      → (run ts' (run ts (start slot_count ops))).threads t
        ≡ synchronize_check rest (run ts (start slot_count ops)).domain.global_epoch
      → (schedule t (run ts' (run ts (start slot_count ops)))).threads t
        ≡ advance_load rest (synchronizing (run ts (start slot_count ops)).domain.global_epoch)
  synchronize_waits t rest eq =
      waits_on (run ts' (run ts (start slot_count ops))) t
        (run ts (start slot_count ops)).domain.global_epoch rest eq epoch_pinned.0 epoch_pinned.1
