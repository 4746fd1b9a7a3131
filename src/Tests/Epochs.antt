-- ===== src/Tests/Epochs.antt =====
-- The theorems on libraries/Core/include/core/rcu/EpochDomain.h at a run in which one thread is in a
-- section while another synchronizes: the epoch advances once, and then the section blocks it.
use cro_cos.Base.{ℕ, zero, suc, ◌≡◌, ◌≢◌, ◌+◌, List, [], ◌∷◌, refl, arith, replicate}
use cro_cos.Core.EpochDomain.{
  Op, read_lock, read_unlock, synchronize, between, advance_load, synchronizing, System, start,
  schedule, run, step, make_active, blocks, is_active, epoch_of,
}
use cro_cos.Core.EpochDomain.GracePeriod.{Stays, synchronize_waits}
use cro_cos.Core.EpochDomain.Return.{NoSection, synchronize_returns}

abbrev calls : ℕ → List Op
calls zero = read_lock ∷ read_unlock ∷ []
calls (suc zero) = synchronize ∷ []
calls (suc (suc t)) = []

-- Thread 0 enters its section, and thread 1 calls `synchronize`.
abbrev entering : List ℕ
entering = 0 ∷ 0 ∷ 0 ∷ 1 ∷ []

abbrev entered_system : System
entered_system = run entering (start 2 calls)

-- Thread 1 loads the epoch, goes round once, and scans again up to the section.
abbrev waiting : List ℕ
waiting = replicate 12 1

one_round : (run waiting entered_system).domain.global_epoch ≡ 1
unfolding run schedule step make_active blocks is_active epoch_of
one_round = refl

held_open : ◌≢◌ {A = ℕ} 1 0
held_open e = omega (arith, e)

entered_system-Stays : Stays 0 waiting entered_system
unfolding run schedule step make_active blocks is_active epoch_of
entered_system-Stays =
    ((
      held_open,
      (
        held_open,
        (
          held_open,
          (
            held_open,
            (
              held_open,
              (
                held_open,
                (
                  held_open,
                  (held_open, (held_open, (held_open, (held_open, (held_open, held_open))))),
                ),
              ),
            ),
          ),
        ),
      ),
    ))

synchronize_waits_example :
    (schedule 1 (run waiting (run entering (start 2 calls)))).threads 1
    ≡ advance_load [] (synchronizing (run entering (start 2 calls)).domain.global_epoch)
unfolding run schedule step make_active blocks is_active epoch_of
synchronize_waits_example =
    synchronize_waits 0 2 calls entering waiting (omega arith) (omega arith) entered_system-Stays 1
      [] refl

-- Thread 0 leaves its section before thread 1 loads the epoch.
abbrev left_system : System
left_system = run (0 ∷ 0 ∷ []) entered_system

left_system-NoSection : NoSection left_system.domain
unfolding run schedule step make_active
left_system-NoSection zero lt = refl
left_system-NoSection (suc zero) lt = refl
left_system-NoSection (suc (suc i)) lt = absurd (omega (arith, lt))

synchronize_returns_example :
    (k : ℕ) × ((run (replicate k 1) left_system).threads 1 ≡ between [])
    × ((run (replicate k 1) left_system).domain.global_epoch ≡ left_system.domain.global_epoch + 2)
unfolding run schedule step make_active
synchronize_returns_example =
    synchronize_returns left_system 1 [] refl (omega arith) left_system-NoSection (omega arith)
