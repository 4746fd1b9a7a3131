-- ===== src/Tests/Treiber.antt =====
-- The theorems on libraries/Core/include/core/atomic/TreiberStack.h at a run in which a pop loads the
-- head, another thread pops both nodes and pushes them again in the same order, and the exchange of the
-- first pop fails although the head is the same node.
use cro_cos.Base.{ℕ, zero, suc, ◌≡◌, ◌⊎◌, none, some, List, [], ◌∷◌, ◌++◌, refl, arith, replicate}
use cro_cos.Core.TreiberStack.{
  Op, push_op, pop_op, pop_load, pop_exchange, System, schedule, run, step,
}
use cro_cos.Core.TreiberStack.Shape.{In, held, IsStack}
use cro_cos.Core.TreiberStack.Effects.{Effect}
use cro_cos.Core.TreiberStack.Linear.{Dealt, DealtNode, after, schedule-Effect, nodes-Kept}
use cro_cos.LibAlloc.Slab.Stack.{Avoids, Distinct}

-- Thread 0 owns the nodes 7 and 8, pushes both, pops both and pushes both again; thread 1 pops.
abbrev calls : ℕ → List Op
calls zero = push_op ∷ push_op ∷ pop_op ∷ pop_op ∷ push_op ∷ push_op ∷ []
calls (suc zero) = pop_op ∷ []
calls (suc (suc t)) = []

abbrev dealt_nodes : ℕ → List ℕ
dealt_nodes zero = 7 ∷ 8 ∷ []
dealt_nodes (suc t) = []

dealt_nodes-Dealt : Dealt dealt_nodes
dealt_nodes-Dealt = record { apart = λ t u x. only_zero t u x; once = λ t. all_once t }
  where
    only_zero : (t u x : ℕ) → In x (dealt_nodes t) → In x (dealt_nodes u) → t ≡ u
    only_zero zero zero x a b = refl
    only_zero zero (suc u) x a b = absurd b
    only_zero (suc t) u x a b = absurd a

    all_once : (t : ℕ) → Distinct (dealt_nodes t)
    all_once zero = (((λ e. absurd (omega arith)), tt), (tt, tt))
    all_once (suc t) = tt

-- Two pushes of four steps, then the pop of thread 1 up to its exchange, then two pops of four steps
-- and two pushes of thread 0.
abbrev contended : List ℕ
contended = replicate 8 0 ++ (1 ∷ 1 ∷ 1 ∷ []) ++ replicate 16 0

before_exchange :
    (after (λ _. none) calls dealt_nodes contended).threads 1 ≡ pop_exchange [] [] 8 2 (some 7)
unfolding run schedule step
before_exchange = refl

same_head : (after (λ _. none) calls dealt_nodes contended).stack.head_ptr ≡ some 8
unfolding run schedule step
same_head = refl

retried : (schedule 1 (after (λ _. none) calls dealt_nodes contended)).threads 1 ≡ pop_load [] []
unfolding run schedule step
retried = refl

schedule-Effect_example :
    (nodes : List ℕ) × (nodes' : List ℕ) × (IsStack
      (after (λ _. none) calls dealt_nodes contended).stack
      nodes)
    × (IsStack (schedule 1 (after (λ _. none) calls dealt_nodes contended)).stack nodes')
    × Effect
        ((after (λ _. none) calls dealt_nodes contended).threads 1)
        ((schedule 1 (after (λ _. none) calls dealt_nodes contended)).threads 1)
        nodes
        nodes'
schedule-Effect_example =
    schedule-Effect (λ _. none) calls dealt_nodes dealt_nodes-Dealt contended 1 (omega arith)

nodes-Kept_example :
    let s : System = after (λ _. none) calls dealt_nodes contended in
    (nodes : List ℕ) × (IsStack s.stack nodes)
    × ((x : ℕ) → DealtNode dealt_nodes x → In x nodes ⊎ ((t : ℕ) × In x (held (s.threads t))))
    × ((t x : ℕ) → In x (held (s.threads t)) → Avoids x nodes)
    × ((t u x : ℕ) → In x (held (s.threads t)) → In x (held (s.threads u)) → t ≡ u)
    × ((t : ℕ) → Distinct (held (s.threads t)))
nodes-Kept_example =
    nodes-Kept (λ _. none) calls dealt_nodes dealt_nodes-Dealt contended (omega arith)
