-- ===== src/Core/TreiberStack/Linear.antt =====
-- Every interleaving of the threads of a `TreiberStack`
-- (libraries/Core/include/core/atomic/TreiberStack.h) from an empty stack on.
use cro_cos.Base.{ℕ, ◌+◌, ◌^◌, ◌≤◌, ◌<◌, ◌≡◌, ◌⊎◌, inr, Option, List, [], ◌∷◌, refl, arith, length}
use cro_cos.Base.Memory.{write_same}
use cro_cos.Core.TreiberStack.{Op, System, start, schedule, run, step}
use cro_cos.Core.TreiberStack.Shape.{In, held, IsStack, Inv}
use cro_cos.Core.TreiberStack.Effects.{Effect, Stepped, step-Stepped}
use cro_cos.LibAlloc.Slab.Stack.{Avoids, Distinct}

-- No node is dealt to two threads, or twice to one.
pub record Dealt (owned : ℕ → List ℕ) : Type 0 where
  pub apart : (t u x : ℕ) → In x (owned t) → In x (owned u) → t ≡ u
  pub once : (t : ℕ) → Distinct (owned t)

abbrev pub DealtNode : (ℕ → List ℕ) → ℕ → Type 0
DealtNode owned x = (t : ℕ) × In x (owned t)

-- The system once the threads have taken the steps of a schedule.
abbrev pub after : (ℕ → Option ℕ) → (ℕ → List Op) → (ℕ → List ℕ) → List ℕ → System
after links ops owned ts = run ts (start links ops owned)

module _ (links : ℕ → Option ℕ) (ops : ℕ → List Op) (owned : ℕ → List ℕ) (dealt : Dealt owned) where
  start-Inv : Inv (DealtNode owned) [] (start links ops owned).stack (start links ops owned).threads
  start-Inv = record {
    linked = record { top = refl; chain = tt; distinct = tt };
    not_shared = dealt.apart;
    not_in_stack = λ t x h. tt;
    not_twice = dealt.once;
    not_lost = λ x is. inr is;
    locals = λ t. tt;
  }

  run-Inv :
      (ts : List ℕ) (s : System) (nodes : List ℕ)
      → Inv (DealtNode owned) nodes s.stack s.threads
      → s.stack.head_tag + length ts < 2 ^ 64
      → (nodes' : List ℕ) × Inv (DealtNode owned) nodes' (run ts s).stack (run ts s).threads
        × ((run ts s).stack.head_tag ≤ s.stack.head_tag + length ts)
  unfolding run schedule
  run-Inv [] s nodes v small = (nodes, v, omega arith)
  run-Inv (t ∷ ts) s nodes v small =
      let next : Stepped (DealtNode owned) nodes s.stack s.threads t (s.threads t)
          (step (s.threads t) s.stack) =
        step-Stepped (DealtNode owned) nodes s.stack s.threads v (omega (arith, small)) t
          (s.threads t) refl in
      let (nodes', v', up) =
        run-Inv ts (schedule t s) next.nodes' next.inv (omega (arith, next.tag_up, small)) in
      (nodes', v', omega (arith, up, next.tag_up))

  -- After any run of fewer than 2 ^ 64 steps the stack is a list of nodes, and whatever step comes
  -- next, of whichever thread, has the effect on that list that the step's call promises: a push that
  -- returns has put its node on top, a pop that returns a node has taken it from the top and owns it,
  -- a pop that returns none found the stack empty, and a step in the middle of a call changes nothing.
  pub schedule-Effect :
      (ts : List ℕ) (t : ℕ)
      → length ts + 1 < 2 ^ 64
      → (nodes : List ℕ) × (nodes' : List ℕ) × (IsStack (after links ops owned ts).stack nodes)
        × (IsStack (schedule t (after links ops owned ts)).stack nodes')
        × Effect
            ((after links ops owned ts).threads t)
            ((schedule t (after links ops owned ts)).threads t)
            nodes
            nodes'
  unfolding schedule
  schedule-Effect ts t short =
      let s : System = after links ops owned ts in
      let (nodes, v, up) = run-Inv ts (start links ops owned) [] start-Inv (omega (arith, short)) in
      let next : Stepped (DealtNode owned) nodes s.stack s.threads t (s.threads t)
          (step (s.threads t) s.stack) =
        step-Stepped (DealtNode owned) nodes s.stack s.threads v (omega (arith, up, short)) t
          (s.threads t) refl in
      (
        nodes,
        next.nodes',
        v.linked,
        next.inv.linked,
        rw (write_same s.threads t t ((step (s.threads t) s.stack).0) refl) next.effect,
      )

  -- After any run of fewer than 2 ^ 64 steps no node is lost, and none has two owners: every node that
  -- was dealt is in the stack or with a thread, no node of a thread is in the stack or with another
  -- thread, and none is twice in the stack or with a thread.
  pub nodes-Kept :
      (ts : List ℕ)
      → length ts < 2 ^ 64
      → let s : System = after links ops owned ts in
        (nodes : List ℕ) × (IsStack s.stack nodes)
        × ((x : ℕ) → DealtNode owned x → In x nodes ⊎ ((t : ℕ) × In x (held (s.threads t))))
        × ((t x : ℕ) → In x (held (s.threads t)) → Avoids x nodes)
        × ((t u x : ℕ) → In x (held (s.threads t)) → In x (held (s.threads u)) → t ≡ u)
        × ((t : ℕ) → Distinct (held (s.threads t)))
  nodes-Kept ts short =
      let (nodes, v, up) = run-Inv ts (start links ops owned) [] start-Inv (omega (arith, short)) in
      (nodes, v.linked, v.not_lost, v.not_in_stack, v.not_shared, v.not_twice)
