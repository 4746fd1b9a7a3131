-- ===== src/Core/RingBuffer/Tickets.antt =====
-- The claims on one pair of heads of `MPMCRingBuffer` (libraries/Core/include/core/atomic/RingBuffer.h):
-- the claim head hands out ranges of positions, and the completion head passes them in their order.
use cro_cos.Base.{
  ℕ, ◌+◌, ◌≤◌, ◌<◌, ◌≡◌, ◌≢◌, ◌⊎◌, inl, inr, Bool, true, false, refl, sym, arith, ==_cases, ◌==◌,
  Bool-cases, lt_cases,
}
use mathlib.Core.Path.{fun_ext}
use cro_cos.Base.Memory.{write, write_same, write_other}

-- The range of positions that a thread claimed; without a claim it is empty.
pub record Ticket : Type 0 where
  pub first : ℕ
  pub count : ℕ
  pub pending : Bool

abbrev pub no_ticket : Ticket
no_ticket = record { first = 0; count = 0; pending = false }

abbrev pub Claims : Ticket → ℕ → Type 0
Claims k p = (k.first ≤ p) × (p < k.first + k.count)

-- The tickets on a completion head `low` and a claim head `high`.
pub record Tickets (of : ℕ → Ticket) (low high : ℕ) : Type 0 where
  pub ordered : low ≤ high
  pub bounded : (t : ℕ) → (of t).first + (of t).count ≤ high
  pub apart : (t u p : ℕ) → Claims (of t) p → Claims (of u) p → t ≡ u
  pub covered : (p : ℕ) → p < high → (t : ℕ) × Claims (of t) p
  pub waiting : (t : ℕ) → (of t).pending ≡ true → 0 < (of t).count → low ≤ (of t).first
  pub passed : (t : ℕ) → (of t).pending ≡ false → (of t).first + (of t).count ≤ low

-- A statement on all threads after one of them moved: on the one that moved, and on the others.
pub write-all {ℓ κ} :
    {A : Type ℓ} (P : ℕ → A → Type κ) (m : ℕ → A) (t : ℕ) (v : A)
    → P t v
    → ((u : ℕ) → t ≢ u → P u (m u))
    → (u : ℕ) → P u (write m t v u)
write-all P m t v here others u = elim (==_cases t u) [
  | inl e ↦ rw (write_same m t u v e) (rw e at here)
  | inr ne ↦ rw (write_other m t u v ne) (others u ne)
]

pub map-write {ℓ κ} :
    {A : Type ℓ} {B : Type κ} (f : A → B) (m : ℕ → A) (t : ℕ) (v : A) (u : ℕ)
    → f (write m t v u) ≡ write (λ w. f (m w)) t (f v) u
map-write f m t v u = elim (Bool-cases (t == u)) [ inl e ↦ rw e refl | inr e ↦ rw e refl ]

pub Tickets-ext :
    (of of' : ℕ → Ticket) (low high : ℕ)
    → ((u : ℕ) → of' u ≡ of u)
    → Tickets of low high
    → Tickets of' low high
Tickets-ext of of' low high same k = rw (fun_ext same) k

pub Tickets-same :
    (of : ℕ → Ticket) (low high t : ℕ) (x : Ticket)
    → of t ≡ x
    → Tickets of low high
    → Tickets (write of t x) low high
Tickets-same of low high t x e k =
    Tickets-ext of (write of t x) low high
      (λ u. write-all (λ v y. y ≡ of v) of t x (sym e) (λ _ _. refl) u) k

-- The ticket `x` of thread `t` beside the tickets of the others.
pub record Fits (of : ℕ → Ticket) (low high : ℕ) (t : ℕ) (x : Ticket) : Type 0 where
  pub ordered : low ≤ high
  pub bounded : x.first + x.count ≤ high
  pub apart : (u p : ℕ) → t ≢ u → Claims x p → ¬ Claims (of u) p
  pub covered : (p : ℕ) → p < high → Claims x p ⊎ ((u : ℕ) × (t ≢ u) × Claims (of u) p)
  pub waiting : x.pending ≡ true → 0 < x.count → low ≤ x.first
  pub passed : x.pending ≡ false → x.first + x.count ≤ low
  pub others : (u : ℕ) → t ≢ u → (of u).pending ≡ true → 0 < (of u).count → low ≤ (of u).first

Tickets-write :
    (of : ℕ → Ticket) (low high low' high' t : ℕ) (x : Ticket)
    → Tickets of low high
    → low ≤ low'
    → high ≤ high'
    → Fits of low' high' t x
    → Tickets (write of t x) low' high'
Tickets-write of low high low' high' t x k up_low up_high f = record {
  ordered = f.ordered;
  bounded =
      write-all (λ u y. y.first + y.count ≤ high') of t x f.bounded
        (λ u ne. omega (arith, k.bounded u));
  apart =
      write-all (λ u y. (v p : ℕ) → Claims y p → Claims (write of t x v) p → u ≡ v) of t x
        (λ v p mine.
          write-all (λ w y. Claims y p → t ≡ w) of t x (λ _. refl)
            (λ w ne theirs. absurd (f.apart w p ne mine theirs)) v)
        (λ u ne v p theirs.
          write-all (λ w y. Claims y p → u ≡ w) of t x (λ mine. absurd (f.apart u p ne mine theirs))
            (λ w _ c. k.apart u w p theirs c) v);
  covered = λ p lt. elim (f.covered p lt) [
    | inl mine ↦ (t, rw (write_same of t t x refl) mine)
    | inr (u, ne, c) ↦ (u, rw (write_other of t u x ne) c)
  ];
  waiting =
      write-all (λ u y. y.pending ≡ true → 0 < y.count → low' ≤ y.first) of t x f.waiting f.others;
  passed =
      write-all (λ u y. y.pending ≡ false → y.first + y.count ≤ low') of t x f.passed
        (λ u ne e. omega (arith, k.passed u e));
}

-- Who claimed a position, seen from thread `t`.
covered_by :
    (of : ℕ → Ticket) (low high t p : ℕ)
    → Tickets of low high
    → p < high
    → Claims (of t) p ⊎ ((u : ℕ) × (t ≢ u) × Claims (of u) p)
covered_by of low high t p k lt =
    let (u, c) = k.covered p lt in
    elim (==_cases t u) [ inl e ↦ inl (rw (← e) at c) | inr ne ↦ inr (u, ne, c) ]

module _ (of : ℕ → Ticket) (low high : ℕ) (k : Tickets of low high) (t : ℕ) where
  -- A claim hands out the next positions to a thread without a claim.
  pub Tickets-claim :
      (n : ℕ)
      → of t ≡ no_ticket
      → Tickets (write of t (record { first = high; count = n; pending = true })) low (high + n)
  Tickets-claim n free =
      Tickets-write of low high low (high + n) t
        (record { first = high; count = n; pending = true }) k (omega arith) (omega arith)
        (record {
          ordered = omega (arith, k.ordered);
          bounded = omega arith;
          apart = λ u p ne mine theirs. omega (arith, k.bounded u);
          covered = λ p lt. elim (lt_cases p high) [
            | inl old ↦ elim (covered_by of low high t p k old) [
              | inl c ↦ absurd (omega (arith, rw free at c))
              | inr other ↦ inr other
            ]
            | inr fresh ↦ inl (omega arith)
          ];
          waiting = λ _ _. k.ordered;
          passed = λ e. cc;
          others = λ u ne. k.waiting u;
        })

  -- The completion head passes the claim that starts there.
  pub Tickets-advance :
      (n : ℕ)
      → of t ≡ record { first = low; count = n; pending = true }
      → Tickets (write of t (record { first = low; count = n; pending = false })) (low + n) high
  Tickets-advance n now =
      Tickets-write of low high (low + n) high t
        (record { first = low; count = n; pending = false }) k (omega arith) (omega arith)
        (record {
          ordered = rw now at (k.bounded t);
          bounded = rw now at (k.bounded t);
          apart = λ u p ne mine theirs. ne (k.apart t u p (rw now mine) theirs);
          covered = λ p lt. elim (covered_by of low high t p k lt) [
            | inl c ↦ inl (rw now at c)
            | inr other ↦ inr other
          ];
          waiting = λ e. cc;
          passed = λ _. omega arith;
          others = λ u ne pending some_left.
              let after = k.waiting u pending some_left in
              elim (lt_cases (of u).first (low + n)) [
                | inl inside ↦
                    absurd (ne (k.apart t u (of u).first (rw now (omega arith)) (omega arith)))
                | inr beyond ↦ beyond
              ];
        })

  -- The completion head has passed the claim already.
  pub Tickets-late :
      (first n : ℕ)
      → of t ≡ record { first = first; count = n; pending = true }
      → first + n ≤ low
      → Tickets (write of t (record { first = first; count = n; pending = false })) low high
  Tickets-late first n now late =
      Tickets-write of low high low high t (record { first = first; count = n; pending = false }) k
        (omega arith) (omega arith)
        (record {
          ordered = k.ordered;
          bounded = rw now at (k.bounded t);
          apart = λ u p ne mine theirs. ne (k.apart t u p (rw now mine) theirs);
          covered = λ p lt. elim (covered_by of low high t p k lt) [
            | inl c ↦ inl (rw now at c)
            | inr other ↦ inr other
          ];
          waiting = λ e. cc;
          passed = λ _. late;
          others = λ u ne. k.waiting u;
        })

-- The oldest position that is not passed is where a pending claim starts.
pub Tickets-oldest :
    (of : ℕ → Ticket) (low high : ℕ)
    → Tickets of low high
    → low < high
    → (u : ℕ) × ((of u).pending ≡ true) × ((of u).first ≡ low) × (0 < (of u).count)
Tickets-oldest of low high k lt =
    let (u, c) = k.covered low lt in
    elim (Bool-cases (of u).pending) [
      | inl pending ↦ (u, pending, omega (arith, k.waiting u pending (omega arith)), omega arith)
      | inr done ↦ absurd (omega (arith, k.passed u done))
    ]
