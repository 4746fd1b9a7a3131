-- ===== src/Core/RingBuffer/Moves.antt =====
-- The steps of a thread that change a ring buffer (libraries/Core/include/core/atomic/RingBuffer.h)
-- keep what holds of it: claims, stores to a slot, and the advance of a completion head.
use cro_cos.Base.{
  ℕ, ◌+◌, ◌*◌, ◌/◌, ◌%◌, ◌≤◌, ◌<◌, ◌≡◌, Bool, true, refl, sym, ◌∙◌, arith, inl, inr, lt_cases,
}
use cro_cos.Base.Memory.{write}
use cro_cos.Core.RingBuffer.{
  Ring, Thread, idle, load_write_head, load_limit, claim_write, wait_for_slot, write_slot,
  advance_written, write_done, load_reading_head, load_written_head, claim_read, read_slot,
  advance_read, read_done, refused, limit,
}
use cro_cos.Core.RingBuffer.Tickets.{Tickets}
use cro_cos.Core.RingBuffer.State.{write_ticket, read_ticket, filled, Local, Grows, Inv, Inv-write}
use native.Mathlib.Nat.{div-add-mod, mul-add, mul-le-mul_left}

-- Positions less than a lap apart stand in different slots.
pub same_slot : (c p q : ℕ) → p % c ≡ q % c → p ≤ q → q < p + c → p ≡ q
same_slot c p q e le near = elim (lt_cases (p / c) (q / c)) [
  | inl up ↦
      (let step : c * (p / c + 1) ≤ c * (q / c) = mul-le-mul_left c (omega arith) in
        absurd (omega (arith, e, step, mul-add c (p / c) 1, div-add-mod p c, div-add-mod q c)))
  | inr down ↦
      (let step : c * (q / c) ≤ c * (p / c) = mul-le-mul_left c down in
        omega (arith, e, step, div-add-mod p c, div-add-mod q c))
]

module _ {A : Type 0} where
  -- A write has not filled more slots than it claimed.
  pub filled-le :
      (w : Bool) (r : Ring A) (stream : ℕ → A) (th : Thread A)
      → Local w r stream th
      → filled th ≤ (write_ticket th).count
  filled-le w r stream (wait_for_slot c first n i) h = omega (arith, h.1)
  filled-le w r stream (write_slot c first n i) h = omega (arith, h.1.0)
  filled-le w r stream (advance_written c first n) h = omega arith
  filled-le w r stream idle h = omega arith
  filled-le w r stream (load_write_head c) h = omega arith
  filled-le w r stream (load_limit c first) h = omega arith
  filled-le w r stream (claim_write c first n) h = omega arith
  filled-le w r stream (write_done c first n) h = omega arith
  filled-le w r stream (load_reading_head p want) h = omega arith
  filled-le w r stream (load_written_head p want first) h = omega arith
  filled-le w r stream (claim_read p want first n) h = omega arith
  filled-le w r stream (read_slot first n i out) h = omega arith
  filled-le w r stream (advance_read first n out) h = omega arith
  filled-le w r stream (read_done first n out) h = omega arith
  filled-le w r stream refused h = omega arith

  -- A write that has filled a slot has not published it.
  pub filled_pending : (th : Thread A) → 0 < filled th → (write_ticket th).pending ≡ true
  filled_pending (wait_for_slot c first n i) h = refl
  filled_pending (write_slot c first n i) h = refl
  filled_pending (advance_written c first n) h = refl
  filled_pending idle h = absurd (omega arith)
  filled_pending (load_write_head c) h = absurd (omega arith)
  filled_pending (load_limit c first) h = absurd (omega arith)
  filled_pending (claim_write c first n) h = absurd (omega arith)
  filled_pending (write_done c first n) h = absurd (omega arith)
  filled_pending (load_reading_head p want) h = absurd (omega arith)
  filled_pending (load_written_head p want first) h = absurd (omega arith)
  filled_pending (claim_read p want first n) h = absurd (omega arith)
  filled_pending (read_slot first n i out) h = absurd (omega arith)
  filled_pending (advance_read first n out) h = absurd (omega arith)
  filled_pending (read_done first n out) h = absurd (omega arith)
  filled_pending refused h = absurd (omega arith)

  module _ (w : Bool) (stream : ℕ → A) (r : Ring A) (threads : ℕ → Thread A)
      (v : Inv w stream r threads) (t : ℕ) where
    -- What a thread has filled lies below the claim head.
    pub below_head :
        (u p : ℕ) → p < (write_ticket (threads u)).first + filled (threads u) → p < r.write_head
    below_head u p lt =
        omega (arith, lt, filled-le w r stream (threads u) (v.locals u), v.writes.bounded u)

    -- A step that moves heads, and writes to no slot.
    pub Inv-heads :
        (stream' : ℕ → A) (r' : Ring A) (th' : Thread A)
        → r'.buffer ≡ r.buffer
        → Grows r stream r' stream'
        → Tickets
            (write (λ u. write_ticket (threads u)) t (write_ticket th'))
            r'.written_head
            r'.write_head
        → Tickets
            (write (λ u. read_ticket (threads u)) t (read_ticket th'))
            r'.read_head
            r'.reading_head
        → r'.reading_head ≤ r'.written_head
        → r'.write_head ≤ limit w r' + r'.capacity
        → Local w r' stream' th'
        → ((p : ℕ)
            → r.written_head ≤ p
            → p < r'.written_head
            → (p < r.write_head) × (r.buffer (p % r.capacity) ≡ stream p))
        → ((p : ℕ)
            → (write_ticket th').first ≤ p
            → p < (write_ticket th').first + filled th'
            → (p < r.write_head) × (r.buffer (p % r.capacity) ≡ stream p))
        → Inv w stream' r' (write threads t th')
    Inv-heads stream' r' th' same g ws rs behind within here fresh kept =
        let carried : (p : ℕ)
            → (p < r.write_head) × (r.buffer (p % r.capacity) ≡ stream p)
            → r'.buffer (p % r'.capacity) ≡ stream' p =
          λ p (below, e). rw (same, g.capacity_kept) (e ∙ sym (g.stream_kept p below)) in
        Inv-write w stream stream' r r' threads t th' v g (record {
          writes' = ws;
          reads' = rs;
          behind' = behind;
          within' = within;
          here = here;
          stored' = λ p low high. elim (lt_cases p r.written_head) [
            | inl old ↦
                carried p
                  (omega (arith, v.writes.ordered), v.stored p (omega (arith, g.read_head_up)) old)
            | inr new ↦ carried p (fresh p new high)
          ];
          kept_here = λ p low high. carried p (kept p low high);
          kept_others = λ u p ne low high. carried p (below_head u p high, v.kept u p low high);
        })
