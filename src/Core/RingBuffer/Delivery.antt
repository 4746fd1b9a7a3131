-- ===== src/Core/RingBuffer/Delivery.antt =====
-- What `MPMCRingBuffer` (libraries/Core/include/core/atomic/RingBuffer.h) delivers, whatever the order
-- in which its threads run, if all writes check against the same head: every item once, in the order of
-- the positions that the writes claimed.
use cro_cos.Base.{
  ℕ, zero, suc, ◌+◌, ◌-◌, ◌≤◌, ◌<◌, ◌≡◌, Bool, false, some, List, refl, sym, ap, ◌∙◌, arith, inl,
  inr, length, get_elem?, Bool-cases,
}
use cro_cos.Base.Memory.{window}
use cro_cos.Core.RingBuffer.{
  WriteCall, Thread, idle, load_write_head, load_limit, claim_write, wait_for_slot, write_slot,
  advance_written, write_done, load_reading_head, load_written_head, claim_read, read_slot,
  advance_read, read_done, refused, System, Call, start, run, limit,
}
use cro_cos.Core.RingBuffer.Tickets.{Claims}
use cro_cos.Core.RingBuffer.State.{write_ticket, read_ticket, Writes, Inv}
use cro_cos.Core.RingBuffer.Reach.{OfKind, ShortRun, reached}

module _ {A : Type 0} where
  -- The system once the threads have taken the steps of a schedule.
  abbrev pub after : (ℕ → A) → ℕ → (ℕ → Call A) → List ℕ → System A
  after storage capacity calls ts = run ts (start storage capacity calls)

  -- A claim that is no longer pending is that of a write that has returned.
  write_returned :
      (th : Thread A) (p : ℕ)
      → (write_ticket th).pending ≡ false
      → Claims (write_ticket th) p
      → (c : WriteCall A) × (first : ℕ) × (n : ℕ) × (th ≡ write_done c first n)
  write_returned (write_done c first n) p e h = (c, first, n, refl)
  write_returned (wait_for_slot c first n i) p e h = cc
  write_returned (write_slot c first n i) p e h = cc
  write_returned (advance_written c first n) p e h = cc
  write_returned idle p e h = absurd (omega arith)
  write_returned (load_write_head c) p e h = absurd (omega arith)
  write_returned (load_limit c first) p e h = absurd (omega arith)
  write_returned (claim_write c first n) p e h = absurd (omega arith)
  write_returned (load_reading_head q want) p e h = absurd (omega arith)
  write_returned (load_written_head q want first) p e h = absurd (omega arith)
  write_returned (claim_read q want first n) p e h = absurd (omega arith)
  write_returned (read_slot first n i out) p e h = absurd (omega arith)
  write_returned (advance_read first n out) p e h = absurd (omega arith)
  write_returned (read_done first n out) p e h = absurd (omega arith)
  write_returned refused p e h = absurd (omega arith)

  get_elem?-window :
      (m : ℕ → A) (first n i : ℕ) → i < n → get_elem? (window m first n) i ≡ some (m (first + i))
  get_elem?-window m first zero i lt = absurd (omega arith)
  get_elem?-window m first (suc n) zero lt = ap (λ p. some (m p)) (omega arith)
  get_elem?-window m first (suc n) (suc i) lt =
      get_elem?-window m (suc first) n i (omega arith) ∙ ap (λ p. some (m p)) (omega arith)

  length-window : (m : ℕ → A) (first n : ℕ) → length (window m first n) ≡ n
  length-window m first zero = refl
  length-window m first (suc n) = ap suc (length-window m (suc first) n)

  -- The item at a position: a write that has returned claimed the position for it.
  pub record WrittenAt (s : System A) (p : ℕ) (item : A) : Type 0 where
    pub writer : ℕ
    pub call : WriteCall A
    pub first : ℕ
    pub count : ℕ
    pub index : ℕ
    pub returned : s.threads writer ≡ write_done call first count
    pub in_claim : index < count
    pub position : first + index ≡ p
    pub given : call.items index ≡ item

  published :
      (w : Bool) (stream : ℕ → A) (s : System A) (p : ℕ)
      → Inv w stream s.ring s.threads
      → p < s.ring.written_head
      → WrittenAt s p (stream p)
  published w stream s p v lt =
      let (u, claims) = v.writes.covered p (omega (arith, v.writes.ordered)) in
      let over : (write_ticket (s.threads u)).pending ≡ false =
        elim (Bool-cases (write_ticket (s.threads u)).pending) [
          | inl pending ↦ absurd (omega (arith, claims, v.writes.waiting u pending (omega arith)))
          | inr done ↦ done
        ] in
      let (c, first, n, e) = write_returned (s.threads u) p over claims in
      let h : Writes w s.ring stream c first n = rw e at (v.locals u) in
      let range : Claims (write_ticket (write_done c first n)) p = rw e at claims in
      let place : first + (p - first) ≡ p = omega (arith, range) in
      record {
        writer = u;
        call = c;
        first = first;
        count = n;
        index = p - first;
        returned = e;
        in_claim = omega (arith, range);
        position = place;
        given = sym (h.agrees (p - first) (omega (arith, range))) ∙ ap stream place;
      }

  module _ (w : Bool) (storage : ℕ → A) (capacity : ℕ) (calls : ℕ → Call A)
      (some_capacity : 0 < capacity) (kind : OfKind w calls) (ts : List ℕ)
      (short : ShortRun capacity ts) where
    -- In a ring of a capacity above 0, whose writes all check against `readingHead` or all against
    -- `readHead` (`bulkWrite` is not mixed with the other writes), after a run of so few steps that
    -- one more than their number, times the capacity, is below 2 ^ 64: a read that returned has as
    -- many items as it claimed positions, and each of them is the item that a write, which has
    -- returned too, put at the position.
    pub read-Delivered :
        (t first n : ℕ) (out : List A)
        → (after storage capacity calls ts).threads t ≡ read_done first n out
        → (length out ≡ n)
          × ((i : ℕ)
              → i < n
              → (item : A) × (get_elem? out i ≡ some item)
                × WrittenAt (after storage capacity calls ts) (first + i) item)
    read-Delivered t first n out e =
        let (stream, v, _) = reached w storage capacity calls some_capacity kind ts short in
        let whole : out ≡ window stream first n = rw e at (v.locals t) in
        let in_range : first + n ≤ (after storage capacity calls ts).ring.reading_head =
          rw e at (v.reads.bounded t) in
        (
          rw whole (length-window stream first n),
          λ i lt. (
            stream (first + i),
            rw whole (get_elem?-window stream first n i lt),
            published w stream (after storage capacity calls ts) (first + i) v
                (omega (arith, v.behind)),
          ),
        )

    -- In a ring of a capacity above 0, whose writes all check against `readingHead` or all against
    -- `readHead` (`bulkWrite` is not mixed with the other writes), after a run of so few steps that
    -- one more than their number, times the capacity, is below 2 ^ 64: no position is claimed twice, by writes or by reads, and none is left out: every position below
    -- the head that hands them out is claimed. The read head is the least, then the reading head, the
    -- written head and the write head, which is at most the capacity beyond the head that the writes
    -- check against.
    pub Claims-Once :
        let s : System A = after storage capacity calls ts in
        ((t u p : ℕ)
          → Claims (write_ticket (s.threads t)) p
          → Claims (write_ticket (s.threads u)) p
          → t ≡ u)
        × ((t u p : ℕ)
            → Claims (read_ticket (s.threads t)) p
            → Claims (read_ticket (s.threads u)) p
            → t ≡ u)
        × ((p : ℕ) → p < s.ring.write_head → (t : ℕ) × Claims (write_ticket (s.threads t)) p)
        × ((p : ℕ) → p < s.ring.reading_head → (t : ℕ) × Claims (read_ticket (s.threads t)) p)
        × (s.ring.read_head ≤ s.ring.reading_head)
        × (s.ring.reading_head ≤ s.ring.written_head)
        × (s.ring.written_head ≤ s.ring.write_head)
        × (s.ring.write_head ≤ limit w s.ring + s.ring.capacity)
    Claims-Once =
        let (stream, v, _) = reached w storage capacity calls some_capacity kind ts short in
        (
          v.writes.apart, v.reads.apart, v.writes.covered, v.reads.covered, v.reads.ordered,
          v.behind, v.writes.ordered, v.within,
        )
