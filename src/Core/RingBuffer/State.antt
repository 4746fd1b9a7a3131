-- ===== src/Core/RingBuffer/State.antt =====
-- What holds of a ring buffer and of each of its threads between any two steps
-- (libraries/Core/include/core/atomic/RingBuffer.h).
--
-- `stream p` is the item that is written to position `p`. `w` tells whether writes check against
-- `readingHead` and wait (`bulkWrite`), or check against `readHead` (`tryBulkWrite` and
-- `bulkWriteBestEffort`).
use cro_cos.Base.{ℕ, ◌+◌, ◌%◌, ◌≤◌, ◌<◌, ◌≡◌, ◌≢◌, Bool, true, false, refl, sym, ◌∙◌, arith}
use cro_cos.Base.Memory.{write, window, window-ext}
use cro_cos.Core.RingBuffer.{
  Ring, WriteCall, Thread, idle, load_write_head, load_limit, claim_write, wait_for_slot,
  write_slot, advance_written, write_done, load_reading_head, load_written_head, claim_read,
  read_slot, advance_read, read_done, refused, waits, limit,
}
use cro_cos.Core.RingBuffer.Tickets.{Ticket, no_ticket, Tickets, Tickets-ext, write-all, map-write}

module _ {A : Type 0} where
  abbrev pub write_ticket : Thread A → Ticket
  write_ticket (wait_for_slot c first n i) = record { first = first; count = n; pending = true }
  write_ticket (write_slot c first n i) = record { first = first; count = n; pending = true }
  write_ticket (advance_written c first n) = record { first = first; count = n; pending = true }
  write_ticket (write_done c first n) = record { first = first; count = n; pending = false }
  write_ticket _ = no_ticket

  abbrev pub read_ticket : Thread A → Ticket
  read_ticket (read_slot first n i out) = record { first = first; count = n; pending = true }
  read_ticket (advance_read first n out) = record { first = first; count = n; pending = true }
  read_ticket (read_done first n out) = record { first = first; count = n; pending = false }
  read_ticket _ = no_ticket

  -- How many slots of its claim a write has filled and not yet published.
  abbrev pub filled : Thread A → ℕ
  filled (wait_for_slot c first n i) = i
  filled (write_slot c first n i) = i
  filled (advance_written c first n) = n
  filled _ = 0

  -- A write with a claim.
  pub record Writes (w : Bool) (r : Ring A) (stream : ℕ → A) (c : WriteCall A) (first n : ℕ)
      : Type 0 where
    pub kind : waits c.mode ≡ w
    pub agrees : (i : ℕ) → i < n → stream (first + i) ≡ c.items i
    pub room : w ≡ false → first + n ≤ r.read_head + r.capacity

  abbrev pub Local : Bool → Ring A → (ℕ → A) → Thread A → Type 0
  Local w r stream idle = Unit
  Local w r stream (load_write_head c) = (waits c.mode ≡ w)
  Local w r stream (load_limit c first) = (waits c.mode ≡ w) × (first ≤ r.write_head)
  Local w r stream (claim_write c first n) =
      ((waits c.mode ≡ w) × (first + n ≤ limit w r + r.capacity))
  Local w r stream (wait_for_slot c first n i) = Writes w r stream c first n × (i < n)
  Local w r stream (write_slot c first n i) =
      Writes w r stream c first n × ((i < n) × (first + i < r.read_head + r.capacity))
  Local w r stream (advance_written c first n) = Writes w r stream c first n
  Local w r stream (write_done c first n) = Writes w r stream c first n
  Local w r stream (load_reading_head p want) = Unit
  Local w r stream (load_written_head p want first) = (first ≤ r.reading_head)
  Local w r stream (claim_read p want first n) = (first + n ≤ r.written_head)
  Local w r stream (read_slot first n i out) = (i < n) × (out ≡ window stream first i)
  Local w r stream (advance_read first n out) = out ≡ window stream first n
  Local w r stream (read_done first n out) = out ≡ window stream first n
  Local w r stream refused = Unit

  -- What a step of one thread leaves true for the others: heads only grow, and so does the stream.
  pub record Grows (r : Ring A) (stream : ℕ → A) (r' : Ring A) (stream' : ℕ → A) : Type 0 where
    pub capacity_kept : r'.capacity ≡ r.capacity
    pub write_head_up : r.write_head ≤ r'.write_head
    pub written_head_up : r.written_head ≤ r'.written_head
    pub reading_head_up : r.reading_head ≤ r'.reading_head
    pub read_head_up : r.read_head ≤ r'.read_head
    pub stream_kept : (p : ℕ) → p < r.write_head → stream' p ≡ stream p

  pub record Inv (w : Bool) (stream : ℕ → A) (r : Ring A) (threads : ℕ → Thread A) : Type 0 where
    pub some_capacity : 0 < r.capacity
    pub writes : Tickets (λ t. write_ticket (threads t)) r.written_head r.write_head
    pub reads : Tickets (λ t. read_ticket (threads t)) r.read_head r.reading_head
    pub behind : r.reading_head ≤ r.written_head
    pub within : r.write_head ≤ limit w r + r.capacity
    pub locals : (t : ℕ) → Local w r stream (threads t)
    -- What is published and not yet read stands in its slot.
    pub stored :
        (p : ℕ) → r.read_head ≤ p → p < r.written_head → r.buffer (p % r.capacity) ≡ stream p
    -- So does what a write has filled and not yet published.
    pub kept :
        (t p : ℕ)
        → (write_ticket (threads t)).first ≤ p
        → p < (write_ticket (threads t)).first + filled (threads t)
        → r.buffer (p % r.capacity) ≡ stream p

  pub limit_mono :
      (w : Bool) (r r' : Ring A)
      → r.reading_head ≤ r'.reading_head
      → r.read_head ≤ r'.read_head
      → limit w r ≤ limit w r'
  limit_mono true r r' up up' = up
  limit_mono false r r' up up' = up'

  pub limit-shut : (w : Bool) (r : Ring A) → w ≡ false → limit w r ≡ r.read_head
  limit-shut true r e = cc
  limit-shut false r e = refl

  pub limit-le : (w : Bool) (r : Ring A) → r.read_head ≤ r.reading_head → limit w r ≤ r.reading_head
  limit-le true r h = omega arith
  limit-le false r h = h

  module _ (w : Bool) (r r' : Ring A) (stream stream' : ℕ → A) (g : Grows r stream r' stream') where
    Writes-mono :
        (c : WriteCall A) (first n : ℕ)
        → first + n ≤ r.write_head
        → Writes w r stream c first n
        → Writes w r' stream' c first n
    Writes-mono c first n in_range h = record {
      kind = h.kind;
      agrees = λ i lt. g.stream_kept (first + i) (omega arith) ∙ h.agrees i lt;
      room = λ e. omega (arith, h.room e, g.read_head_up, g.capacity_kept);
    }

    window_mono :
        (first n : ℕ) → first + n ≤ r.write_head → window stream first n ≡ window stream' first n
    window_mono first n in_range =
        window-ext stream stream' first first n
          (λ i lt. sym (g.stream_kept (first + i) (omega arith)))

    -- The other threads' facts outlive a step.
    pub Local-mono :
        (th : Thread A)
        → (write_ticket th).first + (write_ticket th).count ≤ r.write_head
        → (read_ticket th).first + (read_ticket th).count ≤ r.write_head
        → Local w r stream th
        → Local w r' stream' th
    Local-mono idle a b h = tt
    Local-mono (load_write_head c) a b h = h
    Local-mono (load_limit c first) a b h = (h.0, omega (arith, h.1, g.write_head_up))
    Local-mono (claim_write c first n) a b h = (
      h.0,
      omega (arith, h.1, limit_mono w r r' g.reading_head_up g.read_head_up, g.capacity_kept),
    )
    Local-mono (wait_for_slot c first n i) a b h = (Writes-mono c first n a h.0, h.1)
    Local-mono (write_slot c first n i) a b h = (
      Writes-mono c first n a h.0,
      (h.1.0, omega (arith, h.1.1, g.read_head_up, g.capacity_kept)),
    )
    Local-mono (advance_written c first n) a b h = Writes-mono c first n a h
    Local-mono (write_done c first n) a b h = Writes-mono c first n a h
    Local-mono (load_reading_head p want) a b h = tt
    Local-mono (load_written_head p want first) a b h = omega (arith, h, g.reading_head_up)
    Local-mono (claim_read p want first n) a b h = omega (arith, h, g.written_head_up)
    Local-mono (read_slot first n i out) a b h =
        (h.0, h.1 ∙ window_mono first i (omega (arith, b, h.0)))
    Local-mono (advance_read first n out) a b h = h ∙ window_mono first n b
    Local-mono (read_done first n out) a b h = h ∙ window_mono first n b
    Local-mono refused a b h = tt

  -- The facts on thread `t` after its step, from which the invariant is put together.
  pub record Moved (w : Bool) (stream' : ℕ → A) (r r' : Ring A) (threads : ℕ → Thread A) (t : ℕ)
      (th' : Thread A) : Type 0 where
    pub writes' :
        Tickets
          (write (λ u. write_ticket (threads u)) t (write_ticket th'))
          r'.written_head
          r'.write_head
    pub reads' :
        Tickets
          (write (λ u. read_ticket (threads u)) t (read_ticket th'))
          r'.read_head
          r'.reading_head
    pub behind' : r'.reading_head ≤ r'.written_head
    pub within' : r'.write_head ≤ limit w r' + r'.capacity
    pub here : Local w r' stream' th'
    pub stored' :
        (p : ℕ) → r'.read_head ≤ p → p < r'.written_head → r'.buffer (p % r'.capacity) ≡ stream' p
    pub kept_here :
        (p : ℕ)
        → (write_ticket th').first ≤ p
        → p < (write_ticket th').first + filled th'
        → r'.buffer (p % r'.capacity) ≡ stream' p
    pub kept_others :
        (u p : ℕ)
        → t ≢ u
        → (write_ticket (threads u)).first ≤ p
        → p < (write_ticket (threads u)).first + filled (threads u)
        → r'.buffer (p % r'.capacity) ≡ stream' p

  pub Inv-write :
      (w : Bool) (stream stream' : ℕ → A) (r r' : Ring A) (threads : ℕ → Thread A) (t : ℕ)
      (th' : Thread A)
      → Inv w stream r threads
      → Grows r stream r' stream'
      → Moved w stream' r r' threads t th'
      → Inv w stream' r' (write threads t th')
  Inv-write w stream stream' r r' threads t th' v g m = record {
    some_capacity = omega (arith, v.some_capacity, g.capacity_kept);
    writes =
        Tickets-ext (write (λ u. write_ticket (threads u)) t (write_ticket th'))
          (λ u. write_ticket (write threads t th' u)) r'.written_head r'.write_head
          (map-write write_ticket threads t th') m.writes';
    reads =
        Tickets-ext (write (λ u. read_ticket (threads u)) t (read_ticket th'))
          (λ u. read_ticket (write threads t th' u)) r'.read_head r'.reading_head
          (map-write read_ticket threads t th') m.reads';
    behind = m.behind';
    within = m.within';
    locals =
        write-all (λ _ th. Local w r' stream' th) threads t th' m.here
          (λ u ne.
            Local-mono w r r' stream stream' g (threads u) (v.writes.bounded u)
              (omega (arith, v.reads.bounded u, v.behind, v.writes.ordered)) (v.locals u));
    stored = m.stored';
    kept =
        write-all
          (λ _ th.
            (p : ℕ)
            → (write_ticket th).first ≤ p
            → p < (write_ticket th).first + filled th
            → r'.buffer (p % r'.capacity) ≡ stream' p)
          threads t th' m.kept_here (λ u ne p. m.kept_others u p ne);
  }
