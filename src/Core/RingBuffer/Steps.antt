-- ===== src/Core/RingBuffer/Steps.antt =====
-- Each kind of step on a ring buffer (libraries/Core/include/core/atomic/RingBuffer.h) keeps its
-- invariant: the steps that leave the ring as it is, the claims, the stores and the completions.
use cro_cos.Base.{
  ℕ, ◌+◌, ◌-◌, ◌%◌, ◌≤◌, ◌<◌, ◌≡◌, ◌≢◌, Bool, true, false, refl, sym, ap, ◌∙◌, arith, inl, inr,
  lt_cases, if◌then◌else◌, ltb, lt→ltb, ltb_of_le, ==_cases,
}
use cro_cos.Base.Memory.{write, write_same, write_other}
use cro_cos.Core.RingBuffer.{Ring, Thread, limit}
use cro_cos.Core.RingBuffer.Tickets.{
  Ticket, no_ticket, Tickets-same, Tickets-claim, Tickets-advance, Tickets-late,
}
use cro_cos.Core.RingBuffer.State.{
  write_ticket, read_ticket, filled, Local, Grows, Inv, Inv-write, limit_mono, limit-le,
}
use cro_cos.Core.RingBuffer.Moves.{same_slot, Inv-heads, below_head, filled-le, filled_pending}

-- The ticket of a range that is claimed, or completed.
abbrev pub ticket : ℕ → ℕ → Bool → Ticket
ticket first n pending = record { first = first; count = n; pending = pending }

module _ {A : Type 0} where
  -- A step that leaves the stream as it is, and lowers no head.
  pub Grows-raise :
      (r r' : Ring A) (stream : ℕ → A)
      → r'.capacity ≡ r.capacity
      → (r.write_head ≤ r'.write_head)
        × (r.written_head ≤ r'.written_head)
        × (r.reading_head ≤ r'.reading_head)
        × (r.read_head ≤ r'.read_head)
      → Grows r stream r' stream
  Grows-raise r r' stream e (a, b, c, d) = record {
    capacity_kept = e;
    write_head_up = a;
    written_head_up = b;
    reading_head_up = c;
    read_head_up = d;
    stream_kept = λ p lt. refl;
  }

  -- The stream once `n` more items are claimed behind the first `high`.
  abbrev pub extended : (ℕ → A) → ℕ → (ℕ → A) → ℕ → A
  extended stream high items p = if ltb p high then stream p else items (p - high)

  pub extended-beyond :
      (stream : ℕ → A) (high : ℕ) (items : ℕ → A) (p i : ℕ)
      → p ≡ high + i
      → extended stream high items p ≡ items i
  extended-beyond stream high items p i e =
      let back : p - high ≡ i = omega arith in rw (ltb_of_le p high (omega arith)) (ap items back)

  module _ (w : Bool) (stream : ℕ → A) (r : Ring A) (threads : ℕ → Thread A)
      (v : Inv w stream r threads) (t : ℕ) (th' : Thread A) where
    -- The ring stays as it is, and so do the claims.
    pub Inv-still :
        write_ticket (threads t) ≡ write_ticket th'
        → read_ticket (threads t) ≡ read_ticket th'
        → filled (threads t) ≡ filled th'
        → Local w r stream th'
        → Inv w stream r (write threads t th')
    Inv-still ew er ef here =
        Inv-heads w stream r threads v t stream r th' refl
          (Grows-raise r r stream refl (omega arith))
          (Tickets-same (λ u. write_ticket (threads u)) r.written_head r.write_head t
            (write_ticket th') ew v.writes)
          (Tickets-same (λ u. read_ticket (threads u)) r.read_head r.reading_head t
            (read_ticket th') er v.reads)
          v.behind v.within here (λ p low high. absurd (omega (arith, low, high)))
          (λ p low high.
            let low' : (write_ticket (threads t)).first ≤ p = rw ew low in
            let high' : p < (write_ticket (threads t)).first + filled (threads t) =
              rw (ew, ef) high in
            (below_head w stream r threads v t t p high', v.kept t p low' high'))

    -- A completion head that has passed the claim already.
    pub Inv-write_late :
        (first n : ℕ)
        → write_ticket (threads t) ≡ ticket first n true
        → write_ticket th' ≡ ticket first n false
        → read_ticket (threads t) ≡ read_ticket th'
        → filled th' ≡ 0
        → first + n ≤ r.written_head
        → Local w r stream th'
        → Inv w stream r (write threads t th')
    Inv-write_late first n e e' er none late here =
        Inv-heads w stream r threads v t stream r th' refl
          (Grows-raise r r stream refl (omega arith))
          (rw e' (
            Tickets-late (λ u. write_ticket (threads u)) r.written_head r.write_head v.writes t
              first n e late))
          (Tickets-same (λ u. read_ticket (threads u)) r.read_head r.reading_head t
            (read_ticket th') er v.reads)
          v.behind v.within here (λ p low high. absurd (omega (arith, low, high)))
          (λ p low high. absurd (omega (arith, none, low, high)))

    pub Inv-read_late :
        (first n : ℕ)
        → read_ticket (threads t) ≡ ticket first n true
        → read_ticket th' ≡ ticket first n false
        → write_ticket (threads t) ≡ write_ticket th'
        → filled th' ≡ 0
        → first + n ≤ r.read_head
        → Local w r stream th'
        → Inv w stream r (write threads t th')
    Inv-read_late first n e e' ew none late here =
        Inv-heads w stream r threads v t stream r th' refl
          (Grows-raise r r stream refl (omega arith))
          (Tickets-same (λ u. write_ticket (threads u)) r.written_head r.write_head t
            (write_ticket th') ew v.writes)
          (rw e' (
            Tickets-late (λ u. read_ticket (threads u)) r.read_head r.reading_head v.reads t first n
              e late))
          v.behind v.within here (λ p low high. absurd (omega (arith, low, high)))
          (λ p low high. absurd (omega (arith, none, low, high)))

    -- A write claims the next `n` positions for its items.
    pub Inv-claim_write :
        (n : ℕ) (items : ℕ → A)
        → write_ticket (threads t) ≡ no_ticket
        → write_ticket th' ≡ ticket r.write_head n true
        → read_ticket (threads t) ≡ read_ticket th'
        → filled th' ≡ 0
        → r.write_head + n ≤ limit w r + r.capacity
        → Local w
            (record r { write_head = r.write_head + n })
            (extended stream r.write_head items)
            th'
        → Inv w
            (extended stream r.write_head items)
            (record r { write_head = r.write_head + n })
            (write threads t th')
    Inv-claim_write n items e e' er none fits here =
        Inv-heads w stream r threads v t (extended stream r.write_head items)
          (record r { write_head = r.write_head + n }) th' refl
          (record {
            capacity_kept = refl;
            write_head_up = omega arith;
            written_head_up = omega arith;
            reading_head_up = omega arith;
            read_head_up = omega arith;
            stream_kept = λ p lt. rw (lt→ltb p r.write_head lt) refl;
          })
          (rw e' (
            Tickets-claim (λ u. write_ticket (threads u)) r.written_head r.write_head v.writes t n
              e))
          (Tickets-same (λ u. read_ticket (threads u)) r.read_head r.reading_head t
            (read_ticket th') er v.reads)
          v.behind
          (omega (
            arith,
            fits,
            limit_mono w r (record r { write_head = r.write_head + n }) (omega arith) (omega arith),
          ))
          here (λ p low high. absurd (omega (arith, low, high)))
          (λ p low high. absurd (omega (arith, none, low, high)))

    -- The oldest claim is published.
    pub Inv-publish :
        (n : ℕ)
        → write_ticket (threads t) ≡ ticket r.written_head n true
        → filled (threads t) ≡ n
        → write_ticket th' ≡ ticket r.written_head n false
        → read_ticket (threads t) ≡ read_ticket th'
        → filled th' ≡ 0
        → Local w (record r { written_head = r.written_head + n }) stream th'
        → Inv w stream (record r { written_head = r.written_head + n }) (write threads t th')
    Inv-publish n e full e' er none here =
        Inv-heads w stream r threads v t stream (record r { written_head = r.written_head + n }) th'
          refl
          (Grows-raise r (record r { written_head = r.written_head + n }) stream refl (omega arith))
          (rw e' (
            Tickets-advance (λ u. write_ticket (threads u)) r.written_head r.write_head v.writes t n
              e))
          (Tickets-same (λ u. read_ticket (threads u)) r.read_head r.reading_head t
            (read_ticket th') er v.reads)
          (omega (arith, v.behind))
          (omega (
            arith,
            v.within,
            limit_mono w r (record r { written_head = r.written_head + n }) (omega arith)
                (omega arith),
          ))
          here
          (λ p low high.
            let low' : (write_ticket (threads t)).first ≤ p = rw e low in
            let high' : p < (write_ticket (threads t)).first + filled (threads t) =
              rw (e, full) high in
            (below_head w stream r threads v t t p high', v.kept t p low' high'))
          (λ p low high. absurd (omega (arith, none, low, high)))

    -- A read claims the next `n` positions.
    pub Inv-claim_read :
        (n : ℕ)
        → read_ticket (threads t) ≡ no_ticket
        → read_ticket th' ≡ ticket r.reading_head n true
        → write_ticket (threads t) ≡ write_ticket th'
        → filled th' ≡ 0
        → r.reading_head + n ≤ r.written_head
        → Local w (record r { reading_head = r.reading_head + n }) stream th'
        → Inv w stream (record r { reading_head = r.reading_head + n }) (write threads t th')
    Inv-claim_read n e e' ew none fits here =
        Inv-heads w stream r threads v t stream (record r { reading_head = r.reading_head + n }) th'
          refl
          (Grows-raise r (record r { reading_head = r.reading_head + n }) stream refl (omega arith))
          (Tickets-same (λ u. write_ticket (threads u)) r.written_head r.write_head t
            (write_ticket th') ew v.writes)
          (rw e'
            (Tickets-claim (λ u. read_ticket (threads u)) r.read_head r.reading_head v.reads t n e))
          fits
          (omega (
            arith,
            v.within,
            limit_mono w r (record r { reading_head = r.reading_head + n }) (omega arith)
                (omega arith),
          ))
          here (λ p low high. absurd (omega (arith, low, high)))
          (λ p low high. absurd (omega (arith, none, low, high)))

    -- The oldest read is complete.
    pub Inv-complete :
        (n : ℕ)
        → read_ticket (threads t) ≡ ticket r.read_head n true
        → read_ticket th' ≡ ticket r.read_head n false
        → write_ticket (threads t) ≡ write_ticket th'
        → filled th' ≡ 0
        → Local w (record r { read_head = r.read_head + n }) stream th'
        → Inv w stream (record r { read_head = r.read_head + n }) (write threads t th')
    Inv-complete n e e' ew none here =
        Inv-heads w stream r threads v t stream (record r { read_head = r.read_head + n }) th' refl
          (Grows-raise r (record r { read_head = r.read_head + n }) stream refl (omega arith))
          (Tickets-same (λ u. write_ticket (threads u)) r.written_head r.write_head t
            (write_ticket th') ew v.writes)
          (rw e' (
            Tickets-advance (λ u. read_ticket (threads u)) r.read_head r.reading_head v.reads t n
              e))
          v.behind
          (omega (
            arith,
            v.within,
            limit_mono w r (record r { read_head = r.read_head + n }) (omega arith) (omega arith),
          ))
          here (λ p low high. absurd (omega (arith, low, high)))
          (λ p low high. absurd (omega (arith, none, low, high)))

    -- A store to the next slot of a claim: it hits no slot that is still needed.
    pub Inv-store :
        (first n i : ℕ) (item : A)
        → write_ticket (threads t) ≡ ticket first n true
        → filled (threads t) ≡ i
        → i < n
        → first + i < r.read_head + r.capacity
        → stream (first + i) ≡ item
        → write_ticket th' ≡ ticket first n true
        → read_ticket (threads t) ≡ read_ticket th'
        → filled th' ≡ i + 1
        → Local w (record r { buffer = write r.buffer ((first + i) % r.capacity) item }) stream th'
        → Inv w stream
            (record r { buffer = write r.buffer ((first + i) % r.capacity) item })
            (write threads t th')
    Inv-store first n i item e ef lt room is e' er ef' here =
        let q : ℕ = first + i in
        let slot : ℕ = q % r.capacity in
        let head_low : r.written_head ≤ first = rw e at (v.writes.waiting t) refl (omega arith) in
        let in_range : first + n ≤ r.write_head = rw e at (v.writes.bounded t) in
        let lap : r.write_head ≤ r.reading_head + r.capacity =
          omega (arith, v.within, limit-le w r v.reads.ordered) in
        let elsewhere : (p : ℕ)
            → r.read_head ≤ p
            → p < r.write_head
            → p ≢ q
            → r.buffer (p % r.capacity) ≡ stream p
            → write r.buffer slot item (p % r.capacity) ≡ stream p =
          λ p low high ne h.
            write_other r.buffer slot (p % r.capacity) item (λ same. elim (lt_cases p q) [
              | inl before ↦ ne (same_slot r.capacity p q (sym same) (omega arith) (omega arith))
              | inr after ↦ ne (sym (same_slot r.capacity q p same after (omega (arith, v.behind))))
            ])
            ∙ h in
        Inv-write w stream stream r (record r { buffer = write r.buffer slot item }) threads t th' v
          (Grows-raise r (record r { buffer = write r.buffer slot item }) stream refl (omega arith))
          (record {
            writes' =
                Tickets-same (λ u. write_ticket (threads u)) r.written_head r.write_head t
                  (write_ticket th') (e ∙ sym e') v.writes;
            reads' =
                Tickets-same (λ u. read_ticket (threads u)) r.read_head r.reading_head t
                  (read_ticket th') er v.reads;
            behind' = v.behind;
            within' = omega (
              arith,
              v.within,
              limit_mono w r (record r { buffer = write r.buffer slot item }) (omega arith)
                  (omega arith),
            );
            here = here;
            stored' = λ p low high.
                elsewhere p low (omega (arith, v.writes.ordered)) (omega arith)
                  (v.stored p low high);
            kept_here = λ p low high. elim (==_cases p q) [
              | inl same ↦
                  write_same r.buffer slot (p % r.capacity) item
                    (ap (λ x. x % r.capacity) (sym same))
                  ∙ sym is
                  ∙ ap stream (sym same)
              | inr ne ↦
                  (let from : first ≤ p = rw e' at low in
                    let upto : p < first + (i + 1) = rw (e', ef') at high in
                    elsewhere p (omega (arith, v.behind, v.reads.ordered)) (omega arith) ne
                      (v.kept t p (rw e from) (rw (e, ef) (omega (arith, upto, ne)))))
            ];
            kept_others = λ u p ne low high.
                let pending : (write_ticket (threads u)).pending ≡ true =
                  filled_pending (threads u) (omega arith) in
                let few : filled (threads u) ≤ (write_ticket (threads u)).count =
                  filled-le w r stream (threads u) (v.locals u) in
                let old : r.written_head ≤ (write_ticket (threads u)).first =
                  v.writes.waiting u pending (omega arith) in
                elsewhere p (omega (arith, v.behind, v.reads.ordered))
                  (below_head w stream r threads v t u p high)
                  (λ same. ne (v.writes.apart t u p (rw e (omega arith)) (omega arith)))
                  (v.kept u p low high);
          })
