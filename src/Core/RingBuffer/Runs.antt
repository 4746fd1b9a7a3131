-- ===== src/Core/RingBuffer/Runs.antt =====
-- The invariant of a ring buffer (libraries/Core/include/core/atomic/RingBuffer.h) through every step
-- of every thread, and so through every interleaving.
use cro_cos.Base.{
  ℕ, ◌+◌, ◌%◌, ◌^◌, ◌≤◌, ◌<◌, ◌≡◌, Bool, true, false, Option, none, some, List, [], ◌∷◌, ◌++◌, refl,
  sym, ap, ◌∙◌, arith, inl, inr, ==_cases, ==_iff, ==_of_eq, ==_of_ne, ◌==◌, leb, leb→le,
  Bool-cases,
}
use cro_cos.Base.Memory.{write, window, window-snoc}
use cro_cos.Core.RingBuffer.{
  Ring, WriteCall, Thread, idle, load_write_head, load_limit, claim_write, wait_for_slot,
  write_slot, advance_written, write_done, load_reading_head, load_written_head, claim_read,
  read_slot, advance_read, read_done, refused, waits, limit, Policy, grant, policy, step,
  write_granted, read_granted, try_claim_write, try_claim_read, slot_readable, next_slot, next_read,
  publish, complete, advance_completion_head,
}
use cro_cos.Core.RingBuffer.State.{
  write_ticket, read_ticket, filled, Writes, Local, Inv, limit-le, limit-shut,
}
use cro_cos.Core.RingBuffer.Steps.{
  extended, extended-beyond, Inv-still, Inv-write_late, Inv-read_late, Inv-claim_write, Inv-publish,
  Inv-claim_read, Inv-complete, Inv-store,
}
use cro_cos.Core.RingBuffer.Places.{
  grant-le, within_capacity, Filling, next_slot-Filling, Reading, next_read-Reading, readable-room,
}
use cro_cos.LibAlloc.Pointers.{add64, sub64}

module _ {A : Type 0} where
  -- The invariant after a step, and how far the claim head went.
  pub record Stepped (w : Bool) (r : Ring A) (threads : ℕ → Thread A) (t : ℕ)
      (after : Thread A × Ring A) : Type 0 where
    pub stream : ℕ → A
    pub inv : Inv w stream after.1 (write threads t after.0)
    pub not_far : after.1.write_head ≤ r.write_head + r.capacity
    pub capacity_kept : after.1.capacity ≡ r.capacity

  module _ (w : Bool) (stream : ℕ → A) (r : Ring A) (threads : ℕ → Thread A)
      (v : Inv w stream r threads) (small : r.write_head + r.capacity < 2 ^ 64) (t : ℕ) where
    still :
        (th th' : Thread A)
        → threads t ≡ th
        → write_ticket th ≡ write_ticket th'
        → read_ticket th ≡ read_ticket th'
        → filled th ≡ filled th'
        → Local w r stream th'
        → Stepped w r threads t (th', r)
    still th th' e a b c here = record {
      stream = stream;
      inv =
          Inv-still w stream r threads v t th' (ap write_ticket e ∙ a) (ap read_ticket e ∙ b)
            (ap filled e ∙ c) here;
      not_far = omega arith;
      capacity_kept = refl;
    }

    write_granted-Stepped :
        (c : WriteCall A) (first : ℕ) (o : Option ℕ)
        → threads t ≡ load_limit c first
        → waits c.mode ≡ w
        → ((n : ℕ) → o ≡ some n → first + n ≤ limit w r + r.capacity)
        → Stepped w r threads t (write_granted c first o, r)
    write_granted-Stepped c first none e kind fits =
        still (load_limit c first) refused e refl refl refl tt
    write_granted-Stepped c first (some n) e kind fits =
        still (load_limit c first) (claim_write c first n) e refl refl refl (kind, fits n refl)

    read_granted-Stepped :
        (p : Policy) (want first : ℕ) (o : Option ℕ)
        → threads t ≡ load_written_head p want first
        → ((n : ℕ) → o ≡ some n → first + n ≤ r.written_head)
        → Stepped w r threads t (read_granted p want first o, r)
    read_granted-Stepped p want first none e fits =
        still (load_written_head p want first) refused e refl refl refl tt
    read_granted-Stepped p want first (some n) e fits =
        still (load_written_head p want first) (claim_read p want first n) e refl refl refl
          (fits n refl)

    head_below : limit w r ≤ r.write_head
    head_below = omega (arith, limit-le w r v.reads.ordered, v.behind, v.writes.ordered)

    try_claim_write-Stepped :
        (c : WriteCall A) (n : ℕ) (b : Bool) (first : ℕ)
        → threads t ≡ claim_write c first n
        → waits c.mode ≡ w
        → first + n ≤ limit w r + r.capacity
        → (b ≡ true → r.write_head ≡ first)
        → Stepped w r threads t (try_claim_write b c first n r)
    try_claim_write-Stepped c n false first e kind fits here =
        still (claim_write c first n) (load_write_head c) e refl refl refl kind
    try_claim_write-Stepped c n true first e kind fits here =
        let at : r.write_head ≡ first = here refl in
        let sum : add64 first n ≡ r.write_head + n = omega (arith, at, fits, head_below, small) in
        let r' : Ring A = record r { write_head = r.write_head + n } in
        let claimed : Filling w r' (extended stream r.write_head c.items) first n 0
            (next_slot c first n 0) =
          next_slot-Filling w r' (extended stream r.write_head c.items) c first n 0
            (record {
              kind = kind;
              agrees = λ i lt.
                  extended-beyond stream r.write_head c.items (first + i) i (omega (arith, at));
              room = λ shut. omega (arith, fits, limit-shut w r shut);
            })
            (omega arith) in
        rw sum (record {
          stream = extended stream r.write_head c.items;
          inv =
              Inv-claim_write w stream r threads v t (next_slot c first n 0) n c.items
                (ap write_ticket e) (rw at claimed.claim) (ap read_ticket e ∙ claimed.no_read)
                claimed.so_far (omega (arith, at, fits)) claimed.local;
          not_far = omega (arith, at, fits, head_below);
          capacity_kept = refl;
        })

    try_claim_read-Stepped :
        (p : Policy) (want n : ℕ) (b : Bool) (first : ℕ)
        → threads t ≡ claim_read p want first n
        → first + n ≤ r.written_head
        → (b ≡ true → r.reading_head ≡ first)
        → Stepped w r threads t (try_claim_read b p want first n r)
    try_claim_read-Stepped p want n false first e fits here =
        still (claim_read p want first n) (load_reading_head p want) e refl refl refl tt
    try_claim_read-Stepped p want n true first e fits here =
        let at : r.reading_head ≡ first = here refl in
        let sum : add64 first n ≡ r.reading_head + n =
          omega (arith, at, fits, v.writes.ordered, small) in
        let r' : Ring A = record r { reading_head = r.reading_head + n } in
        let claimed : Reading w r' stream first n (next_read first n 0 []) =
          next_read-Reading w r' stream first n 0 [] (omega arith) refl in
        rw sum (record {
          stream = stream;
          inv =
              Inv-claim_read w stream r threads v t (next_read first n 0 []) n (ap read_ticket e)
                (rw at claimed.claim) (ap write_ticket e ∙ claimed.no_write) claimed.none_filled
                (omega (arith, at, fits)) claimed.local;
          not_far = omega arith;
          capacity_kept = refl;
        })

    -- One round of `advanceCompletionHead` for the writes, and for the reads.
    publish-Stepped :
        (c : WriteCall A) (first n : ℕ)
        → threads t ≡ advance_written c first n
        → Stepped w r threads t
            (publish (advance_completion_head r.written_head first (add64 first n)) c first n r)
    publish-Stepped c first n e =
        let h : Writes w r stream c first n = rw e at (v.locals t) in
        let in_range : first + n ≤ r.write_head = rw e at (v.writes.bounded t) in
        let sum : add64 first n ≡ first + n = omega (arith, in_range, small) in
        elim (==_cases r.written_head first) [
          | inl at ↦
              rw (==_of_eq r.written_head first at, sum, sym at)
                (record {
                  stream = stream;
                  inv =
                      Inv-publish w stream r threads v t (write_done c r.written_head n) n
                        (rw at (ap write_ticket e)) (ap filled e) refl (ap read_ticket e) refl
                        (record { kind = h.kind; agrees = rw at h.agrees; room = rw at h.room });
                  not_far = omega arith;
                  capacity_kept = refl;
                })
          | inr elsewhere ↦ elim (Bool-cases (leb (first + n) r.written_head)) [
            | inl past ↦
                rw (==_of_ne r.written_head first elsewhere, sum, past)
                  (record {
                    stream = stream;
                    inv =
                        Inv-write_late w stream r threads v t (write_done c first n) first n
                          (ap write_ticket e) refl (ap read_ticket e) refl
                          (leb→le (first + n) r.written_head past) h;
                    not_far = omega arith;
                    capacity_kept = refl;
                  })
            | inr before ↦
                rw (==_of_ne r.written_head first elsewhere, sum, before)
                  (still (advance_written c first n) (advance_written c first n) e refl refl refl h)
          ]
        ]

    complete-Stepped :
        (first n : ℕ) (out : List A)
        → threads t ≡ advance_read first n out
        → Stepped w r threads t
            (complete (advance_completion_head r.read_head first (add64 first n)) first n out r)
    complete-Stepped first n out e =
        let h : out ≡ window stream first n = rw e at (v.locals t) in
        let in_range : first + n ≤ r.reading_head = rw e at (v.reads.bounded t) in
        let sum : add64 first n ≡ first + n =
          omega (arith, in_range, v.behind, v.writes.ordered, small) in
        elim (==_cases r.read_head first) [
          | inl at ↦
              rw (==_of_eq r.read_head first at, sum, sym at)
                (record {
                  stream = stream;
                  inv =
                      Inv-complete w stream r threads v t (read_done r.read_head n out) n
                        (rw at (ap read_ticket e)) refl (ap write_ticket e) refl (rw at h);
                  not_far = omega arith;
                  capacity_kept = refl;
                })
          | inr elsewhere ↦ elim (Bool-cases (leb (first + n) r.read_head)) [
            | inl past ↦
                rw (==_of_ne r.read_head first elsewhere, sum, past)
                  (record {
                    stream = stream;
                    inv =
                        Inv-read_late w stream r threads v t (read_done first n out) first n
                          (ap read_ticket e) refl (ap write_ticket e) refl
                          (leb→le (first + n) r.read_head past) h;
                    not_far = omega arith;
                    capacity_kept = refl;
                  })
            | inr before ↦
                rw (==_of_ne r.read_head first elsewhere, sum, before)
                  (still (advance_read first n out) (advance_read first n out) e refl refl refl h)
          ]
        ]

    pub step-Stepped : (th : Thread A) → threads t ≡ th → Stepped w r threads t (step th r)
    unfolding step
    step-Stepped idle e = still idle idle e refl refl refl tt
    step-Stepped (load_write_head c) e =
        still (load_write_head c) (load_limit c r.write_head) e refl refl refl
          (rw e at (v.locals t), omega arith)
    step-Stepped (load_limit c first) e =
        let h : Local w r stream (load_limit c first) = rw e at (v.locals t) in
        write_granted-Stepped c first
          (grant (policy c.mode) c.want (sub64 r.capacity (sub64 first (limit (waits c.mode) r)))) e
          h.0
          (λ n granted.
            within_capacity r.capacity first (limit w r) n (omega (arith, h.1, v.within))
              (omega (arith, head_below, small))
              (rw h.0 at (
                grant-le (policy c.mode) c.want
                  (sub64 r.capacity (sub64 first (limit (waits c.mode) r))) n granted)))
    step-Stepped (claim_write c first n) e =
        let h : Local w r stream (claim_write c first n) = rw e at (v.locals t) in
        try_claim_write-Stepped c n (r.write_head == first) first e h.0 h.1
          (λ same. (==_iff r.write_head first).0 same)
    step-Stepped (wait_for_slot c first n i) e =
        let h : Local w r stream (wait_for_slot c first n i) = rw e at (v.locals t) in
        let in_range : first + n ≤ r.write_head = rw e at (v.writes.bounded t) in
        let sum : add64 first i ≡ first + i = omega (arith, in_range, small, h.1) in
        elim (Bool-cases (slot_readable (first + i) r)) [
          | inl ready ↦
              rw (sum, ready)
                (still (wait_for_slot c first n i) (write_slot c first n i) e refl refl refl (
                  h.0,
                  (
                    h.1,
                    readable-room r (first + i) (omega (arith, in_range, small, h.1))
                        v.some_capacity ready,
                  ),
                ))
          | inr busy ↦
              rw (sum, busy)
                (still (wait_for_slot c first n i) (wait_for_slot c first n i) e refl refl refl h)
        ]
    step-Stepped (write_slot c first n i) e =
        let h : Local w r stream (write_slot c first n i) = rw e at (v.locals t) in
        let in_range : first + n ≤ r.write_head = rw e at (v.writes.bounded t) in
        let sum : add64 first i ≡ first + i = omega (arith, in_range, small, h.1.0) in
        let r' : Ring A = record r {
          buffer = write r.buffer ((first + i) % r.capacity) (c.items i);
        } in
        let next : Filling w r' stream first n (i + 1) (next_slot c first n (i + 1)) =
          next_slot-Filling w r' stream c first n (i + 1)
            (record { kind = h.0.kind; agrees = h.0.agrees; room = h.0.room })
            (omega (arith, h.1.0)) in
        rw sum (record {
          stream = stream;
          inv =
              Inv-store w stream r threads v t (next_slot c first n (i + 1)) first n i (c.items i)
                (ap write_ticket e) (ap filled e) h.1.0 h.1.1 (h.0.agrees i h.1.0) next.claim
                (ap read_ticket e ∙ next.no_read) next.so_far next.local;
          not_far = omega arith;
          capacity_kept = refl;
        })
    step-Stepped (advance_written c first n) e = publish-Stepped c first n e
    step-Stepped (write_done c first n) e =
        still (write_done c first n) (write_done c first n) e refl refl refl (rw e at (v.locals t))
    step-Stepped (load_reading_head p want) e =
        still (load_reading_head p want) (load_written_head p want r.reading_head) e refl refl refl
          (omega arith)
    step-Stepped (load_written_head p want first) e =
        let h : first ≤ r.reading_head = rw e at (v.locals t) in
        read_granted-Stepped p want first (grant p want (sub64 r.written_head first)) e
          (λ n granted. omega (
            arith,
            h,
            v.behind,
            v.writes.ordered,
            small,
            grant-le p want (sub64 r.written_head first) n granted,
          ))
    step-Stepped (claim_read p want first n) e =
        try_claim_read-Stepped p want n (r.reading_head == first) first e (rw e at (v.locals t))
          (λ same. (==_iff r.reading_head first).0 same)
    step-Stepped (read_slot first n i out) e =
        let h : Local w r stream (read_slot first n i out) = rw e at (v.locals t) in
        let in_range : first + n ≤ r.reading_head = rw e at (v.reads.bounded t) in
        let old : r.read_head ≤ first = rw e at (v.reads.waiting t) refl (omega (arith, h.0)) in
        let sum : add64 first i ≡ first + i =
          omega (arith, in_range, small, h.0, v.behind, v.writes.ordered) in
        let item : r.buffer ((first + i) % r.capacity) ≡ stream (first + i) =
          v.stored (first + i) (omega arith) (omega (arith, h.0, v.behind)) in
        let next : Reading w r stream first n
            (next_read first n (i + 1) (out ++ stream (first + i) ∷ [])) =
          next_read-Reading w r stream first n (i + 1) (out ++ stream (first + i) ∷ [])
            (omega (arith, h.0))
            (ap (λ xs. xs ++ stream (first + i) ∷ []) h.1 ∙ sym (window-snoc stream first i)) in
        rw (sum, item)
          (record {
            stream = stream;
            inv =
                Inv-still w stream r threads v t
                  (next_read first n (i + 1) (out ++ stream (first + i) ∷ []))
                  (ap write_ticket e ∙ next.no_write) (ap read_ticket e ∙ sym next.claim)
                  (ap filled e ∙ sym next.none_filled) next.local;
            not_far = omega arith;
            capacity_kept = refl;
          })
    step-Stepped (advance_read first n out) e = complete-Stepped first n out e
    step-Stepped (read_done first n out) e =
        still (read_done first n out) (read_done first n out) e refl refl refl
          (rw e at (v.locals t))
    step-Stepped refused e = still refused refused e refl refl refl tt
