-- ===== src/Core/RingBuffer/Overrun.antt =====
-- `tryBulkWrite` beside `bulkWrite` (libraries/Core/include/core/atomic/RingBuffer.h): the check of
-- the one wraps around where the other has claimed positions ahead of the reads.
use cro_cos.Base.{
  ℕ, ◌+◌, ◌^◌, ◌<◌, ◌≡◌, false, [], ◌∷◌, refl, ap, ap₂, ◌∙◌, arith, ltb_of_le, lt→ltb, ==_of_eq,
  ==_of_ne,
}
use cro_cos.Base.Memory.{write_same}
use cro_cos.Core.RingBuffer.{
  Ring, WriteCall, immediate, Thread, load_write_head, load_limit, claim_write, write_slot, System,
  schedule, run, step, is_full,
}
use cro_cos.LibAlloc.Pointers.{add64, sub64}

module _ {ℓ} {A : Type ℓ} where
  -- What a scheduled thread does.
  schedule_lem :
      (t : ℕ) (s : System A) (th : Thread A) (r : Ring A)
      → s.threads t ≡ th
      → s.ring ≡ r
      → ((schedule t s).threads t ≡ (step th r).0) × ((schedule t s).ring ≡ (step th r).1)
  unfolding schedule
  schedule_lem t s th r e e' = (
    write_same s.threads t t ((step (s.threads t) s.ring).0) refl ∙ ap₂ (λ x y. (step x y).0) e e',
    ap₂ (λ x y. (step x y).1) e e',
  )

  abbrev pub try_call : ℕ → (ℕ → A) → WriteCall A
  try_call want items = record { mode = immediate; want = want; items = items }

  limit_passed :
      (r : Ring A) (want : ℕ) (items : ℕ → A)
      → r.read_head + r.capacity < r.write_head
      → r.write_head + want < 2 ^ 64
      → (step (load_limit (try_call want items) r.write_head) r).0
        ≡ claim_write (try_call want items) r.write_head want
  unfolding step
  limit_passed r want items far small =
      rw (ltb_of_le (sub64 r.capacity (sub64 r.write_head r.read_head)) want (omega arith)) refl

  claim_made :
      (r : Ring A) (want : ℕ) (items : ℕ → A)
      → 0 < want
      → r.write_head + want < 2 ^ 64
      → step (claim_write (try_call want items) r.write_head want) r ≡ (
        write_slot (try_call want items) r.write_head want 0,
        record r { write_head = r.write_head + want },
      )
  unfolding step
  claim_made r want items pos small =
      let sum : add64 r.write_head want ≡ r.write_head + want = omega arith in
      rw (==_of_eq r.write_head r.write_head refl, sum, lt→ltb 0 want pos) refl

  -- Once more positions are claimed than the capacity beyond what is read, as `bulkWrite` does while
  -- reads are under way, `tryBulkWrite` of any number of items is not refused: it claims still more,
  -- goes on to write to a slot without waiting, and the ring does not count as full.
  pub try_write-overruns :
      (s : System A) (t want : ℕ) (items : ℕ → A)
      → s.threads t ≡ load_write_head (try_call want items)
      → s.ring.read_head + s.ring.capacity < s.ring.write_head
      → s.ring.write_head + want < 2 ^ 64
      → 0 < want
      → ((run (t ∷ t ∷ t ∷ []) s).ring.write_head ≡ s.ring.write_head + want)
        × ((run (t ∷ t ∷ t ∷ []) s).threads t
            ≡ write_slot (try_call want items) s.ring.write_head want 0)
        × (is_full s.ring ≡ false)
  unfolding run is_full step
  try_write-overruns s t want items e far small pos =
      let c : WriteCall A = try_call want items in
      let r : Ring A = s.ring in
      let one = schedule_lem t s (load_write_head c) r e refl in
      let two = schedule_lem t (schedule t s) (load_limit c r.write_head) r one.0 one.1 in
      let three =
        schedule_lem t (schedule t (schedule t s)) (claim_write c r.write_head want) r
          (two.0 ∙ limit_passed r want items far small) two.1 in
      (
        ap (λ x. x.write_head) three.1
            ∙ ap (λ x. x.1.write_head) (claim_made r want items pos small),
        three.0 ∙ ap (λ x. x.0) (claim_made r want items pos small),
        ==_of_ne (sub64 r.capacity (sub64 r.write_head r.read_head)) 0 (omega arith),
      )
