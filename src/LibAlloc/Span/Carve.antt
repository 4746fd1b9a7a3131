-- ===== src/LibAlloc/Span/Carve.antt =====
-- Where `allocateBlock` puts an allocation in a free block.
use native.Mathlib.Nat.{div-add-mod', mul-mod_left}
use cro_cos.Base.{
  ℕ, ◌+◌, ◌-◌, ◌*◌, ◌/◌, ◌%◌, ◌^◌, ◌≤◌, ◌<◌, ◌≡◌, ◌≢◌, ◌⊎◌, inl, inr, arith, ==_cases, ==_of_eq,
  ==_of_ne,
}
use cro_cos.LibAlloc.Pointers.{add64, sub64, align_down, align_up, align_up_bounds}
use cro_cos.LibAlloc.Span.{
  Carved, carve, compute_worst_case_aligned_size, first_aligned_address, header_below, lower_edge,
  upper_edge, next_after,
}

-- The powers of two up to 16, and those above it, whose predecessor has the bit of 16.
abbrev pub IsAlignment : ℕ → Type 0
IsAlignment align =
    (sub64 align 1 / 16 % 2 ≡ 1)
    ⊎ ((sub64 align 1 / 16 % 2 ≡ 0) × ((n : ℕ) → n % 16 ≡ 0 → n % align ≡ 0))

align_down-multiple : (n a : ℕ) → 0 < a → align_down n a % a ≡ 0
unfolding align_down
align_down-multiple n a pos =
    let multiple : n - n % a ≡ n / a * a = omega (arith, div-add-mod' n a) in
    rw multiple (mul-mod_left (n / a) a)

-- The conditions under which an allocation is carved: a free block of at least the padded size, with
-- both edges aligned, and no address that wraps.
pub record Room (base edge size align : ℕ) : Type 0 where
  pub align_pos : 0 < align
  pub alignment : IsAlignment align
  pub base_aligned : base % 16 ≡ 0
  pub edge_aligned : edge % 16 ≡ 0
  pub fits : base + compute_worst_case_aligned_size size align ≤ edge
  pub no_wrap : edge + size + align + 256 < 2 ^ 64
  pub minimum : base + 96 ≤ edge

worst_small :
    (size align : ℕ)
    → sub64 align 1 / 16 % 2 ≡ 0
    → size + align + 256 < 2 ^ 64
    → compute_worst_case_aligned_size size align ≡ size + 32
unfolding compute_worst_case_aligned_size
worst_small size align bit wrap = rw (==_of_eq (sub64 align 1 / 16 % 2) 0 bit) (omega (arith, wrap))

worst_large :
    (size align : ℕ)
    → sub64 align 1 / 16 % 2 ≡ 1
    → size + align + 256 < 2 ^ 64
    → compute_worst_case_aligned_size size align ≡ size + align + 48
unfolding compute_worst_case_aligned_size
worst_large size align bit wrap =
    rw (==_of_ne (sub64 align 1 / 16 % 2) 0 (λ e. absurd (omega (arith, e, bit))))
      (omega (arith, wrap))

align_up-multiple : (n a : ℕ) → 0 < a → align_up n a % a ≡ 0
unfolding align_up
align_up-multiple n a pos = align_down-multiple (sub64 (add64 n a) 1) a pos

module _ (base edge size align : ℕ) (room : Room base edge size align) where
  wraps_not : size + align + 256 < 2 ^ 64
  wraps_not = omega (arith, room.no_wrap)

  below_edge : base + size + 32 ≤ edge
  below_edge = elim (room.alignment) [
    | inl bit ↦ omega (arith, room.fits, worst_large size align bit wraps_not)
    | inr (bit, _) ↦ omega (arith, room.fits, worst_small size align bit wraps_not)
  ]

  -- An address that has to be moved up belongs to an alignment above 16.
  moved : (base + 32) % align ≢ 0 → base + (size + align + 48) ≤ edge
  moved other = elim (room.alignment) [
    | inl bit ↦ omega (arith, room.fits, worst_large size align bit wraps_not)
    | inr (_, small) ↦ absurd (other (small (base + 32) (omega (arith, room.base_aligned))))
  ]

  return_addr-bounds :
      (base + 32 ≤ first_aligned_address base align)
      × (first_aligned_address base align + size ≤ edge)
      × (first_aligned_address base align % align ≡ 0)
  unfolding first_aligned_address
  return_addr-bounds =
      let out : add64 base 32 ≡ base + 32 = omega (arith, room.no_wrap, room.minimum) in
      elim (==_cases ((base + 32) % align) 0) [
        | inl multiple ↦
            rw (out, ==_of_eq ((base + 32) % align) 0 multiple)
              (omega arith, omega (arith, below_edge), multiple)
        | inr other ↦
            let in_range = moved other in
            let past : add64 (base + 32) 16 ≡ base + 48 = omega (arith, room.no_wrap, in_range) in
            let (lo, hi) =
              align_up_bounds (base + 48) align room.align_pos
                (omega (arith, room.no_wrap, in_range)) in
            rw (out, ==_of_ne ((base + 32) % align) 0 other, past)
              (
                omega (arith, lo),
                omega (arith, hi, in_range),
                align_up-multiple (base + 48) align room.align_pos,
              )
      ]

-- The edges of the pieces, from the address returned.
edges_fit :
    (base edge size r : ℕ)
    → base % 16 ≡ 0
    → edge % 16 ≡ 0
    → base + 96 ≤ edge
    → base + 32 ≤ r
    → r + size ≤ edge
    → edge + size + 256 < 2 ^ 64
    → 64 ≤ size
    → (base ≤ lower_edge base r)
      × (lower_edge base r + 32 ≤ r)
      × ((lower_edge base r ≡ base) ⊎ (base + 96 ≤ lower_edge base r))
      × (lower_edge base r % 16 ≡ 0)
unfolding lower_edge header_below align_down
edges_fit base edge size r ba ea min lo hi wrap big = ground arith

upper_fits :
    (edge size r h : ℕ)
    → edge % 16 ≡ 0
    → h % 16 ≡ 0
    → h + 96 ≤ edge
    → r + size ≤ edge
    → edge + size + 256 < 2 ^ 64
    → (r + size ≤ upper_edge edge (next_after r size h))
      × (h + 96 ≤ upper_edge edge (next_after r size h))
      × (upper_edge edge (next_after r size h) ≤ edge)
      × ((upper_edge edge (next_after r size h) ≡ edge)
          ⊎ (upper_edge edge (next_after r size h) + 96 ≤ edge))
      × (upper_edge edge (next_after r size h) % 16 ≡ 0)
unfolding upper_edge next_after align_up align_down
upper_fits edge size r h ea ha min hi wrap = ground arith

header_room :
    (base edge size r h : ℕ)
    → base + 96 ≤ edge
    → h + 32 ≤ r
    → (h ≡ base) ⊎ (base + 96 ≤ h)
    → r + size ≤ edge
    → 64 ≤ size
    → h + 96 ≤ edge
header_room base edge size r h min header (inl e) hi big = omega arith
header_room base edge size r h min header (inr e) hi big = omega arith

-- The pieces of a free block: what is left below, the allocated block and what is left above.
pub record IsCarved (base edge size align : ℕ) (c : Carved) : Type 0 where
  pub below : (c.header_base ≡ base) ⊎ (base + 96 ≤ c.header_base)
  pub header_fits : c.header_base + 32 ≤ c.return_addr
  pub aligned : c.return_addr % align ≡ 0
  pub bytes_fit : c.return_addr + size ≤ c.next_header
  pub large_enough : c.header_base + 96 ≤ c.next_header
  pub above : (c.next_header ≡ edge) ⊎ (c.next_header + 96 ≤ edge)
  pub headers_aligned : (c.header_base % 16 ≡ 0) × (c.next_header % 16 ≡ 0)

-- An allocation of 64 bytes or more, in a free block of the padded size: the bytes returned lie within
-- the block, at an aligned address behind a header, and what is left on either side is nothing or a
-- block of the minimum size, with its header aligned.
pub carve-IsCarved :
    (base edge size align : ℕ)
    → Room base edge size align
    → 64 ≤ size
    → IsCarved base edge size align (carve base edge size align)
unfolding carve
carve-IsCarved base edge size align room big =
    let r = first_aligned_address base align in
    let (lo, hi, aligned) = return_addr-bounds base edge size align room in
    let wrap : edge + size + 256 < 2 ^ 64 = omega (arith, room.no_wrap) in
    let h = lower_edge base r in
    let (from, header, below, h_aligned) =
      edges_fit base edge size r room.base_aligned room.edge_aligned room.minimum lo hi wrap big in
    let (bytes, large, within, above, next_aligned) =
      upper_fits edge size r h room.edge_aligned h_aligned
        (header_room base edge size r h room.minimum header below hi big) hi wrap in
    record {
      below = below;
      header_fits = header;
      aligned = aligned;
      bytes_fit = bytes;
      large_enough = large;
      above = above;
      headers_aligned = (h_aligned, next_aligned);
    }

overruns_at :
    (base edge size r : ℕ)
    → base % 16 ≡ 0
    → base + 128 ≤ r
    → r % 16 ≡ 0
    → r + size ≤ edge
    → edge < r + 64
    → edge + 256 < 2 ^ 64
    → edge < upper_edge edge (next_after r size (lower_edge base r))
unfolding lower_edge upper_edge next_after header_below align_up align_down
overruns_at base edge size r b lo ra hi near wrap = ground arith

-- Where the header is moved up and the returned address is less than 64 bytes below the edge, the
-- next header lies behind the edge: the allocated block reaches beyond the free block that it is
-- carved from.
pub carve_overruns :
    (base edge size align : ℕ)
    → base % 16 ≡ 0
    → base + 128 ≤ first_aligned_address base align
    → first_aligned_address base align % 16 ≡ 0
    → first_aligned_address base align + size ≤ edge
    → edge < first_aligned_address base align + 64
    → edge + 256 < 2 ^ 64
    → edge < (carve base edge size align).next_header
unfolding carve
carve_overruns base edge size align b lo ra hi near wrap =
    overruns_at base edge size (first_aligned_address base align) b lo ra hi near wrap
