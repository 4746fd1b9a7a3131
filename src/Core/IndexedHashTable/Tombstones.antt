-- ===== src/Core/IndexedHashTable/Tombstones.antt =====
-- Probing a table of libraries/Core/include/core/ds/IndexedHashTable.h that has no empty entry.
use cro_cos.Base.{
  ℕ, zero, suc, ◌%◌, ◌≡◌, Bool, true, false, Option, none, some, not, refl, ◌⊎◌, inl, inr, arith,
  ◌+◌, ◌<◌, ◌≤◌, lt_cases, ==_cases, ==_of_eq, ==_of_ne, ◌==◌, if◌then◌else◌,
}
use native.Mathlib.Nat.{mod-lt, mod-eq_of_lt, mod_self}
use cro_cos.Core.IndexedHashTable.{
  Entry, empty_entry, tombstone, occupied, IndexedHashTable, probe_loop, probe_entry, contains,
  Probe, not_reached, is_tombstone, probe_round,
}

-- The next index, at the end of the table and before.
next_index :
    (index capacity : ℕ)
    → index < capacity
    → ((index + 1 < capacity) × ((index + 1) % capacity ≡ index + 1))
      ⊎ ((index + 1 ≡ capacity) × ((index + 1) % capacity ≡ 0))
next_index index capacity lt = elim (lt_cases (index + 1) capacity) [
  | inl inside ↦ inl (inside, mod-eq_of_lt inside)
  | inr beyond ↦
      let last : index + 1 ≡ capacity = omega (arith, lt, beyond) in
      inr (last, rw last (mod_self capacity))
]

module _ {ℓ κ} {A : Type ℓ} {Key : Type κ} (hash : Key → ℕ) (same_key : Key → Key → Bool)
    (key_of : A → Key) (key : Key) where
  -- Whether the probe for the key passes an entry: a tombstone, or another key.
  abbrev pub passed : Entry A → Bool
  passed empty_entry = false
  passed tombstone = true
  passed (occupied value) = not (same_key (key_of value) key)

  probe_round-passed :
      (e : Entry A) (index : ℕ) (seen : Option ℕ) (later : Probe)
      → passed e ≡ true
      → later ≡ not_reached
      → probe_round hash same_key key_of e key index seen later ≡ not_reached
  probe_round-passed empty_entry index seen later ok ends = cc
  probe_round-passed tombstone index seen later ok ends = ends
  probe_round-passed (occupied value) index seen later ok ends =
      let other : same_key (key_of value) key ≡ false = ground (arith, ok) in rw other ends

  -- With as much fuel as there are entries from the index on, up to the start again, a probe that
  -- passes all entries comes back to the start.
  probe_loop-passed :
      (fuel capacity start index : ℕ) (seen : Option ℕ) (m : ℕ → Entry A)
      → start < capacity
      → index < capacity
      → (start ≤ index → capacity + start ≤ index + fuel)
      → (index < start → start ≤ index + fuel)
      → ((i : ℕ) → i < capacity → passed (m i) ≡ true)
      → probe_loop hash same_key key_of fuel capacity key start index seen m ≡ not_reached
  unfolding probe_loop
  probe_loop-passed zero capacity start index seen m st lt behind ahead all =
      elim (lt_cases index start) [
        | inl before ↦ absurd (omega (arith, before, ahead before))
        | inr from ↦ absurd (omega (arith, lt, from, behind from))
      ]
  probe_loop-passed (suc fuel) capacity start index seen m st lt behind ahead all =
      let next : ℕ = (index + 1) % capacity in
      let seen_then : Option ℕ = if is_tombstone (m index) then some index else seen in
      let rest : Probe = probe_loop hash same_key key_of fuel capacity key start next seen_then m in
      let round : (if next == start then not_reached else rest) ≡ not_reached =
        elim (==_cases next start) [
          | inl back ↦ rw (==_of_eq next start back) refl
          | inr ne ↦ rw (==_of_ne next start ne) (
              probe_loop-passed fuel capacity start next seen_then m st
                (mod-lt (index + 1) (omega (arith, lt)))
                (λ from. elim (next_index index capacity lt) [
                  | inl (inside, e) ↦
                      omega (arith, e, from, ne, behind (omega (arith, e, from, ne)))
                  | inr (last, e) ↦ absurd (ne (omega (arith, e, from)))
                ])
                (λ before. elim (next_index index capacity lt) [
                  | inl (inside, e) ↦ omega (arith, e, ahead (omega (arith, e, before)))
                  | inr (last, e) ↦ omega (arith, e, st, last, behind (omega (arith, st, last)))
                ])
                all)
        ] in
      probe_round-passed (m index) index seen (if next == start then not_reached else rest)
        (all index lt) round

  -- On a table with a buffer and at least one entry, of which none is empty and none holds the key, the
  -- probe comes back to its start, and the assertion behind its loop fails: `contains` does not return.
  pub contains-full_of_tombstones :
      (t : IndexedHashTable A)
      → t.has_buffer ≡ true
      → 0 < t.capacity
      → ((i : ℕ) → i < t.capacity → passed (t.entry_at i) ≡ true)
      → (probe_entry hash same_key key_of key t ≡ not_reached)
        × (contains hash same_key key_of key t ≡ none)
  unfolding contains probe_entry
  contains-full_of_tombstones t buffer some_entries all =
      let start : ℕ = hash key % t.capacity in
      let inside : start < t.capacity = mod-lt (hash key) some_entries in
      let ends : probe_loop hash same_key key_of t.capacity t.capacity key start start none
            t.entry_at
          ≡ not_reached =
        probe_loop-passed t.capacity t.capacity start start none t.entry_at inside inside
          (λ _. omega arith) (λ _. omega arith) all in
      (ends, rw (buffer, ends) refl)
