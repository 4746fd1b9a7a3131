-- ===== src/Core/IndexedHashTable.antt =====
-- libraries/Core/include/core/ds/IndexedHashTable.h: open addressing with linear probing.
--
-- The template's parameters are the section's: the hash, the test of two keys, and the extractor
-- `key_of`. An entry that is not occupied holds no value that is read. `none` stands for an assertion
-- that fails, or a loop that finds no end.
pub mod Tombstones
use cro_cos.Base.{
  ℕ, zero, suc, ◌+◌, ◌-◌, ◌*◌, ◌/◌, ◌%◌, ◌^◌, ◌≤◌, ◌<◌, ◌≡◌, ◌&&◌, ◌||◌, Bool, true, false, not,
  Option, none, some, ltb, leb, ◌==◌, if◌then◌else◌, max,
}
use cro_cos.Base.Memory.{write}
use cro_cos.Core.Math.{divide_and_round_down, divide_and_round_up}

-- `Entry` with its `EntryState`.
pub data Entry {ℓ} (A : Type ℓ) : Type ℓ where
  empty_entry tombstone : Entry A
  occupied : A → Entry A

-- What a probe comes to: an entry, or the assertion behind its loop, which ends where the index is back
-- at its start.
pub data Probe : Type 0 where
  at_index : ℕ → Probe
  not_reached out_of_fuel : Probe

pub record IndexedHashTable {ℓ} (A : Type ℓ) : Type ℓ where
  pub entry_at : ℕ → Entry A
  pub capacity : ℕ
  pub count : ℕ
  pub has_buffer : Bool  -- `entryBuffer != nullptr`

module _ {ℓ} {A : Type ℓ} where
  abbrev pub is_occupied : Entry A → Bool
  is_occupied (occupied _) = true
  is_occupied _ = false

  unfoldable pub with_capacity : ℕ → IndexedHashTable A
  with_capacity n = record {
    entry_at = λ _. empty_entry;
    capacity = n;
    count = 0;
    has_buffer = true;
  }

  unfoldable pub clear : IndexedHashTable A → IndexedHashTable A
  clear t = if t.has_buffer then record t { capacity = 0; count = 0; has_buffer = false } else t

  abbrev pub is_tombstone : Entry A → Bool
  is_tombstone tombstone = true
  is_tombstone _ = false

  -- The inner loop of `resize`: the next index that is not occupied.
  unfoldable pub open_index : ℕ → ℕ → ℕ → (ℕ → Entry A) → Option ℕ
  open_index zero capacity i m = none
  open_index (suc fuel) capacity i m =
      let rest = open_index fuel capacity ((i + 1) % capacity) m in
      if is_occupied (m i) then rest else some i

module _ {ℓ κ} {A : Type ℓ} {Key : Type κ} (hash : Key → ℕ) (same_key : Key → Key → Bool)
    (key_of : A → Key) where
  -- The outer loop of `resize`, over `n` entries from `index` on.
  unfoldable pub rehash : ℕ → ℕ → ℕ → (ℕ → Entry A) → (ℕ → Entry A) → Option (ℕ → Entry A)
  rehash capacity zero index m new = some new
  rehash capacity (suc n) index m new = elim (m index) [
    | occupied value ↦ elim (open_index capacity capacity (hash (key_of value) % capacity) new) [
      | none ↦ none
      | some i ↦ rehash capacity n (index + 1) m (write new i (occupied value))
    ]
    | _ ↦ rehash capacity n (index + 1) m new
  ]

  unfoldable pub resize : ℕ → IndexedHashTable A → Option (IndexedHashTable A)
  unfolding rehash
  resize new_capacity t = elim (rehash new_capacity t.capacity 0 t.entry_at (λ _. empty_entry)) [
    | none ↦ none
    | some new ↦ some (record t { entry_at = new; capacity = new_capacity; has_buffer = true })
  ]

  unfoldable pub resize_if_necessary : IndexedHashTable A → Option (IndexedHashTable A)
  unfolding resize
  resize_if_necessary t =
      let load = divide_and_round_down (t.count * 100 % 2 ^ 64) t.capacity in
      if t.capacity == 0
      then resize 8 t
      else if ltb 75 load
      then resize (t.count * 2 % 2 ^ 64) t
      else if ltb load 30 && ltb 16 t.capacity
      then resize (max (divide_and_round_up (t.count * 6 % 2 ^ 64) 5) 16) t
      else some t

  -- The tests of one round of the probe, which goes on to `later` after a tombstone or another key.
  abbrev pub probe_round : Entry A → Key → ℕ → Option ℕ → Probe → Probe
  probe_round empty_entry key index none later = at_index index
  probe_round empty_entry key index (some t) later = at_index t
  probe_round tombstone key index seen later = later
  probe_round (occupied value) key index seen later =
      if same_key (key_of value) key then at_index index else later

  -- The tombstone that is kept is the last that was seen.
  unfoldable pub probe_loop : ℕ → ℕ → Key → ℕ → ℕ → Option ℕ → (ℕ → Entry A) → Probe
  probe_loop zero capacity key start index seen m = out_of_fuel
  probe_loop (suc fuel) capacity key start index seen m =
      let next = (index + 1) % capacity in
      let seen_then = if is_tombstone (m index) then some index else seen in
      let rest = probe_loop fuel capacity key start next seen_then m in
      probe_round (m index) key index seen (if next == start then not_reached else rest)

  -- A capacity of 0 divides by zero.
  unfoldable pub probe_entry : Key → IndexedHashTable A → Probe
  unfolding probe_loop
  probe_entry key t =
      let start = hash key % t.capacity in
      probe_loop t.capacity t.capacity key start start none t.entry_at

  -- `_insert`: `fresh` is the value for an entry that is not occupied, and `overwrite` what is done
  -- to one that is.
  unfoldable pub insert : Key → A → (A → A) → IndexedHashTable A → Option (IndexedHashTable A)
  unfolding resize_if_necessary probe_entry
  insert key fresh overwrite t = elim (resize_if_necessary t) [
    | none ↦ none
    | some u ↦ elim (probe_entry key u) [
      | not_reached ↦ none
      | out_of_fuel ↦ none
      | at_index i ↦ elim (u.entry_at i) [
        | occupied old ↦
            some (record u { entry_at = write u.entry_at i (occupied (overwrite old)) })
        | _ ↦
            resize_if_necessary
              (record u { entry_at = write u.entry_at i (occupied fresh); count = u.count + 1 })
      ]
    ]
  ]

  -- `_remove`: the table, and whether the key was there.
  unfoldable pub remove : Key → IndexedHashTable A → Option (Bool × IndexedHashTable A)
  remove key t = if not t.has_buffer then some (false, t) else elim (probe_entry key t) [
    | not_reached ↦ none
    | out_of_fuel ↦ none
    | at_index i ↦
        if is_occupied (t.entry_at i)
        then elim (resize_if_necessary
            (record t { entry_at = write t.entry_at i tombstone; count = t.count - 1 })) [
              | none ↦ none
              | some u ↦ some (true, u)
            ]
        else some (false, t)
  ]

  unfoldable pub contains : Key → IndexedHashTable A → Option Bool
  contains key t = if not t.has_buffer then some false else elim (probe_entry key t) [
    | not_reached ↦ none
    | out_of_fuel ↦ none
    | at_index i ↦ some (is_occupied (t.entry_at i))
  ]
