-- ===== src/Array/Access.antt =====
-- What is stored in an array is found there.
use base_nexs.Common.{ℕ, ◌*◌, ◌≤◌, ◌<◌, ◌≡◌, ◌≢◌, ◌⊎◌, Bool, true, false, ltb, if◌then◌else◌}
use base_nexs.Value.{Value, nil}
use base_nexs.Array.{DynArray, Ended, died, done, value_size, arr_get_at}

-- The used slots lie in the capacity, and the slots between are nil.
pub record IsArray (arr : DynArray) : Type 0 where
  pub room : 0 < arr.capacity
  pub fits : arr.size ≤ arr.capacity
  pub cleared : (i : ℕ) → arr.size ≤ i → i < arr.capacity → arr.items i ≡ nil

-- What `arr_ensure_cap` leaves: the array as it was, in a capacity above the index.
record Ensured (arr a : DynArray) (index : ℕ) : Type 0 where
  size_kept : a.size ≡ arr.size
  big : index < a.capacity
  items_kept : (i : ℕ) → i < arr.size → a.items i ≡ arr.items i
  well : IsArray a

grown : DynArray → ℕ → DynArray
grown arr nc = record arr {
  items = λ i. if ltb i arr.capacity then arr.items i else nil;
  capacity = nc;
}

-- A block of at most twice the index that the pool does not have.
abbrev pub NoBlock : (ℕ → Bool) → DynArray → ℕ → Type 0
NoBlock has_room arr index =
    (arr.capacity ≤ index)
    × ((nc : ℕ) × (index < nc) × (nc ≤ 2 * index) × (has_room (nc * value_size) ≡ false))

-- A block for a capacity that has changed.
abbrev pub HasBlock : (ℕ → Bool) → DynArray → DynArray → ℕ → Type 0
HasBlock has_room arr a index =
    ((index < arr.capacity) × (a.capacity ≡ arr.capacity))
    ⊎ ((arr.capacity ≤ index)
        × (a.capacity ≤ 2 * index)
        × (has_room (a.capacity * value_size) ≡ true))

-- What an array is after a value has been stored: it is found at its index, a value at another index
-- below the old size is as it was, the indices between read as nil, and the size covers the index.
pub record IsStored (arr a : DynArray) (index : ℕ) (val : Value) : Type 0 where
  pub found : arr_get_at a index ≡ val
  pub others : (i : ℕ) → i ≢ index → i < arr.size → arr_get_at a i ≡ arr_get_at arr i
  pub between : (i : ℕ) → arr.size ≤ i → i < index → arr_get_at a i ≡ nil
  pub covers : (index < a.size) × (arr.size ≤ a.size)
  pub well : IsArray a

-- What `arr_set` ends with.
pub data SetOutcome (has_room : ℕ → Bool) (can_copy : Value → Bool) (arr : DynArray) (index : ℕ)
    (val : Value) (o : Ended) : Type 0 where
  stored :
      (a : DynArray)
      → o ≡ done a
      → IsStored arr a index val
      → HasBlock has_room arr a index
      → can_copy val ≡ true
      → SetOutcome has_room can_copy arr index val o
  no_block : o ≡ died → NoBlock has_room arr index → SetOutcome has_room can_copy arr index val o
  no_copy : o ≡ died → can_copy val ≡ false → SetOutcome has_room can_copy arr index val o
