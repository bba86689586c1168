-- ===== src/Array.antt =====
-- core/dynarray.c: arrays that grow. The slots hold values; the sharing of an array that is an item, and the
-- texts of the items, do not show, nor that `arr_get_at` copies what it answers. `xmalloc` answers memory that is
-- cleared, and a cleared slot is nil.
pub mod Growth
pub mod Access
mod Tests
use base_nexs.Common.{
  ℕ, zero, suc, ◌+◌, ◌-◌, ◌*◌, ◌%◌, ◌^◌, Bool, true, false, Option, none, some, List, [], ◌∷◌, ◌++◌,
  leb, ltb, ◌==◌, if◌then◌else◌, update,
}
use base_nexs.Value.{Value, nil, err}

-- `DynArray`
pub record DynArray : Type 0 where
  pub items : ℕ → Value
  pub size : ℕ
  pub capacity : ℕ
  pub refcount : ℕ

unfoldable pub arr_create_anon : DynArray
arr_create_anon = record { items = λ _. nil; size = 0; capacity = 4; refcount = 1 }

-- `while (nc <= index) nc <<= 1`; `none` is a loop that ran out of fuel.
unfoldable pub grow_loop : ℕ → ℕ → ℕ → Option ℕ
grow_loop zero index nc = none
grow_loop (suc fuel) index nc =
    let more = grow_loop fuel index (nc * 2 % 2 ^ 64) in if leb nc index then more else some nc

-- What a call ends with: the loop ran out of fuel; `die` ended the program; the block is smaller than the items, and
-- what is written then is outside it; or the array.
pub data Ended : Type 0 where
  stuck died overrun : Ended
  done : DynArray → Ended

-- Whether `xmalloc` answers. `has_room n` is whether `buddy_alloc` has a block of `n` bytes in the pool as it is, which
-- holds the memory of the other parts too.
unfoldable pub xmalloc : (ℕ → Bool) → ℕ → Bool
xmalloc has_room size = has_room (if size == 0 then 1 else size)

-- `sizeof(Value)` on a 64-bit machine.
abbrev pub value_size : ℕ
value_size = 48

-- The items go to a block for `nc` items. Those above the old capacity are cleared.
unfoldable pub grow_to : (ℕ → Bool) → DynArray → ℕ → Ended
grow_to has_room arr nc =
    let bytes : ℕ = nc * value_size % 2 ^ 64 in
    if xmalloc has_room bytes
    then (if bytes == nc * value_size
        then done (record arr {
          items = λ i. if ltb i arr.capacity then arr.items i else nil;
          capacity = nc;
        })
        else overrun)
    else died

unfoldable pub arr_ensure_cap : (ℕ → Bool) → ℕ → DynArray → ℕ → Ended
arr_ensure_cap has_room fuel arr index =
    if ltb index arr.capacity then done arr else elim (grow_loop fuel index arr.capacity) [
      | none ↦ stuck
      | some nc ↦ grow_to has_room arr nc
    ]

-- `arr->items[index] = val_clone(&val)`
unfoldable pub set_item : DynArray → ℕ → Value → DynArray
set_item a index val = record a {
  items = update a.items index val;
  size = if leb a.size index then index + 1 else a.size;
}

-- `can_copy val` is whether the pool has then room for the texts of a copy of `val`, or `val_clone` dies.
unfoldable pub arr_set : (ℕ → Bool) → (Value → Bool) → ℕ → DynArray → ℕ → Value → Ended
arr_set has_room can_copy fuel arr index val = elim (arr_ensure_cap has_room fuel arr index) [
  | stuck ↦ stuck
  | died ↦ died
  | overrun ↦ overrun
  | done a ↦ if can_copy val then done (set_item a index val) else died
]

-- The text of the error is "index out of range".
unfoldable pub arr_get_at : DynArray → ℕ → Value
arr_get_at arr index =
    if leb arr.size index
    then err 2 (
        105 ∷ 110 ∷ 100 ∷ 101 ∷ 120 ∷ 32 ∷ 111 ∷ 117 ∷ 116 ∷ 32 ∷ 111 ∷ 102 ∷ 32 ∷ 114 ∷ 97 ∷ 110
        ∷ 103 ∷ 101 ∷ [])
    else arr.items index

unfoldable pub arr_delete : DynArray → ℕ → DynArray
arr_delete arr index =
    if leb arr.size index then arr else record arr { items = update arr.items index nil }

unfoldable pub arr_ref : DynArray → DynArray
arr_ref arr = record arr { refcount = arr.refcount + 1 }

-- `none`: the last reference is gone, and the array is freed.
unfoldable pub arr_unref : DynArray → Option DynArray
arr_unref arr =
    if leb arr.refcount 1 then none else some (record arr { refcount = arr.refcount - 1 })
