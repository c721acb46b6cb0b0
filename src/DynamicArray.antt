-- ===== src/DynamicArray.antt =====
-- lib/dynamic_array/dynamic_array.c: an array of elements of one size that grows at its end. Failing
-- calls are told to the log, which is left out.
mod Elements
mod Tests
use mathlib.Core.Option
use mosys.Common.{
  ℕ, ◌+◌, ◌-◌, ◌*◌, Option, none, some, List, [], ◌++◌, ltb, if◌then◌else◌, Run, done, access,
  ◌>>=◌, Rc, ok, failed, length, take, drop, peek, poke, u64,
}

-- `data` of the source is `array_data`; NULL is `none`.
pub record DynamicArray : Type 0 where
  pub size : ℕ
  pub element_size : ℕ
  pub array_data : Option (List ℕ)

unfoldable pub new_dynamic_array : ℕ → DynamicArray
new_dynamic_array element_size = record { size = 0; element_size = element_size; array_data = none }

abbrev pub contents : Option (List ℕ) → List ℕ
contents none = []
contents (some bytes) = bytes

-- `realloc` keeps the bytes as far as there is room; `fresh` is what stands in new memory.
abbrev pub realloc : Option (List ℕ) → ℕ → List ℕ → List ℕ
realloc o n fresh = take n (contents o) ++ take (n - length (contents o)) fresh

-- The element is read from a pointer; null pointers are `none`.
unfoldable pub dynamic_array_push_back :
    List ℕ → Option DynamicArray → Option (List ℕ) → Run (Rc × Option DynamicArray)
dynamic_array_push_back fresh none element = done (failed, none)
dynamic_array_push_back fresh (some v) none = done (failed, some v)
dynamic_array_push_back fresh (some v) (some element) = do
  grown ← done (realloc v.array_data (u64 ((v.size + 1) * v.element_size)) fresh)
  bytes ← access (peek element v.element_size)
  filled ← access (poke grown (u64 (v.size * v.element_size)) bytes)
  done (ok, some (record v { array_data = some filled; size = u64 (v.size + 1) }))

-- A pointer is the bytes of the array from it on; `none` is NULL, also for an array that has no memory
-- yet, whose only offset within the bound is 0.
unfoldable pub dynamic_array_get : Option DynamicArray → ℕ → Option (List ℕ)
dynamic_array_get none i = none
dynamic_array_get (some v) i =
    if ltb v.size i then none else Option.map (drop (u64 (i * v.element_size))) v.array_data

-- `none` is -1. The size is at most what an int holds.
unfoldable pub dynamic_array_size : Option DynamicArray → Option ℕ
dynamic_array_size none = none
dynamic_array_size (some v) = some v.size
