-- ===== src/KeyValue.antt =====
-- core/kv_pair.c: lists of keys with values, and their printing. Text is a list of characters without a
-- zero, and NULL for a key or a value is `none`.
mod Chain
mod Render
mod Read
mod Single
mod Tests
use mosys.Common.{
  ℕ, zero, suc, ◌+◌, ◌-◌, Bool, true, false, ◌&&◌, not, Option, none, some, List, [], ◌∷◌, ◌++◌,
  ◌==◌, if◌then◌else◌, Run, done, out_of_fuel, ◌>>=◌, Heap, write, load, length, replicate, Rc, ok,
  failed,
}

-- `enum kv_pair_style`.
pub data KvPairStyle : Type 0 where
  style_pair : KvPairStyle
  style_value : KvPairStyle
  style_long : KvPairStyle
  style_single : KvPairStyle

-- `struct kv_pair`.
pub record KvPair : Type 0 where
  pub key : Option (List ℕ)
  pub value : Option (List ℕ)
  pub next : ℕ

-- The pair that `mosys_zalloc` leaves.
abbrev pub kv_pair_new : KvPair
kv_pair_new = record { key = none; value = none; next = 0 }

-- The address of the last pair, with fuel.
unfoldable pub end_loop : ℕ → Heap KvPair → ℕ → Run ℕ
end_loop zero st kv_ptr = out_of_fuel
end_loop (suc fuel) st kv_ptr =
    load st kv_ptr >>= λ c. if c.next == 0 then done kv_ptr else end_loop fuel st c.next

unfoldable pub link : Heap KvPair → ℕ → ℕ → Run (Heap KvPair)
link st kv_ptr n = load st kv_ptr >>= λ c. done (write st kv_ptr (some (record c { next = n })))

-- The new pair stands at the address `n`, which is returned.
unfoldable pub kv_pair_add :
    ℕ → ℕ → Heap KvPair → ℕ → Option (List ℕ) → Option (List ℕ) → Run (ℕ × Heap KvPair)
kv_pair_add fuel n st kv_list new_key new_value = do
  st0 ← done (write st n (some (record kv_pair_new { key = new_key; value = new_value })))
  st1 ←
      if kv_list == 0 then done st0 else (end_loop fuel st0 kv_list >>= λ kv_ptr. link st0 kv_ptr n)
  done (n, st1)

-- "yes" and "no".
abbrev pub text_yes : List ℕ
text_yes = b'y' ∷ b'e' ∷ b's' ∷ []

abbrev pub text_no : List ℕ
text_no = b'n' ∷ b'o' ∷ []

unfoldable pub kv_pair_add_bool :
    ℕ → ℕ → Heap KvPair → ℕ → Option (List ℕ) → ℕ → Run (ℕ × Heap KvPair)
kv_pair_add_bool fuel n st kv_list new_key new_value =
    kv_pair_add fuel n st kv_list new_key (some (if new_value == 0 then text_no else text_yes))

unfoldable pub kv_pair_free : ℕ → Heap KvPair → ℕ → Run (Heap KvPair)
kv_pair_free zero st kv_ptr = out_of_fuel
kv_pair_free (suc fuel) st kv_ptr =
    if kv_ptr == 0
    then done st
    else load st kv_ptr >>= λ c. kv_pair_free fuel (write st kv_ptr none) c.next

-- `!strncmp(a, b, n)`.
unfoldable pub strncmp_eq : List ℕ → List ℕ → ℕ → Bool
strncmp_eq a b zero = true
strncmp_eq [] [] (suc n) = true
strncmp_eq [] (y ∷ ys) (suc n) = false
strncmp_eq (x ∷ xs) [] (suc n) = false
strncmp_eq (x ∷ xs) (y ∷ ys) (suc n) = (x == y) && strncmp_eq xs ys n

unfoldable pub escape : List ℕ → List ℕ
escape [] = []
escape (c ∷ cs) = if c == b'"' then b'\\' ∷ b'"' ∷ escape cs else c ∷ escape cs

-- "%-20s".
abbrev pub padded : List ℕ → List ℕ
padded text = text ++ replicate (20 - length text) b' '

abbrev pub separator : List ℕ
separator = b' ' ∷ b'|' ∷ b' ' ∷ []

-- What one pair with a key and a value is printed as, and whether it is the one that `-s` asks for.
unfoldable pub print_pair : KvPairStyle → Option (List ℕ) → List ℕ → List ℕ → Bool → List ℕ × Bool
print_pair style_pair single_key key value has_next =
    (key ++ (b'=' ∷ b'"' ∷ (escape value ++ (b'"' ∷ b' ' ∷ []))), false)
print_pair style_value single_key key value has_next =
    (value ++ (if has_next then separator else []), false)
print_pair style_long single_key key value has_next =
    (padded key ++ (separator ++ (value ++ (if has_next then 10 ∷ [] else []))), false)
print_pair style_single none key value has_next = ([], false)
print_pair style_single (some single_key) key value has_next =
    if strncmp_eq single_key key (length key) then (value, true) else ([], false)

-- The `for` loop, with fuel: the output so far, and `single_found`.
unfoldable pub print_loop :
    ℕ → Heap KvPair → KvPairStyle → Option (List ℕ) → ℕ → List ℕ → Bool → Run (List ℕ × Bool)
print_loop zero st style single_key kv_ptr out single_found = out_of_fuel
print_loop (suc fuel) st style single_key kv_ptr out single_found =
    if kv_ptr == 0
    then done (out, single_found)
    else (load st kv_ptr >>= λ c. elim c.key [
      | none ↦ print_loop fuel st style single_key c.next out single_found
      | some key ↦ elim c.value [
        | none ↦ print_loop fuel st style single_key c.next out single_found
        | some value ↦
            let (text, matched) = print_pair style single_key key value (not (c.next == 0)) in
            print_loop fuel st style single_key c.next (out ++ text)
              (if matched then true else single_found)
      ]
    ])

abbrev pub is_single : KvPairStyle → Bool
is_single style_single = true
is_single style_pair = false
is_single style_value = false
is_single style_long = false

unfoldable pub kv_pair_print_to_file :
    ℕ → Heap KvPair → ℕ → KvPairStyle → Option (List ℕ) → Run (Rc × List ℕ)
kv_pair_print_to_file fuel st kv_list style single_key =
    print_loop fuel st style single_key kv_list [] false >>= λ (out, single_found).
    if is_single style && not single_found then done (failed, out) else done (ok, out ++ (10 ∷ []))
