-- ===== src/KeyValue/Tests.antt =====
-- Runs of core/kv_pair.c on a list of two pairs, at the addresses 16 and 32.
use mosys.Common.{
  ℕ, ◌≡◌, ◌==◌, ◌++◌, if◌then◌else◌, refl, none, some, List, [], ◌∷◌, done, arith, Heap, ok, failed,
}
use mosys.KeyValue.{KvPair, style_pair, style_single, kv_pair_add, kv_pair_print_to_file}
use mosys.KeyValue.Chain.{IsPairs, kv_pair_add-IsPairs}
use mosys.KeyValue.Read.{given, named, read_pairs, read_pairs-kv_pair_print_to_file}
use mosys.KeyValue.Single.{asked, joined, some_value, kv_pair_print_to_file-asked}

-- name="a" and size="7\"".
abbrev name : List ℕ
name = b'n' ∷ b'a' ∷ []

abbrev size : List ℕ
size = b's' ∷ []

abbrev quoted : List ℕ
quoted = b'7' ∷ b'"' ∷ []

abbrev heap : Heap KvPair
heap a =
    if a == 16
    then some (record { key = some name; value = some (b'a' ∷ []); next = 32 })
    else if a == 32
    then some (record { key = some size; value = some quoted; next = 0 })
    else none

abbrev pairs : List (ℕ × List ℕ × List ℕ)
pairs = (16, name, b'a' ∷ []) ∷ (32, size, quoted) ∷ []

heap-IsPairs : IsPairs heap 16 (given pairs)
heap-IsPairs = record {
  chain = (λ e. omega (arith, e), refl, (λ e. omega (arith, e), refl, tt));
  unique = ((λ e. omega (arith, e), tt), (tt, tt));
  starts = refl;
}

kv_pair_add-IsPairs_example :
    (st' : Heap KvPair) × (kv_pair_add 2 48 heap 16 (some size) none ≡ done (48, st'))
    × IsPairs st' 16 (given pairs ++ ((48, some size, none) ∷ []))
kv_pair_add-IsPairs_example =
    kv_pair_add-IsPairs 48 heap 16 (given pairs) (some size) none heap-IsPairs (record {
      not_null = λ e. omega (arith, e);
      absent = (λ e. omega (arith, e), (λ e. omega (arith, e), tt));
    })

read_pairs-kv_pair_print_to_file_example :
    (out : List ℕ) × (kv_pair_print_to_file 3 heap 16 style_pair none ≡ done (ok, out))
    × (read_pairs 3 out ≡ some (named pairs))
read_pairs-kv_pair_print_to_file_example =
    read_pairs-kv_pair_print_to_file heap 16 none pairs heap-IsPairs (
      (λ e. omega (arith, e), (λ e. omega (arith, e), tt)),
      (λ e. omega (arith, e), (λ e. omega (arith, e), tt)),
      (λ e. omega (arith, e), tt),
      (
        (λ e. omega (arith, e), tt),
        (λ e. omega (arith, e), tt),
        (λ e. omega (arith, e), (λ e. omega (arith, e), tt)),
        tt,
      ),
    )

kv_pair_print_to_file-asked_example :
    kv_pair_print_to_file 3 heap 16 style_single (some size)
    ≡ done (
        if some_value (asked size (given pairs))
        then (ok, joined (asked size (given pairs)) ++ (10 ∷ []))
        else (failed, joined (asked size (given pairs))))
kv_pair_print_to_file-asked_example =
    kv_pair_print_to_file-asked heap 16 size (given pairs) heap-IsPairs
