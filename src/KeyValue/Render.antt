-- ===== src/KeyValue/Render.antt =====
-- What `kv_pair_print_to_file` of core/kv_pair.c prints of a list.
use mosys.Common.{
  ℕ, zero, suc, ◌<◌, ◌≡◌, refl, ap₂, ◌∙◌, Bool, true, false, ◌||◌, not, Option, none, some, List,
  [], ◌∷◌, ◌++◌, ◌==◌, if◌then◌else◌, Run, done, Heap, load_cell, ne_zero, length, arith,
  append_assoc, append-nil,
}
use mosys.KeyValue.{KvPair, KvPairStyle, print_pair, print_loop}
use mosys.KeyValue.Chain.{Pairs, Chain, first}

module _ (style : KvPairStyle) (single_key : Option (List ℕ)) where
  -- What the pairs that have a key and a value are printed as, and whether one is asked for.
  abbrev pub printed : Pairs → List ℕ × Bool
  printed [] = ([], false)
  printed ((a, none, v) ∷ xs) = printed xs
  printed ((a, some k, none) ∷ xs) = printed xs
  printed ((a, some k, some v) ∷ xs) =
      let (text, matched) = print_pair style single_key k v (not (first xs == 0)) in
      let (texts, others) = printed xs in (text ++ texts, matched || others)

  pub print_loop-Chain :
      (xs : Pairs) (fuel : ℕ) (st : Heap KvPair) (out : List ℕ) (found : Bool)
      → Chain st xs
      → length xs < fuel
      → print_loop fuel st style single_key (first xs) out found
        ≡ done (out ++ (printed xs).0, found || (printed xs).1)
  unfolding print_loop
  print_loop-Chain xs zero st out found chain enough = absurd (omega arith)
  print_loop-Chain [] (suc fuel) st out found chain enough =
      rw (append-nil out)
        (elim found as (λ b. Path (Run (List ℕ × Bool)) (done (out, b)) (done (out, b || false))) [
          | true ↦ refl
          | false ↦ refl
        ])
  print_loop-Chain ((a, none, v) ∷ xs) (suc fuel) st out found chain enough =
      rw (ne_zero a chain.0, load_cell st a _ chain.1)
        (print_loop-Chain xs fuel st out found chain.2 (omega arith))
  print_loop-Chain ((a, some k, none) ∷ xs) (suc fuel) st out found chain enough =
      rw (ne_zero a chain.0, load_cell st a _ chain.1)
        (print_loop-Chain xs fuel st out found chain.2 (omega arith))
  print_loop-Chain ((a, some k, some v) ∷ xs) (suc fuel) st out found chain enough =
      rw (ne_zero a chain.0, load_cell st a _ chain.1)
        (print_loop-Chain xs fuel st _ _ chain.2 (omega arith)
          ∙ ap₂ (λ text b. done (text, b)) (append_assoc out _ (printed xs).0)
              (either_found _ found (printed xs).1))
    where
      either_found : (b c d : Bool) → ((if b then true else c) || d) ≡ (c || (b || d))
      either_found b c d = ground arith
