-- ===== src/KeyValue/Read.antt =====
-- Reading back what core/kv_pair.c prints in its style of key="value".
use mosys.Common.{
  ℕ, zero, suc, ◌≡◌, ◌≢◌, refl, ap, ◌∙◌, Bool, true, false, Option, none, some, List, [], ◌∷◌, ◌++◌,
  ◌==◌, if◌then◌else◌, done, Heap, length, arith, append_assoc, ok, Bool-cases, inl, inr,
}
use mosys.KeyValue.{KvPair, style_pair, print_pair, kv_pair_print_to_file, escape}
use mosys.KeyValue.Chain.{Pairs, IsPairs}
use mosys.KeyValue.Render.{printed, print_loop-Chain}

abbrev keep : ℕ → Option (List ℕ × List ℕ) → Option (List ℕ × List ℕ)
keep c none = none
keep c (some (text, rest)) = some (c ∷ text, rest)

-- A key up to the equals sign, and what is behind that.
abbrev pub read_key : List ℕ → Option (List ℕ × List ℕ)
read_key [] = none
read_key (c ∷ cs) = if c == b'=' then some ([], cs) else keep c (read_key cs)

-- A value up to its closing quote; a character behind a backslash stands for itself.
abbrev pub read_value : Bool → List ℕ → Option (List ℕ × List ℕ)
read_value escaped [] = none
read_value true (c ∷ cs) = keep c (read_value false cs)
read_value false (c ∷ cs) =
    if c == b'"'
    then some ([], cs)
    else if c == b'\\'
    then read_value true cs
    else keep c (read_value false cs)

-- Pairs up to the end of the line, with fuel.
abbrev pub read_pairs : ℕ → List ℕ → Option (List (List ℕ × List ℕ))
read_pairs zero bytes = none
read_pairs (suc fuel) [] = none
read_pairs (suc fuel) (c ∷ cs) = if c == 10 then some [] else elim (read_key (c ∷ cs)) [
  | none ↦ none
  | some (key, at_quote) ↦ elim at_quote [
    | [] ↦ none
    | quote ∷ at_value ↦ elim (read_value false at_value) [
      | none ↦ none
      | some (value, at_space) ↦ elim at_space [
        | [] ↦ none
        | space ∷ rest ↦ elim (read_pairs fuel rest) [
          | none ↦ none
          | some pairs ↦ some ((key, value) ∷ pairs)
        ]
      ]
    ]
  ]
]

abbrev pub NoByte : ℕ → List ℕ → Type 0
NoByte b [] = Unit
NoByte b (c ∷ cs) = (c ≢ b) × NoByte b cs

eqb_false : (a b : ℕ) → a ≢ b → (a == b) ≡ false
eqb_false a b h = ground (arith, h)

read_key-append :
    (key rest : List ℕ) → NoByte b'=' key → read_key (key ++ (b'=' ∷ rest)) ≡ some (key, rest)
read_key-append [] rest clean = refl
read_key-append (c ∷ cs) rest clean =
    rw (eqb_false c b'=' clean.0, read_key-append cs rest clean.1) refl

read_value-escape :
    (value rest : List ℕ)
    → NoByte b'\\' value
    → read_value false (escape value ++ (b'"' ∷ rest)) ≡ some (value, rest)
unfolding escape
read_value-escape [] rest clean = refl
read_value-escape (c ∷ cs) rest clean = elim (Bool-cases (c == b'"')) [
  | inl quote ↦ rw (quote, read_value-escape cs rest clean.1) (ground arith)
  | inr other ↦ rw (other, eqb_false c b'\\' clean.0, read_value-escape cs rest clean.1, other) refl
]

-- Pairs in memory that all have a key and a value.
abbrev pub given : List (ℕ × List ℕ × List ℕ) → Pairs
given [] = []
given ((a, k, v) ∷ ps) = (a, some k, some v) ∷ given ps

abbrev pub named : List (ℕ × List ℕ × List ℕ) → List (List ℕ × List ℕ)
named [] = []
named ((a, k, v) ∷ ps) = (k, v) ∷ named ps

-- The keys have no equals sign and no newline, and the values no backslash.
abbrev pub AllReadable : List (ℕ × List ℕ × List ℕ) → Type 0
AllReadable [] = Unit
AllReadable ((a, k, v) ∷ ps) = NoByte b'=' k × NoByte 10 k × NoByte b'\\' v × AllReadable ps

pair_text : List ℕ → List ℕ → List ℕ → List ℕ
pair_text k v rest = k ++ (b'=' ∷ b'"' ∷ (escape v ++ (b'"' ∷ b' ' ∷ rest)))

read_pairs-text :
    (k v rest : List ℕ) (fuel : ℕ) (pairs : List (List ℕ × List ℕ))
    → NoByte b'=' k
    → NoByte 10 k
    → NoByte b'\\' v
    → read_pairs fuel rest ≡ some pairs
    → read_pairs (suc fuel) (pair_text k v rest) ≡ some ((k, v) ∷ pairs)
unfolding pair_text
read_pairs-text [] v rest fuel pairs no_equals no_newline no_backslash later =
    rw (read_value-escape v (b' ' ∷ rest) no_backslash, later) refl
read_pairs-text (c ∷ cs) v rest fuel pairs no_equals no_newline no_backslash later =
    rw
      (
        eqb_false c 10 no_newline.0,
        eqb_false c b'=' no_equals.0,
        read_key-append cs (b'"' ∷ (escape v ++ (b'"' ∷ b' ' ∷ rest))) no_equals.1,
        read_value-escape v (b' ' ∷ rest) no_backslash,
        later,
      )
      refl

print_pair-pair_text :
    (single_key : Option (List ℕ)) (k v rest : List ℕ) (has_next : Bool)
    → (print_pair style_pair single_key k v has_next).0 ++ rest ≡ pair_text k v rest
unfolding print_pair pair_text
print_pair-pair_text single_key k v rest has_next =
    append_assoc k _ rest
    ∙ ap (λ r. k ++ (b'=' ∷ b'"' ∷ r)) (append_assoc (escape v) (b'"' ∷ b' ' ∷ []) rest)

read_pairs-printed :
    (single_key : Option (List ℕ)) (ps : List (ℕ × List ℕ × List ℕ))
    → AllReadable ps
    → read_pairs (suc (length ps)) ((printed style_pair single_key (given ps)).0 ++ (10 ∷ []))
      ≡ some (named ps)
read_pairs-printed single_key [] clean = refl
read_pairs-printed single_key ((a, k, v) ∷ ps) clean =
    ap (read_pairs (suc (suc (length ps)))) (
      append_assoc (print_pair style_pair single_key k v _).0
        (printed style_pair single_key (given ps)).0 (10 ∷ [])
      ∙ print_pair-pair_text single_key k v _ _)
    ∙ read_pairs-text k v _ (suc (length ps)) (named ps) clean.0 clean.1 clean.2
        (read_pairs-printed single_key ps clean.3)

-- In the style of key="value" the printed line reads back as the pairs in their order, if each has a
-- key and a value, no key an equals sign or a newline, and no value a backslash.
pub read_pairs-kv_pair_print_to_file :
    (st : Heap KvPair) (kv_list : ℕ) (single_key : Option (List ℕ))
    (ps : List (ℕ × List ℕ × List ℕ))
    → IsPairs st kv_list (given ps)
    → AllReadable ps
    → (out : List ℕ) × (kv_pair_print_to_file
          (suc (length (given ps)))
          st
          kv_list
          style_pair
          single_key
        ≡ done (ok, out))
      × (read_pairs (suc (length ps)) out ≡ some (named ps))
unfolding kv_pair_print_to_file
read_pairs-kv_pair_print_to_file st kv_list single_key ps h clean = (
  (printed style_pair single_key (given ps)).0 ++ (10 ∷ []),
  rw
      (
        h.starts,
        print_loop-Chain style_pair single_key (given ps) (suc (length (given ps))) st [] false
            h.chain (omega arith),
      )
      refl,
  read_pairs-printed single_key ps clean,
)
