-- ===== src/KeyValue/Chain.antt =====
-- What a list of core/kv_pair.c is, and what `kv_pair_add` does to it.
use mosys.Common.{
  ℕ, zero, suc, ◌<◌, ◌≡◌, ◌≢◌, refl, sym, ◌∙◌, Option, some, List, [], ◌∷◌, ◌++◌, done, Heap, write,
  write_self, write_ne, load_cell, ne_zero, length, arith,
}
use mosys.KeyValue.{KvPair, end_loop, link, kv_pair_add}

-- The pairs' addresses with their keys and values.
abbrev pub Pairs : Type 0
Pairs = List (ℕ × Option (List ℕ) × Option (List ℕ))

abbrev pub first : Pairs → ℕ
first [] = 0
first ((a, k, v) ∷ xs) = a

abbrev pub Absent : ℕ → Pairs → Type 0
Absent b [] = Unit
Absent b ((a, k, v) ∷ xs) = (b ≢ a) × Absent b xs

abbrev pub Unique : Pairs → Type 0
Unique [] = Unit
Unique ((a, k, v) ∷ xs) = Absent a xs × Unique xs

abbrev pub Chain : Heap KvPair → Pairs → Type 0
Chain st [] = Unit
Chain st ((a, k, v) ∷ xs) =
    (a ≢ 0) × (st a ≡ some (record { key = k; value = v; next = first xs })) × Chain st xs

pub record IsPairs (st : Heap KvPair) (head : ℕ) (xs : Pairs) : Type 0 where
  pub chain : Chain st xs
  pub unique : Unique xs
  pub starts : head ≡ first xs

write-Chain :
    (st : Heap KvPair) (b : ℕ) (c : Option KvPair) (xs : Pairs)
    → Absent b xs
    → Chain st xs
    → Chain (write st b c) xs
write-Chain st b c [] absent chain = tt
write-Chain st b c ((a, k, v) ∷ xs) absent chain = (
  chain.0,
  write_ne st b a c (λ e. absent.0 (sym e)) ∙ chain.1,
  write-Chain st b c xs absent.1 chain.2,
)

-- The last pair is found, its link is set, and the new pair is behind it.
linked :
    (xs : Pairs) (fuel : ℕ) (st : Heap KvPair) (a : ℕ) (k v : Option (List ℕ)) (n : ℕ)
    (k' v' : Option (List ℕ))
    → Chain st ((a, k, v) ∷ xs)
    → Unique ((a, k, v) ∷ xs)
    → Absent n ((a, k, v) ∷ xs)
    → n ≢ 0
    → st n ≡ some (record { key = k'; value = v'; next = 0 })
    → length xs < fuel
    → (l : ℕ) × (st' : Heap KvPair) × (end_loop fuel st a ≡ done l)
      × (link st l n ≡ done st')
      × Chain st' ((a, k, v) ∷ (xs ++ ((n, k', v') ∷ [])))
      × ((b : ℕ) → Absent b ((a, k, v) ∷ xs) → st' b ≡ st b)
unfolding end_loop link
linked xs zero st a k v n k' v' chain unique absent some_n new enough = absurd (omega arith)
linked [] (suc fuel) st a k v n k' v' chain unique absent some_n new enough = (
  a,
  write st a (some (record { key = k; value = v; next = n })),
  rw (load_cell st a _ chain.1) refl,
  rw (load_cell st a _ chain.1) refl,
  (chain.0, write_self st a _, (some_n, write_ne st a n _ absent.0 ∙ new, tt)),
  λ b away. write_ne st a b _ away.0,
)
linked ((b, k2, v2) ∷ xs) (suc fuel) st a k v n k' v' chain unique absent some_n new enough =
    let (l, st', ends, links, rest, others) =
      linked xs fuel st b k2 v2 n k' v' chain.2 unique.1 absent.1 some_n new (omega arith) in
    (
      l,
      st',
      rw (load_cell st a _ chain.1, ne_zero b chain.2.0) ends,
      links,
      (chain.0, others a unique.0 ∙ chain.1, rest),
      λ c away. others c away.1,
    )

Unique-snoc :
    (xs : Pairs) (n : ℕ) (k v : Option (List ℕ))
    → Unique xs
    → Absent n xs
    → Unique (xs ++ ((n, k, v) ∷ []))
Unique-snoc [] n k v unique absent = (tt, tt)
Unique-snoc ((a, k2, v2) ∷ xs) n k v unique absent =
    (away xs unique.0, Unique-snoc xs n k v unique.1 absent.1)
  where
    away : (ys : Pairs) → Absent a ys → Absent a (ys ++ ((n, k, v) ∷ []))
    away [] none_there = ((λ e. absent.0 (sym e)), tt)
    away ((b, k3, v3) ∷ ys) there = (there.0, away ys there.1)

-- A free address for a new pair.
pub record IsFree (n : ℕ) (xs : Pairs) : Type 0 where
  pub not_null : n ≢ 0
  pub absent : Absent n xs

-- `kv_pair_add` puts the new pair behind the others, which stay as they are, and returns a pointer to
-- it; without a list the new pair is a list of its own. Its address was free.
pub kv_pair_add-IsPairs :
    (n : ℕ) (st : Heap KvPair) (kv_list : ℕ) (xs : Pairs) (k v : Option (List ℕ))
    → IsPairs st kv_list xs
    → IsFree n xs
    → (st' : Heap KvPair) × (kv_pair_add (length xs) n st kv_list k v ≡ done (n, st'))
      × IsPairs st' (first (xs ++ ((n, k, v) ∷ []))) (xs ++ ((n, k, v) ∷ []))
unfolding kv_pair_add
kv_pair_add-IsPairs n st kv_list [] k v h free = (
  write st n (some (record { key = k; value = v; next = 0 })),
  rw h.starts refl,
  record { chain = (free.not_null, write_self st n _, tt); unique = (tt, tt); starts = refl },
)
kv_pair_add-IsPairs n st kv_list ((a, k2, v2) ∷ xs) k v h free =
    let st0 : Heap KvPair = write st n (some (record { key = k; value = v; next = 0 })) in
    let (l, st', ends, links, chain, others) =
      linked xs (suc (length xs)) st0 a k2 v2 n k v
        (write-Chain st n _ ((a, k2, v2) ∷ xs) free.absent h.chain) h.unique free.absent
        free.not_null (write_self st n _) (omega arith) in
    (
      st',
      rw (h.starts, ne_zero a h.chain.0, ends, links) refl,
      record {
        chain = chain;
        unique = Unique-snoc ((a, k2, v2) ∷ xs) n k v h.unique free.absent;
        starts = refl;
      },
    )
