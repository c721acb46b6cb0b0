-- ===== src/LinkedList/Walk.antt =====
-- What the loops of core/list.c over a list give.
use mosys.Common.{
  ℕ, zero, suc, ◌+◌, ◌<◌, ◌≡◌, refl, sym, ap, ◌∙◌, none, some, done, write, write_self, write_ne,
  load_cell, ne_zero, [], ◌∷◌, ◌++◌, arith, length, length-append, append_assoc, subst,
}
use mosys.LinkedList.{Memory, list_head, count_loop, list_count, list_cleanup, list_foreach}
use mosys.LinkedList.Chain.{
  Cells, Chain, Absent, Unique, IsList, first, last, write-Chain, Chain-split, first-append,
}

count_loop-Chain :
    (xs : Cells) (fuel : ℕ) (st : Memory) (p num : ℕ)
    → Chain st p xs 0
    → length xs < fuel
    → count_loop fuel st (first xs 0) num ≡ done (num + length xs)
unfolding count_loop
count_loop-Chain xs zero st p num chain enough = absurd (omega arith)
count_loop-Chain [] (suc fuel) st p num chain enough = ap done (omega arith)
count_loop-Chain ((a, d) ∷ xs) (suc fuel) st p num chain enough =
    rw (ne_zero a chain.0, load_cell st a _ chain.1)
      (count_loop-Chain xs fuel st a (num + 1) chain.2 (omega arith) ∙ ap done (omega arith))

-- The nodes' callbacks one after another.
abbrev pub visit {ℓ} : {S : Type ℓ} → (ℕ → S → S) → Cells → S → S
visit callback [] s = s
visit callback ((a, d) ∷ xs) s = visit callback xs (callback a s)

foreach-Chain {ℓ} :
    {S : Type ℓ} (xs : Cells) (fuel : ℕ) (st : Memory) (p : ℕ) (callback : ℕ → S → S) (s : S)
    → Chain st p xs 0
    → length xs < fuel
    → list_foreach fuel st (first xs 0) (some callback) s ≡ done (visit callback xs s)
unfolding list_foreach
foreach-Chain xs zero st p callback s chain enough = absurd (omega arith)
foreach-Chain [] (suc fuel) st p callback s chain enough = refl
foreach-Chain ((a, d) ∷ xs) (suc fuel) st p callback s chain enough =
    rw (ne_zero a chain.0, load_cell st a _ chain.1)
      (foreach-Chain xs fuel st a callback (callback a s) chain.2 (omega arith))

-- The walks over a list end, with one round more than there are nodes: `list_count` gives their
-- number, and `list_foreach` calls the callback with each node once, in order.
pub list_foreach-IsList {ℓ} :
    {S : Type ℓ} (st : Memory) (head : ℕ) (xs : Cells) (callback : ℕ → S → S) (s : S)
    → IsList st head xs
    → (list_count (suc (length xs)) st head ≡ done (length xs))
      × (list_foreach (suc (length xs)) st head (some callback) s ≡ done (visit callback xs s))
list_foreach-IsList st head xs callback s h = (
  rw h.starts
      (count_loop-Chain xs (suc (length xs)) st 0 0 h.chain (omega arith) ∙ ap done (omega arith)),
  rw h.starts (foreach-Chain xs (suc (length xs)) st 0 callback s h.chain (omega arith)),
)

-- The memory without the nodes.
abbrev pub freed : Cells → Memory → Memory
freed [] st = st
freed ((a, d) ∷ xs) st = freed xs (write st a none)

cleanup-Chain :
    (xs : Cells) (fuel : ℕ) (st : Memory) (p : ℕ)
    → Chain st p xs 0
    → Unique xs
    → length xs < fuel
    → list_cleanup fuel st (first xs 0) ≡ done (0, freed xs st)
unfolding list_cleanup
cleanup-Chain xs zero st p chain unique enough = absurd (omega arith)
cleanup-Chain [] (suc fuel) st p chain unique enough = refl
cleanup-Chain ((a, d) ∷ xs) (suc fuel) st p chain unique enough =
    rw (ne_zero a chain.0, load_cell st a _ chain.1)
      (cleanup-Chain xs fuel (write st a none) a (write-Chain st a none a xs 0 unique.0 chain.2)
        unique.1 (omega arith))

freed_others : (xs : Cells) (st : Memory) (b : ℕ) → Absent b xs → freed xs st b ≡ st b
freed_others [] st b absent = refl
freed_others ((a, d) ∷ xs) st b absent =
    freed_others xs (write st a none) b absent.1 ∙ write_ne st a b none absent.0

freed-none :
    (xs ys : Cells) (a d : ℕ) (st : Memory)
    → Unique (xs ++ ((a, d) ∷ ys))
    → freed (xs ++ ((a, d) ∷ ys)) st a ≡ none
freed-none [] ys a d st unique = freed_others ys (write st a none) a unique.0 ∙ write_self st a none
freed-none ((b, e) ∷ xs) ys a d st unique = freed-none xs ys a d (write st b none) unique.1

-- With one round more than there are nodes `list_cleanup` frees every node of a list and nothing else, and the head is NULL then.
pub list_cleanup-IsList :
    (st : Memory) (head : ℕ) (xs : Cells)
    → IsList st head xs
    → (st' : Memory) × (list_cleanup (suc (length xs)) st head ≡ done (0, st'))
      × ((b : ℕ) → Absent b xs → st' b ≡ st b)
      × ((before behind : Cells) (a d : ℕ) → xs ≡ before ++ ((a, d) ∷ behind) → st' a ≡ none)
list_cleanup-IsList st head xs h = (
  freed xs st,
  rw h.starts (cleanup-Chain xs (suc (length xs)) st 0 h.chain h.unique (omega arith)),
  freed_others xs st,
  λ before behind a d e.
      ap (λ cells. freed cells st a) e ∙ freed-none before behind a d st (subst Unique e h.unique),
)

last-append : (xs : Cells) (p b e : ℕ) → last p (xs ++ ((b, e) ∷ [])) ≡ b
last-append [] p b e = refl
last-append ((a, d) ∷ xs) p b e = last-append xs a b e

first-snoc : (xs : Cells) (b e a : ℕ) → first (xs ++ ((b, e) ∷ [])) a ≡ first xs b
first-snoc [] b e a = refl
first-snoc ((c, d) ∷ xs) b e a = refl

data EndView : Cells → Type 0 where
  empty : EndView []
  ending : (xs : Cells) (b e : ℕ) → EndView (xs ++ ((b, e) ∷ []))

end_cons : (a d : ℕ) (xs : Cells) → EndView xs → EndView ((a, d) ∷ xs)
end_cons a d [] empty = ending [] a d
end_cons a d _ (ending xs b e) = ending ((a, d) ∷ xs) b e

end_view : (xs : Cells) → EndView xs
end_view [] = empty
end_view ((a, d) ∷ xs) = end_cons a d xs (end_view xs)

head-Chain :
    (fuel : ℕ) (st : Memory) (xs : Cells) (a d : ℕ) (ys : Cells)
    → EndView xs
    → Chain st 0 (xs ++ ((a, d) ∷ ys)) 0
    → length xs < fuel
    → list_head fuel st a ≡ done (first xs a)
unfolding list_head
head-Chain zero st xs a d ys view chain enough = absurd (omega arith)
head-Chain (suc fuel) st [] a d ys empty chain enough = rw (load_cell st a _ chain.1) refl
head-Chain (suc fuel) st _ a d ys (ending xs b e) chain enough =
    rw
      (
        load_cell st a _ here.1.1,
        last-append xs 0 b e,
        ne_zero b (Chain-split st 0 xs ((b, e) ∷ (a, d) ∷ ys) 0 whole).1.0,
      )
      (head-Chain fuel st xs b e ((a, d) ∷ ys) (end_view xs) whole
          (omega (arith, enough, length-append xs ((b, e) ∷ [])))
        ∙ ap done (sym (first-snoc xs b e a)))
  where
    here :
        Chain st 0 (xs ++ ((b, e) ∷ [])) a × Chain st (last 0 (xs ++ ((b, e) ∷ []))) ((a, d) ∷ ys) 0
    here = Chain-split st 0 (xs ++ ((b, e) ∷ [])) ((a, d) ∷ ys) 0 chain

    whole : Chain st 0 (xs ++ ((b, e) ∷ (a, d) ∷ ys)) 0
    whole = subst (λ cells. Chain st 0 cells 0) (append_assoc xs ((b, e) ∷ []) ((a, d) ∷ ys)) chain

-- From each node of a list `list_head` comes to its first one, with as many rounds as there are nodes.
pub list_head-IsList :
    (st : Memory) (head : ℕ) (xs : Cells) (a d : ℕ) (ys : Cells)
    → IsList st head (xs ++ ((a, d) ∷ ys))
    → list_head (length (xs ++ ((a, d) ∷ ys))) st a ≡ done head
list_head-IsList st head xs a d ys h =
    head-Chain (length (xs ++ ((a, d) ∷ ys))) st xs a d ys (end_view xs) h.chain
      (omega (arith, length-append xs ((a, d) ∷ ys)))
    ∙ ap done (sym (h.starts ∙ first-append xs ((a, d) ∷ ys) 0))
