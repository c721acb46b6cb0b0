-- ===== src/LinkedList/Chain.antt =====
-- What a list of core/list.c is: nodes at different addresses that point to each other in order.
use mosys.Common.{
  ℕ, ◌≡◌, ◌≢◌, refl, sym, ap, ◌∙◌, Option, some, done, write, write_self, write_ne, load_cell, List,
  [], ◌∷◌, ◌++◌,
}
use mosys.LinkedList.{Node, Memory, set_next, set_prev}

-- The nodes' addresses with their data.
abbrev pub Cells : Type 0
Cells = List (ℕ × ℕ)

abbrev pub first : Cells → ℕ → ℕ
first [] q = q
first ((a, d) ∷ xs) q = a

abbrev pub last : ℕ → Cells → ℕ
last p [] = p
last p ((a, d) ∷ xs) = last a xs

-- No node stands at the address.
abbrev pub Absent : ℕ → Cells → Type 0
Absent b [] = Unit
Absent b ((a, d) ∷ xs) = (b ≢ a) × Absent b xs

abbrev pub Unique : Cells → Type 0
Unique [] = Unit
Unique ((a, d) ∷ xs) = Absent a xs × Unique xs

-- The nodes in memory, where `p` stands before the first and `q` behind the last.
abbrev pub Chain : Memory → ℕ → Cells → ℕ → Type 0
Chain st p [] q = Unit
Chain st p ((a, d) ∷ xs) q =
    (a ≢ 0)
    × (st a ≡ some (record { node_data = d; next = first xs q; prev = p }))
    × Chain st a xs q

-- A write elsewhere changes no node.
pub write-Chain :
    (st : Memory) (b : ℕ) (v : Option Node) (p : ℕ) (xs : Cells) (q : ℕ)
    → Absent b xs
    → Chain st p xs q
    → Chain (write st b v) p xs q
write-Chain st b v p [] q absent chain = tt
write-Chain st b v p ((a, d) ∷ xs) q absent chain = (
  chain.0,
  write_ne st b a v (λ e. absent.0 (sym e)) ∙ chain.1,
  write-Chain st b v a xs q absent.1 chain.2,
)

pub first-append : (xs ys : Cells) (q : ℕ) → first (xs ++ ys) q ≡ first xs (first ys q)
first-append [] ys q = refl
first-append ((a, d) ∷ xs) ys q = refl

pub Chain-split :
    (st : Memory) (p : ℕ) (xs ys : Cells) (q : ℕ)
    → Chain st p (xs ++ ys) q
    → Chain st p xs (first ys q) × Chain st (last p xs) ys q
Chain-split st p [] ys q chain = (tt, chain)
Chain-split st p ((a, d) ∷ xs) ys q chain =
    let (left, right) = Chain-split st a xs ys q chain.2 in
    (
      (
        chain.0,
        chain.1
            ∙ ap (λ f. some (record { node_data = d; next = f; prev = p })) (first-append xs ys q),
        left,
      ),
      right,
    )

pub Chain-join :
    (st : Memory) (p : ℕ) (xs ys : Cells) (q : ℕ)
    → Chain st p xs (first ys q)
    → Chain st (last p xs) ys q
    → Chain st p (xs ++ ys) q
Chain-join st p [] ys q left right = right
Chain-join st p ((a, d) ∷ xs) ys q left right = (
  left.0,
  left.1
      ∙ ap (λ f. some (record { node_data = d; next = f; prev = p })) (sym (first-append xs ys q)),
  Chain-join st a xs ys q left.2 right,
)

pub Absent-split : (b : ℕ) (xs ys : Cells) → Absent b (xs ++ ys) → Absent b xs × Absent b ys
Absent-split b [] ys absent = (tt, absent)
Absent-split b ((a, d) ∷ xs) ys absent =
    let (left, right) = Absent-split b xs ys absent.1 in ((absent.0, left), right)

pub Absent-join : (b : ℕ) (xs ys : Cells) → Absent b xs → Absent b ys → Absent b (xs ++ ys)
Absent-join b [] ys left right = right
Absent-join b ((a, d) ∷ xs) ys left right = (left.0, Absent-join b xs ys left.1 right)

pub Unique-split : (xs ys : Cells) → Unique (xs ++ ys) → Unique xs × Unique ys
Unique-split [] ys unique = (tt, unique)
Unique-split ((a, d) ∷ xs) ys unique =
    let (left, right) = Unique-split xs ys unique.1 in
    (((Absent-split a xs ys unique.0).0, left), right)

pub last-Absent : (b p : ℕ) (xs : Cells) → b ≢ p → Absent b xs → b ≢ last p xs
last-Absent b p [] h absent = h
last-Absent b p ((a, d) ∷ xs) h absent = last-Absent b a xs absent.0 absent.1

-- The last of the nodes is none of those behind them.
pub last-Unique : (a d : ℕ) (xs ys : Cells) → Unique (((a, d) ∷ xs) ++ ys) → Absent (last a xs) ys
last-Unique a d [] ys unique = unique.0
last-Unique a d ((b, e) ∷ xs) ys unique = last-Unique b e xs ys unique.1

pub last_ne :
    (st : Memory) (p a d : ℕ) (xs : Cells) (q : ℕ) → Chain st p ((a, d) ∷ xs) q → last a xs ≢ 0
last_ne st p a d [] q chain = chain.0
last_ne st p a d ((b, e) ∷ xs) q chain = last_ne st a b e xs q chain.2

-- The cell of the last node, and the nodes once its link is changed.
pub relink_next :
    (st : Memory) (p a d : ℕ) (xs : Cells) (q q' : ℕ)
    → Chain st p ((a, d) ∷ xs) q
    → Unique ((a, d) ∷ xs)
    → (c : Node) × (st (last a xs) ≡ some c)
      × Chain (write st (last a xs) (some (record c { next = q' }))) p ((a, d) ∷ xs) q'
relink_next st p a d [] q q' chain unique =
    (record { node_data = d; next = q; prev = p }, chain.1, (chain.0, write_self st a _, tt))
relink_next st p a d ((b, e) ∷ xs) q q' chain unique =
    let (c, here, rest) = relink_next st a b e xs q q' chain.2 unique.1 in
    (
      c,
      here,
      (
        chain.0,
        write_ne st (last b xs) a _ (last-Absent a b xs unique.0.0 unique.0.1) ∙ chain.1,
        rest,
      ),
    )

pub relink_prev :
    (st : Memory) (p p' a d : ℕ) (xs : Cells) (q : ℕ)
    → Chain st p ((a, d) ∷ xs) q
    → Absent a xs
    → Chain
        (write st a (some (record { node_data = d; next = first xs q; prev = p' })))
        p'
        ((a, d) ∷ xs)
        q
relink_prev st p p' a d xs q chain absent =
    (chain.0, write_self st a _, write-Chain st a _ a xs q absent chain.2)

pub set_next_cell :
    (st : Memory) (a v : ℕ) (c : Node)
    → st a ≡ some c
    → set_next st a v ≡ done (write st a (some (record c { next = v })))
unfolding set_next
set_next_cell st a v c e = rw (load_cell st a c e) refl

pub set_prev_cell :
    (st : Memory) (a v : ℕ) (c : Node)
    → st a ≡ some c
    → set_prev st a v ≡ done (write st a (some (record c { prev = v })))
unfolding set_prev
set_prev_cell st a v c e = rw (load_cell st a c e) refl

-- A list with its head; NULL is the head of an empty one.
pub record IsList (st : Memory) (head : ℕ) (xs : Cells) : Type 0 where
  pub chain : Chain st 0 xs 0
  pub unique : Unique xs
  pub starts : head ≡ first xs 0

-- No node of the list stands at the address.
pub record IsFree (n : ℕ) (xs : Cells) : Type 0 where
  pub not_null : n ≢ 0
  pub absent : Absent n xs

-- A node is none of those before it.
pub behind-Absent : (xs : Cells) (a d : ℕ) (ys : Cells) → Unique (xs ++ ((a, d) ∷ ys)) → Absent a xs
behind-Absent [] a d ys unique = tt
behind-Absent ((b, e) ∷ xs) a d ys unique = (
  (λ same. (Absent-split b xs ((a, d) ∷ ys) unique.0).1.0 (sym same)),
  behind-Absent xs a d ys unique.1,
)

pub Unique-insert :
    (xs : Cells) (n e : ℕ) (ys : Cells)
    → Unique (xs ++ ys)
    → Absent n (xs ++ ys)
    → Unique (xs ++ ((n, e) ∷ ys))
Unique-insert [] n e ys unique absent = (absent, unique)
Unique-insert ((b, f) ∷ xs) n e ys unique absent =
    let (left, right) = Absent-split b xs ys unique.0 in
    (
      Absent-join b xs ((n, e) ∷ ys) left ((λ same. absent.0 (sym same)), right),
      Unique-insert xs n e ys unique.1 absent.1,
    )
