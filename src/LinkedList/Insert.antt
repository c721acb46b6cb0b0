-- ===== src/LinkedList/Insert.antt =====
-- What `list_insert_before` of core/list.c does to a list.
use mosys.Common.{
  ℕ, ◌≡◌, ◌≢◌, refl, sym, ◌∙◌, some, done, write, write_self, write_ne, load_cell, ne_zero, [], ◌∷◌,
  ◌++◌,
}
use mosys.LinkedList.{Node, Memory, set_next, set_prev, list_insert_before}
use mosys.LinkedList.Chain.{
  Cells, Chain, Absent, Unique, IsList, IsFree, first, last, write-Chain, Chain-split, Chain-join,
  Absent-split, Unique-split, last-Absent, last-Unique, last_ne, relink_next, set_next_cell,
  set_prev_cell, behind-Absent, Unique-insert,
}

module _ (n : ℕ) (garbage : Node) (st : Memory) (new_data : ℕ) where
  allocated : Node
  allocated = record garbage { node_data = new_data }

  -- The new node stands in memory, with the link back.
  abbrev with_new : ℕ → Memory
  with_new p = write (write st n (some allocated)) n (some (record allocated { prev = p }))

  abbrev linked : ℕ → ℕ → Node
  linked p a = record { node_data = new_data; next = a; prev = p }

  with_new_ne : (p b : ℕ) → b ≢ n → with_new p b ≡ st b
  with_new_ne p b h = write_ne (write st n (some allocated)) n b _ h ∙ write_ne st n b _ h

  -- The links from before are made, and those of the node `a` and to it are not.
  record Ready (st2 : Memory) (xs : Cells) (a d : ℕ) (ys : Cells) : Type 0 where
    before : Chain st2 0 xs n
    not_null : a ≢ 0
    at_node : st2 a ≡ some (record { node_data = d; next = first ys 0; prev = last 0 xs })
    behind : Chain st2 a ys 0
    at_new : st2 n ≡ some (record allocated { prev = last 0 xs })

  linked_node : ℕ → ℕ → Cells → Node
  linked_node a d ys = record { node_data = d; next = first ys 0; prev = n }

  finished : Memory → Cells → ℕ → ℕ → Cells → Memory
  finished st2 xs a d ys =
      write (write st2 a (some (linked_node a d ys))) n (some (linked (last 0 xs) a))

  module _ (st2 : Memory) (xs : Cells) (a d : ℕ) (ys : Cells) (r : Ready st2 xs a d ys)
      (unique : Unique (xs ++ ((a, d) ∷ ys))) (free : IsFree n (xs ++ ((a, d) ∷ ys))) where
    apart : Absent n xs × Absent n ((a, d) ∷ ys)
    apart = Absent-split n xs ((a, d) ∷ ys) free.absent

    st3 : Memory
    st3 = write st2 a (some (linked_node a d ys))

    node_linked : set_prev st2 a n ≡ done st3
    unfolding st3 linked_node
    node_linked = set_prev_cell st2 a n _ r.at_node

    new_linked : set_next st3 n a ≡ done (finished st2 xs a d ys)
    unfolding finished st3 allocated
    new_linked = set_next_cell st3 n a _ (write_ne st2 a n _ apart.1.0 ∙ r.at_new)

    finished-Chain : Chain (finished st2 xs a d ys) 0 (xs ++ ((n, new_data) ∷ (a, d) ∷ ys)) 0
    unfolding finished linked_node st3
    finished-Chain =
        Chain-join (finished st2 xs a d ys) 0 xs ((n, new_data) ∷ (a, d) ∷ ys) 0
          (write-Chain st3 n _ 0 xs n apart.0 (write-Chain st2 a _ 0 xs n a_absent r.before))
          (
            free.not_null,
            write_self st3 n _,
            (
              r.not_null,
              write_ne st3 n a _ (λ e. apart.1.0 (sym e)) ∙ write_self st2 a _,
              write-Chain st3 n _ a ys 0 apart.1.1 (write-Chain st2 a _ a ys 0 own.1.0 r.behind),
            ),
          )
      where
        own : Unique xs × Unique ((a, d) ∷ ys)
        own = Unique-split xs ((a, d) ∷ ys) unique

        a_absent : Absent a xs
        a_absent = behind-Absent xs a d ys unique

  module _ (a d : ℕ) (ys : Cells) where
    with_new-Ready :
        Chain st 0 ((a, d) ∷ ys) 0 → Absent n ((a, d) ∷ ys) → Ready (with_new 0) [] a d ys
    with_new-Ready chain absent = record {
      before = tt;
      not_null = chain.0;
      at_node = with_new_ne 0 a (λ e. absent.0 (sym e)) ∙ chain.1;
      behind =
          write-Chain (write st n (some allocated)) n _ a ys 0 absent.1
            (write-Chain st n _ a ys 0 absent.1 chain.2);
      at_new = write_self (write st n (some allocated)) n _;
    }

    -- Before the first node.
    insert_front :
        (chain : Chain st 0 ((a, d) ∷ ys) 0)
        → (unique : Unique ((a, d) ∷ ys)) → (free : IsFree n ((a, d) ∷ ys))
        → list_insert_before n garbage st a new_data ≡ done (n, finished (with_new 0) [] a d ys)
    unfolding list_insert_before allocated
    insert_front chain unique free =
        rw
          (
            ne_zero a chain.0,
            load_cell (write st n (some allocated)) a _
                (write_ne st n a _ (λ e. free.absent.0 (sym e)) ∙ chain.1),
            set_prev_cell (write st n (some allocated)) n 0 _ (write_self st n _),
            node_linked (with_new 0) [] a d ys (with_new-Ready chain free.absent) unique free,
            new_linked (with_new 0) [] a d ys (with_new-Ready chain free.absent) unique free,
          )
          refl

  module _ (b e : ℕ) (xs : Cells) (a d : ℕ) (ys : Cells)
      (list : Chain st 0 (((b, e) ∷ xs) ++ ((a, d) ∷ ys)) 0)
      (unique : Unique (((b, e) ∷ xs) ++ ((a, d) ∷ ys)))
      (free : IsFree n (((b, e) ∷ xs) ++ ((a, d) ∷ ys))) where
    parts : Chain st 0 ((b, e) ∷ xs) a × Chain st (last b xs) ((a, d) ∷ ys) 0
    parts = Chain-split st 0 ((b, e) ∷ xs) ((a, d) ∷ ys) 0 list

    away : Absent n ((b, e) ∷ xs) × Absent n ((a, d) ∷ ys)
    away = Absent-split n ((b, e) ∷ xs) ((a, d) ∷ ys) free.absent

    with_last : Memory
    with_last = with_new (last b xs)

    with_last-Chain :
        (p q : ℕ) (zs : Cells) → Absent n zs → Chain st p zs q → Chain with_last p zs q
    unfolding with_last
    with_last-Chain p q zs absent chain =
        write-Chain (write st n (some allocated)) n _ p zs q absent
          (write-Chain st n _ p zs q absent chain)

    relinked :
        (c : Node) × (with_last (last b xs) ≡ some c)
        × Chain (write with_last (last b xs) (some (record c { next = n }))) 0 ((b, e) ∷ xs) n
    relinked =
        relink_next with_last 0 b e xs a n (with_last-Chain 0 a ((b, e) ∷ xs) away.0 parts.0)
          (Unique-split ((b, e) ∷ xs) ((a, d) ∷ ys) unique).0

    st2 : Memory
    st2 = write with_last (last b xs) (some (record relinked.0 { next = n }))

    last_behind : Absent (last b xs) ((a, d) ∷ ys)
    last_behind = last-Unique b e xs ((a, d) ∷ ys) unique

    st2-Ready : Ready st2 ((b, e) ∷ xs) a d ys
    unfolding st2 with_last
    st2-Ready = record {
      before = relinked.2;
      not_null = parts.1.0;
      at_node =
          write_ne with_last (last b xs) a _ (λ same. last_behind.0 (sym same))
          ∙ with_new_ne (last b xs) a (λ same. away.1.0 (sym same))
          ∙ parts.1.1;
      behind =
          write-Chain with_last (last b xs) _ a ys 0 last_behind.1
            (with_last-Chain a 0 ys away.1.1 parts.1.2);
      at_new =
          write_ne with_last (last b xs) n _ (last-Absent n b xs away.0.0 away.0.1)
          ∙ write_self (write st n (some allocated)) n _;
    }

    -- Behind another node.
    insert_behind :
        list_insert_before n garbage st a new_data ≡ done (n, finished st2 ((b, e) ∷ xs) a d ys)
    unfolding list_insert_before allocated with_last st2
    insert_behind =
        rw
          (
            ne_zero a parts.1.0,
            load_cell (write st n (some allocated)) a _
                (write_ne st n a _ (λ same. away.1.0 (sym same)) ∙ parts.1.1),
            set_prev_cell (write st n (some allocated)) n (last b xs) _ (write_self st n _),
            ne_zero (last b xs) (last_ne st 0 b e xs a parts.0),
            set_next_cell with_last (last b xs) n relinked.0 relinked.1,
            node_linked st2 ((b, e) ∷ xs) a d ys st2-Ready unique free,
            new_linked st2 ((b, e) ∷ xs) a d ys st2-Ready unique free,
          )
          refl

-- Before a node of a list the new node with its data stands in its place; its address was free. The
-- pointer to it is returned, which is the head of the list if the node was the first one.
pub list_insert_before-IsList :
    (n : ℕ) (garbage : Node) (st : Memory) (new_data head : ℕ) (xs : Cells) (a d : ℕ) (ys : Cells)
    → IsList st head (xs ++ ((a, d) ∷ ys))
    → IsFree n (xs ++ ((a, d) ∷ ys))
    → (st' : Memory) × (list_insert_before n garbage st a new_data ≡ done (n, st'))
      × IsList st' (first xs n) (xs ++ ((n, new_data) ∷ (a, d) ∷ ys))
list_insert_before-IsList n garbage st new_data head [] a d ys h free = (
  _,
  insert_front n garbage st new_data a d ys h.chain h.unique free,
  record {
    chain =
        finished-Chain n garbage st new_data _ [] a d ys
          (with_new-Ready n garbage st new_data a d ys h.chain free.absent) h.unique free;
    unique = Unique-insert [] n new_data ((a, d) ∷ ys) h.unique free.absent;
    starts = refl;
  },
)
list_insert_before-IsList n garbage st new_data head ((b, e) ∷ xs) a d ys h free = (
  _,
  insert_behind n garbage st new_data b e xs a d ys h.chain h.unique free,
  record {
    chain =
        finished-Chain n garbage st new_data _ ((b, e) ∷ xs) a d ys
          (st2-Ready n garbage st new_data b e xs a d ys h.chain h.unique free) h.unique free;
    unique = Unique-insert ((b, e) ∷ xs) n new_data ((a, d) ∷ ys) h.unique free.absent;
    starts = refl;
  },
)
