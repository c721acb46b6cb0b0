-- ===== src/LinkedList/Delete.antt =====
-- What `list_delete` of core/list.c does to a list.
use mosys.Common.{
  ℕ, ◌≡◌, refl, sym, ◌∙◌, none, some, done, write, write_self, load_cell, ne_zero, [], ◌∷◌, ◌++◌,
  ◌==◌, if◌then◌else◌,
}
use mosys.LinkedList.{Memory, set_next, set_prev, list_delete}
use mosys.LinkedList.Chain.{
  Cells, Chain, Unique, IsList, first, last, write-Chain, Chain-split, Chain-join, Absent-split,
  Unique-split, last-Unique, last_ne, relink_next, relink_prev, set_next_cell, set_prev_cell,
  behind-Absent, first-append, Absent-join,
}

-- The links from the nodes before the deleted one `a` to those behind it.
before_linked :
    (st : Memory) (xs : Cells) (a d : ℕ) (ys : Cells)
    → Chain st 0 xs a
    → Chain st a ys 0
    → Unique (xs ++ ((a, d) ∷ ys))
    → (st1 : Memory) × ((if last 0 xs == 0 then done st else set_next st (last 0 xs) (first ys 0))
        ≡ done st1)
      × Chain st1 0 xs (first ys 0)
      × Chain st1 a ys 0
before_linked st [] a d ys left right unique = (st, refl, tt, right)
before_linked st ((b, e) ∷ xs) a d ys left right unique =
    let (c, here, linked) =
      relink_next st 0 b e xs a (first ys 0) left
        (Unique-split ((b, e) ∷ xs) ((a, d) ∷ ys) unique).0 in
    (
      write st (last b xs) (some (record c { next = first ys 0 })),
      rw
          (
            ne_zero (last b xs) (last_ne st 0 b e xs a left),
            set_next_cell st (last b xs) (first ys 0) c here,
          )
          refl,
      linked,
      write-Chain st (last b xs) _ a ys 0 (last-Unique b e xs ((a, d) ∷ ys) unique).1 right,
    )

-- The link back from the nodes behind it.
behind_linked :
    (st1 : Memory) (xs : Cells) (a p : ℕ) (ys : Cells)
    → Chain st1 0 xs (first ys 0)
    → Chain st1 a ys 0
    → Unique (xs ++ ys)
    → (st2 : Memory) × ((if first ys 0 == 0 then done st1 else set_prev st1 (first ys 0) p)
        ≡ done st2)
      × Chain st2 0 xs (first ys 0)
      × Chain st2 p ys 0
behind_linked st1 xs a p [] left right unique = (st1, refl, left, tt)
behind_linked st1 xs a p ((b, e) ∷ ys) left right unique = (
  write st1 b (some (record { node_data = e; next = first ys 0; prev = p })),
  rw (ne_zero b right.0, set_prev_cell st1 b p _ right.1) refl,
  write-Chain st1 b _ 0 xs b (behind-Absent xs b e ys unique) left,
  relink_prev st1 a p b e ys 0 right (Unique-split xs ((b, e) ∷ ys) unique).1.0,
)

Unique-delete :
    (xs : Cells) (a d : ℕ) (ys : Cells) → Unique (xs ++ ((a, d) ∷ ys)) → Unique (xs ++ ys)
Unique-delete [] a d ys unique = unique.1
Unique-delete ((b, e) ∷ xs) a d ys unique =
    let (left, right) = Absent-split b xs ((a, d) ∷ ys) unique.0 in
    (Absent-join b xs ys left right.1, Unique-delete xs a d ys unique.1)

new_head :
    (st : Memory) (xs : Cells) (a q head : ℕ) (ys : Cells)
    → Chain st 0 xs q
    → head ≡ first (xs ++ ((a, 0) ∷ ys)) 0
    → (if last 0 xs == 0 then first ys 0 else head) ≡ first (xs ++ ys) 0
new_head st [] a q head ys left starts = refl
new_head st ((b, e) ∷ xs) a q head ys left starts =
    rw (ne_zero (last b xs) (last_ne st 0 b e xs q left)) starts

-- A node of a list is deleted: the others stay, in order, its address holds no node any more, and what
-- is returned is the head of the list that is left.
pub list_delete-IsList :
    (st : Memory) (head : ℕ) (xs : Cells) (a d : ℕ) (ys : Cells)
    → IsList st head (xs ++ ((a, d) ∷ ys))
    → (head' : ℕ) × (st' : Memory) × (list_delete st head a ≡ done (head', st'))
      × IsList st' head' (xs ++ ys)
      × (st' a ≡ none)
unfolding list_delete
list_delete-IsList st head xs a d ys h =
    let (left, right) = Chain-split st 0 xs ((a, d) ∷ ys) 0 h.chain in
    let (st1, linked1, left1, right1) = before_linked st xs a d ys left right.2 h.unique in
    let (st2, linked2, left2, right2) =
      behind_linked st1 xs a (last 0 xs) ys left1 right1 (Unique-delete xs a d ys h.unique) in
    (
      first (xs ++ ys) 0,
      write st2 a none,
      rw
          (
            load_cell st a _ right.1,
            linked1,
            linked2,
            new_head st xs a a head ys left (
                h.starts ∙ first-append xs ((a, d) ∷ ys) 0 ∙ sym (first-append xs ((a, 0) ∷ ys) 0)),
          )
          refl,
      record {
        chain =
            Chain-join (write st2 a none) 0 xs ys 0
              (write-Chain st2 a none 0 xs (first ys 0) (behind-Absent xs a d ys h.unique) left2)
              (write-Chain st2 a none (last 0 xs) ys 0 (Unique-split xs ((a, d) ∷ ys) h.unique).1.0
                right2);
        unique = Unique-delete xs a d ys h.unique;
        starts = refl;
      },
      write_self st2 a none,
    )
