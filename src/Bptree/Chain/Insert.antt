-- ===== src/Bptree/Chain/Insert.antt =====
-- Insertion keeps the links: a new right leaf stands between the split leaf and its old successor.
use week7_02_sql_index.Prelude.{
  ℕ, zero, suc, Bool, Option, List, [], ◌∷◌, ◌++◌, ◌≡◌, refl, sym, ℤ, ltb, length, Bool-cases, inl,
  inr, arith, append_assoc,
}
use week7_02_sql_index.Bptree.Node.{
  Leaf, Node, leaf, internal, Children, nil, cons, max_keys, Heap, find_child_position,
  insert_child_at, leaves, child_leaves,
}
use week7_02_sql_index.Bptree.Insert.{
  InsertResult, inserted, duplicate, failed, fault, split, insert_leaf_without_split,
  split_leaf_and_insert, insert_into_leaf, split_internal_and_insert, absorb, insert_recursive,
  insert_child,
}
use week7_02_sql_index.Bptree.Order.Split.{child_leaves-take-drop}
use week7_02_sql_index.Bptree.Chain.Segments.{
  Linked, Linked-append, Linked-left, Linked-right, middle,
}

-- The leaves that an insertion leaves in place of a node's, a right half included.
abbrev pub leaves_after : Node → InsertResult → List Leaf
leaves_after n (split p r) = leaves n ++ leaves r
leaves_after n _ = leaves n

-- The same of the children, the right half behind the child at the position.
abbrev pub child_leaves_after : ℕ → Children → InsertResult → List Leaf
child_leaves_after position cs (split p r) = child_leaves (insert_child_at (suc position) r cs)
child_leaves_after position cs _ = child_leaves cs

-- A failed allocation can cut a right half out of the tree, and the links then lead through it.
abbrev pub KeepsLinks : Option ℕ → Option ℕ → List Leaf → InsertResult → Type 0
KeepsLinks p q ls failed = Unit
KeepsLinks p q ls fault = Unit
KeepsLinks p q ls _ = Linked p ls q

KeepsLinks-prepend :
    (p q : Option ℕ) (xs ls : List Leaf) (r : InsertResult)
    → Linked p xs (middle p xs)
    → KeepsLinks (middle p xs) q ls r
    → KeepsLinks p q (xs ++ ls) r
KeepsLinks-prepend p q xs ls inserted h k = Linked-append p (middle p xs) q xs ls h k
KeepsLinks-prepend p q xs ls duplicate h k = Linked-append p (middle p xs) q xs ls h k
KeepsLinks-prepend p q xs ls (split _ _) h k = Linked-append p (middle p xs) q xs ls h k
KeepsLinks-prepend p q xs ls failed h k = tt
KeepsLinks-prepend p q xs ls fault h k = tt

KeepsLinks-append :
    (p m q : Option ℕ) (ls ys : List Leaf) (r : InsertResult)
    → KeepsLinks p m ls r
    → Linked m ys q
    → KeepsLinks p q (ls ++ ys) r
KeepsLinks-append p m q ls ys inserted h k = Linked-append p m q ls ys h k
KeepsLinks-append p m q ls ys duplicate h k = Linked-append p m q ls ys h k
KeepsLinks-append p m q ls ys (split _ _) h k = Linked-append p m q ls ys h k
KeepsLinks-append p m q ls ys failed h k = tt
KeepsLinks-append p m q ls ys fault h k = tt

-- A right half behind the first child stands behind its leaves.
pub leaves_after-first :
    (c : Node) (cs : Children) (r : InsertResult)
    → child_leaves_after 0 (cons c cs) r ≡ leaves_after c r ++ child_leaves cs
leaves_after-first c cs inserted = refl
leaves_after-first c cs duplicate = refl
leaves_after-first c cs failed = refl
leaves_after-first c cs fault = refl
leaves_after-first c cs (split p r) = sym (append_assoc (leaves c) (leaves r) (child_leaves cs))

pub leaves_after-later :
    (c : Node) (position : ℕ) (cs : Children) (r : InsertResult)
    → child_leaves_after (suc position) (cons c cs) r ≡ leaves c ++ child_leaves_after position cs r
leaves_after-later c position cs inserted = refl
leaves_after-later c position cs duplicate = refl
leaves_after-later c position cs failed = refl
leaves_after-later c position cs fault = refl
leaves_after-later c position cs (split p r) = refl

module _ (calloc : ℕ → Bool) where
  insert_into_leaf-KeepsLinks :
      (p q : Option ℕ) (l : Leaf) (key : ℤ) (o : ℕ) (h : Heap)
      → Linked p (l ∷ []) q
      → let x = insert_into_leaf calloc l key o h in KeepsLinks p q (leaves_after x.0 x.1) x.1
  unfolding insert_into_leaf insert_leaf_without_split split_leaf_and_insert
  insert_into_leaf-KeepsLinks p q l key o h k = ground arith

  absorb-KeepsLinks :
      (p q : Option ℕ) (ks : List ℤ) (cs : Children) (position : ℕ) (r : InsertResult) (h : Heap)
      → KeepsLinks p q (child_leaves_after position cs r) r
      → let x = absorb calloc ks cs position r h in KeepsLinks p q (leaves_after x.0 x.1) x.1
  unfolding absorb split_internal_and_insert
  absorb-KeepsLinks p q ks cs position inserted h k = k
  absorb-KeepsLinks p q ks cs position duplicate h k = k
  absorb-KeepsLinks p q ks cs position failed h k = tt
  absorb-KeepsLinks p q ks cs position fault h k = tt
  absorb-KeepsLinks p q ks cs position (split s r) h k =
      elim (Bool-cases (ltb (length ks) max_keys)) [
        | inl room ↦ rw room k
        | inr full ↦ elim (Bool-cases (calloc h.calls)) [
          | inr e ↦ rw (full, e) tt
          | inl e ↦ rw (full, e, child_leaves-take-drop) k
        ]
      ]

  mutual
    unfolding insert_recursive

    insert_recursive-Links :
        (p q : Option ℕ) (n : Node) (key : ℤ) (o : ℕ) (h : Heap)
        → Linked p (leaves n) q
        → let x = insert_recursive calloc n key o h in KeepsLinks p q (leaves_after x.0 x.1) x.1
    insert_recursive-Links p q (leaf l) key o h k = insert_into_leaf-KeepsLinks p q l key o h k
    insert_recursive-Links p q (internal ks cs) key o h k =
        let x = insert_child calloc cs (find_child_position ks key) key o h in
        absorb-KeepsLinks p q ks x.0 (find_child_position ks key) x.1 x.2
          (insert_child-Links p q cs (find_child_position ks key) key o h k)

    insert_child-Links :
        (p q : Option ℕ) (cs : Children) (position : ℕ) (key : ℤ) (o : ℕ) (h : Heap)
        → Linked p (child_leaves cs) q
        → let x = insert_child calloc cs position key o h in
          KeepsLinks p q (child_leaves_after position x.0 x.1) x.1
    insert_child-Links p q nil position key o h k = tt
    insert_child-Links p q (cons c cs) zero key o h k =
        let x = insert_recursive calloc c key o h in
        let m = middle p (leaves c) in
        rw (leaves_after-first x.0 cs x.1) (
          KeepsLinks-append p m q (leaves_after x.0 x.1) (child_leaves cs) x.1
            (insert_recursive-Links p m c key o h (Linked-left p q (leaves c) (child_leaves cs) k))
            (Linked-right p q (leaves c) (child_leaves cs) k))
    insert_child-Links p q (cons c cs) (suc position) key o h k =
        let x = insert_child calloc cs position key o h in
        rw (leaves_after-later c position x.0 x.1) (
          KeepsLinks-prepend p q (leaves c) (child_leaves_after position x.0 x.1) x.1
            (Linked-left p q (leaves c) (child_leaves cs) k)
            (insert_child-Links (middle p (leaves c)) q cs position key o h
              (Linked-right p q (leaves c) (child_leaves cs) k)))

  pub insert_any-Links :
      (p q : Option ℕ) (n : Node) (key : ℤ) (o : ℕ) (h : Heap)
      → Linked p (leaves n) q
      → let x = insert_recursive calloc n key o h in KeepsLinks p q (leaves_after x.0 x.1) x.1
  insert_any-Links = insert_recursive-Links
