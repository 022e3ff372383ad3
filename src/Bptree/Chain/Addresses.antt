-- ===== src/Bptree/Chain/Addresses.antt =====
-- Leaves stand at different addresses: insertion adds at most one, at an address that `calloc` gave
-- it, and loses none unless an allocation fails.
use week7_02_sql_index.Prelude.{
  ℕ, zero, suc, ◌+◌, ◌≤◌, Bool, ◌&&◌, List, [], ◌∷◌, ◌++◌, ◌≡◌, ℤ, ltb, leb, length, Bool-cases,
  inl, inr, arith, if◌then◌else◌,
}
use week7_02_sql_index.Bptree.Node.{
  Leaf, Node, leaf, internal, Children, nil, cons, max_keys, Heap, find_child_position, leaves,
  child_leaves,
}
use week7_02_sql_index.Bptree.Insert.{
  InsertResult, inserted, duplicate, failed, fault, split, insert_leaf_without_split,
  split_leaf_and_insert, insert_into_leaf, split_internal_and_insert, absorb, insert_recursive,
  insert_child,
}
use week7_02_sql_index.Bptree.Order.Split.{child_leaves-take-drop}
use week7_02_sql_index.Bptree.Chain.Segments.{at_addr, at_addr-append}
use week7_02_sql_index.Bptree.Chain.Insert.{
  leaves_after, child_leaves_after, leaves_after-first, leaves_after-later,
}

-- 1 for an address that was given out between two counts of calls
abbrev pub given : ℕ → ℕ → ℕ → ℕ
given before after a = if leb before a && ltb a after then 1 else 0

-- What an insertion does to the leaves at address `a` and to the heap.
abbrev pub KeepsAddresses : ℕ → Heap → Heap → List Leaf → List Leaf → InsertResult → Type 0
KeepsAddresses a h h' ls ls' failed = Unit
KeepsAddresses a h h' ls ls' fault = Unit
KeepsAddresses a h h' ls ls' _ =
    (h.calls ≤ h'.calls)
    × (h'.lost ≡ h.lost)
    × (at_addr a ls' ≤ at_addr a ls + given h.calls h'.calls a)

KeepsAddresses-beside :
    (a n : ℕ) (h h' : Heap) (ls ls' zs zs' : List Leaf) (r : InsertResult)
    → at_addr a zs ≡ at_addr a ls + n
    → at_addr a zs' ≡ at_addr a ls' + n
    → KeepsAddresses a h h' ls ls' r
    → KeepsAddresses a h h' zs zs' r
KeepsAddresses-beside a n h h' ls ls' zs zs' inserted e e' k = (k.0, k.1, omega arith)
KeepsAddresses-beside a n h h' ls ls' zs zs' duplicate e e' k = (k.0, k.1, omega arith)
KeepsAddresses-beside a n h h' ls ls' zs zs' (split _ _) e e' k = (k.0, k.1, omega arith)
KeepsAddresses-beside a n h h' ls ls' zs zs' failed e e' k = tt
KeepsAddresses-beside a n h h' ls ls' zs zs' fault e e' k = tt

module _ (calloc : ℕ → Bool) (a : ℕ) where
  insert_into_leaf-Addresses :
      (l : Leaf) (key : ℤ) (o : ℕ) (h : Heap)
      → let x = insert_into_leaf calloc l key o h in
        KeepsAddresses a h x.2 (l ∷ []) (leaves_after x.0 x.1) x.1
  unfolding insert_into_leaf insert_leaf_without_split split_leaf_and_insert
  insert_into_leaf-Addresses l key o h = ground arith

  absorb-Addresses :
      (ls : List Leaf) (ks : List ℤ) (cs : Children) (position : ℕ) (r : InsertResult) (h h' : Heap)
      → KeepsAddresses a h h' ls (child_leaves_after position cs r) r
      → let x = absorb calloc ks cs position r h' in
        KeepsAddresses a h x.2 ls (leaves_after x.0 x.1) x.1
  unfolding absorb split_internal_and_insert
  absorb-Addresses ls ks cs position inserted h h' k = k
  absorb-Addresses ls ks cs position duplicate h h' k = k
  absorb-Addresses ls ks cs position failed h h' k = tt
  absorb-Addresses ls ks cs position fault h h' k = tt
  absorb-Addresses ls ks cs position (split s r) h h' k =
      elim (Bool-cases (ltb (length ks) max_keys)) [
        | inl room ↦ rw room k
        | inr full ↦ elim (Bool-cases (calloc h'.calls)) [
          | inr e ↦ rw (full, e) tt
          | inl e ↦ rw (full, e, child_leaves-take-drop) (omega arith, k.1, ground arith)
        ]
      ]

  mutual
    unfolding insert_recursive

    insert_recursive-Addresses :
        (n : Node) (key : ℤ) (o : ℕ) (h : Heap)
        → let x = insert_recursive calloc n key o h in
          KeepsAddresses a h x.2 (leaves n) (leaves_after x.0 x.1) x.1
    insert_recursive-Addresses (leaf l) key o h = insert_into_leaf-Addresses l key o h
    insert_recursive-Addresses (internal ks cs) key o h =
        let x = insert_child calloc cs (find_child_position ks key) key o h in
        absorb-Addresses (child_leaves cs) ks x.0 (find_child_position ks key) x.1 h x.2
          (insert_child-Addresses cs (find_child_position ks key) key o h)

    insert_child-Addresses :
        (cs : Children) (position : ℕ) (key : ℤ) (o : ℕ) (h : Heap)
        → let x = insert_child calloc cs position key o h in
          KeepsAddresses a h x.2 (child_leaves cs) (child_leaves_after position x.0 x.1) x.1
    insert_child-Addresses nil position key o h = tt
    insert_child-Addresses (cons c cs) zero key o h =
        let x = insert_recursive calloc c key o h in
        rw (leaves_after-first x.0 cs x.1) (
          KeepsAddresses-beside a (at_addr a (child_leaves cs)) h x.2 (leaves c)
            (leaves_after x.0 x.1) (leaves c ++ child_leaves cs)
            (leaves_after x.0 x.1 ++ child_leaves cs) x.1
            (at_addr-append a (leaves c) (child_leaves cs))
            (at_addr-append a (leaves_after x.0 x.1) (child_leaves cs))
            (insert_recursive-Addresses c key o h))
    insert_child-Addresses (cons c cs) (suc position) key o h =
        let x = insert_child calloc cs position key o h in
        let after = child_leaves_after position x.0 x.1 in
        rw (leaves_after-later c position x.0 x.1) (
          KeepsAddresses-beside a (at_addr a (leaves c)) h x.2 (child_leaves cs) after
            (leaves c ++ child_leaves cs) (leaves c ++ after) x.1
            (omega (arith, at_addr-append a (leaves c) (child_leaves cs)))
            (omega (arith, at_addr-append a (leaves c) after))
            (insert_child-Addresses cs position key o h))

  pub insert_any-Addresses :
      (n : Node) (key : ℤ) (o : ℕ) (h : Heap)
      → let x = insert_recursive calloc n key o h in
        KeepsAddresses a h x.2 (leaves n) (leaves_after x.0 x.1) x.1
  insert_any-Addresses = insert_recursive-Addresses
