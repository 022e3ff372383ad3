-- ===== src/Bptree/Order/Insert.antt =====
-- One insertion keeps the order and puts the entry at its place, or finds the key present.
use week7_02_sql_index.Prelude.{
  ℕ, suc, ◌/◌, ◌<◌, Bool, true, false, Option, none, some, List, [], ◌∷◌, ◌++◌, ◌≡◌, ◌≢◌, ap, ℤ,
  ltb, leb_ℤ, length, get_elem?, drop, insert_at, arith, ◌∙◌, sym, append_assoc, append-nil,
  Bool-cases, inl, inr, length-insert_at, leb→le, All, take-append-drop,
}
use week7_02_sql_index.Bptree.Node.{
  Entry, entry, Leaf, Node, leaf, internal, Children, nil, cons, max_keys, Heap, find_leaf_position,
  find_child_position, insert_child_at, take_children, drop_children, leaves, child_leaves,
  contents,
}
use week7_02_sql_index.Bptree.Insert.{
  InsertResult, inserted, duplicate, failed, fault, split, key_at_is, first_key,
  insert_leaf_without_split, split_leaf_and_insert, insert_into_leaf, split_internal_and_insert,
  absorb, insert_recursive, insert_child,
}
use week7_02_sql_index.Bptree.Search.{slot_result}
use week7_02_sql_index.Bptree.Spec.{lookup, insert_sorted}
use week7_02_sql_index.Bptree.Order.Bounds.{
  AtLeast, Under, AtMost, After, Before, SortedIn, Ordered, OrderedChildren, AtMost-of_Under,
  AtMost-trans,
}
use week7_02_sql_index.Bptree.Order.Lists.{
  contents-append, insert_sorted-append_left, insert_sorted-append_right, lookup-append_left,
  lookup-append_right, insert_at-find_leaf_position, of_lookup, slot_result-lookup,
  SortedIn-insert_sorted, SortedIn-split,
}
use week7_02_sql_index.Bptree.Order.Nodes.{child-Before, rest-After}
use week7_02_sql_index.Bptree.Order.Split.{child_leaves-take-drop, OrderedChildren-split}

-- What the node and the result of an insertion into a node with the entries `es` must be. After a
-- failed allocation only that the key was absent is said.
module _ (lo hi : Option ℤ) (es : List Entry) (key : ℤ) (o : ℕ) where
  abbrev pub Inserts : Node → InsertResult → Type 0
  Inserts n inserted =
      Ordered lo hi n × (lookup key es ≡ none) × (contents (leaves n) ≡ insert_sorted key o es)
  Inserts n (split p r) =
      AtLeast lo p
      × AtMost hi p
      × Ordered lo (some p) n
      × Ordered (some p) hi r
      × (lookup key es ≡ none)
      × (contents (leaves n) ++ contents (leaves r) ≡ insert_sorted key o es)
  Inserts n duplicate = Ordered lo hi n × (lookup key es ≢ none) × (contents (leaves n) ≡ es)
  Inserts n failed = lookup key es ≡ none
  Inserts n fault = ⊥

  -- The same of the children, where a split has been taken in.
  abbrev pub InsertsChild : List ℤ → ℕ → Children → InsertResult → Type 0
  InsertsChild ks position cs inserted =
      OrderedChildren lo hi ks cs
      × (lookup key es ≡ none)
      × (contents (child_leaves cs) ≡ insert_sorted key o es)
  InsertsChild ks position cs (split p r) =
      let cs' = insert_child_at (suc position) r cs in
      OrderedChildren lo hi (insert_at position p ks) cs'
      × (lookup key es ≡ none)
      × (contents (child_leaves cs') ≡ insert_sorted key o es)
  InsertsChild ks position cs duplicate =
      OrderedChildren lo hi ks cs × (lookup key es ≢ none) × (contents (child_leaves cs) ≡ es)
  InsertsChild ks position cs failed = lookup key es ≡ none
  InsertsChild ks position cs fault = ⊥

OrderedChildren-cons :
    (lo hi : Option ℤ) (k : ℤ) (ks : List ℤ) (c : Node) (cs : Children)
    → AtLeast lo k
    → AtMost hi k
    → Ordered lo (some k) c
    → OrderedChildren (some k) hi ks cs
    → OrderedChildren lo hi (k ∷ ks) (cons c cs)
OrderedChildren-cons lo hi k ks c cs a u here rest = (a, u, here, rest)

contents_three :
    (xs ys zs : List Leaf)
    → contents (xs ++ (ys ++ zs)) ≡ (contents xs ++ contents ys) ++ contents zs
contents_three xs ys zs = simp (contents-append, append_assoc)

-- The only child of a node takes the entry.
InsertsChild-only :
    (lo hi : Option ℤ) (es : List Entry) (key : ℤ) (o : ℕ) (c : Node) (r : InsertResult)
    → Inserts lo hi es key o c r
    → InsertsChild lo hi es key o [] 0 (cons c nil) r
InsertsChild-only lo hi es key o c inserted i = (i.0, i.1, rw append-nil i.2)
InsertsChild-only lo hi es key o c (split p r) i =
    ((i.0, i.1, i.2, i.3), i.4, rw append-nil (contents-append (leaves c) (leaves r) ∙ i.5))
InsertsChild-only lo hi es key o c duplicate i = (i.0, i.1, rw append-nil i.2)
InsertsChild-only lo hi es key o c failed i = i
InsertsChild-only lo hi es key o c fault i = i

module _ (lo hi : Option ℤ) (es : List Entry) (key : ℤ) (o : ℕ) (k : ℤ) (ks : List ℤ) where
  -- The first child takes the entry, and what stands right of it is behind the key.
  InsertsChild-first :
      (c : Node) (cs : Children) (r : InsertResult)
      → AtLeast lo k
      → AtMost hi k
      → OrderedChildren (some k) hi ks cs
      → All (After key) (contents (child_leaves cs))
      → Inserts lo (some k) es key o c r
      → InsertsChild lo hi (es ++ contents (child_leaves cs)) key o (k ∷ ks) 0 (cons c cs) r
  InsertsChild-first c cs inserted a u rest after i = (
    (a, u, i.0, rest),
    lookup-append_left key es (contents (child_leaves cs)) after ∙ i.1,
    contents-append (leaves c) (child_leaves cs)
        ∙ ap (λ xs. xs ++ contents (child_leaves cs)) i.2
        ∙ sym (insert_sorted-append_left key o es (contents (child_leaves cs)) after),
  )
  InsertsChild-first c cs (split p r) a u rest after i = (
    (i.0, AtMost-trans hi k p u i.1, i.2, (i.1, u, i.3, rest)),
    lookup-append_left key es (contents (child_leaves cs)) after ∙ i.4,
    contents_three (leaves c) (leaves r) (child_leaves cs)
        ∙ ap (λ xs. xs ++ contents (child_leaves cs)) i.5
        ∙ sym (insert_sorted-append_left key o es (contents (child_leaves cs)) after),
  )
  InsertsChild-first c cs duplicate a u rest after i = (
    (a, u, i.0, rest),
    rw (lookup-append_left key es (contents (child_leaves cs)) after) i.1,
    contents-append (leaves c) (child_leaves cs) ∙ ap (λ xs. xs ++ contents (child_leaves cs)) i.2,
  )
  InsertsChild-first c cs failed a u rest after i =
      lookup-append_left key es (contents (child_leaves cs)) after ∙ i
  InsertsChild-first c cs fault a u rest after i = i

  -- A later child takes the entry, and what stands left of it is before the key.
  InsertsChild-later :
      (c : Node) (position : ℕ) (cs : Children) (r : InsertResult)
      → AtLeast lo k
      → AtMost hi k
      → Ordered lo (some k) c
      → All (Before key) (contents (leaves c))
      → InsertsChild (some k) hi es key o ks position cs r
      → InsertsChild lo hi (contents (leaves c) ++ es) key o (k ∷ ks) (suc position) (cons c cs) r
  InsertsChild-later c position cs inserted a u here before i = (
    OrderedChildren-cons lo hi k ks c cs a u here i.0,
    lookup-append_right key (contents (leaves c)) es before ∙ i.1,
    contents-append (leaves c) (child_leaves cs)
        ∙ ap (λ xs. contents (leaves c) ++ xs) i.2
        ∙ sym (insert_sorted-append_right key o (contents (leaves c)) es before),
  )
  InsertsChild-later c position cs (split p r) a u here before i =
      let cs' = insert_child_at (suc position) r cs in
      (
        OrderedChildren-cons lo hi k (insert_at position p ks) c cs' a u here i.0,
        lookup-append_right key (contents (leaves c)) es before ∙ i.1,
        contents-append (leaves c) (child_leaves cs')
            ∙ ap (λ xs. contents (leaves c) ++ xs) i.2
            ∙ sym (insert_sorted-append_right key o (contents (leaves c)) es before),
      )
  InsertsChild-later c position cs duplicate a u here before i = (
    OrderedChildren-cons lo hi k ks c cs a u here i.0,
    rw (lookup-append_right key (contents (leaves c)) es before) i.1,
    contents-append (leaves c) (child_leaves cs) ∙ ap (λ xs. contents (leaves c) ++ xs) i.2,
  )
  InsertsChild-later c position cs failed a u here before i =
      lookup-append_right key (contents (leaves c)) es before ∙ i
  InsertsChild-later c position cs fault a u here before i = i

lookup-absent :
    (key : ℤ) (s : Option Entry) (q : Option ℕ)
    → slot_result s key ≡ of_lookup q
    → key_at_is s key ≡ false
    → q ≡ none
lookup-absent key s q e f = ground arith

pub lookup-present :
    (key : ℤ) (s : Option Entry) (q : Option ℕ)
    → slot_result s key ≡ of_lookup q
    → key_at_is s key ≡ true
    → q ≢ none
lookup-present key s q e f = ground arith

module _ (calloc : ℕ → Bool) where
  split_leaf-Inserts :
      (lo hi : Option ℤ) (l : Leaf) (key : ℤ) (o : ℕ) (h : Heap)
      → SortedIn lo hi l.slots
      → AtLeast lo key
      → Under hi key
      → lookup key l.slots ≡ none
      → let x = split_leaf_and_insert calloc l key o h in Inserts lo hi l.slots key o x.0 x.1
  unfolding split_leaf_and_insert
  split_leaf-Inserts lo hi l key o h s a u n = elim (Bool-cases (calloc h.calls)) [
    | inr e ↦ rw e n
    | inl e ↦
        let temp = insert_at (find_leaf_position l.slots key) (entry key o) l.slots in
        let half = length temp / 2 in
        let same : temp ≡ insert_sorted key o l.slots =
          insert_at-find_leaf_position key o l.slots in
        let sorted : SortedIn lo hi temp =
          rw same (SortedIn-insert_sorted key o lo hi l.slots s a u n) in
        let short : half < length temp =
          omega (arith, length-insert_at (find_leaf_position l.slots key) (entry key o) l.slots) in
        let (pa, pu, left, right) = SortedIn-split lo hi half temp sorted short in
        rw e (
          pa,
          AtMost-of_Under hi (first_key (drop half temp)) pu,
          left,
          right,
          n,
          simp append-nil (take-append-drop half temp ∙ same),
        )
  ]

  insert_into_leaf-Inserts :
      (lo hi : Option ℤ) (l : Leaf) (key : ℤ) (o : ℕ) (h : Heap)
      → SortedIn lo hi l.slots
      → AtLeast lo key
      → Under hi key
      → let x = insert_into_leaf calloc l key o h in Inserts lo hi l.slots key o x.0 x.1
  unfolding insert_into_leaf insert_leaf_without_split
  insert_into_leaf-Inserts lo hi l key o h s a u =
      let slot = get_elem? l.slots (find_leaf_position l.slots key) in
      let at = slot_result-lookup key lo hi l.slots s in
      elim (Bool-cases (key_at_is slot key)) [
        | inl e ↦ rw e (s, lookup-present key slot (lookup key l.slots) at e, append-nil l.slots)
        | inr e ↦
            let absent = lookup-absent key slot (lookup key l.slots) at e in
            let same = insert_at-find_leaf_position key o l.slots in
            elim (Bool-cases (ltb (length l.slots) max_keys)) [
              | inl room ↦
                  rw (e, room)
                    (
                      rw same (SortedIn-insert_sorted key o lo hi l.slots s a u absent),
                      absent,
                      append-nil _ ∙ same,
                    )
              | inr full ↦ rw (e, full) (split_leaf-Inserts lo hi l key o h s a u absent)
            ]
      ]

  absorb-Inserts :
      (lo hi : Option ℤ) (es : List Entry) (key : ℤ) (o : ℕ) (ks : List ℤ) (cs : Children)
      (position : ℕ) (r : InsertResult) (h : Heap)
      → InsertsChild lo hi es key o ks position cs r
      → let x = absorb calloc ks cs position r h in Inserts lo hi es key o x.0 x.1
  unfolding absorb split_internal_and_insert
  absorb-Inserts lo hi es key o ks cs position inserted h i = i
  absorb-Inserts lo hi es key o ks cs position duplicate h i = i
  absorb-Inserts lo hi es key o ks cs position failed h i = i
  absorb-Inserts lo hi es key o ks cs position fault h i = i
  absorb-Inserts lo hi es key o ks cs position (split p r) h i =
      elim (Bool-cases (ltb (length ks) max_keys)) [
        | inl room ↦ rw room i
        | inr full ↦ elim (Bool-cases (calloc h.calls)) [
          | inr e ↦ rw (full, e) i.1
          | inl e ↦
              let temp_keys = insert_at position p ks in
              let temp_children = insert_child_at (suc position) r cs in
              let half = length temp_keys / 2 in
              let short : half < length temp_keys = omega (arith, length-insert_at position p ks) in
              let (pa, pu, left, right) =
                OrderedChildren-split lo hi half temp_keys temp_children p i.0 short in
              rw (full, e)
                (
                  pa,
                  pu,
                  left,
                  right,
                  i.1,
                  sym (
                        contents-append (child_leaves (take_children (suc half) temp_children))
                          (child_leaves (drop_children (suc half) temp_children)))
                      ∙ ap contents (child_leaves-take-drop (suc half) temp_children)
                      ∙ i.2,
                )
        ]
      ]

  mutual
    unfolding insert_recursive find_child_position

    insert_recursive-Inserts :
        (lo hi : Option ℤ) (n : Node) (key : ℤ) (o : ℕ) (h : Heap)
        → Ordered lo hi n
        → AtLeast lo key
        → Under hi key
        → let x = insert_recursive calloc n key o h in
          Inserts lo hi (contents (leaves n)) key o x.0 x.1
    insert_recursive-Inserts lo hi (leaf l) key o h s a u =
        rw append-nil (insert_into_leaf-Inserts lo hi l key o h s a u)
    insert_recursive-Inserts lo hi (internal ks cs) key o h s a u =
        absorb-Inserts lo hi (contents (child_leaves cs)) key o ks _ (find_child_position ks key) _
          _ (insert_child-Inserts lo hi ks cs key o h s a u)

    insert_child-Inserts :
        (lo hi : Option ℤ) (ks : List ℤ) (cs : Children) (key : ℤ) (o : ℕ) (h : Heap)
        → OrderedChildren lo hi ks cs
        → AtLeast lo key
        → Under hi key
        → let position = find_child_position ks key in
          let x = insert_child calloc cs position key o h in
          InsertsChild lo hi (contents (child_leaves cs)) key o ks position x.0 x.1
    insert_child-Inserts lo hi ks nil key o h s a u = absurd s
    insert_child-Inserts lo hi [] (cons c (cons d ds)) key o h s a u = absurd s
    insert_child-Inserts lo hi [] (cons c nil) key o h s a u = rw append-nil (
        InsertsChild-only lo hi (contents (leaves c)) key o (insert_recursive calloc c key o h).0
          (insert_recursive calloc c key o h).1 (insert_recursive-Inserts lo hi c key o h s a u))
    insert_child-Inserts lo hi (k ∷ ks) (cons c cs) key o h s a u =
        elim (Bool-cases (leb_ℤ k key)) [
          | inl right ↦
              rw (right, contents-append)
                (InsertsChild-later lo hi (contents (child_leaves cs)) key o k ks c
                  (find_child_position ks key) _ _ s.0 s.1 s.2 (child-Before lo k key c s.2 right)
                  (insert_child-Inserts (some k) hi ks cs key o h s.3 (leb→le _ _ right) u))
          | inr left ↦
              rw (left, contents-append)
                (InsertsChild-first lo hi (contents (leaves c)) key o k ks
                  (insert_recursive calloc c key o h).0 cs (insert_recursive calloc c key o h).1 s.0
                  s.1 s.3 (rest-After hi k key ks cs s.3 left)
                  (insert_recursive-Inserts lo (some k) c key o h s.2 a (ground arith)))
        ]

  -- The lemma for a tree whose root has no bounds.
  pub insert_at_any-Inserts :
      (n : Node) (key : ℤ) (o : ℕ) (h : Heap)
      → Ordered none none n
      → let x = insert_recursive calloc n key o h in
        Inserts none none (contents (leaves n)) key o x.0 x.1
  insert_at_any-Inserts n key o h s = insert_recursive-Inserts none none n key o h s tt tt
