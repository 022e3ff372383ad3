-- ===== src/Bptree/Order/Nodes.antt =====
-- An ordered node holds sorted entries within its bounds, and the descent by separators finds them.
use week7_02_sql_index.Prelude.{
  true, false, Option, some, List, [], ◌∷◌, ◌≡◌, ℤ, leb_ℤ, All, All-imp, arith, append-nil,
  Bool-cases, inl, inr,
}
use week7_02_sql_index.Bptree.Node.{
  Node, leaf, internal, Children, nil, cons, find_child_position, contents, leaves, child_leaves,
}
use week7_02_sql_index.Bptree.Search.{leaf_result, find_leaf_in, find_leaf_child}
use week7_02_sql_index.Bptree.Spec.{lookup}
use week7_02_sql_index.Bptree.Order.Bounds.{After, Before, SortedIn, Ordered, OrderedChildren}
use week7_02_sql_index.Bptree.Order.Lists.{
  contents-append, SortedIn-append, SortedIn-BelowBound, SortedIn-FromBound, lookup-append_left,
  lookup-append_right, slot_result-lookup, of_lookup,
}

mutual
  Ordered-SortedIn :
      (lo hi : Option ℤ) (n : Node) → Ordered lo hi n → SortedIn lo hi (contents (leaves n))
  Ordered-SortedIn lo hi (leaf l) h = rw append-nil h
  Ordered-SortedIn lo hi (internal ks cs) h = OrderedChildren-SortedIn lo hi ks cs h

  OrderedChildren-SortedIn :
      (lo hi : Option ℤ) (ks : List ℤ) (cs : Children)
      → OrderedChildren lo hi ks cs
      → SortedIn lo hi (contents (child_leaves cs))
  OrderedChildren-SortedIn lo hi ks nil h = absurd h
  OrderedChildren-SortedIn lo hi [] (cons c nil) h = rw append-nil (Ordered-SortedIn lo hi c h)
  OrderedChildren-SortedIn lo hi [] (cons c (cons d ds)) h = absurd h
  OrderedChildren-SortedIn lo hi (k ∷ ks) (cons c cs) h = rw contents-append (
      SortedIn-append lo hi k (contents (leaves c)) (contents (child_leaves cs)) h.0 h.1
        (Ordered-SortedIn lo (some k) c h.2) (OrderedChildren-SortedIn (some k) hi ks cs h.3))

pub node-SortedIn :
    (lo hi : Option ℤ) (n : Node) → Ordered lo hi n → SortedIn lo hi (contents (leaves n))
node-SortedIn = Ordered-SortedIn

-- What stands left of a separator at most the key is before it, what stands right of a greater one
-- is behind it.
pub child-Before :
    (lo : Option ℤ) (k key : ℤ) (c : Node)
    → Ordered lo (some k) c
    → leb_ℤ k key ≡ true
    → All (Before key) (contents (leaves c))
child-Before lo k key c h e =
    All-imp (λ x p. ground arith) (contents (leaves c))
      (SortedIn-BelowBound lo (some k) (contents (leaves c)) (Ordered-SortedIn lo (some k) c h))

pub rest-After :
    (hi : Option ℤ) (k key : ℤ) (ks : List ℤ) (cs : Children)
    → OrderedChildren (some k) hi ks cs
    → leb_ℤ k key ≡ false
    → All (After key) (contents (child_leaves cs))
rest-After hi k key ks cs h e =
    All-imp (λ x p. ground arith) (contents (child_leaves cs))
      (SortedIn-FromBound (some k) hi (contents (child_leaves cs))
        (OrderedChildren-SortedIn (some k) hi ks cs h))

-- The leaf that the descent ends at answers for the whole node.
mutual
  unfolding find_leaf_in find_child_position

  find_leaf_in-lookup :
      (key : ℤ) (lo hi : Option ℤ) (n : Node)
      → Ordered lo hi n
      → leaf_result (find_leaf_in n key) key ≡ of_lookup (lookup key (contents (leaves n)))
  find_leaf_in-lookup key lo hi (leaf l) h = rw append-nil (slot_result-lookup key lo hi l.slots h)
  find_leaf_in-lookup key lo hi (internal ks cs) h = find_leaf_child-lookup key lo hi ks cs h

  find_leaf_child-lookup :
      (key : ℤ) (lo hi : Option ℤ) (ks : List ℤ) (cs : Children)
      → OrderedChildren lo hi ks cs
      → leaf_result (find_leaf_child cs (find_child_position ks key) key) key
        ≡ of_lookup (lookup key (contents (child_leaves cs)))
  find_leaf_child-lookup key lo hi ks nil h = absurd h
  find_leaf_child-lookup key lo hi [] (cons c nil) h =
      rw append-nil (find_leaf_in-lookup key lo hi c h)
  find_leaf_child-lookup key lo hi [] (cons c (cons d ds)) h = absurd h
  find_leaf_child-lookup key lo hi (k ∷ ks) (cons c cs) h = elim (Bool-cases (leb_ℤ k key)) [
    | inl right ↦
        rw (right, contents-append, lookup-append_right key _ _ (child-Before lo k key c h.2 right))
          (find_leaf_child-lookup key (some k) hi ks cs h.3)
    | inr left ↦
        rw (left, contents-append, lookup-append_left key _ _ (rest-After hi k key ks cs h.3 left))
          (find_leaf_in-lookup key lo (some k) c h.2)
  ]

pub descent-lookup :
    (key : ℤ) (lo hi : Option ℤ) (n : Node)
    → Ordered lo hi n
    → leaf_result (find_leaf_in n key) key ≡ of_lookup (lookup key (contents (leaves n)))
descent-lookup = find_leaf_in-lookup
