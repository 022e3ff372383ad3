-- ===== src/Bptree/Order/Descent.antt =====
-- Where the descent to a key ends among the leaves.
use week7_02_sql_index.Prelude.{
  Option, some, List, [], ◌∷◌, ◌++◌, ◌≡◌, refl, ap, ◌∙◌, ℤ, leb_ℤ, All, All-append, Bool-cases, inl,
  inr, append_assoc, sym,
}
use week7_02_sql_index.Bptree.Node.{
  Leaf, Node, leaf, internal, Children, nil, cons, find_child_position, contents, leaves,
  child_leaves,
}
use week7_02_sql_index.Bptree.Search.{
  find_leaf_in, find_leaf_child, leftmost_leaf_in, leftmost_leaf_child,
}
use week7_02_sql_index.Bptree.Spec.{IsSorted}
use week7_02_sql_index.Bptree.Order.Bounds.{After, Before, Ordered, OrderedChildren}
use week7_02_sql_index.Bptree.Order.Lists.{contents-append, SortedIn-IsSorted}
use week7_02_sql_index.Bptree.Order.Nodes.{child-Before, rest-After}

-- The leaf found stands among the leaves `ls`: what is left of it is before the key, what is right
-- of it behind.
pub record Position (key : ℤ) (ls : List Leaf) (answer : Option Leaf) : Type 0 where
  pub left : List Leaf
  pub at : Leaf
  pub right : List Leaf
  pub found_at : answer ≡ some at
  pub splits : ls ≡ left ++ at ∷ right
  pub left_before : All (Before key) (contents left)
  pub right_after : All (After key) (contents right)
  pub sorted : IsSorted at.slots

Position-right :
    (key : ℤ) (xs ls : List Leaf) {answer : Option Leaf}
    → All (Before key) (contents xs)
    → Position key ls answer
    → Position key (xs ++ ls) answer
Position-right key xs ls b p = record {
  left = xs ++ p.left;
  at = p.at;
  right = p.right;
  found_at = p.found_at;
  splits = ap (λ zs. xs ++ zs) p.splits ∙ sym (append_assoc xs p.left (p.at ∷ p.right));
  left_before =
      rw contents-append (All-append (Before key) (contents xs) (contents p.left) b p.left_before);
  right_after = p.right_after;
  sorted = p.sorted;
}

Position-left :
    (key : ℤ) (ls ys : List Leaf) {answer : Option Leaf}
    → All (After key) (contents ys)
    → Position key ls answer
    → Position key (ls ++ ys) answer
Position-left key ls ys b p = record {
  left = p.left;
  at = p.at;
  right = p.right ++ ys;
  found_at = p.found_at;
  splits = ap (λ zs. zs ++ ys) p.splits ∙ append_assoc p.left (p.at ∷ p.right) ys;
  left_before = p.left_before;
  right_after =
      rw contents-append (All-append (After key) (contents p.right) (contents ys) p.right_after b);
  sorted = p.sorted;
}

mutual
  unfolding find_leaf_in find_child_position

  find_leaf_in-Position :
      (key : ℤ) (lo hi : Option ℤ) (n : Node)
      → Ordered lo hi n
      → Position key (leaves n) (find_leaf_in n key)
  find_leaf_in-Position key lo hi (leaf l) h = record {
    left = [];
    at = l;
    right = [];
    found_at = refl;
    splits = refl;
    left_before = tt;
    right_after = tt;
    sorted = SortedIn-IsSorted lo hi l.slots h;
  }
  find_leaf_in-Position key lo hi (internal ks cs) h = find_leaf_child-Position key lo hi ks cs h

  find_leaf_child-Position :
      (key : ℤ) (lo hi : Option ℤ) (ks : List ℤ) (cs : Children)
      → OrderedChildren lo hi ks cs
      → Position key (child_leaves cs) (find_leaf_child cs (find_child_position ks key) key)
  find_leaf_child-Position key lo hi ks nil h = absurd h
  find_leaf_child-Position key lo hi [] (cons c nil) h =
      Position-left key (leaves c) [] tt (find_leaf_in-Position key lo hi c h)
  find_leaf_child-Position key lo hi [] (cons c (cons d ds)) h = absurd h
  find_leaf_child-Position key lo hi (k ∷ ks) (cons c cs) h = elim (Bool-cases (leb_ℤ k key)) [
    | inl right ↦ rw right (
        Position-right key (leaves c) (child_leaves cs) (child-Before lo k key c h.2 right)
          (find_leaf_child-Position key (some k) hi ks cs h.3))
    | inr left ↦ rw left (
        Position-left key (leaves c) (child_leaves cs) (rest-After hi k key ks cs h.3 left)
          (find_leaf_in-Position key lo (some k) c h.2))
  ]

pub descent-Position :
    (key : ℤ) (lo hi : Option ℤ) (n : Node)
    → Ordered lo hi n
    → Position key (leaves n) (find_leaf_in n key)
descent-Position = find_leaf_in-Position

-- The leftmost leaf is the first one.
abbrev pub IsFirst : List Leaf → Option Leaf → Type 0
IsFirst ls answer = (l : Leaf) × (rest : List Leaf) × (answer ≡ some l) × (ls ≡ l ∷ rest)

mutual
  unfolding leftmost_leaf_in

  leftmost_leaf_in-IsFirst :
      (lo hi : Option ℤ) (n : Node) → Ordered lo hi n → IsFirst (leaves n) (leftmost_leaf_in n)
  leftmost_leaf_in-IsFirst lo hi (leaf l) h = (l, [], refl, refl)
  leftmost_leaf_in-IsFirst lo hi (internal ks cs) h = leftmost_leaf_child-IsFirst lo hi ks cs h

  leftmost_leaf_child-IsFirst :
      (lo hi : Option ℤ) (ks : List ℤ) (cs : Children)
      → OrderedChildren lo hi ks cs
      → IsFirst (child_leaves cs) (leftmost_leaf_child cs)
  leftmost_leaf_child-IsFirst lo hi ks nil h = absurd h
  leftmost_leaf_child-IsFirst lo hi [] (cons c nil) h =
      let (l, rest, e, f) = leftmost_leaf_in-IsFirst lo hi c h in
      (l, rest ++ [], e, ap (λ zs. zs ++ []) f)
  leftmost_leaf_child-IsFirst lo hi [] (cons c (cons d ds)) h = absurd h
  leftmost_leaf_child-IsFirst lo hi (k ∷ ks) (cons c cs) h =
      let (l, rest, e, f) = leftmost_leaf_in-IsFirst lo (some k) c h.2 in
      (l, rest ++ child_leaves cs, e, ap (λ zs. zs ++ child_leaves cs) f)

pub leftmost-IsFirst :
    (lo hi : Option ℤ) (n : Node) → Ordered lo hi n → IsFirst (leaves n) (leftmost_leaf_in n)
leftmost-IsFirst = leftmost_leaf_in-IsFirst
