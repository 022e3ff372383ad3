-- ===== src/Bptree/Order/Bounds.antt =====
-- The order invariant of a node that lies between two separators of its ancestors.
use week7_02_sql_index.Prelude.{Option, none, some, List, [], ◌∷◌, ℤ, ◌≤ℤ◌, ◌<ℤ◌, All, arith}
use week7_02_sql_index.Bptree.Node.{Entry, Node, leaf, internal, Children, nil, cons}

-- A missing bound, at an end of the tree, holds of every key.
abbrev pub AtLeast : Option ℤ → ℤ → Type 0
AtLeast none k = Unit
AtLeast (some lo) k = lo ≤ℤ k

abbrev pub Under : Option ℤ → ℤ → Type 0
Under none k = Unit
Under (some hi) k = k <ℤ hi

abbrev pub AtMost : Option ℤ → ℤ → Type 0
AtMost none k = Unit
AtMost (some hi) k = k ≤ℤ hi

abbrev pub After : ℤ → Entry → Type 0
After k e = k <ℤ e.key

abbrev pub Before : ℤ → Entry → Type 0
Before k e = e.key <ℤ k

abbrev pub FromBound : Option ℤ → Entry → Type 0
FromBound lo e = AtLeast lo e.key

abbrev pub BelowBound : Option ℤ → Entry → Type 0
BelowBound hi e = Under hi e.key

-- Slots whose keys rise strictly and lie in the half-open range.
abbrev pub SortedIn : Option ℤ → Option ℤ → List Entry → Type 0
SortedIn lo hi [] = Unit
SortedIn lo hi (e ∷ es) =
    AtLeast lo e.key × Under hi e.key × All (After e.key) es × SortedIn lo hi es

-- Child `i` lies between the separators `i - 1` and `i`, and there is one child more than separators.
abbrev mutual
  pub Ordered : Option ℤ → Option ℤ → Node → Type 0
  Ordered lo hi (leaf l) = SortedIn lo hi l.slots
  Ordered lo hi (internal ks cs) = OrderedChildren lo hi ks cs

  pub OrderedChildren : Option ℤ → Option ℤ → List ℤ → Children → Type 0
  OrderedChildren lo hi ks nil = ⊥
  OrderedChildren lo hi [] (cons c nil) = Ordered lo hi c
  OrderedChildren lo hi [] (cons c (cons d ds)) = ⊥
  OrderedChildren lo hi (k ∷ ks) (cons c cs) =
      AtLeast lo k × AtMost hi k × Ordered lo (some k) c × OrderedChildren (some k) hi ks cs

pub AtLeast-trans : (lo : Option ℤ) (k j : ℤ) → AtLeast lo k → k ≤ℤ j → AtLeast lo j
AtLeast-trans none k j h e = tt
AtLeast-trans (some lo) k j h e = omega arith

pub Under-trans : (hi : Option ℤ) (k j : ℤ) → AtMost hi k → j <ℤ k → Under hi j
Under-trans none k j h e = tt
Under-trans (some hi) k j h e = omega arith

pub AtMost-trans : (hi : Option ℤ) (k j : ℤ) → AtMost hi k → j ≤ℤ k → AtMost hi j
AtMost-trans none k j h e = tt
AtMost-trans (some hi) k j h e = omega arith

pub AtMost-of_Under : (hi : Option ℤ) (k : ℤ) → Under hi k → AtMost hi k
AtMost-of_Under none k h = tt
AtMost-of_Under (some hi) k h = omega arith
