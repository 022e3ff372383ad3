-- ===== src/Bptree/Order/Ranges.antt =====
-- The entries above or below a key, in sorted lists and in parts of them.
use week7_02_sql_index.Prelude.{
  List, [], ◌∷◌, ◌++◌, ◌≡◌, refl, ℤ, ◌<ℤ◌, ◌≤ℤ◌, drop, All, All-imp, arith,
}
use week7_02_sql_index.Bptree.Node.{Entry, find_leaf_position}
use week7_02_sql_index.Bptree.Search.{skip_at_most}
use week7_02_sql_index.Bptree.Spec.{greater_than, less_than, IsSorted}
use week7_02_sql_index.Bptree.Order.Bounds.{After, Before}

pub greater_than-append :
    (key : ℤ) (xs ys : List Entry)
    → greater_than key (xs ++ ys) ≡ greater_than key xs ++ greater_than key ys
greater_than-append key [] ys = refl
greater_than-append key (x ∷ xs) ys = ground (arith, greater_than-append key xs ys)

pub greater_than-Before :
    (key : ℤ) (xs : List Entry) → All (Before key) xs → greater_than key xs ≡ []
greater_than-Before key [] h = refl
greater_than-Before key (x ∷ xs) h = ground (arith, greater_than-Before key xs h.1)

pub greater_than-After : (key : ℤ) (xs : List Entry) → All (After key) xs → greater_than key xs ≡ xs
greater_than-After key [] h = refl
greater_than-After key (x ∷ xs) h = ground (arith, greater_than-After key xs h.1)

After-weaken : (k j : ℤ) (es : List Entry) → k <ℤ j → All (After j) es → All (After k) es
After-weaken k j es h a = All-imp (λ x p. omega arith) es a

-- Behind an entry that is not below the key there is none below it.
pub less_than-beyond :
    (key j : ℤ) (es : List Entry) → key ≤ℤ j → All (After j) es → less_than key es ≡ []
less_than-beyond key j [] h a = refl
less_than-beyond key j (e ∷ es) h a = ground (arith, less_than-beyond key j es h a.1)

skip_at_most-sorted :
    (key : ℤ) (es : List Entry) → IsSorted es → skip_at_most key es ≡ greater_than key es
unfolding skip_at_most
skip_at_most-sorted key [] s = refl
skip_at_most-sorted key (e ∷ es) s = ground (
  arith,
  skip_at_most-sorted key es s.1,
  λ (h : key <ℤ e.key). greater_than-After key es (After-weaken key e.key es h s.0),
)

-- The two loops in front of a scan upwards leave the entries above the key.
pub start-greater_than :
    (key : ℤ) (es : List Entry)
    → IsSorted es
    → skip_at_most key (drop (find_leaf_position es key) es) ≡ greater_than key es
unfolding find_leaf_position
start-greater_than key [] s = skip_at_most-sorted key [] s
start-greater_than key (e ∷ es) s =
    ground (arith, start-greater_than key es s.1, skip_at_most-sorted key (e ∷ es) s)
