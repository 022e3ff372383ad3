-- ===== src/Bptree/Order/Lists.antt =====
-- The slots of a leaf and the list of all entries under the order.
use week7_02_sql_index.Prelude.{
  ℕ, zero, suc, ◌<◌, Option, none, some, List, [], ◌∷◌, ◌++◌, ◌≡◌, refl, ap, ℤ, ◌<ℤ◌, ltb_ℤ, length,
  get_elem?, take, drop, insert_at, All, All-imp, All-append, arith, ◌∙◌, sym, append_assoc,
  Bool-cases, inl, inr, ltb→lt, eq_of_parts, All-take,
}
use week7_02_sql_index.Bptree.Node.{Entry, entry, find_leaf_position, Leaf, contents}
use week7_02_sql_index.Bptree.Insert.{first_key}
use week7_02_sql_index.Bptree.Search.{SearchResult, found, missing, slot_result}
use week7_02_sql_index.Bptree.Spec.{lookup, insert_sorted, IsSorted}
use week7_02_sql_index.Bptree.Order.Bounds.{
  AtLeast, Under, AtMost, After, Before, FromBound, BelowBound, SortedIn, AtLeast-trans,
  Under-trans,
}

pub contents-append : (xs ys : List Leaf) → contents (xs ++ ys) ≡ contents xs ++ contents ys
contents-append [] ys = refl
contents-append (x ∷ xs) ys =
    ap (λ zs. x.slots ++ zs) (contents-append xs ys)
    ∙ sym (append_assoc x.slots (contents xs) (contents ys))

-- Entries behind the key, or before it, do not take part.
pub insert_sorted-append_left :
    (key : ℤ) (o : ℕ) (xs ys : List Entry)
    → All (After key) ys
    → insert_sorted key o (xs ++ ys) ≡ insert_sorted key o xs ++ ys
insert_sorted-append_left key o [] [] h = refl
insert_sorted-append_left key o [] (y ∷ ys) h = ground arith
insert_sorted-append_left key o (x ∷ xs) ys h =
    ground (arith, insert_sorted-append_left key o xs ys h)

pub insert_sorted-append_right :
    (key : ℤ) (o : ℕ) (xs ys : List Entry)
    → All (Before key) xs
    → insert_sorted key o (xs ++ ys) ≡ xs ++ insert_sorted key o ys
insert_sorted-append_right key o [] ys h = refl
insert_sorted-append_right key o (x ∷ xs) ys h =
    ground (arith, insert_sorted-append_right key o xs ys h.1)

pub lookup-After : (key : ℤ) (ys : List Entry) → All (After key) ys → lookup key ys ≡ none
lookup-After key [] h = refl
lookup-After key (y ∷ ys) h = ground (arith, lookup-After key ys h.1)

pub lookup-append_left :
    (key : ℤ) (xs ys : List Entry) → All (After key) ys → lookup key (xs ++ ys) ≡ lookup key xs
lookup-append_left key [] ys h = lookup-After key ys h
lookup-append_left key (x ∷ xs) ys h = ground (arith, lookup-append_left key xs ys h)

pub lookup-append_right :
    (key : ℤ) (xs ys : List Entry) → All (Before key) xs → lookup key (xs ++ ys) ≡ lookup key ys
lookup-append_right key [] ys h = refl
lookup-append_right key (x ∷ xs) ys h = ground (arith, lookup-append_right key xs ys h.1)

pub insert_at-find_leaf_position :
    (key : ℤ) (o : ℕ) (es : List Entry)
    → insert_at (find_leaf_position es key) (entry key o) es ≡ insert_sorted key o es
unfolding find_leaf_position
insert_at-find_leaf_position key o [] = refl
insert_at-find_leaf_position key o (e ∷ es) = ground (arith, insert_at-find_leaf_position key o es)

abbrev pub of_lookup : Option ℕ → SearchResult
of_lookup none = missing
of_lookup (some o) = found o

All-After-trans : (k j : ℤ) (es : List Entry) → k <ℤ j → All (After j) es → All (After k) es
All-After-trans k j es h a = All-imp (λ x p. omega arith) es a

-- At the position where the search stops is the key's entry, if the leaf has one.
pub slot_result-lookup :
    (key : ℤ) (lo hi : Option ℤ) (es : List Entry)
    → SortedIn lo hi es
    → slot_result (get_elem? es (find_leaf_position es key)) key ≡ of_lookup (lookup key es)
unfolding find_leaf_position
slot_result-lookup key lo hi [] s = refl
slot_result-lookup key lo hi (e ∷ es) s = ground (
  arith,
  slot_result-lookup key lo hi es s.3,
  λ (h : key <ℤ e.key). lookup-After key es (All-After-trans key e.key es h s.2),
)

pub SortedIn-BelowBound :
    (lo hi : Option ℤ) (es : List Entry) → SortedIn lo hi es → All (BelowBound hi) es
SortedIn-BelowBound lo hi [] s = tt
SortedIn-BelowBound lo hi (e ∷ es) s = (s.1, SortedIn-BelowBound lo hi es s.3)

pub SortedIn-FromBound :
    (lo hi : Option ℤ) (es : List Entry) → SortedIn lo hi es → All (FromBound lo) es
SortedIn-FromBound lo hi [] s = tt
SortedIn-FromBound lo hi (e ∷ es) s = (s.0, SortedIn-FromBound lo hi es s.3)

pub SortedIn-IsSorted : (lo hi : Option ℤ) (es : List Entry) → SortedIn lo hi es → IsSorted es
SortedIn-IsSorted lo hi [] s = tt
SortedIn-IsSorted lo hi (e ∷ es) s = (s.2, SortedIn-IsSorted lo hi es s.3)

-- The bounds may be replaced by any others that hold.
pub SortedIn-rebound :
    (lo hi lo' hi' : Option ℤ) (es : List Entry)
    → SortedIn lo hi es
    → All (FromBound lo') es
    → All (BelowBound hi') es
    → SortedIn lo' hi' es
SortedIn-rebound lo hi lo' hi' [] s a b = tt
SortedIn-rebound lo hi lo' hi' (e ∷ es) s a b =
    (a.0, b.0, s.2, SortedIn-rebound lo hi lo' hi' es s.3 a.1 b.1)

All-insert_sorted :
    (P : Entry → Type 0) (key : ℤ) (o : ℕ) (es : List Entry)
    → P (entry key o)
    → All P es
    → All P (insert_sorted key o es)
All-insert_sorted P key o [] p h = (p, tt)
All-insert_sorted P key o (e ∷ es) p h = ground (arith, All-insert_sorted P key o es p h.1)

first_key-After :
    (k : ℤ) (n : ℕ) (es : List Entry)
    → All (After k) es
    → n < length es
    → k <ℤ first_key (drop n es)
first_key-After k n [] h l = elim l [ ]
first_key-After k zero (e ∷ es) h l = h.0
first_key-After k (suc n) (e ∷ es) h l = first_key-After k n es h.1 (omega arith)

pub SortedIn-insert_sorted :
    (key : ℤ) (o : ℕ) (lo hi : Option ℤ) (es : List Entry)
    → SortedIn lo hi es
    → AtLeast lo key
    → Under hi key
    → lookup key es ≡ none
    → SortedIn lo hi (insert_sorted key o es)
SortedIn-insert_sorted key o lo hi [] s a u n = (a, u, tt, tt)
SortedIn-insert_sorted key o lo hi (e ∷ es) s a u n = elim (Bool-cases (ltb_ℤ e.key key)) [
  | inl before ↦ rw before (
    s.0,
    s.1,
    All-insert_sorted (After e.key) key o es (ltb→lt _ _ before) s.2,
    SortedIn-insert_sorted key o lo hi es s.3 a u (ground arith),
  )
  | inr after ↦
      let below : key <ℤ e.key = ground (arith, eq_of_parts key e.key) in
      rw after (a, u, (below, All-After-trans key e.key es below s.2), s)
]

pub SortedIn-split :
    (lo hi : Option ℤ) (n : ℕ) (es : List Entry)
    → SortedIn lo hi es
    → n < length es
    → let p = first_key (drop n es) in
      AtLeast lo p
      × Under hi p
      × SortedIn lo (some p) (take n es)
      × SortedIn (some p) hi (drop n es)
SortedIn-split lo hi n [] s h = elim h [ ]
SortedIn-split lo hi zero (e ∷ es) s h = (
  s.0,
  s.1,
  tt,
  (
    omega arith,
    s.1,
    s.2,
    SortedIn-rebound lo hi (some e.key) hi es s.3 (All-imp (λ x p. omega arith) es s.2)
        (SortedIn-BelowBound lo hi es s.3),
  ),
)
SortedIn-split lo hi (suc n) (e ∷ es) s h =
    let (a, u, left, right) = SortedIn-split lo hi n es s.3 (omega arith) in
    (
      a,
      u,
      (s.0, first_key-After e.key n es s.2 (omega arith), All-take (After e.key) n es s.2, left),
      right,
    )

pub SortedIn-append :
    (lo hi : Option ℤ) (k : ℤ) (xs ys : List Entry)
    → AtLeast lo k
    → AtMost hi k
    → SortedIn lo (some k) xs
    → SortedIn (some k) hi ys
    → SortedIn lo hi (xs ++ ys)
SortedIn-append lo hi k [] ys a u s t =
    SortedIn-rebound (some k) hi lo hi ys t
      (All-imp (λ x p. AtLeast-trans lo k x.key a p) ys (SortedIn-FromBound (some k) hi ys t))
      (SortedIn-BelowBound (some k) hi ys t)
SortedIn-append lo hi k (e ∷ es) ys a u s t = (
  s.0,
  Under-trans hi k e.key u s.1,
  All-append (After e.key) es ys s.2
      (All-imp (λ x p. omega arith) ys (SortedIn-FromBound (some k) hi ys t)),
  SortedIn-append lo hi k es ys a u s.3 t,
)
