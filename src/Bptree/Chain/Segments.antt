-- ===== src/Bptree/Chain/Segments.antt =====
-- Leaves in a row, each pointing at the one behind it.
use week7_02_sql_index.Prelude.{
  ℕ, ◌≤◌, ◌+◌, Option, some, List, [], ◌∷◌, ◌++◌, ◌≡◌, refl, sym, ◌==◌, if◌then◌else◌, arith,
}
use mathlib.Core.Path.{subst}
use week7_02_sql_index.Bptree.Node.{Leaf}
use week7_02_sql_index.Bptree.Search.{deref}

-- From pointer `p` the leaves are reached in order, and the last one points at `q`.
abbrev pub Linked : Option ℕ → List Leaf → Option ℕ → Type 0
Linked p [] q = p ≡ q
Linked p (l ∷ ls) q = (p ≡ some l.addr) × Linked l.next ls q

pub Linked-append :
    (p m q : Option ℕ) (xs ys : List Leaf) → Linked p xs m → Linked m ys q → Linked p (xs ++ ys) q
Linked-append p m q [] ys h k = subst (λ r. Linked r ys q) (sym h) k
Linked-append p m q (x ∷ xs) ys h k = (h.0, Linked-append x.next m q xs ys h.1 k)

-- where the second part of a row begins
pub middle : Option ℕ → List Leaf → Option ℕ
middle p [] = p
middle p (x ∷ xs) = middle x.next xs

pub Linked-left :
    (p q : Option ℕ) (xs ys : List Leaf) → Linked p (xs ++ ys) q → Linked p xs (middle p xs)
unfolding middle
Linked-left p q [] ys h = refl
Linked-left p q (x ∷ xs) ys h = (h.0, Linked-left x.next q xs ys h.1)

pub Linked-right :
    (p q : Option ℕ) (xs ys : List Leaf) → Linked p (xs ++ ys) q → Linked (middle p xs) ys q
unfolding middle
Linked-right p q [] ys h = h
Linked-right p q (x ∷ xs) ys h = Linked-right x.next q xs ys h.1

-- How many leaves stand at an address.
abbrev pub at_addr : ℕ → List Leaf → ℕ
at_addr a [] = 0
at_addr a (l ∷ ls) = (if l.addr == a then 1 else 0) + at_addr a ls

pub at_addr-append :
    (a : ℕ) (xs ys : List Leaf) → at_addr a (xs ++ ys) ≡ at_addr a xs + at_addr a ys
at_addr-append a [] ys = omega arith
at_addr-append a (x ∷ xs) ys = omega (arith, at_addr-append a xs ys)

at_addr_self : (l : Leaf) (ls : List Leaf) → 1 ≤ at_addr l.addr (l ∷ ls)
at_addr_self l ls = ground arith

-- A leaf is read back at its address, where no other leaf stands.
pub deref-append :
    (xs : List Leaf) (l : Leaf) (ys : List Leaf)
    → at_addr l.addr (xs ++ l ∷ ys) ≤ 1
    → deref (xs ++ l ∷ ys) l.addr ≡ some l
deref-append [] l ys h = ground arith
deref-append (x ∷ xs) l ys h =
    ground (arith, deref-append xs l ys, at_addr_self l ys, at_addr-append l.addr xs (l ∷ ys))
