-- ===== src/Bptree/Shape/Nodes.antt =====
-- The shape invariant of a node at a height above the leaves.
use week7_02_sql_index.Prelude.{ℕ, zero, suc, ◌-◌, ◌≤◌, ◌≡◌, refl, ap, length, arith}
use week7_02_sql_index.Bptree.Node.{
  Node, leaf, internal, Children, nil, cons, max_keys, insert_child_at, take_children,
  drop_children,
}

abbrev pub child_count : Children → ℕ
child_count nil = 0
child_count (cons c cs) = suc (child_count cs)

-- A leaf holds at least `least` entries if it is the node itself, and two below it.
abbrev mutual
  pub Shaped : ℕ → ℕ → Node → Type 0
  Shaped least zero (leaf l) = (least ≤ length l.slots) × (length l.slots ≤ max_keys)
  Shaped least zero (internal ks cs) = ⊥
  Shaped least (suc height) (leaf l) = ⊥
  Shaped least (suc height) (internal ks cs) =
      (1 ≤ length ks)
      × (length ks ≤ max_keys)
      × (child_count cs ≡ suc (length ks))
      × AllShaped height cs

  pub AllShaped : ℕ → Children → Type 0
  AllShaped height nil = Unit
  AllShaped height (cons c cs) = Shaped 2 height c × AllShaped height cs

pub AllShaped-insert :
    (h : ℕ) (i : ℕ) (c : Node) (cs : Children)
    → Shaped 2 h c
    → AllShaped h cs
    → AllShaped h (insert_child_at i c cs)
AllShaped-insert h zero c cs s a = (s, a)
AllShaped-insert h (suc i) c nil s a = (s, tt)
AllShaped-insert h (suc i) c (cons d cs) s a = (a.0, AllShaped-insert h i c cs s a.1)

pub AllShaped-take : (h i : ℕ) (cs : Children) → AllShaped h cs → AllShaped h (take_children i cs)
AllShaped-take h zero cs a = tt
AllShaped-take h (suc i) nil a = tt
AllShaped-take h (suc i) (cons c cs) a = (a.0, AllShaped-take h i cs a.1)

pub AllShaped-drop : (h i : ℕ) (cs : Children) → AllShaped h cs → AllShaped h (drop_children i cs)
AllShaped-drop h zero cs a = a
AllShaped-drop h (suc i) nil a = tt
AllShaped-drop h (suc i) (cons c cs) a = AllShaped-drop h i cs a.1

pub child_count-insert :
    (i : ℕ) (c : Node) (cs : Children) → child_count (insert_child_at i c cs) ≡ suc (child_count cs)
child_count-insert zero c cs = refl
child_count-insert (suc i) c nil = refl
child_count-insert (suc i) c (cons d cs) = ap suc (child_count-insert i c cs)

pub child_count-drop :
    (i : ℕ) (cs : Children) → child_count (drop_children i cs) ≡ child_count cs - i
child_count-drop zero cs = omega arith
child_count-drop (suc i) nil = omega arith
child_count-drop (suc i) (cons c cs) = omega (arith, child_count-drop i cs)

pub child_count-take :
    (i : ℕ) (cs : Children) → i ≤ child_count cs → child_count (take_children i cs) ≡ i
child_count-take zero cs h = refl
child_count-take (suc i) nil h = omega arith
child_count-take (suc i) (cons c cs) h = omega (arith, child_count-take i cs)
