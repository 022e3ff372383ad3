-- ===== src/Bptree/Shape/Height.antt =====
-- A tree of height h holds at least 2 ^ h entries, and a search goes down h levels.
use week7_02_sql_index.Prelude.{ℕ, zero, suc, ◌*◌, ◌^◌, ◌≤◌, [], ℤ, length, length-append, arith}
use native.Mathlib.Nat.{pow-suc}
use week7_02_sql_index.Bptree.Node.{
  Node, leaf, internal, Children, nil, cons, contents, leaves, child_leaves, find_child_position,
}
use week7_02_sql_index.Bptree.Search.{descent_rounds, child_rounds}
use week7_02_sql_index.Bptree.Order.Lists.{contents-append}
use week7_02_sql_index.Bptree.Shape.Nodes.{child_count, Shaped, AllShaped}

twice-le : (m p n : ℕ) → 2 ≤ m → m * p ≤ n → 2 * p ≤ n
twice-le m p n h k = grind arith

pow-step : (h n : ℕ) → 2 * 2 ^ h ≤ n → 2 ^ suc h ≤ n
pow-step h n k = simp pow-suc (omega arith)

mutual
  Shaped-entries :
      (height : ℕ) (n : Node) → Shaped 2 height n → 2 ^ suc height ≤ length (contents (leaves n))
  Shaped-entries zero (leaf l) s = omega (arith, length-append l.slots [])
  Shaped-entries zero (internal ks cs) s = absurd s
  Shaped-entries (suc height) (leaf l) s = absurd s
  Shaped-entries (suc height) (internal ks cs) s =
      pow-step (suc height) (length (contents (child_leaves cs))) (
        twice-le (child_count cs) (2 ^ suc height) (length (contents (child_leaves cs)))
          (omega arith) (AllShaped-entries height cs s.3))

  AllShaped-entries :
      (height : ℕ) (cs : Children)
      → AllShaped height cs
      → child_count cs * 2 ^ suc height ≤ length (contents (child_leaves cs))
  AllShaped-entries height nil a = omega arith
  AllShaped-entries height (cons c cs) a =
      rw (contents-append, length-append)
        (grind (arith, Shaped-entries height c a.0, AllShaped-entries height cs a.1))

mutual
  unfolding descent_rounds

  descent_rounds-Shaped :
      (least height : ℕ) (n : Node) (key : ℤ)
      → Shaped least height n
      → descent_rounds n key ≤ height
  descent_rounds-Shaped least zero (leaf l) key s = omega arith
  descent_rounds-Shaped least zero (internal ks cs) key s = absurd s
  descent_rounds-Shaped least (suc height) (leaf l) key s = absurd s
  descent_rounds-Shaped least (suc height) (internal ks cs) key s =
      omega (arith, child_rounds-Shaped height cs (find_child_position ks key) key s.3)

  child_rounds-Shaped :
      (height : ℕ) (cs : Children) (position : ℕ) (key : ℤ)
      → AllShaped height cs
      → child_rounds cs position key ≤ height
  child_rounds-Shaped height nil position key a = omega arith
  child_rounds-Shaped height (cons c cs) zero key a = descent_rounds-Shaped 2 height c key a.0
  child_rounds-Shaped height (cons c cs) (suc position) key a =
      child_rounds-Shaped height cs position key a.1

pub descent_rounds-le :
    (least height : ℕ) (n : Node) (key : ℤ) → Shaped least height n → descent_rounds n key ≤ height
descent_rounds-le = descent_rounds-Shaped

-- A root has entries, and from height 1 on two children at least.
pub pow-le-entries :
    (height : ℕ) (n : Node) → Shaped 1 height n → 2 ^ height ≤ length (contents (leaves n))
pow-le-entries zero (leaf l) s = omega (arith, length-append l.slots [])
pow-le-entries zero (internal ks cs) s = absurd s
pow-le-entries (suc height) (leaf l) s = absurd s
pow-le-entries (suc height) (internal ks cs) s =
    let all = AllShaped-entries height cs s.3 in
    let some_child =
      twice-le (child_count cs) (2 ^ suc height) (length (contents (child_leaves cs))) (omega arith)
        all in
    omega arith
