-- ===== src/Bptree/Order/Split.antt =====
-- Splitting the separators and children of an internal node.
use week7_02_sql_index.Prelude.{
  ℕ, zero, suc, ◌<◌, Option, some, List, [], ◌∷◌, ◌++◌, ◌≡◌, refl, ap, ℤ, length, get_or, take,
  drop, arith, ◌∙◌, append_assoc,
}
use week7_02_sql_index.Bptree.Node.{
  Children, nil, cons, leaves, child_leaves, take_children, drop_children,
}
use week7_02_sql_index.Bptree.Order.Bounds.{AtLeast, AtMost, OrderedChildren, AtLeast-trans}

pub child_leaves-take-drop :
    (n : ℕ) (cs : Children)
    → child_leaves (take_children n cs) ++ child_leaves (drop_children n cs) ≡ child_leaves cs
child_leaves-take-drop zero cs = refl
child_leaves-take-drop (suc n) nil = refl
child_leaves-take-drop (suc n) (cons c cs) =
    append_assoc (leaves c) (child_leaves (take_children n cs)) (child_leaves (drop_children n cs))
    ∙ ap (λ ls. leaves c ++ ls) (child_leaves-take-drop n cs)

-- Cut at separator `n`, which goes up, both halves are ordered.
pub OrderedChildren-split :
    (lo hi : Option ℤ) (n : ℕ) (ks : List ℤ) (cs : Children) (d : ℤ)
    → OrderedChildren lo hi ks cs
    → n < length ks
    → let p = get_or ks n d in
      AtLeast lo p
      × AtMost hi p
      × OrderedChildren lo (some p) (take n ks) (take_children (suc n) cs)
      × OrderedChildren (some p) hi (drop (suc n) ks) (drop_children (suc n) cs)
OrderedChildren-split lo hi n ks nil d h l = absurd h
OrderedChildren-split lo hi n [] (cons c cs) d h l = elim l [ ]
OrderedChildren-split lo hi zero (k ∷ ks) (cons c cs) d h l = h
OrderedChildren-split lo hi (suc n) (k ∷ ks) (cons c cs) d h l =
    let (a, u, left, right) = OrderedChildren-split (some k) hi n ks cs d h.3 (omega arith) in
    (AtLeast-trans lo k (get_or ks n d) h.0 a, u, (h.0, a, h.2, left), right)
