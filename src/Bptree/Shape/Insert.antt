-- ===== src/Bptree/Shape/Insert.antt =====
-- Insertion keeps the shape, on every branch and for any behaviour of `calloc`.
use week7_02_sql_index.Prelude.{
  ℕ, zero, suc, ◌/◌, ◌≤◌, ◌≡◌, refl, Bool, List, ℤ, ltb, length, insert_at, length-insert_at,
  length-take, length-drop, Bool-cases, inl, inr, arith, ltb→lt, ap, ◌∙◌,
}
use week7_02_sql_index.Bptree.Node.{
  entry, Leaf, Node, leaf, internal, Children, nil, cons, max_keys, Heap, find_leaf_position,
  find_child_position, insert_child_at,
}
use week7_02_sql_index.Bptree.Insert.{
  InsertResult, inserted, duplicate, failed, fault, split, insert_leaf_without_split,
  split_leaf_and_insert, insert_into_leaf, split_internal_and_insert, absorb, insert_recursive,
  insert_child,
}
use week7_02_sql_index.Bptree.Shape.Nodes.{
  child_count, Shaped, AllShaped, AllShaped-insert, AllShaped-take, AllShaped-drop,
  child_count-insert, child_count-drop, child_count-take,
}

-- The shape of a node after an insertion, and of the right half of a split. `least` is that of the
-- node before; the key makes it one at least.
abbrev pub KeepsShape : ℕ → ℕ → Node → InsertResult → Type 0
KeepsShape least height n (split p r) = Shaped 2 height n × Shaped 2 height r
KeepsShape least height n inserted = Shaped least height n
KeepsShape least height n duplicate = Shaped least height n
KeepsShape least height n failed = Shaped least height n
KeepsShape least height n fault = Unit

abbrev KeepsChildren : ℕ → Children → Children → InsertResult → Type 0
KeepsChildren height cs cs' (split p r) =
    AllShaped height cs' × (child_count cs' ≡ child_count cs) × Shaped 2 height r
KeepsChildren height cs cs' fault = Unit
KeepsChildren height cs cs' r = AllShaped height cs' × (child_count cs' ≡ child_count cs)

KeepsChildren-first :
    (height : ℕ) (c c' : Node) (cs : Children) (r : InsertResult)
    → KeepsShape 2 height c' r
    → AllShaped height cs
    → KeepsChildren height (cons c cs) (cons c' cs) r
KeepsChildren-first height c c' cs inserted k a = ((k, a), refl)
KeepsChildren-first height c c' cs duplicate k a = ((k, a), refl)
KeepsChildren-first height c c' cs failed k a = ((k, a), refl)
KeepsChildren-first height c c' cs fault k a = tt
KeepsChildren-first height c c' cs (split p r) k a = ((k.0, a), refl, k.1)

KeepsChildren-later :
    (height : ℕ) (c : Node) (cs cs' : Children) (r : InsertResult)
    → Shaped 2 height c
    → KeepsChildren height cs cs' r
    → KeepsChildren height (cons c cs) (cons c cs') r
KeepsChildren-later height c cs cs' inserted s k = ((s, k.0), ap suc k.1)
KeepsChildren-later height c cs cs' duplicate s k = ((s, k.0), ap suc k.1)
KeepsChildren-later height c cs cs' failed s k = ((s, k.0), ap suc k.1)
KeepsChildren-later height c cs cs' fault s k = tt
KeepsChildren-later height c cs cs' (split p r) s k = ((s, k.0), ap suc k.1, k.2)

module _ (calloc : ℕ → Bool) where
  insert_into_leaf-KeepsShape :
      (least : ℕ) (l : Leaf) (key : ℤ) (o : ℕ) (h : Heap)
      → least ≤ 2
      → Shaped least 0 (leaf l)
      → let x = insert_into_leaf calloc l key o h in KeepsShape least 0 x.0 x.1
  unfolding insert_into_leaf insert_leaf_without_split split_leaf_and_insert
  insert_into_leaf-KeepsShape least l key o h b s =
      let position = find_leaf_position l.slots key in
      let temp = insert_at position (entry key o) l.slots in
      let half = length temp / 2 in
      ground (
        arith,
        length-insert_at position (entry key o) l.slots,
        length-take half temp,
        length-drop half temp,
      )

  absorb-KeepsShape :
      (least height : ℕ) (ks : List ℤ) (cs cs' : Children) (position : ℕ) (r : InsertResult)
      (h : Heap)
      → Shaped least (suc height) (internal ks cs)
      → KeepsChildren height cs cs' r
      → let x = absorb calloc ks cs' position r h in KeepsShape least (suc height) x.0 x.1
  unfolding absorb split_internal_and_insert
  absorb-KeepsShape least height ks cs cs' position inserted h s k = ground arith
  absorb-KeepsShape least height ks cs cs' position duplicate h s k = ground arith
  absorb-KeepsShape least height ks cs cs' position failed h s k = ground arith
  absorb-KeepsShape least height ks cs cs' position fault h s k = tt
  absorb-KeepsShape least height ks cs cs' position (split p r) h s k =
      let keys = length-insert_at position p ks in
      let kids = child_count-insert (suc position) r cs' in
      let shaped = AllShaped-insert height (suc position) r cs' k.2 k.0 in
      elim (Bool-cases (ltb (length ks) max_keys)) [
        | inl room ↦
            let small = ltb→lt (length ks) max_keys room in
            rw room (omega arith, omega arith, omega arith, shaped)
        | inr full ↦ elim (Bool-cases (calloc h.calls)) [
          | inr e ↦ rw (full, e) (s.0, s.1, k.1 ∙ s.2, k.0)
          | inl e ↦
              let half = length (insert_at position p ks) / 2 in
              let temp = insert_child_at (suc position) r cs' in
              let taken = length-take half (insert_at position p ks) in
              let dropped = length-drop (suc half) (insert_at position p ks) in
              let kids_left = child_count-take (suc half) temp (ground arith) in
              let kids_right = child_count-drop (suc half) temp in
              rw (full, e)
                (
                  (
                    ground arith,
                    ground arith,
                    ground arith,
                    AllShaped-take height (suc half) temp shaped,
                  ),
                  (
                    ground arith,
                    ground arith,
                    ground arith,
                    AllShaped-drop height (suc half) temp shaped,
                  ),
                )
        ]
      ]

  mutual
    unfolding insert_recursive

    insert_recursive-KeepsShape :
        (least height : ℕ) (n : Node) (key : ℤ) (o : ℕ) (h : Heap)
        → least ≤ 2
        → Shaped least height n
        → let x = insert_recursive calloc n key o h in KeepsShape least height x.0 x.1
    insert_recursive-KeepsShape least zero (leaf l) key o h b s =
        insert_into_leaf-KeepsShape least l key o h b s
    insert_recursive-KeepsShape least zero (internal ks cs) key o h b s = absurd s
    insert_recursive-KeepsShape least (suc height) (leaf l) key o h b s = absurd s
    insert_recursive-KeepsShape least (suc height) (internal ks cs) key o h b s =
        let x = insert_child calloc cs (find_child_position ks key) key o h in
        absorb-KeepsShape least height ks cs x.0 (find_child_position ks key) x.1 x.2 s
          (insert_child-KeepsShape height cs (find_child_position ks key) key o h s.3)

    insert_child-KeepsShape :
        (height : ℕ) (cs : Children) (position : ℕ) (key : ℤ) (o : ℕ) (h : Heap)
        → AllShaped height cs
        → let x = insert_child calloc cs position key o h in KeepsChildren height cs x.0 x.1
    insert_child-KeepsShape height nil position key o h a = tt
    insert_child-KeepsShape height (cons c cs) zero key o h a =
        let x = insert_recursive calloc c key o h in
        KeepsChildren-first height c x.0 cs x.1
          (insert_recursive-KeepsShape 2 height c key o h (omega arith) a.0) a.1
    insert_child-KeepsShape height (cons c cs) (suc position) key o h a =
        let x = insert_child calloc cs position key o h in
        KeepsChildren-later height c cs x.0 x.1 a.0
          (insert_child-KeepsShape height cs position key o h a.1)

  pub insert_any-KeepsShape :
      (least height : ℕ) (n : Node) (key : ℤ) (o : ℕ) (h : Heap)
      → least ≤ 2
      → Shaped least height n
      → let x = insert_recursive calloc n key o h in KeepsShape least height x.0 x.1
  insert_any-KeepsShape = insert_recursive-KeepsShape
