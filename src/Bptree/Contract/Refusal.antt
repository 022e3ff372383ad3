-- ===== src/Bptree/Contract/Refusal.antt =====
-- Why an insertion is refused: a present key leaves everything as it was, and a failure is a call
-- of `calloc` that failed.
use week7_02_sql_index.Prelude.{
  ℕ, zero, suc, Bool, false, List, ◌≡◌, refl, ap, ℤ, ltb, length, get_elem?, Bool-cases, inl, inr,
}
use week7_02_sql_index.Bptree.Node.{
  Leaf, Node, leaf, internal, Children, nil, cons, max_keys, Heap, find_leaf_position,
  find_child_position,
}
use week7_02_sql_index.Bptree.Insert.{
  InsertResult, inserted, duplicate, failed, fault, split, key_at_is, split_leaf_and_insert,
  insert_into_leaf, split_internal_and_insert, absorb, insert_recursive, insert_child,
}

module _ (calloc : ℕ → Bool) where
  -- The node and the heap before, and what the insertion makes of them.
  abbrev pub Refused : Node → Heap → Node → InsertResult → Heap → Type 0
  Refused n h n' duplicate h' = (n' ≡ n) × (h' ≡ h)
  Refused n h n' failed h' = (i : ℕ) × (calloc i ≡ false)
  Refused n h n' _ h' = Unit

  abbrev RefusedChild : Children → Heap → Children → InsertResult → Heap → Type 0
  RefusedChild cs h cs' duplicate h' = (cs' ≡ cs) × (h' ≡ h)
  RefusedChild cs h cs' failed h' = (i : ℕ) × (calloc i ≡ false)
  RefusedChild cs h cs' _ h' = Unit

  Refused-first :
      (c c' : Node) (cs : Children) (h h' : Heap) (r : InsertResult)
      → Refused c h c' r h'
      → RefusedChild (cons c cs) h (cons c' cs) r h'
  Refused-first c c' cs h h' duplicate k = (ap (λ d. cons d cs) k.0, k.1)
  Refused-first c c' cs h h' failed k = k
  Refused-first c c' cs h h' _ k = tt

  Refused-later :
      (c : Node) (cs cs' : Children) (h h' : Heap) (r : InsertResult)
      → RefusedChild cs h cs' r h'
      → RefusedChild (cons c cs) h (cons c cs') r h'
  Refused-later c cs cs' h h' duplicate k = (ap (λ ds. cons c ds) k.0, k.1)
  Refused-later c cs cs' h h' failed k = k
  Refused-later c cs cs' h h' _ k = tt

  insert_into_leaf-Refused :
      (l : Leaf) (key : ℤ) (o : ℕ) (h : Heap)
      → let x = insert_into_leaf calloc l key o h in Refused (leaf l) h x.0 x.1 x.2
  unfolding insert_into_leaf split_leaf_and_insert
  insert_into_leaf-Refused l key o h =
      elim (Bool-cases (key_at_is (get_elem? l.slots (find_leaf_position l.slots key)) key)) [
        | inl present ↦ rw present (refl, refl)
        | inr absent ↦ elim (Bool-cases (ltb (length l.slots) max_keys)) [
          | inl room ↦ rw (absent, room) tt
          | inr full ↦ elim (Bool-cases (calloc h.calls)) [
            | inl e ↦ rw (absent, full, e) tt
            | inr e ↦ rw (absent, full, e) (h.calls, e)
          ]
        ]
      ]

  absorb-Refused :
      (ks : List ℤ) (cs cs' : Children) (position : ℕ) (r : InsertResult) (h h' : Heap)
      → RefusedChild cs h cs' r h'
      → let x = absorb calloc ks cs' position r h' in Refused (internal ks cs) h x.0 x.1 x.2
  unfolding absorb split_internal_and_insert
  absorb-Refused ks cs cs' position inserted h h' k = tt
  absorb-Refused ks cs cs' position duplicate h h' k = (ap (λ ds. internal ks ds) k.0, k.1)
  absorb-Refused ks cs cs' position failed h h' k = k
  absorb-Refused ks cs cs' position fault h h' k = tt
  absorb-Refused ks cs cs' position (split p r) h h' k =
      elim (Bool-cases (ltb (length ks) max_keys)) [
        | inl room ↦ rw room tt
        | inr full ↦ elim (Bool-cases (calloc h'.calls)) [
          | inl e ↦ rw (full, e) tt
          | inr e ↦ rw (full, e) (h'.calls, e)
        ]
      ]

  mutual
    unfolding insert_recursive

    insert_recursive-Refused :
        (n : Node) (key : ℤ) (o : ℕ) (h : Heap)
        → let x = insert_recursive calloc n key o h in Refused n h x.0 x.1 x.2
    insert_recursive-Refused (leaf l) key o h = insert_into_leaf-Refused l key o h
    insert_recursive-Refused (internal ks cs) key o h =
        let x = insert_child calloc cs (find_child_position ks key) key o h in
        absorb-Refused ks cs x.0 (find_child_position ks key) x.1 h x.2
          (insert_child-Refused cs (find_child_position ks key) key o h)

    insert_child-Refused :
        (cs : Children) (position : ℕ) (key : ℤ) (o : ℕ) (h : Heap)
        → let x = insert_child calloc cs position key o h in RefusedChild cs h x.0 x.1 x.2
    insert_child-Refused nil position key o h = tt
    insert_child-Refused (cons c cs) zero key o h =
        let x = insert_recursive calloc c key o h in
        Refused-first c x.0 cs h x.2 x.1 (insert_recursive-Refused c key o h)
    insert_child-Refused (cons c cs) (suc position) key o h =
        let x = insert_child calloc cs position key o h in
        Refused-later c cs x.0 h x.2 x.1 (insert_child-Refused cs position key o h)

  pub insert_any-Refused :
      (n : Node) (key : ℤ) (o : ℕ) (h : Heap)
      → let x = insert_recursive calloc n key o h in Refused n h x.0 x.1 x.2
  insert_any-Refused = insert_recursive-Refused
