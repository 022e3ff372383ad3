-- ===== src/Bptree/Contract/Insert.antt =====
-- `bptree_insert` refines insertion into a sorted list.
use week7_02_sql_index.Prelude.{
  ℕ, suc, ◌+◌, ◌≤◌, Bool, true, false, Option, none, some, [], ◌++◌, ◌≡◌, ◌≢◌, refl, ◌∙◌, ℤ,
  Bool-cases, inl, inr, arith, append-nil, ◌⊎◌,
}
use week7_02_sql_index.Bptree.Node.{
  Node, Heap, BPlusTree, leaves, contents, entries, find_leaf_position,
}
use week7_02_sql_index.Bptree.Insert.{
  InsertResult, inserted, duplicate, failed, fault, split, insert_into_leaf,
  insert_leaf_without_split, insert_recursive, grow_root, insert_at_root, insert_from_root,
  bptree_insert,
}
use week7_02_sql_index.Bptree.Spec.{lookup, insert_sorted}
use week7_02_sql_index.Bptree.Order.Lists.{contents-append}
use week7_02_sql_index.Bptree.Order.Insert.{Inserts, insert_at_any-Inserts}
use week7_02_sql_index.Bptree.Shape.Insert.{KeepsShape, insert_any-KeepsShape}
use week7_02_sql_index.Bptree.Chain.Segments.{at_addr}
use week7_02_sql_index.Bptree.Chain.Insert.{KeepsLinks, leaves_after, insert_any-Links}
use week7_02_sql_index.Bptree.Chain.Addresses.{given, KeepsAddresses, insert_any-Addresses}
use week7_02_sql_index.Bptree.Contract.Refusal.{Refused, insert_any-Refused}
use week7_02_sql_index.Bptree.Contract.Valid.{IsValid}

-- All that is known of the result of `insert_recursive` at a valid root.
record Outcome (calloc : ℕ → Bool) (n : Node) (h : Heap) (key : ℤ) (o : ℕ) (n' : Node)
    (r : InsertResult) (h' : Heap) : Type 0 where
  height : ℕ
  first : Option ℕ
  order : Inserts none none (contents (leaves n)) key o n' r
  shape : KeepsShape 1 height n' r
  links : KeepsLinks first none (leaves_after n' r) r
  placed : (a : ℕ) → at_addr a (leaves n) ≤ given 0 h.calls a
  addresses : (a : ℕ) → KeepsAddresses a h h' (leaves n) (leaves_after n' r) r
  refused : Refused calloc n h n' r h'
  nothing_lost : h.lost ≡ []

given_trans : (a b c n m : ℕ) → m ≤ n + given b c a → n ≤ given 0 b a → b ≤ c → m ≤ given 0 c a
given_trans a b c n m h k l = ground arith

given-grow : (a b c n m : ℕ) → m ≤ n + given b c a → m ≤ n + given b (c + 1) a
given-grow a b c n m h = ground arith

-- What `bptree_insert` may answer at a tree. `none` would be a fault.
abbrev pub InsertContract : (ℕ → Bool) → BPlusTree → ℤ → ℕ → Option (BPlusTree × Bool) → Type 0
InsertContract calloc t key o none = ⊥
InsertContract calloc t key o (some (t', true)) =
    IsValid t' × (lookup key (entries t) ≡ none) × (entries t' ≡ insert_sorted key o (entries t))
InsertContract calloc t key o (some (t', false)) =
    ((lookup key (entries t) ≢ none) × (t' ≡ t))
    ⊎ ((lookup key (entries t) ≡ none) × ((i : ℕ) × (calloc i ≡ false)))

module _ (calloc : ℕ → Bool) where
  grow_root-contract :
      (n : Node) (h : Heap) (key : ℤ) (o : ℕ) (n' : Node) (r : InsertResult) (h' : Heap)
      → Outcome calloc n h key o n' r h'
      → InsertContract calloc (record { root = some n; heap = h }) key o (grow_root calloc n' r h')
  unfolding grow_root
  grow_root-contract n h key o n' inserted h' x = (
    record {
      nodes = record {
        height = x.height;
        first = x.first;
        ordered = x.order.0;
        shaped = x.shape;
        linked = x.links;
        placed = λ a.
            let k = x.addresses a in
            given_trans a h.calls h'.calls (at_addr a (leaves n)) (at_addr a (leaves n')) k.2
              (x.placed a) k.0;
      };
      nothing_lost = (x.addresses 0).1 ∙ x.nothing_lost;
    },
    x.order.1,
    x.order.2,
  )
  grow_root-contract n h key o n' duplicate h' x =
      inl (x.order.1, λ i. record { root = some (x.refused.0 i); heap = x.refused.1 i })
  grow_root-contract n h key o n' failed h' x = inr (x.order, x.refused)
  grow_root-contract n h key o n' fault h' x = absurd x.order
  grow_root-contract n h key o n' (split p r) h' x = elim (Bool-cases (calloc h'.calls)) [
    | inr e ↦ rw e (inr (x.order.4, (h'.calls, e)))
    | inl e ↦ rw e (
      record {
        nodes = record {
          height = suc x.height;
          first = x.first;
          ordered = (tt, tt, x.order.2, x.order.3);
          shaped = (omega arith, omega arith, refl, (x.shape.0, (x.shape.1, tt)));
          linked = rw append-nil x.links;
          placed = λ a.
              let k = x.addresses a in
              rw append-nil (
                given_trans a h.calls (h'.calls + 1) (at_addr a (leaves n))
                  (at_addr a (leaves n' ++ leaves r))
                  (given-grow a h.calls h'.calls (at_addr a (leaves n)) _ k.2) (x.placed a)
                  (omega arith));
        };
        nothing_lost = (x.addresses 0).1 ∙ x.nothing_lost;
      },
      x.order.4,
      rw append-nil (contents-append (leaves n') (leaves r) ∙ x.order.5),
    )
  ]

  insert_at_root-contract :
      (n : Node) (h : Heap) (key : ℤ) (o : ℕ)
      → IsValid (record { root = some n; heap = h })
      → InsertContract calloc
          (record { root = some n; heap = h })
          key
          o
          (insert_at_root calloc n key o h)
  unfolding insert_at_root
  insert_at_root-contract n h key o v =
      let x = insert_recursive calloc n key o h in
      grow_root-contract n h key o x.0 x.1 x.2 (record {
        height = v.nodes.height;
        first = v.nodes.first;
        order = insert_at_any-Inserts calloc n key o h v.nodes.ordered;
        shape =
            insert_any-KeepsShape calloc 1 v.nodes.height n key o h (omega arith) v.nodes.shaped;
        links = insert_any-Links calloc v.nodes.first none n key o h v.nodes.linked;
        placed = v.nodes.placed;
        addresses = λ a. insert_any-Addresses calloc a n key o h;
        refused = insert_any-Refused calloc n key o h;
        nothing_lost = v.nothing_lost;
      })

  -- the first entry of a tree
  insert_from_none-contract :
      (h : Heap) (key : ℤ) (o : ℕ)
      → h.lost ≡ []
      → InsertContract calloc
          (record { root = none; heap = h })
          key
          o
          (insert_from_root calloc none key o h)
  unfolding insert_from_root insert_at_root insert_recursive insert_into_leaf
      insert_leaf_without_split grow_root find_leaf_position
  insert_from_none-contract h key o e = elim (Bool-cases (calloc h.calls)) [
    | inr f ↦ rw f (inr (refl, (h.calls, f)))
    | inl s ↦ rw s (
      record {
        nodes = record {
          height = 0;
          first = some h.calls;
          ordered = (tt, tt, tt, tt);
          shaped = (omega arith, omega arith);
          linked = (refl, refl);
          placed = λ a. ground arith;
        };
        nothing_lost = e;
      },
      refl,
      refl,
    )
  ]

  -- A valid tree is never at fault. It answers 1 where the key was absent, and is then a valid tree
  -- with the entry at its place among the sorted entries. It answers 0 where the key was present,
  -- and is then unchanged, or where the key was absent and some call of `calloc` fails.
  pub bptree_insert_refines :
      (t : BPlusTree) (key : ℤ) (offset : ℕ)
      → IsValid t
      → InsertContract calloc t key offset (bptree_insert calloc t key offset)
  unfolding bptree_insert
  bptree_insert_refines t key offset v = by_root t.root t.heap v
    where
      by_root :
          (root : Option Node) (h : Heap)
          → IsValid (record { root = root; heap = h })
          → InsertContract calloc
              (record { root = root; heap = h })
              key
              offset
              (insert_from_root calloc root key offset h)
      by_root none h v = insert_from_none-contract h key offset v.nothing_lost
      by_root (some n) h v = insert_at_root-contract n h key offset v

  -- With memory, an absent key is inserted.
  pub bptree_insert_absent :
      (t : BPlusTree) (key : ℤ) (offset : ℕ)
      → IsValid t
      → ((i : ℕ) → calloc i ≡ true)
      → lookup key (entries t) ≡ none
      → (t' : BPlusTree) × (bptree_insert calloc t key offset ≡ some (t', true))
        × IsValid t'
        × (entries t' ≡ insert_sorted key offset (entries t))
  bptree_insert_absent t key offset v enough absent =
      by_answer (bptree_insert calloc t key offset) refl (bptree_insert_refines t key offset v)
    where
      by_answer :
          (answer : Option (BPlusTree × Bool))
          → bptree_insert calloc t key offset ≡ answer
          → InsertContract calloc t key offset answer
          → (t' : BPlusTree) × (bptree_insert calloc t key offset ≡ some (t', true))
            × IsValid t'
            × (entries t' ≡ insert_sorted key offset (entries t))
      by_answer none e c = absurd c
      by_answer (some (t', true)) e c = (t', e, c.0, c.2)
      by_answer (some (t', false)) e (inl (present, same)) = absurd (present absent)
      by_answer (some (t', false)) e (inr (_, (i, f))) = cc (enough i)
