-- ===== src/Bptree/Contract/Scan.antt =====
-- The range scans visit the entries above or below a key, in order, up to the first refusal.
use week7_02_sql_index.Prelude.{
  ℕ, zero, suc, ◌≤◌, Bool, true, false, Option, none, some, List, [], ◌∷◌, ◌++◌, ◌≡◌, refl, ap, ◌∙◌,
  sym, ℤ, leb_ℤ, ltb_ℤ, length, length-append, drop, arith, append-nil, append_assoc, Bool-cases,
  inl, inr, leb→le,
}
use native.Mathlib.Nat.{le_trans}
use week7_02_sql_index.Bptree.Node.{
  Entry, Leaf, Node, Heap, BPlusTree, leaves, contents, entries, find_leaf_position, tree_leaves,
}
use week7_02_sql_index.Bptree.Search.{
  Scan, go_on, return, visit_slots, visit_slots_below, after_visit, follow, memory, skip_at_most,
  bptree_visit_greater_than, bptree_visit_less_than, deref,
}
use week7_02_sql_index.Bptree.Spec.{continue, visit_all, greater_than, less_than, IsSorted}
use week7_02_sql_index.Bptree.Order.Lists.{contents-append, SortedIn-IsSorted}
use week7_02_sql_index.Bptree.Order.Nodes.{node-SortedIn}
use week7_02_sql_index.Bptree.Order.Descent.{Position, descent-Position, leftmost-IsFirst}
use week7_02_sql_index.Bptree.Order.Ranges.{
  greater_than-append, greater_than-Before, greater_than-After, less_than-beyond,
  start-greater_than,
}
use week7_02_sql_index.Bptree.Chain.Segments.{Linked, Linked-right, at_addr, deref-append}
use week7_02_sql_index.Bptree.Chain.Addresses.{given}
use week7_02_sql_index.Bptree.Contract.Valid.{IsValid}

IsSorted-right : (xs ys : List Entry) → IsSorted (xs ++ ys) → IsSorted ys
IsSorted-right [] ys o = o
IsSorted-right (x ∷ xs) ys o = IsSorted-right xs ys o.1

module _ {S : Type 0} (visit : ℤ → ℕ → S → S × Bool) where
  -- One call of the callback, in the loop and in the specification.
  follow-after_visit :
      (fuel : ℕ) (mem : List Leaf) (loop : List Entry → S → Scan S) (next : Option ℕ)
      (step : S × Bool) (scan : Scan S) (answer : S × Bool)
      → follow fuel mem loop next scan ≡ some answer
      → follow fuel mem loop next (after_visit visit step scan) ≡ some (continue visit step answer)
  unfolding follow
  follow-after_visit fuel mem loop next (s, true) scan answer h = h
  follow-after_visit fuel mem loop next (s, false) scan answer h = refl

  visit_slots-follow :
      (fuel : ℕ) (mem : List Leaf) (next : Option ℕ) (ys : List Entry)
      → ((s : S) → follow fuel mem (visit_slots visit) next (go_on s) ≡ some (visit_all visit ys s))
      → (es : List Entry) (s : S)
      → follow fuel mem (visit_slots visit) next (visit_slots visit es s)
        ≡ some (visit_all visit (es ++ ys) s)
  unfolding visit_slots
  visit_slots-follow fuel mem next ys rest [] s = rest s
  visit_slots-follow fuel mem next ys rest (e ∷ es) s =
      let step = visit e.key e.offset s in
      follow-after_visit fuel mem (visit_slots visit) next step (visit_slots visit es step.0)
        (visit_all visit (es ++ ys) step.0) (visit_slots-follow fuel mem next ys rest es step.0)

  follow-return :
      (fuel : ℕ) (mem : List Leaf) (loop : List Entry → S → Scan S) (next : Option ℕ) (s : S)
      → follow fuel mem loop next (return s true) ≡ some (s, true)
  unfolding follow
  follow-return fuel mem loop next s = refl

  visit_slots_below-follow :
      (key : ℤ) (fuel : ℕ) (mem : List Leaf) (next : Option ℕ) (ys : List Entry)
      → ((s : S)
          → follow fuel mem (visit_slots_below visit key) next (go_on s)
            ≡ some (visit_all visit (less_than key ys) s))
      → (es : List Entry) (s : S) → IsSorted (es ++ ys)
      → follow fuel mem (visit_slots_below visit key) next (visit_slots_below visit key es s)
        ≡ some (visit_all visit (less_than key (es ++ ys)) s)
  unfolding visit_slots_below
  visit_slots_below-follow key fuel mem next ys rest [] s o = rest s
  visit_slots_below-follow key fuel mem next ys rest (e ∷ es) s o =
      let step = visit e.key e.offset s in
      elim (Bool-cases (leb_ℤ key e.key)) [
        | inl stop ↦
            let nothing = less_than-beyond key e.key (es ++ ys) (leb→le _ _ stop) o.0 in
            let above : ltb_ℤ e.key key ≡ false = ground arith in
            rw (stop, above, nothing) (follow-return fuel mem _ next s)
        | inr more ↦
            let below : ltb_ℤ e.key key ≡ true = ground arith in
            rw (more, below)
              (follow-after_visit fuel mem (visit_slots_below visit key) next step
                (visit_slots_below visit key es step.0)
                (visit_all visit (less_than key (es ++ ys)) step.0)
                (visit_slots_below-follow key fuel mem next ys rest es step.0 o.1))
      ]

  module _ (mem : List Leaf) (alone : (a : ℕ) → at_addr a mem ≤ 1) where
    -- The next leaf of a row is read through its pointer.
    follow-next :
        (fuel : ℕ) (loop : List Entry → S → Scan S) (pre : List Leaf) (l : Leaf) (ls : List Leaf)
        (next : Option ℕ) (s : S)
        → mem ≡ pre ++ l ∷ ls
        → next ≡ some l.addr
        → follow (suc fuel) mem loop next (go_on s) ≡ follow fuel mem loop l.next (loop l.slots s)
    unfolding follow
    follow-next fuel loop pre l ls next s e k =
        let once : at_addr l.addr (pre ++ l ∷ ls) ≤ 1 = rw e at (alone l.addr) in
        let read : deref mem l.addr ≡ some l = rw e (deref-append pre l ls once) in
        rw (k, follow, read)

    -- The rest of a row of leaves is visited through the pointers.
    follow-all :
        (fuel : ℕ) (pre ls : List Leaf) (next : Option ℕ) (s : S)
        → mem ≡ pre ++ ls
        → Linked next ls none
        → length ls ≤ fuel
        → follow fuel mem (visit_slots visit) next (go_on s)
          ≡ some (visit_all visit (contents ls) s)
    follow-all fuel pre [] next s e k f = rw k (unfold follow in refl)
    follow-all zero pre (l ∷ ls) next s e k f = absurd (omega arith)
    follow-all (suc fuel) pre (l ∷ ls) next s e k f =
        follow-next fuel (visit_slots visit) pre l ls next s e k.0
        ∙ visit_slots-follow fuel mem l.next (contents ls)
            (λ s'.
              follow-all fuel (pre ++ l ∷ []) ls l.next s' (e ∙ sym (append_assoc pre (l ∷ []) ls))
                k.1 (omega arith))
            l.slots s

    follow-below :
        (key : ℤ) (fuel : ℕ) (pre ls : List Leaf) (next : Option ℕ) (s : S)
        → mem ≡ pre ++ ls
        → Linked next ls none
        → length ls ≤ fuel
        → IsSorted (contents ls)
        → follow fuel mem (visit_slots_below visit key) next (go_on s)
          ≡ some (visit_all visit (less_than key (contents ls)) s)
    follow-below key fuel pre [] next s e k f o = rw k (unfold follow in refl)
    follow-below key zero pre (l ∷ ls) next s e k f o = absurd (omega arith)
    follow-below key (suc fuel) pre (l ∷ ls) next s e k f o =
        follow-next fuel (visit_slots_below visit key) pre l ls next s e k.0
        ∙ visit_slots_below-follow key fuel mem l.next (contents ls)
            (λ s'.
              follow-below key fuel (pre ++ l ∷ []) ls l.next s'
                (e ∙ sym (append_assoc pre (l ∷ []) ls)) k.1 (omega arith)
                (IsSorted-right l.slots (contents ls) o))
            l.slots s o

-- The blocks of a valid tree are its leaves, each alone at its address.
memory-valid : (t : BPlusTree) → IsValid t → memory t ≡ tree_leaves t.root
memory-valid t v = rw v.nothing_lost (append-nil (tree_leaves t.root))

given-le_one : (before after a : ℕ) → given before after a ≤ 1
given-le_one before after a = ground arith

alone-valid :
    (n : Node) (h : Heap)
    → IsValid (record { root = some n; heap = h })
    → (a : ℕ) → at_addr a (memory (record { root = some n; heap = h })) ≤ 1
alone-valid n h v a =
    rw (memory-valid (record { root = some n; heap = h }) v)
      (le_trans (v.nodes.placed a) (given-le_one 0 h.calls a))

node-IsSorted :
    (n : Node) (h : Heap)
    → IsValid (record { root = some n; heap = h })
    → IsSorted (contents (leaves n))
node-IsSorted n h v =
    SortedIn-IsSorted none none (contents (leaves n)) (node-SortedIn none none n v.nodes.ordered)

-- Where the scan upwards starts, and the leaves behind it, hold the entries above the key.
start-Position :
    (key : ℤ) (ls : List Leaf) {answer : Option Leaf} (p : Position key ls answer)
    → skip_at_most key (drop (find_leaf_position p.at.slots key) p.at.slots) ++ contents p.right
      ≡ greater_than key (contents ls)
start-Position key ls p =
    rw (p.splits, contents-append)
      (simp (
        greater_than-append,
        greater_than-Before key (contents p.left) p.left_before,
        greater_than-After key (contents p.right) p.right_after,
        start-greater_than key p.at.slots p.sorted,
      ))

length-right : (xs : List Leaf) (l : Leaf) (ys : List Leaf) → length ys ≤ length (xs ++ l ∷ ys)
length-right xs l ys = omega (arith, length-append xs (l ∷ ys))

module _ {S : Type 0} (visit : ℤ → ℕ → S → S × Bool) where
  greater_than-node :
      (n : Node) (h : Heap) (key : ℤ) (s : S)
      → IsValid (record { root = some n; heap = h })
      → bptree_visit_greater_than visit (record { root = some n; heap = h }) key s
        ≡ some (visit_all visit (greater_than key (contents (leaves n))) s)
  unfolding bptree_visit_greater_than
  greater_than-node n h key s v =
      let t : BPlusTree = record { root = some n; heap = h } in
      let p = descent-Position key none none n v.nodes.ordered in
      let mem : memory t ≡ p.left ++ p.at ∷ p.right = memory-valid t v ∙ p.splits in
      let links =
        Linked-right v.nodes.first none p.left (p.at ∷ p.right) (rw p.splits at v.nodes.linked) in
      rw (p.found_at, ← start-Position key (leaves n) p)
        (visit_slots-follow visit (length (memory t)) (memory t) p.at.next (contents p.right)
          (λ s'.
            follow-all visit (memory t) (alone-valid n h v) (length (memory t))
              (p.left ++ p.at ∷ []) p.right p.at.next s'
              (mem ∙ sym (append_assoc p.left (p.at ∷ []) p.right)) links.1
              (rw mem (length-right p.left p.at p.right)))
          _ s)

  less_than-node :
      (n : Node) (h : Heap) (key : ℤ) (s : S)
      → IsValid (record { root = some n; heap = h })
      → bptree_visit_less_than visit (record { root = some n; heap = h }) key s
        ≡ some (visit_all visit (less_than key (contents (leaves n))) s)
  unfolding bptree_visit_less_than
  less_than-node n h key s v =
      let t : BPlusTree = record { root = some n; heap = h } in
      let (l, rest, found_at, splits) = leftmost-IsFirst none none n v.nodes.ordered in
      let mem : memory t ≡ l ∷ rest = memory-valid t v ∙ splits in
      let links = rw splits at v.nodes.linked in
      let sorted = rw splits at (node-IsSorted n h v) in
      rw found_at (
        visit_slots_below-follow visit key (length (memory t)) (memory t) l.next (contents rest)
          (λ s'.
            follow-below visit (memory t) (alone-valid n h v) key (length (memory t)) (l ∷ []) rest
              l.next s' mem links.1 (rw mem (length-right [] l rest))
              (IsSorted-right l.slots (contents rest) sorted))
          l.slots s sorted
        ∙ ap (λ ls. some (visit_all visit (less_than key (contents ls)) s)) (sym splits))

  -- On a valid tree `bptree_visit_greater_than` ends, and calls back with exactly the entries whose
  -- keys are above the given one, in ascending order, up to the first call that returns 0.
  pub visit_greater_than-visit_all :
      (t : BPlusTree) (key : ℤ) (s : S)
      → IsValid t
      → bptree_visit_greater_than visit t key s
        ≡ some (visit_all visit (greater_than key (entries t)) s)
  unfolding bptree_visit_greater_than
  visit_greater_than-visit_all t key s v = by_root t.root t.heap v
    where
      by_root :
          (root : Option Node) (h : Heap)
          → IsValid (record { root = root; heap = h })
          → bptree_visit_greater_than visit (record { root = root; heap = h }) key s
            ≡ some
                (visit_all visit (greater_than key (entries (record { root = root; heap = h }))) s)
      by_root none h v = refl
      by_root (some n) h v = greater_than-node n h key s v

  -- On a valid tree `bptree_visit_less_than` ends, and calls back with exactly the entries whose keys
  -- are below the given one, in ascending order, up to the first call that returns 0.
  pub visit_less_than-visit_all :
      (t : BPlusTree) (key : ℤ) (s : S)
      → IsValid t
      → bptree_visit_less_than visit t key s ≡ some (visit_all visit (less_than key (entries t)) s)
  unfolding bptree_visit_less_than
  visit_less_than-visit_all t key s v = by_root t.root t.heap v
    where
      by_root :
          (root : Option Node) (h : Heap)
          → IsValid (record { root = root; heap = h })
          → bptree_visit_less_than visit (record { root = root; heap = h }) key s
            ≡ some (visit_all visit (less_than key (entries (record { root = root; heap = h }))) s)
      by_root none h v = refl
      by_root (some n) h v = less_than-node n h key s v
