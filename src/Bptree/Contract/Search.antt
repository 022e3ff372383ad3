-- ===== src/Bptree/Contract/Search.antt =====
-- `bptree_search` looks a key up in the sorted list, in logarithmic time.
use week7_02_sql_index.Prelude.{◌^◌, ◌≤◌, Option, none, some, ◌≡◌, refl, ℤ, length, arith}
use native.Mathlib.Nat.{le_trans, pow-le-pow_right}
use week7_02_sql_index.Bptree.Node.{Node, Heap, BPlusTree, entries}
use week7_02_sql_index.Bptree.Search.{descent_rounds, bptree_search}
use week7_02_sql_index.Bptree.Spec.{lookup}
use week7_02_sql_index.Bptree.Order.Lists.{of_lookup}
use week7_02_sql_index.Bptree.Order.Nodes.{descent-lookup}
use week7_02_sql_index.Bptree.Shape.Height.{descent_rounds-le, pow-le-entries}
use week7_02_sql_index.Bptree.Contract.Valid.{IsValid}

-- On a valid tree `bptree_search` is never at fault, and finds a key exactly when an entry has it,
-- with that entry's offset.
pub bptree_search-lookup :
    (t : BPlusTree) (key : ℤ) → IsValid t → bptree_search t key ≡ of_lookup (lookup key (entries t))
unfolding bptree_search
bptree_search-lookup t key v = by_root t.root t.heap v
  where
    by_root :
        (root : Option Node) (h : Heap)
        → IsValid (record { root = root; heap = h })
        → bptree_search (record { root = root; heap = h }) key
          ≡ of_lookup (lookup key (entries (record { root = root; heap = h })))
    by_root none h v = refl
    by_root (some n) h v = descent-lookup key none none n v.nodes.ordered

-- The loop of a search makes at most as many rounds as the logarithm of the number of entries.
pub search_rounds-logarithmic :
    (n : Node) (h : Heap) (key : ℤ)
    → IsValid (record { root = some n; heap = h })
    → 2 ^ descent_rounds n key ≤ length (entries (record { root = some n; heap = h }))
search_rounds-logarithmic n h key v =
    le_trans
      (pow-le-pow_right (omega arith) (descent_rounds-le 1 v.nodes.height n key v.nodes.shaped))
      (pow-le-entries v.nodes.height n v.nodes.shaped)
