-- ===== src/Bptree/Contract/Valid.antt =====
-- The invariant of a tree.
use week7_02_sql_index.Prelude.{ℕ, ◌≤◌, Option, none, some, [], ◌≡◌}
use week7_02_sql_index.Bptree.Node.{Node, BPlusTree, leaves}
use week7_02_sql_index.Bptree.Order.Bounds.{Ordered}
use week7_02_sql_index.Bptree.Shape.Nodes.{Shaped}
use week7_02_sql_index.Bptree.Chain.Segments.{Linked, at_addr}
use week7_02_sql_index.Bptree.Chain.Addresses.{given}

-- Separators in order; leaves at one depth and within their fill; the chain of `next` pointers ends
-- behind the last leaf; each leaf alone at an address that `calloc` returned.
pub record IsValidNode (calls : ℕ) (n : Node) : Type 0 where
  pub height : ℕ
  pub first : Option ℕ
  pub ordered : Ordered none none n
  pub shaped : Shaped 1 height n
  pub linked : Linked first (leaves n) none
  pub placed : (a : ℕ) → at_addr a (leaves n) ≤ given 0 calls a

abbrev pub IsValidRoot : ℕ → Option Node → Type 0
IsValidRoot calls none = Unit
IsValidRoot calls (some n) = IsValidNode calls n

pub record IsValid (t : BPlusTree) : Type 0 where
  pub nodes : IsValidRoot t.heap.calls t.root
  pub nothing_lost : t.heap.lost ≡ []
