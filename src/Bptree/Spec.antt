-- ===== src/Bptree/Spec.antt =====
-- What the tree promises: a sorted list of entries with different keys.
use week7_02_sql_index.Prelude.{
  ℕ, Bool, true, false, Option, none, some, List, [], ◌∷◌, ℤ, ltb_ℤ, eqb_ℤ, ◌<ℤ◌, if◌then◌else◌,
  All,
}
use week7_02_sql_index.Bptree.Node.{Entry, entry}

abbrev pub lookup : ℤ → List Entry → Option ℕ
lookup key [] = none
lookup key (e ∷ es) = if eqb_ℤ e.key key then some e.offset else lookup key es

-- the entry goes behind all smaller keys
abbrev pub insert_sorted : ℤ → ℕ → List Entry → List Entry
insert_sorted key offset [] = entry key offset ∷ []
insert_sorted key offset (e ∷ es) =
    if ltb_ℤ e.key key then e ∷ insert_sorted key offset es else entry key offset ∷ e ∷ es

abbrev pub greater_than : ℤ → List Entry → List Entry
greater_than key [] = []
greater_than key (e ∷ es) =
    let rest = greater_than key es in if ltb_ℤ key e.key then e ∷ rest else rest

abbrev pub less_than : ℤ → List Entry → List Entry
less_than key [] = []
less_than key (e ∷ es) = let rest = less_than key es in if ltb_ℤ e.key key then e ∷ rest else rest

-- Keys rise strictly.
abbrev pub IsSorted : List Entry → Type 0
IsSorted [] = Unit
IsSorted (e ∷ es) = All (λ x. e.key <ℤ x.key) es × IsSorted es

-- A callback over entries that ends at its first refusal.
module _ {S : Type 0} (visit : ℤ → ℕ → S → S × Bool) where
  abbrev pub continue : S × Bool → S × Bool → S × Bool
  continue (s, true) rest = rest
  continue (s, false) rest = (s, false)

  abbrev pub visit_all : List Entry → S → S × Bool
  visit_all [] s = (s, true)
  visit_all (e ∷ es) s = let step = visit e.key e.offset s in continue step (visit_all es step.0)
