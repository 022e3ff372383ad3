-- ===== src/Bptree/Contract/Memory.antt =====
-- What a failed allocation costs: the leaf is split before its parent is known to have room.
use week7_02_sql_index.Prelude.{
  ℕ, ◌+◌, ◌/◌, ◌<◌, Bool, true, false, Option, none, some, ◌≡◌, ℤ, ltb, length, get_elem?, take,
  drop, [], insert_at, Bool-cases, inl, inr, arith, length-insert_at, length-take, length-append,
}
use week7_02_sql_index.Bptree.Node.{
  Entry, entry, Leaf, leaf, max_keys, Heap, BPlusTree, entries, find_leaf_position,
}
use week7_02_sql_index.Bptree.Insert.{
  key_at_is, lose, count_call, insert_into_leaf, split_leaf_and_insert, insert_recursive, grow_root,
  insert_at_root, bptree_insert,
}
use week7_02_sql_index.Bptree.Search.{slot_result}
use week7_02_sql_index.Bptree.Spec.{lookup}
use week7_02_sql_index.Bptree.Order.Bounds.{SortedIn}
use week7_02_sql_index.Bptree.Order.Lists.{of_lookup, slot_result-lookup}
use week7_02_sql_index.Bptree.Order.Insert.{lookup-present}

slot-absent :
    (key : ℤ) (s : Option Entry) (q : Option ℕ)
    → slot_result s key ≡ of_lookup q
    → q ≡ none
    → key_at_is s key ≡ false
slot-absent key s q e n = elim (Bool-cases (key_at_is s key)) [
  | inl present ↦ absurd (lookup-present key s q e present n)
  | inr absent ↦ absent
]

-- An insertion into a full root leaf where the new leaf is allocated and the new root is not: it
-- answers 0, and the tree has fewer entries than before.
pub bptree_insert_loses :
    (calloc : ℕ → Bool) (l : Leaf) (h : Heap) (key : ℤ) (offset : ℕ)
    → SortedIn none none l.slots
    → length l.slots ≡ max_keys
    → lookup key l.slots ≡ none
    → calloc h.calls ≡ true
    → calloc (h.calls + 1) ≡ false
    → let t : BPlusTree = record { root = some (leaf l); heap = h } in
      (t' : BPlusTree) × (bptree_insert calloc t key offset ≡ some (t', false))
      × (length (entries t') < length (entries t))
unfolding bptree_insert insert_at_root insert_recursive insert_into_leaf split_leaf_and_insert
    grow_root
bptree_insert_loses calloc l h key offset s full absent first second =
    let position = find_leaf_position l.slots key in
    let temp = insert_at position (entry key offset) l.slots in
    let half = length temp / 2 in
    let slot = get_elem? l.slots position in
    let size = length-insert_at position (entry key offset) l.slots in
    let no_slot =
      slot-absent key slot (lookup key l.slots) (slot_result-lookup key none none l.slots s)
        absent in
    let no_room : ltb (length l.slots) max_keys ≡ false = ground arith in
    let right : Leaf = record { addr = h.calls; slots = drop half temp; next = l.next } in
    (
      record {
        root = some (leaf (record l { slots = take half temp; next = some h.calls }));
        heap = lose (leaf right) (count_call (count_call h));
      },
      rw (no_slot, no_room, first, second),
      omega (
        arith,
        length-take half temp,
        length-append (take half temp) [],
        length-append l.slots [],
      ),
    )
