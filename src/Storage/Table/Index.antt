-- ===== src/Storage/Table/Index.antt =====
-- `storage_rebuild_pk_index` of src/storage.c: the primary keys of a table's file and the offsets of
-- their rows are put into a B+ tree.
use week7_02_sql_index.Prelude.{
  ℕ, ◌+◌, Bool, true, false, Option, none, some, List, [], ◌∷◌, length, ℤ, pos,
}
use week7_02_sql_index.Text.{Bytes}
use week7_02_sql_index.Sql.{TableSchema, duplicate_key, index_unmade}
use week7_02_sql_index.Bptree.Node.{BPlusTree}
use week7_02_sql_index.Bptree.Insert.{bptree_insert}
use week7_02_sql_index.Bptree.Search.{SearchResult, found, missing, fault, bptree_search}
use week7_02_sql_index.Storage.Table.Defs.{Outcome, failed, done}
use week7_02_sql_index.Storage.Table.Scan.{after_header, larger, max_value, int_in_line}

module _ (calloc : ℕ → Bool) where
  -- A fault is a read of memory that was never written; it has no error message of its own.
  abbrev pub inserted_tree : Option (BPlusTree × Bool) → Outcome BPlusTree
  inserted_tree none = failed index_unmade
  inserted_tree (some (index, false)) = failed index_unmade
  inserted_tree (some (index, true)) = done index

  abbrev pub if_missing : SearchResult → Outcome BPlusTree → Outcome BPlusTree
  if_missing (found offset) register = failed duplicate_key
  if_missing fault register = failed index_unmade
  if_missing missing register = register

  abbrev pub register_key : BPlusTree → ℤ → ℕ → Outcome BPlusTree
  register_key index key row_offset =
      if_missing (bptree_search index key)
        (inserted_tree (bptree_insert calloc index key row_offset))

  module _ (schema : TableSchema) (primary_key_index : ℕ) where
    -- `while (1)`; `row_offset` is where the next line starts
    unfoldable pub rebuild_from : ℕ → BPlusTree → Option ℤ → List Bytes → Outcome (BPlusTree × ℤ)
    rebuild_from row_offset index best [] = done (index, max_value best)
    rebuild_from row_offset index best (line ∷ lines) =
        elim (int_in_line schema primary_key_index line) [
          | failed e ↦ failed e
          | done key ↦ elim (register_key index key row_offset) [
            | failed e ↦ failed e
            | done index' ↦ rebuild_from (row_offset + length line) index' (larger best key) lines
          ]
        ]

    abbrev pub rebuild_index : Option Bytes → BPlusTree → Outcome (BPlusTree × ℤ)
    rebuild_index file index =
        after_header schema (done (index, pos 0)) (done (index, pos 0)) failed
          (λ header lines. rebuild_from (length header) index none lines) file

  abbrev pub rebuild_by :
      TableSchema → Option Bytes → BPlusTree → Option ℕ → Outcome (BPlusTree × ℤ)
  rebuild_by schema file index none = done (index, pos 0)
  rebuild_by schema file index (some i) = rebuild_index schema i file index

  -- the index and the largest key
  unfoldable pub storage_rebuild_pk_index :
      TableSchema → Option Bytes → BPlusTree → Outcome (BPlusTree × ℤ)
  storage_rebuild_pk_index schema file index = rebuild_by schema file index schema.primary_key_index
