-- ===== src/Storage/Table/Rows/Keys.antt =====
-- The index of a table's rows: what `storage_rebuild_pk_index` builds from a file.
use week7_02_sql_index.Prelude.{
  ℕ, ◌+◌, Bool, true, false, Option, none, some, List, [], ◌∷◌, ◌≡◌, refl, ap, ◌∙◌, if◌then◌else◌,
  length, map, All, arith, Bool-cases, inl, inr, ℤ, pos, eqb_ℤ, eq_of_parts,
}
use week7_02_sql_index.Text.{Bytes}
use week7_02_sql_index.Sql.{TableSchema}
use week7_02_sql_index.Bptree.Node.{Entry, BPlusTree, entries}
use week7_02_sql_index.Bptree.Spec.{lookup, insert_sorted}
use week7_02_sql_index.Bptree.Contract.Valid.{IsValid}
use week7_02_sql_index.Bptree.Contract.Search.{bptree_search-lookup}
use week7_02_sql_index.Bptree.Contract.Insert.{bptree_insert_absent}
use week7_02_sql_index.Storage.Csv.Defs.{write_csv_row}
use week7_02_sql_index.Storage.Table.Defs.{Outcome, failed, done, header_line}
use week7_02_sql_index.Storage.Table.Scan.{larger, max_value}
use week7_02_sql_index.Storage.Table.Index.{
  register_key, rebuild_from, rebuild_by, storage_rebuild_pk_index,
}
use week7_02_sql_index.Storage.Table.Rows.File.{IsTable, IsRow, table_file, after_header-table_file}
use week7_02_sql_index.Storage.Table.Rows.Values.{IsIntColumn, int_at, larger_all, int_in_line-row}

-- different numbers
abbrev pub DistinctInts : List ℤ → Type 0
DistinctInts [] = Unit
DistinctInts (k ∷ ks) = All (λ j. eqb_ℤ k j ≡ false) ks × DistinctInts ks

module _ (i : ℕ) where
  abbrev pub keys : List (List Bytes) → List ℤ
  keys rows = map (int_at i) rows

  -- where each row starts, under its key: the rows' text starts at `start`, and `es` is known already
  abbrev pub index_rows : ℕ → List (List Bytes) → List Entry → List Entry
  index_rows start [] es = es
  index_rows start (row ∷ rows) es =
      index_rows (start + length (write_csv_row row)) rows (insert_sorted (int_at i row) start es)

  -- where the first row with a key starts
  abbrev pub row_offset : ℤ → ℕ → List (List Bytes) → Option ℕ
  row_offset key start [] = none
  row_offset key start (row ∷ rows) =
      if eqb_ℤ (int_at i row) key
      then some start
      else row_offset key (start + length (write_csv_row row)) rows

pub lookup-insert_sorted :
    (j k : ℤ) (o : ℕ) (es : List Entry)
    → lookup j (insert_sorted k o es) ≡ (if eqb_ℤ k j then some o else lookup j es)
lookup-insert_sorted j k o [] = refl
lookup-insert_sorted j k o (e ∷ es) = ground (arith, lookup-insert_sorted j k o es)

abbrev pub first_of : Option ℕ → Option ℕ → Option ℕ
first_of none other = other
first_of (some o) other = some o

row_offset-absent :
    (i : ℕ) (key : ℤ) (start : ℕ) (rows : List (List Bytes))
    → All (λ j. eqb_ℤ key j ≡ false) (keys i rows)
    → row_offset i key start rows ≡ none
row_offset-absent i key start [] h = refl
row_offset-absent i key start (row ∷ rows) h =
    let other : eqb_ℤ (int_at i row) key ≡ false = ground (arith, h.0) in
    rw other (row_offset-absent i key (start + length (write_csv_row row)) rows h.1)

-- The index finds a key where the first row with it starts.
pub lookup-index_rows :
    (i : ℕ) (key : ℤ) (start : ℕ) (rows : List (List Bytes)) (es : List Entry)
    → DistinctInts (keys i rows)
    → lookup key (index_rows i start rows es)
      ≡ first_of (row_offset i key start rows) (lookup key es)
lookup-index_rows i key start [] es d = refl
lookup-index_rows i key start (row ∷ rows) es d =
    lookup-index_rows i key next rows (insert_sorted (int_at i row) start es) d.1
    ∙ ap (first_of (row_offset i key next rows)) (lookup-insert_sorted key (int_at i row) start es)
    ∙ elim (Bool-cases (eqb_ℤ (int_at i row) key)) [
      | inr other ↦ rw other
      | inl same ↦
          let equal : int_at i row ≡ key = eq_of_parts (int_at i row) key (ground (arith, same)) in
          let absent = row_offset-absent i key next rows (rw equal at d.0) in rw (same, absent)
    ]
  where
    next : ℕ
    next = start + length (write_csv_row row)

-- The keys are not in the entries.
abbrev pub Absent : List Entry → List ℤ → Type 0
Absent es ks = All (λ k. lookup k es ≡ none) ks

Absent-insert_sorted :
    (k : ℤ) (o : ℕ) (es : List Entry) (ks : List ℤ)
    → All (λ j. eqb_ℤ k j ≡ false) ks
    → Absent es ks
    → Absent (insert_sorted k o es) ks
Absent-insert_sorted k o es [] d h = tt
Absent-insert_sorted k o es (j ∷ ks) d h =
    ((lookup-insert_sorted j k o es ∙ rw d.0 h.0), Absent-insert_sorted k o es ks d.1 h.1)

pub Absent-empty : (ks : List ℤ) → Absent [] ks
Absent-empty [] = tt
Absent-empty (k ∷ ks) = (refl, Absent-empty ks)

module _ (calloc : ℕ → Bool) (enough : (n : ℕ) → calloc n ≡ true) where
  register_key-absent :
      (t : BPlusTree) (key : ℤ) (o : ℕ)
      → IsValid t
      → lookup key (entries t) ≡ none
      → (t' : BPlusTree) × (register_key calloc t key o ≡ done t')
        × IsValid t'
        × (entries t' ≡ insert_sorted key o (entries t))
  register_key-absent t key o v absent =
      let (t', inserts, valid, sorted) = bptree_insert_absent calloc t key o v enough absent in
      (t', rw (bptree_search-lookup t key v, absent, inserts) refl, valid, sorted)

  module _ (schema : TableSchema) (table : IsTable schema) (i : ℕ)
      (int : IsIntColumn schema i) where
    -- the result of the loop
    abbrev pub Rebuilt :
        ℕ → List (List Bytes) → List Entry → Option ℤ → Outcome (BPlusTree × ℤ) → Type 0
    Rebuilt start rows es best o =
        (t : BPlusTree) × (o ≡ done (t, max_value (larger_all best (keys i rows))))
        × IsValid t
        × (entries t ≡ index_rows i start rows es)

    rebuild_from-rows :
        (start : ℕ) (t : BPlusTree) (best : Option ℤ) (rows : List (List Bytes))
        → IsValid t
        → All (IsRow schema.columns) rows
        → DistinctInts (keys i rows)
        → Absent (entries t) (keys i rows)
        → Rebuilt start rows
            (entries t)
            best
            (rebuild_from calloc schema i start t best (map write_csv_row rows))
    unfolding rebuild_from
    rebuild_from-rows start t best [] v h d a = (t, refl, v, refl)
    rebuild_from-rows start t best (row ∷ rows) v h d a =
        let key = int_at i row in
        let (t', registers, valid, sorted) = register_key-absent t key start v a.0 in
        let still : Absent (entries t') (keys i rows) =
          rw sorted (Absent-insert_sorted key start (entries t) (keys i rows) d.0 a.1) in
        let (u, rebuilds, final, all) =
          rebuild_from-rows (start + length (write_csv_row row)) t' (larger best key) rows valid h.1
            d.1 still in
        (
          u,
          rw (int_in_line-row schema table i int row h.0, registers, rebuild_from, rebuilds) refl,
          final,
          all ∙ ap (index_rows i (start + length (write_csv_row row)) rows) sorted,
        )

    -- With memory, an empty index and different keys, `storage_rebuild_pk_index` succeeds: the tree is valid,
    -- its entries are the rows' keys with the places where the rows start, and the number is the largest key.
    pub storage_rebuild_pk_index-rows :
        (t : BPlusTree) (rows : List (List Bytes))
        → schema.primary_key_index ≡ some i
        → IsValid t
        → entries t ≡ []
        → All (IsRow schema.columns) rows
        → DistinctInts (keys i rows)
        → Rebuilt
            (length (header_line schema.columns))
            rows
            []
            none
            (storage_rebuild_pk_index calloc schema (some (table_file schema rows)) t)
    unfolding storage_rebuild_pk_index
    storage_rebuild_pk_index-rows t rows pk v empty h d =
        let start = length (header_line schema.columns) in
        let absent : Absent (entries t) (keys i rows) = rw empty (Absent-empty (keys i rows)) in
        let (u, rebuilds, final, all) = rebuild_from-rows start t none rows v h d absent in
        (
          u,
          ap (rebuild_by calloc schema (some (table_file schema rows)) t) pk
              ∙ after_header-table_file schema table (done (t, pos 0)) (done (t, pos 0)) failed
                  (λ header lines. rebuild_from calloc schema i (length header) t none lines) rows h
              ∙ rebuilds,
          final,
          all ∙ ap (index_rows i start rows) empty,
        )
