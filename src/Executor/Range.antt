-- ===== src/Executor/Range.antt =====
-- SELECT by a range of the primary key: the rows in the order of their keys.
use week7_02_sql_index.Prelude.{
  ℕ, suc, Bool, true, ◌&&◌, Option, none, some, List, [], ◌∷◌, ◌*◌, ◌++◌, ◌≡◌, refl, sym, ap, ◌∙◌,
  ◌==◌, if◌then◌else◌, append_assoc, append-nil, length, Bool-cases, inl, inr, ℤ, pos, ◌⊎◌,
}
use mathlib.Core.Path.{subst}
use week7_02_sql_index.Text.{Bytes, codes}
use week7_02_sql_index.Sql.{TableSchema, LiteralType, WhereOperator, WhereClause, Result, ok, err}
use week7_02_sql_index.Number.Defs.{read_int, int_text}
use week7_02_sql_index.Bptree.Node.{Entry}
use week7_02_sql_index.Bptree.Spec.{continue, visit_all, greater_than, less_than}
use week7_02_sql_index.Bptree.Contract.Scan.{
  visit_greater_than-visit_all, visit_less_than-visit_all,
}
use week7_02_sql_index.Storage.Table.Scan.{
  printed, print_selected_header, storage_print_rows_at_offsets,
}
use week7_02_sql_index.Storage.Table.Rows.File.{table_file}
use week7_02_sql_index.Storage.Table.Rows.Print.{rows_out, satisfying}
use week7_02_sql_index.Storage.Table.Rows.Offsets.{satisfying-rows_where}
use week7_02_sql_index.Storage.Table.Rows.Sorted.{sorted_rows}
use week7_02_sql_index.Storage.Table.Rows.Ranges.{
  offsets_of, LeadTo, storage_print_rows_at_offsets-LeadTo, above-LeadTo, below-LeadTo,
}
use week7_02_sql_index.Executor.State.{
  AppConfig, TableRuntimeState, World, Exec, ◌&>◌, text, print, count_scan, data_file,
  find_table_state, get_table_state_index,
}
use week7_02_sql_index.Executor.Select.{
  OffsetList, offset_list, append_offset, condition_text, show, timed, of_target, visit_range,
  show_range, scan_range, execute_select_with_index_range, by_operator, select_where, on_key,
  uses_index, execute_select_with_scan,
}
use week7_02_sql_index.Executor.Lookup.{on_key-int}
use week7_02_sql_index.Executor.Coherent.Defs.{
  IsConfig, IsKeyed, TableFile, index_of, IsOpen, IsCoherent,
}
use week7_02_sql_index.Executor.Coherent.Open.{Opened, get_table_state_index-Opened}
use week7_02_sql_index.Executor.Coherent.States.{get_table_state_index-found}

module _ (realloc : ℕ → Bool) (enough : (n : ℕ) → realloc n ≡ true) where
  append_offset-enough :
      (key : ℤ) (o : ℕ) (list : OffsetList)
      → (capacity : ℕ) × (append_offset realloc key o list
          ≡ (offset_list (list.offsets ++ o ∷ []) capacity, true))
  unfolding append_offset
  append_offset-enough key o list = elim (Bool-cases (length list.offsets == list.capacity)) [
    | inl full ↦
        let next_capacity = if list.capacity == 0 then 16 else list.capacity * 2 in
        (next_capacity, rw (full, enough next_capacity) refl)
    | inr room ↦ (list.capacity, rw room refl)
  ]

  -- with memory, the scan collects the offsets of all entries
  visit_all-append_offset :
      (es : List Entry) (list : OffsetList)
      → (list' : OffsetList) × (visit_all (append_offset realloc) es list ≡ (list', true))
        × (list'.offsets ≡ list.offsets ++ offsets_of es)
  visit_all-append_offset [] list = (list, refl, sym (append-nil list.offsets))
  visit_all-append_offset (e ∷ es) list =
      let (capacity, appends) = append_offset-enough e.key e.offset list in
      let next = offset_list (list.offsets ++ e.offset ∷ []) capacity in
      let (list', visits, all) = visit_all-append_offset es next in
      (
        list',
        ap
              (λ step.
                continue (append_offset realloc) step (visit_all (append_offset realloc) es step.0))
              appends
            ∙ visits,
        all ∙ append_assoc list.offsets (e.offset ∷ []) (offsets_of es),
      )

module _ (config : AppConfig) (schema : TableSchema) (i : ℕ) (k : IsKeyed schema i)
    (calloc realloc : ℕ → ℕ → Bool) (selected_indices : List ℕ) (clause : WhereClause) where
  abbrev pub range_line : ℕ → Bytes
  range_line count =
      codes "[INDEX-RANGE] WHERE "
      ++ (condition_text clause
          ++ (codes " (" ++ (int_text (pos count) ++ (codes " rows)" ++ b'\n' ∷ []))))

  -- the rows of the range, in the order of their keys
  abbrev pub range_rows : List (List Bytes) → List (List Bytes)
  range_rows rows = sorted_rows i (satisfying schema i clause.operator clause.value rows) []

  -- what is shown of a range
  abbrev pub show_sorted : List (List Bytes) → Exec Unit
  show_sorted rows w =
      show
        (printed (
          print_selected_header schema selected_indices
          ++ rows_out selected_indices (range_rows rows)))
        (print (text (range_line (length (range_rows rows)))) (count_scan w))

  length-LeadTo :
      (file : Bytes) (es : List Entry) (rs : List (List Bytes))
      → LeadTo schema k.table selected_indices i file es rs
      → length (offsets_of es) ≡ length rs
  length-LeadTo file [] [] h = refl
  length-LeadTo file [] (r ∷ rs) h = absurd h
  length-LeadTo file (e ∷ es) [] h = absurd h
  length-LeadTo file (e ∷ es) (r ∷ rs) h = ap suc (length-LeadTo file es rs h.2)

  -- the entries of a range, as they lead to its rows
  abbrev IsRange : List (List Bytes) → (List Entry → List Entry) → Type 0
  IsRange rows range =
      (range [] ≡ [])
      × LeadTo schema k.table selected_indices i (table_file schema rows)
          (range (index_of config schema i rows)) (range_rows rows)

  shown_file :
      (rows : List (List Bytes)) (range : List Entry → List Entry) (w : World)
      → IsCoherent config schema i rows w
      → IsRange rows range
      → (file : Option Bytes) → TableFile config schema i rows file
      → storage_print_rows_at_offsets schema selected_indices file
          (offsets_of (range (index_of config schema i rows)))
        ≡ printed (
            print_selected_header schema selected_indices
            ++ rows_out selected_indices (range_rows rows))
  unfolding storage_print_rows_at_offsets
  shown_file rows range w h r (some file) f = rw f (
      storage_print_rows_at_offsets-LeadTo schema k.table selected_indices i rows _
        (range_rows rows) h.readable r.1)
  shown_file rows range w h r none f =
      ap
        (λ rs.
          storage_print_rows_at_offsets schema selected_indices none
            (offsets_of (range (index_of config schema i rs))))
        f
      ∙ ap (λ es. storage_print_rows_at_offsets schema selected_indices none (offsets_of es)) r.0
      ∙ ap printed (sym (append-nil (print_selected_header schema selected_indices)))
      ∙ ap
          (λ rs. printed (
            print_selected_header schema selected_indices
            ++ rows_out selected_indices (range_rows rs)))
          (sym f)

  scan_range-sorted :
      (enough : (t n : ℕ) → realloc t n ≡ true) (rows : List (List Bytes))
      (range : List Entry → List Entry) (w : World) (n : ℕ) (s : TableRuntimeState) (target : ℤ)
      → IsCoherent config schema i rows w
      → IsRange rows range
      → visit_range calloc realloc config schema selected_indices clause clause.operator
          (append_offset (realloc w.scans))
          s.pk_index
          target
        ≡ some (
            visit_all
              (append_offset (realloc w.scans))
              (range (index_of config schema i rows))
              (offset_list [] 0))
      → scan_range calloc realloc config schema selected_indices clause target (n, s) w
        ≡ show_sorted rows w
  scan_range-sorted enough rows range w n s target h r visits =
      let es = range (index_of config schema i rows) in
      let (list, collects, offsets) =
        visit_all-append_offset (realloc w.scans) (enough w.scans) es (offset_list [] 0) in
      ap (λ v. show_range calloc realloc config schema selected_indices clause v (count_scan w))
        (visits ∙ ap some collects)
      ∙ ap
          (λ os.
            show
              (storage_print_rows_at_offsets schema selected_indices (data_file config schema w) os)
              (print (text (range_line (length os))) (count_scan w)))
          offsets
      ∙ ap (λ p. show p (print (text (range_line (length (offsets_of es)))) (count_scan w)))
          (shown_file rows range w h r (data_file config schema w) h.file)
      ∙ ap
          (λ m.
            show
              (printed (
                print_selected_header schema selected_indices
                ++ rows_out selected_indices (range_rows rows)))
              (print (text (range_line m)) (count_scan w)))
          (length-LeadTo (table_file schema rows) es (range_rows rows) r.1)

  -- the two range operators
  abbrev pub IsRangeOperator : WhereOperator → Type 0
  IsRangeOperator op = (op ≡ WhereOperator.greater) ⊎ (op ≡ WhereOperator.less)

  by_range-sorted :
      (enough : (t n : ℕ) → realloc t n ≡ true) (rows : List (List Bytes)) (w : World) (n : ℕ)
      (s : TableRuntimeState) (target : ℤ)
      → IsCoherent config schema i rows w
      → IsOpen config schema i rows s
      → clause.value.type ≡ LiteralType.int
      → read_int clause.value.text ≡ some target
      → IsRangeOperator clause.operator
      → scan_range calloc realloc config schema selected_indices clause target (n, s) w
        ≡ show_sorted rows w
  by_range-sorted enough rows w n s target h o ty read (inl greater) =
      let visit = append_offset (realloc w.scans) in
      let selects =
        satisfying-rows_where schema i WhereOperator.greater clause.value target k.int ty read rows
          h.readable in
      scan_range-sorted enough rows (greater_than target) w n s target h
        (
          refl,
          subst
              (λ rs.
                LeadTo schema k.table selected_indices i (table_file schema rows)
                  (greater_than target (index_of config schema i rows)) (sorted_rows i rs []))
              (sym selects ∙ ap (λ op. satisfying schema i op clause.value rows) (sym greater))
              (above-LeadTo schema k.table selected_indices i target rows h.readable),
        )
        (ap
            (λ op.
              visit_range calloc realloc config schema selected_indices clause op visit s.pk_index
                target)
            greater
          ∙ ap
              (λ p.
                visit_range calloc realloc config schema selected_indices clause
                  WhereOperator.greater visit p target)
              o.has_index
          ∙ visit_greater_than-visit_all visit o.index.tree target (offset_list [] 0) o.valid
          ∙ ap (λ es. some (visit_all visit (greater_than target es) (offset_list [] 0))) o.indexed)
  by_range-sorted enough rows w n s target h o ty read (inr less) =
      let visit = append_offset (realloc w.scans) in
      let selects =
        satisfying-rows_where schema i WhereOperator.less clause.value target k.int ty read rows
          h.readable in
      scan_range-sorted enough rows (less_than target) w n s target h
        (
          refl,
          subst
              (λ rs.
                LeadTo schema k.table selected_indices i (table_file schema rows)
                  (less_than target (index_of config schema i rows)) (sorted_rows i rs []))
              (sym selects ∙ ap (λ op. satisfying schema i op clause.value rows) (sym less))
              (below-LeadTo schema k.table selected_indices i target rows h.readable),
        )
        (ap
            (λ op.
              visit_range calloc realloc config schema selected_indices clause op visit s.pk_index
                target)
            less
          ∙ ap
              (λ p.
                visit_range calloc realloc config schema selected_indices clause WhereOperator.less
                  visit p target)
              o.has_index
          ∙ visit_less_than-visit_all visit o.index.tree target (offset_list [] 0) o.valid
          ∙ ap (λ es. some (visit_all visit (less_than target es) (offset_list [] 0))) o.indexed)

  range_select-sorted :
      (enough : (t n : ℕ) → realloc t n ≡ true) (rows : List (List Bytes)) (w : World) (n : ℕ)
      (s : TableRuntimeState) (target : ℤ)
      → IsCoherent config schema i rows w
      → find_table_state config schema w.states ≡ some (n, s)
      → IsOpen config schema i rows s
      → clause.value.type ≡ LiteralType.int
      → read_int clause.value.text ≡ some target
      → IsRangeOperator clause.operator
      → execute_select_with_index_range calloc realloc config schema selected_indices clause w
        ≡ show_sorted rows w
  unfolding execute_select_with_index_range
  range_select-sorted enough rows w n s target h finds o ty read ranged =
      ap
        (λ t.
          of_target calloc realloc config schema selected_indices clause t
            (λ target_id w.
              get_table_state_index config schema calloc w
              &> scan_range calloc realloc config schema selected_indices clause target_id)
            w)
        read
      ∙ ap (λ r. r &> scan_range calloc realloc config schema selected_indices clause target)
          (get_table_state_index-found config schema calloc w n s finds)
      ∙ by_range-sorted enough rows w n s target h o ty read ranged

  range-branch :
      (op : WhereOperator)
      → IsRangeOperator op
      → (b : Bool) (w : World) (other : World × Result {0} Unit) → b ≡ true
      → (if b && uses_index op
          then (get_table_state_index config schema calloc w &> λ state w'.
              timed (by_operator calloc realloc config schema selected_indices clause op w'))
          else other)
        ≡ (get_table_state_index config schema calloc w &> λ state w'. timed (
            execute_select_with_index_range calloc realloc config schema selected_indices clause
              w'))
  range-branch WhereOperator.equal (inl e) b w other t = cc
  range-branch WhereOperator.equal (inr e) b w other t = cc
  range-branch WhereOperator.not_equal (inl e) b w other t = cc
  range-branch WhereOperator.not_equal (inr e) b w other t = cc
  range-branch WhereOperator.greater r b w other t = rw t refl
  range-branch WhereOperator.less r b w other t = rw t refl

  -- With memory, a SELECT by `<` or `>` on the key of a coherent table opens the table's state and then shows,
  -- behind a line with their number, exactly the rows that satisfy the condition, sorted by their keys.
  pub select_where-sorted :
      (c : IsConfig config)
      → ((t n : ℕ) → calloc t n ≡ true)
      → ((t n : ℕ) → realloc t n ≡ true)
      → (rows : List (List Bytes)) (w : World) (target : ℤ) → IsCoherent config schema i rows w
      → IsRangeOperator clause.operator
      → clause.value.type ≡ LiteralType.int
      → read_int clause.value.text ≡ some target
      → select_where calloc realloc config schema selected_indices clause i w
        ≡ (get_table_state_index config schema calloc w &> λ state w'. timed (show_sorted rows w'))
  unfolding select_where
  select_where-sorted c enough enough' rows w target h ranged ty read =
      range-branch clause.operator ranged (on_key clause.value.type i schema.primary_key_index) w
        (timed (execute_select_with_scan calloc realloc config schema selected_indices clause i w))
        (on_key-int config schema i k calloc realloc selected_indices clause clause.value.type ty)
      ∙ by_answer (get_table_state_index config schema calloc w)
          (get_table_state_index-Opened config schema i c k calloc enough rows w h)
    where
      by_answer :
          (r : World × Result (ℕ × TableRuntimeState))
          → Opened config schema i c k rows r
          → (r &> λ state w'. timed (
              execute_select_with_index_range calloc realloc config schema selected_indices clause
                w'))
            ≡ (r &> λ state w'. timed (show_sorted rows w'))
      by_answer (w', err e) g = refl
      by_answer (w', ok (n, s)) (h', finds, o) =
          ap timed (range_select-sorted enough' rows w' n s target h' finds o ty read ranged)
