-- ===== src/Executor/Coherent/States.antt =====
-- `find_table_state` after a state was added or replaced.
use week7_02_sql_index.Prelude.{
  ℕ, zero, suc, ◌<◌, Bool, true, Option, none, some, List, [], ◌∷◌, ◌++◌, ◌≡◌, refl, ap, length,
  take_all, set, arith, Bool-cases, inl, inr, ℤ,
}
use week7_02_sql_index.Text.{str_eq_iff}
use week7_02_sql_index.Sql.{TableSchema, ok}
use week7_02_sql_index.Executor.State.{
  AppConfig, PkIndex, TableRuntimeState, is_state_of, one_further, find_table_state, state_of,
  World, found_or_created, get_table_state_index,
}
use week7_02_sql_index.Executor.Coherent.Defs.{IsConfig}

one_further-some :
    (o : Option (ℕ × TableRuntimeState)) (n : ℕ) (s : TableRuntimeState)
    → one_further o ≡ some (n, s)
    → (m : ℕ) × (n ≡ suc m) × (o ≡ some (m, s))
one_further-some none n s e = cc
one_further-some (some (m, r)) n s e = (m, cc, cc)

module _ (config : AppConfig) (schema : TableSchema) where
  pub state_of-own :
      (next_id : ℤ) (pk_index : Option PkIndex)
      → IsConfig config
      → length schema.table_name < 64
      → is_state_of config schema (state_of config schema next_id pk_index) ≡ true
  state_of-own next_id pk_index c l =
      rw
        (
          take_all 255 config.schema_dir (omega (arith, c.short_schema_dir)),
          take_all 255 config.data_dir (omega (arith, c.short_data_dir)),
          take_all 63 schema.table_name (omega arith),
          (str_eq_iff config.schema_dir config.schema_dir).1 refl,
          (str_eq_iff config.data_dir config.data_dir).1 refl,
        )
        ((str_eq_iff schema.table_name schema.table_name).1 refl)

  pub find_table_state-set :
      (ss : List TableRuntimeState) (n : ℕ) (s s' : TableRuntimeState)
      → find_table_state config schema ss ≡ some (n, s)
      → is_state_of config schema s' ≡ true
      → find_table_state config schema (set ss n s') ≡ some (n, s')
  unfolding find_table_state
  find_table_state-set [] n s s' e own = cc
  find_table_state-set (x ∷ ss) n s s' e own = elim (Bool-cases (is_state_of config schema x)) [
    | inl here ↦
        let at : ◌≡◌ {A = Option (ℕ × TableRuntimeState)} (some (zero, x)) (some (n, s)) =
          rw here at e in
        let first : zero ≡ n = cc in rw (← first, own) refl
    | inr there ↦
        let (m, later, found) =
          one_further-some (find_table_state config schema ss) n s (rw there at e) in
        rw (later, there, find_table_state-set ss m s s' found own) refl
  ]

  pub find_table_state-append :
      (ss : List TableRuntimeState) (s : TableRuntimeState)
      → find_table_state config schema ss ≡ none
      → is_state_of config schema s ≡ true
      → find_table_state config schema (ss ++ s ∷ []) ≡ some (length ss, s)
  unfolding find_table_state
  find_table_state-append [] s e own = rw own refl
  find_table_state-append (x ∷ ss) s e own = elim (Bool-cases (is_state_of config schema x)) [
    | inl here ↦ absurd (by_none (rw here at e))
    | inr there ↦
        let absent = none_behind (find_table_state config schema ss) (rw there at e) in
        rw (there, find_table_state-append ss s absent own) refl
  ]
    where
      by_none : ◌≡◌ {A = Option (ℕ × TableRuntimeState)} (some (zero, x)) none → ⊥
      by_none e = cc

      none_behind : (o : Option (ℕ × TableRuntimeState)) → one_further o ≡ none → o ≡ none
      none_behind none e = refl
      none_behind (some (m, r)) e = cc

  -- a state that is there is found
  pub get_table_state_index-found :
      (calloc : ℕ → ℕ → Bool) (w : World) (n : ℕ) (s : TableRuntimeState)
      → find_table_state config schema w.states ≡ some (n, s)
      → get_table_state_index config schema calloc w ≡ (w, ok (n, s))
  unfolding get_table_state_index
  get_table_state_index-found calloc w n s e = ap (λ o. found_or_created config schema calloc o w) e
