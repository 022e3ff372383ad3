-- ===== src/App/Session.antt =====
-- SQL text on a coherent table.
use week7_02_sql_index.Prelude.{
  ℕ, Bool, true, Option, none, some, List, [], ◌≡◌, ◌≢◌, refl, append-nil, All,
}
use week7_02_sql_index.Text.{Bytes}
use week7_02_sql_index.Sql.{TableSchema, Result, ok, err, ◌>>=◌, Ensures, Token, Statement}
use week7_02_sql_index.Tokenizer.Defs.{tokenize_sql}
use week7_02_sql_index.Tokenizer.Total.{tokenize_sql_total}
use week7_02_sql_index.Executor.State.{AppConfig, World, ◌&>◌, lift}
use week7_02_sql_index.Executor.Select.{execute_program}
use week7_02_sql_index.Executor.Coherent.Defs.{IsConfig, IsKeyed, IsCoherent}
use week7_02_sql_index.Executor.Coherent.Program.{IsOn, Grown, execute_program-Grown}
use week7_02_sql_index.App.Run.{parse_tokens, run_tokens, run_sql_text}

module _ (config : AppConfig) (schema : TableSchema) (i : ℕ) (c : IsConfig config)
    (k : IsKeyed schema i) (schema_files : Bytes → Option Bytes) (calloc realloc : ℕ → ℕ → Bool)
    (enough : (t n : ℕ) → calloc t n ≡ true) where
  -- Statements, if the text has any, are about the table.
  abbrev pub TextIsOn : Option (Result (List Token)) → Type 0
  TextIsOn none = Unit
  TextIsOn (some tokens) =
      Ensures (All (IsOn config schema i c k schema_files calloc realloc enough))
        (tokens >>= parse_tokens)

  -- With memory, text whose statements are about a coherent table runs to an answer, and leaves the table coherent
  -- with its old rows and others behind them, whether the text is refused, stops at an error or runs to its end.
  pub run_sql_text-Grown :
      (sql_text : Bytes) (rows : List (List Bytes)) (w : World)
      → TextIsOn (tokenize_sql sql_text)
      → IsCoherent config schema i rows w
      → (answer : World × Result {0} Unit) × (run_sql_text schema_files calloc realloc config
            sql_text w
          ≡ some answer)
        × Grown config schema i c k schema_files calloc realloc enough rows answer
  unfolding run_sql_text
  run_sql_text-Grown sql_text rows w on h =
      by_tokens (tokenize_sql sql_text) (tokenize_sql_total sql_text) on
    where
      by_parse :
          (r : Result (List Statement))
          → Ensures (All (IsOn config schema i c k schema_files calloc realloc enough)) r
          → Grown config schema i c k schema_files calloc realloc enough rows
              (lift r w &> execute_program schema_files calloc realloc config)
      by_parse (err e) g = ([], rw append-nil h)
      by_parse (ok program) g =
          execute_program-Grown config schema i c k schema_files calloc realloc enough rows program
            w g h

      by_tokens :
          (o : Option (Result (List Token)))
          → o ≢ none
          → TextIsOn o
          → (answer : World × Result {0} Unit) × (run_tokens schema_files calloc realloc config o w
              ≡ some answer)
            × Grown config schema i c k schema_files calloc realloc enough rows answer
      by_tokens none total g = absurd (total refl)
      by_tokens (some tokens) total g = (_, refl, by_parse (tokens >>= parse_tokens) g)
