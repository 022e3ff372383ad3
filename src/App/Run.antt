-- ===== src/App/Run.antt =====
-- The other functions of src/app.c that compute: a SQL file, a line of the interactive mode, and SQL text
-- through the tokenizer, the parser and the executor.
use week7_02_sql_index.Prelude.{
  ℕ, ◌-◌, Bool, ◌||◌, Option, none, some, List, [], ◌∷◌, ◌==◌, leb, if◌then◌else◌, length,
}
use week7_02_sql_index.Text.{Bytes, codes, str_eq, span}
use week7_02_sql_index.Sql.{
  Result, err, ok, ◌>>=◌, error_at, sql_unopened, sql_too_large, Token, Statement,
}
use week7_02_sql_index.Tokenizer.Defs.{tokenize_sql}
use week7_02_sql_index.Parser.Defs.{parse_program}
use week7_02_sql_index.Storage.Table.Defs.{is_byte}
use week7_02_sql_index.Executor.State.{AppConfig, World, ◌&>◌, lift}
use week7_02_sql_index.Executor.Select.{execute_program}

-- A file that cannot be opened is `none`; the text ends at the first NUL.
unfoldable pub load_sql_file : ℕ → Option Bytes → Result Bytes
load_sql_file buffer_size none = err (error_at sql_unopened 0 0)
load_sql_file buffer_size (some file) =
    if leb (length file) (buffer_size - 1)
    then ok (span is_byte file).0
    else err (error_at sql_too_large 0 0)

abbrev pub max_sql_size : ℕ
max_sql_size = 8192

abbrev pub is_line_end : ℕ → Bool
is_line_end c = c == b'\n' || c == b'\r'

-- a byte in front of what is left of the line behind it
abbrev pub in_front : ℕ → Bytes → Bytes
in_front c [] = if is_line_end c then [] else c ∷ []
in_front c (d ∷ ds) = c ∷ d ∷ ds

unfoldable pub trim_line_end : Bytes → Bytes
trim_line_end [] = []
trim_line_end (c ∷ cs) = in_front c (trim_line_end cs)

unfoldable pub is_exit_command : Bytes → Bool
is_exit_command line =
    str_eq line (codes ".exit") || (str_eq line (codes "exit") || str_eq line (codes "quit"))

-- A list of tokens ends with the end of the text, so it is never empty.
abbrev pub parse_tokens : List Token → Result (List Statement)
parse_tokens [] = ok []
parse_tokens (first ∷ rest) = parse_program first rest

module _ (schema_files : Bytes → Option Bytes) (calloc realloc : ℕ → ℕ → Bool)
    (config : AppConfig) where
  abbrev pub run_tokens : Option (Result (List Token)) → World → Option (World × Result {0} Unit)
  run_tokens none w = none
  run_tokens (some tokens) w =
      some (lift (tokens >>= parse_tokens) w &> execute_program schema_files calloc realloc config)

  -- `none` where the tokenizer's fuel is used up
  unfoldable pub run_sql_text : Bytes → World → Option (World × Result {0} Unit)
  run_sql_text sql_text w = run_tokens (tokenize_sql sql_text) w

  abbrev pub run_loaded : Result Bytes → World → Option (World × Result {0} Unit)
  run_loaded (err e) w = some (w, err e)
  run_loaded (ok sql_text) w = run_sql_text sql_text w

  -- `sql_file` is the file at the path
  unfoldable pub run_sql_file : Option Bytes → World → Option (World × Result {0} Unit)
  run_sql_file sql_file w = run_loaded (load_sql_file max_sql_size sql_file) w
