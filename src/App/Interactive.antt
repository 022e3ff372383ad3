-- ===== src/App/Interactive.antt =====
-- `run_interactive_program` of src/app.c, on the lines that `fgets` reads from stdin. `print_error` writes to
-- stderr; the errors are listed.
use week7_02_sql_index.Prelude.{
  ℕ, Bool, true, Option, none, some, List, [], ◌∷◌, ◌++◌, ◌≡◌, append_assoc, append-nil, All,
  if◌then◌else◌,
}
use mathlib.Core.Path.{subst}
use week7_02_sql_index.Text.{Bytes, codes, span}
use week7_02_sql_index.Sql.{TableSchema, ErrorInfo, Result, ok, err}
use week7_02_sql_index.Number.Defs.{is_empty}
use week7_02_sql_index.Tokenizer.Defs.{tokenize_sql}
use week7_02_sql_index.Storage.Table.Defs.{is_byte}
use week7_02_sql_index.Executor.State.{AppConfig, World, text, print}
use week7_02_sql_index.Executor.Coherent.Defs.{IsConfig, IsKeyed, IsCoherent}
use week7_02_sql_index.App.Run.{trim_line_end, is_exit_command, run_sql_text}
use week7_02_sql_index.App.Session.{TextIsOn, run_sql_text-Grown}

pub data Command : Type 0 where
  exit_loop nothing : Command
  sql : Bytes → Command

abbrev pub command_from : Bytes → Command
command_from line =
    if is_exit_command line then exit_loop else if is_empty line then nothing else sql line

-- the command in a line as it was read
abbrev pub command_of : Bytes → Command
command_of line = command_from (trim_line_end (span is_byte line).0)

abbrev pub prompt : World → World
prompt w = print (text (codes "sqlproc> ")) w

-- `if (!run_sql_text(...)) { print_error(&error); }`
abbrev pub reported : Result {0} Unit → List ErrorInfo → List ErrorInfo
reported (err e) errors = e ∷ errors
reported (ok u) errors = errors

abbrev pub report :
    Result {0} Unit → Option (World × List ErrorInfo) → Option (World × List ErrorInfo)
report r none = none
report r (some (w, errors)) = some (w, reported r errors)

module _ (schema_files : Bytes → Option Bytes) (calloc realloc : ℕ → ℕ → Bool)
    (config : AppConfig) where
  -- `while (1)`; `none` where the fuel of `run_sql_text` is used up
  unfoldable pub interactive_loop : List Bytes → World → Option (World × List ErrorInfo)
  interactive_loop [] w = some (print (text (b'\n' ∷ [])) (prompt w), [])
  interactive_loop (line ∷ lines) w = elim (command_of line) [
    | exit_loop ↦ some (prompt w, [])
    | nothing ↦ interactive_loop lines (prompt w)
    | sql sql_text ↦ elim (run_sql_text schema_files calloc realloc config sql_text (prompt w)) [
      | none ↦ none
      | some answer ↦ report answer.1 (interactive_loop lines answer.0)
    ]
  ]

  unfoldable pub run_interactive_program : List Bytes → World → Option (World × List ErrorInfo)
  run_interactive_program lines w = interactive_loop lines (
      print (text (codes "type .exit to quit" ++ b'\n' ∷ []))
        (print (text (codes "sqlproc interactive mode" ++ b'\n' ∷ [])) w))

module _ (config : AppConfig) (schema : TableSchema) (i : ℕ) (c : IsConfig config)
    (k : IsKeyed schema i) (schema_files : Bytes → Option Bytes) (calloc realloc : ℕ → ℕ → Bool)
    (enough : (t n : ℕ) → calloc t n ≡ true) where
  -- SQL in the line, if there is any, is about the table
  abbrev pub CommandIsOn : Command → Type 0
  CommandIsOn exit_loop = Unit
  CommandIsOn nothing = Unit
  CommandIsOn (sql sql_text) =
      TextIsOn config schema i c k schema_files calloc realloc enough (tokenize_sql sql_text)

  -- an end of the loop with the table coherent, its rows the old ones and others behind them
  abbrev pub Ends : List (List Bytes) → Option (World × List ErrorInfo) → Type 0
  Ends rows none = ⊥
  Ends rows (some (w, errors)) =
      (more : List (List Bytes)) × IsCoherent config schema i (rows ++ more) w

  printed-IsCoherent :
      (rows : List (List Bytes)) (out : Bytes) (w : World)
      → IsCoherent config schema i rows w
      → IsCoherent config schema i rows (print (text out) w)
  printed-IsCoherent rows out w h = record {
    readable = h.readable;
    distinct = h.distinct;
    file = h.file;
    state = h.state;
  }

  as_before :
      (rows : List (List Bytes)) (w : World) (errors : List ErrorInfo)
      → IsCoherent config schema i rows w
      → Ends rows (some (w, errors))
  as_before rows w errors h = ([], rw append-nil h)

  report-Ends :
      (rows first : List (List Bytes)) (r : Result {0} Unit) (o : Option (World × List ErrorInfo))
      → Ends (rows ++ first) o
      → Ends rows (report r o)
  report-Ends rows first r none h = h
  report-Ends rows first r (some (w, errors)) (more, h) = (
    first ++ more,
    subst (λ rs. IsCoherent config schema i rs w) (append_assoc rows first more) h,
  )

  loop-Ends :
      (lines : List Bytes) (rows : List (List Bytes)) (w : World)
      → All (λ line. CommandIsOn (command_of line)) lines
      → IsCoherent config schema i rows w
      → Ends rows (interactive_loop schema_files calloc realloc config lines w)
  unfolding interactive_loop
  loop-Ends [] rows w on h =
      as_before rows _ [] (printed-IsCoherent rows _ _ (printed-IsCoherent rows _ w h))
  loop-Ends (line ∷ lines) rows w on h =
      by_command (command_of line) on.0 (printed-IsCoherent rows _ w h)
        (λ rows w h. loop-Ends lines rows w on.1 h)
    where
      by_command :
          (command : Command)
          → CommandIsOn command
          → IsCoherent config schema i rows (prompt w)
          → ((rows : List (List Bytes)) (w : World)
              → IsCoherent config schema i rows w
              → Ends rows (interactive_loop schema_files calloc realloc config lines w))
          → Ends rows (elim command as (λ x. Option (World × List ErrorInfo)) [
            | exit_loop ↦ some (prompt w, [])
            | nothing ↦ interactive_loop schema_files calloc realloc config lines (prompt w)
            | sql sql_text ↦
                elim (run_sql_text schema_files calloc realloc config sql_text (prompt w)) [
                  | none ↦ none
                  | some answer ↦
                      report answer.1
                        (interactive_loop schema_files calloc realloc config lines answer.0)
                ]
          ])
      by_command exit_loop on h rest = as_before rows (prompt w) [] h
      by_command nothing on h rest = rest rows (prompt w) h
      by_command (sql sql_text) on h rest =
          let (answer, runs, (first, grown)) =
            run_sql_text-Grown config schema i c k schema_files calloc realloc enough sql_text rows
              (prompt w) on h in
          rw runs (report-Ends rows first answer.1 _ (rest (rows ++ first) answer.0 grown))

  -- With memory, an interactive session whose statements are about a coherent table ends when its lines do, and
  -- leaves the table coherent with its old rows and others behind them, whatever errors there were.
  pub run_interactive_program-Ends :
      (lines : List Bytes) (rows : List (List Bytes)) (w : World)
      → All (λ line. CommandIsOn (command_of line)) lines
      → IsCoherent config schema i rows w
      → Ends rows (run_interactive_program schema_files calloc realloc config lines w)
  unfolding run_interactive_program
  run_interactive_program-Ends lines rows w on h =
      loop-Ends lines rows _ on (printed-IsCoherent rows _ _ (printed-IsCoherent rows _ w h))
