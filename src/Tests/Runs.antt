-- ===== src/Tests/Runs.antt =====
-- Arguments and SQL text from the outside.
use week7_02_sql_index.Prelude.{none, some, List, [], ◌∷◌, ◌≡◌, refl, All}
use week7_02_sql_index.Text.{Bytes, codes, str_eq, span}
use week7_02_sql_index.Sql.{Result, type_value}
use week7_02_sql_index.Tokenizer.Defs.{
  keyword_type, append_token, append_word, read_word, read_symbol, next_token, lex_loop,
  tokenize_sql,
}
use week7_02_sql_index.Parser.Defs.{
  consume_token, copy_name, parse_identifier, parse_selection, parse_where, parse_select_statement,
  parse_statement, parse_statements, parse_program,
}
use week7_02_sql_index.Executor.State.{World}
use week7_02_sql_index.Executor.Coherent.Program.{Grown}
use week7_02_sql_index.App.Arguments.{read_single, read_arguments, check_arguments, parse_arguments}
use week7_02_sql_index.App.Modes.{IsRunnable, parse_arguments-IsRunnable}
use week7_02_sql_index.App.Run.{run_sql_text, trim_line_end, is_exit_command}
use week7_02_sql_index.App.Session.{TextIsOn, run_sql_text-Grown}
use week7_02_sql_index.Tests.Files.{users}
use week7_02_sql_index.Tests.Sessions.{
  config, config-IsConfig, users-IsKeyed, schema_files, granted, users_loads, stored,
  stored-IsCoherent,
}
use week7_02_sql_index.Tests.Scans.{users_rows}
use week7_02_sql_index.App.Interactive.{
  CommandIsOn, command_of, Ends, run_interactive_program, run_interactive_program-Ends,
}

abbrev arguments : List Bytes
arguments =
    codes "--schema-dir" ∷ codes "schema" ∷ codes "run.sql" ∷ codes "--data-dir" ∷ codes "data" ∷ []

arguments-parse : parse_arguments arguments ≡ some config
unfolding str_eq read_single read_arguments check_arguments parse_arguments
arguments-parse = refl

parse_arguments-IsRunnable_example : IsRunnable config
parse_arguments-IsRunnable_example = parse_arguments-IsRunnable arguments config arguments-parse

-- A mode and a file exclude each other.
both_modes : parse_arguments (codes "--interactive" ∷ arguments) ≡ none
unfolding str_eq read_single read_arguments check_arguments parse_arguments
both_modes = refl

line_end : trim_line_end (codes "exit\r\n") ≡ codes "exit"
unfolding trim_line_end
line_end = refl

abbrev select_text : Bytes
select_text = codes "SELECT * FROM users;"

text-TextIsOn :
    TextIsOn config users 0 config-IsConfig users-IsKeyed schema_files granted granted
      (λ t n. refl)
      (tokenize_sql select_text)
unfolding keyword_type str_eq span append_token append_word read_word read_symbol next_token
    lex_loop tokenize_sql consume_token copy_name parse_identifier parse_selection parse_where
    parse_select_statement parse_statement parse_statements parse_program type_value
text-TextIsOn = (users_loads, tt)

run_sql_text-Grown_example :
    (answer : World × Result {0} Unit) × (run_sql_text schema_files granted granted config
        select_text stored
      ≡ some answer)
    × Grown config users 0 config-IsConfig users-IsKeyed schema_files granted granted
        (λ t n. refl)
        users_rows
        answer
run_sql_text-Grown_example =
    run_sql_text-Grown config users 0 config-IsConfig users-IsKeyed schema_files granted granted
      (λ t n. refl) select_text users_rows stored text-TextIsOn stored-IsCoherent

abbrev lines : List Bytes
lines = codes "SELECT * FROM users;\n" ∷ codes "\n" ∷ codes ".exit\n" ∷ []

lines-CommandIsOn :
    All
      (λ line.
        CommandIsOn config users 0 config-IsConfig users-IsKeyed schema_files granted granted
          (λ t n. refl)
          (command_of line))
      lines
unfolding trim_line_end is_exit_command str_eq span
lines-CommandIsOn = (text-TextIsOn, (tt, (tt, tt)))

run_interactive_program-Ends_example :
    Ends config users 0 config-IsConfig users-IsKeyed schema_files granted granted
      (λ t n. refl)
      users_rows
      (run_interactive_program schema_files granted granted config lines stored)
run_interactive_program-Ends_example =
    run_interactive_program-Ends config users 0 config-IsConfig users-IsKeyed schema_files granted
      granted (λ t n. refl) lines users_rows stored lines-CommandIsOn stored-IsCoherent
