-- ===== src/App/Arguments.antt =====
-- `parse_arguments` of src/app.c, on the arguments behind the program's name.
use week7_02_sql_index.Prelude.{
  ℕ, ◌+◌, Bool, true, false, not, ◌&&◌, ◌||◌, Option, none, some, List, [], ◌∷◌, ◌==◌, leb,
  if◌then◌else◌, take,
}
use week7_02_sql_index.Text.{Bytes, codes, str_eq}
use week7_02_sql_index.Number.Defs.{is_empty}
use week7_02_sql_index.Executor.State.{AppConfig}

-- the local variables of the loop
pub record Reading : Type 0 where
  pub config : AppConfig
  pub has_input_path : Bool
  pub mode_count : ℕ

-- `snprintf` into an array of 256 bytes
abbrev pub dir_text : Bytes → Bytes
dir_text argument = take 255 argument

abbrev pub set_schema_dir : Bytes → Reading → Reading
set_schema_dir argument r = record {
  config = record {
    schema_dir = dir_text argument;
    data_dir = r.config.data_dir;
    input_path = r.config.input_path;
    interactive_mode = r.config.interactive_mode;
    benchmark_mode = r.config.benchmark_mode;
  };
  has_input_path = r.has_input_path;
  mode_count = r.mode_count;
}

abbrev pub set_data_dir : Bytes → Reading → Reading
set_data_dir argument r = record {
  config = record {
    schema_dir = r.config.schema_dir;
    data_dir = dir_text argument;
    input_path = r.config.input_path;
    interactive_mode = r.config.interactive_mode;
    benchmark_mode = r.config.benchmark_mode;
  };
  has_input_path = r.has_input_path;
  mode_count = r.mode_count;
}

abbrev pub set_interactive : Reading → Reading
set_interactive r = record {
  config = record {
    schema_dir = r.config.schema_dir;
    data_dir = r.config.data_dir;
    input_path = r.config.input_path;
    interactive_mode = true;
    benchmark_mode = r.config.benchmark_mode;
  };
  has_input_path = r.has_input_path;
  mode_count = r.mode_count + 1;
}

abbrev pub set_benchmark : Reading → Reading
set_benchmark r = record {
  config = record {
    schema_dir = r.config.schema_dir;
    data_dir = r.config.data_dir;
    input_path = r.config.input_path;
    interactive_mode = r.config.interactive_mode;
    benchmark_mode = true;
  };
  has_input_path = r.has_input_path;
  mode_count = r.mode_count + 1;
}

abbrev pub set_input_path : Bytes → Reading → Reading
set_input_path argument r = record {
  config = record {
    schema_dir = r.config.schema_dir;
    data_dir = r.config.data_dir;
    input_path = dir_text argument;
    interactive_mode = r.config.interactive_mode;
    benchmark_mode = r.config.benchmark_mode;
  };
  has_input_path = true;
  mode_count = r.mode_count;
}

abbrev pub starts_with_dash : Bytes → Bool
starts_with_dash [] = false
starts_with_dash (c ∷ cs) = c == b'-'

-- an argument that takes no value
unfoldable pub read_single : Bytes → Reading → Option Reading
read_single argument r =
    if str_eq argument (codes "--interactive")
    then some (set_interactive r)
    else if str_eq argument (codes "-b") || str_eq argument (codes "--benchmark")
    then some (set_benchmark r)
    else if starts_with_dash argument
    then none
    else if r.has_input_path
    then none
    else some (set_input_path argument r)

pub data Kind : Type 0 where
  takes_schema_dir takes_data_dir single : Kind

abbrev pub kind_of : Bytes → Kind
kind_of argument =
    if str_eq argument (codes "--schema-dir")
    then takes_schema_dir
    else if str_eq argument (codes "--data-dir")
    then takes_data_dir
    else single

-- for (i = 1; i < argc; i++)
unfoldable pub read_arguments : List Bytes → Reading → Option Reading
read_arguments [] r = some r
read_arguments (argument ∷ []) r = elim (kind_of argument) [
  | takes_schema_dir ↦ none
  | takes_data_dir ↦ none
  | single ↦ read_single argument r
]
read_arguments (argument ∷ value ∷ rest) r = elim (kind_of argument) [
  | takes_schema_dir ↦ read_arguments rest (set_schema_dir value r)
  | takes_data_dir ↦ read_arguments rest (set_data_dir value r)
  | single ↦ elim (read_single argument r) [
    | none ↦ none
    | some next ↦ read_arguments (value ∷ rest) next
  ]
]

-- the checks behind the loop
unfoldable pub check_arguments : Reading → Option AppConfig
check_arguments r =
    if is_empty r.config.schema_dir || is_empty r.config.data_dir
    then none
    else if not (leb r.mode_count 1)
    then none
    else if r.has_input_path && not (r.mode_count == 0)
    then none
    else if not r.has_input_path && r.mode_count == 0
    then none
    else if not r.has_input_path || not (is_empty r.config.input_path)
    then some r.config
    else none

abbrev pub check_read : Option Reading → Option AppConfig
check_read none = none
check_read (some r) = check_arguments r

abbrev pub nothing_read : Reading
nothing_read = record {
  config = record {
    schema_dir = [];
    data_dir = [];
    input_path = [];
    interactive_mode = false;
    benchmark_mode = false;
  };
  has_input_path = false;
  mode_count = 0;
}

-- `none` is the answer 0
unfoldable pub parse_arguments : List Bytes → Option AppConfig
parse_arguments arguments = check_read (read_arguments arguments nothing_read)
