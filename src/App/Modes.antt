-- ===== src/App/Modes.antt =====
-- What `parse_arguments` accepts.
use week7_02_sql_index.Prelude.{
  ℕ, ◌+◌, ◌≤◌, ◌<◌, Bool, true, false, not, ◌&&◌, ◌||◌, Option, none, some, List, [], ◌∷◌, ◌≡◌, ◌≢◌,
  refl, ◌==◌, leb, take, length, length-take, arith, inl, inr, ◌⊎◌, if-either,
}
use week7_02_sql_index.Text.{Bytes, codes, str_eq}
use week7_02_sql_index.Number.Defs.{is_empty}
use week7_02_sql_index.Executor.State.{AppConfig}
use week7_02_sql_index.App.Arguments.{
  Reading, set_schema_dir, set_data_dir, starts_with_dash, read_single, Kind, takes_schema_dir,
  takes_data_dir, single, kind_of, read_arguments, check_arguments, check_read, nothing_read,
  parse_arguments,
}

abbrev one_if : Bool → ℕ
one_if true = 1
one_if false = 0

-- the modes of a config, counted
abbrev pub modes : AppConfig → ℕ
modes config = one_if config.interactive_mode + one_if config.benchmark_mode

-- texts that fit their arrays
abbrev pub FitsArrays : AppConfig → Type 0
FitsArrays config =
    (length config.schema_dir < 256)
    × (length config.data_dir < 256)
    × (length config.input_path < 256)

-- what the loop keeps: each mode was counted, a count has a mode, and without a path the text is empty
record IsReading (r : Reading) : Type 0 where
  fits : FitsArrays r.config
  counted : modes r.config ≤ r.mode_count
  has_mode : 1 ≤ r.mode_count → 1 ≤ modes r.config
  no_path : r.has_input_path ≡ false → r.config.input_path ≡ []

abbrev Reads : Option Reading → Type 0
Reads none = Unit
Reads (some r) = IsReading r

short : (text : Bytes) → length (take 255 text) < 256
short text = omega (arith, length-take 255 text)

one_if-bound : (b : Bool) → one_if b ≤ 1
one_if-bound true = omega arith
one_if-bound false = omega arith

read_single-Reads : (argument : Bytes) (r : Reading) → IsReading r → Reads (read_single argument r)
unfolding read_single
read_single-Reads argument r h =
    let other = one_if-bound r.config.interactive_mode in
    let another = one_if-bound r.config.benchmark_mode in
    if-either Reads (str_eq argument (codes "--interactive")) _ _
      (λ e. record {
        fits = h.fits;
        counted = omega (arith, h.counted, other, another);
        has_mode = λ some_mode. omega arith;
        no_path = h.no_path;
      })
      (λ e.
        if-either Reads (str_eq argument (codes "-b") || str_eq argument (codes "--benchmark")) _ _
          (λ e. record {
            fits = h.fits;
            counted = omega (arith, h.counted, other, another);
            has_mode = λ some_mode. omega arith;
            no_path = h.no_path;
          })
          (λ e.
            if-either Reads (starts_with_dash argument) _ _ (λ e. tt)
              (λ e.
                if-either Reads r.has_input_path _ _ (λ e. tt)
                  (λ e. record {
                    fits = (h.fits.0, h.fits.1, short argument);
                    counted = h.counted;
                    has_mode = h.has_mode;
                    no_path = λ e. cc;
                  }))))

read_arguments-Reads :
    (arguments : List Bytes) (r : Reading) → IsReading r → Reads (read_arguments arguments r)
unfolding read_arguments
read_arguments-Reads [] r h = h
read_arguments-Reads (argument ∷ []) r h = by_kind (kind_of argument)
  where
    by_kind :
        (k : Kind)
        → Reads (elim k as (λ x. Option Reading) [
          | takes_schema_dir ↦ none
          | takes_data_dir ↦ none
          | single ↦ read_single argument r
        ])
    by_kind takes_schema_dir = tt
    by_kind takes_data_dir = tt
    by_kind single = read_single-Reads argument r h
read_arguments-Reads (argument ∷ value ∷ rest) r h =
    by_kind (kind_of argument) _ _ _
      (read_arguments-Reads rest (set_schema_dir value r) (record {
        fits = (short value, h.fits.1, h.fits.2);
        counted = h.counted;
        has_mode = h.has_mode;
        no_path = h.no_path;
      }))
      (read_arguments-Reads rest (set_data_dir value r) (record {
        fits = (h.fits.0, short value, h.fits.2);
        counted = h.counted;
        has_mode = h.has_mode;
        no_path = h.no_path;
      }))
      (by_next (read_single argument r) (read_single-Reads argument r h)
        (λ next h'. read_arguments-Reads (value ∷ rest) next h'))
  where
    by_next :
        (o : Option Reading)
        → Reads o
        → ((next : Reading) → IsReading next → Reads (read_arguments (value ∷ rest) next))
        → Reads (elim o as (λ x. Option Reading) [
          | none ↦ none
          | some next ↦ read_arguments (value ∷ rest) next
        ])
    by_next none h g = tt
    by_next (some next) h g = g next h

    by_kind :
        (k : Kind) (p q s : Option Reading)
        → Reads p
        → Reads q
        → Reads s
        → Reads (elim k as (λ x. Option Reading) [
          | takes_schema_dir ↦ p
          | takes_data_dir ↦ q
          | single ↦ s
        ])
    by_kind takes_schema_dir p q s a b c = a
    by_kind takes_data_dir p q s a b c = b
    by_kind single p q s a b c = c

nonempty : (text : Bytes) → is_empty text ≡ false → text ≢ []
nonempty [] e f = cc
nonempty (c ∷ cs) e f = cc

either_false : (a b : Bool) → (a || b) ≡ false → (a ≡ false) × (b ≡ false)
either_false true b e = cc
either_false false b e = (refl, e)

-- directories, and either a SQL file or one mode
abbrev pub IsRunnable : AppConfig → Type 0
IsRunnable config =
    FitsArrays config
    × (config.schema_dir ≢ [])
    × (config.data_dir ≢ [])
    × (((config.input_path ≢ []) × (modes config ≡ 0))
        ⊎ ((config.input_path ≡ []) × (modes config ≡ 1)))

abbrev Runs : Option AppConfig → Type 0
Runs none = Unit
Runs (some config) = IsRunnable config

check_arguments-Runs : (r : Reading) → IsReading r → Runs (check_arguments r)
unfolding check_arguments
check_arguments-Runs r h =
    if-either Runs (is_empty r.config.schema_dir || is_empty r.config.data_dir) _ _ (λ e. tt)
      (λ dirs.
        if-either Runs (not (leb r.mode_count 1)) _ _ (λ e. tt)
          (λ few.
            if-either Runs (r.has_input_path && not (r.mode_count == 0)) _ _ (λ e. tt)
              (λ not_both.
                if-either Runs (not r.has_input_path && r.mode_count == 0) _ _ (λ e. tt)
                  (λ not_neither.
                    if-either Runs (not r.has_input_path || not (is_empty r.config.input_path)) _ _
                      (λ named.
                        let (schema_dir, data_dir) = either_false _ _ dirs in
                        (
                          h.fits,
                          nonempty r.config.schema_dir schema_dir,
                          nonempty r.config.data_dir data_dir,
                          by_path r.has_input_path (leb-one r.mode_count few) not_both not_neither
                              named h.no_path,
                        ))
                      (λ e. tt)))))
  where
    leb-one : (n : ℕ) → not (leb n 1) ≡ false → n ≤ 1
    leb-one n e = ground (arith, e)

    empty_false : (b : Bool) → not b ≡ true → b ≡ false
    empty_false true e = cc
    empty_false false e = refl

    by_path :
        (p : Bool)
        → r.mode_count ≤ 1
        → (p && not (r.mode_count == 0)) ≡ false
        → (not p && r.mode_count == 0) ≡ false
        → (not p || not (is_empty r.config.input_path)) ≡ true
        → (p ≡ false → r.config.input_path ≡ [])
        → ((r.config.input_path ≢ []) × (modes r.config ≡ 0))
          ⊎ ((r.config.input_path ≡ []) × (modes r.config ≡ 1))
    by_path true few not_both not_neither named no_path =
        let zero_modes : r.mode_count ≡ 0 = ground (arith, not_both) in
        inl
          (nonempty r.config.input_path (empty_false _ named), omega (arith, zero_modes, h.counted))
    by_path false few not_both not_neither named no_path =
        let one_mode : 1 ≤ r.mode_count = ground (arith, not_neither) in
        inr (no_path refl, omega (arith, one_mode, few, h.counted, h.has_mode one_mode))

-- Arguments that are accepted name two directories that fit their arrays, and either a SQL file or exactly one
-- of the two modes.
pub parse_arguments-IsRunnable :
    (arguments : List Bytes) (config : AppConfig)
    → parse_arguments arguments ≡ some config
    → IsRunnable config
unfolding parse_arguments
parse_arguments-IsRunnable arguments config e = rw e at (
    by_read (read_arguments arguments nothing_read)
      (read_arguments-Reads arguments nothing_read start))
  where
    start : IsReading nothing_read
    start = record {
      fits = (omega arith, omega arith, omega arith);
      counted = omega arith;
      has_mode = λ h. absurd (omega arith);
      no_path = λ e. refl;
    }

    by_read : (o : Option Reading) → Reads o → Runs (check_read o)
    by_read none h = tt
    by_read (some r) h = check_arguments-Runs r h
