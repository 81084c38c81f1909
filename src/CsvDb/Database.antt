-- ===== src/CsvDb/Database.antt =====
-- The operations of src/agent/tools/csv_db/query.rs and operations.rs on the files of the databases.
-- The csv crate and the disk are a parameter (`Csv`). The directory is a map from file names to
-- files; an operation returns the directory it leaves and its result.
pub mod Rows
pub mod Counts
use personal_productivity_ai.Common.{
  ℕ, zero, suc, ◌+◌, Bool, true, false, not, ◌||◌, Option, none, some, List, [], ◌∷◌, ◌++◌, length,
  map, ltb, ◌==◌, ◌≡◌, if◌then◌else◌,
}
use personal_productivity_ai.Common.Text.{Text, codes, text_eq}
use personal_productivity_ai.Common.Dict.{Dict, lookup, insert, has_key}
use personal_productivity_ai.Common.Int.{ℤ, pos}
use personal_productivity_ai.CsvDb.Value.{
  Float, Unicode, Value, Error, no_database, database_exists, unsupported_aggregate, cannot_read,
  cannot_read_headers, invalid_record, cannot_write, invalid_header, missing_header, Outcome, ok,
  err, panic, out_of_fuel, ◌>>=◌,
}
use personal_productivity_ai.CsvDb.Lexer.{parse_i64}
use personal_productivity_ai.CsvDb.Parser.{Expr, parse}
use personal_productivity_ai.CsvDb.Eval.{eval_boolean}

abbrev pub Record : Type 0
Record = List Text

-- A header record that is read back as it was written: it has a cell, and does not begin with a byte
-- order mark, which the reader drops.
abbrev pub is_plain_header : Record → Bool
is_plain_header [] = false
is_plain_header ([] ∷ headers) = true
is_plain_header ((c ∷ header) ∷ headers) = not (c == 65279)

-- The csv crate on a disk. `records` holds `none` where the reader yields an error. `write_records`
-- is a writer on a new file: what the file then holds, and whether every call succeeded; `append` is
-- the same for the bytes added to a file. A file that a writer completed is read back.
pub record Csv : Type 1 where
  pub File : Type 0
  pub can_open : File → Bool
  pub headers : File → Option Record
  pub records : File → List (Option Record)
  pub write_records : List Record → File × Bool
  pub append : File → File → File × Bool
  pub can_open_written :
      (header : Record) (rows : List Record)
      → (write_records (header ∷ rows)).1 ≡ true
      → can_open ((write_records (header ∷ rows)).0) ≡ true
  pub headers_written :
      (header : Record) (rows : List Record)
      → is_plain_header header ≡ true
      → (write_records (header ∷ rows)).1 ≡ true
      → headers ((write_records (header ∷ rows)).0) ≡ some header
  pub records_written :
      (header : Record) (rows : List Record)
      → is_plain_header header ≡ true
      → (write_records (header ∷ rows)).1 ≡ true
      → records ((write_records (header ∷ rows)).0) ≡ map some rows

pub record QueryRequest : Type 0 where
  pub db_name : Text
  pub predicate : Option Text
  pub aggregate_col : Option Text
  pub aggregate_func : Option Text

pub record QueryResponse (F : Type 0) : Type 0 where
  pub rows : List (Dict Text)
  pub aggregate_result : Option F

unfoldable pub get_db_path : Text → Text
get_db_path db_name = db_name ++ codes ".csv"

abbrev pub or_error {ℓ} : {F : Type 0} {A : Type ℓ} → Error F → Option A → Outcome F A
or_error e none = err e
or_error e (some a) = ok a

-- The key and value pairs of a row, as `query_csv` returns it.
unfoldable pub row_map_from : Dict Text → Record → Record → Dict Text
unfolding insert
row_map_from m row [] = m
row_map_from m [] (header ∷ headers) = row_map_from (insert header [] m) [] headers
row_map_from m (value ∷ row) (header ∷ headers) = row_map_from (insert header value m) row headers

module _ {F : Type 0} (csv : Csv) where
  open csv use {File, can_open, write_records}

  abbrev pub with_headers : File → Outcome F (File × Record)
  with_headers file =
      if can_open file
      then (or_error cannot_read_headers (csv.headers file) >>= λ headers. ok (file, headers))
      else err cannot_read

  -- The file of a database that exists and can be read, with its headers.
  unfoldable pub open_db : Text → Dict File → Outcome F (File × Record)
  unfolding get_db_path lookup
  open_db db_name files =
      or_error (no_database db_name) (lookup (get_db_path db_name) files) >>= with_headers

  -- A new file is written: its path holds what reached the disk, also where the writer failed.
  unfoldable pub write_file {ℓ} :
      {A : Type ℓ} → Text → List Record → A → Dict File → Dict File × Outcome F A
  unfolding insert
  write_file path records result files =
      let (file, complete) = write_records records in
      (insert path file files, if complete then ok result else err cannot_write)

module _ (f : Float) where
  open f use {F, parse_float, of_int, zero_float}

  abbrev pub cell_of : Text → Option ℤ → Option F → Value F
  cell_of val (some n) x = Value.int n
  cell_of val none (some x) = Value.float x
  cell_of val none none = Value.string val

  -- The value of a cell: an integer, else a float, else its text.
  unfoldable pub cell : Text → Value F
  unfolding parse_i64
  cell val = cell_of val (parse_i64 val) (parse_float val)

  unfoldable pub context_from : Dict (Value F) → Record → Record → Dict (Value F)
  unfolding insert cell
  context_from context row [] = context
  context_from context [] (header ∷ headers) = context
  context_from context (val ∷ row) (header ∷ headers) =
      context_from (insert header (cell val) context) row headers

  unfoldable pub create_context : Record → Record → Dict (Value F)
  unfolding context_from
  create_context row headers = context_from [] row headers

  abbrev pub add_number : Option F → F × ℕ → F × ℕ
  add_number none acc = acc
  add_number (some x) (sum, count) = (f.add sum x, suc count)

  abbrev pub parse_cell : Option Text → Option F
  parse_cell none = none
  parse_cell (some s) = parse_float s

  -- The sum and the count of the column's numbers.
  unfoldable pub sum_column : Text → List (Dict Text) → F × ℕ → F × ℕ
  unfolding lookup
  sum_column col [] acc = acc
  sum_column col (row ∷ rows) acc =
      sum_column col rows (add_number (parse_cell (lookup col row)) acc)

module _ (f : Float) (u : Unicode) (checks : Bool) where
  open f use {F, of_int, zero_float}

  -- The test of a row: every row passes where there is no predicate.
  unfoldable pub passes : Option (Expr F) → Record → Record → Outcome F Bool
  unfolding create_context eval_boolean
  passes none headers row = ok true
  passes (some e) headers row = eval_boolean f checks (create_context f row headers) e

  -- The loop of `query_csv` over the records.
  unfoldable pub matched_rows :
      Option (Expr F) → Record → List (Option Record) → Outcome F (List (Dict Text))
  unfolding row_map_from passes
  matched_rows e headers [] = ok []
  matched_rows e headers (none ∷ rest) = err invalid_record
  matched_rows e headers (some row ∷ rest) = do
    matches ← passes e headers row
    rows ← matched_rows e headers rest
    ok (if matches then row_map_from [] row headers ∷ rows else rows)

  -- The loop of `delete_rows`: the number of the rows deleted, and the rows kept.
  unfoldable pub kept_rows : Expr F → Record → List (Option Record) → Outcome F (ℕ × List Record)
  unfolding passes
  kept_rows e headers [] = ok (0, [])
  kept_rows e headers (none ∷ rest) = err invalid_record
  kept_rows e headers (some row ∷ rest) = do
    matches ← passes (some e) headers row
    (deleted, kept) ← kept_rows e headers rest
    ok (if matches then (suc deleted, kept) else (deleted, row ∷ kept))

  unfoldable pub parse_predicate : Option Text → Outcome F (Option (Expr F))
  unfolding parse
  parse_predicate none = ok none
  parse_predicate (some p) = parse f u p >>= λ e. ok (some e)

  abbrev pub average : F × ℕ → F
  average (sum, count) = if ltb 0 count then f.div sum (of_int (pos count)) else zero_float

  -- The aggregate of the rows, where a column and a function are given.
  unfoldable pub aggregate : Option Text → Option Text → List (Dict Text) → Outcome F (Option F)
  unfolding text_eq sum_column
  aggregate (some col) (some func) rows =
      let acc = sum_column f col rows (zero_float, 0) in
      let name = u.to_lowercase func in
      if text_eq name (codes "sum")
      then ok (some acc.0)
      else if text_eq name (codes "average") || text_eq name (codes "avg")
      then ok (some (average acc))
      else err (unsupported_aggregate func)
  aggregate (some col) none rows = ok none
  aggregate none func rows = ok none

  module _ (csv : Csv) where
    open csv use {File}

    -- What `delete_rows` writes: the headers, the number of rows deleted, and the rows kept.
    unfoldable pub plan_delete : Text → Text → Dict File → Outcome F (Record × ℕ × List Record)
    unfolding open_db parse kept_rows
    plan_delete db_name predicate files = do
      (file, headers) ← open_db csv db_name files
      e ← parse f u predicate
      (deleted, kept) ← kept_rows e headers (csv.records file)
      ok (headers, deleted, kept)

    unfoldable pub commit_delete :
        Text → Dict File → Outcome F (Record × ℕ × List Record) → Dict File × Outcome F ℕ
    unfolding write_file get_db_path
    commit_delete db_name files (ok (headers, deleted, kept)) =
        write_file csv (get_db_path db_name) (headers ∷ kept) deleted files
    commit_delete db_name files (err e) = (files, err e)
    commit_delete db_name files panic = (files, panic)
    commit_delete db_name files out_of_fuel = (files, out_of_fuel)

    unfoldable pub delete_rows : Text → Text → Dict File → Dict File × Outcome F ℕ
    unfolding plan_delete commit_delete
    delete_rows db_name predicate files =
        commit_delete db_name files (plan_delete db_name predicate files)

    unfoldable pub query_csv : QueryRequest → Dict File → Outcome F (QueryResponse F)
    unfolding open_db parse_predicate matched_rows aggregate
    query_csv input files = do
      (file, headers) ← open_db csv (input.db_name) files
      e ← parse_predicate (input.predicate)
      rows ← matched_rows e headers (csv.records file)
      result ← aggregate (input.aggregate_col) (input.aggregate_func) rows
      ok (record { rows = rows; aggregate_result = result })
