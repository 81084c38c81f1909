-- ===== src/CsvDb/Tables.antt =====
-- Creating a database and adding rows: src/agent/tools/csv_db/operations.rs.
-- A row to add is a map from headers to cells.
pub mod Adding
use personal_productivity_ai.Common.{
  ℕ, zero, suc, Bool, true, false, not, Option, none, some, List, [], ◌∷◌, map, length,
  if◌then◌else◌,
}
use personal_productivity_ai.Common.Text.{Text, text_eq}
use personal_productivity_ai.Common.Dict.{Dict, lookup, insert, has_key}
use personal_productivity_ai.CsvDb.Value.{
  Error, database_exists, cannot_write, invalid_header, missing_header, no_database, cannot_read,
  cannot_read_headers, Outcome, ok, err, panic, out_of_fuel, ◌>>=◌,
}
use personal_productivity_ai.CsvDb.Database.{Csv, Record, get_db_path, open_db, write_file}

-- `headers.contains(key)`
unfoldable pub contains : Text → Record → Bool
unfolding text_eq
contains key [] = false
contains key (header ∷ headers) = if text_eq header key then true else contains key headers

-- The record of a row: its cells in the order of the headers, empty where one is missing.
unfoldable pub row_record : Record → Dict Text → Record
unfolding lookup
row_record [] row = []
row_record (header ∷ headers) row = elim (lookup header row) [
  | none ↦ [] ∷ row_record headers row
  | some cell ↦ cell ∷ row_record headers row
]

module _ {F : Type 0} where
  -- Every key of row `i` must be a header.
  unfoldable pub check_keys : ℕ → Record → Dict Text → Outcome {0} F Unit
  unfolding contains
  check_keys i headers [] = ok tt
  check_keys i headers ((key, cell) ∷ row) =
      if contains key headers then check_keys i headers row else err (invalid_header i key)

  -- Every header must be a key of row `i`.
  unfoldable pub check_headers : ℕ → Record → Dict Text → Outcome {0} F Unit
  unfolding has_key
  check_headers i [] row = ok tt
  check_headers i (header ∷ headers) row =
      if has_key header row then check_headers i headers row else err (missing_header i header)

  -- The validation of the rows, the first of which has index `i`.
  unfoldable pub check_rows : ℕ → Record → List (Dict Text) → Outcome {0} F Unit
  unfolding check_keys check_headers
  check_rows i headers [] = ok tt
  check_rows i headers (row ∷ rows) = check_keys i headers row >>= λ _.
      check_headers i headers row >>= λ _. check_rows (suc i) headers rows

module _ {F : Type 0} (csv : Csv) where
  open csv use {File, write_records, append}

  -- The bytes of the rows, in a buffer.
  unfoldable pub write_rows_to_writer : List (Dict Text) → Record → Outcome F File
  unfolding row_record
  write_rows_to_writer rows headers =
      let (buffer, complete) = write_records (map (row_record headers) rows) in
      if complete then ok buffer else err cannot_write

  -- `create_csv`, which returns the headers.
  unfoldable pub create_csv : Text → Record → Dict File → Dict File × Outcome F Record
  unfolding get_db_path has_key write_file
  create_csv db_name headers files =
      if has_key (get_db_path db_name) files
      then (files, err (database_exists db_name))
      else write_file csv (get_db_path db_name) (headers ∷ []) headers files

  -- What `add_rows` does before it writes: the file, and the buffer to append.
  unfoldable pub plan_add : Text → List (Dict Text) → Dict File → Outcome F (File × File)
  unfolding open_db check_rows write_rows_to_writer
  plan_add db_name rows files = do
    (file, headers) ← open_db csv db_name files
    _ ← check_rows 0 headers rows
    buffer ← write_rows_to_writer rows headers
    ok (file, buffer)

  unfoldable pub commit_add :
      Text → ℕ → Dict File → Outcome F (File × File) → Dict File × Outcome F ℕ
  unfolding insert get_db_path
  commit_add db_name count files (ok (file, buffer)) =
      let (after, complete) = append file buffer in
      (insert (get_db_path db_name) after files, if complete then ok count else err cannot_write)
  commit_add db_name count files (err e) = (files, err e)
  commit_add db_name count files panic = (files, panic)
  commit_add db_name count files out_of_fuel = (files, out_of_fuel)

  unfoldable pub add_rows : Text → List (Dict Text) → Dict File → Dict File × Outcome F ℕ
  unfolding plan_add commit_add
  add_rows db_name rows files = commit_add db_name (length rows) files (plan_add db_name rows files)
